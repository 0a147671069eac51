-- ===== src/Session/Issue.antt =====
-- Issuing tokens: services/token (issue_access_token.go, generate_refresh_token.go,
-- save_refresh_token.go) and services/auth (issue_token_pair.go, session_ttls.go).
use maintmode.Base.{
  ℕ, ◌+◌, ◌*◌, ◌/◌, String, false, Option, none, some, str_eq, leb, ◌==◌, if◌then◌else◌, find,
}
use maintmode.World.Effect.{M, ◌>>=◌, ◌>>◌, call, query, pure, throw, throw_if, utc_now, fresh_id}
use maintmode.World.Errors.{missing_session_id, user_not_found, user_blocked, store_failure}
use maintmode.Session.{Config, Crypto, second, minute}
use maintmode.Session.Tokens.{save}
use maintmode.Entity.User.{User, is_blocked}
use maintmode.Entity.Session.{AccessClaims, RefreshToken, TokenPair, text_of}

-- `SessionTTLs`
pub record SessionTtls : Type 0 where
  pub access : ℕ
  pub max_lifetime : ℕ

abbrev pub break_glass_access_token_ttl : ℕ
break_glass_access_token_ttl = 5 * minute

abbrev pub break_glass_session_lifetime : ℕ
break_glass_session_lifetime = 24 * (60 * minute)

abbrev pub min : ℕ → ℕ → ℕ
min a b = if leb a b then a else b

-- `cmp.Or` on texts.
abbrev or_text : String → String → String
or_text a b = if str_eq a "" then b else a

unfoldable pub session_expires_at : ℕ → ℕ → ℕ
session_expires_at started_at max_lifetime = ((started_at + max_lifetime) / second) * second

-- `usersStore.GetByID`
abbrev pub found_user : Option User → M User
found_user none = throw user_not_found
found_user (some u) = pure u

unfoldable pub get_by_id : ℕ → M User
get_by_id user_id = query (λ db. find (λ u. u.id == user_id) db.users) >>= found_user

module _ (crypto : Crypto) (cfg : Config) where
  unfoldable pub session_ttls : User → SessionTtls
  session_ttls user =
      if crypto.is_break_glass_email user.email
      then record {
        access = min cfg.access_token_ttl break_glass_access_token_ttl;
        max_lifetime = min cfg.session_max_lifetime break_glass_session_lifetime;
      }
      else record { access = cfg.access_token_ttl; max_lifetime = cfg.session_max_lifetime }

  unfoldable pub session_ttls_for : ℕ → M SessionTtls
  unfolding session_ttls
  session_ttls_for user_id = get_by_id user_id >>= λ user. pure (session_ttls user)

  -- `jwt.NewNumericDate` keeps whole seconds.
  unfoldable pub access_claims : ℕ → ℕ → User → ℕ → ℕ → AccessClaims
  access_claims now ttl user session_id jti = record {
    user_name = or_text user.name (or_text user.email "unknown");
    user_email = user.email;
    user_roles = user.roles;
    session_id = text_of session_id;
    id = text_of jti;
    subject = text_of user.id;
    issuer = cfg.issuer;
    issued_at = now / second;
    expires_at = (now + ttl) / second;
  }

  -- A signing that fails is `store_failure`.
  unfoldable pub signed : Option String → M String
  signed none = throw store_failure
  signed (some token) = pure token

  unfoldable pub issue_access_token : ℕ → User → ℕ → M String
  unfolding access_claims signed
  issue_access_token ttl user session_id = do
    throw_if (is_blocked user) user_blocked
    throw_if (session_id == 0) missing_session_id
    now ← utc_now
    jti ← fresh_id
    signed (crypto.signed_string (access_claims now ttl user session_id jti))

  unfoldable pub draw_token : M (String × String)
  draw_token = do
    draw ← fresh_id
    pure (crypto.random_text draw, crypto.hash_sha256 (crypto.random_text draw))

  -- The raw token and its hash. `rand.Read` may fail.
  unfoldable pub generate_refresh_token : M (String × String)
  unfolding draw_token
  generate_refresh_token = call >> draw_token

  abbrev pub new_token : String → ℕ → ℕ → ℕ → ℕ → String → RefreshToken
  new_token hash user_id family expires_at started_at client_ip = record {
    token = hash;
    user_id = user_id;
    family = family;
    expires_at = expires_at;
    session_started_at = started_at;
    grace_ttl = none;
    revoked = false;
    replaced_by = none;
    client_ip = client_ip;
    created_at = 0;
    updated_at = none;
  }

  abbrev pub token_pair :
      (access_token refresh_token : String) (session_id started_at : ℕ) → SessionTtls → TokenPair
  token_pair access_token refresh_token session_id started_at ttls = record {
    access_token = access_token;
    refresh_token = refresh_token;
    expires_in = ttls.access / second;
    session_id = session_id;
    session_expires_at = session_expires_at started_at ttls.max_lifetime;
  }

  -- Once the tokens are there.
  unfoldable pub start_session : User → String → ℕ → String → String × String → M TokenPair
  start_session user client_ip family access_token generated = do
    now ← utc_now
    save (new_token generated.1 user.id family (now + cfg.refresh_token_ttl) now client_ip)
    pure (token_pair access_token generated.0 family now (session_ttls user))

  unfoldable pub issue_token_pair : User → String → M TokenPair
  unfolding start_session
  issue_token_pair user client_ip = do
    family ← fresh_id
    access_token ← issue_access_token (session_ttls user).access user family
    generated ← generate_refresh_token
    start_session user client_ip family access_token generated
