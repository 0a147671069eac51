-- ===== src/Session/Logout.antt =====
-- services/auth/logout.go and services/token/verify_access_token.go.
use maintmode.Base.{ℕ, String, Bool, true, false, str_eq, ◌==◌, if◌then◌else◌}
use maintmode.World.Errors.{ok, token_expired, panic_recovery, invalid_access_token}
use maintmode.World.Effect.{
  M, continue, ◌>>=◌, ◌>>◌, pure, throw, throw_if, utc_now, publish_audit, unlogged,
}
use maintmode.World.Tables.{logout_success}
use maintmode.Session.{Config, Crypto, Parsed, parsed, expired, rejected}
use maintmode.Session.Marks.{add}
use maintmode.Session.Revoke.{
  parse_id, revoke_refresh_token_by_family, revoke_refresh_token_by_user_id,
  revoke_family_by_refresh_token,
}
use maintmode.Session.Refresh.{fails_as, bare_user}
use maintmode.Entity.Session.{AccessClaims, IdText, blank, text_of, malformed}

abbrev pub verified : Parsed → M AccessClaims
verified (parsed claims) = pure claims
verified expired = throw token_expired
verified rejected = throw invalid_access_token

abbrev pub is_blank : IdText → Bool
is_blank blank = true
is_blank _ = false

-- `uuid.MustParse`, whose panic the server recovers from.
abbrev pub must_parse : IdText → M ℕ
must_parse (text_of id) = pure id
must_parse _ = throw panic_recovery

unfoldable pub audit_session_id : AccessClaims → IdText
audit_session_id claims = if is_blank claims.session_id then claims.id else claims.session_id

module _ (crypto : Crypto) (cfg : Config) where
  unfoldable pub verify_access_token : String → M AccessClaims
  verify_access_token token =
      utc_now >>= λ now. verified (crypto.parse_with_claims cfg.issuer now token)

  unfoldable pub logged_out : AccessClaims → M (Unit {0})
  unfolding audit_session_id
  logged_out claims = do
    (λ w. unlogged (λ v. v) (add claims.id cfg.access_token_ttl w))
    user_id ← must_parse claims.subject
    publish_audit (
        logout_success (record (bare_user user_id) { email = claims.user_email })
          (audit_session_id claims))

  unfoldable pub logout_with : String → (AccessClaims → M (Unit {0})) → M (Unit {0})
  unfolding verify_access_token logged_out
  logout_with access_token revoke_func = do
    claims ← (λ w. fails_as invalid_access_token (verify_access_token access_token w))
    throw_if (is_blank claims.id) invalid_access_token
    revoke_func claims
    logged_out claims

  -- The session of the access token, unless it is the one that was ended (0, if none was).
  unfoldable pub revoke_unless_ended : AccessClaims → ℕ → ℕ → M (Unit {0})
  revoke_unless_ended claims ended session_id w =
      let rest =
        continue (parse_id claims.subject w)
          (λ user_id. revoke_refresh_token_by_family crypto cfg user_id session_id) in
      if session_id == ended then (ok tt, w) else rest

  unfoldable pub revoke_named_session : AccessClaims → ℕ → IdText → M (Unit {0})
  unfolding revoke_unless_ended
  revoke_named_session claims ended blank = pure tt
  revoke_named_session claims ended malformed = throw invalid_access_token
  revoke_named_session claims ended (text_of session_id) =
      revoke_unless_ended claims ended session_id

  unfoldable pub revoke_access_token_session : AccessClaims → ℕ → M (Unit {0})
  unfolding revoke_named_session
  revoke_access_token_session claims ended = revoke_named_session claims ended claims.session_id

  unfoldable pub ended_by_refresh_token : String → AccessClaims → M ℕ
  ended_by_refresh_token raw claims w =
      let family = revoke_family_by_refresh_token crypto cfg raw claims w in
      if str_eq raw "" then (ok 0, w) else family

  unfoldable pub logout : (access_token refresh_token : String) → M (Unit {0})
  unfolding logout_with ended_by_refresh_token revoke_access_token_session
  logout access_token refresh_token = logout_with access_token λ claims.
      ended_by_refresh_token refresh_token claims >>= λ ended.
      revoke_access_token_session claims ended

  unfoldable pub logout_all : String → M (Unit {0})
  unfolding logout_with
  logout_all access_token = logout_with access_token λ claims.
      parse_id claims.subject >>= λ user_id. revoke_refresh_token_by_user_id crypto cfg user_id
