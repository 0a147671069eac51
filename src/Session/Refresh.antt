-- ===== src/Session/Refresh.antt =====
-- services/auth/refresh.go: the next access token of a session. The distributed lock is a call
-- whose failure, a holder of the lock included, is the environment's answer; its release is only
-- logged. A token's idle time and age are differences cut off at 0, which no limit notices.
use maintmode.Base.{
  ℕ, ◌+◌, ◌-◌, String, Bool, true, false, not, ◌&&◌, none, [], ltb, if◌then◌else◌, from_ptr,
  is_some,
}
use maintmode.World.Errors.{
  Error, Result, ok, err, refresh_token_already_rotated, token_reuse, token_expired, logout_already,
  lock_busy, invalid_refresh_token,
}
use maintmode.World.Tables.{World, session_revoked}
use maintmode.World.Effect.{
  unlogged, M, ◌>>=◌, ◌>>◌, call, pure, throw, throw_if, utc_now, publish_audit,
}
use maintmode.Session.{Config, Crypto}
use maintmode.Session.Tokens.{get_by_token_hash, has_live_token, rotate, save, lock_user_sessions}
use maintmode.Session.Issue.{
  SessionTtls, token_pair, session_ttls_for, issue_access_token, generate_refresh_token, new_token,
  get_by_id,
}
use maintmode.Session.Revoke.{revoke_refresh_token_by_family}
use maintmode.World.Tx.{background, within_tx}
use maintmode.Entity.User.{User}
use maintmode.Entity.Session.{RefreshToken, TokenPair}

-- `&entity.User{ID: id}`
abbrev pub bare_user : ℕ → User
bare_user id = record {
  id = id;
  email = "";
  name = "";
  roles = [];
  created_at = 0;
  blocked_at = none;
  timezone = none;
  telegram_tag = none;
  slack_tag = none;
}

abbrev pub owner_or_bare : ℕ → Result User × World → Result User × World
owner_or_bare id (ok u, w) = (ok u, w)
owner_or_bare id (err _, w) = (ok (bare_user id), w)

-- A fault of the lock, whatever it is, is `ErrLockBusy`; one of the lookup an invalid token.
abbrev pub fails_as {ℓ} : {A : Type ℓ} → Error → Result A × World → Result A × World
fails_as e (ok a, w) = (ok a, w)
fails_as e (err _, w) = (err e, w)

unfoldable pub acquire : M (Unit {0})
acquire w = fails_as lock_busy (call w)

-- `defer s.locker.Release`
unfoldable pub releasing {ℓ} : {A : Type ℓ} → Result A × World → Result A × World
releasing (r, w) = (r, (call w).1)

unfoldable pub is_already_rotated : Error → Bool
is_already_rotated refresh_token_already_rotated = true
is_already_rotated _ = false

-- `errors.Is(err, apperr.ErrRefreshTokenAlreadyRotated)`
unfoldable pub busy_if_rotated : Result (Unit {0}) × World → Result (Unit {0}) × World
unfolding is_already_rotated
busy_if_rotated (ok u, w) = (ok u, w)
busy_if_rotated (err e, w) = if is_already_rotated e then (err lock_busy, w) else (err e, w)

module _ (crypto : Crypto) (cfg : Config) where
  unfoldable pub publish_session_revoked : RefreshToken → String → String → M (Unit {0})
  publish_session_revoked rt client_ip user_agent = do
    owner ← (λ w. owner_or_bare rt.user_id (get_by_id rt.user_id w))
    publish_audit (session_revoked owner client_ip user_agent rt.family)

  unfoldable pub issue_access_token_by_user_id : (user_id family ttl : ℕ) → M String
  issue_access_token_by_user_id user_id family ttl =
      get_by_id user_id >>= λ user. issue_access_token crypto cfg ttl user family

  unfoldable pub refresh_within_grace : RefreshToken → M TokenPair
  unfolding issue_access_token_by_user_id
  refresh_within_grace rt = do
    live ← has_live_token rt.family
    throw_if (not live) logout_already
    ttls ← session_ttls_for crypto cfg rt.user_id
    access_token ← issue_access_token_by_user_id rt.user_id rt.family ttls.access
    pure (token_pair crypto cfg access_token "" 0 rt.session_started_at ttls)

  -- A revocation that fails is logged, and the token refused all the same.
  unfoldable pub refuse_reuse : RefreshToken → String → String → M TokenPair
  unfolding publish_session_revoked
  refuse_reuse rt client_ip user_agent = do
    (λ w. unlogged (λ v. v) (revoke_refresh_token_by_family crypto cfg rt.user_id rt.family w))
    publish_session_revoked rt client_ip user_agent
    throw token_reuse

  unfoldable pub reuse_revoked : ℕ → RefreshToken → String → String → M TokenPair
  unfolding refresh_within_grace refuse_reuse
  reuse_revoked now rt client_ip user_agent =
      let grace = refresh_within_grace rt in
      let reuse = refuse_reuse rt client_ip user_agent in
      λ w. (if ltb now (from_ptr 0 rt.grace_ttl) then grace w else reuse w)

  -- What the transaction of a rotation does.
  unfoldable pub replace_token : ℕ → RefreshToken → String → String → M (Unit {0})
  replace_token now old new_hash client_ip = do
    lock_user_sessions old.user_id
    rotate old.token new_hash (now + cfg.refresh_token_grace_period)
    save (
        new_token crypto cfg new_hash old.user_id old.family (now + cfg.refresh_token_ttl)
          old.session_started_at client_ip)

  -- The transaction, once every check has passed and the tokens are there.
  unfoldable pub rotate_checked :
      RefreshToken → ℕ → String → SessionTtls → String → String × String → M TokenPair
  unfolding replace_token busy_if_rotated
  rotate_checked old now client_ip ttls access_token generated = do
    (λ w.
        busy_if_rotated (within_tx background (λ _. replace_token now old generated.1 client_ip) w))
    pure (token_pair crypto cfg access_token generated.0 0 old.session_started_at ttls)

  unfoldable pub rotate_refresh_token : RefreshToken → ℕ → String → M TokenPair
  unfolding issue_access_token_by_user_id rotate_checked
  rotate_refresh_token old now client_ip = do
    ttls ← session_ttls_for crypto cfg old.user_id
    throw_if (ltb cfg.session_inactive_lifetime (now - old.created_at)) token_expired
    throw_if (ltb ttls.max_lifetime (now - old.session_started_at)) token_expired
    access_token ← issue_access_token_by_user_id old.user_id old.family ttls.access
    generated ← generate_refresh_token crypto cfg
    rotate_checked old now client_ip ttls access_token generated

  unfoldable pub refresh_token_row : ℕ → RefreshToken → String → String → M TokenPair
  unfolding reuse_revoked rotate_refresh_token
  refresh_token_row now rt client_ip user_agent w =
      if rt.revoked && not (is_some rt.replaced_by)
      then (err logout_already, w)
      else if rt.revoked
      then reuse_revoked now rt client_ip user_agent w
      else rotate_refresh_token rt now client_ip w

  unfoldable pub held_refresh : ℕ → String → String → String → M TokenPair
  unfolding refresh_token_row
  held_refresh now hash client_ip user_agent =
      (λ w. fails_as invalid_refresh_token (get_by_token_hash hash w)) >>= λ rt.
      refresh_token_row now rt client_ip user_agent

  unfoldable pub refresh : String → String → String → M TokenPair
  unfolding held_refresh
  refresh raw client_ip user_agent = do
    now ← utc_now
    acquire
    (λ w. releasing (held_refresh now (crypto.hash_sha256 raw) client_ip user_agent w))
