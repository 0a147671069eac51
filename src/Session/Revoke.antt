-- ===== src/Session/Revoke.antt =====
-- services/token/revoke_refresh_token.go and revoke_sessions.go: ending sessions.
use maintmode.World.Errors.{
  refresh_token_not_found, invalid_refresh_token, invalid_access_token, Result, ok, err,
}
use maintmode.World.Effect.{unlogged, M, ◌>>=◌, ◌>>◌, pure, throw, throw_if}
use maintmode.Entity.Session.{id_text_eq, RefreshToken, AccessClaims, IdText, text_of}
use maintmode.Base.{ℕ, ◌+◌, String, not, List, [], ◌∷◌, ◌==◌}
use maintmode.World.Tables.{World}
use maintmode.Session.{Config, Crypto, minute}
use maintmode.Session.Tokens.{
  get_by_token_hash, get_by_token_hash_for_update, revoke_family, revoke_by_user_id,
  revoke_by_user_id_except_family, lock_user_sessions,
}
use maintmode.Session.Marks.{add_sessions}
use maintmode.World.Tx.{Ctx, background, within_tx}

abbrev pub revoked_session_skew : ℕ
revoked_session_skew = minute

-- `uuid.Parse`
abbrev pub parse_id : IdText → M ℕ
parse_id (text_of id) = pure id
parse_id _ = throw invalid_access_token

unfoldable pub with_user_sessions_locked {ℓ} : {A : Type ℓ} → ℕ → (Ctx → M A) → M A
with_user_sessions_locked user_id fn =
    within_tx background (λ ctx. lock_user_sessions user_id >> fn ctx)

module _ (crypto : Crypto) (cfg : Config) where
  -- A failure is logged. The field `revokedSessionTTL` is a sum of configured durations.
  unfoldable pub revoke_session_access_tokens : List ℕ → M (Unit {0})
  revoke_session_access_tokens ids w =
      unlogged (λ v. v) (add_sessions (cfg.access_token_ttl + revoked_session_skew) ids w)

  unfoldable pub revoke_refresh_token_by_family : (user_id family : ℕ) → M (Unit {0})
  revoke_refresh_token_by_family user_id family = do
    with_user_sessions_locked user_id (λ _. revoke_family family)
    revoke_session_access_tokens (family ∷ [])

  unfoldable pub revoke_refresh_token_by_user_id : ℕ → M (Unit {0})
  revoke_refresh_token_by_user_id user_id = do
    families ← with_user_sessions_locked user_id (λ _. revoke_by_user_id user_id)
    revoke_session_access_tokens families

  unfoldable pub revoke_refresh_token_by_user_id_except_family : (user_id keep : ℕ) → M (Unit {0})
  revoke_refresh_token_by_user_id_except_family user_id keep = do
    families ← with_user_sessions_locked user_id (λ _. revoke_by_user_id_except_family user_id keep)
    revoke_session_access_tokens families

  unfoldable pub family_by_refresh_token : String → ℕ → M ℕ
  family_by_refresh_token raw user_id = do
    rt ← get_by_token_hash (crypto.hash_sha256 raw)
    throw_if (not (rt.user_id == user_id)) invalid_refresh_token
    throw_if rt.revoked invalid_refresh_token
    pure rt.family

  -- Any failure of the lookup is wrapped in `ErrRefreshTokenNotFound`.
  abbrev pub as_not_found : Result RefreshToken × World → Result RefreshToken × World
  as_not_found (ok rt, w) = (ok rt, w)
  as_not_found (err _, w) = (err refresh_token_not_found, w)

  unfoldable pub revoke_owned_family : String → IdText → M ℕ
  revoke_owned_family raw subject = do
    rt ← (λ w. as_not_found (get_by_token_hash_for_update (crypto.hash_sha256 raw) w))
    throw_if (not (id_text_eq (text_of rt.user_id) subject)) invalid_access_token
    revoke_family rt.family
    pure rt.family

  unfoldable pub revoke_family_by_refresh_token : String → AccessClaims → M ℕ
  unfolding revoke_owned_family
  revoke_family_by_refresh_token raw claims = do
    user_id ← parse_id claims.subject
    family ← with_user_sessions_locked user_id (λ _. revoke_owned_family raw claims.subject)
    revoke_session_access_tokens (family ∷ [])
    pure family
