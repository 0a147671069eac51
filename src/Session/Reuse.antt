-- ===== src/Session/Reuse.antt =====
-- What the reuse of a rotated token does, past its grace window and with nothing failing.
use maintmode.Base.{
  ℕ, ◌+◌, ◌≤◌, String, ◌≡◌, refl, sym, ap, ◌∙◌, true, false, some, [], ◌∷◌, arith, ltb, from_ptr,
  is_some, find,
}
use maintmode.World.Errors.{Result, ok, err, token_reuse}
use maintmode.World.Tables.{World, session_revoked}
use maintmode.World.Effect.{◌>>◌, unlogged}
use maintmode.World.Effect.Call.{publish_audit_ok, call_db, call_faultless}
use maintmode.Entity.User.{User}
use maintmode.Session.Issue.{get_by_id}
use maintmode.Session.Refresh.{
  owner_or_bare, bare_user, refuse_reuse, reuse_revoked, refresh_token_row, held_refresh, refresh,
  acquire, releasing, publish_session_revoked,
}
use maintmode.Session.Services.{unlogged-world}
use maintmode.World.Tx.Rollback.{within_tx_faultless}
use maintmode.Session.{Config, Crypto}
use maintmode.Session.Tokens.{
  has_hash, get_by_token_hash, revoke, revoke_now, revoke_family, lock_user_sessions, of_family,
}
use maintmode.Session.Marks.{add_sessions}
use maintmode.Session.Revoke.{
  revoked_session_skew, with_user_sessions_locked, revoke_session_access_tokens,
  revoke_refresh_token_by_family,
}
use maintmode.Session.Rotation.{IsQuiet-publish_session_revoked}
use maintmode.Session.Ended.{IsEnded, revoke_by_family-IsEnded}
use maintmode.Entity.Session.{RefreshToken}

revoke_family_faultless :
    (family : ℕ) (w : World)
    → w.faults ≡ []
    → (v : World) × (revoke_family family w ≡ (ok tt, v)) × (v.faults ≡ [])
unfolding revoke_family revoke revoke_now
revoke_family_faultless family w e =
    ((revoke_now (of_family family) w).1, rw (call_faultless w e) refl, e)

unlogged_returns :
    (r : Result (Unit {0}) × World) → (v : World) × (unlogged (λ v. v) r ≡ (ok tt, v))
unfolding unlogged
unlogged_returns (ok _, w) = (w, refl)
unlogged_returns (err _, w) = (w, refl)

module _ (crypto : Crypto) (cfg : Config) where
  revoke_by_family_faultless :
      (user_id family : ℕ) (w : World)
      → w.faults ≡ []
      → (v : World) × (revoke_refresh_token_by_family crypto cfg user_id family w ≡ (ok tt, v))
  unfolding revoke_refresh_token_by_family with_user_sessions_locked lock_user_sessions
      revoke_session_access_tokens
  revoke_by_family_faultless user_id family w e =
      let (x, ran, quiet) = revoke_family_faultless family w e in
      let inner =
        within_tx_faultless (λ ctx. lock_user_sessions user_id >> revoke_family family) w {a = tt}
          {v = x} e (rw (call_faultless w e) ran) quiet in
      let (v, last) =
        unlogged_returns
          (add_sessions (cfg.access_token_ttl + revoked_session_skew) (family ∷ []) x) in
      (v, rw (inner, last) refl)

  owner_returns :
      (id : ℕ) (r : Result User × World) → (u : User) × (owner_or_bare id r ≡ (ok u, r.1))
  owner_returns id (ok u, w) = (u, refl)
  owner_returns id (err e, w) = (bare_user id, refl)

  publish_returns :
      (rt : RefreshToken) (ip agent : String) (w : World)
      → (v : World) × (publish_session_revoked crypto cfg rt ip agent w ≡ (ok tt, v))
  unfolding publish_session_revoked
  publish_returns rt ip agent w =
      let (owner, at) = owner_returns rt.user_id (get_by_id rt.user_id w) in
      let (v, published) =
        publish_audit_ok (session_revoked owner ip agent rt.family) (get_by_id rt.user_id w).1 in
      (v, rw (at, published) refl)

  refuse_reuse-IsEnded :
      (rt : RefreshToken) (ip agent : String) (w : World)
      → w.faults ≡ []
      → ((refuse_reuse crypto cfg rt ip agent w).0 ≡ err token_reuse)
        × IsEnded rt.family (refuse_reuse crypto cfg rt ip agent w).1
  unfolding refuse_reuse
  refuse_reuse-IsEnded rt ip agent w e =
      let (v, ran) = revoke_by_family_faultless rt.user_id rt.family w e in
      let ended = revoke_by_family-IsEnded crypto cfg rt.user_id rt.family w ran in
      let (x, ignored) =
        unlogged_returns (revoke_refresh_token_by_family crypto cfg rt.user_id rt.family w) in
      let at_x : x ≡ v =
        ap (λ r. r.1) (sym ignored)
        ∙ unlogged-world (revoke_refresh_token_by_family crypto cfg rt.user_id rt.family w)
        ∙ ap (λ r. r.1) ran in
      let (y, published) = publish_returns rt ip agent x in
      let db_y : y.db ≡ v.db =
        ap (λ r. r.1.db) (sym published)
        ∙ (IsQuiet-publish_session_revoked crypto cfg rt ip agent).same x
        ∙ ap (λ z. z.db) at_x in
      (rw (ignored, published) refl, rw (ignored, published, db_y) ended)

  reuse_revoked-IsEnded :
      (now : ℕ) (rt : RefreshToken) (ip agent : String) (w : World)
      → w.faults ≡ []
      → from_ptr 0 rt.grace_ttl ≤ now
      → ((reuse_revoked crypto cfg now rt ip agent w).0 ≡ err token_reuse)
        × IsEnded rt.family (reuse_revoked crypto cfg now rt ip agent w).1
  unfolding reuse_revoked
  reuse_revoked-IsEnded now rt ip agent w e past =
      let out : ltb now (from_ptr 0 rt.grace_ttl) ≡ false = ground arith in
      rw out (refuse_reuse-IsEnded rt ip agent w e)

  get_by_token_hash_faultless :
      (hash : String) (w : World) {rt : RefreshToken}
      → w.faults ≡ []
      → find (has_hash hash) w.db.refresh_tokens ≡ some rt
      → get_by_token_hash hash w ≡ (ok rt, w)
  unfolding get_by_token_hash
  get_by_token_hash_faultless hash w e stored = rw (call_faultless w e, stored) refl

  -- If nothing fails, the token whose row was rotated and whose grace window is over is refused as
  -- reused, and no unrevoked token of its session is left.
  pub refresh_reuse-IsEnded :
      (raw ip agent : String) (w : World) (rt : RefreshToken)
      → w.faults ≡ []
      → find (has_hash (crypto.hash_sha256 raw)) w.db.refresh_tokens ≡ some rt
      → rt.revoked ≡ true
      → is_some rt.replaced_by ≡ true
      → from_ptr 0 rt.grace_ttl ≤ w.clock
      → ((refresh crypto cfg raw ip agent w).0 ≡ err token_reuse)
        × IsEnded rt.family (refresh crypto cfg raw ip agent w).1
  unfolding refresh acquire held_refresh refresh_token_row releasing
  refresh_reuse-IsEnded raw ip agent w rt e stored revoked replaced past =
      let (refused, ended) = reuse_revoked-IsEnded w.clock rt ip agent w e past in
      let after = (reuse_revoked crypto cfg w.clock rt ip agent w).1 in
      rw
        (
          call_faultless w e,
          get_by_token_hash_faultless (crypto.hash_sha256 raw) w e stored,
          revoked,
          replaced,
        )
        (refused, rw (call_db after) ended)
