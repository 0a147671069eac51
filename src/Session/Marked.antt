-- ===== src/Session/Marked.antt =====
-- What the marks of ended sessions refuse: storages/blacklisttoken, and services/token and
-- services/auth where they set and read them.
use maintmode.World.Effect.{unlogged, call, continue, ◌>>◌}
use maintmode.Base.{
  ℕ, ◌+◌, ◌<◌, ◌≡◌, refl, Bool, true, false, ◌&&◌, List, [], ◌∷◌, arith, ltb, ◌==◌, ==_self,
  if◌then◌else◌, Bool-cases, any, inl, inr, Option,
}
use maintmode.World.Tables.{World, Mark, of_session, of_token}
use maintmode.World.Errors.{Error, Result, ok, err}
use maintmode.World.Effect.Call.{call_faultless, call_world}
use maintmode.World.Tx.Rollback.{within_tx_faultless}
use maintmode.Session.{Config, Crypto}
use maintmode.Session.Tokens.{lock_user_sessions, revoke_family, revoke, revoke_now, of_family}
use maintmode.Session.Marks.{
  is_revoked, add_sessions, set_now, exists_mark, holds_mark, revocation_keys, mark_key_eq,
}
use maintmode.Session.Revoke.{
  revoke_refresh_token_by_family, with_user_sessions_locked, revoke_session_access_tokens,
  revoked_session_skew,
}
use maintmode.Session.Introspect.{introspect_claims, inactive, active_subject, report_of}
use maintmode.Session.Logout.{is_blank}
use maintmode.Entity.Session.{AccessClaims, IdText, text_of, IntrospectReport}

revoke_family_now :
    (family : ℕ) (w : World)
    → w.faults ≡ []
    → revoke_family family w ≡ (ok tt, (revoke_now (of_family family) w).1)
unfolding revoke_family revoke revoke_now
revoke_family_now family w e = rw (call_faultless w e) refl

-- A report that says that the token is not active, or none at all.
abbrev pub IsRefused : Result IntrospectReport → Type 0
IsRefused (ok report) = report.active ≡ false
IsRefused (err _) = Unit

-- The session has a mark that has not expired.
abbrev pub is_marked : ℕ → World → Bool
is_marked family w =
    any (λ m. holds_mark w.clock (of_session (text_of family) ∷ []) m) w.revocations

marked-exists :
    (jti : IdText) (family : ℕ) (w : World)
    → is_marked family w ≡ true
    → exists_mark (revocation_keys jti (text_of family)) w ≡ true
unfolding revocation_keys
marked-exists jti family w marked = go w.revocations marked
  where
    go :
        (ms : List Mark)
        → any (holds_mark w.clock (of_session (text_of family) ∷ [])) ms ≡ true
        → any (holds_mark w.clock (of_token jti ∷ of_session (text_of family) ∷ [])) ms ≡ true
    go [] h = h
    go (m ∷ ms) h =
        let rest = go ms in
        elim (Bool-cases
          (mark_key_eq m.key (of_session (text_of family)) && ltb w.clock m.expires_at)) [
            | inl here ↦ ground arith
            | inr later ↦ ground arith
          ]

-- Introspection refuses the access tokens of a marked session, whether the environment answers or
-- fails.
introspect_claims-marked :
    (claims : AccessClaims) (family : ℕ) (w : World)
    → claims.session_id ≡ text_of family
    → is_marked family w ≡ true
    → IsRefused (introspect_claims claims w).0
unfolding introspect_claims is_revoked
introspect_claims-marked claims family w named marked = elim (Bool-cases (is_blank claims.id)) [
  | inl no_id ↦ rw no_id refl
  | inr has_id ↦
      let (fs, same) = call_world w in
      let held = marked-exists claims.id family (record w { faults = fs }) marked in
      rw (has_id, named) (go (call w) (rw same held))
]
  where
    go :
        (called : Result (Unit {0}) × World)
        → exists_mark (revocation_keys claims.id (text_of family)) called.1 ≡ true
        → IsRefused
            (continue
              (continue called
                λ _ v. (ok (exists_mark (revocation_keys claims.id (text_of family)) v), v))
              (λ revoked v.
                if revoked
                then (ok (inactive claims.id), v)
                else continue
                    (active_subject claims.subject v)
                    (λ user u. (ok (report_of claims user), u)))).0
    go (ok _, v) held = rw held refl
    go (err e, v) held = tt

module _ (crypto : Crypto) (cfg : Config) where
  revoke_by_family-marked :
      (user_id family t : ℕ) (w : World)
      → w.faults ≡ []
      → t < w.clock + (cfg.access_token_ttl + revoked_session_skew)
      → is_marked family
          (record (revoke_refresh_token_by_family crypto cfg user_id family w).1 { clock = t })
        ≡ true
  unfolding revoke_refresh_token_by_family with_user_sessions_locked lock_user_sessions
      revoke_session_access_tokens add_sessions set_now revoke_now unlogged
  revoke_by_family-marked user_id family t w e soon =
      let x = (revoke_now (of_family family) w).1 in
      let inner : with_user_sessions_locked user_id (λ _. revoke_family family) w ≡ (ok tt, x) =
        within_tx_faultless (λ ctx. lock_user_sessions user_id >> revoke_family family) w {a = tt}
          {v = x} e (rw (call_faultless w e) (revoke_family_now family w e)) e in
      let fresh : ltb t (w.clock + (cfg.access_token_ttl + revoked_session_skew)) ≡ true =
        ground arith in
      let set : (cfg.access_token_ttl + revoked_session_skew == 0) ≡ false = ground arith in
      let c = call_faultless x e in rw (inner, set, c, ==_self family, fresh) refl

  -- If nothing fails when a session is ended, then introspection reports no access token of the
  -- session as active for as long as an access token lives and a minute more, whatever the
  -- environment answers by then.
  pub revoke_by_family-IsRefused :
      (user_id family t : ℕ) (w : World) (claims : AccessClaims) (answers : List (Option Error))
      → w.faults ≡ []
      → claims.session_id ≡ text_of family
      → t < w.clock + (cfg.access_token_ttl + revoked_session_skew)
      → IsRefused
          (introspect_claims claims
            (record (revoke_refresh_token_by_family crypto cfg user_id family w).1 {
              clock = t;
              faults = answers;
            })).0
  revoke_by_family-IsRefused user_id family t w claims answers e named soon =
      introspect_claims-marked claims family _ named
        (revoke_by_family-marked user_id family t w e soon)
