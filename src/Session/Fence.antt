-- ===== src/Session/Fence.antt =====
-- A refresh that read its token before another request rotated or revoked it, and goes on after.
use maintmode.Base.{
  ℕ, ◌+◌, String, ◌≡◌, refl, sym, subst, ◌∙◌, inl, inr, true, false, Bool-cases, any,
}
use maintmode.World.Errors.{Error, Result, ok, err, lock_busy}
use maintmode.World.Tables.{World}
use maintmode.World.Effect.{M, continue}
use maintmode.World.Effect.Invert.{bind_ok, call_ok}
use maintmode.World.Tx.{background, within_tx}
use maintmode.World.Tx.Rollback.{within_tx_ok, within_tx_rollback}
use maintmode.Session.{Config, Crypto}
use maintmode.Session.Tokens.{unrevoked_with_hash, rotate, lock_user_sessions}
use maintmode.Session.Issue.{SessionTtls}
use maintmode.Session.Refresh.{replace_token, rotate_checked, busy_if_rotated, is_already_rotated}
use maintmode.Session.Simulation.{rotate_ok-there}
use maintmode.Entity.Session.{RefreshToken}

module _ (crypto : Crypto) (cfg : Config) where
  replace_token-there :
      (now : ℕ) (old : RefreshToken) (hash ip : String) (w : World) {u : Unit {0}} {v : World}
      → replace_token crypto cfg now old hash ip w ≡ (ok u, v)
      → any (unrevoked_with_hash old.token) w.db.refresh_tokens ≡ true
  unfolding replace_token lock_user_sessions
  replace_token-there now old hash ip w h =
      let (_, x, locked, rest) = bind_ok (lock_user_sessions old.user_id w) _ h in
      let same = (call_ok w locked).same in
      let (_, y, rotated, _) =
        bind_ok (rotate old.token hash (now + cfg.refresh_token_grace_period) x) _ rest in
      subst (λ z. any (unrevoked_with_hash old.token) z.db.refresh_tokens ≡ true) same
        (rotate_ok-there old.token hash (now + cfg.refresh_token_grace_period) x rotated)

  -- Failed, with the tables as they were.
  pub record Refused {A : Type 0} (w : World) (r : Result A × World) : Type 0 where
    pub error : Error
    pub failed : r.0 ≡ err error
    pub untouched : r.1.db ≡ w.db

  Refused-tail :
      {A : Type 0} {B : Type 0} (w : World) (r : Result A × World) (f : A → M B)
      → Refused w r
      → Refused w (continue r f)
  Refused-tail w (ok a, v) f refused = absurd (cc refused.failed)
  Refused-tail w (err e, v) f refused = record {
    error = e;
    failed = refl;
    untouched = refused.untouched;
  }

  busy-Refused :
      (w : World) (r : Result (Unit {0}) × World) → Refused w r → Refused w (busy_if_rotated r)
  unfolding busy_if_rotated
  busy-Refused w (ok u, v) refused = absurd (cc refused.failed)
  busy-Refused w (err e, v) refused = elim (Bool-cases (is_already_rotated e)) [
    | inl is ↦ rw is (record { error = lock_busy; failed = refl; untouched = refused.untouched })
    | inr other ↦ rw other (record { error = e; failed = refl; untouched = refused.untouched })
  ]

  -- If no unrevoked row has the token's hash when the transaction of a rotation begins, whatever
  -- was read before, the rotation fails and the tables stay as they are: no token gets a second
  -- successor.
  pub rotate_checked-Refused :
      (old : RefreshToken) (now : ℕ) (ip : String) (ttls : SessionTtls) (access : String)
      (generated : String × String) (w : World)
      → any (unrevoked_with_hash old.token) w.db.refresh_tokens ≡ false
      → Refused w (rotate_checked crypto cfg old now ip ttls access generated w)
  unfolding rotate_checked
  rotate_checked-Refused old now ip ttls access generated w gone =
      Refused-tail w
        (busy_if_rotated
          (within_tx background (λ _. replace_token crypto cfg now old generated.1 ip) w))
        _
        (busy-Refused w _
          (go (within_tx background (λ _. replace_token crypto cfg now old generated.1 ip) w) refl))
    where
      go :
          (r : Result (Unit {0}) × World)
          → within_tx background (λ _. replace_token crypto cfg now old generated.1 ip) w ≡ r
          → Refused w r
      go (err e, v) h = record {
        error = e;
        failed = refl;
        untouched = within_tx_rollback (λ _. replace_token crypto cfg now old generated.1 ip) w h;
      }
      go (ok u, v) h =
          let done = within_tx_ok (λ _. replace_token crypto cfg now old generated.1 ip) w h in
          let there = replace_token-there now old generated.1 ip done.before done.ran in
          let clash : false ≡ true = sym gone ∙ (rw done.same_db at there) in absurd (cc clash)
