-- ===== src/World/Tx/Retry.antt =====
-- What `WithinSerializableTx` promises: at most ten attempts, each a transaction of its own, and
-- the result of the last one.
use maintmode.Base.{
  subst, ◌∙◌, sym, ap, ℕ, zero, suc, ◌≤◌, ◌≡◌, ◌⊎◌, refl, inl, inr, true, false, arith, Bool-cases,
}
use maintmode.World.Tx.Rollback.{within_tx_ok, within_tx_rollback, Committed}
use maintmode.World.Tx.{
  serializable_max_attempts, background, within_tx, within_serializable_tx, Ctx, attempts, again,
  ctx_err,
}
use maintmode.World.Errors.{
  Error, Result, ok, err, is_serialization_failure, context_canceled, deadline_exceeded,
  serialization_failure,
}
use maintmode.World.Tables.{World}
use maintmode.World.Effect.{M, continue}

-- Whether a result makes the loop stop.
abbrev Final {ℓ} : {A : Type ℓ} → Result A → Type 0
Final (ok _) = Unit
Final (err e) = is_serialization_failure e ≡ false

-- From `w`, `made` attempts of `body` gave the result, where `left` more than one were allowed. All
-- but the last were aborted by a serialization failure: `last` stops at a final result, `exhausted`
-- at the failure of the last attempt that is allowed, `canceled` where the request is gone.
pub data Attempts {ℓ} {A : Type ℓ} (body : M A)
    : (left made : ℕ) → World → Result A × World → Type ℓ where
  last :
      {left : ℕ} {w : World} (r : Result A) (v : World)
      → body w ≡ (r, v)
      → Final r
      → Attempts body left 1 w (r, v)
  exhausted :
      {w : World} (v : World)
      → body w ≡ (err serialization_failure, v)
      → Attempts body zero 1 w (err serialization_failure, v)
  canceled :
      {left : ℕ} {w : World} (e : Error) (v v' : World)
      → body w ≡ (err serialization_failure, v)
      → ctx_err v ≡ (err e, v')
      → (e ≡ context_canceled) ⊎ (e ≡ deadline_exceeded)
      → Attempts body (suc left) 1 w (err e, v')
  retried :
      {left made : ℕ} {w : World} {r : Result A × World} (v v' : World)
      → body w ≡ (err serialization_failure, v)
      → ctx_err v ≡ (ok tt, v')
      → Attempts body left made v' r
      → Attempts body (suc left) (suc made) w r

is_serialization_failure→≡ :
    (e : Error) → is_serialization_failure e ≡ true → e ≡ serialization_failure
is_serialization_failure→≡ serialization_failure h = refl
is_serialization_failure→≡ _ h = absurd (cc h)

ctx_err_canceled :
    (v : World) {e : Error} {v' : World}
    → ctx_err v ≡ (err e, v')
    → (e ≡ context_canceled) ⊎ (e ≡ deadline_exceeded)
unfolding ctx_err
ctx_err_canceled v h = ground arith

module _ {ℓ} {A : Type ℓ} (body : M A) where
  abbrev Tried : ℕ → World → Result A × World → Type ℓ
  Tried left w r = (made : ℕ) × Attempts body left made w r × (made ≤ suc left)

  resumed :
      (left : ℕ) (w v : World) (c : Result (Unit {0}) × World)
      → body w ≡ (err serialization_failure, v)
      → ctx_err v ≡ c
      → ((v' : World) → Tried left v' (attempts left body v'))
      → Tried (suc left) w (continue c (λ _. attempts left body))
  resumed left w v (ok _, v') b c rest =
      let (made, run, bound) = rest v' in (suc made, retried v v' b c run, omega arith)
  resumed left w v (err e, v') b c rest =
      (1, canceled e v v' b c (ctx_err_canceled v c), omega arith)

  again-Tried :
      (left : ℕ) (w : World) (r : Result A × World)
      → body w ≡ r
      → ((v' : World) → Tried left v' (attempts left body v'))
      → Tried (suc left) w (again (attempts left body) r)
  unfolding again
  again-Tried left w (ok a, v) b rest = (1, last (ok a) v b tt, omega arith)
  again-Tried left w (err e, v) b rest = elim (Bool-cases (is_serialization_failure e)) [
    | inl yes_it ↦
        rw yes_it
          (resumed left w v (ctx_err v) (rw (← is_serialization_failure→≡ e yes_it) b) refl rest)
    | inr other ↦ rw other (1, last (err e) v b other, omega arith)
  ]

  once_Tried : (w : World) (r : Result A × World) → body w ≡ r → Tried zero w r
  once_Tried w (ok a, v) b = (1, last (ok a) v b tt, omega arith)
  once_Tried w (err e, v) b = elim (Bool-cases (is_serialization_failure e)) [
    | inl yes_it ↦
        (let same = is_serialization_failure→≡ e yes_it in
          rw same (1, exhausted v (rw same at b), omega arith))
    | inr other ↦ (1, last (err e) v b other, omega arith)
  ]

  attempts-Tried : (left : ℕ) (w : World) → Tried left w (attempts left body w)
  unfolding attempts
  attempts-Tried zero w = once_Tried w (body w) refl
  attempts-Tried (suc left) w = again-Tried left w (body w) refl (attempts-Tried left)

-- The failure of a serialization reaches the caller only when every attempt was spent.
Attempts-exhausted {ℓ} :
    {A : Type ℓ} {body : M A} {left made : ℕ} {w : World} {r : Result A × World}
    → Attempts body left made w r
    → r.0 ≡ err serialization_failure
    → made ≡ suc left
Attempts-exhausted (last (ok a) v b f) e = absurd (cc e)
Attempts-exhausted (last (err x) v b f) e = ground (arith, f)
Attempts-exhausted (exhausted v b) e = refl
Attempts-exhausted (canceled x v v' b c same) e = ground arith
Attempts-exhausted (retried v v' b c run) e = ap suc (Attempts-exhausted run e)

ctx_err_db : (v : World) → (ctx_err v).1.db ≡ v.db
unfolding ctx_err
ctx_err_db v = ground arith

module _ {ℓ} {A : Type ℓ} (fn : Ctx → M A) where
  abbrev body : M A
  body = within_tx background fn

  rolled_back : (w : World) {e : Error} {v : World} → body w ≡ (err e, v) → v.db ≡ w.db
  rolled_back w h = within_tx_rollback fn w h

  resumed_db :
      (w v : World) {e : Error} {c : Result (Unit {0})} {v' : World}
      → body w ≡ (err e, v)
      → ctx_err v ≡ (c, v')
      → v'.db ≡ w.db
  resumed_db w v b c = ap (λ r. r.1.db) (sym c) ∙ ctx_err_db v ∙ rolled_back w b

  Attempts-rollback :
      {left made : ℕ} {w : World} {r : Result A × World} {e : Error}
      → Attempts body left made w r
      → r.0 ≡ err e
      → r.1.db ≡ w.db
  Attempts-rollback {w = w} (last (ok a) v b f) h = absurd (cc h)
  Attempts-rollback {w = w} (last (err x) v b f) h = rolled_back w b
  Attempts-rollback {w = w} (exhausted v b) h = rolled_back w b
  Attempts-rollback {w = w} (canceled x v v' b c same) h = resumed_db w v b c
  Attempts-rollback {w = w} (retried v v' b c run) h = Attempts-rollback run h ∙ resumed_db w v b c

  Attempts-ok :
      {left made : ℕ} {w : World} {r : Result A × World} {a : A}
      → Attempts body left made w r
      → r.0 ≡ ok a
      → (w₁ : World) × (w₁.db ≡ w.db) × Committed fn w₁ a r.1
  Attempts-ok {w = w} (last (ok x) v b f) h = (w, refl, within_tx_ok fn w (b ∙ cc h))
  Attempts-ok {w = w} (last (err x) v b f) h = absurd (cc h)
  Attempts-ok {w = w} (exhausted v b) h = absurd (cc h)
  Attempts-ok {w = w} (canceled x v v' b c same) h = absurd (cc h)
  Attempts-ok {w = w} (retried v v' b c run) h =
      let (w₁, same, done) = Attempts-ok run h in (w₁, same ∙ resumed_db w v b c, done)

  -- The transaction runs at most ten times, each time from scratch: every attempt but the last was
  -- aborted by a serialization failure, and the result is that of the last attempt, or the
  -- cancellation of the request, or the passing of its deadline, between two.
  pub serializable-Attempts :
      (w : World)
      → (made : ℕ) × Attempts body 9 made w (within_serializable_tx background fn w)
        × (made ≤ serializable_max_attempts)
  unfolding within_serializable_tx
  serializable-Attempts w = attempts-Tried body 9 w

  -- A serialization failure reaches the caller only after ten attempts.
  pub serializable_exhausted :
      (w : World)
      → (within_serializable_tx background fn w).0 ≡ err serialization_failure
      → Attempts body 9 serializable_max_attempts w (within_serializable_tx background fn w)
  serializable_exhausted w h =
      let (made, run, bound) = serializable-Attempts w in
      subst (λ n. Attempts body 9 n w (within_serializable_tx background fn w))
        (Attempts-exhausted run h) run

  pub serializable_rollback :
      (w : World) {e : Error} {w' : World}
      → within_serializable_tx background fn w ≡ (err e, w')
      → w'.db ≡ w.db
  serializable_rollback w h =
      let (made, run, _) = serializable-Attempts w in
      ap (λ r. r.1.db) (sym h) ∙ Attempts-rollback run (ap (λ r. r.0) h)

  pub serializable_ok :
      (w : World) {a : A} {w' : World}
      → within_serializable_tx background fn w ≡ (ok a, w')
      → (w₁ : World) × (w₁.db ≡ w.db) × Committed fn w₁ a w'
  serializable_ok w h =
      let (made, run, _) = serializable-Attempts w in
      let (w₁, same, done) = Attempts-ok run (ap (λ r. r.0) h) in
      (w₁, same, subst (Committed fn w₁ _) (ap (λ r. r.1) h) done)
