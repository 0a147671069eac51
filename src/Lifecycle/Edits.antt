-- ===== src/Lifecycle/Edits.antt =====
-- The changes that leave the status of the maintenance: those of its steps, and those of a draft
-- (services/maint/step_lifecycle.go, update_maint.go).
use maintmode.Base.{ℕ, ◌≡◌, refl, sym, ap, subst, ◌∙◌, inl, true, not, List}
use maintmode.World.Errors.{Result, ok, err, maint_not_in_progress}
use maintmode.World.Tables.{World}
use maintmode.World.Effect.{query, throw_if, lift}
use maintmode.World.Effect.Invert.{Answered-db, bind_ok, guard_ok, read_ok}
use maintmode.World.Tx.{tx}
use maintmode.World.Respects.{Respects}
use maintmode.Entity.Step.{MaintenanceStep, MaintenanceStepStatus}
use maintmode.Entity.Maint.{Maintenance, in_progress, status_eq}
use maintmode.Store.Steps.{maint_steps, get_maint_steps, update_step}
use maintmode.Lifecycle.Transitions.{IsLifecycle, SameRows}
use maintmode.Lifecycle.Rows.{keep_bind, keep_guard, keep_query, keep_update_step}
use maintmode.Lifecycle.Moves.{not-false}
use maintmode.Lifecycle.StepOps.{step_body, step_apply, can_change_step_status_to, stamp_step}

-- `Same m` at a result: the id and the status are kept.
abbrev pub Same : Maintenance → Result Maintenance × World → Type 0
Same m (err e, v) = Unit
Same m (ok m', v) = (m'.id ≡ m.id) × (m'.status ≡ m.status)

pub record StepChanged (status : MaintenanceStepStatus) (step_id : ℕ) (m : Maintenance) (w : World)
    (r : Result Maintenance × World) : Type 0 where
  pub underway : status_eq m.status in_progress ≡ true
  pub old : MaintenanceStep
  pub allowed : can_change_step_status_to (maint_steps m.id w.db) step_id status ≡ ok old
  pub before : World
  pub after : World
  pub step : MaintenanceStep
  pub stamped : step ≡ stamp_step status before.clock old
  pub written : update_step m.id step before ≡ (ok tt, after)
  pub same_db : before.db ≡ w.db
  pub result : Same m r

pub lift_ok {ℓ} :
    {A : Type ℓ} (r : Result A) (w : World) {a : A} {v : World}
    → lift r w ≡ (ok a, v)
    → (r ≡ ok a) × (v ≡ w)
lift_ok (ok a) w h = (cc h, cc h)
lift_ok (err e) w h = absurd (cc h)

abbrev Stamped :
    MaintenanceStepStatus
    → ℕ
    → List MaintenanceStep
    → World
    → Result MaintenanceStep × World
    → Type 0
Stamped status step_id steps w (err e, v) = Unit
Stamped status step_id steps w (ok step, v) =
    (old : MaintenanceStep) × (can_change_step_status_to steps step_id status ≡ ok old)
    × (step ≡ stamp_step status v.clock old)
    × (v.db ≡ w.db)

step_apply_ok :
    (status : MaintenanceStepStatus) (step_id : ℕ) (steps : List MaintenanceStep) (w : World)
    {step : MaintenanceStep} {v : World}
    → step_apply status step_id steps w ≡ (ok step, v)
    → Stamped status step_id steps w (ok step, v)
unfolding step_apply
step_apply_ok status step_id steps w h =
    let (old, u, found, last) =
      bind_ok (lift (can_change_step_status_to steps step_id status) w) _ h in
    let (allowed, at_u) = lift_ok (can_change_step_status_to steps step_id status) w found in
    subst (Stamped status step_id steps w) last (old, allowed, refl, ap (λ x. x.db) at_u)

step_Changed :
    (status : MaintenanceStepStatus) (step_id : ℕ) (m : Maintenance) (w : World) {m' : Maintenance}
    {v : World}
    → step_body status step_id tx m w ≡ (ok m', v)
    → StepChanged status step_id m w (ok m', v)
unfolding step_body get_maint_steps step_apply
step_Changed status step_id m w h =
    let (underway, h₁) =
      guard_ok (not (status_eq m.status in_progress)) maint_not_in_progress w _ h in
    let (u, done, h₂) = read_ok (maint_steps m.id) w _ h₁ in
    let (step, u', asked, h₃) =
      bind_ok (step_apply status step_id (maint_steps m.id w.db) u) _ h₂ in
    let (old, allowed, stamped, same) =
      step_apply_ok status step_id (maint_steps m.id w.db) u asked in
    let (_, v', written, last) = bind_ok (update_step m.id step u') _ h₃ in
    subst (StepChanged status step_id m w) last (record {
      underway = not-false _ underway;
      old = old;
      allowed = allowed;
      before = u';
      after = v';
      step = step;
      stamped = stamped;
      written = written;
      same_db = same ∙ Answered-db done;
      result = (refl, refl);
    })

keep_step_apply :
    (status : MaintenanceStepStatus) (step_id : ℕ) (steps : List MaintenanceStep)
    → Respects SameRows (step_apply status step_id steps)
unfolding step_apply
keep_step_apply status step_id steps =
    keep_bind (lift (can_change_step_status_to steps step_id status)) _ (λ w. refl) λ _ w. refl

pub step-IsLifecycle :
    (status : MaintenanceStepStatus) (step_id : ℕ) → IsLifecycle (step_body status step_id)
unfolding step_body get_maint_steps
step-IsLifecycle status step_id = record {
  keeps_rows = λ m.
      keep_bind (throw_if (not (status_eq m.status in_progress)) maint_not_in_progress) _
        (keep_guard (not (status_eq m.status in_progress)) maint_not_in_progress)
        λ _. keep_bind (query (maint_steps m.id)) _ (keep_query (maint_steps m.id)) λ steps.
          keep_bind (step_apply status step_id steps) _ (keep_step_apply status step_id steps)
            λ step. keep_bind (update_step m.id step) _ (keep_update_step m.id step) λ _ w. refl;
  steps = λ m w h.
      (let (same, status') = (step_Changed status step_id m w h).result in
        (same, inl (sym status')));
}
