-- ===== src/Lifecycle/Findings.antt =====
-- Where the code does what it does not mean to (storages/maintenances/update_step.go).
use maintmode.Base.{
  ℕ, ◌≡◌, refl, ap, subst, inl, inr, Bool, ◌&&◌, none, some, List, [], ◌∷◌, ◌==◌, ==_self,
  Bool-cases, filter, All,
}
use maintmode.Entity.Step.{MaintenanceStep}
use maintmode.World.Errors.{ok}
use maintmode.World.Effect.{call}
use maintmode.World.Effect.Invert.{bind_ok}
use maintmode.Store.Steps.{update_step, set_step_row, to_db_maintenance_step}
use maintmode.World.Tables.{World, StepRow}

abbrev pub is_row : ℕ → ℕ → StepRow → Bool
is_row step_id maint_id r = r.id == step_id && r.maintenance_id == maint_id

abbrev pub Unstamped : StepRow → Type 0
Unstamped r = (r.created_at ≡ 0) × (r.updated_at ≡ none)

set_step_row-Unstamped :
    (maint_id : ℕ) (step : MaintenanceStep) (rows : List StepRow)
    → All Unstamped (
        filter
          (is_row step.id maint_id)
          (set_step_row step.id (to_db_maintenance_step maint_id step) rows))
unfolding set_step_row to_db_maintenance_step
set_step_row-Unstamped maint_id step [] = tt
set_step_row-Unstamped maint_id step (s ∷ rows) =
    let rest = set_step_row-Unstamped maint_id step rows in
    elim (Bool-cases (s.id == step.id && s.maintenance_id == maint_id)) [
      | inl hit ↦ rw hit (rw (==_self step.id, ==_self maint_id) ((refl, refl), rest))
      | inr miss ↦ rw miss (rw miss rest)
    ]

-- After an `UpdateStep` that returns, whatever time it has stamped the step with, the row of the step
-- holds Go's zero time in created_at and NULL in updated_at.
pub update_step-Unstamped :
    (maint_id : ℕ) (step : MaintenanceStep) (w v : World)
    → update_step maint_id step w ≡ (ok tt, v)
    → All Unstamped (filter (is_row step.id maint_id) v.db.maintenance_steps)
unfolding update_step
update_step-Unstamped maint_id step w v h =
    let (_, u, called, last) = bind_ok (call w) _ h in
    subst (λ z. All Unstamped (filter (is_row step.id maint_id) z.db.maintenance_steps))
      (ap (λ r. r.1) last)
      (set_step_row-Unstamped maint_id (record step { updated_at = some w.clock })
        u.db.maintenance_steps)
