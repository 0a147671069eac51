-- ===== src/Lifecycle/Complete.antt =====
-- services/maint/complete_maint.go.
use maintmode.Base.{ℕ, none, some, Bool, List, all, not, ltb, if◌then◌else◌}
use maintmode.Entity.Period.{Period}
use maintmode.Entity.Step.{MaintenanceStep, is_terminal}
use maintmode.Entity.Maint.{
  Maintenance, completed, status_eq, can_maint_transition, close_actual_period,
}
use maintmode.Entity.Commands.{CompleteMaintenanceCmd}
use maintmode.Lifecycle.Apply.{update_with_apply}
use maintmode.Store.Steps.{get_maint_steps}
use maintmode.World.Errors.{
  Result, ok, err, forbidden_maint_status_transition, maintenance_has_unfinished_steps, skip_update,
  is_skip_update,
}
use maintmode.World.Tables.{World, maint_completed}
use maintmode.World.Effect.{M, ◌>>=◌, ◌>>◌, pure, throw_if, utc_now, publish_audit}
use maintmode.World.Tx.{Ctx}

unfoldable pub all_steps_terminal : List MaintenanceStep → Bool
all_steps_terminal steps = all (λ (s : MaintenanceStep). is_terminal s.status) steps

-- `cmp.Or(maint.ActualPeriod, &maint.PlannedPeriod)` and then `CloseActualPeriod`. Where there is
-- no actual period, the pointer is to the planned period itself, so that setting its end sets the
-- end of the planned period.
unfoldable pub complete_period : ℕ → Maintenance → Maintenance
unfolding close_actual_period
complete_period now m = elim m.actual_period [
  | some p ↦ close_actual_period now m
  | none ↦
      if ltb m.planned_period.start now
      then (let closed : Period = record { start = m.planned_period.start; end = some now } in
          record m { planned_period = closed; actual_period = some closed })
      else m
]

unfoldable pub complete_apply : Ctx → Maintenance → M Maintenance
unfolding can_maint_transition get_maint_steps all_steps_terminal complete_period
complete_apply ctx maint = do
  throw_if (status_eq maint.status completed) skip_update
  throw_if (not (can_maint_transition maint.status completed))
      (forbidden_maint_status_transition maint.status completed)
  steps ← get_maint_steps maint.id
  throw_if (not (all_steps_terminal steps)) maintenance_has_unfinished_steps
  now ← utc_now
  let closed = complete_period now maint
  pure (record closed { status = completed })

unfoldable pub after_complete :
    CompleteMaintenanceCmd → Result (Maintenance × Maintenance) × World → Result (Unit {0}) × World
unfolding publish_audit
after_complete cmd (ok (prev, current), w) = publish_audit (maint_completed cmd.actor current) w
after_complete cmd (err e, w) = if is_skip_update e then (ok tt, w) else (err e, w)

-- `CompleteMaint`
unfoldable pub complete_maint : CompleteMaintenanceCmd → M (Unit {0})
unfolding complete_apply after_complete update_with_apply
complete_maint cmd w = after_complete cmd (update_with_apply cmd.maint_id complete_apply w)
