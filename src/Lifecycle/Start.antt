-- ===== src/Lifecycle/Start.antt =====
-- services/maint/start_maint.go.
use maintmode.Base.{some, not}
use maintmode.Entity.Period.{new_open_ended_period}
use maintmode.Entity.Maint.{Maintenance, in_progress, can_maint_transition}
use maintmode.Entity.Commands.{StartMaintenanceCmd}
use maintmode.Lifecycle.Apply.{update_with_apply}
use maintmode.World.Errors.{forbidden_maint_status_transition}
use maintmode.World.Tables.{maint_started}
use maintmode.World.Effect.{M, ◌>>=◌, ◌>>◌, pure, throw_if, utc_now, publish_audit}
use maintmode.World.Tx.{Ctx}

unfoldable pub start_apply : Ctx → Maintenance → M Maintenance
unfolding can_maint_transition
start_apply ctx maint = do
  throw_if (not (can_maint_transition maint.status in_progress))
      (forbidden_maint_status_transition maint.status in_progress)
  now ← utc_now
  pure (record maint { actual_period = some (new_open_ended_period now); status = in_progress })

-- `StartMaint`
unfoldable pub start_maint : StartMaintenanceCmd → M (Unit {0})
unfolding start_apply update_with_apply publish_audit
start_maint cmd = do
  both ← update_with_apply cmd.maint_id start_apply
  publish_audit (maint_started cmd.actor both.1)
