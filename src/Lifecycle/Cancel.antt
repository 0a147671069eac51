-- ===== src/Lifecycle/Cancel.antt =====
-- services/maint/cancel_maint.go and cancel_unstarted.go.
use maintmode.Base.{ℕ, String, List, [], ◌∷◌, ◌++◌, not, ◌||◌, if◌then◌else◌}
use maintmode.Entity.Maint.{
  Maintenance, draft, planned, cancelled, status_eq, can_maint_transition, close_actual_period,
  not_started,
}
use maintmode.Entity.User.{system_user}
use maintmode.Entity.Commands.{CancelMaintenanceCmd}
use maintmode.Lifecycle.Apply.{update_with_apply}
use maintmode.Store.Maintenances.{list_overdue_not_started}
use maintmode.World.Errors.{
  Error, Result, ok, err, forbidden_maint_status_transition, skip_update, is_skip_update,
}
use maintmode.World.Tables.{World, maint_cancelled}
use maintmode.World.Effect.{M, ◌>>=◌, ◌>>◌, pure, throw_if, utc_now, publish_audit}
use maintmode.World.Tx.{Ctx}

unfoldable pub cancel_apply :
    CancelMaintenanceCmd → (Maintenance → M (Unit {0})) → Ctx → Maintenance → M Maintenance
unfolding close_actual_period
cancel_apply cmd can_maint_cancel ctx maint = do
  throw_if (status_eq maint.status cancelled) skip_update
  can_maint_cancel maint
  now ← utc_now
  let closed = close_actual_period now maint
  pure (record closed {
    status = cancelled;
    cancel_reason = cmd.reason;
    cancel_reason_comment = cmd.reason_comment;
  })

-- What follows the transaction: a skipped update is a success without an audit entry.
unfoldable pub after_cancel :
    CancelMaintenanceCmd → Result (Maintenance × Maintenance) × World → Result (Unit {0}) × World
unfolding publish_audit
after_cancel cmd (ok (prev, current), w) = publish_audit (maint_cancelled cmd.actor current) w
after_cancel cmd (err e, w) = if is_skip_update e then (ok tt, w) else (err e, w)

-- `cancelMaint`
unfoldable pub cancel_maint_with :
    CancelMaintenanceCmd → (Maintenance → M (Unit {0})) → M (Unit {0})
unfolding cancel_apply after_cancel update_with_apply
cancel_maint_with cmd can_maint_cancel w =
    after_cancel cmd (update_with_apply cmd.maint_id (cancel_apply cmd can_maint_cancel) w)

unfoldable pub can_cancel : Maintenance → M (Unit {0})
unfolding can_maint_transition
can_cancel maint =
    throw_if (not (can_maint_transition maint.status cancelled))
      (forbidden_maint_status_transition maint.status cancelled)

-- `CancelMaint`
unfoldable pub cancel_maint : CancelMaintenanceCmd → M (Unit {0})
unfolding cancel_maint_with can_cancel
cancel_maint cmd = cancel_maint_with cmd can_cancel

unfoldable pub still_not_started : Maintenance → M (Unit {0})
still_not_started maint =
    throw_if (not (status_eq maint.status draft || status_eq maint.status planned)) skip_update

abbrev cancel_unstarted_reason_comment : String
cancel_unstarted_reason_comment =
    "Automatically canceled: maintenance was not started within the grace period after its planned start"

abbrev pub sweep_cmd : Maintenance → CancelMaintenanceCmd
sweep_cmd maint = record {
  maint_id = maint.id;
  reason = not_started;
  reason_comment = cancel_unstarted_reason_comment;
  actor = system_user;
}

unfoldable pub sweep_one : Maintenance → M (Unit {0})
unfolding cancel_maint_with still_not_started
sweep_one maint = cancel_maint_with (sweep_cmd maint) still_not_started

-- One round of the loop: a failure is kept, and the loop goes on.
unfoldable pub joined : List Error → Result (Unit {0}) × World → List Error × World
joined errs (ok _, w) = (errs, w)
joined errs (err e, w) = (errs ++ e ∷ [], w)

unfoldable pub sweep : List Maintenance → List Error → World → List Error × World
unfolding sweep_one joined
sweep [] errs w = (errs, w)
sweep (maint ∷ rest) errs w =
    let (errs', w') = joined errs (sweep_one maint w) in sweep rest errs' w'

unfoldable pub swept : List Error × World → Result (List Error) × World
swept (errs, w) = (ok errs, w)

-- `CancelUnStarted`: the errors that it joins, none of which is `nil`.
unfoldable pub cancel_unstarted : ℕ → ℕ → M (List Error)
unfolding sweep swept list_overdue_not_started
cancel_unstarted cutoff limit = do
  overdue ← list_overdue_not_started cutoff limit
  λ w. swept (sweep overdue [] w)
