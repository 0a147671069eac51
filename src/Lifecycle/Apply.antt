-- ===== src/Lifecycle/Apply.antt =====
-- The transactional helper of services/maint/update_maint.go (`runUpdateWithApply` and its two
-- wrappers) and the notification that follows from a status transition.
use maintmode.Base.{ℕ, Option, none, some, if◌then◌else◌}
use maintmode.Entity.Maint.{
  Maintenance, MaintenanceStatus, planned, in_progress, cancelled, completed,
}
use maintmode.Entity.Notify.{
  NotifyEventKind, maint_started, maint_completed, maint_cancelled, is_step,
}
use maintmode.Reminders.{cancel_enqueued}
use maintmode.Store.Maintenances.{get_maint, update_maint}
use maintmode.World.Errors.{Result, ok}
use maintmode.World.Tables.{World, NotifyEvent}
use maintmode.World.Effect.{M, ◌>>=◌, ◌>>◌, pure, dispatch_event}
use maintmode.World.Tx.{Ctx, background, within_tx, within_serializable_tx}

unfoldable pub maint_lifecycle_event :
    MaintenanceStatus → MaintenanceStatus → Option NotifyEventKind
maint_lifecycle_event planned in_progress = some maint_started
maint_lifecycle_event planned cancelled = some maint_cancelled
maint_lifecycle_event in_progress cancelled = some maint_cancelled
maint_lifecycle_event in_progress completed = some maint_completed
maint_lifecycle_event _ _ = none

abbrev maint_event : NotifyEventKind → Maintenance → NotifyEvent
maint_event kind maint = record {
  kind = kind;
  maint_id = maint.id;
  maint_title = maint.title;
  task_tracker_url = maint.task_tracker_url;
  created_by_user_id = maint.created_by_user_id;
  step_id = 0;
  step_order = 0;
  step_description = "";
  cancel_reason = maint.cancel_reason;
  cancel_reason_comment = maint.cancel_reason_comment;
}

-- `NotifyMaintLifecycle` of services/maintnotify/notify_maint_lifecycle.go.
unfoldable pub notify_maint_lifecycle : NotifyEventKind → Maintenance → M (Unit {0})
unfolding dispatch_event is_step
notify_maint_lifecycle kind maint =
    if is_step kind then pure tt else dispatch_event (maint_event kind maint)

-- `_ = f()`: the error is dropped, what was done stays.
unfoldable pub ignored : Result (Unit {0}) × World → Result (Unit {0}) × World
ignored (_, w) = (ok tt, w)

unfoldable pub cancel_ignored : ℕ → M (Unit {0})
unfolding ignored cancel_enqueued
cancel_ignored maint_id w = ignored (cancel_enqueued maint_id w)

unfoldable pub dispatch_kind : Option NotifyEventKind → Maintenance → M (Unit {0})
unfolding cancel_ignored notify_maint_lifecycle
dispatch_kind none current = pure tt
dispatch_kind (some maint_cancelled) current =
    cancel_ignored current.id >> notify_maint_lifecycle maint_cancelled current
dispatch_kind (some kind) current = notify_maint_lifecycle kind current

unfoldable pub dispatch_maint_lifecycle : Maintenance → Maintenance → M (Unit {0})
unfolding dispatch_kind maint_lifecycle_event
dispatch_maint_lifecycle prev current =
    dispatch_kind (maint_lifecycle_event prev.status current.status) current

-- What runs in the transaction. `apply` returns the value that the source mutates in place.
unfoldable pub update_body :
    ℕ → (Ctx → Maintenance → M Maintenance) → Ctx → M (Maintenance × Maintenance)
unfolding get_maint update_maint
update_body maint_id apply ctx = do
  prev ← get_maint maint_id
  current ← apply ctx prev
  stored ← update_maint current
  pure (prev, stored)

abbrev pub Within : Type 0
Within = (Ctx → M (Maintenance × Maintenance)) → M (Maintenance × Maintenance)

unfoldable pub run_update_with_apply :
    Within → ℕ → (Ctx → Maintenance → M Maintenance) → M (Maintenance × Maintenance)
unfolding update_body dispatch_maint_lifecycle
run_update_with_apply within maint_id apply = do
  both ← within (update_body maint_id apply)
  dispatch_maint_lifecycle both.0 both.1
  pure both

unfoldable pub update_with_apply :
    ℕ → (Ctx → Maintenance → M Maintenance) → M (Maintenance × Maintenance)
unfolding run_update_with_apply within_tx
update_with_apply = run_update_with_apply (within_tx background)

unfoldable pub update_with_apply_serializable :
    ℕ → (Ctx → Maintenance → M Maintenance) → M (Maintenance × Maintenance)
unfolding run_update_with_apply within_serializable_tx
update_with_apply_serializable = run_update_with_apply (within_serializable_tx background)
