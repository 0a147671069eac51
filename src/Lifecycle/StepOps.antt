-- ===== src/Lifecycle/StepOps.antt =====
-- services/maint/step_lifecycle.go.
use maintmode.Base.{
  ℕ, Option, none, some, Bool, true, List, [], ◌∷◌, not, ◌==◌, compare, if◌then◌else◌,
}
use maintmode.Base.Sorting.{sort_func}
use maintmode.Entity.Step.{
  MaintenanceStep, MaintenanceStepStatus, started, completed, canceled, is_terminal,
  can_main_step_transition,
}
use maintmode.Entity.Maint.{Maintenance, MaintenanceStatus, in_progress, status_eq, unset}
use maintmode.Entity.Notify.{NotifyEventKind, step_started, step_completed, step_cancelled}
use maintmode.Entity.Commands.{MaintenanceStepCmd}
use maintmode.Lifecycle.Apply.{update_with_apply}
use maintmode.Store.Steps.{get_maint_steps, update_step}
use maintmode.World.Errors.{
  Result, ok, err, maint_not_in_progress, step_not_found, step_order_violation,
  forbidden_step_status_transition,
}
use maintmode.World.Tables.{
  NotifyEvent, Action, maint_step_started, maint_step_completed, maint_step_cancelled,
}
use maintmode.World.Effect.{
  M, ◌>>=◌, ◌>>◌, pure, throw_if, lift, utc_now, publish_audit, dispatch_event,
}
use maintmode.World.Tx.{Ctx}

-- `lo.FindIndexOf` by id, with the element in front of the one that is found.
unfoldable pub find_step :
    ℕ
    → Option MaintenanceStep
    → List MaintenanceStep
    → Option (Option MaintenanceStep × MaintenanceStep)
find_step id prev [] = none
find_step id prev (s ∷ steps) =
    let rest = find_step id (some s) steps in if s.id == id then some (prev, s) else rest

abbrev pub previous_terminal : Option MaintenanceStep → Bool
previous_terminal none = true
previous_terminal (some prev) = is_terminal prev.status

unfoldable pub check_step :
    MaintenanceStepStatus
    → Option (Option MaintenanceStep × MaintenanceStep)
    → Result MaintenanceStep
unfolding can_main_step_transition
check_step new_status none = err step_not_found
check_step new_status (some (prev, step)) =
    if previous_terminal prev
    then (if can_main_step_transition step.status new_status
        then ok step
        else err (forbidden_step_status_transition step.status new_status))
    else err step_order_violation

-- `canChangeStepStatusTo`
unfoldable pub can_change_step_status_to :
    List MaintenanceStep → ℕ → MaintenanceStepStatus → Result MaintenanceStep
unfolding check_step find_step sort_func
can_change_step_status_to steps step_id new_status = check_step new_status (
    find_step step_id none
      (sort_func (λ (s : MaintenanceStep) (t : MaintenanceStep). compare s.order t.order) steps))

-- The time that a transition stamps.
unfoldable pub stamp_step : MaintenanceStepStatus → ℕ → MaintenanceStep → MaintenanceStep
stamp_step started now step = record step { actual_started_at = some now; status = started }
stamp_step status now step = record step { actual_completed_at = some now; status = status }

-- The function that `StartStep`, `CompleteStep` and `CancelStep` hand to `updateStepWithApply`.
unfoldable pub step_apply : MaintenanceStepStatus → ℕ → List MaintenanceStep → M MaintenanceStep
unfolding can_change_step_status_to stamp_step
step_apply status step_id steps = do
  step ← lift (can_change_step_status_to steps step_id status)
  now ← utc_now
  pure (stamp_step status now step)

-- The transactional part of `updateStepWithApply`; the step goes to the caller beside the
-- maintenance, so it travels in the maintenance's `steps`.
unfoldable pub step_body : MaintenanceStepStatus → ℕ → Ctx → Maintenance → M Maintenance
unfolding step_apply get_maint_steps update_step
step_body status step_id ctx maint = do
  throw_if (not (status_eq maint.status in_progress)) maint_not_in_progress
  steps ← get_maint_steps maint.id
  step ← step_apply status step_id steps
  update_step maint.id step
  pure (record maint { steps = step ∷ [] })

unfoldable pub step_event_kind : MaintenanceStatus → MaintenanceStepStatus → Option NotifyEventKind
step_event_kind in_progress started = some step_started
step_event_kind in_progress completed = some step_completed
step_event_kind in_progress canceled = some step_cancelled
step_event_kind _ _ = none

abbrev step_event : NotifyEventKind → Maintenance → MaintenanceStep → NotifyEvent
step_event kind maint step = record {
  kind = kind;
  maint_id = maint.id;
  maint_title = maint.title;
  task_tracker_url = "";
  created_by_user_id = 0;
  step_id = step.id;
  step_order = step.order;
  step_description = step.description;
  cancel_reason = unset;
  cancel_reason_comment = "";
}

unfoldable pub notify_step : Option NotifyEventKind → Maintenance → MaintenanceStep → M (Unit {0})
unfolding dispatch_event
notify_step none maint step = pure tt
notify_step (some kind) maint step = dispatch_event (step_event kind maint step)

-- `dispatchStepLifecycle`
unfoldable pub dispatch_step_lifecycle : Maintenance → MaintenanceStep → M (Unit {0})
unfolding notify_step step_event_kind
dispatch_step_lifecycle maint step =
    notify_step (step_event_kind maint.status step.status) maint step

abbrev step_action :
    MaintenanceStepStatus → MaintenanceStepCmd → Maintenance → MaintenanceStep → Action
step_action started cmd maint step = maint_step_started cmd.actor maint step
step_action completed cmd maint step = maint_step_completed cmd.actor maint step
step_action _ cmd maint step = maint_step_cancelled cmd.actor maint step

-- Notify and then publish, for the one step that was changed.
unfoldable pub announce_step :
    MaintenanceStepStatus → MaintenanceStepCmd → Maintenance → List MaintenanceStep → M (Unit {0})
unfolding dispatch_step_lifecycle publish_audit
announce_step status cmd maint [] = pure tt
announce_step status cmd maint (step ∷ _) =
    dispatch_step_lifecycle maint step >> publish_audit (step_action status cmd maint step)

unfoldable pub change_step : MaintenanceStepStatus → MaintenanceStepCmd → M (Unit {0})
unfolding step_body announce_step update_with_apply
change_step status cmd = do
  both ← update_with_apply cmd.maint_id (step_body status cmd.step_id)
  announce_step status cmd both.1 both.1.steps

-- `StartStep`, `CompleteStep` and `CancelStep`
abbrev pub start_step : MaintenanceStepCmd → M (Unit {0})
start_step = change_step started

abbrev pub complete_step : MaintenanceStepCmd → M (Unit {0})
complete_step = change_step completed

abbrev pub cancel_step : MaintenanceStepCmd → M (Unit {0})
cancel_step = change_step canceled
