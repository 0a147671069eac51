-- ===== src/Lifecycle/Create.antt =====
-- services/maint/create_draft.go, mapper.go and validate_approver.go. The rules of the
-- ozzo-validation package and of net/url, which are outside the repository, are the parameter
-- `Rules`; what they promise is `IsLawful`.
use maintmode.Base.{
  ℕ, ◌+◌, ◌-◌, ◌*◌, ◌/◌, ◌%◌, ◌^◌, ◌≤◌, ◌≡◌, ◌≢◌, ◌⊎◌, String, none, Bool, true, List, [], ◌∷◌, map,
  not, ◌&&◌, ◌||◌, ◌==◌, ltb, all, length, uniq, if◌then◌else◌, from_ptr,
}
use maintmode.Entity.Period.{Period, new_period, new_open_ended_period}
use maintmode.Entity.Step.{MaintenanceStep, planned}
use maintmode.Entity.Maint.{Maintenance, draft, unset, resources, scope_eq, normalize}
use maintmode.Entity.User.{approver_eligible_roles}
use maintmode.Entity.Notify.{DeferredNotification}
use maintmode.Entity.Commands.{
  CreateMaintenanceCmd, MaintenanceStepInput, NotifyTargetInput, MentionInput,
  DeferredNotificationInput,
}
use maintmode.Store.Maintenances.{create_maint}
use maintmode.Store.Steps.{add_steps}
use maintmode.Store.Children.{add_resources, add_mentions, list_users}
use maintmode.Reminders.{create_reminders}
use maintmode.Targets.{create_targets}
use maintmode.World.Errors.{validation, approver_not_eligible}
use maintmode.World.Tables.{maint_created}
use maintmode.World.Effect.{M, ◌>>=◌, ◌>>◌, pure, throw_if, call, utc_now, publish_audit}
use maintmode.World.Tx.{Ctx, background, within_tx}

-- `validation.Required` of a text, of a number (a count, a time) and of a UUID, `validation.Length`
-- of a length, `validation.Min`, and `xvalidation.HTTPLinkURL`.
pub record Rules : Type 0 where
  pub required_text : String → Bool
  pub required : ℕ → Bool
  pub required_id : ℕ → Bool
  pub length_within : ℕ → ℕ → ℕ → Bool
  pub at_least : ℕ → ℕ → Bool
  pub http_link_url : String → Bool

-- What the package documents: `Required` refuses the zero number, but says nothing of a UUID, which
-- is an array and so is empty only if its length is 0; `Length` and `Min` pass over it,
-- and otherwise hold the bounds.
pub record IsLawful (r : Rules) : Type 0 where
  pub required_ne : (n : ℕ) → r.required n ≡ true → n ≢ 0
  pub length_bounds :
      (lo hi n : ℕ) → r.length_within lo hi n ≡ true → (n ≡ 0) ⊎ ((lo ≤ n) × (n ≤ hi))
  pub min_bound : (lo n : ℕ) → r.at_least lo n ≡ true → (n ≡ 0) ⊎ (lo ≤ n)

abbrev pub max_steps : ℕ
max_steps = 100

abbrev pub min_steps : ℕ
min_steps = 1

abbrev min_step_durations_minutes : ℕ
min_step_durations_minutes = 5

abbrev pub min_notify_targets : ℕ
min_notify_targets = 1

abbrev pub max_notify_targets : ℕ
max_notify_targets = 10

abbrev min_deferred_notifications : ℕ
min_deferred_notifications = 0

abbrev pub max_deferred_notifications : ℕ
max_deferred_notifications = 10

abbrev pub min_mentions : ℕ
min_mentions = 0

abbrev pub max_mentions : ℕ
max_mentions = 10

-- `xvalidation.UUIDNotNil`
abbrev pub uuid_not_nil : ℕ → Bool
uuid_not_nil id = not (id == 0)

-- `stepsFromCmd`
unfoldable pub step_from_input : MaintenanceStepInput → MaintenanceStep
step_from_input i = record {
  id = 0;
  order = i.order;
  description = i.description;
  rollback_description = i.rollback_description;
  duration_minutes = i.duration_minutes;
  status = planned;
  actual_started_at = none;
  actual_completed_at = none;
  created_at = 0;
  updated_at = none;
}

unfoldable pub steps_from_cmd : List MaintenanceStepInput → List MaintenanceStep
unfolding step_from_input
steps_from_cmd inputs = map step_from_input inputs

-- `deferredNotificationsFromCmd`
unfoldable pub deferred_notifications_from_cmd :
    ℕ → List DeferredNotificationInput → List DeferredNotification
deferred_notifications_from_cmd maint_id inputs =
    map
      (λ (i : DeferredNotificationInput). record {
        id = 0;
        maint_id = maint_id;
        fire_at = i.fire_at;
        goque_task_id = none;
      })
      inputs

abbrev pub mentioned : List MentionInput → List ℕ
mentioned inputs = uniq (map (λ (m : MentionInput). m.user_id) inputs)

-- The nanoseconds of all steps, in an int64: `lo.SumBy` wraps around.
unfoldable pub total_duration : List MaintenanceStep → ℕ
total_duration [] = 0
total_duration (s ∷ steps) = (s.duration_minutes * 60_000_000_000 + total_duration steps) % 2 ^ 64

-- `t.Add(d)` in microseconds: from 2 ^ 63 on, the bit pattern stands for a negative duration.
unfoldable pub add_duration : ℕ → ℕ → ℕ
add_duration t ns = if ltb ns (2 ^ 63) then t + ns / 1_000 else t - (2 ^ 64 - ns) / 1_000

-- `recalculatePlannedPeriod`
unfoldable pub recalculate_planned_period : ℕ → List MaintenanceStep → Period
unfolding total_duration add_duration
recalculate_planned_period start steps =
    let total = total_duration steps in
    if total == 0 then new_open_ended_period start else new_period start (add_duration start total)

-- `validatePlanedPeriod`
unfoldable pub validate_planed_period : ℕ → Period → Bool
validate_planed_period now p =
    let end = from_ptr 0 p.end in
    not (p.start == 0 || end == 0) && (ltb p.start end && not (ltb p.start now))

module _ (r : Rules) where
  unfoldable pub validate_step_input : MaintenanceStepInput → Bool
  validate_step_input s =
      (r.required s.order && r.at_least 1 s.order)
      && (r.required_text s.description
          && (r.required_text s.rollback_description
              && (r.required s.duration_minutes
                  && r.at_least min_step_durations_minutes s.duration_minutes)))

  abbrev pub validate_notify_targets_input : NotifyTargetInput → Bool
  validate_notify_targets_input t = r.required_id t.channel_id

  abbrev pub validate_mention_input : MentionInput → Bool
  validate_mention_input m = r.required_id m.user_id && uuid_not_nil m.user_id

  abbrev pub validate_deferred_notification_input : DeferredNotificationInput → Bool
  validate_deferred_notification_input n = r.required n.fire_at

  -- `validateCreate`; the impact and the scope are never empty here.
  unfoldable pub validate_create : ℕ → CreateMaintenanceCmd → Bool
  unfolding validate_step_input validate_planed_period
  validate_create now cmd =
      (r.required_text cmd.title
        && (r.required_id cmd.created_by_user_id && r.required_id cmd.approver_user_id))
      && ((not (scope_eq cmd.scope resources) || r.required (length cmd.resources))
          && (all uuid_not_nil cmd.resources
              && ((r.required_text cmd.description && r.http_link_url cmd.task_tracker_url)
                  && (validate_planed_period now cmd.planned_period
                      && ((r.required (length cmd.steps)
                            && (r.length_within min_steps max_steps (length cmd.steps)
                                && all validate_step_input cmd.steps))
                          && ((r.required (length cmd.notify_targets)
                                && (r.length_within min_notify_targets max_notify_targets
                                      (length cmd.notify_targets)
                                    && all validate_notify_targets_input cmd.notify_targets))
                              && ((r.length_within min_deferred_notifications
                                      max_deferred_notifications (length cmd.deferred_notifications)
                                    && all validate_deferred_notification_input
                                        cmd.deferred_notifications)
                                  && (r.length_within min_mentions max_mentions
                                        (length cmd.mentions)
                                      && all validate_mention_input cmd.mentions))))))))

-- `validateApprover`. `ListUsers` also counts the admins and lists the identities: two more
-- statements, whose results are not used here.
unfoldable pub validate_approver : ℕ → M (Unit {0})
unfolding list_users
validate_approver approver_id = do
  users ← list_users (approver_id ∷ []) approver_eligible_roles true 1
  call
  call
  throw_if (length users == 0) approver_not_eligible

abbrev pub draft_of : CreateMaintenanceCmd → Maintenance
draft_of cmd = record {
  id = 0;
  title = cmd.title;
  description = cmd.description;
  planned_period = cmd.planned_period;
  actual_period = none;
  resources = [];
  scope = cmd.scope;
  impact = cmd.impact;
  status = draft;
  cancel_reason = unset;
  cancel_reason_comment = "";
  created_by_user_id = cmd.created_by_user_id;
  created_at = 0;
  updated_at = none;
  steps = [];
  notify_targets = [];
  deferred_notifications = [];
  mentions = [];
  approver_user_id = cmd.approver_user_id;
  task_tracker_url = cmd.task_tracker_url;
}

-- What the transaction of `CreateDraft` does after the row: the collections, in the source's order.
unfoldable pub create_children : CreateMaintenanceCmd → Maintenance → M Maintenance
unfolding add_resources add_steps steps_from_cmd create_targets deferred_notifications_from_cmd
    add_mentions
create_children cmd maint = do
  add_resources maint.id maint.resources
  steps ← add_steps maint.id (steps_from_cmd cmd.steps)
  targets ← create_targets maint.id cmd.notify_targets
  deferred ←
      create_reminders maint.id
        (deferred_notifications_from_cmd maint.id cmd.deferred_notifications)
  let mentions = mentioned cmd.mentions
  add_mentions maint.id mentions
  pure (record maint {
    steps = steps;
    notify_targets = targets;
    deferred_notifications = deferred;
    mentions = mentions;
  })

-- What `CreateDraft` runs in the transaction.
unfoldable pub create_body : CreateMaintenanceCmd → Ctx → M Maintenance
unfolding create_maint normalize create_children
create_body cmd ctx = do
  created ← create_maint (draft_of cmd)
  create_children cmd (normalize (record created { resources = cmd.resources }))

-- `CreateDraft`
unfoldable pub create_draft : Rules → CreateMaintenanceCmd → M Maintenance
unfolding validate_create validate_approver create_body within_tx publish_audit
create_draft r cmd = do
  now ← utc_now
  throw_if (not (validate_create r now cmd)) validation
  validate_approver cmd.approver_user_id
  maint ← within_tx background (create_body cmd)
  publish_audit (maint_created cmd.actor maint)
  pure maint
