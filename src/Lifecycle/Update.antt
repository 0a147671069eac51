-- ===== src/Lifecycle/Update.antt =====
-- services/maint/update_maint.go: the edit of a draft.
use maintmode.Base.{
  ℕ, ◌+◌, ◌/◌, Option, none, some, Bool, true, false, List, [], ◌∷◌, ◌++◌, not, ◌&&◌, ◌||◌, ◌==◌,
  str_eq, all, length, from_ptr, is_some,
}
use maintmode.Entity.Period.{Period, duration, new_period}
use maintmode.Entity.Maint.{
  Maintenance, MaintenanceScope, draft, global, status_eq, scope_eq, impact_eq, normalize,
}
use maintmode.Entity.Notify.{NotifyTarget}
use maintmode.Entity.Commands.{
  UpdateMaintenanceCmd, MaintenanceStepInput, DeferredNotificationInput, MentionInput,
}
use maintmode.Lifecycle.Apply.{update_with_apply}
use maintmode.Lifecycle.Create.{
  Rules, steps_from_cmd, recalculate_planned_period, deferred_notifications_from_cmd, mentioned,
  validate_approver, validate_step_input, validate_notify_targets_input,
  validate_deferred_notification_input, validate_mention_input, uuid_not_nil, max_steps,
  max_notify_targets, max_deferred_notifications, min_mentions, max_mentions,
}
use maintmode.Reminders.{replace_reminders}
use maintmode.Targets.{resolve_notify_target, replace_targets}
use maintmode.Store.Steps.{add_steps, delete_steps}
use maintmode.Store.Children.{add_resources, delete_resources, add_mentions, delete_mentions}
use maintmode.World.Errors.{
  Result, ok, err, validation, forbidden_maint_status_transition, panic_recovery,
}
use maintmode.World.Tables.{
  AuditFieldChange, title, description, planned_period, scope, impact, approver, task_tracker_url,
  steps, resources, notify_targets, deferred_notifications, mentions, maint_updated,
}
use maintmode.World.Effect.{M, ◌>>=◌, ◌>>◌, pure, throw_if, lift, publish_audit}
use maintmode.World.Tx.{Ctx}

-- A rule on a pointer passes over `nil`.
abbrev if_given {ℓ} : {A : Type ℓ} → (A → Bool) → Option A → Bool
if_given test none = true
if_given test (some a) = test a

-- `validation.NilOrNotEmpty` is the rule of `Required` on a value that is given.
unfoldable pub validate_update : Rules → UpdateMaintenanceCmd → Bool
unfolding validate_step_input
validate_update r cmd =
    (if_given r.required_text cmd.title && if_given r.required_text cmd.description)
    && ((if_given r.http_link_url cmd.task_tracker_url
          && (if_given (λ id. r.required_id id && uuid_not_nil id) cmd.approver_user_id
              && if_given r.required cmd.planned_start))
        && (all uuid_not_nil cmd.resources
            && ((r.length_within 0 max_steps (length cmd.steps)
                  && all (validate_step_input r) cmd.steps)
                && ((r.length_within 0 max_notify_targets (length cmd.notify_targets)
                      && all (validate_notify_targets_input r) cmd.notify_targets)
                    && (if_given
                          (λ (ns : List DeferredNotificationInput).
                            r.length_within 0 max_deferred_notifications (length ns)
                            && all (validate_deferred_notification_input r) ns)
                          cmd.deferred_notifications
                        && if_given
                            (λ (ms : List MentionInput).
                              r.length_within min_mentions max_mentions (length ms)
                              && all (validate_mention_input r) ms)
                            cmd.mentions)))))

abbrev pub given {ℓ} : {A : Type ℓ} → List A → Bool
given [] = false
given (_ ∷ _) = true

-- The steps of the command, and the planned period that follows from them.
unfoldable pub stage_steps : List MaintenanceStepInput → Maintenance → Maintenance
unfolding steps_from_cmd recalculate_planned_period
stage_steps [] m = m
stage_steps (i ∷ is) m = record m {
  steps = steps_from_cmd (i ∷ is);
  planned_period = recalculate_planned_period m.planned_period.start (steps_from_cmd (i ∷ is));
}

-- Moving the start keeps the duration; an open period has none, and the source panics.
unfoldable pub stage_start : Option ℕ → Maintenance → Result Maintenance
stage_start none m = ok m
stage_start (some start) m = elim (duration m.planned_period) [
  | none ↦ err panic_recovery
  | some d ↦ ok (record m { planned_period = new_period start (start + d) })
]

abbrev or_keep {ℓ} : {A : Type ℓ} → List A → List A → List A
or_keep [] old = old
or_keep (x ∷ xs) old = x ∷ xs

unfoldable pub stage_values : List NotifyTarget → UpdateMaintenanceCmd → Maintenance → Maintenance
unfolding normalize deferred_notifications_from_cmd
stage_values targets cmd m = normalize (record m {
  scope = from_ptr m.scope cmd.scope;
  impact = from_ptr m.impact cmd.impact;
  approver_user_id = from_ptr m.approver_user_id cmd.approver_user_id;
  resources = or_keep cmd.resources m.resources;
  notify_targets = or_keep targets m.notify_targets;
  deferred_notifications = elim cmd.deferred_notifications [
    | none ↦ m.deferred_notifications
    | some ns ↦ deferred_notifications_from_cmd cmd.maint_id ns
  ];
  mentions = elim cmd.mentions [ none ↦ m.mentions | some ms ↦ mentioned ms ];
})

abbrev pub stage_texts : UpdateMaintenanceCmd → Maintenance → Maintenance
stage_texts cmd m = record m {
  title = from_ptr m.title cmd.title;
  description = from_ptr m.description cmd.description;
  task_tracker_url = from_ptr m.task_tracker_url cmd.task_tracker_url;
}

abbrev pub then_stage :
    List NotifyTarget → UpdateMaintenanceCmd → Result Maintenance → Result Maintenance
then_stage targets cmd (ok m) = ok (stage_values targets cmd m)
then_stage targets cmd (err e) = err e

-- `applyValuesFromUpdateCmd`
unfoldable pub apply_values_from_update_cmd :
    List NotifyTarget → UpdateMaintenanceCmd → Maintenance → Result Maintenance
unfolding stage_steps stage_start stage_values
apply_values_from_update_cmd targets cmd m =
    then_stage targets cmd
      (stage_start cmd.planned_start (stage_steps cmd.steps (stage_texts cmd m)))

abbrev pub when : Bool → M (Unit {0}) → M (Unit {0})
when true m = m
when false m = pure tt

-- `replaceSteps`, `replaceResources` and `replaceMentions`
unfoldable pub replace_steps : Maintenance → M (Unit {0})
unfolding delete_steps add_steps
replace_steps maint = do delete_steps maint.id; added ← add_steps maint.id maint.steps; pure tt

unfoldable pub replace_resources : Maintenance → M (Unit {0})
unfolding delete_resources add_resources
replace_resources maint = do delete_resources maint.id; add_resources maint.id maint.resources

unfoldable pub replace_mentions : Maintenance → M (Unit {0})
unfolding delete_mentions add_mentions
replace_mentions maint = do delete_mentions maint.id; add_mentions maint.id maint.mentions

abbrev pub is_global : Option MaintenanceScope → Bool
is_global none = false
is_global (some s) = scope_eq s global

-- `applyUpdate`
unfoldable pub apply_update :
    List NotifyTarget → UpdateMaintenanceCmd → Ctx → Maintenance → M Maintenance
unfolding apply_values_from_update_cmd replace_steps replace_resources replace_targets
    replace_reminders replace_mentions
apply_update targets cmd ctx maint = do
  throw_if (not (status_eq maint.status draft))
      (forbidden_maint_status_transition maint.status draft)
  staged ← lift (apply_values_from_update_cmd targets cmd maint)
  when (given cmd.steps) (replace_steps staged)
  when (given cmd.resources || is_global cmd.scope) (replace_resources staged)
  when (given cmd.notify_targets) (replace_targets ctx staged)
  when (is_some cmd.deferred_notifications)
      (replace_reminders staged.id staged.deferred_notifications)
  when (is_some cmd.mentions) (replace_mentions staged)
  pure staged

-- `Period.String` renders whole seconds, so that two periods read alike when their seconds agree.
abbrev same_second : ℕ → ℕ → Bool
same_second s t = s / 1_000_000 == t / 1_000_000

abbrev same_end : Option ℕ → Option ℕ → Bool
same_end none none = true
same_end (some s) (some t) = same_second s t
same_end _ _ = false

abbrev same_period_text : Period → Period → Bool
same_period_text p q = same_second p.start q.start && same_end p.end q.end

abbrev note : AuditFieldChange → Bool → List AuditFieldChange
note c true = c ∷ []
note c false = []

-- `maintUpdateChanges`
unfoldable pub maint_update_changes :
    Maintenance → Maintenance → UpdateMaintenanceCmd → List AuditFieldChange
maint_update_changes prev current cmd =
    note title (not (str_eq prev.title current.title))
    ++ (note description (not (str_eq prev.description current.description))
        ++ (note planned_period (not (same_period_text prev.planned_period current.planned_period))
            ++ (note scope (not (scope_eq prev.scope current.scope))
                ++ (note impact (not (impact_eq prev.impact current.impact))
                    ++ (note approver (not (prev.approver_user_id == current.approver_user_id))
                        ++ (note task_tracker_url
                              (not (str_eq prev.task_tracker_url current.task_tracker_url))
                            ++ (note steps (given cmd.steps)
                                ++ (note resources (given cmd.resources || is_global cmd.scope)
                                    ++ (note notify_targets (given cmd.notify_targets)
                                        ++ (note deferred_notifications
                                              (is_some cmd.deferred_notifications)
                                            ++ note mentions (is_some cmd.mentions)))))))))))

unfoldable pub audit_changes :
    UpdateMaintenanceCmd → Maintenance → List AuditFieldChange → M (Unit {0})
unfolding publish_audit
audit_changes cmd current [] = pure tt
audit_changes cmd current (c ∷ cs) = publish_audit (maint_updated cmd.actor current (c ∷ cs))

abbrev pub check_new_approver : Option ℕ → M (Unit {0})
check_new_approver none = pure tt
check_new_approver (some id) = validate_approver id

-- `UpdateMaint`
unfoldable pub update_draft : Rules → UpdateMaintenanceCmd → M (Unit {0})
unfolding validate_update validate_approver resolve_notify_target apply_update maint_update_changes
    audit_changes update_with_apply
update_draft r cmd = do
  throw_if (not (validate_update r cmd)) validation
  check_new_approver cmd.approver_user_id
  targets ← resolve_notify_target cmd.maint_id cmd.notify_targets
  both ← update_with_apply cmd.maint_id (apply_update targets cmd)
  audit_changes cmd both.1 (maint_update_changes both.0 both.1 cmd)
