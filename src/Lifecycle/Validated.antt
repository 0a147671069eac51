-- ===== src/Lifecycle/Validated.antt =====
-- What a creation that passes validateCreate holds (services/maint/create_draft.go).
use maintmode.Base.{
  both_true, ℕ, ◌≤◌, ◌≡◌, inl, inr, true, not, ◌&&◌, ◌||◌, Option, none, some, arith, length, all,
}
use maintmode.Entity.Maint.{scope_eq, resources}
use maintmode.Lifecycle.Create.{
  uuid_not_nil, validate_step_input, validate_notify_targets_input,
  validate_deferred_notification_input, validate_mention_input, Rules, IsLawful, validate_create,
  validate_planed_period, min_steps, max_steps, min_notify_targets, max_notify_targets,
  max_mentions, max_deferred_notifications,
}
use maintmode.Entity.Period.{to_pg_range}
use maintmode.Entity.Commands.{CreateMaintenanceCmd}
use maintmode.Store.Maintenances.{planned_check}

pub record Valid (now : ℕ) (cmd : CreateMaintenanceCmd) : Type 0 where
  pub steps_bounds : (min_steps ≤ length cmd.steps) × (length cmd.steps ≤ max_steps)
  pub targets_bounds :
      (min_notify_targets ≤ length cmd.notify_targets)
      × (length cmd.notify_targets ≤ max_notify_targets)
  pub mentions_bound : length cmd.mentions ≤ max_mentions
  pub reminders_bound : length cmd.deferred_notifications ≤ max_deferred_notifications
  pub not_past : now ≤ cmd.planned_period.start
  pub planned_ok : planned_check (to_pg_range cmd.planned_period) ≡ true

period_Valid :
    (now start : ℕ) (end : Option ℕ)
    → validate_planed_period now (record { start = start; end = end }) ≡ true
    → (now ≤ start) × (planned_check (to_pg_range (record { start = start; end = end })) ≡ true)
unfolding validate_planed_period planned_check to_pg_range
period_Valid now start none h = ground arith
period_Valid now start (some e) h = ground arith

module _ (r : Rules) (lawful : IsLawful r) where
  in_bounds :
      (lo hi n : ℕ) → r.required n ≡ true → r.length_within lo hi n ≡ true → (lo ≤ n) × (n ≤ hi)
  in_bounds lo hi n present bounded = elim (lawful.length_bounds lo hi n bounded) [
    | inl zero_it ↦ absurd (lawful.required_ne n present zero_it)
    | inr bounds ↦ bounds
  ]

  at_most : (hi n : ℕ) → r.length_within 0 hi n ≡ true → n ≤ hi
  at_most hi n bounded = elim (lawful.length_bounds 0 hi n bounded) [
    | inl zero_it ↦ omega arith
    | inr bounds ↦ bounds.1
  ]

  -- With rules that keep their documented promises, a command that passes the validation has
  -- between 1 and 100 steps, between 1 and 10 targets, at most 10 mentions
  -- and 10 reminders, and a planned period that is not in the past and that the CHECK of its column
  -- accepts.
  pub validate_create-Valid :
      (now : ℕ) (cmd : CreateMaintenanceCmd) → validate_create r now cmd ≡ true → Valid now cmd
  unfolding validate_create
  validate_create-Valid now cmd h =
      let (_, h₁) = both_true _ _ h in
      let (_, h₂) =
        both_true (not (scope_eq cmd.scope resources) || r.required (length cmd.resources)) _ h₁ in
      let (_, h₃) = both_true (all uuid_not_nil cmd.resources) _ h₂ in
      let (_, h₄) =
        both_true (r.required_text cmd.description && r.http_link_url cmd.task_tracker_url) _ h₃ in
      let (period, h₅) = both_true (validate_planed_period now cmd.planned_period) _ h₄ in
      let (steps, h₆) = both_true _ _ h₅ in
      let (targets, h₇) = both_true _ _ h₆ in
      let (reminders, mentions) = both_true _ _ h₇ in
      let (some_steps, steps_rest) = both_true (r.required (length cmd.steps)) _ steps in
      let (steps_within, _) =
        both_true (r.length_within min_steps max_steps (length cmd.steps))
          (all (validate_step_input r) cmd.steps) steps_rest in
      let (some_targets, targets_rest) =
        both_true (r.required (length cmd.notify_targets)) _ targets in
      let (targets_within, _) =
        both_true
          (r.length_within min_notify_targets max_notify_targets (length cmd.notify_targets))
          (all (validate_notify_targets_input r) cmd.notify_targets) targets_rest in
      let (reminders_within, _) =
        both_true (r.length_within 0 max_deferred_notifications (length cmd.deferred_notifications))
          (all (validate_deferred_notification_input r) cmd.deferred_notifications) reminders in
      let (mentions_within, _) =
        both_true (r.length_within 0 max_mentions (length cmd.mentions))
          (all (validate_mention_input r) cmd.mentions) mentions in
      let (not_past, planned_ok) =
        period_Valid now cmd.planned_period.start cmd.planned_period.end period in
      record {
        steps_bounds = in_bounds min_steps max_steps (length cmd.steps) some_steps steps_within;
        targets_bounds =
            in_bounds min_notify_targets max_notify_targets (length cmd.notify_targets) some_targets
              targets_within;
        mentions_bound = at_most max_mentions (length cmd.mentions) mentions_within;
        reminders_bound =
            at_most max_deferred_notifications (length cmd.deferred_notifications) reminders_within;
        not_past = not_past;
        planned_ok = planned_ok;
      }
