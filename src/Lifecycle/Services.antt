-- ===== src/Lifecycle/Services.antt =====
-- The services that an operation calls, which leave the table maintenances alone.
use maintmode.Base.{
  ℕ, refl, inl, inr, true, Option, none, some, List, [], ◌∷◌, ◌==◌, Bool-cases, length, take,
  filter, find, ◌-◌, map,
}
use maintmode.World.Errors.{Result, ok, err, approver_not_eligible, data_exception}
use maintmode.World.Tables.{World, add_reminder}
use maintmode.World.Effect.{◌>>=◌, call, query, ◌>>◌, pure, utc_now, fresh_id, for_each, throw_if}
use maintmode.Lifecycle.Update.{check_new_approver}
use maintmode.Lifecycle.Create.{validate_approver}
use maintmode.Lifecycle.Rows.{
  keep_guard, keep_traverse, keep_call, keep_bind, keep_query, SameRows-refl, SameRows-trans,
  keep_create_many_reminders, keep_create_many_targets, keep_delete_reminders, keep_delete_targets,
  keep_exec, keep_for_each,
}
use maintmode.Entity.User.{approver_eligible_roles}
use maintmode.Entity.Notify.{
  NotifyChannel, NotifyEventKind, maint_cancelled, is_step, DeferredNotification, is_scheduled,
}
use maintmode.Entity.Maint.{Maintenance}
use maintmode.Store.Maintenances.{list_overdue_not_started, overdue_rows}
use maintmode.Store.Children.{
  list_users, user_matches, get_channel, or_no_channel, create_many_targets, delete_targets,
}
use maintmode.Targets.{resolve_notify_target, resolve_one, with_validation, replace_targets}
use maintmode.World.Tx.{within_tx, tx}
use maintmode.Lifecycle.Apply.{
  dispatch_maint_lifecycle, dispatch_kind, cancel_ignored, notify_maint_lifecycle,
  maint_lifecycle_event, ignored,
}
use maintmode.Entity.Commands.{NotifyTargetInput, ConflictQueryCmd}
use maintmode.World.Respects.{Respects, Respects-bind, Respects-dispatch_event}
use maintmode.Lifecycle.Transitions.{SameRows}
use maintmode.Store.Deferred.{create_many_reminders, delete_reminders, list_reminders, set_task_id}
use maintmode.Store.Conflicts.{is_no_range, conflicted_maints, conflicted_resources}
use maintmode.Reminders.{
  enqueue, cancel_one, cancel_enqueued, replace_reminders, schedule_one, schedule,
}
use maintmode.Entity.Conflict.{Conflict}
use maintmode.Conflict.Service.{get_conflicts, attach_resources}

-- The services on top of them.
keep_cancel_one : (n : DeferredNotification) → Respects SameRows (cancel_one n)
unfolding cancel_one
keep_cancel_one n = elim (Bool-cases (is_scheduled n)) [
  | inl yes_it ↦ rw yes_it (keep_exec _ (λ d. refl))
  | inr other ↦ rw other (λ w. refl)
]

keep_cancel_enqueued : (maint_id : ℕ) → Respects SameRows (cancel_enqueued maint_id)
unfolding cancel_enqueued list_reminders
keep_cancel_enqueued maint_id =
    keep_bind (list_reminders maint_id) (for_each cancel_one) (keep_query _)
      λ ns. keep_for_each cancel_one ns keep_cancel_one

pub keep_replace_reminders :
    (maint_id : ℕ) (ns : List DeferredNotification)
    → Respects SameRows (replace_reminders maint_id ns)
unfolding replace_reminders
keep_replace_reminders maint_id ns =
    keep_bind (cancel_enqueued maint_id)
      (λ _. delete_reminders maint_id >> (create_many_reminders maint_id ns >>= λ created. pure tt))
      (keep_cancel_enqueued maint_id)
      λ _. keep_bind (delete_reminders maint_id) _ (keep_delete_reminders maint_id) λ _.
        keep_bind (create_many_reminders maint_id ns) _ (keep_create_many_reminders maint_id ns)
          λ _ w. refl

keep_schedule_one :
    (maint_id now : ℕ) (n : DeferredNotification) → Respects SameRows (schedule_one maint_id now n)
unfolding schedule_one set_task_id
keep_schedule_one maint_id now n =
    keep_bind fresh_id
      (λ task. enqueue (add_reminder task maint_id n.id (n.fire_at - now)) >> set_task_id n.id task)
      (λ w. refl)
      λ task. keep_bind (enqueue _) _ (keep_exec _ λ d. refl) λ _. keep_exec _ (λ d. refl)

pub keep_schedule : (maint_id : ℕ) → Respects SameRows (schedule maint_id)
unfolding schedule list_reminders
keep_schedule maint_id =
    keep_bind (list_reminders maint_id)
      (λ ns. utc_now >>= λ now. for_each (schedule_one maint_id now) ns) (keep_query _)
      λ ns.
        keep_bind utc_now (λ now. for_each (schedule_one maint_id now) ns) (λ w. refl)
          λ now. keep_for_each (schedule_one maint_id now) ns (keep_schedule_one maint_id now)

pub keep_replace_targets : (maint : Maintenance) → Respects SameRows (replace_targets tx maint)
unfolding replace_targets within_tx
keep_replace_targets maint =
    keep_bind (delete_targets maint.id)
      (λ _. create_many_targets maint.id maint.notify_targets >>= λ created. pure tt)
      (keep_delete_targets maint.id)
      λ _.
        keep_bind (create_many_targets maint.id maint.notify_targets) _
          (keep_create_many_targets maint.id maint.notify_targets) λ _ w. refl

keep_conflicted_resources : (ids : List ℕ) → Respects SameRows (conflicted_resources ids)
unfolding conflicted_resources
keep_conflicted_resources [] = λ w. refl
keep_conflicted_resources (i ∷ ids) = keep_query _

keep_attach : (cs : List Conflict) → Respects SameRows (attach_resources cs)
unfolding attach_resources
keep_attach cs =
    keep_bind (conflicted_resources (map (λ (c : Conflict). c.maintenance_id) cs)) _
      (keep_conflicted_resources (map (λ (c : Conflict). c.maintenance_id) cs)) λ _ w. refl

keep_conflicted_maints : (cmd : ConflictQueryCmd) → Respects SameRows (conflicted_maints cmd)
unfolding conflicted_maints
keep_conflicted_maints cmd = keep_bind call _ keep_call λ _.
    keep_bind (throw_if (is_no_range cmd.planned_period) data_exception) _
      (keep_guard (is_no_range cmd.planned_period) data_exception) λ _ w. refl

pub keep_get_conflicts : (cmd : ConflictQueryCmd) → Respects SameRows (get_conflicts cmd)
unfolding get_conflicts conflicted_maints
keep_get_conflicts cmd =
    keep_bind (conflicted_maints cmd) attach_resources (keep_conflicted_maints cmd) keep_attach

keep_notify :
    (kind : NotifyEventKind) (m : Maintenance) → Respects SameRows (notify_maint_lifecycle kind m)
unfolding notify_maint_lifecycle
keep_notify kind m = elim (Bool-cases (is_step kind)) [
  | inl yes_it ↦ rw yes_it (λ w. refl)
  | inr other ↦ rw other (Respects-dispatch_event SameRows SameRows-refl SameRows-trans _)
]

keep_ignored : (maint_id : ℕ) → Respects SameRows (cancel_ignored maint_id)
unfolding cancel_ignored ignored
keep_ignored maint_id w = keep_cancel_enqueued maint_id w

keep_kind : (k : Option NotifyEventKind) (m : Maintenance) → Respects SameRows (dispatch_kind k m)
unfolding dispatch_kind
keep_kind none m = λ w. refl
keep_kind (some maint_cancelled) m =
    Respects-bind SameRows SameRows-refl SameRows-trans (cancel_ignored m.id)
      (λ _. notify_maint_lifecycle maint_cancelled m) (keep_ignored m.id)
      (λ _. keep_notify maint_cancelled m)
keep_kind (some kind) m = keep_notify kind m

pub keep_dispatch :
    (prev current : Maintenance) → Respects SameRows (dispatch_maint_lifecycle prev current)
unfolding dispatch_maint_lifecycle
keep_dispatch prev current = keep_kind (maint_lifecycle_event prev.status current.status) current

pub keep_approver : (approver : ℕ) → Respects SameRows (validate_approver approver)
unfolding validate_approver list_users
keep_approver approver =
    keep_bind
      (query (λ db.
        take 1 (filter (user_matches (approver ∷ []) approver_eligible_roles true) db.users)))
      _ (keep_query _)
      λ users.
        keep_bind call _ keep_call
          λ _. keep_bind call _ keep_call λ _. keep_guard (length users == 0) approver_not_eligible

pub keep_new_approver : (approver : Option ℕ) → Respects SameRows (check_new_approver approver)
keep_new_approver none = λ w. refl
keep_new_approver (some id) = keep_approver id

keep_channel : (id : ℕ) → Respects SameRows (get_channel id)
unfolding get_channel or_no_channel
keep_channel id =
    keep_bind (query (λ db. find (λ (c : NotifyChannel). c.id == id) db.messenger_channels))
      or_no_channel (keep_query _) go
  where
    go : (o : Option NotifyChannel) → Respects SameRows (or_no_channel o)
    go none = λ w. refl
    go (some c) = λ w. refl

pub keep_resolve :
    (maint_id : ℕ) (inputs : List NotifyTargetInput)
    → Respects SameRows (resolve_notify_target maint_id inputs)
unfolding resolve_notify_target resolve_one with_validation
keep_resolve maint_id inputs = keep_traverse (resolve_one maint_id) inputs (λ item.
    keep_bind (λ w. with_validation (get_channel item.channel_id w)) _
      (λ w. go w (get_channel item.channel_id w) (keep_channel item.channel_id w))
      λ channel w. refl)
  where
    go :
        (w : World) (r : Result NotifyChannel × World)
        → SameRows w.db r.1.db
        → SameRows w.db (with_validation r).1.db
    go w (ok c, v) k = k
    go w (err e, v) k = k

pub keep_overdue : (cutoff limit : ℕ) → Respects SameRows (list_overdue_not_started cutoff limit)
unfolding list_overdue_not_started
keep_overdue cutoff limit =
    keep_bind (query (λ db. overdue_rows cutoff limit db.maintenances)) _
      (keep_query (λ db. overdue_rows cutoff limit db.maintenances)) λ rows w. refl
