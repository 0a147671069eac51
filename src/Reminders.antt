-- ===== src/Reminders.antt =====
-- internal/services/deferrednotifications (Create, Replace, Schedule, Cancel), with the scheduler
-- of internal/services/messaging/scheduler, and the decision of
-- internal/goque_processors/reminderprocessor/process_task.go.
use maintmode.Base.{ℕ, ◌-◌, Bool, List, [], ◌∷◌, ◌++◌, if◌then◌else◌, from_ptr}
use maintmode.Entity.Maint.{Maintenance, planned, status_eq}
use maintmode.Entity.Notify.{DeferredNotification, is_scheduled}
use maintmode.Store.Deferred.{create_many_reminders, delete_reminders, list_reminders, set_task_id}
use maintmode.World.Tables.{QueueCall, add_reminder, cancel_task}
use maintmode.World.Effect.{M, ◌>>=◌, ◌>>◌, pure, exec, utc_now, fresh_id, for_each}

-- A call of the task queue. It joins the transaction, if there is one.
abbrev pub enqueue : QueueCall → M (Unit {0})
enqueue c = exec (λ db. record db { queue = db.queue ++ c ∷ [] })

unfoldable pub cancel_one : DeferredNotification → M (Unit {0})
unfolding is_scheduled
cancel_one n =
    if is_scheduled n then enqueue (cancel_task (from_ptr 0 n.goque_task_id)) else pure tt

-- `cancelEnqueued`, which is all of `Cancel`.
unfoldable pub cancel_enqueued : ℕ → M (Unit {0})
unfolding cancel_one list_reminders for_each
cancel_enqueued maint_id = do
  notifications ← list_reminders maint_id
  for_each cancel_one notifications

-- `Create`
abbrev pub create_reminders : ℕ → List DeferredNotification → M (List DeferredNotification)
create_reminders = create_many_reminders

-- `Replace`
unfoldable pub replace_reminders : ℕ → List DeferredNotification → M (Unit {0})
unfolding cancel_enqueued delete_reminders create_many_reminders
replace_reminders maint_id notifications = do
  cancel_enqueued maint_id
  delete_reminders maint_id
  created ← create_many_reminders maint_id notifications
  pure tt

-- The body of the loop in `Schedule`: `-` stops at 0, as `max(…, 0)` does.
unfoldable pub schedule_one : ℕ → ℕ → DeferredNotification → M (Unit {0})
unfolding set_task_id
schedule_one maint_id now n = do
  task ← fresh_id
  enqueue (add_reminder task maint_id n.id (n.fire_at - now))
  set_task_id n.id task

-- `Schedule`
unfoldable pub schedule : ℕ → M (Unit {0})
unfolding schedule_one list_reminders for_each
schedule maint_id = do
  notifications ← list_reminders maint_id
  now ← utc_now
  for_each (schedule_one maint_id now) notifications

-- `shouldRemind`
unfoldable pub should_remind : Maintenance → Bool
should_remind maint = status_eq maint.status planned
