-- ===== src/Store/Deferred.antt =====
-- internal/storages/deferrednotifications: a maintenance's reminders (create.go, delete.go,
-- list.go, set_task_id.go, mapper.go).
use maintmode.Base.{
  ℕ, some, List, [], ◌∷◌, ◌++◌, not, ◌==◌, if◌then◌else◌, filter, compare, Ordering,
}
use maintmode.Base.Sorting.{sort_func}
use maintmode.Entity.Notify.{DeferredNotification}
use maintmode.World.Tables.{Db}
use maintmode.World.Effect.{M, ◌>>=◌, ◌>>◌, pure, query, exec, fresh_id, traverse}

abbrev pub with_deferred : List DeferredNotification → Db → Db
with_deferred rows db = record db { maintenance_deferred_notifications = rows }

unfoldable pub new_reminder : ℕ → DeferredNotification → M DeferredNotification
new_reminder maint_id n = do
  id ← fresh_id
  pure (record {
    id = id;
    maint_id = maint_id;
    fire_at = n.fire_at;
    goque_task_id = n.goque_task_id;
  })

unfoldable pub insert_reminders : ℕ → List DeferredNotification → M (List DeferredNotification)
unfolding new_reminder traverse
insert_reminders maint_id notifications = do
  rows ← traverse (new_reminder maint_id) notifications
  exec (λ db. with_deferred (db.maintenance_deferred_notifications ++ rows) db)
  pure rows

-- `CreateMany`: no reminders, no statement.
unfoldable pub create_many_reminders : ℕ → List DeferredNotification → M (List DeferredNotification)
unfolding insert_reminders
create_many_reminders maint_id [] = pure []
create_many_reminders maint_id (n ∷ ns) = insert_reminders maint_id (n ∷ ns)

-- `DeleteByMaint`
unfoldable pub delete_reminders : ℕ → M (Unit {0})
delete_reminders maint_id = exec (λ db.
    with_deferred (filter (λ n. not (n.maint_id == maint_id)) db.maintenance_deferred_notifications)
      db)

abbrev compare_reminders : DeferredNotification → DeferredNotification → Ordering
compare_reminders m n = elim (compare m.fire_at n.fire_at) [
  | Ordering.eq ↦ compare m.id n.id
  | o ↦ o
]

-- `ListByMaint`: ORDER BY fire_at ASC, id ASC.
unfoldable pub reminders_of : ℕ → Db → List DeferredNotification
unfolding sort_func
reminders_of maint_id db =
    sort_func compare_reminders
      (filter (λ n. n.maint_id == maint_id) db.maintenance_deferred_notifications)

unfoldable pub list_reminders : ℕ → M (List DeferredNotification)
unfolding reminders_of
list_reminders maint_id = query (reminders_of maint_id)

unfoldable pub set_task : ℕ → ℕ → List DeferredNotification → List DeferredNotification
set_task id task [] = []
set_task id task (n ∷ ns) =
    if n.id == id
    then record n { goque_task_id = some task } ∷ set_task id task ns
    else n ∷ set_task id task ns

-- `SetTaskID`
unfoldable pub set_task_id : ℕ → ℕ → M (Unit {0})
unfolding set_task
set_task_id id task =
    exec (λ db. with_deferred (set_task id task db.maintenance_deferred_notifications) db)
