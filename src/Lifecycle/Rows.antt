-- ===== src/Lifecycle/Rows.antt =====
-- The statements that leave the table maintenances alone.
use maintmode.Base.{ℕ, refl, ◌∙◌, Bool, List, [], ◌∷◌, ◌++◌, map}
use maintmode.World.Errors.{Error, unique_violation, notify_targets_already_exists}
use maintmode.World.Tables.{Db, StepRow}
use maintmode.World.Effect.{
  M, ◌>>=◌, ◌>>◌, call, query, exec, pure, throw_if, modify, for_each, traverse,
}
use maintmode.World.Respects.{
  Respects-call, Respects, Respects-throw_if, Respects-bind, Respects-query, Respects-exec,
  Respects-for_each, Respects-traverse,
}
use maintmode.Store.Steps.{
  clashes, with_steps, from_db_maintenance_step, update_step, delete_steps, add_steps, insert_steps,
  new_step_row,
}
use maintmode.Store.Children.{
  target_clashes, with_targets, add_resources, delete_resources, add_mentions, delete_mentions,
  create_many_targets, delete_targets, insert_targets, new_target,
}
use maintmode.Store.Deferred.{
  with_deferred, create_many_reminders, delete_reminders, insert_reminders, new_reminder,
}
use maintmode.Entity.Step.{MaintenanceStep}
use maintmode.Lifecycle.Transitions.{SameRows}
use maintmode.Entity.Conflict.{ConflictWithResources, ConflictsSnapshot}
use maintmode.Entity.Notify.{NotifyTarget, DeferredNotification}
use maintmode.Store.Snapshots.{save_snapshots}
use maintmode.Conflict.Service.{save_snapshot}

pub SameRows-refl : (d : Db) → SameRows d d
SameRows-refl d = refl

pub SameRows-trans : (a b c : Db) → SameRows a b → SameRows b c → SameRows a c
SameRows-trans a b c p q = q ∙ p

pub keep_guard : (b : Bool) (e : Error) → Respects SameRows (throw_if b e)
keep_guard = Respects-throw_if SameRows SameRows-refl SameRows-trans

pub keep_bind {ℓ κ} :
    {A : Type ℓ} {B : Type κ} (m : M A) (f : A → M B)
    → Respects SameRows m
    → ((a : A) → Respects SameRows (f a))
    → Respects SameRows (m >>= f)
keep_bind = Respects-bind SameRows SameRows-refl SameRows-trans

pub keep_call : Respects SameRows call
keep_call = Respects-call SameRows SameRows-refl SameRows-trans

pub keep_query {ℓ} : {A : Type ℓ} (f : Db → A) → Respects SameRows (query f)
keep_query = Respects-query SameRows SameRows-refl SameRows-trans

pub keep_exec : (f : Db → Db) → ((d : Db) → SameRows d (f d)) → Respects SameRows (exec f)
keep_exec = Respects-exec SameRows SameRows-refl SameRows-trans

pub keep_for_each {ℓ} :
    {A : Type ℓ} (f : A → M (Unit {0})) (xs : List A)
    → ((a : A) → Respects SameRows (f a))
    → Respects SameRows (for_each f xs)
keep_for_each = Respects-for_each SameRows SameRows-refl SameRows-trans

pub keep_traverse {ℓ κ} :
    {A : Type ℓ} {B : Type κ} (f : A → M B) (xs : List A)
    → ((a : A) → Respects SameRows (f a))
    → Respects SameRows (traverse f xs)
keep_traverse = Respects-traverse SameRows SameRows-refl SameRows-trans

-- The stores of the other tables.
pub keep_update_step :
    (maint_id : ℕ) (step : MaintenanceStep) → Respects SameRows (update_step maint_id step)
unfolding update_step
keep_update_step maint_id step w = keep_exec _ (λ d. refl) w

pub keep_add_steps :
    (maint_id : ℕ) (steps : List MaintenanceStep) → Respects SameRows (add_steps maint_id steps)
unfolding add_steps insert_steps new_step_row
keep_add_steps maint_id [] = λ w. refl
keep_add_steps maint_id (s ∷ steps) =
    keep_bind (traverse (new_step_row maint_id) (s ∷ steps))
      (λ rows. query (λ db. db.maintenance_steps) >>= put rows)
      (keep_traverse (new_step_row maint_id) (s ∷ steps) λ x w. refl)
      λ rows.
        keep_bind (query (λ db. db.maintenance_steps)) (put rows)
          (keep_query (λ db. db.maintenance_steps)) (keep_put rows)
  where
    put : List StepRow → List StepRow → M (List MaintenanceStep)
    put rows stored =
        throw_if (clashes rows stored) unique_violation
        >> (modify (λ w. record w { db = with_steps (w.db.maintenance_steps ++ rows) w.db })
            >> pure (map from_db_maintenance_step rows))

    keep_put : (rows stored : List StepRow) → Respects SameRows (put rows stored)
    keep_put rows stored =
        keep_bind (throw_if (clashes rows stored) unique_violation) _
          (keep_guard (clashes rows stored) unique_violation) λ _ w. refl

pub keep_delete_steps : (maint_id : ℕ) → Respects SameRows (delete_steps maint_id)
unfolding delete_steps
keep_delete_steps maint_id = keep_exec _ (λ d. refl)

pub keep_add_resources :
    (maint_id : ℕ) (ids : List ℕ) → Respects SameRows (add_resources maint_id ids)
unfolding add_resources
keep_add_resources maint_id [] = λ w. refl
keep_add_resources maint_id (r ∷ rs) = keep_exec _ (λ d. refl)

pub keep_delete_resources : (maint_id : ℕ) → Respects SameRows (delete_resources maint_id)
unfolding delete_resources
keep_delete_resources maint_id = keep_exec _ (λ d. refl)

pub keep_add_mentions :
    (maint_id : ℕ) (ids : List ℕ) → Respects SameRows (add_mentions maint_id ids)
unfolding add_mentions
keep_add_mentions maint_id [] = λ w. refl
keep_add_mentions maint_id (r ∷ rs) = keep_exec _ (λ d. refl)

pub keep_delete_mentions : (maint_id : ℕ) → Respects SameRows (delete_mentions maint_id)
unfolding delete_mentions
keep_delete_mentions maint_id = keep_exec _ (λ d. refl)

pub keep_create_many_targets :
    (maint_id : ℕ) (targets : List NotifyTarget)
    → Respects SameRows (create_many_targets maint_id targets)
unfolding create_many_targets insert_targets new_target
keep_create_many_targets maint_id [] = λ w. refl
keep_create_many_targets maint_id (t ∷ ts) =
    keep_bind (traverse (new_target maint_id) (t ∷ ts))
      (λ rows. query (λ db. db.maintenance_notify_targets) >>= put rows)
      (keep_traverse (new_target maint_id) (t ∷ ts) λ x w. refl)
      λ rows.
        keep_bind (query (λ db. db.maintenance_notify_targets)) (put rows)
          (keep_query (λ db. db.maintenance_notify_targets)) (keep_put rows)
  where
    put : List NotifyTarget → List NotifyTarget → M (List NotifyTarget)
    put rows stored =
        throw_if (target_clashes rows stored) notify_targets_already_exists
        >> (modify
              (λ w. record w { db = with_targets (w.db.maintenance_notify_targets ++ rows) w.db })
            >> pure rows)

    keep_put : (rows stored : List NotifyTarget) → Respects SameRows (put rows stored)
    keep_put rows stored =
        keep_bind (throw_if (target_clashes rows stored) notify_targets_already_exists) _
          (keep_guard (target_clashes rows stored) notify_targets_already_exists) λ _ w. refl

pub keep_delete_targets : (maint_id : ℕ) → Respects SameRows (delete_targets maint_id)
unfolding delete_targets
keep_delete_targets maint_id = keep_exec _ (λ d. refl)

pub keep_create_many_reminders :
    (maint_id : ℕ) (ns : List DeferredNotification)
    → Respects SameRows (create_many_reminders maint_id ns)
unfolding create_many_reminders insert_reminders new_reminder
keep_create_many_reminders maint_id [] = λ w. refl
keep_create_many_reminders maint_id (n ∷ ns) =
    keep_bind (traverse (new_reminder maint_id) (n ∷ ns)) put
      (keep_traverse (new_reminder maint_id) (n ∷ ns) λ x w. refl) keep_put
  where
    put : List DeferredNotification → M (List DeferredNotification)
    put rows =
        exec (λ db. with_deferred (db.maintenance_deferred_notifications ++ rows) db) >> pure rows

    keep_put : (rows : List DeferredNotification) → Respects SameRows (put rows)
    keep_put rows =
        keep_bind (exec (λ db. with_deferred (db.maintenance_deferred_notifications ++ rows) db)) _
          (keep_exec _ λ d. refl) λ _ w. refl

pub keep_delete_reminders : (maint_id : ℕ) → Respects SameRows (delete_reminders maint_id)
unfolding delete_reminders
keep_delete_reminders maint_id = keep_exec _ (λ d. refl)

pub keep_save_snapshot :
    (maint_id : ℕ) (snapshot : ConflictsSnapshot)
    → Respects SameRows (save_snapshot maint_id snapshot)
unfolding save_snapshot save_snapshots
keep_save_snapshot maint_id snapshot = go snapshot.conflicts
  where
    go : (cs : List ConflictWithResources) → Respects SameRows (save_snapshots maint_id cs)
    go [] = λ w. refl
    go (c ∷ cs) = keep_exec _ (λ d. refl)
