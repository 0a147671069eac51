-- ===== src/Store/Steps.antt =====
-- internal/storages/maintenances: the rows of maintenance_steps (add_steps.go, delete_steps.go,
-- get_steps.go, update_step.go, mapper.go).
use maintmode.Base.{
  ℕ, none, some, Bool, false, List, [], ◌∷◌, ◌++◌, map, ◌&&◌, not, ◌==◌, if◌then◌else◌, filter, any,
  compare, ◌||◌,
}
use maintmode.Base.Sorting.{sort_func}
use maintmode.Entity.Step.{MaintenanceStep}
use maintmode.World.Errors.{unique_violation}
use maintmode.World.Tables.{StepRow, Db}
use maintmode.World.Effect.{
  M, ◌>>=◌, ◌>>◌, pure, throw_if, modify, query, exec, utc_now, fresh_id, traverse,
}

-- `toDBMaintenanceStep` fills neither the id nor the two timestamps of the row.
unfoldable pub to_db_maintenance_step : ℕ → MaintenanceStep → StepRow
to_db_maintenance_step maint_id step = record {
  id = 0;
  maintenance_id = maint_id;
  step_order = step.order;
  description = step.description;
  rollback = step.rollback_description;
  duration_minutes = step.duration_minutes;
  status = step.status;
  actual_started_at = step.actual_started_at;
  actual_completed_at = step.actual_completed_at;
  created_at = 0;
  updated_at = none;
}

unfoldable pub from_db_maintenance_step : StepRow → MaintenanceStep
from_db_maintenance_step row = record {
  id = row.id;
  order = row.step_order;
  description = row.description;
  rollback_description = row.rollback;
  duration_minutes = row.duration_minutes;
  status = row.status;
  actual_started_at = row.actual_started_at;
  actual_completed_at = row.actual_completed_at;
  created_at = row.created_at;
  updated_at = row.updated_at;
}

abbrev pub with_steps : List StepRow → Db → Db
with_steps rows db = record db { maintenance_steps = rows }

-- The unique index (maintenance_id, step_order).
abbrev same_step_place : StepRow → StepRow → Bool
same_step_place r s = r.maintenance_id == s.maintenance_id && r.step_order == s.step_order

abbrev pub clashes : List StepRow → List StepRow → Bool
clashes [] rows = false
clashes (r ∷ rs) rows = any (same_step_place r) (rs ++ rows) || clashes rs rows

unfoldable pub new_step_row : ℕ → MaintenanceStep → M StepRow
unfolding to_db_maintenance_step
new_step_row maint_id step = do
  id ← fresh_id
  now ← utc_now
  pure (record (to_db_maintenance_step maint_id step) { id = id; created_at = now })

unfoldable pub insert_steps : ℕ → List MaintenanceStep → M (List MaintenanceStep)
unfolding new_step_row from_db_maintenance_step traverse
insert_steps maint_id steps = do
  rows ← traverse (new_step_row maint_id) steps
  stored ← query (λ db. db.maintenance_steps)
  throw_if (clashes rows stored) unique_violation
  modify (λ w. record w { db = with_steps (w.db.maintenance_steps ++ rows) w.db })
  pure (map from_db_maintenance_step rows)

-- `AddSteps`
unfoldable pub add_steps : ℕ → List MaintenanceStep → M (List MaintenanceStep)
unfolding insert_steps
add_steps maint_id [] = pure []
add_steps maint_id (step ∷ steps) = insert_steps maint_id (step ∷ steps)

-- `DeleteSteps`
unfoldable pub delete_steps : ℕ → M (Unit {0})
delete_steps maint_id =
    exec
      (λ db. with_steps (filter (λ r. not (r.maintenance_id == maint_id)) db.maintenance_steps) db)

-- `GetMaintSteps` and `GetMaintStepsForUpdate`: ORDER BY step_order ASC.
unfoldable pub maint_steps : ℕ → Db → List MaintenanceStep
unfolding from_db_maintenance_step sort_func
maint_steps maint_id db = map from_db_maintenance_step (
    sort_func (λ r s. compare r.step_order s.step_order)
      (filter (λ r. r.maintenance_id == maint_id) db.maintenance_steps))

unfoldable pub get_maint_steps : ℕ → M (List MaintenanceStep)
unfolding maint_steps
get_maint_steps maint_id = query (maint_steps maint_id)

-- UPDATE … SET (every column but the id) … WHERE id = … AND maintenance_id = …
unfoldable pub set_step_row : ℕ → StepRow → List StepRow → List StepRow
set_step_row id r [] = []
set_step_row id r (s ∷ rows) =
    if s.id == id && s.maintenance_id == r.maintenance_id
    then record r { id = id } ∷ set_step_row id r rows
    else s ∷ set_step_row id r rows

-- `UpdateStep` stamps `UpdatedAt` on the step, and then builds the row by `toDBMaintenanceStep`.
unfoldable pub update_step : ℕ → MaintenanceStep → M (Unit {0})
unfolding to_db_maintenance_step set_step_row
update_step maint_id step = do
  now ← utc_now
  let stamped = record step { updated_at = some now }
  exec (λ db.
      with_steps
        (set_step_row step.id (to_db_maintenance_step maint_id stamped) db.maintenance_steps) db)
