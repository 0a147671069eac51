-- ===== src/Store/Maintenances.antt =====
-- internal/storages/maintenances: the rows of the table maintenances (create_maint.go,
-- get_maint.go, update_maint.go, list_overdue_not_started.go, mapper.go).
use maintmode.Base.{
  ℕ, Option, none, some, Bool, true, false, List, [], ◌∷◌, ◌++◌, map, ◌&&◌, ◌||◌, not, ltb, ◌==◌,
  if◌then◌else◌, filter, take, compare, from_ptr, is_some, Ordering,
}
use maintmode.Base.Sorting.{sort_func}
use maintmode.Entity.Period.{Tstzrange, null, range, at, unbounded, to_pg_range, from_pg_range}
use maintmode.Entity.Maint.{Maintenance, draft, planned, status_eq, unset}
use maintmode.World.Errors.{maint_not_found, check_violation}
use maintmode.World.Tables.{MaintenanceRow, Db}
use maintmode.World.Effect.{
  M, ◌>>=◌, ◌>>◌, pure, throw, throw_if, modify, call, query, utc_now, fresh_id,
}

unfoldable pub from_db_maintenance : MaintenanceRow → Maintenance
from_db_maintenance m = record {
  id = m.id;
  title = m.title;
  description = m.description;
  planned_period = from_pg_range m.planned_period;
  actual_period = elim m.actual_period [ none ↦ none | some r ↦ some (from_pg_range r) ];
  resources = [];
  scope = m.scope;
  impact = m.impact;
  status = m.status;
  cancel_reason = from_ptr unset m.canceled_reason_code;
  cancel_reason_comment = from_ptr "" m.canceled_reason_comment;
  created_by_user_id = m.created_by_user_id;
  created_at = m.created_at;
  updated_at = m.updated_at;
  steps = [];
  notify_targets = [];
  deferred_notifications = [];
  mentions = [];
  approver_user_id = m.approver_user_id;
  task_tracker_url = m.task_tracker_url;
}

unfoldable pub to_db_maintenance : Maintenance → MaintenanceRow
to_db_maintenance m = record {
  id = m.id;
  title = m.title;
  description = m.description;
  planned_period = to_pg_range m.planned_period;
  actual_period = elim m.actual_period [ none ↦ none | some p ↦ some (to_pg_range p) ];
  impact = m.impact;
  status = m.status;
  scope = m.scope;
  canceled_reason_code = some m.cancel_reason;
  canceled_reason_comment = some m.cancel_reason_comment;
  created_at = m.created_at;
  updated_at = m.updated_at;
  approver_user_id = m.approver_user_id;
  created_by_user_id = m.created_by_user_id;
  task_tracker_url = m.task_tracker_url;
}

-- The CHECKs of migrations/20260105172956_maintenances.sql. A comparison with an absent bound is
-- NULL, which a CHECK accepts.
unfoldable pub planned_check : Tstzrange → Bool
planned_check (range (at lower) (at upper)) = ltb lower upper
planned_check (range unbounded (at upper)) = true
planned_check _ = false

unfoldable pub actual_check : Option Tstzrange → Bool
actual_check (some (range (at lower) (at upper))) = ltb lower upper
actual_check _ = true

unfoldable pub row_check : MaintenanceRow → Bool
unfolding planned_check actual_check
row_check r = planned_check r.planned_period && actual_check r.actual_period

unfoldable pub find_row : ℕ → List MaintenanceRow → Option MaintenanceRow
find_row id [] = none
find_row id (r ∷ rows) = if r.id == id then some r else find_row id rows

-- UPDATE … SET (every column but the id) … WHERE id = …
unfoldable pub set_row : MaintenanceRow → List MaintenanceRow → List MaintenanceRow
set_row r [] = []
set_row r (s ∷ rows) = if s.id == r.id then r ∷ set_row r rows else s ∷ set_row r rows

unfoldable pub or_not_found : Option MaintenanceRow → M Maintenance
unfolding from_db_maintenance
or_not_found none = throw maint_not_found
or_not_found (some r) = pure (from_db_maintenance r)

-- `GetMaint`, and `GetMaintForUpdate`, whose row lock is not modelled: a transaction is one step.
unfoldable pub get_maint : ℕ → M Maintenance
unfolding or_not_found find_row
get_maint id = do row ← query (λ db. find_row id db.maintenances); or_not_found row

abbrev get_maint_for_update : ℕ → M Maintenance
get_maint_for_update = get_maint

abbrev pub with_maintenances : List MaintenanceRow → Db → Db
with_maintenances rows db = record db { maintenances = rows }

-- `CreateMaint`: the id and `created_at` are column defaults.
unfoldable pub create_maint : Maintenance → M Maintenance
unfolding from_db_maintenance to_db_maintenance row_check
create_maint m = do
  id ← fresh_id
  now ← utc_now
  let row = to_db_maintenance (record m { id = id; created_at = now })
  call
  throw_if (not (row_check row)) check_violation
  modify (λ w. record w { db = with_maintenances (w.db.maintenances ++ row ∷ []) w.db })
  pure (from_db_maintenance row)

-- `UpdateMaint` stamps `UpdatedAt` on the value that it is given, and returns it here.
unfoldable pub update_maint : Maintenance → M Maintenance
unfolding to_db_maintenance row_check find_row set_row
update_maint m = do
  now ← utc_now
  let stamped = record m { updated_at = some now }
  let row = to_db_maintenance stamped
  existing ← query (λ db. find_row m.id db.maintenances)
  throw_if (is_some existing && not (row_check row)) check_violation
  modify (λ w. record w { db = with_maintenances (set_row row w.db.maintenances) w.db })
  pure stamped

-- The lower bound of the planned period; NULL where it is absent.
abbrev pub planned_lower : MaintenanceRow → Option ℕ
planned_lower r = elim r.planned_period [
  | null ↦ none
  | range lower upper ↦ elim lower [ at t ↦ some t | unbounded ↦ none ]
]

abbrev pub before : ℕ → Option ℕ → Bool
before cutoff none = false
before cutoff (some t) = ltb t cutoff

unfoldable pub is_overdue : ℕ → MaintenanceRow → Bool
is_overdue cutoff r =
    (status_eq r.status draft || status_eq r.status planned) && before cutoff (planned_lower r)

abbrev pub compare_lower : MaintenanceRow → MaintenanceRow → Ordering
compare_lower r s = compare (from_ptr 0 (planned_lower r)) (from_ptr 0 (planned_lower s))

-- WHERE … ORDER BY lower(planned_period) ASC LIMIT …
unfoldable pub overdue_rows : ℕ → ℕ → List MaintenanceRow → List MaintenanceRow
unfolding is_overdue sort_func
overdue_rows cutoff limit rows =
    take limit (sort_func compare_lower (filter (is_overdue cutoff) rows))

-- `ListOverdueNotStarted`
unfoldable pub list_overdue_not_started : ℕ → ℕ → M (List Maintenance)
unfolding overdue_rows from_db_maintenance
list_overdue_not_started cutoff limit = do
  rows ← query (λ db. overdue_rows cutoff limit db.maintenances)
  pure (map from_db_maintenance rows)
