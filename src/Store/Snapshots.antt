-- ===== src/Store/Snapshots.antt =====
-- internal/storages/conflict_snapshots: what the approver saw (save.go, get.go, mapper.go). One
-- row for each resource of a neighbor, or one row with no resource.
use maintmode.Base.{
  ℕ, String, Option, none, some, false, List, [], ◌∷◌, ◌++◌, map, ◌==◌, filter, from_ptr, uniq,
}
use mathlib.Core.List.{flat_map}
use maintmode.Entity.Period.{new_period, to_pg_range, from_pg_range}
use maintmode.Entity.Maint.{MaintenanceScope}
use maintmode.Entity.Conflict.{ConflictWithResources}
use maintmode.Store.Maintenances.{find_row}
use maintmode.World.Tables.{SnapshotRow, Db}
use maintmode.World.Effect.{M, pure, query, exec}

snapshot_row : ℕ → ConflictWithResources → Option ℕ → SnapshotRow
snapshot_row maint_id c resource = record {
  maintenance_id = maint_id;
  conflicted_maintenance_id = c.maintenance_id;
  resource_id = resource;
  conflict_period = to_pg_range (new_period c.overlap_start c.overlap_end);
}

snapshot_rows : ℕ → ConflictWithResources → List ℕ → List SnapshotRow
unfolding snapshot_row
snapshot_rows maint_id c [] = snapshot_row maint_id c none ∷ []
snapshot_rows maint_id c (r ∷ rs) = map (λ id. snapshot_row maint_id c (some id)) (r ∷ rs)

-- `toDBSnaphots`
unfoldable pub to_db_snapshots : ℕ → List ConflictWithResources → List SnapshotRow
unfolding snapshot_rows
to_db_snapshots maint_id [] = []
to_db_snapshots maint_id (c ∷ cs) =
    snapshot_rows maint_id c c.resources ++ to_db_snapshots maint_id cs

abbrev with_snapshots : List SnapshotRow → Db → Db
with_snapshots rows db = record db { maintenance_conflict_snapshot = rows }

-- `Save`
unfoldable pub save_snapshots : ℕ → List ConflictWithResources → M (Unit {0})
unfolding to_db_snapshots
save_snapshots maint_id [] = pure tt
save_snapshots maint_id (c ∷ cs) = exec (λ db.
    with_snapshots (db.maintenance_conflict_snapshot ++ to_db_snapshots maint_id (c ∷ cs)) db)

-- A row of the join with maintenances, whose title and scope it takes.
record JoinedSnapshot : Type 0 where
  row : SnapshotRow
  title : String
  scope : MaintenanceScope

joined : Db → SnapshotRow → List JoinedSnapshot
unfolding find_row
joined db r = elim (find_row r.conflicted_maintenance_id db.maintenances) [
  | none ↦ []
  | some m ↦ record { row = r; title = m.title; scope = m.scope } ∷ []
]

known_resources : List JoinedSnapshot → List ℕ
known_resources [] = []
known_resources (j ∷ js) = elim j.row.resource_id [
  | none ↦ known_resources js
  | some id ↦ id ∷ known_resources js
]

group : List JoinedSnapshot → List ConflictWithResources
unfolding known_resources
group [] = []
group (j ∷ js) =
    let period = from_pg_range j.row.conflict_period in
    record {
      conflict = record {
        maintenance_id = j.row.conflicted_maintenance_id;
        title = j.title;
        overlap_start = period.start;
        overlap_end = from_ptr 0 period.end;
        scope = j.scope;
      };
      resources = known_resources (j ∷ js);
      known_at_approval = false;
    }
    ∷ []

group_of : List JoinedSnapshot → ℕ → List ConflictWithResources
unfolding group
group_of js id = group (filter (λ j. j.row.conflicted_maintenance_id == id) js)

-- `fromDBSnaphots`: the rows grouped by neighbor. The source walks a map, in no fixed order; here
-- the groups stand in the order in which their first rows are met.
from_db_snapshots : List JoinedSnapshot → List ConflictWithResources
unfolding group_of
from_db_snapshots js = flat_map (group_of js) (uniq (map (λ j. j.row.conflicted_maintenance_id) js))

unfoldable pub snapshots_of : ℕ → Db → List ConflictWithResources
unfolding from_db_snapshots joined
snapshots_of maint_id db = from_db_snapshots (
    flat_map (joined db)
      (filter (λ r. r.maintenance_id == maint_id) db.maintenance_conflict_snapshot))

-- `GetSnapshots`
unfoldable pub get_snapshots : ℕ → M (List ConflictWithResources)
unfolding snapshots_of
get_snapshots maint_id = query (snapshots_of maint_id)
