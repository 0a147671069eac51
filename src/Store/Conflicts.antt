-- ===== src/Store/Conflicts.antt =====
-- internal/storages/conflicts: which maintenances collide with one, by plan
-- (conflicted_maints.go) and by what was really done (actual_conflicted_maints.go), and the
-- resources that they touch (conflicted_resources.go).
use maintmode.Base.{
  ℕ, ◌+◌, Bool, true, false, List, [], ◌∷◌, map, not, ◌&&◌, ◌||◌, ltb, ◌==◌, if◌then◌else◌, filter,
  any, contains, compare, Ordering, from_ptr, length, take,
}
use maintmode.Base.Sorting.{sort_func}
use maintmode.Entity.Period.{
  Tstzrange, null, range, Bound, at, unbounded, Period, from_pg_range, is_open,
}
use maintmode.Entity.Maint.{
  planned, in_progress, status_eq, MaintenanceScope, global, resources, scope_eq,
}
use maintmode.Entity.Conflict.{Conflict}
use maintmode.Entity.Commands.{ConflictQueryCmd, ActualConflictQueryCmd}
use maintmode.World.Errors.{open_actual_period, data_exception}
use maintmode.World.Tables.{MaintenanceRow, ResourceLink, Db}
use maintmode.World.Effect.{M, ◌>>=◌, ◌>>◌, pure, throw_if, call, gets, query}

-- What the queries use of Postgres, on ranges that are inclusive below and exclusive above: whether
-- a lower bound lies under an upper one, and `&&`, which no empty range satisfies.
abbrev pub below : Bound → Bound → Bool
below (at lower) (at upper) = ltb lower upper
below _ _ = true

unfoldable pub overlaps : Tstzrange → Tstzrange → Bool
overlaps (range l₁ u₁) (range l₂ u₂) = below l₁ u₁ && below l₂ u₂ && below l₁ u₂ && below l₂ u₁
overlaps _ _ = false

-- GREATEST of two lower bounds and LEAST of two upper bounds, which pass over an absent one.
unfoldable pub greatest : Bound → Bound → Bound
greatest (at a) (at b) = at (if ltb a b then b else a)
greatest unbounded b = b
greatest a unbounded = a

unfoldable pub least : Bound → Bound → Bound
least (at a) (at b) = at (if ltb a b then a else b)
least unbounded b = b
least a unbounded = a

abbrev pub ordered : Bound → Bound → Tstzrange
ordered lower upper = if below lower upper then range lower upper else null

-- `TSTZ_RANGE(GREATEST(…), LEAST(…))`. Without a common instant this is the empty range or an error,
-- here `null`; the WHERE clause selects no such row.
unfoldable pub overlap_period : Tstzrange → Tstzrange → Tstzrange
unfolding greatest least
overlap_period (range l₁ u₁) (range l₂ u₂) = ordered (greatest l₁ l₂) (least u₁ u₂)
overlap_period _ _ = null

-- `planetPeriodTSTZRange` and `actualPeriodTSTZRange`: an open end is sent as its zero time.
abbrev pub query_range : Period → Tstzrange
query_range p = range (at p.start) (at (from_ptr 0 p.end))

-- Postgres makes no range whose lower bound is above its upper one.
abbrev pub is_no_range : Period → Bool
is_no_range p = ltb (from_ptr 0 p.end) p.start

-- EXISTS (SELECT 1 FROM maintenance_resources WHERE maintenance_id = … AND resource_id = ANY (…))
unfoldable pub touches_any : List ResourceLink → ℕ → List ℕ → Bool
touches_any links id ids =
    any (λ (l : ResourceLink). l.maintenance_id == id && contains l.resource_id ids) links

-- The scope block that both queries hold a copy of: `overlapByGlobalScope` or
-- `overlapByResourcesStmt`.
unfoldable pub scopes_collide :
    List ResourceLink → MaintenanceScope → List ℕ → MaintenanceRow → Bool
unfolding touches_any
scopes_collide links scope ids m =
    (scope_eq scope global || scope_eq m.scope global)
    || (ltb 0 (length ids)
        && (scope_eq scope resources && (scope_eq m.scope resources && touches_any links m.id ids)))

unfoldable pub is_conflicted : ConflictQueryCmd → List ResourceLink → MaintenanceRow → Bool
unfolding overlaps scopes_collide
is_conflicted cmd links m =
    not (m.id == cmd.maint_id)
    && ((status_eq m.status planned || status_eq m.status in_progress)
        && (overlaps m.planned_period (query_range cmd.planned_period)
            && scopes_collide links cmd.scope cmd.resource_ids m))

-- `fromDBConflict`
unfoldable pub from_db_conflict : MaintenanceRow → Tstzrange → Conflict
from_db_conflict m overlap =
    let period = from_pg_range overlap in
    record {
      maintenance_id = m.id;
      title = m.title;
      overlap_start = period.start;
      overlap_end = from_ptr 0 period.end;
      scope = m.scope;
    }

unfoldable pub conflicted_rows : ConflictQueryCmd → Db → List Conflict
unfolding is_conflicted from_db_conflict overlap_period
conflicted_rows cmd db =
    map
      (λ (m : MaintenanceRow).
        from_db_conflict m (overlap_period m.planned_period (query_range cmd.planned_period)))
      (filter (is_conflicted cmd db.maintenance_resources) db.maintenances)

-- `ConflictedMaints`
unfoldable pub conflicted_maints : ConflictQueryCmd → M (List Conflict)
unfolding conflicted_rows
conflicted_maints cmd = do
  call
  throw_if (is_no_range cmd.planned_period) data_exception
  gets (λ w. conflicted_rows cmd w.db)

-- `ActualConflictsLimit`
abbrev actual_conflicts_limit : ℕ
actual_conflicts_limit = 200

abbrev actual_range : MaintenanceRow → Tstzrange
actual_range m = from_ptr null m.actual_period

unfoldable pub is_actually_conflicted :
    ActualConflictQueryCmd → List ResourceLink → MaintenanceRow → Bool
unfolding overlaps scopes_collide
is_actually_conflicted cmd links m =
    not (m.id == cmd.maint_id)
    && (overlaps (actual_range m) (query_range cmd.actual_period)
        && scopes_collide links cmd.scope cmd.resource_ids m)

abbrev compare_actual : Conflict → Conflict → Ordering
compare_actual c d = elim (compare c.overlap_start d.overlap_start) [
  | Ordering.eq ↦ compare c.maintenance_id d.maintenance_id
  | o ↦ o
]

unfoldable pub actual_conflicted_rows : ActualConflictQueryCmd → Db → List Conflict
unfolding is_actually_conflicted from_db_conflict overlap_period sort_func
actual_conflicted_rows cmd db = take (actual_conflicts_limit + 1) (
    sort_func compare_actual (
      map
        (λ (m : MaintenanceRow).
          from_db_conflict m (overlap_period (actual_range m) (query_range cmd.actual_period)))
        (filter (is_actually_conflicted cmd db.maintenance_resources) db.maintenances)))

-- `ActualConflictedMaints`: one row past the limit is asked for, to tell that there are more.
unfoldable pub actual_conflicted_maints : ActualConflictQueryCmd → M (List Conflict × Bool)
unfolding actual_conflicted_rows
actual_conflicted_maints cmd = do
  throw_if (is_open cmd.actual_period.end) open_actual_period
  call
  throw_if (is_no_range cmd.actual_period) data_exception
  rows ← gets (λ w. actual_conflicted_rows cmd w.db)
  let truncated = ltb actual_conflicts_limit (length rows)
  pure (take actual_conflicts_limit rows, truncated)

-- `ConflictedResources`, at one maintenance of the map that it returns (missing keys are empty).
unfoldable pub resources_of : ℕ → Db → List ℕ
resources_of id db =
    map (λ (l : ResourceLink). l.resource_id)
      (filter (λ (l : ResourceLink). l.maintenance_id == id) db.maintenance_resources)

unfoldable pub conflicted_resources : List ℕ → M (ℕ → List ℕ)
unfolding resources_of
conflicted_resources [] = pure (λ id. [])
conflicted_resources (i ∷ ids) =
    query (λ db id. if contains id (i ∷ ids) then resources_of id db else [])
