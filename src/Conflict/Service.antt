-- ===== src/Conflict/Service.antt =====
-- internal/services/conflicts, and the choice of source for a card in
-- internal/services/calendar/get_maint_conflicts.go.
use maintmode.Base.{ℕ, Option, none, some, Bool, true, false, List, [], ◌∷◌, map, if◌then◌else◌}
use maintmode.Entity.Period.{Period, is_open}
use maintmode.Entity.Maint.{MaintenanceStatus, MaintenanceScope, is_terminal}
use maintmode.Entity.Conflict.{Conflict, ConflictWithResources, ConflictsSnapshot}
use maintmode.Entity.Commands.{ConflictQueryCmd, ActualConflictQueryCmd}
use maintmode.Store.Conflicts.{conflicted_maints, actual_conflicted_maints, conflicted_resources}
use maintmode.Store.Snapshots.{save_snapshots, get_snapshots}
use maintmode.Conflict.Approval.{mark_known_at_approval, sort_conflicts}
use maintmode.World.Errors.{Result, ok, err}
use maintmode.World.Tables.{World}
use maintmode.World.Effect.{M, ◌>>=◌, pure}

with_resources : (ℕ → List ℕ) → Conflict → ConflictWithResources
with_resources resources c = record {
  conflict = c;
  resources = resources c.maintenance_id;
  known_at_approval = false;
}

-- `attachResources`
unfoldable pub attach_resources : List Conflict → M (List ConflictWithResources)
unfolding with_resources conflicted_resources
attach_resources conflicts = do
  resources ← conflicted_resources (map (λ (c : Conflict). c.maintenance_id) conflicts)
  pure (map (with_resources resources) conflicts)

-- `GetConflicts`
unfoldable pub get_conflicts : ConflictQueryCmd → M (List ConflictWithResources)
unfolding attach_resources conflicted_maints
get_conflicts cmd = do conflicts ← conflicted_maints cmd; attach_resources conflicts

-- `GetActualConflicts`; the second part says that the list was cut.
unfoldable pub get_actual_conflicts : ActualConflictQueryCmd → M (List ConflictWithResources × Bool)
unfolding attach_resources actual_conflicted_maints
get_actual_conflicts cmd = do
  found ← actual_conflicted_maints cmd
  conflicts ← attach_resources found.0
  pure (conflicts, found.1)

-- `GetApprovalSnapshot`
unfoldable pub get_approval_snapshot : ℕ → M (List ConflictWithResources)
unfolding attach_resources get_snapshots sort_conflicts
get_approval_snapshot maint_id = do
  snapshot ← get_snapshots maint_id
  resolved ← attach_resources (map (λ (c : ConflictWithResources). c.conflict) snapshot)
  pure (
      sort_conflicts
        (map (λ (c : ConflictWithResources). record c { known_at_approval = true }) resolved))

-- `SaveSnapshot`
unfoldable pub save_snapshot : ℕ → ConflictsSnapshot → M (Unit {0})
unfolding save_snapshots
save_snapshot maint_id snapshot = save_snapshots maint_id snapshot.conflicts

-- A snapshot that cannot be read degrades: the live conflicts stay, all of them unreviewed.
marked :
    List ConflictWithResources
    → Result (List ConflictWithResources) × World
    → Result (List ConflictWithResources) × World
unfolding mark_known_at_approval sort_conflicts
marked live (ok snapshot, w) = (ok (sort_conflicts (mark_known_at_approval live snapshot)), w)
marked live (err _, w) = (ok (sort_conflicts live), w)

-- `MarkApprovalState`
unfoldable pub mark_approval_state : ℕ → List ConflictWithResources → M (List ConflictWithResources)
unfolding marked get_snapshots
mark_approval_state maint_id [] w = (ok [], w)
mark_approval_state maint_id (c ∷ live) w = marked (c ∷ live) (get_snapshots maint_id w)

-- `calendardto.ConflictQueryCmd`
pub record CardQuery : Type 0 where
  pub maint_id : ℕ
  pub status : MaintenanceStatus
  pub planned_period : Period
  pub actual_period : Option Period
  pub scope : MaintenanceScope
  pub resource_ids : List ℕ

unfoldable pub planned_conflicts : CardQuery → M (List ConflictWithResources)
unfolding get_conflicts mark_approval_state
planned_conflicts cmd = do
  conflicts ← get_conflicts (record {
    maint_id = cmd.maint_id;
    planned_period = cmd.planned_period;
    scope = cmd.scope;
    resource_ids = cmd.resource_ids;
  })
  mark_approval_state cmd.maint_id conflicts

unfoldable pub factual_conflicts : CardQuery → Period → M (List ConflictWithResources)
unfolding get_actual_conflicts mark_approval_state
factual_conflicts cmd period = do
  found ← get_actual_conflicts (record {
    maint_id = cmd.maint_id;
    actual_period = period;
    scope = cmd.scope;
    resource_ids = cmd.resource_ids;
  })
  mark_approval_state cmd.maint_id found.0

terminal_conflicts : CardQuery → Option Period → M (List ConflictWithResources)
unfolding factual_conflicts get_approval_snapshot
terminal_conflicts cmd none = get_approval_snapshot cmd.maint_id
terminal_conflicts cmd (some period) =
    if is_open period.end then get_approval_snapshot cmd.maint_id else factual_conflicts cmd period

-- `resolveConflicts`
unfoldable pub resolve_conflicts : CardQuery → M (List ConflictWithResources)
unfolding planned_conflicts terminal_conflicts
resolve_conflicts cmd =
    if is_terminal cmd.status
    then terminal_conflicts cmd cmd.actual_period
    else planned_conflicts cmd
