-- ===== src/Samples/Witnesses.antt =====
-- Each theorem that has conditions, at an input where they hold.
use maintmode.Base.{
  ℕ, ◌+◌, ◌≤◌, ◌≡◌, refl, ◌≢◌, ◌⊎◌, inl, inr, true, not, ◌&&◌, none, some, List, [], ◌∷◌, arith,
  leb, ◌==◌, is_some, length, filter, All, Member, here, there,
}
use maintmode.Samples.{
  sample_rules, create_cmd, sample_world, sample_db, noon, approve_cmd, no_hash, start_second,
  sample_maint, finished_third, sample_step, known_conflict, sample_row,
}
use maintmode.Lifecycle.Create.{IsLawful, validate_create}
use maintmode.Lifecycle.Validated.{Valid, validate_create-Valid}
use maintmode.Conflict.Fingerprint.{conflict_fingerprint_for}
use maintmode.Conflict.Redaction.{
  left_hides, both_have, both_end, alike_next, alike_end, conflict_fingerprint_for-Alike,
  conflict_fingerprint_for-mark_known,
}
use maintmode.Entity.Period.{from_pg_range, new_period, to_pg_range, at}
use maintmode.World.Effect.{call, M, ◌>>◌, exec, throw}
use maintmode.Conflict.Scope.{shares}
use maintmode.Conflict.Found.{Collides, Names, conflicted_maints-Collides, conflicted_maints-Names}
use maintmode.Base.Members.{Member-contains}
use maintmode.Entity.Commands.{ConflictQueryCmd, ApproveMaintenanceCmd}
use maintmode.World.Errors.{store_failure, serialization_failure, maint_not_found}
use maintmode.World.Tables.{World, ResourceLink, MaintenanceRow}
use maintmode.Entity.Step.{started, completed as step_done}
use maintmode.Entity.Conflict.{Conflict, ConflictWithResources}
use maintmode.Entity.Maint.{
  Maintenance, planned, in_progress, completed, can_maint_transition, status_eq, draft,
  close_actual_period, resources,
}
use maintmode.Conflict.Approval.{mark_known_at_approval, sort_conflicts}
use maintmode.Conflict.Review.{Flagged, review-Flagged, seen}
use maintmode.Store.Conflicts.{conflicted_maints}
use maintmode.Store.Maintenances.{
  overdue_rows, from_db_maintenance, to_db_maintenance, actual_check,
}
use maintmode.Store.Overdue.{Overdue, start_of, overdue_rows-Overdue, overdue_rows-full}
use maintmode.Store.RoundTrip.{from_db-to_db, without_collections, close_actual_period-check}
use maintmode.Store.Steps.{update_step, maint_steps}
use maintmode.World.Tx.{
  Ctx, tx, background, within_tx, within_serializable_tx, serializable_max_attempts,
}
use maintmode.World.Tx.Rollback.{within_tx_rollback}
use maintmode.World.Tx.Retry.{Attempts, serializable-Attempts, serializable_exhausted}
use maintmode.Lifecycle.Approve.{approve_maint}
use maintmode.Lifecycle.Start.{start_apply}
use maintmode.Lifecycle.Complete.{complete_apply, all_steps_terminal}
use maintmode.Lifecycle.Apply.{run_update_with_apply, maint_lifecycle_event}
use maintmode.Lifecycle.Outcomes.{Approved, approve_maint-Approved, approve_maint-rollback}
use maintmode.Lifecycle.Transitions.{StatusPath, status_of}
use maintmode.Lifecycle.Machine.{run, run-StatusPath, run-terminal}
use maintmode.Lifecycle.Moves.{Moved, complete_Moved}
use maintmode.Lifecycle.Run.{run_err, within_tx-IsTransaction}
use maintmode.Lifecycle.Events.{maint_lifecycle_event-allowed}
use maintmode.Lifecycle.Findings.{Unstamped, is_row, update_step-Unstamped}

run-StatusPath_example :
    StatusPath
      (status_of 2 sample_db.maintenances)
      (status_of 2 (run sample_rules no_hash (start_second ∷ []) sample_world).db.maintenances)
run-StatusPath_example = run-StatusPath sample_rules no_hash 2 (start_second ∷ []) sample_world

run-terminal_example :
    status_of 4 (run sample_rules no_hash (start_second ∷ []) sample_world).db.maintenances
    ≡ some completed
unfolding status_of
run-terminal_example =
    run-terminal sample_rules no_hash 4 completed (start_second ∷ []) sample_world refl refl

-- The approver was shown one conflict.
abbrev informed_cmd : ApproveMaintenanceCmd
informed_cmd = record approve_cmd {
  conflict_snapshot = record { conflicts = known_conflict 6 ∷ [] };
}

abbrev approved_world : World
approved_world = (approve_maint no_hash informed_cmd sample_world).1

approve_maint-Approved_example : Approved no_hash informed_cmd sample_world approved_world
unfolding approve_maint within_tx call to_pg_range from_pg_range
approve_maint-Approved_example =
    approve_maint-Approved no_hash informed_cmd sample_world approved_world refl

-- The second call of the environment, the read of the row, fails.
abbrev failing_world : World
failing_world = record sample_world { faults = none ∷ some store_failure ∷ [] }

abbrev refused_world : World
refused_world = (approve_maint no_hash approve_cmd failing_world).1

approve_maint-rollback_example : refused_world.db ≡ sample_db
unfolding approve_maint within_tx call
approve_maint-rollback_example =
    approve_maint-rollback no_hash approve_cmd failing_world refused_world store_failure refl

abbrev clears_then_fails : Ctx → M (Unit {0})
clears_then_fails ctx = exec (λ db. record db { maintenances = [] }) >> throw store_failure

within_tx_rollback_example : (within_tx background clears_then_fails sample_world).1.db ≡ sample_db
unfolding within_tx call
within_tx_rollback_example =
    within_tx_rollback clears_then_fails sample_world {e = store_failure}
      {w' = (within_tx background clears_then_fails sample_world).1} refl

serializable-Attempts_example :
    (made : ℕ) × Attempts
      (within_tx background clears_then_fails)
      9
      made
      sample_world
      (within_serializable_tx background clears_then_fails sample_world)
    × (made ≤ serializable_max_attempts)
serializable-Attempts_example = serializable-Attempts clears_then_fails sample_world

abbrev aborted : Ctx → M (Unit {0})
aborted ctx = throw serialization_failure

serializable_exhausted_example :
    Attempts
      (within_tx background aborted)
      9
      serializable_max_attempts
      sample_world
      (within_serializable_tx background aborted sample_world)
unfolding within_serializable_tx within_tx call
serializable_exhausted_example = serializable_exhausted aborted sample_world refl

abbrev third : Maintenance
third = sample_maint 3 in_progress

complete_Moved_example :
    (can_maint_transition in_progress completed ≡ true)
    × (all_steps_terminal (maint_steps 3 sample_db) ≡ true)
    × Moved completed third (complete_apply tx third sample_world)
unfolding complete_apply call
complete_Moved_example =
    complete_Moved third sample_world {m' = finished_third} {v = sample_world} refl

-- The first maintenance shares a resource with the second, which is planned for the same hour.
abbrev shared_link : ResourceLink
shared_link = record { maintenance_id = 2; resource_id = 5 }

abbrev shared_world : World
shared_world = record sample_world {
  db = record sample_db { maintenance_resources = shared_link ∷ [] };
}

abbrev shared_query : ConflictQueryCmd
shared_query = record {
  maint_id = 1;
  planned_period = new_period (noon + 1) (noon + 2);
  scope = resources;
  resource_ids = 5 ∷ [];
}

abbrev shared_conflict : Conflict
shared_conflict = record {
  maintenance_id = 2;
  title = "Database upgrade";
  overlap_start = noon + 1;
  overlap_end = noon + 2;
  scope = resources;
}

conflicted_maints-Collides_example :
    (m : MaintenanceRow) × (Collides shared_query (noon + 1) (noon + 2) shared_world.db m
      × Names (noon + 1) (noon + 2) m shared_conflict)
unfolding conflicted_maints call from_pg_range
conflicted_maints-Collides_example =
    conflicted_maints-Collides shared_query (noon + 1) (noon + 2) shared_world shared_world
      (shared_conflict ∷ []) shared_conflict refl refl here

second_Collides : Collides shared_query (noon + 1) (noon + 2) shared_world.db (sample_row 2 planned)
second_Collides = record {
  stored = there here;
  other = λ e. absurd (cc e);
  active = inl refl;
  shared = (noon + 1, ((omega arith, omega arith), (omega arith, omega arith)));
  scoped = shares shared_link refl refl here refl here;
}

conflicted_maints-Names_example :
    (c : Conflict) × (Member c (shared_conflict ∷ [])
      × Names (noon + 1) (noon + 2) (sample_row 2 planned) c)
unfolding conflicted_maints call from_pg_range
conflicted_maints-Names_example =
    conflicted_maints-Names shared_query (noon + 1) (noon + 2) shared_world shared_world
      (shared_conflict ∷ []) (sample_row 2 planned) refl refl second_Collides

abbrev two_conflicts : List ConflictWithResources
two_conflicts = known_conflict 5 ∷ known_conflict 6 ∷ []

review-Flagged_example :
    All
      (Flagged (seen (known_conflict 6 ∷ [])))
      (sort_conflicts (mark_known_at_approval two_conflicts (known_conflict 6 ∷ [])))
review-Flagged_example = review-Flagged two_conflicts (known_conflict 6 ∷ []) (refl, (refl, tt))

overdue_rows-Overdue_example :
    Member (sample_row 1 draft) sample_db.maintenances × Overdue (noon + 1) (sample_row 1 draft)
unfolding overdue_rows
overdue_rows-Overdue_example =
    overdue_rows-Overdue (noon + 1) 1 sample_db.maintenances (sample_row 1 draft) here

-- The sweep takes one row, the draft, and the second maintenance waits.
second_Overdue : Overdue (noon + 1) (sample_row 2 planned)
second_Overdue = record {
  unstarted = inr refl;
  start = noon;
  upper = at (noon + 3_600_000_000);
  period = refl;
  late = omega arith;
}

overdue_rows-full_example :
    Member (sample_row 2 planned) (overdue_rows (noon + 1) 1 sample_db.maintenances)
    ⊎ ((length (overdue_rows (noon + 1) 1 sample_db.maintenances) ≡ 1)
        × All
            (λ g. start_of g ≤ start_of (sample_row 2 planned))
            (overdue_rows (noon + 1) 1 sample_db.maintenances))
overdue_rows-full_example =
    overdue_rows-full (noon + 1) 1 sample_db.maintenances (sample_row 2 planned) (there here)
      second_Overdue

from_db-to_db_example : from_db_maintenance (to_db_maintenance third) ≡ without_collections third
from_db-to_db_example = from_db-to_db third

close_actual_period-check_example :
    actual_check ((to_db_maintenance (close_actual_period noon third)).actual_period) ≡ true
close_actual_period-check_example = close_actual_period-check noon third

maint_lifecycle_event-allowed_example :
    is_some (maint_lifecycle_event planned in_progress)
    ≡ (can_maint_transition planned in_progress && not (status_eq planned draft))
maint_lifecycle_event-allowed_example = maint_lifecycle_event-allowed planned in_progress

update_step-Unstamped_example : All Unstamped (
    filter
      (is_row 21 2)
      (update_step 2 (sample_step 21 1 started) sample_world).1.db.maintenance_steps)
unfolding update_step call
update_step-Unstamped_example =
    update_step-Unstamped 2 (sample_step 21 1 started) sample_world
      (update_step 2 (sample_step 21 1 started) sample_world).1 refl

run_err_example :
    (run_update_with_apply (within_tx background) 9 start_apply sample_world).1.db ≡ sample_db
unfolding run_update_with_apply within_tx call
run_err_example =
    run_err (within_tx background) within_tx-IsTransaction 9 start_apply sample_world
      {e = maint_not_found}
      {v = (run_update_with_apply (within_tx background) 9 start_apply sample_world).1} refl

-- The rules of the samples are lawful, and so the promises can be kept.
required_law : (n : ℕ) → not (n == 0) ≡ true → n ≢ 0
required_law n h e = absurd (ground arith)

length_law : (lo hi n : ℕ) → (leb lo n && leb n hi) ≡ true → (n ≡ 0) ⊎ ((lo ≤ n) × (n ≤ hi))
length_law lo hi n h = inr (ground arith, ground arith)

min_law : (lo n : ℕ) → leb lo n ≡ true → (n ≡ 0) ⊎ (lo ≤ n)
min_law lo n h = inr (ground arith)

sample_rules-IsLawful : IsLawful sample_rules
sample_rules-IsLawful = record {
  required_ne = required_law;
  length_bounds = length_law;
  min_bound = min_law;
}

validate_create-Valid_example : Valid noon create_cmd
unfolding validate_create
validate_create-Valid_example =
    validate_create-Valid sample_rules sample_rules-IsLawful noon create_cmd refl

nine_missing : Member {A = ℕ} 9 (5 ∷ []) → ⊥
nine_missing m = absurd (cc (Member-contains 9 (5 ∷ []) m))

-- A conflict over a shared resource and another, and the same with the other left out.
abbrev shown : List ℕ → ConflictWithResources
shown ids = record (known_conflict 6) { resources = ids }

conflict_fingerprint_for-Alike_example :
    conflict_fingerprint_for no_hash (shown (9 ∷ 5 ∷ []) ∷ []) (5 ∷ [])
    ≡ conflict_fingerprint_for no_hash (shown (5 ∷ []) ∷ []) (5 ∷ [])
conflict_fingerprint_for-Alike_example =
    conflict_fingerprint_for-Alike no_hash (5 ∷ []) (shown (9 ∷ 5 ∷ []) ∷ []) (shown (5 ∷ []) ∷ [])
      (alike_next refl (left_hides nine_missing (both_have both_end)) alike_end)

conflict_fingerprint_for-mark_known_example :
    conflict_fingerprint_for no_hash
      (mark_known_at_approval two_conflicts (known_conflict 6 ∷ []))
      (5 ∷ [])
    ≡ conflict_fingerprint_for no_hash two_conflicts (5 ∷ [])
conflict_fingerprint_for-mark_known_example =
    conflict_fingerprint_for-mark_known no_hash (5 ∷ []) two_conflicts (known_conflict 6 ∷ [])
