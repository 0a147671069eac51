-- ===== src/Lifecycle/Approve.antt =====
-- services/maint/appove_maint.go.
use maintmode.Base.{
  ℕ, String, Option, none, some, Bool, false, List, not, ◌&&◌, ◌==◌, str_eq, if◌then◌else◌,
}
use maintmode.Conflict.Fingerprint.{conflict_fingerprint_for}
use maintmode.Conflict.Service.{get_conflicts, save_snapshot}
use maintmode.Entity.User.{User, is_active_admin}
use maintmode.Entity.Maint.{Maintenance, planned, can_maint_transition, revision, ℤ, pos, negsuc}
use maintmode.Entity.Conflict.{ConflictsSnapshot}
use maintmode.Entity.Commands.{ApproveMaintenanceCmd, ConflictQueryCmd}
use maintmode.Lifecycle.Apply.{update_with_apply_serializable}
use maintmode.Reminders.{schedule}
use maintmode.Store.Children.{get_maint_resources}
use maintmode.World.Errors.{
  Result, ok, err, nil_actor, forbidden_maint_status_transition, approver_mismatch,
  maint_changed_since_preview, conflicts_changed_since_preview, concurrent_modification,
  is_serialization_failure,
}
use maintmode.World.Tables.{World, maint_approved}
use maintmode.World.Effect.{M, ◌>>=◌, ◌>>◌, pure, throw_if, publish_audit}
use maintmode.World.Tx.{Ctx}

abbrev pub int_eq : ℤ → ℤ → Bool
int_eq (pos a) (pos b) = a == b
int_eq (negsuc a) (negsuc b) = a == b
int_eq _ _ = false

abbrev pub conflict_query : Maintenance → ConflictQueryCmd
conflict_query maint = record {
  maint_id = maint.id;
  planned_period = maint.planned_period;
  scope = maint.scope;
  resource_ids = maint.resources;
}

-- `loadResources`
unfoldable pub load_resources : Maintenance → M Maintenance
unfolding get_maint_resources
load_resources maint = do
  ids ← get_maint_resources maint.id
  pure (record maint { resources = ids })

module _ (sha256_hex : List ℕ → String) where
  -- `checkConflicts`
  unfoldable pub check_conflicts : Maintenance → ConflictsSnapshot → M (Unit {0})
  unfolding get_conflicts conflict_fingerprint_for
  check_conflicts maint snapshot = do
    conflicts ← get_conflicts (conflict_query maint)
    throw_if
        (not (
          str_eq (conflict_fingerprint_for sha256_hex snapshot.conflicts maint.resources)
            (conflict_fingerprint_for sha256_hex conflicts maint.resources)))
        conflicts_changed_since_preview

  -- What `ApproveMaint` runs in the SERIALIZABLE transaction.
  unfoldable pub approve_apply : ApproveMaintenanceCmd → User → Ctx → Maintenance → M Maintenance
  unfolding can_maint_transition is_active_admin revision load_resources check_conflicts
      save_snapshot schedule
  approve_apply cmd actor ctx maint = do
    throw_if (not (can_maint_transition maint.status planned))
        (forbidden_maint_status_transition maint.status planned)
    throw_if (not (maint.approver_user_id == cmd.actor_user_id) && not (is_active_admin actor))
        approver_mismatch
    throw_if (not (int_eq (revision maint) cmd.observed_maint_revision)) maint_changed_since_preview
    loaded ← load_resources maint
    check_conflicts loaded cmd.conflict_snapshot
    save_snapshot cmd.maint_id cmd.conflict_snapshot
    schedule cmd.maint_id
    pure (record loaded { status = planned })

  unfoldable pub after_approve :
      User → Result (Maintenance × Maintenance) × World → Result (Unit {0}) × World
  unfolding publish_audit
  after_approve actor (ok (prev, current), w) = publish_audit (maint_approved actor current) w
  after_approve actor (err e, w) =
      if is_serialization_failure e then (err concurrent_modification, w) else (err e, w)

  unfoldable pub approve_as : ApproveMaintenanceCmd → Option User → M (Unit {0})
  unfolding approve_apply after_approve update_with_apply_serializable
  approve_as cmd none w = (err nil_actor, w)
  approve_as cmd (some actor) w =
      after_approve actor (update_with_apply_serializable cmd.maint_id (approve_apply cmd actor) w)

  -- `ApproveMaint`
  unfoldable pub approve_maint : ApproveMaintenanceCmd → M (Unit {0})
  unfolding approve_as
  approve_maint cmd = approve_as cmd cmd.actor
