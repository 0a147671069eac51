-- ===== src/Lifecycle/Outcomes.antt =====
-- What an approval has done when it returns, and that it has done nothing when it fails
-- (services/maint/appove_maint.go).
use maintmode.Base.{
  ℕ, String, ◌≡◌, refl, sym, ap, subst, ◌∙◌, inl, inr, Option, none, some, List, ◌++◌, Bool-cases,
}
use maintmode.World.Errors.{Error, Result, ok, err, is_serialization_failure}
use maintmode.World.Tables.{World, MaintenanceRow, maint_approved}
use maintmode.World.Effect.Call.{publish_audit_ok}
use maintmode.World.Tx.{background, within_serializable_tx}
use maintmode.Entity.Maint.{Maintenance, planned}
use maintmode.Entity.User.{User}
use maintmode.Entity.Commands.{ApproveMaintenanceCmd}
use maintmode.Store.Maintenances.{
  find_row, from_db_maintenance, with_maintenances, set_row, to_db_maintenance,
}
use maintmode.Store.Snapshots.{to_db_snapshots}
use maintmode.Lifecycle.Apply.{update_with_apply_serializable}
use maintmode.Lifecycle.Applied.{Applied}
use maintmode.Lifecycle.Run.{serializable-IsTransaction, run_ok, run_err}
use maintmode.Lifecycle.Transitions.{status_of, Applied-status}
use maintmode.Lifecycle.Frames.{kept_schedule, told_db, save_snapshot_ok}
use maintmode.Lifecycle.Approval.{Granted, approve_Granted, approve-IsLifecycle}
use maintmode.Lifecycle.Approve.{approve_maint, approve_as, approve_apply, after_approve}

module _ (sha256_hex : List ℕ → String) (cmd : ApproveMaintenanceCmd) where
  pub record Approved (w v : World) : Type 0 where
    pub actor : User
    pub is_actor : cmd.actor ≡ some actor
    pub row : MaintenanceRow
    pub found : find_row cmd.maint_id w.db.maintenances ≡ some row
    pub before : World
    pub same_db : before.db ≡ w.db
    pub result : Result Maintenance × World
    pub granted : Granted sha256_hex cmd actor (from_db_maintenance row) before result
    pub kept_tables : v.db ≡ with_maintenances v.db.maintenances granted.scheduled.db
    pub snapshot_stored :
        v.db.maintenance_conflict_snapshot
        ≡ w.db.maintenance_conflict_snapshot
          ++ to_db_snapshots cmd.maint_id cmd.conflict_snapshot.conflicts
    pub now_planned : status_of cmd.maint_id v.db.maintenances ≡ some planned

  -- The snapshot that was saved is in the table when the reminders were set.
  Granted-snapshot :
      (actor : User) (m : Maintenance) (w : World) (r : Result Maintenance × World)
      (g : Granted sha256_hex cmd actor m w r)
      → g.scheduled.db.maintenance_conflict_snapshot
        ≡ w.db.maintenance_conflict_snapshot
          ++ to_db_snapshots cmd.maint_id cmd.conflict_snapshot.conflicts
  Granted-snapshot actor m w r g =
      ap (λ r. r.1.db.maintenance_conflict_snapshot) (sym g.reminders_set)
      ∙ sym (kept_schedule cmd.maint_id g.saved)
      ∙ save_snapshot_ok cmd.maint_id cmd.conflict_snapshot g.before_save g.saved g.snapshot_kept
      ∙ ap
          (λ d.
            d.maintenance_conflict_snapshot
            ++ to_db_snapshots cmd.maint_id cmd.conflict_snapshot.conflicts)
          g.asked_db

  -- The same of the row that was read, and what the tables hold then.
  of_row :
      (actor : User) (m prev : Maintenance)
      → prev ≡ m
      → (before : World) (r : Result Maintenance × World)
        (granted : Granted sha256_hex cmd actor prev before r) (w v : World)
      → before.db ≡ w.db
      → (rows : List MaintenanceRow) → v.db ≡ with_maintenances rows granted.scheduled.db
      → (g : Granted sha256_hex cmd actor m before r) × (v.db
          ≡ with_maintenances v.db.maintenances g.scheduled.db)
        × (v.db.maintenance_conflict_snapshot
            ≡ w.db.maintenance_conflict_snapshot
              ++ to_db_snapshots cmd.maint_id cmd.conflict_snapshot.conflicts)
  of_row actor m prev read before r g w v same_db rows same =
      let stored =
        ap (λ d. d.maintenance_conflict_snapshot) same
        ∙ Granted-snapshot actor prev before r g
        ∙ ap
            (λ d.
              d.maintenance_conflict_snapshot
              ++ to_db_snapshots cmd.maint_id cmd.conflict_snapshot.conflicts)
            same_db in
      let tables : v.db ≡ with_maintenances v.db.maintenances g.scheduled.db =
        same ∙ ap (λ x. with_maintenances x g.scheduled.db) (sym (ap (λ d. d.maintenances) same)) in
      subst
        (λ x.
          (g : Granted sha256_hex cmd actor x before r) × (v.db
            ≡ with_maintenances v.db.maintenances g.scheduled.db)
          × (v.db.maintenance_conflict_snapshot
              ≡ w.db.maintenance_conflict_snapshot
                ++ to_db_snapshots cmd.maint_id cmd.conflict_snapshot.conflicts))
        read (g, tables, stored)

  Approved-of :
      (actor : User)
      → cmd.actor ≡ some actor
      → (w v : World) (prev current : Maintenance) (u : World)
        (done : Applied cmd.maint_id (approve_apply sha256_hex cmd actor) w.db prev current u.db)
        (granted : Granted sha256_hex cmd actor prev done.before (ok done.result, done.after))
        (rows : List MaintenanceRow)
      → v.db ≡ with_maintenances rows granted.scheduled.db
      → status_of cmd.maint_id v.db.maintenances ≡ some planned
      → Approved w v
  Approved-of actor is_actor w v prev current u done granted rows same now_planned =
      let (row_granted, tables, snapshot) =
        of_row actor (from_db_maintenance done.row) prev done.read done.before
          (ok done.result, done.after) granted w v done.same_db rows same in
      record {
        actor = actor;
        is_actor = is_actor;
        row = done.row;
        found = done.found;
        before = done.before;
        same_db = done.same_db;
        result = (ok done.result, done.after);
        granted = row_granted;
        kept_tables = tables;
        snapshot_stored = snapshot;
        now_planned = now_planned;
      }

  Approved-by :
      (actor : User)
      → cmd.actor ≡ some actor
      → (w v : World) (r : Result (Maintenance × Maintenance) × World)
      → update_with_apply_serializable cmd.maint_id (approve_apply sha256_hex cmd actor) w ≡ r
      → after_approve sha256_hex actor r ≡ (ok tt, v)
      → Approved w v
  unfolding update_with_apply_serializable after_approve
  Approved-by actor is_actor w v (ok (prev, current), z) h audited =
      let apply = approve_apply sha256_hex cmd actor in
      let (u, done, sent) =
        run_ok (within_serializable_tx background) serializable-IsTransaction cmd.maint_id apply w
          h in
      let granted = approve_Granted sha256_hex cmd actor prev done.before done.applied in
      let at_planned : current.status ≡ planned =
        ap (λ m. m.status) done.stamped ∙ granted.result.1 in
      let rows : List MaintenanceRow =
        set_row (to_db_maintenance current) done.after.db.maintenances in
      let same : v.db ≡ with_maintenances rows granted.scheduled.db =
        told_db prev current (maint_approved actor current) u z v at_planned sent audited
        ∙ done.stored
        ∙ ap (λ x. with_maintenances rows x.db) granted.last_world in
      let status =
        Applied-status cmd.maint_id cmd.maint_id apply w.db u.db prev current
          (approve-IsLifecycle sha256_hex cmd actor) done in
      Approved-of actor is_actor w v prev current u done granted rows same (
        ap (λ d. status_of cmd.maint_id d.maintenances)
          (told_db prev current (maint_approved actor current) u z v at_planned sent audited)
        ∙ status
        ∙ ap some at_planned)
  Approved-by actor is_actor w v (err e, u) h audited =
      elim (Bool-cases (is_serialization_failure e)) [
        | inl lost ↦ absurd (cc (rw (after_approve, lost) at audited))
        | inr other ↦ absurd (cc (rw (after_approve, other) at audited))
      ]

  -- An approval that returns found the row, in a status from which it may be planned, and an actor
  -- who is the approver or an active admin; the revision was the one observed, and the conflicts
  -- had the fingerprint of those shown. The tables are then those in which the snapshot was saved and
  -- the reminders were set, in this order and from the tables that the approval found, but for the
  -- table of maintenances: the rows of the snapshot are appended to the table of snapshots, and the
  -- maintenance is planned.
  pub approve_maint-Approved :
      (w v : World) → approve_maint sha256_hex cmd w ≡ (ok tt, v) → Approved w v
  unfolding approve_maint approve_as
  approve_maint-Approved w v h = by_actor cmd.actor refl h
    where
      by_actor :
          (actor : Option User)
          → cmd.actor ≡ actor
          → approve_as sha256_hex cmd actor w ≡ (ok tt, v)
          → Approved w v
      by_actor none e k = absurd (cc k)
      by_actor (some actor) e k = Approved-by actor e w v _ refl k

  failed_by :
      (actor : User) (w v : World) (e : Error) (r : Result (Maintenance × Maintenance) × World)
      → update_with_apply_serializable cmd.maint_id (approve_apply sha256_hex cmd actor) w ≡ r
      → after_approve sha256_hex actor r ≡ (err e, v)
      → v.db ≡ w.db
  unfolding update_with_apply_serializable after_approve
  failed_by actor w v e (ok (prev, current), u) h k =
      let (z, sent) = publish_audit_ok (maint_approved actor current) u in absurd (cc (k, sent))
  failed_by actor w v e (err x, u) h k =
      let same =
        run_err (within_serializable_tx background) serializable-IsTransaction cmd.maint_id
          (approve_apply sha256_hex cmd actor) w h in
      elim (Bool-cases (is_serialization_failure x)) [
        | inl lost ↦
            rw (← ap (λ (z : Result (Unit {0}) × World). z.1) (rw (after_approve, lost) at k)) same
        | inr other ↦
            rw (← ap (λ (z : Result (Unit {0}) × World). z.1) (rw (after_approve, other) at k)) same
      ]

  -- An approval that fails, at whatever point, leaves every table as it was.
  pub approve_maint-rollback :
      (w v : World) (e : Error) → approve_maint sha256_hex cmd w ≡ (err e, v) → v.db ≡ w.db
  unfolding approve_maint approve_as
  approve_maint-rollback w v e h = by_actor cmd.actor h
    where
      by_actor :
          (actor : Option User) → approve_as sha256_hex cmd actor w ≡ (err e, v) → v.db ≡ w.db
      by_actor none k = sym (ap (λ (z : Result (Unit {0}) × World). z.1.db) k)
      by_actor (some actor) k = failed_by actor w v e _ refl k
