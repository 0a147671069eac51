-- ===== src/Lifecycle/Approval.antt =====
-- What an approval has checked when it returns (services/maint/appove_maint.go).
use maintmode.Base.{
  ◌∙◌, ℕ, String, ◌≡◌, refl, sym, ap, subst, true, false, not, ◌&&◌, List, str_eq, ◌==◌,
}
use maintmode.World.Errors.{
  Result, ok, conflicts_changed_since_preview, forbidden_maint_status_transition, approver_mismatch,
  maint_changed_since_preview,
}
use maintmode.World.Tables.{Db, World}
use maintmode.World.Effect.{query, throw_if}
use maintmode.World.Effect.Invert.{throw_if_ok, Answered, Answered-db, bind_ok, guard_ok, read_ok}
use maintmode.Lifecycle.Moves.{not-false, Moved, moved-Step}
use maintmode.World.Tx.{tx}
use maintmode.World.Respects.{Respects}
use maintmode.Entity.Maint.{Maintenance, planned, can_maint_transition, revision}
use maintmode.Entity.User.{User, is_active_admin}
use maintmode.Entity.Conflict.{ConflictWithResources, ConflictsSnapshot}
use maintmode.Entity.Commands.{ApproveMaintenanceCmd}
use maintmode.Conflict.Fingerprint.{conflict_fingerprint_for}
use maintmode.Conflict.Service.{get_conflicts, save_snapshot}
use maintmode.Reminders.{schedule}
use maintmode.Lifecycle.Frames.{Same-check_conflicts}
use maintmode.Store.Children.{linked_resources, get_maint_resources}
use maintmode.Lifecycle.Transitions.{IsLifecycle, SameRows}
use maintmode.Lifecycle.Rows.{keep_bind, keep_guard, keep_query, keep_save_snapshot}
use maintmode.Lifecycle.Services.{keep_get_conflicts, keep_schedule}
use maintmode.Lifecycle.Approve.{
  approve_apply, load_resources, check_conflicts, conflict_query, int_eq,
}

-- `maint` with the resources that the tables hold for it.
abbrev loaded_from : Db → Maintenance → Maintenance
loaded_from db maint = record maint { resources = linked_resources maint.id db }

module _ (sha256_hex : List ℕ → String) (cmd : ApproveMaintenanceCmd) (actor : User) where
  -- The conflicts of now have the fingerprint of those that the approver was shown.
  pub record Unchanged (maint : Maintenance) (db : Db) : Type 0 where
    pub asked : World
    pub answered : World
    pub live : List ConflictWithResources
    pub same_db : asked.db ≡ db
    pub read : get_conflicts (conflict_query (loaded_from db maint)) asked ≡ (ok live, answered)
    pub same_fingerprint :
        str_eq
          (conflict_fingerprint_for sha256_hex cmd.conflict_snapshot.conflicts
            (linked_resources maint.id db))
          (conflict_fingerprint_for sha256_hex live (linked_resources maint.id db))
        ≡ true

  pub record Granted (maint : Maintenance) (w : World) (r : Result Maintenance × World)
      : Type 0 where
    pub allowed : can_maint_transition maint.status planned ≡ true
    pub approver :
        (not (maint.approver_user_id == cmd.actor_user_id) && not (is_active_admin actor)) ≡ false
    pub same_revision : int_eq (revision maint) cmd.observed_maint_revision ≡ true
    pub unchanged : Unchanged maint w.db
    pub before_save : World
    pub saved : World
    pub scheduled : World
    pub asked_db : before_save.db ≡ w.db
    pub snapshot_kept :
        save_snapshot cmd.maint_id cmd.conflict_snapshot before_save ≡ (ok tt, saved)
    pub reminders_set : schedule cmd.maint_id saved ≡ (ok tt, scheduled)
    pub last_world : r.1 ≡ scheduled
    pub result : Moved planned maint r

  load_resources_ok :
      (maint : Maintenance) (w : World) {m : Maintenance} {v : World}
      → load_resources maint w ≡ (ok m, v)
      → (m ≡ loaded_from w.db maint) × Answered w v
  unfolding load_resources get_maint_resources
  load_resources_ok maint w {m} {v} h =
      let (u, done, last) = read_ok (linked_resources maint.id) w _ h in
      (sym (cc last), subst (Answered w) (ap (λ r. r.1) last) done)

  check_conflicts_ok :
      (maint loaded : Maintenance) (db : Db) (w v : World)
      → loaded ≡ loaded_from db maint
      → w.db ≡ db
      → check_conflicts sha256_hex loaded cmd.conflict_snapshot w ≡ (ok tt, v)
      → Unchanged maint db
  unfolding check_conflicts
  check_conflicts_ok maint loaded db w v is_loaded at_db checked =
      let h = rw is_loaded at checked in
      let ids = linked_resources maint.id db in
      let (live, u, asked, rest) =
        bind_ok (get_conflicts (conflict_query (loaded_from db maint)) w) _ h in
      let (same, _) =
        throw_if_ok
          (not (
            str_eq (conflict_fingerprint_for sha256_hex cmd.conflict_snapshot.conflicts ids)
              (conflict_fingerprint_for sha256_hex live ids)))
          conflicts_changed_since_preview rest in
      record {
        asked = w;
        answered = u;
        live = live;
        same_db = at_db;
        read = asked;
        same_fingerprint = not-false _ same;
      }

  pub approve_Granted :
      (m : Maintenance) (w : World) {m' : Maintenance} {v : World}
      → approve_apply sha256_hex cmd actor tx m w ≡ (ok m', v)
      → Granted m w (ok m', v)
  unfolding approve_apply
  approve_Granted m w h =
      let (allowed, h₁) =
        guard_ok (not (can_maint_transition m.status planned))
          (forbidden_maint_status_transition m.status planned) w _ h in
      let (approver, h₂) =
        guard_ok (not (m.approver_user_id == cmd.actor_user_id) && not (is_active_admin actor))
          approver_mismatch w _ h₁ in
      let (same, h₃) =
        guard_ok (not (int_eq (revision m) cmd.observed_maint_revision)) maint_changed_since_preview
          w _ h₂ in
      let (loaded, w₁, read, h₄) = bind_ok (load_resources m w) _ h₃ in
      let (is_loaded, done) = load_resources_ok m w read in
      let (_, w₂, checked, h₅) =
        bind_ok (check_conflicts sha256_hex loaded cmd.conflict_snapshot w₁) _ h₄ in
      let (_, w₃, kept, h₆) = bind_ok (save_snapshot cmd.maint_id cmd.conflict_snapshot w₂) _ h₅ in
      let (_, w₄, set, last) = bind_ok (schedule cmd.maint_id w₃) _ h₆ in
      subst (Granted m w) last (record {
        allowed = not-false _ allowed;
        approver = approver;
        same_revision = not-false _ same;
        unchanged = check_conflicts_ok m loaded w.db w₁ w₂ is_loaded (Answered-db done) checked;
        before_save = w₂;
        saved = w₃;
        scheduled = w₄;
        asked_db =
            ap (λ r. r.1.db) (sym checked)
            ∙ sym (Same-check_conflicts sha256_hex loaded cmd.conflict_snapshot w₁)
            ∙ Answered-db done;
        snapshot_kept = kept;
        reminders_set = set;
        last_world = refl;
        result = (ap (λ x. x.id) is_loaded, refl);
      })

  keep_load_resources : (m : Maintenance) → Respects SameRows (load_resources m)
  unfolding load_resources get_maint_resources
  keep_load_resources m =
      keep_bind (query (linked_resources m.id)) _ (keep_query (linked_resources m.id)) λ _ w. refl

  keep_check_conflicts :
      (m : Maintenance) (snapshot : ConflictsSnapshot)
      → Respects SameRows (check_conflicts sha256_hex m snapshot)
  unfolding check_conflicts
  keep_check_conflicts m snapshot =
      keep_bind (get_conflicts (conflict_query m)) _ (keep_get_conflicts (conflict_query m)) λ live.
        keep_guard
          (not (
            str_eq (conflict_fingerprint_for sha256_hex snapshot.conflicts m.resources)
              (conflict_fingerprint_for sha256_hex live m.resources)))
          conflicts_changed_since_preview

  keep_guards : (m : Maintenance) → Respects SameRows (approve_apply sha256_hex cmd actor tx m)
  unfolding approve_apply
  keep_guards m =
      keep_bind
        (throw_if (not (can_maint_transition m.status planned))
          (forbidden_maint_status_transition m.status planned))
        _
        (keep_guard (not (can_maint_transition m.status planned))
          (forbidden_maint_status_transition m.status planned))
        λ _.
          keep_bind
            (throw_if (not (m.approver_user_id == cmd.actor_user_id) && not (is_active_admin actor))
              approver_mismatch)
            _
            (keep_guard
              (not (m.approver_user_id == cmd.actor_user_id) && not (is_active_admin actor))
              approver_mismatch)
            λ _.
              keep_bind
                (throw_if (not (int_eq (revision m) cmd.observed_maint_revision))
                  maint_changed_since_preview)
                _
                (keep_guard (not (int_eq (revision m) cmd.observed_maint_revision))
                  maint_changed_since_preview)
                λ _. keep_bind (load_resources m) _ (keep_load_resources m) λ loaded.
                  keep_bind (check_conflicts sha256_hex loaded cmd.conflict_snapshot) _
                    (keep_check_conflicts loaded cmd.conflict_snapshot)
                    λ _.
                      keep_bind (save_snapshot cmd.maint_id cmd.conflict_snapshot) _
                        (keep_save_snapshot cmd.maint_id cmd.conflict_snapshot)
                        λ _.
                          keep_bind (schedule cmd.maint_id) _ (keep_schedule cmd.maint_id)
                            λ _ w. refl

  pub approve-IsLifecycle : IsLifecycle (approve_apply sha256_hex cmd actor)
  approve-IsLifecycle = record {
    keeps_rows = keep_guards;
    steps = λ m w {m'} h.
        (let granted = approve_Granted m w h in
          moved-Step planned m m' granted.allowed granted.result);
  }
