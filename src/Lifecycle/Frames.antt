-- ===== src/Lifecycle/Frames.antt =====
-- What the services that an approval calls leave of the tables (services/maint/appove_maint.go,
-- internal/services/conflicts, internal/services/deferrednotifications).
use maintmode.World.Errors.{Error, ok, data_exception, conflicts_changed_since_preview}
use maintmode.World.Effect.{
  ◌>>◌, ◌>>=◌, M, call, query, exec, throw_if, fresh_id, utc_now, for_each, publish_audit,
}
use maintmode.Base.{
  Bool, ℕ, String, ◌≡◌, refl, sym, ap, ◌∙◌, not, List, [], ◌∷◌, ◌++◌, map, ◌-◌, str_eq,
}
use mathlib.Core.List.{append-nil}
use maintmode.World.Tables.{Db, World, add_reminder, Action}
use maintmode.World.Effect.Invert.{bind_ok, call_ok, Answered-db}
use maintmode.World.Respects.{
  Respects, Respects-bind, Respects-call, Respects-query, Respects-throw_if, Respects-exec,
  Respects-for_each, Respects-publish_audit,
}
use maintmode.Entity.Maint.{
  Maintenance, MaintenanceStatus, draft, planned, in_progress, cancelled, completed,
}
use maintmode.Entity.Conflict.{Conflict, ConflictWithResources, ConflictsSnapshot}
use maintmode.Entity.Notify.{DeferredNotification}
use maintmode.Entity.Commands.{ConflictQueryCmd}
use maintmode.Store.Conflicts.{conflicted_maints, conflicted_resources, is_no_range}
use maintmode.Store.Snapshots.{save_snapshots, to_db_snapshots}
use maintmode.Store.Deferred.{list_reminders, set_task_id}
use maintmode.Conflict.Fingerprint.{conflict_fingerprint_for}
use maintmode.Conflict.Service.{get_conflicts, attach_resources, save_snapshot}
use maintmode.Reminders.{enqueue, schedule_one, schedule}
use maintmode.Lifecycle.Approve.{check_conflicts, conflict_query}
use maintmode.Lifecycle.Apply.{dispatch_maint_lifecycle, dispatch_kind, maint_lifecycle_event}

-- The tables are all the same.
abbrev pub Same : Db → Db → Type 0
Same a b = a ≡ b

Same-bind {ℓ κ} :
    {A : Type ℓ} {B : Type κ} (m : M A) (f : A → M B)
    → Respects Same m
    → ((a : A) → Respects Same (f a))
    → Respects Same (m >>= f)
Same-bind = Respects-bind Same (λ d. refl) (λ a b c p q. p ∙ q)

Same-guard : (b : Bool) (e : Error) → Respects Same (throw_if b e)
Same-guard = Respects-throw_if Same (λ d. refl) (λ a b c p q. p ∙ q)

Same-query {ℓ} : {A : Type ℓ} (f : Db → A) → Respects Same (query f)
Same-query = Respects-query Same (λ d. refl) (λ a b c p q. p ∙ q)

Same-conflicted_resources : (ids : List ℕ) → Respects Same (conflicted_resources ids)
unfolding conflicted_resources
Same-conflicted_resources [] = λ w. refl
Same-conflicted_resources (i ∷ ids) = Same-query _

Same-get_conflicts : (cmd : ConflictQueryCmd) → Respects Same (get_conflicts cmd)
unfolding get_conflicts conflicted_maints attach_resources
Same-get_conflicts cmd =
    Same-bind (conflicted_maints cmd) attach_resources
      (Same-bind call _ (Respects-call Same (λ d. refl) (λ a b c p q. p ∙ q)) λ _.
        Same-bind (throw_if (is_no_range cmd.planned_period) data_exception) _
          (Same-guard (is_no_range cmd.planned_period) data_exception) λ _ w. refl)
      λ cs.
        Same-bind (conflicted_resources (map (λ (c : Conflict). c.maintenance_id) cs)) _
          (Same-conflicted_resources (map (λ (c : Conflict). c.maintenance_id) cs)) λ _ w. refl

pub Same-check_conflicts :
    (sha256_hex : List ℕ → String) (m : Maintenance) (snapshot : ConflictsSnapshot)
    → Respects Same (check_conflicts sha256_hex m snapshot)
unfolding check_conflicts
Same-check_conflicts sha256_hex m snapshot =
    Same-bind (get_conflicts (conflict_query m)) _ (Same-get_conflicts (conflict_query m)) λ live.
      Same-guard
        (not (
          str_eq (conflict_fingerprint_for sha256_hex snapshot.conflicts m.resources)
            (conflict_fingerprint_for sha256_hex live m.resources)))
        conflicts_changed_since_preview

-- The table of snapshots is the same.
abbrev pub SameSnapshots : Db → Db → Type 0
SameSnapshots a b = a.maintenance_conflict_snapshot ≡ b.maintenance_conflict_snapshot

kept_bind {ℓ κ} :
    {A : Type ℓ} {B : Type κ} (m : M A) (f : A → M B)
    → Respects SameSnapshots m
    → ((a : A) → Respects SameSnapshots (f a))
    → Respects SameSnapshots (m >>= f)
kept_bind = Respects-bind SameSnapshots (λ d. refl) (λ a b c p q. p ∙ q)

kept_exec : (f : Db → Db) → ((d : Db) → SameSnapshots d (f d)) → Respects SameSnapshots (exec f)
kept_exec = Respects-exec SameSnapshots (λ d. refl) (λ a b c p q. p ∙ q)

kept_schedule_one :
    (maint_id now : ℕ) (n : DeferredNotification)
    → Respects SameSnapshots (schedule_one maint_id now n)
unfolding schedule_one set_task_id
kept_schedule_one maint_id now n =
    kept_bind fresh_id
      (λ task. enqueue (add_reminder task maint_id n.id (n.fire_at - now)) >> set_task_id n.id task)
      (λ w. refl)
      λ task. kept_bind (enqueue _) _ (kept_exec _ λ d. refl) λ _. kept_exec _ (λ d. refl)

pub kept_schedule : (maint_id : ℕ) → Respects SameSnapshots (schedule maint_id)
unfolding schedule list_reminders
kept_schedule maint_id =
    kept_bind (list_reminders maint_id)
      (λ ns. utc_now >>= λ now. for_each (schedule_one maint_id now) ns)
      (Respects-query SameSnapshots (λ d. refl) (λ a b c p q. p ∙ q) _)
      λ ns.
        kept_bind utc_now (λ now. for_each (schedule_one maint_id now) ns) (λ w. refl)
          λ now.
            Respects-for_each SameSnapshots (λ d. refl) (λ a b c p q. p ∙ q)
              (schedule_one maint_id now) ns (kept_schedule_one maint_id now)

-- The rows of a snapshot are appended to the table.
pub save_snapshot_ok :
    (maint_id : ℕ) (snapshot : ConflictsSnapshot) (w v : World)
    → save_snapshot maint_id snapshot w ≡ (ok tt, v)
    → v.db.maintenance_conflict_snapshot
      ≡ w.db.maintenance_conflict_snapshot ++ to_db_snapshots maint_id snapshot.conflicts
unfolding save_snapshot save_snapshots to_db_snapshots
save_snapshot_ok maint_id snapshot w v h = go snapshot.conflicts h
  where
    go :
        (cs : List ConflictWithResources)
        → save_snapshots maint_id cs w ≡ (ok tt, v)
        → v.db.maintenance_conflict_snapshot
          ≡ w.db.maintenance_conflict_snapshot ++ to_db_snapshots maint_id cs
    go [] h =
        let same : w ≡ v = ap (λ r. r.1) h in
        ap (λ z. z.db.maintenance_conflict_snapshot) (sym same)
        ∙ sym (append-nil w.db.maintenance_conflict_snapshot)
    go (c ∷ cs) h =
        let (_, u, called, last) = bind_ok (call w) _ h in
        ap (λ r. r.1.db.maintenance_conflict_snapshot) (sym last)
        ∙ ap (λ d. d.maintenance_conflict_snapshot ++ to_db_snapshots maint_id (c ∷ cs))
            (Answered-db (call_ok w called))

-- Of a maintenance that is planned now, no notification tells.
quiet_dispatch :
    (prev current : Maintenance) (u v : World)
    → current.status ≡ planned
    → dispatch_maint_lifecycle prev current u ≡ (ok tt, v)
    → u ≡ v
unfolding dispatch_maint_lifecycle dispatch_kind maint_lifecycle_event
quiet_dispatch prev current u v at_planned h = go prev.status current.status at_planned h
  where
    go :
        (a b : MaintenanceStatus)
        → b ≡ planned
        → dispatch_kind (maint_lifecycle_event a b) current u ≡ (ok tt, v)
        → u ≡ v
    go draft planned e k = ap (λ r. r.1) k
    go planned planned e k = ap (λ r. r.1) k
    go in_progress planned e k = ap (λ r. r.1) k
    go cancelled planned e k = ap (λ r. r.1) k
    go completed planned e k = ap (λ r. r.1) k
    go a draft e k = absurd (cc e)
    go a in_progress e k = absurd (cc e)
    go a cancelled e k = absurd (cc e)
    go a completed e k = absurd (cc e)

-- Neither the notification nor the audit entry changed the tables.
pub told_db :
    (prev current : Maintenance) (action : Action) (u v z : World)
    → current.status ≡ planned
    → dispatch_maint_lifecycle prev current u ≡ (ok tt, v)
    → publish_audit action v ≡ (ok tt, z)
    → z.db ≡ u.db
told_db prev current action u v z at_planned sent audited =
    ap (λ r. r.1.db) (sym audited)
    ∙ sym (Respects-publish_audit Same (λ d. refl) (λ a b c p q. p ∙ q) action v)
    ∙ ap (λ x. x.db) (sym (quiet_dispatch prev current u v at_planned sent))
