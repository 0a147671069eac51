-- ===== src/Conflict/Found.antt =====
-- Which maintenances a conflict query finds, and what it reports of them
-- (internal/storages/conflicts/conflicted_maints.go).
use maintmode.Base.{
  both_true, ℕ, ◌≤◌, ◌<◌, ◌≡◌, ◌≢◌, ◌⊎◌, inl, inr, refl, sym, ap, subst, ◌∙◌, true, false, not,
  ◌||◌, List, ◌==◌, ==→≡, ==_self, Bool-cases, Member,
}
use mathlib.Core.Logic.{◌↔◌}
use maintmode.Base.Members.{Member-filter, filter-Member, Member-map, map-Member}
use maintmode.World.Errors.{ok, data_exception}
use maintmode.World.Tables.{World, Db, MaintenanceRow}
use maintmode.World.Effect.{call}
use maintmode.World.Effect.Invert.{bind_ok, call_ok, guard_ok, Answered-db}
use maintmode.Entity.Maint.{MaintenanceStatus, planned, in_progress, status_eq}
use maintmode.Entity.Period.{new_period, range, at}
use maintmode.Entity.Conflict.{Conflict}
use maintmode.Entity.Commands.{ConflictQueryCmd}
use maintmode.Store.Conflicts.{
  overlaps, overlap_period, is_conflicted, from_db_conflict, conflicted_rows, conflicted_maints,
  query_range, is_no_range,
}
use maintmode.Conflict.Overlap.{
  InRange, Reported, overlaps-shared, shared-overlaps, reported-shared,
}
use maintmode.Conflict.Scope.{Scoped, scopes_collide-Scoped, Scoped-scopes_collide}

-- The row is one that collides with the maintenance of the command, planned from `s` to `e`.
pub record Collides (cmd : ConflictQueryCmd) (s e : ℕ) (db : Db) (m : MaintenanceRow) : Type 0 where
  pub stored : Member m db.maintenances
  pub other : m.id ≢ cmd.maint_id
  pub active : (m.status ≡ planned) ⊎ (m.status ≡ in_progress)
  pub shared : (t : ℕ) × (InRange m.planned_period t × ((s ≤ t) × (t < e)))
  pub scoped : Scoped cmd db.maintenance_resources m

-- The conflict names the row, and reports the time that the two have in common.
pub record Names (s e : ℕ) (m : MaintenanceRow) (c : Conflict) : Type 0 where
  pub same_id : c.maintenance_id ≡ m.id
  pub same_title : c.title ≡ m.title
  pub same_scope : c.scope ≡ m.scope
  pub same_time : (t : ℕ) → Reported c t ↔ (InRange m.planned_period t × ((s ≤ t) × (t < e)))

active_status :
    (s : MaintenanceStatus)
    → (status_eq s planned || status_eq s in_progress) ≡ true
    → (s ≡ planned) ⊎ (s ≡ in_progress)
active_status planned h = inl refl
active_status in_progress h = inr refl
active_status _ h = absurd (cc h)

module _ (cmd : ConflictQueryCmd) (db : Db) where
  abbrev Planned : ℕ → ℕ → Type 0
  Planned s e = cmd.planned_period ≡ new_period s e

  query_range_lem : (s e : ℕ) → Planned s e → query_range cmd.planned_period ≡ range (at s) (at e)
  query_range_lem s e at_p = ap query_range at_p

  is_conflicted-Collides :
      (s e : ℕ) (m : MaintenanceRow)
      → Planned s e
      → Member m db.maintenances
      → is_conflicted cmd db.maintenance_resources m ≡ true
      → Collides cmd s e db m
  unfolding is_conflicted
  is_conflicted-Collides s e m at_p stored h =
      let (other, h₁) = both_true (not (m.id == cmd.maint_id)) _ h in
      let (active, h₂) =
        both_true (status_eq m.status planned || status_eq m.status in_progress) _ h₁ in
      let (meets, scoped) =
        both_true (overlaps m.planned_period (query_range cmd.planned_period)) _ h₂ in
      record {
        stored = stored;
        other = λ same. absurd (cc (==_self cmd.maint_id, same, other));
        active = active_status m.status active;
        shared = overlaps-shared s e m.planned_period (rw (query_range_lem s e at_p) at meets);
        scoped = scopes_collide-Scoped cmd db.maintenance_resources m scoped;
      }

  active_true :
      (st : MaintenanceStatus)
      → (st ≡ planned) ⊎ (st ≡ in_progress)
      → (status_eq st planned || status_eq st in_progress) ≡ true
  active_true st (inl e) = rw e refl
  active_true st (inr e) = rw e refl

  overlaps_asked :
      (s e : ℕ) (m : MaintenanceRow)
      → Planned s e
      → Collides cmd s e db m
      → overlaps m.planned_period (query_range cmd.planned_period) ≡ true
  overlaps_asked s e m at_p h =
      let (t, (a, b)) = h.shared in
      rw (query_range_lem s e at_p) (shared-overlaps s e m.planned_period t a b)

  Collides-is_conflicted :
      (s e : ℕ) (m : MaintenanceRow)
      → Planned s e
      → Collides cmd s e db m
      → is_conflicted cmd db.maintenance_resources m ≡ true
  unfolding is_conflicted
  Collides-is_conflicted s e m at_p h =
      let apart : (m.id == cmd.maint_id) ≡ false = elim (Bool-cases (m.id == cmd.maint_id)) [
        | inl same ↦ absurd (h.other (==→≡ m.id cmd.maint_id same))
        | inr not_same ↦ not_same
      ] in
      rw
        (
          apart,
          active_true m.status h.active,
          overlaps_asked s e m at_p h,
          Scoped-scopes_collide cmd db.maintenance_resources m h.scoped,
        )
        refl

  abbrev reported : MaintenanceRow → Conflict
  reported m = from_db_conflict m (overlap_period m.planned_period (query_range cmd.planned_period))

  reported-Names :
      (s e : ℕ) (m : MaintenanceRow)
      → Planned s e
      → Collides cmd s e db m
      → Names s e m (reported m)
  unfolding from_db_conflict
  reported-Names s e m at_p h =
      let meets : overlaps m.planned_period (range (at s) (at e)) ≡ true =
        rw (query_range_lem s e at_p) at (overlaps_asked s e m at_p h) in
      rw (query_range_lem s e at_p) (record {
        same_id = refl;
        same_title = refl;
        same_scope = refl;
        same_time = λ t. reported-shared s e m m.planned_period t meets;
      })

conflicted_maints_ok :
    (cmd : ConflictQueryCmd) (w v : World) (cs : List Conflict)
    → conflicted_maints cmd w ≡ (ok cs, v)
    → cs ≡ conflicted_rows cmd w.db
unfolding conflicted_maints
conflicted_maints_ok cmd w v cs h =
    let (_, u, called, rest) = bind_ok (call w) _ h in
    let (_, last) = guard_ok (is_no_range cmd.planned_period) data_exception u _ rest in
    sym (cc last) ∙ ap (conflicted_rows cmd) (Answered-db (call_ok w called))

-- If the maintenance of the command is planned from `s` to `e`, each conflict that the query returns
-- names a stored maintenance, other than that one, planned or in progress, that has an instant in
-- common with it and of which one has global scope or both share a resource; and the times
-- reported are those that the two have in common.
pub conflicted_maints-Collides :
    (cmd : ConflictQueryCmd) (s e : ℕ) (w v : World) (cs : List Conflict) (c : Conflict)
    → cmd.planned_period ≡ new_period s e
    → conflicted_maints cmd w ≡ (ok cs, v)
    → Member c cs
    → (m : MaintenanceRow) × (Collides cmd s e w.db m × Names s e m c)
unfolding conflicted_rows
conflicted_maints-Collides cmd s e w v cs c at_p h k =
    let found = subst (Member c) (conflicted_maints_ok cmd w v cs h) k in
    let (m, held, is_c) = Member-map (reported cmd w.db) c _ found in
    let (stored, hit) =
      Member-filter (is_conflicted cmd w.db.maintenance_resources) m w.db.maintenances held in
    let collides = is_conflicted-Collides cmd w.db s e m at_p stored hit in
    (m, (collides, subst (Names s e m) is_c (reported-Names cmd w.db s e m at_p collides)))

-- If the maintenance of the command is planned from `s` to `e`, the query returns a conflict for
-- every stored maintenance, other than that one, planned or in progress, that has an instant in
-- common with it and of which one has global scope or both share a resource; and the times
-- reported are those that the two have in common.
pub conflicted_maints-Names :
    (cmd : ConflictQueryCmd) (s e : ℕ) (w v : World) (cs : List Conflict) (m : MaintenanceRow)
    → cmd.planned_period ≡ new_period s e
    → conflicted_maints cmd w ≡ (ok cs, v)
    → Collides cmd s e w.db m
    → (c : Conflict) × (Member c cs × Names s e m c)
unfolding conflicted_rows
conflicted_maints-Names cmd s e w v cs m at_p h collides =
    let hit = Collides-is_conflicted cmd w.db s e m at_p collides in
    let held = map-Member (reported cmd w.db) m _ (
      filter-Member (is_conflicted cmd w.db.maintenance_resources) m w.db.maintenances
        collides.stored hit) in
    (
      reported cmd w.db m,
      (
        subst (Member (reported cmd w.db m)) (sym (conflicted_maints_ok cmd w v cs h)) held,
        reported-Names cmd w.db s e m at_p collides,
      ),
    )
