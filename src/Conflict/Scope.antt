-- ===== src/Conflict/Scope.antt =====
-- Whether the scopes of two maintenances collide, as the conflict queries test it
-- (internal/storages/conflicts/conflicted_maints.go).
use maintmode.Base.{
  both_true, ℕ, ◌≡◌, inl, inr, refl, true, ◌&&◌, ◌||◌, List, [], ◌∷◌, contains, ltb, ◌==◌, ==→≡,
  ==_self, Bool-cases, Member, arith, length,
}
use maintmode.Base.Members.{any-Member, Member-any, contains-Member, Member-contains}
use maintmode.World.Tables.{MaintenanceRow, ResourceLink}
use maintmode.Entity.Maint.{MaintenanceScope, global, resources, scope_eq}
use maintmode.Entity.Commands.{ConflictQueryCmd}
use maintmode.Store.Conflicts.{touches_any, scopes_collide}

-- One of the two has global scope, or both have resources and share one.
pub data Scoped (cmd : ConflictQueryCmd) (links : List ResourceLink) (m : MaintenanceRow)
    : Type 0 where
  is_global : cmd.scope ≡ global → Scoped cmd links m
  meets_global : m.scope ≡ global → Scoped cmd links m
  shares :
      (l : ResourceLink)
      → cmd.scope ≡ resources
      → m.scope ≡ resources
      → Member l links
      → l.maintenance_id ≡ m.id
      → Member l.resource_id cmd.resource_ids
      → Scoped cmd links m

touched :
    (cmd : ConflictQueryCmd) (links : List ResourceLink) (m : MaintenanceRow)
    → cmd.scope ≡ resources
    → m.scope ≡ resources
    → touches_any links m.id cmd.resource_ids ≡ true
    → Scoped cmd links m
unfolding touches_any
touched cmd links m own its h =
    let (l, k, both) = any-Member _ links h in
    let (same, held) = both_true (l.maintenance_id == m.id) _ both in
    shares l own its k (==→≡ l.maintenance_id m.id same)
      (contains-Member l.resource_id cmd.resource_ids held)

pub scopes_collide-Scoped :
    (cmd : ConflictQueryCmd) (links : List ResourceLink) (m : MaintenanceRow)
    → scopes_collide links cmd.scope cmd.resource_ids m ≡ true
    → Scoped cmd links m
unfolding scopes_collide
scopes_collide-Scoped cmd links m h = go cmd.scope m.scope refl refl h
  where
    go :
        (a b : MaintenanceScope)
        → cmd.scope ≡ a
        → m.scope ≡ b
        → ((scope_eq a global || scope_eq b global)
            || (ltb 0 (length cmd.resource_ids)
                && (scope_eq a resources
                    && (scope_eq b resources && touches_any links m.id cmd.resource_ids))))
          ≡ true
        → Scoped cmd links m
    go global b own its k = is_global own
    go resources global own its k = meets_global its
    go resources resources own its k =
        touched cmd links m own its (both_true (ltb 0 (length cmd.resource_ids)) _ k).1

some_resource : (id : ℕ) (ids : List ℕ) → Member id ids → ltb 0 (length ids) ≡ true
some_resource id [] m = elim m [ ]
some_resource id (x ∷ ids) m = ground arith

pub Scoped-scopes_collide :
    (cmd : ConflictQueryCmd) (links : List ResourceLink) (m : MaintenanceRow)
    → Scoped cmd links m
    → scopes_collide links cmd.scope cmd.resource_ids m ≡ true
unfolding scopes_collide touches_any
Scoped-scopes_collide cmd links m (is_global own) = rw own refl
Scoped-scopes_collide cmd links m (meets_global its) =
    elim (Bool-cases (scope_eq cmd.scope global)) [
      | inl own ↦ rw own refl
      | inr not_own ↦ rw (not_own, its) refl
    ]
Scoped-scopes_collide cmd links m (shares l own its k at_m held) =
    let touches : touches_any links m.id cmd.resource_ids ≡ true =
      Member-any
        (λ (l : ResourceLink). l.maintenance_id == m.id && contains l.resource_id cmd.resource_ids)
        l links k
        (rw (at_m, ==_self m.id, Member-contains l.resource_id cmd.resource_ids held) refl) in
    rw (own, its, some_resource l.resource_id cmd.resource_ids held, touches) refl
