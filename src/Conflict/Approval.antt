-- ===== src/Conflict/Approval.antt =====
-- `MarkKnownAtApproval` and `SortConflicts` of internal/entity/conflict.go.
use maintmode.Base.{ℕ, Bool, true, false, List, [], ◌∷◌, map, contains, compare, Ordering}
use maintmode.Base.Sorting.{sort_func}
use maintmode.Entity.Conflict.{ConflictWithResources}
use maintmode.Conflict.Fingerprint.{and_then}

unfoldable pub mark_known : List ℕ → ConflictWithResources → ConflictWithResources
mark_known known c = record c { known_at_approval = contains c.maintenance_id known }

-- With no live conflict, or no snapshot, nothing is touched.
unfoldable pub mark_known_at_approval :
    List ConflictWithResources → List ConflictWithResources → List ConflictWithResources
unfolding mark_known
mark_known_at_approval [] snapshot = []
mark_known_at_approval (c ∷ live) [] = c ∷ live
mark_known_at_approval (c ∷ live) (s ∷ snapshot) =
    map (mark_known (map (λ (k : ConflictWithResources). k.maintenance_id) (s ∷ snapshot)))
      (c ∷ live)

-- `false` comes before `true`.
abbrev compare_known : Bool → Bool → Ordering
compare_known false true = Ordering.lt
compare_known true false = Ordering.gt
compare_known _ _ = Ordering.eq

unfoldable pub compare_for_card : ConflictWithResources → ConflictWithResources → Ordering
compare_for_card c d =
    and_then (compare_known c.known_at_approval d.known_at_approval) (
      and_then (compare c.overlap_start d.overlap_start)
        (compare c.maintenance_id d.maintenance_id))

-- `SortConflicts`
unfoldable pub sort_conflicts : List ConflictWithResources → List ConflictWithResources
unfolding sort_func compare_for_card
sort_conflicts conflicts = sort_func compare_for_card conflicts
