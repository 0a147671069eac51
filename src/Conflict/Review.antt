-- ===== src/Conflict/Review.antt =====
-- Which conflicts of a card are marked as seen by the approver (entity/conflict.go,
-- services/conflicts/mark_approval_state.go).
use maintmode.Base.{ℕ, ◌≡◌, refl, List, [], ◌∷◌, map, All, contains}
use maintmode.Entity.Conflict.{ConflictWithResources}
use maintmode.Conflict.Approval.{
  mark_known, mark_known_at_approval, sort_conflicts, compare_for_card,
}
use maintmode.Base.Sorted.{All-sort_func}

abbrev pub seen : List ConflictWithResources → List ℕ
seen snapshot = map (λ (k : ConflictWithResources). k.maintenance_id) snapshot

-- The flag of a conflict says whether its maintenance is among the ids.
abbrev pub Flagged : List ℕ → ConflictWithResources → Type 0
Flagged ids c = c.known_at_approval ≡ contains c.maintenance_id ids

map_mark :
    (known : List ℕ) (live : List ConflictWithResources)
    → All (Flagged known) (map (mark_known known) live)
unfolding mark_known
map_mark known [] = tt
map_mark known (c ∷ live) = (refl, map_mark known live)

mark_known_at_approval-Flagged :
    (live snapshot : List ConflictWithResources)
    → All (Flagged []) live
    → All (Flagged (seen snapshot)) (mark_known_at_approval live snapshot)
unfolding mark_known_at_approval
mark_known_at_approval-Flagged [] snapshot fresh = tt
mark_known_at_approval-Flagged (c ∷ live) [] fresh = fresh
mark_known_at_approval-Flagged (c ∷ live) (s ∷ snapshot) fresh =
    map_mark (seen (s ∷ snapshot)) (c ∷ live)

-- On the card, a conflict is marked as known exactly when the snapshot of the approval has its
-- maintenance, provided that the conflicts come unmarked.
pub review-Flagged :
    (live snapshot : List ConflictWithResources)
    → All (Flagged []) live
    → All (Flagged (seen snapshot)) (sort_conflicts (mark_known_at_approval live snapshot))
unfolding sort_conflicts
review-Flagged live snapshot fresh =
    All-sort_func _ compare_for_card (mark_known_at_approval live snapshot)
      (mark_known_at_approval-Flagged live snapshot fresh)
