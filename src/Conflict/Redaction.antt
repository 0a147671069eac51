-- ===== src/Conflict/Redaction.antt =====
-- What the fingerprint of a set of conflicts does not see (entity/conflict.go).
use maintmode.Base.{
  ℕ, String, ◌≡◌, refl, ap, inl, inr, false, List, [], ◌∷◌, map, Bool-cases, filter, contains,
  Member,
}
use maintmode.Base.Members.{contains-Member}
use maintmode.Entity.Conflict.{ConflictWithResources}
use maintmode.Conflict.Fingerprint.{project, conflict_fingerprint, conflict_fingerprint_for}
use maintmode.Conflict.Approval.{mark_known, mark_known_at_approval}

-- Two lists of resources that differ only in resources which are not among `own`.
pub data SameShared (own : List ℕ) : List ℕ → List ℕ → Type 0 where
  both_end : SameShared own [] []
  both_have : {id : ℕ} {xs ys : List ℕ} → SameShared own xs ys → SameShared own (id ∷ xs) (id ∷ ys)
  left_hides :
      {id : ℕ} {xs ys : List ℕ}
      → (Member id own → ⊥)
      → SameShared own xs ys
      → SameShared own (id ∷ xs) ys
  right_hides :
      {id : ℕ} {xs ys : List ℕ}
      → (Member id own → ⊥)
      → SameShared own xs ys
      → SameShared own xs (id ∷ ys)

-- The same conflicts, in the same order, with the same shared resources.
pub data Alike (own : List ℕ)
    : List ConflictWithResources → List ConflictWithResources → Type 0 where
  alike_end : Alike own [] []
  alike_next :
      {c d : ConflictWithResources} {cs ds : List ConflictWithResources}
      → c.conflict ≡ d.conflict
      → SameShared own c.resources d.resources
      → Alike own cs ds
      → Alike own (c ∷ cs) (d ∷ ds)

not_shared : (id : ℕ) (own : List ℕ) → (Member id own → ⊥) → contains id own ≡ false
not_shared id own absent = elim (Bool-cases (contains id own)) [
  | inl present ↦ absurd (absent (contains-Member id own present))
  | inr missing ↦ missing
]

shared_filter :
    (own : List ℕ) {xs ys : List ℕ}
    → SameShared own xs ys
    → filter (λ id. contains id own) xs ≡ filter (λ id. contains id own) ys
shared_filter own both_end = refl
shared_filter own (both_have {id} s) =
    let rest = shared_filter own s in
    elim (Bool-cases (contains id own)) [
      | inl present ↦ rw present (ap (λ zs. id ∷ zs) rest)
      | inr missing ↦ rw missing rest
    ]
shared_filter own (left_hides {id} absent s) = rw (not_shared id own absent) (shared_filter own s)
shared_filter own (right_hides {id} absent s) = rw (not_shared id own absent) (shared_filter own s)

project-Alike :
    (own : List ℕ) {cs ds : List ConflictWithResources}
    → Alike own cs ds
    → map (project own) cs ≡ map (project own) ds
unfolding project
project-Alike own alike_end = refl
project-Alike own (alike_next same shared rest) =
    rw (same, shared_filter own shared, project-Alike own rest) refl

project-mark_known :
    (own known : List ℕ) (cs : List ConflictWithResources)
    → map (project own) (map (mark_known known) cs) ≡ map (project own) cs
unfolding project mark_known
project-mark_known own known [] = refl
project-mark_known own known (c ∷ cs) = rw (project-mark_known own known cs) refl

module _ (sha256_hex : List ℕ → String) (own : List ℕ) where
  -- The fingerprint does not depend on resources that the conflicts do not share with the
  -- maintenance: a reader who is shown none of them, or others, computes the same one.
  pub conflict_fingerprint_for-Alike :
      (cs ds : List ConflictWithResources)
      → Alike own cs ds
      → conflict_fingerprint_for sha256_hex cs own ≡ conflict_fingerprint_for sha256_hex ds own
  unfolding conflict_fingerprint_for
  conflict_fingerprint_for-Alike cs ds alike =
      ap (conflict_fingerprint sha256_hex) (project-Alike own alike)

  -- Marking the conflicts that an approver has seen does not change the fingerprint.
  pub conflict_fingerprint_for-mark_known :
      (live snapshot : List ConflictWithResources)
      → conflict_fingerprint_for sha256_hex (mark_known_at_approval live snapshot) own
        ≡ conflict_fingerprint_for sha256_hex live own
  unfolding conflict_fingerprint_for mark_known_at_approval
  conflict_fingerprint_for-mark_known [] snapshot = refl
  conflict_fingerprint_for-mark_known (c ∷ live) [] = refl
  conflict_fingerprint_for-mark_known (c ∷ live) (s ∷ snapshot) =
      ap (conflict_fingerprint sha256_hex) (
        project-mark_known own
          (map (λ (k : ConflictWithResources). k.maintenance_id) (s ∷ snapshot)) (c ∷ live))
