-- ===== src/Base/Sorting.antt =====
-- `slices.SortFunc`: sorting by a three-way comparison. The library's sort is not stable; this one
-- is, so the two agree wherever the comparison tells the elements apart.
use Prim.Native.Nat.{Ordering}
use mathlib.Core.Bool.{Bool, true, false}
use mathlib.Core.List.{List, [], ◌∷◌}
use maintmode.Base.Tests.{if◌then◌else◌}

abbrev pub not_gt : Ordering → Bool
not_gt Ordering.gt = false
not_gt _ = true

module _ {ℓ} {A : Type ℓ} (cmp : A → A → Ordering) where
  unfoldable pub insert_sorted : A → List A → List A
  insert_sorted x [] = x ∷ []
  insert_sorted x (y ∷ ys) = if not_gt (cmp x y) then x ∷ y ∷ ys else y ∷ insert_sorted x ys

  unfoldable pub sort_func : List A → List A
  unfolding insert_sorted
  sort_func [] = []
  sort_func (x ∷ xs) = insert_sorted x (sort_func xs)
