-- ===== src/Base/Sorted.antt =====
-- What sorting and cutting a list keep: its elements, a property of all of them, and, for a sort by
-- a number, the order.
use Prim.Native.Nat.{ℕ, zero, suc, ◌≤◌, compare, Ordering}
use mathlib.Core.List.{List, [], ◌∷◌}
use mathlib.Core.Path.{◌≡◌, refl, ap, subst, sym}
use mathlib.Core.Logic.{inl, inr, ◌⊎◌}
use native.Mathlib.Omega.{arith}
use maintmode.Base.Tests.{Bool-cases}
use maintmode.Base.Lists.{take, length, All, All-weaken, All-Member, Member, here, there}
use maintmode.Base.Members.{Member-cases}
use maintmode.Base.Sorting.{insert_sorted, sort_func, not_gt}

module _ {ℓ} {A : Type ℓ} (P : A → Type 0) where
  pub All-take : (n : ℕ) (xs : List A) → All P xs → All P (take n xs)
  All-take zero xs h = tt
  All-take (suc n) [] h = tt
  All-take (suc n) (x ∷ xs) (p, h) = (p, All-take n xs h)

  All-insert_sorted :
      (cmp : A → A → Ordering) (x : A) (xs : List A)
      → P x
      → All P xs
      → All P (insert_sorted cmp x xs)
  unfolding insert_sorted
  All-insert_sorted cmp x [] p h = (p, tt)
  All-insert_sorted cmp x (y ∷ ys) p (q, h) =
      let rest = All-insert_sorted cmp x ys p h in
      elim (Bool-cases (not_gt (cmp x y))) [
        | inl first ↦ rw first (p, (q, h))
        | inr after ↦ rw after (q, rest)
      ]

  pub All-sort_func : (cmp : A → A → Ordering) (xs : List A) → All P xs → All P (sort_func cmp xs)
  unfolding sort_func
  All-sort_func cmp [] h = tt
  All-sort_func cmp (x ∷ xs) (p, h) =
      All-insert_sorted cmp x (sort_func cmp xs) p (All-sort_func cmp xs h)

module _ {ℓ} {A : Type ℓ} where
  pub Member-take : (n : ℕ) (r : A) (xs : List A) → Member r (take n xs) → Member r xs
  Member-take zero r xs m = elim m [ ]
  Member-take (suc n) r [] m = elim m [ ]
  Member-take (suc n) r (x ∷ xs) m = elim (Member-cases r x (take n xs) m) [
    | inl e ↦ subst (λ z. Member r (z ∷ xs)) (sym e) here
    | inr k ↦ there (Member-take n r xs k)
  ]

  module _ (cmp : A → A → Ordering) where
    Member-insert_sorted :
        (r x : A) (xs : List A) → Member r (insert_sorted cmp x xs) → Member r (x ∷ xs)
    unfolding insert_sorted
    Member-insert_sorted r x [] m = m
    Member-insert_sorted r x (y ∷ ys) m =
        let later = Member-insert_sorted r x ys in
        elim (Bool-cases (not_gt (cmp x y))) [
          | inl first ↦ rw first at m
          | inr after ↦ elim (Member-cases r y (insert_sorted cmp x ys) (rw after at m)) [
            | inl e ↦ subst (λ z. Member r (x ∷ z ∷ ys)) (sym e) (there here)
            | inr k ↦ elim (Member-cases r x ys (later k)) [
              | inl e ↦ subst (λ z. Member r (z ∷ y ∷ ys)) (sym e) here
              | inr j ↦ there (there j)
            ]
          ]
        ]

    insert_sorted-Member :
        (r x : A) (xs : List A) → (x ≡ r) ⊎ Member r xs → Member r (insert_sorted cmp x xs)
    unfolding insert_sorted
    insert_sorted-Member r x [] (inl e) = subst (λ z. Member r (z ∷ [])) (sym e) here
    insert_sorted-Member r x [] (inr m) = elim m [ ]
    insert_sorted-Member r x (y ∷ ys) h =
        let later = insert_sorted-Member r x ys in
        elim (Bool-cases (not_gt (cmp x y))) [
          | inl first ↦
              rw first (elim h [
                | inl e ↦ subst (λ z. Member r (z ∷ y ∷ ys)) (sym e) here
                | inr m ↦ there m
              ])
          | inr after ↦ rw after (elim h [
            | inl e ↦ there (later (inl e))
            | inr m ↦ elim (Member-cases r y ys m) [
              | inl e ↦ subst (λ z. Member r (z ∷ insert_sorted cmp x ys)) (sym e) here
              | inr k ↦ there (later (inr k))
            ]
          ])
        ]

    pub Member-sort_func : (r : A) (xs : List A) → Member r (sort_func cmp xs) → Member r xs
    unfolding sort_func
    Member-sort_func r [] m = m
    Member-sort_func r (x ∷ xs) m =
        elim (Member-cases r x (sort_func cmp xs) (Member-insert_sorted r x (sort_func cmp xs) m)) [
          | inl e ↦ subst (λ z. Member r (z ∷ xs)) (sym e) here
          | inr k ↦ there (Member-sort_func r xs k)
        ]

    pub sort_func-Member : (r : A) (xs : List A) → Member r xs → Member r (sort_func cmp xs)
    unfolding sort_func
    sort_func-Member r [] m = m
    sort_func-Member r (x ∷ xs) m =
        insert_sorted-Member r x (sort_func cmp xs)
          (elim (Member-cases r x xs m) [ inl e ↦ inl e | inr k ↦ inr (sort_func-Member r xs k) ])

  module _ (key : A → ℕ) where
    abbrev pub by_key : A → A → Ordering
    by_key a b = compare (key a) (key b)

    abbrev Ascending : List A → Type 0
    Ascending [] = Unit
    Ascending (x ∷ xs) = All (λ y. key x ≤ key y) xs × Ascending xs

    insert_sorted-Ascending :
        (x : A) (xs : List A) → Ascending xs → Ascending (insert_sorted by_key x xs)
    unfolding insert_sorted
    insert_sorted-Ascending x [] h = (tt, tt)
    insert_sorted-Ascending x (y ∷ ys) (le, h) =
        let later = insert_sorted-Ascending x ys h in
        elim (Bool-cases (not_gt (by_key x y))) [
          | inl first ↦
              let x_y : key x ≤ key y = ground arith in
              rw first (((x_y, All-weaken ys (λ z q. omega (arith, x_y, q)) le)), (le, h))
          | inr after ↦
              let y_x : key y ≤ key x = ground arith in
              rw after (All-insert_sorted (λ z. key y ≤ key z) by_key x ys y_x le, later)
        ]

    pub sort_func-Ascending : (xs : List A) → Ascending (sort_func by_key xs)
    unfolding sort_func
    sort_func-Ascending [] = tt
    sort_func-Ascending (x ∷ xs) =
        insert_sorted-Ascending x (sort_func by_key xs) (sort_func-Ascending xs)

    -- An element of a sorted list is among the first `n`, or these are `n`, none of them later.
    pub taken :
        (n : ℕ) (r : A) (xs : List A)
        → Ascending xs
        → Member r xs
        → Member r (take n xs) ⊎ ((length (take n xs) ≡ n) × All (λ g. key g ≤ key r) (take n xs))
    taken zero r xs h m = inr (refl, tt)
    taken (suc n) r [] h m = elim m [ ]
    taken (suc n) r (x ∷ xs) (le, h) m = elim (Member-cases r x xs m) [
      | inl e ↦ inl (subst (λ z. Member r (z ∷ take n xs)) (sym e) here)
      | inr k ↦ elim (taken n r xs h k) [
        | inl j ↦ inl (there j)
        | inr full ↦ inr (ap suc full.0, (All-Member _ _ r xs (λ z q. q) k le, full.1))
      ]
    ]
