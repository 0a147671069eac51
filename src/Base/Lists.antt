-- ===== src/Base/Lists.antt =====
-- Lists over the native numbers, with Boolean predicates.
use Prim.Native.Nat.{ℕ, zero, suc, ◌≤◌}
use mathlib.Core.Bool.{Bool, true, false, ◌||◌, ◌&&◌}
use mathlib.Core.Option.{Option, none, some}
use mathlib.Core.List.{List, [], ◌∷◌, map}
use mathlib.Core.Path.{◌≡◌, subst}
use mathlib.Core.Logic.{inl, inr}
use native.Mathlib.Omega.{arith}
use maintmode.Base.Tests.{◌==◌, if◌then◌else◌, Bool-cases}

module _ {ℓ} {A : Type ℓ} where
  abbrev pub length : List A → ℕ
  length [] = 0
  length (x ∷ xs) = suc (length xs)

  abbrev pub take : ℕ → List A → List A
  take zero xs = []
  take (suc n) [] = []
  take (suc n) (x ∷ xs) = x ∷ take n xs

  abbrev pub filter : (A → Bool) → List A → List A
  filter p [] = []
  filter p (x ∷ xs) = let rest = filter p xs in if p x then x ∷ rest else rest

  -- The first element that passes the test.
  abbrev pub find : (A → Bool) → List A → Option A
  find p [] = none
  find p (x ∷ xs) = let rest = find p xs in if p x then some x else rest

  abbrev pub any : (A → Bool) → List A → Bool
  any p [] = false
  any p (x ∷ xs) = p x || any p xs

  abbrev pub all : (A → Bool) → List A → Bool
  all p [] = true
  all p (x ∷ xs) = p x && all p xs

  -- Every element satisfies the predicate.
  abbrev pub All {κ} : (A → Type κ) → List A → Type κ
  All P [] = Unit
  All P (x ∷ xs) = P x × All P xs

  -- An element of a list, by its place in it.
  pub data Member (x : A) : List A → Type ℓ where
    here : {xs : List A} → Member x (x ∷ xs)
    there : {y : A} {xs : List A} → Member x xs → Member x (y ∷ xs)

  pub length-take-le : (n : ℕ) (xs : List A) → length (take n xs) ≤ n
  length-take-le zero xs = omega arith
  length-take-le (suc n) [] = omega arith
  length-take-le (suc n) (x ∷ xs) = omega (arith, length-take-le n xs)

-- Membership of a number.
abbrev pub contains : ℕ → List ℕ → Bool
contains a xs = any (λ b. b == a) xs

-- `lo.Uniq`: the first occurrence of each value, in the order met; `seen` holds those met so far.
abbrev pub uniq_from : List ℕ → List ℕ → List ℕ
uniq_from seen [] = []
uniq_from seen (x ∷ xs) =
    let rest = uniq_from seen xs in
    let next = x ∷ uniq_from (x ∷ seen) xs in if contains x seen then rest else next

abbrev pub uniq : List ℕ → List ℕ
uniq xs = uniq_from [] xs

module _ {ℓ κ ι} {A : Type ℓ} (P : A → Type κ) (Q : A → Type ι) where
  pub All-map : (g : A → A) (xs : List A) → ((x : A) → P x → Q (g x)) → All P xs → All Q (map g xs)
  All-map g [] h all_p = tt
  All-map g (x ∷ xs) h (p, all_p) = (h x p, All-map g xs h all_p)

  pub All-filter :
      (kept : A → Bool) (xs : List A) → ((x : A) → P x → Q x) → All P xs → All Q (filter kept xs)
  All-filter kept [] h all_p = tt
  All-filter kept (x ∷ xs) h (p, all_p) =
      let rest = All-filter kept xs h all_p in
      elim (Bool-cases (kept x)) [ inl stays ↦ rw stays (h x p, rest) | inr gone ↦ rw gone rest ]

  pub All-Member : (x : A) (xs : List A) → ((x : A) → P x → Q x) → Member x xs → All P xs → Q x
  All-Member x [] h m all_p = elim m [ ]
  All-Member x (y ∷ xs) h here (p, all_p) = h x p
  All-Member x (y ∷ xs) h (there m) (p, all_p) = All-Member x xs h m all_p

pub All-weaken {ℓ κ ι} :
    {A : Type ℓ} {P : A → Type κ} {Q : A → Type ι} (xs : List A)
    → ((x : A) → P x → Q x)
    → All P xs
    → All Q xs
All-weaken [] h all_p = tt
All-weaken (x ∷ xs) h (p, all_p) = (h x p, All-weaken xs h all_p)

-- What a search found is there, and passes the test.
pub find-Member {ℓ} :
    {A : Type ℓ} (p : A → Bool) (xs : List A) {x : A}
    → find p xs ≡ some x
    → Member x xs × (p x ≡ true)
find-Member p [] h = absurd (cc h)
find-Member p (y ∷ xs) {x} h =
    let later = find-Member p xs {x = x} in
    elim (Bool-cases (p y)) [
      | inl passes ↦
          let same : some y ≡ some x = rw passes at h in
          let e : y ≡ x = cc same in
          (subst (λ z. Member z (y ∷ xs)) e here, subst (λ z. p z ≡ true) e passes)
      | inr fails ↦ let (m, q) = later (rw fails at h) in (there m, q)
    ]
