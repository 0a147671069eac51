-- ===== src/Base/Members.antt =====
-- The elements of a list: what a filter, a map and a Boolean search say of them.
use Prim.Native.Nat.{ℕ}
use mathlib.Core.Bool.{Bool, true}
use mathlib.Core.List.{List, [], ◌∷◌, map}
use mathlib.Core.Path.{◌≡◌, refl, subst}
use mathlib.Core.Logic.{inl, inr, ◌⊎◌}
use maintmode.Base.Tests.{◌==◌, ==→≡, ==_self, Bool-cases}
use maintmode.Base.Lists.{filter, any, contains, Member, here, there}

module _ {ℓ} {A : Type ℓ} where
  pub Member-cases : (x y : A) (xs : List A) → Member x (y ∷ xs) → (y ≡ x) ⊎ Member x xs
  Member-cases x y xs here = inl refl
  Member-cases x y xs (there m) = inr m

  module _ (p : A → Bool) where
    pub Member-filter : (x : A) (xs : List A) → Member x (filter p xs) → Member x xs × (p x ≡ true)
    Member-filter x [] m = elim m [ ]
    Member-filter x (y ∷ xs) m =
        let later = Member-filter x xs in
        elim (Bool-cases (p y)) [
          | inl kept ↦ elim (Member-cases x y (filter p xs) (rw kept at m)) [
            | inl e ↦ (subst (λ z. Member z (y ∷ xs)) e here, subst (λ z. p z ≡ true) e kept)
            | inr n ↦ let (k, q) = later n in (there k, q)
          ]
          | inr gone ↦ let (k, q) = later (rw gone at m) in (there k, q)
        ]

    pub filter-Member : (x : A) (xs : List A) → Member x xs → p x ≡ true → Member x (filter p xs)
    filter-Member x [] m q = elim m [ ]
    filter-Member x (y ∷ xs) here q = rw q here
    filter-Member x (y ∷ xs) (there m) q =
        let rest = filter-Member x xs m q in
        elim (Bool-cases (p y)) [ inl kept ↦ rw kept (there rest) | inr gone ↦ rw gone rest ]

    pub any-Member : (xs : List A) → any p xs ≡ true → (x : A) × Member x xs × (p x ≡ true)
    any-Member [] h = absurd (cc h)
    any-Member (y ∷ xs) h =
        let later = any-Member xs in
        elim (Bool-cases (p y)) [
          | inl hit ↦ (y, here, hit)
          | inr miss ↦ let (x, m, q) = later (rw miss at h) in (x, there m, q)
        ]

    pub Member-any : (x : A) (xs : List A) → Member x xs → p x ≡ true → any p xs ≡ true
    Member-any x [] m q = elim m [ ]
    Member-any x (y ∷ xs) here q = rw q refl
    Member-any x (y ∷ xs) (there m) q =
        let rest = Member-any x xs m q in
        elim (Bool-cases (p y)) [ inl hit ↦ rw hit refl | inr miss ↦ rw miss rest ]

module _ {ℓ κ} {A : Type ℓ} {B : Type κ} (f : A → B) where
  pub Member-map : (b : B) (xs : List A) → Member b (map f xs) → (a : A) × Member a xs × (f a ≡ b)
  Member-map b [] m = elim m [ ]
  Member-map b (x ∷ xs) m = elim (Member-cases b (f x) (map f xs) m) [
    | inl e ↦ (x, here, e)
    | inr n ↦ let (a, k, e) = Member-map b xs n in (a, there k, e)
  ]

  pub map-Member : (a : A) (xs : List A) → Member a xs → Member (f a) (map f xs)
  map-Member a [] m = elim m [ ]
  map-Member a (x ∷ xs) here = here
  map-Member a (x ∷ xs) (there m) = there (map-Member a xs m)

pub contains-Member : (a : ℕ) (xs : List ℕ) → contains a xs ≡ true → Member a xs
contains-Member a xs h =
    let (b, m, e) = any-Member (λ b. b == a) xs h in subst (λ c. Member c xs) (==→≡ b a e) m

pub Member-contains : (a : ℕ) (xs : List ℕ) → Member a xs → contains a xs ≡ true
Member-contains a xs m = Member-any (λ b. b == a) a xs m (==_self a)
