-- ===== src/Users/Counts.antt =====
-- How an update of one user changes a count of users.
use maintmode.Base.{
  ℕ, ◌+◌, ◌≤◌, ◌≡◌, refl, subst, inl, inr, Bool, true, false, some, List, [], ◌∷◌, map, arith,
  Bool-cases, find,
}
use maintmode.Entity.User.{User}
use maintmode.Users.Store.{count, has_id, update_row, updated_row}

-- The rows of one id: at most one, as the id is the primary key.
abbrev pub id_count : ℕ → List User → ℕ
id_count id users = count (has_id id) users

abbrev pub one_if : Bool → ℕ
one_if true = 1
one_if false = 0

updated_row-id : (user row : User) → (updated_row user row).id ≡ row.id
unfolding updated_row
updated_row-id user row = refl

update_row-id : (user row : User) → (update_row user row).id ≡ row.id
unfolding update_row updated_row
update_row-id user row = elim (Bool-cases (has_id user.id row)) [
  | inl same ↦ rw same refl
  | inr other ↦ rw other refl
]

count-cons :
    (p : User → Bool) (u : User) (users : List User)
    → count p (u ∷ users) ≡ one_if (p u) + count p users
count-cons p u users = elim (Bool-cases (p u)) [
  | inl yes_p ↦ rw yes_p (omega arith)
  | inr no_p ↦ rw no_p (omega arith)
]

pub id_count-update :
    (id : ℕ) (user : User) (users : List User)
    → id_count id (map (update_row user) users) ≡ id_count id users
id_count-update id user [] = refl
id_count-update id user (u ∷ users) =
    let rest = id_count-update id user users in
    rw
      (
        count-cons (has_id id) (update_row user u) (map (update_row user) users),
        count-cons (has_id id) u users,
        update_row-id user u,
        rest,
      )
      refl

-- Rows of other ids are left alone.
update-absent :
    (p : User → Bool) (user : User) (users : List User)
    → id_count user.id users ≡ 0
    → count p (map (update_row user) users) ≡ count p users
unfolding update_row
update-absent p user [] h = refl
update-absent p user (u ∷ users) h = elim (Bool-cases (has_id user.id u)) [
  | inl same ↦ absurd (omega (arith, (rw same at h)))
  | inr other ↦
      let rest = update-absent p user users (rw other at h) in
      rw other (rw (count-cons p u (map (update_row user) users), count-cons p u users, rest) refl)
]

-- The row that was read is the one that is updated.
pub count-update :
    (p : User → Bool) (old user : User) (users : List User)
    → find (has_id user.id) users ≡ some old
    → id_count user.id users ≤ 1
    → count p (map (update_row user) users) + one_if (p old)
      ≡ count p users + one_if (p (updated_row user old))
unfolding update_row
count-update p old user [] found single = absurd (cc found)
count-update p old user (u ∷ users) found single = elim (Bool-cases (has_id user.id u)) [
  | inl same ↦
      let e : u ≡ old = cc (rw same at found) in
      let absent = update-absent p user users (omega (arith, (rw same at single))) in
      subst
        (λ o.
          count p (map (update_row user) (u ∷ users)) + one_if (p o)
          ≡ count p (u ∷ users) + one_if (p (updated_row user o)))
        e
        (rw same (
          rw
            (
              count-cons p (updated_row user u) (map (update_row user) users),
              count-cons p u users,
              absent,
            )
            (omega arith)))
  | inr other ↦
      let rest = count-update p old user users (rw other at found) (rw other at single) in
      rw other (
        rw (count-cons p u (map (update_row user) users), count-cons p u users)
          (omega (arith, rest)))
]
