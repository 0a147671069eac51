-- ===== src/Users/Counted.antt =====
-- Seats counted by buckets are the sets of roles that hold a role above guest.
use maintmode.Base.{
  ℕ, suc, ◌+◌, ◌≡◌, refl, ap, ◌∙◌, inl, inr, Bool, true, false, ◌||◌, List, [], ◌∷◌, arith, ltb,
  if◌then◌else◌, Bool-cases, any,
}
use maintmode.Entity.User.{
  Role, guest, editor, reviewer, admin, system_admin, roles_level, role_occupies_seat,
}
use maintmode.Users.Seats.{
  empty_usage, SeatBucket, SeatUsage, highest_from, highest_role, add_active, add_pending,
  in_bucket, count_in, bucket_seats, seats_occupied,
}

-- The sets of roles in which some role takes a seat.
abbrev pub seated : List (List Role) → ℕ
seated [] = 0
seated (roles ∷ rest) = let n = seated rest in if any role_occupies_seat roles then suc n else n

or_false : (b : Bool) → b ≡ (b || false)
or_false true = refl
or_false false = refl

or_assoc : (a b c : Bool) → ((a || b) || c) ≡ (a || (b || c))
or_assoc true b c = refl
or_assoc false b c = refl

higher-occupies :
    (highest r : Role)
    → role_occupies_seat (if ltb (roles_level highest) (roles_level r) then r else highest)
      ≡ (role_occupies_seat highest || role_occupies_seat r)
unfolding role_occupies_seat
higher-occupies highest r = elim (Bool-cases (ltb (roles_level highest) (roles_level r))) [
  | inl above ↦ rw above (ground arith)
  | inr below ↦ rw below (ground arith)
]

highest_from-occupies :
    (highest : Role) (roles : List Role)
    → role_occupies_seat (highest_from highest roles)
      ≡ (role_occupies_seat highest || any role_occupies_seat roles)
unfolding highest_from
highest_from-occupies highest [] = or_false (role_occupies_seat highest)
highest_from-occupies highest (r ∷ roles) =
    highest_from-occupies (if ltb (roles_level highest) (roles_level r) then r else highest) roles
    ∙ ap (λ b. b || any role_occupies_seat roles) (higher-occupies highest r)
    ∙ or_assoc (role_occupies_seat highest) (role_occupies_seat r) (any role_occupies_seat roles)

guest_free : (b : Bool) → (role_occupies_seat guest || b) ≡ b
unfolding role_occupies_seat roles_level
guest_free b = refl

-- The highest role of a set takes a seat if and only if some role of it does.
highest-occupies :
    (roles : List Role)
    → role_occupies_seat (highest_from guest roles) ≡ any role_occupies_seat roles
highest-occupies roles =
    highest_from-occupies guest roles ∙ guest_free (any role_occupies_seat roles)

in_bucket-active :
    (r : Role) (u : SeatUsage)
    → seats_occupied (in_bucket add_active r u)
      ≡ (if role_occupies_seat r then suc (seats_occupied u) else seats_occupied u)
unfolding in_bucket seats_occupied role_occupies_seat roles_level
in_bucket-active guest u = refl
in_bucket-active system_admin u = refl
in_bucket-active admin u = omega arith
in_bucket-active reviewer u = omega arith
in_bucket-active editor u = omega arith

in_bucket-pending :
    (r : Role) (u : SeatUsage)
    → seats_occupied (in_bucket add_pending r u)
      ≡ (if role_occupies_seat r then suc (seats_occupied u) else seats_occupied u)
unfolding in_bucket seats_occupied role_occupies_seat roles_level
in_bucket-pending guest u = refl
in_bucket-pending system_admin u = refl
in_bucket-pending admin u = omega arith
in_bucket-pending reviewer u = omega arith
in_bucket-pending editor u = omega arith

count_in-seated :
    (f : SeatBucket → SeatBucket) (sets : List (List Role)) (u : SeatUsage)
    → ((r : Role) (v : SeatUsage)
        → seats_occupied (in_bucket f r v)
          ≡ (if role_occupies_seat r then suc (seats_occupied v) else seats_occupied v))
    → seats_occupied (count_in f sets u) ≡ seated sets + seats_occupied u
unfolding count_in highest_role
count_in-seated f [] u h = omega arith
count_in-seated f (roles ∷ rest) u h =
    let more = count_in-seated f rest (in_bucket f (highest_from guest roles) u) h in
    let here' = h (highest_from guest roles) u in
    let same = highest-occupies roles in
    elim (Bool-cases (any role_occupies_seat roles)) [
      | inl takes ↦ rw takes (omega (arith, more, (rw (same, takes) at here')))
      | inr free ↦ rw free (omega (arith, more, (rw (same, free) at here')))
    ]

-- The seats occupied, as the buckets count them, are the sets of roles of active users and of
-- pending invitations that hold some role above guest.
pub seats_occupied-seated :
    (active_roles pending_roles : List (List Role))
    → seats_occupied (bucket_seats active_roles pending_roles)
      ≡ seated active_roles + seated pending_roles
unfolding bucket_seats seats_occupied
seats_occupied-seated active_roles pending_roles = omega (
  arith,
  count_in-seated add_pending pending_roles (count_in add_active active_roles empty_usage)
      in_bucket-pending,
  count_in-seated add_active active_roles empty_usage in_bucket-active,
)
