-- ===== src/Users/Careful.antt =====
-- The closures of the five operations make allowed changes alone.
use maintmode.Base.{
  ℕ, ◌+◌, ◌≤◌, Ordering, ◌≡◌, refl, sym, ap, subst, ◌∙◌, ◌⊎◌, inl, inr, Bool, true, false, not,
  ◌&&◌, ◌||◌, Option, none, some, List, [], ◌∷◌, ◌++◌, arith, ltb, leb, Bool-cases, any,
}
use maintmode.World.Errors.{ok, seat_limit_reached, not_changed, last_admin}
use maintmode.World.Tables.{World}
use maintmode.World.Effect.{M, ◌>>=◌, ◌>>◌, call, query, pure, throw_if, utc_now}
use maintmode.Users.Update.{Allowed, IsCareful}
use maintmode.Users.Admin.{
  take_role, set_block, clear_block, set_roles, new_roles, roles_equal, only_if, occupies_seat,
  with_roles, delete_role, sort_roles, ensure_not_last_active_admin, seat_guard, add_roles,
  has_role, missing_roles, is_empty_roles,
}
use maintmode.Entity.User.{
  is_blocked, is_admin, guest, editor, reviewer, system_admin, User, Role, admin, role_eq,
  is_active_admin,
}
use maintmode.Base.Sorting.{sort_func, insert_sorted, not_gt}
use maintmode.World.Effect.Invert.{bind_ok, guard_ok, throw_if_ok, query_ok, call_ok, Answered-db}
use maintmode.Users.Store.{count, count_active_admins}
use maintmode.Users.Counts.{one_if}
use maintmode.Users.Seats.{
  ensure_seat_available, seat_check, list_active_roles, list_pending_roles, seats_occupied,
  bucket_seats,
}
use maintmode.Session.Refines.{
  IsQuiet, IsQuiet-bind, IsQuiet-call, IsQuiet-query, IsQuiet-pure, IsQuiet-throw_if,
  IsQuiet-utc_now,
}

two_if : (n : ℕ) → leb n 1 ≡ false → 2 ≤ n
two_if n h = ground arith

-- What the guard of the last administrator has seen.
ensure_ok :
    (user : User) (w : World) {u : Unit {0}} {v : World}
    → ensure_not_last_active_admin user w ≡ (ok u, v)
    → (v.db ≡ w.db) × ((is_active_admin user ≡ false) ⊎ (2 ≤ count is_active_admin w.db.users))
unfolding ensure_not_last_active_admin count_active_admins
ensure_ok user w h = elim (Bool-cases (is_active_admin user)) [
  | inl active ↦
      let (_, a, called, h1) =
        bind_ok (call w) (λ _. count_active_admins >>= λ admins. throw_if (leb admins 1) last_admin)
          (rw active at h) in
      let (admins, b, counted, h2) =
        bind_ok (count_active_admins a) (λ admins. throw_if (leb admins 1) last_admin) h1 in
      let (value, same) = query_ok (λ db. count is_active_admin db.users) a counted in
      let (many, at_v) = throw_if_ok (leb admins 1) last_admin h2 in
      let db_a = ap (λ z. z.db) (call_ok w called).same in
      let same_count : admins ≡ count is_active_admin w.db.users =
        value ∙ ap (λ d. count is_active_admin d.users) db_a in
      (
        ap (λ z. z.db) at_v ∙ Answered-db same ∙ db_a,
        inr (subst (λ n. 2 ≤ n) same_count (two_if admins many)),
      )
  | inr idle ↦ (ap (λ r. r.1.db) (sym (rw idle at h)), inl idle)
]

only_if-quiet :
    (c : Bool) (m : M (Unit {0})) → IsQuiet m → (w : World) → (only_if c m w).1.db ≡ w.db
unfolding only_if
only_if-quiet c m q w = elim (Bool-cases c) [
  | inl asked ↦ rw asked (q.same w)
  | inr passed ↦ rw passed refl
]

IsQuiet-ensure_seat_available : (seats : Option ℕ) → IsQuiet (ensure_seat_available seats)
unfolding ensure_seat_available seat_check
IsQuiet-ensure_seat_available none = IsQuiet-pure _
IsQuiet-ensure_seat_available (some purchased) = IsQuiet-bind call _ IsQuiet-call λ _.
    IsQuiet-bind (query list_active_roles) _ (IsQuiet-query list_active_roles) λ active.
      IsQuiet-bind utc_now _ IsQuiet-utc_now λ now.
        IsQuiet-bind (query (list_pending_roles now))
          (λ pending.
            throw_if (ltb purchased (seats_occupied (bucket_seats active pending) + 1))
              seat_limit_reached)
          (IsQuiet-query (list_pending_roles now)) (λ pending. IsQuiet-throw_if _ _)

seat_guard_ok :
    (seats : Option ℕ) (held roles : List Role) (w : World) {u : Unit {0}} {v : World}
    → seat_guard seats held roles w ≡ (ok u, v)
    → v.db ≡ w.db
unfolding seat_guard
seat_guard_ok seats held roles w h =
    ap (λ r. r.1.db) (sym h)
    ∙ only_if-quiet (not (occupies_seat held) && occupies_seat roles) (ensure_seat_available seats)
        (IsQuiet-ensure_seat_available seats) w

any-append : (p : Role → Bool) (xs ys : List Role) → any p xs ≡ true → any p (xs ++ ys) ≡ true
any-append p [] ys h = absurd (cc h)
any-append p (x ∷ xs) ys h = elim (Bool-cases (p x)) [
  | inl first ↦ rw first refl
  | inr later ↦ rw later (any-append p xs ys (rw later at h))
]

any-insert :
    (p : Role → Bool) (cmp : Role → Role → Ordering) (x : Role) (xs : List Role)
    → (p x || any p xs) ≡ true
    → any p (insert_sorted cmp x xs) ≡ true
unfolding insert_sorted
any-insert p cmp x [] h = h
any-insert p cmp x (y ∷ ys) h =
    let rest = any-insert p cmp x ys in
    elim (Bool-cases (not_gt (cmp x y))) [
      | inl first ↦ rw first h
      | inr after ↦ rw after (elim (Bool-cases (p y)) [
        | inl found ↦ rw found refl
        | inr missed ↦ rw missed (rest (rw missed at h))
      ])
    ]

any-sort :
    (p : Role → Bool) (cmp : Role → Role → Ordering) (xs : List Role)
    → any p xs ≡ true
    → any p (sort_func cmp xs) ≡ true
unfolding sort_func
any-sort p cmp [] h = h
any-sort p cmp (x ∷ xs) h =
    let rest = any-sort p cmp xs in
    any-insert p cmp x (sort_func cmp xs) (elim (Bool-cases (p x)) [
      | inl first ↦ rw first refl
      | inr later ↦ rw later (rest (rw later at h))
    ])

sort_roles-has_role :
    (roles : List Role) → has_role roles admin ≡ true → has_role (sort_roles roles) admin ≡ true
unfolding sort_roles
sort_roles-has_role roles h = any-sort (λ r. role_eq r admin) _ roles h

same_role-other :
    (r role : Role) → role_eq r role ≡ true → role_eq role admin ≡ false → role_eq r admin ≡ false
same_role-other guest role e h = refl
same_role-other editor role e h = refl
same_role-other reviewer role e h = refl
same_role-other system_admin role e h = refl
same_role-other admin admin e h = absurd (cc h)
same_role-other admin guest e h = absurd (cc e)
same_role-other admin editor e h = absurd (cc e)
same_role-other admin reviewer e h = absurd (cc e)
same_role-other admin system_admin e h = absurd (cc e)

delete_role-has_role :
    (role : Role) (roles : List Role)
    → role_eq role admin ≡ false
    → has_role roles admin ≡ true
    → has_role (delete_role role roles) admin ≡ true
unfolding delete_role
delete_role-has_role role [] e h = h
delete_role-has_role role (r ∷ roles) e h =
    let rest = delete_role-has_role role roles e in
    elim (Bool-cases (role_eq r role)) [
      | inl same ↦ rw same (rw (same_role-other r role same e) at h)
      | inr other ↦ rw other (elim (Bool-cases (role_eq r admin)) [
        | inl found ↦ rw found refl
        | inr missed ↦ rw missed (rest (rw missed at h))
      ])
    ]

no_less :
    (user changed : User)
    → (is_active_admin user ≡ true → is_active_admin changed ≡ true)
    → one_if (is_active_admin user) ≤ one_if (is_active_admin changed)
no_less user changed h = elim (Bool-cases (is_active_admin user)) [
  | inl active ↦ rw (active, h active) (omega arith)
  | inr idle ↦ rw idle (omega arith)
]

-- Roles that still hold the administrator's keep an active administrator one.
with_roles-active :
    (user : User) (roles : List Role)
    → (has_role user.roles admin ≡ true → has_role roles admin ≡ true)
    → is_active_admin user ≡ true
    → is_active_admin (with_roles roles user) ≡ true
unfolding is_active_admin is_admin is_blocked
with_roles-active user roles kept h = elim (Bool-cases (has_role user.roles admin)) [
  | inl held ↦ rw (kept held) (rw held at h)
  | inr missing ↦ absurd (cc (rw missing at h))
]

-- The end of a closure that returned.
careful_end {ℓ} :
    {A : Type ℓ} (user : User) (w : World) (made : A × User) (a : World) {done : A × User}
    {v : World}
    → pure made a ≡ (ok done, v)
    → a.db ≡ w.db
    → made.1.id ≡ user.id
    → Allowed user made.1 w.db.users
    → (v.db ≡ w.db) × (done.1.id ≡ user.id) × Allowed user done.1 w.db.users
careful_end user w made a {done} {v} h db id allowed =
    let e : made ≡ done = cc h in
    let at : a ≡ v = ap (λ r. r.1) h in
    (
      ap (λ z. z.db) (sym at) ∙ db,
      subst (λ (d : _ × User). d.1.id ≡ user.id) e id,
      subst (λ (d : _ × User). Allowed user d.1 w.db.users) e allowed,
    )

guarded_ok :
    (c : Bool) (user : User) (w : World) {u : Unit {0}} {v : World}
    → only_if c (ensure_not_last_active_admin user) w ≡ (ok u, v)
    → (v.db ≡ w.db)
      × ((c ≡ false) ⊎ ((is_active_admin user ≡ false) ⊎ (2 ≤ count is_active_admin w.db.users)))
unfolding only_if
guarded_ok c user w h = elim (Bool-cases c) [
  | inl asked ↦ let (db, seen) = ensure_ok user w (rw asked at h) in (db, inr seen)
  | inr passed ↦ (ap (λ r. r.1.db) (sym (rw passed at h)), inl passed)
]

seen_Allowed :
    (user changed : User) (users : List User)
    → (is_active_admin user ≡ false) ⊎ (2 ≤ count is_active_admin users)
    → Allowed user changed users
seen_Allowed user changed users (inl idle) = inl (rw idle (omega arith))
seen_Allowed user changed users (inr two) = inr two

not_stripped : (a b : Bool) → (a && not b) ≡ false → a ≡ true → b ≡ true
not_stripped a true h k = refl
not_stripped a false h k = absurd (cc (rw k at h))

idle_before :
    (user : User)
    → is_active_admin (with_roles (sort_roles user.roles) user) ≡ false
    → is_active_admin user ≡ false
idle_before user h = elim (Bool-cases (is_active_admin user)) [
  | inl active ↦
      let still =
        with_roles-active user (sort_roles user.roles) (sort_roles-has_role user.roles) active in
      let clash : false ≡ true = sym h ∙ still in absurd (cc clash)
  | inr idle ↦ idle
]

-- A replacement asks the guard when it takes the role of an administrator away.
stripped_Allowed :
    (user : User) (roles : List Role) (users : List User)
    → ((has_role (sort_roles user.roles) admin && not (has_role roles admin)) ≡ false)
      ⊎ ((is_active_admin (with_roles (sort_roles user.roles) user) ≡ false)
          ⊎ (2 ≤ count is_active_admin users))
    → Allowed user (with_roles roles user) users
stripped_Allowed user roles users (inl passed) = inl (
    no_less user (with_roles roles user) (
      with_roles-active user roles
        λ held. not_stripped _ (has_role roles admin) passed (sort_roles-has_role user.roles held)))
stripped_Allowed user roles users (inr (inl idle)) =
    seen_Allowed user (with_roles roles user) users (inl (idle_before user idle))
stripped_Allowed user roles users (inr (inr two)) = inr two

pub take_role-IsCareful : (role : Role) → IsCareful (take_role role)
unfolding take_role
take_role-IsCareful role = record {
  checked = λ user w h.
      let (_, h1) = guard_ok (not (has_role user.roles role)) not_changed w _ h in
      let (_, a, guarded, last) =
        bind_ok (only_if (role_eq role admin) (ensure_not_last_active_admin user) w)
          (λ _. pure (tt, with_roles (delete_role role user.roles) user)) h1 in
      let (db, seen) = guarded_ok (role_eq role admin) user w guarded in
      careful_end user w (tt, with_roles (delete_role role user.roles) user) a last db refl
        (elim seen [
          | inl other ↦ inl (
              no_less user _ (
                with_roles-active user (delete_role role user.roles)
                  (delete_role-has_role role user.roles other)))
          | inr looked ↦ seen_Allowed user _ w.db.users looked
        ]);
}

pub set_block-IsCareful : IsCareful set_block
unfolding set_block
set_block-IsCareful = record {
  checked = λ user w h.
      let (_, h1) = guard_ok (is_blocked user) not_changed w _ h in
      let (_, a, guarded, last) =
        bind_ok (ensure_not_last_active_admin user w)
          (λ _. utc_now >>= λ now. pure (tt, record user { blocked_at = some now })) h1 in
      let (db, seen) = ensure_ok user w guarded in
      careful_end user w (tt, record user { blocked_at = some a.clock }) a last db refl
        (seen_Allowed user _ w.db.users seen);
}

and_false : (b : Bool) → (b && false) ≡ false
and_false true = refl
and_false false = refl

blocked-idle : (user : User) → is_blocked user ≡ true → is_active_admin user ≡ false
unfolding is_active_admin
blocked-idle user h = rw h (and_false (is_admin user))

module _ (seats : Option ℕ) where
  pub add_roles-IsCareful : (wanted : List Role) → IsCareful (add_roles seats wanted)
  unfolding add_roles
  add_roles-IsCareful wanted = record {
    checked = λ user w h.
        let (_, h1) =
          guard_ok (is_empty_roles (missing_roles wanted user.roles)) not_changed w _ h in
        let (_, a, guarded, last) =
          bind_ok (seat_guard seats user.roles (user.roles ++ missing_roles wanted user.roles) w)
            (λ _. pure (
              missing_roles wanted user.roles,
              with_roles (user.roles ++ missing_roles wanted user.roles) user,
            ))
            h1 in
        careful_end user w
          (
            missing_roles wanted user.roles,
            with_roles (user.roles ++ missing_roles wanted user.roles) user,
          )
          a last (seat_guard_ok seats _ _ w guarded) refl
          (inl (
            no_less user _ (
              with_roles-active user (user.roles ++ missing_roles wanted user.roles)
                (any-append (λ r. role_eq r admin) user.roles (missing_roles wanted user.roles)))));
  }

  pub clear_block-IsCareful : IsCareful (clear_block seats)
  unfolding clear_block
  clear_block-IsCareful = record {
    checked = λ user w h.
        let (was, h1) = guard_ok (not (is_blocked user)) not_changed w _ h in
        let (_, a, guarded, last) =
          bind_ok (only_if (occupies_seat user.roles) (ensure_seat_available seats) w)
            (λ _. pure (tt, record user { blocked_at = none })) h1 in
        careful_end user w (tt, record user { blocked_at = none }) a last
          (ap (λ r. r.1.db) (sym guarded)
            ∙ only_if-quiet (occupies_seat user.roles) (ensure_seat_available seats)
                (IsQuiet-ensure_seat_available seats) w)
          refl (seen_Allowed user _ w.db.users (inl (blocked-idle user (ground arith))));
  }

  pub set_roles-IsCareful : (wanted : List Role) → IsCareful (set_roles seats wanted)
  unfolding set_roles
  set_roles-IsCareful wanted = record {
    checked = λ user w h.
        let (_, h1) =
          guard_ok (roles_equal (sort_roles user.roles) (new_roles seats wanted)) not_changed w _
            h in
        let (_, a, guarded, h2) =
          bind_ok
            (only_if
              (has_role (sort_roles user.roles) admin
                && not (has_role (new_roles seats wanted) admin))
              (ensure_not_last_active_admin (with_roles (sort_roles user.roles) user)) w)
            (λ _.
              seat_guard seats (sort_roles user.roles) (new_roles seats wanted)
              >> pure (sort_roles user.roles, with_roles (new_roles seats wanted) user))
            h1 in
        let (_, b, seated, last) =
          bind_ok (seat_guard seats (sort_roles user.roles) (new_roles seats wanted) a)
            (λ _. pure (sort_roles user.roles, with_roles (new_roles seats wanted) user)) h2 in
        let (db, seen) = guarded_ok _ (with_roles (sort_roles user.roles) user) w guarded in
        careful_end user w (sort_roles user.roles, with_roles (new_roles seats wanted) user) b last
          (seat_guard_ok seats _ _ a seated ∙ db) refl
          (stripped_Allowed user (new_roles seats wanted) w.db.users seen);
  }
