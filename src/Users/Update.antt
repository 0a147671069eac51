-- ===== src/Users/Update.antt =====
-- What an update of a user leaves of the users' table.
use maintmode.Base.{
  find-Member, ℕ, ◌≤◌, ◌≡◌, refl, sym, ap, subst, ◌∙◌, ◌⊎◌, inl, inr, Bool, true, false, Option,
  none, some, List, map, arith, ==→≡, find,
}
use maintmode.World.Errors.{Result, ok, err}
use maintmode.World.Tables.{World}
use maintmode.World.Effect.{M, ◌>>=◌, ◌>>◌, call, query, pure}
use maintmode.Entity.User.{is_blocked, is_admin, User, is_active_admin}
use maintmode.World.Effect.Invert.{bind_ok, query_ok, call_ok, Answered-db}
use maintmode.World.Tx.Rollback.{within_tx_ok, within_tx_rollback}
use maintmode.Users.Store.{
  count, has_id, update_row, updated_row, update_user, get_for_update_by_id, found_user,
}
use maintmode.Users.Counts.{id_count, one_if, id_count-update, count-update}
use maintmode.Users.Admin.{update_with_apply}

-- The primary key, and an administrator who is not blocked.
pub record IsAdministered (users : List User) : Type 0 where
  pub single : (id : ℕ) → id_count id users ≤ 1
  pub some_admin : 1 ≤ count is_active_admin users

-- A change after which the user is no less an active administrator, or made while there were two.
abbrev pub Allowed : User → User → List User → Type 0
Allowed user changed users =
    (one_if (is_active_admin user) ≤ one_if (is_active_admin changed))
    ⊎ (2 ≤ count is_active_admin users)

-- A closure that reads, keeps the id, and makes an allowed change.
pub record IsCareful {ℓ} {A : Type ℓ} (fn : User → M (A × User)) : Type ℓ where
  pub checked :
      (user : User) (w : World) {done : A × User} {v : World}
      → fn user w ≡ (ok done, v)
      → (v.db ≡ w.db) × (done.1.id ≡ user.id) × Allowed user done.1 w.db.users

found_user_ok :
    (o : Option User) (w : World) {u : User} {v : World}
    → found_user o w ≡ (ok u, v)
    → (o ≡ some u) × (v ≡ w)
found_user_ok none w h = absurd (cc h)
found_user_ok (some r) w h = (cc h, cc h)

get_ok :
    (id : ℕ) (w : World) {u : User} {v : World}
    → get_for_update_by_id id w ≡ (ok u, v)
    → (find (has_id id) w.db.users ≡ some u) × (v.db ≡ w.db)
unfolding get_for_update_by_id
get_ok id w h =
    let (o, x, asked, rest) = bind_ok (query (λ db. find (has_id id) db.users) w) found_user h in
    let (value, same) = query_ok (λ db. find (has_id id) db.users) w asked in
    let (e, at) = found_user_ok o x rest in (sym value ∙ e, ap (λ z. z.db) at ∙ Answered-db same)

update_ok :
    (user : User) (w : World) {u : Unit {0}} {v : World}
    → update_user user w ≡ (ok u, v)
    → v.db.users ≡ map (update_row user) w.db.users
unfolding update_user
update_ok user w {v} h =
    let (_, x, called, rest) = bind_ok (call w) _ h in
    ap (λ r. r.1.db.users) (sym rest)
    ∙ ap (λ z. map (update_row user) z.db.users) (call_ok w called).same

active-updated :
    (changed user : User) → is_active_admin (updated_row changed user) ≡ is_active_admin changed
unfolding updated_row is_active_admin is_admin is_blocked
active-updated changed user = refl

one_if-le : (b : Bool) → one_if b ≤ 1
one_if-le true = omega arith
one_if-le false = omega arith

IsAdministered-update :
    (old changed : User) (users : List User)
    → find (has_id changed.id) users ≡ some old
    → Allowed old changed users
    → IsAdministered users
    → IsAdministered (map (update_row changed) users)
IsAdministered-update old changed users found allowed good =
    let counted = count-update is_active_admin old changed users found (good.single changed.id) in
    let same = active-updated changed old in
    record {
      single = λ id. rw (id_count-update id changed users) (good.single id);
      some_admin = elim allowed [
        | inl no_less ↦ omega (arith, (rw same at counted), no_less, good.some_admin)
        | inr two ↦ omega (arith, counted, two, one_if-le (is_active_admin old))
      ];
    }

body_ok {ℓ} :
    {A : Type ℓ} (id : ℕ) (fn : User → M (A × User)) (w : World) {done : A × User} {v : World}
    → IsCareful fn
    → (get_for_update_by_id id >>= λ user.
          fn user >>= λ changed. update_user changed.1 >> pure changed)
        w
      ≡ (ok done, v)
    → IsAdministered w.db.users
    → IsAdministered v.db.users
body_ok id fn w {done} {v} careful h good =
    let (user, a, got, h1) =
      bind_ok (get_for_update_by_id id w)
        (λ user. fn user >>= λ changed. update_user changed.1 >> pure changed) h in
    let (found, at_a) = get_ok id w got in
    let (changed, b, ran, h2) =
      bind_ok (fn user a) (λ changed. update_user changed.1 >> pure changed) h1 in
    let (at_b, same_id, allowed) = careful.checked user a ran in
    let (_, c, written, last) = bind_ok (update_user changed.1 b) (λ _. pure changed) h2 in
    let rows = update_ok changed.1 b written in
    let (_, is_id) = find-Member (has_id id) w.db.users found in
    let e : id ≡ changed.1.id = sym (==→≡ user.id id is_id) ∙ sym same_id in
    let users_b : b.db.users ≡ w.db.users = ap (λ d. d.users) at_b ∙ ap (λ d. d.users) at_a in
    let done_well =
      IsAdministered-update user changed.1 w.db.users
        (subst (λ i. find (has_id i) w.db.users ≡ some user) e found)
        (subst (λ d. Allowed user changed.1 d.users) at_a allowed) good in
    let at_v : v.db.users ≡ map (update_row changed.1) w.db.users =
      ap (λ r. r.1.db.users) (sym last) ∙ rows ∙ ap (map (update_row changed.1)) users_b in
    subst IsAdministered (sym at_v) done_well

-- The transaction of an update, with a careful closure.
pub update_with_apply-IsAdministered {ℓ} :
    {A : Type ℓ} (id : ℕ) (fn : User → M (A × User)) (w : World)
    → IsCareful fn
    → IsAdministered w.db.users
    → IsAdministered (update_with_apply id fn w).1.db.users
unfolding update_with_apply
update_with_apply-IsAdministered {A} id fn w careful good = go (update_with_apply id fn w) refl
  where
    go :
        (r : Result (A × User) × World)
        → update_with_apply id fn w ≡ r
        → IsAdministered r.1.db.users
    go (err e, v) h = subst (λ db. IsAdministered db.users) (sym (within_tx_rollback _ w h)) good
    go (ok done, v) h =
        let committed = within_tx_ok _ w h in
        subst (λ db. IsAdministered db.users) (sym committed.kept_db)
          (body_ok id fn committed.before careful committed.ran
            (subst (λ db. IsAdministered db.users) (sym committed.same_db) good))
