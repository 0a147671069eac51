-- ===== src/Users/Admin.antt =====
-- services/user: assign_roles.go, replace_roles.go, revoke_role.go, block_user.go, unblock_user.go
-- and what they share of service.go. The advisory locks are statements that may fail.
use maintmode.Base.{
  ℕ, compare, Bool, true, false, not, ◌&&◌, Option, none, some, List, [], ◌∷◌, ◌++◌, leb, ◌==◌,
  if◌then◌else◌, filter, any, all,
}
use maintmode.World.Errors.{
  Error, Result, ok, err, not_changed, invalid_role, self_assign, self_revoke, self_block,
  self_unblock, last_admin,
}
use maintmode.World.Tables.{
  World, roles_assigned, roles_revoked, roles_replaced, user_blocked, user_unblocked,
}
use maintmode.World.Effect.{M, continue, ◌>>=◌, ◌>>◌, call, pure, throw_if, utc_now, publish_audit}
use maintmode.Base.Sorting.{sort_func}
use maintmode.World.Tx.{background, within_tx}
use maintmode.Entity.User.{
  Role, guest, editor, reviewer, admin, system_admin, role_eq, role_valid, role_occupies_seat, User,
  is_blocked, is_active_admin,
}
use maintmode.Users.Seats.{highest_role, ensure_seat_available}
use maintmode.Users.Store.{get_for_update_by_id, update_user, count_active_admins}
use maintmode.Session.{Config, Crypto}
use maintmode.Session.Issue.{get_by_id}
use maintmode.Session.Revoke.{revoke_refresh_token_by_user_id}

pub record RolesCmd : Type 0 where
  pub actor : Option User
  pub user_id : ℕ
  pub roles : List Role

pub record RevokeRoleCmd : Type 0 where
  pub actor : Option User
  pub user_id : ℕ
  pub role : Role

pub record BlockCmd : Type 0 where
  pub actor : Option User
  pub user_id : ℕ

-- `cmd.Actor != nil && cmd.Actor.ID == cmd.UserID`
abbrev pub is_self : Option User → ℕ → Bool
is_self none user_id = false
is_self (some actor) user_id = actor.id == user_id

abbrev pub has_role : List Role → Role → Bool
has_role roles role = any (λ r. role_eq r role) roles

-- `slices.Sort` orders roles by their texts.
unfoldable pub role_order : Role → ℕ
role_order admin = 0
role_order editor = 1
role_order guest = 2
role_order reviewer = 3
role_order system_admin = 4

unfoldable pub sort_roles : List Role → List Role
unfolding role_order
sort_roles roles = sort_func (λ a b. compare (role_order a) (role_order b)) roles

unfoldable pub uniq_roles_from : List Role → List Role → List Role
uniq_roles_from seen [] = []
uniq_roles_from seen (r ∷ roles) =
    let rest = uniq_roles_from seen roles in
    let next = r ∷ uniq_roles_from (r ∷ seen) roles in if has_role seen r then rest else next

unfoldable pub roles_equal : List Role → List Role → Bool
roles_equal [] [] = true
roles_equal (a ∷ held) (b ∷ wanted) = role_eq a b && roles_equal held wanted
roles_equal _ _ = false

-- `slices.Delete` of the first index of the role.
unfoldable pub delete_role : Role → List Role → List Role
delete_role role [] = []
delete_role role (r ∷ roles) =
    let rest = r ∷ delete_role role roles in if role_eq r role then roles else rest

unfoldable pub occupies_seat : List Role → Bool
occupies_seat roles = role_occupies_seat (highest_role roles)

-- `updateWithApply`; `fn` returns what the closure of the source leaves in a captured variable, and
-- the user as changed.
unfoldable pub update_with_apply {ℓ} : {A : Type ℓ} → ℕ → (User → M (A × User)) → M (A × User)
update_with_apply user_id fn = within_tx background λ _. do
  user ← get_for_update_by_id user_id
  changed ← fn user
  update_user changed.1
  pure changed

unfoldable pub ensure_not_last_active_admin : User → M (Unit {0})
ensure_not_last_active_admin user w =
    let checked =
      continue (call w)
        (λ _. count_active_admins >>= λ admins. throw_if (leb admins 1) last_admin) in
    if is_active_admin user then checked else (ok tt, w)

-- A guard that is asked only when a condition holds.
unfoldable pub only_if : Bool → M (Unit {0}) → M (Unit {0})
only_if c m w = if c then m w else (ok tt, w)

abbrev pub is_not_changed : Error → Bool
is_not_changed not_changed = true
is_not_changed _ = false

-- `errors.Is(err, apperr.ErrNotChanged)` ends the operation with `same`; a change goes on.
unfoldable pub settled {ℓ κ} :
    {A : Type ℓ} {B : Type κ} → M B → (A → M B) → Result A × World → Result B × World
settled same changed (ok a, w) = changed a w
settled same changed (err e, w) =
    let unchanged = same w in if is_not_changed e then unchanged else (err e, w)

abbrev pub missing_roles : List Role → List Role → List Role
missing_roles wanted held = filter (λ r. not (has_role held r)) wanted

abbrev pub is_empty_roles : List Role → Bool
is_empty_roles [] = true
is_empty_roles (r ∷ roles) = false

abbrev pub with_roles : List Role → User → User
with_roles roles user = record user { roles = roles }

module _ (seats_purchased : Option ℕ) where
  unfoldable pub seat_guard : (held roles : List Role) → M (Unit {0})
  unfolding only_if occupies_seat
  seat_guard held roles =
      only_if (not (occupies_seat held) && occupies_seat roles)
        (ensure_seat_available seats_purchased)

  unfoldable pub add_roles : List Role → User → M (List Role × User)
  unfolding seat_guard
  add_roles wanted user = do
    throw_if (is_empty_roles (missing_roles wanted user.roles)) not_changed
    seat_guard user.roles (user.roles ++ missing_roles wanted user.roles)
    pure (
      missing_roles wanted user.roles,
      with_roles (user.roles ++ missing_roles wanted user.roles) user,
    )

  unfoldable pub assign_roles : RolesCmd → M User
  unfolding add_roles
  assign_roles cmd = do
    throw_if (not (all role_valid cmd.roles)) invalid_role
    throw_if (is_self cmd.actor cmd.user_id) self_assign
    (λ w.
        settled (get_by_id cmd.user_id)
          (λ done. publish_audit (roles_assigned cmd.actor done.1 done.0) >> pure done.1)
          (update_with_apply cmd.user_id (add_roles cmd.roles) w))

  -- The roles that a replacement leaves.
  unfoldable pub new_roles : List Role → List Role
  unfolding sort_roles uniq_roles_from
  new_roles wanted = sort_roles (uniq_roles_from [] (filter role_valid wanted))

  unfoldable pub set_roles : List Role → User → M (List Role × User)
  unfolding seat_guard new_roles sort_roles only_if roles_equal
  set_roles wanted user = do
    throw_if (roles_equal (sort_roles user.roles) (new_roles wanted)) not_changed
    only_if (has_role (sort_roles user.roles) admin && not (has_role (new_roles wanted) admin))
        (ensure_not_last_active_admin (with_roles (sort_roles user.roles) user))
    seat_guard (sort_roles user.roles) (new_roles wanted)
    pure (sort_roles user.roles, with_roles (new_roles wanted) user)

  -- The audit's added and removed roles are differences of the two lists.
  unfoldable pub replace_roles : RolesCmd → M (Unit {0})
  unfolding set_roles
  replace_roles cmd = do
    throw_if (is_self cmd.actor cmd.user_id) self_revoke
    (λ w.
        settled (pure tt)
          (λ done. publish_audit (roles_replaced cmd.actor done.1 done.0 done.1.roles))
          (update_with_apply cmd.user_id (set_roles cmd.roles) w))

  unfoldable pub clear_block : User → M (Unit {0} × User)
  unfolding only_if occupies_seat
  clear_block user = do
    throw_if (not (is_blocked user)) not_changed
    only_if (occupies_seat user.roles) (ensure_seat_available seats_purchased)
    pure (tt, record user { blocked_at = none })

  unfoldable pub unblock_user : BlockCmd → M (Unit {0})
  unfolding clear_block
  unblock_user cmd = do
    throw_if (is_self cmd.actor cmd.user_id) self_unblock
    (λ w.
        settled (pure tt) (λ done. publish_audit (user_unblocked cmd.actor done.1))
          (update_with_apply cmd.user_id clear_block w))

unfoldable pub take_role : Role → User → M (Unit {0} × User)
unfolding only_if delete_role
take_role role user = do
  throw_if (not (has_role user.roles role)) not_changed
  only_if (role_eq role admin) (ensure_not_last_active_admin user)
  pure (tt, with_roles (delete_role role user.roles) user)

unfoldable pub revoke_role : RevokeRoleCmd → M (Unit {0})
unfolding take_role
revoke_role cmd = do
  throw_if (not (role_valid cmd.role)) invalid_role
  throw_if (is_self cmd.actor cmd.user_id) self_revoke
  (λ w.
      settled (pure tt) (λ done. publish_audit (roles_revoked cmd.actor done.1 (cmd.role ∷ [])))
        (update_with_apply cmd.user_id (take_role cmd.role) w))

unfoldable pub set_block : User → M (Unit {0} × User)
set_block user = do
  throw_if (is_blocked user) not_changed
  ensure_not_last_active_admin user
  now ← utc_now
  pure (tt, record user { blocked_at = some now })

module _ (crypto : Crypto) (cfg : Config) where
  -- Once the block is committed, the sessions are ended.
  unfoldable pub end_blocked : BlockCmd → Unit {0} × User → M (Unit {0})
  end_blocked cmd done = do
    revoke_refresh_token_by_user_id crypto cfg cmd.user_id
    publish_audit (user_blocked cmd.actor done.1)

  unfoldable pub block_user : BlockCmd → M (Unit {0})
  unfolding set_block end_blocked
  block_user cmd = do
    throw_if (is_self cmd.actor cmd.user_id) self_block
    (λ w. settled (pure tt) (end_blocked cmd) (update_with_apply cmd.user_id set_block w))
