-- ===== src/Users/Store.antt =====
-- internal/storages/users: reading, updating and counting users.
use maintmode.World.Errors.{user_not_found}
use maintmode.Base.{ℕ, suc, Bool, Option, none, some, List, [], ◌∷◌, map, ◌==◌, if◌then◌else◌, find}
use maintmode.World.Tables.{Db}
use maintmode.World.Effect.{M, ◌>>=◌, query, exec, pure, throw}
use maintmode.Entity.User.{User, is_active_admin}

abbrev pub with_users : List User → Db → Db
with_users users db = record db { users = users }

abbrev pub has_id : ℕ → User → Bool
has_id id u = u.id == id

abbrev pub found_user : Option User → M User
found_user none = throw user_not_found
found_user (some u) = pure u

unfoldable pub get_for_update_by_id : ℕ → M User
get_for_update_by_id user_id = query (λ db. find (has_id user_id) db.users) >>= found_user

-- The columns that `Update` writes.
unfoldable pub updated_row : User → User → User
updated_row user row = record row {
  roles = user.roles;
  blocked_at = user.blocked_at;
  timezone = user.timezone;
  telegram_tag = user.telegram_tag;
  slack_tag = user.slack_tag;
}

unfoldable pub update_row : User → User → User
unfolding updated_row
update_row user row = if has_id user.id row then updated_row user row else row

unfoldable pub update_user : User → M (Unit {0})
unfolding update_row
update_user user = exec (λ db. with_users (map (update_row user) db.users) db)

abbrev pub count : (User → Bool) → List User → ℕ
count p [] = 0
count p (u ∷ users) = let rest = count p users in if p u then suc rest else rest

unfoldable pub count_active_admins : M ℕ
count_active_admins = query (λ db. count is_active_admin db.users)
