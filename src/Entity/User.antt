-- ===== src/Entity/User.antt =====
-- internal/entity/user.go: roles, and what makes a user an administrator or eligible to approve.
use maintmode.Base.{
  ℕ, String, Option, none, Bool, true, false, List, [], ◌∷◌, any, not, ◌&&◌, is_some, ltb,
}

pub data Role : Type 0 where
  guest editor reviewer admin system_admin : Role

abbrev pub role_eq : Role → Role → Bool
role_eq guest guest = true
role_eq editor editor = true
role_eq reviewer reviewer = true
role_eq admin admin = true
role_eq system_admin system_admin = true
role_eq _ _ = false

-- A role that is absent from the map reads as 0.
unfoldable pub roles_level : Role → ℕ
roles_level guest = 0
roles_level editor = 1
roles_level reviewer = 2
roles_level admin = 3
roles_level system_admin = 0

unfoldable pub role_occupies_seat : Role → Bool
unfolding roles_level
role_occupies_seat role = ltb (roles_level guest) (roles_level role)

-- `Role.Valid`
unfoldable pub role_valid : Role → Bool
role_valid guest = true
role_valid editor = true
role_valid reviewer = true
role_valid admin = true
role_valid _ = false

abbrev pub approver_eligible_roles : List Role
approver_eligible_roles = reviewer ∷ admin ∷ []

pub record User : Type 0 where
  pub id : ℕ
  pub email : String
  pub name : String
  pub roles : List Role
  pub created_at : ℕ
  pub blocked_at : Option ℕ
  pub timezone : Option String
  pub telegram_tag : Option String
  pub slack_tag : Option String

unfoldable pub is_blocked : User → Bool
is_blocked u = is_some u.blocked_at

unfoldable pub is_admin : User → Bool
is_admin u = any (λ r. role_eq r admin) u.roles

unfoldable pub is_active_admin : User → Bool
unfolding is_admin is_blocked
is_active_admin u = is_admin u && not (is_blocked u)

abbrev pub system_user : User
system_user = record {
  id = 0;
  email = "system@email.com";
  name = "system";
  roles = system_admin ∷ [];
  created_at = 0;
  blocked_at = none;
  timezone = none;
  telegram_tag = none;
  slack_tag = none;
}
