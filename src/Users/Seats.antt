-- ===== src/Users/Seats.antt =====
-- internal/entity/license.go and services/license (ensure_seat_available.go, seats_usage.go): how
-- seats are counted. What the licence last reported as the seats purchased is a parameter: it comes
-- from a server outside the repository.
use maintmode.World.Errors.{seat_limit_reached}
use maintmode.Base.{
  ℕ, suc, ◌+◌, Bool, not, ◌&&◌, Option, none, some, List, [], ◌∷◌, map, ltb, leb, if◌then◌else◌,
  filter,
}
use maintmode.World.Tables.{Db, InvitationRow}
use maintmode.World.Effect.{M, ◌>>=◌, ◌>>◌, call, query, pure, throw_if, utc_now}
use maintmode.Entity.User.{
  Role, guest, admin, reviewer, editor, system_admin, roles_level, is_blocked,
}

unfoldable pub highest_from : Role → List Role → Role
highest_from highest [] = highest
highest_from highest (role ∷ roles) =
    highest_from (if ltb (roles_level highest) (roles_level role) then role else highest) roles

unfoldable pub highest_role : List Role → Role
unfolding highest_from
highest_role roles = highest_from guest roles

pub record SeatBucket : Type 0 where
  pub active : ℕ
  pub pending : ℕ

pub record SeatUsage : Type 0 where
  pub admin_seats : SeatBucket
  pub reviewer_seats : SeatBucket
  pub editor_seats : SeatBucket
  pub guest_seats : SeatBucket

abbrev pub no_seats : SeatBucket
no_seats = record { active = 0; pending = 0 }

abbrev pub add_active : SeatBucket → SeatBucket
add_active b = record b { active = suc b.active }

abbrev pub add_pending : SeatBucket → SeatBucket
add_pending b = record b { pending = suc b.pending }

-- The bucket of a role, changed by `f`.
unfoldable pub in_bucket : (SeatBucket → SeatBucket) → Role → SeatUsage → SeatUsage
in_bucket f admin u = record u { admin_seats = f u.admin_seats }
in_bucket f reviewer u = record u { reviewer_seats = f u.reviewer_seats }
in_bucket f editor u = record u { editor_seats = f u.editor_seats }
in_bucket f guest u = record u { guest_seats = f u.guest_seats }
in_bucket f system_admin u = record u { guest_seats = f u.guest_seats }

unfoldable pub count_in : (SeatBucket → SeatBucket) → List (List Role) → SeatUsage → SeatUsage
unfolding highest_role in_bucket
count_in f [] usage = usage
count_in f (roles ∷ rest) usage = count_in f rest (in_bucket f (highest_role roles) usage)

abbrev pub empty_usage : SeatUsage
empty_usage = record {
  admin_seats = no_seats;
  reviewer_seats = no_seats;
  editor_seats = no_seats;
  guest_seats = no_seats;
}

unfoldable pub bucket_seats : (active_roles pending_roles : List (List Role)) → SeatUsage
unfolding count_in
bucket_seats active_roles pending_roles =
    count_in add_pending pending_roles (count_in add_active active_roles empty_usage)

unfoldable pub seats_occupied : SeatUsage → ℕ
seats_occupied u =
    u.admin_seats.active + u.admin_seats.pending + u.reviewer_seats.active
    + u.reviewer_seats.pending + u.editor_seats.active + u.editor_seats.pending

unfoldable pub list_active_roles : Db → List (List Role)
list_active_roles db = map (λ u. u.roles) (filter (λ u. not (is_blocked u)) db.users)

-- An invitation that is pending and has not expired.
unfoldable pub is_live_invitation : ℕ → InvitationRow → Bool
is_live_invitation now i = i.is_pending && leb now i.expires_at

unfoldable pub list_pending_roles : ℕ → Db → List (List Role)
unfolding is_live_invitation
list_pending_roles now db = map (λ i. i.roles) (filter (is_live_invitation now) db.user_invitations)

unfoldable pub seat_check : ℕ → ℕ → M (Unit {0})
seat_check purchased occupied = throw_if (ltb purchased (occupied + 1)) seat_limit_reached

-- Nothing is asked without a licence, or while it has reported no cap.
unfoldable pub ensure_seat_available : Option ℕ → M (Unit {0})
unfolding seat_check bucket_seats seats_occupied
ensure_seat_available none = pure tt
ensure_seat_available (some purchased) = do
  call
  active ← query list_active_roles
  now ← utc_now
  pending ← query (list_pending_roles now)
  seat_check purchased (seats_occupied (bucket_seats active pending))
