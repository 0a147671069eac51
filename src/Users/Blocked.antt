-- ===== src/Users/Blocked.antt =====
-- What blocking a user does when the user is blocked already.
use maintmode.Base.{ℕ, ◌≡◌, refl, true, false, some, [], find}
use maintmode.World.Errors.{ok, err, not_changed}
use maintmode.World.Tables.{World}
use maintmode.World.Effect.{◌>>=◌, ◌>>◌, pure}
use maintmode.World.Effect.Call.{call_faultless}
use maintmode.World.Tx.Rollback.{within_tx_faultless_err}
use maintmode.Session.{Config, Crypto}
use maintmode.Entity.User.{User, is_blocked}
use maintmode.Users.Store.{has_id, get_for_update_by_id, update_user}
use maintmode.Users.Admin.{BlockCmd, update_with_apply, settled, is_self, block_user, set_block}

body_again :
    (id : ℕ) (w : World) (user : User)
    → w.faults ≡ []
    → find (has_id id) w.db.users ≡ some user
    → is_blocked user ≡ true
    → (get_for_update_by_id id >>= λ u.
          set_block u >>= λ changed. update_user changed.1 >> pure changed)
        w
      ≡ (err not_changed, w)
unfolding get_for_update_by_id set_block
body_again id w user e found blocked = rw (call_faultless w e, found, blocked) refl

-- If nothing fails, blocking a user who is blocked, by someone else, reports success and leaves
-- every table as it is, the refresh tokens that an earlier attempt did not revoke included.
pub block_user-again :
    (crypto : Crypto) (cfg : Config) (cmd : BlockCmd) (w : World) (user : User)
    → w.faults ≡ []
    → is_self cmd.actor cmd.user_id ≡ false
    → find (has_id cmd.user_id) w.db.users ≡ some user
    → is_blocked user ≡ true
    → ((block_user crypto cfg cmd w).0 ≡ ok tt) × ((block_user crypto cfg cmd w).1.db ≡ w.db)
unfolding block_user update_with_apply settled
block_user-again crypto cfg cmd w user e other found blocked =
    let unchanged =
      within_tx_faultless_err
        (λ _. get_for_update_by_id cmd.user_id >>= λ u.
          set_block u >>= λ changed. update_user changed.1 >> pure changed)
        w e (body_again cmd.user_id w user e found blocked) in
    rw (other, unchanged) (refl, refl)
