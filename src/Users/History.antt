-- ===== src/Users/History.antt =====
-- The administration of users, in any order, under whatever the environment does to it.
use maintmode.Base.{
  ℕ, ◌≡◌, refl, sym, ap, subst, ◌∙◌, inl, inr, Bool, true, false, not, Option, List, [], ◌∷◌,
  Bool-cases, all,
}
use maintmode.World.Errors.{
  Error, Result, ok, err, invalid_role, self_assign, self_revoke, self_block, self_unblock,
}
use maintmode.World.Tables.{
  Db, World, Action, roles_assigned, roles_revoked, roles_replaced, user_blocked, user_unblocked,
}
use maintmode.World.Effect.{M, continue, ◌>>◌, call, pure, throw_if, publish_audit}
use maintmode.World.Respects.{
  Respects, Respects-bind, Respects-call, Respects-publish_audit, Respects-within_tx,
}
use maintmode.Session.{Config, Crypto}
use maintmode.Session.Tokens.{revoke, revoke_now, revoke_by_user_id, lock_user_sessions, of_user}
use maintmode.Session.Issue.{get_by_id}
use maintmode.Session.Revoke.{
  with_user_sessions_locked, revoke_session_access_tokens, revoke_refresh_token_by_user_id,
}
use maintmode.Session.Services.{IsQuiet-revoke_session_access_tokens}
use maintmode.Session.Simulation.{IsQuiet-get_by_id}
use maintmode.Session.Refines.{IsQuiet}
use maintmode.Entity.User.{User, role_valid}
use maintmode.Users.Admin.{
  RolesCmd, RevokeRoleCmd, BlockCmd, update_with_apply, settled, is_not_changed, is_self,
  assign_roles, replace_roles, revoke_role, block_user, unblock_user, end_blocked, add_roles,
  set_roles, take_role, set_block, clear_block,
}
use maintmode.Users.Update.{IsAdministered, IsCareful, update_with_apply-IsAdministered}
use maintmode.Users.Careful.{
  add_roles-IsCareful, set_roles-IsCareful, take_role-IsCareful, set_block-IsCareful,
  clear_block-IsCareful,
}

abbrev SameUsers : Db → Db → Type 0
SameUsers before after = after.users ≡ before.users

SameUsers-refl : (d : Db) → SameUsers d d
SameUsers-refl d = refl

SameUsers-trans : (a b c : Db) → SameUsers a b → SameUsers b c → SameUsers a c
SameUsers-trans a b c h k = k ∙ h

users_quiet {ℓ} : {A : Type ℓ} (m : M A) → IsQuiet m → Respects SameUsers m
users_quiet m q w = ap (λ d. d.users) (q.same w)

-- Ending sessions changes no user.
users_revoke_by_user :
    (crypto : Crypto) (cfg : Config) (user_id : ℕ)
    → Respects SameUsers (revoke_refresh_token_by_user_id crypto cfg user_id)
unfolding revoke_refresh_token_by_user_id with_user_sessions_locked lock_user_sessions
    revoke_by_user_id revoke revoke_now
users_revoke_by_user crypto cfg user_id =
    Respects-bind SameUsers SameUsers-refl SameUsers-trans
      (with_user_sessions_locked user_id (λ _. revoke_by_user_id user_id))
      (revoke_session_access_tokens crypto cfg)
      (Respects-within_tx SameUsers SameUsers-refl SameUsers-trans
        (λ _. lock_user_sessions user_id >> revoke_by_user_id user_id)
        (Respects-bind SameUsers SameUsers-refl SameUsers-trans call
          (λ _. revoke_by_user_id user_id) (Respects-call SameUsers SameUsers-refl SameUsers-trans)
          λ _.
            Respects-bind SameUsers SameUsers-refl SameUsers-trans call
              (λ _. revoke_now (of_user user_id))
              (Respects-call SameUsers SameUsers-refl SameUsers-trans) (λ _ w. refl)))
      (λ ids.
        users_quiet (revoke_session_access_tokens crypto cfg ids)
          (IsQuiet-revoke_session_access_tokens crypto cfg ids))

-- What follows the transaction changes no user.
settled-users {ℓ κ} :
    {A : Type ℓ} {B : Type κ} (same : M B) (changed : A → M B) (r : Result A × World)
    → Respects SameUsers same
    → ((a : A) → Respects SameUsers (changed a))
    → (settled same changed r).1.db.users ≡ r.1.db.users
unfolding settled
settled-users same changed (ok a, w) ks kc = kc a w
settled-users same changed (err e, w) ks kc = elim (Bool-cases (is_not_changed e)) [
  | inl is ↦ rw is (ks w)
  | inr other ↦ rw other refl
]

guard-IsAdministered {ℓ} :
    {A : Type ℓ} (b : Bool) (e : Error) (m : M A) (w : World)
    → IsAdministered w.db.users
    → IsAdministered (m w).1.db.users
    → IsAdministered (continue (throw_if b e w) (λ _. m)).1.db.users
guard-IsAdministered true e m w good done = good
guard-IsAdministered false e m w good done = done

-- An operation after its guards: a careful update, settled.
settled-IsAdministered {ℓ κ} :
    {A : Type ℓ} {B : Type κ} (id : ℕ) (fn : User → M (A × User)) (same : M B)
    (changed : A × User → M B) (w : World)
    → IsCareful fn
    → Respects SameUsers same
    → ((a : A × User) → Respects SameUsers (changed a))
    → IsAdministered w.db.users
    → IsAdministered (settled same changed (update_with_apply id fn w)).1.db.users
settled-IsAdministered id fn same changed w careful ks kc good =
    subst IsAdministered (sym (settled-users same changed (update_with_apply id fn w) ks kc))
      (update_with_apply-IsAdministered id fn w careful good)

pub data Operation : Type 0 where
  assigns replaces : RolesCmd → Operation
  revokes : RevokeRoleCmd → Operation
  blocks unblocks : BlockCmd → Operation

pub record Request : Type 0 where
  pub operation : Operation
  pub at : ℕ
  pub answers : List (Option Error)

module _ (crypto : Crypto) (cfg : Config) (seats : Option ℕ) where
  unfoldable pub perform : Operation → World → World
  perform (assigns cmd) w = (assign_roles seats cmd w).1
  perform (replaces cmd) w = (replace_roles seats cmd w).1
  perform (revokes cmd) w = (revoke_role cmd w).1
  perform (blocks cmd) w = (block_user crypto cfg cmd w).1
  perform (unblocks cmd) w = (unblock_user seats cmd w).1

  unfoldable pub run : List Request → World → World
  unfolding perform
  run [] w = w
  run (q ∷ qs) w = run qs (perform q.operation (record w { clock = q.at; faults = q.answers }))

  users_end_blocked :
      (cmd : BlockCmd) (done : Unit {0} × User)
      → Respects SameUsers (end_blocked crypto cfg cmd done)
  unfolding end_blocked
  users_end_blocked cmd done =
      Respects-bind SameUsers SameUsers-refl SameUsers-trans
        (revoke_refresh_token_by_user_id crypto cfg cmd.user_id)
        (λ _. publish_audit (user_blocked cmd.actor done.1))
        (users_revoke_by_user crypto cfg cmd.user_id)
        (λ _. Respects-publish_audit SameUsers SameUsers-refl SameUsers-trans _)

  audited : (action : Action) → Respects SameUsers (publish_audit action)
  audited = Respects-publish_audit SameUsers SameUsers-refl SameUsers-trans

  perform-IsAdministered :
      (op : Operation) (w : World)
      → IsAdministered w.db.users
      → IsAdministered (perform op w).db.users
  unfolding perform assign_roles replace_roles revoke_role block_user unblock_user
  perform-IsAdministered (assigns cmd) w good =
      guard-IsAdministered (not (all role_valid cmd.roles)) invalid_role _ w good (
        guard-IsAdministered (is_self cmd.actor cmd.user_id) self_assign _ w good (
          settled-IsAdministered cmd.user_id (add_roles seats cmd.roles) (get_by_id cmd.user_id)
            (λ done. publish_audit (roles_assigned cmd.actor done.1 done.0) >> pure done.1) w
            (add_roles-IsCareful seats cmd.roles)
            (users_quiet (get_by_id cmd.user_id) (IsQuiet-get_by_id cmd.user_id))
            (λ done.
              Respects-bind SameUsers SameUsers-refl SameUsers-trans
                (publish_audit (roles_assigned cmd.actor done.1 done.0)) (λ _. pure done.1)
                (audited _) (λ _ v. refl))
            good))
  perform-IsAdministered (replaces cmd) w good =
      guard-IsAdministered (is_self cmd.actor cmd.user_id) self_revoke _ w good (
        settled-IsAdministered cmd.user_id (set_roles seats cmd.roles) (pure tt)
          (λ done. publish_audit (roles_replaced cmd.actor done.1 done.0 done.1.roles)) w
          (set_roles-IsCareful seats cmd.roles) (λ v. refl) (λ done. audited _) good)
  perform-IsAdministered (revokes cmd) w good =
      guard-IsAdministered (not (role_valid cmd.role)) invalid_role _ w good (
        guard-IsAdministered (is_self cmd.actor cmd.user_id) self_revoke _ w good (
          settled-IsAdministered cmd.user_id (take_role cmd.role) (pure tt)
            (λ done. publish_audit (roles_revoked cmd.actor done.1 (cmd.role ∷ []))) w
            (take_role-IsCareful cmd.role) (λ v. refl) (λ done. audited _) good))
  perform-IsAdministered (blocks cmd) w good =
      guard-IsAdministered (is_self cmd.actor cmd.user_id) self_block _ w good (
        settled-IsAdministered cmd.user_id set_block (pure tt) (end_blocked crypto cfg cmd) w
          set_block-IsCareful (λ v. refl) (users_end_blocked cmd) good)
  perform-IsAdministered (unblocks cmd) w good =
      guard-IsAdministered (is_self cmd.actor cmd.user_id) self_unblock _ w good (
        settled-IsAdministered cmd.user_id (clear_block seats) (pure tt)
          (λ done. publish_audit (user_unblocked cmd.actor done.1)) w (clear_block-IsCareful seats)
          (λ v. refl) (λ done. audited _) good)

  -- If user ids are distinct and some administrator is not blocked, then after any requests to
  -- assign, replace and revoke roles, to block and to unblock users, in whatever order and wherever
  -- their calls of the environment fail, some administrator is not blocked.
  pub run-IsAdministered :
      (qs : List Request) (w : World)
      → IsAdministered w.db.users
      → IsAdministered (run qs w).db.users
  unfolding run
  run-IsAdministered [] w good = good
  run-IsAdministered (q ∷ qs) w good =
      run-IsAdministered qs (perform q.operation (record w { clock = q.at; faults = q.answers }))
        (perform-IsAdministered q.operation (record w { clock = q.at; faults = q.answers }) good)
