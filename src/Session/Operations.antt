-- ===== src/Session/Operations.antt =====
-- The operations of the session service refine the abstract steps.
use maintmode.Session.Refines.{IsQuiet-call, IsQuiet, IsQuiet-pure, IsQuiet-throw_if, IsQuiet-bind}
use maintmode.Session.Tokens.{
  save, rotate_now, insert_now, rotated, unrevoked_with_hash, rotate, lock_user_sessions,
  has_live_token, has_hash, to_db_refresh_token, rotate_row,
}
use maintmode.Base.{
  ℕ, ◌+◌, ◌≤◌, String, ◌≡◌, refl, sym, ap, ◌∙◌, inl, inr, false, not, List, [], ◌∷◌, map, arith,
  Bool-cases, any, Member,
}
use maintmode.World.Errors.{Result, ok, err, logout_already}
use maintmode.World.Tables.{World}
use maintmode.World.Effect.{M, continue, call, pure, throw_if}
use maintmode.Session.{Config, Crypto}
use maintmode.Session.Issue.{session_ttls_for, issue_access_token, new_token, get_by_id, token_pair}
use maintmode.Session.Refresh.{replace_token, issue_access_token_by_user_id, refresh_within_grace}
use maintmode.World.Effect.Invert.{call_ok, bind_ok}
use maintmode.Entity.Session.{RefreshToken}
use maintmode.Session.Spec.{sessions, Succeeds}
use maintmode.Session.Simulation.{
  IsQuiet-get_by_id, IsQuiet-has_live_token, IsQuiet-session_ttls_for, IsQuiet-issue_access_token,
  rotate_ok, save_ok,
}

rotate_row-has_hash :
    (h : String) (now : ℕ) (hash successor : String) (grace : ℕ) (r : RefreshToken)
    → has_hash h (rotate_row now hash successor grace r) ≡ has_hash h r
unfolding rotate_row rotated
rotate_row-has_hash h now hash successor grace r = elim (Bool-cases (unrevoked_with_hash hash r)) [
  | inl rotates ↦ rw rotates refl
  | inr stays ↦ rw stays refl
]

any-rotated :
    (h : String) (now : ℕ) (hash successor : String) (grace : ℕ) (rows : List RefreshToken)
    → any (has_hash h) (map (rotate_row now hash successor grace) rows) ≡ any (has_hash h) rows
any-rotated h now hash successor grace [] = refl
any-rotated h now hash successor grace (r ∷ rows) =
    rw
      (
        rotate_row-has_hash h now hash successor grace r,
        any-rotated h now hash successor grace rows,
      )
      refl

module _ (crypto : Crypto) (cfg : Config) where
  pub IsQuiet-issue_access_token_by_user_id :
      (user_id family ttl : ℕ)
      → IsQuiet (issue_access_token_by_user_id crypto cfg user_id family ttl)
  unfolding issue_access_token_by_user_id
  IsQuiet-issue_access_token_by_user_id user_id family ttl =
      IsQuiet-bind (get_by_id user_id) (λ user. issue_access_token crypto cfg ttl user family)
        (IsQuiet-get_by_id user_id) (λ user. IsQuiet-issue_access_token crypto cfg ttl user family)

  pub IsQuiet-refresh_within_grace :
      (rt : RefreshToken) → IsQuiet (refresh_within_grace crypto cfg rt)
  unfolding refresh_within_grace
  IsQuiet-refresh_within_grace rt =
      IsQuiet-bind (has_live_token rt.family) _ (IsQuiet-has_live_token rt.family) λ live.
        IsQuiet-bind (throw_if (not live) logout_already) _ (IsQuiet-throw_if _ _) λ _.
          IsQuiet-bind (session_ttls_for crypto cfg rt.user_id) _
            (IsQuiet-session_ttls_for crypto cfg rt.user_id)
            λ ttls.
              IsQuiet-bind
                (issue_access_token_by_user_id crypto cfg rt.user_id rt.family ttls.access)
                (λ access. pure (token_pair crypto cfg access "" 0 rt.session_started_at ttls))
                (IsQuiet-issue_access_token_by_user_id rt.user_id rt.family ttls.access)
                (λ access. IsQuiet-pure _)

  -- The transaction of a rotation is one step, from tables where the token is.
  pub replace_token-Succeeds :
      (now : ℕ) (old : RefreshToken) (hash client_ip : String) (w : World) {u : Unit {0}}
      {v : World}
      → Member old w.db.refresh_tokens
      → old.revoked ≡ false
      → replace_token crypto cfg now old hash client_ip w ≡ (ok u, v)
      → Succeeds old
          (to_db_refresh_token w.clock (
            new_token crypto cfg hash old.user_id old.family
              (now + cfg.refresh_token_ttl)
              old.session_started_at
              client_ip))
          (sessions w)
          (sessions v)
        × (v.next_id ≡ w.next_id)
  unfolding replace_token lock_user_sessions to_db_refresh_token
  replace_token-Succeeds now old hash client_ip w member unrevoked h =
      let (_, x, locked, rest) = bind_ok (lock_user_sessions old.user_id w) _ h in
      let done_lock = call_ok w locked in
      let (_, y, rotated, saved) =
        bind_ok (rotate old.token hash (now + cfg.refresh_token_grace_period) x) _ rest in
      let (at_y, clock_y) =
        rotate_ok old.token hash (now + cfg.refresh_token_grace_period) x rotated in
      let (is_new, at_v) = save_ok _ y saved in
      let rows_y : y.db.refresh_tokens
          ≡ map (rotate_row w.clock old.token hash (now + cfg.refresh_token_grace_period))
              w.db.refresh_tokens =
        ap (λ t. t.rows) at_y
        ∙ ap
            (λ z.
              map (rotate_row z.clock old.token hash (now + cfg.refresh_token_grace_period))
                z.db.refresh_tokens)
            done_lock.same in
      let clock : y.clock ≡ w.clock = clock_y ∙ ap (λ z. z.clock) done_lock.same in
      (
        record {
          grace = now + cfg.refresh_token_grace_period;
          now = w.clock;
          was_there = member;
          was_unrevoked = unrevoked;
          same_family = refl;
          same_user = refl;
          same_start = refl;
          hash_is_new =
              sym (
                any-rotated hash w.clock old.token hash (now + cfg.refresh_token_grace_period)
                  w.db.refresh_tokens)
              ∙ (rw rows_y at is_new);
          replaced = ap (λ t. t.rows) at_v ∙ rw (rows_y, clock) refl;
        },
        ap (λ t. t.next) at_v ∙ ap (λ t. t.next) at_y ∙ ap (λ z. z.next_id) done_lock.same,
      )

  rotate_now-next :
      (hash successor : String) (grace : ℕ) (w : World)
      → (rotate_now hash successor grace w).1.next_id ≡ w.next_id
  unfolding rotate_now
  rotate_now-next hash successor grace w =
      elim (Bool-cases (any (unrevoked_with_hash hash) w.db.refresh_tokens)) [
        | inl there_is ↦ rw there_is refl
        | inr none_is ↦ rw none_is refl
      ]

  insert_now-next : (row : RefreshToken) (w : World) → (insert_now row w).1.next_id ≡ w.next_id
  unfolding insert_now
  insert_now-next row w = elim (Bool-cases (any (has_hash row.token) w.db.refresh_tokens)) [
    | inl there_is ↦ rw there_is refl
    | inr none_is ↦ rw none_is refl
  ]

  continue-le {ℓ κ} :
      {A : Type ℓ} {B : Type κ} (n : ℕ) (r : Result A × World) (f : A → M B)
      → n ≤ r.1.next_id
      → ((a : A) (v : World) → v.next_id ≤ (f a v).1.next_id)
      → n ≤ (continue r f).1.next_id
  continue-le n (ok a, v) f h k = omega (arith, h, k a v)
  continue-le n (err e, v) f h k = h

  pub replace_token-le :
      (now : ℕ) (old : RefreshToken) (hash client_ip : String) (w : World)
      → w.next_id ≤ (replace_token crypto cfg now old hash client_ip w).1.next_id
  unfolding replace_token lock_user_sessions rotate save
  replace_token-le now old hash client_ip w =
      continue-le w.next_id (call w) _ (IsQuiet-call.le w) λ _ x.
        continue-le x.next_id (continue (call x) _) _
          (continue-le x.next_id (call x) (λ _. rotate_now old.token hash _) (IsQuiet-call.le x)
            (λ _ y. omega (arith, rotate_now-next old.token hash _ y)))
          λ _ z.
            continue-le z.next_id (call z) _ (IsQuiet-call.le z)
              (λ _ y. omega (arith, insert_now-next _ y))
