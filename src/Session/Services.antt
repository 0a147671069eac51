-- ===== src/Session/Services.antt =====
-- The services on sessions refine the abstract steps.
use maintmode.Base.{
  ℕ, ◌+◌, String, ◌≡◌, refl, inl, inr, not, List, [], ◌∷◌, map, arith, ◌==◌, Bool-cases,
}
use maintmode.World.Errors.{Error, Result, ok, err, invalid_access_token}
use maintmode.World.Tables.{World, of_token, of_session, MarkKey}
use maintmode.World.Effect.{M, ◌>>◌, call, pure, throw_if, modify, unlogged}
use maintmode.Session.Revoke.{
  parse_id, as_not_found, revoke_owned_family, revoke_family_by_refresh_token, revoked_session_skew,
  with_user_sessions_locked, revoke_session_access_tokens, revoke_refresh_token_by_family,
  revoke_refresh_token_by_user_id, revoke_refresh_token_by_user_id_except_family,
}
use maintmode.Session.Tokens.{
  get_by_token_hash_for_update, revoke_family, revoke_by_user_id, revoke_by_user_id_except_family,
  lock_user_sessions, of_user, of_user_except,
}
use maintmode.Entity.Session.{
  RefreshToken, AccessClaims, blank, malformed, id_text_eq, text_of, IdText,
}
use maintmode.Session.Simulation.{
  IsQuiet-get_by_token_hash_for_update, Refines-revoke, Refines-revoke_family,
}
use maintmode.Session.Refines.{
  Refines-pure, IsQuiet-throw_if, Refines, IsQuiet, quiet-Refines, IsQuiet-pure, IsQuiet-call,
  IsQuiet-bind, Refines-bind, Refines-within_tx, IsQuiet-world,
}
use maintmode.Session.{Config, Crypto}
use maintmode.Session.Marks.{set_marks, add_sessions, add, set_now}
use maintmode.Session.Refresh.{busy_if_rotated, is_already_rotated, fails_as}
use maintmode.World.Tx.{Ctx, tx}

pub fails_as-world {ℓ} : {A : Type ℓ} (e : Error) (r : Result A × World) → (fails_as e r).1 ≡ r.1
fails_as-world e (ok a, w) = refl
fails_as-world e (err x, w) = refl

pub unlogged-world : (r : Result (Unit {0}) × World) → (unlogged (λ v. v) r).1 ≡ r.1
unfolding unlogged
unlogged-world (ok a, w) = refl
unlogged-world (err x, w) = refl

pub busy-world : (r : Result (Unit {0}) × World) → (busy_if_rotated r).1 ≡ r.1
unfolding busy_if_rotated
busy-world (ok a, w) = refl
busy-world (err e, w) = elim (Bool-cases (is_already_rotated e)) [
  | inl is ↦ rw is refl
  | inr other ↦ rw other refl
]

-- The marks are no part of the tables.
IsQuiet-set_now : (expiration : ℕ) (keys : List MarkKey) → IsQuiet (set_now expiration keys)
unfolding set_now
IsQuiet-set_now expiration keys =
    IsQuiet-bind call
      (λ _.
        modify
          (λ w. record w { revocations = set_marks (w.clock + expiration) keys w.revocations }))
      IsQuiet-call (λ _. record { same = λ w. refl; le = λ w. omega arith })

IsQuiet-add_sessions : (expiration : ℕ) (ids : List ℕ) → IsQuiet (add_sessions expiration ids)
unfolding add_sessions
IsQuiet-add_sessions expiration [] = IsQuiet-pure _
IsQuiet-add_sessions expiration (id ∷ ids) = elim (Bool-cases (expiration == 0)) [
  | inl zero_ttl ↦ rw zero_ttl (IsQuiet-pure (λ _. ok tt))
  | inr some_ttl ↦
      rw some_ttl (IsQuiet-set_now expiration (map (λ i. of_session (text_of i)) (id ∷ ids)))
]

pub IsQuiet-add : (jti : IdText) (expiration : ℕ) → IsQuiet (add jti expiration)
unfolding add
IsQuiet-add jti expiration = elim (Bool-cases (expiration == 0)) [
  | inl zero_ttl ↦ rw zero_ttl (IsQuiet-pure (λ _. ok tt))
  | inr some_ttl ↦ rw some_ttl (IsQuiet-set_now expiration (of_token jti ∷ []))
]

Refines-locked {ℓ} :
    {A : Type ℓ} (user_id : ℕ) (fn : Ctx → M A)
    → Refines (fn tx)
    → Refines (with_user_sessions_locked user_id fn)
unfolding with_user_sessions_locked lock_user_sessions
Refines-locked user_id fn k =
    Refines-within_tx _ (Refines-bind call (λ _. fn tx) (quiet-Refines call IsQuiet-call) (λ _. k))

module _ (crypto : Crypto) (cfg : Config) where
  pub IsQuiet-revoke_session_access_tokens :
      (ids : List ℕ) → IsQuiet (revoke_session_access_tokens crypto cfg ids)
  unfolding revoke_session_access_tokens
  IsQuiet-revoke_session_access_tokens ids =
      IsQuiet-world (add_sessions (cfg.access_token_ttl + revoked_session_skew) ids) _
        (λ w. unlogged-world _) (IsQuiet-add_sessions _ ids)

  pub revoke_family-Refines :
      (user_id family : ℕ) → Refines (revoke_refresh_token_by_family crypto cfg user_id family)
  unfolding revoke_refresh_token_by_family
  revoke_family-Refines user_id family =
      Refines-bind (with_user_sessions_locked user_id (λ _. revoke_family family))
        (λ _. revoke_session_access_tokens crypto cfg (family ∷ []))
        (Refines-locked user_id (λ _. revoke_family family) (Refines-revoke_family family))
        (λ _. quiet-Refines _ (IsQuiet-revoke_session_access_tokens (family ∷ [])))

  pub revoke_user-Refines :
      (user_id : ℕ) → Refines (revoke_refresh_token_by_user_id crypto cfg user_id)
  unfolding revoke_refresh_token_by_user_id revoke_by_user_id
  revoke_user-Refines user_id =
      Refines-bind (with_user_sessions_locked user_id (λ _. revoke_by_user_id user_id))
        (revoke_session_access_tokens crypto cfg)
        (Refines-locked user_id (λ _. revoke_by_user_id user_id) (Refines-revoke (of_user user_id)))
        (λ ids. quiet-Refines _ (IsQuiet-revoke_session_access_tokens ids))

  pub revoke_others-Refines :
      (user_id keep : ℕ)
      → Refines (revoke_refresh_token_by_user_id_except_family crypto cfg user_id keep)
  unfolding revoke_refresh_token_by_user_id_except_family revoke_by_user_id_except_family
  revoke_others-Refines user_id keep =
      Refines-bind
        (with_user_sessions_locked user_id (λ _. revoke_by_user_id_except_family user_id keep))
        (revoke_session_access_tokens crypto cfg)
        (Refines-locked user_id (λ _. revoke_by_user_id_except_family user_id keep)
          (Refines-revoke (of_user_except user_id keep)))
        (λ ids. quiet-Refines _ (IsQuiet-revoke_session_access_tokens ids))

  as_not_found-world : (r : Result RefreshToken × World) → (as_not_found crypto cfg r).1 ≡ r.1
  as_not_found-world (ok a, w) = refl
  as_not_found-world (err x, w) = refl

  revoke_owned_family-Refines :
      (raw : String) (subject : IdText) → Refines (revoke_owned_family crypto cfg raw subject)
  unfolding revoke_owned_family
  revoke_owned_family-Refines raw subject =
      Refines-bind
        (λ w. as_not_found crypto cfg (get_by_token_hash_for_update (crypto.hash_sha256 raw) w)) _
        (quiet-Refines _ (
          IsQuiet-world (get_by_token_hash_for_update (crypto.hash_sha256 raw)) _
            (λ w. as_not_found-world (get_by_token_hash_for_update (crypto.hash_sha256 raw) w))
            (IsQuiet-get_by_token_hash_for_update (crypto.hash_sha256 raw))))
        λ rt.
          Refines-bind
            (throw_if (not (id_text_eq (text_of rt.user_id) subject)) invalid_access_token)
            (λ _. revoke_family rt.family >> pure rt.family)
            (quiet-Refines _ (IsQuiet-throw_if _ _))
            λ _.
              Refines-bind (revoke_family rt.family) (λ _. pure rt.family)
                (Refines-revoke_family rt.family) (λ _. Refines-pure _)

  pub IsQuiet-parse_id : (t : IdText) → IsQuiet (parse_id t)
  IsQuiet-parse_id (text_of id) = IsQuiet-pure _
  IsQuiet-parse_id blank = IsQuiet-pure _
  IsQuiet-parse_id malformed = IsQuiet-pure _

  pub revoke_by_token-Refines :
      (raw : String) (claims : AccessClaims)
      → Refines (revoke_family_by_refresh_token crypto cfg raw claims)
  unfolding revoke_family_by_refresh_token
  revoke_by_token-Refines raw claims =
      Refines-bind (parse_id claims.subject) _ (quiet-Refines _ (IsQuiet-parse_id claims.subject))
        λ user_id.
          Refines-bind
            (with_user_sessions_locked user_id
              (λ _. revoke_owned_family crypto cfg raw claims.subject))
            (λ family. revoke_session_access_tokens crypto cfg (family ∷ []) >> pure family)
            (Refines-locked user_id (λ _. revoke_owned_family crypto cfg raw claims.subject)
              (revoke_owned_family-Refines raw claims.subject))
            λ family.
              Refines-bind (revoke_session_access_tokens crypto cfg (family ∷ []))
                (λ _. pure family)
                (quiet-Refines _ (IsQuiet-revoke_session_access_tokens (family ∷ [])))
                (λ _. Refines-pure _)
