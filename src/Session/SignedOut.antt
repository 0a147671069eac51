-- ===== src/Session/SignedOut.antt =====
-- A logout that returned has ended the session that the access token names, and a logout from
-- everywhere every session of the user.
use maintmode.World.Errors.{invalid_access_token, ok}
use maintmode.Base.{
  ℕ, String, ◌≡◌, sym, ap, subst, ◌∙◌, ◌≢◌, ◌⊎◌, inl, inr, true, not, ◌||◌, [], ◌∷◌, str_eq, ◌==◌,
  ==→≡, Bool-cases, All,
}
use maintmode.World.Tables.{World}
use maintmode.World.Effect.{M, ◌>>◌, pure}
use maintmode.World.Effect.Invert.{bind_ok, guard_ok}
use maintmode.Session.{Config, Crypto, parsed}
use maintmode.Session.Tokens.{revoke_family, of_user, get_by_token_hash_for_update}
use maintmode.Session.Revoke.{
  parse_id, with_user_sessions_locked, revoke_session_access_tokens, revoke_refresh_token_by_family,
  as_not_found, revoke_owned_family, revoke_family_by_refresh_token,
}
use maintmode.Session.Logout.{
  is_blank, verify_access_token, logged_out, logout_with, revoke_named_session, revoke_unless_ended,
  revoke_access_token_session, ended_by_refresh_token, logout, logout_all,
}
use maintmode.Entity.Session.{AccessClaims, IdText, text_of}
use maintmode.Session.Services.{IsQuiet-revoke_session_access_tokens}
use maintmode.Session.Logouts.{IsQuiet-logged_out}
use maintmode.Session.Ended.{
  IsEnded, quiet_tail, locked_ok, revoke_family-IsEnded, revoke_by_family-IsEnded,
  revoke_by_user-IsEnded,
}

module _ (crypto : Crypto) (cfg : Config) where
  revoke_owned_family-IsEnded :
      (raw : String) (subject : IdText) (w : World) {family : ℕ} {v : World}
      → revoke_owned_family crypto cfg raw subject w ≡ (ok family, v)
      → IsEnded family v
  unfolding revoke_owned_family
  revoke_owned_family-IsEnded raw subject w {family} {v} h =
      let (rt, x, _, rest) =
        bind_ok (as_not_found crypto cfg (get_by_token_hash_for_update (crypto.hash_sha256 raw) w))
          _ h in
      let (_, owned) =
        guard_ok _ invalid_access_token x (λ _. revoke_family rt.family >> pure rt.family) rest in
      let (u, y, ran, last) = bind_ok (revoke_family rt.family x) (λ _. pure rt.family) owned in
      let at_v : y ≡ v = ap (λ r. r.1) last in
      let same : rt.family ≡ family = cc last in
      subst (λ z. IsEnded family z) at_v
        (subst (λ f. IsEnded f y) same (revoke_family-IsEnded rt.family x ran))

  revoke_by_token-IsEnded :
      (raw : String) (claims : AccessClaims) (w : World) {family : ℕ} {v : World}
      → revoke_family_by_refresh_token crypto cfg raw claims w ≡ (ok family, v)
      → IsEnded family v
  unfolding revoke_family_by_refresh_token
  revoke_by_token-IsEnded raw claims w {family} {v} h =
      let (user_id, x, _, rest) = bind_ok (parse_id claims.subject w) _ h in
      let (ended, y, ran, tail) =
        bind_ok
          (with_user_sessions_locked user_id
            (λ _. revoke_owned_family crypto cfg raw claims.subject) x)
          (λ f. revoke_session_access_tokens crypto cfg (f ∷ []) >> pure f) rest in
      let (before, after, inner, _, _, at_y) =
        locked_ok user_id (λ _. revoke_owned_family crypto cfg raw claims.subject) x ran in
      let gone = revoke_owned_family-IsEnded raw claims.subject before inner in
      let (at_v, same) =
        quiet_tail (revoke_session_access_tokens crypto cfg (ended ∷ [])) ended y
          (IsQuiet-revoke_session_access_tokens crypto cfg (ended ∷ [])) tail in
      rw (same, at_v, at_y) gone

  -- What the first half of a logout answers is no session, or one that it ended.
  ended_by_refresh_token-IsEnded :
      (raw : String) (claims : AccessClaims) (w : World) {family : ℕ} {v : World}
      → ended_by_refresh_token crypto cfg raw claims w ≡ (ok family, v)
      → (family ≡ 0) ⊎ IsEnded family v
  unfolding ended_by_refresh_token
  ended_by_refresh_token-IsEnded raw claims w h = elim (Bool-cases (str_eq raw "")) [
    | inl empty ↦ inl (sym (cc (rw empty at h)))
    | inr given ↦ inr (revoke_by_token-IsEnded raw claims w (rw given at h))
  ]

  revoke_unless_ended-IsEnded :
      (claims : AccessClaims) (ended session_id : ℕ) (w : World) {u : Unit {0}} {v : World}
      → session_id ≢ 0
      → (ended ≡ 0) ⊎ IsEnded ended w
      → revoke_unless_ended crypto cfg claims ended session_id w ≡ (ok u, v)
      → IsEnded session_id v
  unfolding revoke_unless_ended
  revoke_unless_ended-IsEnded claims ended session_id w {u} {v} named before h =
      elim (Bool-cases (session_id == ended)) [
        | inl same ↦
            let e = ==→≡ session_id ended same in
            let at_v : w ≡ v = ap (λ r. r.1) (rw same at h) in
            elim before [
              | inl none_ended ↦ absurd (named (e ∙ none_ended))
              | inr gone ↦
                  subst (λ z. IsEnded session_id z) at_v (subst (λ f. IsEnded f w) (sym e) gone)
            ]
        | inr other ↦
            let (user_id, x, _, rest) =
              bind_ok (parse_id claims.subject w)
                (λ user_id. revoke_refresh_token_by_family crypto cfg user_id session_id)
                (rw other at h) in
            revoke_by_family-IsEnded crypto cfg user_id session_id x rest
      ]

  -- The parts of a logout that returned.
  logout_with_ok :
      (token : String) (revoke_func : AccessClaims → M (Unit {0})) (w : World)
      {claims : AccessClaims} {u : Unit {0}} {v : World}
      → crypto.parse_with_claims cfg.issuer w.clock token ≡ parsed claims
      → logout_with crypto cfg token revoke_func w ≡ (ok u, v)
      → (x : World) × (revoke_func claims w ≡ (ok tt, x)) × (v.db ≡ x.db)
  unfolding logout_with verify_access_token
  logout_with_ok token revoke_func w {claims} {u} {v} valid h =
      let (_, checked) =
        guard_ok (is_blank claims.id) invalid_access_token w
          (λ _. revoke_func claims >> logged_out crypto cfg claims) (rw valid at h) in
      let (_, x, ran, rest) =
        bind_ok (revoke_func claims w) (λ _. logged_out crypto cfg claims) checked in
      (x, ran, ap (λ r. r.1.db) (sym rest) ∙ (IsQuiet-logged_out crypto cfg claims).same x)

  -- A logout that returns, with an access token that names a session, has left no unrevoked
  -- refresh token of that session, whichever refresh token was presented beside it.
  pub logout-IsEnded :
      (access raw : String) (w : World) {v : World} (claims : AccessClaims) (session_id : ℕ)
      → crypto.parse_with_claims cfg.issuer w.clock access ≡ parsed claims
      → claims.session_id ≡ text_of session_id
      → session_id ≢ 0
      → logout crypto cfg access raw w ≡ (ok tt, v)
      → IsEnded session_id v
  unfolding logout revoke_access_token_session revoke_named_session
  logout-IsEnded access raw w {v} claims session_id valid names named h =
      let (x, ran, at_v) = logout_with_ok access _ w valid h in
      let (ended, y, first, second) =
        bind_ok (ended_by_refresh_token crypto cfg raw claims w)
          (λ ended. revoke_named_session crypto cfg claims ended claims.session_id) ran in
      let before = ended_by_refresh_token-IsEnded raw claims w first in
      let gone =
        revoke_unless_ended-IsEnded claims ended session_id y named before (rw names at second) in
      rw at_v gone

  -- A logout from everywhere that returns has left no unrevoked refresh token of any session of
  -- the user whom the access token names.
  pub logout_all-IsEnded :
      (access : String) (w : World) {v : World} (claims : AccessClaims) (user_id family : ℕ)
      → crypto.parse_with_claims cfg.issuer w.clock access ≡ parsed claims
      → claims.subject ≡ text_of user_id
      → All (λ r. (of_user user_id r || not (r.family == family)) ≡ true) w.db.refresh_tokens
      → logout_all crypto cfg access w ≡ (ok tt, v)
      → IsEnded family v
  unfolding logout_all
  logout_all-IsEnded access w {v} claims user_id family valid names owned h =
      let (x, ran, at_v) = logout_with_ok access _ w valid h in
      let gone = revoke_by_user-IsEnded crypto cfg user_id family w owned (rw names at ran) in
      rw at_v gone
