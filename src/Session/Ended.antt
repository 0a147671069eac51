-- ===== src/Session/Ended.antt =====
-- What ends a session: after it, no token of the session is unrevoked.
use maintmode.Base.{
  ℕ, ◌≡◌, refl, sym, ap, ◌∙◌, inl, inr, Bool, true, false, not, ◌||◌, List, [], ◌∷◌, map, arith,
  ◌==◌, Bool-cases, filter, All, uniq,
}
use maintmode.World.Errors.{ok}
use maintmode.World.Tables.{World}
use maintmode.World.Effect.{M, continue, ◌>>◌, call, pure}
use maintmode.Session.Refines.{IsQuiet}
use maintmode.Session.Tokens.{
  of_family, of_user, revoke_family, revoke_by_user_id, revoke_row, revoke, revoke_now, revoked_at,
  lock_user_sessions,
}
use maintmode.Session.Revoke.{
  with_user_sessions_locked, revoke_session_access_tokens, revoke_refresh_token_by_family,
  revoke_refresh_token_by_user_id,
}
use maintmode.Session.Services.{IsQuiet-revoke_session_access_tokens}
use maintmode.Session.Counts.{open_count-map, revoke_row-open, is_open, open_count}
use maintmode.Session.{Config, Crypto}
use maintmode.World.Tx.{Ctx, tx}
use maintmode.World.Tx.Rollback.{within_tx_ok}
use maintmode.World.Effect.Invert.{bind_ok, call_ok}
use maintmode.Entity.Session.{RefreshToken}

abbrev pub IsEnded : ℕ → World → Type 0
IsEnded family w = open_count family w.db.refresh_tokens ≡ 0

-- Every row of the session matches the condition, so none is left open.
revoke_row-closed :
    (family : ℕ) (where_expr : RefreshToken → Bool) (now : ℕ) (r : RefreshToken)
    → where_expr r ≡ true
    → is_open family (revoke_row where_expr now r) ≡ false
unfolding revoke_row revoked_at
revoke_row-closed family where_expr now r h = ground arith

revoke_row-other :
    (family : ℕ) (where_expr : RefreshToken → Bool) (now : ℕ) (r : RefreshToken)
    → is_open family r ≡ false
    → is_open family (revoke_row where_expr now r) ≡ false
unfolding revoke_row revoked_at
revoke_row-other family where_expr now r h = ground arith

open_count-revoked :
    (family : ℕ) (where_expr : RefreshToken → Bool) (now : ℕ) (rows : List RefreshToken)
    → All (λ r. (where_expr r || not (r.family == family)) ≡ true) rows
    → open_count family (map (revoke_row where_expr now) rows) ≡ 0
open_count-revoked family where_expr now [] h = refl
open_count-revoked family where_expr now (r ∷ rows) (p, h) =
    let rest = open_count-revoked family where_expr now rows h in
    elim (Bool-cases (where_expr r)) [
      | inl covered ↦ rw (revoke_row-closed family where_expr now r covered) rest
      | inr spared ↦
          let other : not (r.family == family) ≡ true = rw spared at p in
          let shut : is_open family r ≡ false = ground arith in
          rw (revoke_row-other family where_expr now r shut) rest
    ]

-- What a revocation that returned did to the rows.
pub revoke_ok :
    (where_expr : RefreshToken → Bool) (w : World) {ids : List ℕ} {v : World}
    → revoke where_expr w ≡ (ok ids, v)
    → (v.db.refresh_tokens ≡ map (revoke_row where_expr w.clock) w.db.refresh_tokens)
      × (ids ≡ uniq (map (λ r. r.family) (filter where_expr w.db.refresh_tokens)))
unfolding revoke revoke_now
revoke_ok where_expr w h =
    let (_, x, called, rest) = bind_ok (call w) _ h in
    let same = (call_ok w called).same in
    (
      ap (λ r. r.1.db.refresh_tokens) (sym rest)
          ∙ ap (λ z. map (revoke_row where_expr z.clock) z.db.refresh_tokens) same,
      sym (cc rest)
          ∙ ap (λ z. uniq (map (λ r. r.family) (filter where_expr z.db.refresh_tokens))) same,
    )

pub locked_ok {ℓ} :
    {A : Type ℓ} (user_id : ℕ) (fn : Ctx → M A) (w : World) {a : A} {v : World}
    → with_user_sessions_locked user_id fn w ≡ (ok a, v)
    → (x y : World) × (fn tx x ≡ (ok a, y)) × (x.db ≡ w.db) × (x.clock ≡ w.clock) × (v.db ≡ y.db)
unfolding with_user_sessions_locked lock_user_sessions
locked_ok user_id fn w h =
    let done = within_tx_ok (λ ctx. lock_user_sessions user_id >> fn ctx) w h in
    let (_, x, called, rest) = bind_ok (call done.before) _ done.ran in
    let same = (call_ok done.before called).same in
    (
      x,
      done.after,
      rest,
      ap (λ z. z.db) same ∙ done.same_db,
      ap (λ z. z.clock) same ∙ done.same_clock,
      done.kept_db,
    )

All-true {ℓ} : {A : Type ℓ} (P : A → Type 0) (xs : List A) → ((x : A) → P x) → All P xs
All-true P [] h = tt
All-true P (x ∷ xs) h = (h x, All-true P xs h)

-- A tail that leaves the tables alone.
pub quiet_tail {ℓ κ} :
    {A : Type ℓ} {B : Type κ} (m : M A) (b : B) (w : World) {a : B} {v : World}
    → IsQuiet m
    → continue (m w) (λ _. pure b) ≡ (ok a, v)
    → (v.db ≡ w.db) × (a ≡ b)
quiet_tail m b w q h =
    let (_, x, ran, rest) = bind_ok (m w) _ h in
    (ap (λ r. r.1.db) (sym rest) ∙ ap (λ r. r.1.db) (sym ran) ∙ q.same w, sym (cc rest))

pub family_covered :
    (family : ℕ) (r : RefreshToken) → (of_family family r || not (r.family == family)) ≡ true
family_covered family r = ground arith

revoke_family_ok :
    (family : ℕ) (w : World) {u : Unit {0}} {v : World}
    → revoke_family family w ≡ (ok u, v)
    → v.db.refresh_tokens ≡ map (revoke_row (of_family family) w.clock) w.db.refresh_tokens
unfolding revoke_family
revoke_family_ok family w h =
    let (ids, x, ran, rest) = bind_ok (revoke (of_family family) w) _ h in
    let (rows, _) = revoke_ok (of_family family) w ran in
    ap (λ r. r.1.db.refresh_tokens) (sym rest) ∙ rows

pub revoke_family-IsEnded :
    (family : ℕ) (w : World) {u : Unit {0}} {v : World}
    → revoke_family family w ≡ (ok u, v)
    → IsEnded family v
revoke_family-IsEnded family w {v} h =
    let rows = revoke_family_ok family w h in
    rw rows (
      open_count-revoked family (of_family family) w.clock w.db.refresh_tokens
        (All-true _ w.db.refresh_tokens (family_covered family)))

-- A session that has ended stays so under a revocation.
IsEnded-revoke_family :
    (family other : ℕ) (w : World) {u : Unit {0}} {v : World}
    → revoke_family other w ≡ (ok u, v)
    → IsEnded family w
    → IsEnded family v
IsEnded-revoke_family family other w h ended =
    let rows = revoke_family_ok other w h in
    let le =
      open_count-map family (revoke_row (of_family other) w.clock) w.db.refresh_tokens
        (revoke_row-open family (of_family other) w.clock) in
    rw rows (omega (arith, le, ended))

module _ (crypto : Crypto) (cfg : Config) where
  pub revoke_by_family-IsEnded :
      (user_id family : ℕ) (w : World) {u : Unit {0}} {v : World}
      → revoke_refresh_token_by_family crypto cfg user_id family w ≡ (ok u, v)
      → IsEnded family v
  unfolding revoke_refresh_token_by_family
  revoke_by_family-IsEnded user_id family w {v} h =
      let (_, x, ran, rest) =
        bind_ok (with_user_sessions_locked user_id (λ _. revoke_family family) w) _ h in
      let (y, z, inner, _, _, at_x) = locked_ok user_id (λ _. revoke_family family) w ran in
      let ended = revoke_family-IsEnded family y inner in
      let at_v : v.db ≡ x.db =
        ap (λ r. r.1.db) (sym rest)
        ∙ (IsQuiet-revoke_session_access_tokens crypto cfg (family ∷ [])).same x in
      rw (at_v, at_x) ended

  pub revoke_by_user_ok :
      (user_id : ℕ) (w : World) {u : Unit {0}} {v : World}
      → revoke_refresh_token_by_user_id crypto cfg user_id w ≡ (ok u, v)
      → v.db.refresh_tokens ≡ map (revoke_row (of_user user_id) w.clock) w.db.refresh_tokens
  unfolding revoke_refresh_token_by_user_id revoke_by_user_id
  revoke_by_user_ok user_id w {v} h =
      let (ids, x, ran, rest) =
        bind_ok (with_user_sessions_locked user_id (λ _. revoke_by_user_id user_id) w)
          (revoke_session_access_tokens crypto cfg) h in
      let (y, z, inner, db, clock, at_x) =
        locked_ok user_id (λ _. revoke_by_user_id user_id) w ran in
      let (rows, _) = revoke_ok (of_user user_id) y inner in
      let at_v : v.db ≡ x.db =
        ap (λ r. r.1.db) (sym rest)
        ∙ (IsQuiet-revoke_session_access_tokens crypto cfg ids).same x in
      ap (λ d. d.refresh_tokens) at_v
      ∙ ap (λ d. d.refresh_tokens) at_x
      ∙ rows
      ∙ ap (λ t. map (revoke_row (of_user user_id) t) y.db.refresh_tokens) clock
      ∙ ap (λ d. map (revoke_row (of_user user_id) w.clock) d.refresh_tokens) db

  -- A session all of whose rows are the user's ends.
  pub revoke_by_user-IsEnded :
      (user_id family : ℕ) (w : World) {u : Unit {0}} {v : World}
      → All (λ r. (of_user user_id r || not (r.family == family)) ≡ true) w.db.refresh_tokens
      → revoke_refresh_token_by_user_id crypto cfg user_id w ≡ (ok u, v)
      → IsEnded family v
  revoke_by_user-IsEnded user_id family w {v} owned h =
      let rows = revoke_by_user_ok user_id w h in
      rw rows (open_count-revoked family (of_user user_id) w.clock w.db.refresh_tokens owned)
