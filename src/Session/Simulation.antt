-- ===== src/Session/Simulation.antt =====
-- Each operation on sessions takes the table along abstract steps.
use maintmode.Base.{
  ℕ, String, ◌≡◌, refl, sym, ap, subst, ◌∙◌, inl, inr, Bool, true, false, Option, none, some, ◌∷◌,
  map, arith, ◌==◌, Bool-cases, find, any,
}
use maintmode.World.Errors.{Error, Result, ok, err, missing_session_id, user_blocked}
use maintmode.World.Tables.{World}
use maintmode.World.Effect.{continue, call, query, pure, throw_if, utc_now, fresh_id}
use maintmode.World.Effect.Call.{call_world}
use maintmode.Session.Issue.{
  access_claims, session_ttls, draw_token, signed, session_ttls_for, issue_access_token,
  generate_refresh_token, get_by_id, found_user,
}
use maintmode.Session.{Config, Crypto}
use maintmode.Session.Tokens.{
  revoke_now, of_family, with_refresh_tokens, unrevoked_with_hash, rotate_now, insert_now,
  to_db_refresh_token, found, is_live, rotate, save, revoke, revoke_family, get_by_token_hash,
  get_by_token_hash_for_update, has_live_token, has_hash, rotate_row,
}
use maintmode.World.Effect.Invert.{call_ok, bind_ok}
use maintmode.Entity.User.{User, is_blocked}
use maintmode.Entity.Session.{RefreshToken}
use maintmode.Session.Spec.{sessions, end, one}
use maintmode.Session.Refines.{
  Refines-pure, IsQuiet-utc_now, Refines, IsQuiet, quiet-Refines, IsQuiet-pure, IsQuiet-throw_if,
  IsQuiet-call, IsQuiet-fresh_id, IsQuiet-bind, IsQuiet-query, Refines-bind,
}

-- Reads, and what touches no table.
IsQuiet-found : (o : Option RefreshToken) → IsQuiet (found o)
IsQuiet-found none = IsQuiet-pure _
IsQuiet-found (some r) = IsQuiet-pure _

pub IsQuiet-get_by_token_hash : (hash : String) → IsQuiet (get_by_token_hash hash)
unfolding get_by_token_hash
IsQuiet-get_by_token_hash hash =
    IsQuiet-bind (query (λ db. find (has_hash hash) db.refresh_tokens)) _ (IsQuiet-query _)
      IsQuiet-found

pub IsQuiet-get_by_token_hash_for_update :
    (hash : String) → IsQuiet (get_by_token_hash_for_update hash)
unfolding get_by_token_hash_for_update
IsQuiet-get_by_token_hash_for_update hash =
    IsQuiet-bind (query (λ db. find (has_hash hash) db.refresh_tokens)) _ (IsQuiet-query _)
      IsQuiet-found

pub IsQuiet-has_live_token : (family : ℕ) → IsQuiet (has_live_token family)
unfolding has_live_token
IsQuiet-has_live_token family =
    IsQuiet-bind utc_now _ IsQuiet-utc_now
      (λ now. IsQuiet-query (λ db. any (is_live now family) db.refresh_tokens))

IsQuiet-found_user : (o : Option User) → IsQuiet (found_user o)
IsQuiet-found_user none = IsQuiet-pure _
IsQuiet-found_user (some r) = IsQuiet-pure _

pub IsQuiet-get_by_id : (user_id : ℕ) → IsQuiet (get_by_id user_id)
unfolding get_by_id
IsQuiet-get_by_id user_id =
    IsQuiet-bind (query (λ db. find (λ u. u.id == user_id) db.users)) _ (IsQuiet-query _)
      IsQuiet-found_user

module _ (crypto : Crypto) (cfg : Config) where
  pub IsQuiet-session_ttls_for : (user_id : ℕ) → IsQuiet (session_ttls_for crypto cfg user_id)
  unfolding session_ttls_for
  IsQuiet-session_ttls_for user_id =
      IsQuiet-bind (get_by_id user_id) (λ u. pure (session_ttls crypto cfg u))
        (IsQuiet-get_by_id user_id) (λ u. IsQuiet-pure _)

  IsQuiet-signed : (o : Option String) → IsQuiet (signed crypto cfg o)
  unfolding signed
  IsQuiet-signed none = IsQuiet-pure _
  IsQuiet-signed (some t) = IsQuiet-pure _

  pub IsQuiet-issue_access_token :
      (ttl : ℕ) (user : User) (session_id : ℕ)
      → IsQuiet (issue_access_token crypto cfg ttl user session_id)
  unfolding issue_access_token
  IsQuiet-issue_access_token ttl user session_id =
      IsQuiet-bind (throw_if (is_blocked user) user_blocked) _ (IsQuiet-throw_if _ _) λ _.
        IsQuiet-bind (throw_if (session_id == 0) missing_session_id) _ (IsQuiet-throw_if _ _) λ _.
          IsQuiet-bind utc_now _ IsQuiet-utc_now λ now.
            IsQuiet-bind fresh_id _ IsQuiet-fresh_id λ jti.
              IsQuiet-signed
                (crypto.signed_string (access_claims crypto cfg now ttl user session_id jti))

  pub IsQuiet-generate_refresh_token : IsQuiet (generate_refresh_token crypto cfg)
  unfolding generate_refresh_token draw_token
  IsQuiet-generate_refresh_token =
      IsQuiet-bind call (λ _. draw_token crypto cfg) IsQuiet-call
        λ _.
          IsQuiet-bind fresh_id
            (λ draw. pure (crypto.random_text draw, crypto.hash_sha256 (crypto.random_text draw)))
            IsQuiet-fresh_id (λ _. IsQuiet-pure _)

-- The statements that write.
pub Refines-revoke : (where_expr : RefreshToken → Bool) → Refines (revoke where_expr)
unfolding revoke revoke_now
Refines-revoke where_expr =
    Refines-bind call (λ _. revoke_now where_expr) (quiet-Refines call IsQuiet-call)
      λ _. record { reach = λ w. one (end where_expr w.clock refl (omega arith)) }

pub Refines-revoke_family : (family : ℕ) → Refines (revoke_family family)
unfolding revoke_family
Refines-revoke_family family =
    Refines-bind (revoke (of_family family)) (λ _. pure tt) (Refines-revoke (of_family family))
      (λ _. Refines-pure _)

rotate_now_ok :
    (hash successor : String) (grace : ℕ) (w : World) {u : Unit {0}} {v : World}
    → rotate_now hash successor grace w ≡ (ok u, v)
    → v ≡ record w {
      db =
          with_refresh_tokens
            (map (rotate_row w.clock hash successor grace) w.db.refresh_tokens)
            w.db;
    }
unfolding rotate_now
rotate_now_ok hash successor grace w h =
    elim (Bool-cases (any (unrevoked_with_hash hash) w.db.refresh_tokens)) [
      | inl there_is ↦ ap (λ r. r.1) (sym (rw there_is at h))
      | inr none_is ↦ absurd (cc (rw none_is at h))
    ]

pub rotate_ok :
    (hash successor : String) (grace : ℕ) (w : World) {u : Unit {0}} {v : World}
    → rotate hash successor grace w ≡ (ok u, v)
    → (sessions v ≡ record {
      rows = map (rotate_row w.clock hash successor grace) w.db.refresh_tokens;
      next = w.next_id;
    })
      × (v.clock ≡ w.clock)
unfolding rotate
rotate_ok hash successor grace w h =
    let (_, x, called, rest) = bind_ok (call w) _ h in
    let done_call = call_ok w called in
    let e = rotate_now_ok hash successor grace x rest in
    (rw (e, done_call.same) refl, rw (e, done_call.same) refl)

insert_now_ok :
    (row : RefreshToken) (w : World) {u : Unit {0}} {v : World}
    → insert_now row w ≡ (ok u, v)
    → (any (has_hash row.token) w.db.refresh_tokens ≡ false)
      × (v ≡ record w { db = with_refresh_tokens (row ∷ w.db.refresh_tokens) w.db })
unfolding insert_now
insert_now_ok row w h = elim (Bool-cases (any (has_hash row.token) w.db.refresh_tokens)) [
  | inl there_is ↦ absurd (cc (rw there_is at h))
  | inr none_is ↦ (none_is, ap (λ r. r.1) (sym (rw none_is at h)))
]

pub save_ok :
    (t : RefreshToken) (w : World) {u : Unit {0}} {v : World}
    → save t w ≡ (ok u, v)
    → (any (has_hash t.token) w.db.refresh_tokens ≡ false)
      × (sessions v
          ≡ record { rows = to_db_refresh_token w.clock t ∷ w.db.refresh_tokens; next = w.next_id })
unfolding save to_db_refresh_token
save_ok t w h =
    let (_, x, called, rest) = bind_ok (call w) _ h in
    let done_call = call_ok w called in
    let (is_new, e) = insert_now_ok (to_db_refresh_token x.clock t) x rest in
    (rw done_call.same at is_new, rw (e, done_call.same) refl)

-- An insertion that fails leaves the table.
insert_now_err :
    (row : RefreshToken) (w : World) {e : Error} {v : World} → insert_now row w ≡ (err e, v) → v ≡ w
unfolding insert_now
insert_now_err row w h = elim (Bool-cases (any (has_hash row.token) w.db.refresh_tokens)) [
  | inl there_is ↦ ap (λ r. r.1) (sym (rw there_is at h))
  | inr none_is ↦ absurd (cc (rw none_is at h))
]

pub save_err :
    (t : RefreshToken) (w : World) {e : Error} {v : World}
    → save t w ≡ (err e, v)
    → sessions v ≡ sessions w
unfolding save
save_err t w {e} {v} h = go (call w) refl h
  where
    go :
        (r : Result (Unit {0}) × World)
        → call w ≡ r
        → continue r (λ _ x. insert_now (to_db_refresh_token x.clock t) x) ≡ (err e, v)
        → sessions v ≡ sessions w
    go (ok u, x) called k =
        let done_call = call_ok w called in
        rw (insert_now_err (to_db_refresh_token x.clock t) x k, done_call.same) refl
    go (err y, x) called k =
        let (fs, same) = call_world w in
        let at_v : x ≡ v = ap (λ r. r.1) k in rw (← at_v, sym (ap (λ r. r.1) called) ∙ same) refl

-- A rotation that returned had an unrevoked row to rotate.
pub rotate_ok-there :
    (hash successor : String) (grace : ℕ) (w : World) {u : Unit {0}} {v : World}
    → rotate hash successor grace w ≡ (ok u, v)
    → any (unrevoked_with_hash hash) w.db.refresh_tokens ≡ true
unfolding rotate rotate_now
rotate_ok-there hash successor grace w h =
    let (_, x, called, rest) = bind_ok (call w) _ h in
    let same = (call_ok w called).same in
    elim (Bool-cases (any (unrevoked_with_hash hash) x.db.refresh_tokens)) [
      | inl there_is ↦
          subst (λ z. any (unrevoked_with_hash hash) z.db.refresh_tokens ≡ true) same there_is
      | inr none_is ↦ absurd (cc (rw none_is at rest))
    ]
