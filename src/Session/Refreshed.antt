-- ===== src/Session/Refreshed.antt =====
-- What a refresh that returned has checked and done, and what one that lost a race does not do.
use maintmode.Base.{
  ℕ, ◌+◌, ◌-◌, ◌≤◌, ◌<◌, String, ◌≡◌, refl, sym, ap, subst, ◌∙◌, inl, inr, true, false, not, Option,
  none, some, ◌∷◌, map, arith, ltb, ◌==◌, ==→≡, ltb→lt, Bool-cases, from_ptr, is_some, find, any,
  Member, find-Member,
}
use maintmode.World.Errors.{
  Error, Result, ok, err, token_reuse, lock_busy, invalid_refresh_token, logout_already,
  user_blocked, token_expired,
}
use maintmode.World.Tables.{Db, World}
use maintmode.World.Effect.{◌>>=◌, ◌>>◌, call, query, pure, throw, unlogged}
use maintmode.Session.Refresh.{
  publish_session_revoked, refresh_within_grace, reuse_revoked, refuse_reuse, refresh_token_row,
  held_refresh, refresh, fails_as, acquire, releasing, replace_token, rotate_checked,
  rotate_refresh_token, busy_if_rotated, is_already_rotated, issue_access_token_by_user_id,
}
use maintmode.Session.Revoke.{revoke_refresh_token_by_family}
use maintmode.Session.Tokens.{
  get_by_token_hash, rotate_row, is_live, has_hash, to_db_refresh_token, has_live_token,
}
use maintmode.World.Effect.Call.{call_db}
use maintmode.Session.Rotation.{get_by_token_hash_ok}
use maintmode.World.Effect.Invert.{call_ok, Answered-db, query_ok, bind_ok, guard_ok, Answered}
use maintmode.Session.Operations.{
  IsQuiet-refresh_within_grace, IsQuiet-issue_access_token_by_user_id, replace_token-Succeeds,
}
use maintmode.Session.Simulation.{IsQuiet-generate_refresh_token}
use maintmode.World.Tx.{background, within_tx}
use maintmode.World.Tx.Rollback.{within_tx_ok}
use maintmode.Session.{Config, Crypto}
use maintmode.Session.Issue.{
  SessionTtls, session_ttls, session_ttls_for, generate_refresh_token, issue_access_token,
  get_by_id, found_user, token_pair, new_token,
}
use maintmode.Entity.User.{User, is_blocked}
use maintmode.Entity.Session.{RefreshToken, TokenPair}
use maintmode.Session.Spec.{Sessions, sessions, Succeeds}

-- `session_ttls`: never longer than configured.
session_ttls-le :
    (crypto : Crypto) (cfg : Config) (user : User)
    → (session_ttls crypto cfg user).max_lifetime ≤ cfg.session_max_lifetime
unfolding session_ttls
session_ttls-le crypto cfg user = elim (Bool-cases (crypto.is_break_glass_email user.email)) [
  | inl break_glass ↦ rw break_glass (ground arith)
  | inr other ↦ rw other (omega arith)
]

-- A user who may be given an access token.
pub record Active (user_id : ℕ) (db : Db) : Type 0 where
  pub user : User
  pub stored : Member user db.users
  pub same_id : user.id ≡ user_id
  pub unblocked : is_blocked user ≡ false

found_user_ok :
    (o : Option User) (w : World) {u : User} {v : World}
    → found_user o w ≡ (ok u, v)
    → (o ≡ some u) × (v ≡ w)
found_user_ok none w h = absurd (cc h)
found_user_ok (some r) w h = (cc h, cc h)

get_by_id_ok :
    (user_id : ℕ) (w : World) {u : User} {v : World}
    → get_by_id user_id w ≡ (ok u, v)
    → Member u w.db.users × (u.id ≡ user_id) × Answered w v
unfolding get_by_id
get_by_id_ok user_id w {u} h =
    let (o, x, asked, rest) =
      bind_ok (query (λ db. find (λ u. u.id == user_id) db.users) w) found_user h in
    let (value, same) = query_ok _ w asked in
    let (e, at) = found_user_ok o x rest in
    let (m, p) = find-Member (λ u. u.id == user_id) w.db.users (sym value ∙ e) in
    (m, ==→≡ u.id user_id p, subst (Answered w) (sym at) same)

Succeeds-rows :
    {old new : RefreshToken} {s t s' t' : Sessions}
    → s.rows ≡ s'.rows
    → t.rows ≡ t'.rows
    → Succeeds old new s t
    → Succeeds old new s' t'
Succeeds-rows {old} {new} e f k = record {
  grace = k.grace;
  now = k.now;
  was_there = subst (Member old) e k.was_there;
  was_unrevoked = k.was_unrevoked;
  same_family = k.same_family;
  same_user = k.same_user;
  same_start = k.same_start;
  hash_is_new = subst (λ rows. any (has_hash new.token) rows ≡ false) e k.hash_is_new;
  replaced =
      sym f
      ∙ k.replaced
      ∙ ap (λ rows. new ∷ map (rotate_row k.now old.token new.token k.grace) rows) e;
}

module _ (crypto : Crypto) (cfg : Config) where
  session_ttls_for_ok :
      (user_id : ℕ) (w : World) {ttls : SessionTtls} {v : World}
      → session_ttls_for crypto cfg user_id w ≡ (ok ttls, v)
      → (ttls.max_lifetime ≤ cfg.session_max_lifetime) × Answered w v
  unfolding session_ttls_for
  session_ttls_for_ok user_id w {ttls} {v} h =
      let (user, x, asked, rest) =
        bind_ok (get_by_id user_id w) (λ u. pure (session_ttls crypto cfg u)) h in
      let (_, _, same) = get_by_id_ok user_id w asked in
      let value : session_ttls crypto cfg user ≡ ttls = cc rest in
      let at_v : x ≡ v = ap (λ r. r.1) rest in
      (
        subst (λ (t : SessionTtls). t.max_lifetime ≤ cfg.session_max_lifetime) value
            (session_ttls-le crypto cfg user),
        subst (Answered w) at_v same,
      )

  issue_by_user_id_ok :
      (user_id family ttl : ℕ) (w : World) {token : String} {v : World}
      → issue_access_token_by_user_id crypto cfg user_id family ttl w ≡ (ok token, v)
      → Active user_id w.db
  unfolding issue_access_token_by_user_id issue_access_token
  issue_by_user_id_ok user_id family ttl w h =
      let (user, x, asked, rest) = bind_ok (get_by_id user_id w) _ h in
      let (stored, same_id, _) = get_by_id_ok user_id w asked in
      let (unblocked, _) = guard_ok (is_blocked user) user_blocked x _ rest in
      record { user = user; stored = stored; same_id = same_id; unblocked = unblocked }

  -- A rotation: the checks it passed, and the step it took.
  pub record Rotated (old : RefreshToken) (now : ℕ) (w v : World) : Type 0 where
    pub not_idle : now - old.created_at ≤ cfg.session_inactive_lifetime
    pub not_over : now - old.session_started_at ≤ cfg.session_max_lifetime
    pub owner : Active old.user_id w.db
    pub new : RefreshToken
    pub expiry : new.expires_at ≡ now + cfg.refresh_token_ttl
    pub succession : Succeeds old new (sessions w) (sessions v)

  busy_ok :
      (r : Result (Unit {0}) × World) {u : Unit {0}} {v : World}
      → busy_if_rotated r ≡ (ok u, v)
      → r ≡ (ok u, v)
  unfolding busy_if_rotated
  busy_ok (ok a, w) h = h
  busy_ok (err e, w) h = elim (Bool-cases (is_already_rotated e)) [
    | inl is ↦ absurd (cc (rw is at h))
    | inr other ↦ absurd (cc (rw other at h))
  ]

  not_ltb : (a b : ℕ) → ltb a b ≡ false → b ≤ a
  not_ltb a b h = ground arith

  -- The step of the rotation, from the world in which its transaction begins.
  pub record Succession (old : RefreshToken) (now : ℕ) (w v : World) : Type 0 where
    pub new : RefreshToken
    pub expiry : new.expires_at ≡ now + cfg.refresh_token_ttl
    pub steps : Succeeds old new (sessions w) (sessions v)

  rotate_checked-Succession :
      (old : RefreshToken) (now : ℕ) (ip : String) (ttls : SessionTtls) (access : String)
      (generated : String × String) (w : World) {pair : TokenPair} {v : World}
      → Member old w.db.refresh_tokens
      → old.revoked ≡ false
      → rotate_checked crypto cfg old now ip ttls access generated w ≡ (ok pair, v)
      → Succession old now w v
  unfolding rotate_checked to_db_refresh_token
  rotate_checked-Succession old now ip ttls access generated w {v = v} member unrevoked h =
      let (u, d, replaced, last) =
        bind_ok
          (busy_if_rotated
            (within_tx background (λ _. replace_token crypto cfg now old generated.1 ip) w))
          (λ _. pure (token_pair crypto cfg access generated.0 0 old.session_started_at ttls)) h in
      let done =
        within_tx_ok (λ _. replace_token crypto cfg now old generated.1 ip) w
          (busy_ok _ replaced) in
      let (succession, _) =
        replace_token-Succeeds crypto cfg now old generated.1 ip done.before
          (subst (λ db. Member old db.refresh_tokens) (sym done.same_db) member) unrevoked
          done.ran in
      let db_v : v.db ≡ done.after.db = ap (λ r. r.1.db) (sym last) ∙ done.kept_db in
      record {
        new = to_db_refresh_token done.before.clock (
            new_token crypto cfg generated.1 old.user_id old.family (now + cfg.refresh_token_ttl)
              old.session_started_at ip);
        expiry = refl;
        steps =
            Succeeds-rows (ap (λ db. db.refresh_tokens) done.same_db)
              (ap (λ db. db.refresh_tokens) (sym db_v)) succession;
      }

  -- The token pair of a rotation is minted without a write.
  minted_ok :
      (old : RefreshToken) (now : ℕ) (ip : String) (ttls : SessionTtls) (w : World)
      {pair : TokenPair} {v : World}
      → Member old w.db.refresh_tokens
      → old.revoked ≡ false
      → (issue_access_token_by_user_id crypto cfg old.user_id old.family ttls.access >>= λ access.
            generate_refresh_token crypto cfg >>= rotate_checked crypto cfg old now ip ttls access)
          w
        ≡ (ok pair, v)
      → Active old.user_id w.db × Succession old now w v
  minted_ok old now ip ttls w {v = v} member unrevoked h =
      let (access, b, issued, rest) =
        bind_ok (issue_access_token_by_user_id crypto cfg old.user_id old.family ttls.access w)
          (λ access.
            generate_refresh_token crypto cfg >>= rotate_checked crypto cfg old now ip ttls access)
          h in
      let (generated, c, drawn, last) =
        bind_ok (generate_refresh_token crypto cfg b)
          (rotate_checked crypto cfg old now ip ttls access) rest in
      let db_b : b.db ≡ w.db =
        ap (λ r. r.1.db) (sym issued)
        ∙ (IsQuiet-issue_access_token_by_user_id crypto cfg old.user_id old.family ttls.access).same
            w in
      let db_c : c.db ≡ b.db =
        ap (λ r. r.1.db) (sym drawn) ∙ (IsQuiet-generate_refresh_token crypto cfg).same b in
      let at_w : c.db ≡ w.db = db_c ∙ db_b in
      let made =
        rotate_checked-Succession old now ip ttls access generated c
          (subst (λ db. Member old db.refresh_tokens) (sym at_w) member) unrevoked last in
      (
        issue_by_user_id_ok old.user_id old.family ttls.access w issued,
        record {
          new = made.new;
          expiry = made.expiry;
          steps = Succeeds-rows (ap (λ db. db.refresh_tokens) at_w) refl made.steps;
        },
      )

  rotate_refresh_token-Rotated :
      (old : RefreshToken) (now : ℕ) (ip : String) (w : World) {pair : TokenPair} {v : World}
      → Member old w.db.refresh_tokens
      → old.revoked ≡ false
      → rotate_refresh_token crypto cfg old now ip w ≡ (ok pair, v)
      → Rotated old now w v
  unfolding rotate_refresh_token
  rotate_refresh_token-Rotated old now ip w member unrevoked h =
      let (ttls, a, timed, h1) = bind_ok (session_ttls_for crypto cfg old.user_id w) _ h in
      let (bound, same_a) = session_ttls_for_ok old.user_id w timed in
      let (idle, h2) =
        guard_ok (ltb cfg.session_inactive_lifetime (now - old.created_at)) token_expired a _ h1 in
      let (over, h3) =
        guard_ok (ltb ttls.max_lifetime (now - old.session_started_at)) token_expired a _ h2 in
      let db_a = Answered-db same_a in
      let (active, made) =
        minted_ok old now ip ttls a (subst (λ db. Member old db.refresh_tokens) (sym db_a) member)
          unrevoked h3 in
      record {
        not_idle = not_ltb _ _ idle;
        not_over =
            omega (arith, not_ltb ttls.max_lifetime (now - old.session_started_at) over, bound);
        owner = subst (Active old.user_id) db_a active;
        new = made.new;
        expiry = made.expiry;
        succession = Succeeds-rows (ap (λ db. db.refresh_tokens) db_a) refl made.steps;
      }

  -- How a refresh was answered: by the next token of the session, or within the grace window of a
  -- token that was rotated, by an access token alone.
  pub data Refreshed (rt : RefreshToken) (pair : TokenPair) (w v : World) : Type 0 where
    rotates : rt.revoked ≡ false → Rotated rt w.clock w v → Refreshed rt pair w v
    graces :
        rt.revoked ≡ true
        → w.clock < from_ptr 0 rt.grace_ttl
        → any (is_live w.clock rt.family) w.db.refresh_tokens ≡ true
        → v.db ≡ w.db
        → pair.refresh_token ≡ ""
        → Refreshed rt pair w v

  refresh_within_grace_ok :
      (rt : RefreshToken) (w : World) {pair : TokenPair} {v : World}
      → refresh_within_grace crypto cfg rt w ≡ (ok pair, v)
      → (any (is_live w.clock rt.family) w.db.refresh_tokens ≡ true)
        × (v.db ≡ w.db)
        × (pair.refresh_token ≡ "")
  unfolding refresh_within_grace has_live_token
  refresh_within_grace_ok rt w {pair} {v} h =
      let (live, a, asked, h1) = bind_ok (has_live_token rt.family w) _ h in
      let (value, same) =
        query_ok (λ db. any (is_live w.clock rt.family) db.refresh_tokens) w asked in
      let (is_live_, h2) = guard_ok (not live) logout_already a _ h1 in
      let (ttls, b, timed, h3) = bind_ok (session_ttls_for crypto cfg rt.user_id a) _ h2 in
      let (access, c, issued, h4) =
        bind_ok (issue_access_token_by_user_id crypto cfg rt.user_id rt.family ttls.access b)
          (λ access. pure (token_pair crypto cfg access "" 0 rt.session_started_at ttls)) h3 in
      let e : token_pair crypto cfg access "" 0 rt.session_started_at ttls ≡ pair = cc h4 in
      (
        sym value ∙ ground arith,
        ap (λ r. r.1.db) (sym h) ∙ (IsQuiet-refresh_within_grace crypto cfg rt).same w,
        ap (λ (p : TokenPair). p.refresh_token) (sym e),
      )

  Refreshed-db :
      (rt : RefreshToken) (pair : TokenPair) {w v w' v' : World}
      → w.db ≡ w'.db
      → w.clock ≡ w'.clock
      → v.db ≡ v'.db
      → Refreshed rt pair w v
      → Refreshed rt pair w' v'
  Refreshed-db rt pair {w} {v} {w'} {v'} e clock f (rotates unrevoked r) =
      rotates unrevoked (record {
        not_idle = subst (λ t. t - rt.created_at ≤ cfg.session_inactive_lifetime) clock r.not_idle;
        not_over =
            subst (λ t. t - rt.session_started_at ≤ cfg.session_max_lifetime) clock r.not_over;
        owner = subst (Active rt.user_id) e r.owner;
        new = r.new;
        expiry = r.expiry ∙ ap (λ t. t + cfg.refresh_token_ttl) clock;
        succession =
            Succeeds-rows (ap (λ db. db.refresh_tokens) e) (ap (λ db. db.refresh_tokens) f)
              r.succession;
      })
  Refreshed-db rt pair {w} {v} {w'} {v'} e clock f (graces revoked within live same no_token) =
      graces revoked (subst (λ t. t < from_ptr 0 rt.grace_ttl) clock within)
        (subst (λ db. any (is_live w'.clock rt.family) db.refresh_tokens ≡ true) e
          (subst (λ t. any (is_live t rt.family) w.db.refresh_tokens ≡ true) clock live))
        (sym f ∙ same ∙ e) no_token

  fails_as_ok {ℓ} :
      {A : Type ℓ} (e : Error) (r : Result A × World) {a : A} {v : World}
      → fails_as e r ≡ (ok a, v)
      → r ≡ (ok a, v)
  fails_as_ok e (ok a, w) h = h
  fails_as_ok e (err x, w) h = absurd (cc h)

  releasing_ok {ℓ} :
      {A : Type ℓ} (r : Result A × World) {a : A} {v : World}
      → releasing r ≡ (ok a, v)
      → (y : World) × (r ≡ (ok a, y)) × (v.db ≡ y.db)
  unfolding releasing
  releasing_ok (ok b, w) {a} {v} h =
      let same : ok b ≡ ok a = ap (λ r. r.0) h in
      (w, ap (λ r. (r, w)) same, ap (λ r. r.1.db) (sym h) ∙ call_db w)
  releasing_ok (err e, w) h = absurd (cc h)

  reuse_revoked_ok :
      (rt : RefreshToken) (now : ℕ) (ip agent : String) (w : World) {pair : TokenPair} {v : World}
      → reuse_revoked crypto cfg now rt ip agent w ≡ (ok pair, v)
      → (now < from_ptr 0 rt.grace_ttl) × (refresh_within_grace crypto cfg rt w ≡ (ok pair, v))
  unfolding reuse_revoked refuse_reuse
  reuse_revoked_ok rt now ip agent w h = elim (Bool-cases (ltb now (from_ptr 0 rt.grace_ttl))) [
    | inl within ↦ (ltb→lt now (from_ptr 0 rt.grace_ttl) within, rw within at h)
    | inr past ↦
        let (_, a, _, published) =
          bind_ok
            (unlogged (λ v. v) (revoke_refresh_token_by_family crypto cfg rt.user_id rt.family w))
            (λ _. publish_session_revoked crypto cfg rt ip agent >> throw token_reuse)
            (rw past at h) in
        let (_, b, _, thrown) =
          bind_ok (publish_session_revoked crypto cfg rt ip agent a) (λ _. throw token_reuse)
            published in
        absurd (cc thrown)
  ]

  refresh_token_row_ok :
      (rt : RefreshToken) (ip agent : String) (w : World) {pair : TokenPair} {v : World}
      → Member rt w.db.refresh_tokens
      → refresh_token_row crypto cfg w.clock rt ip agent w ≡ (ok pair, v)
      → Refreshed rt pair w v
  unfolding refresh_token_row
  refresh_token_row_ok rt ip agent w member h = elim (Bool-cases rt.revoked) [
    | inl revoked ↦
        let h' = rw revoked at h in
        elim (Bool-cases (not (is_some rt.replaced_by))) [
          | inl ended ↦ absurd (cc (rw ended at h'))
          | inr replaced ↦
              let (within, ran) = reuse_revoked_ok rt w.clock ip agent w (rw replaced at h') in
              let (live, same, no_token) = refresh_within_grace_ok rt w ran in
              graces revoked within live same no_token
        ]
    | inr unrevoked ↦
        rotates unrevoked
          (rotate_refresh_token-Rotated rt w.clock ip w member unrevoked (rw unrevoked at h))
  ]

  -- A refresh that returns presented the hash of a row of the table, and was answered in one of two
  -- ways. Either the row was not revoked, its session was neither idle nor old beyond the
  -- configured limits, its owner is stored and not blocked, and the row is succeeded by a new one of
  -- the same session, user and start. Or the row was rotated less than the grace window ago, its
  -- session has a token that is neither revoked nor expired, the tables are as they were, and no
  -- refresh token is handed out.
  pub refresh-Refreshed :
      (raw ip agent : String) (w : World) {pair : TokenPair} {v : World}
      → refresh crypto cfg raw ip agent w ≡ (ok pair, v)
      → (rt : RefreshToken) × Member rt w.db.refresh_tokens
        × (has_hash (crypto.hash_sha256 raw) rt ≡ true)
        × Refreshed rt pair w v
  unfolding refresh acquire held_refresh
  refresh-Refreshed raw ip agent w {pair} {v} h =
      let (_, a, locked, held) = bind_ok (fails_as lock_busy (call w)) _ h in
      let same_a = call_ok w (fails_as_ok lock_busy (call w) locked) in
      let (y, inner, at_v) =
        releasing_ok (held_refresh crypto cfg w.clock (crypto.hash_sha256 raw) ip agent a) held in
      let (rt, b, asked, row) =
        bind_ok (fails_as invalid_refresh_token (get_by_token_hash (crypto.hash_sha256 raw) a))
          (λ rt. refresh_token_row crypto cfg w.clock rt ip agent) inner in
      let (member, hash, same_b) =
        get_by_token_hash_ok (crypto.hash_sha256 raw) a
          (fails_as_ok invalid_refresh_token _ asked) in
      let db : b.db ≡ w.db = Answered-db same_b ∙ Answered-db same_a in
      let clock : b.clock ≡ w.clock =
        ap (λ x. x.clock) same_b.same ∙ ap (λ x. x.clock) same_a.same in
      let member_b = subst (λ d. Member rt d.refresh_tokens) (sym (Answered-db same_b)) member in
      (
        rt,
        subst (λ d. Member rt d.refresh_tokens) (Answered-db same_a) member,
        hash,
        Refreshed-db rt pair db clock (sym at_v) (
            refresh_token_row_ok rt ip agent b member_b (
              subst (λ t. refresh_token_row crypto cfg t rt ip agent b ≡ (ok pair, y)) (sym clock)
                row)),
      )
