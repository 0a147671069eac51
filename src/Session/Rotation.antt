-- ===== src/Session/Rotation.antt =====
-- A refresh takes the table along abstract steps, whichever of its branches it takes.
use maintmode.Base.{
  ℕ, ◌-◌, String, ◌≡◌, refl, sym, subst, ◌∙◌, inl, inr, true, false, not, Option, none, some, arith,
  ltb, Bool-cases, from_ptr, is_some, find, Member, find-Member,
}
use maintmode.World.Errors.{
  Result, ok, err, lock_busy, invalid_refresh_token, token_reuse, token_expired,
}
use maintmode.World.Tables.{Db, World, session_revoked}
use maintmode.World.Effect.{
  M, continue, ◌>>◌, call, query, pure, throw, throw_if, utc_now, unlogged, publish_audit,
}
use maintmode.Session.Services.{unlogged-world, fails_as-world, busy-world, revoke_family-Refines}
use maintmode.Session.Spec.{Reach-trans, done, sessions, succeed, Reach, one}
use maintmode.Session.Simulation.{
  IsQuiet-get_by_token_hash, IsQuiet-get_by_id, IsQuiet-session_ttls_for,
  IsQuiet-generate_refresh_token,
}
use maintmode.Session.Operations.{
  IsQuiet-refresh_within_grace, IsQuiet-issue_access_token_by_user_id, replace_token-Succeeds,
  replace_token-le,
}
use maintmode.Session.Refresh.{
  refuse_reuse, reuse_revoked, refresh_token_row, held_refresh, refresh, fails_as, acquire,
  releasing, owner_or_bare, publish_session_revoked, refresh_within_grace, replace_token,
  rotate_checked, rotate_refresh_token, busy_if_rotated, issue_access_token_by_user_id,
}
use maintmode.Session.Refines.{
  quiet-Refines, IsQuiet-publish_audit, IsQuiet-utc_now, IsQuiet-call, Refines-bind, Refines-world,
  IsQuiet-world, IsQuiet-bind, Refines, IsQuiet, Refines-pure, RefinesFrom, IsQuiet-throw_if,
  From-bind, From-quiet, From-within_tx, From-world,
}
use maintmode.Session.Revoke.{revoke_refresh_token_by_family}
use maintmode.Session.Issue.{
  get_by_id, SessionTtls, session_ttls_for, generate_refresh_token, token_pair,
}
use maintmode.Session.{Config, Crypto}
use maintmode.Session.Tokens.{get_by_token_hash, has_hash, found}
use maintmode.World.Tx.{background, within_tx}
use maintmode.World.Effect.Invert.{query_ok, Answered, bind_ok}
use maintmode.Entity.User.{User}
use maintmode.Entity.Session.{RefreshToken}

-- What a lookup answers is a row of the table.
found_ok :
    (o : Option RefreshToken) (w : World) {rt : RefreshToken} {v : World}
    → found o w ≡ (ok rt, v)
    → (o ≡ some rt) × (v ≡ w)
found_ok none w h = absurd (cc h)
found_ok (some r) w h = (cc h, cc h)

pub get_by_token_hash_ok :
    (hash : String) (w : World) {rt : RefreshToken} {v : World}
    → get_by_token_hash hash w ≡ (ok rt, v)
    → Member rt w.db.refresh_tokens × (has_hash hash rt ≡ true) × Answered w v
unfolding get_by_token_hash
get_by_token_hash_ok hash w h =
    let (o, x, asked, rest) =
      bind_ok (query (λ db. find (has_hash hash) db.refresh_tokens) w) found h in
    let (value, same) = query_ok _ w asked in
    let (e, at) = found_ok o x rest in
    let (m, p) = find-Member (has_hash hash) w.db.refresh_tokens (sym value ∙ e) in
    (m, p, subst (Answered w) (sym at) same)

module _ (crypto : Crypto) (cfg : Config) where
  module _ (old : RefreshToken) (unrevoked : old.revoked ≡ false) where
    abbrev Holds : Db → Type 0
    Holds db = Member old db.refresh_tokens

    rotate_checked-From :
        (now : ℕ) (client_ip : String) (ttls : SessionTtls) (access : String)
        (generated : String × String)
        → RefinesFrom Holds (rotate_checked crypto cfg old now client_ip ttls access generated)
    unfolding rotate_checked
    rotate_checked-From now client_ip ttls access generated =
        From-bind Holds
          (λ w.
            busy_if_rotated (
              within_tx background (λ _. replace_token crypto cfg now old generated.1 client_ip) w))
          (λ _. pure (token_pair crypto cfg access generated.0 0 old.session_started_at ttls))
          (From-world Holds
            (within_tx background (λ _. replace_token crypto cfg now old generated.1 client_ip)) _
            (λ w. busy-world (
              within_tx background (λ _. replace_token crypto cfg now old generated.1 client_ip) w))
            (From-within_tx Holds (λ _. replace_token crypto cfg now old generated.1 client_ip)
              (λ w v u member ran.
                let (s, next) =
                  replace_token-Succeeds crypto cfg now old generated.1 client_ip w member unrevoked
                    ran in
                one (succeed old _ s (omega (arith, next))))
              (λ w. replace_token-le crypto cfg now old generated.1 client_ip w)))
          (λ _. Refines-pure _)

    rotate_refresh_token-From :
        (now : ℕ) (client_ip : String)
        → RefinesFrom Holds (rotate_refresh_token crypto cfg old now client_ip)
    unfolding rotate_refresh_token
    rotate_refresh_token-From now client_ip =
        From-quiet Holds (session_ttls_for crypto cfg old.user_id) _
          (IsQuiet-session_ttls_for crypto cfg old.user_id)
          λ ttls.
            From-quiet Holds
              (throw_if (ltb cfg.session_inactive_lifetime (now - old.created_at)) token_expired) _
              (IsQuiet-throw_if _ _)
              λ _.
                From-quiet Holds
                  (throw_if (ltb ttls.max_lifetime (now - old.session_started_at)) token_expired) _
                  (IsQuiet-throw_if _ _)
                  λ _.
                    From-quiet Holds
                      (issue_access_token_by_user_id crypto cfg old.user_id old.family ttls.access)
                      _
                      (IsQuiet-issue_access_token_by_user_id crypto cfg old.user_id old.family
                        ttls.access)
                      λ access.
                        From-quiet Holds (generate_refresh_token crypto cfg)
                          (rotate_checked crypto cfg old now client_ip ttls access)
                          (IsQuiet-generate_refresh_token crypto cfg)
                          (rotate_checked-From now client_ip ttls access)

  owner-world : (id : ℕ) (r : Result User × World) → (owner_or_bare id r).1 ≡ r.1
  owner-world id (ok u, w) = refl
  owner-world id (err e, w) = refl

  pub IsQuiet-publish_session_revoked :
      (rt : RefreshToken) (ip agent : String)
      → IsQuiet (publish_session_revoked crypto cfg rt ip agent)
  unfolding publish_session_revoked
  IsQuiet-publish_session_revoked rt ip agent =
      IsQuiet-bind (λ w. owner_or_bare rt.user_id (get_by_id rt.user_id w))
        (λ owner. publish_audit (session_revoked owner ip agent rt.family))
        (IsQuiet-world (get_by_id rt.user_id) _
          (λ w. owner-world rt.user_id (get_by_id rt.user_id w)) (IsQuiet-get_by_id rt.user_id))
        (λ owner. IsQuiet-publish_audit _)

  refuse_reuse-Refines :
      (rt : RefreshToken) (ip agent : String) → Refines (refuse_reuse crypto cfg rt ip agent)
  unfolding refuse_reuse
  refuse_reuse-Refines rt ip agent =
      Refines-bind
        (λ w. unlogged (λ v. v) (revoke_refresh_token_by_family crypto cfg rt.user_id rt.family w))
        (λ _. publish_session_revoked crypto cfg rt ip agent >> throw token_reuse)
        (Refines-world (revoke_refresh_token_by_family crypto cfg rt.user_id rt.family) _
          (λ w. unlogged-world _) (revoke_family-Refines crypto cfg rt.user_id rt.family))
        λ _.
          Refines-bind (publish_session_revoked crypto cfg rt ip agent) (λ _. throw token_reuse)
            (quiet-Refines _ (IsQuiet-publish_session_revoked rt ip agent)) (λ _. Refines-pure _)

  reuse_revoked-Refines :
      (now : ℕ) (rt : RefreshToken) (ip agent : String)
      → Refines (reuse_revoked crypto cfg now rt ip agent)
  unfolding reuse_revoked
  reuse_revoked-Refines now rt ip agent = record {
    reach = λ w. elim (Bool-cases (ltb now (from_ptr 0 rt.grace_ttl))) [
      | inl within ↦ rw within (
          (quiet-Refines (refresh_within_grace crypto cfg rt)
              (IsQuiet-refresh_within_grace crypto cfg rt)).reach
            w)
      | inr past ↦ rw past ((refuse_reuse-Refines rt ip agent).reach w)
    ];
  }

  -- From a row of the table.
  refresh_token_row-Reach :
      (now : ℕ) (rt : RefreshToken) (ip agent : String) (w : World)
      → Member rt w.db.refresh_tokens
      → Reach (sessions w) (sessions (refresh_token_row crypto cfg now rt ip agent w).1)
  unfolding refresh_token_row
  refresh_token_row-Reach now rt ip agent w member = elim (Bool-cases rt.revoked) [
    | inl revoked ↦ rw revoked (elim (Bool-cases (not (is_some rt.replaced_by))) [
      | inl ended ↦ rw ended done
      | inr replaced ↦ rw replaced ((reuse_revoked-Refines now rt ip agent).reach w)
    ])
    | inr unrevoked ↦ rw unrevoked ((rotate_refresh_token-From rt unrevoked now ip).reach w member)
  ]

  held_refresh-Refines :
      (now : ℕ) (hash ip agent : String) → Refines (held_refresh crypto cfg now hash ip agent)
  unfolding held_refresh
  held_refresh-Refines now hash ip agent = record {
    reach = λ w. go w (get_by_token_hash hash w) refl;
  }
    where
      go :
          (w : World) (r : Result RefreshToken × World)
          → get_by_token_hash hash w ≡ r
          → Reach (sessions w) (
              sessions
                (continue
                  (fails_as invalid_refresh_token r)
                  (λ rt. refresh_token_row crypto cfg now rt ip agent)).1)
      go w (ok rt, v) e =
          let (member, _, same) = get_by_token_hash_ok hash w e in
          let at_v : Reach (sessions w) (sessions v) =
            subst (λ z. Reach (sessions w) (sessions z)) (sym same.same) done in
          Reach-trans at_v (refresh_token_row-Reach now rt ip agent v (rw same.same member))
      go w (err x, v) e =
          subst (λ r. Reach (sessions w) (sessions r.1)) e
            ((quiet-Refines (get_by_token_hash hash) (IsQuiet-get_by_token_hash hash)).reach w)

  releasing-Refines {ℓ} : {A : Type ℓ} (m : M A) → Refines m → Refines (λ w. releasing (m w))
  unfolding releasing
  releasing-Refines m k = record {
    reach = λ w. Reach-trans (k.reach w) ((quiet-Refines call IsQuiet-call).reach (m w).1);
  }

  -- Every refresh, wherever it ends.
  pub refresh-Refines : (raw ip agent : String) → Refines (refresh crypto cfg raw ip agent)
  unfolding refresh acquire
  refresh-Refines raw ip agent =
      Refines-bind utc_now _ (quiet-Refines utc_now IsQuiet-utc_now) λ now.
        Refines-bind (λ w. fails_as lock_busy (call w))
          (λ _ w. releasing (held_refresh crypto cfg now (crypto.hash_sha256 raw) ip agent w))
          (quiet-Refines _
            (IsQuiet-world call _ (λ w. fails_as-world lock_busy (call w)) IsQuiet-call))
          (λ _.
            releasing-Refines (held_refresh crypto cfg now (crypto.hash_sha256 raw) ip agent)
              (held_refresh-Refines now (crypto.hash_sha256 raw) ip agent))
