-- ===== src/Session/SignIn.antt =====
-- A sign-in opens a session of its own: its steps, from the world in which its family was drawn.
use maintmode.Base.{ℕ, suc, ◌+◌, ◌≤◌, ◌<◌, String, ◌≡◌, refl, sym, ap, subst, ◌∙◌, arith}
use maintmode.World.Errors.{Result, ok, err}
use maintmode.World.Tables.{World}
use maintmode.World.Effect.{M, continue, ◌>>=◌, pure}
use maintmode.Session.{Config, Crypto}
use maintmode.Session.Tokens.{save, to_db_refresh_token}
use maintmode.Session.Issue.{
  session_ttls, issue_access_token, generate_refresh_token, new_token, issue_token_pair,
  start_session, token_pair,
}
use maintmode.Entity.User.{User}
use maintmode.Session.Spec.{sessions, draw, sign_in, Reach, one}
use maintmode.Session.Refines.{Refines, IsQuiet}
use maintmode.Session.Simulation.{
  IsQuiet-issue_access_token, IsQuiet-generate_refresh_token, save_ok, save_err,
}

-- `m` may run while the world is as `w₀` but for the ids drawn, `family` among them.
record Since {ℓ} {A : Type ℓ} (w₀ : World) (family : ℕ) (m : M A) : Type 0 where
  pub reach :
      (w : World)
      → w.db.refresh_tokens ≡ w₀.db.refresh_tokens
      → family < w.next_id
      → Reach (sessions w₀) (sessions (m w).1)

module _ (w₀ : World) (family : ℕ) (is_new : w₀.next_id ≤ family) where
  Since-quiet {ℓ κ} :
      {A : Type ℓ} {B : Type κ} (m : M A) (f : A → M B)
      → IsQuiet m
      → ((a : A) → Since w₀ family (f a))
      → Since w₀ family (m >>= f)
  Since-quiet {A} {B} m f qm kf = record {
    reach = λ w same lt. go w same lt (m w) (qm.same w) (qm.le w);
  }
    where
      go :
          (w : World)
          → w.db.refresh_tokens ≡ w₀.db.refresh_tokens
          → family < w.next_id
          → (r : Result A × World) → r.1.db ≡ w.db
          → w.next_id ≤ r.1.next_id
          → Reach (sessions w₀) (sessions (continue r f).1)
      go w same lt (ok a, v) e le =
          (kf a).reach v (ap (λ d. d.refresh_tokens) e ∙ same) (omega (arith, lt, le))
      go w same lt (err x, v) e le =
          one (draw (ap (λ d. d.refresh_tokens) e ∙ same) (omega (arith, is_new, lt, le)))

  module _ (crypto : Crypto) (cfg : Config) where
    start_session-Since :
        (user : User) (client_ip access : String) (generated : String × String)
        → Since w₀ family (start_session crypto cfg user client_ip family access generated)
    unfolding start_session to_db_refresh_token
    start_session-Since user client_ip access generated = record {
      reach = λ w same lt.
          go w same lt
            (save
              (new_token crypto cfg generated.1 user.id family (w.clock + cfg.refresh_token_ttl)
                w.clock client_ip)
              w)
            refl;
    }
      where
        go :
            (w : World)
            → w.db.refresh_tokens ≡ w₀.db.refresh_tokens
            → family < w.next_id
            → (r : Result (Unit {0}) × World)
            → save
                (new_token crypto cfg generated.1 user.id family
                  (w.clock + cfg.refresh_token_ttl)
                  w.clock
                  client_ip)
                w
              ≡ r
            → Reach (sessions w₀) (
                sessions
                  (continue r (λ _. pure (
                    token_pair crypto cfg access generated.0 family w.clock
                      (session_ttls crypto cfg user)))).1)
        go w same lt (ok u, v) saved =
            let (_, at_v) = save_ok _ w saved in
            one (
              sign_in
                (to_db_refresh_token w.clock (
                  new_token crypto cfg generated.1 user.id family (w.clock + cfg.refresh_token_ttl)
                    w.clock client_ip))
                (record {
                  is_new = is_new;
                  is_drawn = subst (λ n. family < n) (sym (ap (λ t. t.next) at_v)) lt;
                  starts_unrevoked = refl;
                  added = ap (λ t. t.rows) at_v ∙ rw same refl;
                })
                (omega (arith, is_new, lt, ap (λ t. t.next) at_v)))
        go w same lt (err e, v) saved =
            let at_v = save_err _ w saved in
            one (
              draw (ap (λ t. t.rows) at_v ∙ same)
                (omega (arith, is_new, lt, ap (λ t. t.next) at_v)))

-- Every sign-in, whether it returns or fails.
pub issue_token_pair-Refines :
    (crypto : Crypto) (cfg : Config) (user : User) (client_ip : String)
    → Refines (issue_token_pair crypto cfg user client_ip)
unfolding issue_token_pair
issue_token_pair-Refines crypto cfg user client_ip = record {
  reach = λ w.
      (Since-quiet w w.next_id (omega arith)
          (issue_access_token crypto cfg (session_ttls crypto cfg user).access user w.next_id) _
          (IsQuiet-issue_access_token crypto cfg (session_ttls crypto cfg user).access user
            w.next_id)
          λ access.
            Since-quiet w w.next_id (omega arith) (generate_refresh_token crypto cfg)
              (start_session crypto cfg user client_ip w.next_id access)
              (IsQuiet-generate_refresh_token crypto cfg)
              (start_session-Since w w.next_id (omega arith) crypto cfg user client_ip
                access)).reach
        (record w { next_id = suc w.next_id }) refl (omega arith);
}
