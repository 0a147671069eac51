-- ===== src/Session/Logouts.antt =====
-- Logging out and pruning take the table along abstract steps.
use maintmode.World.Errors.{invalid_access_token, ok}
use maintmode.Base.{
  ℕ, zero, suc, String, refl, inl, inr, arith, str_eq, ltb, ◌==◌, if◌then◌else◌, Bool-cases,
}
use maintmode.World.Effect.{M, ◌>>=◌, ◌>>◌, call, throw_if, utc_now, unlogged, publish_audit}
use maintmode.World.Tables.{logout_success}
use maintmode.Session.{Config, Crypto, Parsed, parsed, expired, rejected}
use maintmode.Session.Marks.{add}
use maintmode.Session.Revoke.{
  parse_id, revoke_refresh_token_by_family, revoke_refresh_token_by_user_id,
}
use maintmode.Session.Refresh.{fails_as, bare_user}
use maintmode.Session.Logout.{
  verified, is_blank, must_parse, audit_session_id, verify_access_token, logged_out, logout_with,
  revoke_named_session, revoke_unless_ended, revoke_access_token_session, ended_by_refresh_token,
  logout, logout_all,
}
use maintmode.Session.Prune.{
  prune_expired_before, prune_batches, prune_refresh_tokens, max_prune_batches, prune_now,
}
use maintmode.Entity.Session.{AccessClaims, IdText, text_of, blank, malformed}
use maintmode.Session.Spec.{forget, done, one}
use maintmode.Session.Refines.{
  Refines, Refines-pure, IsQuiet, quiet-Refines, IsQuiet-pure, IsQuiet-throw_if, IsQuiet-call,
  IsQuiet-utc_now, IsQuiet-publish_audit, IsQuiet-bind, Refines-bind, IsQuiet-world,
}
use maintmode.Session.Services.{
  unlogged-world, fails_as-world, IsQuiet-add, IsQuiet-parse_id, revoke_family-Refines,
  revoke_user-Refines, revoke_by_token-Refines,
}

IsQuiet-verified : (p : Parsed) → IsQuiet (verified p)
IsQuiet-verified (parsed claims) = IsQuiet-pure _
IsQuiet-verified expired = IsQuiet-pure _
IsQuiet-verified rejected = IsQuiet-pure _

IsQuiet-must_parse : (t : IdText) → IsQuiet (must_parse t)
IsQuiet-must_parse (text_of id) = IsQuiet-pure _
IsQuiet-must_parse blank = IsQuiet-pure _
IsQuiet-must_parse malformed = IsQuiet-pure _

module _ (crypto : Crypto) (cfg : Config) where
  pub IsQuiet-verify_access_token :
      (token : String) → IsQuiet (verify_access_token crypto cfg token)
  unfolding verify_access_token
  IsQuiet-verify_access_token token =
      IsQuiet-bind utc_now (λ now. verified (crypto.parse_with_claims cfg.issuer now token))
        IsQuiet-utc_now (λ now. IsQuiet-verified (crypto.parse_with_claims cfg.issuer now token))

  pub IsQuiet-logged_out : (claims : AccessClaims) → IsQuiet (logged_out crypto cfg claims)
  unfolding logged_out
  IsQuiet-logged_out claims =
      IsQuiet-bind (λ w. unlogged (λ v. v) (add claims.id cfg.access_token_ttl w)) _
        (IsQuiet-world (add claims.id cfg.access_token_ttl) _ (λ w. unlogged-world _)
          (IsQuiet-add claims.id cfg.access_token_ttl))
        λ _.
          IsQuiet-bind (must_parse claims.subject)
            (λ user_id. publish_audit (
              logout_success (record (bare_user user_id) { email = claims.user_email })
                (audit_session_id claims)))
            (IsQuiet-must_parse claims.subject) (λ _. IsQuiet-publish_audit _)

  logout_with-Refines :
      (token : String) (revoke_func : AccessClaims → M (Unit {0}))
      → ((claims : AccessClaims) → Refines (revoke_func claims))
      → Refines (logout_with crypto cfg token revoke_func)
  unfolding logout_with
  logout_with-Refines token revoke_func k =
      Refines-bind (λ w. fails_as invalid_access_token (verify_access_token crypto cfg token w)) _
        (quiet-Refines _ (
          IsQuiet-world (verify_access_token crypto cfg token) _
            (λ w. fails_as-world invalid_access_token (verify_access_token crypto cfg token w))
            (IsQuiet-verify_access_token token)))
        λ claims.
          Refines-bind (throw_if (is_blank claims.id) invalid_access_token)
            (λ _. revoke_func claims >> logged_out crypto cfg claims)
            (quiet-Refines _ (IsQuiet-throw_if _ _))
            λ _.
              Refines-bind (revoke_func claims) (λ _. logged_out crypto cfg claims) (k claims)
                (λ _. quiet-Refines _ (IsQuiet-logged_out claims))

  revoke_unless_ended-Refines :
      (claims : AccessClaims) (ended session_id : ℕ)
      → Refines (revoke_unless_ended crypto cfg claims ended session_id)
  unfolding revoke_unless_ended
  revoke_unless_ended-Refines claims ended session_id = record {
    reach = λ w. elim (Bool-cases (session_id == ended)) [
      | inl was ↦ rw was done
      | inr other ↦ rw other (
          (Refines-bind (parse_id claims.subject)
              (λ user_id. revoke_refresh_token_by_family crypto cfg user_id session_id)
              (quiet-Refines _ (IsQuiet-parse_id crypto cfg claims.subject))
              (λ user_id. revoke_family-Refines crypto cfg user_id session_id)).reach
            w)
    ];
  }

  revoke_named_session-Refines :
      (claims : AccessClaims) (ended : ℕ) (t : IdText)
      → Refines (revoke_named_session crypto cfg claims ended t)
  unfolding revoke_named_session
  revoke_named_session-Refines claims ended blank = Refines-pure _
  revoke_named_session-Refines claims ended malformed = Refines-pure _
  revoke_named_session-Refines claims ended (text_of id) =
      revoke_unless_ended-Refines claims ended id

  ended_by_refresh_token-Refines :
      (raw : String) (claims : AccessClaims)
      → Refines (ended_by_refresh_token crypto cfg raw claims)
  unfolding ended_by_refresh_token
  ended_by_refresh_token-Refines raw claims = record {
    reach = λ w. elim (Bool-cases (str_eq raw "")) [
      | inl empty ↦ rw empty done
      | inr given ↦ rw given ((revoke_by_token-Refines crypto cfg raw claims).reach w)
    ];
  }

  pub logout-Refines : (token raw : String) → Refines (logout crypto cfg token raw)
  unfolding logout revoke_access_token_session
  logout-Refines token raw =
      logout_with-Refines token
        (λ claims. ended_by_refresh_token crypto cfg raw claims >>= λ ended.
          revoke_named_session crypto cfg claims ended claims.session_id)
        λ claims.
          Refines-bind (ended_by_refresh_token crypto cfg raw claims)
            (λ ended. revoke_named_session crypto cfg claims ended claims.session_id)
            (ended_by_refresh_token-Refines raw claims)
            (λ ended. revoke_named_session-Refines claims ended claims.session_id)

  pub logout_all-Refines : (token : String) → Refines (logout_all crypto cfg token)
  unfolding logout_all
  logout_all-Refines token =
      logout_with-Refines token
        (λ claims. parse_id claims.subject >>= revoke_refresh_token_by_user_id crypto cfg)
        λ claims.
          Refines-bind (parse_id claims.subject) (revoke_refresh_token_by_user_id crypto cfg)
            (quiet-Refines _ (IsQuiet-parse_id crypto cfg claims.subject))
            (revoke_user-Refines crypto cfg)

prune_expired_before-Refines : (cutoff limit : ℕ) → Refines (prune_expired_before cutoff limit)
unfolding prune_expired_before prune_now
prune_expired_before-Refines cutoff limit =
    Refines-bind call (λ _. prune_now cutoff limit) (quiet-Refines call IsQuiet-call)
      λ _. record { reach = λ w. one (forget _ refl (omega arith)) }

prune_batches-Refines : (n cutoff limit : ℕ) → Refines (prune_batches n cutoff limit)
unfolding prune_batches
prune_batches-Refines zero cutoff limit = Refines-pure _
prune_batches-Refines (suc n) cutoff limit =
    Refines-bind (prune_expired_before cutoff limit)
      (λ deleted w. if ltb deleted limit then (ok tt, w) else prune_batches n cutoff limit w)
      (prune_expired_before-Refines cutoff limit)
      λ deleted. record {
        reach = λ w. elim (Bool-cases (ltb deleted limit)) [
          | inl short ↦ rw short done
          | inr full ↦ rw full ((prune_batches-Refines n cutoff limit).reach w)
        ];
      }

pub prune_refresh_tokens-Refines :
    (retention limit : ℕ) → Refines (prune_refresh_tokens retention limit)
unfolding prune_refresh_tokens
prune_refresh_tokens-Refines retention limit =
    Refines-bind utc_now _ (quiet-Refines utc_now IsQuiet-utc_now)
      λ now. prune_batches-Refines max_prune_batches _ _
