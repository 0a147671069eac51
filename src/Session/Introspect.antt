-- ===== src/Session/Introspect.antt =====
-- services/auth/introspect.go: whether an access token is still active.
use maintmode.Base.{String, true, false, Option, none, some, List, [], if◌then◌else◌}
use maintmode.World.Errors.{Result, ok, err, user_not_found, invalid_access_token}
use maintmode.World.Tables.{World}
use maintmode.World.Effect.{M, continue, ◌>>=◌, ◌>>◌, throw_if}
use maintmode.Session.{Config, Crypto}
use maintmode.Session.Marks.{is_revoked}
use maintmode.Session.Issue.{get_by_id}
use maintmode.Session.Logout.{verify_access_token, is_blank}
use maintmode.Entity.User.{User, Role, is_blocked}
use maintmode.Entity.Session.{AccessClaims, IntrospectReport, IdText, blank, text_of, malformed}

abbrev pub inactive : IdText → IntrospectReport
inactive jti = record {
  active = false;
  jti = jti;
  subject = blank;
  email = "";
  roles = [];
  exp = 0;
}

unless_blocked : User → Option User
unless_blocked user = if is_blocked user then none else some user

-- A user who is not there is no error.
known_user : Result User × World → Result (Option User) × World
unfolding unless_blocked
known_user (ok user, w) = (ok (unless_blocked user), w)
known_user (err user_not_found, w) = (ok none, w)
known_user (err e, w) = (err e, w)

unfoldable pub active_subject : IdText → M (Option User)
unfolding known_user
active_subject (text_of user_id) w = known_user (get_by_id user_id w)
active_subject blank w = (ok none, w)
active_subject malformed w = (ok none, w)

abbrev pub report_of : AccessClaims → Option User → IntrospectReport
report_of claims none = inactive claims.id
report_of claims (some user) = record {
  active = true;
  jti = claims.id;
  subject = claims.subject;
  email = claims.user_email;
  roles = user.roles;
  exp = claims.expires_at;
}

unfoldable pub introspect_claims : AccessClaims → M IntrospectReport
unfolding active_subject
introspect_claims claims w =
    let checked = continue (is_revoked claims.id claims.session_id w) λ revoked v.
      let subject =
        continue (active_subject claims.subject v) (λ user u. (ok (report_of claims user), u)) in
      if revoked then (ok (inactive claims.id), v) else subject in
    if is_blank claims.id then (ok (inactive blank), w) else checked

abbrev report_active : IntrospectReport → M (List Role)
report_active report w =
    if report.active then (ok report.roles, w) else (err invalid_access_token, w)

module _ (crypto : Crypto) (cfg : Config) where
  abbrev unless_unverified : Result AccessClaims × World → Result IntrospectReport × World
  unless_unverified (ok claims, w) = introspect_claims claims w
  unless_unverified (err _, w) = (ok (inactive blank), w)

  unfoldable pub introspect : String → M IntrospectReport
  unfolding introspect_claims
  introspect token w = unless_unverified (verify_access_token crypto cfg token w)

  unfoldable pub ensure_active_token : String → M (List Role)
  unfolding introspect
  ensure_active_token token = introspect token >>= report_active

  unfoldable pub ensure_not_revoked : String → M (Unit {0})
  ensure_not_revoked token = do
    claims ← verify_access_token crypto cfg token
    throw_if (is_blank claims.id) invalid_access_token
    revoked ← is_revoked claims.id claims.session_id
    throw_if revoked invalid_access_token
