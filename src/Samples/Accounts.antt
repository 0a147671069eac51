-- ===== src/Samples/Accounts.antt =====
-- Sessions and users at concrete inputs.
use maintmode.Session.Tokens.{
  save, lock_user_sessions, get_by_token_hash_for_update, get_by_token_hash, rotate, revoke_family,
  revoke_by_user_id, has_hash,
}
use maintmode.Session.Issue.{
  get_by_id, session_ttls_for, issue_access_token, generate_refresh_token, SessionTtls, token_pair,
}
use maintmode.Session.Marks.{add_sessions, add}
use maintmode.Session.Refresh.{releasing, acquire, refresh, rotate_checked}
use maintmode.World.Tx.{within_tx}
use maintmode.Session.Revoke.{
  revoke_session_access_tokens, with_user_sessions_locked, revoke_family_by_refresh_token,
  revoke_refresh_token_by_user_id, revoke_refresh_token_by_family,
}
use maintmode.World.Effect.{call, unlogged, publish_audit}
use maintmode.Entity.User.{is_blocked, is_active_admin, User, Role, admin, editor, guest}
use maintmode.Base.{
  ℕ, ◌+◌, ◌-◌, ◌*◌, ◌≤◌, String, ◌≡◌, refl, Bool, true, false, Option, none, some, List, [], ◌∷◌,
  arith, All, Member,
}
use maintmode.World.Errors.{Result, ok, err, token_reuse}
use maintmode.World.Tables.{World}
use maintmode.Samples.{sample_db, sample_world, noon}
use maintmode.Session.{Config, Crypto, parsed, minute, second}
use maintmode.Session.Prune.{prune_refresh_tokens}
use maintmode.Session.Introspect.{introspect_claims}
use maintmode.Session.Marked.{IsRefused, revoke_by_family-IsRefused}
use maintmode.Session.Swept.{IsSwept, prune_refresh_tokens-IsSwept}
use maintmode.Session.Pruned.{kept_for, row_of, prune_refresh_tokens-row_of}
use maintmode.Session.Spec.{sessions, Reach}
use maintmode.Session.Counts.{open_count}
use maintmode.Session.Invariants.{belongs}
use maintmode.Session.Logout.{logout, logout_all}
use maintmode.Session.Refreshed.{Refreshed, refresh-Refreshed}
use maintmode.Session.Fence.{Refused, rotate_checked-Refused}
use maintmode.Session.Reuse.{refresh_reuse-IsEnded}
use maintmode.Session.Ended.{IsEnded}
use maintmode.Session.SignedOut.{logout-IsEnded, logout_all-IsEnded}
use maintmode.Session.History as SessionHistory
use maintmode.Entity.Session.{RefreshToken, AccessClaims, TokenPair, text_of}
use maintmode.Users.Admin.{block_user}
use maintmode.Users.Update.{IsAdministered}
use maintmode.Users.History as UsersHistory
use maintmode.Users.Blocked.{block_user-again}
use maintmode.Users.Seats.{seats_occupied, bucket_seats}
use maintmode.Users.Counted.{seated, seats_occupied-seated}

abbrev member : ℕ → List Role → Option ℕ → User
member id roles blocked_at = record {
  id = id;
  email = "member@example.com";
  name = "member";
  roles = roles;
  created_at = 0;
  blocked_at = blocked_at;
  timezone = none;
  telegram_tag = none;
  slack_tag = none;
}

abbrev sample_claims : AccessClaims
sample_claims = record {
  user_name = "member";
  user_email = "member@example.com";
  user_roles = editor ∷ [];
  session_id = text_of 7;
  id = text_of 40;
  subject = text_of 5;
  issuer = "maintmode";
  issued_at = 0;
  expires_at = 0;
}

abbrev sample_crypto : Crypto
sample_crypto = record {
  random_text = λ n. "drawn";
  hash_sha256 = λ s. s;
  signed_string = λ c. some "signed";
  parse_with_claims = λ issuer now s. parsed sample_claims;
  is_break_glass_email = λ s. false;
}

abbrev sample_config : Config
sample_config = record {
  issuer = "maintmode";
  access_token_ttl = 15 * minute;
  session_max_lifetime = 720 * (60 * minute);
  session_inactive_lifetime = 168 * (60 * minute);
  refresh_token_ttl = 720 * (60 * minute);
  refresh_token_grace_period = 30 * second;
}

-- A session whose first token was rotated long ago, and one that was ended.
abbrev sample_token : String → ℕ → Bool → Option String → RefreshToken
sample_token hash family revoked replaced_by = record {
  token = hash;
  user_id = 5;
  family = family;
  expires_at = noon + 720 * (60 * minute);
  session_started_at = noon;
  grace_ttl = none;
  revoked = revoked;
  replaced_by = replaced_by;
  client_ip = "";
  created_at = noon;
  updated_at = none;
}

abbrev with_accounts : List User → World
with_accounts users = record sample_world {
  db = record sample_db {
    users = users;
    refresh_tokens =
        sample_token "newer" 7 false none
        ∷ sample_token "older" 7 true (some "newer")
        ∷ sample_token "ended" 8 true none
        ∷ [];
  };
}

abbrev session_world : World
session_world = with_accounts (member 5 (editor ∷ []) none ∷ member 6 (admin ∷ []) none ∷ [])

abbrev blocked_world : World
blocked_world = with_accounts (member 5 (editor ∷ []) (some noon) ∷ member 6 (admin ∷ []) none ∷ [])

abbrev some_refresh : SessionHistory.Request
some_refresh = record {
  operation = SessionHistory.refreshes "newer" "ip" "agent";
  at = noon + minute;
  answers = [];
}

run-at_most_one_example :
    open_count 7
      (SessionHistory.run sample_crypto sample_config
        (some_refresh ∷ [])
        session_world).db.refresh_tokens
    ≤ 1
run-at_most_one_example =
    SessionHistory.run-at_most_one sample_crypto sample_config (some_refresh ∷ []) session_world 7
      (omega arith, (omega arith, (omega arith, tt))) (omega arith)

run-ended_example :
    open_count 8
      (SessionHistory.run sample_crypto sample_config
        (some_refresh ∷ [])
        session_world).db.refresh_tokens
    ≡ 0
run-ended_example =
    SessionHistory.run-ended sample_crypto sample_config (some_refresh ∷ []) session_world 8
      (omega arith) refl

run-Reach_example :
    Reach
      (sessions session_world)
      (sessions (SessionHistory.run sample_crypto sample_config (some_refresh ∷ []) session_world))
run-Reach_example =
    SessionHistory.run-Reach sample_crypto sample_config (some_refresh ∷ []) session_world

run-belongs_example :
    All
      (λ r. belongs 7 5 noon r ≡ true)
      (SessionHistory.run sample_crypto sample_config
        (some_refresh ∷ [])
        session_world).db.refresh_tokens
run-belongs_example =
    SessionHistory.run-belongs sample_crypto sample_config (some_refresh ∷ []) session_world 7 5
      noon (omega arith) (refl, (refl, (refl, tt)))

abbrev refreshed : Result TokenPair × World
refreshed = refresh sample_crypto sample_config "newer" "ip" "agent" session_world

abbrev sample_ttls : SessionTtls
sample_ttls = record { access = 15 * minute; max_lifetime = 720 * (60 * minute) }

abbrev sample_pair : TokenPair
sample_pair = token_pair sample_crypto sample_config "signed" "drawn" 0 noon sample_ttls

refresh-Refreshed_example :
    (rt : RefreshToken) × Member rt session_world.db.refresh_tokens
    × (has_hash "newer" rt ≡ true)
    × Refreshed sample_crypto sample_config rt sample_pair session_world refreshed.1
unfolding refresh acquire call releasing get_by_token_hash session_ttls_for get_by_id
    issue_access_token is_blocked generate_refresh_token within_tx lock_user_sessions rotate save
refresh-Refreshed_example =
    refresh-Refreshed sample_crypto sample_config "newer" "ip" "agent" session_world
      {pair = sample_pair} {v = refreshed.1} refl

rotate_checked-Refused_example : Refused sample_crypto sample_config session_world (
    rotate_checked sample_crypto sample_config
      (sample_token "older" 7 false none)
      noon
      "ip"
      sample_ttls
      "signed"
      ("drawn", "drawn")
      session_world)
rotate_checked-Refused_example =
    rotate_checked-Refused sample_crypto sample_config (sample_token "older" 7 false none) noon "ip"
      sample_ttls "signed" ("drawn", "drawn") session_world refl

refresh_reuse-IsEnded_example :
    ((refresh sample_crypto sample_config "older" "ip" "agent" session_world).0 ≡ err token_reuse)
    × IsEnded 7 (refresh sample_crypto sample_config "older" "ip" "agent" session_world).1
refresh_reuse-IsEnded_example =
    refresh_reuse-IsEnded sample_crypto sample_config "older" "ip" "agent" session_world
      (sample_token "older" 7 true (some "newer")) refl refl refl refl (omega arith)

abbrev logged_out_world : World
logged_out_world = (logout sample_crypto sample_config "access" "newer" session_world).1

logout-IsEnded_example : IsEnded 7 logged_out_world
unfolding logout revoke_family_by_refresh_token with_user_sessions_locked within_tx call
    lock_user_sessions get_by_token_hash_for_update revoke_family revoke_session_access_tokens
    unlogged add_sessions add publish_audit
logout-IsEnded_example =
    logout-IsEnded sample_crypto sample_config "access" "newer" session_world {v = logged_out_world}
      sample_claims 7 refl refl (λ e. absurd (omega (arith, e))) refl

abbrev logged_out_all_world : World
logged_out_all_world = (logout_all sample_crypto sample_config "access" session_world).1

logout_all-IsEnded_example : IsEnded 7 logged_out_all_world
unfolding logout_all revoke_refresh_token_by_user_id with_user_sessions_locked within_tx call
    lock_user_sessions revoke_by_user_id revoke_session_access_tokens unlogged add_sessions add
    publish_audit
logout_all-IsEnded_example =
    logout_all-IsEnded sample_crypto sample_config "access" session_world {v = logged_out_all_world}
      sample_claims 5 7 refl refl (refl, (refl, (refl, tt))) refl

abbrev some_revocation : UsersHistory.Request
some_revocation = record {
  operation = UsersHistory.revokes (record { actor = none; user_id = 6; role = admin });
  at = noon;
  answers = [];
}

run-IsAdministered_example :
    IsAdministered
      (UsersHistory.run sample_crypto sample_config none
        (some_revocation ∷ [])
        session_world).db.users
unfolding is_active_admin
run-IsAdministered_example =
    UsersHistory.run-IsAdministered sample_crypto sample_config none (some_revocation ∷ [])
      session_world (record { single = λ id. ground arith; some_admin = omega arith })

block_user-again_example :
    ((block_user sample_crypto sample_config (record { actor = none; user_id = 5 }) blocked_world).0
      ≡ ok tt)
    × ((block_user sample_crypto sample_config
          (record { actor = none; user_id = 5 })
          blocked_world).1.db
        ≡ blocked_world.db)
unfolding is_blocked
block_user-again_example =
    block_user-again sample_crypto sample_config (record { actor = none; user_id = 5 })
      blocked_world (member 5 (editor ∷ []) (some noon)) refl refl refl refl

seats_occupied-seated_example :
    seats_occupied (bucket_seats ((guest ∷ []) ∷ (editor ∷ guest ∷ []) ∷ []) ((admin ∷ []) ∷ []))
    ≡ seated ((guest ∷ []) ∷ (editor ∷ guest ∷ []) ∷ []) + seated ((admin ∷ []) ∷ [])
seats_occupied-seated_example =
    seats_occupied-seated ((guest ∷ []) ∷ (editor ∷ guest ∷ []) ∷ []) ((admin ∷ []) ∷ [])

-- A row that expired long ago, before one that did not.
abbrev stale_world : World
stale_world = record sample_world {
  db = record sample_db {
    refresh_tokens =
        record (sample_token "stale" 9 true none) { expires_at = 1 }
        ∷ sample_token "newer" 7 false none
        ∷ [];
  };
}

prune_refresh_tokens-row_of_example :
    row_of "newer" (prune_refresh_tokens 0 1 stale_world).1 ≡ row_of "newer" stale_world
prune_refresh_tokens-row_of_example =
    prune_refresh_tokens-row_of 0 1 "newer" stale_world (refl, (refl, tt))

prune_refresh_tokens-IsSwept_example :
    IsSwept
      (stale_world.clock - kept_for 0)
      (prune_refresh_tokens 0 1 stale_world).1.db.refresh_tokens
prune_refresh_tokens-IsSwept_example =
    prune_refresh_tokens-IsSwept 0 1 stale_world refl (omega arith)

revoke_by_family-IsRefused_example :
    IsRefused
      (introspect_claims sample_claims
        (record (revoke_refresh_token_by_family sample_crypto sample_config 5 7 session_world).1 {
          clock = noon + minute;
          faults = [];
        })).0
revoke_by_family-IsRefused_example =
    revoke_by_family-IsRefused sample_crypto sample_config 5 7 (noon + minute) session_world
      sample_claims [] refl refl (omega arith)
