-- ===== src/Session/History.antt =====
-- The operations on sessions, in any order, each under whatever the environment does to it.
use maintmode.Base.{ℕ, ◌≤◌, ◌<◌, String, ◌≡◌, true, Option, List, [], ◌∷◌, All}
use maintmode.World.Errors.{Error}
use maintmode.World.Tables.{World}
use maintmode.Session.{Config, Crypto}
use maintmode.Session.Issue.{issue_token_pair}
use maintmode.Session.Revoke.{
  revoke_refresh_token_by_user_id, revoke_refresh_token_by_user_id_except_family,
}
use maintmode.Session.Refresh.{refresh}
use maintmode.Session.Logout.{logout, logout_all}
use maintmode.Session.Prune.{prune_refresh_tokens}
use maintmode.Entity.User.{User}
use maintmode.Session.Counts.{open_count}
use maintmode.Session.Invariants.{
  IsNumbered, belongs, Reach-at_most_one, Reach-ended, Reach-belongs,
}
use maintmode.Session.Spec.{sessions, Reach, done, Reach-trans}
use maintmode.Session.Services.{revoke_user-Refines, revoke_others-Refines}
use maintmode.Session.Rotation.{refresh-Refines}
use maintmode.Session.SignIn.{issue_token_pair-Refines}
use maintmode.Session.Logouts.{logout-Refines, logout_all-Refines, prune_refresh_tokens-Refines}

-- The last two are what blocking a user and changing a password do.
pub data Operation : Type 0 where
  signs_in : User → (client_ip : String) → Operation
  refreshes : (raw client_ip user_agent : String) → Operation
  logs_out : (access_token refresh_token : String) → Operation
  logs_out_everywhere : (access_token : String) → Operation
  prunes : (retention batch_limit : ℕ) → Operation
  ends_sessions : (user_id : ℕ) → Operation
  ends_other_sessions : (user_id keep : ℕ) → Operation

-- A request: the time at which it runs, and what its calls of the environment answer.
pub record Request : Type 0 where
  pub operation : Operation
  pub at : ℕ
  pub answers : List (Option Error)

module _ (crypto : Crypto) (cfg : Config) where
  unfoldable pub perform : Operation → World → World
  perform (signs_in user ip) w = (issue_token_pair crypto cfg user ip w).1
  perform (refreshes raw ip agent) w = (refresh crypto cfg raw ip agent w).1
  perform (logs_out access raw) w = (logout crypto cfg access raw w).1
  perform (logs_out_everywhere access) w = (logout_all crypto cfg access w).1
  perform (prunes retention limit) w = (prune_refresh_tokens retention limit w).1
  perform (ends_sessions id) w = (revoke_refresh_token_by_user_id crypto cfg id w).1
  perform (ends_other_sessions id keep) w =
      (revoke_refresh_token_by_user_id_except_family crypto cfg id keep w).1

  unfoldable pub run : List Request → World → World
  unfolding perform
  run [] w = w
  run (q ∷ qs) w = run qs (perform q.operation (record w { clock = q.at; faults = q.answers }))

  perform-Reach : (op : Operation) (w : World) → Reach (sessions w) (sessions (perform op w))
  unfolding perform
  perform-Reach (signs_in user ip) w = (issue_token_pair-Refines crypto cfg user ip).reach w
  perform-Reach (refreshes raw ip agent) w = (refresh-Refines crypto cfg raw ip agent).reach w
  perform-Reach (logs_out access raw) w = (logout-Refines crypto cfg access raw).reach w
  perform-Reach (logs_out_everywhere access) w = (logout_all-Refines crypto cfg access).reach w
  perform-Reach (prunes retention limit) w = (prune_refresh_tokens-Refines retention limit).reach w
  perform-Reach (ends_sessions id) w = (revoke_user-Refines crypto cfg id).reach w
  perform-Reach (ends_other_sessions id keep) w = (revoke_others-Refines crypto cfg id keep).reach w

  -- Whatever requests are made, in whatever order and wherever their calls of the environment
  -- fail, the table of refresh tokens moves along the abstract steps: ids are drawn, rows are
  -- revoked or deleted, a row opens a session with a number of its own, or a row succeeds one
  -- that was there unrevoked, in its session, for its user and with its start.
  pub run-Reach : (qs : List Request) (w : World) → Reach (sessions w) (sessions (run qs w))
  unfolding run
  run-Reach [] w = done
  run-Reach (q ∷ qs) w =
      Reach-trans (perform-Reach q.operation (record w { clock = q.at; faults = q.answers }))
        (run-Reach qs (perform q.operation (record w { clock = q.at; faults = q.answers })))

  -- If every session of the table has a number that was handed out, and a session has at most one
  -- token that is not revoked, then after any requests it still has at most one.
  pub run-at_most_one :
      (qs : List Request) (w : World) (family : ℕ)
      → IsNumbered (sessions w)
      → open_count family w.db.refresh_tokens ≤ 1
      → open_count family (run qs w).db.refresh_tokens ≤ 1
  run-at_most_one qs w family numbered le =
      (Reach-at_most_one family (run-Reach qs w) numbered le).1

  -- A session whose number was handed out, and all of whose tokens are revoked or gone, never has
  -- an unrevoked one again, whatever requests follow.
  pub run-ended :
      (qs : List Request) (w : World) (family : ℕ)
      → family < w.next_id
      → open_count family w.db.refresh_tokens ≡ 0
      → open_count family (run qs w).db.refresh_tokens ≡ 0
  run-ended qs w family lt ended = Reach-ended family (run-Reach qs w) lt ended

  -- If every row of a session has one owner and one start, then so has every row that any requests
  -- add to it.
  pub run-belongs :
      (qs : List Request) (w : World) (family user_id started_at : ℕ)
      → family < w.next_id
      → All (λ r. belongs family user_id started_at r ≡ true) w.db.refresh_tokens
      → All (λ r. belongs family user_id started_at r ≡ true) (run qs w).db.refresh_tokens
  run-belongs qs w family user_id started_at lt kept =
      Reach-belongs family user_id started_at (run-Reach qs w) lt kept
