-- ===== src/Lifecycle/Machine.antt =====
-- The operations of services/maint, in any order, each under whatever the environment does to it.
use maintmode.Base.{ℕ, String, ◌≡◌, refl, sym, ap, ◌∙◌, true, Option, some, List, [], ◌∷◌}
use maintmode.Entity.Commands.{
  CreateMaintenanceCmd, CancelMaintenanceCmd, CompleteMaintenanceCmd, StartMaintenanceCmd,
  ApproveMaintenanceCmd, MaintenanceStepCmd, UpdateMaintenanceCmd,
}
use maintmode.Lifecycle.Create.{create_draft, Rules}
use maintmode.Lifecycle.Creation.{create-Follows}
use maintmode.World.Errors.{Error}
use maintmode.World.Tables.{World}
use maintmode.Entity.Maint.{
  MaintenanceStatus, cancelled, completed, is_terminal, can_maint_transition,
  allowed_maint_status_transitions,
}
use maintmode.Entity.Step.{started, completed as step_done, canceled}
use maintmode.Lifecycle.Update.{update_draft}
use maintmode.Lifecycle.Start.{start_maint}
use maintmode.Lifecycle.Cancel.{cancel_maint, cancel_unstarted}
use maintmode.Lifecycle.Complete.{complete_maint}
use maintmode.Lifecycle.Approve.{approve_maint}
use maintmode.Lifecycle.StepOps.{start_step, complete_step, cancel_step}
use maintmode.Lifecycle.Transitions.{StatusPath, stays, moves, StatusPath-trans, status_of, Follows}
use maintmode.Lifecycle.Follows.{cancel-Follows, start-Follows, complete-Follows, sweep-Follows}
use maintmode.Lifecycle.EditFollows.{change_step-Follows, update_draft-Follows, approve-Follows}

pub data Operation : Type 0 where
  create : CreateMaintenanceCmd → Operation
  update : UpdateMaintenanceCmd → Operation
  approve : ApproveMaintenanceCmd → Operation
  start : StartMaintenanceCmd → Operation
  cancel : CancelMaintenanceCmd → Operation
  cancel_overdue : (cutoff limit : ℕ) → Operation
  complete : CompleteMaintenanceCmd → Operation
  begin_step finish_step drop_step : MaintenanceStepCmd → Operation

-- A request: the time at which it runs, and what its calls of the environment answer.
pub record Request : Type 0 where
  pub operation : Operation
  pub at : ℕ
  pub answers : List (Option Error)

module _ (r : Rules) (sha256_hex : List ℕ → String) where
  unfoldable pub perform : Operation → World → World
  unfolding create_draft update_draft approve_maint start_maint cancel_maint cancel_unstarted
      complete_maint
  perform (create cmd) w = (create_draft r cmd w).1
  perform (update cmd) w = (update_draft r cmd w).1
  perform (approve cmd) w = (approve_maint sha256_hex cmd w).1
  perform (start cmd) w = (start_maint cmd w).1
  perform (cancel cmd) w = (cancel_maint cmd w).1
  perform (cancel_overdue cutoff limit) w = (cancel_unstarted cutoff limit w).1
  perform (complete cmd) w = (complete_maint cmd w).1
  perform (begin_step cmd) w = (start_step cmd w).1
  perform (finish_step cmd) w = (complete_step cmd w).1
  perform (drop_step cmd) w = (cancel_step cmd w).1

  unfoldable pub run : List Request → World → World
  unfolding perform
  run [] w = w
  run (q ∷ qs) w = run qs (perform q.operation (record w { clock = q.at; faults = q.answers }))

  perform-Follows : (id : ℕ) (op : Operation) (w : World) → Follows id w.db (perform op w).db
  unfolding perform
  perform-Follows id (create cmd) w = create-Follows id r cmd w
  perform-Follows id (update cmd) w = update_draft-Follows id r cmd w
  perform-Follows id (approve cmd) w = approve-Follows id sha256_hex cmd w
  perform-Follows id (start cmd) w = start-Follows id cmd w
  perform-Follows id (cancel cmd) w = cancel-Follows id cmd w
  perform-Follows id (cancel_overdue cutoff limit) w = sweep-Follows id cutoff limit w
  perform-Follows id (complete cmd) w = complete-Follows id cmd w
  perform-Follows id (begin_step cmd) w = change_step-Follows id started cmd w
  perform-Follows id (finish_step cmd) w = change_step-Follows id step_done cmd w
  perform-Follows id (drop_step cmd) w = change_step-Follows id canceled cmd w

  -- Whatever requests are made, in whatever order, and wherever their calls of the database, the
  -- queue and the network fail, a maintenance appears as a draft, and its status moves only along
  -- the table of allowed transitions.
  pub run-StatusPath :
      (id : ℕ) (requests : List Request) (w : World)
      → StatusPath (status_of id w.db.maintenances) (status_of id (run requests w).db.maintenances)
  unfolding run
  run-StatusPath id [] w = stays
  run-StatusPath id (q ∷ qs) w =
      let next = record w { clock = q.at; faults = q.answers } in
      StatusPath-trans (perform-Follows id q.operation next)
        (run-StatusPath id qs (perform q.operation next))

no_way_out :
    (s u : MaintenanceStatus) → is_terminal s ≡ true → can_maint_transition s u ≡ true → (s ≡ u)
unfolding can_maint_transition allowed_maint_status_transitions
no_way_out cancelled u h k = absurd (cc k)
no_way_out completed u h k = absurd (cc k)
no_way_out _ u h k = absurd (cc h)

stuck :
    {s : MaintenanceStatus} {t : Option MaintenanceStatus}
    → StatusPath (some s) t
    → is_terminal s ≡ true
    → t ≡ some s
unfolding can_maint_transition allowed_maint_status_transitions
stuck stays h = refl
stuck {s = s} (moves {u = u} k p) h =
    let same = no_way_out s u h k in stuck p (rw same at h) ∙ ap some (sym same)

module _ (r : Rules) (sha256_hex : List ℕ → String) where
  -- A maintenance that is canceled or completed stays so, whatever requests follow.
  pub run-terminal :
      (id : ℕ) (s : MaintenanceStatus) (requests : List Request) (w : World)
      → status_of id w.db.maintenances ≡ some s
      → is_terminal s ≡ true
      → status_of id (run r sha256_hex requests w).db.maintenances ≡ some s
  run-terminal id s requests w at done =
      stuck (rw at at (run-StatusPath r sha256_hex id requests w)) done
