-- ===== src/Lifecycle/EditFollows.antt =====
-- The approval, and the operations that keep the status, move each maintenance along the table of
-- transitions.
use maintmode.Base.{ℕ, String, inl, inr, not, Option, none, some, List, [], ◌∷◌, Bool-cases}
use maintmode.World.Errors.{Result, ok, err, validation, is_serialization_failure}
use maintmode.World.Tables.{World, AuditFieldChange}
use maintmode.World.Effect.{throw_if}
use maintmode.Lifecycle.StepOps.{
  step_body, change_step, announce_step, dispatch_step_lifecycle, notify_step, step_event_kind,
}
use maintmode.Lifecycle.Update.{
  update_draft, audit_changes, validate_update, check_new_approver, apply_update,
}
use maintmode.Lifecycle.Create.{Rules}
use maintmode.Entity.User.{User}
use maintmode.Entity.Notify.{NotifyEventKind}
use maintmode.Entity.Maint.{Maintenance}
use maintmode.Targets.{resolve_notify_target}
use maintmode.World.Tx.{within_serializable_tx, background}
use maintmode.Lifecycle.DraftEdits.{update-IsLifecycle}
use maintmode.Lifecycle.Run.{serializable-IsTransaction}
use maintmode.Lifecycle.Approval.{approve-IsLifecycle}
use maintmode.Lifecycle.Apply.{update_with_apply_serializable, update_with_apply}
use maintmode.Lifecycle.Approve.{approve_maint, approve_as, approve_apply, after_approve}
use maintmode.Entity.Commands.{ApproveMaintenanceCmd, UpdateMaintenanceCmd, MaintenanceStepCmd}
use maintmode.World.Respects.{Respects, Respects-dispatch_event}
use maintmode.Lifecycle.Transitions.{Follows, stays, StatusPath-trans}
use maintmode.Entity.Step.{MaintenanceStep, MaintenanceStepStatus}
use maintmode.Lifecycle.Edits.{step-IsLifecycle}
use maintmode.Lifecycle.Rows.{keep_guard}
use maintmode.Lifecycle.Services.{keep_new_approver, keep_resolve}
use maintmode.Lifecycle.Follows.{
  Follows-refl, Follows-trans, from_rows, follow_bind, follow_audit, run-Follows, update-Follows,
}

module _ (id : ℕ) where
  follow_step :
      (m : Maintenance) (step : MaintenanceStep)
      → Respects (Follows id) (dispatch_step_lifecycle m step)
  unfolding dispatch_step_lifecycle notify_step
  follow_step m step = go (step_event_kind m.status step.status)
    where
      go : (k : Option NotifyEventKind) → Respects (Follows id) (notify_step k m step)
      go none = λ w. stays
      go (some k) = Respects-dispatch_event (Follows id) (Follows-refl id) (Follows-trans id) _

  follow_announce :
      (status : MaintenanceStepStatus) (cmd : MaintenanceStepCmd) (m : Maintenance)
      (steps : List MaintenanceStep)
      → Respects (Follows id) (announce_step status cmd m steps)
  unfolding announce_step
  follow_announce status cmd m [] = λ w. stays
  follow_announce status cmd m (s ∷ steps) =
      follow_bind id (dispatch_step_lifecycle m s) _ (follow_step m s) (λ _. follow_audit id _)

  pub change_step-Follows :
      (status : MaintenanceStepStatus) (cmd : MaintenanceStepCmd)
      → Respects (Follows id) (change_step status cmd)
  unfolding change_step
  change_step-Follows status cmd =
      follow_bind id (update_with_apply cmd.maint_id (step_body status cmd.step_id)) _
        (update-Follows id cmd.maint_id (step_body status cmd.step_id)
          (step-IsLifecycle status cmd.step_id))
        (λ both. follow_announce status cmd both.1 both.1.steps)

  follow_changes :
      (cmd : UpdateMaintenanceCmd) (m : Maintenance) (cs : List AuditFieldChange)
      → Respects (Follows id) (audit_changes cmd m cs)
  unfolding audit_changes
  follow_changes cmd m [] = λ w. stays
  follow_changes cmd m (c ∷ cs) = follow_audit id _

  pub update_draft-Follows :
      (r : Rules) (cmd : UpdateMaintenanceCmd) → Respects (Follows id) (update_draft r cmd)
  unfolding update_draft
  update_draft-Follows r cmd =
      follow_bind id (throw_if (not (validate_update r cmd)) validation) _
        (from_rows id (throw_if (not (validate_update r cmd)) validation)
          (keep_guard (not (validate_update r cmd)) validation))
        λ _.
          follow_bind id (check_new_approver cmd.approver_user_id) _
            (from_rows id (check_new_approver cmd.approver_user_id)
              (keep_new_approver cmd.approver_user_id))
            λ _.
              follow_bind id (resolve_notify_target cmd.maint_id cmd.notify_targets) _
                (from_rows id (resolve_notify_target cmd.maint_id cmd.notify_targets)
                  (keep_resolve cmd.maint_id cmd.notify_targets))
                λ targets.
                  follow_bind id (update_with_apply cmd.maint_id (apply_update targets cmd)) _
                    (update-Follows id cmd.maint_id (apply_update targets cmd)
                      (update-IsLifecycle targets cmd))
                    λ both. follow_changes cmd both.1 _

  approve_as-Follows :
      (sha256_hex : List ℕ → String) (cmd : ApproveMaintenanceCmd) (actor : Option User)
      → Respects (Follows id) (approve_as sha256_hex cmd actor)
  unfolding approve_as after_approve update_with_apply_serializable
  approve_as-Follows sha256_hex cmd none = λ w. stays
  approve_as-Follows sha256_hex cmd (some actor) = λ w.
      go w (update_with_apply_serializable cmd.maint_id (approve_apply sha256_hex cmd actor) w) (
        run-Follows id (within_serializable_tx background) cmd.maint_id
          (approve_apply sha256_hex cmd actor) serializable-IsTransaction
          (approve-IsLifecycle sha256_hex cmd actor) w)
    where
      go :
          (w : World) (r : Result (Maintenance × Maintenance) × World)
          → Follows id w.db r.1.db
          → Follows id w.db (after_approve sha256_hex actor r).1.db
      go w (ok (prev, current), v) k = StatusPath-trans k (follow_audit id _ v)
      go w (err e, v) k = elim (Bool-cases (is_serialization_failure e)) [
        | inl lost ↦ rw lost k
        | inr other ↦ rw other k
      ]

  pub approve-Follows :
      (sha256_hex : List ℕ → String) (cmd : ApproveMaintenanceCmd)
      → Respects (Follows id) (approve_maint sha256_hex cmd)
  unfolding approve_maint
  approve-Follows sha256_hex cmd = approve_as-Follows sha256_hex cmd cmd.actor
