-- ===== src/Entity/Commands.antt =====
-- The maintenance commands of internal/entity/commands.go.
use maintmode.Base.{ℕ, String, Option, List}
use maintmode.Entity.Period.{Period}
use maintmode.Entity.Maint.{MaintenanceScope, MaintenanceImpact, MaintenanceCancelReason, ℤ}
use maintmode.Entity.User.{User}
use maintmode.Entity.Conflict.{ConflictsSnapshot}

pub record MaintenanceStepInput : Type 0 where
  pub order : ℕ
  pub description : String
  pub rollback_description : String
  pub duration_minutes : ℕ

-- `NotifyTargetInput`, `MentionInput` and `DeferredNotificationInput` carry one field each.
pub record NotifyTargetInput : Type 0 where
  pub channel_id : ℕ

pub record MentionInput : Type 0 where
  pub user_id : ℕ

pub record DeferredNotificationInput : Type 0 where
  pub fire_at : ℕ

pub record CreateMaintenanceCmd : Type 0 where
  pub title : String
  pub description : String
  pub planned_period : Period
  pub scope : MaintenanceScope
  pub impact : MaintenanceImpact
  pub resources : List ℕ
  pub steps : List MaintenanceStepInput
  pub notify_targets : List NotifyTargetInput
  pub deferred_notifications : List DeferredNotificationInput
  pub mentions : List MentionInput
  pub approver_user_id : ℕ
  pub created_by_user_id : ℕ
  pub task_tracker_url : String
  pub actor : User

-- A pointer field is an option: `none` leaves the value unchanged.
pub record UpdateMaintenanceCmd : Type 0 where
  pub maint_id : ℕ
  pub title : Option String
  pub description : Option String
  pub planned_start : Option ℕ
  pub scope : Option MaintenanceScope
  pub impact : Option MaintenanceImpact
  pub resources : List ℕ
  pub steps : List MaintenanceStepInput
  pub notify_targets : List NotifyTargetInput
  pub deferred_notifications : Option (List DeferredNotificationInput)
  pub mentions : Option (List MentionInput)
  pub approver_user_id : Option ℕ
  pub task_tracker_url : Option String
  pub actor : User

pub record StartMaintenanceCmd : Type 0 where
  pub maint_id : ℕ
  pub actor : User

pub record CancelMaintenanceCmd : Type 0 where
  pub maint_id : ℕ
  pub reason : MaintenanceCancelReason
  pub reason_comment : String
  pub actor : User

pub record CompleteMaintenanceCmd : Type 0 where
  pub maint_id : ℕ
  pub actor : User

pub record ApproveMaintenanceCmd : Type 0 where
  pub maint_id : ℕ
  pub observed_maint_revision : ℤ
  pub conflict_snapshot : ConflictsSnapshot
  pub actor_user_id : ℕ
  pub actor : Option User

-- `StartMaintenanceStepCmd`, `CompleteMaintenanceStepCmd` and `CancelMaintenanceStepCmd` have the
-- same fields.
pub record MaintenanceStepCmd : Type 0 where
  pub maint_id : ℕ
  pub step_id : ℕ
  pub actor : User

pub record ConflictQueryCmd : Type 0 where
  pub maint_id : ℕ
  pub planned_period : Period
  pub scope : MaintenanceScope
  pub resource_ids : List ℕ

pub record ActualConflictQueryCmd : Type 0 where
  pub maint_id : ℕ
  pub actual_period : Period
  pub scope : MaintenanceScope
  pub resource_ids : List ℕ
