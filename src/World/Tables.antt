-- ===== src/World/Tables.antt =====
-- The Postgres tables that the maintenance stores read and write (rows as in
-- internal/pkg/generated/maintmode/public/model), and the world around them: what the services
-- publish, the clock, and the answers that the environment has in store.
use maintmode.Base.{Bool, ℕ, String, Option, List}
use maintmode.Entity.Period.{Tstzrange}
use maintmode.Entity.Maint.{
  Maintenance, MaintenanceStatus, MaintenanceScope, MaintenanceImpact, MaintenanceCancelReason,
}
use maintmode.Entity.Step.{MaintenanceStep, MaintenanceStepStatus}
use maintmode.Entity.User.{User, Role}
use maintmode.Entity.Session.{RefreshToken, IdText}
use maintmode.Entity.Notify.{NotifyChannel, NotifyTarget, DeferredNotification, NotifyEventKind}
use maintmode.World.Errors.{Error}

pub record MaintenanceRow : Type 0 where
  pub id : ℕ
  pub title : String
  pub description : String
  pub planned_period : Tstzrange
  pub actual_period : Option Tstzrange
  pub impact : MaintenanceImpact
  pub status : MaintenanceStatus
  pub scope : MaintenanceScope
  pub canceled_reason_code : Option MaintenanceCancelReason
  pub canceled_reason_comment : Option String
  pub created_at : ℕ
  pub updated_at : Option ℕ
  pub approver_user_id : ℕ
  pub created_by_user_id : ℕ
  pub task_tracker_url : String

pub record StepRow : Type 0 where
  pub id : ℕ
  pub maintenance_id : ℕ
  pub step_order : ℕ
  pub description : String
  pub rollback : String
  pub duration_minutes : ℕ
  pub status : MaintenanceStepStatus
  pub actual_started_at : Option ℕ
  pub actual_completed_at : Option ℕ
  pub created_at : ℕ
  pub updated_at : Option ℕ

pub record ResourceLink : Type 0 where
  pub maintenance_id : ℕ
  pub resource_id : ℕ

pub record MentionRow : Type 0 where
  pub maintenance_id : ℕ
  pub user_id : ℕ

pub record SnapshotRow : Type 0 where
  pub maintenance_id : ℕ
  pub conflicted_maintenance_id : ℕ
  pub resource_id : Option ℕ
  pub conflict_period : Tstzrange

-- Of an invitation, what the count of seats reads; `is_pending` is the stored status `pending`.
pub record InvitationRow : Type 0 where
  pub id : ℕ
  pub roles : List Role
  pub is_pending : Bool
  pub expires_at : ℕ

-- What the code asks of the task queue (goque), a library outside the repository: the calls are
-- kept in order, and join the transaction in which they are made.
pub data QueueCall : Type 0 where
  add_reminder : (task maint_id deferred_id delay : ℕ) → QueueCall
  cancel_task : ℕ → QueueCall

pub record Db : Type 0 where
  pub maintenances : List MaintenanceRow
  pub maintenance_steps : List StepRow
  pub maintenance_resources : List ResourceLink
  pub maintenance_mentions : List MentionRow
  pub maintenance_notify_targets : List NotifyTarget
  pub maintenance_deferred_notifications : List DeferredNotification
  pub maintenance_conflict_snapshot : List SnapshotRow
  pub messenger_channels : List NotifyChannel
  pub users : List User
  pub refresh_tokens : List RefreshToken
  pub user_invitations : List InvitationRow
  pub queue : List QueueCall

-- The event that a service hands to the dispatcher of internal/services/maintnotify.
pub record NotifyEvent : Type 0 where
  pub kind : NotifyEventKind
  pub maint_id : ℕ
  pub maint_title : String
  pub task_tracker_url : String
  pub created_by_user_id : ℕ
  pub step_id : ℕ
  pub step_order : ℕ
  pub step_description : String
  pub cancel_reason : MaintenanceCancelReason
  pub cancel_reason_comment : String

-- `entity.AuditFieldChange`, with the old and the new value left out.
pub data AuditFieldChange : Type 0 where
  title description planned_period scope impact approver task_tracker_url : AuditFieldChange
  steps resources notify_targets deferred_notifications mentions : AuditFieldChange

-- What Valkey holds of revoked access tokens (internal/storages/blacklisttoken): the keys
-- `blacklist:<jti>` and `blacklist:session:<family>`, each until it expires.
pub data MarkKey : Type 0 where
  of_token : IdText → MarkKey
  of_session : IdText → MarkKey

pub record Mark : Type 0 where
  pub key : MarkKey
  pub expires_at : ℕ

-- The actions of internal/audit that the modelled services publish.
pub data Action : Type 0 where
  maint_created maint_approved maint_started maint_completed maint_cancelled :
      User → Maintenance → Action
  maint_updated : User → Maintenance → List AuditFieldChange → Action
  maint_step_started maint_step_completed maint_step_cancelled :
      User → Maintenance → MaintenanceStep → Action
  -- with the address, the user agent and the session; the reason is always reuse
  session_revoked : User → String → String → ℕ → Action
  logout_success : User → IdText → Action
  -- `RolesChanged`, with the roles granted or taken, or the roles before and after
  roles_assigned roles_revoked : Option User → User → List Role → Action
  roles_replaced : Option User → User → List Role → List Role → Action
  user_blocked user_unblocked : Option User → User → Action

-- `clock` is the time that the readings of one operation give. `faults` answers the calls of the
-- environment in turn: `none`, or no entry, is success. `next_id` numbers the ids handed out.
pub record World : Type 0 where
  pub db : Db
  pub clock : ℕ
  pub faults : List (Option Error)
  pub next_id : ℕ
  pub events : List NotifyEvent
  pub audits : List Action
  pub revocations : List Mark
