-- ===== src/Entity/Maint.antt =====
-- internal/entity/maint.go.
use maintmode.Base.{
  ℕ, ◌-◌, String, Option, none, some, Bool, true, false, List, [], ◌∷◌, any, ◌||◌, ltb, leb,
  if◌then◌else◌,
}
use maintmode.Entity.Period.{Period}
use maintmode.Entity.Step.{MaintenanceStep}
use maintmode.Entity.Notify.{NotifyTarget, DeferredNotification}

pub data MaintenanceStatus : Type 0 where
  draft planned in_progress cancelled completed : MaintenanceStatus

abbrev pub status_eq : MaintenanceStatus → MaintenanceStatus → Bool
status_eq draft draft = true
status_eq planned planned = true
status_eq in_progress in_progress = true
status_eq cancelled cancelled = true
status_eq completed completed = true
status_eq _ _ = false

unfoldable pub allowed_maint_status_transitions : MaintenanceStatus → List MaintenanceStatus
allowed_maint_status_transitions draft = planned ∷ cancelled ∷ []
allowed_maint_status_transitions planned = in_progress ∷ cancelled ∷ []
allowed_maint_status_transitions in_progress = completed ∷ cancelled ∷ []
allowed_maint_status_transitions cancelled = []
allowed_maint_status_transitions completed = []

unfoldable pub can_maint_transition : MaintenanceStatus → MaintenanceStatus → Bool
unfolding allowed_maint_status_transitions
can_maint_transition from to = any (λ s. status_eq s to) (allowed_maint_status_transitions from)

-- `MaintenanceStatus.IsTerminal`
abbrev pub is_terminal : MaintenanceStatus → Bool
is_terminal s = status_eq s cancelled || status_eq s completed

pub data MaintenanceScope : Type 0 where
  global resources : MaintenanceScope

abbrev pub scope_eq : MaintenanceScope → MaintenanceScope → Bool
scope_eq global global = true
scope_eq resources resources = true
scope_eq _ _ = false

pub data MaintenanceImpact : Type 0 where
  no_outage partial_outage full_outage : MaintenanceImpact

abbrev pub impact_eq : MaintenanceImpact → MaintenanceImpact → Bool
impact_eq no_outage no_outage = true
impact_eq partial_outage partial_outage = true
impact_eq full_outage full_outage = true
impact_eq _ _ = false

-- `unset` is the empty string, the reason of a maintenance that is not canceled.
pub data MaintenanceCancelReason : Type 0 where
  unset conflict incident business_decision rescheduled mistake not_started :
      MaintenanceCancelReason

pub record Maintenance : Type 0 where
  pub id : ℕ
  pub title : String
  pub description : String
  pub planned_period : Period
  pub actual_period : Option Period
  pub resources : List ℕ
  pub scope : MaintenanceScope
  pub impact : MaintenanceImpact
  pub status : MaintenanceStatus
  pub cancel_reason : MaintenanceCancelReason
  pub cancel_reason_comment : String
  pub created_by_user_id : ℕ
  pub created_at : ℕ
  pub updated_at : Option ℕ
  pub steps : List MaintenanceStep
  pub notify_targets : List NotifyTarget
  pub deferred_notifications : List DeferredNotification
  pub mentions : List ℕ
  pub approver_user_id : ℕ
  pub task_tracker_url : String

unfoldable pub normalize : Maintenance → Maintenance
normalize m = if scope_eq m.scope global then record m { resources = [] } else m

-- The part of `CloseActualPeriod` that looks at the period.
unfoldable pub close_period : ℕ → Option Period → Option Period
close_period end none = none
close_period end (some p) = if ltb p.start end then some (record p { end = some end }) else none

unfoldable pub close_actual_period : ℕ → Maintenance → Maintenance
unfolding close_period
close_actual_period end m = record m { actual_period = close_period end m.actual_period }

-- `UnixMicro`: microseconds since 1970, in an int64; a pair stands for the difference, so that a
-- time before 1970 is negative.
abbrev unix_epoch : ℕ
unix_epoch = 62_135_596_800_000_000

pub data ℤ : Type 0 where
  pos : ℕ → ℤ
  negsuc : ℕ → ℤ

abbrev pub sub_ℕ : ℕ → ℕ → ℤ
sub_ℕ a b = if leb b a then pos (a - b) else negsuc (b - a - 1)

abbrev pub unix_micro : ℕ → ℤ
unix_micro t = sub_ℕ t unix_epoch

unfoldable pub revision : Maintenance → ℤ
revision m = elim m.updated_at [ none ↦ unix_micro m.created_at | some t ↦ unix_micro t ]
