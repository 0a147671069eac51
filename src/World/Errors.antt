-- ===== src/World/Errors.antt =====
-- The errors of internal/apperr that the modelled services return, the sentinel of
-- services/maint/update_maint.go, and the failures that the environment may answer with.
use maintmode.Base.{Bool, true, false}
use maintmode.Entity.Maint.{MaintenanceStatus}
use maintmode.Entity.Step.{MaintenanceStepStatus}

pub data Error : Type 0 where
  validation : Error
  nil_actor : Error
  maint_not_found : Error
  forbidden_maint_status_transition : MaintenanceStatus → MaintenanceStatus → Error
  -- `ErrForbiddenStepStatusTransition`, for a maintenance that is not in progress
  maint_not_in_progress : Error
  forbidden_step_status_transition : MaintenanceStepStatus → MaintenanceStepStatus → Error
  step_not_found : Error
  step_order_violation : Error
  maintenance_has_unfinished_steps : Error
  approver_mismatch : Error
  approver_not_eligible : Error
  maint_changed_since_preview : Error
  conflicts_changed_since_preview : Error
  concurrent_modification : Error
  notify_channel_not_found : Error
  -- `ErrValidation` wrapped round an unknown channel id
  unknown_channel : Error
  notify_targets_already_exists : Error
  open_actual_period : Error
  skip_update : Error
  -- sessions
  lock_busy : Error
  refresh_token_not_found : Error
  refresh_token_already_rotated : Error
  invalid_refresh_token : Error
  invalid_access_token : Error
  token_expired : Error
  token_reuse : Error
  logout_already : Error
  missing_session_id : Error
  -- users
  user_not_found : Error
  user_blocked : Error
  invalid_role : Error
  self_assign : Error
  self_revoke : Error
  self_block : Error
  self_unblock : Error
  last_admin : Error
  seat_limit_reached : Error
  not_changed : Error
  -- Postgres and the environment
  serialization_failure : Error
  unique_violation : Error
  check_violation : Error
  context_canceled : Error
  deadline_exceeded : Error
  -- a range whose lower bound is above its upper one
  data_exception : Error
  panic_recovery : Error
  store_failure : Error

pub data Result {ℓ} (A : Type ℓ) : Type ℓ where
  ok : A → Result A
  err : Error → Result A

-- `dbtx.ErrorIs(err, dbtx.ErrPGSerializationFailure)`
abbrev pub is_serialization_failure : Error → Bool
is_serialization_failure serialization_failure = true
is_serialization_failure _ = false

-- `errors.Is(err, errSkipUpdate)`
abbrev pub is_skip_update : Error → Bool
is_skip_update skip_update = true
is_skip_update _ = false
