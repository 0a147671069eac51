-- ===== src/Entity/Step.antt =====
-- internal/entity/maint_step.go.
use maintmode.Base.{ℕ, String, Option, Bool, true, false, List, [], ◌∷◌, any, ◌||◌}

pub data MaintenanceStepStatus : Type 0 where
  planned started completed canceled : MaintenanceStepStatus

abbrev step_status_eq : MaintenanceStepStatus → MaintenanceStepStatus → Bool
step_status_eq planned planned = true
step_status_eq started started = true
step_status_eq completed completed = true
step_status_eq canceled canceled = true
step_status_eq _ _ = false

-- `MaintenanceStepStatus.IsTerminal`
abbrev pub is_terminal : MaintenanceStepStatus → Bool
is_terminal s = step_status_eq s completed || step_status_eq s canceled

unfoldable pub allowed_maint_step_status_transitions :
    MaintenanceStepStatus → List MaintenanceStepStatus
allowed_maint_step_status_transitions planned = started ∷ []
allowed_maint_step_status_transitions started = completed ∷ canceled ∷ []
allowed_maint_step_status_transitions completed = []
allowed_maint_step_status_transitions canceled = []

unfoldable pub can_main_step_transition : MaintenanceStepStatus → MaintenanceStepStatus → Bool
unfolding allowed_maint_step_status_transitions
can_main_step_transition from to =
    any (λ s. step_status_eq s to) (allowed_maint_step_status_transitions from)

pub record MaintenanceStep : Type 0 where
  pub id : ℕ
  pub order : ℕ  -- int32
  pub description : String
  pub rollback_description : String
  pub duration_minutes : ℕ  -- int64
  pub status : MaintenanceStepStatus
  pub actual_started_at : Option ℕ
  pub actual_completed_at : Option ℕ
  pub created_at : ℕ
  pub updated_at : Option ℕ
