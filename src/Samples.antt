-- ===== src/Samples.antt =====
-- Concrete tables and requests on which the theorems are applied.
pub mod Witnesses
mod Accounts
use maintmode.Base.{
  ℕ, zero, suc, ◌+◌, ◌-◌, ◌*◌, ◌/◌, ◌%◌, ◌^◌, ◌≤◌, ◌<◌, Ordering, compare, String, ◌≡◌, refl, sym,
  ap, subst, ◌∙◌, ◌≢◌, ◌⊎◌, inl, inr, Bool, true, false, not, ◌&&◌, ◌||◌, Option, none, some, List,
  [], ◌∷◌, ◌++◌, map, arith, str_eq, eq_iff, ltb, leb, ◌==◌, if◌then◌else◌, ==→≡, ==_self, ltb→lt,
  Bool-cases, Option-cases, from_ptr, is_some, length, take, filter, find, any, all, All, Member,
  here, there, length-take-le, contains, uniq, uniq_from,
}
use maintmode.Entity.Maint.{
  global, Maintenance, unset, unix_micro, MaintenanceStatus, draft, planned, in_progress, completed,
  resources, no_outage,
}
use maintmode.Entity.Commands.{CreateMaintenanceCmd, ApproveMaintenanceCmd}
use maintmode.Entity.Step.{
  MaintenanceStep, MaintenanceStepStatus, started as step_started, completed as step_done,
  planned as step_planned,
}
use maintmode.Entity.Period.{new_period, range, at}
use maintmode.Entity.Conflict.{ConflictWithResources}
use maintmode.Lifecycle.Create.{Rules}
use maintmode.Lifecycle.Machine.{Request, start}
use maintmode.Entity.User.{User, system_user}
use maintmode.World.Tables.{MaintenanceRow, StepRow, Db, World}

-- Microseconds of the year 2026.
abbrev pub noon : ℕ
noon = 63_900_000_000_000_000

abbrev pub sample_row : ℕ → MaintenanceStatus → MaintenanceRow
sample_row id status = record {
  id = id;
  title = "Database upgrade";
  description = "Upgrade the primary";
  planned_period = range (at noon) (at (noon + 3_600_000_000));
  actual_period = none;
  impact = no_outage;
  status = status;
  scope = resources;
  canceled_reason_code = none;
  canceled_reason_comment = none;
  created_at = noon;
  updated_at = none;
  approver_user_id = 7;
  created_by_user_id = 8;
  task_tracker_url = "";
}

abbrev sample_step_row : ℕ → ℕ → MaintenanceStepStatus → StepRow
sample_step_row id order status = record {
  id = id;
  maintenance_id = 2;
  step_order = order;
  description = "Switch over";
  rollback = "Switch back";
  duration_minutes = 30;
  status = status;
  actual_started_at = none;
  actual_completed_at = none;
  created_at = noon;
  updated_at = none;
}

abbrev pub sample_step : ℕ → ℕ → MaintenanceStepStatus → MaintenanceStep
sample_step id order status = record {
  id = id;
  order = order;
  description = "Switch over";
  rollback_description = "Switch back";
  duration_minutes = 30;
  status = status;
  actual_started_at = none;
  actual_completed_at = none;
  created_at = noon;
  updated_at = none;
}

-- Given out of order; the second may be completed, since the first is.
abbrev pub two_steps : List MaintenanceStep
two_steps = sample_step 22 2 step_started ∷ sample_step 21 1 step_done ∷ []

abbrev pub sample_maint : ℕ → MaintenanceStatus → Maintenance
sample_maint id status = record {
  id = id;
  title = "Database upgrade";
  description = "Upgrade the primary";
  planned_period = new_period noon (noon + 3_600_000_000);
  actual_period = none;
  resources = [];
  scope = resources;
  impact = no_outage;
  status = status;
  cancel_reason = unset;
  cancel_reason_comment = "";
  created_by_user_id = 8;
  created_at = noon;
  updated_at = none;
  steps = [];
  notify_targets = [];
  deferred_notifications = [];
  mentions = [];
  approver_user_id = 7;
  task_tracker_url = "";
}

-- The third maintenance, completed a minute after noon.
abbrev pub finished_third : Maintenance
finished_third = record (sample_maint 3 completed) {
  planned_period = new_period noon (noon + 60_000_000);
  actual_period = some (new_period noon (noon + 60_000_000));
}

abbrev pub known_conflict : ℕ → ConflictWithResources
known_conflict id = record {
  conflict = record {
    maintenance_id = id;
    title = "Switch replacement";
    overlap_start = noon;
    overlap_end = noon + 1;
    scope = resources;
  };
  resources = [];
  known_at_approval = false;
}

abbrev pub sample_db : Db
sample_db = record {
  maintenances =
      sample_row 1 draft
      ∷ sample_row 2 planned
      ∷ sample_row 3 in_progress
      ∷ sample_row 4 completed
      ∷ [];
  maintenance_steps = sample_step_row 21 1 step_planned ∷ [];
  maintenance_resources = [];
  maintenance_mentions = [];
  maintenance_notify_targets = [];
  maintenance_deferred_notifications = [];
  maintenance_conflict_snapshot = [];
  messenger_channels = [];
  users = [];
  refresh_tokens = [];
  user_invitations = [];
  queue = [];
}

abbrev pub sample_world : World
sample_world = record {
  db = sample_db;
  clock = noon + 60_000_000;
  faults = [];
  next_id = 100;
  events = [];
  audits = [];
  revocations = [];
}

abbrev pub no_hash : List ℕ → String
no_hash bytes = ""

abbrev pub sample_rules : Rules
sample_rules = record {
  required_text = λ s. true;
  required = λ n. not (n == 0);
  required_id = λ id. true;
  length_within = λ lo hi n. leb lo n && leb n hi;
  at_least = leb;
  http_link_url = λ s. true;
}

abbrev pub approve_cmd : ApproveMaintenanceCmd
approve_cmd = record {
  maint_id = 1;
  observed_maint_revision = unix_micro noon;
  conflict_snapshot = record { conflicts = [] };
  actor_user_id = 7;
  actor = some system_user;
}

abbrev pub start_second : Request
start_second = record {
  operation = start (record { maint_id = 2; actor = system_user });
  at = noon + 120_000_000;
  answers = [];
}

abbrev pub create_cmd : CreateMaintenanceCmd
create_cmd = record {
  title = "Database upgrade";
  description = "Upgrade the primary";
  planned_period = new_period (noon + 1) (noon + 1_800_000_001);
  scope = global;
  impact = no_outage;
  resources = [];
  steps =
      record {
        order = 1;
        description = "Switch over";
        rollback_description = "Switch back";
        duration_minutes = 30;
      }
      ∷ [];
  notify_targets = record { channel_id = 3 } ∷ [];
  deferred_notifications = [];
  mentions = [];
  approver_user_id = 7;
  created_by_user_id = 8;
  task_tracker_url = "";
  actor = system_user;
}
