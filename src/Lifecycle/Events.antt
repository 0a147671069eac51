-- ===== src/Lifecycle/Events.antt =====
-- Which transitions are told to the subscribers (services/maint/update_maint.go).
use maintmode.Base.{◌≡◌, not, ◌&&◌, arith, is_some}
use maintmode.Entity.Maint.{
  MaintenanceStatus, draft, can_maint_transition, allowed_maint_status_transitions, status_eq,
}
use maintmode.Lifecycle.Apply.{maint_lifecycle_event}

-- An event follows from exactly the transitions that the table allows out of a status other than
-- draft.
pub maint_lifecycle_event-allowed :
    (prev current : MaintenanceStatus)
    → is_some (maint_lifecycle_event prev current)
      ≡ (can_maint_transition prev current && not (status_eq prev draft))
unfolding maint_lifecycle_event can_maint_transition allowed_maint_status_transitions
maint_lifecycle_event-allowed prev current = ground arith
