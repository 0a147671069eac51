-- ===== src/Conflict.antt =====
-- Conflicts between maintenances: internal/entity/conflict.go, internal/services/conflicts and the
-- choice of source in internal/services/calendar/get_maint_conflicts.go.
pub mod Fingerprint
pub mod Approval
pub mod Service
pub mod Overlap
pub mod Scope
pub mod Found
pub mod Review
pub mod Redaction
