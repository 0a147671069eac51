-- ===== src/Lifecycle.antt =====
-- internal/services/maint: every operation on a maintenance.
pub mod Apply
pub mod Applied
pub mod Run
pub mod Transitions
pub mod Rows
pub mod Services
pub mod Moves
pub mod Frames
pub mod Approval
pub mod Edits
pub mod DraftEdits
pub mod Follows
pub mod EditFollows
pub mod Creation
pub mod Machine
pub mod Outcomes
pub mod StepOrder
pub mod Findings
pub mod Events
pub mod Validated
pub mod Start
pub mod Cancel
pub mod Complete
pub mod StepOps
pub mod Approve
pub mod Create
pub mod Update
