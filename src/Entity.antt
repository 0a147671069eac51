-- ===== src/Entity.antt =====
-- The domain types of internal/entity: periods, maintenances, their steps, users, notifications
-- and conflicts. A UUID is a number (its 16 bytes, big-endian; `uuid.Nil` is 0), so
-- `bytes.Compare` of two is the order of numbers. A `time.Time` is the number of microseconds
-- since Go's zero time, the resolution of Postgres; `IsZero` is the test for 0.
pub mod Period
pub mod Step
pub mod Maint
pub mod User
pub mod Session
pub mod Notify
pub mod Conflict
pub mod Commands
