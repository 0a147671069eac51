-- ===== src/Store.antt =====
-- The stores of internal/storages that the maintenance services use: each query as a function of
-- the tables, with what the migrations check on a write. A statement may also fail by itself
-- (`call`).
pub mod Maintenances
pub mod Steps
pub mod Children
pub mod Deferred
pub mod Conflicts
pub mod Snapshots
pub mod RoundTrip
pub mod Overdue
