-- ===== src/Users.antt =====
-- internal/services/user and internal/services/license: the roles of users, blocking them, and the
-- cap on seats.
pub mod Seats
pub mod Store
pub mod Admin
pub mod Counts
pub mod Update
pub mod Careful
pub mod History
pub mod Blocked
pub mod Counted
