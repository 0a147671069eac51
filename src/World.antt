-- ===== src/World.antt =====
-- The state that the services share and the effects by which they change it. `Db` holds the
-- tables, `World` adds what a rollback does not undo, and an operation is an action of `M`.
pub mod Errors
pub mod Tables
pub mod Effect
pub mod Tx
pub mod Respects
