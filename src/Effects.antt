-- ===== src/Effects.antt =====
-- What the handlers may do to the database, whoever else writes in between.
pub mod Change
pub mod Steps
pub mod Queries
pub mod Handlers
pub mod Data
pub mod Interleaving
pub mod Constraints
pub mod Consistency
pub mod Frames
pub mod Approval
pub mod Retention
pub mod Windows
pub mod Atomic
