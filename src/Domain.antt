-- ===== src/Domain.antt =====
-- src/domain/: the queries on the four tables.
pub mod Rows
pub mod Outcome
pub mod User
pub mod Identity
pub mod Group
pub mod Password
