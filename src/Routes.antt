-- ===== src/Routes.antt =====
-- src/routes/: the handlers.
pub mod Subnet
pub mod Auth
pub mod Greet
pub mod Sign
pub mod Refresh
pub mod Resign
pub mod Admin
pub mod Groups
pub mod Passwords
pub mod Archive
