-- ===== src/Errors.antt =====
-- crates/router/src/error.rs: the coded error model.
pub mod Codes
pub mod Reasons
pub mod Types
pub mod Coded
pub mod Statuses
pub mod Facts
pub mod Calls
pub mod Display
pub mod Reading
