-- ===== src/Domain.antt =====
-- crates/router/src/domain.rs: a domain's dispatch table, an aggregate's or a process manager's.
pub mod Emits
pub mod Table
pub mod Deciding
pub mod Replay
pub mod Answering
pub mod Persisting
pub mod Routing
pub mod FactFailures
pub mod Fuel
pub mod Stepping
pub mod Idempotence
pub mod Registration
pub mod Panics
