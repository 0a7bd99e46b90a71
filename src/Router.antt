-- ===== src/Router.antt =====
-- crates/router/src/router.rs: the one component of one business process.
pub mod Handlers
pub mod Hosting
pub mod Building
