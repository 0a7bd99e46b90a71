-- ===== src/Rebuild.antt =====
-- crates/router/src/rebuild.rs: state from an EventBook, and the folds of pages into state.
pub mod Types
pub mod Failures
pub mod Building
pub mod Folding
pub mod Rebuilding
pub mod Replay
pub mod Numbering
pub mod Extending
pub mod Panics
pub mod Naming
pub mod Bugs
