-- ===== src/Archlint.antt =====
-- tools/archlint: the linter of the workspace's module dependencies.
pub mod Texts
pub mod Globs
pub mod Model
pub mod Rules
pub mod FilePaths
pub mod Uses
pub mod Syntax
pub mod Scanner
pub mod Collecting
pub mod Walking
pub mod Resolving
pub mod Finishing
pub mod Workspace
pub mod Running
