-- ===== src/Examples.antt =====
-- Runs of the router's parts on a small account: deposits add to a balance.
mod World
mod Engine
mod DomainRuns
mod DecisionRuns
mod RebuildRuns
mod ErrorRuns
mod DisplayRuns
mod UpcasterRuns
mod PolicyRuns
mod ProjectorRuns
mod RouterRuns
mod Linter
mod ArchlintWorld
mod ArchlintRuns
