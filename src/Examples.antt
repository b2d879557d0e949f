-- ===== src/Examples.antt =====
-- Small concrete states and runs, at which the theorems are applied.
pub mod Data
mod HubRuns
mod DbRuns
mod IceRuns
mod PartRuns
mod SignInRuns
