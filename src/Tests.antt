-- ===== src/Tests.antt =====
-- Runs of the model on small inputs, and the theorems at them.
pub mod Samples
pub mod GateRuns
pub mod IdentityRuns
pub mod StoreRuns
pub mod RenderingRuns
pub mod BillSamples
pub mod ConnectorRuns
pub mod EnumerationRuns
pub mod StagingRuns
pub mod ParticipationRuns
pub mod MaterializeRuns
