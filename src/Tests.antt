-- ===== src/Tests.antt =====
-- Runs at concrete inputs: each states a theorem of the library where its hypotheses hold.
pub mod Fixtures
pub mod EncodingRuns
pub mod PipelineRuns
pub mod WatcherRuns
pub mod LatchRuns
pub mod ServerRuns
pub mod ExecutorRuns
mod PrepareRuns
mod StoreRuns
mod LedgerRuns
mod LivenessRuns
mod FdcRuns
mod ClientRuns
mod DeliveryRuns
