-- ===== src/Observability.antt =====
-- src/observability: the labels and metrics, the snapshots of the runtime, and the trace contexts.
pub mod Labels
pub mod Metrics
pub mod Recorders
pub mod Snapshots
pub mod Traces
