-- ===== src/HealthHistory.antt =====
-- aurora_core/health_history: the pure evaluators behind the persisted health history.
pub mod Models
pub mod Evaluation
pub mod SamplingGap
pub mod Lifecycle
pub mod Scheduler
