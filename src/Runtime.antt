-- ===== src/Runtime.antt =====
-- aurora_core/runtime: plans, health aggregation and the lifecycle controller.
pub mod Models
pub mod Planning
pub mod Health
pub mod Controller
pub mod Snapshot
