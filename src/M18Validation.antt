-- ===== src/M18Validation.antt =====
-- aurora_core/m18_validation: the reference models that the production evaluators follow.
pub mod SamplingGap
pub mod AlertLifecycle
