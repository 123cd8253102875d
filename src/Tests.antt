-- ===== src/Tests.antt =====
-- Runs on concrete inputs, and each theorem of the results at one of them.
mod Runtime
mod HealthHistory
mod M18Validation
mod ControlPlane
mod Hardware
