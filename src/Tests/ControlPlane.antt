-- ===== src/Tests/ControlPlane.antt =====
-- Runs of aurora_core/control_plane.
mod Ambient
mod Limiter
mod Login
mod Sessions
mod WledService
