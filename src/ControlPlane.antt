-- ===== src/ControlPlane.antt =====
-- aurora_core/control_plane: the authenticated control plane.
pub mod Limiter
pub mod Login
pub mod Sessions
pub mod Ambient
pub mod Audit
pub mod HyperhdrService
pub mod WledService
