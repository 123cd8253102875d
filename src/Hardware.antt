-- ===== src/Hardware.antt =====
-- aurora_core/hardware: validation of the physical outputs.
pub mod DdpOutput
pub mod DdpPackets
pub mod DdpDestination
pub mod DdpProbe
