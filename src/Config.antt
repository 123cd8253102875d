-- ===== src/Config.antt =====
-- aurora_core/config/models.py: the validated settings, with the fields that the modelled parts
-- read. The loader, the environment overlay and pydantic's validation are not modelled.
use project_aurora.Base.{ℕ, String, Bool, Option, List}

pub record EndpointSettings : Type 0 where
  pub enabled : Bool
  pub host : Option String
  pub port : Option ℕ

pub record LightingZoneSettings : Type 0 where
  pub name : String
  pub enabled : Bool
  pub led_count : Option ℕ

pub record LedLayoutSettings : Type 0 where
  pub orientation : Option String
  pub starting_corner : Option String

pub record AuroraSettings : Type 0 where
  pub capture_device_enabled : Bool
  pub hyperhdr : EndpointSettings
  pub wled : EndpointSettings
  pub ddp : EndpointSettings
  pub mqtt : EndpointSettings
  pub lighting_zones : List LightingZoneSettings
  pub led_layout : LedLayoutSettings
