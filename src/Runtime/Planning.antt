-- ===== src/Runtime/Planning.antt =====
-- aurora_core/runtime/planning.py: from settings to a runtime plan.
use project_aurora.Base.{ℕ, ◌+◌, Bool, ◌||◌, List, [], ◌∷◌, map, if◌then◌else◌, is_some}
use project_aurora.Config.{AuroraSettings, LightingZoneSettings}
use project_aurora.Runtime.Models.{
  ComponentId, capture_device, hyperhdr, wled, ddp, mqtt, component_order, created,
  ComponentHealthState, ComponentPlan, RuntimePlan,
}

-- `enabled_by_id[component_id]`
abbrev pub enabled_by_id : AuroraSettings → ComponentId → Bool
enabled_by_id s capture_device = s.capture_device_enabled
enabled_by_id s hyperhdr = s.hyperhdr.enabled
enabled_by_id s wled = s.wled.enabled
enabled_by_id s ddp = s.ddp.enabled
enabled_by_id s mqtt = s.mqtt.enabled

abbrev pub component_plan : AuroraSettings → ComponentId → ComponentPlan
component_plan s i = record {
  component_id = i;
  enabled = enabled_by_id s i;
  configured = enabled_by_id s i;
  initial_lifecycle = created;
  initial_health =
      if enabled_by_id s i then ComponentHealthState.unknown else ComponentHealthState.disabled;
}

-- `sum(zone.enabled for zone in zones)`
abbrev pub count_enabled : List LightingZoneSettings → ℕ
count_enabled [] = 0
count_enabled (z ∷ zs) = (if z.enabled then 1 else 0) + count_enabled zs

unfoldable pub build_runtime_plan : AuroraSettings → RuntimePlan
build_runtime_plan s = record {
  components = map (component_plan s) component_order;
  lighting_zone_count = count_enabled s.lighting_zones;
  led_layout_configured = is_some s.led_layout.orientation || is_some s.led_layout.starting_corner;
}
