-- ===== src/Runtime/Models.antt =====
-- aurora_core/runtime/models.py, errors.py: the runtime's domain types.
use project_aurora.Base.{ℕ, String, Bool, Option, List, [], ◌∷◌}

pub data ComponentId : Type 0 where
  capture_device hyperhdr wled ddp mqtt : ComponentId

unfoldable pub ComponentId-discrete : Discrete ComponentId
ComponentId-discrete = hlevel

-- `COMPONENT_ORDER`
abbrev pub component_order : List ComponentId
component_order = capture_device ∷ hyperhdr ∷ wled ∷ ddp ∷ mqtt ∷ []

pub data ComponentLifecycleState : Type 0 where
  created starting running stopping stopped failed : ComponentLifecycleState

pub data ComponentHealthState : Type 0 where
  disabled unknown healthy degraded unhealthy : ComponentHealthState

pub data OverallHealthState : Type 0 where
  disabled unknown healthy degraded unhealthy : OverallHealthState

pub record ComponentPlan : Type 0 where
  pub component_id : ComponentId
  pub enabled : Bool
  pub configured : Bool
  pub initial_lifecycle : ComponentLifecycleState
  pub initial_health : ComponentHealthState

pub record RuntimePlan : Type 0 where
  pub components : List ComponentPlan
  pub lighting_zone_count : ℕ
  pub led_layout_configured : Bool

pub record ComponentHealthReport : Type 0 where
  pub component_id : ComponentId
  pub state : ComponentHealthState
  pub reason_code : Option String
  pub message : Option String

pub record RuntimeSnapshot : Type 0 where
  pub lifecycle : List (ComponentId × ComponentLifecycleState)
  pub health_reports : List ComponentHealthReport
  pub overall_health : OverallHealthState

-- The exceptions of errors.py; `key_error` is Python's own, from a dict index.
pub data RuntimeError : Type 0 where
  duplicate_component missing_component startup_failed shutdown_failed key_error :
      ComponentId → RuntimeError
