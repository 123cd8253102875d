-- ===== src/Hardware/DdpOutput.antt =====
-- aurora_core/hardware/ddp_output.py: the service around one bounded DDP probe, with the records of
-- hardware/models.py and the bounds of ddp_output_probe.py. The probe is an argument. Integers are
-- natural numbers, and the tests of a field's type hold by typing.
pub mod Reports
use text.Mathlib.Text.{◌==◌ as str_eq}
use project_aurora.Base.{
  ℕ, zero, suc, ◌+◌, ◌-◌, ◌*◌, ◌/◌, Bool, true, false, not, ◌&&◌, ◌||◌, Option, none, some, String,
  List, [], ◌∷◌, if◌then◌else◌, ltb, leb, ◌==◌, keep_if, any,
}
use project_aurora.Config.{AuroraSettings, LightingZoneSettings}
use project_aurora.Runtime.Models.{
  ComponentId, ComponentHealthState, disabled, healthy, degraded, unhealthy,
}

abbrev pub ddp_max_data_payload : ℕ
ddp_max_data_payload = 1400

abbrev pub ddp_max_leds : ℕ
ddp_max_leds = 512

pub record DdpOutputProbeResult : Type 0 where
  pub reason_code : String
  pub socket_was_created : Bool
  pub socket_was_closed : Bool
  pub led_count : Option ℕ
  pub frame_payload_bytes : ℕ
  pub test_packets_planned : ℕ
  pub test_packets_sent : ℕ
  pub blackout_packets_planned : ℕ
  pub blackout_packets_sent : ℕ
  pub test_frame_completed : Bool
  pub blackout_attempted : Bool
  pub blackout_completed : Bool
  pub cleanup_completed : Bool
  pub broadcast_was_used : Bool
  pub multicast_was_used : Bool
  pub discovery_was_used : Bool
  pub retry_was_used : Bool

-- The fields of the result are reported as they are, beside what the service adds.
pub record DdpOutputValidationReport : Type 0 where
  pub component_id : ComponentId
  pub state : ComponentHealthState
  pub reason_code : String
  pub message : String
  pub result : DdpOutputProbeResult

-- What the probe does: it raises, returns another object, or returns a result.
pub data Probed : Type 0 where
  raised other_object : Probed
  returned : DdpOutputProbeResult → Probed

abbrev pub DdpOutputProbe : Type 0
DdpOutputProbe = String → ℕ → ℕ → Probed

-- `_expected_packet_count`
abbrev pub expected_packet_count : ℕ → ℕ
expected_packet_count frame_payload_bytes =
    (frame_payload_bytes + ddp_max_data_payload - 1) / ddp_max_data_payload

-- `==` on Booleans, as `!=` uses it.
abbrev pub same : Bool → Bool → Bool
same true b = b
same false b = not b

-- `_complete_result`
unfoldable pub complete_result : DdpOutputProbeResult → Bool
complete_result r =
    r.test_packets_sent == r.test_packets_planned
    && r.blackout_packets_sent == r.blackout_packets_planned
    && r.test_frame_completed
    && r.blackout_attempted
    && r.blackout_completed
    && r.socket_was_created

-- `_unsafe_activity`
unfoldable pub unsafe_activity : DdpOutputProbeResult → Bool
unsafe_activity r =
    r.broadcast_was_used || r.multicast_was_used || r.discovery_was_used || r.retry_was_used

-- `_healthy_result`
unfoldable pub healthy_result : DdpOutputProbeResult → Bool
healthy_result r =
    str_eq r.reason_code "validated"
    && complete_result r
    && r.socket_was_closed
    && r.cleanup_completed
    && not (unsafe_activity r)

-- `_degraded_result`
unfoldable pub degraded_result : DdpOutputProbeResult → Bool
degraded_result r =
    str_eq r.reason_code "ddp_output_cleanup_unconfirmed"
    && complete_result r
    && not r.socket_was_closed
    && not r.cleanup_completed
    && not (unsafe_activity r)

abbrev pub led_count_is : Option ℕ → ℕ → Bool
led_count_is none n = false
led_count_is (some m) n = m == n

-- The counts of `_consistent_result`.
unfoldable pub counts_fit : DdpOutputProbeResult → ℕ → Bool
counts_fit r n =
    led_count_is r.led_count n
    && leb 1 n
    && leb n ddp_max_leds
    && r.frame_payload_bytes == n * 3
    && r.test_packets_planned == expected_packet_count (n * 3)
    && r.blackout_packets_planned == expected_packet_count (n * 3)
    && leb 1 (expected_packet_count (n * 3))
    && leb (expected_packet_count (n * 3)) 2
    && leb r.test_packets_sent (expected_packet_count (n * 3))
    && leb r.blackout_packets_sent (expected_packet_count (n * 3))

-- What `_consistent_result` asks of a result without a socket.
unfoldable pub did_something : DdpOutputProbeResult → Bool
did_something r =
    ltb 0 r.test_packets_sent
    || ltb 0 r.blackout_packets_sent
    || r.test_frame_completed
    || r.blackout_completed
    || r.cleanup_completed

-- The flags of `_consistent_result`.
unfoldable pub flags_fit : DdpOutputProbeResult → Bool
flags_fit r =
    same r.test_frame_completed (r.test_packets_sent == r.test_packets_planned)
    && same r.blackout_completed
        (r.blackout_attempted && r.blackout_packets_sent == r.blackout_packets_planned)
    && not (r.socket_was_closed && not r.socket_was_created)
    && same r.cleanup_completed r.socket_was_closed
    && same r.blackout_attempted r.socket_was_created
    && not (not r.socket_was_created && did_something r)
    && not (unsafe_activity r)

abbrev pub is_one_of : List String → String → Bool
is_one_of texts s = any (str_eq s) texts

abbrev pub pre_socket_reasons : List String
pre_socket_reasons =
    "destination_resolution_failed" ∷ "destination_resolution_ambiguous" ∷ "destination_not_unicast"
    ∷ "socket_creation_failed" ∷ []

abbrev pub test_frame_reasons : List String
test_frame_reasons =
    "test_frame_deadline_exceeded" ∷ "test_frame_send_failed" ∷ "test_frame_partial_send" ∷ []

abbrev pub blackout_reasons : List String
blackout_reasons =
    "blackout_deadline_exceeded" ∷ "blackout_send_failed" ∷ "blackout_partial_send" ∷ []

-- The reasons of `_consistent_result`.
unfoldable pub reason_fits : DdpOutputProbeResult → Bool
reason_fits r =
    if str_eq r.reason_code "validated"
    then healthy_result r
    else if str_eq r.reason_code "ddp_output_cleanup_unconfirmed"
    then degraded_result r
    else if is_one_of pre_socket_reasons r.reason_code
    then not r.socket_was_created
    else if is_one_of test_frame_reasons r.reason_code
    then r.socket_was_created && not r.test_frame_completed && r.blackout_completed
    else if is_one_of blackout_reasons r.reason_code
    then r.socket_was_created && not r.blackout_completed
    else if str_eq r.reason_code "unexpected_ddp_output_failure"
    then not r.socket_was_created || not r.test_frame_completed || not r.blackout_completed
    else false

-- `_consistent_result`
unfoldable pub consistent_result : DdpOutputProbeResult → ℕ → Bool
consistent_result r led_count = counts_fit r led_count && flags_fit r && reason_fits r

-- `_empty_result`
unfoldable pub empty_result : String → Option ℕ → DdpOutputProbeResult
empty_result reason_code led_count = record {
  reason_code = reason_code;
  socket_was_created = false;
  socket_was_closed = false;
  led_count = led_count;
  frame_payload_bytes = 0;
  test_packets_planned = 0;
  test_packets_sent = 0;
  blackout_packets_planned = 0;
  blackout_packets_sent = 0;
  test_frame_completed = false;
  blackout_attempted = false;
  blackout_completed = false;
  cleanup_completed = false;
  broadcast_was_used = false;
  multicast_was_used = false;
  discovery_was_used = false;
  retry_was_used = false;
}

abbrev pub message_of : ComponentHealthState → String
message_of healthy = "Bounded DDP output validation completed."
message_of _ = "Bounded DDP output validation was unsuccessful."

-- `_report`
unfoldable pub report :
    DdpOutputProbeResult → ComponentHealthState → String → DdpOutputValidationReport
report result state reason_code = record {
  component_id = ComponentId.ddp;
  state = state;
  reason_code = reason_code;
  message = message_of state;
  result = result;
}

-- A refusal before any probe.
abbrev pub refuse : String → Option ℕ → DdpOutputValidationReport
refuse reason_code led_count = report (empty_result reason_code led_count) unhealthy reason_code

abbrev pub unexpected : String
unexpected = "unexpected_ddp_output_failure"

-- The judgement of a result.
unfoldable pub judge_result : ℕ → DdpOutputProbeResult → DdpOutputValidationReport
judge_result n r =
    if not (consistent_result r n)
    then report r unhealthy unexpected
    else if healthy_result r
    then report r healthy r.reason_code
    else if degraded_result r
    then report r degraded r.reason_code
    else report r unhealthy r.reason_code

-- The judgement of a call of the probe.
unfoldable pub judge : ℕ → Probed → DdpOutputValidationReport
judge n raised = judge_result n (empty_result unexpected (some n))
judge n other_object = report (empty_result unexpected (some n)) unhealthy unexpected
judge n (returned r) = judge_result n r

abbrev pub host_of : Option String → String
host_of none = ""
host_of (some host) = host

-- `settings.ddp.port or 4048`
abbrev pub port_of : Option ℕ → ℕ
port_of (some (suc n)) = suc n
port_of _ = 4048

-- The one enabled zone.
unfoldable pub validate_zone :
    AuroraSettings → DdpOutputProbe → Option ℕ → DdpOutputValidationReport
validate_zone settings probe none = refuse "led_count_required" none
validate_zone settings probe (some n) =
    if leb n 0
    then refuse "led_count_required" (some n)
    else if ltb ddp_max_leds n
    then refuse "led_count_exceeds_limit" (some n)
    else judge n (probe (host_of settings.ddp.host) (port_of settings.ddp.port) n)

-- The enabled zones.
unfoldable pub validate_zones :
    AuroraSettings → DdpOutputProbe → List LightingZoneSettings → DdpOutputValidationReport
validate_zones settings probe [] = refuse "enabled_zone_required" none
validate_zones settings probe (z ∷ []) = validate_zone settings probe z.led_count
validate_zones settings probe (z ∷ y ∷ zones) = refuse "multiple_enabled_zones_not_supported" none

unfoldable pub validate_ddp_output : AuroraSettings → DdpOutputProbe → DdpOutputValidationReport
validate_ddp_output settings probe =
    if not settings.ddp.enabled
    then report (empty_result "ddp_disabled" none) disabled "ddp_disabled"
    else validate_zones settings probe (keep_if (λ z. z.enabled) settings.lighting_zones)
