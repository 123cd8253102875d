-- ===== src/Tests/Hardware.antt =====
-- Runs of aurora_core/hardware/ddp_output.py.
mod DdpProbe
use project_aurora.Base.{◌≡◌, refl, true, false, none, some, [], ◌∷◌}
use project_aurora.Config.{EndpointSettings, AuroraSettings, LightingZoneSettings}
use project_aurora.Runtime.Models.{healthy}
use project_aurora.Hardware.DdpOutput.{
  DdpOutputProbeResult, DdpOutputProbe, returned, counts_fit, flags_fit, reason_fits,
  healthy_result, complete_result, unsafe_activity, consistent_result, report, judge_result, judge,
  validate_zone, validate_zones, validate_ddp_output,
}
use project_aurora.Hardware.DdpOutput.Reports.{
  IsBacked, is_working, state_of, validate_ddp_output-IsBacked, validate_ddp_output-state_of,
}

abbrev off : EndpointSettings
off = record { enabled = false; host = none; port = none }

abbrev strip : LightingZoneSettings
strip = record { name = "desk"; enabled = true; led_count = some 500 }

abbrev settings : AuroraSettings
settings = record {
  capture_device_enabled = false;
  hyperhdr = off;
  wled = off;
  ddp = record { enabled = true; host = some "10.0.0.2"; port = none };
  mqtt = off;
  lighting_zones = strip ∷ [];
  led_layout = record { orientation = none; starting_corner = none };
}

-- An exchange with 500 LEDs, in two packets each way.
abbrev exchange : DdpOutputProbeResult
exchange = record {
  reason_code = "validated";
  socket_was_created = true;
  socket_was_closed = true;
  led_count = some 500;
  frame_payload_bytes = 1500;
  test_packets_planned = 2;
  test_packets_sent = 2;
  blackout_packets_planned = 2;
  blackout_packets_sent = 2;
  test_frame_completed = true;
  blackout_attempted = true;
  blackout_completed = true;
  cleanup_completed = true;
  broadcast_was_used = false;
  multicast_was_used = false;
  discovery_was_used = false;
  retry_was_used = false;
}

abbrev probe : DdpOutputProbe
probe host port led_count = returned exchange

exchange-consistent_result : consistent_result exchange 500 ≡ true
unfolding consistent_result counts_fit flags_fit reason_fits healthy_result complete_result
    unsafe_activity
exchange-consistent_result = refl

exchange_reported : validate_ddp_output settings probe ≡ report exchange healthy "validated"
unfolding validate_ddp_output validate_zones validate_zone judge judge_result consistent_result
    counts_fit flags_fit reason_fits healthy_result complete_result unsafe_activity
exchange_reported = refl

exchange_works : is_working (validate_ddp_output settings probe).state ≡ true
unfolding report
exchange_works = rw exchange_reported refl

validate_ddp_output-IsBacked_example : IsBacked (validate_ddp_output settings probe)
validate_ddp_output-IsBacked_example = validate_ddp_output-IsBacked settings probe exchange_works

validate_ddp_output-state_of_example :
    validate_ddp_output settings probe ≡ report exchange (state_of "validated") "validated"
validate_ddp_output-state_of_example =
    validate_ddp_output-state_of settings probe strip 500 exchange refl refl refl refl
      exchange-consistent_result
