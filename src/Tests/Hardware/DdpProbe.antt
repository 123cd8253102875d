-- ===== src/Tests/Hardware/DdpProbe.antt =====
-- Runs of aurora_core/hardware/ddp_output_probe.py.
use project_aurora.Base.{
  ◌≡◌, refl, ap, arith, none, some, true, false, [], ◌∷◌, length, inl, take, drop,
}
use project_aurora.Base.Checked.{ok}
use project_aurora.Hardware.DdpOutput.Reports.{is_working}
use project_aurora.Hardware.DdpPackets.{
  Bytes, build_ddp_packets, chunks_from, packets_from, pack_header, packet_plan_is_valid, rebuild,
  split_packet, packet_fits, header_fits, is_last, same_bytes,
}
use project_aurora.Hardware.DdpPackets.RoundTrip.{IsFrame, build_ddp_packets-IsFrame}
use project_aurora.Hardware.DdpDestination.{
  AddressInfo, IpFacts, AddressParser, ResolvedDestination, inet_address, pair,
  normalize_destination, add_unique, collect_destinations, choose_destination,
}
use project_aurora.Hardware.DdpOutput.{DdpOutputProbeResult, empty_result, consistent_result}
use project_aurora.Hardware.DdpProbe.{
  Network, returned, os_error, other_error, phase_reason, sent_status, control_point, transmit,
  armed, timed, send_once,
}
use project_aurora.Hardware.DdpProbe.Session.{
  finished, socket_result, reason_of, use_and_blackout, entered, use_socket, acquired, test_phase,
  blackout_phase, blackout_loop, between_blackout, prepare_close, pre_socket_result,
}
use project_aurora.Hardware.DdpProbe.Probe.{
  probe, planned, clocked, resolved, chosen, opened, close, closed, conclude, repeat_rgb,
}
use project_aurora.Hardware.DdpProbe.Accepted.{consistent_result-probe}
use project_aurora.Hardware.DdpProbe.Prompt.{IsPrompt}
use project_aurora.Hardware.DdpProbe.Runs.{IsBounded, probe-IsBounded}
use project_aurora.Hardware.DdpProbe.Exact.{IsExact, probe-IsExact}
use project_aurora.Hardware.DdpProbe.Success.{IsValidated, probe-IsValidated}

abbrev pixels : Bytes
pixels = 0 ∷ 0 ∷ 16 ∷ []

-- One LED, in one packet that is pushed.
pixels_packets :
    build_ddp_packets pixels 1
    ≡ ok ((0x41 ∷ 1 ∷ 11 ∷ 1 ∷ 0 ∷ 0 ∷ 0 ∷ 0 ∷ 0 ∷ 3 ∷ 0 ∷ 0 ∷ 16 ∷ []) ∷ [])
unfolding build_ddp_packets chunks_from packets_from pack_header packet_plan_is_valid rebuild
    split_packet packet_fits header_fits is_last same_bytes take drop
pixels_packets = refl

build_ddp_packets-IsFrame_example : IsFrame pixels (build_ddp_packets pixels 1)
build_ddp_packets-IsFrame_example =
    build_ddp_packets-IsFrame pixels 1 refl (omega arith) (omega arith)

abbrev no_trait : IpFacts
no_trait = record { is_multicast = false; is_unspecified = false; is_limited_broadcast = false }

abbrev parser : AddressParser
parser = record {
  ipv4 = λ host. some (record { text = host; facts = no_trait; ipv4_mapped = none });
  ipv6 = λ host. none;
}

abbrev info : AddressInfo
info = record { family = 2; socket_type = 2; protocol = 17; raw_address = pair "10.0.0.2" 4048 }

abbrev lan : Network
lan = record {
  ticks_per_second = 1000;
  parser = parser;
  monotonic = λ c. returned 7;
  resolve = λ c host port. returned (info ∷ info ∷ []);
  open_socket = λ c family. returned tt;
  set_timeout = λ c remaining. returned tt;
  send_to = λ c packet address. returned (some (length packet));
  close_socket = λ c. returned tt;
  control_hook = none;
}

abbrev strip_address : ResolvedDestination
strip_address = record { family = 2; address = inet_address "10.0.0.2" 4048 }

lan-one_destination :
    choose_destination (collect_destinations parser 4048 (info ∷ info ∷ []) ([], false))
    ≡ inl strip_address
unfolding choose_destination collect_destinations normalize_destination add_unique
lan-one_destination = refl

lan-IsPrompt : IsPrompt lan 2007
lan-IsPrompt = record {
  unhooked = refl;
  clock = λ c. (7, omega arith, refl);
  times_out = λ c remaining. refl;
  sends_all = λ c packet address. refl;
  closes = λ c. refl;
}

probe-IsValidated_example : IsValidated 500 (probe lan "wled.local" 4048 500)
probe-IsValidated_example =
    probe-IsValidated lan "wled.local" 4048 500 7 (info ∷ info ∷ []) strip_address (omega arith)
      (omega arith) refl lan-IsPrompt refl lan-one_destination refl

-- A control hook that raises, and a send that is short.
abbrev broken_lan : Network
broken_lan = record lan {
  control_hook = some λ c name. other_error;
  send_to = λ c packet address. returned (some 3);
}

probe-IsBounded_example : IsBounded 500 (probe broken_lan "wled.local" 4048 500).0
probe-IsBounded_example = probe-IsBounded broken_lan "wled.local" 4048 500

lan_run : IsValidated 500 (probe lan "wled.local" 4048 500)
lan_run =
    probe-IsValidated lan "wled.local" 4048 500 7 (info ∷ info ∷ []) strip_address (omega arith)
      (omega arith) refl lan-IsPrompt refl lan-one_destination refl

probe-IsExact_example : IsExact 500 (probe lan "wled.local" 4048 500).0
probe-IsExact_example =
    probe-IsExact lan "wled.local" 4048 500 lan_run.0 lan_run.1 (ap is_working lan_run.2)

-- Every datagram is cut short, and the socket does not close.
abbrev short_lan : Network
short_lan = record lan {
  send_to = λ c packet address. returned (some 3);
  close_socket = λ c. os_error;
}

abbrev short_result : DdpOutputProbeResult
short_result = record (pre_socket_result "blackout_partial_send" 2 6 1) {
  socket_was_created = true;
  blackout_attempted = true;
}

short_run : (probe short_lan "wled.local" 4048 2).1 ≡ finished short_result
unfolding probe planned clocked resolved chosen opened close closed conclude socket_result reason_of
    use_and_blackout entered use_socket acquired test_phase blackout_phase blackout_loop
    between_blackout prepare_close control_point send_once timed armed transmit sent_status
    phase_reason choose_destination collect_destinations normalize_destination add_unique
    pre_socket_result empty_result repeat_rgb build_ddp_packets packets_from chunks_from pack_header
    packet_plan_is_valid rebuild split_packet packet_fits header_fits is_last same_bytes take drop
short_run = refl

consistent_result-probe_example : consistent_result short_result 2 ≡ true
consistent_result-probe_example =
    consistent_result-probe short_lan "wled.local" 4048 2 7 short_result (omega arith) (omega arith)
      refl refl short_run
