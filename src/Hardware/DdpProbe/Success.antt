-- ===== src/Hardware/DdpProbe/Success.antt =====
-- aurora_core/hardware/ddp_output_probe.py and ddp_output.py: the report of a run in which every
-- call succeeds in time.
use project_aurora.Base.{
  ℕ, ◌+◌, ◌*◌, ◌≤◌, ◌≡◌, refl, ap, ◌∙◌, Bool, true, false, ◌==◌, ◌/◌, none, some, List, [], length,
  arith, String, if◌then◌else◌, inl,
}
use project_aurora.Runtime.Models.{healthy}
use project_aurora.Hardware.DdpOutput.{
  DdpOutputProbeResult, ddp_max_leds, expected_packet_count, judge_result, report,
  consistent_result, healthy_result, counts_fit, flags_fit, reason_fits, complete_result,
  unsafe_activity,
}
use project_aurora.Hardware.DdpOutput.Reports.{is_working}
use project_aurora.Hardware.DdpPackets.{Bytes}
use project_aurora.Hardware.DdpDestination.{
  AddressInfo, ResolvedDestination, SocketAddress, collect_destinations, choose_destination,
}
use project_aurora.Hardware.DdpProbe.{
  returned, Network, SocketUseState, fresh_state, called, ddp_deadline_seconds,
}
use project_aurora.Hardware.DdpProbe.Session.{
  finished, keyboard_interrupt, socket_result, reason_of, use_and_blackout,
}
use project_aurora.Hardware.DdpProbe.Exact.{IsExact, probe-IsExact}
use project_aurora.Hardware.DdpProbe.Frames.{probe-IsStarted}
use project_aurora.Hardware.DdpProbe.Prompt.{IsPrompt, use_and_blackout-Progress}
use project_aurora.Hardware.DdpProbe.Probe.{
  Run, probe, clocked, resolved, chosen, opened, close, closed, conclude,
}

-- The result of a whole exchange.
abbrev exchanged : ℕ → ℕ → DdpOutputProbeResult
exchanged n packets = record {
  reason_code = "validated";
  socket_was_created = true;
  socket_was_closed = true;
  led_count = some n;
  frame_payload_bytes = n * 3;
  test_packets_planned = packets;
  test_packets_sent = packets;
  blackout_packets_planned = packets;
  blackout_packets_sent = packets;
  test_frame_completed = true;
  blackout_attempted = true;
  blackout_completed = true;
  cleanup_completed = true;
  broadcast_was_used = false;
  multicast_was_used = false;
  discovery_was_used = false;
  retry_was_used = false;
}

exchanged-healthy :
    (n packets : ℕ)
    → 1 ≤ n
    → n ≤ 512
    → packets ≡ expected_packet_count (n * 3)
    → (judge_result n (exchanged n packets)).state ≡ healthy
unfolding judge_result report
exchanged-healthy n packets low high e =
    let some_packets : 1 ≤ (n * 3 + 1399) / 1400 = omega arith in
    let few_packets : (n * 3 + 1399) / 1400 ≤ 2 = omega arith in
    let all : (packets == packets) ≡ true = ground arith in
    let fits : counts_fit (exchanged n packets) n ≡ true = unfold counts_fit in ground arith in
    let well : healthy_result (exchanged n packets) ≡ true =
      unfold healthy_result complete_result unsafe_activity in rw all refl in
    let flags : flags_fit (exchanged n packets) ≡ true =
      unfold flags_fit unsafe_activity in (rw all refl) in
    let consistent : consistent_result (exchanged n packets) n ≡ true =
      unfold consistent_result reason_fits in ground arith in
    rw (consistent, well) refl

socket_result-exchanged :
    (s : SocketUseState) (n packets : ℕ)
    → s.test_sent ≡ packets
    → s.blackout_sent ≡ packets
    → s.test_reason ≡ none
    → s.blackout_reason ≡ none
    → s.blackout_attempted ≡ true
    → s.socket_closed ≡ true
    → socket_result s n packets ≡ exchanged n packets
unfolding socket_result reason_of
socket_result-exchanged s n packets e f g h i j =
    let all : (packets == packets) ≡ true = ground arith in simp (e, f, g, h, i, j, all) refl

not_deferred :
    (deferred : Bool) (r : DdpOutputProbeResult)
    → deferred ≡ false
    → (if deferred then keyboard_interrupt else finished r) ≡ finished r
not_deferred deferred r e = rw e refl

conclude-exchanged :
    (s : SocketUseState) (n packets : ℕ)
    → s.test_sent ≡ packets
    → s.blackout_sent ≡ packets
    → s.test_reason ≡ none
    → s.blackout_reason ≡ none
    → s.blackout_attempted ≡ true
    → s.socket_closed ≡ true
    → s.deferred_interrupt ≡ false
    → (conclude n packets s).1 ≡ finished (exchanged n packets)
unfolding conclude
conclude-exchanged s n packets e f g h i j k =
    not_deferred s.deferred_interrupt (socket_result s n packets) k
    ∙ ap finished (socket_result-exchanged s n packets e f g h i j)

close-exchanged :
    (net : Network) (address : SocketAddress) (limit n : ℕ) (t b : List Bytes)
    → IsPrompt net limit
    → length t ≤ 2
    → length b ≡ length t
    → (close net n (length t) (use_and_blackout net address limit t b (fresh_state 3))).1
      ≡ finished (exchanged n (length t))
unfolding close closed
close-exchanged net address limit n t b prompt few same_length =
    let s = use_and_blackout net address limit t b (fresh_state 3) in
    let (p, q, m, f, g, h, i) =
      use_and_blackout-Progress net address limit prompt t b (fresh_state 3)
        (omega (arith, few, same_length)) in
    rw (prompt.closes s.calls) (
      conclude-exchanged (record (called s) { socket_closed = true }) n (length t)
        (omega (arith, p)) (omega (arith, q, same_length)) f g i refl h)

-- A run ends with a result that is reported HEALTHY, and has sent exactly the two frames.
abbrev pub IsValidated : ℕ → Run → Type 0
IsValidated n run =
    (r : DdpOutputProbeResult) × (run.1 ≡ finished r)
    × ((judge_result n r).state ≡ healthy)
    × IsExact n run.0

-- For 1 to 512 LEDs, with no control hook, when the resolver's answer has one safe destination,
-- the socket opens and closes, every datagram is sent whole and the clock stays before the
-- deadline: the run ends with a result, which the service reports as HEALTHY, and its datagrams
-- are all packets of the test frame and then all packets of the blackout frame.
pub probe-IsValidated :
    (net : Network) (host : String) (port n now : ℕ) (infos : List AddressInfo)
    (d : ResolvedDestination)
    → 1 ≤ n
    → n ≤ ddp_max_leds
    → net.monotonic 0 ≡ returned now
    → IsPrompt net (now + ddp_deadline_seconds * net.ticks_per_second)
    → net.resolve 1 host port ≡ returned infos
    → choose_destination (collect_destinations net.parser port infos ([], false)) ≡ inl d
    → net.open_socket 2 d.family ≡ returned tt
    → IsValidated n (probe net host port n)
probe-IsValidated net host port n now infos d low high start prompt answer one made =
    let (t, b, as_many, same_length, e) = probe-IsStarted net host port n low high in
    let few : length t ≤ 2 = omega (arith, as_many, high) in
    let limit = now + ddp_deadline_seconds * net.ticks_per_second in
    let end = close-exchanged net d.address limit n t b prompt few same_length in
    let well = exchanged-healthy n (length t) low high as_many in
    let ended : (probe net host port n).1 ≡ finished (exchanged n (length t)) =
      unfold clocked resolved chosen opened in rw (e, start, answer, one, made) end in
    (
      exchanged n (length t),
      ended,
      well,
      probe-IsExact net host port n _ ended (ap is_working well),
    )
