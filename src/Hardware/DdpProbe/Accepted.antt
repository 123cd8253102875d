-- ===== src/Hardware/DdpProbe/Accepted.antt =====
-- aurora_core/hardware/ddp_output_probe.py and ddp_output.py: every result of a run without a
-- control hook is one that the service takes.
use project_aurora.Base.{
  ℕ, ◌*◌, ◌≤◌, ◌≡◌, refl, ap, subst, ◌∙◌, Bool, true, false, ◌==◌, none, String, List, [], ◌∷◌,
  length, inl, inr, arith, Bool-cases,
}
use project_aurora.Hardware.DdpOutput.{
  DdpOutputProbeResult, expected_packet_count, counts_fit, flags_fit, reason_fits, did_something,
  unsafe_activity, consistent_result, empty_result, ddp_max_leds,
}
use project_aurora.Hardware.DdpPackets.{Bytes}
use project_aurora.Hardware.DdpDestination.{
  AddressInfo, ResolvedDestination, SocketAddress, choose_destination,
}
use project_aurora.Hardware.DdpProbe.{
  Outcome, Done, returned, interrupted, os_error, other_error, Network, SocketUseState, fresh_state,
  called,
}
use project_aurora.Hardware.DdpProbe.Effects.{control_point_quiet}
use project_aurora.Hardware.DdpProbe.Session.{
  finished, keyboard_interrupt, pre_socket_result, use_and_blackout, entered, use_socket, acquired,
  blackout_phase, prepare_close, test_phase, blackout_loop,
}
use project_aurora.Hardware.DdpProbe.Probe.{
  Run, probe, clocked, resolved, chosen, opened, close, closed, conclude,
}
use project_aurora.Hardware.DdpProbe.Exact.{result_or}
use project_aurora.Hardware.DdpProbe.Frames.{probe-IsStarted}
use project_aurora.Hardware.DdpProbe.Reasons.{test_phase-IsTestRun, blackout_loop-IsBlackoutRun}
use project_aurora.Hardware.DdpProbe.Consistent.{IsNoted, socket_result-consistent}

-- A result of the run is one that the service takes.
abbrev pub IsTaken : ℕ → Run → Type 0
IsTaken n run = (r : DdpOutputProbeResult) → run.1 ≡ finished r → consistent_result r n ≡ true

finished-IsTaken :
    (n : ℕ) (s : SocketUseState) (r : DdpOutputProbeResult)
    → consistent_result r n ≡ true
    → IsTaken n (s, finished r)
finished-IsTaken n s r good q e =
    subst (λ x. consistent_result x n ≡ true) (ap (result_or r) e) good

interrupted-IsTaken : (n : ℕ) (s : SocketUseState) → IsTaken n (s, keyboard_interrupt)
interrupted-IsTaken n s r e = absurd (cc)

use_and_blackout-IsNoted :
    (net : Network) (address : SocketAddress) (limit : ℕ) (t b : List Bytes)
    → net.control_hook ≡ none
    → length b ≡ length t
    → IsNoted (length t) (use_and_blackout net address limit t b (fresh_state 3))
unfolding use_and_blackout entered use_socket acquired blackout_phase prepare_close
use_and_blackout-IsNoted net address limit t b unhooked same_length =
    let s = test_phase net address limit t (fresh_state 3) in
    let (tested, q, g) =
      test_phase-IsTestRun net address limit unhooked t (length t) (fresh_state 3) refl
        (omega arith) in
    let s' = record s { blackout_attempted = true } in
    let (blacked, p, f, attempted, kept) =
      blackout_loop-IsBlackoutRun net address limit unhooked b (length t) s'
        (inr (inl (omega (arith, q, same_length), g))) in
    rw
      (
        control_point_quiet net unhooked "after_socket_session_entered" (fresh_state 3),
        control_point_quiet net unhooked "after_socket_acquired" (fresh_state 3),
        control_point_quiet net unhooked "before_blackout" s',
        control_point_quiet net unhooked "before_close" (blackout_loop net address limit b s'),
      )
      (
        elim tested [
          | inl d ↦ inl (kept d)
          | inr (inl (n, e)) ↦ inr (inl (p ∙ n, f ∙ e))
          | inr (inr (n, (status, e))) ↦ inr (inr (omega (arith, n, p), (status, f ∙ e)))
        ],
        blacked,
        attempted,
      )

module _ (n count : ℕ) (low : 1 ≤ n) (high : n ≤ 512)
    (all : count ≡ expected_packet_count (n * 3)) where
  conclude-IsTaken : (s : SocketUseState) → IsNoted count s → IsTaken n (conclude n count s)
  unfolding conclude
  conclude-IsTaken s noted = elim (Bool-cases s.deferred_interrupt) [
    | inl d ↦ simp d (interrupted-IsTaken n s)
    | inr d ↦
        simp d (finished-IsTaken n s _ (socket_result-consistent s n count low high all d noted))
  ]

  closed-IsTaken :
      (s : SocketUseState) (o : Done) → IsNoted count s → IsTaken n (closed n count (s, o))
  unfolding closed
  closed-IsTaken s (returned x) noted = conclude-IsTaken (record s { socket_closed = true }) noted
  closed-IsTaken s interrupted noted = interrupted-IsTaken n s
  closed-IsTaken s os_error noted = conclude-IsTaken s noted
  closed-IsTaken s other_error noted = conclude-IsTaken s noted

  pre_socket-counts :
      (reason : String) → counts_fit (pre_socket_result reason n (n * 3) count) n ≡ true
  unfolding counts_fit pre_socket_result empty_result
  pre_socket-counts reason = ground arith

  pre_socket-flags : (reason : String) → flags_fit (pre_socket_result reason n (n * 3) count) ≡ true
  unfolding flags_fit did_something unsafe_activity pre_socket_result empty_result
  pre_socket-flags reason =
      let some_packets : (0 == count) ≡ false = ground arith in rw some_packets refl

  before_socket-IsTaken :
      (calls : ℕ) (reason : String)
      → reason_fits (pre_socket_result reason n (n * 3) count) ≡ true
      → IsTaken n (fresh_state calls, finished (pre_socket_result reason n (n * 3) count))
  unfolding consistent_result
  before_socket-IsTaken calls reason fits =
      finished-IsTaken n (fresh_state calls) _
        (rw (pre_socket-counts reason, pre_socket-flags reason, fits) refl)

module _ (net : Network) (n : ℕ) (t b : List Bytes) (unhooked : net.control_hook ≡ none)
    (low : 1 ≤ n) (high : n ≤ 512) (all : length t ≡ expected_packet_count (n * 3))
    (same_length : length b ≡ length t) where
  opened-IsTaken :
      (limit : ℕ) (d : ResolvedDestination) (o : Done) → IsTaken n (opened net n t b limit d o)
  unfolding opened close
  opened-IsTaken limit d (returned x) =
      let s = use_and_blackout net d.address limit t b (fresh_state 3) in
      closed-IsTaken n (length t) low high all (called s) (net.close_socket s.calls)
        (use_and_blackout-IsNoted net d.address limit t b unhooked same_length)
  opened-IsTaken limit d interrupted = interrupted-IsTaken n (fresh_state 3)
  opened-IsTaken limit d os_error =
      before_socket-IsTaken n (length t) low high all 3 _
        (unfold reason_fits pre_socket_result empty_result in refl)
  opened-IsTaken limit d other_error =
      before_socket-IsTaken n (length t) low high all 3 _
        (unfold reason_fits pre_socket_result empty_result in refl)

  chosen-IsTaken :
      (limit : ℕ) (found : List ResolvedDestination × Bool)
      → IsTaken n (chosen net n t b limit (choose_destination found))
  unfolding chosen choose_destination
  chosen-IsTaken limit (d ∷ [], false) = opened-IsTaken limit d (net.open_socket 2 d.family)
  chosen-IsTaken limit (unique, true) =
      before_socket-IsTaken n (length t) low high all 2 _
        (unfold reason_fits pre_socket_result empty_result in refl)
  chosen-IsTaken limit ([], false) =
      before_socket-IsTaken n (length t) low high all 2 _
        (unfold reason_fits pre_socket_result empty_result in refl)
  chosen-IsTaken limit (d ∷ e ∷ rest, false) =
      before_socket-IsTaken n (length t) low high all 2 _
        (unfold reason_fits pre_socket_result empty_result in refl)

  resolved-IsTaken :
      (limit port : ℕ) (o : Outcome (List AddressInfo))
      → IsTaken n (resolved net n t b limit port o)
  unfolding resolved
  resolved-IsTaken limit port (returned infos) = chosen-IsTaken limit _
  resolved-IsTaken limit port interrupted = interrupted-IsTaken n (fresh_state 2)
  resolved-IsTaken limit port os_error =
      before_socket-IsTaken n (length t) low high all 2 _
        (unfold reason_fits pre_socket_result empty_result in refl)
  resolved-IsTaken limit port other_error =
      before_socket-IsTaken n (length t) low high all 2 _
        (unfold reason_fits pre_socket_result empty_result in refl)

-- For 1 to 512 LEDs, with no control hook, when the first reading of the clock succeeds: whatever
-- the resolver, the socket and the later readings do, a result that the run ends with passes the
-- service's test `_consistent_result`.
pub consistent_result-probe :
    (net : Network) (host : String) (port n now : ℕ) (r : DdpOutputProbeResult)
    → 1 ≤ n
    → n ≤ ddp_max_leds
    → net.control_hook ≡ none
    → net.monotonic 0 ≡ returned now
    → (probe net host port n).1 ≡ finished r
    → consistent_result r n ≡ true
consistent_result-probe net host port n now r low high unhooked start ended =
    let (t, b, as_many, same_length, e) = probe-IsStarted net host port n low high in
    let taken : IsTaken n (probe net host port n) =
      unfold clocked in
      rw (e, start)
        (resolved-IsTaken net n t b unhooked low high as_many same_length _ port
          (net.resolve 1 host port)) in
    taken r ended
