-- ===== src/Hardware/DdpProbe/Exchange.antt =====
-- aurora_core/hardware/ddp_output_probe.py: what a whole run of the probe hands to the socket.
use project_aurora.Base.{
  ℕ, ◌≤◌, ◌≡◌, refl, true, false, List, [], ◌++◌, length, ◌⊎◌, inl, inr, arith, Bool-cases,
}
use project_aurora.Hardware.DdpPackets.{Bytes}
use project_aurora.Hardware.DdpDestination.{SocketAddress}
use project_aurora.Hardware.DdpProbe.{
  returned, interrupted, os_error, other_error, Done, Network, SocketUseState, fresh_state,
  control_point,
}
use project_aurora.Hardware.DdpProbe.Effects.{at_call, PointEffect, control_point-PointEffect}
use project_aurora.Hardware.DdpProbe.Traffic.{
  IsPrefix, Traffic, nothing-Traffic, and_then-Traffic, then_quiet, TestTraffic,
  test_phase-TestTraffic,
}
use project_aurora.Hardware.DdpProbe.Blackout.{
  IsSublist, blackout_phase-BlackoutTraffic, prepare_close-quiet,
}
use project_aurora.Hardware.DdpProbe.Session.{
  finished, keyboard_interrupt, socket_result, acquired, use_socket, entered, use_and_blackout,
  blackout_phase, prepare_close,
}
use project_aurora.Hardware.DdpProbe.Probe.{Run, conclude, closed}

module _ (net : Network) (address : SocketAddress) (limit : ℕ) where
  acquired-TestTraffic :
      (packets : List Bytes) (s : SocketUseState) (r : SocketUseState × Done)
      → s.attempts ≤ 4
      → PointEffect s r
      → TestTraffic net address limit packets s (acquired net address limit packets r)
  unfolding acquired
  acquired-TestTraffic packets s r low (c, o, e) = rw e (go o)
    where
      go :
          (o : Done)
          → TestTraffic net address limit packets s
              (acquired net address limit packets (at_call c s, o))
      go (returned x) = test_phase-TestTraffic net address limit packets (at_call c s) low
      go interrupted = ([], (packets, refl), nothing-Traffic s low)
      go os_error = ([], (packets, refl), nothing-Traffic s low)
      go other_error = ([], (packets, refl), nothing-Traffic s low)

  entered-TestTraffic :
      (packets : List Bytes) (s : SocketUseState) (r : SocketUseState × Done)
      → s.attempts ≤ 4
      → PointEffect s r
      → TestTraffic net address limit packets s (entered net address limit packets r)
  unfolding entered use_socket
  entered-TestTraffic packets s r low (c, o, e) = rw e (go o)
    where
      go :
          (o : Done)
          → TestTraffic net address limit packets s
              (entered net address limit packets (at_call c s, o))
      go (returned x) =
          acquired-TestTraffic packets (at_call c s) _ low
            (control_point-PointEffect net "after_socket_acquired" (at_call c s))
      go interrupted = ([], (packets, refl), nothing-Traffic s low)
      go os_error = ([], (packets, refl), nothing-Traffic s low)
      go other_error = ([], (packets, refl), nothing-Traffic s low)

abbrev pub SessionTraffic : List Bytes → List Bytes → SocketUseState → SocketUseState → Type 0
SessionTraffic test_packets blackout_packets s t =
    (xs : List Bytes) × (ys : List Bytes) × IsPrefix xs test_packets
    × IsSublist ys blackout_packets
    × Traffic s t (length xs) (length ys) (xs ++ ys)

pub use_and_blackout-SessionTraffic :
    (net : Network) (address : SocketAddress) (limit : ℕ)
    (test_packets blackout_packets : List Bytes) (s : SocketUseState)
    → s.attempts ≤ 4
    → SessionTraffic test_packets blackout_packets s
        (use_and_blackout net address limit test_packets blackout_packets s)
unfolding use_and_blackout
use_and_blackout-SessionTraffic net address limit test_packets blackout_packets s low =
    let t =
      entered net address limit test_packets (control_point net "after_socket_session_entered" s) in
    let u = blackout_phase net address limit blackout_packets t in
    let v = prepare_close net address limit u in
    let (xs, first, moved) =
      entered-TestTraffic net address limit test_packets s _ low
        (control_point-PointEffect net "after_socket_session_entered" s) in
    let (ys, part, moved') =
      blackout_phase-BlackoutTraffic net address limit blackout_packets t moved.2 in
    let both : Traffic s u (length xs) (length ys) (xs ++ ys) =
      and_then-Traffic s t u (length xs) 0 0 (length ys) (length xs) (length ys) xs ys moved moved'
        (omega arith) (omega arith) in
    let quiet : Traffic u v 0 0 [] = prepare_close-quiet net address limit u both.2 in
    (xs, ys, first, part, then_quiet s u v (length xs) (length ys) (xs ++ ys) both quiet)

-- Nothing was sent, and no result claims a socket.
abbrev pub Untouched : Run → Type 0
Untouched (s, e) =
    (s.sends ≡ [])
    × (s.attempts ≡ 0)
    × ((e ≡ keyboard_interrupt) ⊎ ((r : _) × (e ≡ finished r) × (r.socket_was_created ≡ false)))

abbrev pub Session : ℕ → List Bytes → List Bytes → Run → Type 0
Session n test_packets blackout_packets (s, e) =
    SessionTraffic test_packets blackout_packets (fresh_state 3) s
    × ((e ≡ keyboard_interrupt) ⊎ (e ≡ finished (socket_result s n (length test_packets))))

conclude-Session :
    (n : ℕ) (test_packets blackout_packets : List Bytes) (s : SocketUseState)
    → SessionTraffic test_packets blackout_packets (fresh_state 3) s
    → Session n test_packets blackout_packets (conclude n (length test_packets) s)
unfolding conclude
conclude-Session n test_packets blackout_packets s moved = elim (Bool-cases s.deferred_interrupt) [
  | inl d ↦ (moved, inl (simp d refl))
  | inr d ↦ (moved, inr (simp d refl))
]

pub closed-Session :
    (n : ℕ) (test_packets blackout_packets : List Bytes) (s : SocketUseState) (o : Done)
    → SessionTraffic test_packets blackout_packets (fresh_state 3) s
    → Session n test_packets blackout_packets (closed n (length test_packets) (s, o))
unfolding closed
closed-Session n test_packets blackout_packets s (returned x) moved =
    conclude-Session n test_packets blackout_packets (record s { socket_closed = true }) moved
closed-Session n test_packets blackout_packets s interrupted moved = (moved, inl refl)
closed-Session n test_packets blackout_packets s os_error moved =
    conclude-Session n test_packets blackout_packets s moved
closed-Session n test_packets blackout_packets s other_error moved =
    conclude-Session n test_packets blackout_packets s moved
