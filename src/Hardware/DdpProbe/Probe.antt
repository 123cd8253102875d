-- ===== src/Hardware/DdpProbe/Probe.antt =====
-- aurora_core/hardware/ddp_output_probe.py: `BoundedDDPOutputProbe.probe` as a whole. Its calls are,
-- in order: the clock, the resolver, the socket, and those of the session.
use project_aurora.Base.{
  ℕ, zero, suc, ◌+◌, ◌*◌, true, false, not, ◌&&◌, ◌||◌, none, String, List, [], ◌∷◌, ◌++◌,
  if◌then◌else◌, leb, ◌==◌, length, ◌⊎◌, inl, inr,
}
use project_aurora.Base.Checked.{Checked, ok}
use project_aurora.Hardware.DdpOutput.{empty_result, ddp_max_leds, unexpected}
use project_aurora.Hardware.DdpPackets.{
  Bytes, build_ddp_packets, ddp_test_sequence, ddp_blackout_sequence,
}
use project_aurora.Hardware.DdpDestination.{
  AddressInfo, ResolvedDestination, collect_destinations, choose_destination,
}
use project_aurora.Hardware.DdpProbe.{
  Outcome, returned, interrupted, os_error, other_error, Done, Network, SocketUseState, fresh_state,
  called, ddp_deadline_seconds,
}
use project_aurora.Hardware.DdpProbe.Session.{
  Ended, finished, keyboard_interrupt, pre_socket_result, socket_result, use_and_blackout,
}

abbrev pub ddp_test_rgb : Bytes
ddp_test_rgb = 0 ∷ 0 ∷ 0x10 ∷ []

abbrev pub ddp_blackout_rgb : Bytes
ddp_blackout_rgb = 0 ∷ 0 ∷ 0 ∷ []

-- `rgb * led_count`
unfoldable pub repeat_rgb : Bytes → ℕ → Bytes
repeat_rgb rgb zero = []
repeat_rgb rgb (suc n) = rgb ++ repeat_rgb rgb n

abbrev pub test_frame : ℕ → Checked (List Bytes)
test_frame n = build_ddp_packets (repeat_rgb ddp_test_rgb n) ddp_test_sequence

abbrev pub blackout_frame : ℕ → Checked (List Bytes)
blackout_frame n = build_ddp_packets (repeat_rgb ddp_blackout_rgb n) ddp_blackout_sequence

abbrev pub Run : Type 0
Run = SocketUseState × Ended

abbrev pub nothing_planned : ℕ → Run
nothing_planned calls = (fresh_state calls, finished (empty_result unexpected none))

-- After the `with`: a deferred interruption is raised, else there is a result.
unfoldable pub conclude : ℕ → ℕ → SocketUseState → Run
conclude n planned s =
    (s, if s.deferred_interrupt then keyboard_interrupt else finished (socket_result s n planned))

-- After `close`, whose errors are passed over.
unfoldable pub closed : ℕ → ℕ → SocketUseState × Done → Run
closed n planned (s, returned x) = conclude n planned (record s { socket_closed = true })
closed n planned (s, interrupted) = (s, keyboard_interrupt)
closed n planned (s, os_error) = conclude n planned s
closed n planned (s, other_error) = conclude n planned s

module _ (net : Network) where
  -- The end of `_finish`, with `_close_once`.
  unfoldable pub close : ℕ → ℕ → SocketUseState → Run
  close n planned s = closed n planned (called s, net.close_socket s.calls)

  module _ (n : ℕ) (test_packets blackout_packets : List Bytes) where
    abbrev pub before_socket : ℕ → String → Run
    before_socket calls reason =
        (fresh_state calls, finished (pre_socket_result reason n (n * 3) (length test_packets)))

    -- `__enter__`, and what the `with` does.
    unfoldable pub opened : ℕ → ResolvedDestination → Done → Run
    opened limit destination (returned x) = close n (length test_packets) (
        use_and_blackout net destination.address limit test_packets blackout_packets
          (fresh_state 3))
    opened limit destination interrupted = (fresh_state 3, keyboard_interrupt)
    opened limit destination os_error = before_socket 3 "socket_creation_failed"
    opened limit destination other_error = before_socket 3 unexpected

    -- After `_resolve`.
    unfoldable pub chosen : ℕ → ResolvedDestination ⊎ String → Run
    chosen limit (inl destination) = opened limit destination (net.open_socket 2 destination.family)
    chosen limit (inr reason) = before_socket 2 reason

    -- After the resolver.
    unfoldable pub resolved : ℕ → ℕ → Outcome (List AddressInfo) → Run
    resolved limit port (returned infos) =
        chosen limit (choose_destination (collect_destinations net.parser port infos ([], false)))
    resolved limit port interrupted = (fresh_state 2, keyboard_interrupt)
    resolved limit port os_error = before_socket 2 "destination_resolution_failed"
    resolved limit port other_error = before_socket 2 "destination_resolution_failed"

    -- After the first reading of the clock, which sets the deadline.
    unfoldable pub clocked : String → ℕ → Outcome ℕ → Run
    clocked host port (returned now) =
        resolved (now + ddp_deadline_seconds * net.ticks_per_second) port (net.resolve 1 host port)
    clocked host port interrupted = (fresh_state 1, keyboard_interrupt)
    clocked host port os_error = nothing_planned 1
    clocked host port other_error = nothing_planned 1

  -- After the packets are built; the lengths of the two payloads are those of `repeat_rgb`.
  unfoldable pub planned : String → ℕ → ℕ → Checked (List Bytes) → Checked (List Bytes) → Run
  planned host port n (ok test_packets) (ok blackout_packets) =
      if not (length (repeat_rgb ddp_test_rgb n) == n * 3)
        || not (length (repeat_rgb ddp_test_rgb n) == length (repeat_rgb ddp_blackout_rgb n))
        || not (length test_packets == length blackout_packets)
      then nothing_planned 0
      else clocked n test_packets blackout_packets host port (net.monotonic 0)
  planned host port n _ _ = nothing_planned 0

  -- `probe`
  unfoldable pub probe : String → ℕ → ℕ → Run
  probe host port n =
      if not (leb 1 n && leb n ddp_max_leds)
      then nothing_planned 0
      else planned host port n (test_frame n) (blackout_frame n)
