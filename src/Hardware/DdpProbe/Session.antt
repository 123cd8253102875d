-- ===== src/Hardware/DdpProbe/Session.antt =====
-- aurora_core/hardware/ddp_output_probe.py: the phases of `BoundedDDPOutputProbe.probe`, in their
-- order: test frame, blackout, close. `_StandardLibraryDDPSocketLease` runs the last two however
-- the first ends.
use project_aurora.Base.{
  ℕ, ◌+◌, ◌*◌, Bool, true, false, not, ◌&&◌, Option, none, some, String, List, [], ◌∷◌,
  if◌then◌else◌, ◌==◌,
}
use project_aurora.Hardware.DdpOutput.{DdpOutputProbeResult, empty_result, unexpected}
use project_aurora.Hardware.DdpPackets.{Bytes, is_last}
use project_aurora.Hardware.DdpDestination.{SocketAddress}
use project_aurora.Hardware.DdpProbe.{
  returned, interrupted, os_error, other_error, Done, Network, SendStatus, sent, deadline, budget,
  SocketUseState, defer_interrupt, phase_reason, first_reason, note_blackout, control_point,
  send_once,
}

-- What ends a call of `probe`: a result, or the KeyboardInterrupt that it raises.
pub data Ended : Type 0 where
  finished : DdpOutputProbeResult → Ended
  keyboard_interrupt : Ended

abbrev pub fail_test : SocketUseState → String → SocketUseState
fail_test s reason = record s { test_reason = some reason }

-- `_pre_socket_result`
unfoldable pub pre_socket_result : String → ℕ → ℕ → ℕ → DdpOutputProbeResult
pre_socket_result reason led_count payload_bytes packets_planned =
    record (empty_result reason (some led_count)) {
      frame_payload_bytes = payload_bytes;
      test_packets_planned = packets_planned;
      blackout_packets_planned = packets_planned;
    }

-- The reason that `_socket_result` gives, from the reasons noted for the blackout and the test
-- frame.
unfoldable pub reason_of : Option String → Option String → Bool → Bool → Bool → String
reason_of (some reason) test_reason socket_closed test_completed blackout_completed = reason
reason_of none (some reason) socket_closed test_completed blackout_completed =
    if test_completed && blackout_completed && not socket_closed
    then "ddp_output_cleanup_unconfirmed"
    else if blackout_completed
    then reason
    else unexpected
reason_of none none socket_closed test_completed blackout_completed =
    if test_completed && blackout_completed && not socket_closed
    then "ddp_output_cleanup_unconfirmed"
    else if test_completed && blackout_completed && socket_closed
    then "validated"
    else unexpected

-- `_socket_result`
unfoldable pub socket_result : SocketUseState → ℕ → ℕ → DdpOutputProbeResult
socket_result s led_count packets_planned =
    let test_completed = s.test_sent == packets_planned in
    let blackout_completed = s.blackout_sent == packets_planned in
    record {
      reason_code =
          reason_of s.blackout_reason s.test_reason s.socket_closed test_completed
            blackout_completed;
      socket_was_created = true;
      socket_was_closed = s.socket_closed;
      led_count = some led_count;
      frame_payload_bytes = led_count * 3;
      test_packets_planned = packets_planned;
      test_packets_sent = s.test_sent;
      blackout_packets_planned = packets_planned;
      blackout_packets_sent = s.blackout_sent;
      test_frame_completed = test_completed;
      blackout_attempted = s.blackout_attempted;
      blackout_completed = blackout_completed;
      cleanup_completed = s.socket_closed;
      broadcast_was_used = false;
      multicast_was_used = false;
      discovery_was_used = false;
      retry_was_used = false;
    }

-- After "after_test_send".
abbrev pub after_test_point :
    SocketUseState × Done → (SocketUseState → SocketUseState) → SocketUseState
after_test_point (s, returned x) continue = continue (record s { test_sent = s.test_sent + 1 })
after_test_point (s, interrupted) continue = defer_interrupt s
after_test_point (s, os_error) continue = fail_test s unexpected
after_test_point (s, other_error) continue = fail_test s unexpected

-- `state.blackout_reason = ...` after an exception of "before_blackout".
abbrev pub after_before_blackout : SocketUseState × Done → SocketUseState
after_before_blackout (s, returned x) = s
after_before_blackout (s, interrupted) = defer_interrupt s
after_before_blackout (s, os_error) = record s { blackout_reason = some unexpected }
after_before_blackout (s, other_error) = record s { blackout_reason = some unexpected }

-- After "between_blackout_packets" and "before_close".
abbrev pub after_blackout_point : SocketUseState × Done → SocketUseState
after_blackout_point (s, returned x) = s
after_blackout_point (s, interrupted) = defer_interrupt s
after_blackout_point (s, os_error) = note_blackout s unexpected
after_blackout_point (s, other_error) = note_blackout s unexpected

-- The account of one outcome in `_run_blackout_phase`.
abbrev pub count_blackout : SocketUseState × SendStatus → SocketUseState
count_blackout (s, sent) = record s { blackout_sent = s.blackout_sent + 1 }
count_blackout (s, SendStatus.interrupted) = defer_interrupt s
count_blackout (s, status) = note_blackout s (phase_reason "blackout" status)

-- `outcome.status in {"deadline", "budget"}`
abbrev pub stops_blackout : SendStatus → Bool
stops_blackout deadline = true
stops_blackout budget = true
stops_blackout _ = false

module _ (net : Network) (address : SocketAddress) (limit : ℕ) where
  -- What `_run_test_phase` does after an outcome of `_send_once`.
  abbrev pub after_test_send :
      SocketUseState × SendStatus → (SocketUseState → SocketUseState) → SocketUseState
  after_test_send (s, sent) continue =
      after_test_point (control_point net "after_test_send" s) continue
  after_test_send (s, SendStatus.interrupted) continue = defer_interrupt s
  after_test_send (s, status) continue = fail_test s (phase_reason "test_frame" status)

  -- `_run_test_phase`
  unfoldable pub test_phase : List Bytes → SocketUseState → SocketUseState
  test_phase [] s = s
  test_phase (packet ∷ rest) s =
      after_test_send (send_once net address limit packet s) λ s'. test_phase rest s'

  -- `if index < len(packets) - 1:`
  unfoldable pub between_blackout : Bool → SocketUseState → SocketUseState
  between_blackout true s = s
  between_blackout false s = after_blackout_point (control_point net "between_blackout_packets" s)

  -- What the loop does after an outcome of `_send_once`.
  abbrev pub after_blackout_send :
      Bool → SocketUseState × SendStatus → (SocketUseState → SocketUseState) → SocketUseState
  after_blackout_send last (s, status) continue =
      if stops_blackout status
      then count_blackout (s, status)
      else continue (between_blackout last (count_blackout (s, status)))

  -- The loop of `_run_blackout_phase`.
  unfoldable pub blackout_loop : List Bytes → SocketUseState → SocketUseState
  blackout_loop [] s = s
  blackout_loop (packet ∷ rest) s =
      after_blackout_send (is_last rest) (send_once net address limit packet s)
        λ s'. blackout_loop rest s'

  -- `_run_blackout_phase`
  unfoldable pub blackout_phase : List Bytes → SocketUseState → SocketUseState
  blackout_phase packets s = blackout_loop packets (
      after_before_blackout
        (control_point net "before_blackout" (record s { blackout_attempted = true })))

  -- `_prepare_close`
  unfoldable pub prepare_close : SocketUseState → SocketUseState
  prepare_close s = after_blackout_point (control_point net "before_close" s)

  -- `_use_socket`, after "after_socket_acquired".
  unfoldable pub acquired : List Bytes → SocketUseState × Done → SocketUseState
  acquired packets (s, returned x) = test_phase packets s
  acquired packets (s, interrupted) = defer_interrupt s
  acquired packets (s, os_error) = fail_test s unexpected
  acquired packets (s, other_error) = fail_test s unexpected

  -- `_use_socket`
  unfoldable pub use_socket : List Bytes → SocketUseState → SocketUseState
  use_socket packets s = acquired packets (control_point net "after_socket_acquired" s)

  -- The body of the `with`, after "after_socket_session_entered", and what the cleanup makes of an
  -- exception of it.
  unfoldable pub entered : List Bytes → SocketUseState × Done → SocketUseState
  entered packets (s, returned x) = use_socket packets s
  entered packets (s, interrupted) = defer_interrupt s
  entered packets (s, os_error) = record s { test_reason = first_reason s.test_reason unexpected }
  entered packets (s, other_error) = record s {
    test_reason = first_reason s.test_reason unexpected;
  }

  -- The body of the `with`, and the blackout that the lease runs before it closes the socket.
  unfoldable pub use_and_blackout : List Bytes → List Bytes → SocketUseState → SocketUseState
  use_and_blackout test_packets blackout_packets s = prepare_close (
      blackout_phase blackout_packets
        (entered test_packets (control_point net "after_socket_session_entered" s)))
