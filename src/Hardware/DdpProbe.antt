-- ===== src/Hardware/DdpProbe.antt =====
-- aurora_core/hardware/ddp_output_probe.py: BoundedDDPOutputProbe, with the standard lease of a
-- socket. Clock, resolver, socket and control hook are a `Network`: what each call does, given the
-- number of such calls before. A call returns, or raises KeyboardInterrupt, OSError or another
-- Exception. Time is a number of ticks; an interruption between two calls is not modelled.
pub mod Blackout
pub mod Effects
pub mod Exact
pub mod Exchange
pub mod Probe
pub mod Prompt
pub mod Reasons
pub mod Consistent
pub mod Accepted
pub mod Frames
pub mod Runs
pub mod Session
pub mod Success
pub mod Traffic
use Prim.Native.String.{◌++◌ as str_append}
use project_aurora.Base.{
  ℕ, ◌+◌, ◌-◌, Bool, true, false, Option, none, some, String, List, [], ◌∷◌, ◌++◌, if◌then◌else◌,
  leb, ◌==◌, length,
}
use project_aurora.Hardware.DdpOutput.{unexpected}
use project_aurora.Hardware.DdpPackets.{Bytes}
use project_aurora.Hardware.DdpDestination.{AddressInfo, AddressParser, SocketAddress}

abbrev pub ddp_max_send_attempts : ℕ
ddp_max_send_attempts = 4

abbrev pub ddp_deadline_seconds : ℕ
ddp_deadline_seconds = 2

pub data Outcome {ℓ} (A : Type ℓ) : Type ℓ where
  returned : A → Outcome A
  interrupted os_error other_error : Outcome A

abbrev pub Done : Type 0
Done = Outcome (Unit {0})

pub record Network : Type 0 where
  pub ticks_per_second : ℕ
  pub parser : AddressParser
  pub monotonic : ℕ → Outcome ℕ
  pub resolve : ℕ → String → ℕ → Outcome (List AddressInfo)
  pub open_socket : ℕ → ℕ → Done
  pub set_timeout : ℕ → ℕ → Done
  pub send_to : ℕ → Bytes → SocketAddress → Outcome (Option ℕ)
  pub close_socket : ℕ → Done
  pub control_hook : Option (ℕ → String → Done)

pub data SendStatus : Type 0 where
  sent deadline budget failed partial unexpected_status interrupted : SendStatus

-- `_SocketUseState`, with the number of calls made and the datagrams that were handed to `sendto`.
pub record SocketUseState : Type 0 where
  pub attempts : ℕ
  pub test_sent : ℕ
  pub blackout_sent : ℕ
  pub test_reason : Option String
  pub blackout_reason : Option String
  pub blackout_attempted : Bool
  pub socket_closed : Bool
  pub deferred_interrupt : Bool
  pub calls : ℕ
  pub sends : List Bytes

abbrev pub fresh_state : ℕ → SocketUseState
fresh_state calls = record {
  attempts = 0;
  test_sent = 0;
  blackout_sent = 0;
  test_reason = none;
  blackout_reason = none;
  blackout_attempted = false;
  socket_closed = false;
  deferred_interrupt = false;
  calls = calls;
  sends = [];
}

abbrev pub called : SocketUseState → SocketUseState
called s = record s { calls = s.calls + 1 }

-- `_defer_interrupt`
abbrev pub defer_interrupt : SocketUseState → SocketUseState
defer_interrupt s = record s { deferred_interrupt = true }

-- `_phase_reason`
unfoldable pub phase_reason : String → SendStatus → String
phase_reason phase deadline = str_append phase "_deadline_exceeded"
phase_reason phase failed = str_append phase "_send_failed"
phase_reason phase partial = str_append phase "_partial_send"
phase_reason phase _ = unexpected

-- `if state.blackout_reason is None: state.blackout_reason = reason`
abbrev pub first_reason : Option String → String → Option String
first_reason none reason = some reason
first_reason (some r) reason = some r

abbrev pub note_blackout : SocketUseState → String → SocketUseState
note_blackout s reason = record s { blackout_reason = first_reason s.blackout_reason reason }

-- The end of `_send_once`.
unfoldable pub sent_status : Bytes → Outcome (Option ℕ) → SendStatus
sent_status packet (returned none) = partial
sent_status packet (returned (some n)) = if n == length packet then sent else partial
sent_status packet interrupted = SendStatus.interrupted
sent_status packet os_error = failed
sent_status packet other_error = unexpected_status

module _ (net : Network) where
  -- `_control_point`
  unfoldable pub control_point : String → SocketUseState → SocketUseState × Done
  control_point name s = elim net.control_hook [
    | none ↦ (s, returned tt)
    | some hook ↦ (called s, hook s.calls name)
  ]

  unfoldable pub transmit : SocketAddress → Bytes → SocketUseState → SocketUseState × SendStatus
  transmit address packet s = (
    record s { calls = s.calls + 1; attempts = s.attempts + 1; sends = s.sends ++ packet ∷ [] },
    sent_status packet (net.send_to s.calls packet address),
  )

  -- What follows `settimeout`.
  unfoldable pub armed : SocketAddress → Bytes → SocketUseState × Done → SocketUseState × SendStatus
  armed address packet (s, returned x) = transmit address packet s
  armed address packet (s, interrupted) = (s, SendStatus.interrupted)
  armed address packet (s, os_error) = (s, failed)
  armed address packet (s, other_error) = (s, unexpected_status)

  -- What follows the reading of the clock.
  unfoldable pub timed :
      SocketAddress → ℕ → Bytes → SocketUseState × Outcome ℕ → SocketUseState × SendStatus
  timed address limit packet (s, returned now) =
      if leb limit now
      then (s, deadline)
      else if leb ddp_max_send_attempts s.attempts
      then (s, budget)
      else armed address packet (called s, net.set_timeout s.calls (limit - now))
  timed address limit packet (s, interrupted) = (s, SendStatus.interrupted)
  timed address limit packet (s, os_error) = (s, unexpected_status)
  timed address limit packet (s, other_error) = (s, unexpected_status)

  -- `_send_once`
  unfoldable pub send_once :
      SocketAddress → ℕ → Bytes → SocketUseState → SocketUseState × SendStatus
  send_once address limit packet s = timed address limit packet (called s, net.monotonic s.calls)
