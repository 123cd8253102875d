-- ===== src/Hardware/DdpProbe/Prompt.antt =====
-- aurora_core/hardware/ddp_output_probe.py: a run in which every call succeeds in time.
use project_aurora.Base.{
  ℕ, ◌+◌, ◌≤◌, ◌<◌, ◌≡◌, refl, ◌∙◌, true, false, ◌==◌, none, some, List, [], ◌∷◌, length, arith,
  leb,
}
use project_aurora.Hardware.DdpPackets.{Bytes, is_last}
use project_aurora.Hardware.DdpDestination.{SocketAddress}
use project_aurora.Hardware.DdpProbe.{
  returned, Network, sent, SocketUseState, transmit, armed, timed, send_once, sent_status,
}
use project_aurora.Hardware.DdpProbe.Effects.{control_point_quiet, after_send}
use project_aurora.Hardware.DdpProbe.Reasons.{between_blackout_unhooked}
use project_aurora.Hardware.DdpProbe.Session.{
  test_phase, blackout_loop, blackout_phase, prepare_close, acquired, use_socket, entered,
  use_and_blackout,
}

-- No control hook, no error, every datagram whole, and a clock that stays before the limit.
pub record IsPrompt (net : Network) (limit : ℕ) : Type 0 where
  pub unhooked : net.control_hook ≡ none
  pub clock : (c : ℕ) → (now : ℕ) × (now < limit) × (net.monotonic c ≡ returned now)
  pub times_out : (c remaining : ℕ) → net.set_timeout c remaining ≡ returned tt
  pub sends_all :
      (c : ℕ) (packet : Bytes) (address : SocketAddress)
      → net.send_to c packet address ≡ returned (some (length packet))
  pub closes : (c : ℕ) → net.close_socket c ≡ returned tt

-- From one state to another `a` packets of the test frame and `b` of the blackout were sent.
abbrev pub Progress : SocketUseState → SocketUseState → ℕ → ℕ → Type 0
Progress s t a b =
    (t.test_sent ≡ s.test_sent + a)
    × (t.blackout_sent ≡ s.blackout_sent + b)
    × (t.attempts ≡ s.attempts + a + b)
    × (t.test_reason ≡ s.test_reason)
    × (t.blackout_reason ≡ s.blackout_reason)
    × (t.deferred_interrupt ≡ s.deferred_interrupt)
    × (t.blackout_attempted ≡ s.blackout_attempted)

nothing-Progress : (s : SocketUseState) → Progress s s 0 0
nothing-Progress s = (omega arith, omega arith, omega arith, refl, refl, refl, refl)

and_then-Progress :
    (s t u : SocketUseState) (a b a' b' k l : ℕ)
    → Progress s t a b
    → Progress t u a' b'
    → a + a' ≡ k
    → b + b' ≡ l
    → Progress s u k l
and_then-Progress s t u a b a' b' k l (p, q, n, f, g, h, i) (p', q', n', f', g', h', i') e e' = (
  omega (arith, p, p', e),
  omega (arith, q, q', e'),
  omega (arith, n, n', e, e'),
  f' ∙ f,
  g' ∙ g,
  h' ∙ h,
  i' ∙ i,
)

module _ (net : Network) (address : SocketAddress) (limit : ℕ) (prompt : IsPrompt net limit) where
  send_once-sent :
      (packet : Bytes) (s : SocketUseState)
      → s.attempts < 4
      → (c : ℕ) × (send_once net address limit packet s ≡ (after_send c packet s, sent))
  unfolding send_once timed armed transmit sent_status
  send_once-sent packet s low =
      let (now, early, e) = prompt.clock s.calls in
      let early' : leb limit now ≡ false = ground arith in
      let left : leb 4 s.attempts ≡ false = ground arith in
      let whole : (length packet == length packet) ≡ true = ground arith in
      (
        s.calls + 1 + 1 + 1,
        rw
            (
              e,
              early',
              left,
              prompt.times_out (s.calls + 1) _,
              prompt.sends_all (s.calls + 1 + 1) packet address,
              whole,
            )
            refl,
      )

  pub test_phase-Progress :
      (packets : List Bytes) (s : SocketUseState)
      → s.attempts + length packets ≤ 4
      → Progress s (test_phase net address limit packets s) (length packets) 0
  unfolding test_phase
  test_phase-Progress [] s low = nothing-Progress s
  test_phase-Progress (packet ∷ rest) s low =
      let (c, e) = send_once-sent packet s (omega (arith, low)) in
      let t = record (after_send c packet s) { test_sent = s.test_sent + 1 } in
      let one : Progress s t 1 0 = (refl, omega arith, omega arith, refl, refl, refl, refl) in
      rw (e, control_point_quiet net prompt.unhooked "after_test_send" (after_send c packet s))
        (and_then-Progress s t (test_phase net address limit rest t) 1 0 (length rest) 0
          (length (packet ∷ rest)) 0 one (test_phase-Progress rest t (omega (arith, low)))
          (omega arith) refl)

  pub blackout_loop-Progress :
      (packets : List Bytes) (s : SocketUseState)
      → s.attempts + length packets ≤ 4
      → Progress s (blackout_loop net address limit packets s) 0 (length packets)
  unfolding blackout_loop
  blackout_loop-Progress [] s low = nothing-Progress s
  blackout_loop-Progress (packet ∷ rest) s low =
      let (c, e) = send_once-sent packet s (omega (arith, low)) in
      let t = record (after_send c packet s) { blackout_sent = s.blackout_sent + 1 } in
      let one : Progress s t 0 1 = (omega arith, refl, omega arith, refl, refl, refl, refl) in
      rw (e, between_blackout_unhooked net address limit prompt.unhooked (is_last rest) t)
        (and_then-Progress s t (blackout_loop net address limit rest t) 0 1 0 (length rest) 0
          (length (packet ∷ rest)) one (blackout_loop-Progress rest t (omega (arith, low))) refl
          (omega arith))

  pub use_and_blackout-Progress :
      (test_packets blackout_packets : List Bytes) (s : SocketUseState)
      → s.attempts + length test_packets + length blackout_packets ≤ 4
      → Progress
          (record s { blackout_attempted = true })
          (use_and_blackout net address limit test_packets blackout_packets s)
          (length test_packets)
          (length blackout_packets)
  unfolding use_and_blackout entered use_socket acquired blackout_phase prepare_close
  use_and_blackout-Progress test_packets blackout_packets s low =
      let t = test_phase net address limit test_packets s in
      let tests = test_phase-Progress test_packets s (omega (arith, low)) in
      let t' = record t { blackout_attempted = true } in
      let (p, q, n, f, g, h, i) = tests in
      let blacked = blackout_loop-Progress blackout_packets t' (omega (arith, low, n)) in
      rw
        (
          control_point_quiet net prompt.unhooked "after_socket_session_entered" s,
          control_point_quiet net prompt.unhooked "after_socket_acquired" s,
          control_point_quiet net prompt.unhooked "before_blackout" t',
          control_point_quiet net prompt.unhooked "before_close"
              (blackout_loop net address limit blackout_packets t'),
        )
        (and_then-Progress (record s { blackout_attempted = true }) t'
          (blackout_loop net address limit blackout_packets t') (length test_packets) 0 0
          (length blackout_packets) (length test_packets) (length blackout_packets)
          (p, q, n, f, g, h, refl) blacked (omega arith) (omega arith))
