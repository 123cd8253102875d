-- ===== src/Hardware/DdpProbe/Reasons.antt =====
-- aurora_core/hardware/ddp_output_probe.py: the reasons that a run without a control hook notes.
use project_aurora.Base.{
  ℕ, suc, ◌+◌, ◌<◌, ◌≡◌, refl, ap, ◌∙◌, Bool, true, false, none, some, List, [], ◌∷◌, length, ◌⊎◌,
  inl, inr, arith,
}
use project_aurora.Hardware.DdpPackets.{Bytes, is_last}
use project_aurora.Hardware.DdpDestination.{SocketAddress}
use project_aurora.Hardware.DdpProbe.{
  Network, SendStatus, sent, deadline, budget, failed, partial, unexpected_status, SocketUseState,
  send_once, defer_interrupt, phase_reason, first_reason, note_blackout,
}
use project_aurora.Hardware.DdpProbe.Effects.{send_once-SendEffect, control_point_quiet}
use project_aurora.Hardware.DdpProbe.Session.{
  test_phase, after_test_send, count_blackout, between_blackout, blackout_loop, after_blackout_send,
}

-- What a call of `_send_once` keeps.
abbrev Kept : SocketUseState → SocketUseState → Type 0
Kept s t =
    (t.test_sent ≡ s.test_sent)
    × (t.blackout_sent ≡ s.blackout_sent)
    × (t.test_reason ≡ s.test_reason)
    × (t.blackout_reason ≡ s.blackout_reason)
    × (t.deferred_interrupt ≡ s.deferred_interrupt)
    × (t.blackout_attempted ≡ s.blackout_attempted)

-- The test frame of `planned` packets after its phase, unless an interruption is deferred.
abbrev pub IsTested : ℕ → SocketUseState → Type 0
IsTested planned s =
    (s.deferred_interrupt ≡ true)
    ⊎ ((s.test_sent ≡ planned) × (s.test_reason ≡ none))
    ⊎ ((s.test_sent < planned)
        × ((status : SendStatus) × (s.test_reason ≡ some (phase_reason "test_frame" status))))

-- The blackout frame with `rest` packets to come.
abbrev pub IsBlacked : ℕ → ℕ → SocketUseState → Type 0
IsBlacked rest planned s =
    (s.deferred_interrupt ≡ true)
    ⊎ ((s.blackout_sent + rest ≡ planned) × (s.blackout_reason ≡ none))
    ⊎ ((s.blackout_sent + rest < planned)
        × ((status : SendStatus) × (s.blackout_reason ≡ some (phase_reason "blackout" status))))

module _ (net : Network) (address : SocketAddress) (limit : ℕ)
    (unhooked : net.control_hook ≡ none) where
  send_once-Kept :
      (packet : Bytes) (s : SocketUseState) → Kept s (send_once net address limit packet s).0
  send_once-Kept packet s = elim (send_once-SendEffect net address limit packet s) [
    | inl (c, o, quiet, e) ↦ rw e (refl, refl, refl, refl, refl, refl)
    | inr (c, o, low, e) ↦ rw e (refl, refl, refl, refl, refl, refl)
  ]

  abbrev IsTestRun : ℕ → SocketUseState → SocketUseState → Type 0
  IsTestRun planned s t =
      IsTested planned t
      × (t.blackout_sent ≡ s.blackout_sent)
      × (t.blackout_reason ≡ s.blackout_reason)

  pub test_phase-IsTestRun :
      (packets : List Bytes) (planned : ℕ) (s : SocketUseState)
      → s.test_reason ≡ none
      → s.test_sent + length packets ≡ planned
      → IsTestRun planned s (test_phase net address limit packets s)
  unfolding test_phase
  test_phase-IsTestRun [] planned s quiet all = (inr (inl (omega (arith, all), quiet)), refl, refl)
  test_phase-IsTestRun (packet ∷ rest) planned s quiet all =
      go (send_once net address limit packet s) (send_once-Kept packet s)
        λ t quiet' all'. test_phase-IsTestRun rest planned t quiet' all'
    where
      go :
          (r : SocketUseState × SendStatus)
          → Kept s r.0
          → ((t : SocketUseState)
              → t.test_reason ≡ none
              → t.test_sent + length rest ≡ planned
              → IsTestRun planned t (test_phase net address limit rest t))
          → IsTestRun planned s
              (after_test_send net address limit r λ t. test_phase net address limit rest t)
      go (t, sent) (p, q, f, g, h, i) more =
          let t' = record t { test_sent = t.test_sent + 1 } in
          let (tested, b, c) = more t' (f ∙ quiet) (omega (arith, p, all)) in
          rw (control_point_quiet net unhooked "after_test_send" t) (tested, b ∙ q, c ∙ g)
      go (t, SendStatus.interrupted) (p, q, f, g, h, i) more = (inl refl, q, g)
      go (t, deadline) (p, q, f, g, h, i) more =
          (inr (inr (omega (arith, p, all), (deadline, refl))), q, g)
      go (t, budget) (p, q, f, g, h, i) more =
          (inr (inr (omega (arith, p, all), (budget, refl))), q, g)
      go (t, failed) (p, q, f, g, h, i) more =
          (inr (inr (omega (arith, p, all), (failed, refl))), q, g)
      go (t, partial) (p, q, f, g, h, i) more =
          (inr (inr (omega (arith, p, all), (partial, refl))), q, g)
      go (t, unexpected_status) (p, q, f, g, h, i) more =
          (inr (inr (omega (arith, p, all), (unexpected_status, refl))), q, g)

  -- From one state to another the blackout went on, and the test frame stayed as it was.
  abbrev pub IsBlackoutRun : ℕ → ℕ → SocketUseState → SocketUseState → Type 0
  IsBlackoutRun rest planned s t =
      IsBlacked rest planned t
      × (t.test_sent ≡ s.test_sent)
      × (t.test_reason ≡ s.test_reason)
      × (t.blackout_attempted ≡ s.blackout_attempted)
      × ((s.deferred_interrupt ≡ true) → t.deferred_interrupt ≡ true)

  pub between_blackout_unhooked :
      (last : Bool) (s : SocketUseState) → between_blackout net address limit last s ≡ s
  unfolding between_blackout
  between_blackout_unhooked true s = refl
  between_blackout_unhooked false s =
      rw (control_point_quiet net unhooked "between_blackout_packets" s) refl

  -- A packet that was not sent whole, for a reason that the phase notes.
  missed :
      (rest planned : ℕ) (s t : SocketUseState) (status : SendStatus)
      → Kept s t
      → IsBlacked (suc rest) planned s
      → let u = note_blackout t (phase_reason "blackout" status) in
        IsBlackoutRun rest planned s u × IsBlackoutRun 0 planned s u
  missed rest planned s t status (p, q, f, g, h, i) (inl d) =
      ((inl (h ∙ d), p, f, i, λ d. h ∙ d), (inl (h ∙ d), p, f, i, λ d. h ∙ d))
  missed rest planned s t status (p, q, f, g, h, i) (inr (inl (n, quiet))) =
      let r = ap (λ o. first_reason o (phase_reason "blackout" status)) (g ∙ quiet) in
      (
        (inr (inr (omega (arith, q, n), (status, r))), p, f, i, λ d. h ∙ d),
        (inr (inr (omega (arith, q, n), (status, r))), p, f, i, λ d. h ∙ d),
      )
  missed rest planned s t status (p, q, f, g, h, i) (inr (inr (n, (first, e)))) =
      let r = ap (λ o. first_reason o (phase_reason "blackout" status)) (g ∙ e) in
      (
        (inr (inr (omega (arith, q, n), (first, r))), p, f, i, λ d. h ∙ d),
        (inr (inr (omega (arith, q, n), (first, r))), p, f, i, λ d. h ∙ d),
      )

  counted :
      (rest planned : ℕ) (s t : SocketUseState)
      → Kept s t
      → IsBlacked (suc rest) planned s
      → IsBlackoutRun rest planned s (count_blackout (t, sent))
  counted rest planned s t (p, q, f, g, h, i) (inl d) = (inl (h ∙ d), p, f, i, λ d. h ∙ d)
  counted rest planned s t (p, q, f, g, h, i) (inr (inl (n, quiet))) =
      (inr (inl (omega (arith, q, n), g ∙ quiet)), p, f, i, λ d. h ∙ d)
  counted rest planned s t (p, q, f, g, h, i) (inr (inr (n, (first, e)))) =
      (inr (inr (omega (arith, q, n), (first, g ∙ e))), p, f, i, λ d. h ∙ d)

  pub blackout_loop-IsBlackoutRun :
      (packets : List Bytes) (planned : ℕ) (s : SocketUseState)
      → IsBlacked (length packets) planned s
      → IsBlackoutRun 0 planned s (blackout_loop net address limit packets s)
  unfolding blackout_loop
  blackout_loop-IsBlackoutRun [] planned s so_far = (so_far, refl, refl, refl, λ d. d)
  blackout_loop-IsBlackoutRun (packet ∷ rest) planned s so_far =
      go (send_once net address limit packet s) (send_once-Kept packet s)
        λ u so_far'. blackout_loop-IsBlackoutRun rest planned u so_far'
    where
      on :
          (u : SocketUseState)
          → IsBlackoutRun (length rest) planned s u
          → ((v : SocketUseState)
              → IsBlacked (length rest) planned v
              → IsBlackoutRun 0 planned v (blackout_loop net address limit rest v))
          → IsBlackoutRun 0 planned s (
              blackout_loop net address limit rest
                (between_blackout net address limit (is_last rest) u))
      on u (so_far', p, f, i, d) more =
          let (end, p', f', i', d') = more u so_far' in
          rw (between_blackout_unhooked (is_last rest) u)
            (end, p' ∙ p, f' ∙ f, i' ∙ i, λ x. d' (d x))

      go :
          (r : SocketUseState × SendStatus)
          → Kept s r.0
          → ((v : SocketUseState)
              → IsBlacked (length rest) planned v
              → IsBlackoutRun 0 planned v (blackout_loop net address limit rest v))
          → IsBlackoutRun 0 planned s (
              after_blackout_send net address limit
                (is_last rest)
                r
                λ v. blackout_loop net address limit rest v)
      go (t, sent) kept more =
          on (count_blackout (t, sent)) (counted (length rest) planned s t kept so_far) more
      go (t, SendStatus.interrupted) (p, q, f, g, h, i) more =
          on (defer_interrupt t) (inl refl, p, f, i, λ d. refl) more
      go (t, deadline) kept more = (missed (length rest) planned s t deadline kept so_far).1
      go (t, budget) kept more = (missed (length rest) planned s t budget kept so_far).1
      go (t, failed) kept more =
          on (count_blackout (t, failed)) (missed (length rest) planned s t failed kept so_far).0
            more
      go (t, partial) kept more =
          on (count_blackout (t, partial)) (missed (length rest) planned s t partial kept so_far).0
            more
      go (t, unexpected_status) kept more =
          on (count_blackout (t, unexpected_status))
            (missed (length rest) planned s t unexpected_status kept so_far).0 more
