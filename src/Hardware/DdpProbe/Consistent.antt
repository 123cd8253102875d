-- ===== src/Hardware/DdpProbe/Consistent.antt =====
-- aurora_core/hardware/ddp_output_probe.py and ddp_output.py: the results of a run without a control
-- hook are results that the service takes.
use project_aurora.Base.{
  ℕ, ◌*◌, ◌≤◌, ◌≡◌, refl, Bool, true, false, ◌==◌, Option, none, some, String, inl, inr, arith,
}
use project_aurora.Hardware.DdpOutput.{
  DdpOutputProbeResult, expected_packet_count, counts_fit, flags_fit, reason_fits, did_something,
  unsafe_activity, healthy_result, degraded_result, complete_result, consistent_result,
}
use project_aurora.Hardware.DdpProbe.{
  SendStatus, sent, deadline, budget, failed, partial, unexpected_status, SocketUseState,
  phase_reason,
}
use project_aurora.Hardware.DdpProbe.Session.{reason_of, socket_result}
use project_aurora.Hardware.DdpProbe.Reasons.{IsTested, IsBlacked}

module _ (closed : Bool) (n planned : ℕ) where
  -- A result with these counts and this reason.
  abbrev made : String → ℕ → ℕ → Bool → Bool → DdpOutputProbeResult
  made reason test_sent blackout_sent tested blacked = record {
    reason_code = reason;
    socket_was_created = true;
    socket_was_closed = closed;
    led_count = some n;
    frame_payload_bytes = n * 3;
    test_packets_planned = planned;
    test_packets_sent = test_sent;
    blackout_packets_planned = planned;
    blackout_packets_sent = blackout_sent;
    test_frame_completed = tested;
    blackout_attempted = true;
    blackout_completed = blacked;
    cleanup_completed = closed;
    broadcast_was_used = false;
    multicast_was_used = false;
    discovery_was_used = false;
    retry_was_used = false;
  }

  flags_made :
      (reason : String) (a b : ℕ) (tested blacked : Bool)
      → (a == planned) ≡ tested
      → (b == planned) ≡ blacked
      → flags_fit (made reason a b tested blacked) ≡ true
  unfolding flags_fit did_something unsafe_activity
  flags_made reason a b tested blacked e f = ground arith

  counts_made :
      (reason : String) (a b : ℕ) (tested blacked : Bool)
      → 1 ≤ n
      → n ≤ 512
      → planned ≡ expected_packet_count (n * 3)
      → a ≤ planned
      → b ≤ planned
      → counts_fit (made reason a b tested blacked) n ≡ true
  unfolding counts_fit
  counts_made reason a b tested blacked low high all few few' = ground arith

  blackout_reason_fits :
      (status : SendStatus) (noted : Option String) (a b : ℕ) (tested : Bool)
      → reason_fits (
          made
            (reason_of (some (phase_reason "blackout" status)) noted closed tested false)
            a
            b
            tested
            false)
        ≡ true
  unfolding reason_fits reason_of phase_reason
  blackout_reason_fits sent noted a b tested = ground arith
  blackout_reason_fits deadline noted a b tested = refl
  blackout_reason_fits budget noted a b tested = ground arith
  blackout_reason_fits failed noted a b tested = refl
  blackout_reason_fits partial noted a b tested = refl
  blackout_reason_fits unexpected_status noted a b tested = ground arith
  blackout_reason_fits SendStatus.interrupted noted a b tested = ground arith

  test_reason_fits :
      (status : SendStatus) (a b : ℕ)
      → reason_fits (
          made
            (reason_of none (some (phase_reason "test_frame" status)) closed false true)
            a
            b
            false
            true)
        ≡ true
  unfolding reason_fits reason_of phase_reason
  test_reason_fits sent a b = refl
  test_reason_fits deadline a b = refl
  test_reason_fits budget a b = refl
  test_reason_fits failed a b = refl
  test_reason_fits partial a b = refl
  test_reason_fits unexpected_status a b = refl
  test_reason_fits SendStatus.interrupted a b = refl

complete_reason_fits :
    (closed : Bool) (n planned a b : ℕ)
    → (a == planned) ≡ true
    → (b == planned) ≡ true
    → reason_fits (made closed n planned (reason_of none none closed true true) a b true true)
      ≡ true
unfolding reason_fits reason_of healthy_result degraded_result complete_result unsafe_activity
complete_reason_fits true n planned a b e f = rw (e, f) refl
complete_reason_fits false n planned a b e f = rw (e, f) refl

socket_result-made :
    (s : SocketUseState) (n planned : ℕ)
    → s.blackout_attempted ≡ true
    → socket_result s n planned
      ≡ made s.socket_closed n planned
          (reason_of s.blackout_reason s.test_reason s.socket_closed
            (s.test_sent == planned)
            (s.blackout_sent == planned))
          s.test_sent
          s.blackout_sent
          (s.test_sent == planned)
          (s.blackout_sent == planned)
unfolding socket_result
socket_result-made s n planned h = simp h refl

-- What a run has noted: each frame whole and no reason, or not whole and a reason of its phase; or an
-- interruption that is deferred.
abbrev pub IsNoted : ℕ → SocketUseState → Type 0
IsNoted planned s = IsTested planned s × IsBlacked 0 planned s × (s.blackout_attempted ≡ true)

made_consistent :
    (closed : Bool) (n planned a b : ℕ) (reason : String)
    → 1 ≤ n
    → n ≤ 512
    → planned ≡ expected_packet_count (n * 3)
    → a ≤ planned
    → b ≤ planned
    → reason_fits (made closed n planned reason a b (a == planned) (b == planned)) ≡ true
    → consistent_result (made closed n planned reason a b (a == planned) (b == planned)) n ≡ true
unfolding consistent_result
made_consistent closed n planned a b reason low high all few few' fits =
    rw
      (
        counts_made closed n planned reason a b (a == planned) (b == planned) low high all few few',
        flags_made closed n planned reason a b (a == planned) (b == planned) refl refl,
        fits,
      )
      refl

noted_reason_fits :
    (s : SocketUseState) (n planned : ℕ)
    → s.deferred_interrupt ≡ false
    → IsNoted planned s
    → (s.test_sent ≤ planned)
      × (s.blackout_sent ≤ planned)
      × (reason_fits (
            made s.socket_closed n planned
              (reason_of s.blackout_reason s.test_reason s.socket_closed
                (s.test_sent == planned)
                (s.blackout_sent == planned))
              s.test_sent
              s.blackout_sent
              (s.test_sent == planned)
              (s.blackout_sent == planned))
          ≡ true)
noted_reason_fits s n planned on (inl d, blacked, attempted) = absurd (cc)
noted_reason_fits s n planned on (tested, inl d, attempted) = absurd (cc)
noted_reason_fits s n planned on (inr (inl (p, f)), inr (inl (q, g)), attempted) =
    let e : (s.test_sent == planned) ≡ true = ground arith in
    let e' : (s.blackout_sent == planned) ≡ true = ground arith in
    (
      omega (arith, p),
      omega (arith, q),
      simp (e, e', f, g)
          (complete_reason_fits s.socket_closed n planned s.test_sent s.blackout_sent e e'),
    )
noted_reason_fits s n planned on (inr (inr (p, (status, f))), inr (inl (q, g)), attempted) =
    let e : (s.test_sent == planned) ≡ false = ground arith in
    let e' : (s.blackout_sent == planned) ≡ true = ground arith in
    (
      omega (arith, p),
      omega (arith, q),
      simp (e, e', f, g)
          (test_reason_fits s.socket_closed n planned status s.test_sent s.blackout_sent),
    )
noted_reason_fits s n planned on (inr tested, inr (inr (q, (status, g))), attempted) =
    let e' : (s.blackout_sent == planned) ≡ false = ground arith in
    (
      elim tested [ inl (p, f) ↦ omega (arith, p) | inr (p, f) ↦ omega (arith, p) ],
      omega (arith, q),
      simp (e', g)
          (blackout_reason_fits s.socket_closed n planned status s.test_reason s.test_sent
            s.blackout_sent (s.test_sent == planned)),
    )

pub socket_result-consistent :
    (s : SocketUseState) (n planned : ℕ)
    → 1 ≤ n
    → n ≤ 512
    → planned ≡ expected_packet_count (n * 3)
    → s.deferred_interrupt ≡ false
    → IsNoted planned s
    → consistent_result (socket_result s n planned) n ≡ true
socket_result-consistent s n planned low high all on noted =
    let (few, few', fits) = noted_reason_fits s n planned on noted in
    rw (socket_result-made s n planned noted.2) (
      made_consistent s.socket_closed n planned s.test_sent s.blackout_sent _ low high all few few'
        fits)
