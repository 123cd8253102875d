-- ===== src/Hardware/DdpProbe/Runs.antt =====
-- aurora_core/hardware/ddp_output_probe.py: the datagrams of a run, and what its result says of
-- them.
use project_aurora.Base.{
  ℕ, ◌*◌, ◌≤◌, ◌≡◌, refl, ap, not, ◌&&◌, ◌||◌, String, List, [], ◌++◌, leb, ◌==◌, length, ◌⊎◌, inl,
  inr, arith, Bool-cases,
}
use project_aurora.Base.Checked.{Checked, ok, value_error}
use project_aurora.Hardware.DdpOutput.{ddp_max_leds, empty_result}
use project_aurora.Hardware.DdpPackets.{Bytes}
use project_aurora.Hardware.DdpDestination.{AddressInfo, ResolvedDestination}
use project_aurora.Hardware.DdpProbe.{
  Outcome, returned, interrupted, os_error, other_error, Done, Network, SocketUseState, fresh_state,
  called,
}
use project_aurora.Hardware.DdpProbe.Traffic.{IsPrefix}
use project_aurora.Hardware.DdpProbe.Blackout.{IsSublist}
use project_aurora.Hardware.DdpProbe.Exchange.{
  use_and_blackout-SessionTraffic, Untouched, Session, closed-Session,
}
use project_aurora.Hardware.DdpProbe.Session.{pre_socket_result, use_and_blackout}
use project_aurora.Hardware.DdpProbe.Probe.{
  Run, test_frame, blackout_frame, close, opened, chosen, resolved, clocked, planned, probe,
  repeat_rgb, ddp_test_rgb, ddp_blackout_rgb,
}

abbrev pub IsPlanned : ℕ → List Bytes → List Bytes → Run → Type 0
IsPlanned n test_packets blackout_packets run =
    Untouched run ⊎ Session n test_packets blackout_packets run

module _ (net : Network) (n : ℕ) (test_packets blackout_packets : List Bytes) where
  opened-IsPlanned :
      (limit : ℕ) (d : ResolvedDestination) (o : Done)
      → IsPlanned n test_packets blackout_packets
          (opened net n test_packets blackout_packets limit d o)
  unfolding opened close pre_socket_result empty_result
  opened-IsPlanned limit d (returned x) =
      let s = use_and_blackout net d.address limit test_packets blackout_packets (fresh_state 3) in
      inr (
        closed-Session n test_packets blackout_packets (called s) (net.close_socket s.calls) (
          use_and_blackout-SessionTraffic net d.address limit test_packets blackout_packets
            (fresh_state 3) (omega arith)))
  opened-IsPlanned limit d interrupted = inl (refl, refl, inl refl)
  opened-IsPlanned limit d os_error = inl (refl, refl, inr (_, refl, refl))
  opened-IsPlanned limit d other_error = inl (refl, refl, inr (_, refl, refl))

  chosen-IsPlanned :
      (limit : ℕ) (c : ResolvedDestination ⊎ String)
      → IsPlanned n test_packets blackout_packets
          (chosen net n test_packets blackout_packets limit c)
  unfolding chosen pre_socket_result empty_result
  chosen-IsPlanned limit (inl d) = opened-IsPlanned limit d (net.open_socket 2 d.family)
  chosen-IsPlanned limit (inr reason) = inl (refl, refl, inr (_, refl, refl))

  resolved-IsPlanned :
      (limit port : ℕ) (o : Outcome (List AddressInfo))
      → IsPlanned n test_packets blackout_packets
          (resolved net n test_packets blackout_packets limit port o)
  unfolding resolved pre_socket_result empty_result
  resolved-IsPlanned limit port (returned infos) = chosen-IsPlanned limit _
  resolved-IsPlanned limit port interrupted = inl (refl, refl, inl refl)
  resolved-IsPlanned limit port os_error = inl (refl, refl, inr (_, refl, refl))
  resolved-IsPlanned limit port other_error = inl (refl, refl, inr (_, refl, refl))

  clocked-IsPlanned :
      (host : String) (port : ℕ) (o : Outcome ℕ)
      → IsPlanned n test_packets blackout_packets
          (clocked net n test_packets blackout_packets host port o)
  unfolding clocked empty_result
  clocked-IsPlanned host port (returned now) = resolved-IsPlanned _ port _
  clocked-IsPlanned host port interrupted = inl (refl, refl, inl refl)
  clocked-IsPlanned host port os_error = inl (refl, refl, inr (_, refl, refl))
  clocked-IsPlanned host port other_error = inl (refl, refl, inr (_, refl, refl))

-- A run that opened a socket for the two frames of `n` LEDs.
abbrev pub OfFrames : ℕ → Run → Type 0
OfFrames n run =
    (test_packets : List Bytes) × (blackout_packets : List Bytes) × (1 ≤ n)
    × (n ≤ ddp_max_leds)
    × (test_frame n ≡ ok test_packets)
    × (blackout_frame n ≡ ok blackout_packets)
    × Session n test_packets blackout_packets run

planned-OfFrames :
    (net : Network) (host : String) (port n : ℕ) (test blackout : Checked (List Bytes))
    → 1 ≤ n
    → n ≤ 512
    → test_frame n ≡ test
    → blackout_frame n ≡ blackout
    → Untouched (planned net host port n test blackout)
      ⊎ OfFrames n (planned net host port n test blackout)
unfolding planned empty_result
planned-OfFrames net host port n (ok t) (ok b) low high e e' =
    elim (Bool-cases (
      not (length (repeat_rgb ddp_test_rgb n) == n * 3)
      || not (length (repeat_rgb ddp_test_rgb n) == length (repeat_rgb ddp_blackout_rgb n))
      || not (length t == length b))) [
        | inl odd ↦ rw odd (inl (refl, refl, inr (_, refl, refl)))
        | inr even ↦ rw even (elim (clocked-IsPlanned net n t b host port (net.monotonic 0)) [
          | inl u ↦ inl u
          | inr session ↦ inr (t, b, low, high, e, e', session)
        ])
      ]
planned-OfFrames net host port n (ok t) (value_error m) low high e e' =
    inl (refl, refl, inr (_, refl, refl))
planned-OfFrames net host port n (value_error m) b low high e e' =
    inl (refl, refl, inr (_, refl, refl))

pub probe-OfFrames :
    (net : Network) (host : String) (port n : ℕ)
    → Untouched (probe net host port n) ⊎ OfFrames n (probe net host port n)
unfolding probe empty_result
probe-OfFrames net host port n = elim (Bool-cases (leb 1 n && leb n 512)) [
  | inl fits ↦
      let low : 1 ≤ n = ground arith in
      let high : n ≤ 512 = ground arith in
      rw fits (planned-OfFrames net host port n _ _ low high refl refl)
  | inr odd ↦ rw odd (inl (refl, refl, inr (_, refl, refl)))
]

-- What the run of a probe sent: first packets of the test frame, in order and from the first on,
-- then packets of the blackout frame, in order; no more than four attempts.
abbrev pub IsBounded : ℕ → SocketUseState → Type 0
IsBounded n s =
    (length s.sends ≤ 4)
    × (s.attempts ≡ length s.sends)
    × ((s.sends ≡ [])
        ⊎ ((t : List Bytes) × (b : List Bytes) × (xs : List Bytes) × (ys : List Bytes) × (test_frame
                n
              ≡ ok t)
            × (blackout_frame n ≡ ok b)
            × IsPrefix xs t
            × IsSublist ys b
            × (s.sends ≡ xs ++ ys)))

-- Whatever the network and the control hook do, also when they raise or interrupt: a run makes at
-- most four attempts to send, one for each datagram, and the datagrams are the first packets of
-- the test frame, in their order, followed by packets of the blackout frame, in their order.
pub probe-IsBounded :
    (net : Network) (host : String) (port n : ℕ) → IsBounded n (probe net host port n).0
probe-IsBounded net host port n = elim (probe-OfFrames net host port n) [
  | inl (e, f, rest) ↦ rw (e, f) (omega arith, refl, inl refl)
  | inr (t, b, low, high, e, e', ((xs, ys, first, part, moved), ended)) ↦
      let (sent, count, few, tests, blackouts) = moved in
      let as_many = ap (λ zs. length zs) sent in
      (
        omega (arith, count, few, as_many),
        omega (arith, count, as_many),
        inr (t, b, xs, ys, e, e', first, part, sent),
      )
]
