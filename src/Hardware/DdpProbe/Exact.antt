-- ===== src/Hardware/DdpProbe/Exact.antt =====
-- aurora_core/hardware/ddp_output_probe.py and ddp_output.py: what a report that claims an exchange
-- says of the datagrams.
use mathlib.Core.List.{append-nil}
use mathlib.Core.Path.{ap₂}
use mathlib.Core.List.Sublistᴰ.{slnil, cons, cons-cons}
use project_aurora.Base.{
  ℕ, zero, suc, ◌*◌, ◌≤◌, ◌≡◌, refl, sym, ap, subst, ◌∙◌, true, ◌||◌, ◌==◌, Bool-cases, List, [],
  ◌∷◌, ◌++◌, length, length-append, inl, inr, arith, String,
}
use project_aurora.Base.Checked.{ok}
use project_aurora.Hardware.DdpOutput.{
  DdpOutputProbeResult, expected_packet_count, judge_result, report, consistent_result,
  healthy_result, degraded_result,
}
use project_aurora.Hardware.DdpOutput.Reports.{is_working, IsExchanged, judge_result-Backed}
use project_aurora.Hardware.DdpPackets.{Bytes, build_ddp_packets}
use project_aurora.Hardware.DdpPackets.Plan.{frame, build_ddp_packets-frame}
use project_aurora.Hardware.DdpPackets.RoundTrip.{IsFrame, build_ddp_packets-IsFrame}
use project_aurora.Hardware.DdpProbe.{Network, SocketUseState}
use project_aurora.Hardware.DdpProbe.Traffic.{IsPrefix}
use project_aurora.Hardware.DdpProbe.Blackout.{IsSublist}
use project_aurora.Hardware.DdpProbe.Runs.{probe-OfFrames}
use project_aurora.Hardware.DdpProbe.Session.{Ended, finished, keyboard_interrupt, socket_result}
use project_aurora.Hardware.DdpProbe.Probe.{probe, repeat_rgb, ddp_test_rgb, ddp_blackout_rgb}

prefix_all : (xs t : List Bytes) → IsPrefix xs t → length t ≤ length xs → xs ≡ t
prefix_all xs t ([], e) h = sym (append-nil xs) ∙ e
prefix_all xs t (y ∷ rest, e) h =
    let n = ap (λ zs. length zs) e in absurd (omega (arith, h, n, length-append xs (y ∷ rest)))

length-Sublist : (ys b : List Bytes) → IsSublist ys b → length ys ≤ length b
length-Sublist [] [] slnil = omega arith
length-Sublist (y ∷ ys) [] part = elim part [ ]
length-Sublist ys (x ∷ b) (cons part) = omega (arith, length-Sublist ys b part)
length-Sublist (y ∷ ys) (x ∷ b) (cons-cons e part) = omega (arith, length-Sublist ys b part)

sublist_all : (ys b : List Bytes) → IsSublist ys b → length b ≤ length ys → ys ≡ b
sublist_all [] [] slnil h = refl
sublist_all (y ∷ ys) [] part h = elim part [ ]
sublist_all ys (x ∷ b) (cons part) h = absurd (omega (arith, h, length-Sublist ys b part))
sublist_all (y ∷ ys) (x ∷ b) (cons-cons e part) h =
    ap₂ (λ z zs. z ∷ zs) e (sublist_all ys b part (omega (arith, h)))

pub length-repeat_rgb : (a b c n : ℕ) → length (repeat_rgb (a ∷ b ∷ c ∷ []) n) ≡ n * 3
unfolding repeat_rgb
length-repeat_rgb a b c zero = refl
length-repeat_rgb a b c (suc n) = omega (arith, length-repeat_rgb a b c n)

-- The two frames, and all their packets in order.
abbrev pub IsExact : ℕ → SocketUseState → Type 0
IsExact n s =
    (t : List Bytes) × (b : List Bytes) × IsFrame (repeat_rgb ddp_test_rgb n) (ok t)
    × IsFrame (repeat_rgb ddp_blackout_rgb n) (ok b)
    × (s.sends ≡ t ++ b)

-- The frame that is built for `n` LEDs of one colour.
pub frame_of :
    (a b c n sequence : ℕ)
    → (sequence == 1 || sequence == 2) ≡ true
    → 1 ≤ n
    → n ≤ 512
    → let payload = repeat_rgb (a ∷ b ∷ c ∷ []) n in
      (build_ddp_packets payload sequence ≡ ok (frame sequence payload))
      × IsFrame payload (ok (frame sequence payload))
frame_of a b c n sequence known low high =
    let payload = repeat_rgb (a ∷ b ∷ c ∷ []) n in
    let size = length-repeat_rgb a b c n in
    let built =
      build_ddp_packets-frame sequence payload known (omega (arith, size, low))
        (omega (arith, size, high)) in
    (
      built,
      subst (IsFrame payload) built (
          build_ddp_packets-IsFrame payload sequence known (omega (arith, size, low))
            (omega (arith, size, high))),
    )

built-IsFrame :
    (a b c n sequence : ℕ) (packets : List Bytes)
    → (sequence == 1 || sequence == 2) ≡ true
    → 1 ≤ n
    → n ≤ 512
    → build_ddp_packets (repeat_rgb (a ∷ b ∷ c ∷ []) n) sequence ≡ ok packets
    → IsFrame (repeat_rgb (a ∷ b ∷ c ∷ []) n) (ok packets)
built-IsFrame a b c n sequence packets known low high e =
    let (built, fits) = frame_of a b c n sequence known low high in
    subst (IsFrame (repeat_rgb (a ∷ b ∷ c ∷ []) n)) (sym built ∙ e) fits

judge_result_keeps : (n : ℕ) (r : DdpOutputProbeResult) → (judge_result n r).result ≡ r
unfolding judge_result report
judge_result_keeps n r = elim (Bool-cases (consistent_result r n)) [
  | inr bad ↦ rw bad refl
  | inl good ↦ elim (Bool-cases (healthy_result r)) [
    | inl well ↦ rw (good, well) refl
    | inr ill ↦ elim (Bool-cases (degraded_result r)) [
      | inl open_left ↦ rw (good, ill, open_left) refl
      | inr neither ↦ rw (good, ill, neither) refl
    ]
  ]
]

abbrev pub result_or : DdpOutputProbeResult → Ended → DdpOutputProbeResult
result_or r keyboard_interrupt = r
result_or r (finished q) = q

counts-exchanged :
    (n : ℕ) (r : DdpOutputProbeResult) (s : SocketUseState) (t : List Bytes)
    → r ≡ socket_result s n (length t)
    → IsExchanged n r
    → IsFrame (repeat_rgb ddp_test_rgb n) (ok t)
    → (s.test_sent ≡ length t) × (s.blackout_sent ≡ length t)
unfolding socket_result
counts-exchanged n r s t e x (count, plan, same) =
    let as_many : length t ≡ expected_packet_count (n * 3) =
      count ∙ ap expected_packet_count (length-repeat_rgb 0 0 16 n) in
    (
      sym (ap (λ q. q.test_packets_sent) e) ∙ x.test_sent ∙ sym as_many,
      sym (ap (λ q. q.blackout_packets_sent) e) ∙ x.blackout_sent ∙ sym as_many,
    )

-- Whatever the network and the control hook do: if the service reports the result of a run as
-- HEALTHY or DEGRADED, the datagrams of the run are all packets of a test frame of `n` LEDs,
-- then all packets of a blackout frame, each frame in order and with nothing else between.
pub probe-IsExact :
    (net : Network) (host : String) (port n : ℕ) (r : DdpOutputProbeResult)
    → (probe net host port n).1 ≡ finished r
    → is_working (judge_result n r).state ≡ true
    → IsExact n (probe net host port n).0
probe-IsExact net host port n r ended works = elim (probe-OfFrames net host port n) [
  | inl (e, f, inl k) ↦ absurd (cc)
  | inl (e, f, inr (q, k, unmade)) ↦
      let x = subst (IsExchanged n) (judge_result_keeps n r) (judge_result-Backed n r works).0 in
      let same_result : q ≡ r = ap (result_or r) (sym k ∙ ended) in
      let made : q.socket_was_created ≡ true = rw same_result x.socket_created in absurd (cc)
  | inr (t, b, low, high, e, e', (moved, inl k)) ↦ absurd (cc)
  | inr (t, b, low, high, e, e', ((xs, ys, first, part, moved), inr k)) ↦
      let s = (probe net host port n).0 in
      let x = subst (IsExchanged n) (judge_result_keeps n r) (judge_result-Backed n r works).0 in
      let (sent, count, few, tests, blackouts) = moved in
      let tested = built-IsFrame 0 0 16 n 1 t refl low high e in
      let blacked = built-IsFrame 0 0 0 n 2 b refl low high e' in
      let (all_tests, all_blackouts) =
        counts-exchanged n r s t (ap (result_or r) (sym ended ∙ k)) x tested in
      let as_many : length b ≡ length t =
        blacked.0
        ∙ ap expected_packet_count (length-repeat_rgb 0 0 0 n ∙ sym (length-repeat_rgb 0 0 16 n))
        ∙ sym tested.0 in
      (
        t,
        b,
        tested,
        blacked,
        sent
            ∙ ap₂ (λ us vs. us ++ vs) (prefix_all xs t first (omega (arith, all_tests, tests)))
                (sublist_all ys b part (omega (arith, all_blackouts, blackouts, as_many))),
      )
]
