-- ===== src/Hardware/DdpOutput/Reports.antt =====
-- aurora_core/hardware/ddp_output.py: what a report stands for.
use text.Mathlib.Text.{◌==◌ as str_eq}
use project_aurora.Base.{
  ℕ, ◌*◌, ◌≤◌, ◌≡◌, refl, Bool, true, false, Option, none, some, String, List, [], ◌∷◌,
  if◌then◌else◌, ltb, leb, keep_if, arith, Bool-cases, inl, inr,
}
use project_aurora.Config.{AuroraSettings, LightingZoneSettings}
use project_aurora.Runtime.Models.{ComponentHealthState, healthy, degraded, unhealthy}
use project_aurora.Hardware.DdpOutput.{
  DdpOutputProbeResult, DdpOutputValidationReport, Probed, raised, other_object, returned,
  DdpOutputProbe, ddp_max_leds, ddp_max_data_payload, expected_packet_count, complete_result,
  unsafe_activity, healthy_result, degraded_result, counts_fit, reason_fits, consistent_result,
  report, judge_result, judge, validate_zone, validate_zones, validate_ddp_output, led_count_is,
  host_of, port_of,
}

abbrev pub is_working : ComponentHealthState → Bool
is_working healthy = true
is_working degraded = true
is_working _ = false

-- The whole test frame of `n` LEDs was sent in one or two packets, and the whole blackout,
-- over a socket, with none of the forbidden activities.
pub record IsExchanged (n : ℕ) (r : DdpOutputProbeResult) : Type 0 where
  pub led_count_known : led_count_is r.led_count n ≡ true
  pub leds_positive : 1 ≤ n
  pub leds_bounded : n ≤ ddp_max_leds
  pub test_sent : r.test_packets_sent ≡ expected_packet_count (n * 3)
  pub blackout_sent : r.blackout_packets_sent ≡ expected_packet_count (n * 3)
  pub payload_sent : n * 3 ≤ ddp_max_data_payload * r.test_packets_sent
  pub packets_bounded : r.test_packets_sent ≤ 2
  pub blackout_done : r.blackout_completed ≡ true
  pub socket_created : r.socket_was_created ≡ true
  pub activity_safe : unsafe_activity r ≡ false

counts_facts :
    (r : DdpOutputProbeResult) (n : ℕ)
    → counts_fit r n ≡ true
    → complete_result r ≡ true
    → unsafe_activity r ≡ false
    → IsExchanged n r
unfolding counts_fit complete_result
counts_facts r n c h u =
    let sent : r.test_packets_sent ≡ expected_packet_count (n * 3) = ground arith in
    let bounded : n ≤ 512 = ground arith in
    record {
      led_count_known = ground arith;
      leds_positive = ground arith;
      leds_bounded = bounded;
      test_sent = sent;
      blackout_sent = ground arith;
      payload_sent = omega (arith, sent);
      packets_bounded = omega (arith, sent, bounded);
      blackout_done = ground arith;
      socket_created = ground arith;
      activity_safe = u;
    }

healthy_facts :
    (r : DdpOutputProbeResult)
    → healthy_result r ≡ true
    → (complete_result r ≡ true)
      × (unsafe_activity r ≡ false)
      × (r.socket_was_closed ≡ true)
      × (degraded_result r ≡ false)
unfolding healthy_result degraded_result
healthy_facts r h = (ground arith, ground arith, ground arith, ground arith)

degraded_facts :
    (r : DdpOutputProbeResult)
    → degraded_result r ≡ true
    → (complete_result r ≡ true) × (unsafe_activity r ≡ false) × (r.socket_was_closed ≡ false)
unfolding degraded_result
degraded_facts r h = (ground arith, ground arith, ground arith)

consistent_facts :
    (r : DdpOutputProbeResult) (n : ℕ)
    → consistent_result r n ≡ true
    → (counts_fit r n ≡ true) × (reason_fits r ≡ true)
unfolding consistent_result
consistent_facts r n h = (ground arith, ground arith)

abbrev pub is_healthy : ComponentHealthState → Bool
is_healthy healthy = true
is_healthy _ = false

-- A report that claims an exchange with `n` LEDs backs it; it is HEALTHY only with the socket
-- closed.
abbrev pub Backed : ℕ → DdpOutputValidationReport → Type 0
Backed n d = IsExchanged n d.result × (d.result.socket_was_closed ≡ is_healthy d.state)

abbrev pub IsBacked : DdpOutputValidationReport → Type 0
IsBacked d = (n : ℕ) × Backed n d

pub judge_result-Backed :
    (n : ℕ) (r : DdpOutputProbeResult)
    → is_working (judge_result n r).state ≡ true
    → Backed n (judge_result n r)
unfolding judge_result report
judge_result-Backed n r = elim (Bool-cases (consistent_result r n)) [
  | inr bad ↦ rw bad (λ h. absurd (cc))
  | inl good ↦ elim (Bool-cases (healthy_result r)) [
    | inl well ↦
        let (complete, safe, closed, other) = healthy_facts r well in
        rw (good, well)
          (λ h. (counts_facts r n (consistent_facts r n good).0 complete safe, closed))
    | inr ill ↦ elim (Bool-cases (degraded_result r)) [
      | inl left_open ↦
          let (complete, safe, closed) = degraded_facts r left_open in
          rw (good, ill, left_open)
            (λ h. (counts_facts r n (consistent_facts r n good).0 complete safe, closed))
      | inr neither ↦ rw (good, ill, neither) (λ h. absurd (cc))
    ]
  ]
]

judge-Backed : (n : ℕ) (p : Probed) → is_working (judge n p).state ≡ true → Backed n (judge n p)
unfolding judge report
judge-Backed n raised h = judge_result-Backed n _ h
judge-Backed n other_object h = absurd (cc)
judge-Backed n (returned r) h = judge_result-Backed n r h

validate_zone-IsBacked :
    (s : AuroraSettings) (probe : DdpOutputProbe) (leds : Option ℕ)
    → is_working (validate_zone s probe leds).state ≡ true
    → IsBacked (validate_zone s probe leds)
unfolding validate_zone report
validate_zone-IsBacked s probe none = λ h. absurd (cc)
validate_zone-IsBacked s probe (some n) = elim (Bool-cases (leb n 0)) [
  | inl no_leds ↦ rw no_leds (λ h. absurd (cc))
  | inr leds ↦ elim (Bool-cases (ltb ddp_max_leds n)) [
    | inl many ↦ rw (leds, many) (λ h. absurd (cc))
    | inr few ↦ rw (leds, few) (λ h. (n, judge-Backed n _ h))
  ]
]

validate_zones-IsBacked :
    (s : AuroraSettings) (probe : DdpOutputProbe) (zones : List LightingZoneSettings)
    → is_working (validate_zones s probe zones).state ≡ true
    → IsBacked (validate_zones s probe zones)
unfolding validate_zones report
validate_zones-IsBacked s probe [] h = absurd (cc)
validate_zones-IsBacked s probe (z ∷ []) h = validate_zone-IsBacked s probe z.led_count h
validate_zones-IsBacked s probe (z ∷ y ∷ zones) h = absurd (cc)

-- Whatever the probe does: a report that is HEALTHY or DEGRADED stands for an exchange in which
-- the whole test frame, for 1 to 512 LEDs, was sent in at most two packets that hold all its
-- bytes, and the whole blackout was sent, with no broadcast, multicast, discovery or retry; the
-- socket was closed exactly if the report is HEALTHY.
pub validate_ddp_output-IsBacked :
    (s : AuroraSettings) (probe : DdpOutputProbe)
    → is_working (validate_ddp_output s probe).state ≡ true
    → IsBacked (validate_ddp_output s probe)
unfolding validate_ddp_output report
validate_ddp_output-IsBacked s probe = elim (Bool-cases s.ddp.enabled) [
  | inr off ↦ simp off (λ h. absurd (cc))
  | inl on ↦ simp on (validate_zones-IsBacked s probe _)
]

-- The state that a consistent result's reason stands for.
abbrev pub state_of : String → ComponentHealthState
state_of reason =
    if str_eq reason "validated"
    then healthy
    else if str_eq reason "ddp_output_cleanup_unconfirmed"
    then degraded
    else unhealthy

healthy_result-validated :
    (r : DdpOutputProbeResult)
    → reason_fits r ≡ true
    → healthy_result r ≡ str_eq r.reason_code "validated"
unfolding reason_fits healthy_result
healthy_result-validated r h = elim (Bool-cases (str_eq r.reason_code "validated")) [
  | inl e ↦ ground arith
  | inr e ↦ ground arith
]

degraded_result-unconfirmed :
    (r : DdpOutputProbeResult)
    → reason_fits r ≡ true
    → str_eq r.reason_code "validated" ≡ false
    → degraded_result r ≡ str_eq r.reason_code "ddp_output_cleanup_unconfirmed"
unfolding reason_fits degraded_result
degraded_result-unconfirmed r h n =
    elim (Bool-cases (str_eq r.reason_code "ddp_output_cleanup_unconfirmed")) [
      | inl e ↦ ground arith
      | inr e ↦ ground arith
    ]

judge_result-state_of :
    (n : ℕ) (r : DdpOutputProbeResult)
    → consistent_result r n ≡ true
    → judge_result n r ≡ report r (state_of r.reason_code) r.reason_code
unfolding judge_result
judge_result-state_of n r good =
    let fits = (consistent_facts r n good).1 in
    let well = healthy_result-validated r fits in
    elim (Bool-cases (str_eq r.reason_code "validated")) [
      | inl e ↦ rw (good, well, e) refl
      | inr e ↦
          let open_ended = degraded_result-unconfirmed r fits e in
          elim (Bool-cases (str_eq r.reason_code "ddp_output_cleanup_unconfirmed")) [
            | inl d ↦ rw (good, well, e, open_ended, d) refl
            | inr d ↦ rw (good, well, e, open_ended, d) refl
          ]
    ]

consistent_leds :
    (r : DdpOutputProbeResult) (n : ℕ)
    → consistent_result r n ≡ true
    → (leb n 0 ≡ false) × (ltb ddp_max_leds n ≡ false)
unfolding consistent_result counts_fit
consistent_leds r n h =
    let low : 1 ≤ n = ground arith in
    let high : n ≤ 512 = ground arith in (ground arith, ground arith)

validate_zone-state_of :
    (s : AuroraSettings) (probe : DdpOutputProbe) (n : ℕ) (r : DdpOutputProbeResult)
    → probe (host_of s.ddp.host) (port_of s.ddp.port) n ≡ returned r
    → consistent_result r n ≡ true
    → validate_zone s probe (some n) ≡ report r (state_of r.reason_code) r.reason_code
unfolding validate_zone judge
validate_zone-state_of s probe n r answer good =
    let (low, high) = consistent_leds r n good in
    rw (low, high, answer, judge_result-state_of n r good) refl

-- When DDP is enabled with one enabled zone, and the probe of the configured host and port, or of
-- port 4048, returns a result that is consistent for the zone's LEDs, it is reported with its own
-- reason: HEALTHY when it is "validated", DEGRADED when only the cleanup is unconfirmed, and
-- UNHEALTHY else.
pub validate_ddp_output-state_of :
    (s : AuroraSettings) (probe : DdpOutputProbe) (z : LightingZoneSettings) (n : ℕ)
    (r : DdpOutputProbeResult)
    → s.ddp.enabled ≡ true
    → keep_if (λ x. x.enabled) s.lighting_zones ≡ z ∷ []
    → z.led_count ≡ some n
    → probe (host_of s.ddp.host) (port_of s.ddp.port) n ≡ returned r
    → consistent_result r n ≡ true
    → validate_ddp_output s probe ≡ report r (state_of r.reason_code) r.reason_code
unfolding validate_ddp_output validate_zones
validate_ddp_output-state_of s probe z n r on one leds answer good =
    simp (on, one, leds) (validate_zone-state_of s probe n r answer good)
