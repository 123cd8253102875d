-- ===== src/Hardware/DdpProbe/Frames.antt =====
-- aurora_core/hardware/ddp_output_probe.py: the start of a run for 1 to 512 LEDs, whose two frames are
-- planned.
use project_aurora.Base.{
  ℕ, ◌*◌, ◌≤◌, ◌≡◌, refl, sym, ap, ◌∙◌, true, ◌&&◌, ◌==◌, String, List, [], ◌∷◌, length, arith, leb,
}
use project_aurora.Hardware.DdpOutput.{expected_packet_count}
use project_aurora.Hardware.DdpPackets.{Bytes}
use project_aurora.Hardware.DdpPackets.Plan.{frame}
use project_aurora.Hardware.DdpProbe.{Network}
use project_aurora.Hardware.DdpProbe.Probe.{probe, planned, clocked, repeat_rgb}
use project_aurora.Hardware.DdpProbe.Exact.{length-repeat_rgb, frame_of}

-- The run reads the clock, with as many packets planned for either frame as the service expects.
abbrev pub IsStarted : Network → String → ℕ → ℕ → Type 0
IsStarted net host port n =
    (t : List Bytes) × (b : List Bytes) × (length t ≡ expected_packet_count (n * 3))
    × (length b ≡ length t)
    × (probe net host port n ≡ clocked net n t b host port (net.monotonic 0))

pub probe-IsStarted :
    (net : Network) (host : String) (port n : ℕ) → 1 ≤ n → n ≤ 512 → IsStarted net host port n
unfolding probe planned
probe-IsStarted net host port n low high =
    let t = frame 1 (repeat_rgb (0 ∷ 0 ∷ 16 ∷ []) n) in
    let b = frame 2 (repeat_rgb (0 ∷ 0 ∷ 0 ∷ []) n) in
    let tested = frame_of 0 0 16 n 1 refl low high in
    let blacked = frame_of 0 0 0 n 2 refl low high in
    let as_many : length t ≡ expected_packet_count (n * 3) =
      tested.1.0 ∙ ap expected_packet_count (length-repeat_rgb 0 0 16 n) in
    let same_length : length b ≡ length t =
      blacked.1.0 ∙ ap expected_packet_count (length-repeat_rgb 0 0 0 n) ∙ sym as_many in
    let fits : (leb 1 n && leb n 512) ≡ true = ground arith in
    let whole : length (repeat_rgb (0 ∷ 0 ∷ 16 ∷ []) n) ≡ n * 3 = length-repeat_rgb 0 0 16 n in
    let whole' : length (repeat_rgb (0 ∷ 0 ∷ 0 ∷ []) n) ≡ n * 3 = length-repeat_rgb 0 0 0 n in
    let same_size : (n * 3 == n * 3) ≡ true = ground arith in
    let same_count : (length t == length t) ≡ true = ground arith in
    (
      t,
      b,
      as_many,
      same_length,
      rw (fits, tested.0, blacked.0, whole, whole', same_length, same_size, same_count) refl,
    )
