-- ===== src/Hardware/DdpPackets/Plan.antt =====
-- aurora_core/hardware/ddp_output_probe.py: the packets of a frame, and that they pass the checks.
use project_aurora.Base.{
  ℕ, suc, ◌+◌, ◌*◌, ◌/◌, ◌%◌, ◌^◌, ◌≤◌, ◌<◌, ◌≡◌, inl, inr, refl, ap, subst, true, false, Bool,
  ◌&&◌, ◌||◌, some, List, [], ◌∷◌, ◌++◌, arith, ltb, leb, leb→le, leb→lt, ◌==◌, length, take, drop,
  Bool-cases, append-take-drop, length-take, length-drop, take_all, drop_all, if◌then◌else◌,
}
use project_aurora.Base.Checked.{ok}
use project_aurora.Hardware.DdpPackets.{
  Bytes, Header, pack_header, split_packet, chunks_from, is_last, header_of, packets_from,
  same_bytes, header_fits, packet_fits, rebuild, packet_plan_is_valid, build_ddp_packets,
}

-- Packing loses nothing of a header in range.
pub split_packet-pack_header :
    (h : Header) (chunk : Bytes)
    → h.offset < 2 ^ 32
    → h.size < 2 ^ 16
    → split_packet (pack_header h ++ chunk) ≡ some (h, chunk)
unfolding split_packet pack_header
split_packet-pack_header h chunk low small =
    let o : ((h.offset / 16777216 * 256 + h.offset / 65536 % 256) * 256 + h.offset / 256 % 256)
            * 256
          + h.offset % 256
        ≡ h.offset =
      omega arith in
    let n : h.size / 256 * 256 + h.size % 256 ≡ h.size = omega arith in rw (o, n) refl

pub length-pack_header : (h : Header) → length (pack_header h) ≡ 10
unfolding pack_header
length-pack_header h = refl

packet_fits-packet :
    (sequence index : ℕ) (chunk rebuilt : Bytes) (last : Bool)
    → index ≤ 1
    → index * 1400 ≡ length rebuilt
    → length chunk ≤ 1400
    → packet_fits
        (split_packet (pack_header (header_of sequence index chunk last) ++ chunk))
        sequence
        last
        rebuilt
      ≡ some (rebuilt ++ chunk)
unfolding packet_fits
packet_fits-packet sequence index chunk rebuilt last few at small =
    let h = header_of sequence index chunk last in
    let fits : header_fits h chunk sequence last rebuilt ≡ true =
      unfold header_fits in (ground arith) in
    rw (split_packet-pack_header h chunk (omega arith) (omega arith), fits) refl

same_bytes_refl : (b : Bytes) → same_bytes b b ≡ true
unfolding same_bytes
same_bytes_refl [] = refl
same_bytes_refl (x ∷ xs) = ground (arith, same_bytes_refl xs)

chunks_from-nil : (fuel : ℕ) → chunks_from fuel [] ≡ []
unfolding chunks_from
chunks_from-nil fuel = refl

-- A short payload is one chunk, and a payload of at most two chunks is two.
chunks_from_one :
    (fuel : ℕ) (payload : Bytes)
    → 0 < length payload
    → length payload ≤ 1400
    → chunks_from (suc fuel) payload ≡ payload ∷ []
unfolding chunks_from
chunks_from_one fuel [] low high = absurd (omega arith)
chunks_from_one fuel (b ∷ payload) low high =
    rw (take_all 1400 (b ∷ payload) high, drop_all 1400 (b ∷ payload) high) refl

chunks_from_two :
    (fuel : ℕ) (payload : Bytes)
    → 1400 < length payload
    → length payload ≤ 2800
    → chunks_from (suc (suc fuel)) payload ≡ take 1400 payload ∷ drop 1400 payload ∷ []
unfolding chunks_from
chunks_from_two fuel [] low high = absurd (omega arith)
chunks_from_two fuel (b ∷ payload) low high =
    ap (λ rest. take 1400 (b ∷ payload) ∷ rest)
      (chunks_from_one fuel (drop 1400 (b ∷ payload))
        (omega (arith, length-drop 1400 (b ∷ payload)))
        (omega (arith, length-drop 1400 (b ∷ payload))))

-- The frame of a payload: one packet or two, the last one pushed.
abbrev pub frame_packet : ℕ → ℕ → Bytes → Bool → Bytes
frame_packet sequence index chunk last = pack_header (header_of sequence index chunk last) ++ chunk

unfoldable pub frame : ℕ → Bytes → List Bytes
frame sequence payload =
    if leb (length payload) 1400
    then frame_packet sequence 0 payload true ∷ []
    else frame_packet sequence 0 (take 1400 payload) false
      ∷ frame_packet sequence 1 (drop 1400 payload) true
      ∷ []

-- A plan of one packet, and one of two, is valid.
plan_one :
    (sequence : ℕ) (payload : Bytes)
    → length payload ≤ 1400
    → packet_plan_is_valid (frame_packet sequence 0 payload true ∷ []) payload sequence ≡ true
unfolding packet_plan_is_valid rebuild is_last
plan_one sequence payload high =
    rw
      (
        packet_fits-packet sequence 0 payload [] true (omega arith) refl high,
        same_bytes_refl payload,
      )
      refl

plan_two :
    (sequence : ℕ) (a b : Bytes)
    → length a ≡ 1400
    → length b ≤ 1400
    → packet_plan_is_valid
        (frame_packet sequence 0 a false ∷ frame_packet sequence 1 b true ∷ [])
        (a ++ b)
        sequence
      ≡ true
unfolding packet_plan_is_valid rebuild is_last
plan_two sequence a b full small =
    rw
      (
        packet_fits-packet sequence 0 a [] false (omega arith) refl (omega arith),
        packet_fits-packet sequence 1 b a true (omega arith) (omega arith) small,
        same_bytes_refl (a ++ b),
      )
      refl

build_plan :
    (sequence : ℕ) (payload : Bytes) (chunks packets : List Bytes)
    → (sequence == 1 || sequence == 2) ≡ true
    → 0 < length payload
    → length payload ≤ 1536
    → chunks_from (length payload) payload ≡ chunks
    → packets_from sequence 0 chunks ≡ packets
    → leb 1 (length chunks) && leb (length chunks) 2 ≡ true
    → packet_plan_is_valid packets payload sequence ≡ true
    → build_ddp_packets payload sequence ≡ ok packets
unfolding build_ddp_packets
build_plan sequence payload chunks packets known low high cut packed few valid =
    let bounded : leb (length payload) 0 || ltb 1536 (length payload) ≡ false = ground arith in
    rw (cut, packed, known, bounded, few, valid) refl

-- On a payload within the bound, and a known sequence, the frame is built.
pub build_ddp_packets-frame :
    (sequence : ℕ) (payload : Bytes)
    → (sequence == 1 || sequence == 2) ≡ true
    → 0 < length payload
    → length payload ≤ 1536
    → build_ddp_packets payload sequence ≡ ok (frame sequence payload)
unfolding frame packets_from is_last
build_ddp_packets-frame sequence [] known low high = absurd (omega arith)
build_ddp_packets-frame sequence (b ∷ payload) known low high =
    elim (Bool-cases (leb (length (b ∷ payload)) 1400)) [
      | inl short ↦ rw short (
          build_plan sequence (b ∷ payload) _ _ known low high
            (chunks_from_one (length payload) (b ∷ payload) low (leb→le _ _ short)) refl refl
            (plan_one sequence (b ∷ payload) (leb→le _ _ short)))
      | inr long ↦ rw long (two payload high (leb→lt _ _ long))
    ]
  where
    two :
        (rest : Bytes)
        → length (b ∷ rest) ≤ 1536
        → 1400 < length (b ∷ rest)
        → build_ddp_packets (b ∷ rest) sequence
          ≡ ok (
              frame_packet sequence 0 (take 1400 (b ∷ rest)) false
              ∷ frame_packet sequence 1 (drop 1400 (b ∷ rest)) true
              ∷ [])
    two [] small large = absurd (omega arith)
    two (c ∷ rest) small large =
        let all = b ∷ c ∷ rest in
        build_plan sequence all _ _ known (omega arith) small
          (chunks_from_two (length rest) all large (omega (arith, small))) refl refl
          (subst
            (λ p.
              packet_plan_is_valid
                (frame_packet sequence 0 (take 1400 all) false
                  ∷ frame_packet sequence 1 (drop 1400 all) true
                  ∷ [])
                p sequence
              ≡ true)
            (append-take-drop 1400 all)
            (plan_two sequence (take 1400 all) (drop 1400 all)
              (omega (arith, length-take 1400 all, large))
              (omega (arith, length-drop 1400 all, small))))
