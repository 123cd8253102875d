-- ===== src/Hardware/DdpPackets/RoundTrip.antt =====
-- aurora_core/hardware/ddp_output_probe.py: the packets of a frame, taken apart again.
use project_aurora.Base.{
  ℕ, ◌+◌, ◌≤◌, ◌<◌, ◌≡◌, inl, inr, refl, true, false, Bool, ◌||◌, Option, none, some, List, [], ◌∷◌,
  ◌++◌, arith, leb, leb→le, leb→lt, ◌==◌, length, take, drop, Bool-cases, append-take-drop,
  length-take, length-drop,
}
use mathlib.Core.List.{append-nil}
use project_aurora.Base.Checked.{Checked, ok, value_error}
use project_aurora.Hardware.DdpOutput.{ddp_max_data_payload, expected_packet_count}
use project_aurora.Hardware.DdpPackets.{
  Bytes, Header, ddp_max_frame_payload, ddp_header_length, flags_of, pack_header, split_packet,
  is_last, header_of, build_ddp_packets, ddp_test_sequence, ddp_blackout_sequence,
}
use project_aurora.Hardware.DdpPackets.Plan.{
  split_packet-pack_header, frame_packet, frame, build_ddp_packets-frame,
}

-- What a receiver puts together: the bytes behind the headers.
unfoldable pub payload_of : List Bytes → Bytes
payload_of [] = []
payload_of (packet ∷ rest) = drop ddp_header_length packet ++ payload_of rest

-- Only the last packet of a frame is pushed, and the packets are no longer than a header and the
-- greatest chunk.
abbrev pub is_pushed : Option (Header × Bytes) → Bool
is_pushed none = false
is_pushed (some (h, chunk)) = h.flags == flags_of true

abbrev pub IsPlan : List Bytes → Type 0
IsPlan [] = Unit
IsPlan (packet ∷ rest) =
    (length packet ≤ ddp_header_length + ddp_max_data_payload)
    × (is_pushed (split_packet packet) ≡ is_last rest)
    × IsPlan rest

-- The packets of a payload: as many as expected, a plan, and the payload again.
abbrev pub IsFrame : Bytes → Checked (List Bytes) → Type 0
IsFrame payload (value_error e) = ⊥
IsFrame payload (ok packets) =
    (length packets ≡ expected_packet_count (length payload))
    × IsPlan packets
    × (payload_of packets ≡ payload)

drop-frame_packet :
    (sequence index : ℕ) (chunk : Bytes) (last : Bool)
    → drop 10 (frame_packet sequence index chunk last) ≡ chunk
unfolding drop pack_header
drop-frame_packet sequence index chunk last = refl

is_pushed-frame_packet :
    (sequence index : ℕ) (chunk : Bytes) (last : Bool)
    → index ≤ 1
    → length chunk ≤ 1400
    → is_pushed (split_packet (frame_packet sequence index chunk last)) ≡ last
is_pushed-frame_packet sequence index chunk true few small =
    rw
      (split_packet-pack_header (header_of sequence index chunk true) chunk (omega arith)
        (omega arith))
      refl
is_pushed-frame_packet sequence index chunk false few small =
    rw
      (split_packet-pack_header (header_of sequence index chunk false) chunk (omega arith)
        (omega arith))
      refl

length-frame_packet :
    (sequence index : ℕ) (chunk : Bytes) (last : Bool)
    → length (frame_packet sequence index chunk last) ≡ 10 + length chunk
unfolding pack_header
length-frame_packet sequence index chunk last = omega arith

frame-IsFrame :
    (sequence : ℕ) (payload : Bytes)
    → 0 < length payload
    → length payload ≤ 1536
    → IsFrame payload (ok (frame sequence payload))
unfolding frame payload_of is_last
frame-IsFrame sequence payload low high = elim (Bool-cases (leb (length payload) 1400)) [
  | inl short ↦
      let small : length payload ≤ 1400 = leb→le _ _ short in
      rw short (
        omega arith,
        (
          omega (arith, length-frame_packet sequence 0 payload true),
          is_pushed-frame_packet sequence 0 payload true (omega arith) small,
          tt,
        ),
        rw (drop-frame_packet sequence 0 payload true, append-nil payload) refl,
      )
  | inr long ↦
      let large : 1400 < length payload = leb→lt _ _ long in
      let a = take 1400 payload in
      let b = drop 1400 payload in
      let full : length a ≤ 1400 = omega (arith, length-take 1400 payload) in
      let rest : length b ≤ 1400 = omega (arith, length-drop 1400 payload) in
      rw long (
        omega arith,
        (
          omega (arith, length-frame_packet sequence 0 a false),
          is_pushed-frame_packet sequence 0 a false (omega arith) full,
          (
            omega (arith, length-frame_packet sequence 1 b true),
            is_pushed-frame_packet sequence 1 b true (omega arith) rest,
            tt,
          ),
        ),
        rw
            (
              drop-frame_packet sequence 0 a false,
              drop-frame_packet sequence 1 b true,
              append-nil b,
              append-take-drop 1400 payload,
            )
            refl,
      )
]

-- For sequence 1 or 2 and a payload of 1 to 1536 bytes, the packets are built: none of the checks
-- raises. They are as many as expected, each holds at most 1400 bytes after its header, exactly the
-- last one is pushed, and their chunks put together are the payload.
pub build_ddp_packets-IsFrame :
    (payload : Bytes) (sequence : ℕ)
    → (sequence == ddp_test_sequence || sequence == ddp_blackout_sequence) ≡ true
    → 0 < length payload
    → length payload ≤ ddp_max_frame_payload
    → IsFrame payload (build_ddp_packets payload sequence)
build_ddp_packets-IsFrame payload sequence known low high =
    rw (build_ddp_packets-frame sequence payload known low high)
      (frame-IsFrame sequence payload low high)
