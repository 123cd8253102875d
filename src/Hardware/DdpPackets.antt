-- ===== src/Hardware/DdpPackets.antt =====
-- aurora_core/hardware/ddp_output_probe.py: the DDP packets of one frame. A byte string is the list
-- of its bytes. `pack_header` and `unpack_header` are `struct.Struct("!BBBBIH")`, big-endian.
pub mod Plan
pub mod RoundTrip
use Prim.Native.Nat.{bit_or}
use project_aurora.Base.{
  ℕ, zero, suc, ◌+◌, ◌-◌, ◌*◌, ◌/◌, ◌%◌, ◌^◌, Bool, true, false, not, ◌&&◌, ◌||◌, Option, none,
  some, List, [], ◌∷◌, ◌++◌, if◌then◌else◌, ltb, leb, ◌==◌, length, take, drop,
}
use project_aurora.Base.Checked.{Checked, ok, value_error, ◌>>=◌, ◌>>◌, raise_if}
use project_aurora.Hardware.DdpOutput.{ddp_max_data_payload}

abbrev pub ddp_destination_id : ℕ
ddp_destination_id = 1

abbrev pub ddp_rgb24_datatype : ℕ
ddp_rgb24_datatype = 0x0B

abbrev pub ddp_header_length : ℕ
ddp_header_length = 10

abbrev pub ddp_max_frame_payload : ℕ
ddp_max_frame_payload = 1536

abbrev pub ddp_max_datagrams_per_frame : ℕ
ddp_max_datagrams_per_frame = 2

abbrev pub ddp_test_sequence : ℕ
ddp_test_sequence = 1

abbrev pub ddp_blackout_sequence : ℕ
ddp_blackout_sequence = 2

abbrev pub Bytes : Type 0
Bytes = List ℕ

pub record Header : Type 0 where
  pub flags : ℕ
  pub sequence : ℕ
  pub datatype : ℕ
  pub destination : ℕ
  pub offset : ℕ
  pub size : ℕ

-- `_DDP_VERSION | (_DDP_PUSH if last else 0)`
abbrev pub flags_of : Bool → ℕ
flags_of last = bit_or 0x40 (if last then 0x01 else 0)

-- `_DDP_HEADER.pack(...)`, whose `struct.error` on a value out of range does not arise here.
unfoldable pub pack_header : Header → Bytes
pack_header h =
    h.flags
    ∷ h.sequence
    ∷ h.datatype
    ∷ h.destination
    ∷ h.offset / 2 ^ 24
    ∷ h.offset / 2 ^ 16 % 256
    ∷ h.offset / 2 ^ 8 % 256
    ∷ h.offset % 256
    ∷ h.size / 2 ^ 8
    ∷ h.size % 256
    ∷ []

-- The header and the chunk of a packet, if it is long enough for a header.
unfoldable pub split_packet : Bytes → Option (Header × Bytes)
split_packet (a ∷ b ∷ c ∷ d ∷ e ∷ f ∷ g ∷ h ∷ i ∷ j ∷ chunk) = some (
  record {
    flags = a;
    sequence = b;
    datatype = c;
    destination = d;
    offset = ((e * 256 + f) * 256 + g) * 256 + h;
    size = i * 256 + j;
  },
  chunk,
)
split_packet packet = none

-- The slices of the payload, from the one at hand on. The first argument is fuel.
unfoldable pub chunks_from : ℕ → Bytes → List Bytes
chunks_from fuel [] = []
chunks_from zero (b ∷ payload) = []
chunks_from (suc fuel) (b ∷ payload) =
    take ddp_max_data_payload (b ∷ payload)
    ∷ chunks_from fuel (drop ddp_max_data_payload (b ∷ payload))

unfoldable pub is_last : List Bytes → Bool
is_last [] = true
is_last (c ∷ cs) = false

abbrev pub header_of : ℕ → ℕ → Bytes → Bool → Header
header_of sequence index chunk last = record {
  flags = flags_of last;
  sequence = sequence;
  datatype = ddp_rgb24_datatype;
  destination = ddp_destination_id;
  offset = index * ddp_max_data_payload;
  size = length chunk;
}

-- The packets of the chunks, numbered from `index`.
unfoldable pub packets_from : ℕ → ℕ → List Bytes → List Bytes
packets_from sequence index [] = []
packets_from sequence index (chunk ∷ rest) =
    (pack_header (header_of sequence index chunk (is_last rest)) ++ chunk)
    ∷ packets_from sequence (index + 1) rest

unfoldable pub same_bytes : Bytes → Bytes → Bool
same_bytes [] [] = true
same_bytes (x ∷ xs) (y ∷ ys) = x == y && same_bytes xs ys
same_bytes _ _ = false

-- The test of one packet, with what is rebuilt so far.
unfoldable pub header_fits : Header → Bytes → ℕ → Bool → Bytes → Bool
header_fits h chunk sequence last rebuilt =
    h.flags == flags_of last
    && h.sequence == sequence
    && h.datatype == ddp_rgb24_datatype
    && h.destination == ddp_destination_id
    && h.offset == length rebuilt
    && h.size == length chunk
    && leb h.size ddp_max_data_payload

unfoldable pub packet_fits : Option (Header × Bytes) → ℕ → Bool → Bytes → Option Bytes
packet_fits none sequence last rebuilt = none
packet_fits (some (h, chunk)) sequence last rebuilt =
    if header_fits h chunk sequence last rebuilt then some (rebuilt ++ chunk) else none

-- A `return False` ends the loop.
abbrev pub and_then {ℓ κ} : {A : Type ℓ} {B : Type κ} → Option A → (A → Option B) → Option B
and_then none f = none
and_then (some a) f = f a

-- The loop of `_packet_plan_is_valid`; `none` is its `return False`.
unfoldable pub rebuild : ℕ → Bytes → List Bytes → Option Bytes
rebuild sequence rebuilt [] = some rebuilt
rebuild sequence rebuilt (packet ∷ rest) =
    and_then (packet_fits (split_packet packet) sequence (is_last rest) rebuilt)
      λ rebuilt'. rebuild sequence rebuilt' rest

abbrev pub rebuilds : Option Bytes → Bytes → Bool
rebuilds none payload = false
rebuilds (some rebuilt) payload = same_bytes rebuilt payload

-- `_packet_plan_is_valid`
unfoldable pub packet_plan_is_valid : List Bytes → Bytes → ℕ → Bool
packet_plan_is_valid packets payload sequence =
    leb 1 (length packets)
    && leb (length packets) ddp_max_datagrams_per_frame
    && rebuilds (rebuild sequence [] packets) payload

-- `build_ddp_packets`
unfoldable pub build_ddp_packets : Bytes → ℕ → Checked (List Bytes)
build_ddp_packets payload sequence =
    let chunks = chunks_from (length payload) payload in
    let packets = packets_from sequence 0 chunks in
    raise_if (not (sequence == ddp_test_sequence || sequence == ddp_blackout_sequence))
      "unsupported DDP sequence"
    >> raise_if (leb (length payload) 0 || ltb ddp_max_frame_payload (length payload))
        "DDP frame payload is outside the bounded limit"
    >> raise_if (not (leb 1 (length chunks) && leb (length chunks) ddp_max_datagrams_per_frame))
        "DDP frame packet count is outside the bounded limit"
    >> raise_if (not (packet_plan_is_valid packets payload sequence))
        "constructed DDP packet plan is invalid"
    >> ok packets
