-- ===== src/Frame.antt =====
-- src/core/frame.rs: the 64-byte frame header, its encoding and validation, and frame sizes.
pub mod Size
pub mod Codec
use plasmite.Prelude.{
  ℕ, ◌+◌, ◌*◌, ◌/◌, ◌^◌, min, Bool, Option, none, some, List, [], ◌∷◌, String, ltb, leb, ◌==◌, not,
  if◌then◌else◌, eq_bytes, checked_add, saturating_add, saturating_sub, bit_xor,
}
use plasmite.Error.{Result, ok, err, panic, ErrorKind, failure, ensure, ◌>>=◌, ◌>>◌}
use plasmite.Buffer.{
  Buffer, zeros, of_list, to_list, slice, copy_from_slice, read_u32, read_u64, write_u32, write_u64,
}
use mathlib.Core.Option

-- `b"FRM1"` and `b"PLSMCMIT"`
abbrev pub frame_magic : List ℕ
frame_magic = b'F' ∷ b'R' ∷ b'M' ∷ b'1' ∷ []

abbrev pub frame_commit_marker : List ℕ
frame_commit_marker = b'P' ∷ b'L' ∷ b'S' ∷ b'M' ∷ b'C' ∷ b'M' ∷ b'I' ∷ b'T' ∷ []

abbrev pub frame_header_len : ℕ
frame_header_len = 64

abbrev pub frame_commit_marker_len : ℕ
frame_commit_marker_len = 8

abbrev pub max_payload_abs : ℕ
max_payload_abs = 256 * 1024 * 1024

pub data FrameState : Type 0 where
  empty writing committed wrap : FrameState

-- `self.state as u32`
unfoldable pub state_code : FrameState → ℕ
state_code empty = 0
state_code writing = 1
state_code committed = 2
state_code wrap = 3

unfoldable pub from_u32 : ℕ → Result FrameState
from_u32 value =
    if value == 0
    then ok empty
    else if value == 1
    then ok writing
    else if value == 2
    then ok committed
    else if value == 3
    then ok wrap
    else err (failure ErrorKind.corrupt "invalid frame state")

pub record FrameHeader : Type 0 where
  pub state : FrameState
  pub flags : ℕ  -- u32
  pub header_len : ℕ  -- u32
  pub seq : ℕ  -- u64
  pub timestamp_ns : ℕ  -- u64
  pub payload_len : ℕ  -- u32
  pub payload_len_xor : ℕ  -- u32
  pub crc32c : ℕ  -- u32

unfoldable pub new : FrameState → ℕ → ℕ → ℕ → ℕ → ℕ → FrameHeader
new state flags seq timestamp_ns payload_len crc32c = record {
  state = state;
  flags = flags;
  header_len = frame_header_len;
  seq = seq;
  timestamp_ns = timestamp_ns;
  payload_len = payload_len;
  payload_len_xor = bit_xor payload_len 0xFFFF_FFFF;
  crc32c = crc32c;
}

-- The ranges are constant and within the array, so no step panics: `Codec.encode-ok`.
unfoldable pub encode : FrameHeader → Result Buffer
encode h = do
  buf ← copy_from_slice (zeros frame_header_len) 0 4 (of_list frame_magic)
  buf ← write_u32 buf 4 (state_code h.state)
  buf ← write_u32 buf 8 h.flags
  buf ← write_u32 buf 12 h.header_len
  buf ← write_u64 buf 16 h.seq
  buf ← write_u64 buf 24 h.timestamp_ns
  buf ← write_u32 buf 32 h.payload_len
  buf ← write_u32 buf 36 h.payload_len_xor
  write_u32 buf 40 h.crc32c

unfoldable pub decode : Buffer → Result FrameHeader
decode buf = do
  ensure (not (ltb buf.len frame_header_len)) ErrorKind.corrupt "frame header too small"
  magic ← slice buf 0 4
  ensure (eq_bytes (to_list magic) frame_magic) ErrorKind.corrupt "bad frame magic"
  code ← read_u32 buf 4
  state ← from_u32 code
  flags ← read_u32 buf 8
  header_len ← read_u32 buf 12
  seq ← read_u64 buf 16
  timestamp_ns ← read_u64 buf 24
  payload_len ← read_u32 buf 32
  payload_len_xor ← read_u32 buf 36
  crc32c ← read_u32 buf 40
  ok (record {
    state = state;
    flags = flags;
    header_len = header_len;
    seq = seq;
    timestamp_ns = timestamp_ns;
    payload_len = payload_len;
    payload_len_xor = payload_len_xor;
    crc32c = crc32c;
  })

-- `sum & !7` clears the three lowest bits.
unfoldable pub align8 : ℕ → Option ℕ
align8 value = Option.map (λ sum. sum / 8 * 8) (checked_add value 7)

unfoldable pub frame_total_len : ℕ → ℕ → Option ℕ
frame_total_len header_len payload_len =
    Option.bind (checked_add header_len payload_len)
      λ sum. Option.bind (checked_add sum frame_commit_marker_len) align8

unfoldable pub max_payload : ℕ → ℕ → ℕ
max_payload ring_size header_len =
    let ring_cap = saturating_sub ring_size (saturating_add header_len frame_commit_marker_len) in
    min ring_cap max_payload_abs

abbrev pub is_none {ℓ} : {A : Type ℓ} → Option A → Bool
is_none none = Bool.true
is_none (some _) = Bool.false

unfoldable pub validate : FrameHeader → ℕ → Result (Unit {0})
validate h ring_size = do
  ensure (h.header_len == frame_header_len) ErrorKind.corrupt "unexpected header length"
  ensure (bit_xor h.payload_len h.payload_len_xor == 0xFFFF_FFFF) ErrorKind.corrupt
      "payload length xor mismatch"
  ensure (leb h.payload_len (max_payload ring_size h.header_len)) ErrorKind.corrupt
      "payload length exceeds max"
  ensure (not (is_none (frame_total_len h.header_len h.payload_len))) ErrorKind.corrupt
      "frame length overflow"
  ok tt
