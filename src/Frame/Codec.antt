-- ===== src/Frame/Codec.antt =====
-- `FrameHeader::encode` and `FrameHeader::decode` of src/core/frame.rs.
use plasmite.Prelude.{
  ℕ, ◌+◌, ◌≤◌, ◌<◌, ◌≡◌, refl, ap, ◌∙◌, arith, IsU32, IsU64, ltb, eq_bytes, false,
}
use plasmite.Error.{ok}
use plasmite.Buffer.{
  Buffer, zeros, of_list, bytes_from, to_list, store, from_le_bytes, write_u32, write_u64,
  copy_from_slice, to_le_bytes,
}
use plasmite.Buffer.Laws.{
  slice-ok, read_u32-ok, read_u64-ok, put, from_le_bytes_agree, bytes_from_agree, from-to_le_bytes,
}
use plasmite.Frame.{
  FrameState, state_code, from_u32, FrameHeader, frame_magic, frame_header_len, encode, decode,
}
use native.Mathlib.Nat.{add_assoc}

-- The fields fit their widths.
pub record IsFrameHeader (h : FrameHeader) : Type 0 where
  pub flags_u32 : IsU32 h.flags
  pub header_len_u32 : IsU32 h.header_len
  pub seq_u64 : IsU64 h.seq
  pub timestamp_u64 : IsU64 h.timestamp_ns
  pub payload_len_u32 : IsU32 h.payload_len
  pub payload_len_xor_u32 : IsU32 h.payload_len_xor
  pub crc32c_u32 : IsU32 h.crc32c

state_code-lt : (s : FrameState) → IsU32 (state_code s)
unfolding state_code
state_code-lt s = ground arith

-- The bytes from `p` on are the encoding of `h`.
pub record HeaderAt (f : ℕ → ℕ) (p : ℕ) (h : FrameHeader) : Type 0 where
  pub magic_at : bytes_from f p 4 ≡ frame_magic
  pub state_at : from_le_bytes f (p + 4) 4 ≡ state_code h.state
  pub flags_at : from_le_bytes f (p + 8) 4 ≡ h.flags
  pub header_len_at : from_le_bytes f (p + 12) 4 ≡ h.header_len
  pub seq_at : from_le_bytes f (p + 16) 8 ≡ h.seq
  pub timestamp_at : from_le_bytes f (p + 24) 8 ≡ h.timestamp_ns
  pub payload_len_at : from_le_bytes f (p + 32) 4 ≡ h.payload_len
  pub payload_len_xor_at : from_le_bytes f (p + 36) 4 ≡ h.payload_len_xor
  pub crc32c_at : from_le_bytes f (p + 40) 4 ≡ h.crc32c

from_u32-state_code : (s : FrameState) → from_u32 (state_code s) ≡ ok s
unfolding from_u32 state_code
from_u32-state_code s = ground arith

pub decode-HeaderAt :
    (b : Buffer) (h : FrameHeader)
    → 64 ≤ b.len
    → IsU64 b.len
    → HeaderAt b.byte 0 h
    → decode b ≡ ok h
unfolding decode
decode-HeaderAt b h k sized at = rw (
  long_enough,
  slice-ok b 0 4 (omega arith) (omega arith),
  ap (λ m. eq_bytes m frame_magic) same_magic,
  read_u32-ok b 4 sized (omega arith),
  at.state_at,
  from_u32-state_code h.state,
  read_u32-ok b 8 sized (omega arith),
  at.flags_at,
  read_u32-ok b 12 sized (omega arith),
  at.header_len_at,
  read_u64-ok b 16 sized (omega arith),
  at.seq_at,
  read_u64-ok b 24 sized (omega arith),
  at.timestamp_at,
  read_u32-ok b 32 sized (omega arith),
  at.payload_len_at,
  read_u32-ok b 36 sized (omega arith),
  at.payload_len_xor_at,
  read_u32-ok b 40 sized (omega arith),
  at.crc32c_at,
)
  where
    long_enough : ltb b.len frame_header_len ≡ false
    long_enough = ground arith

    same_magic : to_list (record { len = 4; byte = λ i. b.byte (0 + i) }) ≡ frame_magic
    same_magic = unfold to_list bytes_from in at.magic_at

-- What `encode` leaves in its array, one write after the other.
abbrev encoded : FrameHeader → Buffer
encoded h =
    let b0 = store (zeros frame_header_len) 0 4 (of_list frame_magic).byte in
    let b1 = put b0 4 4 (state_code h.state) in
    let b2 = put b1 8 4 h.flags in
    let b3 = put b2 12 4 h.header_len in
    let b4 = put b3 16 8 h.seq in
    let b5 = put b4 24 8 h.timestamp_ns in
    let b6 = put b5 32 4 h.payload_len in
    let b7 = put b6 36 4 h.payload_len_xor in put b7 40 4 h.crc32c

encode-ok : (h : FrameHeader) → encode h ≡ ok (encoded h)
unfolding encode write_u32 write_u64 copy_from_slice to_le_bytes
encode-ok h = refl

-- In the array the fields stand where `HeaderAt` looks for them.
encoded-HeaderAt : (h : FrameHeader) → IsFrameHeader h → HeaderAt (encoded h).byte 0 h
unfolding from_le_bytes bytes_from
encoded-HeaderAt h v = record {
  magic_at = refl;
  state_at = from-to_le_bytes 4 (state_code h.state) (state_code-lt h.state);
  flags_at = from-to_le_bytes 4 h.flags v.flags_u32;
  header_len_at = from-to_le_bytes 4 h.header_len v.header_len_u32;
  seq_at = from-to_le_bytes 8 h.seq v.seq_u64;
  timestamp_at = from-to_le_bytes 8 h.timestamp_ns v.timestamp_u64;
  payload_len_at = from-to_le_bytes 4 h.payload_len v.payload_len_u32;
  payload_len_xor_at = from-to_le_bytes 4 h.payload_len_xor v.payload_len_xor_u32;
  crc32c_at = from-to_le_bytes 4 h.crc32c v.crc32c_u32;
}

-- `encode` fills the 64 bytes of an array with the header.
pub encode_lem :
    (h : FrameHeader)
    → IsFrameHeader h
    → (b : Buffer) × (encode h ≡ ok b) × (b.len ≡ 64) × HeaderAt b.byte 0 h
encode_lem h v = (encoded h, encode-ok h, refl, encoded-HeaderAt h v)

-- A header whose fields fit their widths is encoded into 64 bytes without a panic, and decoding
-- those bytes gives the same header.
pub decode-encode :
    (h : FrameHeader)
    → IsFrameHeader h
    → (b : Buffer) × (encode h ≡ ok b) × (b.len ≡ 64) × (decode b ≡ ok h)
decode-encode h v =
    let (b, encodes, sized, at) = encode_lem h v in
    (b, encodes, sized, decode-HeaderAt b h (omega arith) (omega arith) at)

-- A header at `p` stays where the bytes from `p` to `p + 64` do not change.
pub HeaderAt-agree :
    (f g : ℕ → ℕ) (p q : ℕ) (h : FrameHeader)
    → ((i : ℕ) → i < 64 → g (q + i) ≡ f (p + i))
    → HeaderAt f p h
    → HeaderAt g q h
HeaderAt-agree f g p q h same at = record {
  magic_at = bytes_from_agree g f q p 4 (λ i e. same i (omega arith)) ∙ at.magic_at;
  state_at = field 4 4 (omega arith) ∙ at.state_at;
  flags_at = field 8 4 (omega arith) ∙ at.flags_at;
  header_len_at = field 12 4 (omega arith) ∙ at.header_len_at;
  seq_at = field 16 8 (omega arith) ∙ at.seq_at;
  timestamp_at = field 24 8 (omega arith) ∙ at.timestamp_at;
  payload_len_at = field 32 4 (omega arith) ∙ at.payload_len_at;
  payload_len_xor_at = field 36 4 (omega arith) ∙ at.payload_len_xor_at;
  crc32c_at = field 40 4 (omega arith) ∙ at.crc32c_at;
}
  where
    field : (k n : ℕ) → k + n ≤ 64 → from_le_bytes g (q + k) n ≡ from_le_bytes f (p + k) n
    field k n fits =
        from_le_bytes_agree g f (q + k) (p + k) n
          (λ i e. rw (add_assoc q k i, add_assoc p k i) (same (k + i) (omega arith)))
