-- ===== src/Pool/Writes.antt =====
-- What the writes of an append leave in the memory map of src/core/pool.rs.
use plasmite.Prelude.{
  ℕ, ◌+◌, ◌≤◌, ◌<◌, ◌≡◌, ◌⊎◌, ◌∙◌, arith, refl, subst, ap, IsU32, IsU64, bit_xor-lt, add_u64_exact,
}
use plasmite.Error.{ok}
use plasmite.Buffer.{Buffer, of_list, copy_from_slice, store}
use plasmite.Buffer.Laws.{copy_from_slice-ok, store_in, store_out}
use plasmite.Frame
use plasmite.Frame.{FrameHeader, FrameState, frame_commit_marker, frame_header_len}
use plasmite.Frame.Codec.{IsFrameHeader, HeaderAt, HeaderAt-agree, encode_lem}
use plasmite.Ring.{header_with, wrap_header}
use plasmite.Pool.{write_frame_header, write_frame, write_wrap}

-- `m'` is `m` with other bytes from `p` to `p + n` at most.
pub record Only (m m' : Buffer) (p n : ℕ) : Type 0 where
  pub same_len : m'.len ≡ m.len
  pub outside : (i : ℕ) → (i < p) ⊎ (p + n ≤ i) → m'.byte i ≡ m.byte i

pub Only-trans :
    (m m' m'' : Buffer) (p n q k : ℕ) (r l : ℕ)
    → Only m m' p n
    → Only m' m'' q k
    → r ≤ p
    → r ≤ q
    → p + n ≤ r + l
    → q + k ≤ r + l
    → Only m m'' r l
Only-trans m m' m'' p n q k r l a b c d c' d' = record {
  same_len = b.same_len ∙ a.same_len;
  outside = λ i out. b.outside i (omega arith) ∙ a.outside i (omega arith);
}

-- A header as the code makes it has fields that fit their widths.
pub header_with-IsFrameHeader :
    (state : FrameState) (flags seq timestamp_ns payload_len : ℕ)
    → IsU32 flags
    → IsU64 seq
    → IsU64 timestamp_ns
    → IsU32 payload_len
    → IsFrameHeader (header_with state flags seq timestamp_ns payload_len)
header_with-IsFrameHeader state flags seq timestamp_ns payload_len a b c d = record {
  flags_u32 = a;
  header_len_u32 = omega arith;
  seq_u64 = b;
  timestamp_u64 = c;
  payload_len_u32 = d;
  payload_len_xor_u32 = bit_xor-lt 32 payload_len 0xFFFF_FFFF d (omega arith);
  crc32c_u32 = omega arith;
}

module _ (m : Buffer) where
  pub copy_lem :
      (start end : ℕ) (src : Buffer)
      → end ≡ start + src.len
      → end ≤ m.len
      → (m' : Buffer) × (copy_from_slice m start end src ≡ ok m')
        × Only m m' start src.len
        × ((i : ℕ) → i < src.len → m'.byte (start + i) ≡ src.byte i)
  copy_lem start end src h k = (
    store m start src.len src.byte,
    copy_from_slice-ok m start end src h k,
    record { same_len = refl; outside = λ i out. store_out m start src.len i src.byte out },
    λ i inside.
        store_in m start src.len (start + i) src.byte (omega arith) (omega arith)
        ∙ ap src.byte (omega arith),
  )

  module _ (sized : IsU64 m.len) (ring_offset off : ℕ) where
    pub write_frame_header_lem :
        (h : FrameHeader)
        → IsFrameHeader h
        → ring_offset + off + 64 ≤ m.len
        → (m' : Buffer) × (write_frame_header m ring_offset off h ≡ ok m')
          × Only m m' (ring_offset + off) 64
          × HeaderAt m'.byte (ring_offset + off) h
    unfolding write_frame_header
    write_frame_header_lem h valid fits =
        let (b, encodes, long, at) = encode_lem h valid in
        let (m', copies, only, copied) =
          copy_lem (ring_offset + off) (ring_offset + off + 64) b (omega arith) fits in
        (
          m',
          rw
              (
                add_u64_exact ring_offset off (omega arith),
                add_u64_exact (ring_offset + off) 64 (omega arith),
                encodes,
              )
              copies,
          subst (Only m m' (ring_offset + off)) long only,
          HeaderAt-agree b.byte m'.byte 0 (ring_offset + off) h
              (λ i k. copied i (omega arith) ∙ ap b.byte (omega arith)) at,
        )

    pub write_wrap_lem :
        ring_offset + off + 64 ≤ m.len
        → (m' : Buffer) × (write_wrap m ring_offset off ≡ ok m')
          × Only m m' (ring_offset + off) 64
          × HeaderAt m'.byte (ring_offset + off) wrap_header
    unfolding write_wrap Frame.new
    write_wrap_lem fits =
        write_frame_header_lem wrap_header
          (header_with-IsFrameHeader FrameState.wrap 0 0 0 0 (omega arith) (omega arith)
            (omega arith) (omega arith))
          fits

-- A frame in the state `writing`, with its payload and its marker.
pub write_frame_lem :
    (m : Buffer) (ring_offset off : ℕ) (h : FrameHeader) (payload : Buffer)
    → IsU64 m.len
    → IsFrameHeader h
    → ring_offset + off + 64 + payload.len + 8 ≤ m.len
    → (m' : Buffer) × (write_frame m ring_offset off h payload ≡ ok m')
      × Only m m' (ring_offset + off) (64 + payload.len + 8)
      × ((i : ℕ) → i < payload.len → m'.byte (ring_offset + off + 64 + i) ≡ payload.byte i)
      × ((i : ℕ)
          → i < 8
          → m'.byte (ring_offset + off + 64 + payload.len + i)
            ≡ (of_list frame_commit_marker).byte i)
unfolding write_frame
write_frame_lem m ring_offset off h payload sized valid fits =
    let p = ring_offset + off in
    let n = payload.len in
    let (m1, writes1, only1, at) =
      write_frame_header_lem m sized ring_offset off h valid (omega arith) in
    let (m2, writes2, only2, copied) =
      copy_lem m1 (p + 64) (p + 64 + n) payload refl (omega (arith, only1.same_len)) in
    let (m3, writes3, only3, marked) =
      copy_lem m2 (p + 64 + n) (p + 64 + n + 8) (of_list frame_commit_marker) refl
        (omega (arith, only1.same_len, only2.same_len)) in
    (
      m3,
      rw
          (
            writes1,
            add_u64_exact ring_offset off (omega arith),
            add_u64_exact p 64 (omega arith),
            add_u64_exact (p + 64) n (omega arith),
            writes2,
            add_u64_exact (p + 64 + n) 8 (omega arith),
          )
          writes3,
      Only-trans m m1 m3 p 64 (p + 64) (n + 8) p (64 + n + 8) only1
          (Only-trans m1 m2 m3 (p + 64) n (p + 64 + n) 8 (p + 64) (n + 8) only2 only3 (omega arith)
            (omega arith) (omega arith) (omega arith))
          (omega arith) (omega arith) (omega arith) (omega arith),
      (λ i k. only3.outside (p + 64 + i) (omega arith) ∙ copied i k),
      marked,
    )
