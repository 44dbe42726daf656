-- ===== src/Header/Codec.antt =====
-- The encoding of the pool header, in a header of its own and in the memory map.
use plasmite.Prelude.{
  ℕ, [], ◌∷◌, ◌+◌, ◌≤◌, ◌≡◌, refl, ap, ◌∙◌, arith, IsU32, IsU64, ltb, eq_bytes, false,
}
use plasmite.Error.{ok}
use plasmite.Buffer.{
  Buffer, zeros, of_list, bytes_from, to_list, store, from_le_bytes, to_le_bytes, copy_from_slice,
}
use plasmite.Buffer.Laws.{
  slice-ok, copy_from_slice-ok, read_u32-ok, read_u64-ok, write_u32-ok, write_u64-ok, put,
  from-to_le_bytes,
}
use plasmite.Header.{
  PoolHeader, magic, pool_format_version, endianness_le, header_size, write_fields, encode,
  write_pool_header, decode,
}

-- The fields fit their widths.
pub record IsEncodable (h : PoolHeader) : Type 0 where
  pub file_size_fits : IsU64 h.file_size
  pub index_offset_fits : IsU64 h.index_offset
  pub index_capacity_fits : IsU32 h.index_capacity
  pub ring_offset_fits : IsU64 h.ring_offset
  pub ring_size_fits : IsU64 h.ring_size
  pub flags_fits : IsU64 h.flags
  pub head_off_fits : IsU64 h.head_off
  pub tail_off_fits : IsU64 h.tail_off
  pub tail_next_off_fits : IsU64 h.tail_next_off
  pub oldest_seq_fits : IsU64 h.oldest_seq
  pub newest_seq_fits : IsU64 h.newest_seq

-- The first bytes are the encoding of `h`.
pub record PoolHeaderAt (f : ℕ → ℕ) (h : PoolHeader) : Type 0 where
  pub magic_at : bytes_from f 0 4 ≡ magic
  pub version_at : from_le_bytes f 4 4 ≡ pool_format_version
  pub endianness_at : f 8 ≡ endianness_le
  pub file_size_at : from_le_bytes f 16 8 ≡ h.file_size
  pub index_offset_at : from_le_bytes f 24 8 ≡ h.index_offset
  pub index_capacity_at : from_le_bytes f 32 4 ≡ h.index_capacity
  pub ring_offset_at : from_le_bytes f 40 8 ≡ h.ring_offset
  pub ring_size_at : from_le_bytes f 48 8 ≡ h.ring_size
  pub flags_at : from_le_bytes f 56 8 ≡ h.flags
  pub head_off_at : from_le_bytes f 64 8 ≡ h.head_off
  pub tail_off_at : from_le_bytes f 72 8 ≡ h.tail_off
  pub tail_next_off_at : from_le_bytes f 80 8 ≡ h.tail_next_off
  pub oldest_seq_at : from_le_bytes f 88 8 ≡ h.oldest_seq
  pub newest_seq_at : from_le_bytes f 96 8 ≡ h.newest_seq

-- A buffer that holds the header of a pool decodes to it.
pub decode-PoolHeaderAt :
    (b : Buffer) (h : PoolHeader)
    → header_size ≤ b.len
    → IsU64 b.len
    → PoolHeaderAt b.byte h
    → decode b ≡ ok h
unfolding decode
decode-PoolHeaderAt b h k sized at = rw (
  long_enough,
  slice-ok b 0 4 (omega arith) (omega arith),
  ap (λ m. eq_bytes m magic) same_magic,
  read_u32-ok b 4 sized (omega arith),
  at.version_at,
  at.endianness_at,
  read_u64-ok b 16 sized (omega arith),
  at.file_size_at,
  read_u64-ok b 24 sized (omega arith),
  at.index_offset_at,
  read_u32-ok b 32 sized (omega arith),
  at.index_capacity_at,
  read_u64-ok b 40 sized (omega arith),
  at.ring_offset_at,
  read_u64-ok b 48 sized (omega arith),
  at.ring_size_at,
  read_u64-ok b 56 sized (omega arith),
  at.flags_at,
  read_u64-ok b 64 sized (omega arith),
  at.head_off_at,
  read_u64-ok b 72 sized (omega arith),
  at.tail_off_at,
  read_u64-ok b 80 sized (omega arith),
  at.tail_next_off_at,
  read_u64-ok b 88 sized (omega arith),
  at.oldest_seq_at,
  read_u64-ok b 96 sized (omega arith),
  at.newest_seq_at,
)
  where
    long_enough : ltb b.len header_size ≡ false
    long_enough = ground arith

    same_magic : to_list (record { len = 4; byte = λ i. b.byte (0 + i) }) ≡ magic
    same_magic = unfold to_list bytes_from in at.magic_at

-- What `write_fields` leaves in the buffer.
abbrev pub written : Buffer → PoolHeader → Buffer
written m h =
    let b0 = store m 0 4 (of_list magic).byte in
    let b1 = put b0 4 4 pool_format_version in
    let b2 = store b1 8 1 (of_list (endianness_le ∷ [])).byte in
    let b3 = put b2 16 8 h.file_size in
    let b4 = put b3 24 8 h.index_offset in
    let b5 = put b4 32 4 h.index_capacity in
    let b6 = put b5 40 8 h.ring_offset in
    let b7 = put b6 48 8 h.ring_size in
    let b8 = put b7 56 8 h.flags in
    let b9 = put b8 64 8 h.head_off in
    let b10 = put b9 72 8 h.tail_off in
    let b11 = put b10 80 8 h.tail_next_off in
    let b12 = put b11 88 8 h.oldest_seq in put b12 96 8 h.newest_seq

module _ (m : Buffer) (h : PoolHeader) (room : header_size ≤ m.len) (sized : IsU64 m.len) where
  write_fields-ok : write_fields m h ≡ ok (written m h)
  unfolding write_fields
  write_fields-ok =
      let b0 = store m 0 4 (of_list magic).byte in
      let b1 = put b0 4 4 pool_format_version in
      let b2 = store b1 8 1 (of_list (endianness_le ∷ [])).byte in
      let b3 = put b2 16 8 h.file_size in
      let b4 = put b3 24 8 h.index_offset in
      let b5 = put b4 32 4 h.index_capacity in
      let b6 = put b5 40 8 h.ring_offset in
      let b7 = put b6 48 8 h.ring_size in
      let b8 = put b7 56 8 h.flags in
      let b9 = put b8 64 8 h.head_off in
      let b10 = put b9 72 8 h.tail_off in
      let b11 = put b10 80 8 h.tail_next_off in
      let b12 = put b11 88 8 h.oldest_seq in
      rw (
        copy_from_slice-ok m 0 4 (of_list magic) refl (omega arith),
        version_ok b0 (omega arith),
        copy_from_slice-ok b1 8 9 (of_list (endianness_le ∷ [])) refl (omega arith),
        write_u64-ok b2 16 sized h.file_size (omega arith),
        write_u64-ok b3 24 sized h.index_offset (omega arith),
        write_u32-ok b4 32 sized h.index_capacity (omega arith),
        write_u64-ok b5 40 sized h.ring_offset (omega arith),
        write_u64-ok b6 48 sized h.ring_size (omega arith),
        write_u64-ok b7 56 sized h.flags (omega arith),
        write_u64-ok b8 64 sized h.head_off (omega arith),
        write_u64-ok b9 72 sized h.tail_off (omega arith),
        write_u64-ok b10 80 sized h.tail_next_off (omega arith),
        write_u64-ok b11 88 sized h.oldest_seq (omega arith),
        write_u64-ok b12 96 sized h.newest_seq (omega arith),
      )
    where
      version_ok :
          (b : Buffer)
          → 8 ≤ b.len
          → copy_from_slice b 4 8 (of_list (to_le_bytes 4 pool_format_version))
            ≡ ok (put b 4 4 pool_format_version)
      version_ok b k =
          copy_from_slice-ok b 4 8 (of_list (to_le_bytes 4 pool_format_version))
            (unfold to_le_bytes in refl) k
          ∙ (unfold to_le_bytes in refl)

  -- The fields stand where `PoolHeaderAt` looks for them.
  written-PoolHeaderAt : IsEncodable h → PoolHeaderAt (written m h).byte h
  unfolding from_le_bytes bytes_from to_le_bytes
  written-PoolHeaderAt v = record {
    magic_at = refl;
    version_at = refl;
    endianness_at = refl;
    file_size_at = from-to_le_bytes 8 h.file_size v.file_size_fits;
    index_offset_at = from-to_le_bytes 8 h.index_offset v.index_offset_fits;
    index_capacity_at = from-to_le_bytes 4 h.index_capacity v.index_capacity_fits;
    ring_offset_at = from-to_le_bytes 8 h.ring_offset v.ring_offset_fits;
    ring_size_at = from-to_le_bytes 8 h.ring_size v.ring_size_fits;
    flags_at = from-to_le_bytes 8 h.flags v.flags_fits;
    head_off_at = from-to_le_bytes 8 h.head_off v.head_off_fits;
    tail_off_at = from-to_le_bytes 8 h.tail_off v.tail_off_fits;
    tail_next_off_at = from-to_le_bytes 8 h.tail_next_off v.tail_next_off_fits;
    oldest_seq_at = from-to_le_bytes 8 h.oldest_seq v.oldest_seq_fits;
    newest_seq_at = from-to_le_bytes 8 h.newest_seq v.newest_seq_fits;
  }

  -- Behind the header nothing changes.
  written_out : (i : ℕ) → 104 ≤ i → (written m h).byte i ≡ m.byte i
  written_out i k = ground arith

-- `write_pool_header` does not panic on a map that holds a header. It leaves the encoding of the
-- header at the front, and changes no byte from 104 on, nor the size.
pub write_pool_header_lem :
    (m : Buffer) (h : PoolHeader)
    → header_size ≤ m.len
    → IsU64 m.len
    → IsEncodable h
    → (m' : Buffer) × (write_pool_header m h ≡ ok m')
      × (m'.len ≡ m.len)
      × PoolHeaderAt m'.byte h
      × ((i : ℕ) → 104 ≤ i → m'.byte i ≡ m.byte i)
unfolding write_pool_header
write_pool_header_lem m h room sized v = (
  written m h,
  write_fields-ok m h room sized,
  refl,
  written-PoolHeaderAt m h room sized v,
  written_out m h room sized,
)

-- A pool header whose fields fit their widths is encoded into the 4096 bytes of a header without a
-- panic, and decoding those bytes gives the same header.
pub decode-encode_pool :
    (h : PoolHeader)
    → IsEncodable h
    → (b : Buffer) × (encode h ≡ ok b) × (b.len ≡ header_size) × (decode b ≡ ok h)
unfolding encode
decode-encode_pool h v = (
  written (zeros header_size) h,
  write_fields-ok (zeros header_size) h (omega arith) (omega arith),
  refl,
  decode-PoolHeaderAt _ h (omega arith) (omega arith)
      (written-PoolHeaderAt (zeros header_size) h (omega arith) (omega arith) v),
)
