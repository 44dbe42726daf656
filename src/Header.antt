-- ===== src/Header.antt =====
-- The pool header of src/core/pool.rs: how it is laid out, made for a new pool, encoded, decoded
-- and validated; the format version of src/core/format.rs.
pub mod Codec
pub mod Agree
pub mod Layout
use plasmite.Prelude.{
  ℕ, ◌+◌, ◌-◌, ◌*◌, ◌/◌, ◌%◌, ◌^◌, min, Bool, true, false, Option, none, some, List, [], ◌∷◌,
  String, ltb, leb, ◌==◌, not, ◌&&◌, ◌||◌, if◌then◌else◌, eq_bytes, checked_add, checked_mul,
  add_u64, saturating_sub,
}
use plasmite.Error.{
  Error, Result, ok, err, panic, ErrorKind, failure, with_hint, ensure, ok_or, ◌>>=◌, ◌>>◌,
}
use plasmite.Buffer.{
  Buffer, zeros, of_list, to_list, slice, copy_from_slice, to_le_bytes, read_u32, read_u64,
  write_u32, write_u64,
}

abbrev pub magic : List ℕ
magic = b'P' ∷ b'L' ∷ b'S' ∷ b'M' ∷ []

abbrev pub endianness_le : ℕ
endianness_le = 1

abbrev pub header_size : ℕ
header_size = 4096

abbrev pub index_slot_bytes : ℕ
index_slot_bytes = 16

abbrev pub max_auto_index_capacity : ℕ
max_auto_index_capacity = 65_536

abbrev pub min_ring_size_for_index : ℕ
min_ring_size_for_index = 1024

abbrev pub pool_format_version : ℕ
pool_format_version = 3

-- The detected version, which the source prints into the message, is left out of the text.
unfoldable pub pool_version_error : ℕ → Error
pool_version_error detected =
    with_hint
      "Upgrade plasmite or migrate the pool (export/import). Run `plasmite doctor <pool>` for guidance."
      (failure ErrorKind.usage "unsupported pool format version")

pub record PoolHeader : Type 0 where
  pub file_size : ℕ
  pub index_offset : ℕ
  pub index_capacity : ℕ  -- u32
  pub ring_offset : ℕ
  pub ring_size : ℕ
  pub flags : ℕ
  pub head_off : ℕ
  pub tail_off : ℕ
  pub tail_next_off : ℕ
  pub oldest_seq : ℕ
  pub newest_seq : ℕ

-- `file_size - ring_offset` runs only where the file is larger, so it does not wrap.
unfoldable pub new : ℕ → ℕ → Result PoolHeader
new file_size index_capacity = do
  let index_offset = header_size
  index_bytes ←
      ok_or (checked_mul index_capacity index_slot_bytes) ErrorKind.usage "index capacity too large"
  ring_offset ←
      ok_or (checked_add index_offset index_bytes) ErrorKind.usage "index capacity too large"
  ensure (ltb ring_offset file_size) ErrorKind.usage "file_size must exceed header and index size"
  ok (record {
    file_size = file_size;
    index_offset = index_offset;
    index_capacity = index_capacity;
    ring_offset = ring_offset;
    ring_size = file_size - ring_offset;
    flags = 0;
    head_off = 0;
    tail_off = 0;
    tail_next_off = 0;
    oldest_seq = 0;
    newest_seq = 0;
  })

-- The fields, in the order in which `encode` and `write_pool_header` write them.
unfoldable pub write_fields : Buffer → PoolHeader → Result Buffer
write_fields buf h = do
  buf ← copy_from_slice buf 0 4 (of_list magic)
  buf ← copy_from_slice buf 4 8 (of_list (to_le_bytes 4 pool_format_version))
  buf ← copy_from_slice buf 8 9 (of_list (endianness_le ∷ []))
  buf ← write_u64 buf 16 h.file_size
  buf ← write_u64 buf 24 h.index_offset
  buf ← write_u32 buf 32 h.index_capacity
  buf ← write_u64 buf 40 h.ring_offset
  buf ← write_u64 buf 48 h.ring_size
  buf ← write_u64 buf 56 h.flags
  buf ← write_u64 buf 64 h.head_off
  buf ← write_u64 buf 72 h.tail_off
  buf ← write_u64 buf 80 h.tail_next_off
  buf ← write_u64 buf 88 h.oldest_seq
  write_u64 buf 96 h.newest_seq

unfoldable pub encode : PoolHeader → Result Buffer
encode h = write_fields (zeros header_size) h

-- `write_pool_header(mmap, header)`
unfoldable pub write_pool_header : Buffer → PoolHeader → Result Buffer
write_pool_header mmap h = write_fields mmap h

unfoldable pub decode : Buffer → Result PoolHeader
decode buf = do
  ensure (not (ltb buf.len header_size)) ErrorKind.corrupt "header too small"
  found ← slice buf 0 4
  ensure (eq_bytes (to_list found) magic) ErrorKind.corrupt "bad magic"
  version ← read_u32 buf 4
  (if version == pool_format_version then ok tt else err (pool_version_error version))
  ensure (buf.byte 8 == endianness_le) ErrorKind.corrupt "unsupported endianness"
  file_size ← read_u64 buf 16
  index_offset ← read_u64 buf 24
  index_capacity ← read_u32 buf 32
  ring_offset ← read_u64 buf 40
  ring_size ← read_u64 buf 48
  flags ← read_u64 buf 56
  head_off ← read_u64 buf 64
  tail_off ← read_u64 buf 72
  tail_next_off ← read_u64 buf 80
  oldest_seq ← read_u64 buf 88
  newest_seq ← read_u64 buf 96
  ok (record {
    file_size = file_size;
    index_offset = index_offset;
    index_capacity = index_capacity;
    ring_offset = ring_offset;
    ring_size = ring_size;
    flags = flags;
    head_off = head_off;
    tail_off = tail_off;
    tail_next_off = tail_next_off;
    oldest_seq = oldest_seq;
    newest_seq = newest_seq;
  })

-- The checks of `validate` on the regions of the file, and those on the offsets and sequence numbers.
unfoldable pub validate_regions : PoolHeader → ℕ → Result (Unit {0})
validate_regions h actual_file_size = do
  ensure (not (h.file_size == 0)) ErrorKind.corrupt "invalid file size"
  ensure (h.file_size == actual_file_size) ErrorKind.corrupt "invalid file size"
  ensure (h.index_offset == header_size) ErrorKind.corrupt "invalid index offset"
  index_bytes ←
      ok_or (checked_mul h.index_capacity index_slot_bytes) ErrorKind.corrupt "index size overflow"
  expected_ring_offset ←
      ok_or (checked_add h.index_offset index_bytes) ErrorKind.corrupt "ring offset overflow"
  ensure (leb header_size h.ring_offset) ErrorKind.corrupt "invalid ring offset"
  ensure (h.ring_offset == expected_ring_offset) ErrorKind.corrupt "ring offset mismatch"
  ensure (add_u64 h.ring_offset h.ring_size == h.file_size) ErrorKind.corrupt "ring bounds mismatch"
  ensure (not (h.ring_size == 0)) ErrorKind.corrupt "ring size is zero"

unfoldable pub validate_offsets : PoolHeader → Result (Unit {0})
validate_offsets h = do
  ensure
      ((ltb h.head_off h.ring_size && ltb h.tail_off h.ring_size)
        && ltb h.tail_next_off h.ring_size)
      ErrorKind.corrupt "header offset out of range"
  ensure ((h.head_off % 8 == 0 && h.tail_off % 8 == 0) && h.tail_next_off % 8 == 0)
      ErrorKind.corrupt "header offset not aligned"
  ensure (h.oldest_seq == 0 || leb h.oldest_seq h.newest_seq) ErrorKind.corrupt
      "seq bounds inverted"
  ensure (not (h.oldest_seq == 0) || (h.head_off == h.tail_off && h.tail_next_off == h.tail_off))
      ErrorKind.corrupt "empty header offsets mismatch"

unfoldable pub validate : PoolHeader → ℕ → Result (Unit {0})
validate h actual_file_size = do validate_regions h actual_file_size; validate_offsets h

pub record PoolOptions : Type 0 where
  pub file_size : ℕ
  pub index_capacity : Option ℕ

-- `candidate.min(max_by_budget) as u32`
unfoldable pub resolved_index_capacity : PoolOptions → ℕ
resolved_index_capacity o = elim o.index_capacity [
  | some explicit ↦ explicit
  | none ↦
      let candidate = min (o.file_size / 256) max_auto_index_capacity in
      let usable_for_index = saturating_sub o.file_size (header_size + min_ring_size_for_index) in
      let max_by_budget = usable_for_index / index_slot_bytes in
      if candidate == 0 then 0 else min candidate max_by_budget % 2 ^ 32
]
