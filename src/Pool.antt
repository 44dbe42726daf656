-- ===== src/Pool.antt =====
-- src/core/pool.rs: a pool with its memory map, appending to it and getting messages from it.
-- The file, the exclusive lock and the flush to disk are the operating system's: a call takes the
-- outcome of the lock, and of each flush by its range. Notification (`notify::post_for_path`) is
-- ignored by the source, and the debug assertion is not part of a release build.
pub mod Writes
pub mod Slot
pub mod Marker
pub mod Apply
pub mod Contents
pub mod Append
pub mod Refine
pub mod Lookup
pub mod Oldest
pub mod Create
pub mod Reject
pub mod Absent
pub mod Found
use plasmite.Prelude.{
  ℕ, zero, suc, ◌+◌, ◌-◌, ◌*◌, ◌/◌, ◌%◌, ◌^◌, Bool, true, false, Option, none, some, List, ltb, leb,
  ◌==◌, not, ◌&&◌, ◌||◌, if◌then◌else◌, add_u64, checked_add, checked_mul, saturating_sub, sub_u64,
  saturating_add, saturating_mul,
}
use plasmite.Error.{
  Error, Result, ok, err, panic, stuck, ErrorKind, failure, with_seq, ensure, ok_or, ◌>>=◌, ◌>>◌,
}
use plasmite.Error
use plasmite.Buffer.{Buffer, of_list, slice, copy_from_slice, to_le_bytes, read_u64, zeros, store}
use plasmite.Frame
use plasmite.Frame.{
  FrameHeader, FrameState, frame_header_len, frame_commit_marker, frame_commit_marker_len,
  frame_total_len,
}
use plasmite.Header
use plasmite.Header.{
  PoolHeader, PoolOptions, header_size, index_slot_bytes, resolved_index_capacity,
  write_pool_header,
}
use plasmite.Cursor
use plasmite.Cursor.{FrameRef, CursorResult, ReadResult, read_frame_at, header_from_mmap, seek_to}
use plasmite.Plan.{AppendPlan, plan_append}
use mathlib.Core.Option

pub record Pool : Type 0 where
  pub mmap : Buffer
  pub header : PoolHeader

-- `Pool::create` on a file that was cut to `file_size` zero bytes.
unfoldable pub create : PoolOptions → Result Pool
create options = do
  header ← Header.new options.file_size (resolved_index_capacity options)
  buf ← Header.encode header
  mmap ← copy_from_slice (zeros options.file_size) 0 header_size buf
  ok (record {
    mmap = store mmap header.index_offset (header.ring_offset - header.index_offset) (λ i. 0);
    header = header;
  })

-- `Pool::open` on the bytes of a file.
unfoldable pub open_file : Buffer → Result Pool
open_file file = do
  header ←
      (if ltb file.len header_size
        then err (Error.new ErrorKind.corrupt)
        else header_from_mmap file)
  Header.validate header file.len
  ok (record { mmap = file; header = header })

pub record Bounds : Type 0 where
  pub oldest_seq : Option ℕ
  pub newest_seq : Option ℕ

unfoldable pub bounds_from_header : PoolHeader → Bounds
bounds_from_header h =
    if h.oldest_seq == 0
    then record { oldest_seq = none; newest_seq = none }
    else record { oldest_seq = some h.oldest_seq; newest_seq = some h.newest_seq }

unfoldable pub used_ring_bytes : PoolHeader → ℕ
used_ring_bytes h =
    if h.head_off == h.tail_off
    then (if h.oldest_seq == 0 then 0 else h.ring_size)
    else if ltb h.tail_off h.head_off
    then sub_u64 h.head_off h.tail_off
    else saturating_sub h.ring_size (sub_u64 h.tail_off h.head_off)

unfoldable pub index_slot_range : ℕ → ℕ → ℕ → Option (ℕ × ℕ)
index_slot_range index_offset index_capacity seq =
    if index_capacity == 0
    then none
    else Option.bind (checked_mul (seq % index_capacity) index_slot_bytes) λ shift.
      Option.bind (checked_add index_offset shift) λ start. some (start, index_slot_bytes)

unfoldable pub write_index_slot : Buffer → ℕ → ℕ → ℕ → ℕ → Result Buffer
write_index_slot mmap index_offset index_capacity seq ring_relative_offset =
    if index_capacity == 0 then ok mmap else do
      (start, slot_bytes) ←
          ok_or (index_slot_range index_offset index_capacity seq) ErrorKind.corrupt
            "index slot calculation overflow"
      let end = add_u64 start slot_bytes
      ensure (leb end mmap.len) ErrorKind.corrupt "index slot out of bounds"
      mmap ← copy_from_slice mmap start (add_u64 start 8) (of_list (to_le_bytes 8 seq))
      copy_from_slice mmap (add_u64 start 8) end (of_list (to_le_bytes 8 ring_relative_offset))

unfoldable pub write_frame_header : Buffer → ℕ → ℕ → FrameHeader → Result Buffer
write_frame_header mmap ring_offset head header = do
  let start = add_u64 ring_offset head
  encoded ← Frame.encode header
  copy_from_slice mmap start (add_u64 start frame_header_len) encoded

unfoldable pub write_frame : Buffer → ℕ → ℕ → FrameHeader → Buffer → Result Buffer
write_frame mmap ring_offset head header payload = do
  mmap ← write_frame_header mmap ring_offset head header
  let payload_start = add_u64 (add_u64 ring_offset head) frame_header_len
  let payload_end = add_u64 payload_start payload.len
  mmap ← copy_from_slice mmap payload_start payload_end payload
  copy_from_slice mmap payload_end (add_u64 payload_end frame_commit_marker_len)
      (of_list frame_commit_marker)

unfoldable pub write_wrap : Buffer → ℕ → ℕ → Result Buffer
write_wrap mmap ring_offset head =
    write_frame_header mmap ring_offset head (Frame.new FrameState.wrap 0 0 0 0 0)

unfoldable pub write_wrap_at : Buffer → ℕ → Option ℕ → Result Buffer
write_wrap_at mmap ring_offset none = ok mmap
write_wrap_at mmap ring_offset (some head) = write_wrap mmap ring_offset head

-- Where a step fails the map keeps what was written before it; `append` does not fail so on a sound pool.
unfoldable pub apply_append : Buffer → ℕ → AppendPlan → Buffer → ℕ → Result Buffer
apply_append mmap ring_offset plan payload timestamp_ns = do
  expected_len ←
      ok_or (frame_total_len frame_header_len payload.len) ErrorKind.corrupt "frame length overflow"
  ensure (expected_len == plan.frame_len) ErrorKind.corrupt "append plan length mismatch"
  mmap ← write_wrap_at mmap ring_offset plan.wrap_offset
  let header = Frame.new FrameState.writing 0 plan.seq timestamp_ns (payload.len % 2 ^ 32) 0
  mmap ← write_frame mmap ring_offset plan.frame_offset header payload
  mmap ←
      write_frame_header mmap ring_offset plan.frame_offset
        (record header { state = FrameState.committed })
  mmap ←
      write_index_slot mmap plan.next_header.index_offset plan.next_header.index_capacity plan.seq
        plan.frame_offset
  write_pool_header mmap plan.next_header

pub data Durability : Type 0 where
  fast flush : Durability

pub record AppendOptions : Type 0 where
  pub timestamp_ns : ℕ
  pub durability : Durability

-- The ranges that are flushed, in order, given the outcome of flushing `len` bytes from an offset.
unfoldable pub flush_append : (ℕ → ℕ → Result (Unit {0})) → ℕ → AppendPlan → Result (Unit {0})
flush_append flush_range ring_offset plan = do
  flush_range (add_u64 ring_offset plan.frame_offset) plan.frame_len
  (elim plan.wrap_offset [
    | none ↦ ok tt
    | some wrap_head ↦ flush_range (add_u64 ring_offset wrap_head) frame_header_len
  ])
  (if plan.next_header.index_capacity == 0
      then ok tt
      else ok_or
          (index_slot_range plan.next_header.index_offset plan.next_header.index_capacity plan.seq)
          ErrorKind.corrupt "index slot calculation overflow"
        >>= λ slot. flush_range slot.0 slot.1)
  flush_range 0 header_size

abbrev pub flush_if : Durability → Result (Unit {0}) → Result (Unit {0})
flush_if Durability.fast r = ok tt
flush_if Durability.flush r = r

-- The new pool, and the answer: a flush that fails is reported after the message was appended.
unfoldable pub append_locked :
    (ℕ → ℕ → Result (Unit {0})) → Pool → Buffer → AppendOptions → Result (Pool × Result ℕ)
append_locked flush_range p payload options = do
  plan ← plan_append p.header p.mmap payload.len
  mmap ← apply_append p.mmap p.header.ring_offset plan payload options.timestamp_ns
  ok (
    record { mmap = mmap; header = plan.next_header },
    (do
      flush_if options.durability (flush_append flush_range p.header.ring_offset plan)
      ok plan.seq),
  )

unfoldable pub append_with_options :
    Result (Unit {0})
    → (ℕ → ℕ → Result (Unit {0}))
    → Pool
    → Buffer
    → AppendOptions
    → Result (Pool × Result ℕ)
append_with_options lock flush_range p payload options = do
  lock
  header ← header_from_mmap p.mmap
  append_locked flush_range (record p { header = header }) payload options

abbrev pub not_found : ℕ → Error
not_found seq = with_seq seq (failure ErrorKind.not_found "message not found")

abbrev pub frame_of_seq : ℕ → Result ReadResult → Result (Option FrameRef)
frame_of_seq seq (ok (ReadResult.message frame _)) =
    ok (if frame.seq == seq then some frame else none)
frame_of_seq seq panic = panic
frame_of_seq seq stuck = stuck
frame_of_seq seq _ = ok none

unfoldable pub get_via_index : Buffer → PoolHeader → ℕ → Result (Option FrameRef)
get_via_index mmap header seq =
    if header.index_capacity == 0
    then ok none
    else let slot = seq % header.index_capacity in
      let start = add_u64 header.index_offset (slot * index_slot_bytes) in
      let end = add_u64 start index_slot_bytes in
      if ltb mmap.len end then ok none else do
        stored_seq ← read_u64 mmap start
        stored_offset ← read_u64 mmap (add_u64 start 8)
        (if not (stored_seq == seq)
            then ok none
            else if leb header.ring_size stored_offset
            then ok none
            else frame_of_seq seq
                (read_frame_at mmap header.ring_offset header.ring_size stored_offset))

-- One round of the loop of `get`; `again` is the next one.
unfoldable pub scan_step :
    (Cursor.Cursor → Result FrameRef) → Buffer → ℕ → Cursor.Cursor → CursorResult → Result FrameRef
scan_step again mmap seq c (CursorResult.message frame) =
    if frame.seq == seq
    then ok frame
    else if ltb seq frame.seq
    then err (not_found seq)
    else again c
scan_step again mmap seq c CursorResult.would_block = err (not_found seq)
scan_step again mmap seq c CursorResult.fell_behind = do
  header ← header_from_mmap mmap
  (if not (header.oldest_seq == 0) && ltb seq header.oldest_seq
      then err (not_found seq)
      else again (seek_to c header.tail_off))

-- The loop of `get` over the messages from the tail on, on an unchanged map.
unfoldable pub get_scan : ℕ → Buffer → ℕ → Cursor.Cursor → Result FrameRef
unfolding scan_step
get_scan zero mmap seq c = stuck
get_scan (suc rounds) mmap seq c =
    let again = λ (c' : Cursor.Cursor). get_scan rounds mmap seq c' in
    Cursor.next mmap c >>= λ r. scan_step again mmap seq r.0 r.1

-- The frame that the index gives, or else the scan.
abbrev pub found_or_scan : Buffer → PoolHeader → ℕ → Option FrameRef → Result FrameRef
found_or_scan mmap header seq (some frame) = ok frame
found_or_scan mmap header seq none =
    get_scan header.ring_size mmap seq (seek_to Cursor.new header.tail_off)

-- The source's scan has no bound: `stuck` stands for more rounds than the ring has bytes.
unfoldable pub get : Pool → ℕ → Result FrameRef
get p seq = do
  header ← header_from_mmap p.mmap
  (if header.oldest_seq == 0
      then err (not_found seq)
      else if ltb seq header.oldest_seq || ltb header.newest_seq seq
      then err (not_found seq)
      else get_via_index p.mmap header seq >>= found_or_scan p.mmap header seq)
