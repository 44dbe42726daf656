-- ===== src/Cursor.antt =====
-- src/core/cursor.rs: reading one frame at an offset of the ring, and the cursor that walks the ring.
-- A call sees one state of the memory map: writes of other processes fall between two calls.
use plasmite.Prelude.{
  ℕ, zero, suc, Bool, true, false, Option, none, some, List, ltb, leb, ◌==◌, not, ◌&&◌, ◌||◌,
  if◌then◌else◌, eq_bytes, add_u64,
}
use plasmite.Error.{Result, ok, err, panic, stuck, ErrorKind, failure, ◌>>=◌}
use plasmite.Buffer.{Buffer, slice, to_list}
use plasmite.Frame
use plasmite.Frame.{
  FrameHeader, FrameState, frame_header_len, frame_commit_marker, frame_commit_marker_len,
  frame_total_len,
}
use plasmite.Header
use plasmite.Header.{PoolHeader, header_size}

-- The payload is the bytes of the slice.
pub record FrameRef : Type 0 where
  pub seq : ℕ
  pub timestamp_ns : ℕ
  pub flags : ℕ
  pub payload : List ℕ

pub data CursorResult : Type 0 where
  message : FrameRef → CursorResult
  would_block : CursorResult
  fell_behind : CursorResult

pub data ReadResult : Type 0 where
  message : FrameRef → ℕ → ReadResult
  wrap : ReadResult
  would_block : ReadResult
  fell_behind : ReadResult

-- `if next_off == ring_size { next_off = 0 }`
abbrev pub wrap_offset : ℕ → ℕ → ℕ
wrap_offset next_off ring_size = if next_off == ring_size then 0 else next_off

-- `&mmap[start..end] == bytes`
unfoldable pub matches : Buffer → ℕ → ℕ → List ℕ → Result Bool
matches m start end bytes = do s ← slice m start end; ok (eq_bytes (to_list s) bytes)

-- `read_frame_at` from the computed frame length on.
unfoldable pub read_payload : Buffer → ℕ → ℕ → ℕ → FrameHeader → ℕ → Result ReadResult
read_payload mmap ring_size offset start h frame_len =
    if ltb ring_size (add_u64 offset frame_len) then ok ReadResult.fell_behind else do
      let payload_start = add_u64 start frame_header_len
      let payload_end = add_u64 payload_start h.payload_len
      payload ← slice mmap payload_start payload_end
      let marker_end = add_u64 payload_end frame_commit_marker_len
      marked ← matches mmap payload_end marker_end frame_commit_marker
      ok (
          if marked
          then ReadResult.message
              (record {
                seq = h.seq;
                timestamp_ns = h.timestamp_ns;
                flags = h.flags;
                payload = to_list payload;
              })
              (wrap_offset (add_u64 offset frame_len) ring_size)
          else ReadResult.fell_behind)

-- `read_frame_at` at a committed header, by the outcomes of `validate` and `frame_total_len`.
unfoldable pub read_checked :
    Buffer → ℕ → ℕ → ℕ → FrameHeader → Result (Unit {0}) → Option ℕ → Result ReadResult
read_checked mmap ring_size offset start h (ok _) (some frame_len) =
    read_payload mmap ring_size offset start h frame_len
read_checked mmap ring_size offset start h (ok _) none = ok ReadResult.fell_behind
read_checked mmap ring_size offset start h (err _) _ = ok ReadResult.fell_behind
read_checked mmap ring_size offset start h panic _ = panic
read_checked mmap ring_size offset start h stuck _ = stuck

unfoldable pub read_committed : Buffer → ℕ → ℕ → ℕ → FrameHeader → Result ReadResult
unfolding read_checked
read_committed mmap ring_size offset start h =
    read_checked mmap ring_size offset start h (Frame.validate h ring_size)
      (frame_total_len frame_header_len h.payload_len)

unfoldable pub read_state : FrameState → Buffer → ℕ → ℕ → ℕ → FrameHeader → Result ReadResult
read_state FrameState.wrap mmap ring_size offset start h = ok ReadResult.wrap
read_state FrameState.committed mmap ring_size offset start h =
    read_committed mmap ring_size offset start h
read_state _ mmap ring_size offset start h = ok ReadResult.would_block

-- `match FrameHeader::decode(..)`
unfoldable pub read_decoded : Buffer → ℕ → ℕ → ℕ → Result FrameHeader → Result ReadResult
unfolding read_state
read_decoded mmap ring_size offset start (ok h) = read_state h.state mmap ring_size offset start h
read_decoded mmap ring_size offset start (err _) = ok ReadResult.fell_behind
read_decoded mmap ring_size offset start panic = panic
read_decoded mmap ring_size offset start stuck = stuck

unfoldable pub read_frame_at : Buffer → ℕ → ℕ → ℕ → Result ReadResult
read_frame_at mmap ring_offset ring_size offset =
    let start = add_u64 ring_offset offset in
    let end = add_u64 start frame_header_len in
    if ltb (add_u64 ring_offset ring_size) end then ok ReadResult.fell_behind else do
      view ← slice mmap start end
      read_decoded mmap ring_size offset start (Frame.decode view)

unfoldable pub offset_in_range : ℕ → ℕ → ℕ → ℕ → ℕ → Bool
offset_in_range offset tail head ring_size oldest_seq =
    if oldest_seq == 0
    then false
    else if leb ring_size offset
    then false
    else if head == tail
    then true
    else if ltb tail head
    then leb tail offset && ltb offset head
    else leb tail offset || ltb offset head

pub record Cursor : Type 0 where
  pub next_off : ℕ
  pub last_seq : ℕ

abbrev pub new : Cursor
new = record { next_off = 0; last_seq = 0 }

abbrev pub seek_to : Cursor → ℕ → Cursor
seek_to c offset = record { next_off = offset; last_seq = 0 }

-- `PoolHeader::decode(&self.mmap[0..HEADER_SIZE])`
unfoldable pub header_from_mmap : Buffer → Result PoolHeader
header_from_mmap mmap = do view ← slice mmap 0 header_size; Header.decode view

-- The loop of `next`. A wrap marker sends it to offset 0, where no marker stands.
unfoldable pub next_loop : ℕ → Buffer → PoolHeader → Cursor → Result (Cursor × CursorResult)
next_loop zero mmap header c = stuck
next_loop (suc rounds) mmap header c =
    let again = next_loop rounds mmap header (record c { next_off = 0 }) in
    read_frame_at mmap header.ring_offset header.ring_size c.next_off >>= elim [
      | ReadResult.wrap ↦ again
      | ReadResult.would_block ↦ ok (c, CursorResult.would_block)
      | ReadResult.fell_behind ↦ ok (seek_to c header.tail_off, CursorResult.fell_behind)
      | ReadResult.message frame next_off ↦
          ok (record { next_off = next_off; last_seq = frame.seq }, CursorResult.message frame)
    ]

-- A wrap marker at offset 0 would make the loop of the source run on; two rounds cover every other map.
unfoldable pub next : Buffer → Cursor → Result (Cursor × CursorResult)
next mmap c = do
  header ← header_from_mmap mmap
  (if header.oldest_seq == 0
      then ok (c, CursorResult.would_block)
      else if not (c.last_seq == 0) && leb header.newest_seq c.last_seq
      then ok (c, CursorResult.would_block)
      else if header.ring_size == 0
      then err (failure ErrorKind.corrupt "ring size is zero")
      else let tail = header.tail_off in
        let head = header.head_off in
        let is_full = head == tail && not (header.oldest_seq == 0) in
        if not is_full && c.next_off == head
        then ok (c, CursorResult.would_block)
        else if leb header.ring_size c.next_off
            || not (offset_in_range c.next_off tail head header.ring_size header.oldest_seq)
        then ok (seek_to c tail, CursorResult.fell_behind)
        else next_loop 2 mmap header c)
