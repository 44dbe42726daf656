-- ===== src/Tests/Reading.antt =====
-- The cache, a frame that is read, and a tail, at concrete inputs.
use plasmite.Prelude.{
  ℕ, ◌+◌, ◌-◌, ◌≡◌, refl, arith, none, some, List, [], ◌∷◌, if◌then◌else◌, ltb, true,
}
use plasmite.Error.{ok}
use plasmite.Buffer.{Buffer, of_list, to_list, bytes_from, from_le_bytes, zeros}
use plasmite.Frame
use plasmite.Frame.{FrameHeader, FrameState, frame_total_len, max_payload_abs}
use plasmite.Header
use plasmite.Header.{
  PoolHeader, PoolOptions, header_size, resolved_index_capacity, write_pool_header,
}
use plasmite.Cursor.{FrameRef, ReadResult, read_frame_at, wrap_offset}
use plasmite.Ring.{FrameAt}
use plasmite.Ring.Read.{read_frame_at-message}
use plasmite.Ring.Total.{read_frame_at-total}
use mathlib.Core.Option
use plasmite.Buffer
use plasmite.Cursor
use plasmite.Header.Codec.{written}
use plasmite.Stream
use plasmite.Stream.{Tail, next_message, has_required_tags}
use plasmite.Stream.Laws.{Within, next_message_lem}
use plasmite.Cache.{SeqOffsetCache, get, insert}
use plasmite.Cache.Laws.{IsCache, insert-IsCache, get-insert}

-- A cache of one entry.
abbrev one_entry : SeqOffsetCache
one_entry = record { max_entries = 1; entries = (7, 80) ∷ []; order = 7 ∷ [] }

one_entry-IsCache : IsCache one_entry
one_entry-IsCache = record {
  bounded = omega arith;
  same_length = refl;
  same_keys = λ seq. refl;
  distinct = λ seq. ground arith;
}

insert-IsCache_example :
    IsCache (insert one_entry 8 160) × ((insert one_entry 8 160).max_entries ≡ 1)
insert-IsCache_example = insert-IsCache one_entry 8 160 one_entry-IsCache

get-insert_example : (get (insert one_entry 8 160) 8).0 ≡ some 160
get-insert_example = get-insert one_entry 8 160 one_entry-IsCache

-- A ring of 80 bytes that is one frame, at offset 0 of its buffer.
abbrev one_message : FrameRef
one_message = record { seq = 1; timestamp_ns = 1_000; flags = 0; payload = 7 ∷ [] }

abbrev one_frame : Buffer
one_frame = of_list (
    b'F' ∷ b'R' ∷ b'M' ∷ b'1' ∷ 2 ∷ 0 ∷ 0 ∷ 0 ∷ 0 ∷ 0 ∷ 0 ∷ 0 ∷ 64 ∷ 0 ∷ 0 ∷ 0 ∷ 1 ∷ 0 ∷ 0 ∷ 0 ∷ 0
    ∷ 0 ∷ 0 ∷ 0 ∷ 232 ∷ 3 ∷ 0 ∷ 0 ∷ 0 ∷ 0 ∷ 0 ∷ 0 ∷ 1 ∷ 0 ∷ 0 ∷ 0 ∷ 254 ∷ 255 ∷ 255 ∷ 255 ∷ 0 ∷ 0
    ∷ 0 ∷ 0 ∷ 0 ∷ 0 ∷ 0 ∷ 0 ∷ 0 ∷ 0 ∷ 0 ∷ 0 ∷ 0 ∷ 0 ∷ 0 ∷ 0 ∷ 0 ∷ 0 ∷ 0 ∷ 0 ∷ 0 ∷ 0 ∷ 0 ∷ 0 ∷ 7
    ∷ b'P' ∷ b'L' ∷ b'S' ∷ b'M' ∷ b'C' ∷ b'M' ∷ b'I' ∷ b'T' ∷ 0 ∷ 0 ∷ 0 ∷ 0 ∷ 0 ∷ 0 ∷ 0 ∷ [])

one-FrameAt : FrameAt one_frame.byte (0 + 0) one_message
unfolding from_le_bytes bytes_from Frame.state_code
one-FrameAt = record {
  header_at = record {
    magic_at = refl;
    state_at = refl;
    flags_at = refl;
    header_len_at = refl;
    seq_at = refl;
    timestamp_at = refl;
    payload_len_at = refl;
    payload_len_xor_at = refl;
    crc32c_at = refl;
  };
  payload_at = refl;
  marker_at = refl;
}

read_frame_at-message_example :
    read_frame_at one_frame 0 80 0 ≡ ok (ReadResult.message one_message 0)
read_frame_at-message_example =
    read_frame_at-message one_frame 0 80 (omega arith) (omega arith) 0 one_message
      (record {
        flags_u32 = omega arith;
        seq_u64 = omega arith;
        timestamp_u64 = omega arith;
        payload_bounded = omega arith;
        payload_fits = omega arith;
      })
      (omega arith) one-FrameAt

read_frame_at-total_example : (r : ReadResult) × (read_frame_at one_frame 0 80 8 ≡ ok r)
read_frame_at-total_example =
    read_frame_at-total one_frame 0 80 8 (omega arith) (omega arith) (omega arith)

-- A pool whose ring is one frame, which is both the oldest and the newest message.
abbrev full_header : PoolHeader
full_header = record {
  file_size = 4176;
  index_offset = 4096;
  index_capacity = 0;
  ring_offset = 4096;
  ring_size = 80;
  flags = 0;
  head_off = 0;
  tail_off = 0;
  tail_next_off = 0;
  oldest_seq = 1;
  newest_seq = 1;
}

abbrev full_map : Buffer
full_map = record {
  len = 4176;
  byte = λ i.
      if ltb i 4096
      then (written (zeros header_size) full_header).byte i
      else one_frame.byte (i - 4096);
}

abbrev one_tag : List ℕ
one_tag = b'a' ∷ []

abbrev two_tags : FrameRef → List (List ℕ)
two_tags frame = (b'b' ∷ []) ∷ one_tag ∷ []

abbrev tail_one : Tail
tail_one = record {
  cursor = Cursor.new;
  options = record {
    since_seq = some 1;
    max_messages = some 1;
    tags = one_tag ∷ [];
    poll_interval = 50;
    timeout = none;
  };
  seen = 0;
  deadline = none;
}

abbrev no_tags : FrameRef → List (List ℕ)
no_tags frame = []

tail_gets_message :
    next_message two_tags (λ frame. ok frame) (record { now = 0; mmap = full_map } ∷ []) tail_one
    ≡ ok (
      record tail_one { cursor = record { next_off = 0; last_seq = 1 }; seen = 1 },
      some one_message,
    )
unfolding next_message Stream.next_loop Stream.on_result Stream.on_frame Stream.deliver
    Stream.has_required_tags Stream.any_tag Cursor.next Cursor.next_loop Cursor.header_from_mmap
    Cursor.offset_in_range Buffer.slice Buffer.read_u32 Buffer.read_u64 from_le_bytes bytes_from
    to_list Header.decode read_frame_at Cursor.read_decoded Cursor.read_state Cursor.read_committed
    Cursor.read_checked Cursor.read_payload Cursor.matches Frame.decode Frame.validate
    Frame.from_u32 frame_total_len Frame.align8 Frame.max_payload Buffer.to_le_bytes
    mathlib.Core.Option.bind
tail_gets_message = refl

next_message_lem_example :
    (has_required_tags (two_tags one_message) (one_tag ∷ []) ≡ true)
    × (1 ≡ 0 + 1)
    × Within (some 1) 1
next_message_lem_example =
    next_message_lem two_tags (λ frame. ok frame) (record { now = 0; mmap = full_map } ∷ [])
      tail_one (record tail_one { cursor = record { next_off = 0; last_seq = 1 }; seen = 1 })
      one_message tail_gets_message
