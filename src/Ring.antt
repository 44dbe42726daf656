-- ===== src/Ring.antt =====
-- The layout of the ring that docs/record/architecture.md describes, independent of the code that
-- writes and reads it: which messages the bytes of a pool hold, oldest first.
pub mod Read
pub mod Total
pub mod Next
pub mod Run
pub mod Agree
use plasmite.Prelude.{
  ℕ, ◌+◌, ◌-◌, ◌*◌, ◌/◌, ◌^◌, ◌≤◌, ◌<◌, ◌≡◌, ◌⊎◌, List, [], ◌∷◌, ◌++◌, length, IsU32, IsU64,
  bit_xor,
}
use plasmite.Buffer.{Buffer, bytes_from}
use plasmite.Frame.{FrameHeader, FrameState, frame_commit_marker, frame_header_len, max_payload_abs}
use plasmite.Frame.Codec.{HeaderAt}
use plasmite.Frame.Size.{frame_size}
use plasmite.Cursor.{FrameRef, wrap_offset}

-- The headers of a committed message and of a wrap marker.
abbrev pub header_with : FrameState → ℕ → ℕ → ℕ → ℕ → FrameHeader
header_with state flags seq timestamp_ns payload_len = record {
  state = state;
  flags = flags;
  header_len = frame_header_len;
  seq = seq;
  timestamp_ns = timestamp_ns;
  payload_len = payload_len;
  payload_len_xor = bit_xor payload_len 0xFFFF_FFFF;
  crc32c = 0;
}

abbrev pub message_header : FrameRef → FrameHeader
message_header e = header_with FrameState.committed e.flags e.seq e.timestamp_ns (length e.payload)

abbrev pub wrap_header : FrameHeader
wrap_header = header_with FrameState.wrap 0 0 0 0

-- The bytes of the ring that a message takes up.
abbrev pub size : FrameRef → ℕ
size e = frame_size (length e.payload)

-- A message that a ring of `ring_size` bytes can hold.
pub record IsMessage (ring_size : ℕ) (e : FrameRef) : Type 0 where
  pub flags_u32 : IsU32 e.flags
  pub seq_u64 : IsU64 e.seq
  pub timestamp_u64 : IsU64 e.timestamp_ns
  pub payload_bounded : length e.payload ≤ max_payload_abs
  pub payload_fits : length e.payload + 72 ≤ ring_size

-- The committed frame of the message stands at `p`.
pub record FrameAt (f : ℕ → ℕ) (p : ℕ) (e : FrameRef) : Type 0 where
  pub header_at : HeaderAt f p (message_header e)
  pub payload_at : bytes_from f (p + 64) (length e.payload) ≡ e.payload
  pub marker_at : bytes_from f (p + 64 + length e.payload) 8 ≡ frame_commit_marker

-- The sequence numbers count up from `first`, and `next` is the one that follows.
abbrev pub Numbered : ℕ → ℕ → List FrameRef → Type 0
Numbered first next [] = first ≡ next
Numbered first next (e ∷ es) = (e.seq ≡ first) × Numbered (first + 1) next es

-- A ring of `ring_size` bytes from `ring_offset` on, in a buffer with the bytes `f`.
module _ (f : ℕ → ℕ) (ring_offset ring_size : ℕ) where
  -- The frames of the messages stand one behind the other from `off` to `stop`.
  abbrev pub Run : ℕ → ℕ → List FrameRef → Type 0
  Run off stop [] = off ≡ stop
  Run off stop (e ∷ es) =
      IsMessage ring_size e × FrameAt f (ring_offset + off) e × Run (off + size e) stop es

  -- Nothing that a reader could take for a message stands from `stop` to the end of the ring.
  abbrev pub Gap : ℕ → Type 0
  Gap stop =
      (stop ≤ ring_size) × ((ring_size - stop < 64) ⊎ HeaderAt f (ring_offset + stop) wrap_header)

  -- The messages stand in one piece, which may end with the ring.
  pub record Straight (tail head : ℕ) (es : List FrameRef) : Type 0 where
    pub stop : ℕ
    pub run : Run tail stop es
    pub some : tail < stop
    pub inside : stop ≤ ring_size
    pub ends : head ≡ wrap_offset stop ring_size

  -- The messages go on at the start of the ring. `before` is empty where the tail stands at the gap.
  pub record Split (tail head : ℕ) (before es : List FrameRef) : Type 0 where
    pub after : List FrameRef
    pub stop : ℕ
    pub parts : es ≡ before ++ after
    pub run_before : Run tail stop before
    pub gap : Gap stop
    pub run_after : Run 0 head after
    pub some : 0 < head
    pub apart : head ≤ tail
    pub inside : tail < ring_size

-- `next` is the offset behind the first message, or 0 where the tail stands at a gap.
abbrev pub Hint : ℕ → ℕ → ℕ → List FrameRef → Type 0
Hint ring_size tail next [] = next ≡ 0
Hint ring_size tail next (e ∷ es) = next ≡ wrap_offset (tail + size e) ring_size
