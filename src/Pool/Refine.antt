-- ===== src/Pool/Refine.antt =====
-- `append` refines the queue of the messages that a pool holds: it adds one at the end, and lets go of
-- the oldest for it.
use plasmite.Prelude.{ℕ, ◌+◌, ◌≤◌, ◌<◌, ◌≡◌, arith, List, [], ◌∷◌, ◌++◌, refl, ap, ◌∙◌, IsU64}
use plasmite.Error.{Result, ok, ◌>>=◌}
use plasmite.Buffer.{from_le_bytes, Buffer, to_list}
use plasmite.Buffer.Laws.{length-to_list}
use plasmite.Frame.{max_payload_abs}
use plasmite.Frame.Size.{frame_size}
use plasmite.Header.{PoolHeader}
use plasmite.Cursor.{FrameRef}
use plasmite.Plan.{frame_place}
use plasmite.Pool.{Pool, AppendOptions, flush_if, append_with_options}
use plasmite.Pool.Contents.{Contents}
use plasmite.Pool.Slot.{slot_of}
use plasmite.Ring.{FrameAt, size, IsMessage}
use plasmite.Pool.Append.Flush.{flush_written, flush_append-written}
use plasmite.Pool.Append.{
  header_from_mmap-ok, plans, new_header, applied, append_locked-ok, planned_header,
}

-- The message that an append makes of its payload.
abbrev pub message_of : PoolHeader → Buffer → AppendOptions → FrameRef
message_of h payload options = record {
  seq = h.newest_seq + 1;
  timestamp_ns = options.timestamp_ns;
  flags = 0;
  payload = to_list payload;
}

-- What an append leaves behind.
pub record Appended (flush_range : ℕ → ℕ → Result (Unit {0})) (p : Pool) (h : PoolHeader)
    (es : List FrameRef) (payload : Buffer) (options : AppendOptions) : Type 0 where
  pub pool : Pool
  pub gone : List FrameRef
  pub left : List FrameRef
  pub appends :
      append_with_options (ok tt) flush_range p payload options
      ≡ ok (
        pool,
        (flush_if options.durability (flush_written flush_range h (frame_size payload.len)) >>= λ _.
            ok (h.newest_seq + 1)),
      )
  pub parts : es ≡ gone ++ left
  pub contents : Contents pool.mmap pool.header (left ++ (message_of h payload options ∷ []))
  pub live : 0 < pool.header.oldest_seq
  pub newest : pool.header.newest_seq ≡ h.newest_seq + 1
  pub same_index :
      (pool.header.index_offset ≡ h.index_offset) × (pool.header.index_capacity ≡ h.index_capacity)
  pub same_ring : (pool.header.ring_offset ≡ h.ring_offset) × (pool.header.ring_size ≡ h.ring_size)
  pub place : ℕ
  pub inside : place + frame_size payload.len ≤ h.ring_size
  pub frame_at : FrameAt pool.mmap.byte (h.ring_offset + place) (message_of h payload options)
  pub slot_at :
      0 < h.index_capacity
      → (from_le_bytes pool.mmap.byte (slot_of h.index_offset h.index_capacity (h.newest_seq + 1)) 8
          ≡ h.newest_seq + 1)
        × (from_le_bytes pool.mmap.byte
              (slot_of h.index_offset h.index_capacity (h.newest_seq + 1) + 8)
              8
            ≡ place)

pub message_of-IsMessage :
    (h : PoolHeader) (payload : Buffer) (options : AppendOptions)
    → payload.len ≤ max_payload_abs
    → frame_size payload.len ≤ h.ring_size
    → IsU64 options.timestamp_ns
    → IsU64 (h.newest_seq + 1)
    → IsMessage h.ring_size (message_of h payload options)
message_of-IsMessage h payload options small fits time_u64 seq_u64 = record {
  flags_u32 = omega arith;
  seq_u64 = seq_u64;
  timestamp_u64 = time_u64;
  payload_bounded = omega (arith, length-to_list payload);
  payload_fits = omega (arith, length-to_list payload);
}

pub append_lem :
    (flush_range : ℕ → ℕ → Result (Unit {0})) (p : Pool) (h : PoolHeader) (es : List FrameRef)
    (payload : Buffer) (options : AppendOptions)
    → Contents p.mmap h es
    → payload.len ≤ max_payload_abs
    → frame_size payload.len ≤ h.ring_size
    → IsU64 options.timestamp_ns
    → IsU64 (h.newest_seq + 1)
    → Appended flush_range p h es payload options
unfolding append_with_options
append_lem flush_range p h es payload options c small fits time_u64 seq_u64 =
    let e = message_of h payload options in
    let v = message_of-IsMessage h payload options small fits time_u64 seq_u64 in
    let fits' : size e ≤ h.ring_size = omega (arith, length-to_list payload) in
    let P = plans p.mmap h es c payload e v fits' refl refl refl in
    let done = applied p.mmap h es c payload e v fits' refl refl refl in
    let known = planned_header p.mmap h es c payload e v fits' refl refl refl in
    record {
      pool = record {
        mmap = done.0;
        header = new_header p.mmap h es c payload e v fits' refl refl refl;
      };
      gone = P.gone;
      left = P.left;
      appends =
          rw (header_from_mmap-ok p.mmap h es c) (
            append_locked-ok p.mmap h es c payload e v fits' refl refl refl flush_range options
              refl)
          ∙ ap
              (λ flushed. ok (
                record {
                  mmap = done.0;
                  header = new_header p.mmap h es c payload e v fits' refl refl refl;
                },
                (flush_if options.durability flushed >>= λ _. ok (h.newest_seq + 1)),
              ))
              (flush_append-written p.mmap h es c payload e v fits' refl refl refl flush_range
                ∙ ap (λ n. flush_written flush_range h (frame_size n)) (length-to_list payload));
      parts = P.parts;
      contents = done.2;
      live = known.0;
      newest = known.1;
      same_index = known.2;
      same_ring = known.3;
      place = frame_place h (size e);
      inside = omega (arith, P.seat.inside, length-to_list payload);
      frame_at = done.3;
      slot_at = done.4;
    }

-- `append_with_options`, with the lock taken, on a map that holds the messages `es`, refines a queue:
-- if the payload's frame fits the ring, the payload has at most 256 MiB, and the next sequence number
-- and the time fit 64 bits, then it lets go of some of the oldest messages, puts the
-- payload behind the rest under the sequence number after the newest, and leaves a map and a header
-- that hold exactly these messages. With the durability `fast` it answers with that number; with `flush`
-- it does so if the frame, the wrap marker, the index slot and the header can be flushed, and else
-- with the first error of these flushes.
pub append_refines :
    (flush_range : ℕ → ℕ → Result (Unit {0})) (p : Pool) (h : PoolHeader) (es : List FrameRef)
    (payload : Buffer) (options : AppendOptions)
    → Contents p.mmap h es
    → payload.len ≤ max_payload_abs
    → frame_size payload.len ≤ h.ring_size
    → IsU64 options.timestamp_ns
    → IsU64 (h.newest_seq + 1)
    → (p' : Pool) × (gone : List FrameRef) × (left : List FrameRef) × (append_with_options
          (ok tt)
          flush_range
          p
          payload
          options
        ≡ ok (
          p',
          (flush_if options.durability (flush_written flush_range h (frame_size payload.len))
              >>= λ _. ok (h.newest_seq + 1)),
        ))
      × (es ≡ gone ++ left)
      × Contents p'.mmap p'.header (left ++ (message_of h payload options ∷ []))
append_refines flush_range p h es payload options c small fits time_u64 seq_u64 =
    let a = append_lem flush_range p h es payload options c small fits time_u64 seq_u64 in
    (a.pool, a.gone, a.left, a.appends, a.parts, a.contents)
