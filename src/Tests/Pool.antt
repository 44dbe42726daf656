-- ===== src/Tests/Pool.antt =====
-- Making, opening and appending to a pool, at concrete inputs.
use plasmite.Prelude.{
  ℕ, ◌+◌, ◌≤◌, ◌<◌, ◌≡◌, ◌≢◌, ◌⊎◌, refl, sym, subst, ap, inl, arith, List, [], ◌∷◌, ◌++◌,
}
use plasmite.Error.{Result, ok, err, ErrorKind, failure, ◌>>=◌}
use plasmite.Buffer.{Buffer, of_list, zeros}
use plasmite.Header
use plasmite.Header.{
  PoolHeader, PoolOptions, header_size, resolved_index_capacity, write_pool_header,
}
use plasmite.Pool.{
  Pool, create, open_file, AppendOptions, Durability, append_with_options, flush_if, get,
  bounds_from_header, not_found,
}
use plasmite.Pool.Contents.{Contents}
use plasmite.Pool.Create.{create_lem, open_file_lem}
use plasmite.Cursor
use plasmite.Cursor.{
  FrameRef, CursorResult, ReadResult, next, seek_to, header_from_mmap, read_frame_at,
}
use plasmite.Pool.Refine.{Appended, append_lem, append_refines, message_of}
use plasmite.Pool.Lookup.{get-append}
use plasmite.Pool.Oldest.{next_oldest}
use plasmite.Metrics.{message_count_of}
use plasmite.Metrics.Laws.{message_count_lem}
use plasmite.Pool.Reject.{refusal, append_rejects}
use plasmite.Pool.Absent.{get-absent}
use plasmite.Ring.Next.{next-total}
use plasmite.Frame.Size.{frame_size}
use plasmite.Pool.Append.{header_from_mmap-ok}
use plasmite.Pool.Append.Flush.{flush_written}
use plasmite.Pool.Found.{get-seq}
use mathlib.Core.List.{Mem, mem-cons, not-mem-nil}
use mathlib.Core.Logic.Or
use mathlib.Core.HLevel.{⊥_prop}
use plasmite.Tests.{small_options, small_header}

small_capacity : resolved_index_capacity small_options ≡ 4
unfolding resolved_index_capacity
small_capacity = refl

small_new : Header.new 8192 (resolved_index_capacity small_options) ≡ ok small_header
unfolding Header.new resolved_index_capacity
small_new = refl

create_lem_example :
    (p : Pool) × (create small_options ≡ ok p)
    × (p.mmap.len ≡ 8192)
    × (p.header ≡ small_header)
    × Contents p.mmap p.header []
create_lem_example =
    create_lem small_options small_header small_new (omega arith) (omega (arith, small_capacity))

small_pool :
    (p : Pool) × (create small_options ≡ ok p)
    × (p.mmap.len ≡ 8192)
    × (p.header ≡ small_header)
    × Contents p.mmap p.header []
small_pool =
    create_lem small_options small_header small_new (omega arith) (omega (arith, small_capacity))

open_file_lem_example :
    open_file small_pool.0.mmap
    ≡ ok (record { mmap = small_pool.0.mmap; header = small_pool.0.header })
open_file_lem_example = open_file_lem small_pool.0.mmap small_pool.0.header [] small_pool.4

abbrev hello : Buffer
hello = of_list (104 ∷ 101 ∷ 108 ∷ 108 ∷ 111 ∷ [])

abbrev hello_options : AppendOptions
hello_options = record { timestamp_ns = 1_000; durability = Durability.flush }

abbrev flush_ok : ℕ → ℕ → Result (Unit {0})
flush_ok offset len = ok tt

append_refines_example :
    (p' : Pool) × (gone : List FrameRef) × (left : List FrameRef) × (append_with_options
        (ok tt)
        flush_ok
        small_pool.0
        hello
        hello_options
      ≡ ok (
        p',
        (flush_if Durability.flush
              (flush_written flush_ok small_pool.0.header (frame_size hello.len))
            >>= λ _. ok (small_pool.0.header.newest_seq + 1)),
      ))
    × ([] ≡ gone ++ left)
    × Contents p'.mmap p'.header (left ++ (message_of small_pool.0.header hello hello_options ∷ []))
append_refines_example =
    append_refines flush_ok small_pool.0 small_pool.0.header [] hello hello_options small_pool.4
      (omega arith) (omega (arith, ap (λ (h : PoolHeader). h.ring_size) small_pool.3)) (omega arith)
      (omega (arith, ap (λ (h : PoolHeader). h.newest_seq) small_pool.3))

append_rejects_example :
    append_with_options (ok tt) flush_ok small_pool.0 (zeros 5000) hello_options
    ≡ err (failure ErrorKind.usage (refusal small_pool.0.header.ring_size 5000))
append_rejects_example =
    append_rejects flush_ok small_pool.0 small_pool.0.header [] (zeros 5000) hello_options
      small_pool.4 (inl (omega (arith, ap (λ (h : PoolHeader). h.ring_size) small_pool.3)))

small_refusal : refusal 4032 5000 ≡ "payload exceeds ring capacity"
small_refusal = refl

small_ring : small_pool.0.header.ring_size ≡ 4032
small_ring = ap (λ (h : PoolHeader). h.ring_size) small_pool.3

small_newest : small_pool.0.header.newest_seq ≡ 0
small_newest = ap (λ (h : PoolHeader). h.newest_seq) small_pool.3

small_slots : small_pool.0.header.index_capacity ≡ 4
small_slots = ap (λ (h : PoolHeader). h.index_capacity) small_pool.3

small_offset : small_pool.0.header.ring_offset ≡ 4160
small_offset = ap (λ (h : PoolHeader). h.ring_offset) small_pool.3

get-append_example :
    (p' : Pool) × (answer : Result ℕ) × (append_with_options
        (ok tt)
        flush_ok
        small_pool.0
        hello
        hello_options
      ≡ ok (p', answer))
    × (get p' (small_pool.0.header.newest_seq + 1)
        ≡ ok (message_of small_pool.0.header hello hello_options))
get-append_example =
    get-append flush_ok small_pool.0 small_pool.0.header [] hello hello_options small_pool.4
      (omega arith) (omega (arith, small_ring)) (omega arith) (omega (arith, small_newest))
      (omega (arith, small_slots))

-- The small pool with one message.
hello_appended : Appended flush_ok small_pool.0 small_pool.0.header [] hello hello_options
hello_appended =
    append_lem flush_ok small_pool.0 small_pool.0.header [] hello hello_options small_pool.4
      (omega arith) (omega (arith, small_ring)) (omega arith) (omega (arith, small_newest))

nothing_left : (xs ys : List FrameRef) → [] ≡ xs ++ ys → ys ≡ []
nothing_left [] ys e = sym e
nothing_left (x ∷ xs) ys e = absurd (grind (arith, e))

abbrev hello_message : FrameRef
hello_message = message_of small_pool.0.header hello hello_options

hello_contents : Contents hello_appended.pool.mmap hello_appended.pool.header (hello_message ∷ [])
hello_contents =
    subst
      (λ left.
        Contents hello_appended.pool.mmap hello_appended.pool.header (left ++ (hello_message ∷ [])))
      (nothing_left hello_appended.gone hello_appended.left hello_appended.parts)
      hello_appended.contents

next_oldest_example :
    ((next_off : ℕ) × (next hello_appended.pool.mmap
          (seek_to Cursor.new hello_appended.pool.header.tail_off)
        ≡ ok (
          record { next_off = next_off; last_seq = hello_message.seq },
          CursorResult.message hello_message,
        )))
    ⊎ ((hello_appended.pool.header.ring_size < hello_appended.pool.header.tail_off + 64)
        × (next hello_appended.pool.mmap (seek_to Cursor.new hello_appended.pool.header.tail_off)
            ≡ ok
                (seek_to Cursor.new hello_appended.pool.header.tail_off, CursorResult.fell_behind)))
next_oldest_example =
    next_oldest hello_appended.pool.mmap hello_appended.pool.header hello_message [] hello_contents
      (omega
        (arith, hello_contents.valid.ring_ends, hello_appended.same_ring, small_ring, small_offset))
      Cursor.new

message_count_lem_example :
    message_count_of
      (bounds_from_header hello_appended.pool.header).oldest_seq
      (bounds_from_header hello_appended.pool.header).newest_seq
    ≡ 1
message_count_lem_example =
    message_count_lem hello_appended.pool.mmap hello_appended.pool.header (hello_message ∷ [])
      hello_contents

hello_seq : (e : FrameRef) → Mem e (hello_message ∷ []) → e.seq ≢ 7
hello_seq e among seq_eq =
    Or.elim ⊥_prop (mem-cons.0 among)
      (λ same. absurd (omega (arith, ap (λ (m : FrameRef). m.seq) same, small_newest, seq_eq)))
      not-mem-nil

get-absent_example : get hello_appended.pool 7 ≡ err (not_found 7)
get-absent_example =
    get-absent hello_appended.pool hello_appended.pool.header (hello_message ∷ []) 7 hello_contents
      hello_seq

hello_got : (p' : Pool) × (get p' (small_pool.0.header.newest_seq + 1) ≡ ok hello_message)
hello_got =
    let (p', _, _, found) =
      get-append flush_ok small_pool.0 small_pool.0.header [] hello hello_options small_pool.4
        (omega arith) (omega (arith, small_ring)) (omega arith) (omega (arith, small_newest))
        (omega (arith, small_slots)) in
    (p', found)

get-seq_example :
    (hello_message.seq ≡ small_pool.0.header.newest_seq + 1)
    × ((h : PoolHeader) × (header_from_mmap hello_got.0.mmap ≡ ok h)
        × (0 < h.oldest_seq)
        × (h.oldest_seq ≤ small_pool.0.header.newest_seq + 1)
        × (small_pool.0.header.newest_seq + 1 ≤ h.newest_seq))
get-seq_example = get-seq hello_got.0 (small_pool.0.header.newest_seq + 1) hello_message hello_got.1

next-total_example :
    ((c' : Cursor.Cursor) × (r : CursorResult) × (next hello_appended.pool.mmap Cursor.new
        ≡ ok (c', r)))
    ⊎ (read_frame_at hello_appended.pool.mmap hello_appended.pool.header.ring_offset
          hello_appended.pool.header.ring_size 0
        ≡ ok ReadResult.wrap)
next-total_example =
    next-total hello_appended.pool.mmap hello_appended.pool.header
      (omega
        (arith, hello_contents.valid.ring_ends, hello_appended.same_ring, small_ring, small_offset))
      hello_contents.valid
      (header_from_mmap-ok hello_appended.pool.mmap hello_appended.pool.header (hello_message ∷ [])
        hello_contents)
      Cursor.new
