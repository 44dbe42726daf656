-- ===== src/Pool/Slot.antt =====
-- The write of an index slot, src/core/pool.rs.
use plasmite.Prelude.{
  ℕ, ◌+◌, ◌*◌, ◌%◌, ◌^◌, ◌≤◌, ◌<◌, ◌≡◌, ◌∙◌, inl, arith, refl, ap, some, IsU64, get_or, ltb, ◌==◌,
  leb, true, false, add_u64_exact,
}
use plasmite.Error.{ok}
use plasmite.Buffer.{Buffer, of_list, copy_from_slice, store, to_le_bytes, from_le_bytes}
use plasmite.Buffer.Laws.{
  copy_from_slice-ok, store_out, length-to_le_bytes, put, from_le_bytes-put, from_le_bytes-store_ne,
}
use plasmite.Header.{index_slot_bytes}
use mathlib.Core.Option
use native.Mathlib.Nat.{mod-lt}
use native.Mathlib.Decide.{dec_lt}
use plasmite.Pool.{index_slot_range, write_index_slot}
use plasmite.Pool.Writes.{Only}

abbrev bytes_of : ℕ → ℕ → ℕ
bytes_of x i = get_or (to_le_bytes 8 x) i 0

-- The copy of the eight bytes of a number.
copy_u64 :
    (m : Buffer) (p end x : ℕ)
    → end ≡ p + 8
    → end ≤ m.len
    → copy_from_slice m p end (of_list (to_le_bytes 8 x)) ≡ ok (put m p 8 x)
copy_u64 m p end x h k =
    copy_from_slice-ok m p end (of_list (to_le_bytes 8 x)) (omega (arith, length-to_le_bytes 8 x)) k
    ∙ ap (λ n. ok (store m p n (of_list (to_le_bytes 8 x)).byte)) (length-to_le_bytes 8 x)

-- The index slot of a sequence number.
abbrev pub slot_of : ℕ → ℕ → ℕ → ℕ
slot_of index_offset index_capacity seq = index_offset + seq % index_capacity * index_slot_bytes

pub slot_inside :
    (index_offset index_capacity seq : ℕ)
    → 0 < index_capacity
    → slot_of index_offset index_capacity seq + 16 ≤ index_offset + index_capacity * 16
slot_inside index_offset index_capacity seq some_slots = omega (arith, mod-lt seq some_slots)

pub index_slot_range-some :
    (index_offset index_capacity seq : ℕ)
    → 0 < index_capacity
    → IsU64 (index_offset + index_capacity * 16)
    → index_slot_range index_offset index_capacity seq
      ≡ some (slot_of index_offset index_capacity seq, 16)
unfolding index_slot_range mathlib.Core.Option.bind
index_slot_range-some index_offset index_capacity seq some_slots fits =
    rw (some_capacity, first, second)
  where
    some_capacity : (index_capacity == 0) ≡ false
    some_capacity = ground arith

    first : ltb (seq % index_capacity * index_slot_bytes) (2 ^ 64) ≡ true
    first = ground (arith, slot_inside index_offset index_capacity seq some_slots)

    second : ltb (index_offset + seq % index_capacity * index_slot_bytes) (2 ^ 64) ≡ true
    second = ground (arith, slot_inside index_offset index_capacity seq some_slots)

module _ (m : Buffer) (index_offset index_capacity seq ring_relative_offset : ℕ)
    (sized : IsU64 m.len) (fits : index_offset + index_capacity * 16 ≤ m.len) where
  -- A write to an index with slots: the slot holds the sequence number and the offset.
  pub write_slot_lem :
      0 < index_capacity
      → IsU64 seq
      → IsU64 ring_relative_offset
      → (m' : Buffer) × (write_index_slot m index_offset index_capacity seq ring_relative_offset
          ≡ ok m')
        × Only m m' (slot_of index_offset index_capacity seq) 16
        × (from_le_bytes m'.byte (slot_of index_offset index_capacity seq) 8 ≡ seq)
        × (from_le_bytes m'.byte (slot_of index_offset index_capacity seq + 8) 8
            ≡ ring_relative_offset)
  unfolding write_index_slot
  write_slot_lem some_slots seq_u64 offset_u64 =
      let start = slot_of index_offset index_capacity seq in
      let inside = slot_inside index_offset index_capacity seq some_slots in
      let m1 = put m start 8 seq in
      (
        put m1 (start + 8) 8 ring_relative_offset,
        rw (
          some_capacity,
          index_slot_range-some index_offset index_capacity seq some_slots (omega arith),
          add_u64_exact start 16 (omega arith),
          end_inside,
          add_u64_exact start 8 (omega arith),
          copy_u64 m start (start + 8) seq refl (omega arith),
          copy_u64 m1 (start + 8) (start + 16) ring_relative_offset (omega arith) (omega arith),
        ),
        record {
          same_len = refl;
          outside = λ i out.
              store_out m1 (start + 8) 8 i (bytes_of ring_relative_offset) (omega arith)
              ∙ store_out m start 8 i (bytes_of seq) (omega arith);
        },
        from_le_bytes-store_ne m1 (start + 8) 8 start 8 (bytes_of ring_relative_offset)
              (inl (omega arith))
            ∙ from_le_bytes-put m start 8 seq seq_u64,
        from_le_bytes-put m1 (start + 8) 8 ring_relative_offset offset_u64,
      )
    where
      some_capacity : (index_capacity == 0) ≡ false
      some_capacity = ground arith

      end_inside : leb (slot_of index_offset index_capacity seq + 16) m.len ≡ true
      end_inside = ground (arith, slot_inside index_offset index_capacity seq some_slots)

  -- With or without slots, only the index changes.
  pub write_index_slot_lem :
      IsU64 seq
      → IsU64 ring_relative_offset
      → (m' : Buffer) × (write_index_slot m index_offset index_capacity seq ring_relative_offset
          ≡ ok m')
        × Only m m' index_offset (index_capacity * 16)
        × (0 < index_capacity
            → (from_le_bytes m'.byte (slot_of index_offset index_capacity seq) 8 ≡ seq)
              × (from_le_bytes m'.byte (slot_of index_offset index_capacity seq + 8) 8
                  ≡ ring_relative_offset))
  unfolding write_index_slot
  write_index_slot_lem seq_u64 offset_u64 = elim (dec_lt 0 index_capacity) [
    | yes some_slots ↦
        let (m', writes, only, seq_at, offset_at) = write_slot_lem some_slots seq_u64 offset_u64 in
        (
          m',
          writes,
          record {
            same_len = only.same_len;
            outside = λ i out.
                only.outside i
                  (omega (arith, slot_inside index_offset index_capacity seq some_slots));
          },
          λ k. (seq_at, offset_at),
        )
    | no none_there ↦ (
      m,
      ground arith,
      record { same_len = refl; outside = λ i out. refl },
      λ k. absurd (none_there k),
    )
  ]
