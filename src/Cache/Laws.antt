-- ===== src/Cache/Laws.antt =====
-- The cache of ring offsets: its two parts hold the same sequence numbers, once each, and no more than
-- `max_entries`.
use plasmite.Prelude.{
  ℕ, suc, ◌≤◌, ◌<◌, ◌≡◌, inl, inr, ap, arith, refl, none, some, List, [], ◌∷◌, if◌then◌else◌,
  length, ◌==◌, Option-cases, Bool-cases, true,
}
use plasmite.Cache.{SeqOffsetCache, lookup, without, touch, get, evict, insert_new, insert, remove}
use plasmite.Cache.Lists.{
  count, count_key, lookup-none, lookup-some, count_key-without, length-without, count-remove_first,
  length-remove_first, pop_back_cases,
}

pub record IsCache (c : SeqOffsetCache) : Type 0 where
  pub bounded : length c.entries ≤ c.max_entries
  pub same_length : length c.order ≡ length c.entries
  pub same_keys : (seq : ℕ) → count_key c.entries seq ≡ count c.order seq
  pub distinct : (seq : ℕ) → count_key c.entries seq ≤ 1

module _ (c : SeqOffsetCache) (v : IsCache c) where
  touch-IsCache : (seq : ℕ) → 0 < count_key c.entries seq → IsCache (touch c seq)
  unfolding touch
  touch-IsCache seq there = record {
    bounded = v.bounded;
    same_length =
        omega
          (arith, length-remove_first c.order seq (omega (arith, v.same_keys seq)), v.same_length);
    same_keys = λ other. omega (
      arith,
      v.same_keys other,
      count-remove_first c.order seq other (omega (arith, v.same_keys seq)),
    );
    distinct = v.distinct;
  }

  replace-IsCache :
      (seq offset : ℕ)
      → 0 < count_key c.entries seq
      → IsCache (record c { entries = (seq, offset) ∷ without c.entries seq })
  replace-IsCache seq offset there = record {
    bounded = omega (arith, length-without c.entries seq there, v.bounded);
    same_length = omega (arith, length-without c.entries seq there, v.same_length);
    same_keys =
        λ other. omega (arith, count_key-without c.entries seq other there, v.same_keys other);
    distinct =
        λ other. omega (arith, count_key-without c.entries seq other there, v.distinct other);
  }

  -- Getting keeps the cache well formed.
  pub get-IsCache : (seq : ℕ) → IsCache (get c seq).1
  unfolding get
  get-IsCache seq = elim (Option-cases (lookup c.entries seq)) [
    | inl absent ↦ rw absent v
    | inr (offset, there) ↦ rw there (touch-IsCache seq (lookup-some c.entries seq offset there))
  ]

  -- So does removing.
  pub remove-IsCache : (seq : ℕ) → IsCache (remove c seq)
  unfolding remove
  remove-IsCache seq = elim (Option-cases (lookup c.entries seq)) [
    | inl absent ↦ rw absent v
    | inr (offset, there) ↦
        let some_key = lookup-some c.entries seq offset there in
        rw there (record {
          bounded = omega (arith, length-without c.entries seq some_key, v.bounded);
          same_length = omega (
            arith,
            length-without c.entries seq some_key,
            v.same_length,
            length-remove_first c.order seq (omega (arith, v.same_keys seq)),
          );
          same_keys = λ other. omega (
            arith,
            v.same_keys other,
            count_key-without c.entries seq other some_key,
            count-remove_first c.order seq other (omega (arith, v.same_keys seq)),
          );
          distinct = λ other.
              omega (arith, count_key-without c.entries seq other some_key, v.distinct other);
        })
  ]

  -- After the eviction there is room for one more, and no key is there that was not.
  record Evicted : Type 0 where
    room : length (evict c).entries < c.max_entries
    same_max : (evict c).max_entries ≡ c.max_entries
    kept : IsCache (evict c)
    fewer : (seq : ℕ) → count_key (evict c).entries seq ≤ count_key c.entries seq

  evicted : 0 < c.max_entries → Evicted
  unfolding evict
  evicted some_room = elim (Bool-cases (length c.entries == c.max_entries)) [
    | inr below ↦ record {
      room = rw below (ground (arith, v.bounded));
      same_max = rw below;
      kept = rw below v;
      fewer = λ seq. rw below (omega arith);
    }
    | inl full ↦ elim (pop_back_cases c.order) [
      | inl (empty, nothing) ↦ absurd (ground (arith, ap length nothing, v.same_length))
      | inr popped ↦
          let there : 0 < count_key c.entries popped.last =
            ground (arith, v.same_keys popped.last, popped.same_count popped.last) in
          let one_less = length-without c.entries popped.last there in
          record {
            room = rw (full, popped.pops) (omega (arith, v.bounded));
            same_max = rw (full, popped.pops);
            kept =
                rw (full, popped.pops)
                  (record {
                    bounded = omega (arith, v.bounded);
                    same_length = omega (arith, popped.one_less, v.same_length);
                    same_keys = λ other. omega (
                      arith,
                      v.same_keys other,
                      popped.same_count other,
                      count_key-without c.entries popped.last other there,
                    );
                    distinct = λ other. omega (
                      arith,
                      v.distinct other,
                      count_key-without c.entries popped.last other there,
                    );
                  });
            fewer = λ seq.
                rw (full, popped.pops)
                  (omega (arith, count_key-without c.entries popped.last seq there));
          }
    ]
  ]

  insert_new-IsCache :
      (seq offset : ℕ)
      → 0 < c.max_entries
      → count_key c.entries seq ≡ 0
      → IsCache (insert_new c seq offset)
  unfolding insert_new
  insert_new-IsCache seq offset some_room absent =
      let w = evicted some_room in
      record {
        bounded = omega (arith, w.room, w.same_max);
        same_length = ap suc w.kept.same_length;
        same_keys = λ other. omega (arith, w.kept.same_keys other);
        distinct = λ other. ground (arith, w.kept.distinct other, w.fewer seq, absent);
      }

  new-max :
      (seq offset : ℕ) → 0 < c.max_entries → (insert_new c seq offset).max_entries ≡ c.max_entries
  unfolding insert_new
  new-max seq offset some_room = (evicted some_room).same_max

same_seq : (seq : ℕ) → (seq == seq) ≡ true
same_seq seq = ground arith

-- Inserting an entry into a well-formed cache gives a well-formed cache of the same bound: the map
-- and the order hold the same sequence numbers, once each, and no more than `max_entries`.
pub insert-IsCache :
    (c : SeqOffsetCache) (seq offset : ℕ)
    → IsCache c
    → IsCache (insert c seq offset) × ((insert c seq offset).max_entries ≡ c.max_entries)
unfolding insert touch
insert-IsCache c seq offset v = elim (Bool-cases (c.max_entries == 0)) [
  | inl closed ↦ (rw closed v, rw closed)
  | inr open_one ↦ elim (Option-cases (lookup c.entries seq)) [
    | inl absent ↦ (
      rw (open_one, absent)
          (insert_new-IsCache c v seq offset (ground arith) (lookup-none c.entries seq absent)),
      rw (open_one, absent) (new-max c v seq offset (ground arith)),
    )
    | inr (old, there) ↦
        let some_key = lookup-some c.entries seq old there in
        (
          rw (open_one, there)
              (touch-IsCache (record c { entries = (seq, offset) ∷ without c.entries seq })
                (replace-IsCache c v seq offset some_key) seq (ground arith)),
          rw (open_one, there),
        )
  ]
]

lookup-nothing : (entries : List (ℕ × ℕ)) (seq : ℕ) → length entries ≤ 0 → lookup entries seq ≡ none
unfolding lookup
lookup-nothing [] seq e = refl
lookup-nothing (entry ∷ entries) seq e = absurd (omega arith)

-- In a well-formed cache, the offset that was inserted last for a sequence number is the one that `get`
-- finds for it, or none if the cache may not have entries.
pub get-insert :
    (c : SeqOffsetCache) (seq offset : ℕ)
    → IsCache c
    → (get (insert c seq offset) seq).0 ≡ (if c.max_entries == 0 then none else some offset)
unfolding get insert lookup insert_new touch
get-insert c seq offset v = elim (Bool-cases (c.max_entries == 0)) [
  | inl closed ↦
      let nothing = lookup-nothing c.entries seq (ground (arith, v.bounded, closed)) in
      rw (closed, nothing) refl
  | inr open_one ↦ elim (Option-cases (lookup c.entries seq)) [
    | inl absent ↦ rw (open_one, absent, same_seq seq)
    | inr (old, there) ↦ rw (open_one, there, same_seq seq)
  ]
]
