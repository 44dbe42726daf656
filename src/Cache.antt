-- ===== src/Cache.antt =====
-- `SeqOffsetCache` of src/core/pool.rs, a bounded cache of ring offsets in the order of their last use,
-- and `Pool::get_with_cache`, which keeps one.
-- `entries` is a list in no order that matters: the source's `HashMap` is used by key only.
pub mod Lists
pub mod Laws
use plasmite.Prelude.{
  ℕ, zero, suc, Bool, true, false, Option, none, some, List, [], ◌∷◌, length, ltb, ◌==◌, not, ◌&&◌,
  ◌||◌, if◌then◌else◌,
}
use plasmite.Error.{Result, ok, err, panic, stuck, ◌>>=◌}
use plasmite.Buffer.{Buffer}
use plasmite.Header.{PoolHeader}
use plasmite.Cursor.{FrameRef, ReadResult, read_frame_at, header_from_mmap}
use plasmite.Pool.{Pool, not_found}

pub record SeqOffsetCache : Type 0 where
  pub max_entries : ℕ
  pub entries : List (ℕ × ℕ)
  pub order : List ℕ

abbrev pub new : ℕ → SeqOffsetCache
new max_entries = record { max_entries = max_entries; entries = []; order = [] }

unfoldable pub len : SeqOffsetCache → ℕ
len c = length c.entries

unfoldable pub is_empty : SeqOffsetCache → Bool
is_empty c = length c.entries == 0

unfoldable pub clear : SeqOffsetCache → SeqOffsetCache
clear c = record c { entries = []; order = [] }

-- `HashMap::get`, `HashMap::remove`, and the insertion of a key that is there or not.
unfoldable pub lookup : List (ℕ × ℕ) → ℕ → Option ℕ
lookup [] seq = none
lookup ((key, offset) ∷ rest) seq = if key == seq then some offset else lookup rest seq

unfoldable pub without : List (ℕ × ℕ) → ℕ → List (ℕ × ℕ)
without [] seq = []
without ((key, offset) ∷ rest) seq = if key == seq then rest else (key, offset) ∷ without rest seq

-- `position` and `VecDeque::remove`: the first occurrence goes.
unfoldable pub remove_first : List ℕ → ℕ → List ℕ
remove_first [] seq = []
remove_first (item ∷ rest) seq = if item == seq then rest else item ∷ remove_first rest seq

unfoldable pub touch : SeqOffsetCache → ℕ → SeqOffsetCache
touch c seq = record c { order = seq ∷ remove_first c.order seq }

-- `get` by what the map has.
abbrev pub get_found : SeqOffsetCache → ℕ → Option ℕ → Option ℕ × SeqOffsetCache
get_found c seq none = (none, c)
get_found c seq (some offset) = (some offset, touch c seq)

unfoldable pub get : SeqOffsetCache → ℕ → Option ℕ × SeqOffsetCache
get c seq = get_found c seq (lookup c.entries seq)

-- `VecDeque::pop_back`: the last item, and what is left.
unfoldable pub pop_back : List ℕ → Option (ℕ × List ℕ)
pop_back [] = none
pop_back (item ∷ rest) = elim (pop_back rest) [
  | none ↦ some (item, [])
  | some (last, left) ↦ some (last, item ∷ left)
]

-- The least recently used entry goes where the cache is full.
abbrev pub evict_last : SeqOffsetCache → Option (ℕ × List ℕ) → SeqOffsetCache
evict_last c none = c
evict_last c (some (last, left)) = record c { entries = without c.entries last; order = left }

unfoldable pub evict : SeqOffsetCache → SeqOffsetCache
evict c = if length c.entries == c.max_entries then evict_last c (pop_back c.order) else c

-- A key that is not there.
unfoldable pub insert_new : SeqOffsetCache → ℕ → ℕ → SeqOffsetCache
insert_new c seq offset =
    let c' = evict c in record c' { entries = (seq, offset) ∷ c'.entries; order = seq ∷ c'.order }

abbrev pub insert_found : SeqOffsetCache → ℕ → ℕ → Option ℕ → SeqOffsetCache
insert_found c seq offset (some _) =
    touch (record c { entries = (seq, offset) ∷ without c.entries seq }) seq
insert_found c seq offset none = insert_new c seq offset

unfoldable pub insert : SeqOffsetCache → ℕ → ℕ → SeqOffsetCache
insert c seq offset =
    if c.max_entries == 0 then c else insert_found c seq offset (lookup c.entries seq)

abbrev pub remove_found : SeqOffsetCache → ℕ → Option ℕ → SeqOffsetCache
remove_found c seq none = c
remove_found c seq (some _) = record c {
  entries = without c.entries seq;
  order = remove_first c.order seq;
}

unfoldable pub remove : SeqOffsetCache → ℕ → SeqOffsetCache
remove c seq = remove_found c seq (lookup c.entries seq)

-- The frame that the cached offset gives, if it is the one that is sought.
unfoldable pub cached_frame : ℕ → Result ReadResult → Option FrameRef
cached_frame seq (ok (ReadResult.message frame next_off)) =
    if frame.seq == seq then some frame else none
cached_frame seq _ = none

-- One round of the walk from the tail; `again` is the next one.
unfoldable pub walk_step :
    (SeqOffsetCache → ℕ → Result FrameRef × SeqOffsetCache)
    → Pool
    → ℕ
    → SeqOffsetCache
    → ℕ
    → Result ReadResult
    → Result FrameRef × SeqOffsetCache
walk_step again p seq cache offset (ok (ReadResult.message frame next_off)) =
    let cache' = insert cache frame.seq offset in
    if frame.seq == seq
    then (ok frame, cache')
    else if ltb seq frame.seq
    then (err (not_found seq), cache')
    else again cache' next_off
walk_step again p seq cache offset (ok ReadResult.wrap) = again cache 0
walk_step again p seq cache offset (ok ReadResult.would_block) = (err (not_found seq), cache)
walk_step again p seq cache offset (ok ReadResult.fell_behind) = elim (header_from_mmap p.mmap) [
  | ok header ↦
      if not (header.oldest_seq == 0) && ltb seq header.oldest_seq
      then (err (not_found seq), cache)
      else again cache header.tail_off
  | err e ↦ (err e, cache)
  | panic ↦ (panic, cache)
  | stuck ↦ (stuck, cache)
]
walk_step again p seq cache offset (err e) = (err e, cache)
walk_step again p seq cache offset panic = (panic, cache)
walk_step again p seq cache offset stuck = (stuck, cache)

-- The loop of `get_with_cache`; the source's has no bound.
unfoldable pub walk :
    ℕ → Pool → PoolHeader → ℕ → SeqOffsetCache → ℕ → Result FrameRef × SeqOffsetCache
walk zero p header seq cache offset = (stuck, cache)
walk (suc rounds) p header seq cache offset =
    let again = λ (c : SeqOffsetCache) (o : ℕ). walk rounds p header seq c o in
    walk_step again p seq cache offset
      (read_frame_at p.mmap header.ring_offset header.ring_size offset)

unfoldable pub get_in_range :
    ℕ → Pool → PoolHeader → ℕ → SeqOffsetCache → Result FrameRef × SeqOffsetCache
get_in_range rounds p header seq cache =
    let (found, touched) = get cache seq in
    elim found [
      | none ↦ walk rounds p header seq touched header.tail_off
      | some offset ↦
          elim (cached_frame seq
            (read_frame_at p.mmap header.ring_offset header.ring_size offset)) [
              | some frame ↦ (ok frame, touched)
              | none ↦ walk rounds p header seq (remove touched seq) header.tail_off
            ]
    ]

unfoldable pub get_with_cache : ℕ → Pool → ℕ → SeqOffsetCache → Result FrameRef × SeqOffsetCache
get_with_cache rounds p seq cache = elim (header_from_mmap p.mmap) [
  | ok header ↦
      if header.oldest_seq == 0 || (ltb seq header.oldest_seq || ltb header.newest_seq seq)
      then (err (not_found seq), cache)
      else get_in_range rounds p header seq cache
  | err e ↦ (err e, cache)
  | panic ↦ (panic, cache)
  | stuck ↦ (stuck, cache)
]
