-- ===== src/Header/Layout.antt =====
-- The layout that `PoolHeader::new` and `PoolHeader::validate` of src/core/pool.rs settle.
use plasmite.Prelude.{
  ℕ, ◌+◌, ◌-◌, ◌*◌, ◌%◌, min, ◌≤◌, ◌<◌, ◌≡◌, ◌⊎◌, ◌↔◌, refl, IsU64, IsU32, arith, none,
}
use plasmite.Error.{ok}
use plasmite.Error.Laws.{>>=-eq-ok}
use plasmite.Header.{
  PoolHeader, validate_regions, validate_offsets, new, validate, PoolOptions,
  resolved_index_capacity, header_size,
}

-- What a header must satisfy to be opened with a file of `size` bytes.
pub record IsPoolHeader (h : PoolHeader) (size : ℕ) : Type 0 where
  pub file_sized : h.file_size ≡ size
  pub index_starts : h.index_offset ≡ header_size
  pub ring_starts : h.ring_offset ≡ header_size + h.index_capacity * 16
  pub ring_ends : h.ring_offset + h.ring_size ≡ size
  pub ring_nonempty : 0 < h.ring_size
  pub head_in : h.head_off < h.ring_size
  pub tail_in : h.tail_off < h.ring_size
  pub tail_next_in : h.tail_next_off < h.ring_size
  pub head_aligned : h.head_off % 8 ≡ 0
  pub tail_aligned : h.tail_off % 8 ≡ 0
  pub tail_next_aligned : h.tail_next_off % 8 ≡ 0
  pub seqs_ordered : (h.oldest_seq ≡ 0) ⊎ (h.oldest_seq ≤ h.newest_seq)
  pub empty_offsets : h.oldest_seq ≡ 0 → (h.head_off ≡ h.tail_off) × (h.tail_next_off ≡ h.tail_off)

module _ (h : PoolHeader) where
  validate_regions_iff :
      (size : ℕ)
      → IsU32 h.index_capacity
      → IsU64 (h.ring_offset + h.ring_size)
      → (validate_regions h size ≡ ok tt) ↔ (
          (h.file_size ≡ size)
          × (h.index_offset ≡ header_size)
          × (h.ring_offset ≡ header_size + h.index_capacity * 16)
          × (h.ring_offset + h.ring_size ≡ size)
          × (0 < h.ring_size))
  unfolding validate_regions
  validate_regions_iff size a b = (λ e. ground arith, λ v. ground arith)

  validate_offsets-inside :
      validate_offsets h ≡ ok tt
      → (h.head_off < h.ring_size)
        × (h.tail_off < h.ring_size)
        × (h.tail_next_off < h.ring_size)
        × (h.head_off % 8 ≡ 0)
        × (h.tail_off % 8 ≡ 0)
        × (h.tail_next_off % 8 ≡ 0)
  unfolding validate_offsets
  validate_offsets-inside e = ground arith

  validate_offsets-seqs :
      validate_offsets h ≡ ok tt
      → ((h.oldest_seq ≡ 0) ⊎ (h.oldest_seq ≤ h.newest_seq))
        × (h.oldest_seq ≡ 0 → (h.head_off ≡ h.tail_off) × (h.tail_next_off ≡ h.tail_off))
  unfolding validate_offsets
  validate_offsets-seqs e = ground arith

  validate_offsets-ok : (size : ℕ) → IsPoolHeader h size → validate_offsets h ≡ ok tt
  unfolding validate_offsets
  validate_offsets-ok size v = ground arith

-- Where the end of the ring does not overflow, `validate` accepts a header exactly when the header
-- describes a file of that size.
pub validate-IsPoolHeader :
    (h : PoolHeader) (size : ℕ)
    → IsU32 h.index_capacity
    → IsU64 (h.ring_offset + h.ring_size)
    → (validate h size ≡ ok tt) ↔ IsPoolHeader h size
unfolding validate
validate-IsPoolHeader h size a b = (accepted, λ v. accepts v)
  where
    accepts : IsPoolHeader h size → validate h size ≡ ok tt
    accepts v =
        rw ((validate_regions_iff h size a b).1 (omega arith)) (validate_offsets-ok h size v)

    accepted : validate h size ≡ ok tt → IsPoolHeader h size
    accepted e =
        let (x, regions, offsets) =
          >>=-eq-ok (validate_regions h size) (λ _. validate_offsets h) e in
        let (sized, index, ring, ends, nonempty) = (validate_regions_iff h size a b).0 regions in
        let (head, tail, next, head8, tail8, next8) = validate_offsets-inside h offsets in
        let (seqs, empty) = validate_offsets-seqs h offsets in
        record {
          file_sized = sized;
          index_starts = index;
          ring_starts = ring;
          ring_ends = ends;
          ring_nonempty = nonempty;
          head_in = head;
          tail_in = tail;
          tail_next_in = next;
          head_aligned = head8;
          tail_aligned = tail8;
          tail_next_aligned = next8;
          seqs_ordered = seqs;
          empty_offsets = empty;
        }

-- A new pool that is accepted has the requested file size and an empty ring behind its index, and
-- its header passes `validate`.
pub new-IsPoolHeader :
    (file_size index_capacity : ℕ) {h : PoolHeader}
    → IsU64 file_size
    → IsU32 index_capacity
    → new file_size index_capacity ≡ ok h
    → IsPoolHeader h file_size × (h.oldest_seq ≡ 0) × (h.index_capacity ≡ index_capacity)
unfolding new
new-IsPoolHeader n k a b e = ground arith

-- A new header has no flags and no message yet.
pub new-zeros :
    (file_size index_capacity : ℕ) {h : PoolHeader}
    → new file_size index_capacity ≡ ok h
    → (h.flags ≡ 0) × (h.newest_seq ≡ 0)
unfolding new
new-zeros n k e = ground arith

new-fits :
    (n k : ℕ)
    → header_size + k * 16 < n
    → IsU64 n
    → (h : PoolHeader) × (new n k ≡ ok h) × (h.ring_size ≡ n - (header_size + k * 16))
unfolding new
new-fits n k a b = (
  record {
    file_size = n;
    index_offset = header_size;
    index_capacity = k;
    ring_offset = header_size + k * 16;
    ring_size = n - (header_size + k * 16);
    flags = 0;
    head_off = 0;
    tail_off = 0;
    tail_next_off = 0;
    oldest_seq = 0;
    newest_seq = 0;
  },
  ground arith,
  refl,
)

resolved_fits :
    (o : PoolOptions)
    → o.index_capacity ≡ none
    → resolved_index_capacity o * 16 ≤ o.file_size - (header_size + 1024)
unfolding resolved_index_capacity
resolved_fits o a = rw a (ground arith)

-- The automatic index never keeps a pool from being made: with default options every file of more
-- than 4096 bytes gets a header, and from 5120 bytes on the ring keeps 1024 bytes.
pub new-resolved :
    (o : PoolOptions)
    → o.index_capacity ≡ none
    → header_size < o.file_size
    → IsU64 o.file_size
    → (h : PoolHeader) × (new o.file_size (resolved_index_capacity o) ≡ ok h)
      × (min 1024 (o.file_size - header_size) ≤ h.ring_size)
new-resolved o a b c =
    let fits = resolved_fits o a in
    let made = new-fits o.file_size (resolved_index_capacity o) (omega arith) c in
    (made.0, made.1, omega arith)
