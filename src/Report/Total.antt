-- ===== src/Report/Total.antt =====
-- The report on arbitrary bytes, and where the spot check of the index panics.
use plasmite.Prelude.{
  ℕ, ◌+◌, ◌^◌, ◌<◌, ◌≡◌, ◌≢◌, inl, inr, refl, arith, Bool, true, false, Option, none, List, [], ◌∷◌,
  String, not, ltb, leb, ◌==◌, ◌||◌, IsU64, add_u64_exact, add_u64, saturating_mul, ◌&&◌,
  if◌then◌else◌,
}
use plasmite.Error.{Result, ok, panic}
use plasmite.Buffer.{Buffer, slice, from_le_bytes}
use plasmite.Buffer.Laws.{read_u64-ok}
use plasmite.Header.{PoolHeader}
use plasmite.Header.Layout.{IsPoolHeader}
use plasmite.Plan.{read_frame_header}
use plasmite.Report.{ValidationReport, ValidationStatus, ValidationIssue, Warning, report_corrupt}
use plasmite.Report.Scan.{
  Round, scan_start, max_frames, sample_slots, slot_warnings, warnings_of, reported,
  spot_check_index_warnings, validate_pool_state_report,
}
use plasmite.Report.Ends.{IsLast, scan-Last}

-- An ok report has no issue, and a corrupt one has one.
pub data IsReport (r : ValidationReport) : Type 0 where
  is_sound : r.status ≡ ValidationStatus.ok → r.issues ≡ [] → r.issue_count ≡ 0 → IsReport r
  is_corrupt :
      (found : ValidationIssue)
      → r.status ≡ ValidationStatus.corrupt
      → r.issues ≡ found ∷ []
      → r.issue_count ≡ 1
      → IsReport r

abbrev Reports : Result ValidationReport → Type 0
Reports x = (r : ValidationReport) × (x ≡ ok r) × IsReport r

if-Reports :
    (b : Bool) {x y : Result ValidationReport}
    → Reports x
    → (b ≡ false → Reports y)
    → Reports (if b then x else y)
if-Reports true h k = h
if-Reports false h k = k refl

refuse-Reports :
    (path : String) (found : ValidationIssue) (seq : Option ℕ)
    → Reports (ok (report_corrupt path found seq))
refuse-Reports path found seq = (_, refl, is_corrupt found refl refl refl)

module _ (header : PoolHeader) (mmap : Buffer) (path : String) where
  reported-Reports :
      (warnings : List Warning) (round : Round)
      → spot_check_index_warnings header mmap ≡ ok warnings
      → IsLast round
      → Reports (reported header mmap path round)
  unfolding reported
  reported-Reports warnings (Round.again s) checks (inl (found, seq, e)) = cc
  reported-Reports warnings (Round.again s) checks (inr (seq, e)) = cc
  reported-Reports warnings (Round.fault found seq) checks last = refuse-Reports path found seq
  reported-Reports warnings (Round.sound seq) checks last =
      rw checks (_, refl, is_sound refl refl refl)

-- For a map of less than 2 ^ 63 bytes and any header whose ring ends below 2 ^ 64, whatever bytes the ring
-- has: the report comes back if the spot check of the index does, with one issue where it says corrupt,
-- and none where it does not.
pub validate_pool_state_report-total :
    (header : PoolHeader) (mmap : Buffer) (path : String) (warnings : List Warning)
    → mmap.len < 2 ^ 63
    → IsU64 (header.ring_offset + header.ring_size)
    → spot_check_index_warnings header mmap ≡ ok warnings
    → (r : ValidationReport) × (validate_pool_state_report header mmap path ≡ ok r) × IsReport r
unfolding validate_pool_state_report
validate_pool_state_report-total header mmap path warnings sized ends checks =
    if-Reports (header.ring_size == 0) (refuse-Reports path _ none) λ some_ring.
      if-Reports (ltb mmap.len (add_u64 header.ring_offset header.ring_size))
        (refuse-Reports path _ none)
        λ placed.
          if-Reports (leb header.ring_size header.head_off || leb header.ring_size header.tail_off)
            (refuse-Reports path _ none)
            λ inside.
              if-Reports (header.oldest_seq == 0)
                (if-Reports (not (header.head_off == header.tail_off)) (refuse-Reports path _ none)
                  (λ _. (_, refl, is_sound refl refl refl)))
                λ live.
                  if-Reports (ltb header.newest_seq header.oldest_seq) (refuse-Reports path _ none)
                    λ ordered.
                      let (round, scans, last) =
                        scan-Last header mmap sized
                          (ground
                            (arith, placed, add_u64_exact header.ring_offset header.ring_size ends))
                          (ground (arith, some_ring)) (max_frames header + 2) (scan_start header)
                          (ground (arith, inside)) (omega arith) (omega arith) in
                      rw scans (reported-Reports header mmap path warnings round checks last)

-- Where the first slot of the index has a sequence number and an offset inside the ring which is less than
-- 64 bytes before the end of the map, the spot check panics.
pub spot_check-cut :
    (header : PoolHeader) (mmap : Buffer)
    → IsPoolHeader header mmap.len
    → 0 < header.index_capacity
    → mmap.len + 64 < 2 ^ 64
    → from_le_bytes mmap.byte header.index_offset 8 ≢ 0
    → from_le_bytes mmap.byte (header.index_offset + 8) 8 < header.ring_size
    → header.ring_size < from_le_bytes mmap.byte (header.index_offset + 8) 8 + 64
    → spot_check_index_warnings header mmap ≡ panic
unfolding spot_check_index_warnings sample_slots warnings_of slot_warnings read_frame_header slice
spot_check-cut header mmap valid slots sized numbered inside cut =
    rw
      (
        some_slots,
        in_order,
        starts,
        read_u64-ok mmap header.index_offset (omega arith)
            (omega (arith, valid.ring_starts, valid.index_starts, valid.ring_ends)),
        add_u64_exact header.index_offset 8 (omega (arith, valid.index_starts)),
        read_u64-ok mmap (header.index_offset + 8) (omega arith)
            (omega (arith, valid.ring_starts, valid.index_starts, valid.ring_ends)),
        has_seq,
        in_ring,
        beyond,
      )
      refl
  where
    some_slots : (header.index_capacity == 0) ≡ false
    some_slots = ground (arith, slots)

    in_order :
        ltb header.ring_offset
          (add_u64 header.index_offset (saturating_mul header.index_capacity 16))
        ≡ false
    in_order = ground (arith, valid.ring_starts, valid.index_starts, valid.ring_ends, sized)

    starts : add_u64 header.index_offset 0 ≡ header.index_offset
    starts = ground (arith, valid.index_starts)

    has_seq : (from_le_bytes mmap.byte header.index_offset 8 == 0) ≡ false
    has_seq = ground (arith, numbered)

    in_ring : leb header.ring_size (from_le_bytes mmap.byte (header.index_offset + 8) 8) ≡ false
    in_ring = ground (arith, inside)

    beyond :
        (leb (add_u64 header.ring_offset (from_le_bytes mmap.byte (header.index_offset + 8) 8)) (
            add_u64
              (add_u64 header.ring_offset (from_le_bytes mmap.byte (header.index_offset + 8) 8))
              64)
          && leb
              (add_u64
                (add_u64 header.ring_offset (from_le_bytes mmap.byte (header.index_offset + 8) 8))
                64)
              mmap.len)
        ≡ false
    beyond = ground (arith, valid.ring_ends, inside, cut, sized)
