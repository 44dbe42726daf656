-- ===== src/Report/Sound.antt =====
-- The report on a sound pool.
use plasmite.Prelude.{
  ◌+◌, ◌≤◌, ◌<◌, ◌≡◌, ◌≢◌, ◌⊎◌, subst, inl, inr, refl, arith, true, false, some, List, [], ◌∷◌,
  ◌++◌, map, String, ltb, leb, ◌==◌, ◌||◌, IsU64, add_u64_exact,
}
use plasmite.Error.{ok}
use plasmite.Buffer.{Buffer}
use plasmite.Header.{PoolHeader}
use plasmite.Cursor.{FrameRef}
use plasmite.Plan.{start_space}
use plasmite.Plan.Holds.{InOne, InTwo}
use plasmite.Plan.Facts.{Holds-none}
use plasmite.Pool.Contents.{Contents}
use plasmite.Ring.{Run, Numbered}
use plasmite.Report.{Warning, Hint, report_ok}
use plasmite.Report.Scan.{
  Round, scan_start, max_frames, scan, reported, spot_check_index_warnings,
  validate_pool_state_report,
}
use plasmite.Report.Walk.{scan-Run, scan-Gap}

module _ (m : Buffer) (h : PoolHeader) (es : List FrameRef) (c : Contents m h es)
    (roomy : IsU64 (m.len + 64)) where
  sizes : h.ring_offset + h.ring_size ≤ m.len
  sizes = omega (arith, c.valid.ring_ends)

  abbrev Newest : Type 0
  Newest = scan h (max_frames h + 2) m (scan_start h) ≡ ok (Round.sound (some h.newest_seq))

  scan-InOne :
      InOne m.byte h.ring_offset h.ring_size h.head_off (h.newest_seq + 1) (start_space h) es
      → Newest
  scan-InOne one = by_messages es one.straight.run one.numbered
    where
      by_messages :
          (es' : List FrameRef)
          → Run m.byte h.ring_offset h.ring_size h.tail_off one.straight.stop es'
          → Numbered h.oldest_seq (h.newest_seq + 1) es'
          → Newest
      by_messages [] run numbered = absurd (omega (arith, run, one.straight.some))
      by_messages (e ∷ es') run numbered =
          scan-Run m h roomy sizes (max_frames h + 2) (scan_start h) e es' one.straight.stop run
            one.straight.inside one.straight.ends numbered c.encodable.newest_seq_fits
            (omega (arith, one.straight.inside)) (omega arith)

  scan-InTwo :
      (before : List FrameRef)
      → InTwo m.byte h.ring_offset h.ring_size h.head_off
          (h.newest_seq + 1)
          (start_space h)
          before
          es
      → Newest
  scan-InTwo before two =
      by_messages two.split.after two.split.run_after
        (subst (Numbered h.oldest_seq (h.newest_seq + 1)) two.split.parts two.numbered)
    where
      by_messages :
          (after : List FrameRef)
          → Run m.byte h.ring_offset h.ring_size 0 h.head_off after
          → Numbered h.oldest_seq (h.newest_seq + 1) (before ++ after)
          → Newest
      by_messages [] run numbered = absurd (omega (arith, run, two.split.some))
      by_messages (e ∷ after) run numbered =
          scan-Gap m h roomy sizes (max_frames h + 2) (scan_start h) before after e two.split.stop
            two.split.run_before two.split.gap run c.valid.head_in two.split.inside numbered
            c.encodable.newest_seq_fits (omega (arith, two.split.apart)) (omega arith)

  live-some : 0 < h.oldest_seq → es ≢ []
  live-some live none_left = absurd (
      omega (
        arith,
        live,
        (Holds-none m.byte h.ring_offset h.ring_size h.head_off (h.newest_seq + 1) c.valid.head_in
            (start_space h) es c.holds (inl none_left)).oldest_zero,
      ))

  -- The checks before the scan let a pool with a message through.
  report-live :
      (path : String) (warnings : List Warning)
      → 0 < h.oldest_seq
      → spot_check_index_warnings h m ≡ ok warnings
      → Newest
      → validate_pool_state_report h m path
        ≡ ok (record (report_ok path) {
          last_good_seq = some h.newest_seq;
          remediation_hints = map Hint.warning warnings;
        })
  unfolding validate_pool_state_report reported
  report-live path warnings live checks scans =
      rw
        (
          some_ring,
          add_u64_exact h.ring_offset h.ring_size (omega arith),
          placed,
          inside,
          not_empty,
          ordered,
          scans,
          checks,
        )
        refl
    where
      some_ring : (h.ring_size == 0) ≡ false
      some_ring = ground (arith, c.valid.ring_nonempty)

      placed : ltb m.len (h.ring_offset + h.ring_size) ≡ false
      placed = ground (arith, sizes)

      inside : (leb h.ring_size h.head_off || leb h.ring_size h.tail_off) ≡ false
      inside = ground (arith, c.valid.head_in, c.valid.tail_in)

      not_empty : (h.oldest_seq == 0) ≡ false
      not_empty = ground (arith, live)

      ordered : ltb h.newest_seq h.oldest_seq ≡ false
      ordered = ground (arith, live, c.valid.seqs_ordered)

  report-empty :
      (path : String)
      → h.oldest_seq ≡ 0
      → h.tail_off ≡ h.head_off
      → validate_pool_state_report h m path ≡ ok (report_ok path)
  unfolding validate_pool_state_report
  report-empty path none_left at_head =
      rw
        (
          some_ring,
          add_u64_exact h.ring_offset h.ring_size (omega arith),
          placed,
          inside,
          is_empty,
          at_tail,
        )
        refl
    where
      some_ring : (h.ring_size == 0) ≡ false
      some_ring = ground (arith, c.valid.ring_nonempty)

      placed : ltb m.len (h.ring_offset + h.ring_size) ≡ false
      placed = ground (arith, sizes)

      inside : (leb h.ring_size h.head_off || leb h.ring_size h.tail_off) ≡ false
      inside = ground (arith, c.valid.head_in, c.valid.tail_in)

      is_empty : (h.oldest_seq == 0) ≡ true
      is_empty = ground (arith, none_left)

      at_tail : (h.head_off == h.tail_off) ≡ true
      at_tail = ground (arith, at_head)

-- The report on a pool that holds the messages `es`, in a map that ends 64 bytes below 2 ^ 64: ok, with the
-- newest sequence number as the last good one and the warnings of the spot check, where the spot check
-- comes back; on an empty pool ok without more.
pub report_sound :
    (m : Buffer) (h : PoolHeader) (es : List FrameRef) (path : String) (warnings : List Warning)
    → Contents m h es
    → IsU64 (m.len + 64)
    → spot_check_index_warnings h m ≡ ok warnings
    → ((es ≡ []) × (validate_pool_state_report h m path ≡ ok (report_ok path)))
      ⊎ ((es ≢ [])
          × (validate_pool_state_report h m path
              ≡ ok (record (report_ok path) {
                last_good_seq = some h.newest_seq;
                remediation_hints = map Hint.warning warnings;
              })))
report_sound m h es path warnings c roomy checks = elim c.holds [
  | inl empty ↦
      inl (empty.no_messages, report-empty m h es c roomy path empty.oldest_zero empty.tail_at_head)
  | inr (inl one) ↦ inr (
    live-some m h es c roomy one.live,
    report-live m h es c roomy path warnings one.live checks (scan-InOne m h es c roomy one),
  )
  | inr (inr (before, two)) ↦ inr (
    live-some m h es c roomy two.live,
    report-live m h es c roomy path warnings two.live checks (scan-InTwo m h es c roomy before two),
  )
]
