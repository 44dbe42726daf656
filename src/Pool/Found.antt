-- ===== src/Pool/Found.antt =====
-- What `get` returns, whatever bytes the map has.
use plasmite.Prelude.{
  ℕ, zero, suc, ◌≤◌, ◌<◌, ◌≡◌, ◌∙◌, inl, inr, ap, arith, Option, some, none, ltb, leb, ◌==◌, ◌||◌,
  ◌*◌, ◌%◌, add_u64, if◌then◌else◌, ◌&&◌, not, Bool-cases,
}
use plasmite.Error.{Result, ok, err, panic, stuck}
use plasmite.Error.Laws.{>>=-eq-ok}
use plasmite.Buffer.{Buffer, read_u64}
use plasmite.Header.{PoolHeader}
use plasmite.Cursor
use plasmite.Cursor.{FrameRef, CursorResult, ReadResult, header_from_mmap, seek_to, read_frame_at}
use plasmite.Pool.{Pool, get, get_scan, scan_step, get_via_index, found_or_scan, frame_of_seq}

module _ (mmap : Buffer) (seq : ℕ) where
  -- The answer is no message but one with the number asked for.
  abbrev pub Asked : Result FrameRef → Type 0
  Asked r = (e : FrameRef) → r ≡ ok e → e.seq ≡ seq

  scan_step-Asked :
      (again : Cursor.Cursor → Result FrameRef) (c : Cursor.Cursor) (r : CursorResult)
      → ((c' : Cursor.Cursor) → Asked (again c'))
      → Asked (scan_step again mmap seq c r)
  unfolding scan_step
  scan_step-Asked again c (CursorResult.message frame) h e answers =
      elim (Bool-cases (frame.seq == seq)) [
        | inl same ↦ (let found = rw same at answers in grind (arith, found, same))
        | inr other ↦ elim (Bool-cases (ltb seq frame.seq)) [
          | inl past ↦ absurd (grind (arith, rw (other, past) at answers))
          | inr before ↦ h c e (rw (other, before) at answers)
        ]
      ]
  scan_step-Asked again c CursorResult.would_block h e answers = absurd (grind (arith, answers))
  scan_step-Asked again c CursorResult.fell_behind h e answers =
      let (header, _, goes_on) = >>=-eq-ok (header_from_mmap mmap) _ answers in
      elim (Bool-cases (not (header.oldest_seq == 0) && ltb seq header.oldest_seq)) [
        | inl lost ↦ absurd (grind (arith, rw lost at goes_on))
        | inr kept ↦ h (seek_to c header.tail_off) e (rw kept at goes_on)
      ]

  get_scan-Asked : (rounds : ℕ) (c : Cursor.Cursor) → Asked (get_scan rounds mmap seq c)
  unfolding get_scan
  get_scan-Asked zero c e answers = absurd (grind (arith, answers))
  get_scan-Asked (suc rounds) c e answers =
      let (r, _, steps) =
        >>=-eq-ok (Cursor.next mmap c)
          (λ r. scan_step (λ c'. get_scan rounds mmap seq c') mmap seq r.0 r.1) answers in
      scan_step-Asked (λ c'. get_scan rounds mmap seq c') r.0 r.1 (get_scan-Asked rounds) e steps

  frame_of_seq-Asked :
      (r : Result ReadResult) (e : FrameRef) → frame_of_seq seq r ≡ ok (some e) → e.seq ≡ seq
  frame_of_seq-Asked (ok (ReadResult.message frame next_off)) e answers =
      elim (Bool-cases (frame.seq == seq)) [
        | inl same ↦ (let found = rw same at answers in grind (arith, found, same))
        | inr other ↦ absurd (grind (arith, rw other at answers))
      ]
  frame_of_seq-Asked (ok ReadResult.wrap) e answers = absurd (grind (arith, answers))
  frame_of_seq-Asked (ok ReadResult.would_block) e answers = absurd (grind (arith, answers))
  frame_of_seq-Asked (ok ReadResult.fell_behind) e answers = absurd (grind (arith, answers))
  frame_of_seq-Asked (err x) e answers = absurd (grind (arith, answers))
  frame_of_seq-Asked panic e answers = absurd (grind (arith, answers))
  frame_of_seq-Asked stuck e answers = absurd (grind (arith, answers))

  get_via_index-Asked :
      (header : PoolHeader) (e : FrameRef)
      → get_via_index mmap header seq ≡ ok (some e)
      → e.seq ≡ seq
  unfolding get_via_index
  get_via_index-Asked header e answers =
      let start = add_u64 header.index_offset (seq % header.index_capacity * 16) in
      elim (Bool-cases (header.index_capacity == 0)) [
        | inl no_index ↦ absurd (grind (arith, rw no_index at answers))
        | inr index ↦ elim (Bool-cases (ltb mmap.len (add_u64 start 16))) [
          | inl outside ↦ absurd (grind (arith, rw (index, outside) at answers))
          | inr inside ↦
              let (stored_seq, _, has_seq) =
                >>=-eq-ok (read_u64 mmap start) _ (rw (index, inside) at answers) in
              let (stored_offset, _, has_offset) =
                >>=-eq-ok (read_u64 mmap (add_u64 start 8)) _ has_seq in
              by_slot stored_seq stored_offset has_offset
        ]
      ]
    where
      by_slot :
          (stored_seq stored_offset : ℕ)
          → (if not (stored_seq == seq)
              then ok none
              else if leb header.ring_size stored_offset
              then ok none
              else frame_of_seq seq
                  (read_frame_at mmap header.ring_offset header.ring_size stored_offset))
            ≡ ok (some e)
          → e.seq ≡ seq
      by_slot stored_seq stored_offset answers = elim (Bool-cases (not (stored_seq == seq))) [
        | inl other ↦ absurd (grind (arith, rw other at answers))
        | inr same ↦ elim (Bool-cases (leb header.ring_size stored_offset)) [
          | inl outside ↦ absurd (grind (arith, rw (same, outside) at answers))
          | inr inside ↦
              frame_of_seq-Asked
                (read_frame_at mmap header.ring_offset header.ring_size stored_offset) e
                (rw (same, inside) at answers)
        ]
      ]

-- A message that `get` returns has the sequence number asked for, which lies within the bounds of a
-- header that the map has, whatever else is in the map, and whether the index or the scan finds it.
pub get-seq :
    (p : Pool) (seq : ℕ) (e : FrameRef)
    → get p seq ≡ ok e
    → (e.seq ≡ seq)
      × ((h : PoolHeader) × (header_from_mmap p.mmap ≡ ok h)
          × (0 < h.oldest_seq)
          × (h.oldest_seq ≤ seq)
          × (seq ≤ h.newest_seq))
unfolding get
get-seq p seq e answers =
    let (h, has_header, rest) = >>=-eq-ok (header_from_mmap p.mmap) _ answers in
    elim (Bool-cases (h.oldest_seq == 0)) [
      | inl empty ↦ absurd (grind (arith, rw empty at rest))
      | inr live ↦ elim (Bool-cases (ltb seq h.oldest_seq || ltb h.newest_seq seq)) [
        | inl outside ↦ absurd (grind (arith, rw (live, outside) at rest))
        | inr inside ↦
            let (found, by_index, scans) =
              >>=-eq-ok (get_via_index p.mmap h seq) (found_or_scan p.mmap h seq)
                (rw (live, inside) at rest) in
            (
              by_found h found by_index scans,
              (h, has_header, ground (arith, live), ground (arith, inside), ground (arith, inside)),
            )
      ]
    ]
  where
    by_found :
        (h : PoolHeader) (found : Option FrameRef)
        → get_via_index p.mmap h seq ≡ ok found
        → found_or_scan p.mmap h seq found ≡ ok e
        → e.seq ≡ seq
    by_found h (some frame) by_index scans =
        get_via_index-Asked p.mmap seq h e (by_index ∙ ap (λ f. ok (some f)) (grind (arith, scans)))
    by_found h none by_index scans =
        get_scan-Asked p.mmap seq h.ring_size (seek_to Cursor.new h.tail_off) e scans
