-- ===== src/Report/Scan.antt =====
-- src/api/validation.rs: the scan of the frames from the tail to the head, the spot check of the index,
-- and the report.
use plasmite.Prelude.{
  ℕ, zero, suc, ◌+◌, ◌-◌, ◌*◌, ◌/◌, ◌%◌, ◌^◌, Bool, true, false, Option, none, some, List, [], ◌∷◌,
  ◌++◌, map, String, not, ltb, leb, ◌==◌, ◌&&◌, ◌||◌, if◌then◌else◌, add_u64, sub_u64,
  saturating_mul,
}
use plasmite.Error.{Error, Result, ok, err, panic, stuck, ◌>>=◌}
use plasmite.Buffer.{Buffer, read_u64}
use plasmite.Header.{PoolHeader}
use plasmite.Frame
use plasmite.Frame.{FrameHeader, FrameState, frame_header_len, frame_total_len}
use plasmite.Plan.{read_frame_header}
use plasmite.Cursor.{wrap_offset}
use plasmite.Report.{
  ValidationReport, ValidationIssue, Warning, Hint, report_ok, report_corrupt, set_last_good, issue,
}

-- The variables of the scan.
pub record Scan : Type 0 where
  pub offset : ℕ
  pub expected_seq : ℕ
  pub steps : ℕ
  pub last_good_seq : Option ℕ

-- How a round of the scan ends: with another round, an issue, or the newest message.
pub data Round : Type 0 where
  again : Scan → Round
  fault : ValidationIssue → Option ℕ → Round
  sound : Option ℕ → Round

abbrev pub fault_at : Scan → String → Option Error → Round
fault_at s message cause =
    Round.fault (issue message cause s.last_good_seq (some s.offset)) s.last_good_seq

abbrev pub restart : Scan → Round
restart s = Round.again (record s { offset = 0; steps = s.steps + 1 })

abbrev pub scan_start : PoolHeader → Scan
scan_start header = record {
  offset = header.tail_off;
  expected_seq = header.oldest_seq;
  steps = 0;
  last_good_seq = none;
}

-- What a round that is not the last goes on with.
abbrev pub continue : (Scan → Result Round) → Round → Result Round
continue next (Round.again s) = next s
continue next (Round.fault found last_good_seq) = ok (Round.fault found last_good_seq)
continue next (Round.sound last_good_seq) = ok (Round.sound last_good_seq)

module _ (header : PoolHeader) where
  abbrev pub max_frames : ℕ
  max_frames = header.ring_size / frame_header_len + 1

  -- Behind a frame with the expected sequence number that ends at `next_off`.
  unfoldable pub advance : Scan → ℕ → ℕ → Round
  advance s seq next_off =
      if s.expected_seq == header.newest_seq
      then (if not (next_off == header.head_off)
          then Round.fault (issue "head offset mismatch" none (some seq) (some s.offset)) (some seq)
          else Round.sound (some seq))
      else Round.again (record {
        offset = next_off;
        expected_seq = add_u64 s.expected_seq 1;
        steps = s.steps + 1;
        last_good_seq = some seq;
      })

  unfoldable pub sized_frame : Scan → ℕ → Option ℕ → Round
  unfolding advance
  sized_frame s seq none = fault_at s "frame length overflow" none
  sized_frame s seq (some frame_len) =
      if ltb header.ring_size (add_u64 s.offset frame_len)
      then fault_at s "frame exceeds ring" none
      else advance s seq (wrap_offset (add_u64 s.offset frame_len) header.ring_size)

  unfoldable pub valid_frame : FrameState → FrameHeader → Scan → Round
  unfolding sized_frame
  valid_frame FrameState.wrap f s = restart s
  valid_frame FrameState.committed f s =
      if not (f.seq == s.expected_seq)
      then fault_at s "seq mismatch" none
      else sized_frame s f.seq (frame_total_len frame_header_len f.payload_len)
  valid_frame _ f s = fault_at s "unexpected frame state" none

  unfoldable pub checked_frame : FrameHeader → Scan → Result (Unit {0}) → Result Round
  unfolding valid_frame
  checked_frame f s (ok _) = ok (valid_frame f.state f s)
  checked_frame f s (err e) = ok (fault_at s "frame header invalid" (some e))
  checked_frame f s panic = panic
  checked_frame f s stuck = stuck

  unfoldable pub decoded_frame : Scan → Result FrameHeader → Result Round
  unfolding checked_frame
  decoded_frame s (ok f) = checked_frame f s (Frame.validate f header.ring_size)
  decoded_frame s (err e) = ok (fault_at s "frame header decode failed" (some e))
  decoded_frame s panic = panic
  decoded_frame s stuck = stuck

  unfoldable pub scan_round : Buffer → Scan → Result Round
  unfolding decoded_frame
  scan_round mmap s =
      if ltb max_frames s.steps
      then ok (
          Round.fault (issue "scan exceeded ring capacity" none s.last_good_seq none)
            s.last_good_seq)
      else if ltb (sub_u64 header.ring_size s.offset) frame_header_len
      then ok (restart s)
      else decoded_frame s (read_frame_header mmap header.ring_offset s.offset)

  -- The loop, for a number of rounds.
  unfoldable pub scan : ℕ → Buffer → Scan → Result Round
  unfolding scan_round
  scan zero mmap s = stuck
  scan (suc rounds) mmap s = scan_round mmap s >>= continue (scan rounds mmap)

-- The slots that are looked at: the first, the one in the middle and the last, each once.
unfoldable pub sample_slots : ℕ → List ℕ
sample_slots index_slots =
    0
    ∷ (if ltb 1 index_slots
        then (if index_slots / 2 == index_slots - 1
            then index_slots / 2 ∷ []
            else index_slots / 2 ∷ (index_slots - 1) ∷ [])
        else [])

abbrev pub is_committed : FrameState → Bool
is_committed FrameState.committed = true
is_committed _ = false

-- What the frame that a slot points to says of the slot.
unfoldable pub frame_warnings : ℕ → ℕ → Result FrameHeader → Result (List Warning)
frame_warnings slot seq (ok f) =
    ok (if is_committed f.state && f.seq == seq then [] else Warning.stale slot seq ∷ [])
frame_warnings slot seq (err e) = ok (Warning.stale slot seq ∷ [])
frame_warnings slot seq panic = panic
frame_warnings slot seq stuck = stuck

module _ (header : PoolHeader) (mmap : Buffer) where
  unfoldable pub slot_warnings : ℕ → Result (List Warning)
  unfolding frame_warnings
  slot_warnings slot = do
    let entry_off = add_u64 header.index_offset (slot * 16 % 2 ^ 64)
    seq ← read_u64 mmap entry_off
    offset ← read_u64 mmap (add_u64 entry_off 8)
    (if seq == 0
        then ok []
        else if leb header.ring_size offset
        then ok (Warning.outside slot seq offset ∷ [])
        else frame_warnings slot seq (read_frame_header mmap header.ring_offset offset))

  unfoldable pub warnings_of : List ℕ → Result (List Warning)
  unfolding slot_warnings
  warnings_of [] = ok []
  warnings_of (slot ∷ slots) = do
    found ← slot_warnings slot
    rest ← warnings_of slots
    ok (found ++ rest)

  unfoldable pub spot_check_index_warnings : Result (List Warning)
  unfolding sample_slots warnings_of
  spot_check_index_warnings =
      if header.index_capacity == 0
      then ok []
      else if ltb header.ring_offset
          (add_u64 header.index_offset (saturating_mul header.index_capacity 16))
      then ok (Warning.overlap ∷ [])
      else warnings_of (sample_slots header.index_capacity)

  -- The report after the scan.
  unfoldable pub reported : String → Round → Result ValidationReport
  unfolding spot_check_index_warnings
  reported path (Round.again s) = stuck
  reported path (Round.fault found last_good_seq) = ok (report_corrupt path found last_good_seq)
  reported path (Round.sound last_good_seq) = do
    warnings ← spot_check_index_warnings
    let report = set_last_good (report_ok path) last_good_seq
    ok (record report { remediation_hints = report.remediation_hints ++ map Hint.warning warnings })

  unfoldable pub validate_pool_state_report : String → Result ValidationReport
  unfolding scan reported
  validate_pool_state_report path =
      let refuse : String → Result ValidationReport =
        λ message. ok (report_corrupt path (issue message none none none) none) in
      let scanned =
        scan header (max_frames header + 2) mmap (scan_start header) >>= reported path in
      if header.ring_size == 0
      then refuse "ring size is zero"
      else if ltb mmap.len (add_u64 header.ring_offset header.ring_size)
      then refuse "ring exceeds mmap bounds"
      else if leb header.ring_size header.head_off || leb header.ring_size header.tail_off
      then refuse "head/tail out of range"
      else if header.oldest_seq == 0
      then (if not (header.head_off == header.tail_off)
          then refuse "empty pool head/tail mismatch"
          else ok (report_ok path))
      else if ltb header.newest_seq header.oldest_seq
      then refuse "seq bounds inverted"
      else scanned
