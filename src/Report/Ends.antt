-- ===== src/Report/Ends.antt =====
-- The scan comes to an end, and reads nothing outside the map, whatever the bytes of the pool are.
use plasmite.Prelude.{
  ℕ, zero, suc, ◌+◌, ◌-◌, ◌^◌, ◌≤◌, ◌<◌, ◌≡◌, ◌⊎◌, inl, inr, refl, arith, Bool, true, false,
  Bool-cases, Option, some, not, ltb, ◌==◌, add_u64_exact, sub_u64_exact, if◌then◌else◌,
}
use plasmite.Error.{Result, ok, err, panic, stuck}
use plasmite.Buffer.{Buffer}
use plasmite.Buffer.Laws.{slice-ok}
use plasmite.Frame.{FrameHeader, FrameState, frame_header_len, max_payload_abs}
use plasmite.Frame.Size.{frame_size, frame_total_len-some}
use plasmite.Header.{PoolHeader}
use plasmite.Plan.{read_frame_header}
use plasmite.Ring.Total.{Settles, decode-Settles, validate-Settles, validate-bounds}
use plasmite.Report.{ValidationIssue}
use plasmite.Report.Scan.{
  Scan, Round, restart, fault_at, max_frames, advance, sized_frame, valid_frame, checked_frame,
  decoded_frame, scan_round, scan, continue,
}

-- The round is the last one.
abbrev pub IsLast : Round → Type 0
IsLast r =
    ((found : ValidationIssue) × (seq : Option ℕ) × (r ≡ Round.fault found seq))
    ⊎ ((seq : Option ℕ) × (r ≡ Round.sound seq))

module _ (header : PoolHeader) (mmap : Buffer) (sized : mmap.len < 2 ^ 63)
    (placed : header.ring_offset + header.ring_size ≤ mmap.len)
    (nonempty : 0 < header.ring_size) where
  -- Another round has one more step behind it, and is at an offset inside the ring.
  abbrev Moves : Scan → Round → Type 0
  Moves s (Round.again s') = (s'.steps ≡ s.steps + 1) × (s'.offset < header.ring_size)
  Moves s (Round.fault found seq) = Unit {0}
  Moves s (Round.sound seq) = Unit {0}

  if-Moves :
      (s : Scan) (b : Bool) (x y : Round) → Moves s x → Moves s y → Moves s (if b then x else y)
  if-Moves s true x y h k = h
  if-Moves s false x y h k = k

  advance-Moves :
      (s : Scan) (seq next_off : ℕ)
      → next_off < header.ring_size
      → Moves s (advance header s seq next_off)
  unfolding advance
  advance-Moves s seq next_off inside =
      if-Moves s (s.expected_seq == header.newest_seq) _ _
        (if-Moves s (not (next_off == header.head_off)) _ _ tt tt) (refl, inside)

  sized_frame-Moves :
      (s : Scan) (seq frame_len : ℕ)
      → s.offset < header.ring_size
      → frame_len < 2 ^ 63
      → Moves s (sized_frame header s seq (some frame_len))
  unfolding sized_frame
  sized_frame-Moves s seq frame_len inside small =
      elim (Bool-cases (ltb header.ring_size (s.offset + frame_len))) [
        | inl beyond ↦ rw (add_u64_exact s.offset frame_len (omega arith), beyond) tt
        | inr fits ↦
            rw (add_u64_exact s.offset frame_len (omega arith), fits)
              (advance-Moves s seq _ (ground (arith, fits)))
      ]

  valid_frame-Moves :
      (state : FrameState) (f : FrameHeader) (s : Scan)
      → s.offset < header.ring_size
      → f.payload_len ≤ max_payload_abs
      → Moves s (valid_frame header state f s)
  unfolding valid_frame
  valid_frame-Moves FrameState.wrap f s inside small = (refl, nonempty)
  valid_frame-Moves FrameState.empty f s inside small = tt
  valid_frame-Moves FrameState.writing f s inside small = tt
  valid_frame-Moves FrameState.committed f s inside small =
      if-Moves s (not (f.seq == s.expected_seq)) _ _ tt (
        rw (frame_total_len-some f.payload_len (omega arith))
          (sized_frame-Moves s f.seq (frame_size f.payload_len) inside (omega arith)))

  -- The round comes back, and moves.
  abbrev Works : Scan → Result Round → Type 0
  Works s x = (r : Round) × (x ≡ ok r) × Moves s r

  decoded_frame-Works :
      (s : Scan) (r : Result FrameHeader)
      → s.offset < header.ring_size
      → Settles r
      → Works s (decoded_frame header s r)
  unfolding decoded_frame checked_frame
  decoded_frame-Works s (ok f) inside settles = elim (validate-Settles f header.ring_size) [
    | inl (_, accepted) ↦ (
      valid_frame header f.state f s,
      rw accepted refl,
      valid_frame-Moves f.state f s inside (validate-bounds f header.ring_size accepted),
    )
    | inr (e, refused) ↦ (fault_at s "frame header invalid" (some e), rw refused refl, tt)
  ]
  decoded_frame-Works s (err e) inside settles = (_, refl, tt)
  decoded_frame-Works s panic inside (inl (a, e)) = cc
  decoded_frame-Works s panic inside (inr (d, e)) = cc
  decoded_frame-Works s stuck inside (inl (a, e)) = cc
  decoded_frame-Works s stuck inside (inr (d, e)) = cc

  pub read_frame_header-Settles :
      (off : ℕ)
      → header.ring_offset + off + 64 ≤ mmap.len
      → Settles (read_frame_header mmap header.ring_offset off)
  unfolding read_frame_header
  read_frame_header-Settles off fits =
      rw
        (
          add_u64_exact header.ring_offset off (omega arith),
          add_u64_exact (header.ring_offset + off) 64 (omega arith),
          slice-ok mmap (header.ring_offset + off) (header.ring_offset + off + 64) (omega arith)
              (omega arith),
        )
        (decode-Settles _ (omega arith) (omega arith))

  scan_round-Works :
      (s : Scan)
      → s.offset < header.ring_size
      → s.steps ≤ max_frames header
      → Works s (scan_round header mmap s)
  unfolding scan_round
  scan_round-Works s inside early =
      elim (Bool-cases (ltb (header.ring_size - s.offset) frame_header_len)) [
        | inl short ↦ (
          restart s,
          rw (not_over, sub_u64_exact header.ring_size s.offset (omega arith) (omega arith), short)
              refl,
          (refl, nonempty),
        )
        | inr room ↦
            rw (not_over, sub_u64_exact header.ring_size s.offset (omega arith) (omega arith), room)
              (decoded_frame-Works s _ inside
                (read_frame_header-Settles s.offset (ground (arith, room))))
      ]
    where
      not_over : ltb (max_frames header) s.steps ≡ false
      not_over = ground arith

  -- It comes back with a last round.
  abbrev Last : Result Round → Type 0
  Last x = (r : Round) × (x ≡ ok r) × IsLast r

  continue-Last :
      (next : Scan → Result Round) (s : Scan) (r : Round)
      → Moves s r
      → ((s' : Scan) → s'.steps ≡ s.steps + 1 → s'.offset < header.ring_size → Last (next s'))
      → Last (continue next r)
  continue-Last next s (Round.again s') (step, inside) goes_on = goes_on s' step inside
  continue-Last next s (Round.fault found seq) moves goes_on = (_, refl, inl (_, _, refl))
  continue-Last next s (Round.sound seq) moves goes_on = (_, refl, inr (_, refl))

  -- Each round takes a step, and the last round comes before the steps run out.
  pub scan-Last :
      (rounds : ℕ) (s : Scan)
      → s.offset < header.ring_size
      → s.steps ≤ max_frames header + 1
      → max_frames header + 2 ≤ rounds + s.steps
      → Last (scan header rounds mmap s)
  unfolding scan scan_round
  scan-Last zero s inside early enough = absurd (omega arith)
  scan-Last (suc rounds) s inside early enough =
      elim (Bool-cases (ltb (max_frames header) s.steps)) [
        | inl over ↦ rw over (_, refl, inl (_, _, refl))
        | inr in_time ↦
            let (r, round_is, moves) = scan_round-Works s inside (ground (arith, in_time)) in
            rw round_is (
              continue-Last (scan header rounds mmap) s r moves (λ s' step inside'.
                scan-Last rounds s' inside' (ground (arith, in_time)) (omega arith)))
      ]
