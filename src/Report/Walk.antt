-- ===== src/Report/Walk.antt =====
-- The scan over the messages of a ring.
use plasmite.Prelude.{
  ℕ, zero, suc, ◌+◌, ◌-◌, ◌*◌, ◌≤◌, ◌<◌, ◌≡◌, ◌∙◌, sym, ap, subst, inl, inr, refl, arith, true,
  false, Bool-cases, some, List, [], ◌∷◌, ◌++◌, ltb, ◌==◌, length, IsU64, add_u64_exact,
  sub_u64_exact,
}
use plasmite.Error.{ok}
use plasmite.Buffer.{Buffer}
use plasmite.Frame.{FrameState, frame_header_len}
use plasmite.Frame.Size.{frame_total_len-some}
use plasmite.Header.{PoolHeader}
use plasmite.Cursor.{FrameRef, wrap_offset}
use plasmite.Ring.{size, message_header, wrap_header, IsMessage, FrameAt, Gap, Run, Numbered}
use plasmite.Ring.Run.{Run-le, Run-end, Numbered-lt}
use plasmite.Ring.Read.{read_frame_header-at, validate-header_with}
use plasmite.Report.Scan.{
  Scan, Round, restart, max_frames, advance, sized_frame, valid_frame, checked_frame, decoded_frame,
  scan_round, scan,
}

-- The number of a message in the middle is below the one that follows the newest.
Numbered-newest :
    (before after : List FrameRef) (e : FrameRef) (first : ℕ) {next : ℕ}
    → Numbered first next (before ++ (e ∷ after))
    → first < next
Numbered-newest [] after e first {next} h = Numbered-lt first next e after h
Numbered-newest (e' ∷ before) after e first {next} h =
    Numbered-lt first next e' (before ++ (e ∷ after)) h

module _ (m : Buffer) (h : PoolHeader) (sized : IsU64 (m.len + 64))
    (placed : h.ring_offset + h.ring_size ≤ m.len) where
  scan_round-frame :
      (s : Scan) (e : FrameRef)
      → s.steps ≤ max_frames h
      → IsMessage h.ring_size e
      → s.offset + size e ≤ h.ring_size
      → FrameAt m.byte (h.ring_offset + s.offset) e
      → e.seq ≡ s.expected_seq
      → scan_round h m s ≡ ok (advance h s e.seq (wrap_offset (s.offset + size e) h.ring_size))
  unfolding scan_round decoded_frame checked_frame valid_frame sized_frame
  scan_round-frame s e early v fits at expected =
      rw
        (
          not_over,
          sub_u64_exact h.ring_size s.offset (omega arith) (omega arith),
          room,
          read_frame_header-at m h.ring_offset h.ring_size (omega arith) placed s.offset
              (message_header e) (omega arith) at.header_at,
          validate-header_with FrameState.committed e.flags e.seq e.timestamp_ns (length e.payload)
              h.ring_size v.payload_bounded (inr v.payload_fits),
          same_seq,
          frame_total_len-some (length e.payload) (omega (arith, v.payload_bounded)),
          add_u64_exact s.offset (size e) (omega arith),
          inside,
        )
        refl
    where
      not_over : ltb (max_frames h) s.steps ≡ false
      not_over = ground arith

      room : ltb (h.ring_size - s.offset) frame_header_len ≡ false
      room = ground (arith, fits)

      same_seq : (e.seq == s.expected_seq) ≡ true
      same_seq = ground (arith, expected)

      inside : ltb h.ring_size (s.offset + size e) ≡ false
      inside = ground (arith, fits)

  scan_round-Gap :
      (s : Scan)
      → s.steps ≤ max_frames h
      → Gap m.byte h.ring_offset h.ring_size s.offset
      → scan_round h m s ≡ ok (restart s)
  unfolding scan_round decoded_frame checked_frame valid_frame
  scan_round-Gap s early (within, marker) =
      elim (Bool-cases (ltb (h.ring_size - s.offset) frame_header_len)) [
        | inl short ↦
            rw (not_over, sub_u64_exact h.ring_size s.offset (omega arith) (omega arith), short)
              refl
        | inr room ↦ elim marker [
          | inl short ↦ absurd (ground (arith, room))
          | inr at ↦
              rw
                (
                  not_over,
                  sub_u64_exact h.ring_size s.offset (omega arith) (omega arith),
                  room,
                  read_frame_header-at m h.ring_offset h.ring_size (omega arith) placed s.offset
                      wrap_header (ground (arith, room)) at,
                  validate-header_with FrameState.wrap 0 0 0 0 h.ring_size (omega arith) (inl refl),
                )
                refl
        ]
      ]
    where
      not_over : ltb (max_frames h) s.steps ≡ false
      not_over = ground arith

  -- A frame that is not the newest moves the scan behind it.
  older_frame :
      (rounds : ℕ) (s : Scan) (e : FrameRef)
      → s.steps ≤ max_frames h
      → IsMessage h.ring_size e
      → s.offset + size e ≤ h.ring_size
      → FrameAt m.byte (h.ring_offset + s.offset) e
      → e.seq ≡ s.expected_seq
      → s.expected_seq < h.newest_seq
      → IsU64 h.newest_seq
      → scan h (suc rounds) m s
        ≡ scan h rounds m (record {
          offset = wrap_offset (s.offset + size e) h.ring_size;
          expected_seq = s.expected_seq + 1;
          steps = s.steps + 1;
          last_good_seq = some e.seq;
        })
  unfolding scan advance
  older_frame rounds s e early v fits at expected older fits_u64 =
      rw
        (
          scan_round-frame s e early v fits at expected,
          not_newest,
          add_u64_exact s.expected_seq 1 (omega arith),
        )
        refl
    where
      not_newest : (s.expected_seq == h.newest_seq) ≡ false
      not_newest = ground (arith, older)

  newest_frame :
      (rounds : ℕ) (s : Scan) (e : FrameRef)
      → s.steps ≤ max_frames h
      → IsMessage h.ring_size e
      → s.offset + size e ≤ h.ring_size
      → FrameAt m.byte (h.ring_offset + s.offset) e
      → e.seq ≡ s.expected_seq
      → s.expected_seq ≡ h.newest_seq
      → h.head_off ≡ wrap_offset (s.offset + size e) h.ring_size
      → scan h (suc rounds) m s ≡ ok (Round.sound (some h.newest_seq))
  unfolding scan advance
  newest_frame rounds s e early v fits at expected newest ends =
      rw (scan_round-frame s e early v fits at expected, is_newest, at_head, expected, newest) refl
    where
      is_newest : (s.expected_seq == h.newest_seq) ≡ true
      is_newest = ground (arith, newest)

      at_head : (wrap_offset (s.offset + size e) h.ring_size == h.head_off) ≡ true
      at_head = ground (arith, ends)

  -- The messages up to the head.
  pub scan-Run :
      (rounds : ℕ) (s : Scan) (e : FrameRef) (es : List FrameRef) (stop : ℕ)
      → Run m.byte h.ring_offset h.ring_size s.offset stop (e ∷ es)
      → stop ≤ h.ring_size
      → h.head_off ≡ wrap_offset stop h.ring_size
      → Numbered s.expected_seq (h.newest_seq + 1) (e ∷ es)
      → IsU64 h.newest_seq
      → s.steps * 64 + stop ≤ h.ring_size + 64 + s.offset
      → max_frames h + 2 ≤ rounds + s.steps
      → scan h rounds m s ≡ ok (Round.sound (some h.newest_seq))
  scan-Run zero s e es stop (v, at, rest) inside ends numbered fits budget enough =
      absurd (omega (arith, Run-le m.byte h.ring_offset h.ring_size _ stop es rest))
  scan-Run (suc rounds) s e [] stop (v, at, rest) inside ends numbered fits budget enough =
      newest_frame rounds s e (omega (arith, rest)) v (omega (arith, rest)) at numbered.0
        (omega (arith, numbered.1)) (ends ∙ ap (λ x. wrap_offset x h.ring_size) (sym rest))
  scan-Run (suc rounds) s e (e' ∷ es) stop (v, at, rest) inside ends numbered fits budget enough =
      let behind = Run-le m.byte h.ring_offset h.ring_size _ stop es rest.2 in
      let older = Numbered-lt (s.expected_seq + 1) (h.newest_seq + 1) e' es numbered.1 in
      let stays : wrap_offset (s.offset + size e) h.ring_size ≡ s.offset + size e =
        ground (arith, behind, inside) in
      older_frame rounds s e (omega (arith, behind)) v (omega (arith, behind)) at numbered.0
        (omega (arith, older)) fits
      ∙ rw stays (
          scan-Run rounds _ e' es stop rest inside ends numbered.1 fits (omega (arith, behind))
            (omega arith))

  -- The messages up to the gap, and then those from the start of the ring on.
  pub scan-Gap :
      (rounds : ℕ) (s : Scan) (before after : List FrameRef) (e : FrameRef) (stop : ℕ)
      → Run m.byte h.ring_offset h.ring_size s.offset stop before
      → Gap m.byte h.ring_offset h.ring_size stop
      → Run m.byte h.ring_offset h.ring_size 0 h.head_off (e ∷ after)
      → h.head_off < h.ring_size
      → s.offset < h.ring_size
      → Numbered s.expected_seq (h.newest_seq + 1) (before ++ (e ∷ after))
      → IsU64 h.newest_seq
      → s.steps * 64 + h.head_off ≤ s.offset
      → max_frames h + 2 ≤ rounds + s.steps
      → scan h rounds m s ≡ ok (Round.sound (some h.newest_seq))
  unfolding scan
  scan-Gap zero s before after e stop run gap back head_in inside numbered fits budget enough =
      absurd (omega arith)
  scan-Gap (suc rounds) s [] after e stop run gap back head_in inside numbered fits budget enough =
      rw
        (scan_round-Gap s (omega arith)
          (subst (Gap m.byte h.ring_offset h.ring_size) (sym run) gap))
        (scan-Run rounds (record s { offset = 0; steps = s.steps + 1 }) e after h.head_off back
          (omega arith) (ground (arith, head_in)) numbered fits (omega arith) (omega arith))
  scan-Gap (suc rounds) s (e' ∷ before) after e stop (v, at, rest) gap back head_in inside numbered
        fits budget enough =
      let behind = Run-le m.byte h.ring_offset h.ring_size _ stop before rest in
      older_frame rounds s e' (omega arith) v (omega (arith, behind, gap.0)) at numbered.0
        (omega (arith, Numbered-newest before after e (s.expected_seq + 1) numbered.1)) fits
      ∙ elim (Bool-cases (s.offset + size e' == h.ring_size)) [
        | inl is_full ↦
            let full : s.offset + size e' ≡ h.ring_size = ground (arith, is_full) in
            let none_left =
              Run-end m.byte h.ring_offset h.ring_size _ stop before rest full gap.0 in
            let start : wrap_offset (s.offset + size e') h.ring_size ≡ 0 = ground (arith, full) in
            rw start (
              scan-Run rounds _ e after h.head_off back (omega arith) (ground (arith, head_in))
                (rw none_left at numbered.1) fits (omega (arith, v.payload_fits)) (omega arith))
        | inr part ↦
            let stays : wrap_offset (s.offset + size e') h.ring_size ≡ s.offset + size e' =
              ground (arith, part) in
            rw stays (
              scan-Gap rounds _ before after e stop rest gap back head_in
                (ground (arith, part, behind, gap.0)) numbered.1 fits (omega (arith)) (omega arith))
      ]
