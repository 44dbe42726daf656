-- ===== src/Ring/Read.antt =====
-- What the code reads at a frame and at a wrap marker.
use plasmite.Prelude.{
  ℕ, ◌+◌, ◌-◌, ◌≤◌, ◌≡◌, ◌⊎◌, refl, ap, ◌∙◌, inr, arith, length, IsU64, bit_xor_cancel, eq_bytes,
  true, false, ltb, add_u64_exact,
}
use plasmite.Error.{ok}
use plasmite.Buffer.{Buffer, bytes_from}
use plasmite.Buffer.Laws.{slice-ok, to_list-slice}
use plasmite.Frame
use plasmite.Frame.{
  FrameHeader, FrameState, frame_commit_marker, frame_header_len, max_payload, max_payload_abs,
  frame_total_len,
}
use plasmite.Frame.Codec.{HeaderAt, HeaderAt-agree, decode-HeaderAt}
use plasmite.Frame.Size.{frame_total_len-some}
use plasmite.Cursor.{
  FrameRef, ReadResult, wrap_offset, matches, read_payload, read_committed, read_state,
  read_decoded, read_frame_at,
}
use plasmite.Plan.{read_frame_header}
use plasmite.Ring.{header_with, message_header, wrap_header, size, IsMessage, FrameAt}

-- A header as the code writes it passes `validate` if its payload fits the ring.
pub validate-header_with :
    (state : FrameState) (flags seq timestamp_ns n ring_size : ℕ)
    → n ≤ max_payload_abs
    → (n ≡ 0) ⊎ (n + 72 ≤ ring_size)
    → Frame.validate (header_with state flags seq timestamp_ns n) ring_size ≡ ok tt
unfolding Frame.validate max_payload
validate-header_with state flags seq timestamp_ns n ring_size h k =
    ground (arith, bit_xor_cancel n 0xFFFF_FFFF, frame_total_len-some n (omega arith))

module _ (m : Buffer) (ring_offset ring_size : ℕ) (sized : IsU64 m.len)
    (placed : ring_offset + ring_size ≤ m.len) where
  view_header :
      (off : ℕ) (h : FrameHeader)
      → off + 64 ≤ ring_size
      → HeaderAt m.byte (ring_offset + off) h
      → Frame.decode (record {
        len = ring_offset + off + 64 - (ring_offset + off);
        byte = λ i. m.byte (ring_offset + off + i);
      })
        ≡ ok h
  view_header off h fits at = decode-HeaderAt _ h (omega arith) (omega arith) (
      HeaderAt-agree m.byte (λ i. m.byte (ring_offset + off + i)) (ring_offset + off) 0 h
        (λ i k. ap m.byte (omega arith)) at)

  -- The planner's read of a header.
  pub read_frame_header-at :
      (off : ℕ) (h : FrameHeader)
      → off + 64 ≤ ring_size
      → HeaderAt m.byte (ring_offset + off) h
      → read_frame_header m ring_offset off ≡ ok h
  unfolding read_frame_header
  read_frame_header-at off h fits at =
      rw
        (
          add_u64_exact ring_offset off (omega arith),
          add_u64_exact (ring_offset + off) 64 (omega arith),
          slice-ok m (ring_offset + off) (ring_offset + off + 64) (omega arith) (omega arith),
        )
        (view_header off h fits at)

  -- `read_frame_at` goes by the header that stands at its offset.
  read_frame_at-header :
      (off : ℕ) (h : FrameHeader)
      → off + 64 ≤ ring_size
      → HeaderAt m.byte (ring_offset + off) h
      → read_frame_at m ring_offset ring_size off
        ≡ read_state h.state m ring_size off (ring_offset + off) h
  unfolding read_frame_at read_decoded
  read_frame_at-header off h fits at = rw (
    add_u64_exact ring_offset off (omega arith),
    add_u64_exact (ring_offset + off) 64 (omega arith),
    add_u64_exact ring_offset ring_size (omega arith),
    inside,
    slice-ok m (ring_offset + off) (ring_offset + off + 64) (omega arith) (omega arith),
    view_header off h fits at,
  )
    where
      inside : ltb (ring_offset + ring_size) (ring_offset + off + 64) ≡ false
      inside = ground arith

  pub read_frame_at-wrap :
      (off : ℕ)
      → off + 64 ≤ ring_size
      → HeaderAt m.byte (ring_offset + off) wrap_header
      → read_frame_at m ring_offset ring_size off ≡ ok ReadResult.wrap
  unfolding read_state
  read_frame_at-wrap off fits at = read_frame_at-header off wrap_header fits at

  matches-marker :
      (p : ℕ)
      → p + 8 ≤ m.len
      → bytes_from m.byte p 8 ≡ frame_commit_marker
      → matches m p (p + 8) frame_commit_marker ≡ ok true
  unfolding matches
  matches-marker p h e = rw (slice-ok m p (p + 8) (omega arith) h) (
      ap (λ x. ok (eq_bytes x frame_commit_marker))
        (to_list-slice m.byte p (p + 8 - p) 8 (omega arith) ∙ e))

  read_payload-message :
      (off : ℕ) (e : FrameRef)
      → IsMessage ring_size e
      → off + size e ≤ ring_size
      → FrameAt m.byte (ring_offset + off) e
      → read_payload m ring_size off (ring_offset + off) (message_header e) (size e)
        ≡ ok (ReadResult.message e (wrap_offset (off + size e) ring_size))
  unfolding read_payload
  read_payload-message off e v fits at =
      let p = ring_offset + off in
      let n = length e.payload in
      rw
        (
          add_u64_exact off (size e) (omega arith),
          inside,
          add_u64_exact p 64 (omega arith),
          add_u64_exact (p + 64) n (omega arith),
          slice-ok m (p + 64) (p + 64 + n) (omega arith) (omega arith),
          add_u64_exact (p + 64 + n) 8 (omega arith),
          matches-marker (p + 64 + n) (omega arith) at.marker_at,
        )
        (ap
          (λ x.
            ok (
              ReadResult.message (record e { payload = x }) (wrap_offset (off + size e) ring_size)))
          (to_list-slice m.byte (p + 64) (p + 64 + n - (p + 64)) n (omega arith) ∙ at.payload_at))
    where
      inside : ltb ring_size (off + size e) ≡ false
      inside = ground arith

  read_committed-message :
      (off : ℕ) (e : FrameRef)
      → IsMessage ring_size e
      → off + size e ≤ ring_size
      → FrameAt m.byte (ring_offset + off) e
      → read_committed m ring_size off (ring_offset + off) (message_header e)
        ≡ ok (ReadResult.message e (wrap_offset (off + size e) ring_size))
  unfolding read_committed
  read_committed-message off e v fits at =
      rw
        (
          validate-header_with FrameState.committed e.flags e.seq e.timestamp_ns (length e.payload)
              ring_size v.payload_bounded (inr v.payload_fits),
          frame_total_len-some (length e.payload) (omega arith),
        )
        (read_payload-message off e v fits at)

  -- In a ring that is inside its buffer, `read_frame_at` at the offset of a committed frame that ends
  -- inside the ring gives the message of that frame, and the offset behind it, which is 0 at the end of
  -- the ring.
  pub read_frame_at-message :
      (off : ℕ) (e : FrameRef)
      → IsMessage ring_size e
      → off + size e ≤ ring_size
      → FrameAt m.byte (ring_offset + off) e
      → read_frame_at m ring_offset ring_size off
        ≡ ok (ReadResult.message e (wrap_offset (off + size e) ring_size))
  read_frame_at-message off e v fits at =
      read_frame_at-header off (message_header e) (omega arith) at.header_at
      ∙ read_state-committed
      ∙ read_committed-message off e v fits at
    where
      read_state-committed :
          read_state FrameState.committed m ring_size off (ring_offset + off) (message_header e)
          ≡ read_committed m ring_size off (ring_offset + off) (message_header e)
      read_state-committed = unfold read_state in refl
