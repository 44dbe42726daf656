-- ===== src/Pool/Apply.antt =====
-- `apply_append` on a plan whose places are inside the ring: what it leaves in the memory map.
use plasmite.Prelude.{
  ℕ, ◌+◌, ◌*◌, ◌%◌, ◌^◌, ◌≤◌, ◌<◌, ◌≡◌, ◌⊎◌, ◌∙◌, sym, inr, arith, length, refl, subst, ap, IsU64,
  ◌==◌, true,
}
use plasmite.Error.{ok}
use plasmite.Buffer.{Buffer, of_list, to_list, bytes_from, from_le_bytes}
use plasmite.Buffer.Laws.{bytes_from_agree, length-bytes_from, from_le_bytes_agree}
use plasmite.Frame
use plasmite.Frame.{FrameHeader, FrameState, frame_commit_marker, frame_header_len}
use plasmite.Frame.Codec.{IsFrameHeader, HeaderAt}
use plasmite.Ring.{header_with}
use plasmite.Pool.{write_frame_header, write_frame, write_wrap_at, write_index_slot}
use plasmite.Pool.Writes.{header_with-IsFrameHeader, write_frame_header_lem, write_frame_lem}
use plasmite.Pool.Slot.{slot_of, write_index_slot_lem}
use plasmite.Pool.{apply_append}
use plasmite.Frame.{max_payload_abs}
use plasmite.Frame.Size.{frame_size, frame_total_len-some}
use plasmite.Header.{header_size, write_pool_header}
use plasmite.Header.Codec.{IsEncodable, PoolHeaderAt, write_pool_header_lem}
use plasmite.Cursor.{FrameRef}
use plasmite.Plan.{AppendPlan}
use plasmite.Plan.Place.{Written, MarkerAt, OutsideMarker, MarkerInside}
use plasmite.Ring.Agree.{HeaderAt-same}
use plasmite.Ring.{size, message_header, IsMessage, FrameAt}
use plasmite.Pool.Marker.{write_wrap_at_lem, marker_kept}

module _ (m : Buffer) (ring_offset ring_size : ℕ) (plan : AppendPlan) (payload : Buffer)
    (e : FrameRef) (sized : IsU64 m.len) (placed : ring_offset + ring_size ≤ m.len)
    (v : IsMessage ring_size e) (payload_eq : to_list payload ≡ e.payload) (flags_eq : e.flags ≡ 0)
    (seq_eq : plan.seq ≡ e.seq) (len_eq : plan.frame_len ≡ size e)
    (inside : plan.frame_offset + size e ≤ ring_size)
    (marker_inside : MarkerInside ring_size plan.wrap_offset)
    (index_starts : header_size ≤ plan.next_header.index_offset)
    (index_fits : plan.next_header.index_offset + plan.next_header.index_capacity * 16
      ≤ ring_offset)
    (encodable : IsEncodable plan.next_header) where
  long : payload.len ≡ length e.payload
  unfolding to_list
  long = sym (length-bytes_from payload.byte 0 payload.len) ∙ ap length payload_eq

  abbrev header_in : FrameState → FrameHeader
  header_in state = header_with state 0 plan.seq e.timestamp_ns payload.len

  header_in-IsFrameHeader : (state : FrameState) → IsFrameHeader (header_in state)
  header_in-IsFrameHeader state =
      header_with-IsFrameHeader state 0 plan.seq e.timestamp_ns payload.len (omega arith)
        (omega (arith, v.seq_u64)) v.timestamp_u64 (omega (arith, long, v.payload_bounded))

  header_is : header_in FrameState.committed ≡ message_header e
  header_is = rw (flags_eq, sym seq_eq, long)

  -- The memory map after each of the writes.
  record Steps : Type 0 where
    m1 : Buffer
    m2 : Buffer
    m3 : Buffer
    m4 : Buffer
    m5 : Buffer
    writes1 : write_wrap_at m ring_offset plan.wrap_offset ≡ ok m1
    writes2 :
        write_frame m1 ring_offset plan.frame_offset (header_in FrameState.writing) payload ≡ ok m2
    writes3 :
        write_frame_header m2 ring_offset plan.frame_offset (header_in FrameState.committed) ≡ ok m3
    writes4 :
        write_index_slot m3 plan.next_header.index_offset plan.next_header.index_capacity plan.seq
          plan.frame_offset
        ≡ ok m4
    writes5 : write_pool_header m4 plan.next_header ≡ ok m5
    same_len : m5.len ≡ m.len
    marked : MarkerAt m1.byte ring_offset 0 plan.wrap_offset
    outside1 :
        (i : ℕ)
        → OutsideMarker plan.wrap_offset i
        → m1.byte (ring_offset + i) ≡ m.byte (ring_offset + i)
    outside2 :
        (i : ℕ)
        → (i < ring_offset + plan.frame_offset)
          ⊎ (ring_offset + plan.frame_offset + (64 + payload.len + 8) ≤ i)
        → m2.byte i ≡ m1.byte i
    payload2 :
        (i : ℕ)
        → i < payload.len
        → m2.byte (ring_offset + plan.frame_offset + 64 + i) ≡ payload.byte i
    marker2 :
        (i : ℕ)
        → i < 8
        → m2.byte (ring_offset + plan.frame_offset + 64 + payload.len + i)
          ≡ (of_list frame_commit_marker).byte i
    outside3 :
        (i : ℕ)
        → (i < ring_offset + plan.frame_offset) ⊎ (ring_offset + plan.frame_offset + 64 ≤ i)
        → m3.byte i ≡ m2.byte i
    header3 : HeaderAt m3.byte (ring_offset + plan.frame_offset) (header_in FrameState.committed)
    outside4 : (i : ℕ) → ring_offset ≤ i → m4.byte i ≡ m3.byte i
    slot4 :
        0 < plan.next_header.index_capacity
        → (from_le_bytes m4.byte
              (slot_of plan.next_header.index_offset plan.next_header.index_capacity plan.seq)
              8
            ≡ plan.seq)
          × (from_le_bytes m4.byte
                (slot_of plan.next_header.index_offset plan.next_header.index_capacity plan.seq + 8)
                8
              ≡ plan.frame_offset)
    header5 : PoolHeaderAt m5.byte plan.next_header
    outside5 : (i : ℕ) → 104 ≤ i → m5.byte i ≡ m4.byte i

  steps : Steps
  steps =
      let (m1, writes1, len1, marked, outside1, below1) =
        write_wrap_at_lem m ring_offset ring_size plan.wrap_offset sized placed marker_inside in
      let (m2, writes2, only2, payload2, marker2) =
        write_frame_lem m1 ring_offset plan.frame_offset (header_in FrameState.writing) payload
          (omega arith) (header_in-IsFrameHeader FrameState.writing) (omega (arith, long)) in
      let (m3, writes3, only3, at3) =
        write_frame_header_lem m2 (omega (arith, only2.same_len)) ring_offset plan.frame_offset
          (header_in FrameState.committed) (header_in-IsFrameHeader FrameState.committed)
          (omega (arith, long, only2.same_len)) in
      let (m4, writes4, only4, slot4) =
        write_index_slot_lem m3 plan.next_header.index_offset plan.next_header.index_capacity
          plan.seq plan.frame_offset (omega (arith, only2.same_len, only3.same_len))
          (omega (arith, only2.same_len, only3.same_len)) (omega (arith, v.seq_u64))
          (omega arith) in
      let (m5, writes5, len5, header5, outside5) =
        write_pool_header_lem m4 plan.next_header
          (omega (arith, only2.same_len, only3.same_len, only4.same_len))
          (omega (arith, only2.same_len, only3.same_len, only4.same_len)) encodable in
      record {
        m1 = m1;
        m2 = m2;
        m3 = m3;
        m4 = m4;
        m5 = m5;
        writes1 = writes1;
        writes2 = writes2;
        writes3 = writes3;
        writes4 = writes4;
        writes5 = writes5;
        same_len = omega (arith, only2.same_len, only3.same_len, only4.same_len);
        marked = marked;
        outside1 = outside1;
        outside2 = only2.outside;
        payload2 = payload2;
        marker2 = marker2;
        outside3 = only3.outside;
        header3 = at3;
        outside4 = λ i above. only4.outside i (inr (omega arith));
        slot4 = slot4;
        header5 = header5;
        outside5 = outside5;
      }

  -- From the ring on, the bytes that the header of the frame does not cover come from the frame's write.
  module _ (s : Steps) where
    ring_byte : (i : ℕ) → ring_offset ≤ i → s.m5.byte i ≡ s.m3.byte i
    ring_byte i above = s.outside5 i (omega arith) ∙ s.outside4 i above

    frame_bytes : (i : ℕ) → ring_offset + plan.frame_offset + 64 ≤ i → s.m5.byte i ≡ s.m2.byte i
    frame_bytes i above = ring_byte i (omega arith) ∙ s.outside3 i (inr above)

    other_bytes :
        (i : ℕ)
        → (i < plan.frame_offset) ⊎ (plan.frame_offset + size e ≤ i)
        → s.m5.byte (ring_offset + i) ≡ s.m1.byte (ring_offset + i)
    other_bytes i out =
        ring_byte (ring_offset + i) (omega arith)
        ∙ s.outside3 (ring_offset + i) (omega arith)
        ∙ s.outside2 (ring_offset + i) (omega (arith, long))

    frame_written : FrameAt s.m5.byte (ring_offset + plan.frame_offset) e
    unfolding to_list
    frame_written =
        let at = ring_offset + plan.frame_offset in
        let n = length e.payload in
        record {
          header_at = subst (HeaderAt s.m5.byte at) header_is (
              HeaderAt-same s.m3.byte s.m5.byte ring_offset plan.frame_offset
                (header_in FrameState.committed)
                (λ i a b. ring_byte (ring_offset + i) (omega arith)) s.header3);
          payload_at =
              bytes_from_agree s.m5.byte payload.byte (at + 64) 0 n (λ i k.
                frame_bytes (at + 64 + i) (omega arith)
                ∙ s.payload2 i (omega (arith, long))
                ∙ ap payload.byte (omega arith))
              ∙ ap (bytes_from payload.byte 0) (sym long)
              ∙ payload_eq;
          marker_at =
              bytes_from_agree s.m5.byte (of_list frame_commit_marker).byte (at + 64 + n) 0 8
                (λ i k.
                  ap s.m5.byte (omega (arith, long))
                  ∙ frame_bytes (at + 64 + payload.len + i) (omega arith)
                  ∙ s.marker2 i k
                  ∙ ap (of_list frame_commit_marker).byte (omega arith))
              ∙ (unfold bytes_from in refl);
        }

    written_ring :
        Written m.byte s.m5.byte ring_offset ring_size plan.frame_offset plan.wrap_offset e
    written_ring = record {
      frame_at = frame_written;
      marker_at =
          marker_kept s.m1.byte s.m5.byte ring_offset (plan.frame_offset + size e) plan.wrap_offset
            (λ i behind. other_bytes i (inr behind)) s.marked;
      same = λ i k out out_marker. other_bytes i out ∙ s.outside1 i out_marker;
    }

    kept : (p : ℕ) → 104 ≤ p → from_le_bytes s.m5.byte p 8 ≡ from_le_bytes s.m4.byte p 8
    kept p above =
        from_le_bytes_agree s.m5.byte s.m4.byte p p 8 (λ i k. s.outside5 (p + i) (omega arith))

    slot_written :
        0 < plan.next_header.index_capacity
        → (from_le_bytes s.m5.byte
              (slot_of plan.next_header.index_offset plan.next_header.index_capacity e.seq)
              8
            ≡ e.seq)
          × (from_le_bytes s.m5.byte
                (slot_of plan.next_header.index_offset plan.next_header.index_capacity e.seq + 8)
                8
              ≡ plan.frame_offset)
    slot_written some_slots =
        let slot = slot_of plan.next_header.index_offset plan.next_header.index_capacity plan.seq in
        let (seq_at, offset_at) = s.slot4 some_slots in
        subst
          (λ x.
            (from_le_bytes s.m5.byte
                (slot_of plan.next_header.index_offset plan.next_header.index_capacity x) 8
              ≡ x)
            × (from_le_bytes s.m5.byte
                  (slot_of plan.next_header.index_offset plan.next_header.index_capacity x + 8) 8
                ≡ plan.frame_offset))
          seq_eq (kept slot (omega arith) ∙ seq_at, kept (slot + 8) (omega arith) ∙ offset_at)

    applies : apply_append m ring_offset plan payload e.timestamp_ns ≡ ok s.m5
    unfolding apply_append Frame.new
    applies =
        rw
          (
            frame_total_len-some payload.len (omega (arith, long, v.payload_bounded)),
            same_length,
            s.writes1,
            small,
            s.writes2,
            s.writes3,
            s.writes4,
          )
          s.writes5
      where
        same_length : (frame_size payload.len == plan.frame_len) ≡ true
        same_length = ground (arith, long, len_eq)

        small : payload.len % 2 ^ 32 ≡ payload.len
        small = omega (arith, long, v.payload_bounded)

  -- What is left in the memory map.
  pub record Applied (m' : Buffer) : Type 0 where
    pub same_len : m'.len ≡ m.len
    pub header_at : PoolHeaderAt m'.byte plan.next_header
    pub written : Written m.byte m'.byte ring_offset ring_size plan.frame_offset plan.wrap_offset e
    pub slot_at :
        0 < plan.next_header.index_capacity
        → (from_le_bytes m'.byte
              (slot_of plan.next_header.index_offset plan.next_header.index_capacity e.seq)
              8
            ≡ e.seq)
          × (from_le_bytes m'.byte
                (slot_of plan.next_header.index_offset plan.next_header.index_capacity e.seq + 8)
                8
              ≡ plan.frame_offset)

  pub apply_append_lem :
      (m' : Buffer) × (apply_append m ring_offset plan payload e.timestamp_ns ≡ ok m') × Applied m'
  apply_append_lem = (
    steps.m5,
    applies steps,
    record {
      same_len = steps.same_len;
      header_at = steps.header5;
      written = written_ring steps;
      slot_at = slot_written steps;
    },
  )
