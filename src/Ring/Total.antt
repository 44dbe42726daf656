-- ===== src/Ring/Total.antt =====
-- `read_frame_at` on arbitrary bytes, such as those of a damaged pool.
use plasmite.Prelude.{
  ℕ, ◌+◌, ◌^◌, ◌≤◌, ◌<◌, ◌≡◌, ◌⊎◌, inl, inr, refl, arith, IsU64, ltb, leb, ◌==◌, eq_bytes, true,
  false, Bool-cases, add_u64_exact, add_u64, not, bit_xor, Bool, String, if◌then◌else◌,
}
use plasmite.Error.{Result, Error, ErrorKind, ok, err, panic, stuck, ensure, ◌>>=◌, ◌>>◌}
use plasmite.Buffer.{Buffer, to_list, from_le_bytes}
use plasmite.Buffer.Laws.{slice-ok, read_u32-ok, read_u64-ok}
use plasmite.Frame
use plasmite.Frame.{
  FrameHeader, FrameState, from_u32, frame_header_len, frame_magic, frame_commit_marker,
  max_payload_abs, max_payload, frame_total_len, is_none,
}
use plasmite.Frame.Size.{frame_size, frame_total_len-some}
use plasmite.Cursor.{
  ReadResult, read_payload, read_checked, read_committed, read_state, read_decoded, read_frame_at,
  matches,
}

-- The outcome is a value or an error: nothing panics, and no loop is stuck.
abbrev pub Settles {ℓ} : {A : Type ℓ} → Result A → Type ℓ
Settles {A} r = ((a : A) × (r ≡ ok a)) ⊎ ((e : Error) × (r ≡ err e))

if-Settles {ℓ} :
    {A : Type ℓ} (b : Bool) {x y : Result A} → Settles x → Settles y → Settles (if b then x else y)
if-Settles true h k = h
if-Settles false h k = k

ensure-Settles {ℓ} :
    {A : Type ℓ} (b : Bool) (k : ErrorKind) (t : String) (m : Result A)
    → Settles m
    → Settles (ensure b k t >> m)
ensure-Settles true k t m h = h
ensure-Settles false k t m h = inr (_, refl)

module _ {ℓ κ} {A : Type ℓ} {B : Type κ} where
  >>=-Settles :
      (m : Result A) (f : A → Result B) → Settles m → ((a : A) → Settles (f a)) → Settles (m >>= f)
  >>=-Settles (ok a) f h k = k a
  >>=-Settles (err e) f h k = inr (e, refl)
  >>=-Settles panic f (inl (a, e)) k = cc
  >>=-Settles panic f (inr (d, e)) k = cc
  >>=-Settles stuck f (inl (a, e)) k = cc
  >>=-Settles stuck f (inr (d, e)) k = cc

from_u32-Settles : (code : ℕ) → Settles (from_u32 code)
unfolding from_u32
from_u32-Settles code = if-Settles (code == 0) (inl (_, refl)) (
    if-Settles (code == 1) (inl (_, refl)) (
      if-Settles (code == 2) (inl (_, refl))
        (if-Settles (code == 3) (inl (_, refl)) (inr (_, refl)))))

pub decode-Settles : (b : Buffer) → 64 ≤ b.len → IsU64 b.len → Settles (Frame.decode b)
unfolding Frame.decode
decode-Settles b k sized =
    rw
      (
        long_enough,
        slice-ok b 0 4 (omega arith) (omega arith),
        read_u32-ok b 4 sized (omega arith),
        read_u32-ok b 8 sized (omega arith),
        read_u32-ok b 12 sized (omega arith),
        read_u64-ok b 16 sized (omega arith),
        read_u64-ok b 24 sized (omega arith),
        read_u32-ok b 32 sized (omega arith),
        read_u32-ok b 36 sized (omega arith),
        read_u32-ok b 40 sized (omega arith),
      )
      (ensure-Settles
        (eq_bytes (to_list (record { len = 4; byte = λ i. b.byte (0 + i) })) frame_magic)
        ErrorKind.corrupt "bad frame magic" _
        (>>=-Settles (from_u32 (from_le_bytes b.byte 4 4)) _
          (from_u32-Settles (from_le_bytes b.byte 4 4)) (λ state. inl (_, refl))))
  where
    long_enough : ltb b.len frame_header_len ≡ false
    long_enough = ground arith

pub validate-Settles : (h : FrameHeader) (ring_size : ℕ) → Settles (Frame.validate h ring_size)
unfolding Frame.validate
validate-Settles h ring_size =
    ensure-Settles (h.header_len == frame_header_len) ErrorKind.corrupt "unexpected header length" _
      (ensure-Settles (bit_xor h.payload_len h.payload_len_xor == 0xFFFF_FFFF) ErrorKind.corrupt
        "payload length xor mismatch" _
        (ensure-Settles (leb h.payload_len (max_payload ring_size h.header_len)) ErrorKind.corrupt
          "payload length exceeds max" _
          (ensure-Settles (not (is_none (frame_total_len h.header_len h.payload_len)))
            ErrorKind.corrupt "frame length overflow" _ (inl (tt, refl)))))

-- What `validate` accepts has a payload of at most 256 MiB.
pub validate-bounds :
    (h : FrameHeader) (ring_size : ℕ)
    → Frame.validate h ring_size ≡ ok tt
    → h.payload_len ≤ max_payload_abs
unfolding Frame.validate max_payload
validate-bounds h ring_size accepted =
    elim (Bool-cases (leb h.payload_len (max_payload ring_size h.header_len))) [
      | inl within ↦ ground (arith, within)
      | inr beyond ↦ absurd (ground (arith, rw beyond at accepted))
    ]

module _ (m : Buffer) (ring_offset ring_size off : ℕ) (sized : m.len < 2 ^ 63)
    (placed : ring_offset + ring_size ≤ m.len) (inside : off < ring_size) where
  -- The read gives one of the four results.
  abbrev Reads : Result ReadResult → Type 0
  Reads x = (r : ReadResult) × (x ≡ ok r)

  read_payload-Reads :
      (h : FrameHeader)
      → h.payload_len ≤ max_payload_abs
      → Reads (read_payload m ring_size off (ring_offset + off) h (frame_size h.payload_len))
  unfolding read_payload matches
  read_payload-Reads h small = elim (Bool-cases (ltb ring_size (off + frame_size h.payload_len))) [
    | inl beyond ↦ (ReadResult.fell_behind, rw (frame_end, beyond) refl)
    | inr fits ↦
        rw
          (
            frame_end,
            fits,
            add_u64_exact (ring_offset + off) 64 (omega arith),
            add_u64_exact (ring_offset + off + 64) h.payload_len (omega arith),
            add_u64_exact (ring_offset + off + 64 + h.payload_len) 8 (omega arith),
            slice-ok m (ring_offset + off + 64) (ring_offset + off + 64 + h.payload_len)
                (omega arith) (ground (arith, fits)),
            slice-ok m (ring_offset + off + 64 + h.payload_len)
                (ring_offset + off + 64 + h.payload_len + 8) (omega arith) (ground (arith, fits)),
          )
          (_, refl)
  ]
    where
      frame_end : add_u64 off (frame_size h.payload_len) ≡ off + frame_size h.payload_len
      frame_end = add_u64_exact off (frame_size h.payload_len) (omega arith)

  read_state-Reads :
      (state : FrameState) (h : FrameHeader)
      → Reads (read_state state m ring_size off (ring_offset + off) h)
  unfolding read_state read_committed read_checked
  read_state-Reads FrameState.wrap h = (_, refl)
  read_state-Reads FrameState.empty h = (_, refl)
  read_state-Reads FrameState.writing h = (_, refl)
  read_state-Reads FrameState.committed h = elim (validate-Settles h ring_size) [
    | inl (_, accepted) ↦
        let small = validate-bounds h ring_size accepted in
        rw (accepted, frame_total_len-some h.payload_len (omega arith)) (read_payload-Reads h small)
    | inr (_, refused) ↦ (ReadResult.fell_behind, rw refused refl)
  ]

  read_decoded-Reads :
      (r : Result FrameHeader)
      → Settles r
      → Reads (read_decoded m ring_size off (ring_offset + off) r)
  unfolding read_decoded
  read_decoded-Reads (ok h) settles = read_state-Reads h.state h
  read_decoded-Reads (err e) settles = (_, refl)
  read_decoded-Reads panic (inl (a, e)) = cc
  read_decoded-Reads panic (inr (d, e)) = cc
  read_decoded-Reads stuck (inl (a, e)) = cc
  read_decoded-Reads stuck (inr (d, e)) = cc

-- Whatever bytes a map of less than 2 ^ 63 bytes has, `read_frame_at` at an offset inside a ring that
-- lies inside the map gives one of its four results: it does not panic, and does not fail.
pub read_frame_at-total :
    (m : Buffer) (ring_offset ring_size off : ℕ)
    → m.len < 2 ^ 63
    → ring_offset + ring_size ≤ m.len
    → off < ring_size
    → (r : ReadResult) × (read_frame_at m ring_offset ring_size off ≡ ok r)
unfolding read_frame_at
read_frame_at-total m ring_offset ring_size off sized placed inside =
    elim (Bool-cases (ltb (ring_offset + ring_size) (ring_offset + off + 64))) [
      | inl beyond ↦ (ReadResult.fell_behind, rw (start_is, end_is, ring_end, beyond) refl)
      | inr fits ↦
          rw
            (
              start_is,
              end_is,
              ring_end,
              fits,
              slice-ok m (ring_offset + off) (ring_offset + off + 64) (omega arith)
                  (ground (arith, fits)),
            )
            (read_decoded-Reads m ring_offset ring_size off sized placed inside (Frame.decode _)
              (decode-Settles _ (omega arith) (omega arith)))
    ]
  where
    start_is : add_u64 ring_offset off ≡ ring_offset + off
    start_is = add_u64_exact ring_offset off (omega arith)

    end_is : add_u64 (ring_offset + off) 64 ≡ ring_offset + off + 64
    end_is = add_u64_exact (ring_offset + off) 64 (omega arith)

    ring_end : add_u64 ring_offset ring_size ≡ ring_offset + ring_size
    ring_end = add_u64_exact ring_offset ring_size (omega arith)
