-- ===== src/Ring/Agree.antt =====
-- The messages of a ring stay where its bytes do not change.
use plasmite.Prelude.{ℕ, ◌+◌, ◌-◌, ◌≤◌, ◌<◌, ◌≡◌, ◌∙◌, inl, inr, arith, List, [], ◌∷◌, length}
use plasmite.Buffer.Laws.{bytes_from_agree}
use plasmite.Frame.Codec.{HeaderAt, HeaderAt-agree}
use plasmite.Cursor.{FrameRef}
use plasmite.Ring.{size, message_header, wrap_header, FrameAt, Run, Gap}
use plasmite.Ring.Run.{Run-le}
use native.Mathlib.Nat.{add_assoc}
use native.Mathlib.Decide.{dec_lt}

-- `g` has the bytes of `f` from `off` to `stop` of the ring.
abbrev pub SameFrom : (ℕ → ℕ) → (ℕ → ℕ) → ℕ → ℕ → ℕ → Type 0
SameFrom f g ring_offset off stop =
    (i : ℕ) → off ≤ i → i < stop → g (ring_offset + i) ≡ f (ring_offset + i)

module _ (f g : ℕ → ℕ) (ring_offset : ℕ) where
  pub HeaderAt-same :
      (off : ℕ) (h : _)
      → SameFrom f g ring_offset off (off + 64)
      → HeaderAt f (ring_offset + off) h
      → HeaderAt g (ring_offset + off) h
  HeaderAt-same off h same at =
      HeaderAt-agree f g (ring_offset + off) (ring_offset + off) h
        (λ i k. rw (add_assoc ring_offset off i) (same (off + i) (omega arith) (omega arith))) at

  pub FrameAt-same :
      (off : ℕ) (e : FrameRef)
      → SameFrom f g ring_offset off (off + size e)
      → FrameAt f (ring_offset + off) e
      → FrameAt g (ring_offset + off) e
  FrameAt-same off e same at =
      let n = length e.payload in
      record {
        header_at =
            HeaderAt-same off (message_header e) (λ i a b. same i a (omega arith)) at.header_at;
        payload_at =
            bytes_from_agree g f (ring_offset + off + 64) (ring_offset + off + 64) n (λ i k.
              rw (add_assoc (ring_offset + off) 64 i, add_assoc ring_offset off (64 + i))
                (same (off + (64 + i)) (omega arith) (omega arith)))
            ∙ at.payload_at;
        marker_at =
            bytes_from_agree g f (ring_offset + off + 64 + n) (ring_offset + off + 64 + n) 8 (λ i k.
              rw
                (
                  add_assoc (ring_offset + off + 64) n i,
                  add_assoc (ring_offset + off) 64 (n + i),
                  add_assoc ring_offset off (64 + (n + i)),
                )
                (same (off + (64 + (n + i))) (omega arith) (omega arith)))
            ∙ at.marker_at;
      }

  pub Run-same :
      (ring_size off stop : ℕ) (es : List FrameRef)
      → SameFrom f g ring_offset off stop
      → Run f ring_offset ring_size off stop es
      → Run g ring_offset ring_size off stop es
  Run-same ring_size off stop [] same run = run
  Run-same ring_size off stop (e ∷ es) same (v, at, rest) =
      let behind = Run-le f ring_offset ring_size (off + size e) stop es rest in
      (
        v,
        FrameAt-same off e (λ i a b. same i a (omega arith)) at,
        Run-same ring_size (off + size e) stop es (λ i a b. same i (omega arith) b) rest,
      )

  -- A gap stays where nothing is written from it on.
  pub Gap-same :
      (ring_size stop : ℕ)
      → SameFrom f g ring_offset stop ring_size
      → Gap f ring_offset ring_size stop
      → Gap g ring_offset ring_size stop
  Gap-same ring_size stop same (inside, inl short) = (inside, inl short)
  Gap-same ring_size stop same (inside, inr marker) = elim (dec_lt (ring_size - stop) 64) [
    | yes short ↦ (inside, inl short)
    | no long ↦
        (inside, inr (HeaderAt-same stop wrap_header (λ i a b. same i a (omega arith)) marker))
  ]
