-- ===== src/Wire/Frames/Carried.antt =====
-- A frame that the server writes is the frame that the client reads.
use plasmite.Prelude.{
  ℕ, zero, suc, ◌+◌, ◌-◌, ◌*◌, ◌/◌, ◌%◌, ◌^◌, ◌≤◌, ◌<◌, ◌≡◌, ◌∙◌, sym, ap, ap₂, refl, arith, inl,
  inr, true, Bool-cases, Option, some, List, [], ◌∷◌, ◌++◌, ltb, ◌==◌, length, length-append, IsU64,
}
use plasmite.Error.{Result, ok, ErrorKind}
use plasmite.Error.Laws.{ensure-eq-ok}
use plasmite.Cursor.{FrameRef}
use plasmite.Stream.{drop_front}
use plasmite.Ingest.{Reader}
use plasmite.Ingest.Jsonl.{concat}
use plasmite.Mcp.Read.{without_first}
use plasmite.Mcp.Read.Lists.{take_front, take_front-exact, append_nil}
use plasmite.Wire.Frames.{
  to_be_bytes, from_be_bytes, encode_lite3_stream_frame, fill, read_exact_or_eof, read_exact,
  RemoteLite3Frame, frame_behind, next_frame,
}
use native.Mathlib.Nat.{pow-suc}

length-to_be_bytes : (n x : ℕ) → length (to_be_bytes n x) ≡ n
unfolding to_be_bytes
length-to_be_bytes zero x = refl
length-to_be_bytes (suc n) x =
    omega (
      arith,
      length-append (to_be_bytes n (x / 256)) (x % 256 ∷ []),
      length-to_be_bytes n (x / 256),
    )

from_be_bytes-snoc :
    (front : ℕ) (bs : List ℕ) (b : ℕ)
    → from_be_bytes front (bs ++ (b ∷ [])) ≡ from_be_bytes front bs * 256 + b
unfolding from_be_bytes
from_be_bytes-snoc front [] b = refl
from_be_bytes-snoc front (b' ∷ bs) b = from_be_bytes-snoc (front * 256 + b') bs b

from-to_be_bytes : (n x : ℕ) → x < 256 ^ n → from_be_bytes 0 (to_be_bytes n x) ≡ x
unfolding to_be_bytes from_be_bytes
from-to_be_bytes zero x small = omega arith
from-to_be_bytes (suc n) x small = omega (
  arith,
  from_be_bytes-snoc 0 (to_be_bytes n (x / 256)) (x % 256),
  from-to_be_bytes n (x / 256) fits,
)
  where
    fits : x / 256 < 256 ^ n
    fits = omega (arith, pow-suc 256 n)

module _ {A : Type 0} where
  append_assoc : (xs ys zs : List A) → (xs ++ ys) ++ zs ≡ xs ++ (ys ++ zs)
  append_assoc [] ys zs = refl
  append_assoc (x ∷ xs) ys zs = ap (λ ws. x ∷ ws) (append_assoc xs ys zs)

  none_of : (xs : List A) → length xs ≡ 0 → xs ≡ []
  none_of [] e = refl
  none_of (x ∷ xs) e = absurd (omega arith)

  none_in : (xs ys : List A) → [] ≡ xs ++ ys → xs ≡ []
  none_in [] ys e = refl
  none_in (x ∷ xs) ys e = absurd (grind (arith, e))

  with_none : (xs ys : List A) → ys ≡ [] → xs ≡ xs ++ ys
  with_none xs ys e = sym (append_nil xs) ∙ ap (λ zs. xs ++ zs) (sym e)

  drop_front-append : (xs ys : List A) → drop_front (length xs) (xs ++ ys) ≡ ys
  unfolding drop_front
  drop_front-append [] ys = refl
  drop_front-append (x ∷ xs) ys = drop_front-append xs ys

  drop_front-exact : (n : ℕ) (xs ys : List A) → length xs ≡ n → drop_front n (xs ++ ys) ≡ ys
  drop_front-exact n xs ys e = ap (λ k. drop_front k (xs ++ ys)) (sym e) ∙ drop_front-append xs ys

  -- A list that is put together in two ways, cut at the shorter front.
  cut-short :
      (xs ys front rest : List A)
      → xs ++ ys ≡ front ++ rest
      → length front ≤ length xs
      → (take_front (length front) xs ≡ front) × (drop_front (length front) xs ++ ys ≡ rest)
  unfolding drop_front
  cut-short [] ys [] rest same short = (refl, same)
  cut-short (x ∷ xs) ys [] rest same short = (refl, same)
  cut-short [] ys (f ∷ front) rest same short = absurd (omega arith)
  cut-short (x ∷ xs) ys (f ∷ front) rest same short =
      let (takes, drops) = cut-short xs ys front rest (ap without_first same) (omega arith) in
      let head : x ≡ f = grind (arith, same) in
      (ap (λ zs. x ∷ zs) takes ∙ ap (λ y. y ∷ front) head, drops)

  cut-long :
      (xs ys front rest : List A)
      → xs ++ ys ≡ front ++ rest
      → length xs ≤ length front
      → (more : List A) × (front ≡ xs ++ more) × (ys ≡ more ++ rest)
  cut-long [] ys front rest same long = (front, refl, same)
  cut-long (x ∷ xs) ys [] rest same long = absurd (omega arith)
  cut-long (x ∷ xs) ys (f ∷ front) rest same long =
      let (more, is_front, behind) =
        cut-long xs ys front rest (ap without_first same) (omega arith) in
      let head : f ≡ x = grind (arith, same) in
      (more, ap (λ zs. f ∷ zs) is_front ∙ ap (λ y. y ∷ (xs ++ more)) head, behind)

-- Reading as many bytes as stand in front takes exactly these.
fill-front :
    (n : ℕ) (have : List ℕ) (pieces : List (List ℕ)) (front rest : List ℕ)
    → length front ≡ n
    → concat pieces ≡ front ++ rest
    → (pieces' : List (List ℕ)) × (fill n have pieces ≡ (have ++ front, some pieces'))
      × (concat pieces' ≡ rest)
unfolding fill
fill-front n have [] front rest sized same =
    let empty = none_in front rest same in
    let no_more : (n == 0) ≡ true = ground (arith, sized, ap length empty) in
    (
      [],
      rw no_more (ap (λ xs. (xs, some [])) (with_none have front empty)),
      same ∙ ap (λ xs. xs ++ rest) empty,
    )
fill-front n have (piece ∷ pieces) front rest sized same = elim (Bool-cases (n == 0)) [
  | inl none_left ↦
      let empty = none_of front (ground (arith, none_left, sized)) in
      (
        piece ∷ pieces,
        rw none_left (ap (λ xs. (xs, some (piece ∷ pieces))) (with_none have front empty)),
        same ∙ ap (λ xs. xs ++ rest) empty,
      )
  | inr some_left ↦ elim (Bool-cases (ltb n (length piece))) [
    | inl short ↦
        let (takes, drops) =
          cut-short piece (concat pieces) front rest same (ground (arith, short, sized)) in
        let taken : take_front n piece ≡ front = ap (λ k. take_front k piece) (sym sized) ∙ takes in
        (
          drop_front n piece ∷ pieces,
          rw (some_left, short, taken) refl,
          ap (λ k. drop_front k piece ++ concat pieces) (sym sized) ∙ drops,
        )
    | inr long ↦
        let (more, is_front, behind) =
          cut-long piece (concat pieces) front rest same (ground (arith, long, sized)) in
        let (pieces', fills, left) =
          fill-front (n - length piece) (have ++ piece) pieces more rest
            (omega (arith, sized, ap length is_front, length-append piece more)) behind in
        (
          pieces',
          rw (some_left, long, fills)
              (ap (λ xs. (xs, some pieces'))
                (append_assoc have piece more ∙ ap (λ xs. have ++ xs) (sym is_front))),
          left,
        )
  ]
]

-- The reads of a header of three fields and of the payload behind it.
next_frame-fields :
    (s t l payload rest : List ℕ) (reader : Reader)
    → length s ≡ 8
    → length t ≡ 8
    → length l ≡ 4
    → from_be_bytes 0 l ≡ length payload
    → concat reader.pieces ≡ s ++ (t ++ (l ++ (payload ++ rest)))
    → (pieces : List (List ℕ)) × (next_frame (some reader)
        ≡ ok (
            some (
              record {
                seq = from_be_bytes 0 s;
                timestamp_ns = from_be_bytes 0 t;
                payload = payload;
              },
              record reader { pieces = pieces },
            )))
      × (concat pieces ≡ rest)
unfolding next_frame read_exact_or_eof frame_behind read_exact
next_frame-fields s t l payload rest reader s8 t8 l4 is_len stream =
    let header = s ++ (t ++ l) in
    let sized : length header ≡ 20 = omega (arith, length-append s (t ++ l), length-append t l) in
    let joined : s ++ (t ++ (l ++ (payload ++ rest))) ≡ header ++ (payload ++ rest) = sym (
      append_assoc s (t ++ l) (payload ++ rest)
      ∙ ap (λ xs. s ++ xs) (append_assoc t l (payload ++ rest))) in
    let (pieces1, fills1, left1) =
      fill-front 20 [] reader.pieces header (payload ++ rest) sized (stream ∙ joined) in
    let (pieces2, fills2, left2) = fill-front (length payload) [] pieces1 payload rest refl left1 in
    let third : drop_front 16 header ≡ l =
      ap (λ xs. drop_front 16 xs) (sym (append_assoc s t l))
      ∙ drop_front-exact 16 (s ++ t) l (omega (arith, length-append s t)) in
    let third_taken : take_front 4 l ≡ l =
      ap (λ xs. take_front 4 xs) (sym (append_nil l)) ∙ take_front-exact 4 l [] l4 in
    (
      pieces2,
      rw
          (
            fills1,
            take_front-exact 8 s (t ++ l) s8,
            drop_front-exact 8 s (t ++ l) s8,
            take_front-exact 8 t l t8,
            third,
            third_taken,
            is_len,
            fills2,
          )
          refl,
      left2,
    )

-- A frame that the server encodes, in front of the other bytes of a stream: the client reads the sequence
-- number, the time and the payload of the frame, in whatever pieces the bytes come, and the other bytes are left.
pub next_frame-encode :
    (frame : FrameRef) (bytes rest : List ℕ) (reader : Reader)
    → IsU64 frame.seq
    → IsU64 frame.timestamp_ns
    → encode_lite3_stream_frame frame ≡ ok bytes
    → concat reader.pieces ≡ bytes ++ rest
    → (pieces : List (List ℕ)) × (next_frame (some reader)
        ≡ ok (
            some (
              record {
                seq = frame.seq;
                timestamp_ns = frame.timestamp_ns;
                payload = frame.payload;
              },
              record reader { pieces = pieces },
            )))
      × (concat pieces ≡ rest)
unfolding encode_lite3_stream_frame
next_frame-encode frame bytes rest reader seq_u64 time_u64 encodes stream =
    let s = to_be_bytes 8 frame.seq in
    let t = to_be_bytes 8 frame.timestamp_ns in
    let l = to_be_bytes 4 (length frame.payload) in
    let (small, is_bytes) =
      ensure-eq-ok (ltb (length frame.payload) (2 ^ 32)) ErrorKind.usage _
        (ok (s ++ (t ++ (l ++ frame.payload)))) encodes in
    let joined : s ++ (t ++ (l ++ frame.payload)) ≡ bytes = ground (arith, is_bytes) in
    let parts : bytes ++ rest ≡ s ++ (t ++ (l ++ (frame.payload ++ rest))) =
      ap (λ xs. xs ++ rest) (sym joined)
      ∙ append_assoc s (t ++ (l ++ frame.payload)) rest
      ∙ ap (λ xs. s ++ xs)
          (append_assoc t (l ++ frame.payload) rest
            ∙ ap (λ xs. t ++ xs) (append_assoc l frame.payload rest)) in
    let (pieces, reads, left) =
      next_frame-fields s t l frame.payload rest reader (length-to_be_bytes 8 frame.seq)
        (length-to_be_bytes 8 frame.timestamp_ns) (length-to_be_bytes 4 (length frame.payload))
        (from-to_be_bytes 4 (length frame.payload) (ground (arith, small))) (stream ∙ parts) in
    let answer : ℕ → ℕ → Result (Option (RemoteLite3Frame × Reader)) = λ seq timestamp_ns. ok (
      some (
        record { seq = seq; timestamp_ns = timestamp_ns; payload = frame.payload },
        record reader { pieces = pieces },
      )) in
    (
      pieces,
      reads
          ∙ ap₂ answer (from-to_be_bytes 8 frame.seq seq_u64)
              (from-to_be_bytes 8 frame.timestamp_ns time_u64),
      left,
    )
