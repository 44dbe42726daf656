-- ===== src/Ingest/Pieces/Segments.antt =====
-- The segments of a piece that is put together of two.
use plasmite.Prelude.{
  ℕ, ◌+◌, ◌≤◌, ◌≡◌, refl, arith, List, [], ◌∷◌, ◌++◌, length, Bool-cases, inl, inr, ◌==◌,
}
use plasmite.Ingest.Seq.{before, segments}

-- The segments of a longer piece: the first segment of `b` is behind the rest of `a`.
abbrev pub joined : List (List ℕ) × List ℕ → List (List ℕ) × List ℕ → List (List ℕ) × List ℕ
joined (da, ra) ([], rb) = (da, ra ++ rb)
joined (da, ra) (t ∷ ts, rb) = (da ++ ((ra ++ t) ∷ ts), rb)

pub before-joined :
    (b : ℕ) (p q : List (List ℕ) × List ℕ) → before b (joined p q) ≡ joined (before b p) q
before-joined b ([], ra) ([], rb) = refl
before-joined b ([], ra) (t ∷ ts, rb) = refl
before-joined b (d ∷ ds, ra) ([], rb) = refl
before-joined b (d ∷ ds, ra) (t ∷ ts, rb) = refl

pub separated-joined :
    (p q : List (List ℕ) × List ℕ)
    → ([] ∷ (joined p q).0, (joined p q).1) ≡ joined ([] ∷ p.0, p.1) q
separated-joined (da, ra) ([], rb) = refl
separated-joined (da, ra) (t ∷ ts, rb) = refl

pub nothing-joined : (q : List (List ℕ) × List ℕ) → q ≡ joined ([], []) q
nothing-joined ([], rb) = refl
nothing-joined (t ∷ ts, rb) = refl

pub segments-append : (a b : List ℕ) → segments (a ++ b) ≡ joined (segments a) (segments b)
unfolding segments
segments-append [] b = nothing-joined (segments b)
segments-append (x ∷ a) b = elim (Bool-cases (x == 0x1e)) [
  | inl separator ↦ rw (separator, segments-append a b) (separated-joined (segments a) (segments b))
  | inr byte ↦ rw (byte, segments-append a b) (before-joined x (segments a) (segments b))
]

pub before-rest : (x : ℕ) (p : List (List ℕ) × List ℕ) → length (before x p).1 ≤ length p.1 + 1
before-rest x ([], rest) = omega arith
before-rest x (s ∷ ss, rest) = omega arith

pub segments-rest : (a : List ℕ) → length (segments a).1 ≤ length a
unfolding segments
segments-rest [] = omega arith
segments-rest (x ∷ a) = elim (Bool-cases (x == 0x1e)) [
  | inl separator ↦ rw separator (omega (arith, segments-rest a))
  | inr byte ↦ rw byte (omega (arith, before-rest x (segments a), segments-rest a))
]
