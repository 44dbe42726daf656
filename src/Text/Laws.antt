-- ===== src/Text/Laws.antt =====
-- Lengths and slices of texts.
use plasmite.Prelude.{
  ℕ, ◌+◌, ◌-◌, ◌≤◌, ◌<◌, ◌≡◌, refl, arith, [], ◌∷◌, ◌++◌, All, length, ap, inl, inr, Bool-cases,
  ltb, ◌==◌, false, true,
}
use plasmite.Error.{ok, panic}
use plasmite.Error.Laws.{>>=-eq-ok}
use plasmite.Text.{Text, width, len, take_bytes}

pub width-bounds : (c : ℕ) → (1 ≤ width c) × (width c ≤ 4)
unfolding width
width-bounds c = ground arith

pub len-append : (s t : Text) → len (s ++ t) ≡ len s + len t
unfolding len
len-append [] t = omega arith
len-append (c ∷ s) t = omega (arith, len-append s t)

-- ASCII, where a code point is a byte.
abbrev pub IsAscii : Text → Type 0
IsAscii = All (λ c. c < 0x80)

pub len-IsAscii : (s : Text) → IsAscii s → len s ≡ length s
unfolding len width
len-IsAscii [] a = refl
len-IsAscii (c ∷ s) a = ground (arith, len-IsAscii s a.1)

-- A slice that comes back is the front of the text that has the number of bytes asked for.
pub take_bytes-front :
    (n : ℕ) (s r : Text) → take_bytes n s ≡ ok r → (len r ≡ n) × ((rest : Text) × (s ≡ r ++ rest))
unfolding take_bytes len
take_bytes-front n [] r e = elim (Bool-cases (n == 0)) [
  | inl none_left ↦
      let r_nil : ok [] ≡ ok r = rw none_left at e in
      let nil : r ≡ [] = ground (arith, r_nil) in rw nil (ground (arith, none_left), ([], refl))
  | inr some_left ↦ absurd (grind (arith, rw some_left at e))
]
take_bytes-front n (c ∷ s) r e = elim (Bool-cases (n == 0)) [
  | inl none_left ↦
      let r_nil : ok [] ≡ ok r = rw none_left at e in
      let nil : r ≡ [] = ground (arith, r_nil) in rw nil (ground (arith, none_left), (c ∷ s, refl))
  | inr some_left ↦ elim (Bool-cases (ltb n (width c))) [
    | inl cut ↦ absurd (grind (arith, rw (some_left, cut) at e))
    | inr fits ↦
        let (r', front, is_r) =
          >>=-eq-ok (take_bytes (n - width c) s) (λ r'. ok (c ∷ r')) (rw (some_left, fits) at e) in
        let (length_eq, (rest, parts)) = take_bytes-front (n - width c) s r' front in
        let cons : r ≡ c ∷ r' = ground (arith, is_r) in
        rw cons (ground (arith, fits, length_eq), (rest, ap (λ t. c ∷ t) parts))
  ]
]

-- A front of the text can be sliced off.
pub take_bytes-append : (s t : Text) → take_bytes (len s) (s ++ t) ≡ ok s
unfolding take_bytes len
take_bytes-append [] [] = refl
take_bytes-append [] (c ∷ t) = refl
take_bytes-append (c ∷ s) t =
    let behind : width c + len s - width c ≡ len s = omega arith in
    let some_left : (width c + len s == 0) ≡ false = ground (arith, width-bounds c) in
    let fits : ltb (width c + len s) (width c) ≡ false = ground arith in
    rw (some_left, fits, behind, take_bytes-append s t)

-- A slice that ends inside a code point panics.
pub take_bytes-cut :
    (n : ℕ) (s : Text) (c : ℕ) (t : Text)
    → len s < n
    → n < len s + width c
    → take_bytes n (s ++ (c ∷ t)) ≡ panic
unfolding take_bytes len
take_bytes-cut n [] c t above below =
    let some_left : (n == 0) ≡ false = ground arith in
    let cut : ltb n (width c) ≡ true = ground arith in rw (some_left, cut)
take_bytes-cut n (d ∷ s) c t above below =
    let some_left : (n == 0) ≡ false = ground arith in
    let fits : ltb n (width d) ≡ false = ground arith in
    rw (some_left, fits, take_bytes-cut (n - width d) s c t (omega arith) (omega arith))

width-ascii : (c : ℕ) → c < 0x80 → width c ≡ 1
unfolding width
width-ascii c a = ground arith

-- ASCII texts can be cut everywhere.
pub take_bytes-IsAscii :
    (n : ℕ) (s : Text) → IsAscii s → n ≤ len s → (r : Text) × (take_bytes n s ≡ ok r)
unfolding take_bytes len
take_bytes-IsAscii n [] a fits =
    let none_left : (n == 0) ≡ true = ground arith in rw none_left ([], refl)
take_bytes-IsAscii n (c ∷ s) a fits = elim (Bool-cases (n == 0)) [
  | inl none_left ↦ rw none_left ([], refl)
  | inr some_left ↦
      let one = width-ascii c a.0 in
      let below : ltb n (width c) ≡ false = ground arith in
      let (r, rest) = take_bytes-IsAscii (n - width c) s a.1 (omega arith) in
      rw (some_left, below, rest) (c ∷ r, refl)
]
