-- ===== src/Text.antt =====
-- What the program uses of Rust's `str` and of UTF-8: a text is the list of its code points, and its
-- length and its slices count bytes. A slice that cuts a code point in two panics.
pub mod Laws
use plasmite.Prelude.{
  ℕ, zero, suc, ◌+◌, ◌-◌, ◌*◌, Bool, true, false, Option, none, some, List, [], ◌∷◌, ◌++◌, length,
  ltb, leb, ◌==◌, not, ◌&&◌, ◌||◌, if◌then◌else◌, eq_bytes,
}
use plasmite.Error.{Result, ok, panic, ◌>>=◌}

abbrev pub Text : Type 0
Text = List ℕ

-- The bytes that a code point takes up.
unfoldable pub width : ℕ → ℕ
width c = if ltb c 0x80 then 1 else if ltb c 0x800 then 2 else if ltb c 0x1_0000 then 3 else 4

-- `s.len()`
unfoldable pub len : Text → ℕ
unfolding width
len [] = 0
len (c ∷ s) = width c + len s

-- `&s[..n]`
unfoldable pub take_bytes : ℕ → Text → Result Text
unfolding width
take_bytes n [] = if n == 0 then ok [] else panic
take_bytes n (c ∷ s) =
    let rest = take_bytes (n - width c) s in
    if n == 0 then ok [] else if ltb n (width c) then panic else rest >>= λ r. ok (c ∷ r)

-- `char::is_whitespace`
unfoldable pub is_whitespace : ℕ → Bool
is_whitespace c =
    (leb 9 c && leb c 13)
    || c == 32
    || c == 0x85
    || c == 0xA0
    || c == 0x1680
    || (leb 0x2000 c && leb c 0x200A)
    || c == 0x2028
    || c == 0x2029
    || c == 0x202F
    || c == 0x205F
    || c == 0x3000

abbrev pub is_nil {ℓ} : {A : Type ℓ} → List A → Bool
is_nil [] = true
is_nil (x ∷ xs) = false

unfoldable pub trim_start : Text → Text
unfolding is_whitespace
trim_start [] = []
trim_start (c ∷ s) = if is_whitespace c then trim_start s else c ∷ s

-- `s.trim_end_matches(p)`
unfoldable pub trim_end_matches : (ℕ → Bool) → Text → Text
trim_end_matches p [] = []
trim_end_matches p (c ∷ s) =
    let rest = trim_end_matches p s in if is_nil rest && p c then [] else c ∷ rest

unfoldable pub trim : Text → Text
unfolding trim_start trim_end_matches is_whitespace
trim s = trim_start (trim_end_matches is_whitespace s)

-- `s.strip_prefix(p)`
unfoldable pub strip_prefix : Text → Text → Option Text
strip_prefix [] s = some s
strip_prefix (p ∷ ps) [] = none
strip_prefix (p ∷ ps) (c ∷ s) = if p == c then strip_prefix ps s else none

unfoldable pub starts_with : Text → Text → Bool
unfolding strip_prefix
starts_with p s = elim (strip_prefix p s) [ none ↦ false | some _ ↦ true ]

-- The lines of a text, each with its line feed, as repeated calls of `read_line` give them.
unfoldable pub lines_of : Text → List Text
lines_of [] = []
lines_of (c ∷ s) =
    let rest = lines_of s in
    if c == 10
    then (c ∷ []) ∷ rest
    else elim rest [ [] ↦ (c ∷ []) ∷ [] | line ∷ others ↦ (c ∷ line) ∷ others ]

-- Where a decoder stands in a code point: the bytes that are missing, what the bytes so far give, and
-- the range of the next byte.
pub record Pending : Type 0 where
  pub missing : ℕ
  pub value : ℕ
  pub low : ℕ
  pub high : ℕ

abbrev pub lead : ℕ → Option Pending
lead b =
    if leb 0xC2 b && leb b 0xDF
    then some (record { missing = 1; value = b - 0xC0; low = 0x80; high = 0xBF })
    else if b == 0xE0
    then some (record { missing = 2; value = 0; low = 0xA0; high = 0xBF })
    else if leb 0xE1 b && leb b 0xEF
    then some (record {
      missing = 2;
      value = b - 0xE0;
      low = 0x80;
      high = if b == 0xED then 0x9F else 0xBF;
    })
    else if b == 0xF0
    then some (record { missing = 3; value = 0; low = 0x90; high = 0xBF })
    else if leb 0xF1 b && leb b 0xF4
    then some (record {
      missing = 3;
      value = b - 0xF0;
      low = 0x80;
      high = if b == 0xF4 then 0x8F else 0xBF;
    })
    else none

-- The code points up to the first byte that UTF-8 does not allow, and whether all bytes are allowed.
unfoldable pub decode_utf8 : Option Pending → List ℕ → Text × Bool
decode_utf8 none [] = ([], true)
decode_utf8 (some _) [] = ([], false)
decode_utf8 none (b ∷ bs) =
    let plain = decode_utf8 none bs in
    let longer = decode_utf8 (lead b) bs in
    if ltb b 0x80
    then (b ∷ plain.0, plain.1)
    else elim (lead b) [ none ↦ ([], false) | some _ ↦ longer ]
decode_utf8 (some p) (b ∷ bs) =
    let value = p.value * 64 + (b - 0x80) in
    let finished = decode_utf8 none bs in
    let longer =
      decode_utf8
        (some (record { missing = p.missing - 1; value = value; low = 0x80; high = 0xBF })) bs in
    if not (leb p.low b && leb b p.high)
    then ([], false)
    else if p.missing == 1
    then (value ∷ finished.0, finished.1)
    else longer
