-- ===== src/Ingest/Snippet.antt =====
-- src/ingest.rs: the snippets of failed records, cut to a number of bytes.
pub mod Bounds
use plasmite.Prelude.{
  ℕ, ◌+◌, ◌-◌, Bool, true, false, List, [], ◌∷◌, ◌++◌, ltb, leb, ◌==◌, ◌&&◌, if◌then◌else◌,
  saturating_sub,
}
use plasmite.Error.{Result, ok, ◌>>=◌}
use plasmite.Text.{Text, len, take_bytes}

abbrev pub suffix : Text
suffix = b'.' ∷ b'.' ∷ b'.' ∷ []

unfoldable pub truncate_snippet : Text → ℕ → Result Text
truncate_snippet input max =
    if leb (len input) max
    then ok input
    else if leb max 3
    then take_bytes max suffix
    else take_bytes (max - 3) input >>= λ front. ok (front ++ suffix)

-- The loop of `join_snippet` from its `idx`-th line on; the result says whether it was cut short.
unfoldable pub join_lines : ℕ → ℕ → Text → List Text → Result (Text × Bool)
join_lines max idx snippet [] = ok (snippet, false)
join_lines max idx snippet (line ∷ lines) =
    let start = if ltb 0 idx then snippet ++ (10 ∷ []) else snippet in
    let remaining = saturating_sub max (len start) in
    let next = join_lines max (idx + 1) (start ++ line) lines in
    if ltb 0 idx && ltb max (len snippet + 1)
    then ok (snippet, true)
    else if remaining == 0
    then ok (start, true)
    else if leb (len line) remaining
    then next
    else take_bytes remaining line >>= λ front. ok (start ++ front, true)

unfoldable pub join_snippet : List Text → ℕ → Result Text
unfolding truncate_snippet
join_snippet lines max = do
  joined ← join_lines max 0 [] lines
  (if joined.1 then truncate_snippet (joined.0 ++ suffix) max else ok joined.0)
