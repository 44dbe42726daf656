-- ===== src/Ingest/Seq.antt =====
-- src/ingest.rs: `ingest_json_seq`, records of bytes between record separators (0x1e).
use plasmite.Prelude.{
  ℕ, ◌+◌, Bool, true, false, Option, none, List, [], ◌∷◌, ◌++◌, not, ltb, ◌==◌, ◌&&◌, ◌||◌, length,
  if◌then◌else◌,
}
use plasmite.Error.{Result, err}
use plasmite.Text.{Text, is_nil}
use plasmite.Ingest.{
  IngestMode, IngestConfig, Action, pure, lift, ◌>>=◌, ◌>>◌, reject, use_parsed, io_error, Reader,
}
use plasmite.Ingest.Snippet.{truncate_snippet}

-- `u8::is_ascii_whitespace`
abbrev pub is_ascii_whitespace : ℕ → Bool
is_ascii_whitespace b = b == 32 || b == 9 || b == 10 || b == 12 || b == 13

unfoldable pub is_blank : List ℕ → Bool
is_blank [] = true
is_blank (b ∷ bs) = is_ascii_whitespace b && is_blank bs

-- A byte before the first segment.
abbrev pub before : ℕ → List (List ℕ) × List ℕ → List (List ℕ) × List ℕ
before b ([], rest) = ([], b ∷ rest)
before b (s ∷ ss, rest) = ((b ∷ s) ∷ ss, rest)

-- What stands before each separator of a piece, and what stands behind the last one.
unfoldable pub segments : List ℕ → List (List ℕ) × List ℕ
segments [] = ([], [])
segments (b ∷ bs) =
    let found = segments bs in if b == 0x1e then ([] ∷ found.0, found.1) else before b found

pub record SeqState : Type 0 where
  pub index : ℕ
  pub buf : List ℕ
  pub skipping : Bool

abbrev pub seq_start : SeqState
seq_start = record { index = 0; buf = []; skipping = false }

-- `to_str_lossy` is bstr's.
module _ {S V : Type 0} (json : Text → Option V) (on_value : V → S → Result (Unit {0}) × S)
    (to_str_lossy : List ℕ → Text) (config : IngestConfig) where
  -- `truncate_bytes`
  unfoldable pub truncate_bytes : List ℕ → Result Text
  unfolding truncate_snippet
  truncate_bytes input = truncate_snippet (to_str_lossy input) config.max_snippet_bytes

  unfoldable pub oversize_seq : ℕ → List ℕ → Action S (Unit {0})
  unfolding reject truncate_bytes
  oversize_seq index input =
      reject config IngestMode.seq index none "record exceeds size limit" "Oversize"
        (truncate_bytes input)

  unfoldable pub handle_record : ℕ → List ℕ → Action S (Unit {0})
  unfolding oversize_seq use_parsed truncate_bytes
  handle_record index input =
      if ltb config.max_record_bytes (length input)
      then oversize_seq index input
      else use_parsed on_value config IngestMode.seq index none (truncate_bytes input)
          (json (to_str_lossy input))

  -- A record that a separator ends.
  unfoldable pub seq_segment : SeqState → List ℕ → Action S SeqState
  unfolding handle_record is_blank
  seq_segment s segment =
      if s.skipping
      then pure (record s { skipping = false })
      else let input = s.buf ++ segment in
        if is_blank input
        then pure (record s { buf = [] })
        else handle_record (s.index + 1) input >> pure (record s { index = s.index + 1; buf = [] })

  unfoldable pub seq_segments : SeqState → List (List ℕ) → Action S SeqState
  unfolding seq_segment
  seq_segments s [] = pure s
  seq_segments s (segment ∷ rest) = seq_segment s segment >>= λ s'. seq_segments s' rest

  -- What a piece has behind its last separator.
  unfoldable pub seq_rest : SeqState → List ℕ → Action S SeqState
  unfolding oversize_seq
  seq_rest s rest =
      let buf = s.buf ++ rest in
      if is_nil rest || s.skipping
      then pure s
      else if ltb config.max_record_bytes (length buf)
      then oversize_seq (s.index + 1) buf
        >> pure (record s { index = s.index + 1; buf = []; skipping = true })
      else pure (record s { buf = buf })

  unfoldable pub seq_piece : SeqState → List ℕ → Action S SeqState
  unfolding segments seq_segments seq_rest
  seq_piece s piece =
      let (done, rest) = segments piece in seq_segments s done >>= λ s'. seq_rest s' rest

  unfoldable pub seq_pieces : SeqState → List (List ℕ) → Action S SeqState
  unfolding seq_piece
  seq_pieces s [] = pure s
  seq_pieces s (piece ∷ pieces) = seq_piece s piece >>= λ s'. seq_pieces s' pieces

  unfoldable pub seq_end : SeqState → Action S (Unit {0})
  unfolding handle_record is_blank
  seq_end s =
      if not s.skipping && not (is_nil s.buf) && not (is_blank s.buf)
      then handle_record (s.index + 1) s.buf
      else pure tt

  unfoldable pub ingest_json_seq : Reader → Action S (Unit {0})
  unfolding seq_pieces seq_end
  ingest_json_seq reader = do
    s ← seq_pieces seq_start reader.pieces
    (if reader.fails then lift (err io_error) else seq_end s)
