-- ===== src/Tests/Ingest.antt =====
-- The theorems about `ingest` at concrete inputs.
use plasmite.Prelude.{
  ℕ, false, true, ◌≡◌, refl, ◌+◌, ◌≤◌, Option, none, some, List, [], ◌∷◌, ◌++◌, length, arith, All,
}
use plasmite.Error.{Result, ok, panic}
use plasmite.Text.{Text, len, width}
use plasmite.Text.Laws.{IsAscii}
use plasmite.Ingest.{IngestMode, ErrorPolicy, IngestConfig, IngestOutcome, Run, Reader, ◌>>=◌}
use plasmite.Ingest.Jsonl.{concat, lines_from, ingest_jsonl}
use plasmite.Ingest.Seq.{ingest_json_seq}
use plasmite.Ingest.Events.{EventState, event_lines, event_end}
use plasmite.Ingest.Auto.{ingest}
use plasmite.Ingest.Snippet.{truncate_snippet}
use plasmite.Ingest.Snippet.Bounds.{truncate_snippet_lem, truncate_snippet-cut}
use plasmite.Ingest.Account.{Took}
use plasmite.Ingest.Account.Modes.{ingest_accounts}
use plasmite.Ingest.Counted.{ingest_jsonl_counts, records}
use plasmite.Ingest.Pieces.{ingest_json_seq-pieces}
use plasmite.Ingest.Skipped.{event_lines-Skips}

-- A parser that takes a text of one code point, and a client that keeps what it gets.
abbrev one_char : Text → Option ℕ
one_char [] = none
one_char (c ∷ []) = some c
one_char (c ∷ d ∷ t) = none

abbrev keep : ℕ → List ℕ → Result (Unit {0}) × List ℕ
keep c client = (ok tt, c ∷ client)

abbrev no_values : Reader → List (Option ℕ)
no_values reader = []

abbrev bytes_as_text : List ℕ → Text
bytes_as_text bytes = bytes

abbrev skip_jsonl : IngestConfig
skip_jsonl = record {
  mode = IngestMode.jsonl;
  errors = ErrorPolicy.skip;
  sniff_bytes = 64;
  sniff_lines = 4;
  max_record_bytes = 16;
  max_snippet_bytes = 8;
}

-- "7", "no", a blank line, "8".
abbrev lines_of_input : Reader
lines_of_input = record {
  pieces = (b'7' ∷ 10 ∷ b'n' ∷ []) ∷ (b'o' ∷ 10 ∷ 10 ∷ b'8' ∷ []) ∷ [];
  fails = false;
}

abbrev no_run : Run (List ℕ)
no_run = record { client = []; ok_count = 0; failed = 0; failures = [] }

-- Two values and one failure: the blank line counts for neither.
ingest_counts_two :
    (ingest one_char keep bytes_as_text no_values skip_jsonl lines_of_input []).0
    ≡ ok (record { records_total = 3; ok_count = 2; failed = 1 })
unfolding ingest
ingest_counts_two = refl

ingest_accounts_example :
    let (r, run) = ingest one_char keep bytes_as_text no_values skip_jsonl lines_of_input [] in
    Took keep run.ok_count [] run.client
    × (run.failed ≡ length run.failures)
    × (skip_jsonl.errors ≡ ErrorPolicy.stop → run.failures ≡ [])
    × ((outcome : IngestOutcome)
        → r ≡ ok outcome
        → (outcome.ok_count ≡ run.ok_count)
          × (outcome.failed ≡ length run.failures)
          × (outcome.records_total ≡ outcome.ok_count + length run.failures))
ingest_accounts_example =
    ingest_accounts one_char keep bytes_as_text no_values skip_jsonl lines_of_input []

input_IsAscii : All IsAscii (lines_from lines_of_input).lines
unfolding lines_from
input_IsAscii = ground arith

ingest_jsonl_counts_example :
    (run' : Run (List ℕ)) × (ingest_jsonl one_char keep skip_jsonl lines_of_input false no_run
      ≡ (ok tt, run'))
    × (run'.ok_count + run'.failed ≡ 0 + 0 + records (lines_from lines_of_input).lines)
unfolding lines_from
ingest_jsonl_counts_example =
    ingest_jsonl_counts one_char keep skip_jsonl lines_of_input no_run refl
      (λ value client. (value ∷ client, refl)) input_IsAscii refl

-- A record that the reads cut in two.
abbrev seq_input : Reader
seq_input = record {
  pieces = (0x1e ∷ b'7' ∷ []) ∷ (10 ∷ 0x1e ∷ []) ∷ (b'8' ∷ []) ∷ [];
  fails = false;
}

ingest_json_seq-pieces_example :
    ingest_json_seq one_char keep bytes_as_text skip_jsonl seq_input no_run
    ≡ ingest_json_seq one_char keep bytes_as_text skip_jsonl
        (record seq_input { pieces = concat seq_input.pieces ∷ [] })
        no_run
ingest_json_seq-pieces_example =
    ingest_json_seq-pieces one_char keep bytes_as_text skip_jsonl seq_input no_run (omega arith)

-- A whole event behind one that was too long is lost.
abbrev skipping_event : EventState
skipping_event = record { index = 1; line_no = 1; data_lines = []; skipping = true }

abbrev later_event : List Text
later_event = (10 ∷ []) ∷ (b'd' ∷ b'a' ∷ b't' ∷ b'a' ∷ b':' ∷ b'7' ∷ 10 ∷ []) ∷ (10 ∷ []) ∷ []

event_lines-Skips_example :
    (event_lines one_char keep skip_jsonl skipping_event later_event
        >>= event_end one_char keep skip_jsonl)
      no_run
    ≡ (ok tt, no_run)
event_lines-Skips_example =
    event_lines-Skips one_char keep skip_jsonl skipping_event later_event no_run refl refl

abbrev six_letters : Text
six_letters = b'a' ∷ b'b' ∷ b'c' ∷ b'd' ∷ b'e' ∷ b'f' ∷ []

truncate_snippet_lem_example :
    ((r : Text) → truncate_snippet six_letters 5 ≡ ok r → len r ≤ 5)
    × (IsAscii six_letters → (r : Text) × (truncate_snippet six_letters 5 ≡ ok r))
    × (len six_letters ≤ 5 → truncate_snippet six_letters 5 ≡ ok six_letters)
truncate_snippet_lem_example = truncate_snippet_lem six_letters 5

-- "aéaaaa" with a limit of five bytes.
truncate_snippet-cut_example :
    truncate_snippet ((b'a' ∷ []) ++ (0xE9 ∷ b'a' ∷ b'a' ∷ b'a' ∷ b'a' ∷ [])) 5 ≡ panic
unfolding len width
truncate_snippet-cut_example =
    truncate_snippet-cut (b'a' ∷ []) 0xE9 (b'a' ∷ b'a' ∷ b'a' ∷ b'a' ∷ []) 5 (omega arith)
      (omega arith) (omega arith) (omega arith)
