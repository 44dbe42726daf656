-- ===== src/Ingest/Pieces/Joined.antt =====
-- The segments of two pieces, one behind the other, as `ingest_json_seq` takes them.
use plasmite.Prelude.{
  ℕ, ◌+◌, ◌≤◌, ◌≡◌, refl, arith, ap, sym, fun_ext, ◌∙◌, false, Option, List, [], ◌∷◌, ◌++◌, length,
  length-append,
}
use mathlib.Core.List.{append_assoc}
use plasmite.Error.{Result, ok}
use plasmite.Text.{Text}
use plasmite.Ingest.{IngestConfig, Run, Action, after, ◌>>=◌}
use plasmite.Ingest.Seq.{SeqState, seq_segment, seq_segments, seq_rest}
use plasmite.Ingest.Pieces.Steps.{after-after}
use plasmite.Ingest.Pieces.Segments.{joined}
use plasmite.Ingest.Pieces.State.{rest_small}

module _ {S V : Type 0} (json : Text → Option V) (on_value : V → S → Result (Unit {0}) × S)
    (to_str_lossy : List ℕ → Text) (config : IngestConfig) where
  -- What is collected before a segment is part of its record.
  pub segment_shift :
      (s : SeqState) (rest t : List ℕ) (run : Run S)
      → s.skipping ≡ false
      → seq_segment json on_value to_str_lossy config (record s { buf = s.buf ++ rest }) t run
        ≡ seq_segment json on_value to_str_lossy config s (rest ++ t) run
  unfolding seq_segment
  segment_shift s rest t run collects = rw (collects, append_assoc s.buf rest t) refl

  pub segments_append :
      (s : SeqState) (xs ys : List (List ℕ)) (run : Run S)
      → seq_segments json on_value to_str_lossy config s (xs ++ ys) run
        ≡ after
            (λ s'. seq_segments json on_value to_str_lossy config s' ys)
            (seq_segments json on_value to_str_lossy config s xs run)
  unfolding seq_segments
  segments_append s [] ys run = refl
  segments_append s (x ∷ xs) ys run =
      ap (λ f. after f (seq_segment json on_value to_str_lossy config s x run))
        (fun_ext (λ s'. fun_ext (λ run'. segments_append s' xs ys run')))
      ∙ sym (
          after-after (λ s'. seq_segments json on_value to_str_lossy config s' ys)
            (λ s'. seq_segments json on_value to_str_lossy config s' xs)
            (seq_segment json on_value to_str_lossy config s x run))

  abbrev pub finish : List (List ℕ) × List ℕ → SeqState → Action S SeqState
  finish (done, rest) s = seq_segments json on_value to_str_lossy config s done >>= λ s'.
      seq_rest json on_value to_str_lossy config s' rest

  abbrev pub collected : SeqState → List ℕ → SeqState
  collected s rest = record s { buf = s.buf ++ rest }

  -- A piece behind the rest `ra` of the one before.
  pub finish-rest :
      (ra : List ℕ) (q : List (List ℕ) × List ℕ) (s : SeqState) (run : Run S)
      → s.skipping ≡ false
      → length s.buf + (length ra + length q.1) ≤ config.max_record_bytes
      → finish (joined ([], ra) q) s run ≡ finish q (collected s ra) run
  unfolding seq_segments
  finish-rest ra ([], rb) s run collects fits =
      rest_small json on_value to_str_lossy config s (ra ++ rb) run collects
        (omega (arith, length-append ra rb))
      ∙ ap (λ b. (ok (record s { buf = b }), run)) (sym (append_assoc s.buf ra rb))
      ∙ sym (
          rest_small json on_value to_str_lossy config (collected s ra) rb run collects
            (omega (arith, length-append s.buf ra)))
  finish-rest ra (t ∷ ts, rb) s run collects fits =
      ap
        (λ r.
          after (λ s'. seq_rest json on_value to_str_lossy config s' rb)
            (after (λ s'. seq_segments json on_value to_str_lossy config s' ts) r))
        (sym (segment_shift s ra t run collects))

  pub finish-joined :
      (da : List (List ℕ)) (ra : List ℕ) (q : List (List ℕ) × List ℕ) (s : SeqState) (run : Run S)
      → finish (joined (da, ra) q) s run
        ≡ after
            (finish (joined ([], ra) q))
            (seq_segments json on_value to_str_lossy config s da run)
  unfolding seq_segments
  finish-joined da ra ([], rb) s run = refl
  finish-joined da ra (t ∷ ts, rb) s run =
      ap (after (λ s'. seq_rest json on_value to_str_lossy config s' rb))
        (segments_append s da ((ra ++ t) ∷ ts) run)
      ∙ after-after (λ s'. seq_rest json on_value to_str_lossy config s' rb)
          (λ s'. seq_segments json on_value to_str_lossy config s' ((ra ++ t) ∷ ts))
          (seq_segments json on_value to_str_lossy config s da run)
