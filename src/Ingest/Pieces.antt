-- ===== src/Ingest/Pieces.antt =====
-- `ingest_json_seq` does not depend on where the reads cut the input, as long as no record can be too
-- long.
pub mod Steps
pub mod Segments
pub mod State
pub mod Joined
use plasmite.Prelude.{
  ℕ, ◌+◌, ◌≤◌, ◌≡◌, refl, arith, ap, sym, subst, fun_ext, ◌∙◌, Bool, true, false, Option, none,
  some, List, [], ◌∷◌, ◌++◌, length, length-append, Bool-cases, inl, inr, if◌then◌else◌, ltb, ◌==◌,
}
use mathlib.Core.List.{append-nil, append_assoc}
use plasmite.Error.{Result, ok, err, panic, stuck}
use plasmite.Text.{Text, is_nil}
use plasmite.Ingest.{IngestConfig, Run, Action, pure, lift, io_error, after, ◌>>=◌, ◌>>◌, Reader}
use plasmite.Ingest.Jsonl.{concat}
use plasmite.Ingest.Seq.{
  SeqState, seq_start, before, segments, handle_record, seq_segment, seq_segments, seq_rest,
  seq_piece, seq_pieces, seq_end, ingest_json_seq, is_blank,
}
use plasmite.Ingest.Pieces.Steps.{
  after-pure, after-after, after_agree, pure-value, after-eq-ok, then_pure-value,
}
use plasmite.Ingest.Pieces.Segments.{
  joined, before-joined, separated-joined, nothing-joined, segments-append, before-rest,
  segments-rest,
}
use plasmite.Ingest.Pieces.State.{Collects, emptied, segment_state, segments-Collects, rest_small}
use plasmite.Ingest.Pieces.Joined.{
  segment_shift, segments_append, finish, collected, finish-rest, finish-joined,
}

module _ {S V : Type 0} (json : Text → Option V) (on_value : V → S → Result (Unit {0}) × S)
    (to_str_lossy : List ℕ → Text) (config : IngestConfig) where
  piece-append :
      (a b : List ℕ) (s : SeqState) (run : Run S)
      → s.skipping ≡ false
      → length s.buf + (length a + length b) ≤ config.max_record_bytes
      → seq_piece json on_value to_str_lossy config s (a ++ b) run
        ≡ after
            (λ s'. seq_piece json on_value to_str_lossy config s' b)
            (seq_piece json on_value to_str_lossy config s a run)
  unfolding seq_piece
  piece-append a b s run collects fits =
      let first = seq_segments json on_value to_str_lossy config s (segments a).0 run in
      let rest = (segments a).1 in
      let second : SeqState → Action S SeqState = λ s'.
        finish json on_value to_str_lossy config (segments b)
          (collected json on_value to_str_lossy config s' rest) in
      let reads : SeqState → Action S SeqState =
        λ s'. seq_rest json on_value to_str_lossy config s' rest in
      ap (λ p. finish json on_value to_str_lossy config p s run) (segments-append a b)
      ∙ finish-joined json on_value to_str_lossy config (segments a).0 rest (segments b) s run
      ∙ after_agree (finish json on_value to_str_lossy config (joined ([], rest) (segments b)))
          second first behind
      ∙ after_agree second
          (λ s' run'. after (finish json on_value to_str_lossy config (segments b)) (reads s' run'))
          first (λ s' run' steps. sym (read_rest s' run' steps))
      ∙ sym (after-after (finish json on_value to_str_lossy config (segments b)) reads first)
    where
      bounded :
          (s' : SeqState) (run' : Run S)
          → seq_segments json on_value to_str_lossy config s (segments a).0 run ≡ (ok s', run')
          → Collects json on_value to_str_lossy config (length s.buf) s'
      bounded s' run' steps =
          segments-Collects json on_value to_str_lossy config s (segments a).0 run collects s' run'
            steps

      behind :
          (s' : SeqState) (run' : Run S)
          → seq_segments json on_value to_str_lossy config s (segments a).0 run ≡ (ok s', run')
          → finish json on_value to_str_lossy config
              (joined ([], (segments a).1) (segments b))
              s'
              run'
            ≡ finish json on_value to_str_lossy config
                (segments b)
                (collected json on_value to_str_lossy config s' (segments a).1)
                run'
      behind s' run' steps =
          let (goes_on, small) = bounded s' run' steps in
          finish-rest json on_value to_str_lossy config (segments a).1 (segments b) s' run' goes_on
            (omega (arith, small, segments-rest a, segments-rest b))

      read_rest :
          (s' : SeqState) (run' : Run S)
          → seq_segments json on_value to_str_lossy config s (segments a).0 run ≡ (ok s', run')
          → after
              (finish json on_value to_str_lossy config (segments b))
              (seq_rest json on_value to_str_lossy config s' (segments a).1 run')
            ≡ finish json on_value to_str_lossy config
                (segments b)
                (collected json on_value to_str_lossy config s' (segments a).1)
                run'
      read_rest s' run' steps =
          let (goes_on, small) = bounded s' run' steps in
          ap (after (finish json on_value to_str_lossy config (segments b))) (
            rest_small json on_value to_str_lossy config s' (segments a).1 run' goes_on
              (omega (arith, small, segments-rest a)))

  piece-Collects :
      (s : SeqState) (a : List ℕ) (run : Run S)
      → s.skipping ≡ false
      → length s.buf + length a ≤ config.max_record_bytes
      → (s' : SeqState) (run' : Run S)
      → seq_piece json on_value to_str_lossy config s a run ≡ (ok s', run')
      → Collects json on_value to_str_lossy config (length s.buf + length a) s'
  unfolding seq_piece
  piece-Collects s a run collects fits s' run' steps =
      let (s1, run1, first, rest) =
        after-eq-ok (λ s1. seq_rest json on_value to_str_lossy config s1 (segments a).1)
          (seq_segments json on_value to_str_lossy config s (segments a).0 run) s' run' steps in
      let (goes_on, small) =
        segments-Collects json on_value to_str_lossy config s (segments a).0 run collects s1 run1
          first in
      let read =
        rest_small json on_value to_str_lossy config s1 (segments a).1 run1 goes_on
          (omega (arith, small, segments-rest a)) in
      let same =
        pure-value (collected json on_value to_str_lossy config s1 (segments a).1) s' run1 run'
          (sym read ∙ rest) in
      (
        sym (ap (λ (s1 : SeqState). s1.skipping) same) ∙ goes_on,
        omega (
          arith,
          small,
          segments-rest a,
          ap (λ (s1 : SeqState). length s1.buf) same,
          length-append s1.buf (segments a).1,
        ),
      )

  pieces_joined :
      (pieces : List (List ℕ)) (s : SeqState) (run : Run S)
      → s.skipping ≡ false
      → length s.buf + length (concat pieces) ≤ config.max_record_bytes
      → seq_pieces json on_value to_str_lossy config s pieces run
        ≡ seq_piece json on_value to_str_lossy config s (concat pieces) run
  unfolding seq_pieces
  pieces_joined [] s run collects fits = refl
  pieces_joined (a ∷ pieces) s run collects fits =
      after_agree (λ s'. seq_pieces json on_value to_str_lossy config s' pieces)
        (λ s'. seq_piece json on_value to_str_lossy config s' (concat pieces))
        (seq_piece json on_value to_str_lossy config s a run)
        (λ s' run' steps.
          let (goes_on, small) =
            piece-Collects s a run collects (omega (arith, length-append a (concat pieces))) s' run'
              steps in
          pieces_joined pieces s' run' goes_on
            (omega (arith, small, length-append a (concat pieces))))
      ∙ sym (
          piece-append a (concat pieces) s run collects
            (omega (arith, length-append a (concat pieces))))

-- Where the whole input is not longer than a record may be, it does not matter in which pieces the reads give it: the
-- run is that of one read of all bytes.
pub ingest_json_seq-pieces :
    {S V : Type 0} (json : Text → Option V) (on_value : V → S → Result (Unit {0}) × S)
    (to_str_lossy : List ℕ → Text) (config : IngestConfig) (reader : Reader) (run : Run S)
    → length (concat reader.pieces) ≤ config.max_record_bytes
    → ingest_json_seq json on_value to_str_lossy config reader run
      ≡ ingest_json_seq json on_value to_str_lossy config
          (record reader { pieces = concat reader.pieces ∷ [] })
          run
unfolding ingest_json_seq seq_pieces
ingest_json_seq-pieces json on_value to_str_lossy config reader run fits =
    ap
      (after (λ s.
        if reader.fails then lift (err io_error) else seq_end json on_value to_str_lossy config s))
      (pieces_joined json on_value to_str_lossy config reader.pieces seq_start run refl
          (omega arith)
        ∙ sym (after-pure _))
