-- ===== src/Ingest/Account/Seq.antt =====
-- The counts of an `ingest` in `ingest_json_seq`.
use plasmite.Prelude.{ℕ, ◌+◌, true, Option, none, List, [], ◌∷◌, ◌++◌, length, ltb, ◌||◌}
use plasmite.Error.{Result, err}
use plasmite.Text.{Text, is_nil}
use plasmite.Ingest.{IngestMode, IngestConfig, Reader, io_error}
use plasmite.Ingest.Account.{
  lift-Accounted, >>=-Accounted, if-Accounted, reject-Accounted, use_parsed-Accounted,
}
use plasmite.Ingest.Seq.{
  SeqState, seq_start, oversize_seq, handle_record, seq_segment, seq_segments, seq_rest, seq_piece,
  seq_pieces, seq_end, ingest_json_seq, segments,
}
use plasmite.Ingest.Account.Records.{Acc, done, then_done}

module _ {S V : Type 0} (json : Text → Option V) (on_value : V → S → Result (Unit {0}) × S)
    (to_str_lossy : List ℕ → Text) (values_of : Reader → List (Option V))
    (config : IngestConfig) where
  pub handle_record-Acc :
      (index : ℕ) (input : List ℕ)
      → Acc json on_value to_str_lossy values_of config
          (handle_record json on_value to_str_lossy config index input)
  unfolding handle_record oversize_seq
  handle_record-Acc index input =
      if-Accounted on_value config.errors _ (reject-Accounted on_value config _ _ _ _ _ _)
        (use_parsed-Accounted on_value config _ _ _ _ _)

  pub seq_segment-Acc :
      (s : SeqState) (segment : List ℕ)
      → Acc json on_value to_str_lossy values_of config
          (seq_segment json on_value to_str_lossy config s segment)
  unfolding seq_segment
  seq_segment-Acc s segment = search (
    if-Accounted,
    then_done json on_value to_str_lossy values_of config,
    done json on_value to_str_lossy values_of config,
    handle_record-Acc,
  )

  pub seq_segments-Acc :
      (s : SeqState) (done_segments : List (List ℕ))
      → Acc json on_value to_str_lossy values_of config
          (seq_segments json on_value to_str_lossy config s done_segments)
  unfolding seq_segments
  seq_segments-Acc s [] = done json on_value to_str_lossy values_of config s
  seq_segments-Acc s (segment ∷ rest) =
      >>=-Accounted on_value config.errors _ _ (seq_segment-Acc s segment)
        (λ s'. seq_segments-Acc s' rest)

  pub seq_rest-Acc :
      (s : SeqState) (rest : List ℕ)
      → Acc json on_value to_str_lossy values_of config
          (seq_rest json on_value to_str_lossy config s rest)
  unfolding seq_rest oversize_seq
  seq_rest-Acc s rest =
      let buf = s.buf ++ rest in
      if-Accounted on_value config.errors (is_nil rest || s.skipping)
        (done json on_value to_str_lossy values_of config s)
        (if-Accounted on_value config.errors (ltb config.max_record_bytes (length buf))
          (then_done json on_value to_str_lossy values_of config _
            (record s { index = s.index + 1; buf = []; skipping = true })
            (reject-Accounted on_value config IngestMode.seq (s.index + 1) none
              "record exceeds size limit" "Oversize" _))
          (done json on_value to_str_lossy values_of config (record s { buf = buf })))

  pub seq_pieces-Acc :
      (s : SeqState) (pieces : List (List ℕ))
      → Acc json on_value to_str_lossy values_of config
          (seq_pieces json on_value to_str_lossy config s pieces)
  unfolding seq_pieces seq_piece
  seq_pieces-Acc s [] = done json on_value to_str_lossy values_of config s
  seq_pieces-Acc s (piece ∷ pieces) =
      >>=-Accounted on_value config.errors _ _
        (>>=-Accounted on_value config.errors _ _ (seq_segments-Acc s (segments piece).0)
          (λ s'. seq_rest-Acc s' (segments piece).1))
        (λ s'. seq_pieces-Acc s' pieces)

  pub seq_end-Acc :
      (s : SeqState)
      → Acc json on_value to_str_lossy values_of config
          (seq_end json on_value to_str_lossy config s)
  unfolding seq_end
  seq_end-Acc s =
      search (if-Accounted, handle_record-Acc, done json on_value to_str_lossy values_of config)

  pub ingest_json_seq-Acc :
      (reader : Reader)
      → Acc json on_value to_str_lossy values_of config
          (ingest_json_seq json on_value to_str_lossy config reader)
  unfolding ingest_json_seq
  ingest_json_seq-Acc reader =
      >>=-Accounted on_value config.errors _ _ (seq_pieces-Acc seq_start reader.pieces) λ s.
        if-Accounted on_value config.errors reader.fails
          (lift-Accounted on_value config.errors (err io_error)) (seq_end-Acc s)
