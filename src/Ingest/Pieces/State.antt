-- ===== src/Ingest/Pieces/State.antt =====
-- What `ingest_json_seq` collects while no record is too long.
use plasmite.Prelude.{
  ℕ, ◌+◌, ◌≤◌, ◌≡◌, arith, ap, sym, subst, false, Option, List, [], ◌∷◌, ◌++◌, length,
  length-append, Bool-cases, inl, inr, if◌then◌else◌, ltb,
}
use mathlib.Core.List.{append-nil}
use plasmite.Error.{Result, ok}
use plasmite.Text.{Text}
use plasmite.Ingest.{IngestConfig, Run}
use plasmite.Ingest.Seq.{SeqState, handle_record, seq_segment, seq_segments, seq_rest, is_blank}
use plasmite.Ingest.Pieces.Steps.{pure-value, after-eq-ok, then_pure-value}

module _ {S V : Type 0} (json : Text → Option V) (on_value : V → S → Result (Unit {0}) × S)
    (to_str_lossy : List ℕ → Text) (config : IngestConfig) where
  -- The reader collects a record of at most `n` bytes.
  abbrev pub Collects : ℕ → SeqState → Type 0
  Collects n s = (s.skipping ≡ false) × (length s.buf ≤ n)

  -- What a segment leaves behind where the step comes back.
  abbrev pub emptied : SeqState → List ℕ → SeqState
  emptied s t = record {
    index = if is_blank (s.buf ++ t) then s.index else s.index + 1;
    buf = [];
    skipping = false;
  }

  pub segment_state :
      (s : SeqState) (t : List ℕ) (run : Run S)
      → s.skipping ≡ false
      → (s' : SeqState) (run' : Run S)
      → seq_segment json on_value to_str_lossy config s t run ≡ (ok s', run')
      → emptied s t ≡ s'
  unfolding seq_segment
  segment_state s t run collects s' run' steps = elim (Bool-cases (is_blank (s.buf ++ t))) [
    | inl blank ↦ rw blank (pure-value _ s' run run' (rw (collects, blank) at steps))
    | inr text ↦ rw text (
        then_pure-value _ s'
          (handle_record json on_value to_str_lossy config (s.index + 1) (s.buf ++ t) run) run'
          (rw (collects, text) at steps))
  ]

  pub segments-Collects :
      (s : SeqState) (done : List (List ℕ)) (run : Run S)
      → s.skipping ≡ false
      → (s' : SeqState) (run' : Run S)
      → seq_segments json on_value to_str_lossy config s done run ≡ (ok s', run')
      → Collects (length s.buf) s'
  unfolding seq_segments
  segments-Collects s [] run collects s' run' steps =
      let same = pure-value s s' run run' steps in
      (
        subst (λ (s' : SeqState). s'.skipping ≡ false) same collects,
        omega (arith, ap (λ (s' : SeqState). length s'.buf) same),
      )
  segments-Collects s (t ∷ ts) run collects s' run' steps =
      let (s1, run1, first, rest) =
        after-eq-ok (λ s1. seq_segments json on_value to_str_lossy config s1 ts)
          (seq_segment json on_value to_str_lossy config s t run) s' run' steps in
      let same = segment_state s t run collects s1 run1 first in
      let (goes_on, small) =
        segments-Collects s1 ts run1 (sym (ap (λ (s1 : SeqState). s1.skipping) same)) s' run'
          rest in
      (goes_on, omega (arith, small, ap (λ (s1 : SeqState). length s1.buf) same))

  pub rest_small :
      (s : SeqState) (rest : List ℕ) (run : Run S)
      → s.skipping ≡ false
      → length s.buf + length rest ≤ config.max_record_bytes
      → seq_rest json on_value to_str_lossy config s rest run
        ≡ (ok (record s { buf = s.buf ++ rest }), run)
  unfolding seq_rest
  rest_small s [] run collects fits =
      ap (λ b. (ok (record s { buf = b }), run)) (sym (append-nil s.buf))
  rest_small s (r ∷ rest) run collects fits =
      let small : ltb config.max_record_bytes (length (s.buf ++ (r ∷ rest))) ≡ false =
        ground (arith, length-append s.buf (r ∷ rest)) in
      rw (collects, small)
