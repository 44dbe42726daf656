-- ===== src/Ingest/Account.antt =====
-- How the counts of an `ingest` relate to what it reports.
pub mod Records
pub mod Jsonl
pub mod Seq
pub mod Events
pub mod Modes
use plasmite.Prelude.{
  ℕ, ◌+◌, ◌≡◌, refl, sym, subst, ap, ◌∙◌, arith, Bool, true, false, String, Option, none, some,
  List, [], ◌∷◌, ◌++◌, length, length-append, if◌then◌else◌,
}
use mathlib.Core.List.{append-nil, append_assoc}
use plasmite.Error.{Error, Result, ok, err, panic, stuck}
use plasmite.Text.{Text}
use plasmite.Ingest.{
  IngestMode, ErrorPolicy, IngestConfig, IngestFailure, Run, Action, pure, lift, after, ◌>>=◌, ◌>>◌,
  on_failure, reject, client_error, accepted, accept_value, value_applied, apply_value, use_parsed,
  Reader,
}

module _ {S V : Type 0} (on_value : V → S → Result (Unit {0}) × S) where
  -- The client took so many values on the way from one state to another; others it refused.
  pub data Took : ℕ → S → S → Type 0 where
    none_yet : (s : S) → Took 0 s s
    taken :
        (n : ℕ) (s t : S) (value : V)
        → Took n s t
        → (on_value value t).0 ≡ ok tt
        → Took (n + 1) s (on_value value t).1
    refused :
        (n : ℕ) (s t : S) (value : V)
        → Took n s t
        → ¬ ((on_value value t).0 ≡ ok tt)
        → Took n s (on_value value t).1

  Took-trans : (n k : ℕ) (s t u : S) → Took n s t → Took k t u → Took (n + k) s u
  Took-trans n k s t u a (none_yet t') = subst (λ x. Took x s t) (omega arith) a
  Took-trans n k s t u a (taken k' t' t'' value b takes) =
      subst (λ x. Took x s (on_value value t'').1) (omega arith)
        (taken (n + k') s t'' value (Took-trans n k' s t t'' a b) takes)
  Took-trans n k s t u a (refused k' t' t'' value b refuses) =
      refused (n + k') s t'' value (Took-trans n k' s t t'' a b) refuses

  -- From `r` to `r'`: as many failures were counted as reported, the reports before are kept, under
  -- `stop` there are none, and as many values were counted as the client took.
  pub record Accounts (errors : ErrorPolicy) (r r' : Run S) : Type 0 where
    pub new_failures : List IngestFailure
    pub kept : r'.failures ≡ r.failures ++ new_failures
    pub counted : r'.failed ≡ r.failed + length new_failures
    pub new_values : ℕ
    pub took : Took new_values r.client r'.client
    pub values_counted : r'.ok_count ≡ r.ok_count + new_values
    pub none_under_stop : errors ≡ ErrorPolicy.stop → new_failures ≡ []

module _ {S V : Type 0} (on_value : V → S → Result (Unit {0}) × S) (errors : ErrorPolicy) where
  pub record Accounted {A : Type 0} (m : Action S A) : Type 0 where
    pub at : (run : Run S) → Accounts on_value errors run (m run).1

  unchanged-Accounts : (r : Run S) → Accounts on_value errors r r
  unchanged-Accounts r = record {
    new_failures = [];
    kept = sym (append-nil r.failures);
    counted = omega arith;
    new_values = 0;
    took = none_yet r.client;
    values_counted = omega arith;
    none_under_stop = λ _. refl;
  }

  Accounts-trans :
      (r r' r'' : Run S)
      → Accounts on_value errors r r'
      → Accounts on_value errors r' r''
      → Accounts on_value errors r r''
  Accounts-trans r r' r'' a b = record {
    new_failures = a.new_failures ++ b.new_failures;
    kept = b.kept ∙ rw a.kept (append_assoc r.failures a.new_failures b.new_failures);
    counted = omega (arith, a.counted, b.counted, length-append a.new_failures b.new_failures);
    new_values = a.new_values + b.new_values;
    took =
        Took-trans on_value a.new_values b.new_values r.client r'.client r''.client a.took b.took;
    values_counted = omega (arith, a.values_counted, b.values_counted);
    none_under_stop = λ e. rw (a.none_under_stop e, b.none_under_stop e) refl;
  }

  pub lift-Accounted : {A : Type 0} (r : Result A) → Accounted (lift r)
  lift-Accounted r = record { at = unchanged-Accounts }

  pub >>=-Accounted :
      {A B : Type 0} (m : Action S A) (f : A → Action S B)
      → Accounted m
      → ((a : A) → Accounted (f a))
      → Accounted (m >>= f)
  >>=-Accounted {A} m f h k = record { at = λ run. go run (m run) (h.at run) }
    where
      go :
          (run : Run S) (r : Result A × Run S)
          → Accounts on_value errors run r.1
          → Accounts on_value errors run (after f r).1
      go run (ok a, r) h = Accounts-trans run r (f a r).1 h ((k a).at r)
      go run (err e, r) h = h
      go run (panic, r) h = h
      go run (stuck, r) h = h

  pub if-Accounted :
      {A : Type 0} (b : Bool) {m n : Action S A}
      → Accounted m
      → Accounted n
      → Accounted (if b then m else n)
  if-Accounted true h k = h
  if-Accounted false h k = k

on_failure-Accounted :
    {S V : Type 0} (on_value : V → S → Result (Unit {0}) × S) (errors : ErrorPolicy)
    (f : IngestFailure)
    → Accounted {S = S} on_value errors (on_failure errors f)
unfolding on_failure
on_failure-Accounted on_value ErrorPolicy.stop f = record {
  at = unchanged-Accounts on_value ErrorPolicy.stop;
}
on_failure-Accounted on_value ErrorPolicy.skip f = record {
  at = λ run. record {
    new_failures = f ∷ [];
    kept = refl;
    counted = omega arith;
    new_values = 0;
    took = none_yet run.client;
    values_counted = omega arith;
    none_under_stop = λ e. cc;
  };
}

module _ {S V : Type 0} (on_value : V → S → Result (Unit {0}) × S) (config : IngestConfig) where
  abbrev pub Kept : {A : Type 0} → Action S A → Type 0
  Kept = Accounted on_value config.errors

  pub reject-Accounted :
      (mode : IngestMode) (index : ℕ) (line : Option ℕ) (message error_kind : String)
      (snippet : Result Text)
      → Kept (reject config mode index line message error_kind snippet)
  unfolding reject
  reject-Accounted mode index line message error_kind snippet =
      >>=-Accounted on_value config.errors (lift snippet) _
        (lift-Accounted on_value config.errors snippet)
        (λ text. on_failure-Accounted on_value config.errors _)

  -- One value: the client takes it, or refuses it in one of the other outcomes.
  one_value :
      (run run' : Run S)
      → run'.failures ≡ run.failures
      → run'.failed ≡ run.failed
      → (n : ℕ) → Took on_value n run.client run'.client
      → run'.ok_count ≡ run.ok_count + n
      → Accounts on_value config.errors run run'
  one_value run run' same_failures same_failed n took counts = record {
    new_failures = [];
    kept = same_failures ∙ sym (append-nil run.failures);
    counted = omega (arith, same_failed);
    new_values = n;
    took = took;
    values_counted = counts;
    none_under_stop = λ _. refl;
  }

  accepted-Accounts :
      (run : Run S) (value : V) (r : Result (Unit {0}) × S)
      → on_value value run.client ≡ r
      → Accounts on_value config.errors run (accepted on_value run r).1
  unfolding accepted
  accepted-Accounts run value (ok _, client) e =
      one_value run _ refl refl 1
        (subst (Took on_value 1 run.client) (ap (λ x. x.1) e)
          (taken 0 run.client run.client value (none_yet run.client) (ap (λ x. x.0) e)))
        (omega arith)
  accepted-Accounts run value (err error, client) e =
      one_value run _ refl refl 0
        (subst (Took on_value 0 run.client) (ap (λ x. x.1) e) (
          refused 0 run.client run.client value (none_yet run.client)
            (λ takes. let is = ap (λ x. x.0) e in cc)))
        (omega arith)
  accepted-Accounts run value (panic, client) e =
      one_value run _ refl refl 0
        (subst (Took on_value 0 run.client) (ap (λ x. x.1) e) (
          refused 0 run.client run.client value (none_yet run.client)
            (λ takes. let is = ap (λ x. x.0) e in cc)))
        (omega arith)
  accepted-Accounts run value (stuck, client) e =
      one_value run _ refl refl 0
        (subst (Took on_value 0 run.client) (ap (λ x. x.1) e) (
          refused 0 run.client run.client value (none_yet run.client)
            (λ takes. let is = ap (λ x. x.0) e in cc)))
        (omega arith)

  client_error-Accounted :
      (errors : ErrorPolicy) (e : Error) (f : IngestFailure)
      → Accounted {S = S} on_value errors (client_error on_value errors e f)
  unfolding client_error
  client_error-Accounted ErrorPolicy.skip e f = lift-Accounted on_value ErrorPolicy.skip (err e)
  client_error-Accounted ErrorPolicy.stop e f = on_failure-Accounted on_value ErrorPolicy.stop f

  value_applied-Accounted :
      (mode : IngestMode) (index : ℕ) (line : Option ℕ) (r : Result (Unit {0}))
      → Kept (value_applied on_value config mode index line r)
  unfolding value_applied
  value_applied-Accounted mode index line (ok _) = lift-Accounted on_value config.errors (ok tt)
  value_applied-Accounted mode index line (err e) = client_error-Accounted config.errors e _
  value_applied-Accounted mode index line panic = lift-Accounted on_value config.errors panic
  value_applied-Accounted mode index line stuck = lift-Accounted on_value config.errors stuck

  pub apply_value-Accounted :
      (mode : IngestMode) (index : ℕ) (line : Option ℕ) (value : V)
      → Kept (apply_value on_value config mode index line value)
  unfolding apply_value accept_value
  apply_value-Accounted mode index line value = record {
    at = λ run.
        let r = on_value value run.client in
        Accounts-trans on_value config.errors run _ _ (accepted-Accounts run value r refl) (
          (value_applied-Accounted mode index line (accepted on_value run r).0).at
            (accepted on_value run r).1);
  }

  pub use_parsed-Accounted :
      (mode : IngestMode) (index : ℕ) (line : Option ℕ) (snippet : Result Text) (value : Option V)
      → Kept (use_parsed on_value config mode index line snippet value)
  unfolding use_parsed
  use_parsed-Accounted mode index line snippet (some value) =
      apply_value-Accounted mode index line value
  use_parsed-Accounted mode index line snippet none =
      reject-Accounted mode index line "invalid json input" "Parse" snippet
