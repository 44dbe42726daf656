-- ===== src/Ingest/Pieces/Steps.antt =====
-- Steps of a run one behind the other.
use plasmite.Prelude.{◌≡◌, refl, arith, ap}
use plasmite.Error.{Result, ok, err, panic, stuck}
use plasmite.Ingest.{Run, Action, pure, after}

module _ {S : Type 0} where
  pub after-pure : {A : Type 0} (r : Result A × Run S) → after pure r ≡ r
  after-pure (ok a, run) = refl
  after-pure (err e, run) = refl
  after-pure (panic, run) = refl
  after-pure (stuck, run) = refl

  pub after-after :
      {A B C : Type 0} (f : B → Action S C) (g : A → Action S B) (r : Result A × Run S)
      → after f (after g r) ≡ after (λ a run. after f (g a run)) r
  after-after f g (ok a, run) = refl
  after-after f g (err e, run) = refl
  after-after f g (panic, run) = refl
  after-after f g (stuck, run) = refl

  -- Two continuations need to agree only on what comes back.
  pub after_agree :
      {A B : Type 0} (f g : A → Action S B) (r : Result A × Run S)
      → ((a : A) (run : Run S) → r ≡ (ok a, run) → f a run ≡ g a run)
      → after f r ≡ after g r
  after_agree f g (ok a, run) h = h a run refl
  after_agree f g (err e, run) h = refl
  after_agree f g (panic, run) h = refl
  after_agree f g (stuck, run) h = refl

  -- The value of a step that comes back.
  pub pure-value :
      {A : Type 0} (a a' : A) (run run' : Run S)
      → ◌≡◌ {A = Result A × Run S} (ok a, run) (ok a', run')
      → a ≡ a'
  pure-value a a' run run' e = ground (arith, ap (λ r. r.0) e)

  pub after-eq-ok :
      {A B : Type 0} (f : A → Action S B) (r : Result A × Run S) (b : B) (run' : Run S)
      → after f r ≡ (ok b, run')
      → (a : A) × (run : Run S) × (r ≡ (ok a, run)) × (f a run ≡ (ok b, run'))
  after-eq-ok f (ok a, run) b run' e = (a, run, refl, e)
  after-eq-ok f (err d, run) b run' e = cc
  after-eq-ok f (panic, run) b run' e = cc
  after-eq-ok f (stuck, run) b run' e = cc

  pub then_pure-value :
      {A : Type 0} (a a' : A) (r : Result (Unit {0}) × Run S) (run' : Run S)
      → after (λ _. pure a) r ≡ (ok a', run')
      → a ≡ a'
  then_pure-value a a' (ok _, run) run' e = pure-value a a' run run' e
  then_pure-value a a' (err d, run) run' e = cc
  then_pure-value a a' (panic, run) run' e = cc
  then_pure-value a a' (stuck, run) run' e = cc
