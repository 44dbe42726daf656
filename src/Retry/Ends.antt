-- ===== src/Retry/Ends.antt =====
-- How often a call is repeated, and with which answer.
use plasmite.Prelude.{
  ℕ, zero, suc, ◌+◌, ◌-◌, ◌*◌, ◌%◌, ◌^◌, ◌≤◌, ◌<◌, ◌≡◌, ◌⊎◌, inl, inr, refl, sym, subst, ◌∙◌, ap,
  arith, Bool, true, false, Bool-cases, String, ltb, leb, ◌&&◌, if◌then◌else◌, some,
}
use plasmite.Error.{Error, Result, ok, err, panic, stuck}
use native.Mathlib.Nat.{add-mul, one-mul, zero-mul}
use plasmite.Retry.{
  RetryConfig, is_retryable, add_retry_hint, after_attempt, retry_loop, retry_with_config,
}

module _ (io_is_retryable : Error → Bool) (info : ℕ → ℕ → String) (join : String → String → String)
    {S A : Type 0} (f : S → Result A × S) where
  -- So many calls, one behind the other, failed with errors to repeat.
  pub data Failing : ℕ → S → S → Type 0 where
    start : (s : S) → Failing 0 s s
    next :
        (n : ℕ) (s t : S) (e : Error)
        → Failing n s t
        → (f t).0 ≡ err e
        → is_retryable io_is_retryable e ≡ true
        → Failing (n + 1) s (f t).1

  -- The answer to a last call behind `n` others.
  abbrev pub final : RetryConfig → ℕ → Result A × S → Result A × S
  final config n (ok value, s) = (ok value, s)
  final config n (err e, s) = (
    err (
        if ltb 1 (n + 1)
        then add_retry_hint io_is_retryable info join e (n + 1) (n * config.delay)
        else e),
    s,
  )
  final config n (panic, s) = (panic, s)
  final config n (stuck, s) = (stuck, s)

  -- An error is final when the retries are used up, or when it is not one to repeat.
  abbrev pub IsFinal : RetryConfig → ℕ → Result A × S → Type 0
  IsFinal config n (ok value, s) = Unit {0}
  IsFinal config n (err e, s) = (n ≡ config.retries) ⊎ (is_retryable io_is_retryable e ≡ false)
  IsFinal config n (panic, s) = Unit {0}
  IsFinal config n (stuck, s) = Unit {0}

  abbrev pub Retried : RetryConfig → S → Result A × S → Type 0
  Retried config s answer =
      (n : ℕ) × (t : S) × (n ≤ config.retries)
      × Failing n s t
      × (answer ≡ final config n (f t))
      × IsFinal config n (f t)

  module _ (config : RetryConfig) (s : S) where
    ends :
        (n : ℕ) (t : S) (r : Result A × S)
        → n ≤ config.retries
        → Failing n s t
        → f t ≡ r
        → (answer : Result A × S) → answer ≡ final config n r
        → IsFinal config n r
        → Retried config s answer
    ends n t r few failing same answer e is_final = (
      n,
      t,
      few,
      failing,
      e ∙ ap (final config n) (sym same),
      subst (IsFinal config n) (sym same) is_final,
    )

    both : (a b : Bool) → (a && b) ≡ true → (a ≡ true) × (b ≡ true)
    both true true e = (refl, refl)
    both true false e = cc
    both false b e = cc

    used_up :
        (n : ℕ) (e : Error)
        → n ≤ config.retries
        → (leb (n + 1) config.retries && is_retryable io_is_retryable e) ≡ false
        → (n ≡ config.retries) ⊎ (is_retryable io_is_retryable e ≡ false)
    used_up n e few settled = elim (Bool-cases (leb (n + 1) config.retries)) [
      | inl more ↦ inr (rw more at settled)
      | inr last ↦ inl (ground (arith, last))
    ]

    after_attempt-Retried :
        (n : ℕ) (t : S) (again : S → Result A × S) (r : Result A × S)
        → n ≤ config.retries
        → Failing n s t
        → f t ≡ r
        → (n < config.retries → Failing (n + 1) s r.1 → Retried config s (again r.1))
        → Retried config s
            (after_attempt io_is_retryable info join f config (n + 1) (n * config.delay) again r)
    unfolding after_attempt
    after_attempt-Retried n t again (ok value, t') few failing same goes_on =
        ends n t (ok value, t') few failing same (ok value, t') refl tt
    after_attempt-Retried n t again (panic, t') few failing same goes_on =
        ends n t (panic, t') few failing same (panic, t') refl tt
    after_attempt-Retried n t again (stuck, t') few failing same goes_on =
        ends n t (stuck, t') few failing same (stuck, t') refl tt
    after_attempt-Retried n t again (err e, t') few failing same goes_on =
        elim (Bool-cases (leb (n + 1) config.retries && is_retryable io_is_retryable e)) [
          | inl repeats ↦
              let (more, retryable) =
                both (leb (n + 1) config.retries) (is_retryable io_is_retryable e) repeats in
              rw repeats (
                goes_on (ground (arith, more)) (
                  subst (Failing (n + 1) s) (ap (λ r. r.1) same)
                    (next n s t e failing (ap (λ r. r.0) same) retryable)))
          | inr settled ↦
              rw settled (ends n t (err e, t') few failing same _ refl (used_up n e few settled))
        ]

    one_more : (n : ℕ) → n * config.delay + config.delay ≡ (n + 1) * config.delay
    one_more n =
        sym (add-mul n 1 config.delay ∙ ap (λ x. n * config.delay + x) (one-mul config.delay))

    pub retry_loop-Retried :
        (left n waited : ℕ) (t : S)
        → config.retries < 2 ^ 32 - 1
        → waited ≡ n * config.delay
        → left + n ≡ config.retries + 1
        → n ≤ config.retries
        → Failing n s t
        → Retried config s (retry_loop io_is_retryable info join f config left n waited t)
    unfolding retry_loop
    retry_loop-Retried zero n waited t fits slept enough few failing = absurd (omega arith)
    retry_loop-Retried (suc left) n waited t fits slept enough few failing =
        let no_wrap : (n + 1) % 2 ^ 32 ≡ n + 1 = omega arith in
        rw no_wrap (
          subst
            (λ w. Retried config s (
              after_attempt io_is_retryable info join f config (n + 1) w
                (retry_loop io_is_retryable info join f config left (n + 1) (waited + config.delay))
                (f t)))
            (sym slept)
            (after_attempt-Retried n t
              (retry_loop io_is_retryable info join f config left (n + 1) (waited + config.delay))
              (f t) few failing refl
              (λ more failing'.
                retry_loop-Retried left (n + 1) (waited + config.delay) (f t).1 fits
                  (ap (λ w. w + config.delay) slept ∙ one_more n) (omega arith) (omega arith)
                  failing')))

-- With less than 2 ^ 32 - 1 `retries`, a call is repeated at most so often: each call before the last
-- one failed with an error to
-- repeat, and the answer is that of the last call, which came back with a value, or with an error that is
-- not to be repeated, or was the last one allowed; its error has a hint on the attempts if it is not the first.
pub retry_with_config_lem :
    (io_is_retryable : Error → Bool) (info : ℕ → ℕ → String) (join : String → String → String)
    {S A : Type 0} (f : S → Result A × S) (config : RetryConfig) (s : S)
    → config.retries < 2 ^ 32 - 1
    → Retried io_is_retryable info join f config s
        (retry_with_config io_is_retryable info join f (some config) s)
unfolding retry_with_config
retry_with_config_lem io_is_retryable info join f config s fits =
    retry_loop-Retried io_is_retryable info join f config s (config.retries + 1) 0 0 s fits
      (sym (zero-mul config.delay)) (omega arith) (omega arith) (start s)
