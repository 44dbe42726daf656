-- ===== src/Retry.antt =====
-- src/main.rs: the calls that the command line repeats. The texts of the hint are parameters, and so is
-- whether the I/O error behind an error is one to repeat; sleeping only lets time pass. The
-- attempts are counted in a `u32`, which wraps.
pub mod Ends
use plasmite.Prelude.{
  ℕ, zero, suc, ◌+◌, ◌%◌, ◌^◌, Bool, true, false, Option, none, some, String, ltb, leb, ◌&&◌,
  if◌then◌else◌,
}
use plasmite.Error.{Error, ErrorKind, Result, ok, err, panic, stuck, with_hint}

pub record RetryConfig : Type 0 where
  pub retries : ℕ
  pub delay : ℕ  -- milliseconds

module _ (io_is_retryable : Error → Bool) where
  unfoldable pub kind_is_retryable : ErrorKind → Error → Bool
  kind_is_retryable ErrorKind.busy e = true
  kind_is_retryable ErrorKind.io e = io_is_retryable e
  kind_is_retryable _ e = false

  unfoldable pub is_retryable : Error → Bool
  unfolding kind_is_retryable
  is_retryable e = kind_is_retryable e.kind e

  module _ (info : ℕ → ℕ → String) (join : String → String → String) where
    abbrev pub joined_hint : Option String → String → String
    joined_hint none text = text
    joined_hint (some hint) text = join hint text

    unfoldable pub add_retry_hint : Error → ℕ → ℕ → Error
    add_retry_hint e attempts waited = with_hint (joined_hint e.hint (info attempts waited)) e

    module _ {S A : Type 0} (f : S → Result A × S) where
      -- What follows the call number `attempts`; `again` is the next one.
      unfoldable pub after_attempt :
          RetryConfig → ℕ → ℕ → (S → Result A × S) → Result A × S → Result A × S
      unfolding is_retryable add_retry_hint
      after_attempt config attempts waited again (ok value, s) = (ok value, s)
      after_attempt config attempts waited again (err e, s) =
          if leb attempts config.retries && is_retryable e
          then again s
          else (err (if ltb 1 attempts then add_retry_hint e attempts waited else e), s)
      after_attempt config attempts waited again (panic, s) = (panic, s)
      after_attempt config attempts waited again (stuck, s) = (stuck, s)

      -- The loop, for a number of rounds, behind `attempts` calls.
      unfoldable pub retry_loop : RetryConfig → ℕ → ℕ → ℕ → S → Result A × S
      unfolding after_attempt
      retry_loop config zero attempts waited s = (stuck, s)
      retry_loop config (suc left) attempts waited s =
          let attempts' = (attempts + 1) % 2 ^ 32 in
          after_attempt config attempts' waited
            (retry_loop config left attempts' (waited + config.delay)) (f s)

      -- With 2 ^ 32 - 1 retries the count never passes them, and the source goes on behind the rounds
      -- that are given here.
      unfoldable pub retry_with_config : Option RetryConfig → S → Result A × S
      unfolding retry_loop
      retry_with_config none s = f s
      retry_with_config (some config) s = retry_loop config (config.retries + 1) 0 0 s
