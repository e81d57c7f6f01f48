-- ===== src/Util/Retry.antt =====
-- pkg/util/retry.go: `Retry` and `RetryWithResult`, which the source writes out as two equal loops.
-- The world holds what the operation, the context and the clock depend on. The backoff is computed
-- with floating-point numbers and a random jitter, so the wait after each attempt is a parameter.
pub mod Success
use blobcast.Prelude.{
  ℕ, zero, suc, ◌≡◌, refl, Option, none, some, Bool, true, false, not, if◌then◌else◌, ◌==◌,
}
use blobcast.Prelude.Outcome.{Outcome, ok, err, panic}

-- `context canceled during retry`, `non-retryable error`, `context canceled during retry backoff`
-- and `operation failed after %d attempts`, with the last error, nil if there was none.
pub data RetryError (E : Type 0) : Type 0 where
  context_cancelled : RetryError E
  non_retryable : E → RetryError E
  cancelled_in_backoff : RetryError E
  attempts_failed : ℕ → Option E → RetryError E

pub record RetryConfig (E : Type 0) : Type 0 where
  pub max_attempts : ℕ
  pub retryable_errors : E → Bool

-- `IsNetworkError`, the predicate of `DefaultRetryConfig`, looks for words in the text of the error.
abbrev pub default_retry_config : {E : Type 0} → (E → Bool) → RetryConfig E
default_retry_config is_network_error = record {
  max_attempts = 250;
  retryable_errors = is_network_error;
}

-- What is done with a result and the world after it.
unfoldable pub given : {X W R : Type 0} → X × W → (X → W → R) → R
given (x, w) f = f x w

pub given_at :
    {X W R : Type 0} {o : X × W} {x : X} {w : W} (f : X → W → R) → o ≡ (x, w) → given o f ≡ f x w
unfolding given
given_at f e = rw e refl

module _ {W A E : Type 0} (config : RetryConfig E) (is_done : W → Bool)
    (operation : W → Outcome E A × W) (wait : ℕ → W → Bool × W) where
  -- `left` attempts are left, and `attempt` were made. `wait` answers true when the timer fires, and
  -- false when the context is done before.
  unfoldable pub retry_from : ℕ → ℕ → Option E → W → Outcome (RetryError E) A × W
  retry_from zero attempt last w = (err (attempts_failed config.max_attempts last), w)
  retry_from (suc left) attempt last w = elim (is_done w) [
    | true ↦ (err context_cancelled, w)
    | false ↦ given (operation w) λ result w1. elim result [
      | ok a ↦ (ok a, w1)
      | panic ↦ (panic, w1)
      | err e ↦ elim (config.retryable_errors e) [
        | false ↦ (err (non_retryable e), w1)
        | true ↦
            if left == 0
            then (err (attempts_failed config.max_attempts (some e)), w1)
            else given (wait attempt w1) λ fired w2. elim fired [
              | true ↦ retry_from left (suc attempt) (some e) w2
              | false ↦ (err cancelled_in_backoff, w2)
            ]
      ]
    ]
  ]

  unfoldable pub retry : W → Outcome (RetryError E) A × W
  unfolding retry_from
  retry w = retry_from config.max_attempts 0 none w

-- `Retry`: the loop for an operation that gives only an error.
unfoldable pub retry_action :
    {W E : Type 0}
    → RetryConfig E
    → (W → Bool)
    → (W → Outcome E Unit × W)
    → (ℕ → W → Bool × W)
    → W
    → Outcome (RetryError E) Unit × W
unfolding retry
retry_action config is_done operation wait w = retry config is_done operation wait w
