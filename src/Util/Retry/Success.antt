-- ===== src/Util/Retry/Success.antt =====
-- `RetryWithResult` of pkg/util/retry.go: when it succeeds.
use blobcast.Prelude.{
  ℕ, zero, suc, ◌<◌, ◌≡◌, ◌↔◌, refl, ◌∙◌, Option, none, some, Bool, true, false, Bool-cases, inl,
  inr, ◌⊎◌, arith, ◌==◌,
}
use blobcast.Prelude.Outcome.{Outcome, ok, err, panic}
use blobcast.Util.Retry.{RetryConfig, context_cancelled, given_at, retry_from, retry}

pub Outcome-cases :
    {E A W : Type 0} (o : Outcome E A × W)
    → ((a : A) × (w : W) × (o ≡ (ok a, w)))
      ⊎ (((e : E) × (w : W) × (o ≡ (err e, w))) ⊎ ((w : W) × (o ≡ (panic, w))))
Outcome-cases (ok a, w) = inl (a, w, refl)
Outcome-cases (err e, w) = inr (inl (e, w, refl))
Outcome-cases (panic, w) = inr (inr (w, refl))

suc_ne_zero : (n : ℕ) → (suc n == 0) ≡ false
suc_ne_zero n = ground arith

same_result :
    {E F A W : Type 0} (b : A) (w1 : W) (a : A) (w' : W)
    → ◌≡◌ {A = Outcome F A × W} (ok b, w1) (ok a, w')
    → ◌≡◌ {A = Outcome E A × W} (ok b, w1) (ok a, w')
same_result b w1 a w' h = cc

wait_cases :
    {W : Type 0} (o : Bool × W) → ((w : W) × (o ≡ (true, w))) ⊎ ((w : W) × (o ≡ (false, w)))
wait_cases (true, w) = inl (w, refl)
wait_cases (false, w) = inr (w, refl)

module _ {W A E : Type 0} (config : RetryConfig E) (is_done : W → Bool)
    (operation : W → Outcome E A × W) (wait : ℕ → W → Bool × W) where
  -- Attempts, from number `attempt` on, that fail with errors that may be retried, each with the wait
  -- after it, and the world after them.
  pub data Fails : ℕ → W → ℕ → W → Type 0 where
    none_failed : {attempt : ℕ} {w : W} → Fails attempt w 0 w
    one_failed :
        {attempt n : ℕ} {w w1 w2 w' : W} (e : E)
        → is_done w ≡ false
        → operation w ≡ (err e, w1)
        → config.retryable_errors e ≡ true
        → wait attempt w1 ≡ (true, w2)
        → Fails (suc attempt) w2 n w'
        → Fails attempt w (suc n) w'

  -- After that many failures the operation succeeds.
  pub record Succeeds (attempt left : ℕ) (w : W) (a : A) (w' : W) : Type 0 where
    pub failures : ℕ
    pub before : W
    pub in_time : failures < left
    pub failed : Fails attempt w failures before
    pub still_live : is_done before ≡ false
    pub succeeds : operation before ≡ (ok a, w')

  retry_from-completes :
      (left : ℕ) {n attempt : ℕ} {w u : W} (last : Option E) (w' : W) (a : A)
      → n < left
      → Fails attempt w n u
      → is_done u ≡ false
      → operation u ≡ (ok a, w')
      → retry_from config is_done operation wait left attempt last w ≡ (ok a, w')
  unfolding retry_from
  retry_from-completes zero last w' a lt f live good = absurd (omega arith)
  retry_from-completes (suc left) last w' a lt none_failed live good =
      rw (retry_from, live, given_at _ good)
  retry_from-completes (suc zero) last w' a lt (one_failed e live1 bad may_retry fired more) live
        good =
      absurd (omega arith)
  retry_from-completes (suc (suc left)) last w' a lt (one_failed e live1 bad may_retry fired more)
        live good =
      rw (retry_from, live1, given_at _ bad, may_retry, suc_ne_zero left, given_at _ fired)
        (retry_from-completes (suc left) (some e) w' a (omega arith) more live good)

  one_more :
      (left attempt : ℕ) (w w1 w2 w' : W) (a : A) (e : E)
      → is_done w ≡ false
      → operation w ≡ (err e, w1)
      → config.retryable_errors e ≡ true
      → wait attempt w1 ≡ (true, w2)
      → Succeeds (suc attempt) left w2 a w'
      → Succeeds attempt (suc left) w a w'
  one_more left attempt w w1 w2 w' a e live bad may_retry fired s = record {
    failures = suc s.failures;
    before = s.before;
    in_time = omega (arith, s.in_time);
    failed = one_failed e live bad may_retry fired s.failed;
    still_live = s.still_live;
    succeeds = s.succeeds;
  }

  retry_from-Succeeds :
      (left attempt : ℕ) (last : Option E) (w w' : W) (a : A)
      → retry_from config is_done operation wait left attempt last w ≡ (ok a, w')
      → Succeeds attempt left w a w'
  unfolding retry_from
  retry_from-Succeeds zero attempt last w w' a h = absurd (cc h)
  retry_from-Succeeds (suc left) attempt last w w' a h = elim (Bool-cases (is_done w)) [
    | inl done ↦ absurd (cc (rw (retry_from, done) at h))
    | inr live ↦ elim (Outcome-cases (operation w)) [
      | inl (b, w1, good) ↦ record {
        failures = 0;
        before = w;
        in_time = omega arith;
        failed = none_failed;
        still_live = live;
        succeeds = good ∙ same_result b w1 a w' (rw (retry_from, live, given_at _ good) at h);
      }
      | inr (inr (w1, bad)) ↦ absurd (cc (rw (retry_from, live, given_at _ bad) at h))
      | inr (inl (e, w1, bad)) ↦ elim (Bool-cases (config.retryable_errors e)) [
        | inr fatal ↦ absurd (cc (rw (retry_from, live, given_at _ bad, fatal) at h))
        | inl may_retry ↦ elim (Bool-cases (left == 0)) [
          | inl last_one ↦
              absurd (cc (rw (retry_from, live, given_at _ bad, may_retry, last_one) at h))
          | inr more ↦ elim (wait_cases (wait attempt w1)) [
            | inr (w2, gone) ↦
                absurd (
                  cc (rw (retry_from, live, given_at _ bad, may_retry, more, given_at _ gone) at h))
            | inl (w2, fired) ↦ one_more left attempt w w1 w2 w' a e live bad may_retry fired (
                retry_from-Succeeds left (suc attempt) (some e) w2 w' a
                  (rw (retry_from, live, given_at _ bad, may_retry, more, given_at _ fired) at h))
          ]
        ]
      ]
    ]
  ]

  -- `RetryWithResult` succeeds with a result exactly if, after fewer than `MaxAttempts` attempts that
  -- failed with errors that may be retried, each followed by its whole wait, the context is not done
  -- and the operation gives that result.
  pub retry-Succeeds_iff :
      (w w' : W) (a : A)
      → (retry config is_done operation wait w ≡ (ok a, w')) ↔ Succeeds 0 config.max_attempts w a w'
  unfolding retry
  retry-Succeeds_iff w w' a = (
    retry_from-Succeeds config.max_attempts 0 none w w' a,
    λ s.
        retry_from-completes config.max_attempts none w' a s.in_time s.failed s.still_live
          s.succeeds,
  )

  retry_from_done :
      (left : ℕ) (w : W)
      → 0 < left
      → is_done w ≡ true
      → retry_from config is_done operation wait left 0 none w ≡ (err context_cancelled, w)
  unfolding retry_from
  retry_from_done zero w pos done = absurd (omega arith)
  retry_from_done (suc left) w pos done = rw (retry_from, done)

  -- With a context that is done nothing is tried.
  pub retry_done :
      (w : W)
      → 0 < config.max_attempts
      → is_done w ≡ true
      → retry config is_done operation wait w ≡ (err context_cancelled, w)
  unfolding retry
  retry_done w pos done = retry_from_done config.max_attempts w pos done
