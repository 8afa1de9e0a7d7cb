-- ===== src/Execution/Retry/Laws.antt =====
-- How often a call is made, and when it is given up.
use trader_ai.Prelude.{ℕ, zero, suc, ◌+◌, ◌≤◌, ◌≡◌, ◌⊎◌, Bool, true, false, some, pos, arith}
use trader_ai.Float.{Float, nought}
use trader_ai.Execution.Exceptions.{Exn, Outcome, returned, raised}
use trader_ai.Execution.Retry.{retry_loop, with_retry, delay}

module _ {F : Type 0} ⦃fl : Float F⦄ {W A : Type 0} (fn : W → Outcome A × W)
    (retryable : Exn → Bool) (sleep : F → W → W) (calls : W → ℕ) where
  -- The call was retried as often as allowed, if it ended with an exception worth a retry.
  abbrev pub Persisted : ℕ → W → Outcome A × W → Type 0
  Persisted retries w (returned a, w') =
      (calls w + 1 ≤ calls w') × (calls w' ≤ calls w + retries + 1)
  Persisted retries w (raised e, w') =
      ((retryable e ≡ true) × (calls w' ≡ calls w + retries + 1))
      ⊎ ((retryable e ≡ false) × (calls w + 1 ≤ calls w') × (calls w' ≤ calls w + retries + 1))

  module _ (counted : (w : W) → calls (fn w).1 ≡ calls w + 1)
      (silent : (d : F) (w : W) → calls (sleep d w) ≡ calls w) where
    retry_loop-Persisted :
        (base_delay max_delay : F) (left attempt : ℕ) (w : W)
        → Persisted left w (retry_loop fn retryable sleep base_delay max_delay left attempt w)
    unfolding retry_loop
    retry_loop-Persisted b m zero attempt w = ground (arith, counted w)
    retry_loop-Persisted b m (suc left) attempt w = ground (
      arith,
      counted w,
      silent (delay fn retryable sleep b m attempt) (fn w).1,
      retry_loop-Persisted b m left (suc attempt)
          (sleep (delay fn retryable sleep b m attempt) (fn w).1),
    )

    -- If the call counts itself, sleeping does not count, the base delay is not negative and the
    -- maximal delay is not below it, then the call is made at least once and at most `retries + 1`
    -- times, and an exception that is worth a retry comes out only after exactly `retries + 1`
    -- calls.
    pub with_retry-Persisted :
        (retries : ℕ) (base_delay max_delay : F) (w : W)
        → fl.lt base_delay nought ≡ false
        → fl.lt max_delay base_delay ≡ false
        → (r : Outcome A × W) × (with_retry fn retryable sleep (pos retries) base_delay max_delay w
            ≡ some r)
          × Persisted retries w r
    unfolding with_retry
    with_retry-Persisted retries b m w h k = (
      retry_loop fn retryable sleep b m retries 0 w,
      rw (h, k),
      retry_loop-Persisted b m retries 0 w,
    )

module _ {F : Type 0} ⦃fl : Float F⦄ {W A : Type 0} (fn : W → Outcome A × W)
    (retryable : Exn → Bool) (sleep : F → W → W) (base_delay max_delay : F) where
  -- The call fails `k` times with an exception that is worth a retry, the delays of the attempts
  -- between them, and then answers.
  abbrev pub Recovers : ℕ → ℕ → W → A → W → Type 0
  Recovers zero attempt w a w' = fn w ≡ (returned a, w')
  Recovers (suc k) attempt w a w' =
      (e : Exn) × ((fn w).0 ≡ raised e)
      × (retryable e ≡ true)
      × Recovers k (suc attempt)
          (sleep (delay fn retryable sleep base_delay max_delay attempt) (fn w).1) a w'

  retry_loop-answers :
      (left k attempt : ℕ) (w : W) (a : A) (w' : W)
      → k ≤ left
      → Recovers k attempt w a w'
      → retry_loop fn retryable sleep base_delay max_delay left attempt w ≡ (returned a, w')
  unfolding retry_loop
  retry_loop-answers zero zero attempt w a w' h r = r
  retry_loop-answers zero (suc k) attempt w a w' h r = absurd (omega (arith, h))
  retry_loop-answers (suc left) zero attempt w a w' h r = ground (arith, r)
  retry_loop-answers (suc left) (suc k) attempt w a w' h r =
      let (e, failed, worth, later) = r in
      let again = retry_loop-answers left k (suc attempt) _ a w' (omega (arith, h)) later in
      ground (arith, failed, worth, again)

  -- If the base delay is not negative, the maximal delay is not below it, and the call answers after at most `retries` failures with exceptions that are worth a retry, then the wrapper returns that answer and leaves the world as the call did.
  pub with_retry_answers :
      (retries k : ℕ) (w : W) (a : A) (w' : W)
      → fl.lt base_delay nought ≡ false
      → fl.lt max_delay base_delay ≡ false
      → k ≤ retries
      → Recovers k 0 w a w'
      → with_retry fn retryable sleep (pos retries) base_delay max_delay w ≡ some (returned a, w')
  unfolding with_retry
  with_retry_answers retries k w a w' h l b r = rw (h, l, retry_loop-answers retries k 0 w a w' b r)
