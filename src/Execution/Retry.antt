-- ===== src/Execution/Retry.antt =====
-- execution/retry.py: exponential backoff around a call that may raise.
pub mod Laws
use trader_ai.Prelude.{
  ℕ, zero, suc, ◌+◌, ◌^◌, Bool, true, false, Option, none, some, List, [], ◌∷◌, if◌then◌else◌, ℤ,
  pos, negsuc,
}
use trader_ai.Float.{Float, nought, min_f}
use trader_ai.Execution.Exceptions.{Exn, Outcome, returned, raised}

-- A call acts on the world and returns or raises; `sleep` acts on the world.
module _ {F : Type 0} ⦃fl : Float F⦄ {W A : Type 0} (fn : W → Outcome A × W)
    (retryable : Exn → Bool) (sleep : F → W → W) where
  -- `min(max_delay, base_delay * (2**attempt))`; from the attempt 1024 on Python raises an
  -- OverflowError as it converts the power to a float, which is not modelled: the callers allow 3
  abbrev pub delay : F → F → ℕ → F
  delay base_delay max_delay attempt =
      min_f max_delay (fl.mul base_delay (fl.of_int (pos (2 ^ attempt))))

  -- the loop, `left` being `retries - attempt`
  unfoldable pub retry_loop : F → F → ℕ → ℕ → W → Outcome A × W
  retry_loop base_delay max_delay zero attempt w = fn w
  retry_loop base_delay max_delay (suc left) attempt w =
      let (result, w') = fn w in
      elim result [
        | returned a ↦ (returned a, w')
        | raised e ↦ elim (retryable e) [
          | true ↦
              retry_loop base_delay max_delay left (suc attempt)
                (sleep (delay base_delay max_delay attempt) w')
          | false ↦ (raised e, w')
        ]
      ]

  -- `none` for the ValueError about the arguments
  unfoldable pub with_retry : ℤ → F → F → W → Option (Outcome A × W)
  with_retry (negsuc n) base_delay max_delay w = none
  with_retry (pos retries) base_delay max_delay w =
      if fl.lt base_delay nought
      then none
      else if fl.lt max_delay base_delay
      then none
      else some (retry_loop base_delay max_delay retries 0 w)
