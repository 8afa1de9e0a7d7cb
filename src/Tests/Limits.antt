-- ===== src/Tests/Limits.antt =====
-- The risk checks, the size of a position, the windows and the retries.
use trader_ai.Prelude.{
  ◌≡◌, refl, ◌↔◌, Bool, true, false, some, List, [], ◌∷◌, ℤ, pos, arith, ◌*ℤ◌, ◌-ℤ◌, floor_div, ℕ,
  ◌≤◌, ◌*◌, ◌+◌, suc, if◌then◌else◌, ◌==◌,
}
use trader_ai.Float.{nought}
use trader_ai.Float.Fixed.{
  Fixed, fixed_float, fixed-IsOrdered, fixed-IsMonotone, fix_div, fix_mul, toward_zero,
}
use trader_ai.Text.{split, strip, to_int}
use trader_ai.Clock.{Time, minute, time_of, parse_hhmm}
use trader_ai.Risk.Windows.{parse_time_window, is_in_no_trade_window}
use trader_ai.Risk.Windows.Laws.{Reads, AnyArc, is_in_no_trade_window_iff}
use trader_ai.Risk.Manager.{
  accepted, pre_check, post_check, base_qty, sized, quotient_qty, per_share_risk, size, lot_size_of,
}
use trader_ai.Risk.Manager.Laws.{MayEnter, MayPlace, pre_check_iff, post_check_iff}
use trader_ai.Risk.Manager.Sizing.{size_bounds}
use trader_ai.Execution.Exceptions.{network_exception, Outcome, raised, returned}
use trader_ai.Execution.Retry.{with_retry}
use trader_ai.Execution.Retry.Laws.{Persisted, with_retry-Persisted, with_retry_answers}
use trader_ai.Tests.Data.{long_signal, stock_of_25, settings, account, no_kill, morning}

pre_check_iff_example :
    (pre_check settings no_kill long_signal account ≡ some accepted)
    ↔ MayEnter settings no_kill long_signal account
pre_check_iff_example = pre_check_iff settings no_kill long_signal account

post_check_iff_example :
    (post_check settings long_signal account (pos 500) (some stock_of_25) ≡ some accepted)
    ↔ MayPlace settings long_signal account (pos 500) (some stock_of_25)
post_check_iff_example = post_check_iff settings long_signal account (pos 500) (some stock_of_25)

-- a risk of 1000 at two rupees a share
base_of_500 : base_qty settings long_signal account ≡ some (pos 500)
unfolding base_qty sized quotient_qty per_share_risk ◌*ℤ◌ ◌-ℤ◌ fix_div fix_mul floor_div toward_zero
base_of_500 = refl

size_bounds_example :
    (lots : ℕ) × (size settings long_signal account (some stock_of_25) (pos 5_000)
      ≡ some (pos (lots * lot_size_of (some stock_of_25))))
    × (lots * lot_size_of (some stock_of_25) ≤ 500)
size_bounds_example =
    size_bounds fixed-IsOrdered fixed-IsMonotone settings long_signal account (some stock_of_25)
      (pos 5_000) base_of_500 (omega arith)

abbrev spans : List (Time × Time)
spans = (555 * minute, 560 * minute) ∷ (1_410 * minute, 15 * minute) ∷ []

windows_read : Reads settings.no_trade_windows spans
unfolding parse_time_window split strip parse_hhmm to_int
windows_read = (refl, (refl, tt))

is_in_no_trade_window_iff_example :
    (b : Bool) × (is_in_no_trade_window morning settings.no_trade_windows ≡ some b)
    × ((b ≡ true) ↔ AnyArc spans (time_of morning))
is_in_no_trade_window_iff_example =
    is_in_no_trade_window_iff morning settings.no_trade_windows spans windows_read

-- a call that never succeeds; the world counts the calls
abbrev down : ℕ → Outcome ℤ × ℕ
down n = (raised (record { kind = network_exception; message = "timeout" }), n + 1)

not_negative : fixed_float.lt (pos 5_000) (nought {F = Fixed}) ≡ false
unfolding ◌*ℤ◌
not_negative = refl

with_retry-Persisted_example :
    (r : Outcome ℤ × ℕ) × (with_retry down
        (λ e. true)
        (λ (d : Fixed) n. n)
        (pos 3)
        (pos 5_000)
        (pos 40_000)
        0
      ≡ some r)
    × Persisted down (λ e. true) (λ (d : Fixed) n. n) (λ n. n) 3 0 r
with_retry-Persisted_example =
    with_retry-Persisted down (λ e. true) (λ (d : Fixed) n. n) (λ n. n) (λ w. refl) (λ d w. refl) 3
      (pos 5_000) (pos 40_000) 0 not_negative refl

-- a call that fails twice and then answers
abbrev third_time : ℕ → Outcome ℤ × ℕ
third_time n = (
  if n == 2 then returned (pos 7) else raised (record { kind = network_exception; message = "" }),
  suc n,
)

with_retry_answers_example :
    with_retry third_time (λ e. true) (λ (d : Fixed) n. n) (pos 3) (pos 5_000) (pos 40_000) 0
    ≡ some (returned (pos 7), 3)
with_retry_answers_example =
    with_retry_answers third_time (λ e. true) (λ (d : Fixed) n. n) (pos 5_000) (pos 40_000) 3 2 0
      (pos 7) 3 not_negative refl (omega arith)
      (
        record { kind = network_exception; message = "" },
        refl,
        refl,
        (record { kind = network_exception; message = "" }, refl, refl, refl),
      )
