-- ===== src/Tests/Backtests.antt =====
-- A backtest of two bars after a signal.
use trader_ai.Prelude.{
  ℕ, ◌+◌, ◌*◌, ◌≡◌, refl, some, List, [], ◌∷◌, ◌++◌, pos, negsuc, ◌==◌, if◌then◌else◌, length,
  get_elem?, take, ◌*ℤ◌, ◌+ℤ◌, ◌-ℤ◌, floor_div,
}
use trader_ai.Float.Fixed.{Fixed, fixed_float, fix_div, fix_mul}
use trader_ai.Core.Signal.{Signal}
use trader_ai.Execution.Broker.{long}
use trader_ai.Clock.{minute}
use trader_ai.Execution.Exceptions.{Outcome, returned}
use trader_ai.Backtest.Costs.{entry_fill_price, exit_fill_price, commission}
use trader_ai.Backtest.Engine.{
  Candle, ClosedTrade, at_stop, EquityPoint, BacktestEngine, BacktestResult, run, walk, round,
  trade_bar, fill_pending, opened_at, close_position, exit_level, record_point,
}
use trader_ai.Backtest.Engine.Accounts.{AllBefore, IsPoint, closed_before, run-IsAccounted}
use trader_ai.Backtest.Engine.Trades.{IsRoundTrip, run-IsRoundTrip}
use trader_ai.Backtest.Engine.Prefix.{IsCausal, run_prefix}
use trader_ai.Tests.Data.{long_signal, rupees, morning}

-- a bar around 100 that falls to the given low
abbrev candle : ℕ → ℕ → Candle Fixed
candle i low = record {
  timestamp = morning + i * minute;
  open_price = rupees 100;
  high = rupees 102;
  low = rupees low;
  close = rupees 101;
  volume = rupees 5;
}

-- the stop of 98 is reached in the third bar
abbrev candles : List (Candle Fixed)
candles = candle 0 99 ∷ candle 1 99 ∷ candle 2 97 ∷ []

abbrev later : List (Candle Fixed)
later = candle 3 99 ∷ []

-- a strategy that signals at the first bar
abbrev on_bar : List (Candle Fixed) → ℕ → ℕ → Outcome (List (Signal Fixed)) × ℕ
on_bar frame i calls = (returned (if i == 0 then long_signal ∷ [] else []), calls + 1)

abbrev engine : BacktestEngine Fixed
engine = record {
  default_qty = pos 10;
  cost_model = record { commission_pct = pos 100; slippage_pct = pos 0 };
}

abbrev sum : List Fixed → Fixed
sum [] = pos 0
sum (x ∷ xs) = x +ℤ sum xs

abbrev result : BacktestResult Fixed
result = run on_bar 0 engine sum candles

run-IsAccounted_example :
    (length result.equity_curve ≡ 3)
    × AllBefore 3 result.closed_trades
    × ((i : ℕ) (p : EquityPoint Fixed)
        → get_elem? result.equity_curve i ≡ some p
        → IsPoint result.closed_trades i p)
run-IsAccounted_example = run-IsAccounted on_bar engine candles 0 sum

abbrev stopped : ClosedTrade Fixed
stopped = record {
  symbol = "INFY";
  side = long;
  entry_price = rupees 100;
  exit_price = rupees 98;
  qty = pos 10;
  entry_bar = 1;
  exit_bar = 2;
  pnl = negsuc 201_979;
  exit_reason = at_stop;
  fees = pos 1_980;
}

first_trade : get_elem? result.closed_trades 0 ≡ some stopped
unfolding run walk round trade_bar fill_pending opened_at close_position exit_level record_point
    entry_fill_price exit_fill_price commission ◌*ℤ◌ ◌+ℤ◌ ◌-ℤ◌ fix_div fix_mul floor_div
first_trade = refl

run-IsRoundTrip_example : IsRoundTrip on_bar engine candles stopped
run-IsRoundTrip_example = run-IsRoundTrip on_bar engine candles 0 sum 0 stopped first_trade

on_bar-IsCausal : IsCausal on_bar candles later
on_bar-IsCausal i s h = refl

run_prefix_example :
    (take 3 (run on_bar 0 engine sum (candles ++ later)).equity_curve ≡ result.equity_curve)
    × (closed_before 3 (run on_bar 0 engine sum (candles ++ later)).closed_trades
        ≡ result.closed_trades)
run_prefix_example = run_prefix on_bar engine candles later on_bar-IsCausal 0 sum
