-- ===== src/Tests/Session.antt =====
-- The scheduler, and the loop on a broker that keeps a log of its orders.
use trader_ai.Prelude.{
  ◌+◌, ◌≡◌, refl, ◌↔◌, false, some, List, [], ◌∷◌, ◌++◌, ℤ, pos, ◌*◌, ap, sym, ◌*ℤ◌, ◌+ℤ◌, ◌-ℤ◌,
  floor_div,
}
use mathlib.Core.Option.{some-injective}
use trader_ai.Float.Fixed.{Fixed, fixed_float, fix_div, fix_mul, negate, toward_zero}
use trader_ai.Clock.{minute, parse_hhmm}
use trader_ai.Core.Signal.{Signal}
use trader_ai.Risk.Manager.{
  options, pre_check, daily_pnl_mtm, expiry_check, size as risk_size, base_qty, sized, quotient_qty,
  per_share_risk, floor_to_lot, post_check, risk_check, notional_check,
}
use trader_ai.Text.{strip, split, to_int}
use trader_ai.Risk.Windows.{is_kill_switch_active, is_in_no_trade_window, parse_time_window, covers}
use trader_ai.Execution.Exceptions.{Outcome, returned}
use trader_ai.Execution.Paper.{fill_of}
use trader_ai.Orchestrator.Scheduler.{MarketScheduler, should_process_bar, process}
use trader_ai.Orchestrator.Scheduler.Laws.{MayProcess, should_process_bar_iff}
use trader_ai.Prelude.Dict.{lookup, values, erase, size}
use trader_ai.Execution.Paper.{get_positions, check_bar_exits, exit_at, close_position}
use trader_ai.Execution.Paper.Invariant.{IsValid}
use trader_ai.Orchestrator.Bars.{Bar, PaperRun, apply_bar, exit_positions, exit_position}
use trader_ai.Orchestrator.Bars.Laws.{survivor, apply_bar_survivors}
use trader_ai.Tests.Book.{holding, holding-IsValid}
use trader_ai.Orchestrator.Loop.{
  OrchestratorLoop, Progress, Verdict, process_signal, sized_order, send, apply_qty_cap,
}
use trader_ai.Orchestrator.Loop.Laws.{PlacesSanctioned, process_signal-PlacesSanctioned}
use trader_ai.Tests.Data.{
  rupees, long_signal, stock_of_25, settings, account, no_kill, ids, morning,
}

abbrev calendar : MarketScheduler
calendar = record {
  open_time = 555 * minute;
  close_time = 930 * minute;
  expiry_block = 870 * minute;
  holidays = 3 ∷ [];
  expiry_weekday = 1;
  risk_windows = settings.no_trade_windows;
}

should_process_bar_iff_example :
    (should_process_bar calendar morning options ≡ some process)
    ↔ MayProcess calendar morning options
should_process_bar_iff_example = should_process_bar_iff calendar morning options

abbrev Log : Type 0
Log = List (Signal Fixed × ℤ)

-- the analyst halves every order
abbrev halve : Signal Fixed → Log → Outcome (Verdict Fixed) × Log
halve s b = (returned (record { vetoed = false; size_multiplier = pos 5_000 }), b)

abbrev loop : OrchestratorLoop Fixed Log
loop = record {
  risk = settings;
  instrument = some stock_of_25;
  override_qty = some (pos 100);
  kill_switch = λ b. no_kill;
  analyst = some halve;
  place_bracket_order = λ s n b. (returned (fill_of ids s n s.entry), b ++ (s, n) ∷ []);
  position_count = λ b. (returned 1, b);
}

abbrev start : Progress Fixed
start = record {
  state = account;
  stats = record {
    signals_seen = 1;
    risk_rejected = 0;
    analyst_vetoed = 0;
    orders_placed = 0;
    bar_exits = 0;
  };
}

analyst_quiet :
    (analyze : Signal Fixed → Log → Outcome (Verdict Fixed) × Log) (s : Signal Fixed) (b : Log)
    → some halve ≡ some analyze
    → (analyze s b).1 ≡ b
analyst_quiet analyze s b e = ap (λ f. (f s b).1) (sym (some-injective _ _ e))

process_signal-PlacesSanctioned_example :
    PlacesSanctioned loop (λ b. b) long_signal start [] (process_signal loop long_signal start []).1
process_signal-PlacesSanctioned_example =
    process_signal-PlacesSanctioned loop (λ b. b) (λ s n b. refl) (λ b. refl) analyst_quiet
      long_signal start []

-- risk 500, halved to 250, capped at 100
one_order : (process_signal loop long_signal start []).1 ≡ (long_signal, pos 100) ∷ []
unfolding process_signal pre_check is_kill_switch_active strip daily_pnl_mtm is_in_no_trade_window
    parse_time_window split parse_hhmm to_int covers expiry_check sized_order risk_size base_qty
    sized quotient_qty per_share_risk floor_to_lot post_check risk_check notional_check send
    apply_qty_cap ◌*ℤ◌ ◌+ℤ◌ ◌-ℤ◌ floor_div fix_div fix_mul negate toward_zero
one_order = refl

abbrev run_start : PaperRun Fixed
run_start = record { progress = start; broker = holding; last_prices = [] }

abbrev falling : Bar Fixed
falling = record { high = rupees 101; low = rupees 97; close = rupees 98 }

apply_bar_survivors_example :
    let r' = apply_bar "INFY" falling run_start in
    IsValid r'.broker
    × (lookup "INFY" r'.broker.positions ≡ survivor falling (lookup "INFY" holding.positions))
    × (size r'.broker.positions + r'.progress.stats.bar_exits ≡ 1)
apply_bar_survivors_example = apply_bar_survivors "INFY" falling run_start "INFY" holding-IsValid

stopped : (apply_bar "INFY" falling run_start).broker.positions ≡ []
unfolding apply_bar exit_positions exit_position get_positions values check_bar_exits exit_at lookup
    close_position erase
stopped = refl
