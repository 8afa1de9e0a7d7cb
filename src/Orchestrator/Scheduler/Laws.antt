-- ===== src/Orchestrator/Scheduler/Laws.antt =====
-- When a bar is processed.
use trader_ai.Prelude.{◌≤◌, ◌<◌, ◌≡◌, ◌≢◌, ◌⊎◌, ◌↔◌, false, some, arith}
use trader_ai.Clock.{Datetime, time_of, date_of, weekday}
use trader_ai.Risk.Windows.{is_in_no_trade_window}
use trader_ai.Risk.Manager.{Traded, equity}
use trader_ai.Orchestrator.Scheduler.{
  MarketScheduler, is_holiday, is_market_open, is_expiry_day, should_process_bar, process,
}

-- Everything that the time of a bar must satisfy.
pub record MayProcess (s : MarketScheduler) (ts : Datetime) (traded : Traded) : Type 0 where
  pub on_weekday : weekday ts < 5
  pub no_holiday : is_holiday s (date_of ts) ≡ false
  pub after_open : s.open_time ≤ time_of ts
  pub before_close : time_of ts ≤ s.close_time
  pub outside_windows : is_in_no_trade_window ts s.risk_windows ≡ some false
  pub before_block :
      (traded ≡ equity) ⊎ (weekday ts ≢ s.expiry_weekday) ⊎ (time_of ts < s.expiry_block)

-- A bar is processed exactly if its time is on a weekday that is no holiday, within the session, in
-- no no-trade window, and for a derivative not on the expiry weekday from the blocked hour on.
pub should_process_bar_iff :
    (s : MarketScheduler) (ts : Datetime) (traded : Traded)
    → (should_process_bar s ts traded ≡ some process) ↔ MayProcess s ts traded
unfolding should_process_bar is_market_open is_expiry_day
should_process_bar_iff s ts traded = ground arith
