-- ===== src/Orchestrator/Scheduler.antt =====
-- orchestrator/scheduler.py: market hours, holidays and expiry days.
pub mod Laws
use trader_ai.Prelude.{
  ℕ, Bool, true, false, ◌&&◌, ◌||◌, Option, none, some, List, [], ◌∷◌, if◌then◌else◌, leb, ◌==◌, ℤ,
}
use trader_ai.Prelude.Options.{◌>>=◌}
use trader_ai.Text.{Text, split, to_int}
use trader_ai.Clock.{Datetime, Time, time_of, date_of, weekday, parse_hhmm}
use trader_ai.Risk.Windows.{is_in_no_trade_window}
use trader_ai.Risk.Manager.{Traded, equity, options, future}

pub record SchedulerConfig : Type 0 where
  pub market_open : Text
  pub market_close : Text
  pub holiday_skip_dates : List Text
  pub expiry_weekday : ℕ
  pub block_fno_on_expiry_after : Text

pub record MarketScheduler : Type 0 where
  pub open_time : Time
  pub close_time : Time
  pub expiry_block : Time
  pub holidays : List ℕ
  pub expiry_weekday : ℕ
  pub risk_windows : List Text

-- the `reason` of a decision that allows nothing, and of the one that does
pub data ScheduleReason : Type 0 where
  open_session market_closed in_no_trade_window expiry_day_fno_blocked : ScheduleReason

pub record ScheduleDecision : Type 0 where
  pub allowed : Bool
  pub reason : ScheduleReason

abbrev three : List Text → Option (Text × Text × Text)
three (a ∷ b ∷ c ∷ []) = some (a, b, c)
three _ = none

-- `date(year, month, day)`, which may raise, is a parameter
module _ (date : ℤ → ℤ → ℤ → Option ℕ) where
  unfoldable pub parse_date : Text → Option ℕ
  unfolding split to_int
  parse_date value = do
    (year, month, day_text) ← three (split b'-' value)
    y ← to_int year
    m ← to_int month
    d ← to_int day_text
    date y m d

  unfoldable pub parse_dates : List Text → Option (List ℕ)
  parse_dates [] = some []
  parse_dates (value ∷ values) = do d ← parse_date value; ds ← parse_dates values; some (d ∷ ds)

  -- the constructor, with `none` for the ValueError of a malformed setting
  unfoldable pub make_scheduler : SchedulerConfig → List Text → Option MarketScheduler
  make_scheduler config windows = do
    open_time ← parse_hhmm config.market_open
    close_time ← parse_hhmm config.market_close
    expiry_block ← parse_hhmm config.block_fno_on_expiry_after
    holidays ← parse_dates config.holiday_skip_dates
    some (record {
      open_time = open_time;
      close_time = close_time;
      expiry_block = expiry_block;
      holidays = holidays;
      expiry_weekday = config.expiry_weekday;
      risk_windows = windows;
    })

unfoldable pub date_in : ℕ → List ℕ → Bool
date_in d [] = false
date_in d (h ∷ hs) = d == h || date_in d hs

unfoldable pub is_holiday : MarketScheduler → ℕ → Bool
is_holiday s d = date_in d s.holidays

unfoldable pub is_market_open : MarketScheduler → Datetime → Bool
unfolding is_holiday
is_market_open s ts =
    if leb 5 (weekday ts)
    then false
    else if is_holiday s (date_of ts)
    then false
    else leb s.open_time (time_of ts) && leb (time_of ts) s.close_time

unfoldable pub is_expiry_day : MarketScheduler → Datetime → Bool
is_expiry_day s ts = weekday ts == s.expiry_weekday

abbrev pub is_derivative : Traded → Bool
is_derivative equity = false
is_derivative options = true
is_derivative future = true

abbrev pub process : ScheduleDecision
process = record { allowed = true; reason = open_session }

abbrev pub skip : ScheduleReason → ScheduleDecision
skip r = record { allowed = false; reason = r }

unfoldable pub should_process_bar : MarketScheduler → Datetime → Traded → Option ScheduleDecision
unfolding is_market_open is_expiry_day
should_process_bar s ts traded =
    if is_market_open s ts
    then (do
      inside ← is_in_no_trade_window ts s.risk_windows
      if inside
          then some (skip in_no_trade_window)
          else if is_derivative traded && is_expiry_day s ts && leb s.expiry_block (time_of ts)
          then some (skip expiry_day_fno_blocked)
          else some process)
    else some (skip market_closed)
