-- ===== src/Risk/Manager.antt =====
-- risk/manager.py, `class RiskManager`: the check before an entry, the size of the position and the
-- check after sizing. The settings are those of config/settings.py.
pub mod Laws
pub mod Sizing
use trader_ai.Prelude.{
  ℕ, Bool, true, false, not, ◌&&◌, Option, none, some, List, if◌then◌else◌, ltb, leb, ℤ, pos, ◌*ℤ◌,
  floor_div, ltb_ℤ, leb_ℤ, max_ℤ,
}
use trader_ai.Prelude.Options.{◌>>=◌}
use trader_ai.Float.{Float, nought, max_f, min_f}
use trader_ai.Text.{Text}
use trader_ai.Clock.{parse_hhmm, time_of}
use trader_ai.Core.Signal.{Signal}
use trader_ai.Core.Instrument.{Instrument, InstrumentType, option}
use trader_ai.Risk.Windows.{KillSwitch, is_kill_switch_active, is_in_no_trade_window}

pub data PositionSizing : Type 0 where
  atr_based fixed_pct : PositionSizing

pub record RiskConfig (F : Type 0) : Type 0 where
  pub max_loss_per_trade_pct : F
  pub daily_loss_cap_pct : F
  pub max_open_positions : ℕ
  pub position_sizing : PositionSizing
  pub fixed_position_pct : F
  pub no_trade_windows : List Text
  -- `expiry_day_rules.block_new_options_entries_after`
  pub block_options_after : Text
  pub max_premium_per_trade_pct : F

-- the kinds of instrument that `RiskState` knows
pub data Traded : Type 0 where
  equity options future : Traded

pub record RiskState (F : Type 0) : Type 0 where
  pub account_equity : F
  pub daily_realized_pnl : F
  pub daily_unrealized_pnl : F
  pub open_positions : ℕ
  pub is_expiry_day : Bool
  pub instrument_type : Traded

-- the `reason` of a decision
pub data Reason : Type 0 where
  ok kill_switch_active max_open_positions daily_loss_cap_mtm no_trade_window : Reason
  expiry_day_entry_blocked qty_zero_below_lot_size qty_zero_from_shrink : Reason
  invalid_stop_distance trade_risk_exceeds_cap notional_cap_exceeded : Reason

pub record RiskDecision : Type 0 where
  pub approved : Bool
  pub reason : Reason

abbrev pub rejected : Reason → RiskDecision
rejected r = record { approved = false; reason = r }

abbrev pub accepted : RiskDecision
accepted = record { approved = true; reason = ok }

abbrev is_options : Traded → Bool
is_options options = true
is_options _ = false

abbrev is_option : InstrumentType → Bool
is_option option = true
is_option _ = false

abbrev pub lot_size_of : {F : Type 0} → Option (Instrument F) → ℕ
lot_size_of none = 1
lot_size_of (some i) = i.lot_size

-- `(n // lot_size) * lot_size`: the whole lots in a quantity
unfoldable pub floor_to_lot : ℤ → ℕ → ℤ
unfolding floor_div ◌*ℤ◌
floor_to_lot n lot_size = floor_div n lot_size *ℤ pos lot_size

module _ {F : Type 0} ⦃fl : Float F⦄ where
  open fl use {of_int, decimal, add, sub, mul, div, neg, abs, lt, le, trunc}

  unfoldable pub daily_pnl_mtm : RiskState F → F
  daily_pnl_mtm state = add state.daily_realized_pnl state.daily_unrealized_pnl

  -- a percentage of the account's equity
  abbrev pub share_of_equity : RiskState F → F → F
  share_of_equity state pct = mul state.account_equity (div pct (decimal 100 0))

  unfoldable pub per_share_risk : Signal F → F
  per_share_risk signal = abs (sub signal.entry signal.stop_loss)

  -- The last part of `pre_check`: expiry days.
  unfoldable pub expiry_check : RiskConfig F → Signal F → RiskState F → Option RiskDecision
  expiry_check risk signal state =
      if is_options state.instrument_type && state.is_expiry_day
      then (do
        block_after ← parse_hhmm risk.block_options_after
        some (
            if leb block_after (time_of signal.ts)
            then rejected expiry_day_entry_blocked
            else accepted))
      else some accepted

  -- `none` for the ValueError of a malformed time in the settings
  unfoldable pub pre_check :
      RiskConfig F → KillSwitch → Signal F → RiskState F → Option RiskDecision
  pre_check risk kill signal state =
      if is_kill_switch_active kill
      then some (rejected kill_switch_active)
      else if leb risk.max_open_positions state.open_positions
      then some (rejected max_open_positions)
      else if le (daily_pnl_mtm state) (neg (share_of_equity state risk.daily_loss_cap_pct))
      then some (rejected daily_loss_cap_mtm)
      else (do
        inside ← is_in_no_trade_window signal.ts risk.no_trade_windows
        if inside then some (rejected no_trade_window) else expiry_check risk signal state)

  -- `int` raises at NaN and the infinities
  unfoldable pub quotient_qty : F → F → Option ℤ
  quotient_qty amount price = do n ← trunc (div amount price); some (max_ℤ (pos 0) n)

  unfoldable pub sized : PositionSizing → RiskConfig F → Signal F → RiskState F → Option ℤ
  sized fixed_pct risk signal state =
      quotient_qty (share_of_equity state risk.fixed_position_pct) signal.entry
  sized atr_based risk signal state =
      quotient_qty (share_of_equity state risk.max_loss_per_trade_pct) (per_share_risk signal)

  -- `_base_qty`
  unfoldable pub base_qty : RiskConfig F → Signal F → RiskState F → Option ℤ
  base_qty risk signal state =
      if le (per_share_risk signal) nought
      then some (pos 0)
      else sized risk.position_sizing risk signal state

  unfoldable pub size : RiskConfig F → Signal F → RiskState F → Option (Instrument F) → F → Option ℤ
  size risk signal state instrument size_multiplier = do
    let multiplier = max_f nought (min_f (of_int (pos 1)) size_multiplier)
    base ← base_qty risk signal state
    scaled ← trunc (mul (of_int base) multiplier)
    some (floor_to_lot scaled (lot_size_of instrument))

  -- the premium cap of `post_check`
  unfoldable pub notional_check :
      RiskConfig F → Signal F → RiskState F → ℤ → Option (Instrument F) → RiskDecision
  notional_check risk signal state qty none = accepted
  notional_check risk signal state qty (some i) =
      if is_option i.instrument_type
        && lt (share_of_equity state risk.max_premium_per_trade_pct)
            (mul (mul signal.entry (of_int qty)) (of_int (pos i.lot_size)))
      then rejected notional_cap_exceeded
      else accepted

  -- the checks of `post_check` on a quantity above zero
  unfoldable pub risk_check :
      RiskConfig F → Signal F → RiskState F → ℤ → Option (Instrument F) → RiskDecision
  risk_check risk signal state qty instrument =
      if le (per_share_risk signal) nought
      then rejected invalid_stop_distance
      else if lt (mul (share_of_equity state risk.max_loss_per_trade_pct) (decimal 101 2))
          (mul (per_share_risk signal) (of_int qty))
      then rejected trade_risk_exceeds_cap
      else notional_check risk signal state qty instrument

  unfoldable pub post_check :
      RiskConfig F → Signal F → RiskState F → ℤ → Option (Instrument F) → Option RiskDecision
  post_check risk signal state qty instrument =
      if leb_ℤ qty (pos 0)
      then (do
        base ← base_qty risk signal state
        some (
            if ltb_ℤ base (pos (lot_size_of instrument))
            then rejected qty_zero_below_lot_size
            else rejected qty_zero_from_shrink))
      else some (risk_check risk signal state qty instrument)
