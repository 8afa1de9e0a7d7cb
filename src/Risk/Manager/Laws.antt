-- ===== src/Risk/Manager/Laws.antt =====
-- What an approval of `pre_check` and of `post_check` means.
use trader_ai.Prelude.{
  ◌<◌, ◌≡◌, ◌≢◌, ◌⊎◌, ◌↔◌, false, Option, none, some, ℤ, pos, ◌≤ℤ◌, arith, Option-cases, inl, inr,
}
use trader_ai.Float.{Float, nought}
use trader_ai.Clock.{Time, parse_hhmm, time_of}
use trader_ai.Core.Signal.{Signal}
use trader_ai.Core.Instrument.{Instrument, option}
use trader_ai.Risk.Windows.{KillSwitch, is_kill_switch_active, is_in_no_trade_window}
use trader_ai.Risk.Manager.{
  RiskConfig, RiskState, options, accepted, daily_pnl_mtm, share_of_equity, per_share_risk,
  expiry_check, pre_check, notional_check, risk_check, post_check,
}

module _ {F : Type 0} ⦃fl : Float F⦄ where
  -- Not an option on its expiry day, or before the hour from which those are blocked.
  abbrev pub IsBeforeBlock : RiskConfig F → Signal F → RiskState F → Type 0
  IsBeforeBlock risk signal state =
      (state.instrument_type ≢ options)
      ⊎ (state.is_expiry_day ≡ false)
      ⊎ ((t : Time) × (parse_hhmm risk.block_options_after ≡ some t) × (time_of signal.ts < t))

  -- Everything that a new entry must satisfy.
  pub record MayEnter (risk : RiskConfig F) (kill : KillSwitch) (signal : Signal F)
      (state : RiskState F) : Type 0 where
    pub not_killed : is_kill_switch_active kill ≡ false
    pub has_room : state.open_positions < risk.max_open_positions
    pub above_cap :
        fl.le (daily_pnl_mtm state) (fl.neg (share_of_equity state risk.daily_loss_cap_pct)) ≡ false
    pub outside_windows : is_in_no_trade_window signal.ts risk.no_trade_windows ≡ some false
    pub before_block : IsBeforeBlock risk signal state

  expiry_check_iff :
      (risk : RiskConfig F) (signal : Signal F) (state : RiskState F)
      → (expiry_check risk signal state ≡ some accepted) ↔ IsBeforeBlock risk signal state
  unfolding expiry_check
  expiry_check_iff risk signal state = elim (Option-cases (parse_hhmm risk.block_options_after)) [
    | inl bad ↦ ground arith
    | inr (t, e) ↦ rw e (ground arith)
  ]

  -- `pre_check` approves exactly the entries that meet every condition: the kill switch is off,
  -- fewer positions than the maximum are open, the profit of the day is above the loss cap, the time
  -- is in no no-trade window, and it is no option on its expiry day from the blocked hour on.
  pub pre_check_iff :
      (risk : RiskConfig F) (kill : KillSwitch) (signal : Signal F) (state : RiskState F)
      → (pre_check risk kill signal state ≡ some accepted) ↔ MayEnter risk kill signal state
  unfolding pre_check
  pre_check_iff risk kill signal state = ground (arith, expiry_check_iff risk signal state)

  -- The premium of an option stays within its share of the equity.
  abbrev pub IsWithinPremium :
      RiskConfig F → Signal F → RiskState F → ℤ → Option (Instrument F) → Type 0
  IsWithinPremium risk signal state qty none = Unit {0}
  IsWithinPremium risk signal state qty (some i) =
      (i.instrument_type ≢ option)
      ⊎ (fl.lt (share_of_equity state risk.max_premium_per_trade_pct)
            (fl.mul (fl.mul signal.entry (fl.of_int qty)) (fl.of_int (pos i.lot_size)))
          ≡ false)

  -- Everything that a sized order must satisfy.
  pub record MayPlace (risk : RiskConfig F) (signal : Signal F) (state : RiskState F) (qty : ℤ)
      (instrument : Option (Instrument F)) : Type 0 where
    pub some_quantity : pos 1 ≤ℤ qty
    pub stop_apart : fl.le (per_share_risk signal) nought ≡ false
    pub within_risk :
        fl.lt
          (fl.mul (share_of_equity state risk.max_loss_per_trade_pct) (fl.decimal 101 2))
          (fl.mul (per_share_risk signal) (fl.of_int qty))
        ≡ false
    pub within_premium : IsWithinPremium risk signal state qty instrument

  notional_check_iff :
      (risk : RiskConfig F) (signal : Signal F) (state : RiskState F) (qty : ℤ)
      (instrument : Option (Instrument F))
      → (notional_check risk signal state qty instrument ≡ accepted)
        ↔ IsWithinPremium risk signal state qty instrument
  unfolding notional_check
  notional_check_iff risk signal state qty none = ground arith
  notional_check_iff risk signal state qty (some i) = ground arith

  -- `post_check` approves exactly the orders that meet every condition: a quantity of one or more, a
  -- stop apart from the entry, a risk within 1.01 times the cap of a trade, and for an option a
  -- premium within its cap, as the code computes them.
  pub post_check_iff :
      (risk : RiskConfig F) (signal : Signal F) (state : RiskState F) (qty : ℤ)
      (instrument : Option (Instrument F))
      → (post_check risk signal state qty instrument ≡ some accepted)
        ↔ MayPlace risk signal state qty instrument
  unfolding post_check risk_check
  post_check_iff risk signal state qty instrument =
      ground (arith, notional_check_iff risk signal state qty instrument)
