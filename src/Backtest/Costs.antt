-- ===== src/Backtest/Costs.antt =====
-- backtest/costs.py: commission and slippage.
use trader_ai.Prelude.{ℤ, pos, if◌then◌else◌, Bool, ◌&&◌}
use trader_ai.Float.{Float, nought, eq_f}
use trader_ai.Execution.Broker.{PositionSide, long, short}

pub record CostModel (F : Type 0) : Type 0 where
  pub commission_pct : F
  pub slippage_pct : F

module _ {F : Type 0} ⦃fl : Float F⦄ where
  open fl use {of_int, decimal, add, sub, mul, div, abs}

  unfoldable pub zero_cost : CostModel F
  zero_cost = record { commission_pct = nought; slippage_pct = nought }

  unfoldable pub is_zero : CostModel F → Bool
  is_zero c = eq_f c.commission_pct nought && eq_f c.slippage_pct nought

  -- a price that moves up, or down, by the slippage
  abbrev pub paid_up : CostModel F → F → F
  paid_up c price = mul price (add (of_int (pos 1)) (div c.slippage_pct (decimal 100 0)))

  abbrev pub paid_down : CostModel F → F → F
  paid_down c price = mul price (sub (of_int (pos 1)) (div c.slippage_pct (decimal 100 0)))

  abbrev slipped_entry : PositionSide → CostModel F → F → F
  slipped_entry long = paid_up
  slipped_entry short = paid_down

  abbrev slipped_exit : PositionSide → CostModel F → F → F
  slipped_exit long = paid_down
  slipped_exit short = paid_up

  unfoldable pub entry_fill_price : CostModel F → PositionSide → F → F
  entry_fill_price c side price =
      if eq_f c.slippage_pct nought then price else slipped_entry side c price

  unfoldable pub exit_fill_price : CostModel F → PositionSide → F → F
  exit_fill_price c side price =
      if eq_f c.slippage_pct nought then price else slipped_exit side c price

  unfoldable pub commission : CostModel F → F → F → ℤ → F
  commission c entry_price exit_price qty =
      if eq_f c.commission_pct nought
      then nought
      else mul (mul (div c.commission_pct (decimal 100 0)) (add (abs entry_price) (abs exit_price)))
          (of_int qty)
