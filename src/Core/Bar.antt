-- ===== src/Core/Bar.antt =====
-- core/bar.py: `Bar`, a candle.
use trader_ai.Prelude.{Bool, ◌&&◌, not, if◌then◌else◌}
use trader_ai.Float.{Float, nought}
use trader_ai.Clock.{Datetime}
use trader_ai.Execution.Exceptions.{Outcome, returned, raised, validation_error}

pub record Bar (F : Type 0) : Type 0 where
  pub timestamp : Datetime
  pub open_price : F
  pub high : F
  pub low : F
  pub close : F
  pub volume : F

module _ {F : Type 0} ⦃fl : Float F⦄ where
  open fl use {lt, le}

  -- the bounds of the fields, and `high_gte_low`
  unfoldable pub bar_ok : Bar F → Bool
  bar_ok b =
      lt nought b.open_price
      && lt nought b.high
      && lt nought b.low
      && lt nought b.close
      && le nought b.volume
      && not (lt b.high b.low)

  -- `Bar(...)`
  unfoldable pub make_bar : Bar F → Outcome (Bar F)
  make_bar b =
      if bar_ok b then returned b else raised (record { kind = validation_error; message = "" })
