-- ===== src/Core/Signal.antt =====
-- core/signal.py: the trading signal, its validators and the snapping of its prices to the tick grid.
pub mod Laws
use trader_ai.Prelude.{
  ◌≡◌, Bool, true, false, not, ◌&&◌, ◌||◌, Option, none, some, List, ℤ, pos, String, if◌then◌else◌,
}
use trader_ai.Prelude.Options.{◌>>=◌, ◌>>◌, guard}
use trader_ai.Float.{Float, nought}
use trader_ai.Clock.{Datetime}

pub data Side : Type 0 where
  buy sell : Side

pub record Signal (F : Type 0) : Type 0 where
  pub symbol : String
  pub side : Side
  pub entry : F
  pub stop_loss : F
  pub target : F
  pub qty : Option ℤ
  pub timeframe : String
  pub strategy_id : String
  pub reasons : List String
  pub indicator_snapshot : List (String × F)
  pub confidence : F
  -- the validator has converted it to IST
  pub ts : Datetime

module _ {F : Type 0} ⦃fl : Float F⦄ where
  open fl use {of_int, mul, div, lt, le, floor, ceil, round}

  abbrev pub directed : Side → F → F → F → Bool
  directed buy entry stop_loss target = lt stop_loss entry && lt entry target
  directed sell entry stop_loss target = lt target entry && lt entry stop_loss

  -- `validate_direction` accepts the prices
  unfoldable pub has_direction : Side → F → F → F → Bool
  has_direction side entry stop_loss target =
      if le entry nought || (le stop_loss nought || le target nought)
      then false
      else directed side entry stop_loss target

  -- the constructor call `Signal(...)`: the value, or `none` for a ValidationError
  unfoldable pub validated : Signal F → Option (Signal F)
  unfolding has_direction
  validated s =
      if le nought s.confidence && le s.confidence (of_int (pos 1))
      then if has_direction s.side s.entry s.stop_loss s.target then some s else none
      else none

  -- `_round_to_tick`, `_floor_to_tick` and `_ceil_to_tick`: the integer part raises at NaN and the
  -- infinities
  abbrev on_grid : (F → Option ℤ) → F → F → Option F
  on_grid integral price tick = do n ← integral (div price tick); some (mul (of_int n) tick)

  unfoldable pub round_to_tick : F → F → Option F
  round_to_tick = on_grid round

  unfoldable pub floor_to_tick : F → F → Option F
  floor_to_tick = on_grid floor

  unfoldable pub ceil_to_tick : F → F → Option F
  ceil_to_tick = on_grid ceil

  -- the rounding of the stop and of the target
  unfoldable pub outward : Side → F → F → Option F
  outward buy = floor_to_tick
  outward sell = ceil_to_tick

  -- `with_tick_rounding`: `none` for a ValueError
  unfoldable pub with_tick_rounding : Signal F → F → Option (Signal F)
  with_tick_rounding s tick_size = do
    guard (not (le tick_size nought))
    entry ← round_to_tick s.entry tick_size
    stop_loss ← outward s.side s.stop_loss tick_size
    target ← outward s.side s.target tick_size
    validated (record s { entry = entry; stop_loss = stop_loss; target = target })
