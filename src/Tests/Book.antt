-- ===== src/Tests/Book.antt =====
-- The paper broker.
use trader_ai.Prelude.{◌≡◌, refl, ◌⊎◌, true, some, [], ◌∷◌, pos, arith, ◌*ℤ◌, ◌+ℤ◌, floor_div}
use trader_ai.Prelude.Dict.{lookup, insert}
use trader_ai.Float.{nought}
use trader_ai.Float.Fixed.{Fixed, fixed_float, fixed-IsOrdered, fixed-HasSigns, fix_div, fix_mul}
use trader_ai.Core.Signal.Laws.{IsValid as IsValidSignal}
use trader_ai.Execution.Broker.{OrderResult}
use trader_ai.Execution.Paper.{
  PaperBroker, apply_slippage, fill_entry, fill_of, position_of, place_bracket_order,
  close_position, check_bar_exits, exit_at, stop_loss,
}
use trader_ai.Execution.Paper.Invariant.{IsValid, place_bracket_order-IsValid}
use trader_ai.Execution.Paper.Effects.{
  Fills, Refuses, Closes, place_bracket_order_effect, close_position-Closes,
}
use trader_ai.Execution.Paper.Exits.{stop_exit_loses}
use trader_ai.Tests.Data.{long_signal, ids, rupees}

abbrev empty : PaperBroker Fixed
empty = record {
  slippage_bps = rupees 5;
  positions = [];
  equity = rupees 100_000;
  realized_pnl = pos 0;
  orders = [];
}

-- five basis points above 100
abbrev fill : Fixed
fill = pos 1_000_500

abbrev answer : OrderResult Fixed
answer = fill_of ids long_signal (pos 10) fill

abbrev pub holding : PaperBroker Fixed
holding = record empty {
  positions = ("INFY", position_of long_signal (pos 10) fill) ∷ [];
  orders = answer ∷ [];
}

filled_order : place_bracket_order ids long_signal (pos 10) empty ≡ some (answer, holding)
unfolding place_bracket_order lookup insert fill_entry apply_slippage ◌*ℤ◌ ◌+ℤ◌ fix_div fix_mul
    floor_div
filled_order = refl

empty-IsValid : IsValid empty
empty-IsValid = record { distinct = tt; entries = tt }

place_bracket_order-IsValid_example : IsValid holding
place_bracket_order-IsValid_example =
    place_bracket_order-IsValid ids long_signal (pos 10) empty empty-IsValid filled_order

place_bracket_order_effect_example :
    Fills long_signal (pos 10) empty answer holding
    ⊎ Refuses long_signal (pos 10) empty answer holding
place_bracket_order_effect_example =
    place_bracket_order_effect ids long_signal (pos 10) empty filled_order

pub holding-IsValid : IsValid holding
holding-IsValid =
    place_bracket_order-IsValid ids long_signal (pos 10) empty empty-IsValid filled_order

held : lookup "INFY" holding.positions ≡ some (position_of long_signal (pos 10) fill)
unfolding lookup
held = refl

close_position-Closes_example :
    let (pnl, c) = close_position "INFY" (rupees 105) holding in
    Closes "INFY" (position_of long_signal (pos 10) fill) (rupees 105) holding pnl c
close_position-Closes_example =
    close_position-Closes "INFY" (rupees 105) holding holding-IsValid held

signal-IsValid : IsValidSignal long_signal
unfolding ◌*ℤ◌
signal-IsValid = record {
  entry_pos = refl;
  stop_pos = refl;
  target_pos = refl;
  direction = (refl, refl);
}

filled_at_open : Fills long_signal (pos 10) empty answer holding
unfolding lookup apply_slippage ◌*ℤ◌ ◌+ℤ◌ fix_div fix_mul floor_div
filled_at_open = record {
  was_filled = refl;
  some_qty = omega arith;
  was_free = refl;
  fill_price = refl;
  opened = λ j. refl;
  logged = refl;
  same_equity = refl;
  same_pnl = refl;
}

stopped_out : check_bar_exits "INFY" (rupees 101) (rupees 97) holding ≡ some (rupees 98, stop_loss)
unfolding check_bar_exits lookup exit_at
stopped_out = refl

no_slippage_gain : fixed_float.le (nought {F = Fixed}) empty.slippage_bps ≡ true
unfolding ◌*ℤ◌
no_slippage_gain = refl

stop_exit_loses_example :
    (rupees 98 ≡ long_signal.stop_loss)
    × (fixed_float.le (close_position "INFY" (rupees 98) holding).0 (nought {F = Fixed}) ≡ true)
stop_exit_loses_example =
    stop_exit_loses fixed-IsOrdered fixed-HasSigns long_signal 10 empty holding answer (rupees 101)
      (rupees 97) signal-IsValid no_slippage_gain filled_at_open stopped_out
