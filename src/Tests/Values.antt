-- ===== src/Tests/Values.antt =====
-- Signals, instruments and rows.
use trader_ai.Prelude.{
  ◌≡◌, refl, true, false, some, pos, arith, ◌*ℤ◌, ◌+ℤ◌, ◌-ℤ◌, floor_div, ℕ, ◌≤◌,
}
use trader_ai.Prelude.Dict.{lookup}
use trader_ai.Float.{nought}
use trader_ai.Float.Fixed.{Fixed, fixed_float, fixed-IsOrdered, half_even, fix_div, fix_mul}
use trader_ai.Core.Signal.{
  Signal, has_direction, validated, outward, round_to_tick, floor_to_tick, with_tick_rounding,
}
use trader_ai.Core.Signal.Laws.{IsValid, with_tick_rounding-IsValid}
use trader_ai.Core.Instrument.{validated as valid_instrument, has_nse_fields, round_qty}
use trader_ai.Core.Instrument.Laws.{
  IsLeastLots, round_qty-IsLeastLots, IsConsistent, validated-IsConsistent,
}
use trader_ai.Execution.OrderState.{OrderRecordOf, record_ok}
use trader_ai.Execution.OrderState.Rows.{
  Stamp, naive, aware, record_to_row, row_to_record, row_to_record-record_to_row,
}
use trader_ai.Execution.OrderState.Store.{list_open}
use trader_ai.Execution.OrderState.Store.Laws.{IsTable}
use trader_ai.Execution.OrderState.Store.Listing.{IsListing, list_open-IsListing}
use trader_ai.Tests.Data.{long_signal, stock_of_25, pending_record, table}

-- 100.02 at a tick of 0.05 is a price of 100
abbrev off_grid : Signal Fixed
off_grid = record long_signal { entry = pos 1_000_200 }

rounded : with_tick_rounding off_grid (pos 500) ≡ some long_signal
unfolding with_tick_rounding validated has_direction outward round_to_tick floor_to_tick half_even
    fix_div fix_mul ◌*ℤ◌ ◌+ℤ◌ ◌-ℤ◌ floor_div
rounded = refl

with_tick_rounding-IsValid_example :
    IsValid long_signal
    × (long_signal ≡ record off_grid { entry = long_signal.entry })
    × (fixed_float.le (pos 500) (nought {F = Fixed}) ≡ false)
    × (round_to_tick off_grid.entry (pos 500) ≡ some long_signal.entry)
    × (outward off_grid.side off_grid.stop_loss (pos 500) ≡ some long_signal.stop_loss)
    × (outward off_grid.side off_grid.target (pos 500) ≡ some long_signal.target)
with_tick_rounding-IsValid_example =
    with_tick_rounding-IsValid fixed-IsOrdered off_grid (pos 500) rounded

round_qty-IsLeastLots_example :
    (r : ℕ) × (round_qty 25 (pos 60) ≡ pos r) × IsLeastLots 25 (pos 60) r
round_qty-IsLeastLots_example = round_qty-IsLeastLots 25 (pos 60) (omega arith)

consistent : valid_instrument stock_of_25 ≡ some stock_of_25
unfolding valid_instrument has_nse_fields ◌*ℤ◌
consistent = refl

validated-IsConsistent_example :
    (stock_of_25 ≡ stock_of_25)
    × (1 ≤ 25)
    × (fixed_float.lt (nought {F = Fixed}) stock_of_25.tick_size ≡ true)
    × IsConsistent stock_of_25 stock_of_25.instrument_type
validated-IsConsistent_example = validated-IsConsistent stock_of_25 consistent

-- the record of a pending entry whose times are one of UTC, one without a zone and one of IST
abbrev stamped_record : OrderRecordOf Fixed Stamp
stamped_record = record {
  client_order_id = pending_record.client_order_id;
  symbol = pending_record.symbol;
  side = pending_record.side;
  qty = pending_record.qty;
  entry_price = pending_record.entry_price;
  stop_loss = pending_record.stop_loss;
  target = pending_record.target;
  state = pending_record.state;
  entry_order_id = pending_record.entry_order_id;
  sl_gtt_id = pending_record.sl_gtt_id;
  target_gtt_id = pending_record.target_gtt_id;
  fill_price = pending_record.fill_price;
  exit_price = pending_record.exit_price;
  pnl = pending_record.pnl;
  signal_ts = aware pending_record.signal_ts (pos 0);
  created_at = naive pending_record.created_at;
  updated_at = aware pending_record.updated_at (pos 330);
  strategy_id = pending_record.strategy_id;
  error = pending_record.error;
}

record_is_ok : record_ok stamped_record ≡ true
unfolding record_ok ◌*ℤ◌
record_is_ok = refl

row_to_record-record_to_row_example :
    row_to_record (λ v. "None") (record_to_row stamped_record)
    ≡ some (record stamped_record {
      signal_ts = aware pending_record.signal_ts (pos 330);
      created_at = aware pending_record.created_at (pos 330);
    })
row_to_record-record_to_row_example =
    row_to_record-record_to_row (λ v. "None") stamped_record record_is_ok

pub table-IsTable : IsTable table
unfolding lookup
table-IsTable = record { distinct = (refl, tt); own_keys = (refl, tt) }

list_open-IsListing_example : IsListing table (list_open table)
list_open-IsListing_example = list_open-IsListing table table-IsTable
