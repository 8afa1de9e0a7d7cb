-- ===== src/Tests/Live.antt =====
-- The Kite broker with a client that accepts and fills everything.
use trader_ai.Prelude.{◌≡◌, refl, false, some, [], ◌∷◌, pos, arith, ◌*ℤ◌, ℕ}
use trader_ai.Prelude.Dict.{lookup, values}
use trader_ai.Float.Fixed.{Fixed, fixed_float, fixed-IsOrdered}
use trader_ai.Risk.Windows.{is_kill_switch_active}
use trader_ai.Execution.Exceptions.{returned}
use trader_ai.Execution.Retry.{with_retry, retry_loop}
use trader_ai.Execution.OrderState.{validated, record_ok}
use trader_ai.Execution.OrderState.Store.{upsert, get, list_open, by_age, only_open}
use trader_ai.Execution.Kite.Monad.{Broker, retried, persist, for_each}
use trader_ai.Execution.Kite.Place.{
  place_bracket_order, lookup_existing, submit, record_entry, entry_record,
}
use trader_ai.Execution.Kite.Place.Laws.{accepted, duplicate, place_bracket_order-idempotent}
use trader_ai.Execution.Kite.Poll.{poll_and_advance}
use trader_ai.Execution.Kite.Poll.Lifecycle.{TableMoves, poll_and_advance-TableMoves}
use trader_ai.Execution.Kite.Flatten.{
  get_positions, read_records, positions_from, confirm, residual, flatten_all,
}
use trader_ai.Execution.Kite.Flatten.Laws.{
  IsConfirmed, flatten_all-TableMoves, flatten_all-IsConfirmed,
}
use trader_ai.Core.Signal.Laws.{IsDirected}
use trader_ai.Execution.Kite.Payload.{build_oco_gtt_payload}
use trader_ai.Execution.Kite.Payload.Laws.{IsOco, build_oco_gtt_payload-IsOco}
use trader_ai.Tests.Data.{rupees, pending_record, long_signal, setup, broker_with, table, morning}
use trader_ai.Tests.Values.{table-IsTable}

poll_and_advance-TableMoves_example :
    TableMoves "tb-orb" (list_open table) table (poll_and_advance setup (broker_with table)).1
poll_and_advance-TableMoves_example =
    poll_and_advance-TableMoves setup "tb-orb" (broker_with table) refl table-IsTable

abbrev placed : Broker Fixed ℕ
placed =
    let r = entry_record setup long_signal (pos 10) "4711" morning in
    record { state_store = some (upsert r []); memory_ids = r.client_order_id ∷ []; world = 1 }

first_order :
    place_bracket_order setup long_signal (pos 10) (broker_with [])
    ≡ accepted setup long_signal (pos 10) "4711" placed
unfolding place_bracket_order lookup_existing get lookup submit retried with_retry retry_loop
    record_entry validated record_ok persist is_kill_switch_active ◌*ℤ◌
first_order = refl

alive : is_kill_switch_active (setup.client.kill_switch placed.world) ≡ false
unfolding is_kill_switch_active
alive = refl

place_bracket_order-idempotent_example :
    place_bracket_order setup long_signal (pos 20) placed
    ≡ duplicate setup long_signal (pos 20) placed
place_bracket_order-idempotent_example =
    place_bracket_order-idempotent setup long_signal (pos 10) (pos 20) (broker_with []) placed refl
      first_order alive (omega arith)

flatten_all-TableMoves_example :
    TableMoves "tb-orb" (list_open table) table (flatten_all setup (broker_with table)).1
flatten_all-TableMoves_example =
    flatten_all-TableMoves setup "tb-orb" (broker_with table) refl table-IsTable

-- the question before the square-off, and the one after it
flat : flatten_all setup (broker_with []) ≡ (returned tt, record (broker_with []) { world = 2 })
unfolding flatten_all for_each list_open by_age only_open values get_positions read_records
    positions_from confirm residual
flat = refl

flatten_all-IsConfirmed_example : IsConfirmed setup (record (broker_with []) { world = 2 })
flatten_all-IsConfirmed_example =
    flatten_all-IsConfirmed setup (broker_with []) (record (broker_with []) { world = 2 }) flat

pending-IsDirected :
    IsDirected pending_record.side pending_record.entry_price pending_record.stop_loss
      pending_record.target
pending-IsDirected = (refl, refl)

build_oco_gtt_payload-IsOco_example :
    IsOco pending_record
      (rupees 101)
      (build_oco_gtt_payload pending_record (rupees 101) "NSE" "MIS")
build_oco_gtt_payload-IsOco_example =
    build_oco_gtt_payload-IsOco fixed-IsOrdered pending_record (rupees 101) "NSE" "MIS"
      pending-IsDirected
