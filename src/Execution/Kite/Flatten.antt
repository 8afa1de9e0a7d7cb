-- ===== src/Execution/Kite/Flatten.antt =====
-- `get_positions` and `flatten_all`.
pub mod Laws
use trader_ai.Prelude.{
  ℕ, zero, suc, Bool, true, false, Option, none, some, List, [], ◌∷◌, if◌then◌else◌, ℤ, pos, String,
  abs_ℤ, ltb_ℤ, eqb_ℤ,
}
use trader_ai.Prelude.Dict.{Dict, lookup, insert}
use trader_ai.Float.{Float, nought}
use trader_ai.Clock.{Datetime}
use trader_ai.Execution.Exceptions.{
  Exn, validation_error, flatten_incomplete, Outcome, returned, raised,
}
use trader_ai.Execution.Broker.{Position, PositionSide, long, short}
use trader_ai.Execution.OrderState.{
  OrderState, pending_entry, entered, exited, failed, cancelled, OrderRecord,
}
use trader_ai.Execution.OrderState.Store.{Store, list_open}
use trader_ai.Execution.Kite.Client.{
  Client, NetRow, OrderRequest, Transaction, buy_transaction, sell_transaction, market,
}
use trader_ai.Execution.Kite.Monad.{
  Setup, Broker, M, pure, raise, attempt, call, now, persist, ◌>>=◌, ◌>>◌, retried, for_each,
}
use trader_ai.Execution.Kite.Payload.{resolve_product}

abbrev pub opposite : PositionSide → Transaction
opposite long = sell_transaction
opposite short = buy_transaction

abbrev pub poll_budget : ℕ
poll_budget = 10

module _ {F : Type 0} where
  -- the `ENTERED` record of each symbol, the last of the list
  entered_by_symbol : Dict (OrderRecord F) → List (OrderRecord F) → Dict (OrderRecord F)
  entered_by_symbol d [] = d
  entered_by_symbol d (r ∷ rs) =
      entered_by_symbol (elim r.state [ entered ↦ insert r.symbol r d | _ ↦ d ]) rs

  abbrev pub open_records : Option (Store F) → List (OrderRecord F)
  open_records none = []
  open_records (some store) = list_open store

  abbrev stop_of : Option (OrderRecord F) → Option F
  stop_of none = none
  stop_of (some r) = some r.stop_loss

  abbrev target_of : Option (OrderRecord F) → Option F
  target_of none = none
  target_of (some r) = some r.target

  abbrev strategy_of : Option (OrderRecord F) → String
  strategy_of none = "kite_sync"
  strategy_of (some r) = r.strategy_id

  unfoldable pub position_at : NetRow F → Option (OrderRecord F) → Datetime → Position F
  position_at row matched at = record {
    symbol = row.tradingsymbol;
    side = if ltb_ℤ (pos 0) row.quantity then long else short;
    qty = pos (abs_ℤ row.quantity);
    entry_price = row.average_price;
    stop_loss = stop_of matched;
    target = target_of matched;
    strategy_id = strategy_of matched;
    opened_at = at;
  }

module _ {F W : Type 0} ⦃fl : Float F⦄ where
  open fl use {le, lt, of_int}

  abbrev pub cons_position :
      Dict (OrderRecord F) → NetRow F → Datetime → List (Position F) → M F W (List (Position F))
  cons_position records row at ps =
      pure (position_at row (lookup row.tradingsymbol records) at ∷ ps)

  abbrev pub add_position :
      Dict (OrderRecord F)
      → NetRow F
      → M F W (List (Position F))
      → Datetime
      → M F W (List (Position F))
  add_position records row rest at = rest >>= cons_position records row at

  abbrev pub invalid : Datetime → M F W (List (Position F))
  invalid at = raise (record { kind = validation_error; message = "" })

  -- the loop over the net rows; a price that is NaN passes the test and fails the validation
  unfoldable pub positions_from :
      Setup F W → Dict (OrderRecord F) → List (NetRow F) → M F W (List (Position F))
  positions_from su records [] = pure []
  positions_from su records (row ∷ rows) =
      let rest = positions_from su records rows in
      if eqb_ℤ row.quantity (pos 0)
      then rest
      else if le row.average_price nought
      then rest
      else if lt nought row.average_price
      then (now su >>= add_position records row rest)
      else (now su >>= invalid)

  -- the records that enrich the positions
  unfoldable pub read_records : M F W (Dict (OrderRecord F))
  unfolding entered_by_symbol
  read_records b = (returned (entered_by_symbol [] (open_records b.state_store)), b)

  abbrev pub with_rows :
      Setup F W → List (NetRow F) → Dict (OrderRecord F) → M F W (List (Position F))
  with_rows su rows records = positions_from su records rows

  abbrev pub enrich : Setup F W → List (NetRow F) → M F W (List (Position F))
  enrich su rows = read_records >>= with_rows su rows

  unfoldable pub get_positions : Setup F W → M F W (List (Position F))
  get_positions su = call su.client.positions >>= enrich su

  -- `_safe_delete_gtt`
  unfoldable pub safe_delete_gtt : Setup F W → ℤ → M F W (Unit {0})
  safe_delete_gtt su id = attempt (call (retried su (su.client.delete_gtt id))) >> pure tt

  -- `_mark_cancelled`
  unfoldable pub mark_cancelled : Setup F W → OrderRecord F → M F W (Unit {0})
  mark_cancelled su r = do at ← now su; persist (record r { state = cancelled; updated_at = at })

  abbrev pub cancel_exit : Setup F W → OrderRecord F → Option ℤ → M F W (Unit {0})
  cancel_exit su r none = pure tt
  cancel_exit su r (some id) = safe_delete_gtt su id >> mark_cancelled su r

  abbrev pub cancel_in : OrderState → Setup F W → OrderRecord F → M F W (Unit {0})
  cancel_in entered su r = cancel_exit su r r.sl_gtt_id
  cancel_in pending_entry su r = pure tt
  cancel_in exited su r = pure tt
  cancel_in failed su r = pure tt
  cancel_in cancelled su r = pure tt

  -- one round of the loop over the open records
  unfoldable pub cancel_record : Setup F W → OrderRecord F → M F W (Unit {0})
  cancel_record su r = cancel_in r.state su r

  unfoldable pub square_off_request : Setup F W → Position F → OrderRequest F
  square_off_request su p = record {
    exchange = su.exchange;
    tradingsymbol = p.symbol;
    transaction_type = opposite p.side;
    quantity = p.qty;
    product = resolve_product su.product p.symbol;
    order_type = market;
    price = none;
    tag = none;
  }

  -- `_place_market_square_off`: whatever it raises is logged
  unfoldable pub square_off : Setup F W → Position F → M F W (Unit {0})
  square_off su p =
      attempt (call (retried su (su.client.place_order (square_off_request su p)))) >> pure tt

  -- what is left open, nothing where the question raises
  abbrev pub or_nothing : Outcome (List (Position F)) → M F W (List (Position F))
  or_nothing (returned ps) = pure ps
  or_nothing (raised e) = pure []

  unfoldable pub residual : Setup F W → M F W (List (Position F))
  residual su = attempt (get_positions su) >>= or_nothing

  abbrev pub sleep_one : Setup F W → M F W (Unit {0})
  sleep_one su b = (returned tt, record b { world = su.client.sleep (of_int (pos 1)) b.world })

  abbrev pub give_up : List (Position F) → M F W (Unit {0})
  give_up [] = pure tt
  give_up (p ∷ ps) = raise (record { kind = flatten_incomplete; message = "" })

  abbrev pub unless_done : M F W (Unit {0}) → List (Position F) → M F W (Unit {0})
  unless_done again [] = pure tt
  unless_done again (p ∷ ps) = again

  -- the polls that are left, and then the last question
  unfoldable pub confirm : Setup F W → ℕ → M F W (Unit {0})
  confirm su zero b = (get_positions su >>= give_up) b
  confirm su (suc left) b = (residual su >>= unless_done (sleep_one su >> confirm su left)) b

  abbrev pub square_all : Setup F W → List (Position F) → M F W (Unit {0})
  square_all su ps = for_each (square_off su) ps >> confirm su poll_budget

  unfoldable pub flatten_all : Setup F W → M F W (Unit {0})
  flatten_all su b =
      (for_each (cancel_record su) (open_records b.state_store)
          >> get_positions su
          >>= square_all su)
        b
