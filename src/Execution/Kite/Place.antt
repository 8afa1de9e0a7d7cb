-- ===== src/Execution/Kite/Place.antt =====
-- `place_bracket_order`: the kill switch, idempotency, the entry order and its record.
pub mod Laws
use trader_ai.Prelude.{
  Bool, true, false, ◌||◌, Option, none, some, List, [], ◌∷◌, if◌then◌else◌, ltb_ℤ, ℤ, pos, String,
  str_eq,
}
use trader_ai.Float.{Float, nought}
use trader_ai.Clock.{Datetime}
use trader_ai.Core.Signal.{Side, buy, sell, Signal}
use trader_ai.Risk.Windows.{is_kill_switch_active}
use trader_ai.Execution.Exceptions.{Exn, validation_error, Outcome, returned, raised}
use trader_ai.Execution.Broker.{
  OrderResult, order_rejected, pending, Message, qty_too_small, kill_switch_active,
  duplicate_client_order_id, broker_order_id, exception_text, id_of,
}
use trader_ai.Execution.OrderState.{
  OrderState, pending_entry, entered, exited, failed, cancelled, OrderRecord, validated,
}
use trader_ai.Execution.OrderState.Store.{Store, get}
use trader_ai.Execution.Kite.Client.{
  Client, OrderRequest, Transaction, buy_transaction, sell_transaction, limit,
}
use trader_ai.Execution.Kite.Monad.{
  Setup, Broker, M, pure, raise, attempt, call, now, persist, ◌>>=◌, ◌>>◌, retried,
}
use trader_ai.Execution.Kite.Payload.{resolve_product}

-- A record in these states stops a second order of its id.
abbrev pub blocks : OrderState → Bool
blocks pending_entry = true
blocks entered = true
blocks exited = true
blocks _ = false

unfoldable pub member : String → List String → Bool
member x [] = false
member x (y ∷ ys) = str_eq y x || member x ys

abbrev pub transaction_of : Side → Transaction
transaction_of buy = buy_transaction
transaction_of sell = sell_transaction

abbrev pub blocking : {F : Type 0} → Option (OrderRecord F) → Bool
blocking none = false
blocking (some r) = blocks r.state

module _ {F W : Type 0} ⦃fl : Float F⦄ where
  abbrev pub lookup_memory : Setup F W → Bool → M F W Bool
  lookup_memory su true = now su >>= λ _. pure true
  lookup_memory su false = pure false

  abbrev pub lookup_in : Option (Store F) → Setup F W → String → M F W Bool
  lookup_in (some store) su id b = (returned (blocking (get id store)), b)
  lookup_in none su id b = lookup_memory su (member id b.memory_ids) b

  -- `_lookup_existing`, as whether there is a record; without a store it reads the clock to make one up
  unfoldable pub lookup_existing : Setup F W → String → M F W Bool
  lookup_existing su id b = lookup_in b.state_store su id b

  abbrev pub result : Setup F W → Signal F → ℤ → Message → F → OrderResult F
  result su signal qty message fill_price = record {
    client_order_id = id_of su.ids signal;
    status = pending;
    symbol = signal.symbol;
    side = signal.side;
    qty = qty;
    fill_price = fill_price;
    message = message;
  }

  -- `_reject`
  abbrev pub reject : Setup F W → Signal F → ℤ → Message → OrderResult F
  reject su signal qty message = record (result su signal qty message nought) {
    status = order_rejected;
  }

  unfoldable pub entry_request : Setup F W → Signal F → ℤ → OrderRequest F
  entry_request su signal qty = record {
    exchange = su.exchange;
    tradingsymbol = signal.symbol;
    transaction_type = transaction_of signal.side;
    quantity = qty;
    product = resolve_product su.product signal.symbol;
    order_type = limit;
    price = some signal.entry;
    tag = some (id_of su.ids signal);
  }

  abbrev pub entry_record : Setup F W → Signal F → ℤ → String → Datetime → OrderRecord F
  entry_record su signal qty order_id at = record {
    client_order_id = id_of su.ids signal;
    symbol = signal.symbol;
    side = signal.side;
    qty = qty;
    entry_price = signal.entry;
    stop_loss = signal.stop_loss;
    target = signal.target;
    state = pending_entry;
    entry_order_id = some order_id;
    sl_gtt_id = none;
    target_gtt_id = none;
    fill_price = none;
    exit_price = none;
    pnl = none;
    signal_ts = signal.ts;
    created_at = at;
    updated_at = at;
    strategy_id = signal.strategy_id;
    error = none;
  }

  abbrev or_invalid : Option (OrderRecord F) → M F W (OrderRecord F)
  or_invalid none = raise (record { kind = validation_error; message = "" })
  or_invalid (some r) = pure r

  -- the record of an accepted entry order
  unfoldable pub record_entry : Setup F W → Signal F → ℤ → String → M F W (OrderResult F)
  record_entry su signal qty order_id = do
    at ← now su
    r ← or_invalid (validated (entry_record su signal qty order_id at))
    persist r
    pure (result su signal qty (broker_order_id order_id) signal.entry)

  -- whatever the entry order raises is a rejection
  abbrev pub after_entry : Setup F W → Signal F → ℤ → Outcome String → M F W (OrderResult F)
  after_entry su signal qty (raised e) = pure (reject su signal qty (exception_text e.message))
  after_entry su signal qty (returned order_id) = record_entry su signal qty order_id

  unfoldable pub submit : Setup F W → Signal F → ℤ → M F W (OrderResult F)
  submit su signal qty =
      attempt (call (retried su (su.client.place_order (entry_request su signal qty))))
      >>= after_entry su signal qty

  abbrev pub unless_known : Setup F W → Signal F → ℤ → Bool → M F W (OrderResult F)
  unless_known su signal qty true = pure (result su signal qty duplicate_client_order_id nought)
  unless_known su signal qty false = submit su signal qty

  unfoldable pub place_bracket_order : Setup F W → Signal F → ℤ → M F W (OrderResult F)
  place_bracket_order su signal qty b =
      if is_kill_switch_active (su.client.kill_switch b.world)
      then (returned (reject su signal qty kill_switch_active), b)
      else if ltb_ℤ qty (pos 1)
      then (returned (reject su signal qty qty_too_small), b)
      else (lookup_existing su (id_of su.ids signal) >>= unless_known su signal qty) b
