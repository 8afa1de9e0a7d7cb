-- ===== src/Execution/Kite/Poll.antt =====
-- `poll_and_advance`: every open record is walked forward by what the broker reports.
pub mod Laws
pub mod Lifecycle
use Prim.Native.String.{◌++◌ as join}
use trader_ai.Core.Instrument.{is_empty}
use trader_ai.Prelude.{
  Bool, true, false, Option, none, some, List, [], ◌∷◌, if◌then◌else◌, ℤ, String, ◌||◌, ◌*ℤ◌, pos,
  negsuc,
}
use trader_ai.Clock.{Datetime}
use trader_ai.Float.{Float, nought}
use trader_ai.Text.{Text, codes, text_eq}
use trader_ai.Core.Signal.{Side, buy, sell}
use trader_ai.Execution.Exceptions.{
  Kind, input_exception, order_exception, Exn, Outcome, returned, raised, is_kite,
}
use trader_ai.Execution.OrderState.{
  OrderState, pending_entry, entered, exited, failed, cancelled, OrderRecord,
}
use trader_ai.Execution.OrderState.Store.{Store, list_open}
use trader_ai.Execution.Kite.Client.{Client, GttRow, GttResponse, OrderRow}
use trader_ai.Execution.Kite.Monad.{
  Setup, Broker, M, pure, raise, attempt, call, now, persist, ◌>>=◌, ◌>>◌, retried, for_each,
}
use trader_ai.Execution.Kite.Payload.{
  upper, lower, resolve_product, build_oco_gtt_payload, safe_float, order_by_id, gtt_by_id,
  exit_price_of, trigger_id_of,
}

-- the `error` of a record that failed: the text of an exception behind a prefix, or a fixed text
abbrev pub gtt_error : Exn → String
gtt_error e = elim e.kind [
  | input_exception ↦ join "gtt_rejected: " e.message
  | order_exception ↦ join "gtt_rejected: " e.message
  | _ ↦ join "gtt_error: " e.message
]

-- `str(order.get("status_message") or status)`
abbrev pub failure_text : String → Option String → String
failure_text status none = status
failure_text status (some message) = if is_empty message then status else message

module _ {F : Type 0} ⦃fl : Float F⦄ where
  open fl use {of_int, sub, mul, lt}

  -- the price at which the entry filled
  abbrev pub filled_at : OrderRecord F → OrderRow F → F
  filled_at r order =
      if lt nought (safe_float order.average_price)
      then safe_float order.average_price
      else r.entry_price

  abbrev pub sign : Side → F
  sign buy = of_int (pos 1)
  sign sell = of_int (negsuc 0)

  abbrev pub value_or : Option F → F → F
  value_or none x = x
  value_or (some y) x = y

  -- the profit of a record that leaves at a price
  unfoldable pub exit_pnl : OrderRecord F → F → F
  exit_pnl r exit_price =
      mul (mul (sub exit_price (value_or r.fill_price r.entry_price)) (of_int r.qty)) (sign r.side)

  -- the updates of a record
  abbrev pub failed_record : OrderRecord F → String → Datetime → OrderRecord F
  failed_record r reason at = record r { state = failed; error = some reason; updated_at = at }

  abbrev pub entered_record : OrderRecord F → F → ℤ → Datetime → OrderRecord F
  entered_record r fill_price trigger_id at = record r {
    state = entered;
    sl_gtt_id = some trigger_id;
    target_gtt_id = none;
    fill_price = some fill_price;
    updated_at = at;
  }

  abbrev pub exited_record : OrderRecord F → F → Datetime → OrderRecord F
  exited_record r price at = record r {
    state = exited;
    exit_price = some price;
    pnl = some (exit_pnl r price);
    updated_at = at;
  }

module _ {F W : Type 0} ⦃fl : Float F⦄ where
  -- `_mark_failed`
  unfoldable pub mark_failed : Setup F W → OrderRecord F → String → M F W (Unit {0})
  mark_failed su r reason = do at ← now su; persist (failed_record r reason at)

  -- the record once its GTT is placed
  unfoldable pub mark_entered : Setup F W → OrderRecord F → F → Option ℤ → M F W (Unit {0})
  mark_entered su r fill_price none = mark_failed su r "gtt_no_trigger_id"
  mark_entered su r fill_price (some trigger_id) = do
    at ← now su
    persist (entered_record r fill_price trigger_id at)

  abbrev pub after_gtt : Setup F W → OrderRecord F → F → Outcome GttResponse → M F W (Unit {0})
  after_gtt su r fill_price (raised e) = mark_failed su r (gtt_error e)
  after_gtt su r fill_price (returned response) =
      mark_entered su r fill_price (trigger_id_of response)

  -- `_place_oco_gtt`
  unfoldable pub place_oco_gtt : Setup F W → OrderRecord F → F → M F W (Unit {0})
  place_oco_gtt su r fill_price = do
    let payload =
        build_oco_gtt_payload r fill_price su.exchange (resolve_product su.product r.symbol)
    answer ← attempt (call (retried su (su.client.place_gtt payload)))
    after_gtt su r fill_price answer

  -- the update of an entry order that was refused
  unfoldable pub mark_refused : Setup F W → OrderRecord F → String → M F W (Unit {0})
  mark_refused su r reason = do at ← now su; persist (failed_record r reason at)

  -- `_advance_pending` on the row of the entry order
  unfoldable pub advance_by_order : Setup F W → OrderRecord F → OrderRow F → M F W (Unit {0})
  advance_by_order su r order =
      if text_eq (upper order.status) (codes "COMPLETE")
      then place_oco_gtt su r (filled_at r order)
      else if text_eq (upper order.status) (codes "REJECTED")
      then mark_refused su r (failure_text "REJECTED" order.status_message)
      else if text_eq (upper order.status) (codes "CANCELLED")
      then mark_refused su r (failure_text "CANCELLED" order.status_message)
      else pure tt

  abbrev pub pending_by_row : Setup F W → OrderRecord F → Option (OrderRow F) → M F W (Unit {0})
  pending_by_row su r none = pure tt
  pending_by_row su r (some order) = advance_by_order su r order

  abbrev pub pending_by_id :
      Setup F W → OrderRecord F → List (OrderRow F) → Option String → M F W (Unit {0})
  pending_by_id su r rows none = pure tt
  pending_by_id su r rows (some id) = pending_by_row su r (order_by_id id rows)

  -- `_advance_pending`
  unfoldable pub advance_pending : Setup F W → OrderRecord F → List (OrderRow F) → M F W (Unit {0})
  advance_pending su r rows = pending_by_id su r rows r.entry_order_id

  unfoldable pub mark_exited : Setup F W → OrderRecord F → F → M F W (Unit {0})
  mark_exited su r price = do at ← now su; persist (exited_record r price at)

  -- `_advance_entered` on the row of the GTT
  unfoldable pub advance_by_gtt :
      Setup F W → OrderRecord F → GttRow F → List (OrderRow F) → M F W (Unit {0})
  advance_by_gtt su r gtt rows =
      if text_eq (lower gtt.status) (codes "triggered")
      then mark_exited su r (exit_price_of r gtt rows)
      else pure tt

  abbrev pub entered_by_row :
      Setup F W → OrderRecord F → List (OrderRow F) → Option (GttRow F) → M F W (Unit {0})
  entered_by_row su r rows none = pure tt
  entered_by_row su r rows (some gtt) = advance_by_gtt su r gtt rows

  abbrev pub entered_by_id :
      Setup F W → OrderRecord F → List (OrderRow F) → List (GttRow F) → Option ℤ → M F W (Unit {0})
  entered_by_id su r rows gtts none = pure tt
  entered_by_id su r rows gtts (some id) = entered_by_row su r rows (gtt_by_id id gtts)

  -- `_advance_entered`
  unfoldable pub advance_entered :
      Setup F W → OrderRecord F → List (OrderRow F) → List (GttRow F) → M F W (Unit {0})
  advance_entered su r rows gtts = entered_by_id su r rows gtts r.sl_gtt_id

  abbrev pub advance_in :
      OrderState
      → Setup F W
      → OrderRecord F
      → List (OrderRow F)
      → List (GttRow F)
      → M F W (Unit {0})
  advance_in pending_entry su r rows gtts = advance_pending su r rows
  advance_in entered su r rows gtts = advance_entered su r rows gtts
  advance_in exited su r rows gtts = pure tt
  advance_in failed su r rows gtts = pure tt
  advance_in cancelled su r rows gtts = pure tt

  -- one round of the loop over the open records
  unfoldable pub advance :
      Setup F W → OrderRecord F → List (OrderRow F) → List (GttRow F) → M F W (Unit {0})
  advance su r rows gtts = advance_in r.state su r rows gtts

  abbrev pub advance_all :
      Setup F W → List (OrderRecord F) → List (OrderRow F) → List (GttRow F) → M F W (Unit {0})
  advance_all su rs rows gtts = for_each (λ r. advance su r rows gtts) rs

  -- the GTTs, none of them where Kite's own exceptions come out
  abbrev pub after_gtts : Outcome (List (GttRow F)) → M F W (List (GttRow F))
  after_gtts (returned gtts) = pure gtts
  after_gtts (raised e) = if is_kite e.kind then pure [] else raise e

  unfoldable pub poll_gtts : Setup F W → M F W (List (GttRow F))
  poll_gtts su = attempt (call (retried su su.client.get_gtts)) >>= after_gtts

  abbrev pub after_orders :
      Setup F W → List (OrderRecord F) → Outcome (List (OrderRow F)) → M F W (Unit {0})
  after_orders su open_records (returned rows) =
      poll_gtts su >>= λ gtts. advance_all su open_records rows gtts
  after_orders su open_records (raised e) = if is_kite e.kind then pure tt else raise e

  unfoldable pub poll_orders : Setup F W → List (OrderRecord F) → M F W (Unit {0})
  poll_orders su open_records =
      attempt (call (retried su su.client.orders)) >>= after_orders su open_records

  abbrev pub poll_records : Setup F W → List (OrderRecord F) → M F W (Unit {0})
  poll_records su [] = pure tt
  poll_records su (r ∷ rs) = poll_orders su (r ∷ rs)

  unfoldable pub poll_and_advance : Setup F W → M F W (Unit {0})
  poll_and_advance su b = elim b.state_store [
    | none ↦ (returned tt, b)
    | some store ↦ poll_records su (list_open store) b
  ]
