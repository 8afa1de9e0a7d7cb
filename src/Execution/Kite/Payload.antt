-- ===== src/Execution/Kite/Payload.antt =====
-- The payload of the two-leg GTT, the choice of the product, and the readings of Kite's answers.
pub mod Laws
use mathlib.Core.List.{reverse}
use trader_ai.Prelude.{
  ◌+◌, ◌-◌, Bool, true, false, ◌&&◌, ◌||◌, Option, none, some, List, [], ◌∷◌, map, if◌then◌else◌,
  leb, ◌==◌, ℤ, String, eqb_ℤ, str_eq,
}
use trader_ai.Float.{Float, nought}
use trader_ai.Text.{Text, codes}
use trader_ai.Core.Signal.{Side, buy, sell}
use trader_ai.Execution.OrderState.{OrderRecord}
use trader_ai.Execution.Kite.Client.{
  Transaction, buy_transaction, sell_transaction, OrderType, limit, market, Leg, GttRequest,
  GttResponse, OrderRow, GttRow,
}

-- `str.upper` and `str.lower` on ASCII
abbrev pub upper : Text → Text
upper = map λ c. if leb b'a' c && leb c b'z' then c - 32 else c

abbrev pub lower : Text → Text
lower = map λ c. if leb b'A' c && leb c b'Z' then c + 32 else c

unfoldable pub starts : Text → Text → Bool
starts [] s = true
starts (a ∷ p) [] = false
starts (a ∷ p) (b ∷ s) = a == b && starts p s

-- `text.endswith(suffix)`
unfoldable pub ends_with : Text → Text → Bool
unfolding starts
ends_with s suffix = starts (reverse suffix) (reverse s)

-- `_resolve_product`
unfoldable pub resolve_product : Option String → String → String
unfolding ends_with
resolve_product (some product) symbol = product
resolve_product none symbol =
    let name = upper (codes symbol) in
    if ends_with name (codes "FUT") || (ends_with name (codes "CE") || ends_with name (codes "PE"))
    then "NRML"
    else "MIS"

abbrev has_id : ℤ → Option ℤ → Bool
has_id id none = false
has_id id (some n) = eqb_ℤ n id

module _ {F : Type 0} ⦃fl : Float F⦄ where
  open fl use {of_int, sub, mul, neg, abs, le, lt}

  -- `_gtt_market_leg` and `_gtt_limit_leg`
  abbrev pub leg : OrderType → String → OrderRecord F → Transaction → String → F → Leg F
  leg order_type exchange r transaction product price = record {
    exchange = exchange;
    tradingsymbol = r.symbol;
    transaction_type = transaction;
    quantity = r.qty;
    product = product;
    order_type = order_type;
    price = price;
  }

  abbrev pub two_legs : OrderRecord F → F → String → F × F → Leg F × Leg F → GttRequest F
  two_legs r fill_price exchange triggers legs = record {
    tradingsymbol = r.symbol;
    exchange = exchange;
    trigger_values = triggers;
    last_price = fill_price;
    orders = legs;
  }

  -- `_build_oco_gtt_payload`, by the side of the record
  abbrev pub payload_for : Side → OrderRecord F → F → String → String → GttRequest F
  payload_for buy r fill_price exchange product =
      two_legs r fill_price exchange (r.stop_loss, r.target)
        (
          leg market exchange r sell_transaction product r.stop_loss,
          leg limit exchange r sell_transaction product r.target,
        )
  payload_for sell r fill_price exchange product =
      two_legs r fill_price exchange (r.target, r.stop_loss)
        (
          leg limit exchange r buy_transaction product r.target,
          leg market exchange r buy_transaction product r.stop_loss,
        )

  unfoldable pub build_oco_gtt_payload : OrderRecord F → F → String → String → GttRequest F
  build_oco_gtt_payload r fill_price exchange product =
      payload_for r.side r fill_price exchange product

  -- `_safe_float`
  abbrev pub safe_float : Option F → F
  safe_float none = nought
  safe_float (some x) = x

  abbrev positive : F → Option F
  positive x = if lt nought x then some x else none

  abbrev or_else : Option F → Option F → Option F
  or_else none o = o
  or_else (some x) o = some x

  -- `orders_by_id.get(id)`: the last row of that id
  unfoldable pub order_by_id : String → List (OrderRow F) → Option (OrderRow F)
  order_by_id id [] = none
  order_by_id id (row ∷ rows) = elim (order_by_id id rows) [
    | some last ↦ some last
    | none ↦ if str_eq row.order_id id then some row else none
  ]

  -- `gtts_by_id.get(id)`: the last row of that id
  unfoldable pub gtt_by_id : ℤ → List (GttRow F) → Option (GttRow F)
  gtt_by_id id [] = none
  gtt_by_id id (row ∷ rows) = elim (gtt_by_id id rows) [
    | some last ↦ some last
    | none ↦ if has_id id row.id then some row else none
  ]

  -- the fill of the order that a triggered leg has placed
  abbrev filled_leg : Option String → List (OrderRow F) → Option F
  filled_leg none rows = none
  filled_leg (some id) rows = elim (order_by_id id rows) [
    | none ↦ none
    | some row ↦ positive (safe_float row.average_price)
  ]

  -- `_extract_triggered_avg_price`
  unfoldable pub triggered_avg_price : GttRow F → List (OrderRow F) → Option F
  triggered_avg_price gtt rows = elim gtt.order_result [
    | none ↦ none
    | some o ↦ or_else (filled_leg o.order_id rows) (positive (safe_float o.average_price))
  ]

  -- `_extract_exit_price`
  unfoldable pub exit_price_of : OrderRecord F → GttRow F → List (OrderRow F) → F
  exit_price_of r gtt rows = elim (triggered_avg_price gtt rows) [
    | some price ↦ price
    | none ↦
        if lt nought (safe_float gtt.triggered_at_price)
        then safe_float gtt.triggered_at_price
        else r.stop_loss
  ]

-- `_extract_trigger_id`
unfoldable pub trigger_id_of : GttResponse → Option ℤ
trigger_id_of response = elim response.trigger_id [ some n ↦ some n | none ↦ response.id ]
