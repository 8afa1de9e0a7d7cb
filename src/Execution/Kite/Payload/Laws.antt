-- ===== src/Execution/Kite/Payload/Laws.antt =====
-- The promise of `_build_oco_gtt_payload`: ascending triggers, and legs that are aligned with them.
use trader_ai.Prelude.{◌≡◌, refl, true, String}
use trader_ai.Float.{Float, IsOrdered}
use trader_ai.Core.Signal.{Side, buy, sell}
use trader_ai.Core.Signal.Laws.{IsDirected}
use trader_ai.Execution.OrderState.{OrderRecord}
use trader_ai.Execution.Kite.Client.{
  Transaction, buy_transaction, sell_transaction, Leg, GttRequest,
}
use trader_ai.Execution.Kite.Payload.{build_oco_gtt_payload, payload_for}

-- the transaction that undoes an entry
abbrev pub undoes : Side → Transaction
undoes buy = sell_transaction
undoes sell = buy_transaction

module _ {F : Type 0} ⦃fl : Float F⦄ where
  -- A leg that takes the whole quantity of the record out of the market at its trigger.
  pub record IsExit (r : OrderRecord F) (leg : Leg F) (trigger : F) : Type 0 where
    pub same_symbol : leg.tradingsymbol ≡ r.symbol
    pub whole_quantity : leg.quantity ≡ r.qty
    pub reverses : leg.transaction_type ≡ undoes r.side
    pub at_trigger : leg.price ≡ trigger

  pub record IsOco (r : OrderRecord F) (fill_price : F) (g : GttRequest F) : Type 0 where
    pub ascending : fl.lt g.trigger_values.0 g.trigger_values.1 ≡ true
    pub lower_exit : IsExit r g.orders.0 g.trigger_values.0
    pub upper_exit : IsExit r g.orders.1 g.trigger_values.1
    pub last_price : g.last_price ≡ fill_price

  module _ (laws : IsOrdered fl) where
    ascending_of : (a b c : F) → fl.lt a b ≡ true → fl.lt b c ≡ true → fl.lt a c ≡ true
    ascending_of a b c h k = laws.lt_le_trans a b c h (laws.le_of_lt b c k)

    payload_for-IsOco :
        (side : Side) (r : OrderRecord F) (fill_price : F) (exchange product : String)
        → r.side ≡ side
        → IsDirected side r.entry_price r.stop_loss r.target
        → IsOco r fill_price (payload_for side r fill_price exchange product)
    payload_for-IsOco buy r fill_price exchange product e d = record {
      ascending = ascending_of r.stop_loss r.entry_price r.target d.0 d.1;
      lower_exit = record {
        same_symbol = refl;
        whole_quantity = refl;
        reverses = rw e refl;
        at_trigger = refl;
      };
      upper_exit = record {
        same_symbol = refl;
        whole_quantity = refl;
        reverses = rw e refl;
        at_trigger = refl;
      };
      last_price = refl;
    }
    payload_for-IsOco sell r fill_price exchange product e d = record {
      ascending = ascending_of r.target r.entry_price r.stop_loss d.0 d.1;
      lower_exit = record {
        same_symbol = refl;
        whole_quantity = refl;
        reverses = rw e refl;
        at_trigger = refl;
      };
      upper_exit = record {
        same_symbol = refl;
        whole_quantity = refl;
        reverses = rw e refl;
        at_trigger = refl;
      };
      last_price = refl;
    }

    -- Given the laws of order: if the prices of a record are in the order that its side demands, the
    -- payload has ascending triggers, the fill price as the last price, and for each trigger, in the
    -- same place, a leg at that price, for the symbol and the whole quantity of the record, in the
    -- transaction that undoes the entry.
    pub build_oco_gtt_payload-IsOco :
        (r : OrderRecord F) (fill_price : F) (exchange product : String)
        → IsDirected r.side r.entry_price r.stop_loss r.target
        → IsOco r fill_price (build_oco_gtt_payload r fill_price exchange product)
    unfolding build_oco_gtt_payload
    build_oco_gtt_payload-IsOco r fill_price exchange product d =
        payload_for-IsOco r.side r fill_price exchange product refl d
