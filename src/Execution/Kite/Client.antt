-- ===== src/Execution/Kite/Client.antt =====
-- The Kite client, a parameter: what its calls take and give back. A row of its answers keeps the
-- keys that the broker reads, `none` standing for a key that is missing, null or no number.
use trader_ai.Prelude.{Option, List, String, ℤ}
use trader_ai.Text.{Text}
use trader_ai.Clock.{Datetime}
use trader_ai.Risk.Windows.{KillSwitch}
use trader_ai.Execution.Exceptions.{Outcome}

pub data Transaction : Type 0 where
  buy_transaction sell_transaction : Transaction

pub data OrderType : Type 0 where
  limit market : OrderType

-- the keyword arguments of `place_order`; `variety` and `validity` are constants
pub record OrderRequest (F : Type 0) : Type 0 where
  pub exchange : String
  pub tradingsymbol : String
  pub transaction_type : Transaction
  pub quantity : ℤ
  pub product : String
  pub order_type : OrderType
  pub price : Option F
  pub tag : Option String

-- a leg of a GTT
pub record Leg (F : Type 0) : Type 0 where
  pub exchange : String
  pub tradingsymbol : String
  pub transaction_type : Transaction
  pub quantity : ℤ
  pub product : String
  pub order_type : OrderType
  pub price : F

-- the keyword arguments of `place_gtt`, of trigger type "two-leg": a pair for each list of two
pub record GttRequest (F : Type 0) : Type 0 where
  pub tradingsymbol : String
  pub exchange : String
  pub trigger_values : F × F
  pub last_price : F
  pub orders : Leg F × Leg F

-- the answer of `place_gtt`, its two keys as `int` reads them
pub record GttResponse : Type 0 where
  pub trigger_id : Option ℤ
  pub id : Option ℤ

-- a row of `orders()`
pub record OrderRow (F : Type 0) : Type 0 where
  pub order_id : String
  pub status : Text
  pub status_message : Option String
  pub average_price : Option F

pub record OrderOutcome (F : Type 0) : Type 0 where
  pub order_id : Option String
  pub average_price : Option F

-- a row of `get_gtts()`; `order_result` is `result["order_result"]`
pub record GttRow (F : Type 0) : Type 0 where
  pub id : Option ℤ
  pub status : Text
  pub order_result : Option (OrderOutcome F)
  pub triggered_at_price : Option F

-- a row of `positions()["net"]`
pub record NetRow (F : Type 0) : Type 0 where
  pub tradingsymbol : String
  pub quantity : ℤ
  pub average_price : F

-- The calls act on a world; so do the clock, `sleep` and the reading of the kill switch.
pub record Client (F W : Type 0) : Type 0 where
  pub place_order : OrderRequest F → W → Outcome String × W
  pub place_gtt : GttRequest F → W → Outcome GttResponse × W
  pub get_gtts : W → Outcome (List (GttRow F)) × W
  pub delete_gtt : ℤ → W → Outcome (Unit {0}) × W
  pub orders : W → Outcome (List (OrderRow F)) × W
  pub positions : W → Outcome (List (NetRow F)) × W
  pub clock : W → Datetime × W
  pub sleep : F → W → W
  pub kill_switch : W → KillSwitch
