-- ===== src/Execution/Broker.antt =====
-- execution/broker.py: the values that brokers exchange, and the client order id.
use Prim.Native.String.{slice, ◌++◌ as join}
use trader_ai.Prelude.{Option, ℤ, String}
use trader_ai.Clock.{Datetime}
use trader_ai.Core.Signal.{Side, buy, sell, Signal}

pub data OrderStatus : Type 0 where
  filled order_rejected pending : OrderStatus

pub data PositionSide : Type 0 where
  long short : PositionSide

pub record Position (F : Type 0) : Type 0 where
  pub symbol : String
  pub side : PositionSide
  pub qty : ℤ
  pub entry_price : F
  pub stop_loss : Option F
  pub target : Option F
  pub strategy_id : String
  pub opened_at : Datetime

-- the `message` of a result
pub data Message : Type 0 where
  no_message qty_too_small position_open paper_fill : Message
  kill_switch_active duplicate_client_order_id : Message
  broker_order_id : String → Message
  exception_text : String → Message

pub record OrderResult (F : Type 0) : Type 0 where
  pub client_order_id : String
  pub status : OrderStatus
  pub symbol : String
  pub side : Side
  pub qty : ℤ
  pub fill_price : F
  pub message : Message

-- What the id is made with: `datetime.isoformat`, and the hexadecimal digest of SHA-256.
pub record Ids : Type 0 where
  pub isoformat : Datetime → String
  pub sha256 : String → String

unfoldable pub payload : Ids → String → Datetime → String → String
payload ids strategy_id signal_ts symbol =
    join strategy_id (join "|" (join (ids.isoformat signal_ts) (join "|" symbol)))

-- `deterministic_client_order_id`
unfoldable pub client_order_id : Ids → String → Datetime → String → String
client_order_id ids strategy_id signal_ts symbol =
    join "tb-" (slice (ids.sha256 (payload ids strategy_id signal_ts symbol)) 0 16)

abbrev pub id_of : {F : Type 0} → Ids → Signal F → String
id_of ids s = client_order_id ids s.strategy_id s.ts s.symbol

-- `"LONG" if signal.side == "BUY" else "SHORT"`
abbrev pub position_side : Side → PositionSide
position_side buy = long
position_side sell = short
