-- ===== src/Execution/OrderState.antt =====
-- execution/order_state.py: the record of a bracket order, its life and its store. The table of the
-- database is a dict keyed by the client order id; its SQL statements are the functions on it.
pub mod Rows
pub mod Store
use trader_ai.Prelude.{
  Bool, true, false, ◌&&◌, Option, none, some, if◌then◌else◌, String, ℤ, pos, ltb_ℤ,
}
use trader_ai.Float.{Float, nought}
use trader_ai.Clock.{Datetime}
use trader_ai.Core.Signal.{Side}

pub data OrderState : Type 0 where
  pending_entry entered exited failed cancelled : OrderState

-- `state in OPEN_STATES`
abbrev pub is_open : OrderState → Bool
is_open pending_entry = true
is_open entered = true
is_open _ = false

-- `T` is the type of its times
pub record OrderRecordOf (F T : Type 0) : Type 0 where
  pub client_order_id : String
  pub symbol : String
  pub side : Side
  pub qty : ℤ
  pub entry_price : F
  pub stop_loss : F
  pub target : F
  pub state : OrderState
  pub entry_order_id : Option String
  pub sl_gtt_id : Option ℤ
  pub target_gtt_id : Option ℤ
  pub fill_price : Option F
  pub exit_price : Option F
  pub pnl : Option F
  pub signal_ts : T
  pub created_at : T
  pub updated_at : T
  pub strategy_id : String
  pub error : Option String

-- a record whose times are kept in IST, as the store gives it back
abbrev pub OrderRecord : Type 0 → Type 0
OrderRecord F = OrderRecordOf F Datetime

-- A step of a record's life, as the module's documentation draws it.
pub data Step : OrderState → OrderState → Type 0 where
  fills : Step pending_entry entered
  fails : Step pending_entry failed
  exits : Step entered exited
  cancels : Step entered cancelled

module _ {F : Type 0} ⦃fl : Float F⦄ where
  -- the constraints of the fields
  unfoldable pub record_ok : {T : Type 0} → OrderRecordOf F T → Bool
  record_ok r =
      ltb_ℤ (pos 0) r.qty
      && (fl.lt nought r.entry_price && (fl.lt nought r.stop_loss && fl.lt nought r.target))

  -- the constructor call `OrderRecord(...)`: `none` for a ValidationError
  unfoldable pub validated : {T : Type 0} → OrderRecordOf F T → Option (OrderRecordOf F T)
  unfolding record_ok
  validated r = if record_ok r then some r else none
