-- ===== src/Execution/OrderState/Rows.antt =====
-- The rows of the table: writing a record into a row and reading it back.
use trader_ai.Prelude.{
  Bool, true, Option, none, some, List, [], ◌∷◌, ◌≡◌, refl, if◌then◌else◌, String, str_eq, ℤ, pos,
}
use trader_ai.Prelude.Options.{◌>>=◌}
use trader_ai.Float.{Float}
use trader_ai.Clock.{Datetime}
use trader_ai.Core.Signal.{Side, buy, sell}
use trader_ai.Execution.OrderState.{
  OrderState, pending_entry, entered, exited, failed, cancelled, OrderRecordOf, validated,
  record_ok,
}

-- A `datetime`: `naive` with its wall clock, or `aware`, an instant, which is given by its wall clock
-- in IST, with the offset of its zone in minutes.
pub data Stamp : Type 0 where
  naive : Datetime → Stamp
  aware : Datetime → ℤ → Stamp

abbrev pub ist_offset : ℤ
ist_offset = pos 330

-- `_to_ist`: `replace(tzinfo=IST)` takes the wall clock as it stands, `astimezone(IST)` keeps the
-- instant
unfoldable pub to_ist : Stamp → Stamp
to_ist (naive wall) = aware wall ist_offset
to_ist (aware instant offset) = aware instant ist_offset

-- the wall clock in IST of an instant, and of a `datetime` without a zone, which is taken for IST
abbrev pub ist_wall : Stamp → Datetime
ist_wall (naive wall) = wall
ist_wall (aware instant offset) = instant

to_ist-aware : (t : Stamp) → to_ist t ≡ aware (ist_wall t) ist_offset
unfolding to_ist
to_ist-aware (naive wall) = refl
to_ist-aware (aware instant offset) = refl

-- A value of a column.
pub data Value (F : Type 0) : Type 0 where
  null : Value F
  text : String → Value F
  int : ℤ → Value F
  float : F → Value F
  bool : Bool → Value F
  time : Stamp → Value F

abbrev pub side_value : Side → String
side_value buy = "BUY"
side_value sell = "SELL"

abbrev pub state_value : OrderState → String
state_value pending_entry = "PENDING_ENTRY"
state_value entered = "ENTERED"
state_value exited = "EXITED"
state_value failed = "FAILED"
state_value cancelled = "CANCELLED"

-- `OrderState(text)`, with `none` for its ValueError
unfoldable pub state_of : String → Option OrderState
state_of s =
    if str_eq s "PENDING_ENTRY"
    then some pending_entry
    else if str_eq s "ENTERED"
    then some entered
    else if str_eq s "EXITED"
    then some exited
    else if str_eq s "FAILED"
    then some failed
    else if str_eq s "CANCELLED"
    then some cancelled
    else none

side_back : (s : Side) → (if str_eq (side_value s) "BUY" then buy else sell) ≡ s
side_back buy = refl
side_back sell = refl

state_back : (s : OrderState) → state_of (state_value s) ≡ some s
unfolding state_of
state_back pending_entry = refl
state_back entered = refl
state_back exited = refl
state_back failed = refl
state_back cancelled = refl

module _ {F : Type 0} ⦃fl : Float F⦄ where
  abbrev pub opt : {A : Type 0} → (A → Value F) → Option A → Value F
  opt f none = null
  opt f (some a) = f a

  -- `_record_to_row`
  unfoldable pub record_to_row : OrderRecordOf F Stamp → List (Value F)
  unfolding to_ist
  record_to_row r =
      text r.client_order_id
      ∷ text r.symbol
      ∷ text (side_value r.side)
      ∷ int r.qty
      ∷ float r.entry_price
      ∷ float r.stop_loss
      ∷ float r.target
      ∷ text (state_value r.state)
      ∷ opt text r.entry_order_id
      ∷ opt int r.sl_gtt_id
      ∷ opt int r.target_gtt_id
      ∷ opt float r.fill_price
      ∷ opt float r.exit_price
      ∷ opt float r.pnl
      ∷ time (to_ist r.signal_ts)
      ∷ time (to_ist r.created_at)
      ∷ time (to_ist r.updated_at)
      ∷ text r.strategy_id
      ∷ opt text r.error
      ∷ []

  -- `_as_int`, `_as_float` and `_as_ist_datetime`: `none` for a TypeError, and for the exception of
  -- `int` at NaN and the infinities
  unfoldable pub as_int : Value F → Option ℤ
  as_int (int n) = some n
  as_int (bool b) = some (if b then pos 1 else pos 0)
  as_int (float x) = fl.trunc x
  as_int _ = none

  unfoldable pub as_float : Value F → Option F
  as_float (float x) = some x
  as_float (int n) = some (fl.of_int n)
  as_float (bool b) = some (fl.of_int (if b then pos 1 else pos 0))
  as_float _ = none

  unfoldable pub as_ist_datetime : Value F → Option Stamp
  unfolding to_ist
  as_ist_datetime (time t) = some (to_ist t)
  as_ist_datetime _ = none

  unfoldable pub opt_int : Value F → Option (Option ℤ)
  unfolding as_int
  opt_int null = some none
  opt_int v = do n ← as_int v; some (some n)

  unfoldable pub opt_float : Value F → Option (Option F)
  unfolding as_float
  opt_float null = some none
  opt_float v = do x ← as_float v; some (some x)

  -- `str` of a value that is no text is Python's, a parameter
  module _ (show : Value F → String) where
    unfoldable pub py_str : Value F → String
    py_str (text s) = s
    py_str v = show v

    unfoldable pub opt_str : Value F → Option String
    unfolding py_str
    opt_str null = none
    opt_str v = some (py_str v)

    -- `_row_to_record`: `none` where it raises
    unfoldable pub row_to_record : List (Value F) → Option (OrderRecordOf F Stamp)
    unfolding validated
    row_to_record
          (c0 ∷ c1 ∷ c2 ∷ c3 ∷ c4 ∷ c5 ∷ c6 ∷ c7 ∷ c8 ∷ c9 ∷ c10 ∷ c11 ∷ c12 ∷ c13 ∷ c14 ∷ c15 ∷ c16
            ∷ c17 ∷ c18 ∷ []) =
        do
          qty ← as_int c3
          entry_price ← as_float c4
          stop_loss ← as_float c5
          target ← as_float c6
          state ← state_of (py_str c7)
          sl_gtt_id ← opt_int c9
          target_gtt_id ← opt_int c10
          fill_price ← opt_float c11
          exit_price ← opt_float c12
          pnl ← opt_float c13
          signal_ts ← as_ist_datetime c14
          created_at ← as_ist_datetime c15
          updated_at ← as_ist_datetime c16
          validated (record {
            client_order_id = py_str c0;
            symbol = py_str c1;
            side = if str_eq (py_str c2) "BUY" then buy else sell;
            qty = qty;
            entry_price = entry_price;
            stop_loss = stop_loss;
            target = target;
            state = state;
            entry_order_id = opt_str c8;
            sl_gtt_id = sl_gtt_id;
            target_gtt_id = target_gtt_id;
            fill_price = fill_price;
            exit_price = exit_price;
            pnl = pnl;
            signal_ts = signal_ts;
            created_at = created_at;
            updated_at = updated_at;
            strategy_id = py_str c17;
            error = opt_str c18;
          })
    row_to_record _ = none

  opt_float-opt : (o : Option F) → opt_float (opt float o) ≡ some o
  unfolding opt_float
  opt_float-opt none = refl
  opt_float-opt (some n) = refl

  opt_str-opt : (show : Value F → String) (o : Option String) → opt_str show (opt text o) ≡ o
  unfolding opt_str
  opt_str-opt show none = refl
  opt_str-opt show (some s) = refl

  opt_int-opt : (_ : F) (o : Option ℤ) → opt_int (opt int o) ≡ some o
  unfolding opt_int
  opt_int-opt _ none = refl
  opt_int-opt _ (some n) = refl

  -- A record whose quantity and three prices are above zero is read back from its row with every field unchanged but its three times, which come back in IST: an aware one is the same instant, and one without a zone is its wall clock, taken for IST.
  pub row_to_record-record_to_row :
      (show : Value F → String) (r : OrderRecordOf F Stamp)
      → record_ok r ≡ true
      → row_to_record show (record_to_row r)
        ≡ some (record r {
          signal_ts = aware (ist_wall r.signal_ts) ist_offset;
          created_at = aware (ist_wall r.created_at) ist_offset;
          updated_at = aware (ist_wall r.updated_at) ist_offset;
        })
  unfolding row_to_record record_to_row py_str as_int as_float as_ist_datetime
  row_to_record-record_to_row show r h = simp (
    to_ist-aware,
    state_back,
    side_back,
    opt_int-opt r.entry_price,
    opt_float-opt,
    opt_str-opt,
    h,
  )
