-- ===== src/Backtest/Engine.antt =====
-- backtest/engine.py: `BacktestEngine.run`, on the bars of a frame that has been normalised.
pub mod Walks
pub mod Accounts
pub mod Trades
pub mod Prefix
use trader_ai.Prelude.{
  ℕ, zero, suc, ◌+◌, ◌-◌, Bool, true, false, Option, none, some, List, [], ◌∷◌, ◌++◌, length,
  if◌then◌else◌, ltb, ℤ, pos, ltb_ℤ, String, map,
}
use trader_ai.Float.{Float, nought}
use trader_ai.Clock.{Datetime}
use trader_ai.Core.Signal.{Side, buy, sell, Signal}
use trader_ai.Execution.Exceptions.{Outcome, returned, raised}
use trader_ai.Execution.Broker.{PositionSide, long, short, position_side}
use trader_ai.Backtest.Costs.{CostModel, entry_fill_price, exit_fill_price, commission}

-- a row of the frame
pub record Candle (F : Type 0) : Type 0 where
  pub timestamp : Datetime
  pub open_price : F
  pub high : F
  pub low : F
  pub close : F
  pub volume : F

-- the `exit_reason` of a trade
pub data TradeExit : Type 0 where
  at_stop at_target signal_reverse : TradeExit

pub record ClosedTrade (F : Type 0) : Type 0 where
  pub symbol : String
  pub side : PositionSide
  pub entry_price : F
  pub exit_price : F
  pub qty : ℤ
  pub entry_bar : ℕ
  pub exit_bar : ℕ
  pub pnl : F
  pub exit_reason : TradeExit
  pub fees : F

pub record EquityPoint (F : Type 0) : Type 0 where
  pub bar_index : ℕ
  pub timestamp : Datetime
  pub equity : F

pub record BacktestSummary (F : Type 0) : Type 0 where
  pub trade_count : ℕ
  pub winning_trades : ℕ
  pub losing_trades : ℕ
  pub total_pnl : F

pub record BacktestResult (F : Type 0) : Type 0 where
  pub closed_trades : List (ClosedTrade F)
  pub equity_curve : List (EquityPoint F)
  pub summary : BacktestSummary F

pub record OpenPosition (F : Type 0) : Type 0 where
  pub symbol : String
  pub side : PositionSide
  pub entry_price : F
  pub stop_loss : F
  pub target : F
  pub qty : ℤ
  pub entry_bar : ℕ

pub record PendingEntry (F : Type 0) : Type 0 where
  pub signal : Signal F
  pub signal_bar : ℕ

-- the local variables of `run`
pub record Walk (F : Type 0) : Type 0 where
  pub closed : List (ClosedTrade F)
  pub equity_curve : List (EquityPoint F)
  pub realized_pnl : F
  pub position : Option (OpenPosition F)
  pub pending : Option (PendingEntry F)

pub record BacktestEngine (F : Type 0) : Type 0 where
  pub default_qty : ℤ
  pub cost_model : CostModel F

abbrev pub qty_or : ℤ → Option ℤ → ℤ
qty_or default none = default
qty_or default (some n) = n

module _ {F : Type 0} ⦃fl : Float F⦄ where
  open fl use {of_int, add, sub, mul, lt, le}

  -- the constructor, with `none` for its ValueError
  unfoldable pub make_engine : ℤ → CostModel F → Option (BacktestEngine F)
  make_engine qty cost_model =
      if ltb_ℤ qty (pos 1)
      then none
      else some (record { default_qty = qty; cost_model = cost_model })

  abbrev pub gross : PositionSide → F → F → ℤ → F
  gross long entry exit qty = mul (sub exit entry) (of_int qty)
  gross short entry exit qty = mul (sub entry exit) (of_int qty)

  -- `_close_position`
  unfoldable pub close_position : CostModel F → OpenPosition F → F → ℕ → TradeExit → ClosedTrade F
  close_position cost p exit_price bar_index reason =
      let fill = exit_fill_price cost p.side exit_price in
      let fees = commission cost p.entry_price fill p.qty in
      record {
        symbol = p.symbol;
        side = p.side;
        entry_price = p.entry_price;
        exit_price = fill;
        qty = p.qty;
        entry_bar = p.entry_bar;
        exit_bar = bar_index;
        pnl = sub (gross p.side p.entry_price fill p.qty) fees;
        exit_reason = reason;
        fees = fees;
      }

  -- the position of a fill at the open of a bar
  unfoldable pub opened_at : BacktestEngine F → Signal F → F → ℕ → OpenPosition F
  opened_at engine signal open_price bar_index = record {
    symbol = signal.symbol;
    side = position_side signal.side;
    entry_price = entry_fill_price engine.cost_model (position_side signal.side) open_price;
    stop_loss = signal.stop_loss;
    target = signal.target;
    qty = qty_or engine.default_qty signal.qty;
    entry_bar = bar_index;
  }

  -- a trade that is booked
  abbrev pub book : ClosedTrade F → Walk F → Walk F
  book t w = record w { closed = w.closed ++ t ∷ []; realized_pnl = add w.realized_pnl t.pnl }

  -- the position that a new entry reverses
  abbrev pub reverse_open : BacktestEngine F → F → ℕ → Option (OpenPosition F) → Walk F → Walk F
  reverse_open engine open_price bar_index none w = w
  reverse_open engine open_price bar_index (some p) w =
      book (close_position engine.cost_model p open_price bar_index signal_reverse) w

  -- `_fill_pending`, with the booking of the trade that it closes
  unfoldable pub fill_pending : BacktestEngine F → PendingEntry F → F → ℕ → Walk F → Walk F
  fill_pending engine e open_price bar_index w =
      record (reverse_open engine open_price bar_index w.position w) {
        position = some (opened_at engine e.signal open_price bar_index);
        pending = none;
      }

  abbrev pub fill_due : BacktestEngine F → Option (PendingEntry F) → F → ℕ → Walk F → Walk F
  fill_due engine none open_price bar_index w = w
  fill_due engine (some e) open_price bar_index w =
      if ltb e.signal_bar bar_index then fill_pending engine e open_price bar_index w else w

  -- the level at which `_check_exit` leaves, the stop before the target
  unfoldable pub exit_level : PositionSide → F → F → F → F → Option (F × TradeExit)
  exit_level long stop goal high low =
      if le low stop
      then some (stop, at_stop)
      else if le goal high
      then some (goal, at_target)
      else none
  exit_level short stop goal high low =
      if le stop high
      then some (stop, at_stop)
      else if le low goal
      then some (goal, at_target)
      else none

  abbrev pub leave_at :
      BacktestEngine F → OpenPosition F → ℕ → Option (F × TradeExit) → Walk F → Walk F
  leave_at engine p bar_index none w = w
  leave_at engine p bar_index (some (price, reason)) w =
      record (book (close_position engine.cost_model p price bar_index reason) w) {
        position = none;
      }

  -- `_check_exit`, with the booking
  abbrev pub check_exit :
      BacktestEngine F → Candle F → ℕ → Option (OpenPosition F) → Walk F → Walk F
  check_exit engine row bar_index none w = w
  check_exit engine row bar_index (some p) w =
      leave_at engine p bar_index (exit_level p.side p.stop_loss p.target row.high row.low) w

  -- the fill and the exit of a bar
  unfoldable pub trade_bar : BacktestEngine F → Candle F → ℕ → Walk F → Walk F
  trade_bar engine row bar_index w =
      let filled = fill_due engine w.pending row.open_price bar_index w in
      check_exit engine row bar_index filled.position filled

  -- a strategy that raises gives no signals
  abbrev pub signals_of : Outcome (List (Signal F)) → List (Signal F)
  signals_of (returned ss) = ss
  signals_of (raised e) = []

  -- the first signal of a bar that is not the last
  abbrev pub take_signal : ℕ → ℕ → List (Signal F) → Walk F → Walk F
  take_signal total bar_index [] w = w
  take_signal total bar_index (s ∷ ss) w =
      if ltb (bar_index + 1) total
      then record w { pending = some (record { signal = s; signal_bar = bar_index }) }
      else w

  abbrev pub point_of : Candle F → ℕ → F → EquityPoint F
  point_of row bar_index equity = record {
    bar_index = bar_index;
    timestamp = row.timestamp;
    equity = equity;
  }

  unfoldable pub record_point : Candle F → ℕ → Walk F → Walk F
  record_point row bar_index w = record w {
    equity_curve = w.equity_curve ++ point_of row bar_index w.realized_pnl ∷ [];
  }

  -- the strategy sees the frame and the index of the bar, and keeps a state of its own
  module _ {S : Type 0} (on_bar : List (Candle F) → ℕ → S → Outcome (List (Signal F)) × S)
      (engine : BacktestEngine F) (frame : List (Candle F)) where
    -- one round of the loop
    unfoldable pub round : Candle F → ℕ → Walk F × S → Walk F × S
    round row bar_index (w, s) =
        let (answer, s') = on_bar frame bar_index s in
        (
          record_point row bar_index (
              take_signal (length frame) bar_index (signals_of answer)
                (trade_bar engine row bar_index w)),
          s',
        )

    unfoldable pub walk : List (Candle F) → ℕ → Walk F × S → Walk F × S
    walk [] bar_index x = x
    walk (row ∷ rows) bar_index x = walk rows (bar_index + 1) (round row bar_index x)

  abbrev pub start : Walk F
  start = record {
    closed = [];
    equity_curve = [];
    realized_pnl = nought;
    position = none;
    pending = none;
  }

  abbrev pub count_where : (ClosedTrade F → Bool) → List (ClosedTrade F) → ℕ
  count_where test [] = 0
  count_where test (t ∷ ts) = let rest = count_where test ts in if test t then rest + 1 else rest

  -- `_build_summary`; the builtin `sum` on floats is a parameter
  unfoldable pub build_summary : (List F → F) → List (ClosedTrade F) → BacktestSummary F
  build_summary sum ts = record {
    trade_count = length ts;
    winning_trades = count_where (λ t. lt nought t.pnl) ts;
    losing_trades = count_where (λ t. lt t.pnl nought) ts;
    total_pnl = sum (map (λ (t : ClosedTrade F). t.pnl) ts);
  }

  unfoldable pub run :
      {S : Type 0}
      → (List (Candle F) → ℕ → S → Outcome (List (Signal F)) × S)
      → S
      → BacktestEngine F
      → (List F → F)
      → List (Candle F)
      → BacktestResult F
  unfolding build_summary
  run on_bar s engine sum frame =
      let w = (walk on_bar engine frame frame 0 (start, s)).0 in
      record {
        closed_trades = w.closed;
        equity_curve = w.equity_curve;
        summary = build_summary sum w.closed;
      }
