-- ===== src/Execution/Paper.antt =====
-- execution/paper.py, `class PaperBroker`: simulated fills and the conservative exits of a bar.
pub mod Invariant
pub mod Effects
pub mod Exits
use trader_ai.Prelude.{
  Bool, true, false, Option, none, some, List, [], ◌∷◌, ◌++◌, if◌then◌else◌, ltb_ℤ, ℤ, pos, String,
}
use trader_ai.Prelude.Dict.{Dict, lookup, insert, erase, values}
use trader_ai.Float.{Float, nought}
use trader_ai.Core.Signal.{Side, buy, sell, Signal}
use trader_ai.Execution.Broker.{
  Position, PositionSide, long, short, OrderResult, OrderStatus, filled, order_rejected, Message,
  qty_too_small, position_open, paper_fill, Ids, id_of, position_side,
}

-- `slippage_bps` is the setting; the account is `PaperAccount`.
pub record PaperBroker (F : Type 0) : Type 0 where
  pub slippage_bps : F
  pub positions : Dict (Position F)
  pub equity : F
  pub realized_pnl : F
  pub orders : List (OrderResult F)

pub data ExitReason : Type 0 where
  stop_loss target : ExitReason

module _ {F : Type 0} ⦃fl : Float F⦄ where
  open fl use {of_int, decimal, add, sub, mul, div, lt, le}

  -- `PaperBroker()` on its settings
  unfoldable pub opened : F → F → PaperBroker F
  opened slippage_bps account_equity = record {
    slippage_bps = slippage_bps;
    positions = [];
    equity = account_equity;
    realized_pnl = nought;
    orders = [];
  }

  -- `_apply_slippage`
  unfoldable pub apply_slippage : F → F → Side → F
  apply_slippage slippage_bps price buy =
      mul price (add (of_int (pos 1)) (div slippage_bps (decimal 10_000 0)))
  apply_slippage slippage_bps price sell =
      mul price (sub (of_int (pos 1)) (div slippage_bps (decimal 10_000 0)))

  abbrev pub refused : Ids → Signal F → ℤ → Message → OrderResult F
  refused ids signal qty message = record {
    client_order_id = id_of ids signal;
    status = order_rejected;
    symbol = signal.symbol;
    side = signal.side;
    qty = qty;
    fill_price = nought;
    message = message;
  }

  abbrev pub fill_of : Ids → Signal F → ℤ → F → OrderResult F
  fill_of ids signal qty fill = record {
    client_order_id = id_of ids signal;
    status = filled;
    symbol = signal.symbol;
    side = signal.side;
    qty = qty;
    fill_price = fill;
    message = paper_fill;
  }

  abbrev pub position_of : Signal F → ℤ → F → Position F
  position_of signal qty fill = record {
    symbol = signal.symbol;
    side = position_side signal.side;
    qty = qty;
    entry_price = fill;
    stop_loss = some signal.stop_loss;
    target = some signal.target;
    strategy_id = signal.strategy_id;
    opened_at = signal.ts;
  }

  -- The rest of `place_bracket_order`, from the fill on. `none` is the ValidationError of a
  -- `Position` whose entry price is not above zero.
  unfoldable pub fill_entry :
      Ids → Signal F → ℤ → F → PaperBroker F → Option (OrderResult F × PaperBroker F)
  fill_entry ids signal qty fill b =
      if lt nought fill
      then some (
        fill_of ids signal qty fill,
        record b {
          positions = insert signal.symbol (position_of signal qty fill) b.positions;
          orders = b.orders ++ fill_of ids signal qty fill ∷ [];
        },
      )
      else none

  unfoldable pub place_bracket_order :
      Ids → Signal F → ℤ → PaperBroker F → Option (OrderResult F × PaperBroker F)
  place_bracket_order ids signal qty b =
      if ltb_ℤ qty (pos 1)
      then some (refused ids signal (pos 0) qty_too_small, b)
      else elim (lookup signal.symbol b.positions) [
        | some p ↦ some (refused ids signal qty position_open, b)
        | none ↦
            fill_entry ids signal qty (apply_slippage b.slippage_bps signal.entry signal.side) b
      ]

  unfoldable pub get_positions : PaperBroker F → List (Position F)
  get_positions b = values b.positions

  unfoldable pub flatten_all : PaperBroker F → PaperBroker F
  flatten_all b = record b { positions = [] }

  -- the profit of a position that leaves at a price
  abbrev pub pnl_at : PositionSide → F → F → ℤ → F
  pnl_at long entry price qty = mul (sub price entry) (of_int qty)
  pnl_at short entry price qty = mul (sub entry price) (of_int qty)

  unfoldable pub close_position : String → F → PaperBroker F → F × PaperBroker F
  close_position symbol exit_price b = elim (lookup symbol b.positions) [
    | none ↦ (nought, b)
    | some p ↦
        let pnl = pnl_at p.side p.entry_price exit_price p.qty in
        (
          pnl,
          record b {
            positions = erase symbol b.positions;
            realized_pnl = add b.realized_pnl pnl;
            equity = add b.equity pnl;
          },
        )
  ]

  mark_from : F → Dict F → Dict (Position F) → F
  mark_from total last_prices [] = total
  mark_from total last_prices ((symbol, p) ∷ ps) =
      mark_from
        (elim (lookup symbol last_prices) [
          | none ↦ total
          | some last ↦ add total (pnl_at p.side p.entry_price last p.qty)
        ])
        last_prices ps

  unfoldable pub mark_to_market : Dict F → PaperBroker F → F
  unfolding mark_from
  mark_to_market last_prices b = mark_from nought last_prices b.positions

  -- the stop before the target
  unfoldable pub exit_at : PositionSide → F → F → F → F → Option (F × ExitReason)
  exit_at long stop goal high low =
      if le low stop
      then some (stop, stop_loss)
      else if le goal high
      then some (goal, target)
      else none
  exit_at short stop goal high low =
      if le stop high
      then some (stop, stop_loss)
      else if le low goal
      then some (goal, target)
      else none

  -- a position with no bracket of its own is left alone
  abbrev pub bracket_exit : PositionSide → Option F → Option F → F → F → Option (F × ExitReason)
  bracket_exit side (some stop) (some goal) high low = exit_at side stop goal high low
  bracket_exit side _ _ high low = none

  unfoldable pub check_bar_exits : String → F → F → PaperBroker F → Option (F × ExitReason)
  check_bar_exits symbol high low b = elim (lookup symbol b.positions) [
    | none ↦ none
    | some p ↦ bracket_exit p.side p.stop_loss p.target high low
  ]
