-- ===== src/Orchestrator/Bars.antt =====
-- orchestrator/loop.py, `run`: what a bar does to the paper broker before the strategy sees it.
pub mod Laws
use trader_ai.Prelude.{ℕ, ◌+◌, Option, none, some, List, [], ◌∷◌, String}
use trader_ai.Prelude.Dict.{Dict, insert, size}
use trader_ai.Float.{Float}
use trader_ai.Risk.Manager.{RiskState}
use trader_ai.Execution.Broker.{Position}
use trader_ai.Execution.Paper.{
  PaperBroker, ExitReason, get_positions, close_position, mark_to_market, check_bar_exits,
}
use trader_ai.Orchestrator.Loop.{Progress, LoopStats}

pub record Bar (F : Type 0) : Type 0 where
  pub high : F
  pub low : F
  pub close : F

pub record PaperRun (F : Type 0) : Type 0 where
  pub progress : Progress F
  pub broker : PaperBroker F
  pub last_prices : Dict F

-- `len` of a list
abbrev pub count : {A : Type 0} → List A → ℕ
count [] = 0
count (a ∷ rest) = count rest + 1

module _ {F : Type 0} ⦃fl : Float F⦄ where
  abbrev pub count_exit : Progress F → F → ℕ → Progress F
  count_exit p pnl n = record {
    state = record p.state {
      daily_realized_pnl = fl.add p.state.daily_realized_pnl pnl;
      open_positions = n;
    };
    stats = record p.stats { bar_exits = p.stats.bar_exits + 1 };
  }

  abbrev pub leave : String → F → PaperRun F → PaperRun F
  leave symbol price r =
      let (pnl, b) = close_position symbol price r.broker in
      record r { progress = count_exit r.progress pnl (count (get_positions b)); broker = b }

  abbrev pub leave_at : String → Option (F × ExitReason) → PaperRun F → PaperRun F
  leave_at symbol none r = r
  leave_at symbol (some (price, reason)) r = leave symbol price r

  -- one round of the loop over the positions
  unfoldable pub exit_position : Bar F → Position F → PaperRun F → PaperRun F
  exit_position bar p r =
      let r' = leave_at p.symbol (check_bar_exits p.symbol bar.high bar.low r.broker) r in
      record r' { last_prices = insert p.symbol bar.close r'.last_prices }

  unfoldable pub exit_positions : Bar F → List (Position F) → PaperRun F → PaperRun F
  exit_positions bar [] r = r
  exit_positions bar (p ∷ ps) r = exit_positions bar ps (exit_position bar p r)

  abbrev pub marked : String → Bar F → PaperRun F → PaperRun F
  marked symbol bar r =
      let prices = insert symbol bar.close r.last_prices in
      record r {
        last_prices = prices;
        progress = record r.progress {
          state = record r.progress.state { daily_unrealized_pnl = mark_to_market prices r.broker };
        };
      }

  -- the exits of a bar, and the marking to market
  unfoldable pub apply_bar : String → Bar F → PaperRun F → PaperRun F
  apply_bar symbol bar r = marked symbol bar (exit_positions bar (get_positions r.broker) r)
