-- ===== src/Orchestrator/Loop.antt =====
-- orchestrator/loop.py: the way of one signal through the risk manager and the analyst to the broker.
pub mod Laws
use trader_ai.Prelude.{
  ℕ, ◌+◌, Bool, true, false, Option, none, some, if◌then◌else◌, ℤ, pos, leb_ℤ, min_ℤ,
}
use trader_ai.Float.{Float}
use trader_ai.Core.Signal.{Signal}
use trader_ai.Core.Instrument.{Instrument}
use trader_ai.Risk.Windows.{KillSwitch}
use trader_ai.Risk.Manager.{
  RiskConfig, RiskState, RiskDecision, pre_check, size, post_check, floor_to_lot, lot_size_of,
}
use trader_ai.Execution.Exceptions.{value_error, Exn, Outcome, returned, raised}
use trader_ai.Execution.Broker.{OrderResult, OrderStatus, filled, order_rejected, pending}

pub record LoopStats : Type 0 where
  pub signals_seen : ℕ
  pub risk_rejected : ℕ
  pub analyst_vetoed : ℕ
  pub orders_placed : ℕ
  pub bar_exits : ℕ

pub record Verdict (F : Type 0) : Type 0 where
  pub vetoed : Bool
  pub size_multiplier : F

-- What the loop is built with. `B` is the state of the broker and the world, on which the broker, the
-- analyst and the kill switch are functions.
pub record OrchestratorLoop (F B : Type 0) : Type 0 where
  pub risk : RiskConfig F
  pub instrument : Option (Instrument F)
  pub override_qty : Option ℤ
  pub kill_switch : B → KillSwitch
  pub analyst : Option (Signal F → B → Outcome (Verdict F) × B)
  pub place_bracket_order : Signal F → ℤ → B → Outcome (OrderResult F) × B
  -- `len(self.broker.get_positions())`
  pub position_count : B → Outcome ℕ × B

-- what a run changes: the state of the risk manager and the counters
pub record Progress (F : Type 0) : Type 0 where
  pub state : RiskState F
  pub stats : LoopStats

module _ {F : Type 0} where
  abbrev pub count_rejected : Progress F → Progress F
  count_rejected p = record p {
    stats = record p.stats { risk_rejected = p.stats.risk_rejected + 1 };
  }

  abbrev pub count_vetoed : Progress F → Progress F
  count_vetoed p = record p {
    stats = record p.stats { analyst_vetoed = p.stats.analyst_vetoed + 1 };
  }

  abbrev pub count_placed : Progress F → ℕ → Progress F
  count_placed p n = record {
    state = record p.state { open_positions = n };
    stats = record p.stats { orders_placed = p.stats.orders_placed + 1 };
  }

abbrev pub fail : {A B : Type 0} → B → Outcome A × B
fail b = (raised (record { kind = value_error; message = "" }), b)

module _ {F B : Type 0} ⦃fl : Float F⦄ (loop : OrchestratorLoop F B) where
  open loop use {risk, instrument, override_qty, kill_switch, position_count}

  abbrev capped_at : ℤ → ℤ → ℤ
  capped_at qty cap =
      if leb_ℤ cap (pos 0) then pos 0 else floor_to_lot (min_ℤ qty cap) (lot_size_of instrument)

  -- `_apply_qty_cap`
  unfoldable pub apply_qty_cap : ℤ → ℤ
  apply_qty_cap qty = elim override_qty [ none ↦ qty | some cap ↦ capped_at qty cap ]

  abbrev pub after_count : Progress F → Outcome ℕ × B → Outcome (Progress F) × B
  after_count p (returned n, b) = (returned (count_placed p n), b)
  after_count p (raised e, b) = (raised e, b)

  abbrev pub after_order : Progress F → OrderStatus → B → Outcome (Progress F) × B
  after_order p filled b = after_count p (position_count b)
  after_order p order_rejected b = (returned p, b)
  after_order p pending b = (returned p, b)

  abbrev pub answered : Progress F → Outcome (OrderResult F) × B → Outcome (Progress F) × B
  answered p (returned order, b) = after_order p order.status b
  answered p (raised e, b) = (raised e, b)

  unfoldable pub send : Signal F → Progress F → ℤ → B → Outcome (Progress F) × B
  send signal p qty b =
      if leb_ℤ (apply_qty_cap qty) (pos 0)
      then (returned (count_rejected p), b)
      else answered p (loop.place_bracket_order signal (apply_qty_cap qty) b)

  abbrev pub after_post :
      Signal F → Progress F → ℤ → B → Option RiskDecision → Outcome (Progress F) × B
  after_post signal p qty b none = fail b
  after_post signal p qty b (some decision) =
      if decision.approved then send signal p qty b else (returned (count_rejected p), b)

  abbrev pub after_size : Signal F → Progress F → B → Option ℤ → Outcome (Progress F) × B
  after_size signal p b none = fail b
  after_size signal p b (some qty) =
      after_post signal p qty b (post_check risk signal p.state qty instrument)

  unfoldable pub sized_order : Signal F → Progress F → F → B → Outcome (Progress F) × B
  sized_order signal p multiplier b =
      after_size signal p b (size risk signal p.state instrument multiplier)

  abbrev pub after_verdict :
      Signal F → Progress F → Outcome (Verdict F) × B → Outcome (Progress F) × B
  after_verdict signal p (raised e, b) = (raised e, b)
  after_verdict signal p (returned verdict, b) =
      if verdict.vetoed
      then (returned (count_vetoed p), b)
      else sized_order signal p verdict.size_multiplier b

  abbrev pub ask :
      Signal F
      → Progress F
      → Option (Signal F → B → Outcome (Verdict F) × B)
      → B
      → Outcome (Progress F) × B
  ask signal p none b = sized_order signal p (fl.of_int (pos 1)) b
  ask signal p (some analyze) b = after_verdict signal p (analyze signal b)

  abbrev pub after_pre : Signal F → Progress F → B → Option RiskDecision → Outcome (Progress F) × B
  after_pre signal p b none = fail b
  after_pre signal p b (some decision) =
      if decision.approved then ask signal p loop.analyst b else (returned (count_rejected p), b)

  -- `_process_signal`
  unfoldable pub process_signal : Signal F → Progress F → B → Outcome (Progress F) × B
  process_signal signal p b = after_pre signal p b (pre_check risk (kill_switch b) signal p.state)
