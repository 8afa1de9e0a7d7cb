-- ===== src/Lib.antt =====
-- Verification library of the trading bot: an algorithmic trader for the Indian markets, in Python.
--
-- The loop (orchestrator/loop.py) takes each bar that the scheduler (orchestrator/scheduler.py)
-- lets through. A strategy makes a signal (core/signal.py) on an instrument (core/instrument.py).
-- The risk manager (risk/manager.py) checks it, sizes it and checks it again; a broker
-- (execution/broker.py) then places a bracket order. The paper broker (execution/paper.py) fills it
-- in memory. The Kite broker (execution/kite.py) sends a limit entry, stores a record
-- (execution/order_state.py), and is polled: a filled entry gets one two-leg GTT as its exit, a
-- triggered GTT ends the record. Every call of Kite but the one for the positions goes through the
-- retry wrapper (execution/retry.py).
--
-- Files and sources:
-- - Core.Signal: core/signal.py. `validated` is the constructor with its validators,
--   `with_tick_rounding` the snapping to the tick.
-- - Core.Instrument: core/instrument.py. `validated`, `nse_equity`, `nse_future`, `nse_option`,
--   `round_qty`.
-- - Clock, Text: the wall clock in IST, `_parse_hhmm`, and the methods of `str` that it uses.
-- - Risk.Windows: `parse_time_window`, `is_in_no_trade_window` and `is_kill_switch_active` of
--   risk/manager.py.
-- - Risk.Manager: `RiskManager.pre_check`, `size`, `post_check` and `_base_qty`, on `RiskConfig` of
--   config/settings.py.
-- - Execution.Exceptions: exceptions as values. Execution.Retry: `with_retry`.
-- - Execution.Broker: `Position`, `OrderResult` and `deterministic_client_order_id`.
-- - Execution.Paper: `PaperBroker`, all of its methods.
-- - Execution.OrderState: `OrderRecord` and its lifecycle; OrderState.Rows: the rows of the table,
--   with the times of a record as Python has them, aware or naive; OrderState.Store:
--   `OrderStateStore`, the table being a dict keyed by the client order id.
-- - Execution.Kite: `KiteBroker`. Client is the client's interface, Monad the methods as functions
--   that change the broker and the world and may raise, Payload the requests and the readings of
--   answers, Place `place_bracket_order`, Poll `poll_and_advance`, Flatten `get_positions` and
--   `flatten_all`.
-- - Execution.Reconciler: execution/reconciler.py. `str.strip` and `sorted` are parameters.
-- - Orchestrator.Scheduler: `MarketScheduler`. Orchestrator.Loop:
--   `OrchestratorLoop._process_signal` and `_apply_qty_cap`; the broker and the analyst are
--   functions on a state. Orchestrator.Bars: what `run` does to the paper broker at a bar.
-- - Backtest.Costs, Backtest.Engine: backtest/costs.py and the bar walk of backtest/engine.py;
--   Engine.Walks is the induction over its rounds.
-- - Analyst: `Analyst.analyze` and `_parse_verdict` of analyst/analyst.py, analyst/verdict.py;
--   Analyst.Parsing: analyst/_parsing.py. The loop takes the analyst as a function.
-- - Core.Bar: core/bar.py. Data.LiveFeed: `LiveKiteFeed.ingest_ticks` of data/live_feed.py with all
--   that it calls; LiveFeed.Tape has the abstract tape of prices that the bars are compared with,
--   and Tape.Observed says that the tapes are the runs of a symbol's ticks in one bucket.
-- - Screener: screener/evaluator.py, on the symbols in sorted order, and Screener.Schema: the
--   filters of screener/schema.py; the value of an indicator and what pandas computes, the rolling
--   mean and the timestamp in IST, are parameters.
-- - Tuner: tuner/schema.py, tuner/validate.py, tuner/apply.py and the `get` and `upsert` of
--   tuner/active.py; what `inspect.signature` finds of a registered strategy is a parameter.
-- - Float: Python's float. Prelude: shared names. Tests: concrete data and runs.
--
-- Parameters: the arithmetic of floats is a record of operations, and a theorem that relies on laws
-- of IEEE doubles names them (IsOrdered, IsMonotone, HasSigns, HasSums, HasTenths); Float.Fixed
-- runs and meets those laws. The Kite client, the clock, `sleep`, the kill switch, `isoformat`,
-- `date`, SHA-256, `datetime.fromtimestamp`, the model's provider, `json.loads`, `float` of a text,
-- `str.strip` and `sorted` are parameters with no laws but those that a theorem names. A Python int
-- is an integer without bounds.
--
-- Bounds: the retry wrapper is called with 3 retries and the flattening polls 10 times, as in the
-- code; both loops are structural recursion on those numbers, so no fuel is needed. From the
-- attempt 1024 on Python raises an OverflowError for the float of `2**attempt`, which the delay of
-- the model does not reproduce.
--
-- Not modelled: logging; the overflow of a date at the ends of the calendar; the opening and
-- closing of the database; pydantic's coercions; the messages of validation errors; the rest of
-- `run` of the loop, the journal, the metrics and reports of the backtest, the replay and the
-- candle store of the market data, the rest of the screener, the runs and the store of the tuner,
-- the prompts and providers of the analyst, the indicators, the strategies and the dashboard.
pub mod Prelude
pub mod Float
pub mod Text
pub mod Clock
pub mod Core
pub mod Risk
pub mod Execution
pub mod Orchestrator
pub mod Analyst
pub mod Backtest
pub mod Data
pub mod Tuner
pub mod Screener
pub mod Tests
