-- ===== src/Tests/Data.antt =====
-- The data of the tests, in fixed-point prices.
use trader_ai.Prelude.{ℕ, suc, ◌+◌, ◌*◌, false, none, some, [], ◌∷◌, pos}
use trader_ai.Float.Fixed.{Fixed}
use trader_ai.Text.{codes}
use trader_ai.Clock.{Datetime, minute}
use trader_ai.Core.Signal.{Side, buy, Signal}
use trader_ai.Core.Instrument.{Instrument, equity, eq}
use trader_ai.Risk.Windows.{KillSwitch}
use trader_ai.Risk.Manager.{RiskConfig, RiskState, atr_based, equity as stock}
use trader_ai.Execution.Exceptions.{returned}
use trader_ai.Execution.Broker.{Ids}
use trader_ai.Execution.OrderState.{OrderRecord, pending_entry}
use trader_ai.Execution.OrderState.Store.{Store}
use trader_ai.Execution.Kite.Client.{Client}
use trader_ai.Execution.Kite.Monad.{Setup, Broker}

abbrev pub rupees : ℕ → Fixed
rupees n = pos (n * 10_000)

-- a quarter past ten on a Tuesday
abbrev pub morning : Datetime
morning = 1_440 * minute + 615 * minute

abbrev pub signal_at : Side → ℕ → ℕ → ℕ → Signal Fixed
signal_at side entry stop_loss target = record {
  symbol = "INFY";
  side = side;
  entry = rupees entry;
  stop_loss = rupees stop_loss;
  target = rupees target;
  qty = none;
  timeframe = "5m";
  strategy_id = "orb";
  reasons = [];
  indicator_snapshot = [];
  confidence = rupees 1;
  ts = morning;
}

abbrev pub long_signal : Signal Fixed
long_signal = signal_at buy 100 98 105

abbrev pub stock_of_25 : Instrument Fixed
stock_of_25 = record {
  symbol = "INFY";
  exchange = "NSE";
  segment = eq;
  instrument_type = equity;
  tick_size = pos 500;
  lot_size = 25;
  expiry = none;
  strike = none;
  option_type = none;
  underlying = none;
}

abbrev pub settings : RiskConfig Fixed
settings = record {
  max_loss_per_trade_pct = rupees 1;
  daily_loss_cap_pct = rupees 3;
  max_open_positions = 3;
  position_sizing = atr_based;
  fixed_position_pct = rupees 5;
  no_trade_windows = codes "09:15-09:20" ∷ codes "23:30-00:15" ∷ [];
  block_options_after = codes "14:30";
  max_premium_per_trade_pct = rupees 2;
}

abbrev pub account : RiskState Fixed
account = record {
  account_equity = rupees 100_000;
  daily_realized_pnl = pos 0;
  daily_unrealized_pnl = pos 0;
  open_positions = 1;
  is_expiry_day = false;
  instrument_type = stock;
}

abbrev pub no_kill : KillSwitch
no_kill = record { kill_file = false; kill_env = none }

abbrev pub ids : Ids
ids = record { isoformat = λ t. "T"; sha256 = λ s. s }

-- A client that accepts everything, fills every entry and counts the calls.
abbrev pub client : Client Fixed ℕ
client = record {
  place_order = λ request n. (returned "4711", suc n);
  place_gtt = λ request n. (returned (record { trigger_id = some (pos 99); id = none }), suc n);
  get_gtts = λ n. (returned [], suc n);
  delete_gtt = λ id n. (returned tt, suc n);
  orders = λ n. (
    returned (
        record {
          order_id = "4711";
          status = codes "COMPLETE";
          status_message = none;
          average_price = some (rupees 101);
        }
        ∷ []),
    suc n,
  );
  positions = λ n. (returned [], suc n);
  clock = λ n. (morning, n);
  sleep = λ d n. n;
  kill_switch = λ n. no_kill;
}

abbrev pub setup : Setup Fixed ℕ
setup = record { client = client; ids = ids; exchange = "NSE"; product = none }

abbrev pub broker_with : Store Fixed → Broker Fixed ℕ
broker_with s = record { state_store = some s; memory_ids = []; world = 0 }

abbrev pub pending_record : OrderRecord Fixed
pending_record = record {
  client_order_id = "tb-orb";
  symbol = "INFY";
  side = buy;
  qty = pos 10;
  entry_price = rupees 100;
  stop_loss = rupees 98;
  target = rupees 105;
  state = pending_entry;
  entry_order_id = some "4711";
  sl_gtt_id = none;
  target_gtt_id = none;
  fill_price = none;
  exit_price = none;
  pnl = none;
  signal_ts = morning;
  created_at = morning;
  updated_at = morning;
  strategy_id = "orb";
  error = none;
}

abbrev pub table : Store Fixed
table = ("tb-orb", pending_record) ∷ []
