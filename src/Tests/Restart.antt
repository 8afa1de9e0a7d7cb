-- ===== src/Tests/Restart.antt =====
-- A restart with one position and two records.
use trader_ai.Prelude.{◌≡◌, refl, none, List, [], ◌∷◌, true, pos}
use trader_ai.Float.Fixed.{Fixed}
use trader_ai.Execution.Broker.{Position, long}
use trader_ai.Execution.OrderState.{OrderRecord, entered}
use trader_ai.Execution.Reconciler.{has, detect_drift}
use trader_ai.Execution.Reconciler.Drift.{drifts, has-detect_drift}
use trader_ai.Tests.Data.{rupees, morning, pending_record}

abbrev held : Position Fixed
held = record {
  symbol = "INFY";
  side = long;
  qty = pos 10;
  entry_price = rupees 100;
  stop_loss = none;
  target = none;
  strategy_id = "kite";
  opened_at = morning;
}

abbrev records : List (OrderRecord Fixed)
records = record pending_record { state = entered } ∷ record pending_record { symbol = "TCS" } ∷ []

-- an entry that is still pending counts as drift
pending_drifts : drifts "TCS" (held ∷ []) [] records ≡ true
pending_drifts = refl

has-detect_drift_example :
    has "TCS" (detect_drift (λ ts. ts) (held ∷ []) [] records) ≡ drifts "TCS" (held ∷ []) [] records
has-detect_drift_example = has-detect_drift (λ ts. ts) (held ∷ []) [] records "TCS" (λ t ts. refl)
