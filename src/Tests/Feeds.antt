-- ===== src/Tests/Feeds.antt =====
-- A live feed that takes two ticks.
use trader_ai.Prelude.{
  ℕ, zero, suc, ◌+◌, ◌*◌, ◌≡◌, refl, ◌⊎◌, none, some, List, [], ◌∷◌, true, String, get_elem?, arith,
}
use trader_ai.Prelude.Dict.{Dict, lookup}
use trader_ai.Float.Fixed.{Fixed, fixed_float, fixed-IsOrdered, fixed-HasSums}
use trader_ai.Clock.{Datetime, minute}
use trader_ai.Core.Bar.{Bar}
use trader_ai.Execution.Exceptions.{Outcome, returned, raised, Exn, value_error}
use trader_ai.Data.LiveFeed.{
  Tick, aware, LiveKiteFeed, timeframe_to_minutes, bucket_start, ingest_ticks,
}
use trader_ai.Data.LiveFeed.Buckets.{IsBucket, bucket_start-IsBucket}
use trader_ai.Data.LiveFeed.Candles.{IsNumeric}
use trader_ai.Data.LiveFeed.Bars.{Escapes, IsSoundFeed, ingest_ticks-IsSoundFeed}
use trader_ai.Data.LiveFeed.Tape.{Tape, TellsAll, Represents}
use trader_ai.Data.LiveFeed.Tape.Observed.{observations, tapes_of, Groups}
use trader_ai.Data.LiveFeed.Tape.Runs.{ingest_ticks-TellsAll}
use trader_ai.Tests.Data.{rupees, morning}

five_minutes : timeframe_to_minutes "5m" ≡ some 5
unfolding timeframe_to_minutes
five_minutes = refl

bucket_start-IsBucket_example :
    IsBucket 5 (morning + 7 * minute) (bucket_start (morning + 7 * minute) 5)
bucket_start-IsBucket_example = bucket_start-IsBucket "5m" 5 (morning + 7 * minute) five_minutes

abbrev tick : ℕ → ℕ → Tick Fixed
tick i price = record {
  instrument_token = some 408_065;
  timestamp = aware (morning + i * minute);
  last_price = some (rupees price);
  last_traded_quantity = some (rupees 2);
  volume = none;
}

abbrev ticks : List (Tick Fixed)
ticks = tick 1 100 ∷ tick 2 102 ∷ tick 6 99 ∷ []

abbrev feed : LiveKiteFeed Fixed
feed = record {
  symbol_map = λ token. some "INFY";
  bucket_minutes = 5;
  partials = [];
  completed = [];
  queued = [];
  running = true;
}

abbrev fromtimestamp : Fixed → Outcome Datetime
fromtimestamp x = raised (record { kind = value_error; message = "" })

ticks-IsNumeric : (i : ℕ) (t : Tick Fixed) → get_elem? ticks i ≡ some t → IsNumeric t
ticks-IsNumeric zero t h = ground (arith, h)
ticks-IsNumeric (suc zero) t h = ground (arith, h)
ticks-IsNumeric (suc (suc zero)) t h = ground (arith, h)
ticks-IsNumeric (suc (suc (suc i))) t h = ground (arith, h)

feed-IsSoundFeed : IsSoundFeed feed
unfolding lookup
feed-IsSoundFeed = record {
  open_bars = λ j p h. ground (arith, h);
  closed_bars = λ i c h. ground (arith, h);
}

ingest_ticks-IsSoundFeed_example :
    (((emitted : List (String × Bar Fixed)) × ((ingest_ticks fromtimestamp ticks feed).0
          ≡ returned emitted))
      ⊎ ((e : Exn) × ((ingest_ticks fromtimestamp ticks feed).0 ≡ raised e)
          × Escapes fromtimestamp ticks e))
    × IsSoundFeed (ingest_ticks fromtimestamp ticks feed).1
ingest_ticks-IsSoundFeed_example =
    ingest_ticks-IsSoundFeed fixed-IsOrdered fixed-HasSums fromtimestamp ticks feed ticks-IsNumeric
      feed-IsSoundFeed

nothing-Represents : Represents feed []
unfolding lookup
nothing-Represents j = tt

ingest_ticks-TellsAll_example :
    ((emitted : List (String × Bar Fixed)) × (closed : List (String × Tape Fixed)) × (left : Dict
        (Tape Fixed))
      × ((ingest_ticks fromtimestamp ticks feed).0 ≡ returned emitted)
      × TellsAll emitted closed
      × Represents (ingest_ticks fromtimestamp ticks feed).1 left
      × ((j : String)
          → Groups none
              (observations fromtimestamp feed.symbol_map 5 j ticks)
              (tapes_of j closed left)))
    ⊎ ((e : Exn) × ((ingest_ticks fromtimestamp ticks feed).0 ≡ raised e)
        × Escapes fromtimestamp ticks e)
unfolding lookup
ingest_ticks-TellsAll_example =
    ingest_ticks-TellsAll fixed-IsOrdered fixed-HasSums fromtimestamp ticks feed [] ticks-IsNumeric
      feed-IsSoundFeed nothing-Represents
