-- ===== src/Data/LiveFeed.antt =====
-- data/live_feed.py: the aggregation of ticks into bars by `LiveKiteFeed`.
pub mod Buckets
pub mod Candles
pub mod Bars
pub mod Tape
use trader_ai.Prelude.{
  ℕ, ◌+◌, ◌*◌, ◌/◌, ◌%◌, ◌==◌, Bool, true, false, Option, none, some, List, [], ◌∷◌, ◌++◌,
  if◌then◌else◌, String, str_eq,
}
use trader_ai.Prelude.Dict.{Dict, lookup, insert}
use trader_ai.Float.{Float, nought, max_f, min_f, eq_f}
use trader_ai.Clock.{Datetime, minute}
use trader_ai.Core.Bar.{Bar, make_bar}
use trader_ai.Execution.Exceptions.{Outcome, returned, raised, Exn, Kind, value_error}

pub record PartialBar (F : Type 0) : Type 0 where
  pub start_ts : Datetime
  pub end_ts : Datetime
  pub open_price : F
  pub high : F
  pub low : F
  pub close : F
  pub volume : F

-- the `timestamp` of a tick: a datetime with or without a zone, epoch seconds, or another value
pub data TickTime (F : Type 0) : Type 0 where
  aware : Datetime → TickTime F
  naive : Datetime → TickTime F
  epoch : F → TickTime F
  unsupported : TickTime F

-- a tick; `none` is a key that is missing, or a token that is no int
pub record Tick (F : Type 0) : Type 0 where
  pub instrument_token : Option ℕ
  pub timestamp : TickTime F
  pub last_price : Option F
  pub last_traded_quantity : Option F
  pub volume : Option F

-- `queued` is what `_enqueue` hands to the consumer while the event loop runs.
pub record LiveKiteFeed (F : Type 0) : Type 0 where
  pub symbol_map : ℕ → Option String
  pub bucket_minutes : ℕ
  pub partials : Dict (PartialBar F)
  pub completed : List (String × Bar F)
  pub queued : List (String × Bar F)
  pub running : Bool

-- `_timeframe_to_minutes`
unfoldable pub timeframe_to_minutes : String → Option ℕ
timeframe_to_minutes timeframe =
    if str_eq timeframe "1m"
    then some 1
    else if str_eq timeframe "5m"
    then some 5
    else if str_eq timeframe "15m"
    then some 15
    else none

abbrev hour : ℕ
hour = 60 * minute

-- `_bucket_start`: the minute is floored, the second and the microsecond are zero
unfoldable pub bucket_start : Datetime → ℕ → Datetime
bucket_start ts minutes = ts / hour * hour + ts % hour / minute / minutes * minutes * minute

-- `self._symbol_map.get(token)`, for a token that is an int
abbrev pub symbol_of : (ℕ → Option String) → Option ℕ → Option String
symbol_of symbols none = none
symbol_of symbols (some token) = symbols token

abbrev pub is_value_error : Kind → Bool
is_value_error value_error = true
is_value_error _ = false

module _ {F : Type 0} ⦃fl : Float F⦄ where
  open fl use {add, lt, le}

  abbrev pub bar_of : PartialBar F → Bar F
  bar_of p = record {
    timestamp = p.start_ts;
    open_price = p.open_price;
    high = p.high;
    low = p.low;
    close = p.close;
    volume = p.volume;
  }

  unfoldable pub to_bar : PartialBar F → Outcome (Bar F)
  unfolding make_bar
  to_bar p = make_bar (bar_of p)

  -- `_coerce_tick_ts`; `datetime.fromtimestamp` is a parameter, which may raise any exception: a
  -- ValueError, but also an OverflowError or an OSError where the platform's range is exceeded
  unfoldable pub coerce_tick_ts : (F → Outcome Datetime) → TickTime F → Outcome Datetime
  coerce_tick_ts fromtimestamp (aware ts) = returned ts
  coerce_tick_ts fromtimestamp (naive ts) = returned ts
  coerce_tick_ts fromtimestamp (epoch x) = fromtimestamp x
  coerce_tick_ts fromtimestamp unsupported = raised (record { kind = value_error; message = "" })

  abbrev pub or_nought : Option F → F
  or_nought none = nought
  or_nought (some x) = x

  -- `float(cumulative_volume or 0.0)`
  abbrev pub cumulative : Option F → F
  cumulative none = nought
  cumulative (some x) = if eq_f x nought then nought else x

  -- the bar that a tick opens
  unfoldable pub opened_bar : Datetime → ℕ → F → Tick F → PartialBar F
  opened_bar bucket minutes last_price tick =
      let delta = or_nought tick.last_traded_quantity in
      record {
        start_ts = bucket;
        end_ts = bucket + minutes * minute;
        open_price = last_price;
        high = last_price;
        low = last_price;
        close = last_price;
        volume = if lt nought delta then delta else cumulative tick.volume;
      }

  abbrev pub keep_volume : F → Option F → F
  keep_volume volume none = volume
  keep_volume volume (some x) = x

  -- the bar that a tick of its bucket updates
  unfoldable pub updated_bar : F → Tick F → PartialBar F → PartialBar F
  updated_bar last_price tick p =
      let delta = or_nought tick.last_traded_quantity in
      record p {
        high = max_f p.high last_price;
        low = min_f p.low last_price;
        close = last_price;
        volume = if lt nought delta then add p.volume delta else keep_volume p.volume tick.volume;
      }

  abbrev pub put_partial : String → PartialBar F → LiveKiteFeed F → LiveKiteFeed F
  put_partial symbol p feed = record feed { partials = insert symbol p feed.partials }

  -- a closed bar, with `_enqueue`
  abbrev pub complete : String × Bar F → LiveKiteFeed F → LiveKiteFeed F
  complete closed feed = record feed {
    completed = feed.completed ++ closed ∷ [];
    queued = if feed.running then feed.queued ++ closed ∷ [] else feed.queued;
  }

  -- a tick of another bucket
  abbrev pub roll :
      String
      → PartialBar F
      → Outcome (Bar F)
      → LiveKiteFeed F
      → Outcome (Option (String × Bar F)) × LiveKiteFeed F
  roll symbol opened (raised e) feed = (raised e, feed)
  roll symbol opened (returned bar) feed =
      (returned (some (symbol, bar)), put_partial symbol opened (complete (symbol, bar) feed))

  abbrev pub aggregate :
      String
      → Datetime
      → F
      → Tick F
      → Option (PartialBar F)
      → LiveKiteFeed F
      → Outcome (Option (String × Bar F)) × LiveKiteFeed F
  aggregate symbol bucket last_price tick none feed = (
    returned none,
    put_partial symbol (opened_bar bucket feed.bucket_minutes last_price tick) feed,
  )
  aggregate symbol bucket last_price tick (some p) feed =
      if bucket == p.start_ts
      then (returned none, put_partial symbol (updated_bar last_price tick p) feed)
      else roll symbol (opened_bar bucket feed.bucket_minutes last_price tick) (to_bar p) feed

  abbrev pub take_tick :
      String
      → Tick F
      → Outcome Datetime
      → LiveKiteFeed F
      → Outcome (Option (String × Bar F)) × LiveKiteFeed F
  take_tick symbol tick (raised e) feed =
      if is_value_error e.kind then (returned none, feed) else (raised e, feed)
  take_tick symbol tick (returned ts) feed =
      let last_price = or_nought tick.last_price in
      if le last_price nought
      then (returned none, feed)
      else aggregate symbol (bucket_start ts feed.bucket_minutes) last_price tick
          (lookup symbol feed.partials) feed

  -- a tick of the symbol that its token maps to, if any
  abbrev pub mapped_tick :
      (F → Outcome Datetime)
      → Tick F
      → Option String
      → LiveKiteFeed F
      → Outcome (Option (String × Bar F)) × LiveKiteFeed F
  mapped_tick fromtimestamp tick none feed = (returned none, feed)
  mapped_tick fromtimestamp tick (some symbol) feed =
      take_tick symbol tick (coerce_tick_ts fromtimestamp tick.timestamp) feed

  unfoldable pub handle_tick :
      (F → Outcome Datetime)
      → Tick F
      → LiveKiteFeed F
      → Outcome (Option (String × Bar F)) × LiveKiteFeed F
  handle_tick fromtimestamp tick feed =
      mapped_tick fromtimestamp tick (symbol_of feed.symbol_map tick.instrument_token) feed

  abbrev pub emit : List (String × Bar F) → Option (String × Bar F) → List (String × Bar F)
  emit emitted none = emitted
  emit emitted (some closed) = emitted ++ closed ∷ []

  -- the loop of `ingest_ticks`; an exception leaves it with the feed as it is
  unfoldable pub ingest_from :
      (F → Outcome Datetime)
      → List (String × Bar F)
      → List (Tick F)
      → LiveKiteFeed F
      → Outcome (List (String × Bar F)) × LiveKiteFeed F
  ingest_from fromtimestamp emitted [] feed = (returned emitted, feed)
  ingest_from fromtimestamp emitted (tick ∷ ticks) feed =
      let (answer, feed') = handle_tick fromtimestamp tick feed in
      elim answer [
        | raised e ↦ (raised e, feed')
        | returned closed ↦ ingest_from fromtimestamp (emit emitted closed) ticks feed'
      ]

  unfoldable pub ingest_ticks :
      (F → Outcome Datetime)
      → List (Tick F)
      → LiveKiteFeed F
      → Outcome (List (String × Bar F)) × LiveKiteFeed F
  ingest_ticks fromtimestamp ticks feed = ingest_from fromtimestamp [] ticks feed
