-- ===== src/Data/LiveFeed/Tape.antt =====
-- The live feed against an abstract tape: the prices of each symbol since its bucket began.
pub mod Observed
pub mod Grouping
pub mod Steps
pub mod Runs
use trader_ai.Prelude.{
  ℕ, ◌≡◌, refl, sym, ◌∙◌, ap, subst, Bool, true, false, Option, none, some, List, [], ◌∷◌, ◌++◌,
  if◌then◌else◌, if_both, ◌==◌, String, str_eq, arith, get_elem?,
}
use trader_ai.Prelude.Dict.{Dict, lookup, insert, lookup-insert}
use trader_ai.Float.{Float, nought, max_f, min_f, IsOrdered, HasSums}
use trader_ai.Clock.{Datetime}
use trader_ai.Core.Bar.{Bar, make_bar}
use trader_ai.Execution.Exceptions.{returned_injective, Outcome, returned, raised, Exn}
use trader_ai.Data.LiveFeed.{
  PartialBar, Tick, LiveKiteFeed, to_bar, bar_of, opened_bar, updated_bar, put_partial, complete,
  roll, aggregate, bucket_start, or_nought, coerce_tick_ts, take_tick, mapped_tick, handle_tick,
  symbol_of, emit, ingest_from, ingest_ticks, is_value_error,
}

-- the bucket, its first price and the later ones, in order
pub record Tape (F : Type 0) : Type 0 where
  pub bucket : Datetime
  pub first : F
  pub later : List F

module _ {F : Type 0} ⦃fl : Float F⦄ where
  open fl use {le}

  abbrev pub highest : F → List F → F
  highest h [] = h
  highest h (x ∷ xs) = highest (max_f h x) xs

  abbrev pub lowest : F → List F → F
  lowest l [] = l
  lowest l (x ∷ xs) = lowest (min_f l x) xs

  abbrev pub last_of : F → List F → F
  last_of c [] = c
  last_of c (x ∷ xs) = last_of x xs

  -- a candle that says what the tape holds: open, high, low and close
  abbrev pub Tells : Datetime → F → F → F → F → Tape F → Type 0
  Tells start o h l c t =
      (start ≡ t.bucket)
      × (o ≡ t.first)
      × (h ≡ highest t.first t.later)
      × (l ≡ lowest t.first t.later)
      × (c ≡ last_of t.first t.later)

  abbrev pub TellsPartial : Option (PartialBar F) → Option (Tape F) → Type 0
  TellsPartial none none = Unit
  TellsPartial (some p) (some t) = Tells p.start_ts p.open_price p.high p.low p.close t
  TellsPartial none (some t) = ⊥
  TellsPartial (some p) none = ⊥

  -- the tape of one tick, and of one more
  abbrev pub begin : Datetime → F → Tape F
  begin bucket x = record { bucket = bucket; first = x; later = [] }

  abbrev pub extend : F → Tape F → Tape F
  extend x t = record t { later = t.later ++ x ∷ [] }

  -- what a tick of a bucket makes of the tape of its symbol, and the tape that it closes
  abbrev pub tape_step : Datetime → F → Option (Tape F) → Option (Tape F) × Tape F
  tape_step bucket x none = (none, begin bucket x)
  tape_step bucket x (some t) =
      if bucket == t.bucket then (none, extend x t) else (some t, begin bucket x)

  -- a feed whose open bars say what the tapes hold
  abbrev pub Represents : LiveKiteFeed F → Dict (Tape F) → Type 0
  Represents feed tapes = (j : String) → TellsPartial (lookup j feed.partials) (lookup j tapes)

  -- an emitted bar that says what a closed tape held
  abbrev pub TellsClosed : Option (String × Bar F) → Option (String × Tape F) → Type 0
  TellsClosed none none = Unit
  TellsClosed (some (j, b)) (some (k, t)) =
      (j ≡ k) × Tells b.timestamp b.open_price b.high b.low b.close t
  TellsClosed none (some t) = ⊥
  TellsClosed (some c) none = ⊥

  abbrev pub TellsAll : List (String × Bar F) → List (String × Tape F) → Type 0
  TellsAll [] [] = Unit
  TellsAll (c ∷ cs) (t ∷ ts) = TellsClosed (some c) (some t) × TellsAll cs ts
  TellsAll [] (t ∷ ts) = ⊥
  TellsAll (c ∷ cs) [] = ⊥

  -- the symbol, the bucket and the price of a tick that counts: its token is mapped, its time can be
  -- read, and its price is not zero or less
  abbrev pub timed_price : String → ℕ → F → Outcome Datetime → Option (String × Datetime × F)
  timed_price symbol minutes price (raised e) = none
  timed_price symbol minutes price (returned ts) =
      if le price nought then none else some (symbol, bucket_start ts minutes, price)

  abbrev pub accepted :
      (F → Outcome Datetime) → Tick F → ℕ → Option String → Option (String × Datetime × F)
  accepted fromtimestamp tick minutes none = none
  accepted fromtimestamp tick minutes (some symbol) =
      timed_price symbol minutes (or_nought tick.last_price)
        (coerce_tick_ts fromtimestamp tick.timestamp)

  abbrev pub name_closed : String → Option (Tape F) → Option (String × Tape F)
  name_closed symbol none = none
  name_closed symbol (some t) = some (symbol, t)

  -- the tapes after a tick that counts, and the tape that it closes
  abbrev pub record_tick :
      Option (String × Datetime × F) → Dict (Tape F) → Option (String × Tape F) × Dict (Tape F)
  record_tick none tapes = (none, tapes)
  record_tick (some (symbol, bucket, x)) tapes =
      let (closed, t) = tape_step bucket x (lookup symbol tapes) in
      (name_closed symbol closed, insert symbol t tapes)

  abbrev pub add_closed : List (String × Tape F) → Option (String × Tape F) → List (String × Tape F)
  add_closed ts none = ts
  add_closed ts (some t) = ts ++ t ∷ []

  -- the tapes after ticks, and those that they close, in order
  abbrev pub record_ticks :
      (F → Outcome Datetime)
      → (ℕ → Option String)
      → ℕ
      → List (Tick F)
      → List (String × Tape F)
      → Dict (Tape F)
      → List (String × Tape F) × Dict (Tape F)
  record_ticks fromtimestamp symbols minutes [] closed tapes = (closed, tapes)
  record_ticks fromtimestamp symbols minutes (tick ∷ ticks) closed tapes =
      let (t, tapes') =
        record_tick (accepted fromtimestamp tick minutes (symbol_of symbols tick.instrument_token))
          tapes in
      record_ticks fromtimestamp symbols minutes ticks (add_closed closed t) tapes'
