-- ===== src/Data/LiveFeed/Tape/Runs.antt =====
-- Ticks in sequence against the tapes.
use trader_ai.Prelude.{
  ℕ, ◌≡◌, refl, subst, ◌⊎◌, inl, inr, Option, none, some, List, [], ◌∷◌, if_both, ◌==◌, String,
  arith, get_elem?,
}
use trader_ai.Prelude.Dict.{Dict, lookup}
use trader_ai.Float.{Float, nought, IsOrdered, HasSums}
use trader_ai.Clock.{Datetime}
use trader_ai.Core.Bar.{Bar}
use trader_ai.Execution.Exceptions.{returned_injective, Outcome, returned, raised, Exn}
use trader_ai.Data.LiveFeed.Candles.{IsNumeric}
use trader_ai.Data.LiveFeed.Bars.{Escapes, IsSoundFeed, ingest_ticks-IsSoundFeed}
use trader_ai.Data.LiveFeed.{
  PartialBar, Tick, LiveKiteFeed, to_bar, roll, aggregate, bucket_start, or_nought, coerce_tick_ts,
  take_tick, mapped_tick, handle_tick, symbol_of, emit, ingest_from, ingest_ticks, is_value_error,
}
use trader_ai.Data.LiveFeed.Tape.{
  Tape, Represents, TellsClosed, TellsAll, accepted, record_tick, add_closed, record_ticks,
}
use trader_ai.Data.LiveFeed.Tape.Observed.{observations, tapes_of, Groups}
use trader_ai.Data.LiveFeed.Tape.Grouping.{record_ticks_runs}
use trader_ai.Data.LiveFeed.Tape.Steps.{Refined, mapped_tick-Refined}

module _ {F : Type 0} ⦃fl : Float F⦄ where
  open fl use {le}

  abbrev pub Configured : (ℕ → Option String) → ℕ → LiveKiteFeed F → Type 0
  Configured symbols minutes feed = (feed.symbol_map ≡ symbols) × (feed.bucket_minutes ≡ minutes)

  mapped_tick-Configured :
      (fromtimestamp : F → Outcome Datetime) (tick : Tick F) (o : Option String)
      (symbols : ℕ → Option String) (minutes : ℕ) (feed : LiveKiteFeed F)
      → Configured symbols minutes feed
      → Configured symbols minutes (mapped_tick fromtimestamp tick o feed).1
  mapped_tick-Configured fromtimestamp tick none symbols minutes feed h = h
  mapped_tick-Configured fromtimestamp tick (some symbol) symbols minutes feed h =
      timed (coerce_tick_ts fromtimestamp tick.timestamp)
    where
      Kept : Outcome (Option (String × Bar F)) × LiveKiteFeed F → Type 0
      Kept x = Configured symbols minutes x.1

      rolled :
          (opened : PartialBar F) (b : Outcome (Bar F))
          → Configured symbols minutes (roll symbol opened b feed).1
      rolled opened (raised e) = h
      rolled opened (returned b) = h

      joined :
          (bucket : Datetime) (o : Option (PartialBar F))
          → Configured symbols minutes
              (aggregate symbol bucket (or_nought tick.last_price) tick o feed).1
      joined bucket none = h
      joined bucket (some p) =
          if_both Kept (bucket == p.start_ts) (λ _. h) (λ _. rolled _ (to_bar p))

      timed : (o : Outcome Datetime) → Configured symbols minutes (take_tick symbol tick o feed).1
      timed (raised e) = if_both Kept (is_value_error e.kind) (λ _. h) (λ _. h)
      timed (returned ts) =
          if_both Kept (le (or_nought tick.last_price) nought) (λ _. h)
            (λ _. joined (bucket_start ts feed.bucket_minutes) (lookup symbol feed.partials))

  TellsAll-snoc :
      (cs : List (String × Bar F)) (ts : List (String × Tape F)) (c : Option (String × Bar F))
      (t : Option (String × Tape F))
      → TellsAll cs ts
      → TellsClosed c t
      → TellsAll (emit cs c) (add_closed ts t)
  TellsAll-snoc cs ts none none h k = h
  TellsAll-snoc [] [] (some c) (some t) h k = (k, tt)
  TellsAll-snoc (a ∷ cs) (b ∷ ts) (some c) (some t) h k =
      (h.0, TellsAll-snoc cs ts (some c) (some t) h.1 k)
  TellsAll-snoc [] (b ∷ ts) (some c) (some t) h k = absurd h
  TellsAll-snoc (a ∷ cs) [] (some c) (some t) h k = absurd h
  TellsAll-snoc cs ts none (some t) h k = absurd k
  TellsAll-snoc cs ts (some c) none h k = absurd k

  module _ (fromtimestamp : F → Outcome Datetime) (symbols : ℕ → Option String) (minutes : ℕ) where
    ingest_from-Tells :
        (ticks : List (Tick F)) (cs : List (String × Bar F)) (ts : List (String × Tape F))
        (feed : LiveKiteFeed F) (tapes : Dict (Tape F)) (emitted : List (String × Bar F))
        → Configured symbols minutes feed
        → TellsAll cs ts
        → Represents feed tapes
        → (ingest_from fromtimestamp cs ticks feed).0 ≡ returned emitted
        → TellsAll emitted (record_ticks fromtimestamp symbols minutes ticks ts tapes).0
          × Represents
              (ingest_from fromtimestamp cs ticks feed).1
              (record_ticks fromtimestamp symbols minutes ticks ts tapes).1
    unfolding ingest_from handle_tick Refined
    ingest_from-Tells [] cs ts feed tapes emitted f h r q =
        (subst (λ l. TellsAll l ts) (returned_injective q) h, r)
    ingest_from-Tells (tick ∷ ticks) cs ts feed tapes emitted f h r q =
        go answer.0 refl
          (λ c k p.
            ingest_from-Tells ticks (emit cs c) (add_closed ts step.0) answer.1 step.1 emitted
              (mapped_tick-Configured fromtimestamp tick _ symbols minutes feed f)
              (TellsAll-snoc cs ts c step.0 h (refined c k).0) (refined c k).1 p)
          q
      where
        answer : Outcome (Option (String × Bar F)) × LiveKiteFeed F
        answer = handle_tick fromtimestamp tick feed

        step : Option (String × Tape F) × Dict (Tape F)
        step =
            record_tick
              (accepted fromtimestamp tick minutes (symbol_of symbols tick.instrument_token)) tapes

        resume :
            Outcome (Option (String × Bar F)) → Outcome (List (String × Bar F)) × LiveKiteFeed F
        resume a = elim a [
          | raised e ↦ (raised e, answer.1)
          | returned closed ↦ ingest_from fromtimestamp (emit cs closed) ticks answer.1
        ]

        refined : Refined step answer
        refined =
            subst
              (λ m.
                Refined
                  (record_tick
                    (accepted fromtimestamp tick m (symbol_of symbols tick.instrument_token)) tapes)
                  answer)
              f.1
              (subst
                (λ (s : ℕ → Option String).
                  Refined
                    (record_tick
                      (accepted fromtimestamp tick feed.bucket_minutes
                        (symbol_of s tick.instrument_token))
                      tapes)
                    answer)
                f.0
                (mapped_tick-Refined fromtimestamp tick
                  (symbol_of feed.symbol_map tick.instrument_token) feed tapes r))

        Told : Outcome (Option (String × Bar F)) → Type 0
        Told a =
            TellsAll emitted
              (record_ticks fromtimestamp symbols minutes ticks (add_closed ts step.0) step.1).0
            × Represents (resume a).1
                (record_ticks fromtimestamp symbols minutes ticks (add_closed ts step.0) step.1).1

        go :
            (a : Outcome (Option (String × Bar F)))
            → answer.0 ≡ a
            → ((c : Option (String × Bar F))
                → answer.0 ≡ returned c
                → (resume (returned c)).0 ≡ returned emitted
                → Told (returned c))
            → (resume a).0 ≡ returned emitted
            → Told a
        go (raised e) k told p = ground (arith, p)
        go (returned c) k told p = told c k p

module _ {F : Type 0} ⦃fl : Float F⦄ (ordered : IsOrdered fl) (sums : HasSums fl)
    (fromtimestamp : F → Outcome Datetime) where
  -- Given the laws of order and of sums, ticks whose prices are numbers and whose volumes are not negative, and a sound feed whose open bars say what a table of tapes holds, one tape of prices for each symbol: `ingest_ticks` either returns bars that say, one for one and in order, what tapes hold (their open, high, low and close), and leaves open bars that say what further tapes hold, so that for every symbol its tapes in order, the open one last, hold the prices that its earlier open tape held and then those of its ticks that count, nothing left out, nothing twice and in order, and each tape is a maximal run of prices of one bucket: those that follow each other are of different buckets. So a late tick closes the open bar and starts another one for the earlier bucket. Or it raises an exception that is no value error and that the conversion of the epoch seconds of one of the ticks raises.
  pub ingest_ticks-TellsAll :
      (ticks : List (Tick F)) (feed : LiveKiteFeed F) (tapes : Dict (Tape F))
      → ((i : ℕ) (tick : Tick F) → get_elem? ticks i ≡ some tick → IsNumeric tick)
      → IsSoundFeed feed
      → Represents feed tapes
      → ((emitted : List (String × Bar F)) × (closed : List (String × Tape F)) × (left : Dict
            (Tape F))
          × ((ingest_ticks fromtimestamp ticks feed).0 ≡ returned emitted)
          × TellsAll emitted closed
          × Represents (ingest_ticks fromtimestamp ticks feed).1 left
          × ((j : String)
              → Groups
                  (lookup j tapes)
                  (observations fromtimestamp feed.symbol_map feed.bucket_minutes j ticks)
                  (tapes_of j closed left)))
        ⊎ ((e : Exn) × ((ingest_ticks fromtimestamp ticks feed).0 ≡ raised e)
            × Escapes fromtimestamp ticks e)
  unfolding ingest_ticks
  ingest_ticks-TellsAll ticks feed tapes n s r =
      elim (ingest_ticks-IsSoundFeed ordered sums fromtimestamp ticks feed n s).0 [
        | inr bad ↦ inr bad
        | inl (emitted, e) ↦
            let told =
              ingest_from-Tells fromtimestamp feed.symbol_map feed.bucket_minutes ticks [] [] feed
                tapes emitted (refl, refl) tt r e in
            inl (
              emitted,
              _,
              _,
              e,
              told.0,
              told.1,
              record_ticks_runs fromtimestamp feed.symbol_map feed.bucket_minutes ticks tapes,
            )
      ]
