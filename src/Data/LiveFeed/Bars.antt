-- ===== src/Data/LiveFeed/Bars.antt =====
-- What the bars of the live feed are, and when a tick raises.
use trader_ai.Prelude.{
  ℕ, suc, ◌≡◌, refl, sym, subst, ◌⊎◌, inl, inr, true, false, Option, none, some, List, [], ◌∷◌,
  if_both, ◌==◌, String, arith, get_elem?, get_elem?-snoc,
}
use trader_ai.Prelude.Dict.{lookup, lookup-insert}
use trader_ai.Float.{Float, nought, IsOrdered, HasSums}
use trader_ai.Clock.{Datetime}
use trader_ai.Core.Bar.{Bar}
use trader_ai.Execution.Exceptions.{Outcome, returned, raised, Exn}
use trader_ai.Data.LiveFeed.{
  PartialBar, TickTime, aware, naive, epoch, unsupported, bar_of, Tick, LiveKiteFeed, opened_bar,
  or_nought, put_partial, complete, roll, aggregate, take_tick, symbol_of, coerce_tick_ts,
  mapped_tick, handle_tick, bucket_start, emit, ingest_from, ingest_ticks, is_value_error,
}
use trader_ai.Data.LiveFeed.Candles.{
  IsSound, IsSoundBar, IsNumeric, positive_of, opened_bar-IsSound, updated_bar-IsSound,
  to_bar-returned,
}

module _ {F : Type 0} ⦃fl : Float F⦄ where
  open fl use {add, lt, le}

  pub record IsSoundFeed (feed : LiveKiteFeed F) : Type 0 where
    pub open_bars :
        (symbol : String) (p : PartialBar F) → lookup symbol feed.partials ≡ some p → IsSound p
    pub closed_bars :
        (i : ℕ) (c : String × Bar F) → get_elem? feed.completed i ≡ some c → IsSoundBar c.1

  -- a tick whose epoch seconds raise an exception that `_handle_tick` does not catch
  abbrev pub TickEscapes : (F → Outcome Datetime) → Tick F → Exn → Type 0
  TickEscapes fromtimestamp tick e =
      (x : F) × (tick.timestamp ≡ epoch x)
      × (fromtimestamp x ≡ raised e)
      × (is_value_error e.kind ≡ false)

  abbrev pub Escapes : (F → Outcome Datetime) → List (Tick F) → Exn → Type 0
  Escapes fromtimestamp ticks e =
      (i : ℕ) × (tick : Tick F) × (get_elem? ticks i ≡ some tick) × TickEscapes fromtimestamp tick e

  module _ (ordered : IsOrdered fl) (sums : HasSums fl) where
    -- What a call leaves and answers, with the exceptions that may leave it.
    Sound : {A : Type 0} → (Exn → Type 0) → Outcome A × LiveKiteFeed F → Type 0
    Sound {A} Bad x =
        (((a : A) × (x.0 ≡ returned a)) ⊎ ((e : Exn) × (x.0 ≡ raised e) × Bad e)) × IsSoundFeed x.1

    put_partial-IsSound :
        (symbol : String) (p : PartialBar F) (feed : LiveKiteFeed F)
        → IsSound p
        → IsSoundFeed feed
        → IsSoundFeed (put_partial symbol p feed)
    put_partial-IsSound symbol p feed s h = record {
      open_bars =
          λ j q e. ground (arith, lookup-insert symbol j p feed.partials, h.open_bars j q, s, e);
      closed_bars = h.closed_bars;
    }

    complete-IsSound :
        (symbol : String) (b : Bar F) (feed : LiveKiteFeed F)
        → IsSoundBar b
        → IsSoundFeed feed
        → IsSoundFeed (complete (symbol, b) feed)
    complete-IsSound symbol b feed s h = record {
      open_bars = h.open_bars;
      closed_bars = λ i c e. elim (get_elem?-snoc feed.completed (symbol, b) c i e) [
        | inl old ↦ h.closed_bars i c old
        | inr new ↦ subst (λ x. IsSoundBar x.1) new.1 s
      ];
    }

    aggregate-Sound :
        (symbol : String) (bucket : Datetime) (x : F) (tick : Tick F) (o : Option (PartialBar F))
        (feed : LiveKiteFeed F) (Bad : Exn → Type 0)
        → le x x ≡ true
        → lt nought x ≡ true
        → IsNumeric tick
        → lookup symbol feed.partials ≡ o
        → IsSoundFeed feed
        → Sound Bad (aggregate symbol bucket x tick o feed)
    unfolding Sound
    aggregate-Sound symbol bucket x tick none feed Bad h k n e s = (
      inl (none, refl),
      put_partial-IsSound symbol _ feed
          (opened_bar-IsSound ordered sums bucket feed.bucket_minutes x tick h k n) s,
    )
    aggregate-Sound symbol bucket x tick (some p) feed Bad h k n e s =
        let sound = s.open_bars symbol p e in
        if_both (Sound Bad) (bucket == p.start_ts)
          (λ _. (
            inl (none, refl),
            put_partial-IsSound symbol _ feed
                (updated_bar-IsSound ordered sums x tick p h k n sound) s,
          ))
          (λ _.
            subst
              (λ b. Sound Bad (roll symbol (opened_bar bucket feed.bucket_minutes x tick) b feed))
              (sym (to_bar-returned ordered sums p sound))
              (
                inl (some (symbol, bar_of p), refl),
                put_partial-IsSound symbol _ (complete (symbol, bar_of p) feed)
                    (opened_bar-IsSound ordered sums bucket feed.bucket_minutes x tick h k n)
                    (complete-IsSound symbol (bar_of p) feed sound s),
              ))

    -- an exception that `_handle_tick` does not catch
    abbrev Leaves : Outcome Datetime → Exn → Type 0
    Leaves o e = (o ≡ raised e) × (is_value_error e.kind ≡ false)

    take_tick-Sound :
        (symbol : String) (tick : Tick F) (o : Outcome Datetime) (feed : LiveKiteFeed F)
        → IsNumeric tick
        → IsSoundFeed feed
        → Sound (Leaves o) (take_tick symbol tick o feed)
    unfolding Sound
    take_tick-Sound symbol tick (raised e) feed n s =
        if_both (Sound (Leaves (raised e))) (is_value_error e.kind) (λ _. (inl (none, refl), s))
          (λ h. (inr (e, refl, (refl, h)), s))
    take_tick-Sound symbol tick (returned ts) feed n s =
        if_both (Sound (Leaves (returned ts))) (le (or_nought tick.last_price) nought)
          (λ _. (inl (none, refl), s))
          (λ h.
            aggregate-Sound symbol (bucket_start ts feed.bucket_minutes) (or_nought tick.last_price)
              tick _ feed (Leaves (returned ts)) n.0 (positive_of ordered sums _ n.0 h) n refl s)

    module _ (fromtimestamp : F → Outcome Datetime) where
      coerce_tick_ts-Leaves :
          (t : TickTime F) (e : Exn)
          → Leaves (coerce_tick_ts fromtimestamp t) e
          → (x : F) × (t ≡ epoch x) × (fromtimestamp x ≡ raised e) × (is_value_error e.kind ≡ false)
      unfolding coerce_tick_ts
      coerce_tick_ts-Leaves (aware ts) e h = ground (arith, h.0)
      coerce_tick_ts-Leaves (naive ts) e h = ground (arith, h.0)
      coerce_tick_ts-Leaves (epoch x) e h = (x, refl, h.0, h.1)
      coerce_tick_ts-Leaves unsupported e h = ground (arith, h.0, h.1)

      mapped_tick-Sound :
          (tick : Tick F) (o : Option String) (feed : LiveKiteFeed F)
          → IsNumeric tick
          → IsSoundFeed feed
          → Sound (TickEscapes fromtimestamp tick) (mapped_tick fromtimestamp tick o feed)
      unfolding Sound
      mapped_tick-Sound tick none feed n s = (inl (none, refl), s)
      mapped_tick-Sound tick (some symbol) feed n s =
          let (ends, sound) =
            take_tick-Sound symbol tick (coerce_tick_ts fromtimestamp tick.timestamp) feed n s in
          elim ends [
            | inl answered ↦ (inl answered, sound)
            | inr (e, q, bad) ↦ (inr (e, q, coerce_tick_ts-Leaves tick.timestamp e bad), sound)
          ]

      ingest_from-Sound :
          (ticks : List (Tick F)) (emitted : List (String × Bar F)) (feed : LiveKiteFeed F)
          → ((i : ℕ) (tick : Tick F) → get_elem? ticks i ≡ some tick → IsNumeric tick)
          → IsSoundFeed feed
          → Sound (Escapes fromtimestamp ticks) (ingest_from fromtimestamp emitted ticks feed)
      unfolding ingest_from handle_tick Sound
      ingest_from-Sound [] emitted feed n s = (inl (emitted, refl), s)
      ingest_from-Sound (tick ∷ ticks) emitted feed n s =
          let (ends, left) =
            mapped_tick-Sound tick (symbol_of feed.symbol_map tick.instrument_token) feed
              (n 0 tick refl) s in
          elim ends [
            | inl (a, q) ↦
                subst (λ a. Sound (Escapes fromtimestamp (tick ∷ ticks)) (resume a)) (sym q)
                  (later (ingest_from-Sound ticks (emit emitted a) _ (λ i t q. n (suc i) t q) left))
            | inr (e, q, bad) ↦
                subst (λ a. Sound (Escapes fromtimestamp (tick ∷ ticks)) (resume a)) (sym q)
                  (inr (e, refl, (0, tick, refl, bad)), left)
          ]
        where
          resume :
              Outcome (Option (String × Bar F)) → Outcome (List (String × Bar F)) × LiveKiteFeed F
          resume a = elim a [
            | raised e ↦ (raised e, (handle_tick fromtimestamp tick feed).1)
            | returned closed ↦
                ingest_from fromtimestamp (emit emitted closed) ticks
                  (handle_tick fromtimestamp tick feed).1
          ]

          later :
              {x : Outcome (List (String × Bar F)) × LiveKiteFeed F}
              → Sound (Escapes fromtimestamp ticks) x
              → Sound (Escapes fromtimestamp (tick ∷ ticks)) x
          later (inl a, l) = (inl a, l)
          later (inr (e, q, (i, t, at, bad)), l) = (inr (e, q, (suc i, t, at, bad)), l)

      -- Given the laws of order and of sums: if the prices of the ticks are numbers and the volumes are not negative, then `ingest_ticks` makes of a feed whose bars are sound one whose bars are sound, also when it raises: every open and every closed bar has its open and close between its low and its high, a low above zero and a volume that is not negative. It returns, or it raises an exception that is no value error and that the conversion of the epoch seconds of one of the ticks raises.
      pub ingest_ticks-IsSoundFeed :
          (ticks : List (Tick F)) (feed : LiveKiteFeed F)
          → ((i : ℕ) (tick : Tick F) → get_elem? ticks i ≡ some tick → IsNumeric tick)
          → IsSoundFeed feed
          → (((emitted : List (String × Bar F)) × ((ingest_ticks fromtimestamp ticks feed).0
                  ≡ returned emitted))
              ⊎ ((e : Exn) × ((ingest_ticks fromtimestamp ticks feed).0 ≡ raised e)
                  × Escapes fromtimestamp ticks e))
            × IsSoundFeed (ingest_ticks fromtimestamp ticks feed).1
      unfolding ingest_ticks Sound
      ingest_ticks-IsSoundFeed ticks feed n s = ingest_from-Sound ticks [] feed n s
