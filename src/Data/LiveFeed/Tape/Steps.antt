-- ===== src/Data/LiveFeed/Tape/Steps.antt =====
-- One tick against the tapes.
use trader_ai.Prelude.{
  ◌≡◌, refl, sym, ◌∙◌, ap, subst, Bool, true, false, Option, none, some, List, [], ◌∷◌, ◌++◌,
  if◌then◌else◌, if_both, ◌==◌, String, str_eq, arith,
}
use trader_ai.Prelude.Dict.{Dict, lookup, insert, lookup-insert}
use trader_ai.Float.{Float, nought, max_f, min_f}
use trader_ai.Clock.{Datetime}
use trader_ai.Core.Bar.{Bar, make_bar}
use trader_ai.Execution.Exceptions.{returned_injective, Outcome, returned, raised}
use trader_ai.Data.LiveFeed.{
  PartialBar, Tick, LiveKiteFeed, to_bar, bar_of, opened_bar, updated_bar, put_partial, complete,
  roll, aggregate, bucket_start, or_nought, take_tick, mapped_tick, is_value_error,
}
use trader_ai.Data.LiveFeed.Tape.{
  Tape, highest, lowest, last_of, TellsPartial, begin, extend, tape_step, Represents, TellsClosed,
  timed_price, accepted, name_closed, record_tick,
}

module _ {F : Type 0} ⦃fl : Float F⦄ where
  open fl use {le}

  highest-snoc : (h x : F) (xs : List F) → highest h (xs ++ x ∷ []) ≡ max_f (highest h xs) x
  highest-snoc h x [] = refl
  highest-snoc h x (y ∷ xs) = highest-snoc (max_f h y) x xs

  lowest-snoc : (l x : F) (xs : List F) → lowest l (xs ++ x ∷ []) ≡ min_f (lowest l xs) x
  lowest-snoc l x [] = refl
  lowest-snoc l x (y ∷ xs) = lowest-snoc (min_f l y) x xs

  last_of-snoc : (c x : F) (xs : List F) → last_of c (xs ++ x ∷ []) ≡ x
  last_of-snoc c x [] = refl
  last_of-snoc c x (y ∷ xs) = last_of-snoc y x xs

  updated_bar-Tells :
      (x : F) (tick : Tick F) (p : PartialBar F) (t : Tape F)
      → TellsPartial (some p) (some t)
      → TellsPartial (some (updated_bar x tick p)) (some (extend x t))
  unfolding updated_bar
  updated_bar-Tells x tick p t h = (
    h.0,
    h.1,
    ap (λ a. max_f a x) h.2 ∙ sym (highest-snoc t.first x t.later),
    ap (λ a. min_f a x) h.3 ∙ sym (lowest-snoc t.first x t.later),
    sym (last_of-snoc t.first x t.later),
  )

  -- An answer of a call with the feed that it leaves, against the tapes; it says nothing of an
  -- exception.
  unfoldable pub Refined :
      Option (String × Tape F) × Dict (Tape F)
      → Outcome (Option (String × Bar F)) × LiveKiteFeed F
      → Type 0
  Refined (t, tapes) (answer, feed) =
      (c : Option (String × Bar F)) → answer ≡ returned c → TellsClosed c t × Represents feed tapes

  put_partial-Represents :
      (symbol : String) (p : PartialBar F) (t : Tape F) (feed : LiveKiteFeed F)
      (tapes : Dict (Tape F))
      → TellsPartial (some p) (some t)
      → Represents feed tapes
      → Represents (put_partial symbol p feed) (insert symbol t tapes)
  put_partial-Represents symbol p t feed tapes h r j =
      let same = λ (b : Bool).
        TellsPartial (if b then some p else lookup j feed.partials)
          (if b then some t else lookup j tapes) in
      subst (λ o. TellsPartial o (lookup j (insert symbol t tapes)))
        (sym (lookup-insert symbol j p feed.partials))
        (subst (λ o. TellsPartial (if str_eq symbol j then some p else lookup j feed.partials) o)
          (sym (lookup-insert symbol j t tapes))
          (elim (str_eq symbol j) as same [ true ↦ h | false ↦ r j ]))

  none-Refined :
      (feed : LiveKiteFeed F) (tapes : Dict (Tape F))
      → Represents feed tapes
      → Refined (none, tapes) (returned none, feed)
  unfolding Refined
  none-Refined feed tapes r c e = (subst (λ d. TellsClosed d none) (returned_injective e) tt, r)

  roll-Refined :
      (symbol : String) (bucket : Datetime) (x : F) (tick : Tick F) (p : PartialBar F) (t : Tape F)
      (o : Outcome (Bar F)) (feed : LiveKiteFeed F) (tapes : Dict (Tape F))
      → to_bar p ≡ o
      → TellsPartial (some p) (some t)
      → Represents feed tapes
      → Refined
          (some (symbol, t), insert symbol (begin bucket x) tapes)
          (roll symbol (opened_bar bucket feed.bucket_minutes x tick) o feed)
  unfolding Refined to_bar make_bar opened_bar
  roll-Refined symbol bucket x tick p t (raised e) feed tapes h l r c q = ground (arith, q)
  roll-Refined symbol bucket x tick p t (returned b) feed tapes h l r c q =
      let same = to_bar_eq p b h in
      (
        subst (λ d. TellsClosed d (some (symbol, t))) (returned_injective q)
            (subst (λ y. TellsClosed (some (symbol, y)) (some (symbol, t))) (sym same) (refl, l)),
        put_partial-Represents symbol _ (begin bucket x) (complete (symbol, b) feed) tapes
            (refl, refl, refl, refl, refl) r,
      )
    where
      to_bar_eq : (p : PartialBar F) (b : Bar F) → to_bar p ≡ returned b → b ≡ bar_of p
      to_bar_eq p b h = ground (arith, h)

  aggregate-Refined :
      (symbol : String) (bucket : Datetime) (x : F) (tick : Tick F) (o : Option (PartialBar F))
      (u : Option (Tape F)) (feed : LiveKiteFeed F) (tapes : Dict (Tape F))
      → TellsPartial o u
      → Represents feed tapes
      → Refined
          (
            name_closed symbol (tape_step bucket x u).0,
            insert symbol (tape_step bucket x u).1 tapes,
          )
          (aggregate symbol bucket x tick o feed)
  unfolding Refined opened_bar
  aggregate-Refined symbol bucket x tick none none feed tapes l r = λ c q. (
    subst (λ d. TellsClosed d none) (returned_injective q) tt,
    put_partial-Represents symbol _ (begin bucket x) feed tapes (refl, refl, refl, refl, refl) r,
  )
  aggregate-Refined symbol bucket x tick (some p) (some t) feed tapes l r =
      subst
        (λ start.
          Refined
            (
              name_closed symbol (tape_step bucket x (some t)).0,
              insert symbol (tape_step bucket x (some t)).1 tapes,
            )
            (if bucket == start
              then (returned none, put_partial symbol (updated_bar x tick p) feed)
              else roll symbol (opened_bar bucket feed.bucket_minutes x tick) (to_bar p) feed))
        (sym l.0) (chosen (bucket == t.bucket))
    where
      stepped : Bool → Option (Tape F) × Tape F
      stepped b = if b then (none, extend x t) else (some t, begin bucket x)

      chosen :
          (b : Bool)
          → Refined
              (name_closed symbol (stepped b).0, insert symbol (stepped b).1 tapes)
              (if b
                then (returned none, put_partial symbol (updated_bar x tick p) feed)
                else roll symbol (opened_bar bucket feed.bucket_minutes x tick) (to_bar p) feed)
      chosen true = λ c q. (
        subst (λ d. TellsClosed d none) (returned_injective q) tt,
        put_partial-Represents symbol _ (extend x t) feed tapes (updated_bar-Tells x tick p t l) r,
      )
      chosen false = roll-Refined symbol bucket x tick p t (to_bar p) feed tapes refl l r
  aggregate-Refined symbol bucket x tick none (some t) feed tapes l r = absurd l
  aggregate-Refined symbol bucket x tick (some p) none feed tapes l r = absurd l

  take_tick-Refined :
      (symbol : String) (tick : Tick F) (o : Outcome Datetime) (feed : LiveKiteFeed F)
      (tapes : Dict (Tape F))
      → Represents feed tapes
      → Refined
          (record_tick (timed_price symbol feed.bucket_minutes (or_nought tick.last_price) o) tapes)
          (take_tick symbol tick o feed)
  unfolding Refined
  take_tick-Refined symbol tick (raised e) feed tapes r =
      if_both (λ (x : Outcome (Option (String × Bar F)) × LiveKiteFeed F). Refined (none, tapes) x)
        (is_value_error e.kind) (λ _. none-Refined feed tapes r) (λ _ c q. ground (arith, q))
  take_tick-Refined symbol tick (returned ts) feed tapes r =
      chosen (le (or_nought tick.last_price) nought)
    where
      chosen :
          (b : Bool)
          → Refined
              (record_tick
                (if b
                  then none
                  else some
                      (symbol, bucket_start ts feed.bucket_minutes, or_nought tick.last_price))
                tapes)
              (if b
                then (returned none, feed)
                else aggregate symbol
                    (bucket_start ts feed.bucket_minutes)
                    (or_nought tick.last_price)
                    tick
                    (lookup symbol feed.partials)
                    feed)
      chosen true = none-Refined feed tapes r
      chosen false =
          aggregate-Refined symbol _ (or_nought tick.last_price) tick _ _ feed tapes (r symbol) r

  pub mapped_tick-Refined :
      (fromtimestamp : F → Outcome Datetime) (tick : Tick F) (o : Option String)
      (feed : LiveKiteFeed F) (tapes : Dict (Tape F))
      → Represents feed tapes
      → Refined
          (record_tick (accepted fromtimestamp tick feed.bucket_minutes o) tapes)
          (mapped_tick fromtimestamp tick o feed)
  mapped_tick-Refined fromtimestamp tick none feed tapes r = none-Refined feed tapes r
  mapped_tick-Refined fromtimestamp tick (some symbol) feed tapes r =
      take_tick-Refined symbol tick _ feed tapes r
