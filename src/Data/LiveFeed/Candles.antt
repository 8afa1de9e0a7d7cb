-- ===== src/Data/LiveFeed/Candles.antt =====
-- The candles that the live feed builds.
use trader_ai.Prelude.{ℕ, ◌≡◌, refl, true, false, Option, none, some, if_both, arith}
use trader_ai.Float.{Float, nought, max_f, min_f, IsOrdered, HasSums}
use trader_ai.Clock.{Datetime}
use trader_ai.Core.Bar.{Bar, bar_ok, make_bar}
use trader_ai.Execution.Exceptions.{returned}
use trader_ai.Data.LiveFeed.{
  PartialBar, bar_of, Tick, to_bar, opened_bar, updated_bar, or_nought, cumulative, keep_volume,
}

module _ {F : Type 0} ⦃fl : Float F⦄ where
  open fl use {add, lt, le}

  -- prices around each other, all above zero
  pub record IsCandle (open_price high low close volume : F) : Type 0 where
    pub low_open : le low open_price ≡ true
    pub open_high : le open_price high ≡ true
    pub low_close : le low close ≡ true
    pub close_high : le close high ≡ true
    pub positive : lt nought low ≡ true
    pub traded : le nought volume ≡ true

  abbrev pub IsSound : PartialBar F → Type 0
  IsSound p = IsCandle p.open_price p.high p.low p.close p.volume

  abbrev pub IsSoundBar : Bar F → Type 0
  IsSoundBar b = IsCandle b.open_price b.high b.low b.close b.volume

  -- a tick whose price is a number and whose volume of the day is not negative
  abbrev pub IsNumeric : Tick F → Type 0
  IsNumeric tick =
      (le (or_nought tick.last_price) (or_nought tick.last_price) ≡ true)
      × ((v : F) → tick.volume ≡ some v → le nought v ≡ true)

  module _ (ordered : IsOrdered fl) (sums : HasSums fl) where
    max_f-bounds :
        (a b : F)
        → le a a ≡ true
        → le b b ≡ true
        → (le a (max_f a b) ≡ true) × (le b (max_f a b) ≡ true)
    max_f-bounds a b ha hb = ground (arith, ordered.le_total b a hb ha, ordered.le_of_lt a b)

    min_f-bounds :
        (a b : F)
        → le a a ≡ true
        → le b b ≡ true
        → (le (min_f a b) a ≡ true) × (le (min_f a b) b ≡ true)
    min_f-bounds a b ha hb = ground (arith, ordered.le_total a b ha hb, ordered.le_of_lt b a)

    pub positive_of : (x : F) → le x x ≡ true → le x nought ≡ false → lt nought x ≡ true
    positive_of x h k = ground (arith, ordered.le_total x nought h ordered.nought_refl)

    cumulative_nonneg :
        (o : Option F)
        → ((v : F) → o ≡ some v → le nought v ≡ true)
        → le nought (cumulative o) ≡ true
    cumulative_nonneg none h = ordered.nought_refl
    cumulative_nonneg (some v) h =
        if_both (λ x. le nought x ≡ true) _ (λ _. ordered.nought_refl) (λ _. h v refl)

    pub opened_bar-IsSound :
        (bucket : Datetime) (minutes : ℕ) (x : F) (tick : Tick F)
        → le x x ≡ true
        → lt nought x ≡ true
        → IsNumeric tick
        → IsSound (opened_bar bucket minutes x tick)
    unfolding opened_bar
    opened_bar-IsSound bucket minutes x tick h k n = record {
      low_open = h;
      open_high = h;
      low_close = h;
      close_high = h;
      positive = k;
      traded =
          if_both (λ v. le nought v ≡ true) (lt nought (or_nought tick.last_traded_quantity))
            (λ d. ordered.le_of_lt _ _ d) (λ _. cumulative_nonneg tick.volume n.1);
    }

    keep_volume_nonneg :
        (v : F) (o : Option F)
        → le nought v ≡ true
        → ((x : F) → o ≡ some x → le nought x ≡ true)
        → le nought (keep_volume v o) ≡ true
    keep_volume_nonneg v none h k = h
    keep_volume_nonneg v (some x) h k = k x refl

    pub updated_bar-IsSound :
        (x : F) (tick : Tick F) (p : PartialBar F)
        → le x x ≡ true
        → lt nought x ≡ true
        → IsNumeric tick
        → IsSound p
        → IsSound (updated_bar x tick p)
    unfolding updated_bar
    updated_bar-IsSound x tick p h k n s =
        let up = max_f-bounds p.high x (ordered.refl_of_le p.open_price p.high s.open_high).1 h in
        let down = min_f-bounds p.low x (ordered.refl_of_le p.low p.open_price s.low_open).0 h in
        record {
          low_open = ordered.le_trans _ _ _ down.0 s.low_open;
          open_high = ordered.le_trans _ _ _ s.open_high up.0;
          low_close = down.1;
          close_high = up.1;
          positive = if_both (λ v. lt nought v ≡ true) (lt x p.low) (λ _. k) (λ _. s.positive);
          traded =
              if_both (λ v. le nought v ≡ true) (lt nought (or_nought tick.last_traded_quantity))
                (λ d. sums.add_nonneg _ _ s.traded d)
                (λ _. keep_volume_nonneg p.volume tick.volume s.traded n.1);
        }

    not_lt : (x y : F) → le x y ≡ true → lt y x ≡ false
    not_lt x y h = ground (arith, ordered.not_le_of_lt y x)

    pub to_bar-returned : (p : PartialBar F) → IsSound p → to_bar p ≡ returned (bar_of p)
    unfolding to_bar make_bar bar_ok
    to_bar-returned p s =
        let above =
          λ (x : F) (h : le p.low x ≡ true). ordered.lt_le_trans nought p.low x s.positive h in
        let spread = ordered.le_trans _ _ _ s.low_open s.open_high in
        ground (
          arith,
          above p.open_price s.low_open,
          above p.high spread,
          s.positive,
          above p.close s.low_close,
          s.traded,
          not_lt p.low p.high spread,
        )
