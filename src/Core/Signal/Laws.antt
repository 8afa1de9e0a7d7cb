-- ===== src/Core/Signal/Laws.antt =====
-- What a signal guarantees once its constructor or `with_tick_rounding` has returned it.
use trader_ai.Prelude.{◌≡◌, refl, true, false, some, arith, not}
use trader_ai.Prelude.Options.{>>=-eq-some, guard}
use trader_ai.Float.{Float, IsOrdered, nought}
use trader_ai.Core.Signal.{
  Side, buy, sell, Signal, has_direction, validated, outward, round_to_tick, with_tick_rounding,
}

module _ {F : Type 0} ⦃fl : Float F⦄ where
  -- The documented promise on the prices.
  abbrev pub IsDirected : Side → F → F → F → Type 0
  IsDirected buy entry stop_loss target =
      (fl.lt stop_loss entry ≡ true) × (fl.lt entry target ≡ true)
  IsDirected sell entry stop_loss target =
      (fl.lt target entry ≡ true) × (fl.lt entry stop_loss ≡ true)

  pub record IsPriced (side : Side) (entry stop_loss target : F) : Type 0 where
    pub entry_pos : fl.lt nought entry ≡ true
    pub stop_pos : fl.lt nought stop_loss ≡ true
    pub target_pos : fl.lt nought target ≡ true
    pub direction : IsDirected side entry stop_loss target

  abbrev pub IsValid : Signal F → Type 0
  IsValid s = IsPriced s.side s.entry s.stop_loss s.target

  module _ (laws : IsOrdered fl) where
    open laws use {
      nought_refl, refl_of_le, le_of_lt, le_total, not_le_of_lt, lt_le_trans, le_lt_trans,
    }

    pos_of_left : (x y : F) → fl.lt x y ≡ true → fl.le x nought ≡ false → fl.lt nought x ≡ true
    pos_of_left x y h n =
        ground (arith, le_total x nought (refl_of_le x y (le_of_lt x y h)).0 nought_refl)

    pos_of_right : (x y : F) → fl.lt x y ≡ true → fl.le y nought ≡ false → fl.lt nought y ≡ true
    pos_of_right x y h n =
        ground (arith, le_total y nought (refl_of_le x y (le_of_lt x y h)).1 nought_refl)

    has_direction-IsPriced :
        (side : Side) (entry stop_loss target : F)
        → has_direction side entry stop_loss target ≡ true
        → IsPriced side entry stop_loss target
    unfolding has_direction
    has_direction-IsPriced buy entry stop_loss target h =
        ground
          (arith, pos_of_left entry target, pos_of_left stop_loss entry, pos_of_right entry target)
    has_direction-IsPriced sell entry stop_loss target h =
        ground (
          arith,
          pos_of_left entry stop_loss,
          pos_of_left target entry,
          pos_of_right entry stop_loss,
        )

    -- The constructor returns only its own argument, and only with prices that are positive and
    -- ordered as the side demands; so none of them is NaN.
    pub validated-IsValid :
        (s : Signal F) {t : Signal F} → validated s ≡ some t → (t ≡ s) × IsValid s
    unfolding validated
    validated-IsValid s h =
        ground (arith, has_direction-IsPriced s.side s.entry s.stop_loss s.target)

    -- Given the laws of order: if `with_tick_rounding` returns a signal, its prices are positive and
    -- in the order that its side demands, they are the rounded prices, every other field is
    -- unchanged, and the tick size is not at most zero.
    pub with_tick_rounding-IsValid :
        (s : Signal F) (tick_size : F) {t : Signal F}
        → with_tick_rounding s tick_size ≡ some t
        → IsValid t
          × (t ≡ record s { entry = t.entry; stop_loss = t.stop_loss; target = t.target })
          × (fl.le tick_size nought ≡ false)
          × (round_to_tick s.entry tick_size ≡ some t.entry)
          × (outward s.side s.stop_loss tick_size ≡ some t.stop_loss)
          × (outward s.side s.target tick_size ≡ some t.target)
    unfolding with_tick_rounding
    with_tick_rounding-IsValid s tick_size {t} h =
        let (_, positive, h₁) = >>=-eq-some (guard (not (fl.le tick_size nought))) _ h in
        let (e, entry, h₂) = >>=-eq-some (round_to_tick s.entry tick_size) _ h₁ in
        let (l, stop, h₃) = >>=-eq-some (outward s.side s.stop_loss tick_size) _ h₂ in
        let (g, target, h₄) = >>=-eq-some (outward s.side s.target tick_size) _ h₃ in
        let (same, valid) =
          validated-IsValid (record s { entry = e; stop_loss = l; target = g }) h₄ in
        rw same (valid, refl, ground arith, entry, stop, target)
