-- ===== src/Risk/Manager/Sizing.antt =====
-- What the sized quantity satisfies: whole lots, never negative, never above the base quantity.
use native.Mathlib.Nat.{div-add-mod'}
use trader_ai.Prelude.{ℕ, ◌*◌, ◌/◌, ◌^◌, ◌≤◌, ◌≡◌, true, some, Option, ℤ, pos, ◌≤ℤ◌, arith, ap}
use trader_ai.Float.{Float, IsOrdered, IsMonotone, nought, max_f, min_f}
use trader_ai.Core.Signal.{Signal}
use trader_ai.Core.Instrument.{Instrument}
use trader_ai.Risk.Manager.{
  RiskConfig, RiskState, PositionSizing, atr_based, fixed_pct, quotient_qty, sized, base_qty, size,
  floor_to_lot, lot_size_of,
}

pub floor_to_lot-pos : (k l : ℕ) → (floor_to_lot (pos k) l ≡ pos (k / l * l)) × (k / l * l ≤ k)
unfolding floor_to_lot
floor_to_lot-pos k l = (ground arith, omega (arith, div-add-mod' k l))

module _ {F : Type 0} ⦃fl : Float F⦄ where
  quotient_qty_nonneg : (a p : F) {n : ℤ} → quotient_qty a p ≡ some n → pos 0 ≤ℤ n
  unfolding quotient_qty
  quotient_qty_nonneg a p h = ground arith

  sized_nonneg :
      (m : PositionSizing) (risk : RiskConfig F) (signal : Signal F) (state : RiskState F) {n : ℤ}
      → sized m risk signal state ≡ some n
      → pos 0 ≤ℤ n
  unfolding sized
  sized_nonneg atr_based risk signal state h = quotient_qty_nonneg _ _ h
  sized_nonneg fixed_pct risk signal state h = quotient_qty_nonneg _ _ h

  -- The base quantity is never negative.
  pub base_qty_nonneg :
      (risk : RiskConfig F) (signal : Signal F) (state : RiskState F) {n : ℤ}
      → base_qty risk signal state ≡ some n
      → pos 0 ≤ℤ n
  unfolding base_qty
  base_qty_nonneg risk signal state {n} h =
      ground (arith, sized_nonneg risk.position_sizing risk signal state {n = n})

  module _ (laws : IsOrdered fl) where
    open laws use {nought_refl, one_pos, refl_of_le, le_of_lt}

    -- The analyst's multiplier is clamped into [0, 1], also where it is NaN.
    pub clamp_bounds :
        (m : F)
        → let c = max_f nought (min_f (fl.of_int (pos 1)) m) in
          (fl.le nought c ≡ true) × (fl.le c (fl.of_int (pos 1)) ≡ true)
    clamp_bounds m = ground (
      arith,
      nought_refl,
      le_of_lt nought (fl.of_int (pos 1)) one_pos,
      refl_of_le nought (fl.of_int (pos 1)),
      le_of_lt m (fl.of_int (pos 1)),
      le_of_lt nought m,
    )

    -- Given the laws of order and of rounding: if the base quantity is a number up to 2^53, `size`
    -- answers a whole number of lots between zero and the base quantity, whatever multiplier the
    -- analyst gives, NaN included.
    pub size_bounds :
        (monotone : IsMonotone fl) (risk : RiskConfig F) (signal : Signal F) (state : RiskState F)
        (instrument : Option (Instrument F)) (size_multiplier : F) {base : ℕ}
        → base_qty risk signal state ≡ some (pos base)
        → base ≤ 2 ^ 53
        → (lots : ℕ) × (size risk signal state instrument size_multiplier
            ≡ some (pos (lots * lot_size_of instrument)))
          × (lots * lot_size_of instrument ≤ base)
    unfolding size
    size_bounds monotone risk signal state instrument size_multiplier {base} h small =
        let c = max_f nought (min_f (fl.of_int (pos 1)) size_multiplier) in
        let (low, high) = clamp_bounds size_multiplier in
        let (k, e, le) = monotone.trunc_shrink base c small low high in
        let l = lot_size_of instrument in
        (
          k / l,
          rw (h, e) (ap some (floor_to_lot-pos k l).0),
          omega (arith, (floor_to_lot-pos k l).1),
        )
