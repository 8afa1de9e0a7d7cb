-- ===== src/Core/Instrument/Laws.antt =====
-- What the instrument's validator and the rounding of quantities to lots guarantee.
use trader_ai.Prelude.{
  ℕ, zero, suc, ◌+◌, ◌-◌, ◌*◌, ◌/◌, ◌%◌, ◌≤◌, ◌<◌, ◌≡◌, ◌≢◌, refl, true, none, some, ℤ, pos, negsuc,
  ◌≤ℤ◌, arith, Bool-cases, inl, inr, ltb, ◌==◌, dec_lt,
}
use native.Mathlib.Nat.{div-add-mod, div-add-mod', mul-le-mul, le_refl, mod-lt}
use trader_ai.Float.{Float, nought}
use trader_ai.Core.Instrument.{
  InstrumentType, equity, future, option, eq, fo, Instrument, round_qty, validated,
}

not_lt : {a b : ℕ} → ¬ (a < b) → b ≤ a
not_lt h = omega arith

mul_ge : (l m : ℕ) → 1 ≤ m → l ≤ m * l
mul_ge l zero h = elim h [ ]
mul_ge l (suc m) h = grind arith

-- `r` is a whole number of lots, at least one and at least `q`, and every other such quantity is
-- larger.
pub record IsLeastLots (lot_size : ℕ) (q : ℤ) (r : ℕ) : Type 0 where
  pub lots : ℕ
  pub whole : r ≡ lots * lot_size
  pub one : lot_size ≤ r
  pub enough : q ≤ℤ pos r
  pub least : (m : ℕ) → q ≤ℤ pos (m * lot_size) → 1 ≤ m → r ≤ m * lot_size

lots_of_one : (l : ℕ) (q : ℤ) → 1 ≤ l → q ≤ℤ pos l → IsLeastLots l q l
lots_of_one l q h e = record {
  lots = 1;
  whole = omega arith;
  one = omega arith;
  enough = e;
  least = λ m a b. mul_ge l m b;
}

exact_lots : (l n : ℕ) → 1 ≤ l → l ≤ n → n % l ≡ 0 → IsLeastLots l (pos n) n
exact_lots l n h a e = record {
  lots = n / l;
  whole = omega (arith, div-add-mod n l, e);
  one = a;
  enough = omega arith;
  least = λ m b c. omega arith;
}

above_lots : (l n m : ℕ) → 1 ≤ l → 1 ≤ n % l → n ≤ m * l → n / l + 1 ≤ m
above_lots l n m h p b = elim (dec_lt (n / l) m) [
  | yes q ↦ omega arith
  | no q ↦ absurd (omega (arith, div-add-mod' n l, mul-le-mul (not_lt q) (le_refl l)))
]

least_lots : (l n m : ℕ) → 1 ≤ l → 1 ≤ n % l → n ≤ m * l → n + (l - n % l) ≤ m * l
least_lots l n m h p b = omega (
  arith,
  mul-le-mul (above_lots l n m h p b) (le_refl l),
  div-add-mod n l,
  mod-lt n h,
  div-add-mod' n l,
)

next_lots : (l n : ℕ) → 1 ≤ l → l ≤ n → 1 ≤ n % l → IsLeastLots l (pos n) (n + (l - n % l))
next_lots l n h a p = record {
  lots = n / l + 1;
  whole = grind arith;
  one = omega arith;
  enough = omega arith;
  least = λ m b c. least_lots l n m h p (omega arith);
}

-- At a positive lot size, rounding a quantity of any sign gives the least positive whole number of
-- lots that covers it.
pub round_qty-IsLeastLots :
    (lot_size : ℕ) (q : ℤ)
    → 1 ≤ lot_size
    → (r : ℕ) × (round_qty lot_size q ≡ pos r) × IsLeastLots lot_size q r
unfolding round_qty
round_qty-IsLeastLots lot_size (negsuc n) h =
    (lot_size, refl, lots_of_one lot_size (negsuc n) h (omega arith))
round_qty-IsLeastLots lot_size (pos n) h = elim (Bool-cases (ltb n lot_size)) [
  | inl small ↦ (lot_size, rw small, lots_of_one lot_size (pos n) h (ground arith))
  | inr large ↦ elim (Bool-cases (n % lot_size == 0)) [
    | inl exact ↦ (n, rw (large, exact), exact_lots lot_size n h (ground arith) (ground arith))
    | inr part ↦ (
      n + (lot_size - n % lot_size),
      rw (large, part),
      next_lots lot_size n h (ground arith) (ground arith),
    )
  ]
]

module _ {F : Type 0} ⦃fl : Float F⦄ where
  -- The documented promise on the fields of an instrument.
  abbrev pub IsConsistent : Instrument F → InstrumentType → Type 0
  IsConsistent i equity =
      (i.segment ≡ eq) × (i.expiry ≡ none) × (i.strike ≡ none) × (i.option_type ≡ none)
  IsConsistent i future = (i.segment ≡ fo) × (i.expiry ≢ none) × (i.option_type ≡ none)
  IsConsistent i option =
      (i.segment ≡ fo) × (i.expiry ≢ none) × (i.strike ≢ none) × (i.option_type ≢ none)

  -- If the constructor returns, it returns its own argument, which has a lot size and a tick size
  -- above zero and a segment, an expiry, a strike and an option type as the type of the instrument
  -- demands.
  pub validated-IsConsistent :
      (i : Instrument F) {j : Instrument F}
      → validated i ≡ some j
      → (j ≡ i)
        × (1 ≤ i.lot_size)
        × (fl.lt nought i.tick_size ≡ true)
        × IsConsistent i i.instrument_type
  unfolding validated
  validated-IsConsistent i h = ground arith
