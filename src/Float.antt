-- ===== src/Float.antt =====
-- Python's `float`. The code's arithmetic on IEEE doubles is a parameter: a type with the operations
-- that the program uses, and laws about them as records that a theorem names when it relies on them.
-- Every law holds of IEEE doubles, NaN and the infinities included.
pub mod Fixed
use trader_ai.Prelude.{
  ℕ, ◌≤◌, ◌^◌, ◌≡◌, ◌⊎◌, Bool, true, false, ◌&&◌, Option, some, ℤ, pos, ◌≤ℤ◌, if◌then◌else◌,
}

pub record Float (F : Type 0) : Type 0 where
  -- the double that an int is converted to
  pub of_int : ℤ → F
  -- `decimal m d` is the literal m / 10^d, rounded to a double
  pub decimal : ℕ → ℕ → F
  pub add : F → F → F
  pub sub : F → F → F
  pub mul : F → F → F
  -- called at a divisor other than zero only
  pub div : F → F → F
  pub neg : F → F
  pub abs : F → F
  pub lt : F → F → Bool
  pub le : F → F → Bool
  -- `int(x)`, `math.floor(x)`, `math.ceil(x)` and `round(x)`; `none` at NaN and the infinities, where
  -- they raise
  pub trunc : F → Option ℤ
  pub floor : F → Option ℤ
  pub ceil : F → Option ℤ
  pub round : F → Option ℤ

module _ {F : Type 0} ⦃fl : Float F⦄ where
  abbrev pub nought : F
  nought = fl.of_int (pos 0)

  -- `==`, which IEEE doubles meet by being `<=` both ways
  abbrev pub eq_f : F → F → Bool
  eq_f a b = fl.le a b && fl.le b a

  -- Python's `max(a, b)` and `min(a, b)` keep the first argument unless the second beats it.
  abbrev pub max_f : F → F → F
  max_f a b = if fl.lt a b then b else a

  abbrev pub min_f : F → F → F
  min_f a b = if fl.lt b a then b else a

-- Comparisons. NaN is the value that is not `<=` itself; the order is total away from it.
pub record IsOrdered {F : Type 0} (fl : Float F) : Type 0 where
  pub nought_refl : fl.le (fl.of_int (pos 0)) (fl.of_int (pos 0)) ≡ true
  pub one_pos : fl.lt (fl.of_int (pos 0)) (fl.of_int (pos 1)) ≡ true
  pub refl_of_le : (x y : F) → fl.le x y ≡ true → (fl.le x x ≡ true) × (fl.le y y ≡ true)
  pub le_trans : (x y z : F) → fl.le x y ≡ true → fl.le y z ≡ true → fl.le x z ≡ true
  pub lt_le_trans : (x y z : F) → fl.lt x y ≡ true → fl.le y z ≡ true → fl.lt x z ≡ true
  pub le_lt_trans : (x y z : F) → fl.le x y ≡ true → fl.lt y z ≡ true → fl.lt x z ≡ true
  pub le_of_lt : (x y : F) → fl.lt x y ≡ true → fl.le x y ≡ true
  pub not_le_of_lt : (x y : F) → fl.lt x y ≡ true → fl.le y x ≡ false
  pub le_total :
      (x y : F) → fl.le x x ≡ true → fl.le y y ≡ true → (fl.le x y ≡ true) ⊎ (fl.lt y x ≡ true)

-- Integers up to 2^53 are converted exactly, and rounding is monotone.
pub record IsMonotone {F : Type 0} (fl : Float F) : Type 0 where
  -- scaling an exact integer by a factor from 0 to 1 and truncating stays between 0 and it
  pub trunc_shrink :
      (n : ℕ) (r : F)
      → n ≤ 2 ^ 53
      → fl.le (fl.of_int (pos 0)) r ≡ true
      → fl.le r (fl.of_int (pos 1)) ≡ true
      → (k : ℕ) × (fl.trunc (fl.mul (fl.of_int (pos n)) r) ≡ some (pos k)) × (k ≤ n)

-- Signs, and products with factors near one.
pub record HasSigns {F : Type 0} (fl : Float F) : Type 0 where
  pub sub_nonpos : (x y : F) → fl.lt x y ≡ true → fl.le (fl.sub x y) (fl.of_int (pos 0)) ≡ true
  pub mul_nonpos :
      (x : F) (n : ℕ)
      → 1 ≤ n
      → fl.le x (fl.of_int (pos 0)) ≡ true
      → fl.le (fl.mul x (fl.of_int (pos n))) (fl.of_int (pos 0)) ≡ true
  pub bps_nonneg :
      (b : F)
      → fl.le (fl.of_int (pos 0)) b ≡ true
      → fl.le (fl.of_int (pos 0)) (fl.div b (fl.decimal 10_000 0)) ≡ true
  pub one_add :
      (x : F)
      → fl.le (fl.of_int (pos 0)) x ≡ true
      → fl.le (fl.of_int (pos 1)) (fl.add (fl.of_int (pos 1)) x) ≡ true
  pub one_sub :
      (x : F)
      → fl.le (fl.of_int (pos 0)) x ≡ true
      → fl.le (fl.sub (fl.of_int (pos 1)) x) (fl.of_int (pos 1)) ≡ true
  pub mul_grow :
      (p c : F)
      → fl.lt (fl.of_int (pos 0)) p ≡ true
      → fl.le (fl.of_int (pos 1)) c ≡ true
      → fl.le p (fl.mul p c) ≡ true
  -- `p < q` excludes an infinite `p`
  pub mul_shrink :
      (p q c : F)
      → fl.lt (fl.of_int (pos 0)) p ≡ true
      → fl.lt p q ≡ true
      → fl.le c (fl.of_int (pos 1)) ≡ true
      → fl.le (fl.mul p c) p ≡ true

-- Sums of what is not negative.
pub record HasSums {F : Type 0} (fl : Float F) : Type 0 where
  pub add_nonneg :
      (x y : F)
      → fl.le (fl.of_int (pos 0)) x ≡ true
      → fl.lt (fl.of_int (pos 0)) y ≡ true
      → fl.le (fl.of_int (pos 0)) (fl.add x y) ≡ true

-- The literals 0.0, 0.1 and so on up to 1.0.
pub record HasTenths {F : Type 0} (fl : Float F) : Type 0 where
  pub tenth_nonneg : (m : ℕ) → m ≤ 10 → fl.le (fl.of_int (pos 0)) (fl.decimal m 1) ≡ true
  pub tenth_le_one : (m : ℕ) → m ≤ 10 → fl.le (fl.decimal m 1) (fl.of_int (pos 1)) ≡ true
