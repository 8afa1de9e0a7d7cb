-- ===== src/Float/Fixed.antt =====
-- Decimal fixed point with four places: a number type that runs, so that the definitions can be
-- evaluated and the laws of `Float` be met.
use trader_ai.Prelude.{
  refl, true, ◌≤◌, ◌≡◌, ◌≤ℤ◌, ℕ, zero, suc, ◌*◌, ◌/◌, ◌%◌, ◌^◌, some, if◌then◌else◌, ltb, ◌==◌, ℤ,
  pos, negsuc, ◌+ℤ◌, ◌-ℤ◌, ◌*ℤ◌, floor_div, ltb_ℤ, leb_ℤ, abs_ℤ, arith, pos-*ℤ-pos, ap,
}
use trader_ai.Float.{Float, IsOrdered, IsMonotone, HasSigns, HasSums, HasTenths, nought}

-- The integer `n` stands for n / 10_000.
abbrev pub unit : ℕ
unit = 10_000

unfoldable pub negate : ℤ → ℤ
unfolding ◌-ℤ◌
negate a = pos 0 -ℤ a

unfoldable pub fix_div : ℤ → ℤ → ℤ
unfolding ◌*ℤ◌ ◌-ℤ◌ floor_div negate
fix_div a (pos n) = floor_div (a *ℤ pos unit) n
fix_div a (negsuc n) = floor_div (negate a *ℤ pos unit) (suc n)

unfoldable pub fix_mul : ℤ → ℤ → ℤ
unfolding ◌*ℤ◌ floor_div
fix_mul a b = floor_div (a *ℤ b) unit

-- Rounding half to even, as Python's `round`.
unfoldable pub half_even : ℤ → ℤ
unfolding floor_div ◌+ℤ◌ ◌-ℤ◌ ◌*ℤ◌
half_even a =
    let q = floor_div a unit in
    let r = abs_ℤ (a -ℤ q *ℤ pos unit) in
    if ltb (2 * r) unit
    then q
    else if ltb unit (2 * r)
    then q +ℤ pos 1
    else if abs_ℤ q % 2 == 0
    then q
    else q +ℤ pos 1

unfoldable pub toward_zero : ℤ → ℤ
unfolding negate floor_div
toward_zero (pos n) = pos (n / unit)
toward_zero (negsuc n) = negate (pos (suc n / unit))

abbrev pub Fixed : Type 0
Fixed = ℤ

instance abbrev pub fixed_float : Float Fixed
fixed_float = record {
  of_int = λ n. n *ℤ pos unit;
  decimal = λ m d. pos (m * unit / 10 ^ d);
  add = ◌+ℤ◌;
  sub = ◌-ℤ◌;
  mul = fix_mul;
  div = fix_div;
  neg = negate;
  abs = λ a. pos (abs_ℤ a);
  lt = ltb_ℤ;
  le = leb_ℤ;
  trunc = λ a. some (toward_zero a);
  floor = λ a. some (floor_div a unit);
  ceil = λ a. some (negate (floor_div (negate a) unit));
  round = λ a. some (half_even a);
}

-- The order of fixed-point numbers meets the laws of comparison.
pub fixed-IsOrdered : IsOrdered fixed_float
unfolding ◌*ℤ◌
fixed-IsOrdered = record {
  nought_refl = refl;
  one_pos = refl;
  refl_of_le = λ x y h. (ground arith, ground arith);
  le_trans = λ x y z h k. ground arith;
  lt_le_trans = λ x y z h k. ground arith;
  le_lt_trans = λ x y z h k. ground arith;
  le_of_lt = λ x y h. ground arith;
  not_le_of_lt = λ x y h. ground arith;
  le_total = λ x y h k. ground arith;
}

mul_div : (r n : ℕ) → r * (n * unit) / unit ≡ r * n
mul_div r n = omega arith

scaled_mul' : (r n : ℕ) → fix_mul (pos n *ℤ pos unit) (pos r) ≡ pos (r * n)
unfolding fix_mul
scaled_mul' r n =
    rw (pos-*ℤ-pos n unit, pos-*ℤ-pos (n * unit) r) (ap pos (omega (arith, mul_div r n)))

-- Scaling by a factor below one shrinks.
shrink : (r n : ℕ) → r ≤ unit → r * n / unit ≤ n
shrink r n h = grind arith

fixed_shrink :
    (n : ℕ) (r : ℤ)
    → fixed_float.le (nought {F = Fixed}) r ≡ true
    → fixed_float.le r (fixed_float.of_int (pos 1)) ≡ true
    → (k : ℕ) × (fixed_float.trunc (fix_mul (pos n *ℤ pos unit) r) ≡ some (pos k)) × (k ≤ n)
unfolding ◌*ℤ◌ toward_zero
fixed_shrink n (pos r) h k = (r * n / unit, rw (scaled_mul' r n), ground (arith, shrink r n))
fixed_shrink n (negsuc r) h k = ground arith

-- Fixed-point multiplication meets the laws of rounding.
pub fixed-IsMonotone : IsMonotone fixed_float
fixed-IsMonotone = record { trunc_shrink = λ n r small low high. fixed_shrink n r low high }

-- The parts of a product keep its sign.
mul_nonpos :
    (x : ℤ) (n : ℕ)
    → fixed_float.le x (nought {F = Fixed}) ≡ true
    → fixed_float.le (fix_mul x (pos n *ℤ pos unit)) (nought {F = Fixed}) ≡ true
unfolding ◌*ℤ◌ fix_mul floor_div
mul_nonpos (pos zero) n h = ground arith
mul_nonpos (pos (suc x)) n h = ground arith
mul_nonpos (negsuc x) n h = ground arith

le_mul_div : (p c : ℕ) → unit ≤ c → p ≤ p * c / unit
le_mul_div p c h = grind arith

mul_grow :
    (p c : ℤ)
    → fixed_float.lt (nought {F = Fixed}) p ≡ true
    → fixed_float.le (fixed_float.of_int (pos 1)) c ≡ true
    → fixed_float.le p (fix_mul p c) ≡ true
unfolding fix_mul
mul_grow (pos p) (pos c) h k = rw (pos-*ℤ-pos p c) (ground (arith, le_mul_div p c))
mul_grow (pos p) (negsuc c) h k = ground arith
mul_grow (negsuc p) c h k = ground arith

product_nonpos : (p c : ℕ) → pos p *ℤ negsuc c ≤ℤ pos 0
unfolding ◌*ℤ◌
product_nonpos p c = ground arith

below : (x : ℤ) (p : ℕ) → x ≤ℤ pos 0 → leb_ℤ (floor_div x unit) (pos p) ≡ true
unfolding floor_div
below (pos x) p h = ground arith
below (negsuc x) p h = ground arith

bps_nonneg :
    (b : ℤ) → leb_ℤ (pos 0) b ≡ true → leb_ℤ (pos 0) (floor_div (b *ℤ pos unit) 100_000_000) ≡ true
unfolding floor_div ◌*ℤ◌
bps_nonneg (pos b) h = ground arith
bps_nonneg (negsuc b) h = ground arith

mul_shrink :
    (p c : ℤ)
    → fixed_float.lt (nought {F = Fixed}) p ≡ true
    → fixed_float.le c (fixed_float.of_int (pos 1)) ≡ true
    → fixed_float.le (fix_mul p c) p ≡ true
unfolding fix_mul
mul_shrink (pos p) (pos c) h k = rw (pos-*ℤ-pos p c) (ground (arith, shrink c p))
mul_shrink (pos p) (negsuc c) h k = below (pos p *ℤ negsuc c) p (product_nonpos p c)
mul_shrink (negsuc p) c h k = ground arith

-- Fixed-point arithmetic meets the laws of signs.
pub fixed-HasSigns : HasSigns fixed_float
unfolding ◌-ℤ◌ ◌+ℤ◌ fix_div ◌*ℤ◌
fixed-HasSigns = record {
  sub_nonpos = λ x y h. ground arith;
  mul_nonpos = λ x n h k. mul_nonpos x n k;
  bps_nonneg = λ b h. bps_nonneg b h;
  one_add = λ x h. ground arith;
  one_sub = λ x h. ground arith;
  mul_grow = λ p c h k. mul_grow p c h k;
  mul_shrink = λ p q c h l k. mul_shrink p c h k;
}

pub fixed-HasSums : HasSums fixed_float
unfolding ◌*ℤ◌ ◌+ℤ◌
fixed-HasSums = record { add_nonneg = λ x y h k. ground arith }

pub fixed-HasTenths : HasTenths fixed_float
unfolding ◌*ℤ◌
fixed-HasTenths = record { tenth_nonneg = λ m h. ground arith; tenth_le_one = λ m h. ground arith }
