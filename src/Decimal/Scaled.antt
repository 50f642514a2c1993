-- ===== src/Decimal/Scaled.antt =====
-- A concrete arithmetic for evaluation: integers that count thousand-millionths, products and quotients
-- rounded towards zero. It keeps the laws, so a theorem that takes them is not empty.
use agent_trading.Base.{
  ◌<◌, ℕ, ◌+◌, ◌*◌, ◌/◌, ◌^◌, ◌-◌, ◌%◌, ◌≤◌, Bool, true, false, ◌≡◌, arith, ltb, ◌==◌,
  if◌then◌else◌,
}
use agent_trading.Base.Int.{ℤ, pos, negsuc, ◌+ℤ◌, ◌-ℤ◌, ◌*ℤ◌, leb_ℤ, pos_part, neg_part, sub_ℕ}
use agent_trading.Decimal.{DecimalOps, Rounding, half_even, round_down}
use agent_trading.Decimal.Laws.{DecimalLaws}

-- Towards zero, by a number; a divisor 0 gives 0.
abbrev quot_ℕ : ℤ → ℕ → ℤ
quot_ℕ a n = sub_ℕ (pos_part a / n) (neg_part a / n)

abbrev magnitude : ℤ → ℕ
magnitude a = pos_part a + neg_part a

abbrev is_negative : ℤ → Bool
is_negative a = ltb 0 (neg_part a)

unfoldable pub scaled_div : ℤ → ℤ → ℤ
unfolding ◌*ℤ◌ ◌-ℤ◌
scaled_div a b =
    let q = quot_ℕ (a *ℤ pos 1000000000) (magnitude b) in if is_negative b then pos 0 -ℤ q else q

unfoldable pub scaled_mul : ℤ → ℤ → ℤ
unfolding ◌*ℤ◌
scaled_mul a b = quot_ℕ (a *ℤ b) 1000000000

-- To a multiple of 10 ^ (9 - k) thousand-millionths; `half_even` to the nearest, ties to even.
abbrev round_ℕ : Rounding → ℕ → ℕ → ℕ
round_ℕ round_down n unit = n / unit * unit
round_ℕ half_even n unit =
    let q = n / unit in
    let r = 2 * (n % unit) in
    if ltb r unit
    then q * unit
    else (if ltb unit r then (q + 1) * unit else (if q % 2 == 0 then q * unit else (q + 1) * unit))

unfoldable pub scaled_quantize : Rounding → ℕ → ℤ → ℤ
scaled_quantize r k a =
    let unit = 10 ^ (9 - k) in sub_ℕ (round_ℕ r (pos_part a) unit) (round_ℕ r (neg_part a) unit)

unfoldable pub scaled_abs : ℤ → ℤ
scaled_abs a = pos (magnitude a)

abbrev pub scaled : DecimalOps
scaled = record {
  Num = ℤ;
  of_ℤ = λ a. a *ℤ pos 1000000000;
  literal = λ n k. pos (n * 10 ^ (9 - k));
  add = ◌+ℤ◌;
  sub = ◌-ℤ◌;
  mul = scaled_mul;
  div = scaled_div;
  abs = scaled_abs;
  leb = leb_ℤ;
  quantize = scaled_quantize;
  to_integral = λ a. quot_ℕ a 1000000000;
}

scaled_trans : (a b c : ℤ) → leb_ℤ a b ≡ true → leb_ℤ b c ≡ true → leb_ℤ a c ≡ true
scaled_trans a b c h k = ground arith

scaled_refl : (a : ℤ) → leb_ℤ a a ≡ true
scaled_refl a = ground arith

scaled-total : (a b : ℤ) → leb_ℤ a b ≡ false → leb_ℤ b a ≡ true
scaled-total a b h = ground arith

scaled-sub_le : (a b : ℤ) → leb_ℤ (pos 0 *ℤ pos 1000000000) b ≡ true → leb_ℤ (a -ℤ b) a ≡ true
unfolding ◌-ℤ◌ ◌*ℤ◌
scaled-sub_le a b h = ground arith

mul_quot : (n m : ℕ) → m ≤ 1000000000 → n * m / 1000000000 ≤ n
mul_quot n m h = let p : n * m ≤ n * 1000000000 = grind arith in omega arith

scaled-mul_le :
    (a m : ℤ)
    → leb_ℤ (pos 0 *ℤ pos 1000000000) a ≡ true
    → leb_ℤ m (pos 1 *ℤ pos 1000000000) ≡ true
    → leb_ℤ (scaled_mul a m) a ≡ true
unfolding scaled_mul ◌*ℤ◌
scaled-mul_le (pos a) (pos m) h k = ground (arith, mul_quot a m)
scaled-mul_le (pos a) (negsuc m) h k = ground arith
scaled-mul_le (negsuc a) m h k = ground arith

scaled-mul_nonneg :
    (a m : ℤ)
    → leb_ℤ (pos 0 *ℤ pos 1000000000) a ≡ true
    → leb_ℤ (pos 0 *ℤ pos 1000000000) m ≡ true
    → leb_ℤ (pos 0 *ℤ pos 1000000000) (scaled_mul a m) ≡ true
unfolding scaled_mul ◌*ℤ◌
scaled-mul_nonneg (pos a) (pos m) h k = ground arith
scaled-mul_nonneg (pos a) (negsuc m) h k = ground arith
scaled-mul_nonneg (negsuc a) m h k = ground arith

div_mul-le : (n u : ℕ) → n / u * u ≤ n
div_mul-le n u = grind arith

scaled-quantize_down :
    (k : ℕ) (a : ℤ)
    → leb_ℤ (pos 0 *ℤ pos 1000000000) a ≡ true
    → leb_ℤ (scaled_quantize round_down k a) a ≡ true
unfolding scaled_quantize ◌*ℤ◌
scaled-quantize_down k (pos a) h =
    ground (arith, div_mul-le a (10 ^ (9 - k)), div_mul-le 0 (10 ^ (9 - k)))
scaled-quantize_down k (negsuc a) h = ground arith

scaled-mul_nonpos :
    (a m : ℤ)
    → leb_ℤ a (pos 0 *ℤ pos 1000000000) ≡ true
    → leb_ℤ (pos 0 *ℤ pos 1000000000) m ≡ true
    → leb_ℤ (scaled_mul a m) (pos 0 *ℤ pos 1000000000) ≡ true
unfolding scaled_mul ◌*ℤ◌
scaled-mul_nonpos (pos a) (pos m) h k = let z : a ≡ 0 = ground arith in rw z (ground arith)
scaled-mul_nonpos (pos a) (negsuc m) h k = ground arith
scaled-mul_nonpos (negsuc a) (pos m) h k = ground arith
scaled-mul_nonpos (negsuc a) (negsuc m) h k = ground arith

scaled-add_nonneg :
    (a b : ℤ)
    → leb_ℤ (pos 0 *ℤ pos 1000000000) a ≡ true
    → leb_ℤ (pos 0 *ℤ pos 1000000000) b ≡ true
    → leb_ℤ (pos 0 *ℤ pos 1000000000) (a +ℤ b) ≡ true
unfolding ◌+ℤ◌ ◌*ℤ◌
scaled-add_nonneg a b h k = ground arith

quot-le : (a b : ℕ) → a ≤ b → 0 < b → a * 1000000000 / b ≤ 1000000000
quot-le a b h k = let p : a * 1000000000 ≤ b * 1000000000 = omega arith in grind arith

scaled-div_le_one :
    (a b : ℤ)
    → leb_ℤ a b ≡ true
    → leb_ℤ b (pos 0 *ℤ pos 1000000000) ≡ false
    → leb_ℤ (scaled_div a b) (pos 1 *ℤ pos 1000000000) ≡ true
unfolding scaled_div ◌*ℤ◌ ◌-ℤ◌
scaled-div_le_one (pos a) (pos b) h k = ground (arith, quot-le a b)
scaled-div_le_one (negsuc a) (pos b) h k = ground arith
scaled-div_le_one a (negsuc b) h k = ground arith

scaled-div_nonneg :
    (a b : ℤ)
    → leb_ℤ (pos 0 *ℤ pos 1000000000) a ≡ true
    → leb_ℤ b (pos 0 *ℤ pos 1000000000) ≡ false
    → leb_ℤ (pos 0 *ℤ pos 1000000000) (scaled_div a b) ≡ true
unfolding scaled_div ◌*ℤ◌ ◌-ℤ◌
scaled-div_nonneg (pos a) (pos b) h k = ground arith
scaled-div_nonneg (negsuc a) (pos b) h k = ground arith
scaled-div_nonneg a (negsuc b) h k = ground arith

pub scaled_laws : DecimalLaws scaled
scaled_laws = record {
  leb_refl = scaled_refl;
  leb_trans = scaled_trans;
  leb_total = scaled-total;
  sub_le = scaled-sub_le;
  mul_le = scaled-mul_le;
  mul_nonneg = scaled-mul_nonneg;
  mul_nonpos = scaled-mul_nonpos;
  add_nonneg = scaled-add_nonneg;
  div_le_one = scaled-div_le_one;
  div_nonneg = scaled-div_nonneg;
  quantize_down = scaled-quantize_down;
}
