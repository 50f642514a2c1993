-- ===== src/Decimal/Laws.antt =====
-- Order laws of correctly rounded decimal arithmetic, and what follows for minima and maxima.
use agent_trading.Base.{ℕ, true, false, ◌≡◌, inl, inr, Bool-cases}
use agent_trading.Decimal.{DecimalOps, zero_d, one_d, min_d, max_d, round_down}

abbrev pub Le : (D : DecimalOps) → D.Num → D.Num → Type 0
Le D a b = D.leb a b ≡ true

pub record DecimalLaws (D : DecimalOps) : Type 0 where
  pub leb_refl : (a : D.Num) → Le D a a
  pub leb_trans : (a b c : D.Num) → Le D a b → Le D b c → Le D a c
  pub leb_total : (a b : D.Num) → D.leb a b ≡ false → Le D b a
  -- Taking away something that is not negative does not add.
  pub sub_le : (a b : D.Num) → Le D (zero_d D) b → Le D (D.sub a b) a
  -- A factor of at most one does not enlarge what is not negative.
  pub mul_le : (a m : D.Num) → Le D (zero_d D) a → Le D m (one_d D) → Le D (D.mul a m) a
  pub mul_nonneg :
      (a m : D.Num) → Le D (zero_d D) a → Le D (zero_d D) m → Le D (zero_d D) (D.mul a m)
  pub mul_nonpos :
      (a m : D.Num) → Le D a (zero_d D) → Le D (zero_d D) m → Le D (D.mul a m) (zero_d D)
  pub add_nonneg :
      (a b : D.Num) → Le D (zero_d D) a → Le D (zero_d D) b → Le D (zero_d D) (D.add a b)
  -- A quotient of numbers that are not negative, the divisor being the larger.
  pub div_le_one :
      (a b : D.Num) → Le D a b → D.leb b (zero_d D) ≡ false → Le D (D.div a b) (one_d D)
  pub div_nonneg :
      (a b : D.Num) → Le D (zero_d D) a → D.leb b (zero_d D) ≡ false → Le D (zero_d D) (D.div a b)
  -- Rounding down does not enlarge what is not negative.
  pub quantize_down : (k : ℕ) (a : D.Num) → Le D (zero_d D) a → Le D (D.quantize round_down k a) a

module _ (D : DecimalOps) (L : DecimalLaws D) where
  pub min-le_left : (a b : D.Num) → Le D (min_d D a b) a
  min-le_left a b = elim (Bool-cases (D.leb a b)) [
    | inl e ↦ rw e (L.leb_refl a)
    | inr e ↦ rw e (L.leb_total a b e)
  ]

  pub min-le_right : (a b : D.Num) → Le D (min_d D a b) b
  min-le_right a b = elim (Bool-cases (D.leb a b)) [ inl e ↦ rw e e | inr e ↦ rw e (L.leb_refl b) ]

  pub le-min : (a b c : D.Num) → Le D c a → Le D c b → Le D c (min_d D a b)
  le-min a b c h k = elim (Bool-cases (D.leb a b)) [ inl e ↦ rw e h | inr e ↦ rw e k ]

  pub max-ge_left : (a b : D.Num) → Le D a (max_d D a b)
  max-ge_left a b = elim (Bool-cases (D.leb b a)) [
    | inl e ↦ rw e (L.leb_refl a)
    | inr e ↦ rw e (L.leb_total b a e)
  ]

  pub max-ge_right : (a b : D.Num) → Le D b (max_d D a b)
  max-ge_right a b = elim (Bool-cases (D.leb b a)) [ inl e ↦ rw e e | inr e ↦ rw e (L.leb_refl b) ]
