-- ===== src/Reconcile/Shares.antt =====
-- The values of the mismatches that src/tiller/risk/reconcile.py lists, and their sum.
use agent_trading.Base.{
  ℕ, ◌≡◌, refl, sym, ap, ◌∙◌, true, false, Option, none, some, List, [], ◌∷◌, ◌++◌, String, arith,
  All, All-append, All-split, Bool-cases, Option-cases, inl, inr,
}
use agent_trading.Base.Int.{ℤ, pos, ◌-ℤ◌}
use agent_trading.Base.Dict.{Dict, lookup, lookup_or}
use agent_trading.Decimal.{DecimalOps, zero_d}
use agent_trading.Models.{Position}
use agent_trading.Account.{holding_units}
use agent_trading.Reconcile.Compare.{
  Mismatch, abs_ℤ, Tally, usd_of, add_mismatch, within_tolerance, compare_from, decimals_of,
}
use agent_trading.Reconcile.{ReconcileCfg, ChainState, compared}

module _ (D : DecimalOps) where
  open D use {Num, add, mul}

  -- The sum of the values of mismatches, from a start.
  abbrev pub value_sum : Num → List (Mismatch Num) → Num
  value_sum acc [] = acc
  value_sum acc (x ∷ xs) = value_sum (elim x.usd_diff [ none ↦ acc | some u ↦ add acc u ]) xs

  -- The value of a mismatch is its difference in units times the mark of its mint.
  abbrev pub IsValued : Dict Num → Dict ℕ → Mismatch Num → Type 0
  IsValued marks decimals x =
      (mark : Num) × (dec : ℕ) × (lookup x.mint marks ≡ some mark)
      × (lookup x.mint decimals ≡ some dec)
      × (x.usd_diff ≡ some (mul (holding_units D (abs_ℤ (x.chain_base -ℤ x.ledger_base)) dec) mark))

  value_sum-append :
      (xs : List (Mismatch Num)) (acc : Num) (x : Mismatch Num)
      → value_sum acc (xs ++ x ∷ []) ≡ value_sum (value_sum acc xs) (x ∷ [])
  value_sum-append [] acc x = refl
  value_sum-append (y ∷ ys) acc x = value_sum-append ys _ x

  pub record Valued (marks : Dict Num) (decimals : Dict ℕ) (t : Tally D) : Type 0 where
    pub summed : t.usd_total ≡ value_sum (zero_d D) t.mismatches
    pub valued : t.unmarked ≡ false → All (IsValued marks decimals) t.mismatches
    pub unvalued : t.unmarked ≡ true → ¬ All (IsValued marks decimals) t.mismatches

  module _ (marks : Dict Num) (decimals : Dict ℕ) where
    usd_of-IsValued :
        (m : String) (c led : ℤ) (u : Num)
        → usd_of D marks decimals m (abs_ℤ (c -ℤ led)) ≡ some u
        → IsValued marks decimals
            (record { mint = m; chain_base = c; ledger_base = led; usd_diff = some u })
    usd_of-IsValued m c led u e = elim (Option-cases (lookup m marks)) [
      | inl gone ↦ cc (rw (gone, usd_of) at e)
      | inr (mark, marked) ↦ elim (Option-cases (lookup m decimals)) [
        | inl gone ↦ cc (rw (marked, gone, usd_of) at e)
        | inr (dec, known) ↦ (mark, dec, marked, known, sym (rw (marked, known, usd_of) at e))
      ]
    ]

    add_mismatch-Valued :
        (m : String) (c led : ℤ) (usd : Option Num) (t : Tally D)
        → usd_of D marks decimals m (abs_ℤ (c -ℤ led)) ≡ usd
        → Valued marks decimals t
        → Valued marks decimals (add_mismatch D m c led usd t)
    add_mismatch-Valued m c led none t e h = record {
      summed = h.summed ∙ sym (value_sum-append t.mismatches (zero_d D) _);
      valued = λ k. absurd (ground (arith, k));
      unvalued = λ _ all.
          let (rest, last) = All-split (IsValued marks decimals) t.mismatches _ all in
          cc (last.0.4);
    }
    add_mismatch-Valued m c led (some u) t e h = record {
      summed = ap (λ s. add s u) h.summed ∙ sym (value_sum-append t.mismatches (zero_d D) _);
      valued = λ k.
          All-append (IsValued marks decimals) t.mismatches _ (h.valued k)
            (usd_of-IsValued m c led u e, tt);
      unvalued = λ k all.
          let (rest, last) = All-split (IsValued marks decimals) t.mismatches _ all in
          h.unvalued k rest;
    }

    compare_from-Valued :
        (pct : Num) (chain ledger : Dict ℤ) (mints : List String) (t : Tally D)
        → Valued marks decimals t
        → Valued marks decimals (compare_from D pct marks decimals chain ledger mints t)
    unfolding compare_from
    compare_from-Valued pct chain ledger [] t h = h
    compare_from-Valued pct chain ledger (m ∷ ms) t h =
        let c = lookup_or m (pos 0) chain in
        let led = lookup_or m (pos 0) ledger in
        elim (Bool-cases (within_tolerance D pct c led)) [
          | inl e ↦ rw e (compare_from-Valued pct chain ledger ms t h)
          | inr e ↦ rw e (
              compare_from-Valued pct chain ledger ms _ (
                add_mismatch-Valued m c led (usd_of D marks decimals m (abs_ℤ (c -ℤ led))) t refl
                  h))
        ]

  pub compared-Valued :
      (cfg : ReconcileCfg D) (s : ChainState D) (held : List (Position Num)) (marks : Dict Num)
      → Valued marks (decimals_of cfg.token_decimals) (compared D cfg s held marks)
  unfolding compared
  compared-Valued cfg s held marks =
      compare_from-Valued marks (decimals_of cfg.token_decimals) cfg.mismatch_amount_pct _ _ _ _
        (record { summed = refl; valued = λ _. tt; unvalued = λ k. absurd (ground (arith, k)) })
