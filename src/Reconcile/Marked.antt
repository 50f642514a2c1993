-- ===== src/Reconcile/Marked.antt =====
-- Which mints the comparison of src/tiller/risk/reconcile.py lists.
use agent_trading.Base.{
  ◌≡◌, refl, sym, ap, ◌∙◌, true, false, Option, List, [], ◌∷◌, ◌++◌, String, arith, ◌||◌, All,
  All-append, subst, Bool-cases, inl, inr, ℕ,
}
use agent_trading.Base.Int.{ℤ, pos, ◌-ℤ◌}
use agent_trading.Base.Text.{str_eq, str_eq_iff, str_in}
use agent_trading.Base.Dict.{Dict, lookup_or}
use agent_trading.Base.Sets.{sorted_set, sorted_set-str_in, str_in-append}
use agent_trading.Decimal.{DecimalOps}
use agent_trading.Models.{Position}
use agent_trading.Reconcile.Compare.{
  Mismatch, abs_ℤ, keys_of, chain_amounts, ledger_amounts, Tally, usd_of, add_mismatch,
  within_tolerance, compare_from,
}
use agent_trading.Reconcile.{ReconcileCfg, ChainState, compared}
use agent_trading.Reconcile.Amounts.{absent_key, is_listed, is_listed-append}

-- Every mismatch.
module _ (D : DecimalOps) where
  open D use {Num}

  -- A mismatch that is not within the tolerance.
  abbrev pub IsReal : Num → Dict ℤ → Dict ℤ → Mismatch Num → Type 0
  IsReal pct chain ledger x =
      (x.chain_base ≡ lookup_or x.mint (pos 0) chain)
      × (x.ledger_base ≡ lookup_or x.mint (pos 0) ledger)
      × (within_tolerance D pct x.chain_base x.ledger_base ≡ false)

  pub record Sound (pct : Num) (chain ledger : Dict ℤ) (t : Tally D) : Type 0 where
    pub real : All (IsReal pct chain ledger) t.mismatches

  add_mismatch-Sound :
      (pct : Num) (chain ledger : Dict ℤ) (m : String) (usd : Option Num) (t : Tally D)
      → Sound pct chain ledger t
      → within_tolerance D pct (lookup_or m (pos 0) chain) (lookup_or m (pos 0) ledger) ≡ false
      → Sound pct chain ledger
          (add_mismatch D m (lookup_or m (pos 0) chain) (lookup_or m (pos 0) ledger) usd t)
  add_mismatch-Sound pct chain ledger m usd t h far = record {
    real = All-append (IsReal pct chain ledger) t.mismatches _ h.real ((refl, refl, far), tt);
  }

  compare_from-Sound :
      (pct : Num) (marks : Dict Num) (decimals : Dict ℕ) (chain ledger : Dict ℤ)
      (mints : List String) (t : Tally D)
      → Sound pct chain ledger t
      → Sound pct chain ledger (compare_from D pct marks decimals chain ledger mints t)
  unfolding compare_from
  compare_from-Sound pct marks decimals chain ledger [] t h = h
  compare_from-Sound pct marks decimals chain ledger (m ∷ ms) t h =
      let c = lookup_or m (pos 0) chain in
      let led = lookup_or m (pos 0) ledger in
      elim (Bool-cases (within_tolerance D pct c led)) [
        | inl e ↦ rw e (compare_from-Sound pct marks decimals chain ledger ms t h)
        | inr e ↦ rw e (
            compare_from-Sound pct marks decimals chain ledger ms _ (
              add_mismatch-Sound pct chain ledger m (usd_of D marks decimals m (abs_ℤ (c -ℤ led))) t
                h e))
      ]

  add_mismatch-is_listed :
      (k m : String) (c led : ℤ) (usd : Option Num) (t : Tally D)
      → is_listed k (add_mismatch D m c led usd t).mismatches
        ≡ (is_listed k t.mismatches || str_eq m k)
  add_mismatch-is_listed k m c led usd t = is_listed-append k t.mismatches _

  compare_from-keeps :
      (pct : Num) (marks : Dict Num) (decimals : Dict ℕ) (chain ledger : Dict ℤ)
      (mints : List String) (t : Tally D) (k : String)
      → is_listed k t.mismatches ≡ true
      → is_listed k (compare_from D pct marks decimals chain ledger mints t).mismatches ≡ true
  unfolding compare_from
  compare_from-keeps pct marks decimals chain ledger [] t k h = h
  compare_from-keeps pct marks decimals chain ledger (m ∷ ms) t k h =
      let c = lookup_or m (pos 0) chain in
      let led = lookup_or m (pos 0) ledger in
      elim (Bool-cases (within_tolerance D pct c led)) [
        | inl e ↦ rw (e, compare_from) (compare_from-keeps pct marks decimals chain ledger ms t k h)
        | inr e ↦
            rw (e, compare_from)
              (compare_from-keeps pct marks decimals chain ledger ms _ k (
                add_mismatch-is_listed k m c led (usd_of D marks decimals m (abs_ℤ (c -ℤ led))) t
                ∙ ap (λ b. b || str_eq m k) h))
      ]

  compare_from-lists :
      (pct : Num) (marks : Dict Num) (decimals : Dict ℕ) (chain ledger : Dict ℤ)
      (mints : List String) (t : Tally D) (k : String)
      → str_in k mints ≡ true
      → within_tolerance D pct (lookup_or k (pos 0) chain) (lookup_or k (pos 0) ledger) ≡ false
      → is_listed k (compare_from D pct marks decimals chain ledger mints t).mismatches ≡ true
  unfolding compare_from
  compare_from-lists pct marks decimals chain ledger [] t k h far = cc
  compare_from-lists pct marks decimals chain ledger (m ∷ ms) t k h far =
      elim (Bool-cases (str_eq k m)) [
        | inr e ↦
            compare_from-lists pct marks decimals chain ledger ms _ k (ground (arith, h, e)) far
        | inl e ↦
            let c = lookup_or m (pos 0) chain in
            let led = lookup_or m (pos 0) ledger in
            let same : m ≡ k = sym ((str_eq_iff k m).0 e) in
            let far_m : within_tolerance D pct c led ≡ false =
              subst
                (λ n.
                  within_tolerance D pct (lookup_or n (pos 0) chain) (lookup_or n (pos 0) ledger)
                  ≡ false)
                (sym same) far in
            rw (far_m, compare_from)
              (compare_from-keeps pct marks decimals chain ledger ms _ k (
                add_mismatch-is_listed k m c led (usd_of D marks decimals m (abs_ℤ (c -ℤ led))) t
                ∙ ground (arith, same, str_eq_iff m k)))
      ]

  -- A mint of neither dict is within the tolerance.
  nothing_differs : (pct : Num) → within_tolerance D pct (pos 0) (pos 0) ≡ true
  unfolding ◌-ℤ◌
  nothing_differs pct = refl

  unlisted :
      (pct : Num) (chain ledger : Dict ℤ) (k : String)
      → within_tolerance D pct (lookup_or k (pos 0) chain) (lookup_or k (pos 0) ledger) ≡ false
      → str_in k (sorted_set (keys_of chain ++ keys_of ledger)) ≡ true
  unlisted pct chain ledger k far = elim (Bool-cases (str_in k (keys_of chain))) [
    | inl e ↦ found (ground (arith, e))
    | inr e ↦ elim (Bool-cases (str_in k (keys_of ledger))) [
      | inl f ↦ found (ground (arith, e, f))
      | inr f ↦ absurd (
          subst (λ a. (within_tolerance D pct a (lookup_or k (pos 0) ledger) ≡ false) → ⊥)
            (sym (absent_key k chain e))
            (subst (λ b. (within_tolerance D pct (pos 0) b ≡ false) → ⊥)
              (sym (absent_key k ledger f)) (λ h. ground (arith, h, nothing_differs pct)))
            far)
    ]
  ]
    where
      found :
          (str_in k (keys_of chain) || str_in k (keys_of ledger)) ≡ true
          → str_in k (sorted_set (keys_of chain ++ keys_of ledger)) ≡ true
      found h = sorted_set-str_in k _ ∙ str_in-append k (keys_of chain) (keys_of ledger) ∙ h

  pub listed_far :
      (pct : Num) (chain ledger : Dict ℤ) (k : String) (xs : List (Mismatch Num))
      → All (IsReal pct chain ledger) xs
      → is_listed k xs ≡ true
      → within_tolerance D pct (lookup_or k (pos 0) chain) (lookup_or k (pos 0) ledger) ≡ false
  listed_far pct chain ledger k [] h e = cc
  listed_far pct chain ledger k (x ∷ xs) h e = elim (Bool-cases (str_eq x.mint k)) [
    | inr other ↦ listed_far pct chain ledger k xs h.1 (ground (arith, e, other))
    | inl same ↦
        subst
          (λ n.
            within_tolerance D pct (lookup_or n (pos 0) chain) (lookup_or n (pos 0) ledger) ≡ false)
          ((str_eq_iff x.mint k).0 same)
          (subst (λ b. within_tolerance D pct (lookup_or x.mint (pos 0) chain) b ≡ false) h.0.1
            (subst (λ a. within_tolerance D pct a x.ledger_base ≡ false) h.0.0 h.0.2))
  ]

  pub compared-Sound :
      (cfg : ReconcileCfg D) (s : ChainState D) (held : List (Position Num)) (marks : Dict Num)
      → Sound cfg.mismatch_amount_pct
          (chain_amounts cfg.reserve_lamports s.holdings)
          (ledger_amounts held)
          (compared D cfg s held marks)
  unfolding compared
  compared-Sound cfg s held marks =
      compare_from-Sound cfg.mismatch_amount_pct marks _ _ _ _ _ (record { real = tt })

  pub compared-lists :
      (cfg : ReconcileCfg D) (s : ChainState D) (held : List (Position Num)) (marks : Dict Num)
      (k : String)
      → within_tolerance D cfg.mismatch_amount_pct
          (lookup_or k (pos 0) (chain_amounts cfg.reserve_lamports s.holdings))
          (lookup_or k (pos 0) (ledger_amounts held))
        ≡ false
      → is_listed k (compared D cfg s held marks).mismatches ≡ true
  unfolding compared
  compared-lists cfg s held marks k far =
      let chain = chain_amounts cfg.reserve_lamports s.holdings in
      let ledger = ledger_amounts held in
      compare_from-lists cfg.mismatch_amount_pct marks _ chain ledger _ _ k
        (unlisted cfg.mismatch_amount_pct chain ledger k far) far
