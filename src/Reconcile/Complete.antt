-- ===== src/Reconcile/Complete.antt =====
-- What the report of `reconcile` in src/tiller/risk/reconcile.py says of the ledger's positions, and when
-- it is ok.
use agent_trading.Base.{
  ℕ, ◌≡◌, ◌≢◌, ◌↔◌, refl, sym, ◌∙◌, subst, true, false, List, [], ◌∷◌, String, arith, All,
  Bool-cases, inl, inr,
}
use agent_trading.Base.Int.{ℤ, pos, ◌-ℤ◌, max_ℤ, eqb_ℤ_iff}
use agent_trading.Base.Dict.{Dict, lookup_or}
use agent_trading.Base.Sets.{sorted_set}
use agent_trading.Decimal.{DecimalOps, zero_d, one_d}
use agent_trading.Models.{Position}
use agent_trading.Ledger.Positions.{positions}
use agent_trading.Ledger.Positions.Rows.{total}
use agent_trading.Reconcile.Pending.{Counts}
use agent_trading.Reconcile.Compare.{
  Mismatch, Tally, abs_ℤ, keys_of, chain_amounts, ledger_amounts, decimals_of, within_tolerance,
}
use agent_trading.Reconcile.Propose.{AgentTrade}
use agent_trading.Reconcile.{
  ReconcileCfg, ChainState, compared, report_of, marks_with_usdc, mismatch_pct,
}
use agent_trading.Reconcile.Amounts.{is_listed, ledger_amounts-total}
use agent_trading.Reconcile.Marked.{IsReal, listed_far, compared-Sound, compared-lists}
use agent_trading.Reconcile.Shares.{value_sum, IsValued, compared-Valued}

module _ (D : DecimalOps) where
  open D use {Num, of_ℤ, mul, div}

  -- Two amounts are apart by more than a share of the larger.
  abbrev pub Differ : Num → ℤ → ℤ → Type 0
  Differ pct c led =
      (abs_ℤ (c -ℤ led) ≢ pos 0)
      × (D.leb (of_ℤ (abs_ℤ (c -ℤ led))) (mul pct (of_ℤ (max_ℤ c led))) ≡ false)

  -- The values of the mismatches are at most a share of equity. Without equity the share is zero where
  -- there are none, and one otherwise.
  abbrev pub IsSmall : Num → Num → List (Mismatch Num) → Type 0
  IsSmall block equity xs =
      (D.leb equity (zero_d D) ≡ false
        → D.leb (div (value_sum D (zero_d D) xs) equity) block ≡ true)
      × (D.leb equity (zero_d D) ≡ true → xs ≡ [] → D.leb (zero_d D) block ≡ true)
      × (D.leb equity (zero_d D) ≡ true → xs ≢ [] → D.leb (one_d D) block ≡ true)

  within_tolerance-Differ :
      (pct : Num) (c led : ℤ) → (within_tolerance D pct c led ≡ false) ↔ Differ pct c led
  within_tolerance-Differ pct c led = ground (arith, eqb_ℤ_iff (abs_ℤ (c -ℤ led)) (pos 0))

  empty_iff :
      (block : Num) (xs : List (Mismatch Num))
      → (D.leb (elim xs [ [] ↦ zero_d D | _ ∷ _ ↦ one_d D ]) block ≡ true)
        ↔ ((xs ≡ [] → D.leb (zero_d D) block ≡ true) × (xs ≢ [] → D.leb (one_d D) block ≡ true))
  empty_iff block [] = ((λ h. ((λ _. h), (λ k. absurd (k refl)))), (λ h. h.0 refl))
  empty_iff block (x ∷ xs) = ((λ h. ((λ k. cc), (λ _. h))), (λ h. h.1 (λ k. cc)))

  mismatch_pct-IsSmall :
      (block equity : Num) (t : Tally D)
      → t.usd_total ≡ value_sum D (zero_d D) t.mismatches
      → (D.leb (mismatch_pct D equity t) block ≡ true) ↔ IsSmall block equity t.mismatches
  mismatch_pct-IsSmall block equity t e = elim (Bool-cases (D.leb equity (zero_d D))) [
    | inl none_left ↦
        let (f, g) = empty_iff block t.mismatches in
        (
          (λ h. let k = f (rw none_left at h) in ((λ a. cc), (λ _. k.0), (λ _. k.1))),
          (λ h. rw none_left (g (h.1 none_left, h.2 none_left))),
        )
    | inr some_left ↦ (
      (λ h. (
        (λ _. subst (λ u. D.leb (div u equity) block ≡ true) e (rw some_left at h)),
        (λ a. cc),
        (λ a. cc),
      )),
      (λ h. rw some_left (subst (λ u. D.leb (div u equity) block ≡ true) (sym e) (h.0 some_left))),
    )
  ]

  -- A mismatch shows the chain's amount and the total of the ledger's rows.
  abbrev pub Shows : Dict ℤ → List (Position Num) → Mismatch Num → Type 0
  Shows chain rows x =
      (x.chain_base ≡ lookup_or x.mint (pos 0) chain) × (x.ledger_base ≡ total x.mint rows)

  All-Shows :
      (pct : Num) (chain : Dict ℤ) (rows : List (Position Num)) (xs : List (Mismatch Num))
      → All (IsReal D pct chain (ledger_amounts (positions rows))) xs
      → All (Shows chain rows) xs
  All-Shows pct chain rows [] h = tt
  All-Shows pct chain rows (x ∷ xs) h =
      ((h.0.0, h.0.1 ∙ ledger_amounts-total x.mint rows), All-Shows pct chain rows xs h.1)

-- For the table of rows that the reconciliation reads: the report lists every mint, and no other, whose
-- chain amount (SOL less the reserve) and total of the ledger's rows differ, and by more than the
-- tolerance's share of the larger; each mismatch shows these two amounts; and the report is ok exactly
-- when each mismatch has a mark and decimals, and so its difference as its USD value, and the sum of
-- these values is at most the limit's share of a positive equity (where equity is not positive, the
-- share counts as one if there is a mismatch, and as zero if there is none).
pub report_of_complete :
    (D : DecimalOps) (cfg : ReconcileCfg D) (s : ChainState D) (trades : List (AgentTrade D.Num))
    (now : ℕ) (counts : Counts) (rows : List (Position D.Num))
    → let r = report_of D cfg s trades now counts (positions rows) in
      let chain = chain_amounts cfg.reserve_lamports s.holdings in
      let marks = marks_with_usdc D (s.usd_prices (sorted_set (keys_of chain))) in
      ((k : String)
        → (is_listed k r.mismatches ≡ true)
          ↔ Differ D cfg.mismatch_amount_pct (lookup_or k (pos 0) chain) (total k rows))
      × All (Shows D chain rows) r.mismatches
      × ((r.ok ≡ true) ↔ (
          All (IsValued D marks (decimals_of cfg.token_decimals)) r.mismatches
          × IsSmall D cfg.block_pct r.equity_usd r.mismatches))
unfolding report_of
report_of_complete D cfg s trades now counts rows =
    let held = positions rows in
    let chain = chain_amounts cfg.reserve_lamports s.holdings in
    let pct = cfg.mismatch_amount_pct in
    let marks = marks_with_usdc D (s.usd_prices (sorted_set (keys_of chain))) in
    let equity = (report_of D cfg s trades now counts held).equity_usd in
    let t = compared D cfg s held marks in
    let sound = compared-Sound D cfg s held marks in
    let v = compared-Valued D cfg s held marks in
    let (small, share) = mismatch_pct-IsSmall D cfg.block_pct equity t v.summed in
    let at : (k : String) → lookup_or k (pos 0) (ledger_amounts held) ≡ total k rows =
      λ k. ledger_amounts-total k rows in
    (
      (λ k.
          let (f, g) = within_tolerance-Differ D pct (lookup_or k (pos 0) chain) (total k rows) in
          (
            (λ h. f (
                subst (λ b. within_tolerance D pct (lookup_or k (pos 0) chain) b ≡ false) (at k)
                  (listed_far D pct chain (ledger_amounts held) k t.mismatches sound.real h))),
            (λ d. compared-lists D cfg s held marks k (
                subst (λ b. within_tolerance D pct (lookup_or k (pos 0) chain) b ≡ false)
                  (sym (at k)) (g d))),
          )),
      All-Shows D pct chain rows t.mismatches sound.real,
      (
        (λ ok. (v.valued (ground (arith, ok)), small (ground (arith, ok)))),
        (λ h.
            let marked : t.unmarked ≡ false = elim (Bool-cases t.unmarked) [
              | inr e ↦ e
              | inl e ↦ absurd (v.unvalued e h.0)
            ] in
            ground (arith, marked, share h.1)),
      ),
    )
