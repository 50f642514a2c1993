-- ===== src/Reconcile/Compare.antt =====
-- The comparison of `reconcile` in src/tiller/risk/reconcile.py: the chain's amounts, the ledger's, and
-- the tally of their mismatches.
use agent_trading.Base.{
  ℕ, Bool, true, Option, none, some, List, [], ◌∷◌, ◌++◌, String, if◌then◌else◌, ◌||◌,
}
use agent_trading.Base.Int.{ℤ, pos, ◌+ℤ◌, ◌-ℤ◌, ltb_ℤ, eqb_ℤ, max_ℤ}
use agent_trading.Base.Text.{str_eq}
use agent_trading.Base.Dict.{Dict, lookup, lookup_or, insert}
use agent_trading.Decimal.{DecimalOps}
use agent_trading.Models.{Position, sol_mint, usdc_mint}
use agent_trading.Account.{holding_units}

pub record Mismatch (N : Type 0) : Type 0 where
  pub mint : String
  pub chain_base : ℤ
  pub ledger_base : ℤ
  pub usd_diff : Option N

abbrev pub abs_ℤ : ℤ → ℤ
abs_ℤ a = if ltb_ℤ a (pos 0) then pos 0 -ℤ a else a

abbrev pub keys_of : {N : Type 0} → Dict N → List String
keys_of [] = []
keys_of ((k, v) ∷ d) = k ∷ keys_of d

-- `{m: b for m, b in holdings.items() if m != SOL_MINT}`
unfoldable pub without_sol : Dict ℤ → Dict ℤ
without_sol [] = []
without_sol ((m, b) ∷ d) = if str_eq m sol_mint then without_sol d else (m, b) ∷ without_sol d

abbrev at_least_zero : ℤ → ℤ
at_least_zero a = max_ℤ (pos 0) a

-- `chain`: the amounts that the ledger should have, SOL less the reserve.
unfoldable pub chain_amounts : ℤ → Dict ℤ → Dict ℤ
chain_amounts reserve holdings =
    without_sol holdings
    ++ (sol_mint, at_least_zero (lookup_or sol_mint (pos 0) holdings -ℤ reserve)) ∷ []

-- `{SOL_MINT: 9, USDC_MINT: 6, **token_decimals}`
unfoldable pub decimals_with : Dict ℕ → Dict ℕ → Dict ℕ
decimals_with [] d = d
decimals_with ((m, n) ∷ r) d = decimals_with r (insert m n d)

abbrev pub decimals_of : Dict ℕ → Dict ℕ
decimals_of token_decimals = decimals_with token_decimals ((sol_mint, 9) ∷ (usdc_mint, 6) ∷ [])

module _ {N : Type 0} where
  -- `_ledger_amounts`, from a start.
  unfoldable pub amounts_from : Dict ℤ → List (Position N) → Dict ℤ
  amounts_from out [] = out
  amounts_from out (p ∷ ps) =
      amounts_from (insert p.mint (lookup_or p.mint (pos 0) out +ℤ p.amount_base) out) ps

  unfoldable pub ledger_amounts : List (Position N) → Dict ℤ
  ledger_amounts ps = amounts_from [] ps

module _ (D : DecimalOps) where
  open D use {Num, of_ℤ, add, mul, div, leb as leb_d, to_integral}

  -- Equity from the chain's balances, from a start.
  unfoldable pub equity_from : Dict Num → Dict ℕ → Num → Dict ℤ → Num
  equity_from marks decimals acc [] = acc
  equity_from marks decimals acc ((m, base) ∷ d) =
      let next : Num = elim (lookup m marks) [
        | none ↦ acc
        | some mark ↦ elim (lookup m decimals) [
          | none ↦ acc
          | some dec ↦ add acc (mul (holding_units D base dec) mark)
        ]
      ] in
      equity_from marks decimals next d

  -- `mismatches`, `usd_total` and `unmarked`.
  pub record Tally : Type 0 where
    pub mismatches : List (Mismatch Num)
    pub usd_total : Num
    pub unmarked : Bool

  -- `usd` of a mismatch.
  abbrev pub usd_of : Dict Num → Dict ℕ → String → ℤ → Option Num
  usd_of marks decimals mint diff = elim (lookup mint marks) [
    | none ↦ none
    | some mark ↦ elim (lookup mint decimals) [
      | none ↦ none
      | some dec ↦ some (mul (holding_units D diff dec) mark)
    ]
  ]

  abbrev pub add_mismatch : String → ℤ → ℤ → Option Num → Tally → Tally
  add_mismatch mint c led usd t = record {
    mismatches =
        t.mismatches
        ++ record { mint = mint; chain_base = c; ledger_base = led; usd_diff = usd } ∷ [];
    usd_total = elim usd [ none ↦ t.usd_total | some u ↦ add t.usd_total u ];
    unmarked = elim usd [ none ↦ true | some _ ↦ t.unmarked ];
  }

  -- The amounts differ by no more than `mismatch_amount_pct` of the larger.
  abbrev pub within_tolerance : Num → ℤ → ℤ → Bool
  within_tolerance pct c led =
      let diff = abs_ℤ (c -ℤ led) in
      eqb_ℤ diff (pos 0) || leb_d (of_ℤ diff) (mul pct (of_ℤ (max_ℤ c led)))

  unfoldable pub compare_from :
      Num → Dict Num → Dict ℕ → Dict ℤ → Dict ℤ → List String → Tally → Tally
  compare_from pct marks decimals chain ledger [] t = t
  compare_from pct marks decimals chain ledger (mint ∷ mints) t =
      let c = lookup_or mint (pos 0) chain in
      let led = lookup_or mint (pos 0) ledger in
      let usd = usd_of marks decimals mint (abs_ℤ (c -ℤ led)) in
      compare_from pct marks decimals chain ledger mints
        (if within_tolerance pct c led then t else add_mismatch mint c led usd t)
