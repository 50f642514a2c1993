-- ===== src/Account.antt =====
-- src/tiller/risk/account.py: the snapshot, drawdowns, the paper book and the chain balances, and
-- the deposit-adjusted peaks. Rows of the ledger and token accounts of the chain are arguments.
pub mod Peaks
pub mod Balances
use agent_trading.Base.{
  ℕ, ◌+◌, ◌-◌, ◌^◌, Bool, true, false, Option, none, some, List, [], ◌∷◌, String, if◌then◌else◌,
  not, ◌&&◌, ◌||◌, leb, ltb, ◌==◌,
}
use agent_trading.Base.Int.{ℤ, pos, ◌+ℤ◌, ◌-ℤ◌, leb_ℤ, ltb_ℤ}
use agent_trading.Base.Text.{str_eq}
use agent_trading.Base.Dict.{Dict, lookup, lookup_or, insert}
use agent_trading.Decimal.{DecimalOps, zero_d, one_d, max_d, lt_d}
use agent_trading.Models.{sol_mint, usdc_mint, Position, DayStats, TokenAccount}

-- The fields of `AccountSnapshot` that decisions read.
pub record AccountSnapshot (N : Type 0) : Type 0 where
  pub ts : ℕ
  pub equity_usd : N
  pub usdc_usd : N
  pub sol_lamports : ℤ
  pub positions : List (Position N)
  pub marks : Dict N
  pub net_deposits_usd : N
  pub day : DayStats N
  pub peak_7d : N
  pub peak_30d : N
  pub holdings : Dict ℤ
  pub decimals : Dict ℕ

-- `EquityPoint`, without the P&L that is not read here.
pub record EquityPoint (N : Type 0) : Type 0 where
  pub ts : ℕ
  pub equity_usd : N
  pub net_deposits_usd : N

-- A row of `transfers`, with `is_in` for the direction.
pub record Transfer : Type 0 where
  pub mint : String
  pub amount_base : ℤ
  pub is_in : Bool

-- The legs of a fill.
pub record Legs : Type 0 where
  pub in_mint : String
  pub out_mint : String
  pub in_base : ℤ
  pub out_base : ℤ
  pub paper : Bool

-- `balances[mint] = balances.get(mint, 0) + delta`
abbrev pub adjust : String → ℤ → Dict ℤ → Dict ℤ
adjust mint delta balances = insert mint (lookup_or mint (pos 0) balances +ℤ delta) balances

unfoldable pub apply_transfers : List Transfer → Dict ℤ → Dict ℤ
apply_transfers [] balances = balances
apply_transfers (t ∷ ts) balances =
    apply_transfers ts
      (adjust t.mint (if t.is_in then t.amount_base else pos 0 -ℤ t.amount_base) balances)

unfoldable pub apply_fills : List Legs → Dict ℤ → Dict ℤ
apply_fills [] balances = balances
apply_fills (f ∷ fs) balances = apply_fills fs (
    if f.paper
    then adjust f.out_mint f.out_base (adjust f.in_mint (pos 0 -ℤ f.in_base) balances)
    else balances)

-- The positive balances of mints other than USDC.
unfoldable pub positive_holdings : Dict ℤ → Dict ℤ
positive_holdings [] = []
positive_holdings ((m, b) ∷ r) =
    if not (str_eq m usdc_mint) && ltb_ℤ (pos 0) b
    then (m, b) ∷ positive_holdings r
    else positive_holdings r

abbrev pub max_zero : ℤ → ℤ
max_zero a = if ltb_ℤ (pos 0) a then a else pos 0

unfoldable pub paper_balances : List Transfer → List Legs → ℤ × Dict ℤ
unfolding apply_transfers apply_fills positive_holdings
paper_balances transfers fills =
    let balances = apply_fills fills (apply_transfers transfers []) in
    (max_zero (lookup_or usdc_mint (pos 0) balances), positive_holdings balances)

-- `usdc`, `lamports` and `holdings` of `chain_balances`.
pub record ChainBalances : Type 0 where
  pub usdc : ℤ
  pub lamports : ℤ
  pub tokens : Dict ℤ

abbrev add_account : TokenAccount → ChainBalances → ChainBalances
add_account a c =
    if str_eq a.mint usdc_mint
    then record c { usdc = c.usdc +ℤ pos a.amount_base }
    else (if str_eq a.mint sol_mint
        then record c { lamports = c.lamports +ℤ pos a.amount_base }
        else record c { tokens = adjust a.mint (pos a.amount_base) c.tokens })

-- The loop over the wallet's token accounts.
unfoldable pub add_accounts : String → List TokenAccount → ChainBalances → ChainBalances
add_accounts wallet [] c = c
add_accounts wallet (a ∷ r) c =
    add_accounts wallet r
      (if not (str_eq a.owner wallet) || (a.amount_base == 0) then c else add_account a c)

-- From the wallet's lamports and token accounts; wrapped SOL counts as SOL.
unfoldable pub chain_balances : String → ℤ → List TokenAccount → ℤ × Dict ℤ
unfolding add_accounts
chain_balances wallet lamports accounts =
    let c =
      add_accounts wallet accounts (record { usdc = pos 0; lamports = lamports; tokens = [] }) in
    (c.usdc, insert sol_mint c.lamports c.tokens)

abbrev days_7 : ℕ
days_7 = 604800000000

abbrev days_30 : ℕ
days_30 = 2592000000000

-- `timedelta`: the age of a point is at most a length of time (also for a point in the future).
abbrev pub within : ℕ → ℕ → ℕ → Bool
within now ts length_of = leb now (ts + length_of)

module _ (D : DecimalOps) where
  open D use {Num, of_ℤ, add, sub, div, leb as leb_d}

  unfoldable pub drawdown_from : AccountSnapshot Num → Num → Num
  drawdown_from acct peak =
      if leb_d peak (zero_d D)
      then zero_d D
      else max_d D (zero_d D) (sub (one_d D) (div acct.equity_usd peak))

  unfoldable pub holding_units : ℤ → ℕ → Num
  holding_units base decimals = div (of_ℤ base) (of_ℤ (pos (10 ^ decimals)))

  -- `none` is the `KeyError`.
  unfoldable pub mint_decimals_of : String → AccountSnapshot Num → Option ℕ
  mint_decimals_of mint acct =
      if str_eq mint sol_mint
      then some 9
      else (if str_eq mint usdc_mint then some 6 else lookup mint acct.decimals)

  -- `sorted(points, key=lambda x: x.ts)`, which keeps the order of equal instants.
  unfoldable pub insert_point : EquityPoint Num → List (EquityPoint Num) → List (EquityPoint Num)
  insert_point p [] = p ∷ []
  insert_point p (q ∷ r) = if leb p.ts q.ts then p ∷ q ∷ r else q ∷ insert_point p r

  unfoldable pub sort_points : List (EquityPoint Num) → List (EquityPoint Num)
  sort_points [] = []
  sort_points (p ∷ r) = insert_point p (sort_points r)

  pub record PeakState : Type 0 where
    pub peak_7 : Num
    pub peak_30 : Num
    pub first_7 : Option Num

  abbrev pub adjusted : Num → EquityPoint Num → Num
  adjusted now_deposits p = add (sub p.equity_usd p.net_deposits_usd) now_deposits

  abbrev first_of_all : Option Num → Num → Option Num
  first_of_all none a = some a
  first_of_all (some f) a = some f

  abbrev peak_step : Num → ℕ → EquityPoint Num → PeakState → PeakState
  peak_step now_deposits now p s =
      let a = adjusted now_deposits p in
      let in_7 = within now p.ts days_7 in
      record {
        peak_7 = if in_7 then max_d D s.peak_7 a else s.peak_7;
        peak_30 = if within now p.ts days_30 then max_d D s.peak_30 a else s.peak_30;
        first_7 = if in_7 then first_of_all s.first_7 a else s.first_7;
      }

  unfoldable pub peaks_from : Num → ℕ → List (EquityPoint Num) → PeakState → PeakState
  peaks_from now_deposits now [] s = s
  peaks_from now_deposits now (p ∷ r) s =
      peaks_from now_deposits now r (peak_step now_deposits now p s)

  abbrev gain_from : Num → Option Num → Num
  gain_from now_equity none = zero_d D
  gain_from now_equity (some f) =
      if lt_d D (zero_d D) f then sub (div now_equity f) (one_d D) else zero_d D

  -- (peak_7d, peak_30d, pnl_7d_pct)
  unfoldable pub deposit_adjusted_peaks : List (EquityPoint Num) → Num → Num → ℕ → Num × Num × Num
  unfolding peaks_from sort_points insert_point
  deposit_adjusted_peaks points now_equity now_deposits now =
      let s =
        peaks_from now_deposits now (sort_points points)
          (record { peak_7 = now_equity; peak_30 = now_equity; first_7 = none }) in
      (s.peak_7, s.peak_30, gain_from now_equity s.first_7)
