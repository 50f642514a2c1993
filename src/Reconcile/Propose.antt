-- ===== src/Reconcile/Propose.antt =====
-- The rows that `reconcile` of src/tiller/risk/reconcile.py proposes for the ledger.
use agent_trading.Base.{
  ℕ, ◌+◌, Bool, true, false, Option, none, some, List, [], ◌∷◌, ◌++◌, String, if◌then◌else◌, not,
  ◌&&◌, ltb, length, filter, map,
}
use agent_trading.Base.Int.{ℤ, pos, ◌+ℤ◌, leb_ℤ, ltb_ℤ, eqb_ℤ}
use agent_trading.Base.Text.{str_eq, append}
use agent_trading.Base.Dict.{Dict, lookup}
use agent_trading.Decimal.{DecimalOps, zero_d, one_d, lt_d, sum_d}
use agent_trading.Models.{Position, sol_mint}
use agent_trading.Account.{holding_units}
use agent_trading.Ledger.Positions.{rows_of}

abbrev pub reconciled_strategy : String
reconciled_strategy = "reconciled"

-- `RECONCILED_TIME_STOP`: 48 hours.
abbrev pub reconciled_time_stop : ℕ
reconciled_time_stop = 172800000000

-- The fields of `AgentTrade` that a cost is read from.
pub record AgentTrade (N : Type 0) : Type 0 where
  pub token : String
  pub is_buy : Bool
  pub amount : N
  pub usd_value : N
  pub time : ℕ

module _ {N : Type 0} where
  unfoldable pub sum_amounts : List (Position N) → ℤ
  sum_amounts [] = pos 0
  sum_amounts (p ∷ ps) = p.amount_base +ℤ sum_amounts ps

  -- The exit of a backfilled row that no strategy manages.
  abbrev pub has_exit : Position N → Bool
  has_exit p = elim p.exit [ none ↦ false | some _ ↦ true ]

  abbrev pub with_time_stop : ℕ → Position N → Position N
  with_time_stop now p =
      if str_eq p.strategy reconciled_strategy && not (str_eq p.mint sol_mint) && not (has_exit p)
      then record p {
        exit = some (record {
          stop_price = none;
          trail_pct = none;
          trail_from_gain_pct = none;
          time_stop_at = some (now + reconciled_time_stop);
          ema_exit = false;
        });
      }
      else p

  -- `t.time` of the earliest.
  unfoldable pub earliest : ℕ → List (AgentTrade N) → ℕ
  earliest first [] = first
  earliest first (t ∷ ts) = earliest (if ltb t.time first then t.time else first) ts

module _ (D : DecimalOps) where
  open D use {Num, of_ℤ, add, mul, div, leb as leb_d, to_integral}

  abbrev is_buy_of : String → AgentTrade Num → Bool
  is_buy_of mint t = str_eq t.token mint && t.is_buy && lt_d D (zero_d D) t.amount

  abbrev marked_cost : Num → Option Num → Num
  marked_cost units none = zero_d D
  marked_cost units (some mark) = mul units mark

  abbrev average_of : List (AgentTrade Num) → Num
  average_of buys =
      let usd = sum_d D (zero_d D) (map (λ t. t.usd_value) buys) in
      let amount = sum_d D (zero_d D) (map (λ t. t.amount) buys) in
      if lt_d D (zero_d D) amount then div usd amount else zero_d D

  abbrev backfilled_row : String → ℤ → Num → ℕ → Position Num
  backfilled_row mint base cost opened_at = record {
    mint = mint;
    amount_base = base;
    cost_usd = cost;
    opened_at = opened_at;
    strategy = reconciled_strategy;
    exit = none;
  }

  abbrev bought_row : String → ℤ → Num → Option Num → ℕ → List (AgentTrade Num) → Position Num
  bought_row mint base units mark now [] = backfilled_row mint base (marked_cost units mark) now
  bought_row mint base units mark now (t ∷ ts) =
      backfilled_row mint base (mul (average_of (t ∷ ts)) units) (earliest t.time ts)

  -- Without the agent's detail there are no trades.
  unfoldable pub backfill_cost :
      String → ℤ → ℕ → List (AgentTrade Num) → Option Num → ℕ → Position Num
  backfill_cost mint base decimals trades mark now =
      bought_row mint base (holding_units D base decimals) mark now (filter (is_buy_of mint) trades)

  -- A row scaled pro rata to the chain's amount; `n` is the number of rows.
  unfoldable pub scaled_row : ℤ → ℤ → ℕ → Position Num → Position Num
  scaled_row c total n p =
      let share =
        if ltb_ℤ (pos 0) total
        then div (of_ℤ p.amount_base) (of_ℤ total)
        else div (one_d D) (of_ℤ (pos n)) in
      let new_base = to_integral (mul (of_ℤ c) share) in
      record p {
        amount_base = new_base;
        cost_usd =
            if ltb_ℤ (pos 0) p.amount_base
            then div (mul p.cost_usd (of_ℤ new_base)) (of_ℤ p.amount_base)
            else p.cost_usd;
      }

  -- `proposed`, `backfilled` and `notes`.
  pub record Proposal : Type 0 where
    pub proposed : List (Position Num)
    pub backfilled : ℕ
    pub notes : List String

  abbrev propose_unknown :
      Dict Num → List (AgentTrade Num) → ℕ → String → ℤ → Option ℕ → Proposal → Proposal
  propose_unknown marks trades now mint c none p = record p {
    notes = p.notes ++ append mint ": decimals unknown, not proposed" ∷ [];
  }
  propose_unknown marks trades now mint c (some dec) p = record p {
    proposed = p.proposed ++ backfill_cost mint c dec trades (lookup mint marks) now ∷ [];
    backfilled = p.backfilled + 1;
  }

  -- The ledger's rows of a mint, for the chain's amount.
  abbrev pub fitted_rows : ℤ → List (Position Num) → List (Position Num)
  fitted_rows c rows =
      let total = sum_amounts rows in
      if eqb_ℤ total c then rows else map (scaled_row c total (length rows)) rows

  abbrev propose_known : ℤ → List (Position Num) → Proposal → Proposal
  propose_known c rows p = record p { proposed = p.proposed ++ fitted_rows c rows }

  abbrev propose_mint :
      Dict Num
      → Dict ℕ
      → List (AgentTrade Num)
      → ℕ
      → String
      → ℤ
      → List (Position Num)
      → Proposal
      → Proposal
  propose_mint marks decimals trades now mint c [] p =
      propose_unknown marks trades now mint c (lookup mint decimals) p
  propose_mint marks decimals trades now mint c (r ∷ rows) p = propose_known c (r ∷ rows) p

  unfoldable pub propose_from :
      Dict Num
      → Dict ℕ
      → List (AgentTrade Num)
      → ℕ
      → List (Position Num)
      → Dict ℤ
      → Proposal
      → Proposal
  propose_from marks decimals trades now held [] p = p
  propose_from marks decimals trades now held ((mint, c) ∷ chain) p =
      propose_from marks decimals trades now held chain (
        if leb_ℤ c (pos 0)
        then p
        else propose_mint marks decimals trades now mint c (rows_of mint held) p)
