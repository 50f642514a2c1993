-- ===== src/Reconcile.antt =====
-- `reconcile` of src/tiller/risk/reconcile.py: the ledger's positions against the chain's amounts. The
-- chain's balances and the price source's answer are arguments; events are left out.
pub mod Pending
pub mod Compare
pub mod Propose
pub mod Amounts
pub mod Marked
pub mod Shares
pub mod Complete
use agent_trading.Base.{
  ℕ, ◌+◌, Bool, true, false, Option, none, some, List, [], ◌∷◌, ◌++◌, String, if◌then◌else◌, not,
  ◌&&◌, ◌||◌, ltb, leb, length, filter, map,
}
use agent_trading.Base.Int.{ℤ, pos, ◌+ℤ◌, ◌-ℤ◌, leb_ℤ, ltb_ℤ, eqb_ℤ, max_ℤ}
use agent_trading.Base.Text.{str_eq, str_in, append}
use agent_trading.Base.Dict.{Dict, lookup, lookup_or, insert}
use agent_trading.Base.Sort.{sort_by}
use agent_trading.Base.Sets.{sorted_set}
use agent_trading.Decimal.{DecimalOps, zero_d, one_d, lt_d, sum_d}
use agent_trading.Models.{Position, ExitRule, sol_mint, usdc_mint}
use agent_trading.Account.{holding_units}
use agent_trading.Ledger.Positions.{positions, rows_of, replace_positions}
use agent_trading.Ledger.Orders.{Ledger}
use agent_trading.Ledger.Fills.{Book}
use agent_trading.Reconcile.Pending.{Counts, Answers, finalize_pending}
use agent_trading.Reconcile.Compare.{
  Mismatch, abs_ℤ, keys_of, without_sol, chain_amounts, decimals_of, amounts_from, ledger_amounts,
  equity_from, Tally, usd_of, add_mismatch, within_tolerance, compare_from,
}
use agent_trading.Reconcile.Propose.{AgentTrade, with_time_stop, Proposal, propose_from}

pub record ReconcileReport (N : Type 0) : Type 0 where
  pub ok : Bool
  pub mismatches : List (Mismatch N)
  pub usd_mismatch_pct : N
  pub backfilled : ℕ
  pub counts : Counts
  pub proposed : List (Position N)
  pub equity_usd : N
  pub notes : List String

module _ (D : DecimalOps) where
  open D use {Num, of_ℤ, add, mul, div, leb as leb_d, to_integral}

  -- The keyword arguments of the call.
  pub record ReconcileCfg : Type 0 where
    pub reserve_lamports : ℤ
    pub token_decimals : Dict ℕ
    pub mismatch_amount_pct : Num
    pub block_pct : Num
    pub accept : Bool

  -- What the chain and the price source answer: USDC, the holdings, and the marks if there is no
  -- exception.
  pub record ChainState : Type 0 where
    pub usdc_base : ℤ
    pub holdings : Dict ℤ
    pub usd_prices : List String → Option (Dict Num)

  abbrev pub marks_with_usdc : Option (Dict Num) → Dict Num
  marks_with_usdc none = (usdc_mint, one_d D) ∷ []
  marks_with_usdc (some d) = insert usdc_mint (one_d D) d

  abbrev pub mismatch_pct : Num → Tally D → Num
  mismatch_pct equity t =
      if lt_d D (zero_d D) equity
      then div t.usd_total equity
      else elim t.mismatches [ [] ↦ zero_d D | _ ∷ _ ↦ one_d D ]

  abbrev unmarked_notes : Bool → List String
  unmarked_notes unmarked =
      if unmarked
      then "a mismatched mint has no mark or unknown decimals (fail closed)" ∷ []
      else []

  -- The tally of the mismatches, and the marks that it is made at.
  unfoldable pub compared : ReconcileCfg → ChainState → List (Position Num) → Dict Num → Tally D
  compared cfg s held marks =
      let chain = chain_amounts cfg.reserve_lamports s.holdings in
      let ledger = ledger_amounts held in
      compare_from D cfg.mismatch_amount_pct marks (decimals_of cfg.token_decimals) chain ledger
        (sorted_set (keys_of chain ++ keys_of ledger))
        (record { mismatches = []; usd_total = zero_d D; unmarked = false })

  unfoldable pub report_of :
      ReconcileCfg
      → ChainState
      → List (AgentTrade Num)
      → ℕ
      → Counts
      → List (Position Num)
      → ReconcileReport Num
  report_of cfg s trades now counts held =
      let chain = chain_amounts cfg.reserve_lamports s.holdings in
      let decimals = decimals_of cfg.token_decimals in
      let marks = marks_with_usdc (s.usd_prices (sorted_set (keys_of chain))) in
      let equity = equity_from D marks decimals (holding_units D s.usdc_base 6) s.holdings in
      let t = compared cfg s held marks in
      let pct = mismatch_pct equity t in
      let p =
        propose_from D marks decimals trades now held chain
          (record { proposed = []; backfilled = 0; notes = unmarked_notes t.unmarked }) in
      record {
        ok = leb_d pct cfg.block_pct && not t.unmarked;
        mismatches = t.mismatches;
        usd_mismatch_pct = pct;
        backfilled = p.backfilled;
        counts = counts;
        proposed = if cfg.accept then map (with_time_stop now) p.proposed else p.proposed;
        equity_usd = equity;
        notes = p.notes;
      }

  abbrev with_rows : List (Position Num) → Ledger Num → Ledger Num
  with_rows rows l = record l { book = record { fills = l.book.fills; rows = rows } }

  abbrev accept_report :
      Bool → ReconcileReport Num → Ledger Num → Option (ReconcileReport Num × Ledger Num)
  accept_report false r l = some (r, l)
  accept_report true r l = elim (replace_positions r.proposed) [
    | none ↦ none
    | some rows ↦ some (r, with_rows rows l)
  ]

  -- Once `finalize_pending` has returned; `none` is an error of a database constraint.
  unfoldable pub reconcile_positions :
      ReconcileCfg
      → ChainState
      → List (AgentTrade Num)
      → ℕ
      → Counts
      → Ledger Num
      → Option (ReconcileReport Num × Ledger Num)
  reconcile_positions cfg s trades now counts l =
      accept_report cfg.accept (report_of cfg s trades now counts (positions l.book.rows)) l

  unfoldable pub reconcile :
      Answers Num
      → ReconcileCfg
      → ChainState
      → List (AgentTrade Num)
      → ℕ
      → ℕ
      → Ledger Num
      → Option (ReconcileReport Num × Ledger Num)
  reconcile a cfg s trades now grace l = elim (finalize_pending D a now grace l) [
    | none ↦ none
    | some (counts, m) ↦ reconcile_positions cfg s trades now counts m
  ]
