-- ===== src/Reconcile/Pending.antt =====
-- `finalize_pending` of src/tiller/risk/reconcile.py. The chain's and the price source's answers are
-- arguments; the events that it logs are left out.
pub mod Rows
pub mod Leaves
use agent_trading.Base.{
  ℕ, ◌+◌, Bool, true, false, Option, none, some, List, [], ◌∷◌, String, if◌then◌else◌, not, ◌&&◌,
  ◌||◌, ltb, filter,
}
use agent_trading.Base.Int.{ℤ, pos}
use agent_trading.Base.Text.{str_eq, append, is_text}
use agent_trading.Base.Dict.{Dict, lookup, lookup_or, insert}
use agent_trading.Decimal.{DecimalOps, zero_d, one_d}
use agent_trading.Models.{Fill, SwapRequest, sol_mint, usdc_mint}
use agent_trading.Venue.Realised.{ChainTx, realised_fill_from_tx}
use agent_trading.Ledger.Orders.{OrderRow, Ledger, is_submitted, finalize_order}

-- A signature's status: the text of its error, and whether it is confirmed or finalized.
pub record TxStatus : Type 0 where
  pub err : Option String
  pub confirmed : Bool

-- What the chain and the price source answer; `none` for prices is an exception.
pub record Answers (N : Type 0) : Type 0 where
  pub status : String → Option TxStatus
  pub tx : String → Option ChainTx
  pub usd_prices : List String → Option (Dict N)
  pub wallet : String

abbrev pub signature_of : OrderRow → String
signature_of r = elim r.signature [ none ↦ "" | some s ↦ s ]

-- `[r for r in ledger.orders(state="submitted") if r.get("signature")]`
abbrev pub is_pending : OrderRow → Bool
is_pending r = is_submitted r.state && is_text (signature_of r)

unfoldable pub pending_rows : List OrderRow → List OrderRow
pending_rows rows = filter is_pending rows

-- `leg`
abbrev pub leg_of : SwapRequest → String
leg_of req = if str_eq req.input_mint usdc_mint then req.output_mint else req.input_mint

-- What a turn of the loop does with its order.
pub data Outcome (N : Type 0) : Type 0 where
  fails : String → Outcome N
  fills : Fill N → Outcome N
  waits : Outcome N

-- `failed`, `finalized` and `pending`.
pub record Counts : Type 0 where
  pub finalized : ℕ
  pub failed : ℕ
  pub pending : ℕ

abbrev pub zero_counts : Counts
zero_counts = record { finalized = 0; failed = 0; pending = 0 }

abbrev or_empty : {N : Type 0} → Option (Dict N) → Dict N
or_empty none = []
or_empty (some d) = d

abbrev with_sol : {N : Type 0} → Option N → Dict N → Dict N
with_sol none marks = marks
with_sol (some p) marks = insert sol_mint p marks

module _ (D : DecimalOps) where
  open D use {Num}

  -- `marks`
  unfoldable pub marks_of : String → Option (Dict Num) → Dict Num
  marks_of leg answer =
      let fetched = or_empty answer in
      with_sol (lookup sol_mint fetched)
        (insert leg (lookup_or leg (zero_d D) fetched) ((usdc_mint, one_d D) ∷ []))

  -- The USDC leg is the truth for the other leg's value.
  abbrev pub corrected : SwapRequest → Fill Num → Fill Num
  corrected req f =
      if str_eq f.in_mint usdc_mint
      then record f { mode = req.mode; usd_out = f.usd_in }
      else (if str_eq f.out_mint usdc_mint
          then record f { mode = req.mode; usd_in = f.usd_out }
          else record f { mode = req.mode })

  -- A transaction that is confirmed.
  abbrev pub filled_outcome : SwapRequest → Option (Fill Num) → Outcome Num
  filled_outcome req none = fails "transaction did not show the swap"
  filled_outcome req (some f) = fills (corrected req f)

  abbrev pub confirmed_outcome : Answers Num → OrderRow → Option ChainTx → Outcome Num
  confirmed_outcome a row none = waits
  confirmed_outcome a row (some tx) =
      let leg = leg_of row.req in
      let marks = marks_of leg (a.usd_prices (leg ∷ sol_mint ∷ [])) in
      filled_outcome row.req (realised_fill_from_tx D tx a.wallet row.req marks)

  abbrev pub seen_outcome : Answers Num → OrderRow → TxStatus → Option String → Outcome Num
  seen_outcome a row st (some e) = fails (append "on-chain error " e)
  seen_outcome a row st none =
      if st.confirmed then confirmed_outcome a row (a.tx (signature_of row)) else waits

  abbrev pub status_outcome : Answers Num → ℕ → ℕ → OrderRow → Option TxStatus → Outcome Num
  status_outcome a now grace row none =
      if ltb (row.ts + grace) now
      then fails "not found on chain after grace period (dropped)"
      else waits
  status_outcome a now grace row (some st) = seen_outcome a row st st.err

  unfoldable pub outcome : Answers Num → ℕ → ℕ → OrderRow → Outcome Num
  outcome a now grace row = status_outcome a now grace row (a.status (signature_of row))

  -- The loop; `none` is the `KeyError` of an unknown order.
  abbrev apply_outcome :
      OrderRow → ℕ → Outcome Num → Counts → Ledger Num → Option (Counts × Ledger Num)
  apply_outcome row now (fails e) c l = elim (finalize_order D row.id none (some e) now l) [
    | none ↦ none
    | some m ↦ some (record c { failed = c.failed + 1 }, m)
  ]
  apply_outcome row now (fills f) c l = elim (finalize_order D row.id (some f) none now l) [
    | none ↦ none
    | some m ↦ some (record c { finalized = c.finalized + 1 }, m)
  ]
  apply_outcome row now waits c l = some (record c { pending = c.pending + 1 }, l)

  unfoldable pub settle_rows :
      Answers Num → ℕ → ℕ → List OrderRow → Counts → Ledger Num → Option (Counts × Ledger Num)
  settle_rows a now grace [] c l = some (c, l)
  settle_rows a now grace (row ∷ rows) c l =
      elim (apply_outcome row now (outcome a now grace row) c l) [
        | none ↦ none
        | some (c', l') ↦ settle_rows a now grace rows c' l'
      ]

  -- `now` is the time of the call; the rows are finalized at the same instant.
  unfoldable pub finalize_pending : Answers Num → ℕ → ℕ → Ledger Num → Option (Counts × Ledger Num)
  finalize_pending a now grace l = settle_rows a now grace (pending_rows l.orders) zero_counts l
