-- ===== src/Venue/Swap.antt =====
-- `LiveSolanaVenue.swap` of src/tiller/execution/venue.py: every check, then signature, record,
-- execute, confirm and finalize. A run is the list of its effects and its end. `Network` holds what
-- Jupiter, the RPC node, the token service and the signer answer to this call. An exception of theirs
-- before the order is recorded ends the call without a row, and is not modelled; one of the three loops
-- after it ends the call with `raised`.
pub mod Checked
pub mod Row
use agent_trading.Base.{
  ℕ, ◌+◌, ◌*◌, Bool, true, false, Option, none, some, List, [], ◌∷◌, ◌++◌, String, if◌then◌else◌,
  not, ◌&&◌, ◌||◌, map,
}
use agent_trading.Base.Int.{ℤ, pos, ◌+ℤ◌, ◌-ℤ◌, ltb_ℤ}
use agent_trading.Base.Text.{str_eq, str_in}
use agent_trading.Base.Dict.{Dict}
use agent_trading.Decimal.{DecimalOps, one_d, lt_d}
use agent_trading.Models.{SwapRequest, Fill, Order, TokenAccount, sol_mint, usdc_mint}
use agent_trading.Guard.Quote.{QuoteCfg, QuoteReject, check_quote}
use agent_trading.Guard.Transaction.{TxCheck, passed, TxCfg, Transaction, check_transaction}
use agent_trading.Guard.Simulation.{
  SimResult, SimExpectations, check_simulation, lamport_fee_allowance,
}
use agent_trading.Venue.{ExecCfg, slippage_for, non_usdc_leg, min_out, units}
use agent_trading.Venue.Realised.{ChainTx, realised_fill_from_tx}
use agent_trading.Venue.Loops.{
  Reply, Executed, executed, exec_uncertain, exec_raised, exec_out_of_fuel, execute_with_resubmit,
  Status, Confirmed, confirmed, confirm_failed, confirm_uncertain, confirm_raised,
  confirm_out_of_fuel, confirm, Fetch, Fetched, fetched, fetch_uncertain, fetch_raised,
  fetch_out_of_fuel, fetch_transaction,
}

-- The stages of `GuardRejected`.
pub data Stage : Type 0 where
  pair gate quote probe transaction reserve simulation : Stage

-- What a call does to the ledger, the event log, the signer and the network.
pub data Effect : Type 0 where
  guard_rejected : Stage → Effect
  sim_rejected sim_ok signed order_recorded signature_mismatch : Effect
  executes : ℕ → Effect
  finalized_failed finalized_filled : Effect

module _ (D : DecimalOps) where
  open D use {Num, leb as leb_d}

  -- How a call ends. `value_error` is the one of the realised fill, `raised` an exception of a client.
  pub data Ended : Type 0 where
    rejected : Stage → Ended
    failed uncertain raised value_error out_of_fuel : Ended
    filled : Fill Num → Ended

  pub record Run : Type 0 where
    pub effects : List Effect
    pub ended : Ended

  -- The answers; times are since the start of each loop.
  pub record Network : Type 0 where
    pub wallet : String
    pub gate_ok : Bool
    pub decimals : String → ℕ
    pub order : ℕ → Order Num
    pub round_trip_cost : Num → Num
    pub owned : List TokenAccount
    pub tx : Option Transaction
    pub wsol_ata : String
    pub default_signature : String
    pub default_hash : String
    pub balance : ℤ
    pub account_of : String → String
    pub simulate : List String → SimResult
    pub pubkey_b58 : List ℕ → String
    pub signature : String
    pub reply : ℕ → Reply
    pub resubmit_elapsed : ℕ → ℕ
    pub status : ℕ → Status
    pub confirm_elapsed : ℕ → ℕ
    pub fetch : ℕ → Fetch
    pub fetch_elapsed : ℕ → ℕ

  -- `GuardCfg`
  pub record GuardCfg : Type 0 where
    pub quotes : QuoteCfg Num
    pub transactions : TxCfg

  abbrev pub pubkeys : List TokenAccount → List String
  pubkeys [] = []
  pubkeys (a ∷ r) = a.pubkey ∷ pubkeys r

  -- `list(dict.fromkeys(xs))`, with `seen` for the keys so far.
  unfoldable pub unique_from : List String → List String → List String
  unique_from seen [] = []
  unique_from seen (x ∷ xs) =
      let skipped = unique_from seen xs in
      let kept = unique_from (x ∷ seen) xs in if str_in x seen then skipped else x ∷ kept

  abbrev pub sol_spend : SwapRequest → Order Num → ℤ
  sol_spend req order = if str_eq req.input_mint sol_mint then order.in_amount else pos 0

  -- The expectations that the simulation must meet.
  unfoldable pub expectations : SwapRequest → ExecCfg Num → Network → Order Num → SimExpectations
  expectations req cfg net order = record {
    wallet = net.wallet;
    input_mint = req.input_mint;
    output_mint = req.output_mint;
    in_base = order.in_amount;
    min_out_base = min_out order.out_amount (slippage_for req cfg);
    max_lamport_drop = sol_spend req order +ℤ lamport_fee_allowance;
    owned_token_accounts = net.owned;
    pre_lamports = net.balance;
    input_account = some (net.account_of req.input_mint);
    output_account = some (net.account_of req.output_mint);
  }

  unfoldable pub addresses : SwapRequest → Network → List String
  addresses req net = unique_from [] (
      net.wallet
      ∷ (pubkeys net.owned ++ net.account_of req.input_mint ∷ net.account_of req.output_mint ∷ []))

  abbrev pub is_entry : SwapRequest → ExecCfg Num → Bool
  is_entry req cfg = not (str_in req.output_mint cfg.allowlist_mints)

  abbrev pub probe_cost : Network → Order Num → Num
  probe_cost net order = net.round_trip_cost (units D order.in_amount 6)

  abbrev pub tx_check : GuardCfg → Network → TxCheck
  tx_check guard net =
      check_transaction net.default_signature net.default_hash net.wallet net.wsol_ata
        (pubkeys net.owned) guard.transactions net.tx

  abbrev is_passed : TxCheck → Bool
  is_passed passed = true
  is_passed _ = false

  abbrev pub is_none : {A : Type 0} → Option A → Bool
  is_none none = true
  is_none (some _) = false

  -- The checks in their order: the first that fails, or `none`.
  unfoldable pub first_failure : SwapRequest → Num → ExecCfg Num → GuardCfg → Network → Option Stage
  first_failure req ref cfg guard net =
      let slippage = slippage_for req cfg in
      let order = net.order slippage in
      let entry = is_entry req cfg in
      let spare = net.balance -ℤ sol_spend req order -ℤ lamport_fee_allowance in
      let sim = net.simulate (addresses req net) in
      if is_none (non_usdc_leg req)
      then some pair
      else (if entry && not net.gate_ok
          then some gate
          else (if not (
                is_none (
                  check_quote D req order ref (net.decimals req.input_mint)
                    (net.decimals req.output_mint) guard.quotes))
              then some quote
              else (if entry && lt_d D cfg.max_round_trip_token (probe_cost net order)
                  then some probe
                  else (if not (is_passed (tx_check guard net))
                      then some transaction
                      else (if ltb_ℤ spare (pos cfg.sol_reserve_lamports)
                          then some reserve
                          else (if not (
                                is_none (
                                  check_simulation net.pubkey_b58 sim
                                    (expectations req cfg net order)))
                              then some simulation
                              else none))))))

  -- The events of a rejection; that of the pair writes none.
  abbrev pub rejection : Stage → List Effect
  rejection pair = []
  rejection simulation = sim_rejected ∷ guard_rejected simulation ∷ []
  rejection s = guard_rejected s ∷ []

  abbrev pub mismatch : String → Option String → List Effect
  mismatch own none = []
  mismatch own (some s) = if str_eq s own || str_eq s "" then [] else signature_mismatch ∷ []

  -- `annotate` is the `model_copy` of the fill.
  abbrev pub finished : (Fill Num → Fill Num) → Option (Fill Num) → Run
  finished annotate none = record { effects = []; ended = value_error }
  finished annotate (some f) = record {
    effects = finalized_filled ∷ [];
    ended = filled (annotate f);
  }

  -- The quote and the probe on the fill.
  abbrev pub annotated : SwapRequest → ExecCfg Num → Network → Fill Num → Fill Num
  annotated req cfg net f =
      let order = net.order (slippage_for req cfg) in
      record f {
        quote_out_base = order.out_amount;
        round_trip_probe_pct = if is_entry req cfg then some (probe_cost net order) else none;
        mode = req.mode;
      }

  -- From the transaction on.
  abbrev pub after_fetch : SwapRequest → Dict Num → (Fill Num → Fill Num) → Network → Fetched → Run
  after_fetch req marks annotate net (fetched tx) =
      finished annotate (realised_fill_from_tx D tx net.wallet req marks)
  after_fetch req marks annotate net fetch_uncertain = record { effects = []; ended = uncertain }
  after_fetch req marks annotate net fetch_raised = record { effects = []; ended = raised }
  after_fetch req marks annotate net fetch_out_of_fuel = record {
    effects = [];
    ended = out_of_fuel;
  }

  -- From the confirmation on.
  abbrev pub after_confirm :
      SwapRequest → Dict Num → (Fill Num → Fill Num) → ExecCfg Num → Network → ℕ → Confirmed → Run
  after_confirm req marks annotate cfg net polls confirmed =
      after_fetch req marks annotate net
        (fetch_transaction net.fetch net.fetch_elapsed cfg.confirm_timeout polls)
  after_confirm req marks annotate cfg net polls confirm_raised = record {
    effects = [];
    ended = raised;
  }
  after_confirm req marks annotate cfg net polls confirm_failed = record {
    effects = finalized_failed ∷ [];
    ended = failed;
  }
  after_confirm req marks annotate cfg net polls confirm_uncertain = record {
    effects = [];
    ended = uncertain;
  }
  after_confirm req marks annotate cfg net polls confirm_out_of_fuel = record {
    effects = [];
    ended = out_of_fuel;
  }

  -- Effects before those of a run.
  abbrev pub after : List Effect → Run → Run
  after es r = record { effects = es ++ r.effects; ended = r.ended }

  -- From the calls of `execute` on.
  abbrev pub after_execute :
      SwapRequest → Dict Num → (Fill Num → Fill Num) → ExecCfg Num → Network → ℕ → Executed → Run
  after_execute req marks annotate cfg net polls (executed true signature n) =
      after (executes n ∷ mismatch net.signature signature) (
        after_confirm req marks annotate cfg net polls
          (confirm net.status net.confirm_elapsed cfg.confirm_timeout polls))
  after_execute req marks annotate cfg net polls (executed false signature n) = record {
    effects = executes n ∷ finalized_failed ∷ [];
    ended = failed;
  }
  after_execute req marks annotate cfg net polls (exec_uncertain n) = record {
    effects = executes n ∷ [];
    ended = uncertain;
  }
  after_execute req marks annotate cfg net polls (exec_raised n) = record {
    effects = executes n ∷ [];
    ended = raised;
  }
  after_execute req marks annotate cfg net polls exec_out_of_fuel = record {
    effects = [];
    ended = out_of_fuel;
  }

  abbrev pub marks_of : Option String → Num → Dict Num
  marks_of none ref = (usdc_mint, one_d D) ∷ []
  marks_of (some leg) ref = (leg, ref) ∷ (usdc_mint, one_d D) ∷ []

  -- From the outcome of the checks on. `polls` bounds the turns of each of the two loops that poll.
  abbrev pub swap_from : SwapRequest → Num → ExecCfg Num → Network → ℕ → Option Stage → Run
  swap_from req ref cfg net polls (some stage) = record {
    effects = rejection stage;
    ended = rejected stage;
  }
  swap_from req ref cfg net polls none = after (sim_ok ∷ signed ∷ order_recorded ∷ []) (
      after_execute req (marks_of (non_usdc_leg req) ref) (annotated req cfg net) cfg net polls (
        execute_with_resubmit net.reply net.resubmit_elapsed cfg.execute_resubmits
          cfg.resubmit_window))

  unfoldable pub swap : SwapRequest → Num → ExecCfg Num → GuardCfg → Network → ℕ → Run
  swap req ref cfg guard net polls =
      swap_from req ref cfg net polls (first_failure req ref cfg guard net)
