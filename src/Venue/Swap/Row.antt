-- ===== src/Venue/Swap/Row.antt =====
-- The ledger row that a call leaves behind.
use agent_trading.Base.{
  ℕ, ◌+◌, true, false, ◌≡◌, ◌≢◌, inl, inr, refl, ◌∙◌, Option, none, some, List, [], ◌∷◌, ◌++◌,
  arith, Option-cases, String, ◌<◌, ◌≤◌,
}
use agent_trading.Base.Dict.{Dict}
use agent_trading.Decimal.{DecimalOps}
use agent_trading.Models.{SwapRequest, Fill}
use agent_trading.Venue.{ExecCfg, non_usdc_leg}
use agent_trading.Venue.Realised.{realised_fill_from_tx}
use agent_trading.Venue.Loops.{
  Executed, executed, exec_uncertain, exec_raised, exec_out_of_fuel, execute_with_resubmit,
  execute_with_resubmit-Bounded, Bounded, Confirmed, confirmed, confirm_failed, confirm_uncertain,
  confirm_raised, confirm_out_of_fuel, confirm, confirm_ends, Fetched, fetched, fetch_uncertain,
  fetch_raised, fetch_out_of_fuel, fetch_transaction, fetch_transaction_ends,
}
use agent_trading.Venue.Swap.{
  Stage, Effect, order_recorded, finalized_failed, finalized_filled, Ended, rejected, failed,
  uncertain, raised, value_error, out_of_fuel, filled, Network, rejection, mismatch, finished,
  annotated, after_fetch, after_confirm, after_execute, GuardCfg, swap_from, marks_of,
  first_failure, swap, pair, gate, quote, probe, transaction, reserve, simulation,
}

-- The row of the order: none, submitted, failed, filled.
pub data RowStatus : Type 0 where
  no_row row_submitted row_failed row_filled : RowStatus

-- What the ledger holds after the effects.
abbrev pub row_after : RowStatus → List Effect → RowStatus
row_after r [] = r
row_after r (order_recorded ∷ es) = row_after row_submitted es
row_after r (finalized_failed ∷ es) = row_after row_failed es
row_after r (finalized_filled ∷ es) = row_after row_filled es
row_after r (_ ∷ es) = row_after r es

module _ (D : DecimalOps) where
  open D use {Num}

  -- The row that an end promises: a submitted row is left to the reconciliation.
  abbrev pub row_of : Ended D → RowStatus
  row_of (rejected s) = no_row
  row_of failed = row_failed
  row_of uncertain = row_submitted
  row_of raised = row_submitted
  row_of value_error = row_submitted
  row_of out_of_fuel = row_submitted
  row_of (filled f) = row_filled

  finished-row :
      (annotate : Fill Num → Fill Num) (f : Option (Fill Num))
      → row_after row_submitted (finished D annotate f).effects
        ≡ row_of (finished D annotate f).ended
  finished-row annotate none = refl
  finished-row annotate (some f) = refl

  after_fetch-row :
      (req : SwapRequest) (marks : Dict Num) (annotate : Fill Num → Fill Num) (net : Network D)
      (t : Fetched)
      → row_after row_submitted (after_fetch D req marks annotate net t).effects
        ≡ row_of (after_fetch D req marks annotate net t).ended
  after_fetch-row req marks annotate net (fetched tx) =
      finished-row annotate (realised_fill_from_tx D tx net.wallet req marks)
  after_fetch-row req marks annotate net fetch_uncertain = refl
  after_fetch-row req marks annotate net fetch_raised = refl
  after_fetch-row req marks annotate net fetch_out_of_fuel = refl

  after_confirm-row :
      (req : SwapRequest) (marks : Dict Num) (annotate : Fill Num → Fill Num) (cfg : ExecCfg Num)
      (net : Network D) (polls : ℕ) (c : Confirmed)
      → row_after row_submitted (after_confirm D req marks annotate cfg net polls c).effects
        ≡ row_of (after_confirm D req marks annotate cfg net polls c).ended
  after_confirm-row req marks annotate cfg net polls confirmed =
      after_fetch-row req marks annotate net
        (fetch_transaction net.fetch net.fetch_elapsed cfg.confirm_timeout polls)
  after_confirm-row req marks annotate cfg net polls confirm_failed = refl
  after_confirm-row req marks annotate cfg net polls confirm_uncertain = refl
  after_confirm-row req marks annotate cfg net polls confirm_raised = refl
  after_confirm-row req marks annotate cfg net polls confirm_out_of_fuel = refl

  mismatch-row :
      (own : String) (s : Option String) (r : RowStatus) (es : List Effect)
      → row_after r (mismatch D own s ++ es) ≡ row_after r es
  mismatch-row own none r es = refl
  mismatch-row own (some s) r es = ground arith

  after_execute-row :
      (req : SwapRequest) (marks : Dict Num) (annotate : Fill Num → Fill Num) (cfg : ExecCfg Num)
      (net : Network D) (polls : ℕ) (x : Executed)
      → row_after row_submitted (after_execute D req marks annotate cfg net polls x).effects
        ≡ row_of (after_execute D req marks annotate cfg net polls x).ended
  after_execute-row req marks annotate cfg net polls (executed true s n) =
      let c = confirm net.status net.confirm_elapsed cfg.confirm_timeout polls in
      mismatch-row net.signature s row_submitted
        (after_confirm D req marks annotate cfg net polls c).effects
      ∙ after_confirm-row req marks annotate cfg net polls c
  after_execute-row req marks annotate cfg net polls (executed false s n) = refl
  after_execute-row req marks annotate cfg net polls (exec_uncertain n) = refl
  after_execute-row req marks annotate cfg net polls (exec_raised n) = refl
  after_execute-row req marks annotate cfg net polls exec_out_of_fuel = refl

  rejection-row : (s : Stage) → row_after no_row (rejection D s) ≡ no_row
  rejection-row pair = refl
  rejection-row gate = refl
  rejection-row quote = refl
  rejection-row probe = refl
  rejection-row transaction = refl
  rejection-row reserve = refl
  rejection-row simulation = refl

  swap_from-row :
      (req : SwapRequest) (ref : Num) (cfg : ExecCfg Num) (net : Network D) (polls : ℕ)
      (o : Option Stage)
      → row_after no_row (swap_from D req ref cfg net polls o).effects
        ≡ row_of (swap_from D req ref cfg net polls o).ended
  swap_from-row req ref cfg net polls (some s) = rejection-row s
  swap_from-row req ref cfg net polls none = after_execute-row req _ _ cfg net polls _

  -- The row agrees with the end of the call: a rejection leaves none, a failure a failed one, a fill a
  -- filled one, and a call whose outcome is unknown, that a client's exception ends after the record, or whose fill
  -- cannot be read, a submitted one.
  pub swap-row :
      (req : SwapRequest) (ref : Num) (cfg : ExecCfg Num) (guard : GuardCfg D) (net : Network D)
      (polls : ℕ)
      → row_after no_row (swap D req ref cfg guard net polls).effects
        ≡ row_of (swap D req ref cfg guard net polls).ended
  unfolding swap
  swap-row req ref cfg guard net polls =
      swap_from-row req ref cfg net polls (first_failure D req ref cfg guard net)

  -- Nothing runs out of fuel: the calls of `execute` are bounded, and where the clocks of the loop that
  -- confirms and of the loop that fetches the transaction are past the timeout from turn `n` on,
  -- `n + 1` turns of each are enough.
  pub swap_ends :
      (req : SwapRequest) (ref : Num) (cfg : ExecCfg Num) (guard : GuardCfg D) (net : Network D)
      (n : ℕ)
      → ((k : ℕ) → n ≤ k → cfg.confirm_timeout < net.confirm_elapsed k)
      → ((k : ℕ) → n ≤ k → cfg.confirm_timeout < net.fetch_elapsed k)
      → (swap D req ref cfg guard net (n + 1)).ended ≢ out_of_fuel
  unfolding swap
  swap_ends req ref cfg guard net n late late_fetch =
      from_checks (first_failure D req ref cfg guard net)
    where
      from_fetch :
          (marks : Dict Num) (annotate : Fill Num → Fill Num) (t : Fetched)
          → t ≢ fetch_out_of_fuel
          → (after_fetch D req marks annotate net t).ended ≢ out_of_fuel
      from_fetch marks annotate (fetched tx) h =
          elim (Option-cases (realised_fill_from_tx D tx net.wallet req marks)) [
            | inl f ↦ ground arith
            | inr (fill, f) ↦ ground arith
          ]
      from_fetch marks annotate fetch_uncertain h = ground arith
      from_fetch marks annotate fetch_raised h = ground arith
      from_fetch marks annotate fetch_out_of_fuel h = absurd (h refl)

      from_confirm :
          (marks : Dict Num) (annotate : Fill Num → Fill Num) (c : Confirmed)
          → c ≢ confirm_out_of_fuel
          → (after_confirm D req marks annotate cfg net (n + 1) c).ended ≢ out_of_fuel
      from_confirm marks annotate confirmed h =
          from_fetch marks annotate
            (fetch_transaction net.fetch net.fetch_elapsed cfg.confirm_timeout (n + 1))
            (fetch_transaction_ends net.fetch net.fetch_elapsed cfg.confirm_timeout n late_fetch)
      from_confirm marks annotate confirm_failed h = ground arith
      from_confirm marks annotate confirm_uncertain h = ground arith
      from_confirm marks annotate confirm_raised h = ground arith
      from_confirm marks annotate confirm_out_of_fuel h = absurd (h refl)

      from_execute :
          (marks : Dict Num) (annotate : Fill Num → Fill Num) (x : Executed)
          → Bounded net.reply net.resubmit_elapsed cfg.execute_resubmits cfg.resubmit_window x
          → (after_execute D req marks annotate cfg net (n + 1) x).ended ≢ out_of_fuel
      from_execute marks annotate (executed true s k) h =
          from_confirm marks annotate
            (confirm net.status net.confirm_elapsed cfg.confirm_timeout (n + 1))
            (confirm_ends net.status net.confirm_elapsed cfg.confirm_timeout n late)
      from_execute marks annotate (executed false s k) h = ground arith
      from_execute marks annotate (exec_uncertain k) h = ground arith
      from_execute marks annotate (exec_raised k) h = ground arith
      from_execute marks annotate exec_out_of_fuel h = absurd h

      from_checks : (o : Option Stage) → (swap_from D req ref cfg net (n + 1) o).ended ≢ out_of_fuel
      from_checks (some s) = ground arith
      from_checks none =
          from_execute (marks_of D (non_usdc_leg req) ref) (annotated D req cfg net)
            (execute_with_resubmit net.reply net.resubmit_elapsed cfg.execute_resubmits
              cfg.resubmit_window)
            (execute_with_resubmit-Bounded net.reply net.resubmit_elapsed cfg.execute_resubmits
              cfg.resubmit_window)
