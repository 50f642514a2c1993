-- ===== src/Venue/Swap/Checked.antt =====
-- Nothing is signed before every check has passed.
use agent_trading.Base.{
  ℕ, true, false, ◌≡◌, ◌≢◌, inl, inr, none, List, [], ◌∷◌, arith, Option-cases,
}
use agent_trading.Base.Int.{pos, ◌-ℤ◌, ltb_ℤ}
use agent_trading.Decimal.{DecimalOps}
use agent_trading.Models.{SwapRequest}
use agent_trading.Guard.Quote.{check_quote}
use agent_trading.Guard.Transaction.{passed}
use agent_trading.Guard.Simulation.{check_simulation, lamport_fee_allowance}
use agent_trading.Venue.{ExecCfg, slippage_for, non_usdc_leg}
use agent_trading.Venue.Swap.{
  Stage, Effect, signed, Network, GuardCfg, tx_check, sol_spend, expectations, addresses, is_entry,
  probe_cost, first_failure, rejection, swap, pair, gate, quote, probe, transaction, reserve,
  simulation,
}

-- The effect is on the list.
abbrev pub Signs : List Effect → Type 0
Signs [] = ⊥
Signs (signed ∷ es) = Unit
Signs (_ ∷ es) = Signs es

module _ (D : DecimalOps) where
  open D use {Num, leb as leb_d}

  -- What holds of the request, the order and the answers when the bytes are signed.
  pub record IsChecked (req : SwapRequest) (ref : Num) (cfg : ExecCfg Num) (guard : GuardCfg D)
      (net : Network D) : Type 0 where
    pub one_usdc_leg : non_usdc_leg req ≢ none
    pub gated : is_entry D req cfg ≡ true → net.gate_ok ≡ true
    pub quoted :
        check_quote D req
          (net.order (slippage_for req cfg))
          ref
          (net.decimals req.input_mint)
          (net.decimals req.output_mint)
          guard.quotes
        ≡ none
    pub probed :
        is_entry D req cfg ≡ true
        → leb_d (probe_cost D net (net.order (slippage_for req cfg))) cfg.max_round_trip_token
          ≡ true
    pub harmless : tx_check D guard net ≡ passed
    pub reserved :
        ltb_ℤ
          (net.balance
            -ℤ sol_spend D req (net.order (slippage_for req cfg))
            -ℤ lamport_fee_allowance)
          (pos cfg.sol_reserve_lamports)
        ≡ false
    pub simulated :
        check_simulation net.pubkey_b58
          (net.simulate (addresses D req net))
          (expectations D req cfg net (net.order (slippage_for req cfg)))
        ≡ none

  first_failure-none :
      (req : SwapRequest) (ref : Num) (cfg : ExecCfg Num) (guard : GuardCfg D) (net : Network D)
      → first_failure D req ref cfg guard net ≡ none
      → IsChecked req ref cfg guard net
  unfolding first_failure
  first_failure-none req ref cfg guard net h = ground arith

  rejection-unsigned : (s : Stage) → ¬ Signs (rejection D s)
  rejection-unsigned pair h = h
  rejection-unsigned gate h = h
  rejection-unsigned quote h = h
  rejection-unsigned probe h = h
  rejection-unsigned transaction h = h
  rejection-unsigned reserve h = h
  rejection-unsigned simulation h = h

  -- A call that signs had one USDC leg, a gate for an entry into another mint, a quote that passed,
  -- a round trip within its bound, a transaction that passed, SOL above the reserve after the order
  -- and a simulation that passed.
  pub swap-IsChecked :
      (req : SwapRequest) (ref : Num) (cfg : ExecCfg Num) (guard : GuardCfg D) (net : Network D)
      (polls : ℕ)
      → Signs (swap D req ref cfg guard net polls).effects
      → IsChecked req ref cfg guard net
  unfolding swap
  swap-IsChecked req ref cfg guard net polls h =
      elim (Option-cases (first_failure D req ref cfg guard net)) [
        | inl e ↦ first_failure-none req ref cfg guard net e
        | inr (s, e) ↦ absurd (rejection-unsigned s (ground (arith)))
      ]
