-- ===== src/Venue.antt =====
-- src/tiller/execution/venue.py: the live venue. `Swap` is the pipeline, `Loops` the two loops that
-- wait for the network, `Realised` the fill that a transaction shows.
pub mod Realised
pub mod Loops
pub mod Swap
pub mod Paper
use agent_trading.Base.{
  ℕ, ◌+◌, ◌-◌, ◌*◌, ◌/◌, ◌^◌, Bool, true, false, Option, none, some, List, [], ◌∷◌, String,
  if◌then◌else◌, not, ◌&&◌,
}
use agent_trading.Base.Int.{ℤ, pos, negsuc, ◌*ℤ◌, ◌-ℤ◌}
use agent_trading.Base.Text.{str_eq}
use agent_trading.Decimal.{DecimalOps}
use agent_trading.Models.{SwapRequest, Mode, normal, emergency, usdc_mint}
use agent_trading.Guard.Quote.{is_core_pair}

-- `ExecCfg`; lengths of time in microseconds.
pub record ExecCfg (N : Type 0) : Type 0 where
  pub slippage_bps_sol_usdc : ℕ
  pub slippage_bps_token : ℕ
  pub slippage_bps_emergency : ℕ
  pub sol_reserve_lamports : ℕ
  pub allowlist_mints : List String
  pub max_round_trip_token : N
  pub execute_resubmits : ℕ
  pub resubmit_window : ℕ
  pub confirm_timeout : ℕ

abbrev is_emergency : Mode → Bool
is_emergency emergency = true
is_emergency normal = false

unfoldable pub slippage_for : {N : Type 0} → SwapRequest → ExecCfg N → ℕ
slippage_for req cfg =
    if is_emergency req.mode
    then cfg.slippage_bps_emergency
    else (if is_core_pair req.input_mint req.output_mint
        then cfg.slippage_bps_sol_usdc
        else cfg.slippage_bps_token)

-- `none` is the rejection of the pair.
unfoldable pub non_usdc_leg : SwapRequest → Option String
non_usdc_leg req =
    if str_eq req.input_mint usdc_mint && not (str_eq req.output_mint usdc_mint)
    then some req.output_mint
    else (if str_eq req.output_mint usdc_mint && not (str_eq req.input_mint usdc_mint)
        then some req.input_mint
        else none)

-- `n // 10_000`, which rounds down.
abbrev pub floor_bps : ℤ → ℤ
floor_bps (pos n) = pos (n / 10000)
floor_bps (negsuc n) = negsuc (n / 10000)

-- `out_amount * (10_000 - slippage) // 10_000`
unfoldable pub min_out : ℤ → ℕ → ℤ
min_out out_amount slippage = floor_bps (out_amount *ℤ (pos 10000 -ℤ pos slippage))

module _ (D : DecimalOps) where
  open D use {Num, of_ℤ, div}

  -- `_units`
  unfoldable pub units : ℤ → ℕ → Num
  units base decimals = div (of_ℤ base) (of_ℤ (pos (10 ^ decimals)))
