-- ===== src/Guard/Quote.antt =====
-- The quote checks of src/tiller/execution/guard.py: `is_core_pair`, `implied_price`, the limits
-- and `check_quote`. The messages are the constructors of `QuoteReject`; `none` is a pass.
pub mod Accepts
use agent_trading.Base.{
  ℕ, ◌^◌, Bool, true, false, Option, none, some, List, [], ◌∷◌, String, if◌then◌else◌, not, ◌&&◌,
  ◌||◌,
}
use agent_trading.Base.Int.{ℤ, pos, eqb_ℤ, leb_ℤ, ltb_ℤ}
use agent_trading.Base.Text.{str_eq, str_in}
use agent_trading.Decimal.{DecimalOps, zero_d, one_d, lt_d}
use agent_trading.Models.{sol_mint, usdc_mint, SwapRequest, Order, Mode, normal, emergency}

-- `STABLE_MINTS`
abbrev pub stable_mints : List String
stable_mints = usdc_mint ∷ []

-- `{input_mint, output_mint} == {SOL_MINT, USDC_MINT}`
unfoldable pub is_core_pair : String → String → Bool
is_core_pair i o =
    (str_eq i sol_mint && str_eq o usdc_mint) || (str_eq i usdc_mint && str_eq o sol_mint)

-- The thresholds of `GuardCfg` that quotes meet.
pub record QuoteCfg (N : Type 0) : Type 0 where
  pub max_price_dev_sol : N
  pub max_price_dev_token : N
  pub max_price_dev_emergency : N
  pub max_impact_core : N
  pub max_impact_token : N
  pub max_fee_bps : ℤ
  pub routers : List String

pub data PriceError : Type 0 where
  zero_leg unsupported_pair : PriceError

pub data Priced (N : Type 0) : Type 0 where
  priced : N → Priced N
  no_price : PriceError → Priced N

pub data QuoteReject : Type 0 where
  wrong_in_amount zero_out_amount no_reference price_deviates impact_above fee_above : QuoteReject
  bad_router : QuoteReject
  unpriceable : PriceError → QuoteReject

module _ (D : DecimalOps) where
  open D use {Num, of_ℤ, sub, div, abs, leb}

  -- `Decimal(base) / Decimal(10**decimals)`
  abbrev pub units : ℤ → ℕ → Num
  units base decimals = div (of_ℤ base) (of_ℤ (pos (10 ^ decimals)))

  unfoldable pub implied_price : Order Num → SwapRequest → ℕ → ℕ → Priced Num
  implied_price order req in_decimals out_decimals =
      let in_units = units order.in_amount in_decimals in
      let out_units = units order.out_amount out_decimals in
      if leb in_units (zero_d D) || leb out_units (zero_d D)
      then no_price zero_leg
      else (if str_in req.output_mint stable_mints && not (str_in req.input_mint stable_mints)
          then priced (div out_units in_units)
          else (if str_in req.input_mint stable_mints && not (str_in req.output_mint stable_mints)
              then priced (div in_units out_units)
              else no_price unsupported_pair))

  abbrev by_mode : Mode → Num → Num → Num
  by_mode emergency a b = a
  by_mode normal a b = b

  unfoldable pub price_deviation_limit : SwapRequest → QuoteCfg Num → Num
  price_deviation_limit req cfg = by_mode req.mode cfg.max_price_dev_emergency (
      if is_core_pair req.input_mint req.output_mint
      then cfg.max_price_dev_sol
      else cfg.max_price_dev_token)

  unfoldable pub impact_limit : SwapRequest → QuoteCfg Num → Num
  impact_limit req cfg =
      if is_core_pair req.input_mint req.output_mint
      then cfg.max_impact_core
      else cfg.max_impact_token

  -- The checks after a price was found.
  check_priced : SwapRequest → Order Num → Num → Priced Num → QuoteCfg Num → Option QuoteReject
  check_priced req order ref (no_price e) cfg = some (unpriceable e)
  check_priced req order ref (priced px) cfg =
      if lt_d D (price_deviation_limit req cfg) (abs (sub (div px ref) (one_d D)))
      then some price_deviates
      else (if lt_d D (impact_limit req cfg) (abs order.price_impact_pct)
          then some impact_above
          else (if ltb_ℤ cfg.max_fee_bps order.fee_bps
              then some fee_above
              else (if str_in order.router cfg.routers then none else some bad_router)))

  unfoldable pub check_quote :
      SwapRequest → Order Num → Num → ℕ → ℕ → QuoteCfg Num → Option QuoteReject
  unfolding check_priced
  check_quote req order ref in_decimals out_decimals cfg =
      if not (eqb_ℤ order.in_amount (pos req.amount_base))
      then some wrong_in_amount
      else (if leb_ℤ order.out_amount (pos 0)
          then some zero_out_amount
          else (if leb ref (zero_d D)
              then some no_reference
              else check_priced req order ref (implied_price order req in_decimals out_decimals)
                  cfg))
