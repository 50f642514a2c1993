-- ===== src/Risk/Sizing.antt =====
-- `size_order` of src/tiller/risk/engine.py: the size of an entry under every cap.
pub mod Caps
use agent_trading.Base.{
  ℕ, Bool, true, false, Option, none, some, List, [], ◌∷◌, ◌++◌, String, if◌then◌else◌, not, ◌&&◌,
  ◌||◌,
}
use agent_trading.Base.Text.{str_eq, str_in}
use agent_trading.Decimal.{DecimalOps, zero_d, one_d, lt_d, half_even}
use agent_trading.Models.{sol_mint, usdc_mint, DayStats}
use agent_trading.Config.{Config}
use agent_trading.Account.{AccountSnapshot}
use agent_trading.Allocator.{OrderIntent, current_value_usd}
use agent_trading.Risk.Limits.{Limits}

-- The names of the caps.
pub data Cap : Type 0 where
  target stop_risk max_token_pct pool_liquidity max_position daily_limit sleeve_budget ramp
        exit_cap :
      Cap

-- `SizedOrder`
pub record SizedOrder (N : Type 0) : Type 0 where
  pub usd : N
  pub binding_cap : Cap

module _ (D : DecimalOps) where
  open D use {Num, literal, sub, mul, div, leb as leb_d, quantize}

  pub record SizeInputs : Type 0 where
    pub acct : AccountSnapshot Num
    pub limits : Limits Num
    pub cfg : Config Num
    pub pool_liquidity_usd : Option Num
    pub day : DayStats Num
    pub stop_pct : Option Num
    pub sleeve_budget_usd : Option Num

  -- `if x is not None: caps.append((cap, f(x)))`
  abbrev pub cap_of : Cap → (Num → Num) → Option Num → List (Cap × Num)
  cap_of cap f none = []
  cap_of cap f (some x) = (cap, f x) ∷ []

  abbrev pub stop_caps : Num → Option Num → List (Cap × Num)
  stop_caps equity none = []
  stop_caps equity (some stop) =
      if lt_d D (zero_d D) stop
      then (stop_risk, div (mul equity (literal 1 2)) (mul stop (literal 15 1))) ∷ []
      else []

  -- The list `caps`, from the value of the holding.
  unfoldable pub caps_of : OrderIntent Num → SizeInputs → Num → List (Cap × Num)
  caps_of o i held =
      let equity = i.acct.equity_usd in
      let is_core = str_in o.mint (i.cfg.hold_mint ∷ sol_mint ∷ usdc_mint ∷ []) in
      (target, o.usd)
      ∷ (stop_caps equity i.stop_pct
          ++ ((if is_core
                then []
                else (max_token_pct, sub (mul i.cfg.risk.max_token_pct equity) held) ∷ [])
              ++ (cap_of pool_liquidity (λ x. mul x (literal 1 2)) i.pool_liquidity_usd
                  ++ (cap_of max_position (λ x. sub x held) i.limits.max_position_usd
                      ++ (cap_of daily_limit (λ x. sub x i.day.buys_usd) i.limits.daily_limit_usd
                          ++ cap_of sleeve_budget (λ x. x) i.sleeve_budget_usd)))))

  -- Whether the value of the holding is read at all.
  abbrev reads_value : OrderIntent Num → SizeInputs → Bool
  reads_value o i =
      not (str_in o.mint (i.cfg.hold_mint ∷ sol_mint ∷ usdc_mint ∷ []))
      || elim i.limits.max_position_usd [ none ↦ false | some _ ↦ true ]

  -- `min(caps, key=lambda c: c[1])`: the first of the least, `best` being the least so far.
  unfoldable pub min_cap : Cap × Num → List (Cap × Num) → Cap × Num
  min_cap best [] = best
  min_cap best (c ∷ cs) = min_cap (if lt_d D c.1 best.1 then c else best) cs

  -- The least cap, times the ramp multiplier.
  abbrev pub ramped : Num → Cap × Num → Cap × Num
  ramped multiplier best =
      if lt_d D multiplier (one_d D) then (ramp, mul best.1 multiplier) else best

  abbrev pub sized : Num → Cap × Num → Option (SizedOrder Num)
  sized min_order best =
      if lt_d D best.1 min_order
      then none
      else some (record { usd = quantize half_even 6 best.1; binding_cap = best.0 })

  -- The size from the value of the holding.
  unfoldable pub size_from : OrderIntent Num → SizeInputs → Num → Option (SizedOrder Num)
  size_from o i held =
      sized i.cfg.risk.min_order_usd
        (ramped i.limits.multiplier (min_cap (target, o.usd) (caps_of o i held)))

  -- The outer `none` is the `KeyError` of the value.
  unfoldable pub size_order : OrderIntent Num → SizeInputs → Option (Option (SizedOrder Num))
  size_order o i =
      if reads_value o i
      then elim (current_value_usd D o.mint i.acct i.cfg) [
        | none ↦ none
        | some held ↦ some (size_from o i held)
      ]
      else some (size_from o i (zero_d D))
