-- ===== src/Allocator.antt =====
-- src/tiller/portfolio/allocator.py: the caps, the value of a holding, the exit rules and their
-- intents. The child modules net the targets and make the plan. Texts of reasons are left out.
pub mod Netting
pub mod Plan
pub mod Exits
use agent_trading.Base.{
  ℕ, ◌+◌, Bool, true, false, Option, none, some, List, [], ◌∷◌, String, if◌then◌else◌, not, ◌&&◌,
  ◌||◌, leb, ◌==◌,
}
use agent_trading.Base.Int.{ℤ, pos, ◌-ℤ◌, leb_ℤ, max_ℤ}
use agent_trading.Base.Text.{str_eq, str_in}
use agent_trading.Base.Dict.{lookup, lookup_or}
use agent_trading.Decimal.{DecimalOps, zero_d, one_d, min_d, max_d, lt_d}
use agent_trading.Models.{sol_mint, usdc_mint, Side, buy, sell, Position, ExitRule}
use agent_trading.Config.{Config, RiskCfg, Allocation, effective_allocation, percent}
use agent_trading.Account.{AccountSnapshot, holding_units, mint_decimals_of}

-- `OrderIntent`
pub record OrderIntent (N : Type 0) : Type 0 where
  pub mint : String
  pub side : Side
  pub usd : N
  pub strategy : List String
  pub exit : Option (ExitRule N)
  pub is_exit : Bool
  pub amount_base : Option ℤ

-- Why an exit fired.
pub data Fired : Type 0 where
  time_stop stop : Fired

module _ (D : DecimalOps) where
  open D use {Num, of_ℤ, literal, add, sub, mul, div, leb as leb_d}

  -- `none` is an unknown or nan sigma.
  unfoldable pub sol_beta_cap : Option Num → RiskCfg Num → Num
  sol_beta_cap none cfg = zero_d D
  sol_beta_cap (some sigma) cfg =
      min_d D cfg.sol_beta_cap_max (div cfg.sol_beta_cap_vol (max_d D sigma (literal 5 2)))

  unfoldable pub rebalance_band_usd : Num → RiskCfg Num → Num
  rebalance_band_usd equity cfg = max_d D (mul cfg.rebalance_band_pct equity) cfg.min_order_usd

  -- `alloc.get(SLEEVE_OF[name])`; `none` is an unknown strategy.
  abbrev sleeve_pct : Allocation D → String → Option Num
  sleeve_pct a name =
      if str_eq name "sol_trend_ensemble"
      then some a.sol_trend_ensemble
      else (if str_eq name "sol_regime_switch"
          then some a.sol_regime_switch
          else (if str_eq name "copy_consensus"
              then some a.copy
              else (if str_eq name "breakout_4h" then some a.breakout else none)))

  -- `sleeve_budgets(cfg).get(name)`
  unfoldable pub sleeve_budget : Config Num → String → Option Num
  sleeve_budget cfg name = elim (sleeve_pct (effective_allocation D cfg) name) [
    | none ↦ none
    | some pct ↦ some (div pct (percent D 100))
  ]

  unfoldable pub cash_floor_fraction : Config Num → Num
  cash_floor_fraction cfg = div (effective_allocation D cfg).cash (percent D 100)

  -- SOL keeps the gas reserve.
  unfoldable pub tradeable_base : String → AccountSnapshot Num → Config Num → ℤ
  tradeable_base mint acct cfg =
      let base = lookup_or mint (pos 0) acct.holdings in
      if str_eq mint sol_mint then max_ℤ (pos 0) (base -ℤ pos cfg.sol_reserve_lamports) else base

  -- `none` is the `KeyError` of `mint_decimals_of`.
  unfoldable pub current_value_usd : String → AccountSnapshot Num → Config Num → Option Num
  current_value_usd mint acct cfg =
      if str_eq mint usdc_mint then some acct.usdc_usd else elim (lookup mint acct.marks) [
        | none ↦ some (zero_d D)
        | some mark ↦ elim (mint_decimals_of D mint acct) [
          | none ↦ none
          | some dec ↦ some (mul (holding_units D (tradeable_base mint acct cfg) dec) mark)
        ]
      ]

  abbrev time_over : Option ℕ → ℕ → Bool
  time_over none now = false
  time_over (some at) now = leb at now

  abbrev pub below_stop : Option Num → Option Num → Bool
  below_stop none mark = false
  below_stop (some s) none = false
  below_stop (some s) (some mark) = lt_d D mark s

  unfoldable pub exit_fired : Position Num → Option Num → ℕ → Option Fired
  exit_fired p mark now = elim p.exit [
    | none ↦ none
    | some rule ↦
        if time_over rule.time_stop_at now
        then some time_stop
        else (if below_stop rule.stop_price mark then some stop else none)
  ]

  -- `candidate <= rule.stop_price`
  abbrev pub not_higher : Option Num → Num → Bool
  not_higher none candidate = false
  not_higher (some s) candidate = leb_d candidate s

  abbrev pub or_zero : Option Num → Num
  or_zero none = zero_d D
  or_zero (some x) = x

  -- The rule at a mark, with the trail that it has.
  abbrev pub trailed : ExitRule Num → Num → Num → Num → Option (ExitRule Num)
  trailed rule trail mark entry =
      let candidate = mul mark (sub (one_d D) trail) in
      if lt_d D (sub (div mark entry) (one_d D)) (or_zero rule.trail_from_gain_pct)
      then none
      else (if not_higher rule.stop_price candidate
          then none
          else some (record rule { stop_price = some candidate }))

  -- From `units` on.
  abbrev pub ratcheted : Position Num → ExitRule Num → Num → Num → Option ℕ → Option (ExitRule Num)
  ratcheted p rule trail mark none = none
  ratcheted p rule trail mark (some dec) =
      let units = holding_units D p.amount_base dec in
      if leb_d units (zero_d D) then none else trailed rule trail mark (div p.cost_usd units)

  -- `decimals` is a lookup in the dict that is passed.
  unfoldable pub ratchet_trailing_stop :
      Position Num → Option Num → (String → Option ℕ) → Option (ExitRule Num)
  ratchet_trailing_stop p mark decimals = elim p.exit [
    | none ↦ none
    | some rule ↦ elim rule.trail_pct [
      | none ↦ none
      | some trail ↦ elim mark [
        | none ↦ none
        | some m ↦
            if leb_ℤ p.amount_base (pos 0) || leb_d p.cost_usd (zero_d D)
            then none
            else ratcheted p rule trail m
                (if str_eq p.mint sol_mint then some 9 else decimals p.mint)
      ]
    ]
  ]

  -- The intent for a position that fires, or `some none` where the loop continues; `none` is the
  -- `KeyError` of the value.
  unfoldable pub exit_intent :
      AccountSnapshot Num → Config Num → ℕ → Position Num → Option (Option (OrderIntent Num))
  exit_intent acct cfg now p = elim (exit_fired p (lookup p.mint acct.marks) now) [
    | none ↦ some none
    | some _ ↦ elim (current_value_usd p.mint acct cfg) [
      | none ↦ none
      | some usd ↦
          let base = tradeable_base p.mint acct cfg in
          if leb_ℤ base (pos 0) || leb_d usd (zero_d D)
          then some none
          else some (
              some (record {
                mint = p.mint;
                side = sell;
                usd = usd;
                strategy = p.strategy ∷ [];
                exit = none;
                is_exit = true;
                amount_base = some base;
              }))
    ]
  ]

  -- The list with one more intent at its head.
  abbrev pub consed :
      OrderIntent Num → Option (List (OrderIntent Num)) → Option (List (OrderIntent Num))
  consed o none = none
  consed o (some os) = some (o ∷ os)

  -- What the loop does with a position: `skipped` and `taken` are the rest without and with its mint
  -- in `seen`.
  abbrev pub exits_with :
      Option (Option (OrderIntent Num))
      → Option (List (OrderIntent Num))
      → Option (List (OrderIntent Num))
      → Option (List (OrderIntent Num))
  exits_with none skipped taken = none
  exits_with (some none) skipped taken = skipped
  exits_with (some (some o)) skipped taken = consed o taken

  -- The loop, with the set `seen`.
  unfoldable pub exit_intents_from :
      AccountSnapshot Num
      → Config Num
      → ℕ
      → List String
      → List (Position Num)
      → Option (List (OrderIntent Num))
  exit_intents_from acct cfg now seen [] = some []
  exit_intents_from acct cfg now seen (p ∷ ps) =
      let skipped = exit_intents_from acct cfg now seen ps in
      let taken = exit_intents_from acct cfg now (p.mint ∷ seen) ps in
      if str_in p.mint seen || str_eq p.mint usdc_mint
      then skipped
      else exits_with (exit_intent acct cfg now p) skipped taken

  unfoldable pub exit_intents :
      AccountSnapshot Num → Config Num → ℕ → Option (List (OrderIntent Num))
  exit_intents acct cfg now = exit_intents_from acct cfg now [] acct.positions
