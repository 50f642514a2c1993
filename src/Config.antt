-- ===== src/Config.antt =====
-- src/tiller/config.py: the sections that the modelled parts read, `l0_violations` (the rules that a
-- configuration must meet to boot) and `effective_allocation`. Python floats, like Decimals, are
-- numbers of the arithmetic `D`; `Decimal(str(x))` of a float `x` is `x`. Dates are counted in days.
pub mod Boot
use agent_trading.Base.{
  ℕ, ◌+◌, Bool, true, false, Option, none, some, List, [], ◌∷◌, ◌++◌, String, if◌then◌else◌, not,
  ◌&&◌, ◌||◌, ltb,
}
use agent_trading.Base.Int.{ℤ, pos}
use agent_trading.Decimal.{DecimalOps, zero_d, lt_d, sum_d}

pub record AllocationCfg (N : Type 0) : Type 0 where
  pub sol_trend_ensemble_pct : N
  pub sol_regime_switch_pct : N
  pub copy_pct : N
  pub breakout_pct : N
  pub cash_floor_pct : N

pub record CanaryCfg (N : Type 0) : Type 0 where
  pub max_position_usd : N
  pub daily_limit_usd : N
  pub ramp_steps : List N
  -- `timedelta(days=ramp_step_days)`, in microseconds
  pub ramp_step_length : ℕ

pub record RiskCfg (N : Type 0) : Type 0 where
  pub daily_loss_pct : N
  pub dd7_entry_block_pct : N
  pub dd30_entry_block_pct : N
  pub dd30_flatten_pct : N
  pub sol_beta_cap_max : N
  pub sol_beta_cap_vol : N
  pub rebalance_band_pct : N
  pub min_order_usd : N
  pub max_entries_per_tick : ℕ
  pub max_swaps_per_day : ℕ
  -- `timedelta(minutes=consecutive_failure_pause_min)`, in microseconds
  pub failure_pause : ℕ
  pub max_positions : ℕ
  pub max_token_pct : N
  -- `timedelta(hours=max_data_age_h)`, in microseconds
  pub max_data_age : ℕ
  pub error_rate_block : N
  pub canary : CanaryCfg N

-- `OptVenue`; `geo_acknowledged` is `geo_ack == GEO_ACK_TEXT`.
pub record OptVenue : Type 0 where
  pub enabled : Bool
  pub geo_acknowledged : Bool

pub record Config (N : Type 0) : Type 0 where
  pub is_live : Bool
  pub live_without_familiars_ack : Bool
  pub familiars_enabled : Bool
  pub skill_md_reviewed_at : Option ℕ
  pub hold_mint : String
  pub sol_trend_enabled : Bool
  pub regime_enabled : Bool
  pub breakout_enabled : Bool
  pub copy_live : Bool
  pub copy_shadow_enabled : Bool
  pub sol_reserve_lamports : ℕ
  pub allocation : AllocationCfg N
  pub risk : RiskCfg N
  pub hyperliquid : OptVenue
  pub cex : OptVenue

-- The rules; those of a sleeve or a venue carry its place.
pub data Rule : Type 0 where
  allocation_sums_to_100 cash_floor_at_least_30 non_cash_at_most_70 : Rule
  sleeve_non_negative sleeve_at_most_50 : ℕ → Rule
  daily_loss_at_most_6 flatten_at_most_25 drawdowns_ordered beta_cap_at_most_50 : Rule
  risk_sizing_bounds skill_md_reviewed familiars_ack : Rule
  geo_ack : ℕ → Rule
  copy_needs_shadow copy_needs_budget : Rule

-- `if b: out.append(rule)`
abbrev pub violated : Bool → Rule → List Rule
violated true rule = rule ∷ []
violated false rule = []

-- Reviewed at most 30 days ago, and not in the future.
abbrev pub is_stale : Option ℕ → ℕ → Bool
is_stale none today = true
is_stale (some reviewed) today = ltb (reviewed + 30) today || ltb today reviewed

module _ (D : DecimalOps) where
  open D use {Num, of_ℤ, literal, add, sub, abs, leb}

  abbrev pub percent : ℕ → Num
  percent n = of_ℤ (pos n)

  -- `a.sleeves.values()`
  abbrev pub sleeves : AllocationCfg Num → List Num
  sleeves a = a.sol_trend_ensemble_pct ∷ a.sol_regime_switch_pct ∷ a.copy_pct ∷ a.breakout_pct ∷ []

  abbrev pub allocation_total : AllocationCfg Num → Num
  allocation_total a =
      add
        (add (add (add a.sol_trend_ensemble_pct a.sol_regime_switch_pct) a.copy_pct) a.breakout_pct)
        a.cash_floor_pct

  -- The loop over the sleeves, from the place `i` on.
  unfoldable pub sleeve_rules : ℕ → List Num → List Rule
  sleeve_rules i [] = []
  sleeve_rules i (pct ∷ r) =
      violated (lt_d D pct (zero_d D)) (sleeve_non_negative i)
      ++ (violated (lt_d D (percent 50) pct) (sleeve_at_most_50 i) ++ sleeve_rules (i + 1) r)

  abbrev drawdowns_descend : RiskCfg Num → Bool
  drawdowns_descend r =
      lt_d D r.dd30_entry_block_pct r.dd30_flatten_pct
      && lt_d D r.dd7_entry_block_pct r.dd30_entry_block_pct
      && lt_d D (zero_d D) r.dd7_entry_block_pct

  abbrev live_rules : Config Num → ℕ → List Rule
  live_rules c today =
      if c.is_live
      then (if c.familiars_enabled
          then violated (is_stale c.skill_md_reviewed_at today) skill_md_reviewed
          else violated (not c.live_without_familiars_ack) familiars_ack)
      else []

  abbrev venue_rule : ℕ → OptVenue → List Rule
  venue_rule i v = violated (v.enabled && not v.geo_acknowledged) (geo_ack i)

  -- The rules on `cfg.allocation`; `literal 1 2` is `0.01`.
  unfoldable pub allocation_rules : AllocationCfg Num → List Rule
  allocation_rules a =
      violated (lt_d D (literal 1 2) (abs (sub (allocation_total a) (percent 100))))
        allocation_sums_to_100
      ++ (violated (lt_d D a.cash_floor_pct (percent 30)) cash_floor_at_least_30
          ++ (sleeve_rules 0 (sleeves a)
              ++ violated (lt_d D (percent 70) (sum_d D (zero_d D) (sleeves a)))
                  non_cash_at_most_70))

  -- The rules on `cfg.risk`.
  unfoldable pub risk_rules : RiskCfg Num → List Rule
  risk_rules r =
      violated (lt_d D (literal 6 2) r.daily_loss_pct) daily_loss_at_most_6
      ++ (violated (lt_d D (literal 25 2) r.dd30_flatten_pct) flatten_at_most_25
          ++ (violated (not (drawdowns_descend r)) drawdowns_ordered
              ++ (violated (lt_d D (literal 5 1) r.sol_beta_cap_max) beta_cap_at_most_50
                  ++ violated
                      (lt_d D r.rebalance_band_pct (zero_d D)
                        || lt_d D (literal 5 1) r.max_token_pct
                        || leb r.min_order_usd (zero_d D))
                      risk_sizing_bounds)))

  -- The rules on the mode, the optional venues and the copy sleeve.
  unfoldable pub mode_rules : Config Num → ℕ → List Rule
  mode_rules c today =
      live_rules c today
      ++ (venue_rule 0 c.hyperliquid
          ++ (venue_rule 1 c.cex
              ++ (violated (c.copy_live && not c.copy_shadow_enabled) copy_needs_shadow
                  ++ violated (c.copy_live && leb c.allocation.copy_pct (zero_d D))
                      copy_needs_budget)))

  unfoldable pub l0_violations : Config Num → ℕ → List Rule
  l0_violations c today = allocation_rules c.allocation ++ (risk_rules c.risk ++ mode_rules c today)

  -- The keys of the dict that `effective_allocation` returns.
  pub record Allocation : Type 0 where
    pub sol_trend_ensemble : Num
    pub sol_regime_switch : Num
    pub copy : Num
    pub breakout : Num
    pub cash : Num

  abbrev pub if_enabled : Bool → Num → Num
  if_enabled b x = if b then x else zero_d D

  unfoldable pub effective_allocation : Config Num → Allocation
  effective_allocation c =
      let a = c.allocation in
      let trend = if_enabled c.sol_trend_enabled a.sol_trend_ensemble_pct in
      let regime = if_enabled c.regime_enabled a.sol_regime_switch_pct in
      let copy = if_enabled c.copy_live a.copy_pct in
      let breakout = if_enabled c.breakout_enabled a.breakout_pct in
      record {
        sol_trend_ensemble = trend;
        sol_regime_switch = regime;
        copy = copy;
        breakout = breakout;
        cash = sub (percent 100) (sum_d D (zero_d D) (trend ∷ regime ∷ copy ∷ breakout ∷ []));
      }
