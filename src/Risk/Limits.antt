-- ===== src/Risk/Limits.antt =====
-- `effective_limits` of src/tiller/risk/engine.py: the tighten-only merge of the owner's caps. The
-- texts of `sources` are left out. The parameters are the owner's and the local source.
pub mod Tightens
use agent_trading.Base.{
  ℕ, zero, suc, ◌-◌, Bool, true, false, Option, none, some, List, [], ◌∷◌, if◌then◌else◌, not, ◌&&◌,
  leb, length, get_or,
}
use agent_trading.Decimal.{DecimalOps, zero_d, one_d, min_d}
use agent_trading.Models.{OwnerLimits}
use agent_trading.State.{CanaryState}
use agent_trading.Config.{RiskCfg, CanaryCfg}
use agent_trading.Risk.Directive.{Directive, pause, liquidate, parse_directive, prefer}

-- `Literal["canary", "ramp", "full", "paper"]`
pub data Stage : Type 0 where
  canary ramp full paper : Stage

pub record Limits (N : Type 0) : Type 0 where
  pub max_position_usd : Option N
  pub daily_limit_usd : Option N
  pub multiplier : N
  pub stage : Stage
  pub directive : Option Directive

unfoldable pub canary_verified : CanaryState → Bool
canary_verified c = c.verified_buy && c.verified_sell && c.verified_post

-- `min(max(ramp_step, 0), len(steps) - 1)`
abbrev pub clamp_step : ℕ → ℕ → ℕ
clamp_step step n = if leb step (n - 1) then step else n - 1

module _ (D : DecimalOps) where
  open D use {Num, leb as leb_d}

  -- `_min_opt`
  abbrev pub min_opt : Option Num → Option Num → Option Num
  min_opt none b = b
  min_opt (some a) none = some a
  min_opt (some a) (some b) = some (min_d D a b)

  -- The loop over the two sources: the caps and the directive so far, or `none` for an unreadable
  -- source.
  pub record Merged : Type 0 where
    pub max_pos : Option Num
    pub daily : Option Num
    pub directive : Option Directive

  abbrev merge_source : Option (OwnerLimits Num) → Merged → Option Merged
  merge_source none m = some m
  merge_source (some src) m =
      if src.readable
      then some (record {
        max_pos = min_opt m.max_pos src.max_position_usd;
        daily = min_opt m.daily src.daily_limit_usd;
        directive = prefer m.directive (parse_directive src.instructions);
      })
      else none

  abbrev nothing_merged : Merged
  nothing_merged = record { max_pos = none; daily = none; directive = none }

  unfoldable pub merge_sources : Option (OwnerLimits Num) → Option (OwnerLimits Num) → Option Merged
  merge_sources owner local = elim (merge_source owner nothing_merged) [
    | none ↦ none
    | some m ↦ merge_source local m
  ]

  -- `list(cfg.canary.ramp_steps) or [1.0]`
  abbrev ramp_steps_or_one : List Num → List Num
  ramp_steps_or_one [] = one_d D ∷ []
  ramp_steps_or_one (s ∷ ss) = s ∷ ss

  abbrev pub ramp_multiplier : CanaryCfg Num → ℕ → Num
  ramp_multiplier cfg step =
      let steps = ramp_steps_or_one cfg.ramp_steps in
      get_or steps (clamp_step step (length steps)) (one_d D)

  abbrev staged : RiskCfg Num → CanaryState → Bool → Merged → Limits Num
  staged cfg c canary_enabled m =
      if not canary_enabled
      then record {
        max_position_usd = m.max_pos;
        daily_limit_usd = m.daily;
        multiplier = one_d D;
        stage = paper;
        directive = m.directive;
      }
      else (if not (canary_verified c)
          then record {
            max_position_usd = min_opt m.max_pos (some cfg.canary.max_position_usd);
            daily_limit_usd = min_opt m.daily (some cfg.canary.daily_limit_usd);
            multiplier = one_d D;
            stage = canary;
            directive = m.directive;
          }
          else let mult = ramp_multiplier cfg.canary c.ramp_step in
            record {
              max_position_usd = m.max_pos;
              daily_limit_usd = m.daily;
              multiplier = mult;
              stage = if leb_d (one_d D) mult then full else ramp;
              directive = m.directive;
            })

  -- `none` is fail closed.
  unfoldable pub effective_limits :
      RiskCfg Num
      → Option (OwnerLimits Num)
      → Option (OwnerLimits Num)
      → CanaryState
      → Bool
      → Option (Limits Num)
  unfolding canary_verified
  effective_limits cfg owner local c canary_enabled = elim (merge_sources owner local) [
    | none ↦ none
    | some m ↦ some (staged cfg c canary_enabled m)
  ]
