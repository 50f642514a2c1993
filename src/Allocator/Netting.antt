-- ===== src/Allocator/Netting.antt =====
-- `net_targets` of src/tiller/portfolio/allocator.py: the sleeve clip, the sums per mint, the beta
-- cap, the cash floor and the token cap. The dict of netted targets is a list in insertion order.
pub mod Caps
use agent_trading.Base.{
  ℕ, Bool, true, false, Option, none, some, List, [], ◌∷◌, ◌++◌, String, if◌then◌else◌, not, ◌&&◌,
}
use agent_trading.Base.Text.{str_eq}
use agent_trading.Base.Dict.{Dict, lookup_or, insert}
use agent_trading.Decimal.{DecimalOps, zero_d, one_d, min_d, max_d, lt_d}
use agent_trading.Models.{ExitRule}
use agent_trading.Config.{Config}
use agent_trading.Allocator.{sol_beta_cap, sleeve_budget, cash_floor_fraction}

-- `TargetExposure`
pub record TargetExposure (N : Type 0) : Type 0 where
  pub mint : String
  pub weight : N
  pub strategy : String
  pub exit : Option (ExitRule N)

pub record NettedTarget (N : Type 0) : Type 0 where
  pub mint : String
  pub weight : N
  pub strategies : List String
  pub exit : Option (ExitRule N)

module _ (D : DecimalOps) where
  open D use {Num, add, sub, mul, div, leb as leb_d}

  -- `per_strategy` and `netted`
  pub record Netting : Type 0 where
    pub per_strategy : Dict Num
    pub netted : List (NettedTarget Num)

  -- The target's exit, where it has one and the sum has none or the target has a weight.
  abbrev merged_exit : Option (ExitRule Num) → Option (ExitRule Num) → Num → Option (ExitRule Num)
  merged_exit cur none w = cur
  merged_exit none (some e) w = some e
  merged_exit (some c) (some e) w = if lt_d D (zero_d D) w then some e else some c

  -- A target of weight `w` after the clip, to the sums.
  unfoldable pub add_to :
      TargetExposure Num → Num → List (NettedTarget Num) → List (NettedTarget Num)
  add_to t w [] =
      record { mint = t.mint; weight = w; strategies = t.strategy ∷ []; exit = t.exit } ∷ []
  add_to t w (n ∷ ns) =
      if str_eq n.mint t.mint
      then record n {
        weight = add n.weight w;
        strategies = n.strategies ++ t.strategy ∷ [];
        exit = merged_exit n.exit t.exit w;
      }
        ∷ ns
      else n ∷ add_to t w ns

  -- A target against its budget and what its strategy used.
  abbrev pub clipped : Num → Num → Num → Num
  clipped weight budget used =
      min_d D (max_d D (zero_d D) weight) (max_d D (zero_d D) (sub budget used))

  abbrev pub add_target : Option Num → TargetExposure Num → Netting → Netting
  add_target none t s = s
  add_target (some budget) t s =
      if leb_d budget (zero_d D)
      then s
      else let used = lookup_or t.strategy (zero_d D) s.per_strategy in
        let w = clipped t.weight budget used in
        record {
          per_strategy = insert t.strategy (add used w) s.per_strategy;
          netted = add_to t w s.netted;
        }

  unfoldable pub add_targets : Config Num → List (TargetExposure Num) → Netting → Netting
  add_targets cfg [] s = s
  add_targets cfg (t ∷ ts) s = add_targets cfg ts (add_target (sleeve_budget D cfg t.strategy) t s)

  abbrev pub cap_weight : Num → NettedTarget Num → NettedTarget Num
  cap_weight cap n = if lt_d D cap n.weight then record n { weight = cap } else n

  -- The hold mint, under the beta cap.
  unfoldable pub cap_hold : String → Num → List (NettedTarget Num) → List (NettedTarget Num)
  cap_hold hold cap [] = []
  cap_hold hold cap (n ∷ ns) =
      (if str_eq n.mint hold then cap_weight cap n else n) ∷ cap_hold hold cap ns

  -- `sum((n.weight for n in netted.values()), Decimal(0))`
  unfoldable pub weight_sum : Num → List (NettedTarget Num) → Num
  weight_sum start [] = start
  weight_sum start (n ∷ ns) = weight_sum (add start n.weight) ns

  unfoldable pub scale_weights : Num → List (NettedTarget Num) → List (NettedTarget Num)
  scale_weights scale [] = []
  scale_weights scale (n ∷ ns) = record n { weight = mul n.weight scale } ∷ scale_weights scale ns

  unfoldable pub fit_cash_floor : Num → List (NettedTarget Num) → List (NettedTarget Num)
  fit_cash_floor max_non_cash ns =
      let total = weight_sum (zero_d D) ns in
      if lt_d D max_non_cash total && lt_d D (zero_d D) total
      then scale_weights (div max_non_cash total) ns
      else ns

  -- Every other mint, under the token cap.
  unfoldable pub cap_tokens : String → Num → List (NettedTarget Num) → List (NettedTarget Num)
  cap_tokens hold cap [] = []
  cap_tokens hold cap (n ∷ ns) =
      (if str_eq n.mint hold then n else cap_weight cap n) ∷ cap_tokens hold cap ns

  unfoldable pub net_targets :
      List (TargetExposure Num) → Option Num → Config Num → List (NettedTarget Num)
  net_targets targets sigma cfg =
      let sums = add_targets cfg targets (record { per_strategy = []; netted = [] }) in
      let held = cap_hold cfg.hold_mint (sol_beta_cap D sigma cfg.risk) sums.netted in
      let floored = fit_cash_floor (sub (one_d D) (cash_floor_fraction D cfg)) held in
      cap_tokens cfg.hold_mint cfg.risk.max_token_pct floored
