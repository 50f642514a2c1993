-- ===== src/Allocator/Netting/Caps.antt =====
-- Every netted weight is within its caps.
use agent_trading.Base.{
  true, false, ◌≡◌, Option, none, some, List, [], ◌∷◌, String, arith, All, if_intro, ◌&&◌, &&_parts,
}
use agent_trading.Base.Text.{str_eq}
use agent_trading.Base.Dict.{lookup_or}
use agent_trading.Decimal.{DecimalOps, zero_d, one_d, max_d, lt_d}
use agent_trading.Decimal.Laws.{DecimalLaws, Le, le-min, max-ge_left}
use agent_trading.Config.{Config}
use agent_trading.Allocator.{sol_beta_cap, sleeve_budget, cash_floor_fraction}
use agent_trading.Allocator.Netting.{
  TargetExposure, NettedTarget, Netting, add_to, clipped, add_target, add_targets, cap_weight,
  cap_hold, weight_sum, scale_weights, fit_cash_floor, cap_tokens, net_targets,
}

module _ (D : DecimalOps) (L : DecimalLaws D) where
  open D use {Num, add, sub, mul, div}

  abbrev IsNonneg : NettedTarget Num → Type 0
  IsNonneg n = Le D (zero_d D) n.weight

  clipped-nonneg : (weight budget used : Num) → Le D (zero_d D) (clipped D weight budget used)
  clipped-nonneg weight budget used =
      le-min D L (max_d D (zero_d D) weight) (max_d D (zero_d D) (sub budget used)) (zero_d D)
        (max-ge_left D L (zero_d D) weight) (max-ge_left D L (zero_d D) (sub budget used))

  add_to-IsNonneg :
      (t : TargetExposure Num) (w : Num) (ns : List (NettedTarget Num))
      → Le D (zero_d D) w
      → All IsNonneg ns
      → All IsNonneg (add_to D t w ns)
  unfolding add_to
  add_to-IsNonneg t w [] h k = (h, tt)
  add_to-IsNonneg t w (n ∷ ns) h k =
      ground (arith, L.add_nonneg n.weight w k.0 h, add_to-IsNonneg t w ns h k.1)

  add_targets-IsNonneg :
      (cfg : Config Num) (ts : List (TargetExposure Num)) (s : Netting D)
      → All IsNonneg s.netted
      → All IsNonneg (add_targets D cfg ts s).netted
  unfolding add_targets
  add_targets-IsNonneg cfg [] s h = h
  add_targets-IsNonneg cfg (t ∷ ts) s h =
      add_targets-IsNonneg cfg ts (add_target D (sleeve_budget D cfg t.strategy) t s)
        (added (sleeve_budget D cfg t.strategy))
    where
      added : (budget : Option Num) → All IsNonneg (add_target D budget t s).netted
      added none = h
      added (some budget) =
          let used = lookup_or t.strategy (zero_d D) s.per_strategy in
          let w = clipped D t.weight budget used in
          let new = add_to-IsNonneg t w s.netted (clipped-nonneg t.weight budget used) h in
          ground (arith, new)

  -- A weight within the cap of the hold mint.
  abbrev IsHeld : String → Num → NettedTarget Num → Type 0
  IsHeld hold cap n = IsNonneg n × (str_eq n.mint hold ≡ true → Le D n.weight cap)

  cap_weight-le :
      (cap : Num) (n : NettedTarget Num)
      → Le D (zero_d D) cap
      → IsNonneg n
      → IsNonneg (cap_weight D cap n) × Le D (cap_weight D cap n).weight cap
  cap_weight-le cap n h k = ground (arith, L.leb_refl cap)

  cap_hold-IsHeld :
      (hold : String) (cap : Num) (ns : List (NettedTarget Num))
      → Le D (zero_d D) cap
      → All IsNonneg ns
      → All (IsHeld hold cap) (cap_hold D hold cap ns)
  unfolding cap_hold
  cap_hold-IsHeld hold cap [] h k = tt
  cap_hold-IsHeld hold cap (n ∷ ns) h k =
      ground (arith, cap_weight-le cap n h k.0, cap_hold-IsHeld hold cap ns h k.1)

  scale_weights-IsHeld :
      (hold : String) (cap scale : Num) (ns : List (NettedTarget Num))
      → Le D (zero_d D) scale
      → Le D scale (one_d D)
      → All (IsHeld hold cap) ns
      → All (IsHeld hold cap) (scale_weights D scale ns)
  unfolding scale_weights
  scale_weights-IsHeld hold cap scale [] h k all = tt
  scale_weights-IsHeld hold cap scale (n ∷ ns) h k all =
      let nonneg = L.mul_nonneg n.weight scale all.0.0 h in
      let less = L.mul_le n.weight scale all.0.0 k in
      (
        (nonneg, (λ e. L.leb_trans (mul n.weight scale) n.weight cap less (all.0.1 e))),
        scale_weights-IsHeld hold cap scale ns h k all.1,
      )

  fit_cash_floor-IsHeld :
      (hold : String) (cap max_non_cash : Num) (ns : List (NettedTarget Num))
      → Le D (zero_d D) max_non_cash
      → All (IsHeld hold cap) ns
      → All (IsHeld hold cap) (fit_cash_floor D max_non_cash ns)
  unfolding fit_cash_floor
  fit_cash_floor-IsHeld hold cap max_non_cash ns h all =
      let total = weight_sum D (zero_d D) ns in
      if_intro (All (IsHeld hold cap)) (lt_d D max_non_cash total && lt_d D (zero_d D) total)
        (scale_weights D (div max_non_cash total) ns) ns
        (λ e.
          let (above, positive) =
            &&_parts (lt_d D max_non_cash total) (lt_d D (zero_d D) total) e in
          let over_zero : D.leb total (zero_d D) ≡ false = ground arith in
          scale_weights-IsHeld hold cap (div max_non_cash total) ns
            (L.div_nonneg max_non_cash total h over_zero)
            (L.div_le_one max_non_cash total (L.leb_total total max_non_cash (ground arith))
              over_zero)
            all)
        (λ _. all)

  -- Within the cap of its kind of mint.
  abbrev pub IsCapped : String → Num → Num → NettedTarget Num → Type 0
  IsCapped hold beta_cap token_cap n =
      Le D (zero_d D) n.weight
      × (str_eq n.mint hold ≡ true → Le D n.weight beta_cap)
      × (str_eq n.mint hold ≡ false → Le D n.weight token_cap)

  cap_tokens-IsCapped :
      (hold : String) (beta_cap token_cap : Num) (ns : List (NettedTarget Num))
      → Le D (zero_d D) token_cap
      → All (IsHeld hold beta_cap) ns
      → All (IsCapped hold beta_cap token_cap) (cap_tokens D hold token_cap ns)
  unfolding cap_tokens
  cap_tokens-IsCapped hold beta_cap token_cap [] h all = tt
  cap_tokens-IsCapped hold beta_cap token_cap (n ∷ ns) h all = ground (
    arith,
    cap_weight-le token_cap n h all.0.0,
    cap_tokens-IsCapped hold beta_cap token_cap ns h all.1,
  )

  -- Whatever the strategies ask for, no netted weight is negative, that of the hold mint is at most
  -- the beta cap, and that of any other mint at most the token cap, where these caps and the share
  -- outside the cash floor are not negative.
  pub net_targets-IsCapped :
      (targets : List (TargetExposure Num)) (sigma : Option Num) (cfg : Config Num)
      → Le D (zero_d D) (sol_beta_cap D sigma cfg.risk)
      → Le D (zero_d D) cfg.risk.max_token_pct
      → Le D (zero_d D) (sub (one_d D) (cash_floor_fraction D cfg))
      → All
          (IsCapped cfg.hold_mint (sol_beta_cap D sigma cfg.risk) cfg.risk.max_token_pct)
          (net_targets D targets sigma cfg)
  unfolding net_targets
  net_targets-IsCapped targets sigma cfg beta token cash =
      let sums = add_targets D cfg targets (record { per_strategy = []; netted = [] }) in
      let beta_cap = sol_beta_cap D sigma cfg.risk in
      let nonneg =
        add_targets-IsNonneg cfg targets (record { per_strategy = []; netted = [] }) tt in
      let held = cap_hold-IsHeld cfg.hold_mint beta_cap sums.netted beta nonneg in
      let max_non_cash = sub (one_d D) (cash_floor_fraction D cfg) in
      let ns = cap_hold D cfg.hold_mint beta_cap sums.netted in
      let floored = fit_cash_floor-IsHeld cfg.hold_mint beta_cap max_non_cash ns cash held in
      cap_tokens-IsCapped cfg.hold_mint beta_cap cfg.risk.max_token_pct
        (fit_cash_floor D max_non_cash ns) token floored
