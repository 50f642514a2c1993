-- ===== src/Config/Boot.antt =====
-- The configurations that src/tiller/config.py lets boot.
use agent_trading.Base.{ℕ, ◌+◌, true, false, ◌≡◌, ◌↔◌, refl, List, [], ◌∷◌, ◌++◌, arith, All}
use agent_trading.Decimal.{DecimalOps, zero_d, sum_d, lt_d}
use agent_trading.Decimal.Laws.{Le}
use agent_trading.Config.{
  Config, non_cash_at_most_70, AllocationCfg, RiskCfg, violated, allocation_rules, risk_rules,
  mode_rules, l0_violations, sleeve_rules, sleeves, percent, allocation_total, is_stale,
}

-- Nothing was appended, by the parts of the list.
append-eq-nil {ℓ} : {A : Type ℓ} (xs ys : List A) → xs ++ ys ≡ [] → (xs ≡ []) × (ys ≡ [])
append-eq-nil [] ys h = (refl, h)
append-eq-nil (x ∷ xs) ys h = cc

module _ (D : DecimalOps) where
  open D use {Num, literal, sub, abs, leb}

  -- Strictly below.
  abbrev pub Lt : Num → Num → Type 0
  Lt a b = leb b a ≡ false

  abbrev IsSleeve : Num → Type 0
  IsSleeve pct = Le D (zero_d D) pct × Le D pct (percent D 50)

  sleeve_rules-nil : (i : ℕ) (ps : List Num) → sleeve_rules D i ps ≡ [] → All IsSleeve ps
  unfolding sleeve_rules
  sleeve_rules-nil i [] h = tt
  sleeve_rules-nil i (p ∷ ps) h =
      ((ground arith, ground arith), sleeve_rules-nil (i + 1) ps (ground arith))

  -- The allocation sums to 100 up to 0.01, at least 30 of it cash and at most 70 elsewhere, each
  -- sleeve between 0 and 50.
  pub record IsAllocated (a : AllocationCfg Num) : Type 0 where
    pub sums : Le D (abs (sub (allocation_total D a) (percent D 100))) (literal 1 2)
    pub cash_floor : Le D (percent D 30) a.cash_floor_pct
    pub in_sleeves : All IsSleeve (sleeves D a)
    pub non_cash : Le D (sum_d D (zero_d D) (sleeves D a)) (percent D 70)

  -- The thresholds are in order and below their ceilings.
  pub record IsPrudent (r : RiskCfg Num) : Type 0 where
    pub daily_loss : Le D r.daily_loss_pct (literal 6 2)
    pub flatten : Le D r.dd30_flatten_pct (literal 25 2)
    pub flatten_above_entry : Lt r.dd30_entry_block_pct r.dd30_flatten_pct
    pub entry_above_week : Lt r.dd7_entry_block_pct r.dd30_entry_block_pct
    pub week_positive : Lt (zero_d D) r.dd7_entry_block_pct
    pub beta_cap : Le D r.sol_beta_cap_max (literal 5 1)
    pub band : Le D (zero_d D) r.rebalance_band_pct
    pub token_cap : Le D r.max_token_pct (literal 5 1)
    pub min_order : Lt (zero_d D) r.min_order_usd

  -- The acknowledgements are there, and a live copy sleeve is shadowed and funded.
  pub record IsAcknowledged (c : Config Num) (today : ℕ) : Type 0 where
    pub reviewed :
        c.is_live ≡ true
        → c.familiars_enabled ≡ true
        → is_stale c.skill_md_reviewed_at today ≡ false
    pub acknowledged :
        c.is_live ≡ true → c.familiars_enabled ≡ false → c.live_without_familiars_ack ≡ true
    pub geo_hyperliquid : c.hyperliquid.enabled ≡ true → c.hyperliquid.geo_acknowledged ≡ true
    pub geo_cex : c.cex.enabled ≡ true → c.cex.geo_acknowledged ≡ true
    pub shadowed : c.copy_live ≡ true → c.copy_shadow_enabled ≡ true
    pub funded : c.copy_live ≡ true → Lt (zero_d D) c.allocation.copy_pct

  allocation_rules-nil : (a : AllocationCfg Num) → allocation_rules D a ≡ [] → IsAllocated a
  unfolding allocation_rules
  allocation_rules-nil a h =
      let over =
        violated (lt_d D (percent D 70) (sum_d D (zero_d D) (sleeves D a))) non_cash_at_most_70 in
      let parts = append-eq-nil (sleeve_rules D 0 (sleeves D a)) over in
      record {
        sums = ground arith;
        cash_floor = ground arith;
        in_sleeves = sleeve_rules-nil 0 (sleeves D a) (ground (arith, parts));
        non_cash = ground (arith, parts);
      }

  risk_rules-nil : (r : RiskCfg Num) → risk_rules D r ≡ [] → IsPrudent r
  unfolding risk_rules
  risk_rules-nil r h = ground arith

  mode_rules-nil : (c : Config Num) (today : ℕ) → mode_rules D c today ≡ [] → IsAcknowledged c today
  unfolding mode_rules
  mode_rules-nil c today h = ground arith

  sleeve_rules_empty : (i : ℕ) (ps : List Num) → All IsSleeve ps → sleeve_rules D i ps ≡ []
  unfolding sleeve_rules
  sleeve_rules_empty i [] h = refl
  sleeve_rules_empty i (p ∷ ps) h = ground (arith, sleeve_rules_empty (i + 1) ps h.1)

  allocation_rules_empty : (a : AllocationCfg Num) → IsAllocated a → allocation_rules D a ≡ []
  unfolding allocation_rules
  allocation_rules_empty a h =
      let none_apart = sleeve_rules_empty 0 (sleeves D a) h.in_sleeves in ground (arith, none_apart)

  risk_rules_empty : (r : RiskCfg Num) → IsPrudent r → risk_rules D r ≡ []
  unfolding risk_rules
  risk_rules_empty r h = ground arith

  mode_rules_empty :
      (c : Config Num) (today : ℕ) → IsAcknowledged c today → mode_rules D c today ≡ []
  unfolding mode_rules
  mode_rules_empty c today h = ground arith

  -- A configuration boots (`l0_violations` is empty) exactly when its allocation sums to 100 up to
  -- 0.01 with the cash floor, sleeve and non-cash bounds kept, its risk thresholds are in order and
  -- below their ceilings, and its mode, venues and copy sleeve are acknowledged.
  pub l0_violations_iff :
      (c : Config Num) (today : ℕ)
      → (l0_violations D c today ≡ [])
        ↔ (IsAllocated c.allocation × IsPrudent c.risk × IsAcknowledged c today)
  unfolding l0_violations
  l0_violations_iff c today = (boots, starts)
    where
      boots :
          l0_violations D c today ≡ []
          → IsAllocated c.allocation × IsPrudent c.risk × IsAcknowledged c today
      boots h =
          let (first, rest) =
            append-eq-nil (allocation_rules D c.allocation)
              (risk_rules D c.risk ++ mode_rules D c today) h in
          let (second, third) = append-eq-nil (risk_rules D c.risk) (mode_rules D c today) rest in
          (
            allocation_rules-nil c.allocation first,
            risk_rules-nil c.risk second,
            mode_rules-nil c today third,
          )

      starts :
          IsAllocated c.allocation × IsPrudent c.risk × IsAcknowledged c today
          → l0_violations D c today ≡ []
      starts (a, r, m) = rw (
        allocation_rules_empty c.allocation a,
        risk_rules_empty c.risk r,
        mode_rules_empty c today m,
      )
