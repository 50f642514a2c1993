-- ===== src/Copy/Strategy/Guarded.antt =====
-- What holds of a target that the copy strategy emits.
use agent_trading.Base.{
  ◌≤◌, ◌<◌, ◌≡◌, true, false, some, List, [], ◌∷◌, String, arith, length, map, All, Bool-cases,
  Option-cases, inl, inr,
}
use agent_trading.Base.Text.{str_in}
use agent_trading.Base.Sort.{sort_by}
use agent_trading.Decimal.{DecimalOps, zero_d, sum_d}
use agent_trading.Decimal.Laws.{DecimalLaws, Le, min-le_left, min-le_right}
use agent_trading.Allocator.Netting.{TargetExposure}
use agent_trading.Copy.Exits.{CopyCfg}
use agent_trading.Copy.Consensus.{CopyCandidate}
use agent_trading.Copy.Strategy.{
  CopyState, Inputs, entries_today, enabled, held_rows, is_eligible, first_eligible, entry_weight,
  is_blocked, target_of, candidate_before, targets,
}

module _ (D : DecimalOps) where
  open D use {Num}

  abbrev pub own_mints : Inputs Num → List String
  own_mints i = map (λ p. p.mint) (held_rows i.positions)

  -- A target that keeps the rules.
  pub record IsGuarded (cfg : CopyCfg Num) (i : Inputs Num) (s : CopyState Num)
      (t : TargetExposure Num) : Type 0 where
    pub live : cfg.live ≡ true
    pub promoted : i.promotion_gate_met ≡ true
    pub in_regime : i.regime_on ≡ true
    pub concurrent : length (held_rows i.positions) < cfg.max_concurrent
    pub daily : entries_today i.now i.fills s.entries < cfg.max_entries_per_day
    pub gated : i.gate t.mint ≡ true
    pub fresh : str_in t.mint (own_mints i) ≡ false
    pub positive : D.leb t.weight (zero_d D) ≡ false
    pub per_signal : Le D t.weight cfg.per_signal_pct
    pub in_sleeve : Le D t.weight (
        D.sub cfg.sleeve_cap_pct
          (D.div (sum_d D (zero_d D) (map (λ p. p.cost_usd) (held_rows i.positions))) i.equity_usd))

  first_eligible-is_eligible :
      (cfg : CopyCfg Num) (i : Inputs Num) (held : List String) (cs : List (CopyCandidate Num))
      (c : CopyCandidate Num)
      → first_eligible D cfg i held cs ≡ some c
      → is_eligible D cfg i held c ≡ true
  unfolding first_eligible
  first_eligible-is_eligible cfg i held [] c h = cc
  first_eligible-is_eligible cfg i held (d ∷ ds) c h =
      ground (arith, first_eligible-is_eligible cfg i held ds c, h)

  target_of-IsGuarded :
      (L : DecimalLaws D) (cfg : CopyCfg Num) (i : Inputs Num) (s : CopyState Num)
      (c : CopyCandidate Num)
      → is_blocked D cfg i s (held_rows i.positions) ≡ false
      → is_eligible D cfg i (own_mints i) c ≡ true
      → IsGuarded cfg i s
          (target_of D cfg i (entry_weight D cfg i.equity_usd (held_rows i.positions)) c)
  unfolding enabled entry_weight
  target_of-IsGuarded L cfg i s c free ok = record {
    live = ground (arith, free);
    promoted = ground (arith, free);
    in_regime = ground (arith, free);
    concurrent = ground (arith, free);
    daily = ground (arith, free);
    gated = ground (arith, ok);
    fresh = ground (arith, ok);
    positive = ground (arith, free);
    per_signal = min-le_left D L cfg.per_signal_pct _;
    in_sleeve = min-le_right D L cfg.per_signal_pct _;
  }

-- A tick gives at most one target, and that one only when copying is live, the shadow book is promoted
-- and the regime is on, with room for a position and an entry of the day, for a mint that passes the
-- gate and is not held by this strategy, at a positive weight within the cap of a signal and the room
-- of the sleeve.
pub targets-IsGuarded :
    (D : DecimalOps) (L : DecimalLaws D) (cfg : CopyCfg D.Num) (i : Inputs D.Num)
    (s : CopyState D.Num)
    → (length (targets D cfg i s).0 ≤ 1) × All (IsGuarded D cfg i s) (targets D cfg i s).0
unfolding targets
targets-IsGuarded D L cfg i s = elim (Bool-cases (is_blocked D cfg i s (held_rows i.positions))) [
  | inl e ↦ rw (e, targets) (omega arith, tt)
  | inr e ↦
      elim (Option-cases
        (first_eligible D cfg i (own_mints D i) (sort_by candidate_before s.candidates))) [
          | inl gone ↦ rw (e, gone, targets) (omega arith, tt)
          | inr (c, found) ↦
              rw (e, found, targets)
                (
                  omega arith,
                  (
                    target_of-IsGuarded D L cfg i s c e
                        (first_eligible-is_eligible D cfg i (own_mints D i) _ c found),
                    tt,
                  ),
                )
        ]
]
