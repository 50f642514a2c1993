-- ===== src/Risk/Brakes/Blocks.antt =====
-- When src/tiller/risk/engine.py blocks entries, and that a flatten is always a block too.
use agent_trading.Base.{
  ℕ, ◌≤◌, ◌<◌, Bool, true, false, ◌≡◌, ◌≢◌, ◌↔◌, refl, Option, none, some, List, [], ◌∷◌, ◌++◌,
  arith, Option-cases, Bool-cases, inl, inr,
}
use agent_trading.Decimal.{DecimalOps, zero_d, lt_d}
use agent_trading.Decimal.Laws.{DecimalLaws, Le}
use agent_trading.Config.{RiskCfg}
use agent_trading.Account.{drawdown_from}
use agent_trading.Risk.Directive.{Directive, pause}
use agent_trading.Risk.Limits.{Limits}
use agent_trading.Risk.Brakes.{
  BrakeInputs, brake_state, market_reasons, agent_reasons, day_loss, is_any, must_flatten, drawdown,
}

module _ (D : DecimalOps) where
  open D use {Num, leb as leb_d}

  -- Nothing in the account or the data speaks against an entry.
  pub record IsCalm (cfg : RiskCfg Num) (i : BrakeInputs D) : Type 0 where
    pub loss :
        lt_d D (zero_d D) i.acct.day.start_equity ≡ true
        → leb_d cfg.daily_loss_pct (day_loss D i.acct) ≡ false
    pub week : leb_d cfg.dd7_entry_block_pct (drawdown_from D i.acct i.acct.peak_7d) ≡ false
    pub month : leb_d cfg.dd30_entry_block_pct (drawdown_from D i.acct i.acct.peak_30d) ≡ false
    pub data_fresh : i.data_age ≤ cfg.max_data_age

  -- Nor in the owner's limits, the agent's state or the kill file.
  pub record IsClear (cfg : RiskCfg Num) (i : BrakeInputs D) : Type 0 where
    pub limits_read : i.limits ≢ none
    pub not_paused_by_owner : (l : Limits Num) → i.limits ≡ some l → l.directive ≢ some pause
    pub errors : lt_d D cfg.error_rate_block i.error_rate ≡ false
    pub pause_over : (t : ℕ) → i.state.brakes.paused_until ≡ some t → t ≤ i.now
    pub running : i.state.halted ≡ false
    pub reconciled : i.state.reconcile_mismatch_ticks < 2
    pub no_kill_file : i.kill_file ≡ false

  market_reasons-nil :
      (cfg : RiskCfg Num) (i : BrakeInputs D) → market_reasons D cfg i ≡ [] → IsCalm cfg i
  unfolding market_reasons
  market_reasons-nil cfg i h = ground arith

  market_reasons_empty :
      (cfg : RiskCfg Num) (i : BrakeInputs D) → IsCalm cfg i → market_reasons D cfg i ≡ []
  unfolding market_reasons
  market_reasons_empty cfg i h = ground arith

  agent_reasons-nil :
      (cfg : RiskCfg Num) (i : BrakeInputs D) → agent_reasons D cfg i ≡ [] → IsClear cfg i
  unfolding agent_reasons
  agent_reasons-nil cfg i h = ground arith

  agent_reasons_empty :
      (cfg : RiskCfg Num) (i : BrakeInputs D) → IsClear cfg i → agent_reasons D cfg i ≡ []
  unfolding agent_reasons
  agent_reasons_empty cfg i h = elim (Option-cases i.limits) [
    | inl gone ↦ absurd (h.limits_read gone)
    | inr (l, e) ↦
        let going = h.not_paused_by_owner l e in
        elim (Option-cases i.state.brakes.paused_until) [
          | inl p ↦ ground (arith, going)
          | inr (t, p) ↦ ground (arith, going, h.pause_over t p)
        ]
  ]

  append_empty : {A : Type 0} (xs ys : List A) → xs ++ ys ≡ [] → (xs ≡ []) × (ys ≡ [])
  append_empty [] ys h = (refl, h)
  append_empty (x ∷ xs) ys h = cc

  is_any-false : {A : Type 0} (xs : List A) → (is_any xs ≡ false) ↔ (xs ≡ [])
  is_any-false [] = (λ h. refl, λ h. refl)
  is_any-false (x ∷ xs) = (λ h. cc, λ h. cc)

  -- Entries are free exactly when nothing speaks against them: no daily loss or drawdown at its
  -- threshold, data fresh enough, limits readable and not pausing, an error rate within its bound,
  -- a pause that is over, no halt, fewer than two ticks of mismatch, no kill file.
  pub brake_state_iff :
      (cfg : RiskCfg Num) (i : BrakeInputs D)
      → ((brake_state D cfg i).entries_blocked ≡ false) ↔ (IsCalm cfg i × IsClear cfg i)
  unfolding brake_state
  brake_state_iff cfg i =
      let market = market_reasons D cfg i in
      let agent = agent_reasons D cfg i in
      (
        (λ h.
            let (m, a) = append_empty market agent ((is_any-false (market ++ agent)).0 h) in
            (market_reasons-nil cfg i m, agent_reasons-nil cfg i a)),
        (λ (calm, clear).
            (is_any-false (market ++ agent)).1
              (rw (market_reasons_empty cfg i calm, agent_reasons_empty cfg i clear))),
      )

  -- A flatten for drawdown comes with blocked entries, whenever the flatten threshold is above the
  -- entry threshold, as the boot rules demand.
  pub flatten-blocks :
      (L : DecimalLaws D) (cfg : RiskCfg Num) (i : BrakeInputs D) (d : Option Directive)
      (kill : Bool) (fall : Num)
      → Le D cfg.dd30_entry_block_pct cfg.dd30_flatten_pct
      → must_flatten D i.acct cfg d kill ≡ some (drawdown fall)
      → (brake_state D cfg i).entries_blocked ≡ true
  unfolding must_flatten
  flatten-blocks L cfg i d kill fall order h =
      let depth = drawdown_from D i.acct i.acct.peak_30d in
      let deep : Le D cfg.dd30_flatten_pct depth = ground arith in
      let over = L.leb_trans cfg.dd30_entry_block_pct cfg.dd30_flatten_pct depth order deep in
      elim (Bool-cases (brake_state D cfg i).entries_blocked) [
        | inl e ↦ e
        | inr e ↦ absurd (blocked_anyway over ((brake_state_iff cfg i).0 e).0.month)
      ]
    where
      blocked_anyway : {b : Bool} → b ≡ true → b ≡ false → ⊥
      blocked_anyway h k = cc
