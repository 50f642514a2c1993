-- ===== src/Risk/Brakes/Failures.antt =====
-- Runs of failures and successes, and the pause that they lead to.
use agent_trading.Base.{
  ℕ, ◌+◌, ◌<◌, true, ◌≡◌, some, List, [], ◌∷◌, arith, length, ap, ◌∙◌, Bool-cases, inl, inr,
}
use agent_trading.Config.{RiskCfg}
use agent_trading.State.{BrakeState}
use agent_trading.Decimal.{DecimalOps}
use agent_trading.Risk.Brakes.{BrakeInputs, brake_state, record_failure, record_success}
use agent_trading.Risk.Brakes.Blocks.{brake_state_iff}

-- The outcomes of executions, oldest first, with their times.
pub data Outcome : Type 0 where
  failed succeeded : ℕ → Outcome

module _ {N : Type 0} (cfg : RiskCfg N) (threshold : ℕ) where
  pub record_outcomes : List Outcome → BrakeState N → BrakeState N
  record_outcomes [] s = s
  record_outcomes (failed now ∷ r) s = record_outcomes r (record_failure s now cfg threshold)
  record_outcomes (succeeded now ∷ r) s = record_outcomes r (record_success s)

  -- The counter never reaches the threshold.
  record_outcomes-lt :
      (os : List Outcome) (s : BrakeState N)
      → s.consecutive_failures < threshold
      → (record_outcomes os s).consecutive_failures < threshold
  unfolding record_outcomes record_failure record_success
  record_outcomes-lt [] s h = h
  record_outcomes-lt (failed now ∷ r) s h =
      record_outcomes-lt r (record_failure s now cfg threshold) (ground arith)
  record_outcomes-lt (succeeded now ∷ r) s h = record_outcomes-lt r (record_success s) (omega arith)

  -- Failures at the times of a list, and a last one.
  abbrev pub failures : List ℕ → ℕ → List Outcome
  failures [] last = failed last ∷ []
  failures (t ∷ ts) last = failed t ∷ failures ts last

  failures_pause :
      (ts : List ℕ) (last : ℕ) (s : BrakeState N)
      → s.consecutive_failures + length ts + 1 ≡ threshold
      → (record_outcomes (failures ts last) s).paused_until ≡ some (last + cfg.failure_pause)
  unfolding record_outcomes record_failure
  failures_pause [] last s h = ground arith
  failures_pause (t ∷ ts) last s h =
      let counted : record_failure s t cfg threshold
          ≡ record s { consecutive_failures = s.consecutive_failures + 1 } =
        ground arith in
      ap (λ b. (record_outcomes (failures ts last) b).paused_until) counted
      ∙ failures_pause ts last (record s { consecutive_failures = s.consecutive_failures + 1 })
          (omega arith)

-- As many failures in a row as the threshold, with no success between them, block every entry until
-- `failure_pause` after the last one, whatever else holds.
pub failures-block :
    (D : DecimalOps) (cfg : RiskCfg D.Num) (threshold : ℕ) (ts : List ℕ) (last : ℕ)
    (s : BrakeState D.Num) (i : BrakeInputs D)
    → s.consecutive_failures + length ts + 1 ≡ threshold
    → i.state.brakes ≡ record_outcomes cfg threshold (failures cfg threshold ts last) s
    → i.now < last + cfg.failure_pause
    → (brake_state D cfg i).entries_blocked ≡ true
failures-block D cfg threshold ts last s i count stored early =
    elim (Bool-cases (brake_state D cfg i).entries_blocked) [
      | inl e ↦ e
      | inr e ↦
          let paused = failures_pause cfg threshold ts last s count in
          let until = ap (λ (b : BrakeState D.Num). b.paused_until) stored ∙ paused in
          let over =
            ((brake_state_iff D cfg i).0 e).1.pause_over (last + cfg.failure_pause) until in
          absurd (omega arith)
    ]

-- The counter stays below the threshold over any run of failures and successes.
pub failure_count-lt :
    {N : Type 0} (cfg : RiskCfg N) (threshold : ℕ) (os : List Outcome) (s : BrakeState N)
    → s.consecutive_failures < threshold
    → (record_outcomes cfg threshold os s).consecutive_failures < threshold
failure_count-lt cfg threshold os s h = record_outcomes-lt cfg threshold os s h
