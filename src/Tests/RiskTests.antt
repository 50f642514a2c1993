-- ===== src/Tests/RiskTests.antt =====
-- Directives, limits, the ramp and the brakes at concrete inputs.
use agent_trading.Base.{
  ℕ, ◌+◌, ◌*◌, ◌≤◌, ◌<◌, ◌≡◌, ◌↔◌, ◌⊎◌, refl, true, false, Option, none, some, List, [], ◌∷◌,
  String, arith, All,
}
use agent_trading.Base.Int.{ℤ, pos, ◌*ℤ◌, ◌-ℤ◌}
use agent_trading.Decimal.Scaled.{scaled, scaled_div, scaled_laws}
use agent_trading.Models.{OwnerLimits}
use agent_trading.State.{CanaryState, BrakeState, AgentState}
use agent_trading.Account.{AccountSnapshot, drawdown_from}
use agent_trading.Risk.Directive.{liquidate, codes, parse_directive, sentence_directive}
use agent_trading.Risk.Directive.Splits.{IsSplit}
use agent_trading.Risk.Directive.Sentences.{
  Some, Liquidates, Pauses, IsOneSentence, parse_directive_iff, one_sentence_head,
}
use agent_trading.Risk.Limits.{Limits, canary, effective_limits, canary_verified, merge_sources}
use agent_trading.Risk.Limits.Tightens.{
  Obeys, CanaryCaps, IsUnreadable, effective_limits-tighten, effective_limits_closed,
}
use agent_trading.Risk.Canary.{step_count}
use agent_trading.Risk.Canary.Ramp.{Tick, run, last_time, ramp_lem}
use agent_trading.Risk.Brakes.{BrakeInputs, brake_state, must_flatten, drawdown}
use agent_trading.Risk.Brakes.Blocks.{IsCalm, IsClear, brake_state_iff, flatten-blocks}
use agent_trading.Risk.Brakes.Failures.{failures, record_outcomes, failures-block, failure_count-lt}
use agent_trading.Tests.AccountTests.{usd, risk_cfg, canary_cfg}

abbrev order_text : String
order_text = "Hold SOL. Liquidate now"

parse_directive_iff_example :
    (s : List ℕ) × (rest : List (List ℕ)) × IsSplit (codes order_text) s rest
    × ((parse_directive (some order_text) ≡ some liquidate) ↔ Some Liquidates (s ∷ rest))
    × ((parse_directive (some order_text) ≡ none)
        ↔ All (λ s. ¬ Liquidates s × ¬ Pauses s) (s ∷ rest))
parse_directive_iff_example = parse_directive_iff order_text

one_sentence : IsOneSentence (codes "pause it")
one_sentence = ground (arith)

pause_alone : parse_directive (some "pause it") ≡ sentence_directive (codes "pause it")
pause_alone = one_sentence_head "pause it" one_sentence

abbrev owner_limits : Option (OwnerLimits ℤ)
owner_limits = some (record {
  max_position_usd = some (usd 40);
  daily_limit_usd = none;
  instructions = some "pause it";
  readable = true;
})

abbrev fresh_canary : CanaryState
fresh_canary = record {
  verified_buy = false;
  verified_sell = false;
  verified_post = false;
  ramp_step = 0;
  ramp_step_started = none;
}

abbrev pub merged : Limits ℤ
merged = record {
  max_position_usd = some (usd 25);
  daily_limit_usd = some (usd 50);
  multiplier = usd 1;
  stage = canary;
  directive = parse_directive (some "pause it");
}

merged_ok : effective_limits scaled risk_cfg owner_limits none fresh_canary true ≡ some merged
unfolding effective_limits merge_sources ◌*ℤ◌
merged_ok = refl

effective_limits-tighten_example :
    Obeys scaled scaled_laws merged.max_position_usd merged.daily_limit_usd merged.directive
      owner_limits
    × Obeys scaled scaled_laws merged.max_position_usd merged.daily_limit_usd merged.directive none
    × (true ≡ true
        → canary_verified fresh_canary ≡ false
        → CanaryCaps scaled scaled_laws risk_cfg merged)
effective_limits-tighten_example =
    effective_limits-tighten scaled scaled_laws risk_cfg owner_limits none fresh_canary true merged
      merged_ok

effective_limits_closed_example :
    (effective_limits scaled risk_cfg owner_limits none fresh_canary true ≡ none)
    ↔ (IsUnreadable scaled owner_limits ⊎ IsUnreadable scaled none)
effective_limits_closed_example =
    effective_limits_closed scaled risk_cfg owner_limits none fresh_canary true

abbrev ticks : List Tick
ticks =
    record { buy = true; sell = true; post = true; brake_tripped = false; now = 5 }
    ∷ record { buy = false; sell = false; post = false; brake_tripped = false; now = 15 }
    ∷ []

ramp_lem_example :
    let d = run canary_cfg ticks fresh_canary in
    (d.ramp_step < step_count canary_cfg.ramp_steps)
    × (0 < d.ramp_step → canary_verified d ≡ true)
    × (3 + d.ramp_step * canary_cfg.ramp_step_length ≤ last_time canary_cfg 3 ticks)
ramp_lem_example =
    ramp_lem canary_cfg 3 ticks fresh_canary refl refl (omega arith, (omega arith, tt))

abbrev pub no_brakes : BrakeState ℤ
no_brakes = record {
  entries_blocked = false;
  reasons = [];
  paused_until = none;
  consecutive_failures = 0;
}

abbrev pub snapshot : AccountSnapshot ℤ
snapshot = record {
  ts = 100;
  equity_usd = usd 70;
  usdc_usd = usd 70;
  sol_lamports = pos 0;
  positions = [];
  marks = [];
  net_deposits_usd = usd 100;
  day = record {
    start_equity = usd 70;
    buys_usd = usd 0;
    swaps = 0;
    entries = 0;
    start_net_deposits = usd 100;
  };
  peak_7d = usd 70;
  peak_30d = usd 100;
  holdings = [];
  decimals = [];
}

abbrev agent : BrakeState ℤ → AgentState ℤ
agent b = record {
  canary = fresh_canary;
  brakes = b;
  halted = false;
  halt_reason = none;
  reconcile_mismatch_ticks = 0;
}

abbrev inputs : BrakeState ℤ → BrakeInputs scaled
inputs b = record {
  acct = snapshot;
  data_age = 5;
  limits = some merged;
  error_rate = usd 0;
  state = agent b;
  now = 100;
  kill_file = false;
}

brake_state_iff_example :
    ((brake_state scaled risk_cfg (inputs no_brakes)).entries_blocked ≡ false)
    ↔ (IsCalm scaled risk_cfg (inputs no_brakes) × IsClear scaled risk_cfg (inputs no_brakes))
brake_state_iff_example = brake_state_iff scaled risk_cfg (inputs no_brakes)

flattened :
    must_flatten scaled snapshot risk_cfg none false
    ≡ some (drawdown (drawdown_from scaled snapshot snapshot.peak_30d))
unfolding must_flatten drawdown_from ◌*ℤ◌ ◌-ℤ◌ scaled_div
flattened = refl

flatten-blocks_example : (brake_state scaled risk_cfg (inputs no_brakes)).entries_blocked ≡ true
flatten-blocks_example =
    flatten-blocks scaled scaled_laws risk_cfg (inputs no_brakes) none false
      (drawdown_from scaled snapshot snapshot.peak_30d) refl flattened

failures-block_example :
    (brake_state scaled risk_cfg (
      inputs (
        record_outcomes risk_cfg 3
          (failures risk_cfg 3 (80 ∷ 85 ∷ []) 90)
          no_brakes))).entries_blocked
    ≡ true
failures-block_example =
    failures-block scaled risk_cfg 3 (80 ∷ 85 ∷ []) 90 no_brakes
      (inputs (record_outcomes risk_cfg 3 (failures risk_cfg 3 (80 ∷ 85 ∷ []) 90) no_brakes)) refl
      refl (omega arith)

failure_count-lt_example :
    (record_outcomes risk_cfg 3
      (failures risk_cfg 3 (80 ∷ 85 ∷ []) 90)
      no_brakes).consecutive_failures
    < 3
failure_count-lt_example =
    failure_count-lt risk_cfg 3 (failures risk_cfg 3 (80 ∷ 85 ∷ []) 90) no_brakes (omega arith)
