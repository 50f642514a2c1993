-- ===== src/State.antt =====
-- src/tiller/state.py: the hot state that the risk engine reads and writes. Instants and lengths of
-- time are counts of microseconds. A reason is a constructor instead of the text that it prints.
pub mod Lock
use agent_trading.Base.{ℕ, Bool, Option, List, String}

pub record CanaryState : Type 0 where
  pub verified_buy : Bool
  pub verified_sell : Bool
  pub verified_post : Bool
  pub ramp_step : ℕ
  pub ramp_step_started : Option ℕ

-- The reasons that `risk/engine.py` writes, with the values that their texts show.
pub data Reason (N : Type 0) : Type 0 where
  daily_loss dd7 dd30 : N → Reason N
  data_stale : ℕ → Reason N
  owner_limits_unreadable directive_pause : Reason N
  error_rate_high : N → Reason N
  paused : ℕ → Reason N
  halted_for : Option String → Reason N
  reconcile_mismatch : ℕ → Reason N
  kill_file_present : Reason N
  consecutive_failures_reached : ℕ → Reason N
  entries_blocked_unexplained : Reason N
  swaps_today entries_in_tick too_many_positions : ℕ → Reason N
  mint_blocklisted below_cash_floor below_gas_reserve : Reason N
  below_min_order : N → Reason N

pub record BrakeState (N : Type 0) : Type 0 where
  pub entries_blocked : Bool
  pub reasons : List (Reason N)
  pub paused_until : Option ℕ
  pub consecutive_failures : ℕ

-- `AgentState`, the fields that the risk engine reads.
pub record AgentState (N : Type 0) : Type 0 where
  pub canary : CanaryState
  pub brakes : BrakeState N
  pub halted : Bool
  pub halt_reason : Option String
  pub reconcile_mismatch_ticks : ℕ
