-- ===== src/Risk/Brakes.antt =====
-- `brake_state`, `record_failure`, `record_success` and `must_flatten` of src/tiller/risk/engine.py.
-- Reasons are constructors with the values that the source prints. `kill_file` is the caller's.
pub mod Blocks
pub mod Failures
use agent_trading.Base.{
  ℕ, ◌+◌, Bool, true, false, Option, none, some, List, [], ◌∷◌, ◌++◌, String, if◌then◌else◌, not,
  ◌&&◌, leb, ltb,
}
use agent_trading.Decimal.{DecimalOps, zero_d, lt_d}
use agent_trading.Config.{RiskCfg}
use agent_trading.Account.{AccountSnapshot, drawdown_from}
use agent_trading.State.{
  BrakeState, AgentState, Reason, daily_loss, dd7, dd30, data_stale, owner_limits_unreadable,
  directive_pause, error_rate_high, paused, halted_for, reconcile_mismatch, kill_file_present,
  consecutive_failures_reached,
}
use agent_trading.Risk.Directive.{Directive, pause, liquidate}
use agent_trading.Risk.Limits.{Limits}

-- `if b: reasons.append(r)`
abbrev pub when {ℓ} : {A : Type ℓ} → Bool → A → List A
when true r = r ∷ []
when false r = []

-- `bool(reasons)`
abbrev pub is_any {ℓ} : {A : Type ℓ} → List A → Bool
is_any [] = false
is_any (_ ∷ _) = true

abbrev is_pause : Option Directive → Bool
is_pause (some pause) = true
is_pause (some liquidate) = false
is_pause none = false

-- `paused_until` while it is in the future, else `None`.
abbrev pub still_paused : Option ℕ → ℕ → Option ℕ
still_paused none now = none
still_paused (some t) now = if ltb now t then some t else none

module _ (D : DecimalOps) where
  open D use {Num, sub, div, leb as leb_d}

  -- The loss of the day, on equity minus net deposits, over the start equity.
  abbrev pub day_loss : AccountSnapshot Num → Num
  day_loss acct =
      div
        (sub (sub acct.day.start_equity acct.day.start_net_deposits)
          (sub acct.equity_usd acct.net_deposits_usd))
        acct.day.start_equity

  abbrev pub limits_reasons : Option (Limits Num) → List (Reason Num)
  limits_reasons none = owner_limits_unreadable ∷ []
  limits_reasons (some l) = when (is_pause l.directive) directive_pause

  abbrev pub paused_reasons : Option ℕ → List (Reason Num)
  paused_reasons none = []
  paused_reasons (some t) = paused t ∷ []

  -- Everything that `brake_state` reads besides the configuration.
  pub record BrakeInputs : Type 0 where
    pub acct : AccountSnapshot Num
    pub data_age : ℕ
    pub limits : Option (Limits Num)
    pub error_rate : Num
    pub state : AgentState Num
    pub now : ℕ
    pub kill_file : Bool

  -- The reasons from the account and the data.
  unfoldable pub market_reasons : RiskCfg Num → BrakeInputs → List (Reason Num)
  market_reasons cfg i =
      let fall7 = drawdown_from D i.acct i.acct.peak_7d in
      let fall30 = drawdown_from D i.acct i.acct.peak_30d in
      when (lt_d D (zero_d D) i.acct.day.start_equity && leb_d cfg.daily_loss_pct (day_loss i.acct))
        (daily_loss (day_loss i.acct))
      ++ (when (leb_d cfg.dd7_entry_block_pct fall7) (dd7 fall7)
          ++ (when (leb_d cfg.dd30_entry_block_pct fall30) (dd30 fall30)
              ++ when (ltb cfg.max_data_age i.data_age) (data_stale i.data_age)))

  -- The reasons from the owner, the agent's own state and the kill file.
  unfoldable pub agent_reasons : RiskCfg Num → BrakeInputs → List (Reason Num)
  agent_reasons cfg i =
      limits_reasons i.limits
      ++ (when (lt_d D cfg.error_rate_block i.error_rate) (error_rate_high i.error_rate)
          ++ (paused_reasons (still_paused i.state.brakes.paused_until i.now)
              ++ (when i.state.halted (halted_for i.state.halt_reason)
                  ++ (when (leb 2 i.state.reconcile_mismatch_ticks)
                        (reconcile_mismatch i.state.reconcile_mismatch_ticks)
                      ++ when i.kill_file kill_file_present))))

  unfoldable pub brake_state : RiskCfg Num → BrakeInputs → BrakeState Num
  brake_state cfg i =
      let reasons = market_reasons cfg i ++ agent_reasons cfg i in
      record {
        entries_blocked = is_any reasons;
        reasons = reasons;
        paused_until = still_paused i.state.brakes.paused_until i.now;
        consecutive_failures = i.state.brakes.consecutive_failures;
      }

  -- Why to flatten: the drawdown, the owner's directive, the KILL file.
  pub data Flatten : Type 0 where
    drawdown : Num → Flatten
    owner_directive kill_file_asks : Flatten

  abbrev is_liquidate : Option Directive → Bool
  is_liquidate (some liquidate) = true
  is_liquidate (some pause) = false
  is_liquidate none = false

  unfoldable pub must_flatten :
      AccountSnapshot Num → RiskCfg Num → Option Directive → Bool → Option Flatten
  must_flatten acct cfg directive kill_file =
      let fall = drawdown_from D acct acct.peak_30d in
      if leb_d cfg.dd30_flatten_pct fall
      then some (drawdown fall)
      else (if is_liquidate directive
          then some owner_directive
          else (if kill_file then some kill_file_asks else none))

module _ {N : Type 0} where
  unfoldable pub record_failure : BrakeState N → ℕ → RiskCfg N → ℕ → BrakeState N
  record_failure state now cfg threshold =
      let n = state.consecutive_failures + 1 in
      if leb threshold n
      then record state {
        consecutive_failures = 0;
        paused_until = some (now + cfg.failure_pause);
        entries_blocked = true;
        reasons = state.reasons ++ consecutive_failures_reached threshold ∷ [];
      }
      else record state { consecutive_failures = n }

  unfoldable pub record_success : BrakeState N → BrakeState N
  record_success state = record state { consecutive_failures = 0 }
