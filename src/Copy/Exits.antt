-- ===== src/Copy/Exits.antt =====
-- The exit rules of copied positions in src/tiller/copy/leaders.py.
use agent_trading.Base.{ℕ, ◌+◌, ◌*◌, Bool, false, Option, none, some, if◌then◌else◌, ◌&&◌, leb}
use agent_trading.Decimal.{DecimalOps, zero_d, one_d, min_d, lt_d}
use agent_trading.Models.{ExitRule}

-- The fields of `CopyCfg` that the copied positions and the consensus read.
pub record CopyCfg (N : Type 0) : Type 0 where
  pub shadow_enabled : Bool
  pub live : Bool
  pub late_entry_max_above : N
  pub stop_pct : N
  pub trail_pct : N
  pub trail_from_gain_pct : N
  pub time_stop_h : ℕ
  pub max_concurrent : ℕ
  pub max_entries_per_day : ℕ
  pub sleeve_cap_pct : N
  pub per_signal_pct : N

-- One hour in microseconds.
abbrev hour : ℕ
hour = 3600000000

pub data ExitReason : Type 0 where
  stop trail time_stop liquidity_collapse : ExitReason

module _ (D : DecimalOps) where
  open D use {Num, add, sub, mul, leb as leb_d}

  unfoldable pub copy_exit_rule : Num → ℕ → CopyCfg Num → ExitRule Num
  copy_exit_rule entry_price now cfg = record {
    stop_price = some (mul entry_price (sub (one_d D) cfg.stop_pct));
    trail_pct = some cfg.trail_pct;
    trail_from_gain_pct = some cfg.trail_from_gain_pct;
    time_stop_at = some (now + cfg.time_stop_h * hour);
    ema_exit = false;
  }

  abbrev or_else : Option Num → Num → Num
  or_else none d = d
  or_else (some a) d = a

  unfoldable pub tighten_for_leader_sell : ExitRule Num → Num → ExitRule Num
  tighten_for_leader_sell rule tight = record rule {
    trail_pct = some (min_d D (or_else rule.trail_pct tight) tight);
    trail_from_gain_pct = some (zero_d D);
  }

  abbrev stopped : Num → Option Num → Bool
  stopped price none = false
  stopped price (some s) = leb_d price s

  abbrev trailed : Num → Num → Num → Option Num → Option Num → Bool
  trailed price high entry_price none from_gain = false
  trailed price high entry_price (some t) from_gain =
      leb_d (mul entry_price (add (one_d D) (or_else from_gain (zero_d D)))) high
      && leb_d price (mul high (sub (one_d D) t))

  abbrev timed_out : ℕ → Option ℕ → Bool
  timed_out now none = false
  timed_out now (some t) = leb t now

  abbrev collapsed : Option Num → Option Num → Num → Bool
  collapsed (some now_usd) (some entry_usd) pct =
      lt_d D (zero_d D) entry_usd && leb_d now_usd (mul entry_usd (sub (one_d D) pct))
  collapsed (some now_usd) none pct = false
  collapsed none entry_usd pct = false

  unfoldable pub exit_reason :
      Num → Num → Num → ExitRule Num → ℕ → Option Num → Option Num → Num → Option ExitReason
  exit_reason price high entry_price rule now liquidity_usd entry_liquidity_usd collapse_pct =
      if stopped price rule.stop_price
      then some stop
      else (if trailed price high entry_price rule.trail_pct rule.trail_from_gain_pct
          then some trail
          else (if timed_out now rule.time_stop_at
              then some time_stop
              else (if collapsed liquidity_usd entry_liquidity_usd collapse_pct
                  then some liquidity_collapse
                  else none)))
