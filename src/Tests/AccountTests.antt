-- ===== src/Tests/AccountTests.antt =====
-- The lock, the boot rules, the paper book and the peaks at concrete inputs.
use agent_trading.Base.{ℕ, ◌*◌, ◌≡◌, ◌≢◌, ◌↔◌, refl, true, false, none, some, List, [], ◌∷◌, All}
use agent_trading.Base.Int.{ℤ, pos, ◌+ℤ◌}
use agent_trading.Base.Dict.{lookup_or}
use agent_trading.Decimal.Scaled.{scaled, scaled_laws}
use agent_trading.Decimal.Laws.{Le}
use agent_trading.Models.{usdc_mint, sol_mint}
use agent_trading.State.Lock.{LockFile, InstanceLock, acquire, lock_held, Next, ends, finish}
use agent_trading.State.Lock.Exclusive.{World, after_call, after_read, next}
use agent_trading.Config.{Config, RiskCfg, CanaryCfg, l0_violations}
use agent_trading.Config.Boot.{IsAllocated, IsPrudent, IsAcknowledged, l0_violations_iff}
use agent_trading.Account.{
  Transfer, Legs, EquityPoint, paper_balances, max_zero, deposit_adjusted_peaks,
}
use agent_trading.Account.Balances.{transfers_net, fills_net, paper_balances-net}
use agent_trading.Account.Peaks.{Under, deposit_adjusted_peaks-bound}

abbrev owner_file : LockFile
owner_file = record { token = some "a"; heartbeat = some 100 }

abbrev other_lock : InstanceLock
other_lock = record { own_token = "b"; stale_after = 60; held = false }

abbrev start_world : World
start_world = record { file = some owner_file; other = other_lock; next = none; now = 110 }

abbrev blocked : Next
blocked = acquire other_lock 105 (some owner_file)

abbrev read_world : World
read_world = after_read start_world blocked

abbrev refused : World
refused = after_call read_world (finish other_lock 110 (some owner_file) blocked)

acquire_refused : acquire other_lock 105 (some owner_file) ≡ ends lock_held
unfolding acquire
acquire_refused = refl

abbrev pub usd : ℕ → ℤ
usd n = pos (n * 1000000000)

abbrev pub percent_of : ℕ → ℤ
percent_of n = pos (n * 10000000)

abbrev pub canary_cfg : CanaryCfg ℤ
canary_cfg = record {
  max_position_usd = usd 25;
  daily_limit_usd = usd 50;
  ramp_steps = percent_of 25 ∷ percent_of 50 ∷ usd 1 ∷ [];
  ramp_step_length = 10;
}

abbrev pub risk_cfg : RiskCfg ℤ
risk_cfg = record {
  daily_loss_pct = percent_of 6;
  dd7_entry_block_pct = percent_of 10;
  dd30_entry_block_pct = percent_of 20;
  dd30_flatten_pct = percent_of 25;
  sol_beta_cap_max = percent_of 50;
  sol_beta_cap_vol = percent_of 20;
  rebalance_band_pct = percent_of 5;
  min_order_usd = usd 10;
  max_entries_per_tick = 2;
  max_swaps_per_day = 20;
  failure_pause = 30;
  max_positions = 10;
  max_token_pct = percent_of 5;
  max_data_age = 1000;
  error_rate_block = percent_of 50;
  canary = canary_cfg;
}

abbrev pub config : Config ℤ
config = record {
  is_live = true;
  live_without_familiars_ack = true;
  familiars_enabled = false;
  skill_md_reviewed_at = none;
  hold_mint = "Hold";
  sol_trend_enabled = true;
  regime_enabled = false;
  breakout_enabled = false;
  copy_live = false;
  copy_shadow_enabled = true;
  sol_reserve_lamports = 20000000;
  allocation = record {
    sol_trend_ensemble_pct = usd 40;
    sol_regime_switch_pct = usd 10;
    copy_pct = usd 10;
    breakout_pct = usd 10;
    cash_floor_pct = usd 30;
  };
  risk = risk_cfg;
  hyperliquid = record { enabled = false; geo_acknowledged = false };
  cex = record { enabled = false; geo_acknowledged = false };
}

l0_violations_iff_example : (l0_violations scaled config 700 ≡ []) ↔ (
    IsAllocated scaled config.allocation
    × IsPrudent scaled config.risk
    × IsAcknowledged scaled config 700)
l0_violations_iff_example = l0_violations_iff scaled config 700

abbrev deposit : Transfer
deposit = record { mint = usdc_mint; amount_base = pos 500; is_in = true }

abbrev paper_buy : Legs
paper_buy = record {
  in_mint = usdc_mint;
  out_mint = sol_mint;
  in_base = pos 200;
  out_base = pos 3;
  paper = true;
}

paper_balances-net_example :
    (sol_mint ≡ usdc_mint
      → (paper_balances (deposit ∷ []) (paper_buy ∷ [])).0
        ≡ max_zero (transfers_net sol_mint (deposit ∷ []) +ℤ fills_net sol_mint (paper_buy ∷ [])))
    × (sol_mint ≢ usdc_mint
        → lookup_or sol_mint (pos 0) (paper_balances (deposit ∷ []) (paper_buy ∷ [])).1
          ≡ max_zero (transfers_net sol_mint (deposit ∷ []) +ℤ fills_net sol_mint (paper_buy ∷ [])))
paper_balances-net_example = paper_balances-net sol_mint (deposit ∷ []) (paper_buy ∷ [])

abbrev points : List (EquityPoint ℤ)
points =
    record { ts = 5; equity_usd = usd 120; net_deposits_usd = usd 100 }
    ∷ record { ts = 2; equity_usd = usd 90; net_deposits_usd = usd 50 }
    ∷ []

deposit_adjusted_peaks-bound_example :
    let (peak_7, peak_30, _) = deposit_adjusted_peaks scaled points (usd 110) (usd 100) 9 in
    Le scaled (usd 110) peak_7
    × Le scaled (usd 110) peak_30
    × All (Under scaled scaled_laws (usd 100) 9 peak_7 peak_30) points
deposit_adjusted_peaks-bound_example =
    deposit_adjusted_peaks-bound scaled scaled_laws points (usd 110) (usd 100) 9
