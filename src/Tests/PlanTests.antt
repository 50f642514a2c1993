-- ===== src/Tests/PlanTests.antt =====
-- A plan, an entry and its size at a concrete portfolio.
use agent_trading.Base.{◌≡◌, ◌↔◌, refl, true, false, none, some, List, [], ◌∷◌, All}
use agent_trading.Base.Int.{ℤ, pos, ◌*ℤ◌, ◌-ℤ◌, ◌+ℤ◌}
use agent_trading.Decimal.Scaled.{scaled, scaled_laws, scaled_div, scaled_mul, scaled_quantize}
use agent_trading.Models.{buy, sell, Position, ExitRule}
use agent_trading.Config.{effective_allocation}
use agent_trading.Account.{AccountSnapshot, holding_units, mint_decimals_of}
use agent_trading.Allocator.{
  OrderIntent, sol_beta_cap, rebalance_band_usd, sleeve_budget, cash_floor_fraction, tradeable_base,
  current_value_usd, exit_fired, ratchet_trailing_stop, exit_intent, exit_intents_from,
  exit_intents,
}
use agent_trading.Allocator.Exits.{
  IsRaised, IsClosing, Fresh, ratchet_trailing_stop-IsRaised, exit_intents-Closing,
}
use agent_trading.Allocator.Netting.{
  TargetExposure, add_to, add_targets, cap_hold, weight_sum, scale_weights, fit_cash_floor,
  cap_tokens, net_targets,
}
use agent_trading.Allocator.Netting.Caps.{IsCapped, net_targets-IsCapped}
use agent_trading.Allocator.Plan.{
  is_booked, orders_from, sort_ascending, insert_ascending, sort_descending, insert_descending,
  cash_headroom, plan,
}
use agent_trading.Allocator.Plan.Bounds.{IsPlan, plan-IsPlan}
use agent_trading.Risk.Entry.{EntryInputs, check_entry, IsCounted, IsFunded, check_entry_iff}
use agent_trading.Risk.Sizing.{
  SizeInputs, SizedOrder, max_position, target, caps_of, min_cap, size_from, size_order,
}
use agent_trading.Risk.Sizing.Caps.{IsSized, size_order-IsSized}
use agent_trading.Tests.AccountTests.{usd, percent_of, config}
use agent_trading.Tests.RiskTests.{merged, no_brakes, snapshot}

-- A stop at 90 dollars that trails by a tenth.
abbrev held_rule : ExitRule ℤ
held_rule = record {
  stop_price = some (usd 90);
  trail_pct = some (percent_of 10);
  trail_from_gain_pct = none;
  time_stop_at = none;
  ema_exit = false;
}

abbrev bonk : Position ℤ
bonk = record {
  mint = "Bonk";
  amount_base = pos 100;
  cost_usd = usd 100;
  opened_at = 3;
  strategy = "breakout_4h";
  exit = some held_rule;
}

-- 100 Bonk of no decimals at a mark of 0.8 dollars, and 900 dollars of USDC.
abbrev pub portfolio : AccountSnapshot ℤ
portfolio = record snapshot {
  equity_usd = usd 980;
  usdc_usd = usd 900;
  sol_lamports = pos 30000000;
  positions = bonk ∷ [];
  marks = ("Bonk", pos 800000000) ∷ ("Hold", usd 150) ∷ [];
  holdings = ("Bonk", pos 100) ∷ [];
  decimals = ("Bonk", 0) ∷ ("Hold", 9) ∷ [];
}

abbrev pub targets : List (TargetExposure ℤ)
targets =
    record { mint = "Hold"; weight = percent_of 60; strategy = "sol_trend_ensemble"; exit = none }
    ∷ []

net_targets-IsCapped_example :
    All
      (IsCapped scaled scaled_laws config.hold_mint
        (sol_beta_cap scaled (some (percent_of 80)) config.risk)
        config.risk.max_token_pct)
      (net_targets scaled targets (some (percent_of 80)) config)
unfolding sol_beta_cap cash_floor_fraction effective_allocation scaled_div ◌*ℤ◌ ◌-ℤ◌ ◌+ℤ◌
net_targets-IsCapped_example =
    net_targets-IsCapped scaled scaled_laws targets (some (percent_of 80)) config refl refl refl

abbrev pub exit_of_bonk : OrderIntent ℤ
exit_of_bonk = record {
  mint = "Bonk";
  side = sell;
  usd = usd 80;
  strategy = "breakout_4h" ∷ [];
  exit = none;
  is_exit = true;
  amount_base = some (pos 100);
}

exits : exit_intents scaled portfolio config 100 ≡ some (exit_of_bonk ∷ [])
unfolding exit_intents exit_intents_from exit_intent exit_fired current_value_usd tradeable_base
    holding_units mint_decimals_of scaled_div scaled_mul ◌*ℤ◌ ◌-ℤ◌
exits = refl

exit_intents-Closing_example :
    All (IsClosing scaled portfolio config) (exit_of_bonk ∷ [])
    × Fresh scaled [] (exit_of_bonk ∷ [])
exit_intents-Closing_example =
    exit_intents-Closing scaled portfolio config 100 (exit_of_bonk ∷ []) exits

-- At a mark of 2 the trailing stop of a position with a stop at 1 moves to 1.8.
abbrev low_rule : ExitRule ℤ
low_rule = record held_rule { stop_price = some (usd 1) }

abbrev high_rule : ExitRule ℤ
high_rule = record held_rule { stop_price = some (pos 1800000000) }

raised :
    ratchet_trailing_stop scaled (record bonk { exit = some low_rule }) (some (usd 2)) (λ _. some 0)
    ≡ some high_rule
unfolding ratchet_trailing_stop holding_units scaled_div scaled_mul ◌*ℤ◌ ◌-ℤ◌
raised = refl

ratchet_trailing_stop-IsRaised_example : IsRaised scaled low_rule high_rule
ratchet_trailing_stop-IsRaised_example =
    ratchet_trailing_stop-IsRaised scaled (record bonk { exit = some low_rule }) (some (usd 2))
      (λ _. some 0) low_rule high_rule refl raised

abbrev pub buy_hold : OrderIntent ℤ
buy_hold = record {
  mint = "Hold";
  side = buy;
  usd = usd 245;
  strategy = "core" ∷ [];
  exit = none;
  is_exit = false;
  amount_base = none;
}

pub planned :
    plan scaled targets portfolio (some (percent_of 80)) config (some 100)
    ≡ some (exit_of_bonk ∷ buy_hold ∷ [])
unfolding plan net_targets add_targets sleeve_budget cash_floor_fraction sol_beta_cap
    effective_allocation add_to cap_hold weight_sum scale_weights fit_cash_floor cap_tokens
    rebalance_band_usd orders_from is_booked cash_headroom exit_intents exit_intents_from
    exit_intent exit_fired current_value_usd tradeable_base holding_units mint_decimals_of
    sort_ascending insert_ascending sort_descending insert_descending scaled_div scaled_mul
    scaled_quantize ◌*ℤ◌ ◌-ℤ◌ ◌+ℤ◌
planned = refl

plan-IsPlan_example : IsPlan scaled portfolio config 100 (exit_of_bonk ∷ buy_hold ∷ [])
unfolding ◌*ℤ◌
plan-IsPlan_example =
    plan-IsPlan scaled scaled_laws targets portfolio (some (percent_of 80)) config (some 100)
      (exit_of_bonk ∷ buy_hold ∷ []) refl planned

abbrev entry_inputs : EntryInputs scaled
entry_inputs = record {
  acct = portfolio;
  brakes = no_brakes;
  cfg = config;
  day = portfolio.day;
  blocklist = [];
  entries_this_tick = 0;
}

check_entry_iff_example :
    (check_entry scaled buy_hold entry_inputs ≡ [])
    ↔ (IsCounted scaled "Hold" entry_inputs × IsFunded scaled (usd 245) entry_inputs)
check_entry_iff_example = check_entry_iff scaled buy_hold entry_inputs refl

abbrev size_inputs : SizeInputs scaled
size_inputs = record {
  acct = portfolio;
  limits = merged;
  cfg = config;
  pool_liquidity_usd = some (usd 10000);
  day = portfolio.day;
  stop_pct = some (percent_of 10);
  sleeve_budget_usd = none;
}

abbrev pub sized_hold : SizedOrder ℤ
sized_hold = record { usd = usd 25; binding_cap = max_position }

sized_to_canary : size_order scaled buy_hold size_inputs ≡ some (some sized_hold)
unfolding size_order size_from caps_of min_cap current_value_usd scaled_div scaled_mul
    scaled_quantize ◌*ℤ◌ ◌-ℤ◌ mint_decimals_of holding_units tradeable_base
sized_to_canary = refl

size_order-IsSized_example : IsSized scaled scaled_laws buy_hold size_inputs sized_hold
unfolding ◌*ℤ◌
size_order-IsSized_example =
    size_order-IsSized scaled scaled_laws buy_hold size_inputs sized_hold refl refl sized_to_canary

-- The size is rounded to the nearest millionth and not down: a cap of 10.0000006 dollars gives
-- 10.000001.
abbrev odd_target : OrderIntent ℤ
odd_target = record buy_hold { usd = pos 10000000600 }

rounded_up :
    size_from scaled odd_target size_inputs (pos 0)
    ≡ some (record { usd = pos 10000001000; binding_cap = target })
unfolding size_from caps_of min_cap scaled_div scaled_mul scaled_quantize ◌*ℤ◌ ◌-ℤ◌
rounded_up = refl
