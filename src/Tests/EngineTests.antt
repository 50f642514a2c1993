-- ===== src/Tests/EngineTests.antt =====
-- A tick that approves an exit and an entry.
use agent_trading.Base.{◌+◌, ◌≤◌, ◌≡◌, refl, some, [], ◌∷◌, All, filter, length}
use agent_trading.Base.Int.{ℤ, ◌*ℤ◌, ◌-ℤ◌, ◌+ℤ◌}
use agent_trading.Decimal.Scaled.{scaled, scaled_div, scaled_mul, scaled_quantize}
use agent_trading.Config.{effective_allocation}
use agent_trading.Account.{holding_units, mint_decimals_of}
use agent_trading.Allocator.{current_value_usd, tradeable_base, cash_floor_fraction}
use agent_trading.Allocator.Plan.{plan}
use agent_trading.Risk.Entry.{check_entry, count_reasons, money_reasons, held_mints}
use agent_trading.Risk.Sizing.{exit_cap, size_order, size_from, caps_of, min_cap}
use agent_trading.Engine.{
  TickInputs, TickPlan, decide_all, decide, decide_size, day_with, sleeve_budget_remaining,
  stop_pct_of, plan_tick,
}
use agent_trading.Engine.Approves.{
  IsApproved, buys_in, intents_of, is_exit_sale, plan_tick-IsApproved,
}
use agent_trading.Tests.AccountTests.{usd, percent_of, config}
use agent_trading.Tests.RiskTests.{merged, no_brakes}
use agent_trading.Tests.PlanTests.{targets, portfolio, exit_of_bonk, buy_hold, sized_hold, planned}

abbrev tick_inputs : TickInputs scaled
tick_inputs = record {
  acct = portfolio;
  cfg = config;
  limits = some merged;
  brakes = no_brakes;
  blocklist = [];
  sigma90 = some (percent_of 80);
  now = 100;
  gates = [];
  pending = [];
}

abbrev tick_plan : TickPlan ℤ
tick_plan = record {
  intents = exit_of_bonk ∷ buy_hold ∷ [];
  approved =
      (exit_of_bonk, record { usd = usd 80; binding_cap = exit_cap }) ∷ (buy_hold, sized_hold) ∷ [];
  refused = [];
}

decided :
    decide_all scaled tick_inputs 0 (exit_of_bonk ∷ buy_hold ∷ [])
    ≡ some (record tick_plan { intents = [] })
unfolding decide_all decide decide_size day_with sleeve_budget_remaining stop_pct_of check_entry
    count_reasons money_reasons held_mints size_order size_from caps_of min_cap current_value_usd
    tradeable_base cash_floor_fraction effective_allocation holding_units mint_decimals_of
    scaled_div scaled_mul scaled_quantize ◌*ℤ◌ ◌-ℤ◌ ◌+ℤ◌
decided = refl

ticked : plan_tick scaled targets tick_inputs ≡ some tick_plan
unfolding plan_tick
ticked = rw (planned, decided, plan_tick) refl

plan_tick-IsApproved_example :
    (plan scaled targets portfolio (some (percent_of 80)) config (some 100)
      ≡ some tick_plan.intents)
    × All (IsApproved scaled tick_inputs) tick_plan.approved
    × (buys_in scaled tick_plan.approved ≤ config.risk.max_entries_per_tick)
    × (filter (is_exit_sale scaled) (intents_of scaled tick_plan.approved)
        ≡ filter (is_exit_sale scaled) tick_plan.intents)
    × (length tick_plan.approved + length tick_plan.refused ≡ length tick_plan.intents)
plan_tick-IsApproved_example = plan_tick-IsApproved scaled targets tick_inputs tick_plan ticked
