-- ===== src/Tests/CopyTests.antt =====
-- Four leaders, three of them in a chain of overlaps, and a tick of the copy strategy.
use agent_trading.Base.{
  ℕ, ◌≤◌, ◌≡◌, ◌↔◌, refl, Bool, true, false, [], ◌∷◌, ◌&&◌, ◌||◌, ◌==◌, map, All, length, some,
}
use agent_trading.Base.Int.{ℤ, pos, ◌+ℤ◌, ◌-ℤ◌, ◌*ℤ◌}
use agent_trading.Decimal.Scaled.{scaled, scaled_laws, scaled_div, scaled_mul}
use agent_trading.Base.Sort.{insert_by, sort_by}
use agent_trading.Base.Sets.{distinct}
use agent_trading.Copy.Exits.{CopyCfg}
use agent_trading.Copy.Consensus.{CopyCandidate, late_entry_ok}
use agent_trading.Copy.Strategy.{
  Inputs, CopyState, targets, enabled, entries_today, held_rows, entry_weight, first_eligible,
}
use agent_trading.Copy.Strategy.Guarded.{IsGuarded, targets-IsGuarded}
use agent_trading.Tests.AccountTests.{usd}
use agent_trading.Copy.Cluster.{
  cluster_ids, range, ids_from, union_all, pairs_from, union, find, find_from, set_at,
}
use agent_trading.Copy.Cluster.Pairs.{Overlap}
use agent_trading.Copy.Cluster.Connected.{Connected, cluster_ids-Connected}

abbrev chain_of : ℕ → ℕ → Bool
chain_of i j = (i == 0 && j == 2) || (i == 2 && j == 3)

chain_ids : cluster_ids chain_of 4 ≡ 0 ∷ 1 ∷ 0 ∷ 0 ∷ []
unfolding cluster_ids ids_from union_all pairs_from union find find_from set_at
chain_ids = refl

cluster_ids-Connected_example :
    (rep : ℕ → ℕ) × (cluster_ids chain_of 4 ≡ map rep (range 0 4))
    × ((i j : ℕ) → (rep i ≡ rep j) ↔ Connected (Overlap chain_of 0 4) i j)
    × ((i j : ℕ) → Connected (Overlap chain_of 0 4) i j → rep i ≤ j)
    × ((i : ℕ) → Connected (Overlap chain_of 0 4) i (rep i))
cluster_ids-Connected_example = cluster_ids-Connected chain_of 4

abbrev copy_cfg : CopyCfg ℤ
copy_cfg = record {
  shadow_enabled = true;
  live = true;
  late_entry_max_above = pos 150000000;
  stop_pct = pos 200000000;
  trail_pct = pos 250000000;
  trail_from_gain_pct = pos 300000000;
  time_stop_h = 48;
  max_concurrent = 2;
  max_entries_per_day = 2;
  sleeve_cap_pct = pos 50000000;
  per_signal_pct = pos 20000000;
}

abbrev candidate : CopyCandidate ℤ
candidate = record {
  signal = record {
    mint = "MINT";
    earliest_leader_price = usd 1;
    cluster_count = 3;
    first_ts = 100;
  };
  current_price = usd 1;
  gate_ok = true;
  crowd_burst = false;
}

abbrev at_tick : Inputs ℤ
at_tick = record {
  now = 200;
  positions = [];
  equity_usd = usd 1000;
  promotion_gate_met = true;
  regime_on = true;
  gate = λ _. true;
  fills = some [];
}

abbrev one_candidate : CopyState ℤ
one_candidate = record { candidates = candidate ∷ []; entries = [] }

-- The tick gives a target.
one_target : length (targets scaled copy_cfg at_tick one_candidate).0 ≡ 1
unfolding targets enabled entries_today held_rows entry_weight first_eligible insert_by sort_by
    late_entry_ok scaled_div scaled_mul ◌+ℤ◌ ◌-ℤ◌ ◌*ℤ◌ distinct
one_target = refl

targets-IsGuarded_example :
    (length (targets scaled copy_cfg at_tick one_candidate).0 ≤ 1)
    × All
        (IsGuarded scaled copy_cfg at_tick one_candidate)
        (targets scaled copy_cfg at_tick one_candidate).0
targets-IsGuarded_example = targets-IsGuarded scaled scaled_laws copy_cfg at_tick one_candidate
