-- ===== src/Tests/LedgerTests.antt =====
-- The ledger's tables and the reconciliation at concrete rows.
use agent_trading.Base.{
  ℕ, ◌*◌, ◌≡◌, ◌↔◌, refl, true, false, Option, none, some, List, [], ◌∷◌, String, arith, All,
  if◌then◌else◌,
}
use agent_trading.Base.Int.{ℤ, pos}
use agent_trading.Base.Text.{str_eq}
use agent_trading.Base.Dict.{lookup_or}
use agent_trading.Decimal.Scaled.{scaled}
use agent_trading.Models.{Fill, Position, SwapRequest, usdc_mint, sol_mint, normal}
use agent_trading.Ledger.Positions.{positions}
use agent_trading.Ledger.Positions.Rows.{total}
use agent_trading.Ledger.Fills.{Book, record_fills, is_recorded}
use agent_trading.Ledger.Fills.Refines.{
  Holdings, Represents, IsSwap, hold_fills, record_fills-Represents,
}
use agent_trading.Ledger.Orders.{OrderRow, Ledger, submitted, find_order, finalize_order}
use agent_trading.Ledger.Orders.Final.{
  Op, finalizes, fills, run_ops, closed_row, finalize_order_once,
}
use agent_trading.Ledger.Days.{DayRow, day_of, find_day, day_stats, set_day_start_equity}
use agent_trading.Ledger.Days.Start.{set_all, set_day_start_equity_sticks}
use agent_trading.Reconcile.Pending.{Answers, Counts}
use agent_trading.Reconcile.Compare.{chain_amounts, keys_of, decimals_of}
use agent_trading.Reconcile.Amounts.{is_listed}
use agent_trading.Reconcile.{ReconcileCfg, ChainState, report_of, marks_with_usdc}
use agent_trading.Reconcile.Shares.{IsValued}
use agent_trading.Reconcile.Complete.{Differ, Shows, IsSmall, report_of_complete}
use agent_trading.Base.Sets.{sorted_set}
use agent_trading.Tests.AccountTests.{usd}
use agent_trading.Tests.VenueTests.{chain_tx}

abbrev swap_of : String → String → String → ℤ → ℤ → Fill ℤ
swap_of signature in_mint out_mint in_base out_base = record {
  signature = some signature;
  in_mint = in_mint;
  out_mint = out_mint;
  in_base = in_base;
  out_base = out_base;
  usd_in = usd 100;
  usd_out = usd 99;
  fee_usd = pos 0;
  ts = 5;
  paper = false;
  strategy = "trend";
  quote_out_base = pos 0;
  round_trip_probe_pct = none;
  mode = normal;
}

-- A purchase, the same again, and a sale of more than is held.
abbrev three_fills : List (Fill ℤ)
three_fills =
    swap_of "s1" usdc_mint sol_mint (pos 100) (pos 7)
    ∷ swap_of "s1" usdc_mint sol_mint (pos 100) (pos 7)
    ∷ swap_of "s2" sol_mint usdc_mint (pos 9) (pos 120)
    ∷ []

abbrev no_fills : Book ℤ
no_fills = record { fills = []; rows = [] }

abbrev nothing_held : Holdings
nothing_held = record { seen = []; held = λ _. pos 0 }

three_swaps : All IsSwap three_fills
three_swaps =
    let first : IsSwap (swap_of "s1" usdc_mint sol_mint (pos 100) (pos 7)) = record {
      gained = refl;
      paid = omega arith;
    } in
    (first, (first, (record { gained = refl; paid = omega arith }, tt)))

start_held : Represents no_fills nothing_held
unfolding is_recorded total
start_held = record {
  is_book = record { keyed = tt; held = tt };
  same_seen = λ s. refl;
  same_held = λ k. refl;
}

record_fills-Represents_example :
    Represents (record_fills scaled three_fills no_fills) (hold_fills three_fills nothing_held)
record_fills-Represents_example =
    record_fills-Represents scaled three_fills no_fills nothing_held three_swaps start_held

abbrev buy_sol : SwapRequest
buy_sol = record {
  input_mint = usdc_mint;
  output_mint = sol_mint;
  amount_base = 100000000;
  strategy = "trend";
  mode = normal;
}

abbrev order_of : ℕ → String → OrderRow
order_of id signature = record {
  id = id;
  ts = id * 1000;
  req = buy_sol;
  state = submitted;
  signature = some signature;
  error = none;
  finalized_ts = none;
}

-- The second order is the one whose swap the chain shows.
abbrev two_orders : Ledger ℤ
two_orders = record {
  orders = order_of 1 "lost" ∷ order_of 2 "signed" ∷ order_of 3 "young" ∷ [];
  next_id = 4;
  book = no_fills;
}

abbrev filled_twice : List (Op scaled)
filled_twice =
    finalizes 2 (some (swap_of "signed" usdc_mint sol_mint (pos 100) (pos 7))) none 9
    ∷ fills (swap_of "other" usdc_mint sol_mint (pos 100) (pos 7))
    ∷ finalizes 1 none (some "again") 10
    ∷ []

first_found : find_order 1 two_orders.orders ≡ some (order_of 1 "lost")
unfolding find_order
first_found = refl

finalize_order_once_example :
    (m : Ledger ℤ) × (finalize_order scaled 1 none (some "dropped") 8 two_orders ≡ some m)
    × (find_order 1 (run_ops scaled filled_twice m).orders
        ≡ some (closed_row scaled none (some "dropped") 8 (order_of 1 "lost")))
    × ((again : Option (Fill ℤ)) (error : Option String) (later : ℕ)
        → finalize_order scaled 1 again error later (run_ops scaled filled_twice m)
          ≡ some (run_ops scaled filled_twice m))
finalize_order_once_example =
    finalize_order_once scaled 1 none (some "dropped") 8 two_orders (order_of 1 "lost") filled_twice
      first_found refl

abbrev later_days : List (ℕ × ℤ × ℤ)
later_days = (5, usd 1, usd 2) ∷ (90000000000, usd 3, usd 4) ∷ []

no_day : ◌≡◌ {A = Option (DayRow ℤ)} (find_day (day_of 0) []) none
unfolding find_day
no_day = refl

set_day_start_equity_sticks_example :
    let s =
      day_stats scaled 0
        (set_all later_days (set_day_start_equity 0 (usd 500) (usd 400) []))
        []
        three_fills in
    (s.start_equity ≡ usd 500) × (s.start_net_deposits ≡ usd 400)
set_day_start_equity_sticks_example =
    set_day_start_equity_sticks scaled 0 (usd 500) (usd 400) later_days [] [] three_fills no_day

-- The first order is unknown and past the grace, the second is there, the third is young.
abbrev chain_answers : Answers ℤ
chain_answers = record {
  status = λ s. if str_eq s "signed" then some (record { err = none; confirmed = true }) else none;
  tx = λ s. some chain_tx;
  usd_prices = λ _. some ((sol_mint, usd 150) ∷ []);
  wallet = "us";
}

abbrev reconcile_cfg : ReconcileCfg scaled
reconcile_cfg = record {
  reserve_lamports = pos 50000000;
  token_decimals = [];
  mismatch_amount_pct = pos 5000000;
  block_pct = pos 10000000;
  accept = false;
}

abbrev chain_state : ChainState scaled
chain_state = record {
  usdc_base = pos 500000000;
  holdings = (sol_mint, pos 1050000000) ∷ [];
  usd_prices = λ _. some ((sol_mint, usd 150) ∷ []);
}

abbrev held_sol : Position ℤ
held_sol = record {
  mint = sol_mint;
  amount_base = pos 900000000;
  cost_usd = usd 120;
  opened_at = 3;
  strategy = "trend";
  exit = none;
}

abbrev counted : Counts
counted = record { finalized = 0; failed = 0; pending = 0 }

report_of_complete_example :
    let r = report_of scaled reconcile_cfg chain_state [] 9 counted (positions (held_sol ∷ [])) in
    let chain = chain_amounts (pos 50000000) chain_state.holdings in
    let marks = marks_with_usdc scaled (chain_state.usd_prices (sorted_set (keys_of chain))) in
    ((k : String)
      → (is_listed k r.mismatches ≡ true)
        ↔ Differ scaled (pos 5000000) (lookup_or k (pos 0) chain) (total k (held_sol ∷ [])))
    × All (Shows scaled chain (held_sol ∷ [])) r.mismatches
    × ((r.ok ≡ true) ↔ (
        All (IsValued scaled marks (decimals_of reconcile_cfg.token_decimals)) r.mismatches
        × IsSmall scaled (pos 10000000) r.equity_usd r.mismatches))
report_of_complete_example =
    report_of_complete scaled reconcile_cfg chain_state [] 9 counted (held_sol ∷ [])
