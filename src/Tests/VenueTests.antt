-- ===== src/Tests/VenueTests.antt =====
-- A swap that fills, and the loops, at concrete answers of the network.
use agent_trading.Base.{
  ℕ, zero, suc, subst, sym, ◌≤◌, ◌<◌, ◌≡◌, ◌≢◌, refl, true, false, none, some, [], ◌∷◌, String,
  arith, if◌then◌else◌,
}
use agent_trading.Base.Int.{ℤ, pos, ◌*ℤ◌, ◌-ℤ◌, ◌+ℤ◌}
use agent_trading.Base.Text.{str_eq, str_eq_iff}
use agent_trading.Base.Dict.{Dict}
use agent_trading.Decimal.Scaled.{scaled, scaled_div, scaled_mul, scaled_abs}
use agent_trading.Models.{
  Fill, sol_mint, usdc_mint, system_program, SwapRequest, TokenAccount, normal,
}
use agent_trading.Guard.Mint.{undecodable}
use agent_trading.Guard.Quote.{
  check_quote, implied_price, is_core_pair, impact_limit, price_deviation_limit,
}
use agent_trading.Guard.Transaction.{check_transaction}
use agent_trading.Guard.Simulation.{
  SimResult, check_simulation, check_wallet, check_rounds, check_round, check_parsed, check_absent,
  check_token_state, check_delta, parse_sim_token_account,
}
use agent_trading.Venue.{ExecCfg, non_usdc_leg, min_out, slippage_for}
use agent_trading.Venue.Realised.{
  TokenEntry, ChainTx, realised_fill_from_tx, index_of, accumulate, token_deltas, lamport_delta,
}
use agent_trading.Venue.Realised.Net.{holds_of, realised_fill_from_tx-net}
use agent_trading.Venue.Loops.{
  Reply, transport_error, answered, Bounded, execute_with_resubmit, execute_with_resubmit-Bounded,
  Status, unseen, seen, confirm, confirm_ends, confirm_out_of_fuel, Fetch, not_there, found,
}
use agent_trading.Venue.Swap.{
  expectations, addresses, unique_from, swap_from, Network, GuardCfg, swap, out_of_fuel,
  first_failure,
}
use agent_trading.Venue.Swap.Checked.{Signs, IsChecked, swap-IsChecked}
use agent_trading.Venue.Swap.Row.{row_after, row_of, no_row, swap-row, swap_ends}
use agent_trading.Tests.GuardTests.{
  key_name, quote_cfg, buy_request, quote, tx_cfg, unwrap, token_account,
}

abbrev exec_cfg : ExecCfg ℤ
exec_cfg = record {
  slippage_bps_sol_usdc = 50;
  slippage_bps_token = 100;
  slippage_bps_emergency = 150;
  sol_reserve_lamports = 50000000;
  allowlist_mints = sol_mint ∷ usdc_mint ∷ [];
  max_round_trip_token = pos 15000000;
  execute_resubmits = 2;
  resubmit_window = 120;
  confirm_timeout = 90;
}

abbrev usdc_account : TokenAccount
usdc_account = record { pubkey = "U"; mint = usdc_mint; amount_base = 500000000; owner = "us" }

abbrev after_buy : SimResult
after_buy = record {
  failed = false;
  accounts_requested = "us" ∷ "U" ∷ "W" ∷ [];
  accounts =
      some (record {
        owner = some system_program;
        lamports = pos 1890000000;
        account_data = undecodable;
      })
      ∷ some (token_account usdc_mint (pos 400000000))
      ∷ none
      ∷ [];
}

-- The first call of `execute` fails, the second succeeds; the status is there on the second turn.
abbrev replies : ℕ → Reply
replies zero = transport_error
replies (suc _) = answered true (some "signed")

abbrev statuses : ℕ → Status
statuses zero = unseen
statuses (suc _) = seen true

abbrev entry_of : String → String → ℤ → ℕ → TokenEntry
entry_of owner mint amount decimals = record {
  owner = owner;
  mint = mint;
  amount = amount;
  decimals = some decimals;
}

abbrev pub chain_tx : ChainTx
chain_tx = record {
  failed = false;
  keys = "us" ∷ "U" ∷ [];
  fee = pos 5000;
  pre_balances = pos 900000000 ∷ pos 2000000 ∷ [];
  post_balances = pos 1890000000 ∷ pos 2000000 ∷ [];
  pre_tokens = entry_of "us" usdc_mint (pos 500000000) 6 ∷ [];
  post_tokens = entry_of "us" usdc_mint (pos 400000000) 6 ∷ [];
  block_time = some 77;
  signatures = "signed" ∷ [];
}

-- The transaction is there on the second turn.
abbrev transactions : ℕ → Fetch
transactions zero = not_there
transactions (suc _) = found chain_tx

abbrev network : Network scaled
network = record {
  wallet = "us";
  gate_ok = false;
  decimals = λ m. if str_eq m sol_mint then 9 else 6;
  order = λ _. quote;
  round_trip_cost = λ _. pos 0;
  owned = usdc_account ∷ [];
  tx = some unwrap;
  wsol_ata = "W";
  default_signature = "none";
  default_hash = "zero";
  balance = pos 900000000;
  account_of = λ m. if str_eq m usdc_mint then "U" else "W";
  simulate = λ _. after_buy;
  pubkey_b58 = key_name;
  signature = "signed";
  reply = replies;
  resubmit_elapsed = λ n. n;
  status = statuses;
  confirm_elapsed = λ n. n;
  fetch = transactions;
  fetch_elapsed = λ n. n;
}

abbrev guards : GuardCfg scaled
guards = record { quotes = quote_cfg; transactions = tx_cfg }

passes : first_failure scaled buy_request (pos 100500000000) exec_cfg guards network ≡ none
unfolding first_failure non_usdc_leg check_quote ◌*ℤ◌ implied_price scaled_div scaled_abs
    price_deviation_limit is_core_pair impact_limit check_transaction check_simulation check_wallet
    expectations ◌+ℤ◌ min_out slippage_for check_rounds ◌-ℤ◌ check_absent check_delta check_parsed
    check_round check_token_state parse_sim_token_account addresses unique_from
passes = refl

signs : Signs (swap scaled buy_request (pos 100500000000) exec_cfg guards network 92).effects
unfolding swap
signs =
    subst
      (λ o. Signs (swap_from scaled buy_request (pos 100500000000) exec_cfg network 92 o).effects)
      (sym passes) tt

swap-IsChecked_example : IsChecked scaled buy_request (pos 100500000000) exec_cfg guards network
swap-IsChecked_example =
    swap-IsChecked scaled buy_request (pos 100500000000) exec_cfg guards network 92 signs

swap-row_example :
    row_after no_row (swap scaled buy_request (pos 100500000000) exec_cfg guards network 92).effects
    ≡ row_of scaled (swap scaled buy_request (pos 100500000000) exec_cfg guards network 92).ended
swap-row_example = swap-row scaled buy_request (pos 100500000000) exec_cfg guards network 92

late : (k : ℕ) → 91 ≤ k → 90 < k
late k h = omega arith

swap_ends_example :
    (swap scaled buy_request (pos 100500000000) exec_cfg guards network 92).ended ≢ out_of_fuel
swap_ends_example =
    swap_ends scaled buy_request (pos 100500000000) exec_cfg guards network 91 late late

execute_with_resubmit-Bounded_example :
    Bounded replies (λ n. n) 2 120 (execute_with_resubmit replies (λ n. n) 2 120)
execute_with_resubmit-Bounded_example = execute_with_resubmit-Bounded replies (λ n. n) 2 120

confirm_ends_example : confirm statuses (λ n. n) 90 92 ≢ confirm_out_of_fuel
confirm_ends_example = confirm_ends statuses (λ n. n) 90 91 late

-- A sale of Bonk for USDC.
abbrev sale : SwapRequest
sale = record {
  input_mint = "Bonk";
  output_mint = usdc_mint;
  amount_base = 30;
  strategy = "copy_consensus";
  mode = normal;
}

abbrev sale_tx : ChainTx
sale_tx = record chain_tx {
  pre_tokens = entry_of "us" "Bonk" (pos 40) 5 ∷ entry_of "us" usdc_mint (pos 100) 6 ∷ [];
  post_tokens = entry_of "us" "Bonk" (pos 10) 5 ∷ entry_of "us" usdc_mint (pos 160) 6 ∷ [];
}

abbrev sale_marks : Dict ℤ
sale_marks = ("Bonk", pos 2000000) ∷ (usdc_mint, pos 1000000000) ∷ []

abbrev sale_fill : Fill ℤ
sale_fill = record {
  signature = some "signed";
  in_mint = "Bonk";
  out_mint = usdc_mint;
  in_base = pos 30;
  out_base = pos 60;
  usd_in = pos 600;
  usd_out = pos 60000;
  fee_usd = pos 0;
  ts = 77;
  paper = false;
  strategy = "copy_consensus";
  quote_out_base = pos 0;
  round_trip_probe_pct = none;
  mode = normal;
}

sale_fills : realised_fill_from_tx scaled sale_tx "us" sale sale_marks ≡ some sale_fill
unfolding realised_fill_from_tx token_deltas accumulate lamport_delta index_of ◌+ℤ◌ ◌-ℤ◌ ◌*ℤ◌
    scaled_div scaled_mul
sale_fills = refl

realised_fill_from_tx-net_example :
    pos 30
    ≡ pos 0 -ℤ (holds_of "us" "Bonk" sale_tx.post_tokens -ℤ holds_of "us" "Bonk" sale_tx.pre_tokens)
realised_fill_from_tx-net_example =
    (realised_fill_from_tx-net scaled sale_tx "us" sale sale_marks sale_fill
      (λ e. cc ((str_eq_iff "Bonk" sol_mint).1 e)) (λ e. cc ((str_eq_iff usdc_mint sol_mint).1 e))
      sale_fills).3
