-- ===== src/Tests/GuardTests.antt =====
-- The pre-sign checks at concrete accounts, quotes, transactions and simulations.
use agent_trading.Base.{
  ℕ, zero, suc, ◌≡◌, ◌≢◌, refl, true, false, none, some, List, [], ◌∷◌, ◌++◌, String, arith, All,
  get_or, get_elem?,
}
use agent_trading.Base.Int.{ℤ, pos, negsuc, ◌*ℤ◌, ◌-ℤ◌}
use agent_trading.Base.Text.{str_eq_iff}
use agent_trading.Decimal.Scaled.{scaled, scaled_div, scaled_abs}
use agent_trading.Models.{
  sol_mint, usdc_mint, token_2022_program, token_program, system_program, SwapRequest, Order,
  normal, TokenAccount,
}
use agent_trading.Guard.Layout.{parse_mint_bytes, mint_extension, extension_name}
use agent_trading.Guard.Layout.Tlv.{Extension, parse_tlv, parsed, out_of_fuel, unpack_le}
use agent_trading.Guard.Layout.Tlv.RoundTrip.{encode_tlv, parse_tlv-encode_tlv, parse_tlv_total}
use agent_trading.Guard.Mint.{MintAccount, check_mint, mint_info, raw, parsed_json, undecodable}
use agent_trading.Guard.Mint.Safety.{IsSafeEntry, check_mint-raw_sound}
use agent_trading.Guard.Mint.Passes.{IsMint, check_mint_iff}
use agent_trading.Guard.Quote.{
  QuoteCfg, check_quote, implied_price, is_core_pair, impact_limit, price_deviation_limit,
}
use agent_trading.Guard.Quote.Accepts.{IsAcceptable, check_quote_iff}
use agent_trading.Guard.Transaction.{Transaction, TxCfg, check_transaction}
use agent_trading.Guard.Transaction.Safety.{check_transaction-IsHarmless}
use agent_trading.Guard.Simulation.{
  SimAccount, SimResult, SimExpectations, check_simulation, check_wallet, check_rounds, check_round,
  check_parsed, check_absent, check_token_state, check_delta, parse_sim_token_account,
}
use agent_trading.Guard.Simulation.Pays.{AnyPaid}
use agent_trading.Guard.Simulation.Safety.{check_simulation_sound}

abbrev entries : List Extension
entries = record { ext_type = 3; body = 7 ∷ 8 ∷ [] } ∷ record { ext_type = 6; body = 1 ∷ [] } ∷ []

parse_tlv-encode_tlv_example : parse_tlv (encode_tlv entries ++ 0 ∷ 0 ∷ 0 ∷ 0 ∷ []) ≡ parsed entries
parse_tlv-encode_tlv_example =
    parse_tlv-encode_tlv entries (0 ∷ 0 ∷ 0 ∷ 0 ∷ []) (omega arith) (omega arith)

parse_tlv_total_example : parse_tlv (1 ∷ 0 ∷ 5 ∷ 0 ∷ 9 ∷ []) ≢ out_of_fuel
parse_tlv_total_example = parse_tlv_total (1 ∷ 0 ∷ 5 ∷ 0 ∷ 9 ∷ [])

abbrev pub key_name : List ℕ → String
key_name key = "Key"

abbrev repeat : ℕ → List ℕ → List ℕ
repeat zero xs = xs
repeat (suc n) xs = 0 ∷ repeat n xs

-- An initialized mint without authorities, whose one extension is an initialized default state.
abbrev pub mint_bytes : List ℕ
mint_bytes = repeat 45 (1 ∷ repeat 119 (1 ∷ encode_tlv safe_entries))
  where
    safe_entries : List Extension
    safe_entries = record { ext_type = 6; body = 1 ∷ [] } ∷ []

abbrev pub mint_account : MintAccount
mint_account = record { owner = some token_2022_program; account_data = raw mint_bytes }

check_mint-raw_sound_example :
    (get_or mint_bytes 45 0 ≡ 1)
    × (unpack_le 4 mint_bytes 0 ≢ 1)
    × (unpack_le 4 mint_bytes 46 ≢ 1)
    × All IsSafeEntry (record { ext_type = 6; body = 1 ∷ [] } ∷ [])
unfolding check_mint mint_info parse_mint_bytes parse_tlv mint_extension extension_name
check_mint-raw_sound_example =
    check_mint-raw_sound key_name mint_account mint_bytes
      (record { ext_type = 6; body = 1 ∷ [] } ∷ []) [] (λ key. refl) refl refl (omega arith) refl
      refl (omega arith) refl refl

check_mint_iff_example : (a : MintAccount) × (some mint_account ≡ some a) × IsMint key_name a
unfolding check_mint mint_info parse_mint_bytes parse_tlv mint_extension extension_name
check_mint_iff_example = (check_mint_iff key_name (some mint_account)).0 refl

-- Thresholds of 1%, 3% and 5%, and the two routers of the configuration.
abbrev pub quote_cfg : QuoteCfg ℤ
quote_cfg = record {
  max_price_dev_sol = pos 10000000;
  max_price_dev_token = pos 30000000;
  max_price_dev_emergency = pos 50000000;
  max_impact_core = pos 10000000;
  max_impact_token = pos 30000000;
  max_fee_bps = pos 10;
  routers = "metis" ∷ "jupiterz" ∷ [];
}

-- 100 USDC for one SOL.
abbrev pub buy_request : SwapRequest
buy_request = record {
  input_mint = usdc_mint;
  output_mint = sol_mint;
  amount_base = 100000000;
  strategy = "core";
  mode = normal;
}

abbrev pub quote : Order ℤ
quote = record {
  in_amount = pos 100000000;
  out_amount = pos 1000000000;
  price_impact_pct = negsuc 999;
  fee_bps = pos 2;
  router = "metis";
}

check_quote_iff_example :
    (price : ℤ) × IsAcceptable scaled buy_request quote (pos 100500000000) 6 9 quote_cfg price
unfolding check_quote implied_price is_core_pair impact_limit price_deviation_limit scaled_div
    scaled_abs ◌*ℤ◌ ◌-ℤ◌
check_quote_iff_example =
    (check_quote_iff scaled buy_request quote (pos 100500000000) 6 9 quote_cfg).0 refl

abbrev pub tx_cfg : TxCfg
tx_cfg = record {
  program_allowlist = token_program ∷ system_program ∷ [];
  allow_wsol_close_to_self = true;
}

-- A transfer, then the close of our wrapped-SOL account `W` to our wallet `us`.
abbrev pub unwrap : Transaction
unwrap = record {
  signatures = "none" ∷ "signed" ∷ [];
  account_keys = "us" ∷ "other" ∷ token_program ∷ "W" ∷ "T" ∷ [];
  num_required_signatures = 2;
  recent_blockhash = "hash";
  instructions =
      record { program_id_index = 2; instruction_bytes = 3 ∷ 1 ∷ []; accounts = 4 ∷ 1 ∷ 0 ∷ [] }
      ∷ record { program_id_index = 2; instruction_bytes = 9 ∷ []; accounts = 3 ∷ 0 ∷ 0 ∷ [] }
      ∷ [];
}

check_transaction-IsHarmless_example : get_elem? unwrap.account_keys 0 ≡ some "us"
unfolding check_transaction
check_transaction-IsHarmless_example =
    (check_transaction-IsHarmless "none" "zero" "us" "W" ("W" ∷ "T" ∷ []) tx_cfg unwrap refl).0

abbrev owned : List TokenAccount
owned =
    record { pubkey = "U"; mint = usdc_mint; amount_base = 500; owner = "us" }
    ∷ record { pubkey = "B"; mint = "Bonk"; amount_base = 7; owner = "us" }
    ∷ []

abbrev pub token_account : String → ℤ → SimAccount
token_account mint amount = record {
  owner = some token_program;
  lamports = pos 2000000;
  account_data = parsed_json (some "account") (
      some (record {
        info_mint = some mint;
        info_owner = some "us";
        info_amount = some amount;
        info_delegate = none;
        info_close_authority = none;
        info_state = some "initialized";
      }));
}

abbrev expectations : SimExpectations
expectations = record {
  wallet = "us";
  input_mint = usdc_mint;
  output_mint = "Bonk";
  in_base = pos 100;
  min_out_base = pos 40;
  max_lamport_drop = pos 15000000;
  owned_token_accounts = owned;
  pre_lamports = pos 900000000;
  input_account = some "U";
  output_account = some "B";
}

abbrev snapshot : SimResult
snapshot = record {
  failed = false;
  accounts_requested = "us" ∷ "U" ∷ "B" ∷ [];
  accounts =
      some (record {
        owner = some system_program;
        lamports = pos 899000000;
        account_data = undecodable;
      })
      ∷ some (token_account usdc_mint (pos 400))
      ∷ some (token_account "Bonk" (pos 50))
      ∷ [];
}

check_simulation_sound_example : AnyPaid key_name snapshot expectations snapshot.accounts_requested
unfolding check_simulation check_wallet check_rounds check_round check_parsed check_absent
    check_token_state check_delta parse_sim_token_account ◌-ℤ◌
check_simulation_sound_example =
    (check_simulation_sound key_name snapshot expectations refl).3
      (λ e. cc ((str_eq_iff "Bonk" sol_mint).1 e))

-- Two accounts of the input mint may each lose the input amount: the bound is for each account, not
-- for their sum.
abbrev two_inputs : SimExpectations
two_inputs = record expectations {
  owned_token_accounts =
      owned ++ record { pubkey = "V"; mint = usdc_mint; amount_base = 500; owner = "us" } ∷ [];
}

abbrev both_drained : SimResult
both_drained = record snapshot {
  accounts_requested = snapshot.accounts_requested ++ "V" ∷ [];
  accounts = snapshot.accounts ++ some (token_account usdc_mint (pos 400)) ∷ [];
}

two_inputs_pass : check_simulation key_name both_drained two_inputs ≡ none
unfolding check_simulation check_wallet check_rounds check_round check_parsed check_absent
    check_token_state check_delta parse_sim_token_account ◌-ℤ◌
two_inputs_pass = refl
