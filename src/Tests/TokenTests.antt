-- ===== src/Tests/TokenTests.antt =====
-- The token gate at a token that clears its rules; floats are numbers.
use agent_trading.Base.{ℕ, ◌*◌, ◌≡◌, ◌↔◌, true, false, none, some, [], ◌∷◌, ltb, ◌⊎◌}
use agent_trading.Base.Int.{ℤ}
use agent_trading.Base.Text.{str_in}
use agent_trading.Decimal.Scaled.{scaled}
use agent_trading.Guard.Mint.{check_mint}
use agent_trading.Tokens.{TokenInfo, TokenGateCfg, GateLists, evaluate_token_gate}
use agent_trading.Tokens.Gate.{Informed, Unwarned, evaluate_token_gate_iff}
use agent_trading.Tests.AccountTests.{usd}
use agent_trading.Tests.GuardTests.{key_name, mint_account}

abbrev token : TokenInfo ℤ ℕ
token = record {
  organic_score = some 80;
  audit = some (record {
    top_holders_pct = some 20;
    is_sus = none;
    mint_authority_disabled = some true;
    freeze_authority_disabled = some true;
  });
  liquidity_usd = some (usd 900000);
  first_pool_created_at = some 0;
  dev = some "someone";
}

abbrev gate_cfg : TokenGateCfg ℤ ℕ
gate_cfg = record {
  min_organic = 60;
  min_liquidity_usd = usd 500000;
  min_age_h = 24;
  max_top_holders_pct = 35;
}

abbrev gate_lists : GateLists scaled ltb
gate_lists = record {
  our_wallet = "us";
  own_token_mints = [];
  blocklist = "bad" ∷ [];
  allowlist = [];
  now = 48 * 3600000000;
}

evaluate_token_gate_iff_example :
    ((evaluate_token_gate scaled ltb key_name "MINT"
        (some token)
        (some [])
        (some mint_account)
        gate_cfg
        gate_lists).ok
      ≡ true)
    ↔ ((str_in "MINT" gate_lists.allowlist ≡ true)
        ⊎ ((str_in "MINT" gate_lists.blocklist ≡ false)
            × (str_in "MINT" gate_lists.own_token_mints ≡ false)
            × (check_mint key_name (some mint_account) ≡ none)
            × Informed scaled ltb gate_lists.our_wallet gate_lists.now gate_cfg (some token)
            × Unwarned (some [])))
evaluate_token_gate_iff_example =
    evaluate_token_gate_iff scaled ltb key_name "MINT" (some token) (some []) (some mint_account)
      gate_cfg gate_lists
