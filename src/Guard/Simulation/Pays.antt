-- ===== src/Guard/Simulation/Pays.antt =====
-- The output leg and the wallet of a simulation that `check_simulation` of
-- src/tiller/execution/guard.py passes.
use agent_trading.Base.{
  refl, ap, ◌∙◌, Bool, true, ◌≡◌, ◌≢◌, ◌⊎◌, inl, inr, Option, none, some, List, [], ◌∷◌, String,
  arith, ℕ, Option-cases,
}
use agent_trading.Base.Int.{ℤ, ◌≤ℤ◌, ◌+ℤ◌, ◌-ℤ◌, +ℤ_parts, -ℤ_parts}
use agent_trading.Base.Text.{str_eq_iff}
use agent_trading.Models.{sol_mint, system_program, TokenAccount}
use agent_trading.Guard.Simulation.{
  SimAccount, SimResult, SimExpectations, TokenState, Round, skip, saw_output, rejects, check_delta,
  check_token_state, check_parsed, check_absent, check_round, check_rounds, check_wallet, post,
  parsed_after, parse_sim_token_account, owned_before, text_is, lamport_fee_allowance,
  amount_before,
}

module _ (expect : SimExpectations) where
  check_delta-saw_output :
      (mint : String) (before after : ℤ)
      → check_delta expect mint (after -ℤ before) ≡ saw_output
      → (mint ≡ expect.output_mint) × (before +ℤ expect.min_out_base ≤ℤ after)
  unfolding check_delta
  check_delta-saw_output mint before after h = ground (
    arith,
    str_eq_iff mint expect.output_mint,
    -ℤ_parts after before,
    +ℤ_parts before expect.min_out_base,
  )

  check_token_state-saw_output :
      (before : Option TokenAccount) (acc : TokenState)
      → check_token_state expect before acc ≡ saw_output
      → check_delta expect acc.mint (acc.amount -ℤ amount_before expect before) ≡ saw_output
  unfolding check_token_state
  check_token_state-saw_output before acc h = ground arith

  -- The wallet after the simulation: a system account still, which lost no more lamports than
  -- allowed, and gained the minimum less the fee allowance where SOL is bought.
  abbrev pub IsSolvent : SimAccount → Type 0
  IsSolvent w =
      (text_is w.owner system_program ≡ true)
      × (expect.pre_lamports ≤ℤ w.lamports +ℤ expect.max_lamport_drop)
      × (expect.output_mint ≡ sol_mint
          → expect.pre_lamports +ℤ expect.min_out_base ≤ℤ w.lamports +ℤ lamport_fee_allowance)

module _ (pubkey_b58 : List ℕ → String) (sim : SimResult) (expect : SimExpectations) where
  pub check_wallet-IsSolvent :
      (entry : Option (Option SimAccount))
      → check_wallet pubkey_b58 sim expect entry ≡ none
      → (w : SimAccount) × (entry ≡ some (some w)) × IsSolvent expect w
  unfolding check_wallet
  check_wallet-IsSolvent none h = cc
  check_wallet-IsSolvent (some none) h = cc
  check_wallet-IsSolvent (some (some w)) h =
      let fell = -ℤ_parts expect.pre_lamports w.lamports in
      let rose = -ℤ_parts w.lamports expect.pre_lamports in
      let least = -ℤ_parts expect.min_out_base lamport_fee_allowance in
      let in_all = +ℤ_parts w.lamports expect.max_lamport_drop in
      let wanted = +ℤ_parts expect.pre_lamports expect.min_out_base in
      let had = +ℤ_parts w.lamports lamport_fee_allowance in
      (
        w,
        refl,
        (
          ground arith,
          ground (arith, fell, in_all),
          λ sol. ground (arith, str_eq_iff expect.output_mint sol_mint, rose, least, wanted, had),
        ),
      )

  -- An account of the output mint that rose by the minimum.
  abbrev pub HasPaid : String → Type 0
  HasPaid addr =
      (acc : TokenState) × (parsed_after pubkey_b58 sim expect (post pubkey_b58 sim expect addr)
        ≡ some acc)
      × (acc.mint ≡ expect.output_mint)
      × (amount_before expect (owned_before addr expect.owned_token_accounts) +ℤ expect.min_out_base
          ≤ℤ acc.amount)

  abbrev pub AnyPaid : List String → Type 0
  AnyPaid [] = ⊥
  AnyPaid (addr ∷ rest) = HasPaid addr ⊎ AnyPaid rest

  check_parsed-state :
      (addr : String) (before : Option TokenAccount) (state : Option TokenState)
      → check_parsed expect addr before state ≡ saw_output
      → (acc : TokenState) × (state ≡ some acc) × (check_token_state expect before acc ≡ saw_output)
  unfolding check_parsed
  check_parsed-state addr none none h = ground arith
  check_parsed-state addr (some b) none h = cc
  check_parsed-state addr none (some acc) h = (acc, refl, h)
  check_parsed-state addr (some b) (some acc) h = (acc, refl, h)

  check_absent-ne :
      (addr : String) (b : Option TokenAccount) → check_absent expect addr b ≢ saw_output
  unfolding check_absent
  check_absent-ne addr none h = ground arith
  check_absent-ne addr (some b) h = ground arith

  check_round-HasPaid :
      (addr : String) → check_round pubkey_b58 sim expect addr ≡ saw_output → HasPaid addr
  unfolding check_round
  check_round-HasPaid addr h =
      let before = owned_before addr expect.owned_token_accounts in
      elim (Option-cases (post pubkey_b58 sim expect addr)) [
        | inl gone ↦ absurd (ground (arith, check_absent-ne addr before))
        | inr (e, found) ↦
            let (acc, parsed, state) =
              check_parsed-state addr before (parse_sim_token_account pubkey_b58 e)
                (ground arith) in
            let paid =
              check_delta-saw_output expect acc.mint (amount_before expect before) acc.amount
                (check_token_state-saw_output expect before acc state) in
            (acc, ap (parsed_after pubkey_b58 sim expect) found ∙ parsed, paid.0, paid.1)
      ]

  pub check_rounds-AnyPaid :
      (addrs : List String) (seen : Bool)
      → check_rounds pubkey_b58 sim expect addrs seen ≡ none
      → expect.output_mint ≢ sol_mint
      → (seen ≡ true) ⊎ AnyPaid addrs
  unfolding check_rounds
  check_rounds-AnyPaid [] seen h s = ground (arith, str_eq_iff expect.output_mint sol_mint)
  check_rounds-AnyPaid (addr ∷ rest) seen h s =
      round (check_round pubkey_b58 sim expect addr) refl (check_rounds-AnyPaid rest seen)
        (check_rounds-AnyPaid rest true)
    where
      round :
          (r : Round)
          → check_round pubkey_b58 sim expect addr ≡ r
          → (check_rounds pubkey_b58 sim expect rest seen ≡ none
              → expect.output_mint ≢ sol_mint
              → (seen ≡ true) ⊎ AnyPaid rest)
          → (check_rounds pubkey_b58 sim expect rest true ≡ none
              → expect.output_mint ≢ sol_mint
              → (◌≡◌ {A = Bool} true true) ⊎ AnyPaid rest)
          → (seen ≡ true) ⊎ (HasPaid addr ⊎ AnyPaid rest)
      round skip e later paid = elim (later (ground arith) s) [
        | inl old ↦ inl old
        | inr p ↦ inr (inr p)
      ]
      round saw_output e later paid = inr (inl (check_round-HasPaid addr e))
      round (rejects r) e later paid = absurd (ground arith)
