-- ===== src/Guard/Simulation/Keeps.antt =====
-- What holds after a simulation that `check_simulation` of src/tiller/execution/guard.py passes.
use agent_trading.Base.{
  ℕ, Bool, true, false, ◌≡◌, ◌≢◌, ◌⊎◌, inl, inr, none, some, List, [], ◌∷◌, String, arith, All,
  Option-cases, subst,
}
use agent_trading.Base.Int.{ℤ, pos, ◌≤ℤ◌, ◌+ℤ◌, ◌-ℤ◌, +ℤ_parts, -ℤ_parts}
use agent_trading.Base.Text.{str_eq_iff}
use agent_trading.Models.{sol_mint, TokenAccount}
use agent_trading.Guard.Mint.{is_set}
use agent_trading.Guard.Simulation.{
  SimResult, SimExpectations, TokenState, Round, skip, saw_output, rejects, check_delta,
  check_token_state, check_parsed, check_absent, check_round, check_rounds, post, parsed_after,
  parse_sim_token_account, owned_before, text_is,
}

abbrev IsPass : Round → Type 0
IsPass skip = Unit
IsPass saw_output = Unit
IsPass (rejects r) = ⊥

module _ (expect : SimExpectations) where
  -- How far an account of a mint other than SOL may have moved.
  abbrev pub IsBounded : String → ℤ → ℤ → Type 0
  IsBounded mint before after =
      (mint ≡ expect.input_mint → before ≤ℤ after +ℤ expect.in_base)
      × (mint ≢ expect.input_mint
          → mint ≡ expect.output_mint
          → before +ℤ expect.min_out_base ≤ℤ after)
      × (mint ≢ expect.input_mint → mint ≢ expect.output_mint → before ≤ℤ after)

  check_delta-IsBounded :
      (mint : String) (before after : ℤ)
      → mint ≢ sol_mint
      → IsPass (check_delta expect mint (after -ℤ before))
      → IsBounded mint before after
  unfolding check_delta
  check_delta-IsBounded mint before after s h =
      let nots = str_eq_iff mint sol_mint in
      let ins = str_eq_iff mint expect.input_mint in
      let outs = str_eq_iff mint expect.output_mint in
      let delta = after -ℤ before in
      let moved = -ℤ_parts after before in
      let lost = -ℤ_parts (pos 0) delta in
      (
        (λ e. ground (arith, nots, ins, moved, lost, +ℤ_parts after expect.in_base)),
        (λ ne e. ground (arith, nots, ins, outs, moved, +ℤ_parts before expect.min_out_base)),
        (λ ni no'. ground (arith, nots, ins, outs, moved)),
      )

  -- Our token account is still ours alone: same mint, no delegate, no other close authority, not
  -- frozen, and its amount within bounds.
  abbrev pub IsSame : TokenAccount → TokenState → Type 0
  IsSame b acc =
      (acc.mint ≡ b.mint)
      × (acc.owner ≡ expect.wallet)
      × (is_set acc.delegate ≡ false)
      × ((is_set acc.close_authority ≡ false) ⊎ (text_is acc.close_authority expect.wallet ≡ true))
      × (acc.is_frozen ≡ false)
      × IsBounded b.mint (pos b.amount_base) acc.amount

  check_token_state-IsSame :
      (b : TokenAccount) (acc : TokenState)
      → b.mint ≢ sol_mint
      → IsPass (check_token_state expect (some b) acc)
      → IsSame b acc
  unfolding check_token_state
  check_token_state-IsSame b acc s h =
      let owner = str_eq_iff acc.owner expect.wallet in
      let mint = str_eq_iff b.mint acc.mint in
      let same : acc.mint ≡ b.mint = ground (arith, mint) in
      let delta : IsPass (check_delta expect acc.mint (acc.amount -ℤ pos b.amount_base)) =
        ground arith in
      (
        same,
        ground (arith, owner),
        ground arith,
        ground arith,
        ground arith,
        check_delta-IsBounded b.mint (pos b.amount_base) acc.amount s (
            subst (λ m. IsPass (check_delta expect m (acc.amount -ℤ pos b.amount_base))) same
              delta),
      )

module _ (pubkey_b58 : List ℕ → String) (sim : SimResult) (expect : SimExpectations) where
  -- A token account that we owned before, of a mint other than SOL, is kept.
  abbrev pub IsKept : String → Type 0
  IsKept addr =
      (b : TokenAccount)
      → addr ≢ expect.wallet
      → owned_before addr expect.owned_token_accounts ≡ some b
      → b.mint ≢ sol_mint
      → (acc : TokenState) × (parsed_after pubkey_b58 sim expect (post pubkey_b58 sim expect addr)
          ≡ some acc)
        × IsSame expect b acc

  check_round-IsKept :
      (addr : String) → IsPass (check_round pubkey_b58 sim expect addr) → IsKept addr
  unfolding check_round check_parsed check_absent
  check_round-IsKept addr h b other owned s =
      elim (Option-cases (post pubkey_b58 sim expect addr)) [
        | inl gone ↦
            absurd (ground (arith, str_eq_iff addr expect.wallet, str_eq_iff b.mint sol_mint))
        | inr (e, found) ↦ elim (Option-cases (parse_sim_token_account pubkey_b58 e)) [
          | inl broken ↦ absurd (ground (arith, str_eq_iff addr expect.wallet))
          | inr (acc, parsed) ↦
              let passes : IsPass (check_token_state expect (some b) acc) =
                ground (arith, str_eq_iff addr expect.wallet) in
              (acc, rw (found, parsed), check_token_state-IsSame expect b acc s passes)
        ]
      ]

  pub check_rounds-IsKept :
      (addrs : List String) (seen : Bool)
      → check_rounds pubkey_b58 sim expect addrs seen ≡ none
      → All IsKept addrs
  unfolding check_rounds
  check_rounds-IsKept [] seen h = tt
  check_rounds-IsKept (addr ∷ rest) seen h = (
    check_round-IsKept addr (ground arith),
    ground (arith, check_rounds-IsKept rest seen, check_rounds-IsKept rest true),
  )
