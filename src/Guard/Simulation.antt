-- ===== src/Guard/Simulation.antt =====
-- `_parse_sim_token_account` and `check_simulation` of src/tiller/execution/guard.py, on the
-- decoded simulation result. The messages are the constructors of `SimReject`.
pub mod Keeps
pub mod Pays
pub mod Safety
use agent_trading.Base.{
  ℕ, Bool, true, false, Option, none, some, List, [], ◌∷◌, String, if◌then◌else◌, not, ◌&&◌, ◌||◌,
  ◌==◌, length,
}
use agent_trading.Base.Int.{ℤ, pos, ◌-ℤ◌, ltb_ℤ}
use agent_trading.Base.Text.{str_eq, str_in}
use agent_trading.Models.{sol_mint, system_program, TokenAccount}
use agent_trading.Guard.Layout.{
  TokenAccountData, AccountState, uninitialized, initialized, frozen, unknown_state,
  parse_token_account_bytes,
}
use agent_trading.Guard.Mint.{
  AccountData, parsed_json, other_json, raw, undecodable, token_programs, is_set,
}

-- `LAMPORT_FEE_ALLOWANCE`
abbrev pub lamport_fee_allowance : ℤ
lamport_fee_allowance = pos 15000000

-- The `info` of a jsonParsed token account. A mint or owner is `none` where it is missing (a null is
-- the text that `str` makes of it), any other field where it is missing or null.
pub record SimInfo : Type 0 where
  pub info_mint : Option String
  pub info_owner : Option String
  pub info_amount : Option ℤ
  pub info_delegate : Option String
  pub info_close_authority : Option String
  pub info_state : Option String

-- An account value of the snapshot; `lamports` is 0 where it is missing.
pub record SimAccount : Type 0 where
  pub owner : Option String
  pub lamports : ℤ
  pub account_data : AccountData SimInfo

pub record SimResult : Type 0 where
  pub failed : Bool
  pub accounts_requested : List String
  pub accounts : List (Option SimAccount)

-- A token account after the simulation.
pub record TokenState : Type 0 where
  pub mint : String
  pub owner : String
  pub amount : ℤ
  pub delegate : Option String
  pub close_authority : Option String
  pub is_frozen : Bool

pub record SimExpectations : Type 0 where
  pub wallet : String
  pub input_mint : String
  pub output_mint : String
  pub in_base : ℤ
  pub min_out_base : ℤ
  pub max_lamport_drop : ℤ
  pub owned_token_accounts : List TokenAccount
  pub pre_lamports : ℤ
  pub input_account : Option String
  pub output_account : Option String

pub data SimReject : Type 0 where
  sim_error snapshot_count wallet_not_in_snapshot wallet_missing wallet_owner_changed : SimReject
  lamport_drop sol_output_low output_absent closed not_token_account unparseable : SimReject
  owner_changed has_delegate has_close_authority account_frozen mint_changed : SimReject
  input_drop output_low unrelated_decreased output_not_seen : SimReject

abbrev pub text_is : Option String → String → Bool
text_is none t = false
text_is (some s) t = str_eq s t

abbrev text_in : Option String → List String → Bool
text_in none ts = false
text_in (some s) ts = str_in s ts

abbrev state_is_frozen : AccountState → Bool
state_is_frozen frozen = true
state_is_frozen uninitialized = false
state_is_frozen initialized = false
state_is_frozen (unknown_state _) = false

-- All of `amount`, `mint` and `owner` are needed.
abbrev token_state : SimInfo → Option String → Option String → Option ℤ → Option TokenState
token_state i (some m) (some o) (some a) = some (record {
  mint = m;
  owner = o;
  amount = a;
  delegate = i.info_delegate;
  close_authority = i.info_close_authority;
  is_frozen = text_is i.info_state "frozen";
})
token_state i _ _ _ = none

abbrev of_bytes : Option TokenAccountData → Option TokenState
of_bytes none = none
of_bytes (some d) = some (record {
  mint = d.mint;
  owner = d.owner;
  amount = pos d.amount;
  delegate = d.delegate;
  close_authority = d.close_authority;
  is_frozen = state_is_frozen d.state;
})

abbrev of_info : Option SimInfo → Option TokenState
of_info none = none
of_info (some i) = token_state i i.info_mint i.info_owner i.info_amount

-- `dict(zip(requested, accounts))[addr]`: the last entry of an address that stands twice.
abbrev pub last_entry : String → List String → List (Option SimAccount) → Option (Option SimAccount)
last_entry addr [] accounts = none
last_entry addr (r ∷ rs) [] = none
last_entry addr (r ∷ rs) (a ∷ tl) = elim (last_entry addr rs tl) [
  | some e ↦ some e
  | none ↦ if str_eq r addr then some a else none
]

-- `{a.pubkey: a for a in owned}.get(addr)`
abbrev pub owned_before : String → List TokenAccount → Option TokenAccount
owned_before addr [] = none
owned_before addr (a ∷ rest) = elim (owned_before addr rest) [
  | some b ↦ some b
  | none ↦ if str_eq a.pubkey addr then some a else none
]

-- What one round of the loop does: `continue`, note the output account, or reject.
pub data Round : Type 0 where
  skip saw_output : Round
  rejects : SimReject → Round

module _ (pubkey_b58 : List ℕ → String) where
  unfoldable pub parse_sim_token_account : SimAccount → Option TokenState
  unfolding parse_token_account_bytes
  parse_sim_token_account a = elim a.account_data [
    | parsed_json kind info ↦ if text_is kind "account" then of_info info else none
    | other_json ↦ none
    | raw buf ↦
        if text_in a.owner token_programs
        then of_bytes (parse_token_account_bytes pubkey_b58 buf)
        else none
    | undecodable ↦ none
  ]

module _ (expect : SimExpectations) where
  abbrev amount_before : Option TokenAccount → ℤ
  amount_before none = pos 0
  amount_before (some b) = pos b.amount_base

  abbrev mint_differs : Option TokenAccount → String → Bool
  mint_differs none m = false
  mint_differs (some b) m = not (str_eq b.mint m)

  -- The amounts of one account, by its mint.
  unfoldable pub check_delta : String → ℤ → Round
  check_delta mint delta =
      if str_eq mint sol_mint
      then skip
      else (if str_eq mint expect.input_mint
          then (if ltb_ℤ expect.in_base (pos 0 -ℤ delta) then rejects input_drop else skip)
          else (if str_eq mint expect.output_mint
              then (if ltb_ℤ delta expect.min_out_base then rejects output_low else saw_output)
              else (if ltb_ℤ delta (pos 0) then rejects unrelated_decreased else skip)))

  unfoldable pub check_token_state : Option TokenAccount → TokenState → Round
  check_token_state before acc =
      if not (str_eq acc.owner expect.wallet)
      then rejects owner_changed
      else (if is_set acc.delegate
          then rejects has_delegate
          else (if is_set acc.close_authority && not (text_is acc.close_authority expect.wallet)
              then rejects has_close_authority
              else (if acc.is_frozen
                  then rejects account_frozen
                  else (if mint_differs before acc.mint
                      then rejects mint_changed
                      else check_delta acc.mint (acc.amount -ℤ amount_before before)))))

  unfoldable pub check_parsed : String → Option TokenAccount → Option TokenState → Round
  check_parsed addr none none =
      if text_is expect.input_account addr || text_is expect.output_account addr
      then rejects not_token_account
      else rejects unparseable
  check_parsed addr (some b) none = rejects unparseable
  check_parsed addr before (some acc) = check_token_state before acc

  unfoldable pub check_absent : String → Option TokenAccount → Round
  check_absent addr none =
      if text_is expect.output_account addr && not (str_eq expect.output_mint sol_mint)
      then rejects output_absent
      else skip
  check_absent addr (some b) = if str_eq b.mint sol_mint then skip else rejects closed

module _ (pubkey_b58 : List ℕ → String) (sim : SimResult) (expect : SimExpectations) where
  -- `post[addr]`, which is there for every requested address.
  abbrev pub post : String → Option SimAccount
  post addr = elim (last_entry addr sim.accounts_requested sim.accounts) [
    | none ↦ none
    | some e ↦ e
  ]

  abbrev pub parsed_after : Option SimAccount → Option TokenState
  parsed_after none = none
  parsed_after (some e) = parse_sim_token_account pubkey_b58 e

  -- The body of the loop over the requested addresses.
  unfoldable pub check_round : String → Round
  check_round addr = if str_eq addr expect.wallet then skip else elim (post addr) [
    | none ↦ check_absent expect addr (owned_before addr expect.owned_token_accounts)
    | some e ↦
        check_parsed expect addr (owned_before addr expect.owned_token_accounts)
          (parse_sim_token_account pubkey_b58 e)
  ]

  unfoldable pub check_rounds : List String → Bool → Option SimReject
  check_rounds [] output_seen =
      if not (str_eq expect.output_mint sol_mint) && not output_seen
      then some output_not_seen
      else none
  check_rounds (addr ∷ rest) output_seen = elim (check_round addr) [
    | skip ↦ check_rounds rest output_seen
    | saw_output ↦ check_rounds rest true
    | rejects r ↦ some r
  ]

  unfoldable pub check_wallet : Option (Option SimAccount) → Option SimReject
  check_wallet none = some wallet_not_in_snapshot
  check_wallet (some none) = some wallet_missing
  check_wallet (some (some w)) =
      if not (text_is w.owner system_program)
      then some wallet_owner_changed
      else (if ltb_ℤ expect.max_lamport_drop (expect.pre_lamports -ℤ w.lamports)
          then some lamport_drop
          else (if str_eq expect.output_mint sol_mint
                && ltb_ℤ (w.lamports -ℤ expect.pre_lamports)
                    (expect.min_out_base -ℤ lamport_fee_allowance)
              then some sol_output_low
              else none))

  unfoldable pub check_simulation : Option SimReject
  check_simulation =
      let requested = sim.accounts_requested in
      if sim.failed
      then some sim_error
      else (if length requested == 0 || not (length requested == length sim.accounts)
          then some snapshot_count
          else elim (check_wallet (last_entry expect.wallet requested sim.accounts)) [
            | some r ↦ some r
            | none ↦ check_rounds requested false
          ])
