-- ===== src/Guard/Transaction.antt =====
-- `check_transaction` of src/tiller/execution/guard.py. What solders decodes the bytes to is a
-- `Transaction` (`none` where it raises); its default signature and hash and the address that
-- `derive_ata` computes are parameters. The messages are the constructors of `TxReject`.
pub mod Safety
use agent_trading.Base.{
  ℕ, zero, suc, ◌+◌, ◌-◌, Bool, true, false, Option, none, some, List, [], ◌∷◌, String,
  if◌then◌else◌, not, ◌&&◌, ◌||◌, ltb, leb, ◌==◌, length, get_elem?,
}
use agent_trading.Base.Text.{str_eq, str_in}
use agent_trading.Guard.Mint.{token_programs}

pub record Instruction : Type 0 where
  pub program_id_index : ℕ
  pub instruction_bytes : List ℕ
  pub accounts : List ℕ

pub record Transaction : Type 0 where
  pub signatures : List String
  pub account_keys : List String
  pub num_required_signatures : ℕ
  pub recent_blockhash : String
  pub instructions : List Instruction

pub record TxCfg : Type 0 where
  pub program_allowlist : List String
  pub allow_wsol_close_to_self : Bool

pub data TxReject : Type 0 where
  undecodable no_keys no_signers not_fee_payer signature_count no_blockhash : TxReject
  missing_signature listed_twice : TxReject
  program_by_lookup program_not_allowed empty_token_instruction no_accounts : TxReject
  target_by_lookup targets_wallet targets_token_account : TxReject

-- `None`, a reason, or the `IndexError` of `keys[i]` for a signer that has no key.
pub data TxCheck : Type 0 where
  passed index_error : TxCheck
  rejected : TxReject → TxCheck

-- `DANGEROUS_TOKEN_IX`: approve, set authority, close account, approve checked.
abbrev pub is_dangerous_op : ℕ → Bool
is_dangerous_op op = op == 4 || op == 6 || op == 9 || op == 13

abbrev pub key_is : Option String → String → Bool
key_is none k = false
key_is (some j) k = str_eq j k

module _ (our_pubkey wsol_ata : String) (owned keys : List String) (cfg : TxCfg) where
  -- `i < len(keys) and keys[i] == our_pubkey` for the account at a place of the instruction.
  abbrev account_is_ours : Option ℕ → Bool
  account_is_ours none = false
  account_is_ours (some i) = key_is (get_elem? keys i) our_pubkey

  -- The one shape that is tolerated: our wrapped-SOL account closed to our wallet.
  abbrev closes_wsol_to_self : ℕ → String → List ℕ → Bool
  closes_wsol_to_self op target accounts =
      op == 9
      && cfg.allow_wsol_close_to_self
      && str_eq target wsol_ata
      && leb 3 (length accounts)
      && account_is_ours (get_elem? accounts 1)
      && account_is_ours (get_elem? accounts 2)

  check_target : ℕ → List ℕ → Option String → Option TxReject
  check_target op accounts none = some target_by_lookup
  check_target op accounts (some target) =
      if str_eq target our_pubkey
      then some targets_wallet
      else (if str_in target owned || str_eq target wsol_ata
          then (if closes_wsol_to_self op target accounts then none else some targets_token_account)
          else none)

  check_token_accounts : ℕ → List ℕ → Option TxReject
  unfolding check_target
  check_token_accounts op [] = some no_accounts
  check_token_accounts op (a ∷ r) = check_target op (a ∷ r) (get_elem? keys a)

  check_token : List ℕ → List ℕ → Option TxReject
  unfolding check_token_accounts
  check_token [] accounts = some empty_token_instruction
  check_token (op ∷ _) accounts =
      if is_dangerous_op op then check_token_accounts op accounts else none

  check_program : Option String → Instruction → Option TxReject
  unfolding check_token
  check_program none ix = some program_by_lookup
  check_program (some program) ix =
      if str_in program cfg.program_allowlist
      then (if str_in program token_programs
          then check_token ix.instruction_bytes ix.accounts
          else none)
      else some program_not_allowed

  -- The loop over `msg.instructions`.
  check_instructions : List Instruction → Option TxReject
  unfolding check_program
  check_instructions [] = none
  check_instructions (ix ∷ r) = elim (check_program (get_elem? keys ix.program_id_index) ix) [
    | none ↦ check_instructions r
    | some e ↦ some e
  ]

module _ (our_pubkey default_signature : String) where
  abbrev check_signer : Option String → Option String → Option TxCheck
  check_signer none key = some index_error
  check_signer (some s) none = some index_error
  check_signer (some s) (some key) =
      if str_eq s default_signature
      then some (rejected missing_signature)
      else (if str_eq key our_pubkey then some (rejected listed_twice) else none)

  -- The loop `for i in range(1, n_sig)`, by the rounds that are left.
  check_signers : ℕ → ℕ → List String → List String → Option TxCheck
  check_signers zero i signatures keys = none
  check_signers (suc n) i signatures keys =
      elim (check_signer (get_elem? signatures i) (get_elem? keys i)) [
        | none ↦ check_signers n (suc i) signatures keys
        | some e ↦ some e
      ]

abbrev or_passed : Option TxReject → TxCheck
or_passed none = passed
or_passed (some r) = rejected r

module _ (default_signature default_hash : String) (our_pubkey wsol_ata : String)
    (owned : List String) (cfg : TxCfg) where
  check_decoded : Transaction → TxCheck
  unfolding check_signers check_instructions
  check_decoded tx =
      let keys = tx.account_keys in
      let n_sig = tx.num_required_signatures in
      if length keys == 0
      then rejected no_keys
      else (if ltb n_sig 1
          then rejected no_signers
          else (if not (key_is (get_elem? keys 0) our_pubkey)
              then rejected not_fee_payer
              else (if not (length tx.signatures == n_sig)
                  then rejected signature_count
                  else elim (check_signers our_pubkey default_signature (n_sig - 1) 1 tx.signatures
                      keys) [
                        | some e ↦ e
                        | none ↦
                            if str_eq tx.recent_blockhash default_hash
                            then rejected no_blockhash
                            else or_passed (
                                check_instructions our_pubkey wsol_ata owned keys cfg
                                  tx.instructions)
                      ])))

  unfoldable pub check_transaction : Option Transaction → TxCheck
  unfolding check_decoded
  check_transaction none = rejected undecodable
  check_transaction (some tx) = check_decoded tx
