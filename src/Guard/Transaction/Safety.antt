-- ===== src/Guard/Transaction/Safety.antt =====
-- What a transaction that `check_transaction` of src/tiller/execution/guard.py passes cannot do.
use agent_trading.Base.{
  refl, ℕ, zero, suc, ◌+◌, ◌<◌, ◌≤◌, Bool, true, false, ◌≡◌, ◌≢◌, ◌⊎◌, inl, inr, Option, none, some,
  List, [], ◌∷◌, String, arith, get_elem?, length, All, Option-cases, Bool-cases, ◌==◌, ◌-◌, ==_iff,
  ◌&&◌,
}
use agent_trading.Base.Text.{str_eq, str_in, str_eq_iff}
use agent_trading.Guard.Mint.{token_programs}
use agent_trading.Guard.Transaction.{
  Instruction, Transaction, TxCfg, passed, check_transaction, check_instructions, check_signers,
  check_program, check_token, check_token_accounts, check_target, check_signer, key_is,
  is_dangerous_op, account_is_ours, closes_wsol_to_self,
}

-- Approve, set authority, close account, approve checked.
pub data IsDangerous : ℕ → Type 0 where
  approve : IsDangerous 4
  set_authority : IsDangerous 6
  close_account : IsDangerous 9
  approve_checked : IsDangerous 13

is_dangerous_op-IsDangerous : {op : ℕ} → IsDangerous op → is_dangerous_op op ≡ true
is_dangerous_op-IsDangerous approve = refl
is_dangerous_op-IsDangerous set_authority = refl
is_dangerous_op-IsDangerous close_account = refl
is_dangerous_op-IsDangerous approve_checked = refl

all_six :
    (a b c d e f : Bool)
    → (a && b && c && d && e && f) ≡ true
    → (a ≡ true) × (b ≡ true) × (c ≡ true) × (d ≡ true) × (e ≡ true) × (f ≡ true)
all_six a b c d e f h = ground arith

module _ (our_pubkey wsol_ata : String) (owned keys : List String) (cfg : TxCfg) where
  -- `target` is our wallet or a token account of ours.
  abbrev pub IsOurs : String → Type 0
  IsOurs target = (target ≡ our_pubkey) ⊎ (str_in target owned ≡ true) ⊎ (target ≡ wsol_ata)

  -- A token instruction that approves, sets an authority of or closes the account `target`.
  pub record Seizes (ix : Instruction) (target : String) : Type 0 where
    pub program : String
    pub runs : get_elem? keys ix.program_id_index ≡ some program
    pub is_token : str_in program token_programs ≡ true
    pub op : ℕ
    pub rest : List ℕ
    pub op_byte : ix.instruction_bytes ≡ op ∷ rest
    pub dangerous : IsDangerous op
    pub place : ℕ
    pub others : List ℕ
    pub account_list : ix.accounts ≡ place ∷ others
    pub targets : get_elem? keys place ≡ some target

  -- The unwrapping of SOL: our wrapped-SOL account is closed, to our wallet, by our wallet.
  abbrev pub UnwrapsToSelf : Instruction → String → Type 0
  UnwrapsToSelf ix target =
      (target ≡ wsol_ata)
      × (target ≢ our_pubkey)
      × (cfg.allow_wsol_close_to_self ≡ true)
      × (rest : List ℕ) × (ix.instruction_bytes ≡ 9 ∷ rest)
      × (i : ℕ) × (get_elem? ix.accounts 1 ≡ some i)
      × (get_elem? keys i ≡ some our_pubkey)
      × (j : ℕ) × (get_elem? ix.accounts 2 ≡ some j)
      × (get_elem? keys j ≡ some our_pubkey)

  check_program-Seizes :
      (ix : Instruction) (target : String) (s : Seizes ix target)
      → check_program our_pubkey wsol_ata owned keys cfg (get_elem? keys ix.program_id_index) ix
        ≡ none
      → check_target our_pubkey wsol_ata owned keys cfg s.op ix.accounts (some target) ≡ none
  unfolding check_program check_token check_token_accounts
  check_program-Seizes ix target s h =
      let op = is_dangerous_op-IsDangerous s.dangerous in ground (arith, op)

  key_is_ours :
      (places : List ℕ) (n : ℕ)
      → account_is_ours our_pubkey wsol_ata owned keys cfg (get_elem? places n) ≡ true
      → (i : ℕ) × (get_elem? places n ≡ some i) × (get_elem? keys i ≡ some our_pubkey)
  key_is_ours places n h = elim (Option-cases (get_elem? places n)) [
    | inl e ↦ cc (rw e at h)
    | inr (i, e) ↦ elim (Option-cases (get_elem? keys i)) [
      | inl f ↦ cc (rw (e, f) at h)
      | inr (k, f) ↦ (i, e, ground (arith, str_eq_iff k our_pubkey, rw (e, f) at h))
    ]
  ]

  -- The test that tolerates the unwrapping, read as facts.
  closes_wsol_facts :
      (op : ℕ) (target : String) (places : List ℕ)
      → closes_wsol_to_self our_pubkey wsol_ata owned keys cfg op target places ≡ true
      → (op ≡ 9)
        × (cfg.allow_wsol_close_to_self ≡ true)
        × (target ≡ wsol_ata)
        × (account_is_ours our_pubkey wsol_ata owned keys cfg (get_elem? places 1) ≡ true)
        × (account_is_ours our_pubkey wsol_ata owned keys cfg (get_elem? places 2) ≡ true)
  closes_wsol_facts op target places h =
      let f = all_six _ _ _ _ _ _ h in
      ((==_iff op 9).0 f.0, f.1, (str_eq_iff target wsol_ata).0 f.2, f.4, f.5)

  check_target-ours :
      (op : ℕ) (target : String) (places : List ℕ)
      → IsOurs target
      → check_target our_pubkey wsol_ata owned keys cfg op places (some target) ≡ none
      → (target ≢ our_pubkey)
        × (closes_wsol_to_self our_pubkey wsol_ata owned keys cfg op target places ≡ true)
  unfolding check_target
  check_target-ours op target places o h =
      ground (arith, str_eq_iff target our_pubkey, str_eq_iff target wsol_ata)

  check_program-IsOurs :
      (ix : Instruction) (target : String)
      → IsOurs target
      → check_program our_pubkey wsol_ata owned keys cfg (get_elem? keys ix.program_id_index) ix
        ≡ none
      → Seizes ix target
      → UnwrapsToSelf ix target
  check_program-IsOurs ix target o h s =
      let (other, closes) =
        check_target-ours s.op target ix.accounts o (check_program-Seizes ix target s h) in
      let (close, allowed, wsol, first, second) =
        closes_wsol_facts s.op target ix.accounts closes in
      let (i, ei, oi) = key_is_ours ix.accounts 1 first in
      let (j, ej, oj) = key_is_ours ix.accounts 2 second in
      (wsol, other, allowed, s.rest, rw (← close) s.op_byte, i, ei, oi, j, ej, oj)

  -- No instruction takes an account of ours but by unwrapping, and every program is allowed.
  abbrev pub IsHarmless : Instruction → Type 0
  IsHarmless ix =
      ((target : String) → IsOurs target → Seizes ix target → UnwrapsToSelf ix target)
      × ((program : String) × (get_elem? keys ix.program_id_index ≡ some program)
          × (str_in program cfg.program_allowlist ≡ true))

  check_program-allowed :
      (ix : Instruction)
      → check_program our_pubkey wsol_ata owned keys cfg (get_elem? keys ix.program_id_index) ix
        ≡ none
      → (program : String) × (get_elem? keys ix.program_id_index ≡ some program)
        × (str_in program cfg.program_allowlist ≡ true)
  unfolding check_program
  check_program-allowed ix h = elim (Option-cases (get_elem? keys ix.program_id_index)) [
    | inl e ↦ cc (rw e at h)
    | inr (program, e) ↦ (program, e, ground arith)
  ]

  check_instructions-IsHarmless :
      (ixs : List Instruction)
      → check_instructions our_pubkey wsol_ata owned keys cfg ixs ≡ none
      → All IsHarmless ixs
  unfolding check_instructions
  check_instructions-IsHarmless [] h = tt
  check_instructions-IsHarmless (ix ∷ r) h =
      let now : check_program our_pubkey wsol_ata owned keys cfg
            (get_elem? keys ix.program_id_index) ix
          ≡ none =
        ground arith in
      let later : check_instructions our_pubkey wsol_ata owned keys cfg r ≡ none = ground arith in
      (
        (λ target o. check_program-IsOurs ix target o now, check_program-allowed ix now),
        check_instructions-IsHarmless r later,
      )

-- Another signer of the transaction has signed, and is not our wallet.
abbrev pub HasSigned : String → String → List String → List String → ℕ → Type 0
HasSigned our_pubkey default_signature signatures keys i =
    (s : String) × (get_elem? signatures i ≡ some s)
    × (str_eq s default_signature ≡ false)
    × (key : String) × (get_elem? keys i ≡ some key)
    × (key ≢ our_pubkey)

module _ (our_pubkey default_signature : String) (signatures keys : List String) where
  check_signer-none :
      (i : ℕ)
      → check_signer our_pubkey default_signature (get_elem? signatures i) (get_elem? keys i) ≡ none
      → HasSigned our_pubkey default_signature signatures keys i
  check_signer-none i h = elim (Option-cases (get_elem? signatures i)) [
    | inl e ↦ cc (rw e at h)
    | inr (s, e) ↦ elim (Option-cases (get_elem? keys i)) [
      | inl f ↦ cc (rw (e, f) at h)
      | inr (key, f) ↦
          let g = rw (e, f) at h in
          (s, e, ground arith, key, f, ground (arith, str_eq_iff key our_pubkey))
    ]
  ]

  check_signer-ne-passed :
      (s key : Option String) → check_signer our_pubkey default_signature s key ≢ some passed
  check_signer-ne-passed none key h = cc
  check_signer-ne-passed (some s) none h = cc
  check_signer-ne-passed (some s) (some key) h = ground arith

  check_signers-ne-passed :
      (n i : ℕ) → check_signers our_pubkey default_signature n i signatures keys ≢ some passed
  unfolding check_signers
  check_signers-ne-passed zero i h = cc
  check_signers-ne-passed (suc n) i h = ground (
    arith,
    check_signers-ne-passed n (suc i),
    check_signer-ne-passed (get_elem? signatures i) (get_elem? keys i),
  )

  check_signers-none :
      (n i k : ℕ)
      → check_signers our_pubkey default_signature n i signatures keys ≡ none
      → i ≤ k
      → k < i + n
      → HasSigned our_pubkey default_signature signatures keys k
  unfolding check_signers
  check_signers-none zero i k h p q = absurd (omega arith)
  check_signers-none (suc n) i k h p q = elim (Bool-cases (k == i)) [
    | inl e ↦ check_signer-none k (ground arith)
    | inr e ↦ check_signers-none n (suc i) k (ground arith) (ground arith) (omega arith)
  ]

module _ (default_signature default_hash : String) (our_pubkey wsol_ata : String)
    (owned : List String) (cfg : TxCfg) where
  -- A transaction that passes: our wallet pays its fee, it carries a blockhash and as many
  -- signatures as signers, every other required signer has signed and is not our wallet, every
  -- instruction runs an allowed program, and none approves, sets an authority of or closes an
  -- account of ours, but the one that unwraps SOL to our wallet, where that is allowed.
  pub check_transaction-IsHarmless :
      (tx : Transaction)
      → check_transaction default_signature default_hash our_pubkey wsol_ata owned cfg (some tx)
        ≡ passed
      → (get_elem? tx.account_keys 0 ≡ some our_pubkey)
        × (length tx.signatures ≡ tx.num_required_signatures)
        × (str_eq tx.recent_blockhash default_hash ≡ false)
        × ((k : ℕ)
            → 1 ≤ k
            → k < tx.num_required_signatures
            → HasSigned our_pubkey default_signature tx.signatures tx.account_keys k)
        × All (IsHarmless our_pubkey wsol_ata owned tx.account_keys cfg) tx.instructions
  unfolding check_transaction
  check_transaction-IsHarmless tx h =
      let n = tx.num_required_signatures in
      let keys = tx.account_keys in
      let sigs = tx.signatures in
      let never = check_signers-ne-passed our_pubkey default_signature sigs keys (n - 1) 1 in
      let signed : check_signers our_pubkey default_signature (n - 1) 1 sigs keys ≡ none =
        ground (arith, never) in
      let harmless : check_instructions our_pubkey wsol_ata owned keys cfg tx.instructions ≡ none =
        ground (arith, never) in
      (
        key_is-eq (get_elem? keys 0) (ground arith),
        ground (arith, never),
        ground (arith, never),
        (λ k p q.
            check_signers-none our_pubkey default_signature sigs keys (n - 1) 1 k signed p
              (omega arith)),
        check_instructions-IsHarmless our_pubkey wsol_ata owned keys cfg tx.instructions harmless,
      )
    where
      key_is-eq : (k : Option String) → key_is k our_pubkey ≡ true → k ≡ some our_pubkey
      key_is-eq none e = cc
      key_is-eq (some j) e = ground (arith, str_eq_iff j our_pubkey)
