-- ===== src/Guard/Layout.antt =====
-- The raw account layouts of src/tiller/execution/guard.py: `parse_token_account_bytes`,
-- `_parse_tlv` and `parse_mint_bytes`. A `bytes` value is a list of numbers below 256, and `none`
-- is the `ValueError`. `_pubkey_b58` (base58 of solders) is the parameter `pubkey_b58`.
pub mod Tlv
pub mod Extended
use agent_trading.Base.{
  ℕ, zero, suc, ◌+◌, Bool, true, false, Option, none, some, List, [], ◌∷◌, String, ltb, leb, ◌==◌,
  if◌then◌else◌, length, get_or, drop, not, ◌&&◌, map,
}
use agent_trading.Base.Text.{str_eq}
use agent_trading.Guard.Layout.Tlv.{
  Extension, TlvResult, parsed, truncated, out_of_fuel, parse_tlv, slice, unpack_le,
}

-- `EXTENSION_TYPES`
abbrev pub extension_types : List (ℕ × String)
extension_types =
    (1, "transferFeeConfig")
    ∷ (2, "transferFeeAmount")
    ∷ (3, "mintCloseAuthority")
    ∷ (4, "confidentialTransferMint")
    ∷ (5, "confidentialTransferAccount")
    ∷ (6, "defaultAccountState")
    ∷ (7, "immutableOwner")
    ∷ (8, "memoTransfer")
    ∷ (9, "nonTransferable")
    ∷ (10, "interestBearingConfig")
    ∷ (11, "cpiGuard")
    ∷ (12, "permanentDelegate")
    ∷ (13, "nonTransferableAccount")
    ∷ (14, "transferHook")
    ∷ (15, "transferHookAccount")
    ∷ (16, "confidentialTransferFeeConfig")
    ∷ (17, "confidentialTransferFeeAmount")
    ∷ (18, "metadataPointer")
    ∷ (19, "tokenMetadata")
    ∷ (20, "groupPointer")
    ∷ (21, "tokenGroup")
    ∷ (22, "groupMemberPointer")
    ∷ (23, "tokenGroupMember")
    ∷ (24, "confidentialMintBurn")
    ∷ (25, "scaledUiAmountConfig")
    ∷ (26, "pausable")
    ∷ (27, "pausableAccount")
    ∷ []

-- `unknown_type n` is the text `f"unknown:{n}"`.
pub data ExtensionName : Type 0 where
  named : String → ExtensionName
  unknown_type : ℕ → ExtensionName

lookup_type : ℕ → List (ℕ × String) → Option String
lookup_type n [] = none
lookup_type n ((k, name) ∷ r) = if k == n then some name else lookup_type n r

name_or_unknown : ℕ → Option String → ExtensionName
name_or_unknown n none = unknown_type n
name_or_unknown n (some name) = named name

-- `EXTENSION_TYPES.get(ext_type, f"unknown:{ext_type}")`
unfoldable pub extension_name : ℕ → ExtensionName
unfolding lookup_type name_or_unknown
extension_name n = name_or_unknown n (lookup_type n extension_types)

pub data AccountState : Type 0 where
  uninitialized initialized frozen : AccountState
  unknown_state : ℕ → AccountState

account_state : ℕ → AccountState
account_state n =
    if n == 0
    then uninitialized
    else (if n == 1 then initialized else (if n == 2 then frozen else unknown_state n))

pub record TokenAccountData : Type 0 where
  pub mint : String
  pub owner : String
  pub amount : ℕ
  pub delegate : Option String
  pub delegated_amount : ℕ
  pub state : AccountState
  pub is_native : Bool
  pub close_authority : Option String
  pub extensions : List Extension

-- One entry of `extensions` of a mint: `{"extension": name, "state": {"accountState": ...}}`.
-- `extension` is `none` where a JSON entry is no object or has no name.
pub record MintExtension : Type 0 where
  pub extension : Option ExtensionName
  pub account_state_name : Option String

-- The `info` of a mint; a field that JSON leaves out or sets to null is `none`.
pub record MintInfo : Type 0 where
  pub mint_authority : Option String
  pub freeze_authority : Option String
  pub supply : ℕ
  pub decimals : Option ℕ
  pub is_initialized : Option Bool
  pub extensions : List MintExtension

abbrev extensions_of : TlvResult → Option (List Extension)
extensions_of (parsed out) = some out
extensions_of truncated = none
extensions_of out_of_fuel = none

state_name : List ℕ → Option String
state_name [] = none
state_name (b ∷ _) =
    some (if b == 1 then "initialized" else (if b == 2 then "frozen" else "unknown"))

is_default_state : ExtensionName → Bool
is_default_state (named s) = str_eq s "defaultAccountState"
is_default_state (unknown_type _) = false

-- The loop body of `parse_mint_bytes`.
unfoldable pub mint_extension : Extension → MintExtension
unfolding state_name is_default_state
mint_extension e =
    let name = extension_name e.ext_type in
    record {
      extension = some name;
      account_state_name = if is_default_state name then state_name e.body else none;
    }

abbrev with_account : TokenAccountData → Option (List Extension) → Option TokenAccountData
with_account a none = none
with_account a (some es) = some (record a { extensions = es })

abbrev with_mint : MintInfo → Option (List Extension) → Option MintInfo
with_mint m none = none
with_mint m (some es) = some (record m { extensions = map mint_extension es })

module _ (pubkey_b58 : List ℕ → String) where
  abbrev pub optional_key : Bool → List ℕ → Option String
  optional_key true raw = some (pubkey_b58 raw)
  optional_key false raw = none

  unfoldable pub parse_token_account_bytes : List ℕ → Option TokenAccountData
  unfolding account_state
  parse_token_account_bytes buf =
      let account : TokenAccountData = record {
        mint = pubkey_b58 (slice 0 32 buf);
        owner = pubkey_b58 (slice 32 64 buf);
        amount = unpack_le 8 buf 64;
        delegate = optional_key (unpack_le 4 buf 72 == 1) (slice 76 108 buf);
        delegated_amount = unpack_le 8 buf 121;
        state = account_state (get_or buf 108 0);
        is_native = unpack_le 4 buf 109 == 1;
        close_authority = optional_key (unpack_le 4 buf 129 == 1) (slice 133 165 buf);
        extensions = [];
      } in
      if ltb (length buf) 165
      then none
      else (if ltb 165 (length buf) && not (get_or buf 165 0 == 2)
          then none
          else (if ltb 166 (length buf)
              then with_account account (extensions_of (parse_tlv (drop 166 buf)))
              else some account))

  unfoldable pub parse_mint_bytes : List ℕ → Option MintInfo
  parse_mint_bytes buf =
      let info : MintInfo = record {
        mint_authority = optional_key (unpack_le 4 buf 0 == 1) (slice 4 36 buf);
        freeze_authority = optional_key (unpack_le 4 buf 46 == 1) (slice 50 82 buf);
        supply = unpack_le 8 buf 36;
        decimals = some (get_or buf 44 0);
        is_initialized = some (get_or buf 45 0 == 1);
        extensions = [];
      } in
      if ltb (length buf) 82
      then none
      else (if ltb 165 (length buf)
          then (if get_or buf 165 0 == 1
              then with_mint info (extensions_of (parse_tlv (drop 166 buf)))
              else none)
          else some info)
