-- ===== src/Guard/Mint.antt =====
-- The mint rules of src/tiller/execution/guard.py: `mint_info`, `mint_decimals`, `check_mint`.
-- What `getAccountInfo` returned is an `AccountData` after JSON and base64 have been decoded.
pub mod Safety
pub mod Passes
use agent_trading.Base.{
  ℕ, Bool, true, false, Option, none, some, List, [], ◌∷◌, String, if◌then◌else◌, not, ◌&&◌,
}
use agent_trading.Base.Text.{str_eq, str_in}
use agent_trading.Models.{token_program, token_2022_program}
use agent_trading.Guard.Layout.{
  ExtensionName, named, unknown_type, MintExtension, MintInfo, parse_mint_bytes,
}
use text.Mathlib.Text.{starts_with}

-- `TOKEN_PROGRAMS`
abbrev pub token_programs : List String
token_programs = token_program ∷ token_2022_program ∷ []

-- `DANGEROUS_MINT_EXTENSIONS`
abbrev pub dangerous_mint_extensions : List String
dangerous_mint_extensions =
    "transferFeeConfig" ∷ "transferHook" ∷ "permanentDelegate" ∷ "nonTransferable" ∷ "pausable"
    ∷ "mintCloseAuthority" ∷ "confidentialTransferMint" ∷ "confidentialTransferFeeConfig"
    ∷ "confidentialMintBurn" ∷ []

-- The `data` of an account value: jsonParsed with its `type` and `info` (`none` where that is no
-- object), JSON without a `parsed` object, base64 that decodes, or anything else.
pub data AccountData (I : Type 0) : Type 0 where
  parsed_json : Option String → Option I → AccountData I
  other_json : AccountData I
  raw : List ℕ → AccountData I
  undecodable : AccountData I

pub record MintAccount : Type 0 where
  pub owner : Option String
  pub account_data : AccountData MintInfo

-- The reasons of `check_mint`.
pub data MintReject : Type 0 where
  not_found not_token_program not_parseable not_initialized : MintReject
  mint_authority_present freeze_authority_present unparseable_extension : MintReject
  bad_extension unknown_extension : ExtensionName → MintReject
  default_state : Option String → MintReject

abbrev is_text : Option String → String → Bool
is_text none t = false
is_text (some s) t = str_eq s t

-- `x not in (None, "")`
abbrev pub is_set : Option String → Bool
is_set none = false
is_set (some s) = not (str_eq s "")

abbrev pub is_dangerous : ExtensionName → Bool
is_dangerous (named s) = str_in s dangerous_mint_extensions
is_dangerous (unknown_type _) = false

abbrev pub is_default_account_state : ExtensionName → Bool
is_default_account_state (named s) = str_eq s "defaultAccountState"
is_default_account_state (unknown_type _) = false

-- `str(name).startswith("unknown")`
abbrev pub is_unknown : ExtensionName → Bool
is_unknown (named s) = starts_with s "unknown"
is_unknown (unknown_type _) = true

-- The rules for one named extension.
check_extension : ExtensionName → Option String → Option MintReject
check_extension name state =
    if is_dangerous name
    then some (bad_extension name)
    else (if is_default_account_state name && not (is_text state "initialized")
        then some (default_state state)
        else (if is_unknown name then some (unknown_extension name) else none))

-- The loop over `info["extensions"]`.
check_extensions : List MintExtension → Option MintReject
unfolding check_extension
check_extensions [] = none
check_extensions (e ∷ es) = elim e.extension [
  | none ↦ some unparseable_extension
  | some name ↦ elim (check_extension name e.account_state_name) [
    | none ↦ check_extensions es
    | some r ↦ some r
  ]
]

abbrev in_token_programs : Option String → Bool
in_token_programs none = false
in_token_programs (some p) = str_in p token_programs

abbrev is_false : Option Bool → Bool
is_false none = false
is_false (some b) = not b

check_info : Option String → MintInfo → Option MintReject
unfolding check_extensions
check_info program info =
    if is_false info.is_initialized
    then some not_initialized
    else (if is_set info.mint_authority
        then some mint_authority_present
        else (if is_set info.freeze_authority
            then some freeze_authority_present
            else (if is_text program token_2022_program
                then check_extensions info.extensions
                else none)))

abbrev check_parsed : Option String → Option MintInfo → Option MintReject
check_parsed program none = some not_parseable
check_parsed program (some info) = check_info program info

module _ (pubkey_b58 : List ℕ → String) where
  -- The second part of the pair that `mint_info` returns; the first is the account's owner.
  unfoldable pub mint_info : AccountData MintInfo → Option MintInfo
  mint_info (parsed_json kind info) = if is_text kind "mint" then info else none
  mint_info other_json = none
  mint_info (raw buf) = parse_mint_bytes pubkey_b58 buf
  mint_info undecodable = none

  -- `none` is the `ValueError`.
  unfoldable pub mint_decimals : MintAccount → Option ℕ
  mint_decimals a = elim (mint_info a.account_data) [ none ↦ none | some info ↦ info.decimals ]

  unfoldable pub check_mint : Option MintAccount → Option MintReject
  unfolding check_info
  check_mint none = some not_found
  check_mint (some a) =
      if in_token_programs a.owner
      then check_parsed a.owner (mint_info a.account_data)
      else some not_token_program
