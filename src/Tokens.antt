-- ===== src/Tokens.antt =====
-- The token gate of src/tiller/data/tokens.py. A float is of a type `F` with its test `lt_f`; the texts of the
-- reasons are constructors.
pub mod Gate
use agent_trading.Base.{
  ℕ, ◌+◌, ◌*◌, Bool, true, false, Option, none, some, List, [], ◌∷◌, ◌++◌, String, if◌then◌else◌,
  not, ◌&&◌, ◌||◌, ltb, any,
}
use agent_trading.Base.Text.{str_eq, str_in}
use agent_trading.Decimal.{DecimalOps, lt_d}
use agent_trading.Guard.Mint.{MintAccount, MintReject, check_mint}

-- `AuditInfo`
pub record AuditInfo (F : Type 0) : Type 0 where
  pub top_holders_pct : Option F
  pub is_sus : Option Bool
  pub mint_authority_disabled : Option Bool
  pub freeze_authority_disabled : Option Bool

-- The fields of `TokenInfo` that the gate reads.
pub record TokenInfo (N F : Type 0) : Type 0 where
  pub organic_score : Option F
  pub audit : Option (AuditInfo F)
  pub liquidity_usd : Option N
  pub first_pool_created_at : Option ℕ
  pub dev : Option String

pub record TokenGateCfg (N F : Type 0) : Type 0 where
  pub min_organic : F
  pub min_liquidity_usd : N
  pub min_age_h : ℕ
  pub max_top_holders_pct : F

pub data GateReason : Type 0 where
  blocklisted own_mint no_info dev_is_us organic_missing organic_low liquidity_missing
        liquidity_low :
      GateReason
  age_unknown too_young audit_missing holders_missing holders_high sus mint_authority : GateReason
  freeze_authority shield_unreachable shield_warning : GateReason
  mint_rejected : MintReject → GateReason

pub record GateResult (N : Type 0) : Type 0 where
  pub ok : Bool
  pub reasons : List GateReason
  pub liquidity_usd : Option N

-- `SHIELD_BLOCKING_WARNINGS`
abbrev pub shield_blocking_warnings : List String
shield_blocking_warnings =
    "HAS_FREEZE_AUTHORITY" ∷ "HAS_MINT_AUTHORITY" ∷ "LOW_ORGANIC_ACTIVITY" ∷ "NEW_LISTING" ∷ []

abbrev pub hour : ℕ
hour = 3600000000

-- One reason, where a test fires.
abbrev pub when_so : Bool → GateReason → List GateReason
when_so b r = if b then r ∷ [] else []

abbrev pub is_us : String → Option String → Bool
is_us wallet none = false
is_us wallet (some d) = str_eq d wallet

abbrev pub is_false : Option Bool → Bool
is_false none = false
is_false (some b) = not b

abbrev pub is_true : Option Bool → Bool
is_true none = false
is_true (some b) = b

abbrev pub is_empty : List GateReason → Bool
is_empty [] = true
is_empty (_ ∷ _) = false

unfoldable pub shield_reasons : Option (List String) → List GateReason
shield_reasons none = shield_unreachable ∷ []
shield_reasons (some warnings) =
    when_so (any (λ w. str_in w shield_blocking_warnings) warnings) shield_warning

unfoldable pub mint_reasons : (List ℕ → String) → Option MintAccount → List GateReason
mint_reasons pubkey_b58 account = elim (check_mint pubkey_b58 account) [
  | none ↦ []
  | some r ↦ mint_rejected r ∷ []
]

unfoldable pub list_reasons : String → List String → List String → List GateReason
list_reasons mint own_token_mints blocklist =
    when_so (str_in mint blocklist) blocklisted ++ when_so (str_in mint own_token_mints) own_mint

unfoldable pub age_reasons : ℕ → ℕ → Option ℕ → List GateReason
age_reasons now min_age_h none = age_unknown ∷ []
age_reasons now min_age_h (some t) = when_so (ltb now (t + min_age_h * hour)) too_young

module _ {F : Type 0} (lt_f : F → F → Bool) where
  unfoldable pub organic_reasons : F → Option F → List GateReason
  organic_reasons bound none = organic_missing ∷ []
  organic_reasons bound (some s) = when_so (lt_f s bound) organic_low

  abbrev pub holder_reasons : F → Option F → List GateReason
  holder_reasons bound none = holders_missing ∷ []
  holder_reasons bound (some p) = when_so (lt_f bound p) holders_high

  unfoldable pub audit_reasons : F → Option (AuditInfo F) → List GateReason
  audit_reasons bound none = audit_missing ∷ []
  audit_reasons bound (some a) =
      holder_reasons bound a.top_holders_pct
      ++ when_so (is_true a.is_sus) sus
      ++ when_so (is_false a.mint_authority_disabled) mint_authority
      ++ when_so (is_false a.freeze_authority_disabled) freeze_authority

module _ (D : DecimalOps) {F : Type 0} (lt_f : F → F → Bool) where
  open D use {Num}

  unfoldable pub liquidity_reasons : Num → Option Num → List GateReason
  liquidity_reasons bound none = liquidity_missing ∷ []
  liquidity_reasons bound (some l) = when_so (lt_d D l bound) liquidity_low

  unfoldable pub info_reasons :
      String → ℕ → TokenGateCfg Num F → Option (TokenInfo Num F) → List GateReason
  info_reasons our_wallet now cfg none = no_info ∷ []
  info_reasons our_wallet now cfg (some info) =
      when_so (is_us our_wallet info.dev) dev_is_us
      ++ organic_reasons lt_f cfg.min_organic info.organic_score
      ++ liquidity_reasons cfg.min_liquidity_usd info.liquidity_usd
      ++ age_reasons now cfg.min_age_h info.first_pool_created_at
      ++ audit_reasons lt_f cfg.max_top_holders_pct info.audit

  abbrev liquidity_of : Option (TokenInfo Num F) → Option Num
  liquidity_of none = none
  liquidity_of (some info) = info.liquidity_usd

  -- The lists that the gate looks the mint up in, and the time.
  pub record GateLists : Type 0 where
    pub our_wallet : String
    pub own_token_mints : List String
    pub blocklist : List String
    pub allowlist : List String
    pub now : ℕ

  unfoldable pub evaluate_token_gate :
      (List ℕ → String)
      → String
      → Option (TokenInfo Num F)
      → Option (List String)
      → Option MintAccount
      → TokenGateCfg Num F
      → GateLists
      → GateResult Num
  evaluate_token_gate pubkey_b58 mint info warnings account cfg l =
      let reasons =
        list_reasons mint l.own_token_mints l.blocklist
        ++ mint_reasons pubkey_b58 account
        ++ info_reasons l.our_wallet l.now cfg info
        ++ shield_reasons warnings in
      if str_in mint l.allowlist
      then record { ok = true; reasons = []; liquidity_usd = liquidity_of info }
      else record { ok = is_empty reasons; reasons = reasons; liquidity_usd = liquidity_of info }
