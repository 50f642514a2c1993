-- ===== src/Guard/Mint/Passes.antt =====
-- Which accounts `check_mint` of src/tiller/execution/guard.py passes, owners, names and states written
-- out.
use agent_trading.Base.{
  ℕ, true, false, ◌≡◌, ◌≢◌, ◌⊎◌, ◌↔◌, inl, inr, refl, Bool, Option, none, some, List, [], ◌∷◌,
  String, arith, All, subst, sym, Option-cases,
}
use agent_trading.Base.Text.{str_eq_iff}
use agent_trading.Models.{token_program, token_2022_program}
use agent_trading.Guard.Layout.{
  ExtensionName, named, unknown_type, MintExtension, MintInfo, parse_mint_bytes,
}
use agent_trading.Guard.Mint.{
  AccountData, parsed_json, other_json, raw, undecodable, MintAccount, check_mint, mint_info,
  in_token_programs, is_text, is_set, is_false, is_dangerous,
}
use agent_trading.Guard.Mint.Safety.{IsSafeExtension, IsTradeable, check_some_iff}
use text.Mathlib.Text.{starts_with}

-- The extensions that take control from holders.
abbrev IsThreat : String → Type 0
IsThreat s =
    (s ≡ "transferFeeConfig")
    ⊎ (s ≡ "transferHook")
    ⊎ (s ≡ "permanentDelegate")
    ⊎ (s ≡ "nonTransferable")
    ⊎ (s ≡ "pausable")
    ⊎ (s ≡ "mintCloseAuthority")
    ⊎ (s ≡ "confidentialTransferMint")
    ⊎ (s ≡ "confidentialTransferFeeConfig")
    ⊎ (s ≡ "confidentialMintBurn")

-- An extension with a name that is no threat and does not begin with "unknown", a default account state
-- being the initialized one.
abbrev pub IsHarmless : MintExtension → Type 0
IsHarmless e =
    (s : String) × (e.extension ≡ some (named s))
    × ¬ IsThreat s
    × (s ≡ "defaultAccountState" → e.account_state_name ≡ some "initialized")
    × (starts_with s "unknown" ≡ false)

abbrev pub IsAbsent : Option String → Type 0
IsAbsent o = (o ≡ none) ⊎ (o ≡ some "")

-- The mint that the data holds: JSON of the type "mint", or bytes that parse.
abbrev pub Holds : (List ℕ → String) → AccountData MintInfo → MintInfo → Type 0
Holds pubkey_b58 d info =
    (d ≡ parsed_json (some "mint") (some info))
    ⊎ ((buf : List ℕ) × (d ≡ raw buf) × (parse_mint_bytes pubkey_b58 buf ≡ some info))

-- The account of a mint that may be traded.
abbrev pub IsMint : (List ℕ → String) → MintAccount → Type 0
IsMint pubkey_b58 a =
    (program : String) × (info : MintInfo) × (a.owner ≡ some program)
    × ((program ≡ token_program) ⊎ (program ≡ token_2022_program))
    × Holds pubkey_b58 a.account_data info
    × (info.is_initialized ≢ some false)
    × IsAbsent info.mint_authority
    × IsAbsent info.freeze_authority
    × (program ≡ token_2022_program → All IsHarmless info.extensions)

is_text_iff : (o : Option String) (t : String) → (is_text o t ≡ true) ↔ (o ≡ some t)
is_text_iff none t = (λ h. cc, λ h. cc)
is_text_iff (some s) t = ground (arith, str_eq_iff s t)

is_set_iff : (o : Option String) → (is_set o ≡ false) ↔ IsAbsent o
is_set_iff none = (λ _. inl refl, λ _. refl)
is_set_iff (some s) = ground (arith, str_eq_iff s "")

is_false_iff : (o : Option Bool) → (is_false o ≡ false) ↔ (o ≢ some false)
is_false_iff none = (λ _ h. cc, λ _. refl)
is_false_iff (some b) = ground arith

is_dangerous_iff : (s : String) → (is_dangerous (named s) ≡ false) ↔ (¬ IsThreat s)
is_dangerous_iff s = ground (
  arith,
  str_eq_iff s "transferFeeConfig",
  str_eq_iff s "transferHook",
  str_eq_iff s "permanentDelegate",
  str_eq_iff s "nonTransferable",
  str_eq_iff s "pausable",
  str_eq_iff s "mintCloseAuthority",
  str_eq_iff s "confidentialTransferMint",
  str_eq_iff s "confidentialTransferFeeConfig",
  str_eq_iff s "confidentialMintBurn",
)

-- The same of a name.
abbrev IsHarmlessName : String → Option String → Type 0
IsHarmlessName s state =
    ¬ IsThreat s
    × (s ≡ "defaultAccountState" → state ≡ some "initialized")
    × (starts_with s "unknown" ≡ false)

safe_name_iff :
    (s : String) (state : Option String)
    → IsSafeExtension (record { extension = some (named s); account_state_name = state })
      ↔ IsHarmlessName s state
safe_name_iff s state =
    let (f, g) = is_dangerous_iff s in
    let (p, q) = is_text_iff state "initialized" in
    let (m, n) = str_eq_iff s "defaultAccountState" in
    ((λ h. (f h.0, (λ e. p (h.1 (n e))), h.2)), (λ k. (g k.0, (λ e. q (k.1 (m e))), k.2)))

safe_iff :
    (o : Option ExtensionName) (state : Option String)
    → IsSafeExtension (record { extension = o; account_state_name = state })
      ↔ IsHarmless (record { extension = o; account_state_name = state })
safe_iff none state = (λ h. absurd h, λ k. cc (k.1))
safe_iff (some (unknown_type n)) state = (λ h. cc (h.2), λ k. cc (k.1))
safe_iff (some (named s)) state =
    let (f, g) = safe_name_iff s state in
    (
      (λ h. let t = f h in (s, refl, t.0, t.1, t.2)),
      (λ k.
          let same : k.0 ≡ s = cc (k.1) in
          g (subst (λ x. IsHarmlessName x state) same (k.2, k.3, k.4))),
    )

All-IsHarmless : (es : List MintExtension) → All IsSafeExtension es ↔ All IsHarmless es
All-IsHarmless [] = (λ _. tt, λ _. tt)
All-IsHarmless (e ∷ es) =
    let (f, g) = safe_iff e.extension e.account_state_name in
    let (p, q) = All-IsHarmless es in ((λ h. (f h.0, p h.1)), (λ k. (g k.0, q k.1)))

IsTradeable-iff :
    (program : String) (info : MintInfo)
    → IsTradeable (some program) info ↔ (
        ((program ≡ token_program) ⊎ (program ≡ token_2022_program))
        × (info.is_initialized ≢ some false)
        × IsAbsent info.mint_authority
        × IsAbsent info.freeze_authority
        × (program ≡ token_2022_program → All IsHarmless info.extensions))
IsTradeable-iff program info =
    let (f1, g1) = is_false_iff info.is_initialized in
    let (f2, g2) = is_set_iff info.mint_authority in
    let (f3, g3) = is_set_iff info.freeze_authority in
    let (f4, g4) = All-IsHarmless info.extensions in
    let (m, n) = str_eq_iff program token_2022_program in
    let (v, w) = owner_iff program in
    (
      (λ h. (v h.0, f1 h.1, f2 h.2, f3 h.3, (λ e. f4 (h.4 (n e))))),
      (λ k. (w k.0, g1 k.1, g2 k.2, g3 k.3, (λ e. g4 (k.4 (m e))))),
    )
  where
    owner_iff :
        (p : String)
        → (in_token_programs (some p) ≡ true) ↔ ((p ≡ token_program) ⊎ (p ≡ token_2022_program))
    owner_iff p = ground (arith, str_eq_iff p token_program, str_eq_iff p token_2022_program)

module _ (pubkey_b58 : List ℕ → String) where
  mint_info_iff :
      (d : AccountData MintInfo) (info : MintInfo)
      → (mint_info pubkey_b58 d ≡ some info) ↔ Holds pubkey_b58 d info
  unfolding mint_info
  mint_info_iff (parsed_json none o) info = (λ h. cc, λ k. ground (arith, k))
  mint_info_iff (parsed_json (some kind) o) info = ground (arith, str_eq_iff kind "mint")
  mint_info_iff other_json info = (λ h. cc, λ k. ground (arith, k))
  mint_info_iff (raw buf) info = (
    (λ h. inr (buf, refl, h)),
    (λ k. elim k [
      | inl e ↦ cc e
      | inr (b, e, h) ↦
          let same : b ≡ buf = cc e in subst (λ x. parse_mint_bytes pubkey_b58 x ≡ some info) same h
    ]),
  )
  mint_info_iff undecodable info = (λ h. cc, λ k. ground (arith, k))

  mint_passes : (a : MintAccount) → IsMint pubkey_b58 a → check_mint pubkey_b58 (some a) ≡ none
  mint_passes a (program, info, e, owned, held, ready, mint, freeze, harmless) =
      (check_some_iff pubkey_b58 a).1 (
        info,
        (mint_info_iff a.account_data info).1 held,
        subst (λ o. IsTradeable o info) (sym e)
            ((IsTradeable-iff program info).1 (owned, ready, mint, freeze, harmless)),
      )

  -- `check_mint` passes exactly an account that is there, that one of the two token programs owns, whose
  -- data is JSON of the type "mint" or bytes that parse as a mint, which is not marked uninitialized
  -- and has neither authority, and where, under Token-2022, each extension has a name, none of the nine
  -- that take control from holders and none that begins with "unknown", a default account state being
  -- the initialized one.
  pub check_mint_iff :
      (account : Option MintAccount)
      → (check_mint pubkey_b58 account ≡ none)
        ↔ ((a : MintAccount) × (account ≡ some a) × IsMint pubkey_b58 a)
  unfolding check_mint
  check_mint_iff none = (λ h. cc, λ k. cc (k.1))
  check_mint_iff (some a) = (
    (λ h.
        let (info, found, t) = (check_some_iff pubkey_b58 a).0 h in
        elim (Option-cases a.owner) [
          | inl e ↦ cc (rw e at (t.0))
          | inr (program, e) ↦
              let u = (IsTradeable-iff program info).0 (subst (λ o. IsTradeable o info) e t) in
              let held = (mint_info_iff a.account_data info).0 found in
              (a, refl, (program, info, e, u.0, held, u.1, u.2, u.3, u.4))
        ]),
    (λ k. let same : k.0 ≡ a = cc (k.1) in mint_passes a (subst (IsMint pubkey_b58) same k.2)),
  )
