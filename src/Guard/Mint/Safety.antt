-- ===== src/Guard/Mint/Safety.antt =====
-- What a mint that `check_mint` of src/tiller/execution/guard.py passes is known to be.
use agent_trading.Base.{
  subst, sym, ◌==◌, ==_iff, ℕ, Bool, true, false, ◌≡◌, ◌≢◌, refl, inl, inr, ◌↔◌, ◌<◌, ◌==◌, Option,
  none, some, List, [], ◌∷◌, ◌++◌, String, arith, All, zero, suc, leb, leb→le, not, ◌&&◌, ◌||◌, map,
  length, get_or, drop, take, Option-cases, subst, Bool-cases,
}
use agent_trading.Base.Text.{str_eq}
use agent_trading.Models.{token_2022_program}
use agent_trading.Guard.Layout.{
  ExtensionName, MintExtension, MintInfo, mint_extension, optional_key, parse_mint_bytes,
  extension_name,
}
use agent_trading.Guard.Layout.Extended.{
  extension_name_above, extended_mint, parse_mint_bytes-encode_tlv,
}
use agent_trading.Guard.Layout.Tlv.{Extension, from_le, unpack_le, slice}
use agent_trading.Guard.Layout.Tlv.RoundTrip.{encode_tlv, IsEntry}
use agent_trading.Guard.Mint.{
  MintAccount, check_mint, mint_info, check_info, check_extensions, in_token_programs, is_set,
  is_dangerous, is_default_account_state, is_unknown, is_text, is_false, raw,
}

-- An extension that leaves holders in control of their tokens, by its name and default state.
abbrev pub IsSafeExtension : MintExtension → Type 0
IsSafeExtension e = elim e.extension [
  | none ↦ ⊥
  | some name ↦
      (is_dangerous name ≡ false)
      × (is_default_account_state name ≡ true → is_text e.account_state_name "initialized" ≡ true)
      × (is_unknown name ≡ false)
]

check_extensions_sound :
    (es : List MintExtension) → check_extensions es ≡ none → All IsSafeExtension es
unfolding check_extensions
check_extensions_sound [] h = tt
check_extensions_sound (e ∷ es) h = ground (arith, check_extensions_sound es)

check_extensions_complete :
    (es : List MintExtension) → All IsSafeExtension es → check_extensions es ≡ none
unfolding check_extensions
check_extensions_complete [] h = refl
check_extensions_complete (e ∷ es) h = ground (arith, check_extensions_complete es h.1)

-- The entry types that leave holders in control, by their numbers in the Token-2022 layout: not
-- the transfer fee (1), close authority (3), confidential mint (4), non-transferable (9),
-- permanent delegate (12), transfer hook (14), confidential fee (16) and mint-burn (24), pausable
-- (26), nor a number that the layout does not have (1 to 27).
abbrev pub is_safe_type : ℕ → Bool
is_safe_type n =
    leb 1 n
    && leb n 27
    && not (
        n == 1 || n == 3 || n == 4 || n == 9 || n == 12 || n == 14 || n == 16 || n == 24 || n == 26)

abbrev is_safe_name : ExtensionName → Bool
is_safe_name name = not (is_dangerous name) && not (is_unknown name)

abbrev agree : Bool → Bool → Bool
agree true b = b
agree false b = not b

abbrev agree_at : ℕ → Bool
agree_at n = agree (is_safe_name (extension_name n)) (is_safe_type n)

-- Both tests agree at the `k` types that precede `k`.
abbrev AgreeUpTo : ℕ → Type 0
AgreeUpTo zero = Unit
AgreeUpTo (suc k) = AgreeUpTo k × (agree_at k ≡ true)

AgreeUpTo-at : (k n : ℕ) → AgreeUpTo k → n < k → agree_at n ≡ true
AgreeUpTo-at zero n table below = absurd (omega arith)
AgreeUpTo-at (suc k) n table below = elim (Bool-cases (n == k)) [
  | inl last ↦ subst (λ i. agree_at i ≡ true) (sym ((==_iff n k).0 last)) table.1
  | inr before ↦ AgreeUpTo-at k n table.0 (ground (arith, ==_iff n k))
]

known_table : AgreeUpTo 28
unfolding extension_name
known_table = ground arith

agree_below : (n : ℕ) → n < 28 → agree_at n ≡ true
agree_below n h = AgreeUpTo-at 28 n known_table h

safe_name-type : (n : ℕ) → is_safe_name (extension_name n) ≡ true → is_safe_type n ≡ true
safe_name-type n h = elim (Bool-cases (leb n 27)) [
  | inl known ↦ ground (arith, agree_below n (omega (arith, leb→le n 27 known)))
  | inr above ↦ ground (arith, extension_name_above n (ground arith))
]

-- An entry of a mint that holders can trust: its type, and an initialized default state.
abbrev pub IsSafeEntry : Extension → Type 0
IsSafeEntry e =
    (is_safe_type e.ext_type ≡ true) × (e.ext_type ≡ 6 → (r : List ℕ) × (e.body ≡ 1 ∷ r))

default_state_byte :
    (body : List ℕ)
    → IsSafeExtension (mint_extension (record { ext_type = 6; body = body }))
    → (r : List ℕ) × (body ≡ 1 ∷ r)
unfolding mint_extension extension_name
default_state_byte [] h = cc (h.1 refl)
default_state_byte (b ∷ r) h = elim (Bool-cases (b == 1)) [
  | inl one ↦ (r, ground arith)
  | inr other ↦ elim (Bool-cases (b == 2)) [
    | inl e ↦ cc (rw (other, e) at (h.1 refl))
    | inr e ↦ cc (rw (other, e) at (h.1 refl))
  ]
]

mint_extension-IsSafeEntry : (e : Extension) → IsSafeExtension (mint_extension e) → IsSafeEntry e
unfolding mint_extension
mint_extension-IsSafeEntry e h =
    (safe_name-type e.ext_type (ground arith), λ six. default_state_byte e.body (at_six six))
  where
    at_six :
        e.ext_type ≡ 6 → IsSafeExtension (mint_extension (record { ext_type = 6; body = e.body }))
    at_six six =
        subst (λ n. IsSafeExtension (mint_extension (record { ext_type = n; body = e.body }))) six h

All-IsSafeEntry :
    (es : List Extension) → All IsSafeExtension (map mint_extension es) → All IsSafeEntry es
All-IsSafeEntry [] h = tt
All-IsSafeEntry (e ∷ es) h = (mint_extension-IsSafeEntry e h.0, All-IsSafeEntry es h.1)

-- The tests of `check_info`, with its owner's.
abbrev pub IsTradeable : Option String → MintInfo → Type 0
IsTradeable program info =
    (in_token_programs program ≡ true)
    × (is_false info.is_initialized ≡ false)
    × (is_set info.mint_authority ≡ false)
    × (is_set info.freeze_authority ≡ false)
    × (is_text program token_2022_program ≡ true → All IsSafeExtension info.extensions)

check_info_sound :
    (program : Option String) (info : MintInfo)
    → in_token_programs program ≡ true
    → check_info program info ≡ none
    → IsTradeable program info
unfolding check_info
check_info_sound program info p h = ground (arith, check_extensions_sound info.extensions)

check_info_complete :
    (program : Option String) (info : MintInfo)
    → IsTradeable program info
    → check_info program info ≡ none
unfolding check_info
check_info_complete program info h = ground (arith, check_extensions_complete info.extensions)

module _ (pubkey_b58 : List ℕ → String) where
  pub check_some_iff :
      (a : MintAccount)
      → (check_mint pubkey_b58 (some a) ≡ none) ↔ (
          (info : MintInfo) × (mint_info pubkey_b58 a.account_data ≡ some info)
          × IsTradeable a.owner info)
  unfolding check_mint
  check_some_iff a = (passes, λ t. ground (arith, check_info_complete a.owner t.0 t.2))
    where
      passes :
          check_mint pubkey_b58 (some a) ≡ none
          → (info : MintInfo) × (mint_info pubkey_b58 a.account_data ≡ some info)
            × IsTradeable a.owner info
      passes h = elim (Option-cases (mint_info pubkey_b58 a.account_data)) [
        | inl e ↦ ground arith
        | inr (info, e) ↦ (info, e, check_info_sound a.owner info (ground arith) (ground arith))
      ]

  tradeable_bytes :
      (buf : List ℕ) (es : List Extension)
      → ((key : List ℕ) → str_eq (pubkey_b58 key) "" ≡ false)
      → IsTradeable (some token_2022_program) (extended_mint pubkey_b58 buf es)
      → (get_or buf 45 0 ≡ 1)
        × (unpack_le 4 buf 0 ≢ 1)
        × (unpack_le 4 buf 46 ≢ 1)
        × All IsSafeEntry es
  tradeable_bytes buf es named_keys t = (
    initialized_byte (get_or buf 45 0) t.1,
    λ e. no_key (unpack_le 4 buf 0) (slice 4 36 buf) e t.2,
    λ e. no_key (unpack_le 4 buf 46) (slice 50 82 buf) e t.3,
    All-IsSafeEntry es (t.4 refl),
  )
    where
      initialized_byte : (n : ℕ) → is_false (some (n == 1)) ≡ false → n ≡ 1
      initialized_byte n h = ground arith

      no_key :
          (n : ℕ) (key : List ℕ) → n ≡ 1 → is_set (optional_key pubkey_b58 (n == 1) key) ≡ false → ⊥
      no_key n key e h = ground (arith, named_keys key)

  -- For an account that Token-2022 owns, given as more than 165 bytes of which byte 165 is 1, those from
  -- 166 on being encoded extension entries and then a tail whose first two bytes read zero: when it
  -- passes, its initialized byte is 1, neither authority option is 1 (given that no key is written as
  -- the empty text), and each of the entries has a safe type, a default account state being the
  -- initialized one.
  pub check_mint-raw_sound :
      (a : MintAccount) (buf : List ℕ) (es : List Extension) (tail : List ℕ)
      → ((key : List ℕ) → str_eq (pubkey_b58 key) "" ≡ false)
      → a.owner ≡ some token_2022_program
      → a.account_data ≡ raw buf
      → 165 < length buf
      → get_or buf 165 0 ≡ 1
      → drop 166 buf ≡ encode_tlv es ++ tail
      → All IsEntry es
      → from_le (take 2 tail) ≡ 0
      → check_mint pubkey_b58 (some a) ≡ none
      → (get_or buf 45 0 ≡ 1)
        × (unpack_le 4 buf 0 ≢ 1)
        × (unpack_le 4 buf 46 ≢ 1)
        × All IsSafeEntry es
  unfolding mint_info
  check_mint-raw_sound a buf es tail named_keys owned bytes long typed body v z h =
      let read = parse_mint_bytes-encode_tlv pubkey_b58 buf es tail long typed body v z in
      tradeable_bytes buf es named_keys (read_tradeable read ((check_some_iff a).0 h))
    where
      read_tradeable :
          parse_mint_bytes pubkey_b58 buf ≡ some (extended_mint pubkey_b58 buf es)
          → (info : MintInfo) × (mint_info pubkey_b58 a.account_data ≡ some info)
            × IsTradeable a.owner info
          → IsTradeable (some token_2022_program) (extended_mint pubkey_b58 buf es)
      read_tradeable read (info, found, safe) =
          let found_raw : mint_info pubkey_b58 (raw buf) ≡ some info =
            subst (λ d. mint_info pubkey_b58 d ≡ some info) bytes found in
          let same : info ≡ extended_mint pubkey_b58 buf es = cc (found_raw, read) in
          subst (λ o. IsTradeable o (extended_mint pubkey_b58 buf es)) owned
            (subst (λ i. IsTradeable a.owner i) same safe)
