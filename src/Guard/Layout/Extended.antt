-- ===== src/Guard/Layout/Extended.antt =====
-- The two layouts of src/tiller/execution/guard.py on accounts with extensions: what follows the
-- account-type byte is read as a list of entries.
use agent_trading.Base.{
  ℕ, ◌<◌, ltb, true, false, ◌≡◌, String, some, none, refl, List, [], ◌∷◌, ◌++◌, arith, All, map,
  length, get_or, drop, take, ◌==◌,
}
use agent_trading.Guard.Layout.{
  MintInfo, lookup_type, extension_name, unknown_type, extension_types, mint_extension,
  parse_mint_bytes, optional_key,
}
use agent_trading.Guard.Layout.Tlv.{Extension, from_le, unpack_le, slice, parse_tlv, parsed}
use agent_trading.Guard.Layout.Tlv.RoundTrip.{encode_tlv, IsEntry, parse_tlv-encode_tlv}

-- The info of an extended mint account.
abbrev pub extended_mint : (List ℕ → String) → List ℕ → List Extension → MintInfo
extended_mint pubkey_b58 buf es = record {
  mint_authority = optional_key pubkey_b58 (unpack_le 4 buf 0 == 1) (slice 4 36 buf);
  freeze_authority = optional_key pubkey_b58 (unpack_le 4 buf 46 == 1) (slice 50 82 buf);
  supply = unpack_le 8 buf 36;
  decimals = some (get_or buf 44 0);
  is_initialized = some (get_or buf 45 0 == 1);
  extensions = map mint_extension es;
}

test_false : (n : ℕ) → 165 < n → ltb n 82 ≡ false
test_false n h = ground arith

test_true : (n : ℕ) → 165 < n → ltb 165 n ≡ true
test_true n h = ground arith

pub parse_mint_bytes-encode_tlv :
    (pubkey_b58 : List ℕ → String) (buf : List ℕ) (es : List Extension) (tail : List ℕ)
    → 165 < length buf
    → get_or buf 165 0 ≡ 1
    → drop 166 buf ≡ encode_tlv es ++ tail
    → All IsEntry es
    → from_le (take 2 tail) ≡ 0
    → parse_mint_bytes pubkey_b58 buf ≡ some (extended_mint pubkey_b58 buf es)
unfolding parse_mint_bytes
parse_mint_bytes-encode_tlv pubkey_b58 buf es tail long typed body v z =
    let read : parse_tlv (drop 166 buf) ≡ parsed es = rw body (parse_tlv-encode_tlv es tail v z) in
    rw (test_false (length buf) long, test_true (length buf) long, typed, read)

lookup_type_above :
    (n : ℕ) (es : List (ℕ × String)) → All (λ e. e.0 < 28) es → 27 < n → lookup_type n es ≡ none
unfolding lookup_type
lookup_type_above n [] h lt = refl
lookup_type_above n (e ∷ es) h lt = ground (arith, lookup_type_above n es h.1)

-- A number above the table has no name.
pub extension_name_above : (n : ℕ) → 27 < n → extension_name n ≡ unknown_type n
unfolding extension_name
extension_name_above n h = rw (lookup_type_above n extension_types (omega arith) h)
