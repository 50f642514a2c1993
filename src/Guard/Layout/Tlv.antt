-- ===== src/Guard/Layout/Tlv.antt =====
-- `_parse_tlv` of src/tiller/execution/guard.py: the extension list of a Token-2022 account.
pub mod RoundTrip
use agent_trading.Base.{
  ℕ, zero, suc, ◌+◌, ◌-◌, ◌*◌, Bool, true, false, List, [], ◌∷◌, ◌++◌, String, ltb, leb, ◌==◌,
  if◌then◌else◌, length, take, drop,
}

-- `data[start:end]` of a `bytes` value.
abbrev pub slice : ℕ → ℕ → List ℕ → List ℕ
slice start end buf = take (end - start) (drop start buf)

-- The little-endian number of the bytes.
abbrev pub from_le : List ℕ → ℕ
from_le [] = 0
from_le (b ∷ bs) = b + 256 * from_le bs

-- `struct.unpack_from("<H" | "<I" | "<Q", buf, pos)` for 2, 4 or 8 bytes.
abbrev pub unpack_le : ℕ → List ℕ → ℕ → ℕ
unpack_le n buf pos = from_le (slice pos (pos + n) buf)

-- One entry of the list, `{"type", "name", "data"}`; the name is `extension_name` of the type.
pub record Extension : Type 0 where
  pub ext_type : ℕ
  pub body : List ℕ

-- `out`, the `ValueError`, or a loop that was stopped (see `parse_tlv_total`).
pub data TlvResult : Type 0 where
  parsed : List Extension → TlvResult
  truncated : TlvResult
  out_of_fuel : TlvResult

-- The `while` loop, with `pos` and `out` as its variables and a bound on its rounds.
pub parse_tlv_from : ℕ → List ℕ → ℕ → List Extension → TlvResult
parse_tlv_from zero buf pos out = out_of_fuel
parse_tlv_from (suc fuel) buf pos out =
    let ext_type = unpack_le 2 buf pos in
    let ext_len = unpack_le 2 buf (pos + 2) in
    let body = slice (pos + 4) (pos + 4 + ext_len) buf in
    let entry : Extension = record { ext_type = ext_type; body = body } in
    let rest = parse_tlv_from fuel buf (pos + 4 + ext_len) (out ++ entry ∷ []) in
    if leb (pos + 4) (length buf)
    then (if ext_type == 0
        then parsed out
        else (if ltb (length body) ext_len then truncated else rest))
    else parsed out

-- Every round but the last moves `pos` by four bytes or more.
unfoldable pub parse_tlv : List ℕ → TlvResult
unfolding parse_tlv_from
parse_tlv buf = parse_tlv_from (suc (length buf)) buf 0 []
