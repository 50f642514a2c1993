-- ===== src/Guard/Layout/Tlv/RoundTrip.antt =====
-- `_parse_tlv` reads back what an encoder of the same layout writes, and always ends.
use agent_trading.Base.{
  ℕ, zero, suc, ◌+◌, ◌-◌, ◌*◌, ◌/◌, ◌%◌, ◌<◌, ◌≡◌, ◌≢◌, refl, ap, ◌∙◌, List, [], ◌∷◌, ◌++◌, arith,
  length, take, drop, length-append, length-drop, take-append, drop-append, drop-drop, All, ltb,
  leb, ◌==◌, if◌then◌else◌,
}
use mathlib.Core.List.{append-nil, append_assoc}
use agent_trading.Guard.Layout.Tlv.{
  Extension, TlvResult, parsed, truncated, out_of_fuel, parse_tlv, parse_tlv_from, slice, from_le,
  unpack_le,
}

-- The loop ends by its test: more rounds than bytes are left always suffice.
parse_tlv_from_total :
    (fuel : ℕ) (buf : List ℕ) (pos : ℕ) (out : List Extension)
    → length buf < fuel + pos
    → 0 < fuel
    → parse_tlv_from fuel buf pos out ≢ out_of_fuel
unfolding parse_tlv_from
parse_tlv_from_total zero buf pos out h p = absurd (omega arith)
parse_tlv_from_total (suc fuel) buf pos out h p =
    let next = pos + 4 + unpack_le 2 buf (pos + 2) in
    let entry : Extension = record {
      ext_type = unpack_le 2 buf pos;
      body = slice (pos + 4) next buf;
    } in
    ground (arith, parse_tlv_from_total fuel buf next (out ++ entry ∷ []))

-- Parsing always returns an answer: a list of extensions, or the error of a truncated entry.
pub parse_tlv_total : (buf : List ℕ) → parse_tlv buf ≢ out_of_fuel
unfolding parse_tlv
parse_tlv_total buf = parse_tlv_from_total (suc (length buf)) buf 0 [] (omega arith) (omega arith)

-- The same loop over the bytes that are left.
parse_rest : ℕ → List ℕ → List Extension → TlvResult
parse_rest zero buf out = out_of_fuel
parse_rest (suc fuel) buf out =
    let ext_len = from_le (take 2 (drop 2 buf)) in
    let body = take ext_len (drop 4 buf) in
    let entry : Extension = record { ext_type = from_le (take 2 buf); body = body } in
    let rest = parse_rest fuel (drop (4 + ext_len) buf) (out ++ entry ∷ []) in
    if leb 4 (length buf)
    then (if from_le (take 2 buf) == 0
        then parsed out
        else (if ltb (length body) ext_len then truncated else rest))
    else parsed out

slice-drop :
    (pos a n : ℕ) (buf : List ℕ)
    → slice (pos + a) (pos + a + n) buf ≡ take n (drop a (drop pos buf))
slice-drop pos a n buf =
    let e : pos + a + n - (pos + a) ≡ n = omega arith in rw (e, drop-drop pos a buf)

slice-drop_zero : (pos n : ℕ) (buf : List ℕ) → slice pos (pos + n) buf ≡ take n (drop pos buf)
slice-drop_zero pos n buf = let e : pos + n - pos ≡ n = omega arith in rw e

room : (pos : ℕ) (buf : List ℕ) → leb (pos + 4) (length buf) ≡ leb 4 (length (drop pos buf))
room pos buf = ground (arith, length-drop pos buf)

parse_tlv_from-eq-rest :
    (fuel : ℕ) (buf : List ℕ) (pos : ℕ) (out : List Extension)
    → parse_tlv_from fuel buf pos out ≡ parse_rest fuel (drop pos buf) out
unfolding parse_tlv_from parse_rest
parse_tlv_from-eq-rest zero buf pos out = refl
parse_tlv_from-eq-rest (suc fuel) buf pos out =
    let len = unpack_le 2 buf (pos + 2) in
    let entry : Extension = record {
      ext_type = unpack_le 2 buf pos;
      body = slice (pos + 4) (pos + 4 + len) buf;
    } in
    let ih = parse_tlv_from-eq-rest fuel buf (pos + 4 + len) (out ++ entry ∷ []) in
    let moved : drop (4 + len) (drop pos buf) ≡ drop (pos + 4 + len) buf =
      drop-drop pos (4 + len) buf ∙ ap (λ k. drop k buf) (omega arith) in
    ground (
      arith,
      ih,
      moved,
      room pos buf,
      slice-drop_zero pos 2 buf,
      slice-drop pos 2 2 buf,
      slice-drop pos 4 len buf,
    )

-- The layout as a writer produces it: type and length in two bytes each, then the body.
abbrev pub encode_tlv : List Extension → List ℕ
encode_tlv [] = []
encode_tlv (e ∷ es) =
    e.ext_type % 256
    ∷ e.ext_type / 256
    ∷ length e.body % 256
    ∷ length e.body / 256
    ∷ (e.body ++ encode_tlv es)

-- A type other than 0, which marks padding, and both numbers in 16 bits.
abbrev pub IsEntry : Extension → Type 0
IsEntry e = (0 < e.ext_type) × (e.ext_type < 65536) × (length e.body < 65536)

parse_rest-encode :
    (fuel : ℕ) (es out : List Extension) (tail : List ℕ)
    → All IsEntry es
    → length (encode_tlv es) < fuel
    → (from_le (take 2 tail) ≡ 0)
    → parse_rest fuel (encode_tlv es ++ tail) out ≡ parsed (out ++ es)
unfolding parse_rest
parse_rest-encode zero es out tail v h z = absurd (omega arith)
parse_rest-encode (suc fuel) [] out tail v h z = ground (arith, append-nil out)
parse_rest-encode (suc fuel) (e ∷ es) out tail v h z =
    let n = length e.body in
    let rest = encode_tlv es ++ tail in
    let split : (e.body ++ encode_tlv es) ++ tail ≡ e.body ++ rest =
      append_assoc e.body (encode_tlv es) tail in
    let typed : e.ext_type % 256 + 256 * (e.ext_type / 256 + 256 * 0) ≡ e.ext_type = omega arith in
    let sized : n % 256 + 256 * (n / 256 + 256 * 0) ≡ n = omega arith in
    let four : 4 + n ≡ suc (suc (suc (suc n))) = omega arith in
    let entry : Extension = record { ext_type = e.ext_type; body = e.body } in
    let eta : entry ≡ e = refl in
    let ih = parse_rest-encode fuel es (out ++ entry ∷ []) tail v.1 in
    rw (split, typed, sized, take-append e.body rest, four, drop-append e.body rest)
      (ground (
        arith,
        ih,
        eta,
        append_assoc out (entry ∷ []) es,
        length-append e.body rest,
        length-append e.body (encode_tlv es),
      ))

-- Parsing what a writer of the layout produces gives back its entries, in order, with every type
-- and body; whatever follows is not read, if it is empty or starts with the padding type 0.
pub parse_tlv-encode_tlv :
    (es : List Extension) (tail : List ℕ)
    → All IsEntry es
    → from_le (take 2 tail) ≡ 0
    → parse_tlv (encode_tlv es ++ tail) ≡ parsed es
unfolding parse_tlv
parse_tlv-encode_tlv es tail v z =
    let buf = encode_tlv es ++ tail in
    parse_tlv_from-eq-rest (suc (length buf)) buf 0 []
    ∙ parse_rest-encode (suc (length buf)) es [] tail v
        (omega (arith, length-append (encode_tlv es) tail)) z
