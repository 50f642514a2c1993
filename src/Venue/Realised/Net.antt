-- ===== src/Venue/Realised/Net.antt =====
-- The deltas of a swap are differences of what the wallet's accounts hold.
use agent_trading.Base.{
  ◌≡◌, ◌≢◌, ap, ◌∙◌, Bool, true, false, some, List, [], ◌∷◌, String, arith, if◌then◌else◌, ◌&&◌,
  Option-cases, inl, inr,
}
use agent_trading.Base.Int.{ℤ, pos, ◌+ℤ◌, ◌-ℤ◌, leb_ℤ, int_laws}
use agent_trading.Base.Text.{str_eq, str_eq_iff}
use agent_trading.Base.Dict.{Dict, lookup_or, lookup_or-insert}
use agent_trading.Decimal.{DecimalOps}
use agent_trading.Models.{Fill, SwapRequest, sol_mint}
use agent_trading.Venue.Realised.{
  TokenEntry, ChainTx, Deltas, signed_by, count_entry, accumulate, known_decimals, token_deltas,
  lamport_delta, realised_fill_from_tx,
}

-- What the wallet's accounts of a mint hold, over the entries.
abbrev pub holds_of : String → String → List TokenEntry → ℤ
holds_of wallet m [] = pos 0
holds_of wallet m (e ∷ es) =
    (if str_eq e.owner wallet && str_eq e.mint m then e.amount else pos 0) +ℤ holds_of wallet m es

abbrev delta_of : String → Dict ℤ → ℤ
delta_of m d = lookup_or m (pos 0) d

abbrev own_part : String → String → TokenEntry → ℤ
own_part wallet m e = if str_eq e.owner wallet && str_eq e.mint m then e.amount else pos 0

plus_zero : (a : ℤ) (positive : Bool) → a ≡ a +ℤ signed_by positive (pos 0)
plus_zero a true = omega int_laws
plus_zero a false = omega int_laws

count_entry-net :
    (wallet m : String) (positive : Bool) (e : TokenEntry) (s : Deltas)
    → m ≢ sol_mint
    → delta_of m (count_entry wallet positive e s).token_delta
      ≡ delta_of m s.token_delta +ℤ signed_by positive (own_part wallet m e)
count_entry-net wallet m positive e s h =
    let now = lookup_or e.mint (pos 0) s.token_delta +ℤ signed_by positive e.amount in
    ground (
      arith,
      lookup_or-insert e.mint m now (pos 0) s.token_delta,
      str_eq_iff e.mint m,
      str_eq_iff e.mint sol_mint,
      plus_zero (lookup_or m (pos 0) s.token_delta) positive,
    )

regroup :
    (a x y : ℤ) (positive : Bool)
    → (a +ℤ signed_by positive x) +ℤ signed_by positive y ≡ a +ℤ signed_by positive (x +ℤ y)
regroup a x y true = omega int_laws
regroup a x y false = omega int_laws

accumulate-net :
    (wallet m : String) (positive : Bool) (es : List TokenEntry) (s : Deltas)
    → m ≢ sol_mint
    → delta_of m (accumulate wallet positive es s).token_delta
      ≡ delta_of m s.token_delta +ℤ signed_by positive (holds_of wallet m es)
unfolding accumulate
accumulate-net wallet m positive [] s h = plus_zero (delta_of m s.token_delta) positive
accumulate-net wallet m positive (e ∷ es) s h =
    accumulate-net wallet m positive es (count_entry wallet positive e s) h
    ∙ ap (λ a. a +ℤ signed_by positive (holds_of wallet m es))
        (count_entry-net wallet m positive e s h)
    ∙ regroup (delta_of m s.token_delta) (own_part wallet m e) (holds_of wallet m es) positive

-- The delta of a mint other than SOL is what the wallet's accounts of it hold after the swap, less
-- what they held before.
pub token_deltas-net :
    (wallet m : String) (tx : ChainTx)
    → m ≢ sol_mint
    → lookup_or m (pos 0) (token_deltas wallet tx).token_delta
      ≡ holds_of wallet m tx.post_tokens -ℤ holds_of wallet m tx.pre_tokens
unfolding token_deltas
token_deltas-net wallet m tx h =
    let start : Deltas = record { token_delta = []; decimals = known_decimals } in
    let before = accumulate wallet false tx.pre_tokens start in
    accumulate-net wallet m true tx.post_tokens before h
    ∙ ap (λ a. a +ℤ holds_of wallet m tx.post_tokens)
        (accumulate-net wallet m false tx.pre_tokens start h)
    ∙ swapped (holds_of wallet m tx.pre_tokens) (holds_of wallet m tx.post_tokens)
  where
    swapped : (a b : ℤ) → (pos 0 +ℤ (pos 0 -ℤ a)) +ℤ b ≡ b -ℤ a
    swapped a b = omega int_laws

module _ (D : DecimalOps) where
  -- A token swap that pays one mint for another, neither of them SOL, gives a fill only if it did
  -- not fail, and then the fill has the mints of the request, took from the wallet's accounts of
  -- the input what it says and brought what it says, both positive.
  pub realised_fill_from_tx-net :
      (tx : ChainTx) (wallet : String) (req : SwapRequest) (marks : Dict D.Num) (f : Fill D.Num)
      → req.input_mint ≢ sol_mint
      → req.output_mint ≢ sol_mint
      → realised_fill_from_tx D tx wallet req marks ≡ some f
      → (tx.failed ≡ false)
        × (f.in_mint ≡ req.input_mint)
        × (f.out_mint ≡ req.output_mint)
        × (f.in_base
            ≡ pos 0
              -ℤ (holds_of wallet req.input_mint tx.post_tokens
                  -ℤ holds_of wallet req.input_mint tx.pre_tokens))
        × (f.out_base
            ≡ holds_of wallet req.output_mint tx.post_tokens
              -ℤ holds_of wallet req.output_mint tx.pre_tokens)
        × (leb_ℤ f.in_base (pos 0) ≡ false)
        × (leb_ℤ f.out_base (pos 0) ≡ false)
  unfolding realised_fill_from_tx
  realised_fill_from_tx-net tx wallet req marks f hi ho e =
      elim (Option-cases (lamport_delta wallet tx)) [
        | inl gone ↦ absurd (ground arith)
        | inr (lamports, l) ↦ ground (
          arith,
          token_deltas-net wallet req.input_mint tx hi,
          token_deltas-net wallet req.output_mint tx ho,
          str_eq_iff req.input_mint sol_mint,
          str_eq_iff req.output_mint sol_mint,
        )
      ]
