-- ===== src/Venue/Realised.antt =====
-- `realised_fill_from_tx` of src/tiller/execution/venue.py: the legs of a swap from the balances
-- before and after it. A field that JSON leaves out has the value that the source falls back to.
pub mod Net
use agent_trading.Base.{
  ℕ, ◌+◌, ◌-◌, ◌^◌, ◌≡◌, ◌≢◌, refl, ap, ◌∙◌, Bool, true, false, Option, none, some, List, [], ◌∷◌,
  String, arith, if◌then◌else◌, not, ◌&&◌, ◌||◌, ◌==◌, get_elem?, Option-cases, Bool-cases, inl,
  inr, ◌⊎◌,
}
use agent_trading.Base.Int.{ℤ, pos, negsuc, ◌+ℤ◌, ◌-ℤ◌, leb_ℤ, int_laws}
use agent_trading.Base.Text.{str_eq, str_eq_iff}
use agent_trading.Base.Dict.{Dict, lookup, lookup_or, insert, lookup-insert, lookup_or-insert}
use agent_trading.Decimal.{DecimalOps, zero_d}
use agent_trading.Models.{SwapRequest, Fill, sol_mint, usdc_mint}

-- An entry of `preTokenBalances` or `postTokenBalances`.
pub record TokenEntry : Type 0 where
  pub owner : String
  pub mint : String
  pub amount : ℤ
  pub decimals : Option ℕ

-- What `getTransaction` returns.
pub record ChainTx : Type 0 where
  pub failed : Bool
  pub keys : List String
  pub fee : ℤ
  pub pre_balances : List ℤ
  pub post_balances : List ℤ
  pub pre_tokens : List TokenEntry
  pub post_tokens : List TokenEntry
  pub block_time : Option ℕ
  pub signatures : List String

-- `keys.index(wallet)`
unfoldable pub index_of : String → List String → Option ℕ
index_of k [] = none
index_of k (j ∷ js) =
    if str_eq j k then some 0 else elim (index_of k js) [ none ↦ none | some i ↦ some (i + 1) ]

-- `token_delta` and `decimals`
pub record Deltas : Type 0 where
  pub token_delta : Dict ℤ
  pub decimals : Dict ℕ

abbrev pub with_decimals : String → Option ℕ → Dict ℕ → Dict ℕ
with_decimals mint none d = d
with_decimals mint (some n) d = insert mint n d

abbrev pub signed_by : Bool → ℤ → ℤ
signed_by positive a = if positive then a else pos 0 -ℤ a

-- The body of the loop, with the sign as a test.
abbrev pub count_entry : String → Bool → TokenEntry → Deltas → Deltas
count_entry wallet positive e s =
    if not (str_eq e.owner wallet) || str_eq e.mint sol_mint then s else record {
      token_delta =
          insert e.mint (lookup_or e.mint (pos 0) s.token_delta +ℤ signed_by positive e.amount)
            s.token_delta;
      decimals = with_decimals e.mint e.decimals s.decimals;
    }

-- `_accumulate`
unfoldable pub accumulate : String → Bool → List TokenEntry → Deltas → Deltas
accumulate wallet positive [] s = s
accumulate wallet positive (e ∷ es) s =
    accumulate wallet positive es (count_entry wallet positive e s)

abbrev pub known_decimals : Dict ℕ
known_decimals = (sol_mint, 9) ∷ (usdc_mint, 6) ∷ []

unfoldable pub token_deltas : String → ChainTx → Deltas
token_deltas wallet tx =
    accumulate wallet true tx.post_tokens (
      accumulate wallet false tx.pre_tokens
        (record { token_delta = []; decimals = known_decimals }))

-- Lamports of the wallet, net of the fee where it is the fee payer.
unfoldable pub lamport_delta : String → ChainTx → Option ℤ
lamport_delta wallet tx = elim (index_of wallet tx.keys) [
  | none ↦ none
  | some idx ↦ elim (get_elem? tx.pre_balances idx) [
    | none ↦ none
    | some before ↦ elim (get_elem? tx.post_balances idx) [
      | none ↦ none
      | some after ↦ some ((after -ℤ before) +ℤ (if idx == 0 then tx.fee else pos 0))
    ]
  ]
]

abbrev pub leg_delta : String → ℤ → Dict ℤ → ℤ
leg_delta mint lamports tokens =
    if str_eq mint sol_mint then lamports else lookup_or mint (pos 0) tokens

module _ (D : DecimalOps) where
  open D use {Num, of_ℤ, mul, div}

  abbrev pub leg_usd : ℤ → Option ℕ → Option Num → Option Num
  leg_usd base none mark = none
  leg_usd base (some dec) none = none
  leg_usd base (some dec) (some m) = some (mul (div (of_ℤ base) (of_ℤ (pos (10 ^ dec)))) m)

  abbrev fee_value : ℤ → Option Num → Num
  fee_value fee none = zero_d D
  fee_value fee (some m) = mul (div (of_ℤ fee) (of_ℤ (pos 1000000000))) m

  abbrev first_of : List String → Option String
  first_of [] = none
  first_of (s ∷ _) = some s

  -- Once the values of both legs and the time are known.
  abbrev pub fill_of :
      ChainTx
      → SwapRequest
      → Dict Num
      → ℤ
      → ℤ
      → Option Num
      → Option Num
      → Option ℕ
      → Option (Fill Num)
  fill_of tx req marks in_base out_base (some usd_in) (some usd_out) (some ts) = some (record {
    signature = first_of tx.signatures;
    in_mint = req.input_mint;
    out_mint = req.output_mint;
    in_base = in_base;
    out_base = out_base;
    usd_in = usd_in;
    usd_out = usd_out;
    fee_usd = fee_value tx.fee (lookup sol_mint marks);
    ts = ts;
    paper = false;
    strategy = req.strategy;
    quote_out_base = pos 0;
    round_trip_probe_pct = none;
    mode = req.mode;
  })
  fill_of tx req marks in_base out_base (some usd_in) (some usd_out) none = none
  fill_of tx req marks in_base out_base (some usd_in) none ts = none
  fill_of tx req marks in_base out_base none usd_out ts = none

  -- `none` is the `ValueError`.
  unfoldable pub realised_fill_from_tx :
      ChainTx → String → SwapRequest → Dict Num → Option (Fill Num)
  realised_fill_from_tx tx wallet req marks =
      if tx.failed then none else elim (lamport_delta wallet tx) [
        | none ↦ none
        | some lamports ↦
            let d = token_deltas wallet tx in
            let in_base = pos 0 -ℤ leg_delta req.input_mint lamports d.token_delta in
            let out_base = leg_delta req.output_mint lamports d.token_delta in
            if leb_ℤ in_base (pos 0) || leb_ℤ out_base (pos 0)
            then none
            else fill_of tx req marks in_base out_base
                (leg_usd in_base (lookup req.input_mint d.decimals) (lookup req.input_mint marks))
                (leg_usd out_base (lookup req.output_mint d.decimals)
                  (lookup req.output_mint marks))
                tx.block_time
      ]
