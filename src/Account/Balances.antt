-- ===== src/Account/Balances.antt =====
-- The balances of src/tiller/risk/account.py against sums over the ledger's rows.
use agent_trading.Base.{
  Bool, true, false, ◌≡◌, ◌≢◌, refl, ap, sym, ◌∙◌, List, [], ◌∷◌, String, arith, if◌then◌else◌,
  Bool-cases, inl, inr,
}
use agent_trading.Base.Int.{ℤ, pos, ◌+ℤ◌, ◌-ℤ◌, int_laws, +ℤ_parts}
use agent_trading.Base.Text.{str_eq, str_eq_iff}
use agent_trading.Base.Dict.{Dict, lookup_or, lookup_or-insert, IsDict, insert-IsDict}
use agent_trading.Models.{usdc_mint}
use agent_trading.Account.{
  Transfer, Legs, adjust, apply_transfers, apply_fills, positive_holdings, paper_balances, max_zero,
}

-- What a transfer and a fill bring of a mint, signed.
abbrev pub transfer_delta : String → Transfer → ℤ
transfer_delta m t =
    if str_eq t.mint m then (if t.is_in then t.amount_base else pos 0 -ℤ t.amount_base) else pos 0

abbrev pub fill_delta : String → Legs → ℤ
fill_delta m f =
    if f.paper
    then (if str_eq f.out_mint m then f.out_base else pos 0)
      -ℤ (if str_eq f.in_mint m then f.in_base else pos 0)
    else pos 0

-- The sums over all rows.
abbrev pub transfers_net : String → List Transfer → ℤ
transfers_net m [] = pos 0
transfers_net m (t ∷ ts) = transfer_delta m t +ℤ transfers_net m ts

abbrev pub fills_net : String → List Legs → ℤ
fills_net m [] = pos 0
fills_net m (f ∷ fs) = fill_delta m f +ℤ fills_net m fs

abbrev pub balance : String → Dict ℤ → ℤ
balance m d = lookup_or m (pos 0) d

+ℤ_zero : (a : ℤ) → a ≡ a +ℤ pos 0
+ℤ_zero a = omega int_laws

pub balance-adjust :
    (m k : String) (x : ℤ) (d : Dict ℤ)
    → balance m (adjust k x d) ≡ balance m d +ℤ (if str_eq k m then x else pos 0)
balance-adjust m k x d =
    lookup_or-insert k m (lookup_or k (pos 0) d +ℤ x) (pos 0) d
    ∙ ground (arith, str_eq_iff k m, +ℤ_zero (lookup_or m (pos 0) d))

apply_transfers-net :
    (m : String) (ts : List Transfer) (d : Dict ℤ)
    → balance m (apply_transfers ts d) ≡ balance m d +ℤ transfers_net m ts
unfolding apply_transfers
apply_transfers-net m [] d = +ℤ_zero (balance m d)
apply_transfers-net m (t ∷ ts) d =
    let x = if t.is_in then t.amount_base else pos 0 -ℤ t.amount_base in
    apply_transfers-net m ts (adjust t.mint x d)
    ∙ ap (λ b. b +ℤ transfers_net m ts) (balance-adjust m t.mint x d)
    ∙ omega (int_laws, +ℤ_parts (balance m d) (if str_eq t.mint m then x else pos 0))

regroup :
    (b got : ℤ) (t : Bool) (x rest : ℤ)
    → b +ℤ (if t then pos 0 -ℤ x else pos 0) +ℤ got +ℤ rest
      ≡ b +ℤ (got -ℤ (if t then x else pos 0) +ℤ rest)
regroup b got true x rest = omega int_laws
regroup b got false x rest = omega int_laws

apply_fills-net :
    (m : String) (fs : List Legs) (d : Dict ℤ)
    → balance m (apply_fills fs d) ≡ balance m d +ℤ fills_net m fs
unfolding apply_fills
apply_fills-net m [] d = +ℤ_zero (balance m d)
apply_fills-net m (f ∷ fs) d = elim (Bool-cases f.paper) [
  | inl e ↦
      let d' = adjust f.in_mint (pos 0 -ℤ f.in_base) d in
      let got = if str_eq f.out_mint m then f.out_base else pos 0 in
      let paid = if str_eq f.in_mint m then pos 0 -ℤ f.in_base else pos 0 in
      rw e (
        apply_fills-net m fs (adjust f.out_mint f.out_base d')
        ∙ ap (λ b. b +ℤ fills_net m fs)
            (balance-adjust m f.out_mint f.out_base d'
              ∙ ap (λ b. b +ℤ got) (balance-adjust m f.in_mint (pos 0 -ℤ f.in_base) d))
        ∙ regroup (balance m d) got (str_eq f.in_mint m) f.in_base (fills_net m fs))
  | inr e ↦ rw e (apply_fills-net m fs d ∙ omega int_laws)
]

-- A dict without repeated keys, filtered.
positive_holdings-lookup :
    (m : String) (d : Dict ℤ)
    → IsDict d
    → m ≢ usdc_mint
    → lookup_or m (pos 0) (positive_holdings d) ≡ max_zero (lookup_or m (pos 0) d)
unfolding positive_holdings
positive_holdings-lookup m [] h ne = refl
positive_holdings-lookup m ((k, b) ∷ d) h ne =
    ground (arith, positive_holdings-lookup m d h.1 ne, str_eq_iff k m, str_eq_iff k usdc_mint)

apply_transfers-IsDict :
    (ts : List Transfer) (d : Dict ℤ) → IsDict d → IsDict (apply_transfers ts d)
unfolding apply_transfers
apply_transfers-IsDict [] d h = h
apply_transfers-IsDict (t ∷ ts) d h = apply_transfers-IsDict ts _ (insert-IsDict t.mint _ d h)

apply_fills-IsDict : (fs : List Legs) (d : Dict ℤ) → IsDict d → IsDict (apply_fills fs d)
unfolding apply_fills
apply_fills-IsDict [] d h = h
apply_fills-IsDict (f ∷ fs) d h = elim (Bool-cases f.paper) [
  | inl e ↦
      rw e (apply_fills-IsDict fs _ (insert-IsDict f.out_mint _ _ (insert-IsDict f.in_mint _ d h)))
  | inr e ↦ rw e (apply_fills-IsDict fs d h)
]

-- The paper book of a mint is what transfers and paper fills bring of it, net, and never below 0:
-- for USDC in the first part of the result, for any other mint in its holdings.
pub paper_balances-net :
    (m : String) (ts : List Transfer) (fs : List Legs)
    → (m ≡ usdc_mint → (paper_balances ts fs).0 ≡ max_zero (transfers_net m ts +ℤ fills_net m fs))
      × (m ≢ usdc_mint
          → lookup_or m (pos 0) (paper_balances ts fs).1
            ≡ max_zero (transfers_net m ts +ℤ fills_net m fs))
unfolding paper_balances
paper_balances-net m ts fs =
    let book = apply_transfers ts [] in
    let all = apply_fills fs book in
    let total : lookup_or m (pos 0) all ≡ transfers_net m ts +ℤ fills_net m fs =
      apply_fills-net m fs book
      ∙ ap (λ b. b +ℤ fills_net m fs) (apply_transfers-net m ts [])
      ∙ omega int_laws in
    (
      (λ e. ap (λ k. max_zero (lookup_or k (pos 0) all)) (sym e) ∙ ap max_zero total),
      (λ ne.
          positive_holdings-lookup m all
            (apply_fills-IsDict fs book (apply_transfers-IsDict ts [] tt)) ne
          ∙ ap max_zero total),
    )
