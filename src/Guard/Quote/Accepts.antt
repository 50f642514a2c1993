-- ===== src/Guard/Quote/Accepts.antt =====
-- What a quote that `check_quote` of src/tiller/execution/guard.py accepts is known to be.
use agent_trading.Base.{ℕ, true, false, ◌≡◌, ◌≢◌, ◌↔◌, ◌⊎◌, inl, inr, refl, none, arith}
use agent_trading.Base.Int.{pos, ◌≤ℤ◌}
use agent_trading.Base.Text.{str_in, str_eq_iff}
use agent_trading.Decimal.{DecimalOps, zero_d, one_d}
use agent_trading.Decimal.Laws.{Le}
use agent_trading.Models.{usdc_mint, SwapRequest, Order}
use agent_trading.Guard.Quote.{
  QuoteCfg, check_quote, implied_price, price_deviation_limit, impact_limit, units, Priced,
  PriceError, priced, no_price,
}

Priced-cases :
    {N : Type 0} (p : Priced N)
    → ((price : N) × (p ≡ priced price)) ⊎ ((e : PriceError) × (p ≡ no_price e))
Priced-cases (priced price) = inl (price, refl)
Priced-cases (no_price e) = inr (e, refl)

module _ (D : DecimalOps) where
  open D use {Num, sub, div, abs, leb}

  -- The USD price of the leg that is not USDC, as a relation: dollars paid over units bought, or
  -- dollars received over units sold.
  abbrev pub Prices : Order Num → SwapRequest → ℕ → ℕ → Num → Type 0
  Prices o r i j price =
      (r.input_mint ≡ usdc_mint)
        × (r.output_mint ≢ usdc_mint)
        × (price ≡ div (units D o.in_amount i) (units D o.out_amount j))
      ⊎ (r.output_mint ≡ usdc_mint)
        × (r.input_mint ≢ usdc_mint)
        × (price ≡ div (units D o.out_amount j) (units D o.in_amount i))

  -- The conditions on an accepted quote at a price.
  abbrev pub IsAcceptable : SwapRequest → Order Num → Num → ℕ → ℕ → QuoteCfg Num → Num → Type 0
  IsAcceptable req order ref i j cfg price =
      Prices order req i j price
      × (leb (units D order.in_amount i) (zero_d D) ≡ false)
      × (leb (units D order.out_amount j) (zero_d D) ≡ false)
      × (order.in_amount ≡ pos req.amount_base)
      × (pos 1 ≤ℤ order.out_amount)
      × (leb ref (zero_d D) ≡ false)
      × Le D (abs (sub (div price ref) (one_d D))) (price_deviation_limit D req cfg)
      × Le D (abs order.price_impact_pct) (impact_limit D req cfg)
      × (order.fee_bps ≤ℤ cfg.max_fee_bps)
      × (str_in order.router cfg.routers ≡ true)

  implied_price_sound :
      (order : Order Num) (req : SwapRequest) (i j : ℕ) (price : Num)
      → implied_price D order req i j ≡ priced price
      → Prices order req i j price
  unfolding implied_price
  implied_price_sound order req i j price h =
      ground (arith, str_eq_iff req.input_mint usdc_mint, str_eq_iff req.output_mint usdc_mint)

  implied_price-legs :
      (order : Order Num) (req : SwapRequest) (i j : ℕ) (price : Num)
      → implied_price D order req i j ≡ priced price
      → (leb (units D order.in_amount i) (zero_d D) ≡ false)
        × (leb (units D order.out_amount j) (zero_d D) ≡ false)
  unfolding implied_price
  implied_price-legs order req i j price h = ground arith

  implied_price_complete :
      (order : Order Num) (req : SwapRequest) (i j : ℕ) (price : Num)
      → Prices order req i j price
      → leb (units D order.in_amount i) (zero_d D) ≡ false
      → leb (units D order.out_amount j) (zero_d D) ≡ false
      → implied_price D order req i j ≡ priced price
  unfolding implied_price
  implied_price_complete order req i j price h p q =
      ground (arith, str_eq_iff req.input_mint usdc_mint, str_eq_iff req.output_mint usdc_mint)

  check_quote_price :
      (req : SwapRequest) (order : Order Num) (ref : Num) (i j : ℕ) (cfg : QuoteCfg Num)
      → check_quote D req order ref i j cfg ≡ none
      → (price : Num) × (implied_price D order req i j ≡ priced price)
  unfolding check_quote
  check_quote_price req order ref i j cfg h = elim (Priced-cases (implied_price D order req i j)) [
    | inl found ↦ found
    | inr (e, failed) ↦ ground arith
  ]

  check_quote_sound :
      (req : SwapRequest) (order : Order Num) (ref : Num) (i j : ℕ) (cfg : QuoteCfg Num)
      → check_quote D req order ref i j cfg ≡ none
      → (price : Num) × IsAcceptable req order ref i j cfg price
  unfolding check_quote
  check_quote_sound req order ref i j cfg h =
      let (price, e) = check_quote_price req order ref i j cfg h in
      let prices = implied_price_sound order req i j price e in
      let legs = implied_price-legs order req i j price e in
      (
        price,
        (
          prices,
          legs.0,
          legs.1,
          ground arith,
          ground arith,
          ground arith,
          ground arith,
          ground arith,
          ground arith,
          ground arith,
        ),
      )

  check_quote_complete :
      (req : SwapRequest) (order : Order Num) (ref : Num) (i j : ℕ) (cfg : QuoteCfg Num)
      (price : Num)
      → IsAcceptable req order ref i j cfg price
      → check_quote D req order ref i j cfg ≡ none
  unfolding check_quote
  check_quote_complete req order ref i j cfg price h =
      let e = implied_price_complete order req i j price h.0 h.1 h.2 in ground (arith, e)

  -- A quote is accepted exactly when it has a USD price for the leg that is not USDC, both legs
  -- are positive, it spends the requested amount, the price is within the limit for its mode and
  -- pair of a positive reference, impact and fee are within theirs, and its router is allowed.
  pub check_quote_iff :
      (req : SwapRequest) (order : Order Num) (ref : Num) (i j : ℕ) (cfg : QuoteCfg Num)
      → (check_quote D req order ref i j cfg ≡ none)
        ↔ ((price : Num) × IsAcceptable req order ref i j cfg price)
  check_quote_iff req order ref i j cfg = (
    check_quote_sound req order ref i j cfg,
    λ (price, h). check_quote_complete req order ref i j cfg price h,
  )
