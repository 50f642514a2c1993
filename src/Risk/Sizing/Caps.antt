-- ===== src/Risk/Sizing/Caps.antt =====
-- The size of an entry is within every cap.
use agent_trading.Base.{
  true, false, ◌≡◌, ◌≢◌, subst, inl, inr, Option, none, some, List, [], ◌∷◌, ◌++◌, arith, All,
  All-split, Bool-cases, Option-cases, if_intro, if◌then◌else◌,
}
use agent_trading.Base.Text.{str_in, str_eq_iff}
use agent_trading.Models.{sol_mint, usdc_mint}
use agent_trading.Decimal.{DecimalOps, zero_d, one_d, lt_d, half_even}
use agent_trading.Decimal.Laws.{DecimalLaws, Le}
use agent_trading.Allocator.{OrderIntent, current_value_usd}
use agent_trading.Risk.Sizing.{
  Cap, SizedOrder, SizeInputs, target, max_token_pct, pool_liquidity, max_position, daily_limit,
  sleeve_budget, cap_of, stop_caps, min_cap, caps_of, reads_value, ramped, size_from, size_order,
}

module _ (D : DecimalOps) (L : DecimalLaws D) where
  open D use {Num, literal, sub, mul, div, quantize}

  min_cap-le :
      (best : Cap × Num) (cs : List (Cap × Num))
      → Le D (min_cap D best cs).1 best.1 × All (λ c. Le D (min_cap D best cs).1 c.1) cs
  unfolding min_cap
  min_cap-le best [] = (L.leb_refl best.1, tt)
  min_cap-le best (c ∷ cs) =
      if_intro
        (λ b.
          Le D (min_cap D b cs).1 best.1
          × (Le D (min_cap D b cs).1 c.1 × All (λ d. Le D (min_cap D b cs).1 d.1) cs))
        (lt_d D c.1 best.1) c best
        (λ e.
          let (first, rest) = min_cap-le c cs in
          (
            L.leb_trans (min_cap D c cs).1 c.1 best.1 first (L.leb_total best.1 c.1 (ground arith)),
            (first, rest),
          ))
        (λ e.
          let (first, rest) = min_cap-le best cs in
          (first, (L.leb_trans (min_cap D best cs).1 best.1 c.1 first (ground arith), rest)))

  -- The caps, one by one: the intent, 1% of equity at risk at 1.5 times the stop, what the token cap and
  -- the position limit leave over the value held, 1% of the pool, what the daily limit leaves over the
  -- purchases of the day, and the budget of the sleeve.
  pub record IsWithin (o : OrderIntent Num) (i : SizeInputs D) (x : Num) : Type 0 where
    pub of_intent : Le D x o.usd
    pub of_stop :
        (stop : Num)
        → i.stop_pct ≡ some stop
        → D.leb stop (zero_d D) ≡ false
        → Le D x (div (mul i.acct.equity_usd (literal 1 2)) (mul stop (literal 15 1)))
    pub of_token :
        o.mint ≢ i.cfg.hold_mint
        → o.mint ≢ sol_mint
        → o.mint ≢ usdc_mint
        → (held : Num) × (current_value_usd D o.mint i.acct i.cfg ≡ some held)
          × Le D x (sub (mul i.cfg.risk.max_token_pct i.acct.equity_usd) held)
    pub of_pool : (pool : Num) → i.pool_liquidity_usd ≡ some pool → Le D x (mul pool (literal 1 2))
    pub of_position :
        (limit : Num)
        → i.limits.max_position_usd ≡ some limit
        → (held : Num) × (current_value_usd D o.mint i.acct i.cfg ≡ some held)
          × Le D x (sub limit held)
    pub of_day :
        (limit : Num) → i.limits.daily_limit_usd ≡ some limit → Le D x (sub limit i.day.buys_usd)
    pub of_sleeve : (budget : Num) → i.sleeve_budget_usd ≡ some budget → Le D x budget

  -- `base` is the size before the ramp, `exact` the size before it is rounded to millionths of a dollar.
  pub record IsSized (o : OrderIntent Num) (i : SizeInputs D) (s : SizedOrder Num) : Type 0 where
    pub base : Num
    pub exact : Num
    pub within : IsWithin o i base
    pub slowed : D.leb (one_d D) i.limits.multiplier ≡ false → exact ≡ mul base i.limits.multiplier
    pub whole : Le D (one_d D) i.limits.multiplier → exact ≡ base
    pub smaller : Le D exact base
    pub enough : Le D i.cfg.risk.min_order_usd exact
    pub rounded : s.usd ≡ quantize half_even 6 exact

  cap_of-at :
      (x : Num) (cap : Cap) (f : Num → Num) (o : Option Num) (y : Num)
      → All (λ c. Le D x c.1) (cap_of D cap f o)
      → o ≡ some y
      → Le D x (f y)
  cap_of-at x cap f none y h e = cc
  cap_of-at x cap f (some z) y h e = ground (arith, h.0, e)

  stop_caps-at :
      (x equity : Num) (o : Option Num) (stop : Num)
      → All (λ c. Le D x c.1) (stop_caps D equity o)
      → o ≡ some stop
      → D.leb stop (zero_d D) ≡ false
      → Le D x (div (mul equity (literal 1 2)) (mul stop (literal 15 1)))
  stop_caps-at x equity none stop h e p = cc
  stop_caps-at x equity (some z) stop h e p =
      let same : z ≡ stop = ground arith in
      let positive : D.leb z (zero_d D) ≡ false = ground arith in
      subst (λ t. Le D x (div (mul equity (literal 1 2)) (mul t (literal 15 1)))) same
        ((rw positive at h).0)

  -- A mint that is none of the three has the token cap.
  not_core :
      (o : OrderIntent Num) (i : SizeInputs D)
      → o.mint ≢ i.cfg.hold_mint
      → o.mint ≢ sol_mint
      → o.mint ≢ usdc_mint
      → str_in o.mint (i.cfg.hold_mint ∷ sol_mint ∷ usdc_mint ∷ []) ≡ false
  not_core o i h s u = ground (
    arith,
    h,
    s,
    u,
    str_eq_iff o.mint i.cfg.hold_mint,
    str_eq_iff o.mint sol_mint,
    str_eq_iff o.mint usdc_mint,
  )

  abbrev token_caps : OrderIntent Num → SizeInputs D → Num → List (Cap × Num)
  token_caps o i held =
      if str_in o.mint (i.cfg.hold_mint ∷ sol_mint ∷ usdc_mint ∷ [])
      then []
      else (max_token_pct, sub (mul i.cfg.risk.max_token_pct i.acct.equity_usd) held) ∷ []

  token_caps-at :
      (o : OrderIntent Num) (i : SizeInputs D) (held x : Num)
      → str_in o.mint (i.cfg.hold_mint ∷ sol_mint ∷ usdc_mint ∷ []) ≡ false
      → All (λ c. Le D x c.1) (token_caps o i held)
      → Le D x (sub (mul i.cfg.risk.max_token_pct i.acct.equity_usd) held)
  token_caps-at o i held x other h = (rw other at h).0

  caps_of-IsWithin :
      (o : OrderIntent Num) (i : SizeInputs D) (held x : Num)
      → All (λ c. Le D x c.1) (caps_of D o i held)
      → (reads_value D o i ≡ true → current_value_usd D o.mint i.acct i.cfg ≡ some held)
      → IsWithin o i x
  unfolding caps_of
  caps_of-IsWithin o i held x h known =
      let of_limit : List (Cap × Num) =
        cap_of D max_position (λ z. sub z held) i.limits.max_position_usd in
      let of_days : List (Cap × Num) =
        cap_of D daily_limit (λ z. sub z i.day.buys_usd) i.limits.daily_limit_usd in
      let of_sleeves : List (Cap × Num) = cap_of D sleeve_budget (λ z. z) i.sleeve_budget_usd in
      let of_pools : List (Cap × Num) =
        cap_of D pool_liquidity (λ z. mul z (literal 1 2)) i.pool_liquidity_usd in
      let (stops, h1) =
        All-split (λ c. Le D x c.1) (stop_caps D i.acct.equity_usd i.stop_pct)
          (token_caps o i held ++ (of_pools ++ (of_limit ++ (of_days ++ of_sleeves)))) h.1 in
      let (tokens, h2) =
        All-split (λ c. Le D x c.1) (token_caps o i held)
          (of_pools ++ (of_limit ++ (of_days ++ of_sleeves))) h1 in
      let (pools, h3) =
        All-split (λ c. Le D x c.1) of_pools (of_limit ++ (of_days ++ of_sleeves)) h2 in
      let (limits, h4) = All-split (λ c. Le D x c.1) of_limit (of_days ++ of_sleeves) h3 in
      let (days, sleeves) = All-split (λ c. Le D x c.1) of_days of_sleeves h4 in
      record {
        of_intent = h.0;
        of_stop = λ stop e p. stop_caps-at x i.acct.equity_usd i.stop_pct stop stops e p;
        of_token = λ a b c.
            let other = not_core o i a b c in
            (held, known (ground (arith, other)), token_caps-at o i held x other tokens);
        of_pool = λ y e. cap_of-at x pool_liquidity (λ z. mul z (literal 1 2)) _ y pools e;
        of_position = λ y e. (
          held,
          known (ground (arith, e)),
          cap_of-at x max_position (λ z. sub z held) _ y limits e,
        );
        of_day = λ y e. cap_of-at x daily_limit (λ z. sub z i.day.buys_usd) _ y days e;
        of_sleeve = λ y e. cap_of-at x sleeve_budget (λ z. z) _ y sleeves e;
      }

  -- A ramp does not enlarge a size that is at least the minimum order.
  ramped-le :
      (m min_order : Num) (best : Cap × Num)
      → Le D (zero_d D) m
      → D.leb min_order (zero_d D) ≡ false
      → Le D min_order (ramped D m best).1
      → Le D (ramped D m best).1 best.1
  ramped-le m min_order best h positive enough = elim (Bool-cases (lt_d D m (one_d D))) [
    | inr e ↦ rw e (L.leb_refl best.1)
    | inl e ↦
        let reaches : Le D min_order (mul best.1 m) = ground arith in
        elim (Bool-cases (D.leb best.1 (zero_d D))) [
          | inl low ↦
              let gone =
                L.leb_trans min_order (mul best.1 m) (zero_d D) reaches
                  (L.mul_nonpos best.1 m low h) in
              absurd (ground arith)
          | inr high ↦ rw e (
              L.mul_le best.1 m (L.leb_total best.1 (zero_d D) high)
                (L.leb_total (one_d D) m (ground arith)))
        ]
  ]

  size_from-IsSized :
      (o : OrderIntent Num) (i : SizeInputs D) (held : Num) (s : SizedOrder Num)
      → Le D (zero_d D) i.limits.multiplier
      → D.leb i.cfg.risk.min_order_usd (zero_d D) ≡ false
      → (reads_value D o i ≡ true → current_value_usd D o.mint i.acct i.cfg ≡ some held)
      → size_from D o i held ≡ some s
      → IsSized o i s
  unfolding size_from
  size_from-IsSized o i held s h positive known e =
      let min_order = i.cfg.risk.min_order_usd in
      let best = min_cap D (target, o.usd) (caps_of D o i held) in
      let exact = (ramped D i.limits.multiplier best).1 in
      let enough : Le D min_order exact = ground arith in
      record {
        base = best.1;
        exact = exact;
        within =
            caps_of-IsWithin o i held best.1 (min_cap-le (target, o.usd) (caps_of D o i held)).1
              known;
        slowed = λ m. ground arith;
        whole = λ m. ground arith;
        smaller = ramped-le i.limits.multiplier min_order best h positive enough;
        enough = enough;
        rounded = ground arith;
      }

  -- Where the multiplier is not negative and the minimum order is positive, a size that comes out is the
  -- rounding to millionths of an amount that is at least the minimum order, and that is an amount within
  -- the intent, 1% of equity at risk at 1.5 times the stop, the room of the token cap over the value
  -- held (for mints other than the hold mint, SOL and USDC), 1% of the pool, the room of the position
  -- limit over the value held, that of the daily limit over the purchases of the day and the budget of
  -- the sleeve, each where it is given, times the multiplier where that is below one.
  pub size_order-IsSized :
      (o : OrderIntent Num) (i : SizeInputs D) (s : SizedOrder Num)
      → Le D (zero_d D) i.limits.multiplier
      → D.leb i.cfg.risk.min_order_usd (zero_d D) ≡ false
      → size_order D o i ≡ some (some s)
      → IsSized o i s
  unfolding size_order
  size_order-IsSized o i s h positive e = elim (Bool-cases (reads_value D o i)) [
    | inr unread ↦
        size_from-IsSized o i (zero_d D) s h positive (λ r. cc (r, unread)) (ground (arith, unread))
    | inl r ↦ elim (Option-cases (current_value_usd D o.mint i.acct i.cfg)) [
      | inl missing ↦ cc (rw (r, missing) at e)
      | inr (held, found) ↦
          size_from-IsSized o i held s h positive (λ _. found) (ground (arith, r, found))
    ]
  ]
