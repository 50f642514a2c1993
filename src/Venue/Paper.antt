-- ===== src/Venue/Paper.antt =====
-- `PaperVenue.swap` and `FixtureVenue` of src/tiller/execution/venue.py: fills without a signer, written to
-- the ledger's book. `none` is `GuardRejected`, which leaves the book as it is.
use agent_trading.Base.{
  ℕ, ◌^◌, Bool, true, false, Option, none, some, List, [], ◌∷◌, String, if◌then◌else◌, not, ◌&&◌,
  ◌||◌, leb,
}
use agent_trading.Base.Int.{ℤ, pos, ◌*ℤ◌, ◌-ℤ◌}
use agent_trading.Base.Text.{str_eq}
use agent_trading.Base.Dict.{Dict, lookup}
use agent_trading.Base.Sort.{sort_by}
use agent_trading.Decimal.{DecimalOps, one_d, lt_d, round_down}
use agent_trading.Models.{SwapRequest, Order, Fill, usdc_mint}
use agent_trading.Guard.Quote.{check_quote}
use agent_trading.Venue.{ExecCfg, slippage_for, non_usdc_leg, floor_bps, units}
use agent_trading.Venue.Swap.{GuardCfg, is_entry, is_none}
use agent_trading.Ledger.Fills.{Book, record_fill}

-- `Candle`, with the open only.
pub record Candle (N : Type 0) : Type 0 where
  pub ts : ℕ
  pub open_price : N

module _ (D : DecimalOps) where
  open D use {Num, of_ℤ, sub, mul, div, quantize, to_integral}

  -- What the services answer a paper swap.
  pub record PaperNet : Type 0 where
    pub now : ℕ
    pub gate_ok : Bool
    pub decimals : String → ℕ
    pub order : ℕ → Order Num
    pub round_trip_cost : String → Num → Num

  -- `order.out_amount * (10_000 - haircut_bps) // 10_000`
  abbrev pub haircut : ℤ → ℕ → ℤ
  haircut out_amount bps = floor_bps (out_amount *ℤ (pos 10000 -ℤ pos bps))

  -- `marks[mint]`
  abbrev mark_of : String → Num → Num
  mark_of mint ref = if str_eq mint usdc_mint then one_d D else ref

  -- `probe`
  abbrev probe_of : Bool → String → PaperNet → Order Num → Option Num
  probe_of entry leg net order =
      if entry then some (net.round_trip_cost leg (units D order.in_amount 6)) else none

  abbrev is_above : Num → Option Num → Bool
  is_above bound none = false
  is_above bound (some p) = lt_d D bound p

  unfoldable pub paper_fill : SwapRequest → Num → ℕ → PaperNet → Order Num → Option Num → Fill Num
  paper_fill req ref bps net order probe =
      let out_base = haircut order.out_amount bps in
      let in_dec = net.decimals req.input_mint in
      let out_dec = net.decimals req.output_mint in
      record {
        signature = none;
        in_mint = req.input_mint;
        out_mint = req.output_mint;
        in_base = order.in_amount;
        out_base = out_base;
        usd_in = mul (units D order.in_amount in_dec) (mark_of req.input_mint ref);
        usd_out = mul (units D out_base out_dec) (mark_of req.output_mint ref);
        fee_usd =
            mul (units D (order.out_amount -ℤ out_base) out_dec) (mark_of req.output_mint ref);
        ts = net.now;
        paper = true;
        strategy = req.strategy;
        quote_out_base = order.out_amount;
        round_trip_probe_pct = probe;
        mode = req.mode;
      }

  abbrev recorded : Fill Num → Book Num → Option (Fill Num × Book Num)
  recorded f b = some (f, record_fill D f b)

  -- Once the pair is known.
  abbrev paper_swap_leg :
      SwapRequest
      → Num
      → ExecCfg Num
      → GuardCfg D
      → ℕ
      → PaperNet
      → Book Num
      → String
      → Option (Fill Num × Book Num)
  paper_swap_leg req ref cfg guard bps net b leg =
      let order = net.order (slippage_for req cfg) in
      let entry = is_entry D req cfg in
      let checked =
        check_quote D req order ref (net.decimals req.input_mint) (net.decimals req.output_mint)
          guard.quotes in
      let probe = probe_of entry leg net order in
      if (entry && not net.gate_ok)
        || not (is_none D checked)
        || is_above cfg.max_round_trip_token probe
      then none
      else recorded (paper_fill req ref bps net order probe) b

  unfoldable pub paper_swap :
      SwapRequest
      → Num
      → ExecCfg Num
      → GuardCfg D
      → ℕ
      → PaperNet
      → Book Num
      → Option (Fill Num × Book Num)
  paper_swap req ref cfg guard bps net b = elim (non_usdc_leg req) [
    | none ↦ none
    | some leg ↦ paper_swap_leg req ref cfg guard bps net b leg
  ]

  -- The first bar at or after an instant.
  unfoldable pub bar_from : ℕ → List (Candle Num) → Option (Candle Num)
  bar_from now [] = none
  bar_from now (c ∷ cs) = if leb now c.ts then some c else bar_from now cs

  unfoldable pub next_open : Dict (List (Candle Num)) → String → ℕ → Option (Candle Num)
  next_open bars mint now = elim (lookup mint bars) [
    | none ↦ none
    | some cs ↦ bar_from now (sort_by (λ (a : Candle Num) (c : Candle Num). leb a.ts c.ts) cs)
  ]

  -- `_base`: towards zero, to a whole number.
  abbrev base_of : Num → ℕ → ℤ
  base_of amount decimals =
      to_integral (quantize round_down 0 (mul amount (of_ℤ (pos (10 ^ decimals)))))

  -- The legs at the open of a bar: what comes out with and without the cost, and the values.
  abbrev fixture_fill : SwapRequest → Candle Num → ℤ → ℤ → Num → Num → Num → Fill Num
  fixture_fill req bar out_base quote_out usd_in usd_out cost = record {
    signature = none;
    in_mint = req.input_mint;
    out_mint = req.output_mint;
    in_base = pos req.amount_base;
    out_base = out_base;
    usd_in = usd_in;
    usd_out = usd_out;
    fee_usd = mul usd_in cost;
    ts = bar.ts;
    paper = true;
    strategy = req.strategy;
    quote_out_base = quote_out;
    round_trip_probe_pct = none;
    mode = req.mode;
  }

  abbrev fixture_buy : SwapRequest → Num → Candle Num → ℕ → Fill Num
  fixture_buy req cost bar leg_dec =
      let usd_in = units D (pos req.amount_base) 6 in
      let gross = div usd_in bar.open_price in
      let out = mul gross (sub (one_d D) cost) in
      fixture_fill req bar (base_of out leg_dec) (base_of gross leg_dec) usd_in
        (mul out bar.open_price) cost

  abbrev fixture_sell : SwapRequest → Num → Candle Num → ℕ → Fill Num
  fixture_sell req cost bar leg_dec =
      let gross = mul (units D (pos req.amount_base) leg_dec) bar.open_price in
      let out = mul gross (sub (one_d D) cost) in
      fixture_fill req bar (base_of out 6) (base_of gross 6) gross out cost

  abbrev fixture_swap_at :
      SwapRequest → Num → Book Num → Option (Candle Num) → Option ℕ → Option (Fill Num × Book Num)
  fixture_swap_at req cost b none leg_dec = none
  fixture_swap_at req cost b (some bar) none = none
  fixture_swap_at req cost b (some bar) (some leg_dec) =
      if str_eq req.input_mint usdc_mint
      then recorded (fixture_buy req cost bar leg_dec) b
      else recorded (fixture_sell req cost bar leg_dec) b

  -- `FixtureVenue.swap`
  unfoldable pub fixture_swap :
      SwapRequest
      → ℕ
      → Dict (List (Candle Num))
      → Dict ℕ
      → ℕ
      → Book Num
      → Option (Fill Num × Book Num)
  fixture_swap req cost_bps bars decimals now b = elim (non_usdc_leg req) [
    | none ↦ none
    | some leg ↦
        fixture_swap_at req (div (of_ℤ (pos cost_bps)) (of_ℤ (pos 10000))) b
          (next_open bars leg now) (lookup leg decimals)
  ]
