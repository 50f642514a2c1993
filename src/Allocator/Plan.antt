-- ===== src/Allocator/Plan.antt =====
-- `plan` of src/tiller/portfolio/allocator.py: exits, then sells, then the largest buys. A label is
-- the list of its strategies, whose sorted distinct members the source joins with "+".
pub mod Bounds
use agent_trading.Base.{
  ℕ, Bool, true, false, Option, none, some, List, [], ◌∷◌, ◌++◌, String, if◌then◌else◌, not, ◌&&◌,
  ◌||◌, take, map,
}
use agent_trading.Base.Int.{ℤ, pos, ltb_ℤ}
use agent_trading.Base.Text.{str_eq, str_in}
use agent_trading.Decimal.{DecimalOps, zero_d, min_d, lt_d, round_down}
use agent_trading.Models.{usdc_mint, buy, sell, Position}
use agent_trading.Config.{Config}
use agent_trading.Account.{AccountSnapshot}
use agent_trading.Allocator.{
  OrderIntent, rebalance_band_usd, cash_floor_fraction, current_value_usd, tradeable_base,
  exit_intents,
}
use agent_trading.Allocator.Netting.{NettedTarget, TargetExposure, net_targets}

abbrev pub core_strategy : String
core_strategy = "core"

abbrev strategy_label : List String → String → String → List String
strategy_label strategies hold mint = if str_eq mint hold then core_strategy ∷ [] else strategies

module _ {N : Type 0} where
  -- `any(p.mint == mint and p.amount_base > 0 for p in acct.positions)`
  unfoldable pub is_booked : String → List (Position N) → Bool
  is_booked mint [] = false
  is_booked mint (p ∷ ps) = (str_eq p.mint mint && ltb_ℤ (pos 0) p.amount_base) || is_booked mint ps

  -- `{e.mint for e in exits}`
  abbrev pub mints_of : List (OrderIntent N) → List String
  mints_of [] = []
  mints_of (o ∷ os) = o.mint ∷ mints_of os

-- `or`, for an instant.
abbrev pub or_at : Option ℕ → ℕ → ℕ
or_at none ts = ts
or_at (some t) ts = t

module _ (D : DecimalOps) where
  open D use {Num, of_ℤ, sub, mul, leb as leb_d, quantize}

  -- `-x`
  abbrev pub neg_d : Num → Num
  neg_d x = sub (zero_d D) x

  -- The two lists that the loop fills.
  pub record Orders : Type 0 where
    pub sells : List (OrderIntent Num)
    pub buys : List (OrderIntent Num)

  abbrev buy_of : NettedTarget Num → List String → Num → OrderIntent Num
  buy_of n label usd = record {
    mint = n.mint;
    side = buy;
    usd = quantize round_down 6 usd;
    strategy = label;
    exit = n.exit;
    is_exit = false;
    amount_base = none;
  }

  abbrev sell_of : NettedTarget Num → List String → Num → Bool → ℤ → OrderIntent Num
  sell_of n label delta full base = record {
    mint = n.mint;
    side = sell;
    usd = neg_d delta;
    strategy = label;
    exit = none;
    is_exit = full;
    amount_base = if full then some base else none;
  }

  -- A zero target of a holding worth the minimum order, or booked.
  abbrev is_full : Num → Num → Num → Bool → Bool
  is_full weight current min_order booked =
      (leb_d weight (zero_d D) && leb_d (zero_d D) weight)
      && lt_d D (zero_d D) current
      && (leb_d min_order current || booked)

  -- The body of the loop after the value of the holding is known.
  abbrev pub order_at :
      AccountSnapshot Num → Config Num → Num → Num → NettedTarget Num → Num → Orders → Orders
  order_at acct cfg band headroom n current rest =
      let delta = sub (mul n.weight acct.equity_usd) current in
      let label = strategy_label n.strategies cfg.hold_mint n.mint in
      let full =
        is_full n.weight current cfg.risk.min_order_usd (is_booked n.mint acct.positions) in
      let usd = min_d D delta headroom in
      if leb_d delta (neg_d band) || full
      then record rest {
        sells = sell_of n label delta full (tradeable_base D n.mint acct cfg) ∷ rest.sells;
      }
      else (if leb_d band delta && not (lt_d D usd band)
          then record rest { buys = buy_of n label usd ∷ rest.buys }
          else rest)

  abbrev pub order_with :
      AccountSnapshot Num
      → Config Num
      → Num
      → Num
      → NettedTarget Num
      → Option Num
      → Option Orders
      → Option Orders
  order_with acct cfg band headroom n none rest = none
  order_with acct cfg band headroom n (some current) none = none
  order_with acct cfg band headroom n (some current) (some rest) =
      some (order_at acct cfg band headroom n current rest)

  -- The loop over the netted targets; `none` is the `KeyError` of a value.
  unfoldable pub orders_from :
      AccountSnapshot Num
      → Config Num
      → Num
      → Num
      → List String
      → List (NettedTarget Num)
      → Option Orders
  orders_from acct cfg band headroom exited [] = some (record { sells = []; buys = [] })
  orders_from acct cfg band headroom exited (n ∷ ns) =
      let rest = orders_from acct cfg band headroom exited ns in
      if str_eq n.mint usdc_mint || str_in n.mint exited
      then rest
      else order_with acct cfg band headroom n (current_value_usd D n.mint acct cfg) rest

  -- `sort(key=lambda o: o.usd)`; both sorts keep the order of equal keys.
  unfoldable pub insert_ascending :
      OrderIntent Num → List (OrderIntent Num) → List (OrderIntent Num)
  insert_ascending o [] = o ∷ []
  insert_ascending o (p ∷ ps) = if leb_d o.usd p.usd then o ∷ p ∷ ps else p ∷ insert_ascending o ps

  unfoldable pub sort_ascending : List (OrderIntent Num) → List (OrderIntent Num)
  sort_ascending [] = []
  sort_ascending (o ∷ os) = insert_ascending o (sort_ascending os)

  -- `sort(key=lambda o: o.usd, reverse=True)`
  unfoldable pub insert_descending :
      OrderIntent Num → List (OrderIntent Num) → List (OrderIntent Num)
  insert_descending o [] = o ∷ []
  insert_descending o (p ∷ ps) =
      if leb_d p.usd o.usd then o ∷ p ∷ ps else p ∷ insert_descending o ps

  unfoldable pub sort_descending : List (OrderIntent Num) → List (OrderIntent Num)
  sort_descending [] = []
  sort_descending (o ∷ os) = insert_descending o (sort_descending os)

  -- USDC above the cash floor.
  unfoldable pub cash_headroom : AccountSnapshot Num → Config Num → Num
  cash_headroom acct cfg = sub acct.usdc_usd (mul (cash_floor_fraction D cfg) acct.equity_usd)

  abbrev pub joined :
      Config Num → List (OrderIntent Num) → Option Orders → Option (List (OrderIntent Num))
  joined cfg exits none = none
  joined cfg exits (some o) = some (
      exits
      ++ (sort_ascending o.sells ++ take cfg.risk.max_entries_per_tick (sort_descending o.buys)))

  unfoldable pub plan :
      List (TargetExposure Num)
      → AccountSnapshot Num
      → Option Num
      → Config Num
      → Option ℕ
      → Option (List (OrderIntent Num))
  plan targets acct sigma cfg now =
      let band = rebalance_band_usd D acct.equity_usd cfg.risk in
      let netted = net_targets D targets sigma cfg in
      elim (exit_intents D acct cfg (or_at now acct.ts)) [
        | none ↦ none
        | some exits ↦
            joined cfg exits
              (orders_from acct cfg band (cash_headroom acct cfg) (mints_of exits) netted)
      ]
