-- ===== src/Allocator/Plan/Bounds.antt =====
-- What stands in a plan, and in which order.
use agent_trading.Base.{
  ℕ, ◌≤◌, false, ◌≡◌, inl, inr, Option, some, List, [], ◌∷◌, ◌++◌, String, arith, All, Bool-cases,
  Option-cases, ◌||◌, take, length, subst, All-take, length-take,
}
use agent_trading.Base.Text.{str_eq, str_in}
use agent_trading.Decimal.{DecimalOps, zero_d, min_d, max_d, round_down}
use agent_trading.Decimal.Laws.{DecimalLaws, Le, min-le_right, max-ge_right}
use agent_trading.Models.{usdc_mint, buy, sell}
use agent_trading.Config.{Config}
use agent_trading.Account.{AccountSnapshot}
use agent_trading.Allocator.{OrderIntent, rebalance_band_usd, current_value_usd, exit_intents}
use agent_trading.Allocator.Netting.{NettedTarget, TargetExposure, net_targets}
use agent_trading.Allocator.Plan.{
  Orders, mints_of, or_at, order_at, orders_from, insert_ascending, sort_ascending,
  insert_descending, sort_descending, cash_headroom, plan,
}

module _ (D : DecimalOps) where
  open D use {Num, leb as leb_d}

  -- A sort keeps what holds of each order.
  module _ (P : OrderIntent Num → Type 0) where
    All-insert_ascending :
        (o : OrderIntent Num) (os : List (OrderIntent Num))
        → P o
        → All P os
        → All P (insert_ascending D o os)
    unfolding insert_ascending
    All-insert_ascending o [] h k = (h, tt)
    All-insert_ascending o (p ∷ ps) h k = ground (arith, All-insert_ascending o ps h k.1)

    All-sort_ascending : (os : List (OrderIntent Num)) → All P os → All P (sort_ascending D os)
    unfolding sort_ascending
    All-sort_ascending [] h = tt
    All-sort_ascending (o ∷ os) h =
        All-insert_ascending o (sort_ascending D os) h.0 (All-sort_ascending os h.1)

    All-insert_descending :
        (o : OrderIntent Num) (os : List (OrderIntent Num))
        → P o
        → All P os
        → All P (insert_descending D o os)
    unfolding insert_descending
    All-insert_descending o [] h k = (h, tt)
    All-insert_descending o (p ∷ ps) h k = ground (arith, All-insert_descending o ps h k.1)

    All-sort_descending : (os : List (OrderIntent Num)) → All P os → All P (sort_descending D os)
    unfolding sort_descending
    All-sort_descending [] h = tt
    All-sort_descending (o ∷ os) h =
        All-insert_descending o (sort_descending D os) h.0 (All-sort_descending os h.1)

  -- An order for a mint other than USDC and those that exit already.
  abbrev pub IsFree : List String → OrderIntent Num → Type 0
  IsFree exited o = (str_eq o.mint usdc_mint ≡ false) × (str_in o.mint exited ≡ false)

  abbrev pub IsSale : List String → OrderIntent Num → Type 0
  IsSale exited o = (o.side ≡ sell) × IsFree exited o

  abbrev pub IsPurchase : List String → Num → OrderIntent Num → Type 0
  IsPurchase exited headroom o = (o.side ≡ buy) × Le D o.usd headroom × IsFree exited o

  -- The parts of a plan: the exits of `exit_intents`, then sells, then at most
  -- `max_entries_per_tick` buys, each within the USDC above the cash floor.
  pub record IsPlan (acct : AccountSnapshot Num) (cfg : Config Num) (at : ℕ)
      (os : List (OrderIntent Num)) : Type 0 where
    pub exits : List (OrderIntent Num)
    pub sells : List (OrderIntent Num)
    pub buys : List (OrderIntent Num)
    pub in_order : os ≡ exits ++ (sells ++ buys)
    pub exits_first : exit_intents D acct cfg at ≡ some exits
    pub sales : All (IsSale (mints_of exits)) sells
    pub purchases : All (IsPurchase (mints_of exits) (cash_headroom D acct cfg)) buys
    pub few : length buys ≤ cfg.risk.max_entries_per_tick

module _ (D : DecimalOps) (L : DecimalLaws D) where
  open D use {Num, quantize}

  abbrev Placed : List String → Num → Orders D → Type 0
  Placed exited headroom o =
      All (IsSale D exited) o.sells × All (IsPurchase D exited headroom) o.buys

  -- A purchase above the band is within the headroom after rounding down.
  purchase-le :
      (band delta headroom : Num)
      → Le D (zero_d D) band
      → Le D band (min_d D delta headroom)
      → Le D (quantize round_down 6 (min_d D delta headroom)) headroom
  purchase-le band delta headroom h k =
      let usd = min_d D delta headroom in
      L.leb_trans (quantize round_down 6 usd) usd headroom
        (L.quantize_down 6 usd (L.leb_trans (zero_d D) band usd h k))
        (min-le_right D L delta headroom)

  order_at-Placed :
      (acct : AccountSnapshot Num) (cfg : Config Num) (band headroom : Num) (exited : List String)
      (n : NettedTarget Num) (current : Num) (rest : Orders D)
      → Le D (zero_d D) band
      → str_eq n.mint usdc_mint ≡ false
      → str_in n.mint exited ≡ false
      → Placed exited headroom rest
      → Placed exited headroom (order_at D acct cfg band headroom n current rest)
  order_at-Placed acct cfg band headroom exited n current rest h a b k =
      let delta = D.sub (D.mul n.weight acct.equity_usd) current in
      let bound = purchase-le band delta headroom h in ground (arith, bound)

  orders_from-Placed :
      (acct : AccountSnapshot Num) (cfg : Config Num) (band headroom : Num) (exited : List String)
      (ns : List (NettedTarget Num)) (o : Orders D)
      → Le D (zero_d D) band
      → orders_from D acct cfg band headroom exited ns ≡ some o
      → Placed exited headroom o
  unfolding orders_from
  orders_from-Placed acct cfg band headroom exited [] o h e = ground arith
  orders_from-Placed acct cfg band headroom exited (n ∷ ns) o h e =
      elim (Bool-cases (str_eq n.mint usdc_mint || str_in n.mint exited)) [
        | inl skip ↦ orders_from-Placed acct cfg band headroom exited ns o h (ground arith)
        | inr keep ↦ elim (Option-cases (current_value_usd D n.mint acct cfg)) [
          | inl gone ↦ absurd (ground arith)
          | inr (current, c) ↦
              elim (Option-cases (orders_from D acct cfg band headroom exited ns)) [
                | inl gone ↦ absurd (ground arith)
                | inr (rest, r) ↦
                    let before = orders_from-Placed acct cfg band headroom exited ns rest h r in
                    let placed =
                      order_at-Placed acct cfg band headroom exited n current rest h (ground arith)
                        (ground arith) before in
                    let same : order_at D acct cfg band headroom n current rest ≡ o =
                      ground arith in
                    subst (Placed exited headroom) same placed
              ]
        ]
      ]

  band_nonneg :
      (acct : AccountSnapshot Num) (cfg : Config Num)
      → Le D (zero_d D) cfg.risk.min_order_usd
      → Le D (zero_d D) (rebalance_band_usd D acct.equity_usd cfg.risk)
  unfolding rebalance_band_usd
  band_nonneg acct cfg h =
      let size = D.mul cfg.risk.rebalance_band_pct acct.equity_usd in
      L.leb_trans (zero_d D) cfg.risk.min_order_usd (max_d D size cfg.risk.min_order_usd) h
        (max-ge_right D L size cfg.risk.min_order_usd)

  -- A plan is made of the exits, then sells, then at most `max_entries_per_tick` buys; no sell or buy
  -- is for USDC or for a mint that exits already, and each buy is within the USDC above the cash
  -- floor, where the minimum order is not negative.
  pub plan-IsPlan :
      (targets : List (TargetExposure Num)) (acct : AccountSnapshot Num) (sigma : Option Num)
      (cfg : Config Num) (now : Option ℕ) (os : List (OrderIntent Num))
      → Le D (zero_d D) cfg.risk.min_order_usd
      → plan D targets acct sigma cfg now ≡ some os
      → IsPlan D acct cfg (or_at now acct.ts) os
  unfolding plan
  plan-IsPlan targets acct sigma cfg now os h e =
      elim (Option-cases (exit_intents D acct cfg (or_at now acct.ts))) [
        | inl gone ↦ absurd (ground arith)
        | inr (exits, x) ↦
            elim (Option-cases (
              orders_from D acct cfg (rebalance_band_usd D acct.equity_usd cfg.risk)
                (cash_headroom D acct cfg) (mints_of exits) (net_targets D targets sigma cfg))) [
                  | inl gone ↦ absurd (ground arith)
                  | inr (o, f) ↦
                      let band = rebalance_band_usd D acct.equity_usd cfg.risk in
                      let placed =
                        orders_from-Placed acct cfg band (cash_headroom D acct cfg) (mints_of exits)
                          (net_targets D targets sigma cfg) o (band_nonneg acct cfg h) f in
                      let buys = sort_descending D o.buys in
                      let most = cfg.risk.max_entries_per_tick in
                      record {
                        exits = exits;
                        sells = sort_ascending D o.sells;
                        buys = take most buys;
                        in_order = ground arith;
                        exits_first = x;
                        sales = All-sort_ascending D (IsSale D (mints_of exits)) o.sells placed.0;
                        purchases =
                            let P = IsPurchase D (mints_of exits) (cash_headroom D acct cfg) in
                            All-take P most buys (All-sort_descending D P o.buys placed.1);
                        few = length-take most buys;
                      }
                ]
      ]
