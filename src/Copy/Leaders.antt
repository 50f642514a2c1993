-- ===== src/Copy/Leaders.antt =====
-- Round trips, the sticky pool and demotion of src/tiller/copy/leaders.py, and the effective pool of
-- src/tiller/copy/pool.py.
use agent_trading.Base.{
  ℕ, suc, ◌+◌, ◌*◌, ◌/◌, Bool, true, false, Option, none, some, List, [], ◌∷◌, ◌++◌, String,
  if◌then◌else◌, not, ◌&&◌, ◌||◌, leb, ltb, filter, map, take,
}
use agent_trading.Base.Text.{str_eq, str_in, is_text}
use agent_trading.Base.Dict.{Dict, lookup, lookup_or, insert}
use agent_trading.Base.Sort.{sort_by}
use agent_trading.Base.Sets.{str_le, sorted_set}
use agent_trading.Decimal.{DecimalOps, zero_d, one_d, min_d, max_d, lt_d, sum_d}
use agent_trading.Models.{buy, sell}
use agent_trading.Ledger.Days.{day_length}
use agent_trading.Ledger.Tables.{LeaderTrade, traded_before}
use agent_trading.Copy.{LeaderScore}

pub record RoundTrip (N : Type 0) : Type 0 where
  pub mint : String
  pub buy_ts : ℕ
  pub sell_ts : ℕ
  pub amount : N
  pub buy_usd : N
  pub sell_usd : N

-- An open lot: its time, amount and cost.
pub record Lot (N : Type 0) : Type 0 where
  pub ts : ℕ
  pub amount : N
  pub usd : N

module _ (D : DecimalOps) where
  open D use {Num, sub, mul, div, add, leb as leb_d}

  -- The inner loop over the lots of a mint: what is closed, and the lots that are left. A turn removes a
  -- lot or uses up the sale.
  unfoldable pub close_lots :
      String → ℕ → Num → Num → List (Lot Num) → List (RoundTrip Num) × List (Lot Num)
  close_lots mint ts remaining usd_remaining [] = ([], [])
  close_lots mint ts remaining usd_remaining (lot ∷ lots) =
      let taken = min_d D remaining lot.amount in
      let sell_usd = mul usd_remaining (div taken remaining) in
      let buy_usd =
        if lt_d D (zero_d D) lot.amount then mul lot.usd (div taken lot.amount) else zero_d D in
      let (closed, left) =
        close_lots mint ts (sub remaining taken) (sub usd_remaining sell_usd) lots in
      let trip : RoundTrip Num = record {
        mint = mint;
        buy_ts = lot.ts;
        sell_ts = ts;
        amount = taken;
        buy_usd = buy_usd;
        sell_usd = sell_usd;
      } in
      let cut : Lot Num = record {
        ts = lot.ts;
        amount = sub lot.amount taken;
        usd = sub lot.usd buy_usd;
      } in
      if leb_d remaining (zero_d D)
      then ([], lot ∷ lots)
      else (if leb_d lot.amount taken then (trip ∷ closed, left) else (trip ∷ [], cut ∷ lots))

  abbrev on_trade :
      LeaderTrade Num
      → List (RoundTrip Num) × Dict (List (Lot Num))
      → List (RoundTrip Num) × Dict (List (Lot Num))
  on_trade t (closed, lots) =
      let own = lookup_or t.mint [] lots in
      elim t.side [
        | buy ↦ (
          closed,
          insert t.mint (own ++ record { ts = t.ts; amount = t.amount; usd = t.usd_value } ∷ [])
              lots,
        )
        | sell ↦
            let (trips, left) = close_lots t.mint t.ts t.amount t.usd_value own in
            (closed ++ trips, insert t.mint left lots)
      ]

  unfoldable pub trips_from :
      List (LeaderTrade Num)
      → List (RoundTrip Num) × Dict (List (Lot Num))
      → List (RoundTrip Num) × Dict (List (Lot Num))
  trips_from [] s = s
  trips_from (t ∷ ts) s = trips_from ts (on_trade t s)

  -- The amount and the cost of the lots that are left of each mint.
  unfoldable pub open_lots : Dict (List (Lot Num)) → Dict (Num × Num)
  open_lots [] = []
  open_lots ((mint, []) ∷ d) = open_lots d
  open_lots ((mint, lot ∷ lots) ∷ d) =
      (
        mint,
        (
          sum_d D (zero_d D) (map (λ l. l.amount) (lot ∷ lots)),
          sum_d D (zero_d D) (map (λ l. l.usd) (lot ∷ lots)),
        ),
      )
      ∷ open_lots d

  unfoldable pub round_trips : List (LeaderTrade Num) → List (RoundTrip Num) × Dict (Num × Num)
  round_trips trades =
      let (closed, lots) = trips_from (sort_by traded_before trades) ([], []) in
      (closed, open_lots lots)

  -- `worst_of_entry`: the worse of our quote and the leader's price with a markup of one percent.
  abbrev marked_up : Num → Num → Num
  marked_up p markup = mul p (add (one_d D) markup)

  unfoldable pub worst_of_entry : Option Num → Option Num → Num → Option Num
  worst_of_entry none none markup = none
  worst_of_entry (some q) none markup = some q
  worst_of_entry none (some p) markup = some (marked_up p markup)
  worst_of_entry (some q) (some p) markup = some (max_d D q (marked_up p markup))

module _ {N F : Type 0} (leb_f : F → F → Bool) where
  -- `key=lambda s: (-s.score, s.key)`
  abbrev ranked_before : LeaderScore N F → LeaderScore N F → Bool
  ranked_before a b = not (leb_f a.score b.score) || (leb_f b.score a.score && str_le a.key b.key)

  abbrev keys_of_scores : List (LeaderScore N F) → List String
  keys_of_scores ss = map (λ s. s.key) ss

  unfoldable pub ranked : List (LeaderScore N F) → List String
  ranked scores = keys_of_scores (sort_by ranked_before (filter (λ s. s.qualified) scores))

  -- The pool as a list: the top `n`, and those of before that are ranked within `floor(1.5 * n)`.
  unfoldable pub select_pool : List (LeaderScore N F) → List String → ℕ → List String
  select_pool scores prev n =
      let order = ranked scores in
      let kept = take (3 * n / 2) order in take n order ++ filter (λ k. str_in k kept) prev

-- What demotion reads of a token: its age and its developer.
pub record TokenMeta : Type 0 where
  pub first_pool_created_at : Option ℕ
  pub dev : Option String

pub data Demotion : Type 0 where
  absent_48h negative_4w_copied_pnl young_mint_buy own_token drawdown_over_max : Demotion

-- `_mint_age_ok`
abbrev age_known : ℕ → ℕ → Option ℕ → Option Bool
age_known at min_age none = none
age_known at min_age (some t) = some (leb (t + min_age) at)

unfoldable pub mint_age_ok : String → ℕ → Dict TokenMeta → ℕ → Option Bool
mint_age_ok mint at meta min_age = elim (lookup mint meta) [
  | none ↦ none
  | some info ↦ age_known at min_age info.first_pool_created_at
]

abbrev is_old_enough : Option Bool → Bool
is_old_enough none = false
is_old_enough (some b) = b

abbrev dev_of : Option TokenMeta → String
dev_of none = ""
dev_of (some info) = elim info.dev [ none ↦ "" | some d ↦ d ]

module _ {N : Type 0} where
  unfoldable pub bought_young : Dict TokenMeta → List (LeaderTrade N) → Bool
  bought_young meta [] = false
  bought_young meta (t ∷ ts) =
      let rest = bought_young meta ts in
      elim t.side [
        | sell ↦ rest
        | buy ↦ not (is_old_enough (mint_age_ok t.mint t.ts meta day_length)) || rest
      ]

  unfoldable pub trades_own_token : String → Dict TokenMeta → List (LeaderTrade N) → Bool
  trades_own_token wallet meta [] = false
  trades_own_token wallet meta (t ∷ ts) =
      let dev = dev_of (lookup t.mint meta) in
      (is_text dev && str_eq dev wallet) || trades_own_token wallet meta ts

  -- `negative` tests the P&L of four weeks, and `over` the drawdown of the platform.
  unfoldable pub should_demote :
      String → Bool → List (LeaderTrade N) → Dict TokenMeta → ℕ → ℕ → ℕ → Bool → Option Demotion
  should_demote wallet negative recent meta last_seen now absent over =
      if ltb (last_seen + absent) now
      then some absent_48h
      else (if negative
          then some negative_4w_copied_pnl
          else (if bought_young meta recent
              then some young_mint_buy
              else (if trades_own_token wallet meta recent
                  then some own_token
                  else (if over then some drawdown_over_max else none))))

-- `LeaderPool.effective`: the scored pool, or every followed key with a cluster of its own.
unfoldable pub numbered : ℕ → List String → Dict ℕ
numbered i [] = []
numbered i (k ∷ ks) = (k, i) ∷ numbered (suc i) ks

unfoldable pub effective : Bool → List String → Dict ℕ → List String → List String × Dict ℕ × Bool
effective scored pool clusters provisional =
    if scored
    then (pool, clusters, false)
    else (sorted_set provisional, numbered 0 (sorted_set provisional), true)
