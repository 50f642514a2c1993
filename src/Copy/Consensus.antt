-- ===== src/Copy/Consensus.antt =====
-- The rules of src/tiller/copy/strategy.py: consensus, crowd bursts, late entries, and the ring of token
-- snapshots.
use agent_trading.Base.{
  ℕ, ◌+◌, Bool, true, false, Option, none, some, List, [], ◌∷◌, ◌++◌, String, if◌then◌else◌, ◌&&◌,
  ◌||◌, leb, ltb, ◌==◌, length, filter, map, any,
}
use agent_trading.Base.Text.{str_eq, str_in}
use agent_trading.Base.Dict.{Dict, lookup}
use agent_trading.Base.Sort.{sort_by}
use agent_trading.Base.Sets.{sorted_set}
use agent_trading.Decimal.{DecimalOps, zero_d, one_d, lt_d}
use agent_trading.Models.{Side, buy, sell}
use agent_trading.Ledger.Tables.{LeaderTrade, traded_before}

pub record ConsensusSignal (N : Type 0) : Type 0 where
  pub mint : String
  pub earliest_leader_price : N
  pub cluster_count : ℕ
  pub first_ts : ℕ

pub record CopyCandidate (N : Type 0) : Type 0 where
  pub signal : ConsensusSignal N
  pub current_price : N
  pub gate_ok : Bool
  pub crowd_burst : Bool

-- The fields of `TokenInfoBoard` that the crowd is counted by.
pub record TokenInfoBoard : Type 0 where
  pub mint : String
  pub agents : ℕ

abbrev is_buy : Side → Bool
is_buy buy = true
is_buy sell = false

abbrev is_key : {N : Type 0} → String → Dict N → Bool
is_key k d = elim (lookup k d) [ none ↦ false | some _ ↦ true ]

-- The distinct items of a list of numbers.
unfoldable pub distinct_ids : List ℕ → List ℕ
distinct_ids [] = []
distinct_ids (x ∷ xs) =
    let rest = distinct_ids xs in if any (λ y. y == x) rest then rest else x ∷ rest

module _ {N : Type 0} where
  -- The trades that count: verified buys of clustered leaders of the pool, within the window.
  abbrev pub counts : List String → Dict ℕ → ℕ → ℕ → LeaderTrade N → Bool
  counts pool clusters window now t =
      is_buy t.side
      && t.chain_verified
      && str_in t.key pool
      && is_key t.key clusters
      && leb now (t.ts + window)
      && leb t.ts now

  unfoldable pub clusters_of : Dict ℕ → List (LeaderTrade N) → List ℕ
  clusters_of clusters [] = []
  clusters_of clusters (t ∷ ts) = elim (lookup t.key clusters) [
    | none ↦ clusters_of clusters ts
    | some c ↦ c ∷ clusters_of clusters ts
  ]

  unfoldable pub first_time : List (LeaderTrade N) → ℕ
  first_time [] = 0
  first_time (t ∷ _) = t.ts

unfoldable pub agents_of : String → List TokenInfoBoard → ℕ
agents_of mint [] = 0
agents_of mint (t ∷ ts) = if str_eq t.mint mint then t.agents else agents_of mint ts

-- `cur - prev > max_delta` over the integers.
unfoldable pub crowd_burst : List TokenInfoBoard → List TokenInfoBoard → String → ℕ → Bool
crowd_burst prev cur mint max_delta = ltb (agents_of mint prev + max_delta) (agents_of mint cur)

-- `TokenSnapshotRing`: the rows, in the order of their addition.
abbrev pub Ring : Type 0
Ring = List (ℕ × List TokenInfoBoard)

unfoldable pub ring_add : ℕ → ℕ → List TokenInfoBoard → Ring → Ring
ring_add keep ts tokens rows = filter (λ r. leb ts (r.0 + keep)) (rows ++ (ts, tokens) ∷ [])

unfoldable pub last_tokens : Ring → Option (List TokenInfoBoard)
last_tokens [] = none
last_tokens ((t, s) ∷ rows) = elim (last_tokens rows) [ none ↦ some s | some u ↦ some u ]

unfoldable pub at_least : ℕ → ℕ → Ring → Option (List TokenInfoBoard)
at_least age now rows = last_tokens (filter (λ r. leb (r.0 + age) now) rows)

abbrev burst_between :
    Option (List TokenInfoBoard) → Option (List TokenInfoBoard) → String → ℕ → Bool
burst_between (some prev) (some cur) mint max_delta = crowd_burst prev cur mint max_delta
burst_between (some prev) none mint max_delta = true
burst_between none cur mint max_delta = true

unfoldable pub burst : String → ℕ → ℕ → ℕ → Ring → Bool
burst mint now max_delta age rows =
    burst_between (at_least age now rows) (last_tokens rows) mint max_delta

module _ (D : DecimalOps) where
  open D use {Num, add, mul, leb as leb_d}

  abbrev positive_price : Option Num → Option Num
  positive_price none = none
  positive_price (some p) = if lt_d D (zero_d D) p then some p else none

  -- The first trade with a price above zero.
  unfoldable pub earliest_price : List (LeaderTrade Num) → Option Num
  earliest_price [] = none
  earliest_price (t ∷ ts) = elim (positive_price t.price_usd) [
    | none ↦ earliest_price ts
    | some p ↦ some p
  ]

  -- The rows of a mint, by time and signature.
  abbrev signal_of : Dict ℕ → ℕ → String → List (LeaderTrade Num) → Option (ConsensusSignal Num)
  signal_of clusters min_clusters mint rows =
      let n = length (distinct_ids (clusters_of clusters rows)) in
      if ltb n min_clusters then none else elim (earliest_price rows) [
        | none ↦ none
        | some p ↦ some (record {
          mint = mint;
          earliest_leader_price = p;
          cluster_count = n;
          first_ts = first_time rows;
        })
      ]

  abbrev rows_for : String → List (LeaderTrade Num) → List (LeaderTrade Num)
  rows_for mint trades = sort_by traded_before (filter (λ t. str_eq t.mint mint) trades)

  unfoldable pub signals_from :
      Dict ℕ → ℕ → List (LeaderTrade Num) → List String → List (ConsensusSignal Num)
  signals_from clusters min_clusters trades [] = []
  signals_from clusters min_clusters trades (mint ∷ mints) =
      let rest = signals_from clusters min_clusters trades mints in
      elim (signal_of clusters min_clusters mint (rows_for mint trades)) [
        | none ↦ rest
        | some s ↦ s ∷ rest
      ]

  unfoldable pub consensus :
      List (LeaderTrade Num) → List String → Dict ℕ → ℕ → ℕ → ℕ → List (ConsensusSignal Num)
  consensus trades pool clusters window min_clusters now =
      let counted = filter (counts pool clusters window now) trades in
      signals_from clusters min_clusters counted (sorted_set (map (λ t. t.mint) counted))

  unfoldable pub late_entry_ok : Option Num → Option Num → Num → Bool
  late_entry_ok none earliest above = false
  late_entry_ok (some current) none above = false
  late_entry_ok (some current) (some earliest) above =
      if leb_d earliest (zero_d D) || leb_d current (zero_d D)
      then false
      else leb_d current (mul earliest (add (one_d D) above))
