-- ===== src/Copy/Cluster.antt =====
-- `cluster` of src/tiller/copy/leaders.py: leaders with overlapping mints share an id, by union-find with
-- path halving. The array of parents is a function of the index.
pub mod UnionFind
pub mod Pairs
pub mod Connected
use agent_trading.Base.{
  ℕ, zero, suc, ◌+◌, ◌-◌, Bool, true, false, Option, none, some, List, [], ◌∷◌, ◌++◌, String,
  if◌then◌else◌, not, ◌&&◌, ◌||◌, leb, ltb, ◌==◌, length, get_or, filter, map,
}
use agent_trading.Base.Text.{str_in}
use agent_trading.Base.Dict.{Dict, lookup_or}
use agent_trading.Base.Sets.{distinct}
use agent_trading.Models.{Side, buy, sell}
use agent_trading.Ledger.Tables.{LeaderTrade}
use agent_trading.Copy.{LeaderScore}

-- `parent[i] = a`
unfoldable pub set_at : ℕ → ℕ → (ℕ → ℕ) → ℕ → ℕ
set_at i a parent k = if k == i then a else parent k

-- `find`, on fuel: the root, and the array after it.
unfoldable pub find_from : ℕ → ℕ → (ℕ → ℕ) → ℕ × (ℕ → ℕ)
find_from zero i parent = (i, parent)
find_from (suc fuel) i parent =
    let grand = parent (parent i) in
    let rest = find_from fuel grand (set_at i grand parent) in
    if parent i == i then (i, parent) else rest

-- A parent is below its child, so that a path from `i` has at most `i` steps.
unfoldable pub find : ℕ → (ℕ → ℕ) → ℕ × (ℕ → ℕ)
find i parent = find_from i i parent

abbrev pub larger : ℕ → ℕ → ℕ
larger a b = if ltb a b then b else a

abbrev pub smaller : ℕ → ℕ → ℕ
smaller a b = if ltb b a then b else a

-- The body of the inner loop, for two leaders that overlap.
unfoldable pub union : ℕ → ℕ → (ℕ → ℕ) → ℕ → ℕ
union i j parent =
    let (ri, after_i) = find i parent in
    let (rj, after_j) = find j after_i in
    if ri == rj then after_j else set_at (larger ri rj) (smaller ri rj) after_j

-- `range(i, i + count)`
abbrev pub range : ℕ → ℕ → List ℕ
range i zero = []
range i (suc count) = i ∷ range (suc i) count

abbrev pairs_with : ℕ → List ℕ → List (ℕ × ℕ)
pairs_with i [] = []
pairs_with i (j ∷ js) = (i, j) ∷ pairs_with i js

-- The pairs in the order of the two loops: from `i`, with `count` rows left.
unfoldable pub pairs_from : ℕ → ℕ → List (ℕ × ℕ)
pairs_from i zero = []
pairs_from i (suc count) = pairs_with i (range (suc i) count) ++ pairs_from (suc i) count

-- Both loops.
unfoldable pub union_all : (ℕ → ℕ → Bool) → List (ℕ × ℕ) → (ℕ → ℕ) → ℕ → ℕ
union_all overlaps [] parent = parent
union_all overlaps ((i, j) ∷ pairs) parent =
    union_all overlaps pairs (if overlaps i j then union i j parent else parent)

-- `find(i)` for each index in order.
unfoldable pub ids_from : ℕ → ℕ → (ℕ → ℕ) → List ℕ
ids_from i zero parent = []
ids_from i (suc count) parent =
    let (root, after) = find i parent in root ∷ ids_from (suc i) count after

unfoldable pub cluster_ids : (ℕ → ℕ → Bool) → ℕ → List ℕ
cluster_ids overlaps n = ids_from 0 n (union_all overlaps (pairs_from 0 n) (λ i. i))

abbrev is_bought : {N : Type 0} → LeaderTrade N → Bool
is_bought t = elim t.side [ buy ↦ true | sell ↦ false ]

unfoldable pub bought_mints : {N : Type 0} → List (LeaderTrade N) → List String
bought_mints trades = distinct (map (λ t. t.mint) (filter is_bought trades))

-- `mint_overlap(a, b) > overlap`; the quotient of floats and its test are an argument.
unfoldable pub mint_overlap_above : (ℕ → ℕ → Bool) → List String → List String → Bool
mint_overlap_above above a b =
    not (length a == 0)
    && not (length b == 0)
    && above (length (filter (λ m. str_in m b) a)) (smaller (length a) (length b))

module _ {N F : Type 0} where
  mints_of : Dict (List (LeaderTrade N)) → List (LeaderScore N F) → List (List String)
  mints_of trades [] = []
  mints_of trades (s ∷ ss) = bought_mints (lookup_or s.key [] trades) ∷ mints_of trades ss

  unfoldable pub with_ids : List (LeaderScore N F) → List ℕ → List (LeaderScore N F)
  with_ids [] ids = []
  with_ids (s ∷ ss) [] = []
  with_ids (s ∷ ss) (i ∷ ids) = record s { cluster_id = i } ∷ with_ids ss ids

  unfoldable pub cluster :
      List (LeaderScore N F) → Dict (List (LeaderTrade N)) → (ℕ → ℕ → Bool) → List (LeaderScore N F)
  unfolding mints_of
  cluster scores trades above =
      let mints = mints_of trades scores in
      let overlaps : ℕ → ℕ → Bool =
        λ i j. mint_overlap_above above (get_or mints i []) (get_or mints j []) in
      with_ids scores (cluster_ids overlaps (length scores))
