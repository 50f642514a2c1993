-- ===== src/Copy/Cluster/UnionFind.antt =====
-- The array of parents implements a map from each index to its representative.
use agent_trading.Base.{
  ℕ, zero, suc, ◌≤◌, ◌<◌, ◌≡◌, refl, sym, ◌∙◌, arith, if◌then◌else◌, ◌==◌, ==_iff, Bool-cases, inl,
  inr, map, subst,
}
use agent_trading.Copy.Cluster.{set_at, find_from, find, larger, smaller, union, range, ids_from}

-- The array stands for the map.
pub record Represents (parent rep : ℕ → ℕ) : Type 0 where
  pub below : (i : ℕ) → parent i ≤ i
  pub same : (i : ℕ) → rep (parent i) ≡ rep i
  pub own : (i : ℕ) → parent i ≡ i → rep i ≡ i
  pub least : (i : ℕ) → rep i ≤ i
  pub settled : (i : ℕ) → rep (rep i) ≡ rep i

pub start_Represents : Represents (λ i. i) (λ i. i)
start_Represents = record {
  below = λ i. omega arith;
  same = λ i. refl;
  own = λ i e. refl;
  least = λ i. omega arith;
  settled = λ i. refl;
}

-- Path halving keeps the map.
halved_Represents :
    (parent rep : ℕ → ℕ) (i : ℕ)
    → Represents parent rep
    → Represents (set_at i (parent (parent i)) parent) rep
unfolding set_at
halved_Represents parent rep i h = record {
  below = λ k. ground (arith, h.below k, h.below i, h.below (parent i), ==_iff k i);
  same = λ k. ground (arith, h.same k, h.same i, h.same (parent i), ==_iff k i);
  own = λ k e. ground (arith, h.own k, h.own i, h.below i, h.below (parent i), e, ==_iff k i);
  least = h.least;
  settled = h.settled;
}

pub find_from-root :
    (fuel i : ℕ) (parent rep : ℕ → ℕ)
    → i ≤ fuel
    → Represents parent rep
    → ((find_from fuel i parent).0 ≡ rep i) × Represents (find_from fuel i parent).1 rep
unfolding find_from
find_from-root zero i parent rep le h = (ground (arith, le, h.least i, h.below i), h)
find_from-root (suc fuel) i parent rep le h = elim (Bool-cases (parent i == i)) [
  | inl e ↦ rw (e, find_from) (ground (arith, e, h.own i, ==_iff (parent i) i), h)
  | inr e ↦
      let grand = parent (parent i) in
      let rest =
        find_from-root fuel grand (set_at i grand parent) rep
          (ground (arith, e, le, h.below i, h.below (parent i), ==_iff (parent i) i))
          (halved_Represents parent rep i h) in
      rw (e, find_from) (rest.0 ∙ h.same (parent i) ∙ h.same i, rest.1)
]

-- The class of `hi` goes to `lo`.
abbrev pub joined : ℕ → ℕ → (ℕ → ℕ) → ℕ → ℕ
joined hi lo rep k = if rep k == hi then lo else rep k

set_Represents :
    (hi lo : ℕ) (parent rep : ℕ → ℕ)
    → lo < hi
    → rep hi ≡ hi
    → rep lo ≡ lo
    → Represents parent rep
    → Represents (set_at hi lo parent) (joined hi lo rep)
unfolding set_at
set_Represents hi lo parent rep lt top bottom h = record {
  below = λ k. ground (arith, h.below k, lt, ==_iff k hi);
  same =
      λ k. ground (arith, h.same k, top, bottom, lt, ==_iff k hi, ==_iff (rep k) hi, ==_iff lo hi);
  own = λ k e. ground (arith, h.own k, top, lt, e, ==_iff k hi, ==_iff (rep k) hi);
  least = λ k. ground (arith, h.least k, lt, ==_iff (rep k) hi);
  settled = λ k. ground (arith, h.settled k, top, bottom, lt, ==_iff (rep k) hi, ==_iff lo hi);
}

-- What a union makes of the map.
abbrev pub merged : ℕ → ℕ → (ℕ → ℕ) → ℕ → ℕ
merged i j rep =
    if rep i == rep j then rep else joined (larger (rep i) (rep j)) (smaller (rep i) (rep j)) rep

linked : ℕ → ℕ → (ℕ → ℕ) → ℕ → ℕ
linked ri rj parent = if ri == rj then parent else set_at (larger ri rj) (smaller ri rj) parent

linked-Represents :
    (i j : ℕ) (parent rep : ℕ → ℕ)
    → Represents parent rep
    → Represents (linked (rep i) (rep j) parent) (merged i j rep)
unfolding linked
linked-Represents i j parent rep h = elim (Bool-cases (rep i == rep j)) [
  | inl e ↦ rw (e, linked) h
  | inr e ↦
      rw (e, linked)
        (set_Represents (larger (rep i) (rep j)) (smaller (rep i) (rep j)) parent rep
          (ground (arith, e, ==_iff (rep i) (rep j))) (ground (arith, h.settled i, h.settled j))
          (ground (arith, h.settled i, h.settled j)) h)
]

pub union-Represents :
    (i j : ℕ) (parent rep : ℕ → ℕ)
    → Represents parent rep
    → Represents (union i j parent) (merged i j rep)
unfolding union find linked
union-Represents i j parent rep h =
    let first = find_from-root i i parent rep (omega arith) h in
    let second = find_from-root j j (find_from i i parent).1 rep (omega arith) first.1 in
    let after = (find_from j j (find_from i i parent).1).1 in
    subst
      (λ r. Represents (linked r (find_from j j (find_from i i parent).1).0 after) (merged i j rep))
      (sym first.0)
      (subst (λ r. Represents (linked (rep i) r after) (merged i j rep)) (sym second.0)
        (linked-Represents i j after rep second.1))

pub ids_from-map :
    (i count : ℕ) (parent rep : ℕ → ℕ)
    → Represents parent rep
    → ids_from i count parent ≡ map rep (range i count)
unfolding ids_from find
ids_from-map i zero parent rep h = refl
ids_from-map i (suc count) parent rep h =
    let first = find_from-root i i parent rep (omega arith) h in
    ground (arith, first.0, ids_from-map (suc i) count (find_from i i parent).1 rep first.1)
