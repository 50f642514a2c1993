-- ===== src/Copy/Cluster/Connected.antt =====
-- The ids of clusters against the connection of leaders by overlaps.
use agent_trading.Base.{
  ℕ, ◌≤◌, ◌≡◌, ◌↔◌, refl, sym, ◌∙◌, Bool, List, [], ◌∷◌, arith, ==_iff, Bool-cases, inl, inr, map,
  ◌⊎◌, subst,
}
use agent_trading.Copy.Cluster.{union, range, pairs_from, union_all, cluster_ids}
use agent_trading.Copy.Cluster.Pairs.{Linked, Overlap, pairs_from_sound, pairs_from_complete}
use agent_trading.Copy.Cluster.UnionFind.{
  Represents, start_Represents, merged, union-Represents, ids_from-map,
}

-- The least equivalence that joins the pairs of a relation.
pub data Connected (R : ℕ → ℕ → Type 0) : ℕ → ℕ → Type 0 where
  linked : (i j : ℕ) → R i j → Connected R i j
  same : (i : ℕ) → Connected R i i
  back : (i j : ℕ) → Connected R i j → Connected R j i
  through : (i j k : ℕ) → Connected R i j → Connected R j k → Connected R i k

Connected-map :
    (R S : ℕ → ℕ → Type 0)
    → ((i j : ℕ) → R i j → S i j)
    → (i j : ℕ) → Connected R i j
    → Connected S i j
Connected-map R S f i j (linked _ _ h) = linked i j (f i j h)
Connected-map R S f i _ (same _) = same i
Connected-map R S f i j (back _ _ h) = back j i (Connected-map R S f j i h)
Connected-map R S f i k (through _ j _ h g) =
    through i j k (Connected-map R S f i j h) (Connected-map R S f j k g)

-- The classes of a map are those of a relation.
record Classes (R : ℕ → ℕ → Type 0) (rep : ℕ → ℕ) : Type 0 where
  sound : (i j : ℕ) → rep i ≡ rep j → Connected R i j
  complete : (i j : ℕ) → R i j → rep i ≡ rep j

Classes-Connected :
    (R : ℕ → ℕ → Type 0) (rep : ℕ → ℕ) → Classes R rep → (i j : ℕ) → Connected R i j → rep i ≡ rep j
Classes-Connected R rep c i j (linked _ _ h) = c.complete i j h
Classes-Connected R rep c i _ (same _) = refl
Classes-Connected R rep c i j (back _ _ h) = sym (Classes-Connected R rep c j i h)
Classes-Connected R rep c i k (through _ j _ h g) =
    Classes-Connected R rep c i j h ∙ Classes-Connected R rep c j k g

Classes-map :
    (R S : ℕ → ℕ → Type 0) (rep : ℕ → ℕ)
    → ((i j : ℕ) → R i j → S i j)
    → ((i j : ℕ) → S i j → R i j)
    → Classes R rep
    → Classes S rep
Classes-map R S rep f g c = record {
  sound = λ i j e. Connected-map R S f i j (c.sound i j e);
  complete = λ i j h. c.complete i j (g i j h);
}

merged_cases :
    (a b : ℕ) (rep : ℕ → ℕ) (i j : ℕ)
    → merged a b rep i ≡ merged a b rep j
    → (rep i ≡ rep j) ⊎ (((rep i ≡ rep a) × (rep j ≡ rep b)) ⊎ ((rep i ≡ rep b) × (rep j ≡ rep a)))
merged_cases a b rep i j h = ground (arith, h, ==_iff (rep a) (rep b))

merged_same :
    (a b : ℕ) (rep : ℕ → ℕ) (i j : ℕ) → rep i ≡ rep j → merged a b rep i ≡ merged a b rep j
merged_same a b rep i j h = ground (arith, h)

merged_joins : (a b : ℕ) (rep : ℕ → ℕ) → merged a b rep a ≡ merged a b rep b
merged_joins a b rep = ground (arith, ==_iff (rep a) (rep b))

abbrev With : (ℕ → ℕ → Type 0) → ℕ → ℕ → ℕ → ℕ → Type 0
With R a b i j = R i j ⊎ ((a ≡ i) × (b ≡ j))

merged-Classes :
    (R : ℕ → ℕ → Type 0) (a b : ℕ) (rep : ℕ → ℕ)
    → Classes R rep
    → Classes (With R a b) (merged a b rep)
merged-Classes R a b rep c = record {
  sound = λ i j e. elim (merged_cases a b rep i j e) [
    | inl h ↦ old i j h
    | inr (inl (h, g)) ↦ through i b j (through i a b (old i a h) step) (old b j (sym g))
    | inr (inr (h, g)) ↦ through i a j (through i b a (old i b h) (back a b step)) (old a j (sym g))
  ];
  complete = λ i j h. elim h [
    | inl r ↦ merged_same a b rep i j (c.complete i j r)
    | inr (e, f) ↦
        subst (λ x. merged a b rep x ≡ merged a b rep j) e
          (subst (λ y. merged a b rep a ≡ merged a b rep y) f (merged_joins a b rep))
  ];
}
  where
    old : (i j : ℕ) → rep i ≡ rep j → Connected (With R a b) i j
    old i j h = Connected-map R (With R a b) (λ x y r. inl r) i j (c.sound i j h)

    step : Connected (With R a b) a b
    step = linked a b (inr (refl, refl))

abbrev Both : (ℕ → ℕ → Type 0) → (ℕ → ℕ → Type 0) → ℕ → ℕ → Type 0
Both R S i j = R i j ⊎ S i j

module _ (overlaps : ℕ → ℕ → Bool) where
  union_all-Classes :
      (pairs : List (ℕ × ℕ)) (R : ℕ → ℕ → Type 0) (parent rep : ℕ → ℕ)
      → Represents parent rep
      → Classes R rep
      → (rep' : ℕ → ℕ) × Represents (union_all overlaps pairs parent) rep'
        × Classes (Both R (Linked overlaps pairs)) rep'
  unfolding union_all
  union_all-Classes [] R parent rep h c = (
    rep,
    h,
    Classes-map R (Both R (Linked overlaps [])) rep (λ i j r. inl r)
        (λ i j s. elim s [ inl r ↦ r | inr b ↦ absurd b ]) c,
  )
  union_all-Classes ((a, b) ∷ pairs) R parent rep h c = elim (Bool-cases (overlaps a b)) [
    | inl e ↦
        let (rep', k, d) =
          union_all-Classes pairs (With R a b) (union a b parent) (merged a b rep)
            (union-Represents a b parent rep h) (merged-Classes R a b rep c) in
        rw (e, union_all)
          (
            rep',
            k,
            Classes-map (Both (With R a b) (Linked overlaps pairs))
                (Both R (Linked overlaps ((a, b) ∷ pairs))) rep'
                (λ i j s. elim s [
                  | inl (inl r) ↦ inl r
                  | inl (inr (x, y)) ↦ inr (inl (x, y, e))
                  | inr l ↦ inr (inr l)
                ])
                (λ i j s. elim s [
                  | inl r ↦ inl (inl r)
                  | inr (inl (x, y, _)) ↦ inl (inr (x, y))
                  | inr (inr l) ↦ inr l
                ])
                d,
          )
    | inr e ↦
        let (rep', k, d) = union_all-Classes pairs R parent rep h c in
        rw (e, union_all)
          (
            rep',
            k,
            Classes-map (Both R (Linked overlaps pairs)) (Both R (Linked overlaps ((a, b) ∷ pairs)))
                rep' (λ i j s. elim s [ inl r ↦ inl r | inr l ↦ inr (inr l) ])
                (λ i j s. elim s [
                  | inl r ↦ inl r
                  | inr (inl (x, y, o)) ↦ absurd (ground (arith, o, e))
                  | inr (inr l) ↦ inr l
                ])
                d,
          )
  ]

-- The ids of `n` leaders are one representative for each index: two leaders of the list have the same id
-- exactly when a chain of overlapping pairs of the list joins them, and the id of a leader is the
-- least index that such a chain joins to it.
pub cluster_ids-Connected :
    (overlaps : ℕ → ℕ → Bool) (n : ℕ)
    → (rep : ℕ → ℕ) × (cluster_ids overlaps n ≡ map rep (range 0 n))
      × ((i j : ℕ) → (rep i ≡ rep j) ↔ Connected (Overlap overlaps 0 n) i j)
      × ((i j : ℕ) → Connected (Overlap overlaps 0 n) i j → rep i ≤ j)
      × ((i : ℕ) → Connected (Overlap overlaps 0 n) i (rep i))
unfolding cluster_ids
cluster_ids-Connected overlaps n =
    let none_yet : ℕ → ℕ → Type 0 = λ i j. ⊥ in
    let (rep, h, c) =
      union_all-Classes overlaps (pairs_from 0 n) none_yet (λ i. i) (λ i. i) start_Represents
        start_Classes in
    let d : Classes (Overlap overlaps 0 n) rep =
      Classes-map (Both none_yet (Linked overlaps (pairs_from 0 n))) (Overlap overlaps 0 n) rep
        (λ i j s. elim s [ inl b ↦ absurd b | inr l ↦ pairs_from_sound overlaps 0 n i j l ])
        (λ i j o. inr (pairs_from_complete overlaps 0 n i j o)) c in
    (
      rep,
      ids_from-map 0 n (union_all overlaps (pairs_from 0 n) (λ i. i)) rep h,
      (λ i j. (d.sound i j, Classes-Connected (Overlap overlaps 0 n) rep d i j)),
      (λ i j k.
          subst (λ r. r ≤ j) (sym (Classes-Connected (Overlap overlaps 0 n) rep d i j k))
            (h.least j)),
      (λ i. d.sound i (rep i) (sym (h.settled i))),
    )
  where
    start_Classes : Classes (λ i j. ⊥) (λ i. i)
    start_Classes = record {
      sound = λ i j e. subst (Connected (λ x y. ⊥) i) e (same i);
      complete = λ i j b. absurd b;
    }
