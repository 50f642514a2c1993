-- ===== src/Copy/Cluster/Pairs.antt =====
-- The pairs of the two loops of `cluster` in src/tiller/copy/leaders.py.
use agent_trading.Base.{
  ℕ, zero, suc, ◌+◌, ◌≤◌, ◌<◌, ◌≡◌, ◌↔◌, refl, sym, Bool, true, List, [], ◌∷◌, ◌++◌, arith, ◌==◌,
  ==_iff, Bool-cases, inl, inr, ◌⊎◌, subst,
}
use agent_trading.Copy.Cluster.{range, pairs_with, pairs_from}

-- The pairs of a list that overlap.
abbrev pub Linked : (ℕ → ℕ → Bool) → List (ℕ × ℕ) → ℕ → ℕ → Type 0
Linked overlaps [] i j = ⊥
Linked overlaps ((a, b) ∷ pairs) i j =
    ((a ≡ i) × (b ≡ j) × (overlaps a b ≡ true)) ⊎ Linked overlaps pairs i j

module _ (overlaps : ℕ → ℕ → Bool) where
  -- Two indices in order that overlap.
  abbrev pub Overlap : ℕ → ℕ → ℕ → ℕ → Type 0
  Overlap i count x y = (i ≤ x) × (x < y) × (y < i + count) × (overlaps x y ≡ true)

  Linked-append :
      (ps qs : List (ℕ × ℕ)) (x y : ℕ)
      → Linked overlaps (ps ++ qs) x y ↔ (Linked overlaps ps x y ⊎ Linked overlaps qs x y)
  Linked-append [] qs x y = (λ h. inr h, λ h. elim h [ inl b ↦ absurd b | inr g ↦ g ])
  Linked-append (p ∷ ps) qs x y =
      let (f, g) = Linked-append ps qs x y in
      (
        (λ h. elim h [
          | inl e ↦ inl (inl e)
          | inr r ↦ elim (f r) [ inl l ↦ inl (inr l) | inr k ↦ inr k ]
        ]),
        (λ h. elim h [
          | inl (inl e) ↦ inl e
          | inl (inr l) ↦ inr (g (inl l))
          | inr k ↦ inr (g (inr k))
        ]),
      )

  row_sound :
      (a s count x y : ℕ)
      → Linked overlaps (pairs_with a (range s count)) x y
      → (x ≡ a) × (s ≤ y) × (y < s + count) × (overlaps x y ≡ true)
  row_sound a s zero x y h = absurd h
  row_sound a s (suc count) x y h = elim h [
    | inl (e, f, o) ↦ (
      sym e,
      omega arith,
      omega arith,
      subst (λ k. overlaps x k ≡ true) f (subst (λ k. overlaps k s ≡ true) e o),
    )
    | inr r ↦
        let (e, le, lt, o) = row_sound a (suc s) count x y r in (e, omega arith, omega arith, o)
  ]

  row_complete :
      (a s count y : ℕ)
      → s ≤ y
      → y < s + count
      → overlaps a y ≡ true
      → Linked overlaps (pairs_with a (range s count)) a y
  row_complete a s zero y le lt o = absurd (omega arith)
  row_complete a s (suc count) y le lt o = elim (Bool-cases (s == y)) [
    | inl e ↦
        let here : s ≡ y = (==_iff s y).0 e in
        inl (refl, here, subst (λ k. overlaps a k ≡ true) (sym here) o)
    | inr e ↦
        inr (row_complete a (suc s) count y (ground (arith, e, le, ==_iff s y)) (omega arith) o)
  ]

  pub pairs_from_sound :
      (i count x y : ℕ) → Linked overlaps (pairs_from i count) x y → Overlap i count x y
  unfolding pairs_from
  pairs_from_sound i zero x y h = absurd h
  pairs_from_sound i (suc count) x y h =
      elim ((Linked-append (pairs_with i (range (suc i) count)) (pairs_from (suc i) count) x y).0
        h) [
          | inl r ↦
              let (e, le, lt, o) = row_sound i (suc i) count x y r in
              (omega arith, omega arith, omega arith, o)
          | inr r ↦
              let (le, lt, top, o) = pairs_from_sound (suc i) count x y r in
              (omega arith, lt, omega arith, o)
        ]

  pub pairs_from_complete :
      (i count x y : ℕ) → Overlap i count x y → Linked overlaps (pairs_from i count) x y
  unfolding pairs_from
  pairs_from_complete i zero x y (le, lt, top, o) = absurd (omega arith)
  pairs_from_complete i (suc count) x y (le, lt, top, o) =
      (Linked-append (pairs_with i (range (suc i) count)) (pairs_from (suc i) count) x y).1
        (elim (Bool-cases (i == x)) [
          | inl e ↦
              let here : i ≡ x = (==_iff i x).0 e in
              inl (
                subst (λ k. Linked overlaps (pairs_with i (range (suc i) count)) k y) here
                  (row_complete i (suc i) count y (omega arith) (omega arith)
                    (subst (λ k. overlaps k y ≡ true) (sym here) o)))
          | inr e ↦ inr (
              pairs_from_complete (suc i) count x y
                (ground (arith, e, le, ==_iff i x), lt, omega arith, o))
        ])
