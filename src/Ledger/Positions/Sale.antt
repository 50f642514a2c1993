-- ===== src/Ledger/Positions/Sale.antt =====
-- A sale takes its amount from the rows of the mint, and no more than they hold.
use agent_trading.Base.{
  ◌≡◌, refl, sym, Bool, true, some, List, [], ◌∷◌, String, arith, All, Bool-cases, inl, inr, ◌∙◌,
  ap,
}
use agent_trading.Base.Int.{
  ℤ, pos, ◌+ℤ◌, ◌-ℤ◌, ltb_ℤ, leb_ℤ, min_ℤ, ◌≤ℤ◌, int_laws, leb_ℤ_iff, -ℤ_parts, +ℤ_parts,
  eq_of_parts,
}
use agent_trading.Base.Text.{str_eq_iff}
use agent_trading.Base.Sort.{Pairwise, sort_by, insert_by, All-sort_by, Pairwise-sort_by}
use agent_trading.Models.{Position}
use agent_trading.Decimal.{DecimalOps}
use agent_trading.Ledger.Positions.{
  find_row, reduced, rows_of, sale_order, sell_from, position_sub, opened_before, own_before,
}
use agent_trading.Ledger.Positions.Rows.{OtherKey, OtherKey-sym, IsHeld, IsBook, total, part}
use agent_trading.Ledger.Positions.Reduce.{reduced-total, reduced-find_row, reduced-IsBook}

regroup_amounts : (a b c : ℤ) → a +ℤ (b +ℤ c) ≡ b +ℤ (a +ℤ c)
regroup_amounts a b c = omega int_laws

zero_front : (a : ℤ) → a ≡ pos 0 +ℤ a
zero_front a = omega int_laws

module _ {N : Type 0} where
  -- What the rows hold together.
  amounts : List (Position N) → ℤ
  amounts [] = pos 0
  amounts (p ∷ ps) = p.amount_base +ℤ amounts ps

  amounts-nonneg : (ps : List (Position N)) → All IsHeld ps → pos 0 ≤ℤ amounts ps
  unfolding amounts
  amounts-nonneg [] h = omega arith
  amounts-nonneg (p ∷ ps) h =
      ground (arith, amounts-nonneg ps h.1, +ℤ_parts p.amount_base (amounts ps))

  amounts-insert_by :
      (le : Position N → Position N → Bool) (p : Position N) (ps : List (Position N))
      → amounts (insert_by le p ps) ≡ p.amount_base +ℤ amounts ps
  unfolding amounts insert_by
  amounts-insert_by le p [] = refl
  amounts-insert_by le p (q ∷ qs) =
      ground
        (arith, amounts-insert_by le p qs, regroup_amounts q.amount_base p.amount_base (amounts qs))

  amounts-sort_by :
      (le : Position N → Position N → Bool) (ps : List (Position N))
      → amounts (sort_by le ps) ≡ amounts ps
  unfolding amounts sort_by
  amounts-sort_by le [] = refl
  amounts-sort_by le (p ∷ ps) =
      amounts-insert_by le p (sort_by le ps) ∙ ap (λ a. p.amount_base +ℤ a) (amounts-sort_by le ps)

  amounts-rows_of : (m : String) (ps : List (Position N)) → amounts (rows_of m ps) ≡ total m ps
  unfolding amounts rows_of total
  amounts-rows_of m [] = refl
  amounts-rows_of m (p ∷ ps) = ground (arith, amounts-rows_of m ps, zero_front (total m ps))

  -- What holds of every row of the table holds of the rows of a mint, which have that mint.
  All-rows_of :
      (P : Position N → Type 0) (m : String) (ps : List (Position N))
      → All P ps
      → All P (rows_of m ps)
  unfolding rows_of
  All-rows_of P m [] h = tt
  All-rows_of P m (p ∷ ps) h = ground (arith, All-rows_of P m ps h.1)

  rows_of-mint : (m : String) (ps : List (Position N)) → All (λ p. p.mint ≡ m) (rows_of m ps)
  unfolding rows_of
  rows_of-mint m [] = tt
  rows_of-mint m (p ∷ ps) = ground (arith, rows_of-mint m ps, str_eq_iff p.mint m)

  Pairwise-rows_of :
      (m : String) (ps : List (Position N))
      → Pairwise OtherKey ps
      → Pairwise OtherKey (rows_of m ps)
  unfolding rows_of
  Pairwise-rows_of m [] h = tt
  Pairwise-rows_of m (p ∷ ps) h =
      ground (arith, Pairwise-rows_of m ps h.1, All-rows_of (OtherKey p) m ps h.0)

  -- A row is found under its key.
  abbrev Found : List (Position N) → Position N → Type 0
  Found rows p = find_row p.mint p.strategy rows ≡ some p

  Found-cons :
      (q : Position N) (rows ps : List (Position N))
      → All (OtherKey q) ps
      → All (Found rows) ps
      → All (Found (q ∷ rows)) ps
  unfolding find_row
  Found-cons q rows [] h k = tt
  Found-cons q rows (p ∷ ps) h k =
      (ground (arith, OtherKey-sym q p h.0), Found-cons q rows ps h.1 k.1)

  keyed-Found : (rows : List (Position N)) → Pairwise OtherKey rows → All (Found rows) rows
  keyed-Found [] h = tt
  keyed-Found (q ∷ qs) h = (own, Found-cons q qs qs h.0 (keyed-Found qs h.1))
    where
      own : Found (q ∷ qs) q
      own =
          unfold find_row in
          ground (arith, str_eq_iff q.mint q.mint, str_eq_iff q.strategy q.strategy)

all_sold : (sum left : ℤ) → leb_ℤ left (pos 0) ≡ true → pos 0 ≤ℤ left → sum ≡ sum -ℤ left
all_sold sum left h k = omega (int_laws, (leb_ℤ_iff left (pos 0)).0 h)

min_zero :
    (left sum : ℤ)
    → leb_ℤ left (pos 0) ≡ true
    → pos 0 ≤ℤ left
    → pos 0 ≤ℤ sum
    → min_ℤ left sum ≡ left
min_zero left sum h k l = ground arith

-- What one row gives and what the others give is what all give.
min_split :
    (have left sum : ℤ)
    → pos 0 ≤ℤ sum
    → min_ℤ left (have +ℤ sum) ≡ min_ℤ have left +ℤ min_ℤ (left -ℤ min_ℤ have left) sum
min_split have left sum h = elim (Bool-cases (ltb_ℤ left have)) [
  | inl e ↦ eq_of_parts _ _ (
      ground (
        arith,
        +ℤ_parts have sum,
        -ℤ_parts left left,
        +ℤ_parts left (left -ℤ left),
        +ℤ_parts left sum,
      ))
  | inr e ↦ eq_of_parts _ _ (
      ground (
        arith,
        +ℤ_parts have sum,
        -ℤ_parts left have,
        +ℤ_parts have (left -ℤ have),
        +ℤ_parts have sum,
      ))
]

after_taken : (sum part_taken rest : ℤ) → (sum -ℤ part_taken) -ℤ rest ≡ sum -ℤ (part_taken +ℤ rest)
after_taken sum part_taken rest = omega int_laws

left_nonneg : (have left : ℤ) → pos 0 ≤ℤ (left -ℤ min_ℤ have left)
left_nonneg have left = ground (arith, -ℤ_parts left left, -ℤ_parts left have)

taken_le : (have left : ℤ) → min_ℤ have left ≤ℤ have
taken_le have left = ground arith

part_sum : (m k : String) (a b : ℤ) → part m k a +ℤ part m k b ≡ part m k (a +ℤ b)
part_sum m k a b = ground (arith, zero_front (pos 0))

minus_zero : (sum : ℤ) → sum ≡ sum -ℤ pos 0
minus_zero sum = omega int_laws

no_part : (sum : ℤ) (m k : String) (a : ℤ) → a ≡ pos 0 → sum ≡ sum -ℤ part m k a
no_part sum m k a h = ground (arith, minus_zero sum)

nothing_left :
    (left sum : ℤ)
    → leb_ℤ left (pos 0) ≡ true
    → pos 0 ≤ℤ left
    → pos 0 ≤ℤ sum
    → min_ℤ left sum ≡ pos 0
nothing_left left sum h k l = ground arith

nothing_held : (left : ℤ) → pos 0 ≤ℤ left → min_ℤ left (pos 0) ≡ pos 0
nothing_held left h = ground arith

module _ (D : DecimalOps) where
  open D use {Num}

  reduced-Found :
      (row : Position Num) (taken : ℤ) (rows ps : List (Position Num))
      → All (OtherKey row) ps
      → All (Found rows) ps
      → All (Found (reduced D row taken rows)) ps
  reduced-Found row taken rows [] h k = tt
  reduced-Found row taken rows (p ∷ ps) h k =
      (reduced-find_row D row taken rows p h.0 ∙ k.0, reduced-Found row taken rows ps h.1 k.1)

  sell_from-IsBook :
      (left : ℤ) (ordered rows : List (Position Num))
      → IsBook rows
      → IsBook (sell_from D left ordered rows)
  unfolding sell_from
  sell_from-IsBook left [] rows b = b
  sell_from-IsBook left (row ∷ ordered) rows b =
      let taken = min_ℤ row.amount_base left in
      let rest =
        sell_from-IsBook (left -ℤ taken) ordered (reduced D row taken rows)
          (reduced-IsBook D row taken rows b) in
      elim (Bool-cases (leb_ℤ left (pos 0))) [ inl e ↦ rw e b | inr e ↦ rw e rest ]

  sell_from-total :
      (k m : String) (left : ℤ) (ordered rows : List (Position Num))
      → pos 0 ≤ℤ left
      → IsBook rows
      → Pairwise OtherKey ordered
      → All IsHeld ordered
      → All (λ p. p.mint ≡ m) ordered
      → All (Found rows) ordered
      → total k (sell_from D left ordered rows)
        ≡ total k rows -ℤ part m k (min_ℤ left (amounts ordered))
  unfolding sell_from amounts
  sell_from-total k m left [] rows h b keyed held own found =
      no_part (total k rows) m k (min_ℤ left (pos 0)) (nothing_held left h)
  sell_from-total k m left (row ∷ ordered) rows h b keyed held own found =
      elim (Bool-cases (leb_ℤ left (pos 0))) [
        | inl e ↦
            let all = amounts (row ∷ ordered) in
            let some_left = nothing_left left all e h (amounts-nonneg (row ∷ ordered) held) in
            rw e (no_part (total k rows) m k (min_ℤ left all) some_left)
        | inr e ↦
            let taken = min_ℤ row.amount_base left in
            let first =
              reduced-total D row taken rows (taken_le row.amount_base left) k b.keyed found.0 in
            let rest =
              sell_from-total k m (left -ℤ taken) ordered (reduced D row taken rows)
                (left_nonneg row.amount_base left) (reduced-IsBook D row taken rows b) keyed.1
                held.1 own.1 (reduced-Found row taken rows ordered keyed.0 found.1) in
            let others = min_ℤ (left -ℤ taken) (amounts ordered) in
            rw e (
              rest
              ∙ ap (λ t. t -ℤ part m k others) first
              ∙ ap (λ n. (total k rows -ℤ part n k taken) -ℤ part m k others) own.0
              ∙ after_taken (total k rows) (part m k taken) (part m k others)
              ∙ ap (λ a. total k rows -ℤ a) (part_sum m k taken others)
              ∙ ap (λ a. total k rows -ℤ part m k a)
                  (sym (
                    min_split row.amount_base left (amounts ordered)
                      (amounts-nonneg ordered held.1))))
      ]

  -- A sale of a mint takes the lesser of its amount and what the rows of the mint hold, leaves every
  -- other mint alone, and keeps the table a book.
  pub position_sub-total :
      (k m strategy : String) (base : ℤ) (rows : List (Position Num))
      → pos 0 ≤ℤ base
      → IsBook rows
      → total k (position_sub D m strategy base rows)
        ≡ total k rows -ℤ part m k (min_ℤ base (total m rows))
  unfolding position_sub sale_order
  position_sub-total k m strategy base rows h b =
      let all = rows_of m rows in
      let dated = sort_by opened_before all in
      let own = own_before strategy in
      let keyed = Pairwise-sort_by OtherKey own OtherKey-sym dated (
        Pairwise-sort_by OtherKey opened_before OtherKey-sym all
          (Pairwise-rows_of m rows b.keyed)) in
      let kept = λ (P : Position Num → Type 0) (p : All P all).
        All-sort_by own P dated (All-sort_by opened_before P all p) in
      let held = kept IsHeld (All-rows_of IsHeld m rows b.held) in
      let mints = kept (λ p. p.mint ≡ m) (rows_of-mint m rows) in
      let found = kept (Found rows) (All-rows_of (Found rows) m rows (keyed-Found rows b.keyed)) in
      sell_from-total k m base (sort_by own dated) rows h b keyed held mints found
      ∙ ap (λ a. total k rows -ℤ part m k (min_ℤ base a))
          (amounts-sort_by own dated ∙ amounts-sort_by opened_before all ∙ amounts-rows_of m rows)

  pub position_sub-IsBook :
      (m strategy : String) (base : ℤ) (rows : List (Position Num))
      → IsBook rows
      → IsBook (position_sub D m strategy base rows)
  unfolding position_sub
  position_sub-IsBook m strategy base rows b =
      sell_from-IsBook base (sale_order m strategy rows) rows b
