-- ===== src/Ledger/Positions/Reduce.antt =====
-- One row is reduced by what a sale takes of it, or added to.
use agent_trading.Base.{
  ℕ, ◌≡◌, refl, subst, true, false, none, some, List, [], ◌∷◌, ◌++◌, String, arith, ◌&&◌, All,
  Bool-cases, Option-cases, inl, inr, ◌∙◌, ap,
}
use agent_trading.Base.Int.{ℤ, pos, ◌+ℤ◌, ◌-ℤ◌, ltb_ℤ, leb_ℤ, ◌≤ℤ◌, int_laws, leb_ℤ_iff, +ℤ_parts}
use agent_trading.Base.Text.{str_eq, str_eq_iff}
use agent_trading.Base.Sort.{Pairwise}
use agent_trading.Models.{Position}
use agent_trading.Decimal.{DecimalOps}
use agent_trading.Ledger.Positions.{is_row, find_row, update_row, delete_row, reduced, position_add}
use agent_trading.Ledger.Positions.Rows.{
  OtherKey, OtherKey-sym, IsHeld, IsBook, total, part, total-update_row, total-delete_row,
  find_row-Absent, Absent,
}

last_added : (own a sum : ℤ) → own +ℤ (sum +ℤ a) ≡ (own +ℤ sum) +ℤ a
last_added own a sum = omega int_laws

one_added : (a : ℤ) → a +ℤ pos 0 ≡ pos 0 +ℤ a
one_added a = omega int_laws

module _ {N : Type 0} where
  total-append_row :
      (k : String) (p : Position N) (rows : List (Position N))
      → total k (rows ++ p ∷ []) ≡ total k rows +ℤ part p.mint k p.amount_base
  unfolding total
  total-append_row k p [] = ground (arith, one_added p.amount_base, one_added (pos 0))
  total-append_row k p (q ∷ qs) =
      let own = part q.mint k q.amount_base in
      ap (λ t. own +ℤ t) (total-append_row k p qs)
      ∙ last_added own (part p.mint k p.amount_base) (total k qs)

  find_row-update_row :
      (k j mint strategy : String) (a : ℤ) (c : N) (rows : List (Position N))
      → (str_eq mint k && str_eq strategy j) ≡ false
      → find_row k j (update_row mint strategy a c rows) ≡ find_row k j rows
  unfolding find_row update_row
  find_row-update_row k j mint strategy a c [] h = refl
  find_row-update_row k j mint strategy a c (q ∷ qs) h = ground (
    arith,
    find_row-update_row k j mint strategy a c qs h,
    str_eq_iff q.mint mint,
    str_eq_iff q.strategy strategy,
    str_eq_iff mint k,
    str_eq_iff q.mint k,
    str_eq_iff strategy j,
    str_eq_iff q.strategy j,
  )

  find_row-delete_row :
      (k j mint strategy : String) (rows : List (Position N))
      → (str_eq mint k && str_eq strategy j) ≡ false
      → find_row k j (delete_row mint strategy rows) ≡ find_row k j rows
  unfolding find_row delete_row
  find_row-delete_row k j mint strategy [] h = refl
  find_row-delete_row k j mint strategy (q ∷ qs) h = ground (
    arith,
    find_row-delete_row k j mint strategy qs h,
    str_eq_iff q.mint mint,
    str_eq_iff q.strategy strategy,
    str_eq_iff mint k,
    str_eq_iff q.mint k,
    str_eq_iff strategy j,
    str_eq_iff q.strategy j,
  )

  -- A predicate that reads the key and the amount.
  All-update_row :
      (P : Position N → Type 0) (mint strategy : String) (a : ℤ) (c : N) (rows : List (Position N))
      → ((p : Position N)
          → is_row mint strategy p ≡ true
          → P p
          → P (record p { amount_base = a; cost_usd = c }))
      → All P rows
      → All P (update_row mint strategy a c rows)
  unfolding update_row
  All-update_row P mint strategy a c [] f h = tt
  All-update_row P mint strategy a c (q ∷ qs) f h = elim (Bool-cases (is_row mint strategy q)) [
    | inl e ↦ rw e (f q e h.0, All-update_row P mint strategy a c qs f h.1)
    | inr e ↦ rw e (h.0, All-update_row P mint strategy a c qs f h.1)
  ]

  All-delete_row :
      (P : Position N → Type 0) (mint strategy : String) (rows : List (Position N))
      → All P rows
      → All P (delete_row mint strategy rows)
  unfolding delete_row
  All-delete_row P mint strategy [] h = tt
  All-delete_row P mint strategy (q ∷ qs) h = ground (arith, All-delete_row P mint strategy qs h.1)

  Pairwise-update_row :
      (mint strategy : String) (a : ℤ) (c : N) (rows : List (Position N))
      → Pairwise OtherKey rows
      → Pairwise OtherKey (update_row mint strategy a c rows)
  unfolding update_row
  Pairwise-update_row mint strategy a c [] h = tt
  Pairwise-update_row mint strategy a c (q ∷ qs) h =
      let others = All-update_row (OtherKey q) mint strategy a c qs (λ p e k. k) h.0 in
      let rest = Pairwise-update_row mint strategy a c qs h.1 in
      elim (Bool-cases (is_row mint strategy q)) [
        | inl e ↦ rw e (others, rest)
        | inr e ↦ rw e (others, rest)
      ]

  Pairwise-delete_row :
      (mint strategy : String) (rows : List (Position N))
      → Pairwise OtherKey rows
      → Pairwise OtherKey (delete_row mint strategy rows)
  unfolding delete_row
  Pairwise-delete_row mint strategy [] h = tt
  Pairwise-delete_row mint strategy (q ∷ qs) h =
      let others = All-delete_row (OtherKey q) mint strategy qs h.0 in
      ground (arith, others, Pairwise-delete_row mint strategy qs h.1)

  find_row-All :
      (P : Position N → Type 0) (mint strategy : String) (rows : List (Position N)) (p : Position N)
      → find_row mint strategy rows ≡ some p
      → All P rows
      → P p
  unfolding find_row
  find_row-All P mint strategy [] p e h = absurd (ground arith)
  find_row-All P mint strategy (q ∷ qs) p e h = elim (Bool-cases (is_row mint strategy q)) [
    | inl f ↦ let same : q ≡ p = ground arith in subst P same h.0
    | inr f ↦ find_row-All P mint strategy qs p (ground arith) h.1
  ]

  All-append_row :
      (P : Position N → Type 0) (p : Position N) (rows : List (Position N))
      → All P rows
      → P p
      → All P (rows ++ p ∷ [])
  All-append_row P p [] h k = (k, tt)
  All-append_row P p (q ∷ qs) h k = (h.0, All-append_row P p qs h.1 k)

  Pairwise-append_row :
      (p : Position N) (rows : List (Position N))
      → Absent p.mint p.strategy rows
      → Pairwise OtherKey rows
      → Pairwise OtherKey (rows ++ p ∷ [])
  Pairwise-append_row p [] a h = (tt, tt)
  Pairwise-append_row p (q ∷ qs) a h = (
    All-append_row (OtherKey q) p qs h.0 (OtherKey-sym p q a.0),
    Pairwise-append_row p qs a.1 h.1,
  )

  appended-IsBook :
      (p : Position N) (rows : List (Position N))
      → Absent p.mint p.strategy rows
      → IsHeld p
      → IsBook rows
      → IsBook (rows ++ p ∷ [])
  appended-IsBook p rows a h b = record {
    keyed = Pairwise-append_row p rows a b.keyed;
    held = All-append_row IsHeld p rows b.held h;
  }

  update_row-IsBook :
      (mint strategy : String) (a : ℤ) (c : N) (rows : List (Position N))
      → ltb_ℤ (pos 0) a ≡ true
      → IsBook rows
      → IsBook (update_row mint strategy a c rows)
  update_row-IsBook mint strategy a c rows h b = record {
    keyed = Pairwise-update_row mint strategy a c rows b.keyed;
    held = All-update_row IsHeld mint strategy a c rows (λ p e k. h) b.held;
  }

  delete_row-IsBook :
      (mint strategy : String) (rows : List (Position N))
      → IsBook rows
      → IsBook (delete_row mint strategy rows)
  delete_row-IsBook mint strategy rows b = record {
    keyed = Pairwise-delete_row mint strategy rows b.keyed;
    held = All-delete_row IsHeld mint strategy rows b.held;
  }

all_taken : (have taken : ℤ) → taken ≤ℤ have → leb_ℤ (have -ℤ taken) (pos 0) ≡ true → have ≡ taken
all_taken have taken h k = omega (int_laws, (leb_ℤ_iff (have -ℤ taken) (pos 0)).0 k)

rest_kept : (sum have taken : ℤ) → (sum -ℤ have) +ℤ (have -ℤ taken) ≡ sum -ℤ taken
rest_kept sum have taken = omega int_laws

none_kept : (sum : ℤ) → (sum -ℤ pos 0) +ℤ pos 0 ≡ sum -ℤ pos 0
none_kept sum = omega int_laws

add_part : (sum old base : ℤ) → (sum -ℤ old) +ℤ (old +ℤ base) ≡ sum +ℤ base
add_part sum old base = omega int_laws

none_added : (sum : ℤ) → (sum -ℤ pos 0) +ℤ pos 0 ≡ sum +ℤ pos 0
none_added sum = omega int_laws

module _ (D : DecimalOps) where
  open D use {Num}

  module _ (row : Position Num) (taken : ℤ) (rows : List (Position Num))
      (bounded : taken ≤ℤ row.amount_base) where
    pub reduced-total :
        (k : String)
        → Pairwise OtherKey rows
        → find_row row.mint row.strategy rows ≡ some row
        → total k (reduced D row taken rows) ≡ total k rows -ℤ part row.mint k taken
    reduced-total k keyed found = elim (Bool-cases (leb_ℤ (row.amount_base -ℤ taken) (pos 0))) [
      | inl e ↦
          let gone = all_taken row.amount_base taken bounded e in
          rw e (
            total-delete_row k row.mint row.strategy rows row keyed found
            ∙ ap (λ a. total k rows -ℤ part row.mint k a) gone)
      | inr e ↦ rw e (
          total-update_row k row.mint row.strategy (row.amount_base -ℤ taken) _ rows row keyed found
          ∙ ground
              (arith, rest_kept (total k rows) row.amount_base taken, none_kept (total k rows)))
    ]

  pub reduced-find_row :
      (row : Position Num) (taken : ℤ) (rows : List (Position Num)) (q : Position Num)
      → OtherKey row q
      → find_row q.mint q.strategy (reduced D row taken rows) ≡ find_row q.mint q.strategy rows
  reduced-find_row row taken rows q other =
      let apart : (str_eq row.mint q.mint && str_eq row.strategy q.strategy) ≡ false = ground (
        arith,
        str_eq_iff q.mint row.mint,
        str_eq_iff row.mint q.mint,
        str_eq_iff q.strategy row.strategy,
        str_eq_iff row.strategy q.strategy,
      ) in
      elim (Bool-cases (leb_ℤ (row.amount_base -ℤ taken) (pos 0))) [
        | inl e ↦ rw e (find_row-delete_row q.mint q.strategy row.mint row.strategy rows apart)
        | inr e ↦ rw e (find_row-update_row q.mint q.strategy row.mint row.strategy _ _ rows apart)
      ]

  pub reduced-IsBook :
      (row : Position Num) (taken : ℤ) (rows : List (Position Num))
      → IsBook rows
      → IsBook (reduced D row taken rows)
  reduced-IsBook row taken rows b = elim (Bool-cases (leb_ℤ (row.amount_base -ℤ taken) (pos 0))) [
    | inl e ↦ rw e (delete_row-IsBook row.mint row.strategy rows b)
    | inr e ↦ rw e (update_row-IsBook row.mint row.strategy _ _ rows (ground arith) b)
  ]

  -- A purchase adds its amount to its mint and leaves every other mint alone.
  pub position_add-total :
      (k m strategy : String) (base : ℤ) (usd : Num) (ts : ℕ) (rows : List (Position Num))
      → IsBook rows
      → total k (position_add D m strategy base usd ts rows) ≡ total k rows +ℤ part m k base
  unfolding position_add
  position_add-total k m strategy base usd ts rows b =
      elim (Option-cases (find_row m strategy rows)) [
        | inl e ↦ rw e (
            total-append_row k
              (record {
                mint = m;
                amount_base = base;
                cost_usd = usd;
                opened_at = ts;
                strategy = strategy;
                exit = none;
              })
              rows)
        | inr (p, e) ↦ rw e (
            total-update_row k m strategy (p.amount_base +ℤ base) _ rows p b.keyed e
            ∙ ground (arith, add_part (total k rows) p.amount_base base, none_added (total k rows)))
      ]

  pub position_add-IsBook :
      (m strategy : String) (base : ℤ) (usd : Num) (ts : ℕ) (rows : List (Position Num))
      → ltb_ℤ (pos 0) base ≡ true
      → IsBook rows
      → IsBook (position_add D m strategy base usd ts rows)
  unfolding position_add
  position_add-IsBook m strategy base usd ts rows h b =
      elim (Option-cases (find_row m strategy rows)) [
        | inl e ↦ rw e (appended-IsBook _ rows (find_row-Absent m strategy rows e) h b)
        | inr (p, e) ↦
            let old = found_held rows p e b.held in
            let more : ltb_ℤ (pos 0) (p.amount_base +ℤ base) ≡ true =
              ground (arith, +ℤ_parts p.amount_base base) in
            rw e (update_row-IsBook m strategy (p.amount_base +ℤ base) _ rows more b)
      ]
    where
      found_held :
          (qs : List (Position Num)) (p : Position Num)
          → find_row m strategy qs ≡ some p
          → All IsHeld qs
          → IsHeld p
      found_held qs p e all = find_row-All IsHeld m strategy qs p e all
