-- ===== src/Ledger/Positions/Rows.antt =====
-- One row of the positions table is updated or deleted: keys, totals of a mint, other rows.
use agent_trading.Base.{
  ◌≡◌, refl, true, false, none, some, List, [], ◌∷◌, String, arith, if◌then◌else◌, All, Bool-cases,
  inl, inr,
}
use agent_trading.Base.Int.{ℤ, pos, ◌+ℤ◌, ◌-ℤ◌, ltb_ℤ, int_laws}
use agent_trading.Base.Text.{str_eq, str_eq_iff}
use agent_trading.Base.Sort.{Pairwise}
use agent_trading.Models.{Position}
use agent_trading.Ledger.Positions.{is_row, find_row, update_row, delete_row}

-- The amount of a row, where it is of the mint.
abbrev pub part : String → String → ℤ → ℤ
part mint k a = if str_eq mint k then a else pos 0

swap_part : (old new rest : ℤ) → new +ℤ rest ≡ ((old +ℤ rest) -ℤ old) +ℤ new
swap_part old new rest = omega int_laws

under_part : (own rest old new : ℤ) → own +ℤ ((rest -ℤ old) +ℤ new) ≡ ((own +ℤ rest) -ℤ old) +ℤ new
under_part own rest old new = omega int_laws

drop_part : (old rest : ℤ) → rest ≡ (old +ℤ rest) -ℤ old
drop_part old rest = omega int_laws

keep_part : (own rest old : ℤ) → own +ℤ (rest -ℤ old) ≡ (own +ℤ rest) -ℤ old
keep_part own rest old = omega int_laws

module _ {N : Type 0} where
  -- Rows of different keys.
  abbrev pub OtherKey : Position N → Position N → Type 0
  OtherKey p q = is_row p.mint p.strategy q ≡ false

  pub OtherKey-sym : (p q : Position N) → OtherKey p q → OtherKey q p
  OtherKey-sym p q h = ground (
    arith,
    str_eq_iff q.mint p.mint,
    str_eq_iff p.mint q.mint,
    str_eq_iff q.strategy p.strategy,
    str_eq_iff p.strategy q.strategy,
  )

  abbrev pub IsHeld : Position N → Type 0
  IsHeld p = ltb_ℤ (pos 0) p.amount_base ≡ true

  -- The table as the program keeps it: no key twice, and every amount positive.
  pub record IsBook (rows : List (Position N)) : Type 0 where
    pub keyed : Pairwise OtherKey rows
    pub held : All IsHeld rows

  -- The amount of a mint over all rows.
  unfoldable pub total : String → List (Position N) → ℤ
  total mint [] = pos 0
  total mint (p ∷ ps) = (if str_eq p.mint mint then p.amount_base else pos 0) +ℤ total mint ps

  abbrev pub Absent : String → String → List (Position N) → Type 0
  Absent mint strategy rows = All (λ p. is_row mint strategy p ≡ false) rows

  pub find_row-key :
      (mint strategy : String) (rows : List (Position N)) (p : Position N)
      → find_row mint strategy rows ≡ some p
      → (p.mint ≡ mint) × (p.strategy ≡ strategy)
  unfolding find_row
  find_row-key mint strategy [] p h = cc
  find_row-key mint strategy (q ∷ qs) p h = ground (
    arith,
    find_row-key mint strategy qs p,
    str_eq_iff q.mint mint,
    str_eq_iff q.strategy strategy,
  )

  pub find_row-Absent :
      (mint strategy : String) (rows : List (Position N))
      → find_row mint strategy rows ≡ none
      → Absent mint strategy rows
  unfolding find_row
  find_row-Absent mint strategy [] h = tt
  find_row-Absent mint strategy (q ∷ qs) h = ground (arith, find_row-Absent mint strategy qs)

  -- The rows after the one with a key have other keys.
  keyed-Absent :
      (mint strategy : String) (p : Position N) (ps : List (Position N))
      → is_row mint strategy p ≡ true
      → All (OtherKey p) ps
      → Absent mint strategy ps
  keyed-Absent mint strategy p [] h k = tt
  keyed-Absent mint strategy p (q ∷ qs) h k = (
    ground (
      arith,
      str_eq_iff p.mint mint,
      str_eq_iff p.strategy strategy,
      str_eq_iff q.mint mint,
      str_eq_iff q.strategy strategy,
      str_eq_iff q.mint p.mint,
      str_eq_iff q.strategy p.strategy,
    ),
    keyed-Absent mint strategy p qs h k.1,
  )

  update_row-Absent :
      (mint strategy : String) (a : ℤ) (c : N) (rows : List (Position N))
      → Absent mint strategy rows
      → update_row mint strategy a c rows ≡ rows
  unfolding update_row
  update_row-Absent mint strategy a c [] h = refl
  update_row-Absent mint strategy a c (q ∷ qs) h =
      ground (arith, update_row-Absent mint strategy a c qs h.1)

  delete_row-Absent :
      (mint strategy : String) (rows : List (Position N))
      → Absent mint strategy rows
      → delete_row mint strategy rows ≡ rows
  unfolding delete_row
  delete_row-Absent mint strategy [] h = refl
  delete_row-Absent mint strategy (q ∷ qs) h =
      ground (arith, delete_row-Absent mint strategy qs h.1)

  pub total-update_row :
      (k mint strategy : String) (a : ℤ) (c : N) (rows : List (Position N)) (p : Position N)
      → Pairwise OtherKey rows
      → find_row mint strategy rows ≡ some p
      → total k (update_row mint strategy a c rows)
        ≡ (total k rows -ℤ part mint k p.amount_base) +ℤ part mint k a
  unfolding total find_row update_row
  total-update_row k mint strategy a c [] p keyed h = cc
  total-update_row k mint strategy a c (q ∷ qs) p keyed h =
      elim (Bool-cases (is_row mint strategy q)) [
        | inl e ↦
            let gone =
              update_row-Absent mint strategy a c qs (keyed-Absent mint strategy q qs e keyed.0) in
            ground (
              arith,
              gone,
              str_eq_iff q.mint mint,
              str_eq_iff q.mint k,
              str_eq_iff mint k,
              swap_part (part q.mint k q.amount_base) (part q.mint k a) (total k qs),
            )
        | inr e ↦
            let rest = total-update_row k mint strategy a c qs p keyed.1 (ground arith) in
            ground (
              arith,
              rest,
              under_part (part q.mint k q.amount_base) (total k qs) (part mint k p.amount_base)
                  (part mint k a),
            )
      ]

  pub total-delete_row :
      (k mint strategy : String) (rows : List (Position N)) (p : Position N)
      → Pairwise OtherKey rows
      → find_row mint strategy rows ≡ some p
      → total k (delete_row mint strategy rows) ≡ total k rows -ℤ part mint k p.amount_base
  unfolding total find_row delete_row
  total-delete_row k mint strategy [] p keyed h = cc
  total-delete_row k mint strategy (q ∷ qs) p keyed h = elim (Bool-cases (is_row mint strategy q)) [
    | inl e ↦
        let gone = delete_row-Absent mint strategy qs (keyed-Absent mint strategy q qs e keyed.0) in
        ground (
          arith,
          gone,
          str_eq_iff q.mint mint,
          str_eq_iff q.mint k,
          str_eq_iff mint k,
          drop_part (part q.mint k q.amount_base) (total k qs),
        )
    | inr e ↦
        let rest = total-delete_row k mint strategy qs p keyed.1 (ground arith) in
        ground (
          arith,
          rest,
          keep_part (part q.mint k q.amount_base) (total k qs) (part mint k p.amount_base),
        )
  ]
