-- ===== src/Reconcile/Amounts.antt =====
-- Sorted sets of mints, and the amounts of the ledger as totals of its rows.
use agent_trading.Base.{
  ◌≡◌, refl, ap, ◌∙◌, Bool, false, List, [], ◌∷◌, ◌++◌, String, arith, if◌then◌else◌, ◌||◌, any,
}
use agent_trading.Base.Int.{ℤ, pos, ◌+ℤ◌, int_laws}
use agent_trading.Base.Text.{str_eq, str_eq_iff, str_in}
use agent_trading.Base.Dict.{Dict, lookup_or, insert}
use agent_trading.Base.Sort.{insert_by, sort_by}
use agent_trading.Models.{Position}
use agent_trading.Account.Balances.{balance-adjust}
use agent_trading.Ledger.Positions.{positions}
use agent_trading.Ledger.Positions.Rows.{total}
use agent_trading.Reconcile.Compare.{Mismatch, keys_of, amounts_from, ledger_amounts}

swapped : (a b rest : ℤ) → b +ℤ (a +ℤ rest) ≡ a +ℤ (b +ℤ rest)
swapped a b rest = omega int_laws

regroup : (a b rest : ℤ) → (a +ℤ b) +ℤ rest ≡ a +ℤ (b +ℤ rest)
regroup a b rest = omega int_laws

zero_plus : (a : ℤ) → pos 0 +ℤ a ≡ a
zero_plus a = omega int_laws

-- A key that a dict does not list.
pub absent_key :
    (m : String) (d : Dict ℤ) → str_in m (keys_of d) ≡ false → lookup_or m (pos 0) d ≡ pos 0
absent_key m [] h = refl
absent_key m ((k, v) ∷ d) h = ground (arith, absent_key m d, str_eq_iff m k, str_eq_iff k m)

abbrev pub is_listed : {N : Type 0} → String → List (Mismatch N) → Bool
is_listed m xs = any (λ x. str_eq x.mint m) xs

pub is_listed-append :
    {N : Type 0} (m : String) (xs : List (Mismatch N)) (x : Mismatch N)
    → is_listed m (xs ++ x ∷ []) ≡ (is_listed m xs || str_eq x.mint m)
is_listed-append m [] x = ground arith
is_listed-append m (y ∷ ys) x = ground (arith, is_listed-append m ys x)

-- The amounts of the ledger are its totals.
module _ {N : Type 0} where
  amounts_from-total :
      (m : String) (out : Dict ℤ) (ps : List (Position N))
      → lookup_or m (pos 0) (amounts_from out ps) ≡ lookup_or m (pos 0) out +ℤ total m ps
  unfolding amounts_from total
  amounts_from-total m out [] = omega int_laws
  amounts_from-total m out (p ∷ ps) =
      amounts_from-total m (insert p.mint (lookup_or p.mint (pos 0) out +ℤ p.amount_base) out) ps
      ∙ ap (λ b. b +ℤ total m ps) (balance-adjust m p.mint p.amount_base out)
      ∙ regroup (lookup_or m (pos 0) out) (if str_eq p.mint m then p.amount_base else pos 0)
          (total m ps)

  total-insert_by :
      (le : Position N → Position N → Bool) (m : String) (p : Position N) (ps : List (Position N))
      → total m (insert_by le p ps) ≡ total m (p ∷ ps)
  unfolding insert_by total
  total-insert_by le m p [] = refl
  total-insert_by le m p (q ∷ ps) = ground (
    arith,
    total-insert_by le m p ps,
    swapped (if str_eq p.mint m then p.amount_base else pos 0)
        (if str_eq q.mint m then q.amount_base else pos 0) (total m ps),
  )

  total-sort_by :
      (le : Position N → Position N → Bool) (m : String) (ps : List (Position N))
      → total m (sort_by le ps) ≡ total m ps
  unfolding sort_by total
  total-sort_by le m [] = refl
  total-sort_by le m (p ∷ ps) =
      total-insert_by le m p (sort_by le ps)
      ∙ ap (λ b. (if str_eq p.mint m then p.amount_base else pos 0) +ℤ b) (total-sort_by le m ps)

  -- The ledger's amount of a mint, as the report reads it.
  pub ledger_amounts-total :
      (m : String) (rows : List (Position N))
      → lookup_or m (pos 0) (ledger_amounts (positions rows)) ≡ total m rows
  unfolding ledger_amounts positions
  ledger_amounts-total m rows =
      amounts_from-total m [] (positions rows)
      ∙ zero_plus (total m (positions rows))
      ∙ total-sort_by _ m rows
