-- ===== src/Ledger/Positions.antt =====
-- The positions table of src/tiller/ledger.py: `_position_add`, `_position_sub`, `positions`,
-- `set_position_exit` and `replace_positions`. The key of a row is its mint and strategy.
pub mod Rows
pub mod Reduce
pub mod Sale
use agent_trading.Base.{
  ℕ, ◌≡◌, Bool, true, false, Option, none, some, List, [], ◌∷◌, ◌++◌, String, if◌then◌else◌, not,
  ◌&&◌, ◌||◌, ltb, leb, ◌==◌,
}
use agent_trading.Base.Int.{ℤ, pos, ◌+ℤ◌, ◌-ℤ◌, leb_ℤ, min_ℤ}
use agent_trading.Base.Text.{str_eq}
use agent_trading.Base.Sort.{sort_by}
use agent_trading.Base.Sets.{str_le}
use agent_trading.Decimal.{DecimalOps}
use agent_trading.Models.{Position, ExitRule}

abbrev pub is_row : {N : Type 0} → String → String → Position N → Bool
is_row mint strategy p = str_eq p.mint mint && str_eq p.strategy strategy

module _ {N : Type 0} where
  -- `ORDER BY opened_at, strategy`
  abbrev pub opened_before : Position N → Position N → Bool
  opened_before p q =
      ltb p.opened_at q.opened_at || (p.opened_at == q.opened_at && str_le p.strategy q.strategy)

  -- `ORDER BY opened_at, mint`
  abbrev listed_before : Position N → Position N → Bool
  listed_before p q =
      ltb p.opened_at q.opened_at || (p.opened_at == q.opened_at && str_le p.mint q.mint)

  -- `key=lambda r: 0 if r["strategy"] == strategy else 1`
  abbrev pub own_before : String → Position N → Position N → Bool
  own_before strategy p q = str_eq p.strategy strategy || not (str_eq q.strategy strategy)

  -- `WHERE mint=?`
  unfoldable pub rows_of : String → List (Position N) → List (Position N)
  rows_of mint [] = []
  rows_of mint (p ∷ ps) = if str_eq p.mint mint then p ∷ rows_of mint ps else rows_of mint ps

  -- `DELETE FROM positions WHERE mint=? AND strategy=?`
  unfoldable pub delete_row : String → String → List (Position N) → List (Position N)
  delete_row mint strategy [] = []
  delete_row mint strategy (p ∷ ps) =
      if is_row mint strategy p
      then delete_row mint strategy ps
      else p ∷ delete_row mint strategy ps

  -- `UPDATE positions SET amount_base=?, cost_usd=? WHERE mint=? AND strategy=?`
  unfoldable pub update_row : String → String → ℤ → N → List (Position N) → List (Position N)
  update_row mint strategy amount cost [] = []
  update_row mint strategy amount cost (p ∷ ps) =
      (if is_row mint strategy p then record p { amount_base = amount; cost_usd = cost } else p)
      ∷ update_row mint strategy amount cost ps

  unfoldable pub set_position_exit :
      String → String → Option (ExitRule N) → List (Position N) → List (Position N)
  set_position_exit mint strategy rule [] = []
  set_position_exit mint strategy rule (p ∷ ps) =
      (if is_row mint strategy p then record p { exit = rule } else p)
      ∷ set_position_exit mint strategy rule ps

  unfoldable pub find_row : String → String → List (Position N) → Option (Position N)
  find_row mint strategy [] = none
  find_row mint strategy (p ∷ ps) =
      if is_row mint strategy p then some p else find_row mint strategy ps

  unfoldable pub positions : List (Position N) → List (Position N)
  positions rows = sort_by listed_before rows

  -- The rows that a sale takes from, in their order.
  unfoldable pub sale_order : String → String → List (Position N) → List (Position N)
  sale_order mint strategy rows =
      sort_by (own_before strategy) (sort_by opened_before (rows_of mint rows))

  -- The table for these rows in their order; `none` is the `IntegrityError` of a repeated key.
  unfoldable pub replace_positions : List (Position N) → Option (List (Position N))
  replace_positions [] = some []
  replace_positions (p ∷ ps) = elim (replace_positions ps) [
    | none ↦ none
    | some rows ↦ elim (find_row p.mint p.strategy rows) [ none ↦ some (p ∷ rows) | some _ ↦ none ]
  ]

module _ (D : DecimalOps) where
  open D use {Num, of_ℤ, add, mul, div}

  abbrev pub added_to :
      String
      → String
      → ℤ
      → Num
      → ℕ
      → List (Position Num)
      → Option (Position Num)
      → List (Position Num)
  added_to mint strategy base usd ts rows none =
      rows
      ++ record {
        mint = mint;
        amount_base = base;
        cost_usd = usd;
        opened_at = ts;
        strategy = strategy;
        exit = none;
      }
        ∷ []
  added_to mint strategy base usd ts rows (some row) =
      update_row mint strategy (row.amount_base +ℤ base) (add row.cost_usd usd) rows

  unfoldable pub position_add :
      String → String → ℤ → Num → ℕ → List (Position Num) → List (Position Num)
  position_add mint strategy base usd ts rows =
      added_to mint strategy base usd ts rows (find_row mint strategy rows)

  -- The body of the loop: `taken` of a row.
  abbrev pub reduced : Position Num → ℤ → List (Position Num) → List (Position Num)
  reduced row taken rows =
      let remaining = row.amount_base -ℤ taken in
      if leb_ℤ remaining (pos 0)
      then delete_row row.mint row.strategy rows
      else update_row row.mint row.strategy remaining
          (div (mul row.cost_usd (of_ℤ remaining)) (of_ℤ row.amount_base)) rows

  -- The loop over the ordered rows, with what is left to take.
  unfoldable pub sell_from : ℤ → List (Position Num) → List (Position Num) → List (Position Num)
  sell_from left [] rows = rows
  sell_from left (row ∷ ordered) rows =
      let taken = min_ℤ row.amount_base left in
      let sold = sell_from (left -ℤ taken) ordered (reduced row taken rows) in
      if leb_ℤ left (pos 0) then rows else sold

  unfoldable pub position_sub : String → String → ℤ → List (Position Num) → List (Position Num)
  position_sub mint strategy base rows = sell_from base (sale_order mint strategy rows) rows
