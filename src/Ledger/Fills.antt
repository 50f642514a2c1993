-- ===== src/Ledger/Fills.antt =====
-- `record_fill` of src/tiller/ledger.py: the fills table and what a fill does to the positions.
pub mod Refines
use agent_trading.Base.{
  ℕ, Bool, true, false, Option, none, some, List, [], ◌∷◌, ◌++◌, String, if◌then◌else◌, not, ◌&&◌,
  ◌||◌, leb, ltb,
}
use agent_trading.Base.Text.{str_eq}
use agent_trading.Decimal.{DecimalOps}
use agent_trading.Models.{Fill, Position, usdc_mint}
use agent_trading.Ledger.Positions.{position_add, position_sub}

pub record Book (N : Type 0) : Type 0 where
  pub fills : List (Fill N)
  pub rows : List (Position N)

-- `STABLE_MINTS`
abbrev pub is_stable : String → Bool
is_stable mint = str_eq mint usdc_mint

abbrev pub has_signature : String → Option String → Bool
has_signature s none = false
has_signature s (some t) = str_eq t s

-- `SELECT 1 FROM fills WHERE signature=?`
unfoldable pub is_recorded : {N : Type 0} → String → List (Fill N) → Bool
is_recorded s [] = false
is_recorded s (f ∷ fs) = has_signature s f.signature || is_recorded s fs

abbrev pub is_duplicate : {N : Type 0} → Option String → List (Fill N) → Bool
is_duplicate none fs = false
is_duplicate (some s) fs = is_recorded s fs

module _ (D : DecimalOps) where
  open D use {Num}

  abbrev pub bought : Fill Num → List (Position Num) → List (Position Num)
  bought f rows =
      if is_stable f.out_mint
      then rows
      else position_add D f.out_mint f.strategy f.out_base f.usd_in f.ts rows

  abbrev pub sold : Fill Num → List (Position Num) → List (Position Num)
  sold f rows =
      if is_stable f.in_mint then rows else position_sub D f.in_mint f.strategy f.in_base rows

  unfoldable pub record_fill : Fill Num → Book Num → Book Num
  record_fill f b =
      if is_duplicate f.signature b.fills
      then b
      else record { fills = b.fills ++ f ∷ []; rows = sold f (bought f b.rows) }

  unfoldable pub record_fills : List (Fill Num) → Book Num → Book Num
  record_fills [] b = b
  record_fills (f ∷ fs) b = record_fills fs (record_fill f b)
