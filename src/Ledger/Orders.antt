-- ===== src/Ledger/Orders.antt =====
-- The orders table of src/tiller/ledger.py, with the book that a filled order updates.
pub mod Final
use agent_trading.Base.{
  ℕ, ◌+◌, Bool, true, false, Option, none, some, List, [], ◌∷◌, ◌++◌, String, if◌then◌else◌, not,
  ◌&&◌, ◌||◌, ◌==◌,
}
use agent_trading.Decimal.{DecimalOps}
use agent_trading.Models.{Fill, SwapRequest}
use agent_trading.Ledger.Fills.{Book, record_fill}

-- `state IN ('submitted','filled','failed')`
pub data OrderState : Type 0 where
  submitted filled failed : OrderState

pub record OrderRow : Type 0 where
  pub id : ℕ
  pub ts : ℕ
  pub req : SwapRequest
  pub state : OrderState
  pub signature : Option String
  pub error : Option String
  pub finalized_ts : Option ℕ

-- The tables, with the next value of the autoincremented key.
pub record Ledger (N : Type 0) : Type 0 where
  pub orders : List OrderRow
  pub next_id : ℕ
  pub book : Book N

abbrev pub is_submitted : OrderState → Bool
is_submitted submitted = true
is_submitted filled = false
is_submitted failed = false

-- `COALESCE(a, b)`
abbrev coalesce : Option String → Option String → Option String
coalesce none b = b
coalesce (some a) b = some a

abbrev pub or_unknown : Option String → String
or_unknown none = "unknown"
or_unknown (some e) = if is_empty e then "unknown" else e
  where
    is_empty : String → Bool
    is_empty String.[] = true
    is_empty (String.◌∷◌ _ _) = false

-- The row of an order, as `fetchone` returns it.
unfoldable pub find_order : ℕ → List OrderRow → Option OrderRow
find_order id [] = none
find_order id (r ∷ rs) = if r.id == id then some r else find_order id rs

-- `UPDATE orders SET ... WHERE id=?`
unfoldable pub update_order : ℕ → (OrderRow → OrderRow) → List OrderRow → List OrderRow
update_order id f [] = []
update_order id f (r ∷ rs) = (if r.id == id then f r else r) ∷ update_order id f rs

abbrev pub failed_row : Option String → ℕ → OrderRow → OrderRow
failed_row e now r = record r {
  state = failed;
  error = some (or_unknown e);
  finalized_ts = some now;
}

-- `pending_signatures`
unfoldable pub pending_signatures : List OrderRow → List (ℕ × String)
pending_signatures [] = []
pending_signatures (r ∷ rs) = elim r.signature [
  | none ↦ pending_signatures rs
  | some s ↦
      if is_submitted r.state then (r.id, s) ∷ pending_signatures rs else pending_signatures rs
]

module _ {N : Type 0} where
  unfoldable pub record_order : SwapRequest → Option String → ℕ → Ledger N → ℕ × Ledger N
  record_order req signature now l =
      let row : OrderRow = record {
        id = l.next_id;
        ts = now;
        req = req;
        state = submitted;
        signature = signature;
        error = none;
        finalized_ts = none;
      } in
      (l.next_id, record l { orders = l.orders ++ row ∷ []; next_id = l.next_id + 1 })

  abbrev pub filled_row : Fill N → ℕ → OrderRow → OrderRow
  filled_row f now r = record r {
    state = filled;
    signature = coalesce f.signature r.signature;
    finalized_ts = some now;
  }

module _ (D : DecimalOps) where
  open D use {Num}

  -- A submitted row, with its fill or its error.
  abbrev pub finalize_row : ℕ → Option (Fill Num) → Option String → ℕ → Ledger Num → Ledger Num
  finalize_row id (some f) e now l = record l {
    orders = update_order id (filled_row f now) l.orders;
    book = record_fill D f l.book;
  }
  finalize_row id none e now l = record l { orders = update_order id (failed_row e now) l.orders }

  -- `none` is the `KeyError` of an unknown order.
  unfoldable pub finalize_order :
      ℕ → Option (Fill Num) → Option String → ℕ → Ledger Num → Option (Ledger Num)
  finalize_order id fill e now l = elim (find_order id l.orders) [
    | none ↦ none
    | some row ↦ if is_submitted row.state then some (finalize_row id fill e now l) else some l
  ]
