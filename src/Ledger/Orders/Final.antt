-- ===== src/Ledger/Orders/Final.antt =====
-- Orders as a state machine: a row is finalized once, and then never changes.
use agent_trading.Base.{
  ℕ, ◌≡◌, ◌≢◌, refl, true, false, Option, none, some, List, [], ◌∷◌, ◌++◌, String, arith,
  Bool-cases, Option-cases, inl, inr,
}
use agent_trading.Decimal.{DecimalOps}
use agent_trading.Models.{Fill, SwapRequest}
use agent_trading.Ledger.Fills.{record_fill}
use agent_trading.Ledger.Orders.{
  OrderRow, Ledger, is_submitted, find_order, update_order, record_order, filled_row, failed_row,
  finalize_row, finalize_order,
}

find_order-append :
    (id : ℕ) (rows : List OrderRow) (r q : OrderRow)
    → find_order id rows ≡ some r
    → find_order id (rows ++ q ∷ []) ≡ some r
unfolding find_order
find_order-append id [] r q h = cc
find_order-append id (p ∷ ps) r q h = ground (arith, find_order-append id ps r q)

pub find_order-update_order :
    (id j : ℕ) (f : OrderRow → OrderRow) (rows : List OrderRow)
    → j ≢ id
    → ((r : OrderRow) → (f r).id ≡ r.id)
    → find_order id (update_order j f rows) ≡ find_order id rows
unfolding find_order update_order
find_order-update_order id j f [] h k = refl
find_order-update_order id j f (p ∷ ps) h k =
    ground (arith, find_order-update_order id j f ps h k, k p)

find_order-update_own :
    (id : ℕ) (f : OrderRow → OrderRow) (rows : List OrderRow) (r : OrderRow)
    → find_order id rows ≡ some r
    → ((r : OrderRow) → (f r).id ≡ r.id)
    → find_order id (update_order id f rows) ≡ some (f r)
unfolding find_order update_order
find_order-update_own id f [] r h k = cc
find_order-update_own id f (p ∷ ps) r h k = ground (arith, find_order-update_own id f ps r, k p)

module _ (D : DecimalOps) where
  open D use {Num}

  -- What the venue, the boot reconciliation and the operator do with the orders and the book.
  pub data Op : Type 0 where
    records : SwapRequest → Option String → ℕ → Op
    finalizes : ℕ → Option (Fill Num) → Option String → ℕ → Op
    fills : Fill Num → Op

  abbrev or_same : Ledger Num → Option (Ledger Num) → Ledger Num
  or_same l none = l
  or_same l (some m) = m

  -- A `KeyError` leaves the ledger as it is.
  unfoldable pub run_op : Op → Ledger Num → Ledger Num
  run_op (records req signature now) l = (record_order req signature now l).1
  run_op (finalizes id fill e now) l = or_same l (finalize_order D id fill e now l)
  run_op (fills f) l = record l { book = record_fill D f l.book }

  unfoldable pub run_ops : List Op → Ledger Num → Ledger Num
  run_ops [] l = l
  run_ops (o ∷ os) l = run_ops os (run_op o l)

  -- The row that `finalize_row` leaves.
  abbrev pub closed_row : Option (Fill Num) → Option String → ℕ → OrderRow → OrderRow
  closed_row (some f) e now r = filled_row f now r
  closed_row none e now r = failed_row e now r

  closed_row-final :
      (fill : Option (Fill Num)) (e : Option String) (now : ℕ) (r : OrderRow)
      → is_submitted (closed_row fill e now r).state ≡ false
  closed_row-final (some f) e now r = refl
  closed_row-final none e now r = refl

  finalize_row-other :
      (id j : ℕ) (fill : Option (Fill Num)) (e : Option String) (now : ℕ) (l : Ledger Num)
      → j ≢ id
      → find_order id (finalize_row D j fill e now l).orders ≡ find_order id l.orders
  finalize_row-other id j (some f) e now l h =
      find_order-update_order id j (filled_row f now) l.orders h (λ r. refl)
  finalize_row-other id j none e now l h =
      find_order-update_order id j (failed_row e now) l.orders h (λ r. refl)

  finalize_row-own :
      (id : ℕ) (fill : Option (Fill Num)) (e : Option String) (now : ℕ) (l : Ledger Num)
      (r : OrderRow)
      → find_order id l.orders ≡ some r
      → find_order id (finalize_row D id fill e now l).orders ≡ some (closed_row fill e now r)
  finalize_row-own id (some f) e now l r h =
      find_order-update_own id (filled_row f now) l.orders r h (λ q. refl)
  finalize_row-own id none e now l r h =
      find_order-update_own id (failed_row e now) l.orders r h (λ q. refl)

  run_op-final :
      (o : Op) (l : Ledger Num) (id : ℕ) (r : OrderRow)
      → find_order id l.orders ≡ some r
      → is_submitted r.state ≡ false
      → find_order id (run_op o l).orders ≡ some r
  unfolding run_op record_order finalize_order
  run_op-final (records req signature now) l id r h k = find_order-append id l.orders r _ h
  run_op-final (fills f) l id r h k = h
  run_op-final (finalizes j fill e now) l id r h k = elim (Option-cases (find_order j l.orders)) [
    | inl gone ↦ ground arith
    | inr (q, found) ↦ elim (Bool-cases (is_submitted q.state)) [
      | inr done ↦ ground arith
      | inl open_row ↦
          let apart : j ≢ id = λ same. two_states j same q found open_row in
          ground (arith, finalize_row-other id j fill e now l apart)
    ]
  ]
    where
      two_states :
          (j : ℕ)
          → j ≡ id
          → (q : OrderRow) → find_order j l.orders ≡ some q
          → is_submitted q.state ≡ true
          → ⊥
      two_states j same q found open_row = ground arith

  run_ops-final :
      (os : List Op) (l : Ledger Num) (id : ℕ) (r : OrderRow)
      → find_order id l.orders ≡ some r
      → is_submitted r.state ≡ false
      → find_order id (run_ops os l).orders ≡ some r
  unfolding run_ops
  run_ops-final [] l id r h k = h
  run_ops-final (o ∷ os) l id r h k =
      run_ops-final os (run_op o l) id r (run_op-final o l id r h k) k

  finalize_order-done :
      (id : ℕ) (fill : Option (Fill Num)) (e : Option String) (now : ℕ) (l : Ledger Num)
      (r : OrderRow)
      → find_order id l.orders ≡ some r
      → is_submitted r.state ≡ false
      → finalize_order D id fill e now l ≡ some l
  unfolding finalize_order
  finalize_order-done id fill e now l r h k = ground arith

  -- A submitted order is finalized once: the call makes its row filled with the fill or failed with the
  -- error, no later operations on the ledger change that row, and finalizing it again after them,
  -- with whatever fill or error, changes neither the orders nor the book.
  pub finalize_order_once :
      (id : ℕ) (fill : Option (Fill Num)) (e : Option String) (now : ℕ) (l : Ledger Num)
      (r : OrderRow) (os : List Op)
      → find_order id l.orders ≡ some r
      → is_submitted r.state ≡ true
      → (m : Ledger Num) × (finalize_order D id fill e now l ≡ some m)
        × (find_order id (run_ops os m).orders ≡ some (closed_row fill e now r))
        × ((again : Option (Fill Num)) (error : Option String) (later : ℕ)
            → finalize_order D id again error later (run_ops os m) ≡ some (run_ops os m))
  unfolding finalize_order
  finalize_order_once id fill e now l r os h k =
      let m = finalize_row D id fill e now l in
      let closed = closed_row fill e now r in
      let final = closed_row-final fill e now r in
      let kept = run_ops-final os m id closed (finalize_row-own id fill e now l r h) final in
      (
        m,
        ground arith,
        kept,
        λ again error later.
            finalize_order-done id again error later (run_ops os m) closed kept final,
      )
