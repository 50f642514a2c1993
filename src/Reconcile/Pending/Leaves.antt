-- ===== src/Reconcile/Pending/Leaves.antt =====
-- Which orders `finalize_pending` leaves submitted.
use agent_trading.Base.{
  ℕ, ◌+◌, ◌≡◌, Bool, true, false, none, some, List, [], ◌∷◌, if◌then◌else◌, ◌&&◌, ◌||◌, filter, All,
  ◌≤◌, ◌⊎◌,
}
use agent_trading.Decimal.{DecimalOps}
use agent_trading.Ledger.Orders.{OrderRow, Ledger}
use agent_trading.Reconcile.Pending.{
  Answers, Outcome, fails, fills, waits, Counts, pending_rows, signature_of, outcome, TxStatus,
}
use agent_trading.Reconcile.Pending.Rows.{other_than, Found}

-- The rows that the turns of a list of rows close.
abbrev pub is_waiting : {N : Type 0} → Outcome N → Bool
is_waiting (fails e) = false
is_waiting (fills f) = false
is_waiting waits = true

module _ (D : DecimalOps) (a : Answers D.Num) (now grace : ℕ) where
  open D use {Num}

  -- The call leaves the order submitted.
  unfoldable pub remains : OrderRow → Bool
  remains row = is_waiting (outcome D a now grace row)

  unfoldable survives : List OrderRow → OrderRow → Bool
  survives [] r = true
  survives (q ∷ qs) r = (remains q || other_than q.id r) && survives qs r

  abbrev sum_of : Counts → ℕ
  sum_of c = c.finalized + c.failed + c.pending

  -- What a turn does, by whether it leaves its order.
  record Turn (q : OrderRow) (qs : List OrderRow) (left : Bool) (c c' : Counts) (l l' : Ledger Num)
      : Type 0 where
    rows :
        pending_rows l'.orders
        ≡ (if left then pending_rows l.orders else filter (other_than q.id) (pending_rows l.orders))
    found : All (Found l'.orders) qs
    counted : sum_of c' ≡ sum_of c + 1
    waiting : c'.pending ≡ c.pending + (if left then 1 else 0)

-- The reasons to leave an order submitted: the chain does not know it and the grace is not over, or it
-- has no error and is not confirmed or has no transaction to read.
abbrev pub MayWait : {N : Type 0} → Answers N → ℕ → ℕ → OrderRow → Type 0
MayWait a now grace r =
    ((a.status (signature_of r) ≡ none) × (now ≤ r.ts + grace))
    ⊎ ((st : TxStatus) × (a.status (signature_of r) ≡ some st)
        × (st.err ≡ none)
        × ((st.confirmed ≡ false) ⊎ (a.tx (signature_of r) ≡ none)))
