-- ===== src/Reconcile/Pending/Rows.antt =====
-- The pending rows of the orders table: their ids, and what updating one order leaves of them.
use agent_trading.Base.{
  ℕ, ◌≡◌, refl, Bool, true, false, some, List, [], ◌∷◌, arith, not, ◌==◌, ==_iff, filter, All,
  Bool-cases, inl, inr,
}
use agent_trading.Base.Sort.{Pairwise}
use agent_trading.Ledger.Orders.{OrderRow, is_submitted, find_order, update_order}
use agent_trading.Reconcile.Pending.{is_pending, pending_rows}

-- The key of the orders table.
abbrev pub OtherId : OrderRow → OrderRow → Type 0
OtherId r q = (r.id == q.id) ≡ false

abbrev pub other_than : ℕ → OrderRow → Bool
other_than id r = not (r.id == id)

abbrev pub Found : List OrderRow → OrderRow → Type 0
Found rows q = (find_order q.id rows ≡ some q) × (is_submitted q.state ≡ true)

pub pending_rows-update_order :
    (id : ℕ) (f : OrderRow → OrderRow) (rows : List OrderRow)
    → ((r : OrderRow) → is_submitted (f r).state ≡ false)
    → pending_rows (update_order id f rows) ≡ filter (other_than id) (pending_rows rows)
unfolding pending_rows update_order
pending_rows-update_order id f [] h = refl
pending_rows-update_order id f (r ∷ rows) h =
    ground (arith, pending_rows-update_order id f rows h, h r)

-- A pending row is found under its id.
skip-Found :
    (r : OrderRow) (rows qs : List OrderRow)
    → All (OtherId r) qs
    → All (Found rows) qs
    → All (Found (r ∷ rows)) qs
unfolding find_order
skip-Found r rows [] h k = tt
skip-Found r rows (q ∷ qs) h k = (ground (arith, h.0, k.0), skip-Found r rows qs h.1 k.1)

All-filter :
    (P : OrderRow → Type 0) (p : OrderRow → Bool) (rows : List OrderRow)
    → All P rows
    → All P (filter p rows)
All-filter P p [] h = tt
All-filter P p (r ∷ rows) h = elim (Bool-cases (p r)) [
  | inl e ↦ rw e (h.0, All-filter P p rows h.1)
  | inr e ↦ rw e (All-filter P p rows h.1)
]

Pairwise-filter :
    (p : OrderRow → Bool) (rows : List OrderRow)
    → Pairwise OtherId rows
    → Pairwise OtherId (filter p rows)
Pairwise-filter p [] h = tt
Pairwise-filter p (r ∷ rows) h = elim (Bool-cases (p r)) [
  | inl e ↦ rw e (All-filter (OtherId r) p rows h.0, Pairwise-filter p rows h.1)
  | inr e ↦ rw e (Pairwise-filter p rows h.1)
]

pub pending_rows-Found :
    (rows : List OrderRow) → Pairwise OtherId rows → All (Found rows) (pending_rows rows)
unfolding pending_rows find_order
pending_rows-Found [] h = tt
pending_rows-Found (r ∷ rows) h =
    let rest =
      skip-Found r rows (pending_rows rows) (All-filter (OtherId r) is_pending rows h.0)
        (pending_rows-Found rows h.1) in
    ground (arith, rest, ==_iff r.id r.id)

pub Pairwise-pending_rows :
    (rows : List OrderRow) → Pairwise OtherId rows → Pairwise OtherId (pending_rows rows)
unfolding pending_rows
Pairwise-pending_rows rows h = Pairwise-filter is_pending rows h
