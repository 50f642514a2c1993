-- ===== src/Ledger/Days/Start.antt =====
-- The start of a day is set once.
use agent_trading.Base.{
  ℕ, ◌≡◌, refl, none, some, List, [], ◌∷◌, ◌++◌, arith, Option-cases, inl, inr,
}
use agent_trading.Decimal.{DecimalOps}
use agent_trading.Models.{Fill}
use agent_trading.Ledger.Days.{DayRow, EquityRow, day_of, find_day, set_day_start_equity, day_stats}

module _ {N : Type 0} where
  find_day-append :
      (d : ℕ) (rows : List (DayRow N)) (r q : DayRow N)
      → find_day d rows ≡ some r
      → find_day d (rows ++ q ∷ []) ≡ some r
  unfolding find_day
  find_day-append d [] r q h = cc
  find_day-append d (p ∷ ps) r q h = ground (arith, find_day-append d ps r q)

  find_day-new :
      (d : ℕ) (rows : List (DayRow N)) (q : DayRow N)
      → find_day d rows ≡ none
      → q.day ≡ d
      → find_day d (rows ++ q ∷ []) ≡ some q
  unfolding find_day
  find_day-new d [] q h k = ground arith
  find_day-new d (p ∷ ps) q h k = ground (arith, find_day-new d ps q)

  -- The calls of a day: the instant that starts it, the equity and the deposits.
  unfoldable pub set_all : List (ℕ × N × N) → List (DayRow N) → List (DayRow N)
  set_all [] rows = rows
  set_all ((start, equity, deposits) ∷ r) rows =
      set_all r (set_day_start_equity start equity deposits rows)

  set_all-find_day :
      (calls : List (ℕ × N × N)) (rows : List (DayRow N)) (d : ℕ) (r : DayRow N)
      → find_day d rows ≡ some r
      → find_day d (set_all calls rows) ≡ some r
  unfolding set_all set_day_start_equity
  set_all-find_day [] rows d r h = h
  set_all-find_day ((start, equity, deposits) ∷ calls) rows d r h =
      set_all-find_day calls (set_day_start_equity start equity deposits rows) d r kept
    where
      kept : find_day d (set_day_start_equity start equity deposits rows) ≡ some r
      kept = elim (Option-cases (find_day (day_of start) rows)) [
        | inl gone ↦ rw (gone, set_day_start_equity) (find_day-append d rows r _ h)
        | inr (q, found) ↦ rw (found, set_day_start_equity) h
      ]

-- The first call for a day fixes its start equity and deposits: whatever calls follow, for this day or
-- others, and whatever the snapshots and fills are, `day_stats` reports these.
pub set_day_start_equity_sticks :
    (D : DecimalOps) (start : ℕ) (equity deposits : D.Num) (calls : List (ℕ × D.Num × D.Num))
    (rows : List (DayRow D.Num)) (snapshots : List (EquityRow D.Num)) (fills : List (Fill D.Num))
    → find_day (day_of start) rows ≡ none
    → let s =
        day_stats D start
          (set_all calls (set_day_start_equity start equity deposits rows))
          snapshots
          fills in
      (s.start_equity ≡ equity) × (s.start_net_deposits ≡ deposits)
unfolding day_stats set_day_start_equity
set_day_start_equity_sticks D start equity deposits calls rows snapshots fills h =
    let row : DayRow D.Num = record {
      day = day_of start;
      start_equity = equity;
      start_net_deposits = deposits;
    } in
    let set =
      set_all-find_day calls (rows ++ row ∷ []) (day_of start) row
        (find_day-new (day_of start) rows row h refl) in
    ground (arith, set)
