-- ===== src/Ledger/Days.antt =====
-- Transfers, equity snapshots and day stats of src/tiller/ledger.py. The key of a day is its number,
-- for its ISO date. Rows stand in the order of their ids.
pub mod Start
use agent_trading.Base.{
  ℕ, ◌+◌, ◌-◌, ◌*◌, ◌/◌, Bool, true, false, Option, none, some, List, [], ◌∷◌, ◌++◌, String,
  if◌then◌else◌, not, ◌&&◌, ◌||◌, leb, ltb, ◌==◌,
}
use agent_trading.Base.Int.{ℤ}
use agent_trading.Base.Text.{str_eq}
use agent_trading.Base.Sort.{sort_by}
use agent_trading.Decimal.{DecimalOps, zero_d}
use agent_trading.Models.{Fill, DayStats, Mode, normal, emergency}
use agent_trading.Account.{EquityPoint}
use agent_trading.Ledger.Fills.{is_stable, has_signature}

-- 24 hours.
abbrev pub day_length : ℕ
day_length = 86400000000

pub record TransferRow (N : Type 0) : Type 0 where
  pub ts : ℕ
  pub mint : String
  pub amount_base : ℤ
  pub usd : N
  -- `direction == "in"`
  pub is_in : Bool
  pub signature : Option String

pub record EquityRow (N : Type 0) : Type 0 where
  pub ts : ℕ
  pub equity_usd : N
  pub net_deposits_usd : N
  pub source : String

pub record DayRow (N : Type 0) : Type 0 where
  pub day : ℕ
  pub start_equity : N
  pub start_net_deposits : N

abbrev pub day_of : ℕ → ℕ
day_of ts = ts / day_length

abbrev pub is_emergency : Mode → Bool
is_emergency emergency = true
is_emergency normal = false

-- `ts >= a AND ts < b`
abbrev pub between : ℕ → ℕ → ℕ → Bool
between a b ts = leb a ts && ltb ts b

module _ {N : Type 0} where
  unfoldable pub is_transferred : String → List (TransferRow N) → Bool
  is_transferred s [] = false
  is_transferred s (t ∷ ts) = has_signature s t.signature || is_transferred s ts

  abbrev is_repeated : Option String → List (TransferRow N) → Bool
  is_repeated none rows = false
  is_repeated (some s) rows = is_transferred s rows

  unfoldable pub record_transfer : TransferRow N → List (TransferRow N) → List (TransferRow N)
  record_transfer t rows = if is_repeated t.signature rows then rows else rows ++ t ∷ []

  -- `INSERT OR IGNORE`
  unfoldable pub find_day : ℕ → List (DayRow N) → Option (DayRow N)
  find_day d [] = none
  find_day d (r ∷ rs) = if r.day == d then some r else find_day d rs

  unfoldable pub set_day_start_equity : ℕ → N → N → List (DayRow N) → List (DayRow N)
  set_day_start_equity day_start equity deposits rows = elim (find_day (day_of day_start) rows) [
    | some _ ↦ rows
    | none ↦
        rows
        ++ record { day = day_of day_start; start_equity = equity; start_net_deposits = deposits }
          ∷ []
  ]

  unfoldable pub add_equity_snapshot : EquityRow N → List (EquityRow N) → List (EquityRow N)
  add_equity_snapshot r rows = rows ++ r ∷ []

  -- `ORDER BY ts, id`
  abbrev pub by_ts : EquityRow N → EquityRow N → Bool
  by_ts a b = leb a.ts b.ts

  unfoldable pub snapshots_between : ℕ → ℕ → List (EquityRow N) → List (EquityRow N)
  snapshots_between a b [] = []
  snapshots_between a b (r ∷ rs) =
      if between a b r.ts then r ∷ snapshots_between a b rs else snapshots_between a b rs

  abbrev first_row : List (EquityRow N) → Option (EquityRow N)
  first_row [] = none
  first_row (r ∷ _) = some r

  unfoldable pub last_row : List (EquityRow N) → Option (EquityRow N)
  last_row [] = none
  last_row (r ∷ rs) = elim (last_row rs) [ none ↦ some r | some s ↦ some s ]

  -- The first snapshot of the day, else the last one before it.
  unfoldable pub start_snapshot : ℕ → List (EquityRow N) → Option (EquityRow N)
  start_snapshot day_start rows =
      elim (first_row (sort_by by_ts (snapshots_between day_start (day_start + day_length) rows))) [
        | some r ↦ some r
        | none ↦ last_row (sort_by by_ts (snapshots_between 0 day_start rows))
      ]

  -- `swaps_today`
  unfoldable pub swaps_today : ℕ → List (Fill N) → ℕ
  swaps_today day_start [] = 0
  swaps_today day_start (f ∷ fs) =
      (if between day_start (day_start + day_length) f.ts && not (is_emergency f.mode)
        then 1
        else 0)
      + swaps_today day_start fs

  -- `entries` of `day_stats`
  unfoldable pub entries_today : ℕ → List (Fill N) → ℕ
  entries_today day_start [] = 0
  entries_today day_start (f ∷ fs) =
      (if between day_start (day_start + day_length) f.ts && not (is_stable f.out_mint)
        then 1
        else 0)
      + entries_today day_start fs

module _ (D : DecimalOps) where
  open D use {Num, add, sub}

  -- `total` of `net_deposits_usd`, from a start.
  unfoldable pub net_deposits_from : Num → List (TransferRow Num) → Num
  net_deposits_from acc [] = acc
  net_deposits_from acc (t ∷ ts) =
      net_deposits_from (add acc (if t.is_in then t.usd else sub (zero_d D) t.usd)) ts

  unfoldable pub net_deposits_usd : List (TransferRow Num) → Num
  net_deposits_usd rows = net_deposits_from (zero_d D) rows

  -- `buys` of `day_stats`, from a start.
  unfoldable pub buys_from : ℕ → Num → List (Fill Num) → Num
  buys_from day_start acc [] = acc
  buys_from day_start acc (f ∷ fs) =
      buys_from day_start
        (if between day_start (day_start + day_length) f.ts && not (is_stable f.out_mint)
          then add acc f.usd_in
          else acc)
        fs

  -- The equity and the deposits at the start of a day.
  abbrev start_of : ℕ → Option (DayRow Num) → List (EquityRow Num) → Num × Num
  start_of day_start (some r) snapshots = (r.start_equity, r.start_net_deposits)
  start_of day_start none snapshots = elim (start_snapshot day_start snapshots) [
    | none ↦ (zero_d D, zero_d D)
    | some r ↦ (r.equity_usd, r.net_deposits_usd)
  ]

  unfoldable pub day_stats :
      ℕ → List (DayRow Num) → List (EquityRow Num) → List (Fill Num) → DayStats Num
  day_stats day_start days snapshots fills =
      let (equity, deposits) = start_of day_start (find_day (day_of day_start) days) snapshots in
      record {
        start_equity = equity;
        buys_usd = buys_from day_start (zero_d D) fills;
        swaps = swaps_today day_start fills;
        entries = entries_today day_start fills;
        start_net_deposits = deposits;
      }

  -- `equity_curve`; a `days` that reaches below the first instant takes all.
  unfoldable pub curve_from : ℕ → Option String → List (EquityRow Num) → List (EquityPoint Num)
  curve_from since source [] = []
  curve_from since source (r ∷ rs) =
      let rest = curve_from since source rs in
      let named : Bool = elim source [ none ↦ true | some s ↦ str_eq r.source s ] in
      if leb since r.ts && named
      then record { ts = r.ts; equity_usd = r.equity_usd; net_deposits_usd = r.net_deposits_usd }
        ∷ rest
      else rest

  unfoldable pub equity_curve :
      ℕ → Option String → ℕ → List (EquityRow Num) → List (EquityPoint Num)
  equity_curve days source now rows =
      curve_from (now - days * day_length) source (sort_by by_ts rows)
