-- ===== src/Risk/Entry.antt =====
-- `check_entry` of src/tiller/risk/engine.py: the veto layer for one entry.
use agent_trading.Base.{
  ℕ, ◌<◌, true, false, ◌≡◌, ◌↔◌, refl, List, [], ◌∷◌, ◌++◌, String, arith, if◌then◌else◌, not, ◌&&◌,
  leb, length,
}
use agent_trading.Base.Int.{pos, ltb_ℤ, leb_ℤ}
use agent_trading.Base.Text.{str_in}
use agent_trading.Decimal.{DecimalOps, lt_d}
use agent_trading.Models.{buy, sell, Position, DayStats}
use agent_trading.Config.{Config}
use agent_trading.State.{
  BrakeState, Reason, entries_blocked_unexplained, swaps_today, entries_in_tick, too_many_positions,
  mint_blocklisted, below_cash_floor, below_gas_reserve, below_min_order,
}
use agent_trading.Account.{AccountSnapshot}
use agent_trading.Allocator.{OrderIntent, cash_floor_fraction}
use agent_trading.Risk.Brakes.{when}

-- `{p.mint for p in acct.positions if p.amount_base > 0}`
unfoldable pub held_mints : {N : Type 0} → List (Position N) → List String
held_mints [] = []
held_mints (p ∷ ps) =
    let rest = held_mints ps in
    if ltb_ℤ (pos 0) p.amount_base && not (str_in p.mint rest) then p.mint ∷ rest else rest

module _ (D : DecimalOps) where
  open D use {Num, sub, mul, leb as leb_d}

  -- `brakes.reasons or ["entries blocked"]`
  abbrev pub brake_reasons : BrakeState Num → List (Reason Num)
  brake_reasons b = elim b.reasons [ [] ↦ entries_blocked_unexplained ∷ [] | r ∷ rs ↦ r ∷ rs ]

  -- What `check_entry` reads besides the intent.
  pub record EntryInputs : Type 0 where
    pub acct : AccountSnapshot Num
    pub brakes : BrakeState Num
    pub cfg : Config Num
    pub day : DayStats Num
    pub blocklist : List String
    pub entries_this_tick : ℕ

  -- The reasons from the brakes and the counters.
  unfoldable pub count_reasons : String → EntryInputs → List (Reason Num)
  count_reasons mint i =
      let r = i.cfg.risk in
      let held = held_mints i.acct.positions in
      (if i.brakes.entries_blocked then brake_reasons i.brakes else [])
      ++ (when (leb r.max_swaps_per_day i.day.swaps) (swaps_today i.day.swaps)
          ++ (when (leb r.max_entries_per_tick i.entries_this_tick)
                (entries_in_tick i.entries_this_tick)
              ++ (when (not (str_in mint held) && leb r.max_positions (length held))
                    (too_many_positions (length held))
                  ++ when (str_in mint i.blocklist) mint_blocklisted)))

  -- The reasons from the money.
  unfoldable pub money_reasons : Num → EntryInputs → List (Reason Num)
  money_reasons usd i =
      let floor = mul (cash_floor_fraction D i.cfg) i.acct.equity_usd in
      when (lt_d D (sub i.acct.usdc_usd usd) floor) below_cash_floor
      ++ (when (ltb_ℤ i.acct.sol_lamports (pos i.cfg.sol_reserve_lamports)) below_gas_reserve
          ++ when (lt_d D usd i.cfg.risk.min_order_usd) (below_min_order usd))

  -- The reasons of the decision; it allows exactly when there are none.
  unfoldable pub check_entry : OrderIntent Num → EntryInputs → List (Reason Num)
  check_entry o i = elim o.side [
    | buy ↦ count_reasons o.mint i ++ money_reasons o.usd i
    | sell ↦ []
  ]

  -- No brake, counter or list speaks against the mint.
  pub record IsCounted (mint : String) (i : EntryInputs) : Type 0 where
    pub free : i.brakes.entries_blocked ≡ false
    pub swaps : i.day.swaps < i.cfg.risk.max_swaps_per_day
    pub entries : i.entries_this_tick < i.cfg.risk.max_entries_per_tick
    pub positions :
        str_in mint (held_mints i.acct.positions) ≡ false
        → length (held_mints i.acct.positions) < i.cfg.risk.max_positions
    pub listed : str_in mint i.blocklist ≡ false

  -- The cash floor, the gas reserve and the minimum order are met.
  pub record IsFunded (usd : Num) (i : EntryInputs) : Type 0 where
    pub cash :
        leb_d (mul (cash_floor_fraction D i.cfg) i.acct.equity_usd) (sub i.acct.usdc_usd usd) ≡ true
    pub gas : leb_ℤ (pos i.cfg.sol_reserve_lamports) i.acct.sol_lamports ≡ true
    pub size : leb_d i.cfg.risk.min_order_usd usd ≡ true

  append-eq-nil : {A : Type 0} (xs ys : List A) → (xs ++ ys ≡ []) ↔ ((xs ≡ []) × (ys ≡ []))
  append-eq-nil [] ys = (λ h. (refl, h), λ h. h.1)
  append-eq-nil (x ∷ xs) ys = (λ h. cc, λ h. cc)

  count_reasons-nil :
      (mint : String) (i : EntryInputs) → (count_reasons mint i ≡ []) ↔ IsCounted mint i
  unfolding count_reasons
  count_reasons-nil mint i = ground arith

  money_reasons-nil : (usd : Num) (i : EntryInputs) → (money_reasons usd i ≡ []) ↔ IsFunded usd i
  unfolding money_reasons
  money_reasons-nil usd i = ground arith

  -- A buy is allowed exactly when no brake is on, the swaps of the day, the entries of the tick and
  -- the held mints leave room, the mint is not blocklisted, and the cash floor after the trade, the
  -- gas reserve and the minimum order are met.
  pub check_entry_iff :
      (o : OrderIntent Num) (i : EntryInputs)
      → o.side ≡ buy
      → (check_entry o i ≡ []) ↔ (IsCounted o.mint i × IsFunded o.usd i)
  unfolding check_entry
  check_entry_iff o i b = ground (
    arith,
    append-eq-nil (count_reasons o.mint i) (money_reasons o.usd i),
    count_reasons-nil o.mint i,
    money_reasons-nil o.usd i,
  )
