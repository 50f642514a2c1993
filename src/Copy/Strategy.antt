-- ===== src/Copy/Strategy.antt =====
-- `ConsensusCopyStrategy` of src/tiller/copy/strategy.py. The shadow report, the regime and the gate are
-- arguments; texts of reasons are left out.
pub mod Guarded
use agent_trading.Base.{
  ℕ, ◌+◌, ◌/◌, Bool, true, false, Option, none, some, List, [], ◌∷◌, ◌++◌, String, if◌then◌else◌,
  not, ◌&&◌, ◌||◌, leb, ltb, ◌==◌, length, filter, map,
}
use agent_trading.Base.Int.{ℤ, pos, ltb_ℤ}
use agent_trading.Base.Text.{str_eq, str_in}
use agent_trading.Base.Sort.{sort_by}
use agent_trading.Base.Sets.{str_le, distinct}
use agent_trading.Decimal.{DecimalOps, zero_d, min_d, lt_d, sum_d}
use agent_trading.Models.{Fill, Position, usdc_mint}
use agent_trading.Allocator.Netting.{TargetExposure}
use agent_trading.Ledger.Days.{day_length, day_of}
use agent_trading.Copy.Exits.{CopyCfg, copy_exit_rule}
use agent_trading.Copy.Consensus.{ConsensusSignal, CopyCandidate, late_entry_ok}

abbrev pub strategy_name : String
strategy_name = "copy_consensus"

pub record CopyEntry : Type 0 where
  pub mint : String
  pub ts : ℕ

-- `_candidates` and `_entries`
pub record CopyState (N : Type 0) : Type 0 where
  pub candidates : List (CopyCandidate N)
  pub entries : List CopyEntry

-- What the strategy reads of the market, the shadow report and the ledger at a tick.
pub record Inputs (N : Type 0) : Type 0 where
  pub now : ℕ
  pub positions : List (Position N)
  pub equity_usd : N
  pub promotion_gate_met : Bool
  pub regime_on : Bool
  pub gate : String → Bool
  -- `none` is an exception of `ledger.fills`.
  pub fills : Option (List (Fill N))

abbrev of_day : ℕ → CopyEntry → Bool
of_day now e = day_of e.ts == day_of now

module _ {N : Type 0} where
  unfoldable pub propose : List (CopyCandidate N) → CopyState N → CopyState N
  propose candidates s = record s { candidates = candidates }

  -- A fill of this strategy since the start of the day that is not for USDC.
  abbrev is_entry : ℕ → Fill N → Bool
  is_entry now f =
      leb (day_of now) (day_of f.ts)
      && str_eq f.strategy strategy_name
      && not (str_eq f.out_mint usdc_mint)

  abbrev filled_mints : ℕ → Option (List (Fill N)) → List String
  filled_mints now none = []
  filled_mints now (some fs) = map (λ f. f.out_mint) (filter (is_entry now) fs)

  unfoldable pub entries_today : ℕ → Option (List (Fill N)) → List CopyEntry → ℕ
  entries_today now fills entries =
      length (distinct (filled_mints now fills ++ map (λ e. e.mint) (filter (of_day now) entries)))

  unfoldable pub enabled : CopyCfg N → Inputs N → Bool
  enabled cfg i = cfg.live && cfg.shadow_enabled && i.promotion_gate_met && i.regime_on

  abbrev pub is_held : Position N → Bool
  is_held p = str_eq p.strategy strategy_name && ltb_ℤ (pos 0) p.amount_base

  unfoldable pub held_rows : List (Position N) → List (Position N)
  held_rows positions = filter is_held positions

  -- `key=lambda c: (c.signal.first_ts, c.signal.mint)`
  abbrev candidate_before : CopyCandidate N → CopyCandidate N → Bool
  candidate_before a b =
      ltb a.signal.first_ts b.signal.first_ts
      || (a.signal.first_ts == b.signal.first_ts && str_le a.signal.mint b.signal.mint)

  unfoldable pub without_mint : String → List (CopyCandidate N) → List (CopyCandidate N)
  without_mint mint cs = filter (λ c. not (str_eq c.signal.mint mint)) cs

module _ (D : DecimalOps) where
  open D use {Num, sub, div, leb as leb_d}

  -- The two `continue`s of the loop.
  abbrev pub is_eligible : CopyCfg Num → Inputs Num → List String → CopyCandidate Num → Bool
  is_eligible cfg i held c =
      not (str_in c.signal.mint held)
      && c.gate_ok
      && not c.crowd_burst
      && i.gate c.signal.mint
      && late_entry_ok D (some c.current_price) (some c.signal.earliest_leader_price)
          cfg.late_entry_max_above

  unfoldable pub first_eligible :
      CopyCfg Num → Inputs Num → List String → List (CopyCandidate Num) → Option (CopyCandidate Num)
  first_eligible cfg i held [] = none
  first_eligible cfg i held (c ∷ cs) =
      if is_eligible cfg i held c then some c else first_eligible cfg i held cs

  abbrev target_of : CopyCfg Num → Inputs Num → Num → CopyCandidate Num → TargetExposure Num
  target_of cfg i weight c = record {
    mint = c.signal.mint;
    weight = weight;
    strategy = strategy_name;
    exit = some (copy_exit_rule D c.current_price i.now cfg);
  }

  abbrev enter :
      CopyCfg Num
      → Inputs Num
      → Num
      → CopyState Num
      → Option (CopyCandidate Num)
      → List (TargetExposure Num) × CopyState Num
  enter cfg i weight s none = ([], s)
  enter cfg i weight s (some c) = (
    target_of cfg i weight c ∷ [],
    record {
      candidates = without_mint c.signal.mint s.candidates;
      entries = s.entries ++ record { mint = c.signal.mint; ts = i.now } ∷ [];
    },
  )

  -- `weight`
  unfoldable pub entry_weight : CopyCfg Num → Num → List (Position Num) → Num
  entry_weight cfg equity held =
      let used = div (sum_d D (zero_d D) (map (λ p. p.cost_usd) held)) equity in
      min_d D cfg.per_signal_pct (sub cfg.sleeve_cap_pct used)

  -- The early returns before the loop.
  abbrev pub is_blocked : CopyCfg Num → Inputs Num → CopyState Num → List (Position Num) → Bool
  is_blocked cfg i s held =
      not (enabled cfg i)
      || leb cfg.max_concurrent (length held)
      || leb cfg.max_entries_per_day (entries_today i.now i.fills s.entries)
      || leb_d i.equity_usd (zero_d D)
      || leb_d (entry_weight cfg i.equity_usd held) (zero_d D)

  unfoldable pub targets :
      CopyCfg Num → Inputs Num → CopyState Num → List (TargetExposure Num) × CopyState Num
  targets cfg i s =
      let held = held_rows i.positions in
      if is_blocked cfg i s held
      then ([], s)
      else enter cfg i (entry_weight cfg i.equity_usd held) s
          (first_eligible cfg i (map (λ p. p.mint) held) (sort_by candidate_before s.candidates))
