-- ===== src/Engine.antt =====
-- `plan_tick` of src/tiller/engine.py: which intents of the plan a tick approves, and their sizes. Texts of
-- refusals are constructors.
pub mod Approves
use agent_trading.Base.{
  ℕ, ◌+◌, ◌^◌, Bool, true, false, Option, none, some, List, [], ◌∷◌, ◌++◌, String, if◌then◌else◌,
  not, ◌&&◌, ◌||◌, length, filter, any, map,
}
use agent_trading.Base.Int.{ℤ, pos}
use agent_trading.Base.Text.{str_eq, str_in}
use agent_trading.Base.Dict.{Dict, lookup}
use agent_trading.Decimal.{DecimalOps, zero_d, one_d, max_d, lt_d, sum_d}
use agent_trading.Models.{
  SwapRequest, Side, buy, sell, Position, DayStats, ExitRule, sol_mint, usdc_mint,
}
use agent_trading.Config.{Config}
use agent_trading.State.{BrakeState, Reason}
use agent_trading.Account.{AccountSnapshot}
use agent_trading.Allocator.{OrderIntent, current_value_usd, sleeve_budget}
use agent_trading.Allocator.Netting.{TargetExposure}
use agent_trading.Allocator.Plan.{plan, core_strategy}
use agent_trading.Risk.Limits.{Limits}
use agent_trading.Risk.Entry.{EntryInputs, check_entry}
use agent_trading.Risk.Sizing.{SizedOrder, SizeInputs, size_order, exit_cap}
use agent_trading.Ledger.Orders.{OrderRow, is_submitted}
use agent_trading.Tokens.{GateResult}

pub record PendingOrder (N : Type 0) : Type 0 where
  pub mint : String
  pub side : Side
  pub usd : N
  pub signature : Option String

-- Why an intent is refused.
pub data Refusal (N : Type 0) : Type 0 where
  awaits_confirmation limits_unreadable gate_failed below_min_order : Refusal N
  entry_refused : List (Reason N) → Refusal N

pub data Decision (N : Type 0) : Type 0 where
  approves : SizedOrder N → Decision N
  refuses : Refusal N → Decision N

-- `TickPlan`
pub record TickPlan (N : Type 0) : Type 0 where
  pub intents : List (OrderIntent N)
  pub approved : List (OrderIntent N × SizedOrder N)
  pub refused : List (OrderIntent N × Refusal N)

abbrev pub is_buy : Side → Bool
is_buy buy = true
is_buy sell = false

module _ (D : DecimalOps) where
  open D use {Num, of_ℤ, add, sub, mul, div, leb as leb_d}

  -- A row of the ledger as a pending order.
  abbrev pending_order : OrderRow → PendingOrder Num
  pending_order r =
      if str_eq r.req.input_mint usdc_mint
      then record {
        mint = r.req.output_mint;
        side = buy;
        usd = div (of_ℤ (pos r.req.amount_base)) (of_ℤ (pos (10 ^ 6)));
        signature = r.signature;
      }
      else record { mint = r.req.input_mint; side = sell; usd = zero_d D; signature = r.signature }

  unfoldable pub pending_orders : List OrderRow → List (PendingOrder Num)
  pending_orders rows = map pending_order (filter (λ r. is_submitted r.state) rows)

  -- The arguments of `plan_tick` besides the targets; a gate that is missing was not evaluated.
  pub record TickInputs : Type 0 where
    pub acct : AccountSnapshot Num
    pub cfg : Config Num
    pub limits : Option (Limits Num)
    pub brakes : BrakeState Num
    pub blocklist : List String
    pub sigma90 : Option Num
    pub now : ℕ
    pub gates : Dict (GateResult Num)
    pub pending : List (PendingOrder Num)

  abbrev pending_buys : List (PendingOrder Num) → List (PendingOrder Num)
  pending_buys ps = filter (λ p. is_buy p.side) ps

  -- The day with the pending orders.
  unfoldable pub day_with : List (PendingOrder Num) → DayStats Num → DayStats Num
  day_with [] day = day
  day_with (p ∷ ps) day =
      let buys = pending_buys (p ∷ ps) in
      record day {
        buys_usd = add day.buys_usd (sum_d D (zero_d D) (map (λ b. b.usd) buys));
        swaps = day.swaps + length (p ∷ ps);
        entries = day.entries + length buys;
      }

  abbrev pub is_pending_mint : String → List (PendingOrder Num) → Bool
  is_pending_mint mint ps = any (λ p. str_eq p.mint mint) ps

  -- `used` of `sleeve_budget_remaining`, from a start; `none` is a `KeyError`.
  unfoldable pub used_from :
      String → AccountSnapshot Num → Config Num → Num → List (Position Num) → Option Num
  used_from strategy acct cfg acc [] = some acc
  used_from strategy acct cfg acc (p ∷ ps) =
      let skipped = used_from strategy acct cfg acc ps in
      let counted : Option Num = elim (current_value_usd D p.mint acct cfg) [
        | none ↦ none
        | some v ↦ used_from strategy acct cfg (add acc v) ps
      ] in
      if str_eq p.strategy strategy then counted else skipped

  abbrev remaining_of : Option Num → Option Num → AccountSnapshot Num → Option (Option Num)
  remaining_of none used acct = some (some (zero_d D))
  remaining_of (some budget) none acct = none
  remaining_of (some budget) (some used) acct =
      some (some (max_d D (zero_d D) (sub (mul budget acct.equity_usd) used)))

  -- A label of several strategies is no key of the budgets.
  unfoldable pub sleeve_budget_remaining :
      List String → AccountSnapshot Num → Config Num → Option (Option Num)
  sleeve_budget_remaining [] acct cfg = some (some (zero_d D))
  sleeve_budget_remaining (s ∷ []) acct cfg =
      if str_eq s core_strategy
      then some none
      else remaining_of (sleeve_budget D cfg s) (used_from s acct cfg (zero_d D) acct.positions)
          acct
  sleeve_budget_remaining (s ∷ r ∷ rs) acct cfg = some (some (zero_d D))

  -- `stop_pct`
  abbrev stop_below : Num → Option Num → Option Num
  stop_below stop none = none
  stop_below stop (some mark) =
      if lt_d D (zero_d D) mark && lt_d D stop mark
      then some (sub (one_d D) (div stop mark))
      else none

  abbrev stop_of_rule : Option (ExitRule Num) → Option Num
  stop_of_rule none = none
  stop_of_rule (some r) = r.stop_price

  unfoldable pub stop_pct_of : OrderIntent Num → AccountSnapshot Num → Option Num
  stop_pct_of o acct = elim (stop_of_rule o.exit) [
    | none ↦ none
    | some stop ↦ stop_below stop (lookup o.mint acct.marks)
  ]

  abbrev pub is_core : String → Config Num → Bool
  is_core mint cfg = str_in mint (sol_mint ∷ usdc_mint ∷ cfg.hold_mint ∷ [])

  abbrev pub gate_passes : Option (GateResult Num) → Bool
  gate_passes none = false
  gate_passes (some g) = g.ok

  abbrev liquidity_of_gate : Option (GateResult Num) → Option Num
  liquidity_of_gate none = none
  liquidity_of_gate (some g) = g.liquidity_usd

  -- `liquidity`, which core mints have none of.
  abbrev pub liquidity_for : OrderIntent Num → TickInputs → Option Num
  liquidity_for o i =
      if is_core o.mint i.cfg then none else liquidity_of_gate (lookup o.mint i.gates)

  abbrev pub entry_inputs : TickInputs → ℕ → EntryInputs D
  entry_inputs i entries = record {
    acct = i.acct;
    brakes = i.brakes;
    cfg = i.cfg;
    day = day_with i.pending i.acct.day;
    blocklist = i.blocklist;
    entries_this_tick = entries;
  }

  abbrev pub size_inputs : OrderIntent Num → TickInputs → Limits Num → Option Num → SizeInputs D
  size_inputs o i limits budget = record {
    acct = i.acct;
    limits = limits;
    cfg = i.cfg;
    pool_liquidity_usd = liquidity_for o i;
    day = day_with i.pending i.acct.day;
    stop_pct = stop_pct_of o i.acct;
    sleeve_budget_usd = budget;
  }

  abbrev sized_decision : Option (SizedOrder Num) → Decision Num
  sized_decision none = refuses below_min_order
  sized_decision (some s) = approves s

  -- The size of an entry that is allowed; `none` is a `KeyError`.
  unfoldable pub decide_size : OrderIntent Num → TickInputs → Limits Num → Option (Decision Num)
  decide_size o i limits = elim (sleeve_budget_remaining o.strategy i.acct i.cfg) [
    | none ↦ none
    | some budget ↦ elim (size_order D o (size_inputs o i limits budget)) [
      | none ↦ none
      | some s ↦ some (sized_decision s)
    ]
  ]

  abbrev decide_entry :
      OrderIntent Num → TickInputs → ℕ → Option (Limits Num) → Option (Decision Num)
  decide_entry o i entries none = some (refuses limits_unreadable)
  decide_entry o i entries (some limits) = elim (check_entry D o (entry_inputs i entries)) [
    | r ∷ rs ↦ some (refuses (entry_refused (r ∷ rs)))
    | [] ↦
        if not (is_core o.mint i.cfg) && not (gate_passes (lookup o.mint i.gates))
        then some (refuses gate_failed)
        else decide_size o i limits
  ]

  -- The body of the loop.
  unfoldable pub decide : OrderIntent Num → TickInputs → ℕ → Option (Decision Num)
  decide o i entries =
      if is_pending_mint o.mint i.pending && not (not (is_buy o.side) && o.is_exit)
      then some (refuses awaits_confirmation)
      else (if is_buy o.side
          then decide_entry o i entries i.limits
          else some (approves (record { usd = o.usd; binding_cap = exit_cap })))

  -- One more entry after a buy that is approved.
  abbrev pub entries_after : OrderIntent Num → Decision Num → ℕ → ℕ
  entries_after o (approves s) entries = if is_buy o.side then entries + 1 else entries
  entries_after o (refuses r) entries = entries

  abbrev add_decision : OrderIntent Num → Decision Num → TickPlan Num → TickPlan Num
  add_decision o (approves s) t = record t { approved = (o, s) ∷ t.approved }
  add_decision o (refuses r) t = record t { refused = (o, r) ∷ t.refused }

  unfoldable pub decide_all : TickInputs → ℕ → List (OrderIntent Num) → Option (TickPlan Num)
  decide_all i entries [] = some (record { intents = []; approved = []; refused = [] })
  decide_all i entries (o ∷ os) = elim (decide o i entries) [
    | none ↦ none
    | some d ↦ elim (decide_all i (entries_after o d entries) os) [
      | none ↦ none
      | some t ↦ some (add_decision o d t)
    ]
  ]

  unfoldable pub plan_tick : List (TargetExposure Num) → TickInputs → Option (TickPlan Num)
  plan_tick targets i = elim (plan D targets i.acct i.sigma90 i.cfg (some i.now)) [
    | none ↦ none
    | some intents ↦ elim (decide_all i 0 intents) [
      | none ↦ none
      | some t ↦ some (record t { intents = intents })
    ]
  ]
