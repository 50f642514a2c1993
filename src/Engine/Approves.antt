-- ===== src/Engine/Approves.antt =====
-- What `plan_tick` approves.
use agent_trading.Base.{
  ℕ, ◌+◌, ◌≤◌, ◌<◌, ◌≡◌, refl, ap, ◌∙◌, Bool, true, false, Option, none, some, List, [], ◌∷◌, arith,
  if◌then◌else◌, not, ◌&&◌, ◌||◌, length, filter, All, subst, Bool-cases, Option-cases, inl, inr,
  ◌⊎◌,
}
use agent_trading.Base.Dict.{lookup}
use agent_trading.Decimal.{DecimalOps}
use agent_trading.Models.{buy}
use agent_trading.Allocator.{OrderIntent}
use agent_trading.Allocator.Netting.{TargetExposure}
use agent_trading.Allocator.Plan.{plan}
use agent_trading.State.{Reason}
use agent_trading.Risk.Limits.{Limits}
use agent_trading.Risk.Entry.{check_entry, IsCounted, IsFunded, check_entry_iff}
use agent_trading.Risk.Sizing.{SizedOrder, size_order, exit_cap}
use agent_trading.Engine.{
  Decision, approves, refuses, TickPlan, TickInputs, is_buy, is_pending_mint, is_core, gate_passes,
  entry_inputs, size_inputs, sleeve_budget_remaining, decide_size, decide, entries_after,
  add_decision, decide_all, plan_tick,
}

module _ (D : DecimalOps) where
  open D use {Num}

  abbrev pub is_exit_sale : OrderIntent Num → Bool
  is_exit_sale o = not (is_buy o.side) && o.is_exit

  -- A buy that keeps the rules, with its size.
  pub record IsEntry (i : TickInputs D) (o : OrderIntent Num) (s : SizedOrder Num) : Type 0 where
    pub resolved : is_pending_mint D o.mint i.pending ≡ false
    pub gated : (is_core D o.mint i.cfg || gate_passes D (lookup o.mint i.gates)) ≡ true
    pub limits : Limits Num
    pub readable : i.limits ≡ some limits
    pub budget : Option Num
    pub sized : size_order D o (size_inputs D o i limits budget) ≡ some (some s)
    pub entries : ℕ
    pub counted : IsCounted D o.mint (entry_inputs D i entries)
    pub funded : IsFunded D o.usd (entry_inputs D i entries)

  abbrev pub IsApproved : TickInputs D → OrderIntent Num × SizedOrder Num → Type 0
  IsApproved i (o, s) = is_buy o.side ≡ true → IsEntry i o s

  -- The size of an approved entry comes from some budget.
  decide_size-budget :
      (o : OrderIntent Num) (i : TickInputs D) (l : Limits Num) (s : SizedOrder Num)
      → decide_size D o i l ≡ some (approves s)
      → (b : Option Num) × (size_order D o (size_inputs D o i l b) ≡ some (some s))
  unfolding decide_size
  decide_size-budget o i l s h =
      elim (Option-cases (sleeve_budget_remaining D o.strategy i.acct i.cfg)) [
        | inl gone ↦ absurd (ground (arith, h, gone))
        | inr (b, found) ↦ elim (Option-cases (size_order D o (size_inputs D o i l b))) [
          | inl gone ↦ absurd (ground (arith, h, found, gone))
          | inr (none, size) ↦ absurd (ground (arith, h, found, size))
          | inr (some t, size) ↦ (b, size ∙ ap some (ap some (ground (arith, h, found, size))))
        ]
      ]

  reasons_cases :
      (rs : List (Reason Num))
      → (rs ≡ []) ⊎ ((r : Reason Num) × (qs : List (Reason Num)) × (rs ≡ r ∷ qs))
  reasons_cases [] = inl refl
  reasons_cases (r ∷ qs) = inr (r, qs, refl)

  buy_of : (o : OrderIntent Num) → is_buy o.side ≡ true → o.side ≡ buy
  buy_of o h = ground (arith, h)

  decide-IsEntry :
      (o : OrderIntent Num) (i : TickInputs D) (e : ℕ) (s : SizedOrder Num)
      → decide D o i e ≡ some (approves s)
      → is_buy o.side ≡ true
      → IsEntry i o s × (e < i.cfg.risk.max_entries_per_tick)
  unfolding decide
  decide-IsEntry o i e s h b = elim (Bool-cases (is_pending_mint D o.mint i.pending)) [
    | inl held ↦ absurd (ground (arith, h, b, held))
    | inr free ↦ elim (Option-cases i.limits) [
      | inl gone ↦ absurd (ground (arith, h, b, free, gone))
      | inr (l, read) ↦ elim (reasons_cases (check_entry D o (entry_inputs D i e))) [
        | inr (r, qs, bad) ↦ absurd (ground (arith, h, b, free, read, bad))
        | inl clear ↦
            elim (Bool-cases (is_core D o.mint i.cfg || gate_passes D (lookup o.mint i.gates))) [
              | inr shut ↦ absurd (ground (arith, h, b, free, read, clear, shut))
              | inl gated ↦
                  let (budget, size) =
                    decide_size-budget o i l s (ground (arith, h, b, free, read, clear, gated)) in
                  let (counted, funded) =
                    (check_entry_iff D o (entry_inputs D i e) (buy_of o b)).0 clear in
                  (
                    record {
                      resolved = free;
                      gated = gated;
                      limits = l;
                      readable = read;
                      budget = budget;
                      sized = size;
                      entries = e;
                      counted = counted;
                      funded = funded;
                    },
                    counted.entries,
                  )
            ]
      ]
    ]
  ]

  -- An exit sale is approved at its own size.
  decide-exit :
      (o : OrderIntent Num) (i : TickInputs D) (e : ℕ)
      → is_exit_sale o ≡ true
      → (s : SizedOrder Num) × (decide D o i e ≡ some (approves s))
  unfolding decide
  decide-exit o i e h = (record { usd = o.usd; binding_cap = exit_cap }, ground (arith, h))

  abbrev pub intents_of : List (OrderIntent Num × SizedOrder Num) → List (OrderIntent Num)
  intents_of [] = []
  intents_of ((o, s) ∷ r) = o ∷ intents_of r

  abbrev pub buys_in : List (OrderIntent Num × SizedOrder Num) → ℕ
  buys_in [] = 0
  buys_in ((o, s) ∷ r) = (if is_buy o.side then 1 else 0) + buys_in r

  record Decided (i : TickInputs D) (entries : ℕ) (os : List (OrderIntent Num)) (t : TickPlan Num)
      : Type 0 where
    allowed : All (IsApproved i) t.approved
    few :
        entries ≤ i.cfg.risk.max_entries_per_tick
        → buys_in t.approved + entries ≤ i.cfg.risk.max_entries_per_tick
    exits : filter is_exit_sale (intents_of t.approved) ≡ filter is_exit_sale os
    parted : length t.approved + length t.refused ≡ length os

  add_decision-Decided :
      (i : TickInputs D) (entries : ℕ) (o : OrderIntent Num) (os : List (OrderIntent Num))
      (d : Decision Num) (t : TickPlan Num)
      → decide D o i entries ≡ some d
      → Decided i (entries_after D o d entries) os t
      → Decided i entries (o ∷ os) (add_decision D o d t)
  add_decision-Decided i entries o os (approves s) t e h = record {
    allowed = ((λ b. (decide-IsEntry o i entries s e b).0), h.allowed);
    few = λ k. elim (Bool-cases (is_buy o.side)) [
      | inl b ↦ ground (arith, h.few, k, b, (decide-IsEntry o i entries s e b).1)
      | inr b ↦ ground (arith, h.few, k, b)
    ];
    exits = ground (arith, h.exits);
    parted = ground (arith, h.parted);
  }
  add_decision-Decided i entries o os (refuses r) t e h = record {
    allowed = h.allowed;
    few = h.few;
    exits = elim (Bool-cases (is_exit_sale o)) [
      | inl x ↦ absurd (ground (arith, e, (decide-exit o i entries x).1))
      | inr x ↦ ground (arith, h.exits, x)
    ];
    parted = ground (arith, h.parted);
  }

  decide_all-Decided :
      (i : TickInputs D) (entries : ℕ) (os : List (OrderIntent Num)) (t : TickPlan Num)
      → decide_all D i entries os ≡ some t
      → Decided i entries os t
  unfolding decide_all
  decide_all-Decided i entries [] t e =
      let empty : TickPlan Num = record { intents = []; approved = []; refused = [] } in
      let same : empty ≡ t = ground (arith, e) in
      subst (Decided i entries []) same
        (record { allowed = tt; few = λ k. ground (arith, k); exits = refl; parted = omega arith })
  decide_all-Decided i entries (o ∷ os) t e = elim (Option-cases (decide D o i entries)) [
    | inl gone ↦ absurd (ground (arith, e, gone))
    | inr (d, first) ↦ elim (Option-cases (decide_all D i (entries_after D o d entries) os)) [
      | inl gone ↦ absurd (ground (arith, e, first, gone))
      | inr (r, rest) ↦
          let same : add_decision D o d r ≡ t = ground (arith, e, first, rest) in
          subst (Decided i entries (o ∷ os)) same (
            add_decision-Decided i entries o os d r first
              (decide_all-Decided i (entries_after D o d entries) os r rest))
    ]
  ]

-- A tick's plan decides on the intents of the plan of the portfolio: each is approved or refused; every
-- exit sale is approved, in its order; there are at most `max_entries_per_tick` approved buys; and each
-- approved buy is of a core mint or passes its gate, has no pending order for its mint, readable limits,
-- no brake or counter or list against it, the cash, gas and minimum order that an entry needs, and the
-- size that `size_order` gives for those limits.
pub plan_tick-IsApproved :
    (D : DecimalOps) (targets : List (TargetExposure D.Num)) (i : TickInputs D) (t : TickPlan D.Num)
    → plan_tick D targets i ≡ some t
    → (plan D targets i.acct i.sigma90 i.cfg (some i.now) ≡ some t.intents)
      × All (IsApproved D i) t.approved
      × (buys_in D t.approved ≤ i.cfg.risk.max_entries_per_tick)
      × (filter (is_exit_sale D) (intents_of D t.approved) ≡ filter (is_exit_sale D) t.intents)
      × (length t.approved + length t.refused ≡ length t.intents)
unfolding plan_tick
plan_tick-IsApproved D targets i t h =
    elim (Option-cases (plan D targets i.acct i.sigma90 i.cfg (some i.now))) [
      | inl gone ↦ absurd (ground (arith, h, gone))
      | inr (os, planned) ↦ elim (Option-cases (decide_all D i 0 os)) [
        | inl gone ↦ absurd (ground (arith, h, planned, gone))
        | inr (r, decided) ↦
            let d = decide_all-Decided D i 0 os r decided in
            let full : TickPlan D.Num = record r { intents = os } in
            let same : full ≡ t = ground (arith, h, planned, decided) in
            subst
              (λ u.
                (plan D targets i.acct i.sigma90 i.cfg (some i.now) ≡ some u.intents)
                × All (IsApproved D i) u.approved
                × (buys_in D u.approved ≤ i.cfg.risk.max_entries_per_tick)
                × (filter (is_exit_sale D) (intents_of D u.approved)
                    ≡ filter (is_exit_sale D) u.intents)
                × (length u.approved + length u.refused ≡ length u.intents))
              same (planned, d.allowed, ground (arith, d.few), d.exits, d.parted)
      ]
    ]
