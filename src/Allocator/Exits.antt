-- ===== src/Allocator/Exits.antt =====
-- The trailing stop and the intents of exits.
use agent_trading.Base.{
  ℕ, false, ◌≡◌, inl, inr, Option, none, some, List, [], ◌∷◌, String, arith, All, subst, Bool-cases,
  Option-cases, if◌then◌else◌, ◌||◌,
}
use agent_trading.Base.Int.{pos, leb_ℤ}
use agent_trading.Base.Text.{str_eq, str_in}
use agent_trading.Decimal.{DecimalOps, zero_d, one_d}
use agent_trading.Models.{sol_mint, usdc_mint, sell, Position, ExitRule}
use agent_trading.Config.{Config}
use agent_trading.Account.{AccountSnapshot, holding_units}
use agent_trading.Allocator.{
  OrderIntent, tradeable_base, current_value_usd, ratchet_trailing_stop, exit_intent, exit_intents,
  exit_intents_from, trailed, ratcheted,
}

module _ (D : DecimalOps) where
  open D use {Num, leb as leb_d}

  -- A rule with a new stop, which is above the old one where there was one.
  pub record IsRaised (old new : ExitRule Num) : Type 0 where
    pub stop : Num
    pub only_stop : new ≡ record old { stop_price = some stop }
    pub above : (s : Num) → old.stop_price ≡ some s → leb_d stop s ≡ false

  trailed-IsRaised :
      (old new : ExitRule Num) (trail mark entry : Num)
      → trailed D old trail mark entry ≡ some new
      → IsRaised old new
  trailed-IsRaised old new trail mark entry h =
      let candidate = D.mul mark (D.sub (one_d D) trail) in
      record { stop = candidate; only_stop = ground arith; above = λ s e. ground arith }

  ratcheted-IsRaised :
      (p : Position Num) (old new : ExitRule Num) (trail mark : Num) (dec : Option ℕ)
      → ratcheted D p old trail mark dec ≡ some new
      → IsRaised old new
  ratcheted-IsRaised p old new trail mark none h = absurd (ground arith)
  ratcheted-IsRaised p old new trail mark (some dec) h =
      let units = holding_units D p.amount_base dec in
      trailed-IsRaised old new trail mark (D.div p.cost_usd units) (ground arith)

  -- A trailing stop that moves is raised, and the rest of the rule stays.
  pub ratchet_trailing_stop-IsRaised :
      (p : Position Num) (mark : Option Num) (decimals : String → Option ℕ) (old new : ExitRule Num)
      → p.exit ≡ some old
      → ratchet_trailing_stop D p mark decimals ≡ some new
      → IsRaised old new
  unfolding ratchet_trailing_stop
  ratchet_trailing_stop-IsRaised p mark decimals old new e h = elim (Option-cases old.trail_pct) [
    | inl gone ↦ absurd (ground arith)
    | inr (trail, t) ↦ elim (Option-cases mark) [
      | inl gone ↦ absurd (ground arith)
      | inr (m, k) ↦
          let dec = if str_eq p.mint sol_mint then some 9 else decimals p.mint in
          ratcheted-IsRaised p old new trail m dec (ground arith)
    ]
  ]

  -- An intent that closes a holding of its mint.
  pub record IsClosing (acct : AccountSnapshot Num) (cfg : Config Num) (o : OrderIntent Num)
      : Type 0 where
    pub sells : o.side ≡ sell
    pub whole : o.amount_base ≡ some (tradeable_base D o.mint acct cfg)
    pub holds : leb_ℤ (tradeable_base D o.mint acct cfg) (pos 0) ≡ false
    pub worth : current_value_usd D o.mint acct cfg ≡ some o.usd
    pub positive : leb_d o.usd (zero_d D) ≡ false
    pub not_usdc : str_eq o.mint usdc_mint ≡ false

  -- No mint twice, and none that was seen.
  abbrev pub Fresh : List String → List (OrderIntent Num) → Type 0
  Fresh seen [] = Unit
  Fresh seen (o ∷ os) = (str_in o.mint seen ≡ false) × Fresh (o.mint ∷ seen) os

  exit_intent-IsClosing :
      (acct : AccountSnapshot Num) (cfg : Config Num) (now : ℕ) (p : Position Num)
      (o : OrderIntent Num)
      → str_eq p.mint usdc_mint ≡ false
      → exit_intent D acct cfg now p ≡ some (some o)
      → IsClosing acct cfg o × (o.mint ≡ p.mint)
  unfolding exit_intent
  exit_intent-IsClosing acct cfg now p o u h = ground arith

  exit_intents_from-Closing :
      (acct : AccountSnapshot Num) (cfg : Config Num) (now : ℕ) (seen : List String)
      (ps : List (Position Num)) (os : List (OrderIntent Num))
      → exit_intents_from D acct cfg now seen ps ≡ some os
      → All (IsClosing acct cfg) os × Fresh seen os
  unfolding exit_intents_from
  exit_intents_from-Closing acct cfg now seen [] os h = ground arith
  exit_intents_from-Closing acct cfg now seen (p ∷ ps) os h =
      elim (Bool-cases (str_in p.mint seen || str_eq p.mint usdc_mint)) [
        | inl skip ↦ exit_intents_from-Closing acct cfg now seen ps os (ground arith)
        | inr keep ↦ elim (Option-cases (exit_intent D acct cfg now p)) [
          | inl gone ↦ absurd (ground arith)
          | inr (none, e) ↦ exit_intents_from-Closing acct cfg now seen ps os (ground arith)
          | inr (some o, e) ↦
              elim (Option-cases (exit_intents_from D acct cfg now (p.mint ∷ seen) ps)) [
                | inl gone ↦ absurd (ground arith)
                | inr (rest, r) ↦
                    let (closing, same) = exit_intent-IsClosing acct cfg now p o (ground arith) e in
                    let (others, fresh) =
                      exit_intents_from-Closing acct cfg now (p.mint ∷ seen) ps rest r in
                    let list : o ∷ rest ≡ os = ground arith in
                    let first : str_in o.mint seen ≡ false = rw same (ground arith) in
                    let after : Fresh (o.mint ∷ seen) rest = rw same fresh in
                    subst (λ xs. All (IsClosing acct cfg) xs × Fresh seen xs) list
                      ((closing, others), (first, after))
              ]
        ]
      ]

  -- The exit intents sell the whole tradeable holding of pairwise different mints other than USDC,
  -- each with a positive amount and a positive value.
  pub exit_intents-Closing :
      (acct : AccountSnapshot Num) (cfg : Config Num) (now : ℕ) (os : List (OrderIntent Num))
      → exit_intents D acct cfg now ≡ some os
      → All (IsClosing acct cfg) os × Fresh [] os
  unfolding exit_intents
  exit_intents-Closing acct cfg now os h =
      exit_intents_from-Closing acct cfg now [] acct.positions os h
