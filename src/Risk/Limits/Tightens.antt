-- ===== src/Risk/Limits/Tightens.antt =====
-- The merge of src/tiller/risk/engine.py only tightens, and fails closed.
use agent_trading.Base.{
  Bool, true, false, ◌≡◌, ◌⊎◌, ◌↔◌, inl, inr, refl, subst, sym, ◌∙◌, Option, none, some, arith,
  Bool-cases, Option-cases,
}
use mathlib.Core.Option.{some-injective}
use agent_trading.Decimal.{DecimalOps}
use agent_trading.Decimal.Laws.{DecimalLaws, Le, min-le_left, min-le_right}
use agent_trading.Models.{OwnerLimits}
use agent_trading.State.{CanaryState}
use agent_trading.Config.{RiskCfg}
use agent_trading.Risk.Directive.{Directive, pause, liquidate, parse_directive, prefer}
use agent_trading.Risk.Limits.{
  Limits, Merged, min_opt, merge_source, merge_sources, nothing_merged, effective_limits,
  canary_verified, staged,
}

module _ (D : DecimalOps) (L : DecimalLaws D) where
  open D use {Num}

  -- A cap is at least as tight as another; `none` is no cap.
  abbrev pub Tighter : Option Num → Option Num → Type 0
  Tighter a none = Unit
  Tighter none (some c) = ⊥
  Tighter (some b) (some c) = Le D b c

  Tighter-refl : (a : Option Num) → Tighter a a
  Tighter-refl none = tt
  Tighter-refl (some a) = L.leb_refl a

  Tighter-trans : (a b c : Option Num) → Tighter a b → Tighter b c → Tighter a c
  Tighter-trans a b none h k = tt
  Tighter-trans a none (some c) h k = absurd k
  Tighter-trans none (some b) (some c) h k = absurd h
  Tighter-trans (some a) (some b) (some c) h k = L.leb_trans a b c h k

  min_opt-left : (a b : Option Num) → Tighter (min_opt D a b) a
  min_opt-left none none = tt
  min_opt-left none (some b) = tt
  min_opt-left (some a) none = L.leb_refl a
  min_opt-left (some a) (some b) = min-le_left D L a b

  min_opt-right : (a b : Option Num) → Tighter (min_opt D a b) b
  min_opt-right none none = tt
  min_opt-right none (some b) = L.leb_refl b
  min_opt-right (some a) none = tt
  min_opt-right (some a) (some b) = min-le_right D L a b

  -- Both caps are as tight as those of a source that was readable, and a source that asks for a
  -- liquidation is obeyed.
  abbrev pub Obeys : Option Num → Option Num → Option Directive → Option (OwnerLimits Num) → Type 0
  Obeys pos_cap day_cap directive none = Unit
  Obeys pos_cap day_cap directive (some src) =
      (src.readable ≡ true)
      × Tighter pos_cap src.max_position_usd
      × Tighter day_cap src.daily_limit_usd
      × (parse_directive src.instructions ≡ some liquidate → directive ≡ some liquidate)

  prefer-left : (a b : Option Directive) → a ≡ some liquidate → prefer a b ≡ some liquidate
  prefer-left a b h = ground arith

  prefer-right : (a b : Option Directive) → b ≡ some liquidate → prefer a b ≡ some liquidate
  prefer-right none b h = h
  prefer-right (some pause) b h = ground arith
  prefer-right (some liquidate) b h = refl

  -- What a source adds to the caps so far.
  abbrev Merges : Option (OwnerLimits Num) → Merged D → Merged D → Type 0
  Merges src m n =
      Obeys n.max_pos n.daily n.directive src
      × Tighter n.max_pos m.max_pos
      × Tighter n.daily m.daily
      × (m.directive ≡ some liquidate → n.directive ≡ some liquidate)

  merge_source-Merges :
      (src : Option (OwnerLimits Num)) (m n : Merged D)
      → merge_source D src m ≡ some n
      → Merges src m n
  merge_source-Merges none m n h =
      subst (λ n. Merges none m n) (some-injective m n h)
        (tt, Tighter-refl m.max_pos, Tighter-refl m.daily, λ e. e)
  merge_source-Merges (some src) m n h = elim (Bool-cases src.readable) [
    | inr e ↦ cc (rw e at h)
    | inl e ↦
        subst (λ n. Merges (some src) m n) (some-injective _ n (rw e at h))
          (
            (
              e,
              min_opt-right m.max_pos src.max_position_usd,
              min_opt-right m.daily src.daily_limit_usd,
              prefer-right m.directive (parse_directive src.instructions),
            ),
            min_opt-left m.max_pos src.max_position_usd,
            min_opt-left m.daily src.daily_limit_usd,
            prefer-left m.directive (parse_directive src.instructions),
          )
  ]

  Obeys-Tighter :
      (src : Option (OwnerLimits Num)) (p q a b : Option Num) (d e : Option Directive)
      → Obeys p a d src
      → Tighter q p
      → Tighter b a
      → (d ≡ some liquidate → e ≡ some liquidate)
      → Obeys q b e src
  Obeys-Tighter none p q a b d e o h k i = tt
  Obeys-Tighter (some src) p q a b d e o h k i = (
    o.0,
    Tighter-trans q p src.max_position_usd h o.1,
    Tighter-trans b a src.daily_limit_usd k o.2,
    λ says. i (o.3 says),
  )

  merge_sources-Obeys :
      (owner local : Option (OwnerLimits Num)) (n : Merged D)
      → merge_sources D owner local ≡ some n
      → Obeys n.max_pos n.daily n.directive owner × Obeys n.max_pos n.daily n.directive local
  unfolding merge_sources
  merge_sources-Obeys owner local n h =
      elim (Option-cases (merge_source D owner (nothing_merged D))) [
        | inl e ↦ cc (rw (e, merge_sources) at h)
        | inr (m, e) ↦
            let first = merge_source-Merges owner (nothing_merged D) m e in
            let second = merge_source-Merges local m n (ground arith) in
            (
              Obeys-Tighter owner m.max_pos n.max_pos m.daily n.daily m.directive n.directive
                  first.0 second.1 second.2 second.3,
              second.0,
            )
      ]

  staged-Tighter :
      (cfg : RiskCfg Num) (c : CanaryState) (live : Bool) (m : Merged D)
      → Tighter (staged D cfg c live m).max_position_usd m.max_pos
        × Tighter (staged D cfg c live m).daily_limit_usd m.daily
        × ((staged D cfg c live m).directive ≡ m.directive)
  staged-Tighter cfg c live m =
      let p = min_opt-left m.max_pos (some cfg.canary.max_position_usd) in
      let q = min_opt-left m.daily (some cfg.canary.daily_limit_usd) in
      ground (arith, p, q, Tighter-refl m.max_pos, Tighter-refl m.daily)

  -- While the canary is on and not verified, its own caps apply too.
  abbrev pub CanaryCaps : RiskCfg Num → Limits Num → Type 0
  CanaryCaps cfg l =
      Tighter l.max_position_usd (some cfg.canary.max_position_usd)
      × Tighter l.daily_limit_usd (some cfg.canary.daily_limit_usd)

  staged-CanaryCaps :
      (cfg : RiskCfg Num) (c : CanaryState) (m : Merged D)
      → canary_verified c ≡ false
      → CanaryCaps cfg (staged D cfg c true m)
  staged-CanaryCaps cfg c m e = rw e (
    min_opt-right m.max_pos (some cfg.canary.max_position_usd),
    min_opt-right m.daily (some cfg.canary.daily_limit_usd),
  )

  -- Where limits come out, every source was readable, both caps are at least as tight as those of
  -- each source, a liquidation asked for by either is the directive, and while the canary is on
  -- and not verified both caps are at least as tight as the canary's.
  pub effective_limits-tighten :
      (cfg : RiskCfg Num) (owner local : Option (OwnerLimits Num)) (c : CanaryState) (live : Bool)
      (l : Limits Num)
      → effective_limits D cfg owner local c live ≡ some l
      → Obeys l.max_position_usd l.daily_limit_usd l.directive owner
        × Obeys l.max_position_usd l.daily_limit_usd l.directive local
        × (live ≡ true → canary_verified c ≡ false → CanaryCaps cfg l)
  unfolding effective_limits
  effective_limits-tighten cfg owner local c live l h =
      elim (Option-cases (merge_sources D owner local)) [
        | inl e ↦ absurd (ground arith)
        | inr (m, e) ↦
            let both = merge_sources-Obeys owner local m e in
            let t = staged-Tighter cfg c live m in
            let same : staged D cfg c live m ≡ l = ground arith in
            let keeps : m.directive ≡ some liquidate
                → (staged D cfg c live m).directive ≡ some liquidate =
              λ d. t.2 ∙ d in
            subst
              (λ l.
                Obeys l.max_position_usd l.daily_limit_usd l.directive owner
                × Obeys l.max_position_usd l.daily_limit_usd l.directive local
                × (live ≡ true → canary_verified c ≡ false → CanaryCaps cfg l))
              same
              (
                Obeys-Tighter owner m.max_pos _ m.daily _ m.directive _ both.0 t.0 t.1 keeps,
                Obeys-Tighter local m.max_pos _ m.daily _ m.directive _ both.1 t.0 t.1 keeps,
                λ on e.
                    subst (λ b. CanaryCaps cfg (staged D cfg c b m)) (sym on)
                      (staged-CanaryCaps cfg c m e),
              )
      ]

module _ (D : DecimalOps) where
  open D use {Num}

  -- A source that is there and could not be read.
  abbrev pub IsUnreadable : Option (OwnerLimits Num) → Type 0
  IsUnreadable none = ⊥
  IsUnreadable (some src) = src.readable ≡ false

  -- No limits come out exactly when a source is there and unreadable.
  pub effective_limits_closed :
      (cfg : RiskCfg Num) (owner local : Option (OwnerLimits Num)) (c : CanaryState) (live : Bool)
      → (effective_limits D cfg owner local c live ≡ none)
        ↔ (IsUnreadable owner ⊎ IsUnreadable local)
  unfolding effective_limits merge_sources
  effective_limits_closed cfg none none c live = (λ h. ground arith, λ h. ground arith)
  effective_limits_closed cfg none (some src) c live = (λ h. ground arith, λ h. ground arith)
  effective_limits_closed cfg (some src) none c live = (λ h. ground arith, λ h. ground arith)
  effective_limits_closed cfg (some o) (some l) c live = (λ h. ground arith, λ h. ground arith)
