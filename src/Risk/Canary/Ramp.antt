-- ===== src/Risk/Canary/Ramp.antt =====
-- The canary ramp as a state machine: one tick per call of `advance_canary`.
use agent_trading.Base.{
  ℕ, ◌+◌, ◌-◌, ◌*◌, ◌≤◌, ◌<◌, Bool, true, ◌≡◌, inl, inr, refl, Option, none, some, List, [], ◌∷◌,
  arith, subst, sym, if_intro, leb→le, &&_parts, Option-cases, not, ◌&&◌, if◌then◌else◌, leb, ltb,
}
use agent_trading.State.{CanaryState}
use agent_trading.Config.{CanaryCfg}
use agent_trading.Risk.Limits.{canary_verified}
use agent_trading.Risk.Canary.{advance_canary, step_count, verify, moved, started_or_moved}

-- What a call reports: verified buy, sell and post, a tripped brake, and the time.
pub record Tick : Type 0 where
  pub buy : Bool
  pub sell : Bool
  pub post : Bool
  pub brake_tripped : Bool
  pub now : ℕ

module _ {N : Type 0} (cfg : CanaryCfg N) where
  abbrev pub tick : Tick → CanaryState → CanaryState
  tick t c = advance_canary c t.buy t.sell t.post t.brake_tripped t.now cfg

  -- The step is a place of the ramp, and above the first only after all three verifications.
  pub record IsRamp (c : CanaryState) : Type 0 where
    pub in_ramp : c.ramp_step < step_count cfg.ramp_steps
    pub earned : 0 < c.ramp_step → canary_verified c ≡ true

  tick-IsRamp : (t : Tick) (c : CanaryState) → IsRamp c → IsRamp (tick t c)
  unfolding advance_canary
  tick-IsRamp t c h = record { in_ramp = ground arith; earned = ground arith }

  -- A verification is never forgotten.
  tick_sticky :
      (t : Tick) (c : CanaryState) → canary_verified c ≡ true → canary_verified (tick t c) ≡ true
  unfolding advance_canary
  tick_sticky t c h = ground arith

  -- Since `origin` the ramp has taken one step per `ramp_step_length` at most.
  abbrev pub Paced : ℕ → ℕ → ℕ → Option ℕ → Type 0
  Paced origin now step none = step ≡ 0
  Paced origin now step (some s) = (origin + step * cfg.ramp_step_length ≤ s) × (s ≤ now)

  abbrev pub IsPaced : ℕ → ℕ → CanaryState → Type 0
  IsPaced origin now c = Paced origin now c.ramp_step c.ramp_step_started

  step_back : (n l : ℕ) → (n - 1) * l ≤ n * l
  step_back n l = grind arith

  module _ (origin now : ℕ) (t : Tick) (o : origin ≤ now) (n : now ≤ t.now) where
    moved-IsPaced :
        (c : CanaryState) (s : ℕ)
        → c.ramp_step_started ≡ some s
        → Paced origin now c.ramp_step (some s)
        → IsPaced origin t.now (moved c s t.brake_tripped t.now cfg)
    moved-IsPaced c s e p =
        let back = step_back c.ramp_step cfg.ramp_step_length in
        let down = record c { ramp_step = c.ramp_step - 1; ramp_step_started = some t.now } in
        let up = record c { ramp_step = c.ramp_step + 1; ramp_step_started = some t.now } in
        let due =
          leb (s + cfg.ramp_step_length) t.now
          && ltb (c.ramp_step + 1) (step_count cfg.ramp_steps) in
        let waited : due ≡ true → s + cfg.ramp_step_length ≤ t.now = λ ok.
          leb→le (s + cfg.ramp_step_length) t.now
            (&&_parts (leb (s + cfg.ramp_step_length) t.now)
              (ltb (c.ramp_step + 1) (step_count cfg.ramp_steps)) ok).0 in
        let rise = if due then up else c in
        if_intro (IsPaced origin t.now) t.brake_tripped down rise
          (λ _. (omega (arith, back), omega arith))
          λ _.
            if_intro (IsPaced origin t.now) due up c (λ ok. (omega (arith, waited ok), omega arith))
              λ _. subst (Paced origin t.now c.ramp_step) (sym e) (p.0, omega arith)

    started_or_moved-IsPaced :
        (c : CanaryState) (st : Option ℕ)
        → c.ramp_step_started ≡ st
        → Paced origin now c.ramp_step st
        → IsPaced origin t.now (started_or_moved c st t.brake_tripped t.now cfg)
    started_or_moved-IsPaced c none e p = (omega arith, omega arith)
    started_or_moved-IsPaced c (some s) e p = moved-IsPaced c s e p

    tick-IsPaced : (c : CanaryState) → IsPaced origin now c → IsPaced origin t.now (tick t c)
    unfolding advance_canary
    tick-IsPaced c h =
        let out = verify c t.buy t.sell t.post in
        let reset = record out { ramp_step = 0; ramp_step_started = none } in
        if_intro (IsPaced origin t.now) (not (canary_verified out)) reset
          (started_or_moved out c.ramp_step_started t.brake_tripped t.now cfg) (λ _. refl)
          λ _. started_or_moved-IsPaced out c.ramp_step_started refl h

  pub run : List Tick → CanaryState → CanaryState
  run [] c = c
  run (t ∷ ts) c = run ts (tick t c)

  -- The times of the calls do not go back.
  abbrev pub InOrder : ℕ → List Tick → Type 0
  InOrder now [] = Unit
  InOrder now (t ∷ ts) = (now ≤ t.now) × InOrder t.now ts

  abbrev pub last_time : ℕ → List Tick → ℕ
  last_time now [] = now
  last_time now (t ∷ ts) = last_time t.now ts

  run-kept :
      (origin now : ℕ) (ts : List Tick) (c : CanaryState)
      → origin ≤ now
      → InOrder now ts
      → IsRamp c
      → IsPaced origin now c
      → IsRamp (run ts c) × IsPaced origin (last_time now ts) (run ts c)
  unfolding run
  run-kept origin now [] c o n r p = (r, p)
  run-kept origin now (t ∷ ts) c o n r p =
      run-kept origin t.now ts (tick t c) (omega arith) n.1 (tick-IsRamp t c r)
        (tick-IsPaced origin now t o n.0 c p)

  -- From a start at the first step, after any calls with times that do not go back: the step is a
  -- place of the ramp, it is above the first only if all three trades were verified, and it took
  -- one `ramp_step_length` at least for each step since the start.
  pub ramp_lem :
      (start : ℕ) (ts : List Tick) (c : CanaryState)
      → c.ramp_step ≡ 0
      → c.ramp_step_started ≡ none
      → InOrder start ts
      → let d = run ts c in
        (d.ramp_step < step_count cfg.ramp_steps)
        × (0 < d.ramp_step → canary_verified d ≡ true)
        × (start + d.ramp_step * cfg.ramp_step_length ≤ last_time start ts)
  ramp_lem start ts c zero_step idle order =
      let (r, p) =
        run-kept start start ts c (omega arith) order
          (record { in_ramp = ground (arith, zero_step); earned = λ h. absurd (omega arith) })
          (subst (Paced start start c.ramp_step) (sym idle) zero_step) in
      (r.in_ramp, r.earned, paced_end (run ts c) p)
    where
      in_order : (now : ℕ) (us : List Tick) → InOrder now us → now ≤ last_time now us
      in_order now [] h = omega arith
      in_order now (u ∷ us) h = omega (arith, in_order u.now us h.1)

      paced_end :
          (d : CanaryState)
          → IsPaced start (last_time start ts) d
          → start + d.ramp_step * cfg.ramp_step_length ≤ last_time start ts
      paced_end d h = elim (Option-cases d.ramp_step_started) [
        | inl e ↦
            let none_taken = subst (Paced start (last_time start ts) d.ramp_step) e h in
            rw none_taken (omega (arith, in_order start ts order))
        | inr (s, e) ↦
            let p = subst (Paced start (last_time start ts) d.ramp_step) e h in
            omega (arith, p.0, p.1)
      ]
