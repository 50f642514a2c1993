-- ===== src/Risk/Canary.antt =====
-- `advance_canary` of src/tiller/risk/engine.py: the ramp of live order sizes.
pub mod Ramp
use agent_trading.Base.{
  ℕ, ◌+◌, ◌-◌, Bool, true, false, Option, none, some, List, if◌then◌else◌, not, ◌&&◌, ◌||◌, leb,
  ltb, length,
}
use agent_trading.State.{CanaryState}
use agent_trading.Config.{CanaryCfg}
use agent_trading.Risk.Limits.{canary_verified}

-- `max(1, len(cfg.ramp_steps))`
abbrev pub step_count {ℓ} : {A : Type ℓ} → List A → ℕ
step_count xs = if ltb 1 (length xs) then length xs else 1

-- The sticky flags: buy, sell, post.
unfoldable pub verify : CanaryState → Bool → Bool → Bool → CanaryState
verify c buy sell post = record c {
  verified_buy = c.verified_buy || buy;
  verified_sell = c.verified_sell || sell;
  verified_post = c.verified_post || post;
}

-- A verified ramp that started at `started`.
abbrev pub moved : {N : Type 0} → CanaryState → ℕ → Bool → ℕ → CanaryCfg N → CanaryState
moved c started brake_tripped now cfg =
    if brake_tripped
    then record c { ramp_step = c.ramp_step - 1; ramp_step_started = some now }
    else (if leb (started + cfg.ramp_step_length) now
          && ltb (c.ramp_step + 1) (step_count cfg.ramp_steps)
        then record c { ramp_step = c.ramp_step + 1; ramp_step_started = some now }
        else c)

abbrev pub started_or_moved :
    {N : Type 0} → CanaryState → Option ℕ → Bool → ℕ → CanaryCfg N → CanaryState
started_or_moved c none brake_tripped now cfg = record c {
  ramp_step = 0;
  ramp_step_started = some now;
}
started_or_moved c (some started) brake_tripped now cfg = moved c started brake_tripped now cfg

unfoldable pub advance_canary :
    {N : Type 0} → CanaryState → Bool → Bool → Bool → Bool → ℕ → CanaryCfg N → CanaryState
unfolding verify canary_verified
advance_canary state buy sell post brake_tripped now cfg =
    let out = verify state buy sell post in
    if not (canary_verified out)
    then record out { ramp_step = 0; ramp_step_started = none }
    else started_or_moved out out.ramp_step_started brake_tripped now cfg
