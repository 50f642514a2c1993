-- ===== src/State/Lock.antt =====
-- `InstanceLock` of src/tiller/state.py: one lock file, several processes that know their tokens.
-- A lock file that is missing or no JSON object is `none`; its heartbeat is `none` where it is no
-- timestamp. `atomic_write_text` and `unlink` replace the file at once,
-- but each call first reads the file and then writes or unlinks it: `acquire`, `heartbeat` and `release`
-- are the part up to the decision, on the file that was read, and `finish` the part after it, on the file
-- as it is by then.
pub mod Exclusive
use agent_trading.Base.{
  ℕ, ◌+◌, Bool, true, false, Option, none, some, String, if◌then◌else◌, not, ◌&&◌, ltb,
}
use agent_trading.Base.Text.{str_eq}

-- The payload that `_write` stores.
pub record LockFile : Type 0 where
  pub token : Option String
  pub heartbeat : Option ℕ

-- `self`: the token, `stale_after` and `_held` of one process.
pub record InstanceLock : Type 0 where
  pub own_token : String
  pub stale_after : ℕ
  pub held : Bool

-- How a call ends: it returns, raises `LockHeld`, or raises `RuntimeError`.
pub data Ended : Type 0 where
  returned lock_held runtime_error : Ended

-- The file and the process after a call.
pub record After : Type 0 where
  pub file : Option LockFile
  pub lock : InstanceLock
  pub ended : Ended

-- `existing.get("token") == self.token`
abbrev pub is_own : InstanceLock → LockFile → Bool
is_own l f = elim f.token [ none ↦ false | some t ↦ str_eq t l.own_token ]

-- `now - hb < self.stale_after`, for a heartbeat that is a timestamp.
abbrev pub is_fresh : InstanceLock → ℕ → LockFile → Bool
is_fresh l now f = elim f.heartbeat [ none ↦ false | some hb ↦ ltb now (hb + l.stale_after) ]

-- `_write`
abbrev pub written : InstanceLock → ℕ → Option LockFile
written l now = some (record { token = some l.own_token; heartbeat = some now })

-- What a call does after its read: it ends, writes the file, or takes it away.
pub data Next : Type 0 where
  ends : Ended → Next
  writes_acquired writes_beat unlinks lets_go : Next

-- The decision not to go on raises `LockHeld`.
abbrev pub is_blocked : InstanceLock → ℕ → Option LockFile → Bool
is_blocked l now none = false
is_blocked l now (some f) = not (is_own l f) && is_fresh l now f

-- `now` is the clock before the read.
unfoldable pub acquire : InstanceLock → ℕ → Option LockFile → Next
acquire l now file = if is_blocked l now file then ends lock_held else writes_acquired

abbrev is_foreign : InstanceLock → Option LockFile → Bool
is_foreign l none = false
is_foreign l (some f) = not (is_own l f)

unfoldable pub heartbeat : InstanceLock → Option LockFile → Next
heartbeat l file =
    if not l.held
    then ends runtime_error
    else (if is_foreign l file then ends lock_held else writes_beat)

abbrev takes_away : InstanceLock → Option LockFile → Next
takes_away l none = lets_go
takes_away l (some f) = if is_own l f then unlinks else lets_go

unfoldable pub release : InstanceLock → Option LockFile → Next
release l file = if not l.held then ends returned else takes_away l file

-- The rest of a call; `now` is the clock of `_write`.
unfoldable pub finish : InstanceLock → ℕ → Option LockFile → Next → After
finish l now file (ends e) = record { file = file; lock = l; ended = e }
finish l now file writes_acquired = record {
  file = written l now;
  lock = record l { held = true };
  ended = returned;
}
finish l now file writes_beat = record { file = written l now; lock = l; ended = returned }
finish l now file unlinks = record {
  file = none;
  lock = record l { held = false };
  ended = returned;
}
finish l now file lets_go = record {
  file = file;
  lock = record l { held = false };
  ended = returned;
}
