-- ===== src/State/Lock/Exclusive.antt =====
-- A fresh lock of src/tiller/state.py is not displaced by a call that reads it: what another process can
-- do to the file, as a step relation under a clock that does not go back, in which the read of a call
-- and the rest of it are two steps.
use agent_trading.Base.{ℕ, ◌≤◌, false, ◌≡◌, refl, Option, none, some, String}
use agent_trading.Base.Text.{str_eq}
use agent_trading.State.Lock.{
  LockFile, InstanceLock, After, acquire, heartbeat, release, written, Next, ends, writes_acquired,
  writes_beat, unlinks, lets_go, finish,
}

-- The file, another process, what its call does next if it is between its read and its end, and the
-- time.
pub record World : Type 0 where
  pub file : Option LockFile
  pub other : InstanceLock
  pub next : Option Next
  pub now : ℕ

abbrev pub after_read : World → Next → World
after_read w x = record w { next = some x }

abbrev pub after_call : World → After → World
after_call w a = record { file = a.file; other = a.lock; next = none; now = w.now }

-- `acquires` reads the clock, at `t`, before it reads the file.
pub data Step : World → World → Type 0 where
  waits : (w : World) (t : ℕ) → w.now ≤ t → Step w (record w { now = t })
  acquires :
      (w : World) (t : ℕ)
      → t ≤ w.now
      → w.next ≡ none
      → Step w (after_read w (acquire w.other t w.file))
  beats : (w : World) → w.next ≡ none → Step w (after_read w (heartbeat w.other w.file))
  releases : (w : World) → w.next ≡ none → Step w (after_read w (release w.other w.file))
  finishes :
      (w : World) (x : Next)
      → w.next ≡ some x
      → Step w (after_call w (finish w.other w.now w.file x))

pub data Reach (s : World) : World → Type 0 where
  here : Reach s s
  next : {t u : World} → Reach s t → Step t u → Reach s u

-- A call that does not touch the file any more.
abbrev Harmless : Option Next → Type 0
Harmless none = Unit
Harmless (some (ends e)) = Unit
Harmless (some lets_go) = Unit
Harmless (some writes_acquired) = ⊥
Harmless (some writes_beat) = ⊥
Harmless (some unlinks) = ⊥

-- The file is that of an owner with another token than the other process, whose call in progress, if
-- any, leaves it.
pub record Guards (f : LockFile) (owner : String) (stale : ℕ) (w : World) : Type 0 where
  pub same : w.file ≡ some f
  pub foreign : str_eq owner w.other.own_token ≡ false
  pub limit : w.other.stale_after ≡ stale
  pub harmless : Harmless w.next

-- Without that condition it fails: a call of `acquire` that has decided to go on replaces whatever lock
-- is there when it writes.
late_write_displaces :
    (w : World)
    → w.next ≡ some writes_acquired
    → (u : World) × Step w u × (u.file ≡ written w.other w.now)
unfolding finish
late_write_displaces w k =
    (after_call w (finish w.other w.now w.file writes_acquired), finishes w writes_acquired k, refl)
