-- ===== src/LockManager/Calls.antt =====
-- The calls that tasks make on one key, with who holds the lock before and after.
pub mod Validity
use fxfs_on_linux.Common.{
  ℕ, ◌<◌, ◌≡◌, Bool, true, false, List, [], ◌∷◌, Option, none, some, ◌==◌, if◌then◌else◌, Outcome,
  ok, err, panic, ◌>>=◌, ◌||◌,
}
use fxfs_on_linux.LockManager.Entry.{
  LockState, read_lock, locked, write_lock, LockWaker, LockEntry, head_is_upgrade,
}
use fxfs_on_linux.LockManager.Keys.{
  lock_key, commit_prepare_key, drop_lock, downgrade_key, cancel_key, abandon_key,
}
use fxfs_on_linux.LockManager.Holds.{Holds, hold, upgrade, downgrade, release, grant_all, Valid}

pub data Call : Type 0 where
  -- `lock` asks for the key, with a waker at the address `i` if it has to wait.
  locks : LockState → (i : ℕ) → Call
  -- `commit_prepare` asks for the upgrade of a transaction lock.
  prepares : (i : ℕ) → Call
  -- A guard, or the locks of a transaction, are dropped.
  drops : LockState → Call
  -- `downgrade_locks`, at the end of `commit_and_continue`.
  downgrades : Call
  -- A task that waits is dropped.
  cancels : (i : ℕ) → Call
  -- A task that was woken is dropped before it runs.
  abandons : LockWaker → Call

abbrev with_woken : Holds → Option LockEntry × List LockWaker → Outcome (Option LockEntry × Holds)
with_woken h (e, woken) = ok (e, grant_all woken h)

unfoldable pub perform : Call → Option LockEntry → Holds → Outcome (Option LockEntry × Holds)
perform (locks s i) e h =
    let (e', granted) = lock_key e s i in ok (e', if granted then hold s h else h)
perform (prepares i) e h = do
  (e', granted) ← commit_prepare_key e i
  ok (e', if granted then upgrade h else h)
perform (drops s) e h = drop_lock e s >>= with_woken (release s h)
perform downgrades e h = downgrade_key e >>= with_woken (downgrade h)
perform (cancels i) e h = cancel_key e i >>= with_woken h
perform (abandons w) e h =
    abandon_key e w >>= with_woken (if w.is_upgrade then downgrade h else release w.target_state h)

abbrev pub wakers_of : Option LockEntry → List LockWaker
wakers_of none = []
wakers_of (some e) = e.wakers

abbrev pub has_id : ℕ → List LockWaker → Bool
has_id i [] = false
has_id i (w ∷ ws) = w.id == i || has_id i ws

-- A lock in this state is held, and for a transaction lock no upgrade of it is under way.
abbrev pub Holder : LockState → Option LockEntry → Holds → Type 0
Holder read_lock e h = 0 < h.readers
Holder locked e h = (0 < h.lockers) × (head_is_upgrade (wakers_of e) ≡ false)
Holder write_lock e h = 0 < h.writers

abbrev pub Abandoner : Bool → LockState → Option LockEntry → Holds → Type 0
Abandoner true s e h = Holder write_lock e h
Abandoner false s e h = Holder s e h

-- Who may make a call: guards are dropped by those that hold them, and the upgrade of a transaction
-- lock is asked for once, by its holder.
abbrev pub Permitted : Call → Option LockEntry → Holds → Type 0
Permitted (locks s i) e h = Unit
Permitted (prepares i) e h = Holder locked e h
Permitted (drops s) e h = Holder s e h
Permitted downgrades e h = Holder write_lock e h
Permitted (cancels i) e h = has_id i (wakers_of e) ≡ true
Permitted (abandons w) e h = Abandoner w.is_upgrade w.target_state e h

-- A call ends without an error or a panic, in a valid state.
abbrev pub EndsValid : Outcome (Option LockEntry × Holds) → Type 0
EndsValid (ok (e, h)) = Valid e h
EndsValid (err x) = ⊥
EndsValid panic = ⊥
