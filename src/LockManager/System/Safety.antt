-- ===== src/LockManager/System/Safety.antt =====
-- What holds of every reachable state of the lock manager.
use mathlib.Core.Logic.{if_pos, if_neg}
use fxfs_on_linux.Common.{
  ◌+◌, ◌<◌, ◌≤◌, ◌≡◌, ◌≢◌, refl, subst, List, ◌∷◌, Option, none, some, arith, true, false, ◌⊎◌,
}
use fxfs_on_linux.LockManager.Entry.{read_lock, write_lock, LockWaker, LockEntry}
use fxfs_on_linux.LockManager.Holds.{Holds, Valid, IsValid}
use fxfs_on_linux.LockManager.Calls.{EndsValid}
use fxfs_on_linux.LockManager.Calls.Validity.{perform-EndsValid}
use fxfs_on_linux.LockManager.System.{LockKey, LockKey-discrete, System, Reach, start, call}

pub Reach-Valid : {s : System} → Reach s → (k : LockKey) → Valid (s.keys k) (s.holds k)
Reach-Valid start k = refl
Reach-Valid (call {s} k c e h r p q) j = elim (LockKey-discrete j k) [
  | yes eq ↦
      rw (if_pos _ eq, if_pos _ eq)
        (subst EndsValid q (perform-EndsValid c (s.keys k) (s.holds k) p (Reach-Valid r k)))
  | no ne ↦ rw (if_neg _ ne, if_neg _ ne) (Reach-Valid r j)
]

exclusion_of :
    (e : Option LockEntry) (h : Holds)
    → Valid e h
    → (h.lockers + h.writers ≤ 1) × (0 < h.writers → h.readers ≡ 0)
exclusion_of none h v = ground arith
exclusion_of (some e) h v = ground arith

-- In every reachable state and on every key, at most one task holds the transaction lock or the
-- write lock, and while a task holds the write lock nobody reads.
pub Reach-exclusion :
    {s : System} (k : LockKey)
    → Reach s
    → ((s.holds k).lockers + (s.holds k).writers ≤ 1)
      × (0 < (s.holds k).writers → (s.holds k).readers ≡ 0)
Reach-exclusion {s} k r = exclusion_of (s.keys k) (s.holds k) (Reach-Valid r k)

-- Why the head of a key's list of wakers waits.
abbrev pub Reason : LockWaker → Holds → Type 0
Reason w h =
    ((w.is_upgrade ≡ true) × (w.target_state ≡ write_lock) × (h.lockers ≡ 1) × (0 < h.readers))
    ⊎ ((w.is_upgrade ≡ false) × (w.target_state ≡ read_lock) × (h.writers ≡ 1))
    ⊎ ((w.is_upgrade ≡ false)
        × (w.target_state ≢ read_lock)
        × (0 < h.readers + h.lockers + h.writers))

waiting_of :
    (w : LockWaker) (ws : List LockWaker) (e : LockEntry) (h : Holds)
    → e.wakers ≡ w ∷ ws
    → IsValid e h
    → Reason w h
waiting_of w ws e h q v = ground arith

-- In every reachable state, the task at the head of a key's list waits for a reason: an upgrade
-- waits for readers, a reader waits for the one writer, and any other task waits for somebody who
-- holds the lock. So no waiter is left behind on a lock that nobody holds.
pub Reach-waiting :
    {s : System} (k : LockKey) (e : LockEntry) (w : LockWaker) (ws : List LockWaker)
    → Reach s
    → s.keys k ≡ some e
    → e.wakers ≡ w ∷ ws
    → Reason w (s.holds k)
Reach-waiting {s} k e w ws r p q =
    waiting_of w ws e (s.holds k) q (subst (λ o. Valid o (s.holds k)) p (Reach-Valid r k))
