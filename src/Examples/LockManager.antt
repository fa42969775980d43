-- ===== src/Examples/LockManager.antt =====
-- The lock manager at concrete calls (src/object_store/transaction.rs).
use fxfs_on_linux.Common.{◌+◌, ◌≤◌, ◌<◌, ◌≡◌, refl, [], ◌∷◌, some, ok, false}
use fxfs_on_linux.LockManager.Entry.{read_lock, write_lock, LockWaker, LockEntry, is_allowed, wake}
use fxfs_on_linux.LockManager.Keys.{lock_key, drop_lock, wake_or_remove}
use fxfs_on_linux.LockManager.Holds.{Holds}
use fxfs_on_linux.LockManager.Calls.{locks, perform}
use fxfs_on_linux.LockManager.System.{
  LockKey, object, System, empty, write_key, Reach, start, call, LockKey-discrete,
}
use fxfs_on_linux.LockManager.System.Safety.{Reach-exclusion, Reach-waiting, Reason}

-- Two readers hold the key, and a writer waits.
abbrev writer : LockWaker
writer = record { id = 7; target_state = write_lock; is_upgrade = false }

abbrev contended : LockEntry
contended = record { read_count = 1; state = read_lock; wakers = writer ∷ [] }

abbrev one_reader : Holds
one_reader = record { readers = 1; lockers = 0; writers = 0 }

-- The last reader leaves: the writer is let in.
drop_lock_runs :
    drop_lock (some contended) read_lock
    ≡ ok (some (record { read_count = 0; state = write_lock; wakers = [] }), writer ∷ [])
unfolding drop_lock wake_or_remove wake
drop_lock_runs = refl

abbrev key : LockKey
key = object 1 2

abbrev reading : LockEntry
reading = record { read_count = 1; state = read_lock; wakers = [] }

abbrev read_once : System
read_once = write_key empty key (some reading) one_reader

reads : Reach read_once
unfolding perform lock_key
reads = call key (locks read_lock 3) (some reading) one_reader start tt refl

abbrev write_waits : System
write_waits = write_key read_once key (some contended) one_reader

waits : Reach write_waits
unfolding perform lock_key is_allowed LockKey-discrete
waits = call key (locks write_lock 7) (some contended) one_reader reads tt refl

Reach-exclusion_example :
    ((write_waits.holds key).lockers + (write_waits.holds key).writers ≤ 1)
    × (0 < (write_waits.holds key).writers → (write_waits.holds key).readers ≡ 0)
Reach-exclusion_example = Reach-exclusion key waits

Reach-waiting_example : Reason writer (write_waits.holds key)
unfolding LockKey-discrete
Reach-waiting_example = Reach-waiting key contended writer [] waits refl refl
