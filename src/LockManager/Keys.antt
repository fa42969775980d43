-- ===== src/LockManager/Keys.antt =====
-- What `Locks` and `LockManager` do with the entry of one key of the map: `none` is a key that is
-- not in the map.
use fxfs_on_linux.Common.{
  ℕ, ◌+◌, Bool, true, false, List, [], ◌∷◌, ◌++◌, Option, none, some, ◌==◌, if◌then◌else◌, Outcome,
  ok, panic, assert, ◌>>◌, ◌>>=◌, sub_u64,
}
use fxfs_on_linux.LockManager.Entry.{
  LockState, read_lock, locked, write_lock, same, LockWaker, LockEntry, is_allowed, wake,
  can_remove, downgrade_lock, remove_waker,
}

abbrev is_empty : List LockWaker → Bool
is_empty [] = true
is_empty _ = false

-- One round of the loop in `LockManager::lock`: the new entry, and whether the lock was granted at
-- once. Otherwise a waker with the address `i` waits at the tail.
unfoldable pub lock_key : Option LockEntry → LockState → ℕ → Option LockEntry × Bool
lock_key none target i = (
  some
      (record { read_count = if same target read_lock then 1 else 0; state = target; wakers = [] }),
  true,
)
lock_key (some e) target i =
    if is_allowed e target (is_empty e.wakers)
    then (
      some (
          if same target read_lock
          then record e { read_count = e.read_count + 1 }
          else record e { state = target }),
      true,
    )
    else (
      some (record e {
        wakers = e.wakers ++ record { id = i; target_state = target; is_upgrade = false } ∷ [];
      }),
      false,
    )

-- One round of `commit_prepare_keys`: the upgrade is made at once, or waits at the head.
unfoldable pub commit_prepare_key : Option LockEntry → ℕ → Outcome (Option LockEntry × Bool)
commit_prepare_key none i = panic
commit_prepare_key (some e) i = do
  assert (same e.state locked)
  ok (
      if e.read_count == 0 then (some (record e { state = write_lock }), true) else (
        some (record e {
          wakers = record { id = i; target_state = write_lock; is_upgrade = true } ∷ e.wakers;
        }),
        false,
      ))

-- The end of `drop_lock`: wake, and take the entry out of the map if nothing is left.
unfoldable pub wake_or_remove : LockEntry → Option LockEntry × List LockWaker
unfolding can_remove
wake_or_remove e = let (e', woken) = wake e in (if can_remove e' then none else some e', woken)

-- `Locks::drop_lock`
unfoldable pub drop_lock :
    Option LockEntry → LockState → Outcome (Option LockEntry × List LockWaker)
drop_lock none state = panic
drop_lock (some e) read_lock = do
  left ← sub_u64 e.read_count 1
  ok (
      if left == 0
      then wake_or_remove (record e { read_count = left })
      else (some (record e { read_count = left }), []))
drop_lock (some e) locked = ok (wake_or_remove (record e { state = read_lock }))
drop_lock (some e) write_lock = ok (wake_or_remove (record e { state = read_lock }))

-- `Locks::downgrade_locks`, for one key.
unfoldable pub downgrade_key : Option LockEntry → Outcome (Option LockEntry × List LockWaker)
unfolding downgrade_lock
downgrade_key none = panic
downgrade_key (some e) = do (e', woken) ← downgrade_lock e; ok (some e', woken)

-- The guard of `LockWaker::wait`, for a waker that was dropped before it was woken.
unfoldable pub cancel_key : Option LockEntry → ℕ → Outcome (Option LockEntry × List LockWaker)
unfolding remove_waker
cancel_key none i = panic
cancel_key (some e) i = let (e', woken) = remove_waker e i in ok (some e', woken)

-- The same guard, for a waker that was woken and never ran: the lock that it was granted goes back.
unfoldable pub abandon_key :
    Option LockEntry → LockWaker → Outcome (Option LockEntry × List LockWaker)
unfolding drop_lock downgrade_key
abandon_key e w = if w.is_upgrade then downgrade_key e else drop_lock e w.target_state
