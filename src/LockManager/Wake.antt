-- ===== src/LockManager/Wake.antt =====
-- `wake` restores the invariant of an entry.
use fxfs_on_linux.Common.{
  ℕ, ◌+◌, ◌<◌, ◌≡◌, refl, true, false, List, [], ◌∷◌, none, some, if◌then◌else◌, arith,
}
use fxfs_on_linux.LockManager.Entry.{
  LockState, read_lock, locked, write_lock, same, LockWaker, is_allowed, pop_and_wake, wake_readers,
  wake_head, can_remove,
}
use fxfs_on_linux.LockManager.Holds.{Holds, hold, grant_all, NoUpgrades, Agrees, IsValid, Valid}

same_eq : (s t : LockState) → same s t ≡ true → s ≡ t
same_eq read_lock read_lock h = refl
same_eq locked locked h = refl
same_eq write_lock write_lock h = refl
same_eq read_lock locked h = cc
same_eq read_lock write_lock h = cc
same_eq locked read_lock h = cc
same_eq locked write_lock h = cc
same_eq write_lock read_lock h = cc
same_eq write_lock locked h = cc

-- The readers at the head of the list are let in, unless a writer holds the lock.
wake_readers-IsValid :
    (s : LockState) (n : ℕ) (ws : List LockWaker) (h : Holds)
    → same s write_lock ≡ false
    → (s ≡ read_lock → 0 < n)
    → NoUpgrades ws
    → Agrees (record { read_count = n; state = s; wakers = ws }) h
    → let (e', woken) = wake_readers (record { read_count = n; state = s; wakers = ws }) ws in
      IsValid e' (grant_all woken h)
unfolding wake_readers pop_and_wake
wake_readers-IsValid s n [] h ns hn nu a = record { agrees = a; is_held = hn; blocked = tt }
wake_readers-IsValid s n (w ∷ ws) h ns hn nu a =
    ground (arith, wake_readers-IsValid s (n + 1) ws (hold read_lock h))

-- From any entry that agrees with its holders, `wake` leads to a valid entry, or to one that is not
-- held and has no waiters, which leaves the map.
pub wake_head-Valid :
    (s : LockState) (n : ℕ) (ws : List LockWaker) (h : Holds)
    → Agrees (record { read_count = n; state = s; wakers = ws }) h
    → let (e', woken) = wake_head (record { read_count = n; state = s; wakers = ws }) ws in
      Valid (if can_remove e' then none else some e') (grant_all woken h)
unfolding wake_head is_allowed pop_and_wake can_remove
wake_head-Valid read_lock n [] h a = ground arith
wake_head-Valid locked n [] h a = ground arith
wake_head-Valid write_lock n [] h a = ground arith
wake_head-Valid s n (w ∷ ws) h a = ground (
  arith,
  wake_readers-IsValid s (n + 1) ws (hold read_lock h),
  wake_readers-IsValid locked n ws (hold locked h),
)

-- An entry that is held stays in the map, valid.
pub wake_head-IsValid :
    (s : LockState) (n : ℕ) (ws : List LockWaker) (h : Holds)
    → (s ≡ read_lock → 0 < n)
    → Agrees (record { read_count = n; state = s; wakers = ws }) h
    → let (e', woken) = wake_head (record { read_count = n; state = s; wakers = ws }) ws in
      IsValid e' (grant_all woken h)
unfolding wake_head is_allowed pop_and_wake
wake_head-IsValid s n [] h k a = record { agrees = a; is_held = k; blocked = tt }
wake_head-IsValid s n (w ∷ ws) h k a = ground (
  arith,
  wake_readers-IsValid s (n + 1) ws (hold read_lock h),
  wake_readers-IsValid locked n ws (hold locked h),
)
