-- ===== src/LockManager/Calls/Validity.antt =====
-- Every permitted call ends without a panic and keeps the invariant of its key.
use fxfs_on_linux.Common.{ℕ, ◌-◌, ◌≡◌, false, List, [], ◌∷◌, ◌++◌, Option, none, some, arith, inl}
use fxfs_on_linux.LockManager.Entry.{
  LockState, read_lock, locked, write_lock, LockWaker, LockEntry, is_allowed, wake, remove_waker,
  without,
}
use fxfs_on_linux.LockManager.Keys.{
  lock_key, commit_prepare_key, drop_lock, downgrade_key, cancel_key, abandon_key, wake_or_remove,
}
use fxfs_on_linux.LockManager.Holds.{Holds, downgrade, release, Valid, IsValid, Ordered, NoUpgrades}
use fxfs_on_linux.LockManager.Wake.{wake_head-Valid, wake_head-IsValid}
use fxfs_on_linux.LockManager.Calls.{
  Call, locks, prepares, drops, downgrades, cancels, abandons, perform, Permitted, Holder,
  EndsValid,
}

NoUpgrades-append :
    (ws : List LockWaker) (w : LockWaker)
    → NoUpgrades ws
    → w.is_upgrade ≡ false
    → NoUpgrades (ws ++ w ∷ [])
NoUpgrades-append [] w h k = (k, tt)
NoUpgrades-append (x ∷ ws) w h k = (h.0, NoUpgrades-append ws w h.1 k)

locks_held-EndsValid :
    (t : LockState) (i n : ℕ) (s : LockState) (ws : List LockWaker) (h : Holds)
    → IsValid (record { read_count = n; state = s; wakers = ws }) h
    → EndsValid (perform (locks t i) (some (record { read_count = n; state = s; wakers = ws })) h)
unfolding perform lock_key is_allowed
locks_held-EndsValid t i n s [] h v = ground arith
locks_held-EndsValid t i n s (w ∷ ws) h v = ground (
  arith,
  NoUpgrades-append ws (record { id = i; target_state = t; is_upgrade = false }) v.agrees.ordered.1,
)

locks-EndsValid :
    (s : LockState) (i : ℕ) (e : Option LockEntry) (h : Holds)
    → Valid e h
    → EndsValid (perform (locks s i) e h)
unfolding perform lock_key is_allowed
locks-EndsValid read_lock i none h v = ground arith
locks-EndsValid locked i none h v = ground arith
locks-EndsValid write_lock i none h v = ground arith
locks-EndsValid s i (some e) h v = locks_held-EndsValid s i e.read_count e.state e.wakers h v

prepares-EndsValid :
    (i : ℕ) (e : Option LockEntry) (h : Holds)
    → Holder locked e h
    → Valid e h
    → EndsValid (perform (prepares i) e h)
unfolding perform commit_prepare_key
prepares-EndsValid i none h p v = ground arith
prepares-EndsValid i (some e) h p v = ground arith

drops-EndsValid :
    (s : LockState) (e : Option LockEntry) (h : Holds)
    → Holder s e h
    → Valid e h
    → EndsValid (perform (drops s) e h)
unfolding perform drop_lock wake_or_remove wake
drops-EndsValid read_lock none h p v = ground arith
drops-EndsValid locked none h p v = ground arith
drops-EndsValid write_lock none h p v = ground arith
drops-EndsValid read_lock (some e) h p v =
    ground (arith, wake_head-Valid e.state (e.read_count - 1) e.wakers (release read_lock h))
drops-EndsValid locked (some e) h p v =
    ground (arith, wake_head-Valid read_lock e.read_count e.wakers (release locked h))
drops-EndsValid write_lock (some e) h p v =
    ground (arith, wake_head-Valid read_lock e.read_count e.wakers (release write_lock h))

downgrades-EndsValid :
    (e : Option LockEntry) (h : Holds)
    → Holder write_lock e h
    → Valid e h
    → EndsValid (perform downgrades e h)
unfolding perform downgrade_key wake
downgrades-EndsValid none h p v = ground arith
downgrades-EndsValid (some e) h p v =
    ground (arith, wake_head-IsValid locked e.read_count e.wakers (downgrade h))

NoUpgrades-without : (i : ℕ) (ws : List LockWaker) → NoUpgrades ws → NoUpgrades (without i ws)
NoUpgrades-without i [] h = tt
NoUpgrades-without i (w ∷ ws) h = ground (arith, NoUpgrades-without i ws)

Ordered-NoUpgrades : (s : LockState) (ws : List LockWaker) → NoUpgrades ws → Ordered s ws
Ordered-NoUpgrades s [] h = tt
Ordered-NoUpgrades s (w ∷ ws) h = (inl h.0, h.1)

cancel_held-EndsValid :
    (i n : ℕ) (s : LockState) (ws : List LockWaker) (h : Holds)
    → IsValid (record { read_count = n; state = s; wakers = ws }) h
    → EndsValid (perform (cancels i) (some (record { read_count = n; state = s; wakers = ws })) h)
unfolding perform cancel_key remove_waker wake
cancel_held-EndsValid i n s [] h v = ground arith
cancel_held-EndsValid i n s (w ∷ ws) h v = ground (
  arith,
  wake_head-IsValid s n ws h v.is_held,
  Ordered-NoUpgrades s ws v.agrees.ordered.1,
  NoUpgrades-without i ws v.agrees.ordered.1,
)

cancels-EndsValid :
    (i : ℕ) (e : Option LockEntry) (h : Holds)
    → Permitted (cancels i) e h
    → Valid e h
    → EndsValid (perform (cancels i) e h)
cancels-EndsValid i none h p v = cc
cancels-EndsValid i (some e) h p v = cancel_held-EndsValid i e.read_count e.state e.wakers h v

abandons-EndsValid :
    (w : LockWaker) (e : Option LockEntry) (h : Holds)
    → Permitted (abandons w) e h
    → Valid e h
    → EndsValid (perform (abandons w) e h)
unfolding perform abandon_key
abandons-EndsValid w e h p v =
    ground (arith, downgrades-EndsValid e h, drops-EndsValid w.target_state e h)

pub perform-EndsValid :
    (c : Call) (e : Option LockEntry) (h : Holds)
    → Permitted c e h
    → Valid e h
    → EndsValid (perform c e h)
perform-EndsValid (locks s i) e h p v = locks-EndsValid s i e h v
perform-EndsValid (prepares i) e h p v = prepares-EndsValid i e h p v
perform-EndsValid (drops s) e h p v = drops-EndsValid s e h p v
perform-EndsValid downgrades e h p v = downgrades-EndsValid e h p v
perform-EndsValid (cancels i) e h p v = cancels-EndsValid i e h p v
perform-EndsValid (abandons w) e h p v = abandons-EndsValid w e h p v
