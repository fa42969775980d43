-- ===== src/LockManager/Holds.antt =====
-- Who holds a lock, counted: the guards that are alive and the wakers that were woken. An entry of
-- the map is tied to these counts by `Agrees`.
use fxfs_on_linux.Common.{
  ℕ, ◌+◌, ◌-◌, ◌<◌, ◌≡◌, ◌⊎◌, true, false, List, [], ◌∷◌, Option, none, some, if◌then◌else◌,
}
use fxfs_on_linux.LockManager.Entry.{LockState, read_lock, locked, write_lock, LockWaker, LockEntry}

-- Holders of the lock in the states `ReadLock`, `Locked` and `WriteLock`.
pub record Holds : Type 0 where
  pub readers : ℕ
  pub lockers : ℕ
  pub writers : ℕ

abbrev pub nobody : Holds
nobody = record { readers = 0; lockers = 0; writers = 0 }

abbrev pub hold : LockState → Holds → Holds
hold read_lock h = record h { readers = h.readers + 1 }
hold locked h = record h { lockers = h.lockers + 1 }
hold write_lock h = record h { writers = h.writers + 1 }

-- An upgrade turns a transaction lock into a write lock.
abbrev pub upgrade : Holds → Holds
upgrade h = record h { lockers = h.lockers - 1; writers = h.writers + 1 }

abbrev pub downgrade : Holds → Holds
downgrade h = record h { lockers = h.lockers + 1; writers = h.writers - 1 }

abbrev pub release : LockState → Holds → Holds
release read_lock h = record h { readers = h.readers - 1 }
release locked h = record h { lockers = h.lockers - 1 }
release write_lock h = record h { writers = h.writers - 1 }

abbrev pub grant : LockWaker → Holds → Holds
grant w h = if w.is_upgrade then upgrade h else hold w.target_state h

-- The wakers that a call wakes, in order.
abbrev pub grant_all : List LockWaker → Holds → Holds
grant_all [] h = h
grant_all (w ∷ ws) h = grant_all ws (grant w h)

-- What each state of a lock says of its holders.
abbrev pub Fits : LockState → Holds → Type 0
Fits read_lock h = (h.lockers ≡ 0) × (h.writers ≡ 0)
Fits locked h = (h.lockers ≡ 1) × (h.writers ≡ 0)
Fits write_lock h = (h.lockers ≡ 0) × (h.writers ≡ 1) × (h.readers ≡ 0)

abbrev pub NoUpgrades : List LockWaker → Type 0
NoUpgrades [] = Unit
NoUpgrades (w ∷ ws) = (w.is_upgrade ≡ false) × NoUpgrades ws

-- Only the head may wait for an upgrade, and then the lock is in the state `Locked`.
abbrev pub Ordered : LockState → List LockWaker → Type 0
Ordered s [] = Unit
Ordered s (w ∷ ws) =
    ((w.is_upgrade ≡ false)
      ⊎ ((w.is_upgrade ≡ true) × (s ≡ locked) × (w.target_state ≡ write_lock)))
    × NoUpgrades ws

-- Why a head that asks for the state `t` has to wait, with `n` readers in the state `s`.
abbrev pub Waits : LockState → LockState → ℕ → Type 0
Waits read_lock s n = s ≡ write_lock
Waits locked s n = (s ≡ read_lock → 0 < n)
Waits write_lock s n = (s ≡ read_lock → 0 < n)

abbrev pub Blocked : LockState → ℕ → List LockWaker → Type 0
Blocked s n [] = Unit
Blocked s n (w ∷ ws) = if w.is_upgrade then 0 < n else Waits w.target_state s n

-- What an entry says of the holders, before `wake` is called.
pub record Agrees (e : LockEntry) (h : Holds) : Type 0 where
  pub counted : e.read_count ≡ h.readers
  pub fits : Fits e.state h
  pub ordered : Ordered e.state e.wakers

-- The invariant of an entry in the map: it is held, and its head waiter has to wait.
pub record IsValid (e : LockEntry) (h : Holds) : Type 0 where
  pub agrees : Agrees e h
  pub is_held : e.state ≡ read_lock → 0 < e.read_count
  pub blocked : Blocked e.state e.read_count e.wakers

-- The invariant of a key: what is not in the map is not held.
abbrev pub Valid : Option LockEntry → Holds → Type 0
Valid none h = h ≡ nobody
Valid (some e) h = IsValid e h
