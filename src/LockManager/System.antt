-- ===== src/LockManager/System.antt =====
-- The lock manager with its map of keys, and the states that tasks can bring it to.
pub mod Safety
use native.Mathlib.Decide.{ℕ_discrete}
use fxfs_on_linux.Common.{ℕ, ◌≡◌, Option, none, Outcome, ok, ◌>>=◌}
use mathlib.Core.Logic.{ite}
use fxfs_on_linux.LockManager.Entry.{LockEntry}
use fxfs_on_linux.LockManager.Holds.{Holds, nobody}
use fxfs_on_linux.LockManager.Calls.{Call, perform, Permitted}

-- Store, object and attribute ids stand in the order of the source's fields.
pub data LockKey : Type 0 where
  object_attribute : ℕ → ℕ → ℕ → LockKey
  object : ℕ → ℕ → LockKey
  root_volume : LockKey
  filesystem : LockKey
  cached_write : ℕ → ℕ → ℕ → LockKey
  flush : ℕ → LockKey
  truncate : ℕ → ℕ → LockKey

unfoldable pub LockKey-discrete : Discrete LockKey
unfolding ℕ_discrete
LockKey-discrete = hlevel ℕ_discrete

-- `Locks::keys`, with who holds each key.
pub record System : Type 0 where
  pub keys : LockKey → Option LockEntry
  pub holds : LockKey → Holds

abbrev pub empty : System
empty = record { keys = λ _. none; holds = λ _. nobody }

abbrev pub write_key : System → LockKey → Option LockEntry → Holds → System
write_key s k e h = record {
  keys = λ j. ite (LockKey-discrete j k) e (s.keys j);
  holds = λ j. ite (LockKey-discrete j k) h (s.holds j);
}

-- The states after any number of permitted calls, in any order and on any keys. Each call runs
-- under the mutex of `LockManager::locks`.
pub data Reach : System → Type 0 where
  start : Reach empty
  call :
      {s : System} (k : LockKey) (c : Call) (e : Option LockEntry) (h : Holds)
      → Reach s
      → Permitted c (s.keys k) (s.holds k)
      → perform c (s.keys k) (s.holds k) ≡ ok (e, h)
      → Reach (write_key s k e h)
