-- ===== src/LockManager/Entry.antt =====
-- `LockState`, `LockWaker`, `LockEntry` and the entry's methods. The doubly-linked list of wakers
-- is a list, its head first; a waker's address is its `id`. What a method wakes is returned as the
-- list of the wakers that it sets to `WakerState::Woken`, in order.
use fxfs_on_linux.Common.{
  ℕ, ◌+◌, Bool, true, false, not, ◌&&◌, ◌||◌, List, [], ◌∷◌, ltb, ◌==◌, if◌then◌else◌, Outcome, ok,
  assert, ◌>>◌,
}

pub data LockState : Type 0 where
  read_lock locked write_lock : LockState

-- `==` on `LockState`
abbrev pub same : LockState → LockState → Bool
same read_lock read_lock = true
same locked locked = true
same write_lock write_lock = true
same _ _ = false

pub record LockWaker : Type 0 where
  pub id : ℕ
  pub target_state : LockState
  pub is_upgrade : Bool

pub record LockEntry : Type 0 where
  pub read_count : ℕ
  pub state : LockState
  pub wakers : List LockWaker

-- Only read when `is_head` is false, and then the list is not empty.
abbrev pub head_is_upgrade : List LockWaker → Bool
head_is_upgrade [] = false
head_is_upgrade (w ∷ ws) = w.is_upgrade

abbrev allowed_in : LockState → LockEntry → LockState → Bool → Bool
allowed_in read_lock e target is_head =
    (e.read_count == 0 || same target locked || same target read_lock) && is_head
allowed_in locked e target is_head =
    same target read_lock && (is_head || not (head_is_upgrade e.wakers))
allowed_in write_lock e target is_head = false

unfoldable pub is_allowed : LockEntry → LockState → Bool → Bool
is_allowed e target is_head = allowed_in e.state e target is_head

-- `self.head` is `w`, and `ws` follows it.
unfoldable pub pop_and_wake : LockEntry → LockWaker → List LockWaker → LockEntry
pop_and_wake e w ws =
    if same w.target_state read_lock
    then record e { wakers = ws; read_count = e.read_count + 1 }
    else record e { wakers = ws; state = w.target_state }

-- The loop at the end of `wake`: pops the readers at the head of the list.
unfoldable pub wake_readers : LockEntry → List LockWaker → LockEntry × List LockWaker
unfolding pop_and_wake
wake_readers e [] = (e, [])
wake_readers e (w ∷ ws) =
    let popped = wake_readers (pop_and_wake e w ws) ws in
    if same w.target_state read_lock then (popped.0, w ∷ popped.1) else (e, [])

unfoldable pub wake_head : LockEntry → List LockWaker → LockEntry × List LockWaker
unfolding is_allowed pop_and_wake
wake_head e [] = (e, [])
wake_head e (w ∷ ws) =
    if same e.state write_lock
    then (e, [])
    else if (if w.is_upgrade then ltb 0 e.read_count else not (is_allowed e w.target_state true))
    then (e, [])
    else if same w.target_state write_lock
    then (pop_and_wake e w ws, w ∷ [])
    else (let (e', woken) = wake_readers (pop_and_wake e w ws) ws in (e', w ∷ woken))

unfoldable pub wake : LockEntry → LockEntry × List LockWaker
unfolding wake_head
wake e = wake_head e e.wakers

unfoldable pub can_remove : LockEntry → Bool
can_remove e = same e.state read_lock && e.read_count == 0

abbrev pub without : ℕ → List LockWaker → List LockWaker
without i [] = []
without i (w ∷ ws) = if w.id == i then ws else w ∷ without i ws

abbrev pub is_first : ℕ → List LockWaker → Bool
is_first i [] = false
is_first i (w ∷ ws) = w.id == i

unfoldable pub remove_waker : LockEntry → ℕ → LockEntry × List LockWaker
remove_waker e i =
    if is_first i e.wakers
    then wake (record e { wakers = without i e.wakers })
    else (record e { wakers = without i e.wakers }, [])

unfoldable pub downgrade_lock : LockEntry → Outcome (LockEntry × List LockWaker)
downgrade_lock e = do assert (same e.state write_lock); ok (wake (record e { state = locked }))
