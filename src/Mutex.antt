-- ===== src/Mutex.antt =====
-- mutex.c: the table of kernel mutexes and the four calls on it.
-- Each function below is one critical section or one unlocked test of a call; `Mutex.System`
-- interleaves them. A result of -1 is `none` or `false`.
-- Ids and tids are `int`s that are only compared for equality, so each is a number that stands for
-- its 32 bits. `beyond` is what memory holds right after the table, which the calls read as
-- a mutex when their search runs off the end.
pub mod Table
pub mod Outcomes
pub mod Calls
pub mod System
pub mod Safety
mod Tests
use op_sys.Base.{
  ltb, ◌==◌, if◌then◌else◌, length, get_or, set, replicate, ℤ, pos, increment, decrement, is_zero,
  ℕ, suc, Bool, true, false, not, ◌&&◌, ◌||◌, Option, none, some, List, [], ◌∷◌,
}

abbrev pub max_mutexes : ℕ
max_mutexes = 64

-- `struct kthread_mutex_t`, without its spinlock
pub record Mutex : Type 0 where
  pub id : ℕ
  pub locked : ℕ
  pub tid : ℕ
  pub used : ℕ
  pub waiting_threads : ℤ

-- `struct mutexTable`, without its spinlock
pub record MutexTable : Type 0 where
  pub mutexes : List Mutex
  pub beyond : Mutex

-- A mutex as the kernel starts, and as `kthread_mutex_dealloc` leaves it.
abbrev pub cleared : Mutex
cleared = record { id = 0; locked = 0; tid = 0; used = 0; waiting_threads = pos 0 }

-- A mutex as `kthread_mutex_alloc` leaves it in slot `i`.
abbrev pub allocated : ℕ → Mutex
allocated i = record { id = i; locked = 0; tid = 0; used = 1; waiting_threads = pos 0 }

-- `mutexTable.mutexes[i]`, for the slots and for the place right after them
abbrev pub cell : MutexTable → ℕ → Mutex
cell t i = get_or t.mutexes i t.beyond

abbrev pub write_cell : MutexTable → ℕ → Mutex → MutexTable
write_cell t i m =
    if ltb i (length t.mutexes)
    then record t { mutexes = set t.mutexes i m }
    else record t { beyond = m }

-- the loop of `kthread_mutex_alloc`: how many slots are passed before an unused one
unfoldable pub first_unused : List Mutex → ℕ
first_unused [] = 0
first_unused (m ∷ ms) = if m.used == 0 then 0 else suc (first_unused ms)

-- the search loop of the other three calls: the first slot with this id
unfoldable pub find : ℕ → List Mutex → ℕ
find id [] = 0
find id (m ∷ ms) = if m.id == id then 0 else suc (find id ms)

unfoldable pub kthread_mutex_alloc : MutexTable → MutexTable × Option ℕ
kthread_mutex_alloc t =
    if ltb (first_unused t.mutexes) max_mutexes
    then (
      record t {
        mutexes = set t.mutexes (first_unused t.mutexes) (allocated (first_unused t.mutexes));
      },
      some (first_unused t.mutexes),
    )
    else (t, none)

-- the body of the `if` in the loop of `kthread_mutex_dealloc`
unfoldable pub dealloc_found : MutexTable → ℕ → Mutex → MutexTable × Bool
dealloc_found t i m =
    if m.locked == 1
    then (t, false)
    else if m.used == 0
    then (t, false)
    else (record t { mutexes = set t.mutexes i cleared }, true)

-- A search that finds nothing ends in -1 whatever stands beyond the table.
unfoldable pub kthread_mutex_dealloc : ℕ → MutexTable → MutexTable × Bool
kthread_mutex_dealloc id t =
    if ltb (find id t.mutexes) max_mutexes
    then dealloc_found t (find id t.mutexes) (cell t (find id t.mutexes))
    else (t, false)

-- `kthread_mutex_lock` up to the acquire of the mutex's spinlock: the slot that it goes on with
unfoldable pub lock_lookup : ℕ → MutexTable → Option ℕ
lock_lookup id t =
    if not ((cell t (find id t.mutexes)).id == id)
    then none
    else if (cell t (find id t.mutexes)).used == 0
    then none
    else some (find id t.mutexes)

-- the first statement under the mutex's spinlock
unfoldable pub lock_enter : ℕ → Mutex → Mutex
lock_enter cur m =
    if not (m.tid == cur) then record m { waiting_threads = increment m.waiting_threads } else m

-- the caller no longer waits
unfoldable pub lock_leave : ℕ → Mutex → Mutex
lock_leave cur m =
    if not (m.tid == cur) then record m { waiting_threads = decrement m.waiting_threads } else m

-- the last test: the mutex is taken unless the caller took it last and others wait
unfoldable pub lock_take : ℕ → Mutex → Mutex
lock_take cur m =
    if not (m.tid == cur) || ((m.tid == cur) && is_zero m.waiting_threads)
    then record m { locked = 1; tid = cur }
    else m

-- From the `while` on: `none` is a sleep on `&mutex->tid`, and `some` the state at the return of 0.
unfoldable pub lock_loop : ℕ → Mutex → Option Mutex
lock_loop cur m = if not (m.locked == 0) then none else some (lock_take cur (lock_leave cur m))

-- What one thread's call does with no other thread between its steps.
pub data LockResult : Type 0 where
  failed : LockResult  -- returns -1
  sleeping : MutexTable → ℕ → LockResult  -- sleeps on the mutex in this slot
  returned : MutexTable → LockResult  -- returns 0

unfoldable pub lock_slot : ℕ → MutexTable → ℕ → LockResult
lock_slot cur t i = elim (lock_loop cur (lock_enter cur (cell t i))) [
  | none ↦ sleeping (write_cell t i (lock_enter cur (cell t i))) i
  | some m ↦ returned (write_cell t i m)
]

unfoldable pub kthread_mutex_lock : ℕ → ℕ → MutexTable → LockResult
kthread_mutex_lock id cur t = elim (lock_lookup id t) [ none ↦ failed | some i ↦ lock_slot cur t i ]

-- `kthread_mutex_unlock` up to the acquire of the mutex's spinlock
unfoldable pub unlock_lookup : ℕ → ℕ → MutexTable → Option ℕ
unlock_lookup id cur t =
    if not ((cell t (find id t.mutexes)).id == id)
    then none
    else if not (cur == (cell t (find id t.mutexes)).tid)
    then none
    else some (find id t.mutexes)

-- under the mutex's spinlock; after it every thread that sleeps on `&mutex->tid` is woken
unfoldable pub unlock_release : Mutex → Option Mutex
unlock_release m = if m.locked == 0 then none else some (record m { locked = 0 })

unfoldable pub unlock_slot : MutexTable → ℕ → Option MutexTable
unlock_slot t i = elim (unlock_release (cell t i)) [
  | none ↦ none
  | some m ↦ some (write_cell t i m)
]

unfoldable pub kthread_mutex_unlock : ℕ → ℕ → MutexTable → Option MutexTable
kthread_mutex_unlock id cur t = elim (unlock_lookup id cur t) [
  | none ↦ none
  | some i ↦ unlock_slot t i
]

-- the table in zeroed memory, with `b` right after it
abbrev pub boot : Mutex → MutexTable
boot b = record { mutexes = replicate max_mutexes cleared; beyond = b }
