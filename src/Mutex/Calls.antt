-- ===== src/Mutex/Calls.antt =====
-- mutex.c: what a lock call and an unlock call do to the mutex that they find.
use op_sys.Mutex.Table.{IsWellFormed, find-le, find-id, find-eq_of_used}
use op_sys.Base.{
  set, get_or_out, increment, is_zero, decrement-increment, ℕ, ◌≤◌, ◌<◌, ◌≡◌, ◌≢◌, ◌⊎◌, inl, true,
  false, none, some, arith, ℕ_discrete,
}
use op_sys.Mutex.{
  max_mutexes, Mutex, MutexTable, cell, find, lock_lookup, lock_enter, lock_leave, lock_take,
  lock_loop, unlock_lookup, unlock_release, unlock_slot, kthread_mutex_unlock,
}

-- The caller may take a free mutex unless it was the last to take it and other threads wait for it.
abbrev pub MayTake : ℕ → Mutex → Type 0
MayTake cur m = (m.tid ≢ cur) ⊎ (is_zero m.waiting_threads ≡ true)

abbrev pub IsPassedOver : ℕ → Mutex → Type 0
IsPassedOver cur m = (m.tid ≡ cur) × (is_zero m.waiting_threads ≡ false)

-- A call of `lock` on a free mutex returns 0 with the wait count as it was. It takes the mutex if
-- the caller was not the last to hold it or nobody waits; otherwise the mutex is left free although
-- the call reports success.
pub lock-free :
    (cur : ℕ) (m : Mutex)
    → m.locked ≡ 0
    → (MayTake cur m → lock_loop cur (lock_enter cur m) ≡ some (record m { locked = 1; tid = cur }))
      × (IsPassedOver cur m → lock_loop cur (lock_enter cur m) ≡ some m)
unfolding lock_loop lock_enter lock_leave lock_take
lock-free cur m free = elim (ℕ_discrete m.tid cur) [
  | yes e ↦ (λ h. ground arith, λ h. ground arith)
  | no e ↦ (λ h. ground (arith, decrement-increment m.waiting_threads), λ h. absurd (e h.0))
]

-- A call of `lock` on a locked mutex sleeps, counted as waiting unless it is the holder itself.
pub lock-locked :
    (cur : ℕ) (m : Mutex)
    → m.locked ≢ 0
    → (lock_loop cur (lock_enter cur m) ≡ none)
      × (m.tid ≢ cur → (lock_enter cur m).waiting_threads ≡ increment m.waiting_threads)
      × (m.tid ≡ cur → lock_enter cur m ≡ m)
unfolding lock_loop lock_enter
lock-locked cur m h = (ground arith, λ e. ground arith, λ e. ground arith)

-- On a mutex in use in a well-formed table `unlock` succeeds if the caller was the last to take the
-- mutex and it is locked, and then only clears `locked`; in every other case it fails.
pub unlock_lem :
    (t : MutexTable) (id cur : ℕ)
    → IsWellFormed t
    → id < max_mutexes
    → (cell t id).used ≢ 0
    → (((cell t id).tid ≡ cur) × ((cell t id).locked ≢ 0)
        → kthread_mutex_unlock id cur t
          ≡ some (record t { mutexes = set t.mutexes id (record (cell t id) { locked = 0 }) }))
      × (((cell t id).tid ≢ cur) ⊎ ((cell t id).locked ≡ 0) → kthread_mutex_unlock id cur t ≡ none)
unfolding kthread_mutex_unlock unlock_lookup unlock_slot unlock_release
unlock_lem t id cur w h u = (
  λ g. ground (arith, find-eq_of_used t id w h u, w.slots id h, w.size),
  λ g. ground (arith, find-eq_of_used t id w h u, w.slots id h, w.size),
)

-- With memory beyond a well-formed table that reads as a mutex in use with an id that no slot has,
-- a lock call on that id does not fail: it goes on with the place right after the last slot.
pub lock_lookup-beyond :
    (t : MutexTable) (id : ℕ)
    → IsWellFormed t
    → max_mutexes ≤ id
    → t.beyond.id ≡ id
    → t.beyond.used ≢ 0
    → lock_lookup id t ≡ some max_mutexes
unfolding lock_lookup
lock_lookup-beyond t id w h e u = ground (
  arith,
  w.size,
  w.slots (find id t.mutexes),
  find-id id t.mutexes t.beyond,
  find-le id t.mutexes,
  get_or_out t.mutexes (find id t.mutexes) t.beyond,
)

-- `unlock` tests the tid before it takes the spinlock. If thread `a` was the last to hold a mutex
-- in use of a well-formed table, and the mutex is free again, its call of unlock passes the test,
-- and when another thread `b` takes the mutex before `a` goes on, `a` frees the mutex that `b`
-- holds.
pub unlock_race :
    (t : MutexTable) (id a b : ℕ)
    → IsWellFormed t
    → id < max_mutexes
    → (cell t id).used ≢ 0
    → (cell t id).locked ≡ 0
    → (cell t id).tid ≡ a
    → a ≢ b
    → (unlock_lookup id a t ≡ some id)
      × (lock_loop b (lock_enter b (cell t id)) ≡ some (record (cell t id) { locked = 1; tid = b }))
      × (unlock_release (record (cell t id) { locked = 1; tid = b })
          ≡ some (record (cell t id) { locked = 0; tid = b }))
unfolding unlock_lookup unlock_release
unlock_race t id a b w h u l e ne = (
  ground (arith, find-eq_of_used t id w h u, w.slots id h),
  (lock-free b (cell t id) l).0 (inl (omega arith)),
  ground arith,
)
