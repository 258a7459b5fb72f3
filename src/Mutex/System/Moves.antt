-- ===== src/Mutex/System/Moves.antt =====
-- mutex.c: the places in `kthread_mutex_lock` and `kthread_mutex_unlock` between which other threads
-- run, and the steps of a thread from one to the next.
use op_sys.Base.{
  ◌==◌, Bool-cases, get_or, set, replicate, increment, decrement, is_zero, ℕ, suc, ◌<◌, ◌≡◌, ◌≢◌,
  ◌⊎◌, inl, inr, Bool, true, false, not, none, some, List, map, arith, ℕ_discrete,
}
use op_sys.Mutex.Calls.{MayTake, IsPassedOver, lock-free, lock-locked}
use op_sys.Mutex.{Mutex, allocated, lock_enter, lock_leave, lock_take, lock_loop, unlock_release}

-- Where a thread stands. `counted` says whether it has raised the wait count.
pub data Pc : Type 0 where
  idle : Pc  -- in no call
  asleep : (counted : Bool) → Pc  -- in `sleep` of `kthread_mutex_lock`
  awake : (counted : Bool) → Pc  -- woken, and about to test `locked` again
  unlocking : Pc  -- in `kthread_mutex_unlock`, before the acquire of the spinlock
  waking : Pc  -- in `kthread_mutex_unlock`, before the wakeup

pub record System : Type 0 where
  pub mutex : Mutex
  pub threads : List Pc

abbrev pub pc : System → ℕ → Pc
pc s i = get_or s.threads i idle

-- from the `while` of `kthread_mutex_lock` to the next sleep or to the return
unfoldable pub resume : ℕ → Mutex → Bool → Mutex × Pc
unfolding lock_loop
resume cur m counted = elim (lock_loop cur m) [ none ↦ (m, asleep counted) | some m' ↦ (m', idle) ]

unfoldable pub call_lock : ℕ → Mutex → Mutex × Pc
unfolding resume lock_enter
call_lock cur m = resume cur (lock_enter cur m) (not (m.tid == cur))

-- The wakeup on the mutex's channel.
abbrev pub wake : Pc → Pc
wake (asleep counted) = awake counted
wake idle = idle
wake (awake counted) = awake counted
wake unlocking = unlocking
wake waking = waking

abbrev pub after : System → ℕ → Mutex × Pc → System
after s i (m, p) = record { mutex = m; threads = set s.threads i p }

-- A step of thread `i`.
pub data Step (s : System) (i : ℕ) : System → Type 0 where
  lock : pc s i ≡ idle → Step s i (after s i (call_lock (suc i) s.mutex))
  retry :
      (counted : Bool)
      → pc s i ≡ awake counted
      → Step s i (after s i (resume (suc i) s.mutex counted))
  unlock : pc s i ≡ idle → s.mutex.tid ≡ suc i → Step s i (after s i (s.mutex, unlocking))
  release :
      (m : Mutex)
      → pc s i ≡ unlocking
      → unlock_release s.mutex ≡ some m
      → Step s i (after s i (m, waking))
  refuse : pc s i ≡ unlocking → unlock_release s.mutex ≡ none → Step s i (after s i (s.mutex, idle))
  wakeup :
      pc s i ≡ waking
      → Step s i (record { mutex = s.mutex; threads = set (map wake s.threads) i idle })

-- The mutex after its allocation, and `n` threads.
abbrev pub start : ℕ → ℕ → System
start n id = record { mutex = allocated id; threads = replicate n idle }

pub data Reach (n id : ℕ) : System → Type 0 where
  here : Reach n id (start n id)
  next : {s t : System} (i : ℕ) → i < n → Reach n id s → Step s i t → Reach n id t

-- A step of thread `i` that begins an unlock is of a mutex that is locked. As `unlock` tests the tid, it
-- is the thread that holds it, and not only the last to have held it.
abbrev pub IsByHolder : System → ℕ → System → Type 0
IsByHolder s i t = (pc t i ≢ unlocking) ⊎ (s.mutex.locked ≢ 0)

-- The runs in which threads unlock the mutex only while they hold it.
pub data HeldReach (n id : ℕ) : System → Type 0 where
  here : HeldReach n id (start n id)
  next :
      {s t : System} (i : ℕ)
      → i < n
      → HeldReach n id s
      → Step s i t
      → IsByHolder s i t
      → HeldReach n id t

-- What a woken thread does: it sleeps again while the mutex is locked, and takes it when it is free.
pub resume_cases :
    (cur : ℕ) (m : Mutex) (c : Bool)
    → ((m.locked ≢ 0) × (resume cur m c ≡ (m, asleep c)))
      ⊎ ((m.locked ≡ 0) × (m.tid ≡ cur) × (resume cur m c ≡ (lock_take cur m, idle)))
      ⊎ ((m.locked ≡ 0)
          × (m.tid ≢ cur)
          × (resume cur m c ≡ (
            record m { locked = 1; tid = cur; waiting_threads = decrement m.waiting_threads },
            idle,
          )))
unfolding resume lock_leave lock_take
resume_cases cur m c = elim (ℕ_discrete m.locked 0) [
  | no l ↦ inl (l, ground arith)
  | yes l ↦ elim (ℕ_discrete m.tid cur) [
    | yes e ↦ inr (inl (l, e, ground arith))
    | no e ↦ inr (inr (l, e, ground arith))
  ]
]

-- What a new call of `kthread_mutex_lock` does.
pub call_lock_cases :
    (cur : ℕ) (m : Mutex)
    → ((m.locked ≢ 0) × (m.tid ≡ cur) × (call_lock cur m ≡ (m, asleep false)))
      ⊎ ((m.locked ≢ 0)
          × (m.tid ≢ cur)
          × (call_lock cur m
              ≡ (record m { waiting_threads = increment m.waiting_threads }, asleep true)))
      ⊎ ((m.locked ≡ 0)
          × MayTake cur m
          × (call_lock cur m ≡ (record m { locked = 1; tid = cur }, idle)))
      ⊎ ((m.locked ≡ 0) × IsPassedOver cur m × (call_lock cur m ≡ (m, idle)))
unfolding call_lock
call_lock_cases cur m = elim (ℕ_discrete m.locked 0) [
  | no l ↦ elim (ℕ_discrete m.tid cur) [
    | yes e ↦ inl (l, e, ground (arith, lock-locked cur m l))
    | no e ↦ inr (inl (l, e, ground (arith, lock-locked cur m l)))
  ]
  | yes l ↦ elim (ℕ_discrete m.tid cur) [
    | no e ↦ inr (inr (inl (l, inl e, ground (arith, lock-free cur m l))))
    | yes e ↦ elim (Bool-cases (is_zero m.waiting_threads)) [
      | inl z ↦ inr (inr (inl (l, inr z, ground (arith, lock-free cur m l))))
      | inr z ↦ inr (inr (inr (l, (e, z), ground (arith, lock-free cur m l))))
    ]
  ]
]
