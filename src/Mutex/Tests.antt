-- ===== src/Mutex/Tests.antt =====
-- Tests of the mutex calls, and the theorems at concrete tables and systems.
use op_sys.Base.{
  total, replicate, ℤ, pos, ℕ, ◌≡◌, refl, ◌≢◌, ◌⊎◌, inl, inr, true, false, none, some, [], ◌∷◌,
  arith,
}
use op_sys.Mutex.{
  Mutex, MutexTable, cleared, allocated, first_unused, find, kthread_mutex_alloc, dealloc_found,
  kthread_mutex_dealloc, lock_lookup, lock_enter, lock_leave, lock_take, lock_loop, failed,
  returned, lock_slot, kthread_mutex_lock, unlock_lookup, unlock_release, unlock_slot,
  kthread_mutex_unlock, boot,
}
use op_sys.Mutex.Outcomes.{MayDealloc, MayNotDealloc, dealloc_lem}
use op_sys.Mutex.Table.{IsWellFormed, boot-IsWellFormed, calls-IsWellFormed}
use op_sys.Mutex.Calls.{MayTake, IsPassedOver, lock-free}
use op_sys.Mutex.System.{
  idle, asleep, awake, waking, System, pc, resume, call_lock, Step, lock, unlock, release, wakeup,
  Reach, here, next, HeldReach, counts,
}
use op_sys.Mutex.Safety.{waiting_threads-eq, no_lost_wakeup, holder_kept, handover}

abbrev junk : Mutex
junk = record { id = 70; locked = 0; tid = 0; used = 1; waiting_threads = pos 0 }

abbrev blank : MutexTable
blank = boot junk

abbrev one : MutexTable
one = record { mutexes = allocated 0 ∷ replicate 63 cleared; beyond = junk }

alloc_first : kthread_mutex_alloc blank ≡ (one, some 0)
unfolding kthread_mutex_alloc first_unused
alloc_first = refl

-- An unlock fails before a lock, a lock of an unused mutex fails, and so does freeing one twice.
failures :
    (kthread_mutex_unlock 0 1 one ≡ none)
    × (kthread_mutex_lock 3 1 one ≡ failed)
    × (kthread_mutex_dealloc 0 (kthread_mutex_dealloc 0 one).0 ≡ (blank, false))
unfolding kthread_mutex_unlock unlock_lookup kthread_mutex_lock lock_lookup kthread_mutex_dealloc
    dealloc_found find
failures = (refl, refl, refl)

abbrev one_locked : MutexTable
one_locked = record one {
  mutexes = record (allocated 0) { locked = 1; tid = 5 } ∷ replicate 63 cleared;
}

lock_unlock :
    (kthread_mutex_lock 0 5 one ≡ returned one_locked)
    × (kthread_mutex_unlock 0 5 one_locked
        ≡ some (record one { mutexes = record (allocated 0) { tid = 5 } ∷ replicate 63 cleared }))
unfolding kthread_mutex_unlock unlock_lookup unlock_slot unlock_release kthread_mutex_lock
    lock_lookup lock_slot lock_loop lock_enter lock_leave lock_take find
lock_unlock = (refl, refl)

one-IsWellFormed : IsWellFormed one
unfolding kthread_mutex_alloc first_unused
one-IsWellFormed = (calls-IsWellFormed blank 0 (boot-IsWellFormed junk)).0

calls-IsWellFormed_example :
    IsWellFormed (kthread_mutex_alloc one).0 × IsWellFormed (kthread_mutex_dealloc 0 one).0
calls-IsWellFormed_example = calls-IsWellFormed one 0 one-IsWellFormed

dealloc_lem_example :
    (MayDealloc one 0 → kthread_mutex_dealloc 0 one ≡ (blank, true))
    × (MayNotDealloc one 0 → kthread_mutex_dealloc 0 one ≡ (one, false))
dealloc_lem_example = dealloc_lem one 0 one-IsWellFormed

lock-free_example :
    (MayTake 5 (allocated 0)
      → lock_loop 5 (lock_enter 5 (allocated 0))
        ≡ some (record (allocated 0) { locked = 1; tid = 5 }))
    × (IsPassedOver 5 (allocated 0) → lock_loop 5 (lock_enter 5 (allocated 0)) ≡ some (allocated 0))
lock-free_example = lock-free 5 (allocated 0) refl

-- Thread 0 has locked the mutex.
abbrev held : System
held = record {
  mutex = record { id = 0; locked = 1; tid = 1; used = 1; waiting_threads = pos 0 };
  threads = idle ∷ idle ∷ [];
}

held-Reach : HeldReach 2 0 held
unfolding call_lock lock_take lock_leave
held-Reach = next 0 (omega arith) here (lock refl) (inl (ground arith))

-- Thread 0 has locked the mutex, and thread 1 sleeps on it.
abbrev blocked : System
blocked = record {
  mutex = record { id = 0; locked = 1; tid = 1; used = 1; waiting_threads = pos 1 };
  threads = idle ∷ asleep true ∷ [];
}

held-Step : Step held 1 blocked
unfolding call_lock
held-Step = lock refl

blocked-Reach : HeldReach 2 0 blocked
unfolding call_lock
blocked-Reach = next 1 (omega arith) held-Reach (lock refl) (inl (ground arith))

-- Thread 0 has unlocked it and woken thread 1.
abbrev woken_up : System
woken_up = record {
  mutex = record { id = 0; locked = 0; tid = 1; used = 1; waiting_threads = pos 1 };
  threads = idle ∷ awake true ∷ [];
}

woken_up-Reach : HeldReach 2 0 woken_up
unfolding unlock_release
woken_up-Reach =
    next 0 (omega arith)
      (next 0 (omega arith)
        (next 0 (omega arith) blocked-Reach (unlock refl refl) (inr (omega arith)))
        (release _ refl refl) (inl (ground arith)))
      (wakeup refl) (inl (ground arith))

waiting_threads-eq_example : ◌≡◌ {A = ℤ} (pos 1) (pos (total counts (idle ∷ asleep true ∷ [])))
waiting_threads-eq_example = waiting_threads-eq blocked-Reach

any_blocked : Reach 2 0 blocked
unfolding call_lock lock_take lock_leave
any_blocked = next 1 (omega arith) (next 0 (omega arith) here (lock refl)) (lock refl)

no_lost_wakeup_example : (blocked.mutex.locked ≢ 0) ⊎ ((j : ℕ) × (pc blocked j ≡ waking))
no_lost_wakeup_example = no_lost_wakeup any_blocked 1 true refl

holder_kept_example :
    (blocked.mutex.locked ≡ held.mutex.locked) × (blocked.mutex.tid ≡ held.mutex.tid)
unfolding call_lock
holder_kept_example = holder_kept held-Reach held-Step (omega arith) (omega arith)

handover_example :
    (call_lock 1 woken_up.mutex ≡ (woken_up.mutex, idle))
    × (((resume 2 woken_up.mutex true).0.locked ≡ 1)
        × ((resume 2 woken_up.mutex true).0.tid ≡ 2)
        × ((resume 2 woken_up.mutex true).1 ≡ idle))
handover_example = handover woken_up-Reach (omega arith) refl refl refl
