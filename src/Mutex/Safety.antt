-- ===== src/Mutex/Safety.antt =====
-- mutex.c: what holds in every state that threads can bring a mutex into.
use op_sys.Mutex.Calls.{IsPassedOver}
use op_sys.Base.{
  total, le-total, pos, is_zero, ℕ, suc, ◌<◌, ◌≡◌, refl, ap, ◌≢◌, ◌⊎◌, Bool, true, false, arith,
}
use op_sys.Mutex.{Mutex}
use op_sys.Mutex.System.{
  idle, asleep, awake, waking, System, pc, resume, call_lock, Step, lock, retry, unlock, release,
  refuse, wakeup, Reach, HeldReach, resume_cases, call_lock_cases, Reach-Wakened, counts, Inv,
  HeldReach-Inv,
}

-- After any steps from its allocation in which threads unlock the mutex only while they hold it, the
-- wait count of the mutex is the number of threads, asleep or woken, that wait for it since a call of
-- lock at which they were not the last to have taken it. So it is never negative. A holder that
-- locks the mutex again waits, too, but is not counted.
pub waiting_threads-eq :
    {n id : ℕ} {s : System}
    → HeldReach n id s
    → s.mutex.waiting_threads ≡ pos (total counts s.threads)
waiting_threads-eq r = (HeldReach-Inv r).counted

-- No wakeup is lost: after any steps of any threads from the allocation of a mutex, while a thread
-- sleeps on it the mutex is locked, or some thread that has unlocked it is about to wake the
-- sleepers.
pub no_lost_wakeup :
    {n id : ℕ} {s : System}
    → Reach n id s
    → (i : ℕ) (c : Bool) → pc s i ≡ asleep c
    → (s.mutex.locked ≢ 0) ⊎ ((j : ℕ) × (pc s j ≡ waking))
no_lost_wakeup r = (Reach-Wakened r).woken

resume-kept :
    (cur : ℕ) (m : Mutex) (c : Bool)
    → m.locked ≢ 0
    → ((resume cur m c).0.locked ≡ m.locked) × ((resume cur m c).0.tid ≡ m.tid)
resume-kept cur m c l = ground (arith, resume_cases cur m c)

call_lock-kept :
    (cur : ℕ) (m : Mutex)
    → m.locked ≢ 0
    → ((call_lock cur m).0.locked ≡ m.locked) × ((call_lock cur m).0.tid ≡ m.tid)
call_lock-kept cur m l = ground (arith, call_lock_cases cur m)

-- After any steps in which threads unlock the mutex only while they hold it, no step of another thread
-- takes a locked mutex from its holder or unlocks it.
pub holder_kept :
    {n id i : ℕ} {s t : System}
    → HeldReach n id s
    → Step s i t
    → s.mutex.locked ≢ 0
    → s.mutex.tid ≢ suc i
    → (t.mutex.locked ≡ s.mutex.locked) × (t.mutex.tid ≡ s.mutex.tid)
holder_kept {i} {s} r (lock e) l h = call_lock-kept (suc i) s.mutex l
holder_kept {i} {s} r (retry c e) l h = resume-kept (suc i) s.mutex c l
holder_kept r (unlock e t) l h = (refl, refl)
holder_kept {i} {s} r (release m e q) l h = absurd (h (rw e at ((HeldReach-Inv r).agrees i)).1)
holder_kept r (refuse e q) l h = (refl, refl)
holder_kept r (wakeup e) l h = (refl, refl)

waits-nonzero :
    {n : ℕ} {s : System}
    → Inv n s
    → (k : ℕ) → k < n
    → pc s k ≡ awake true
    → is_zero s.mutex.waiting_threads ≡ false
waits-nonzero {s} inv k lt e =
    ground (arith, inv.counted, inv.size, le-total counts s.threads k idle, ap counts e)

resume-takes :
    (cur : ℕ) (m : Mutex)
    → m.locked ≡ 0
    → m.tid ≢ cur
    → ((resume cur m true).0.locked ≡ 1)
      × ((resume cur m true).0.tid ≡ cur)
      × ((resume cur m true).1 ≡ idle)
resume-takes cur m l ne = ground (arith, resume_cases cur m true)

call_lock-passes_over :
    (cur : ℕ) (m : Mutex) → m.locked ≡ 0 → IsPassedOver cur m → call_lock cur m ≡ (m, idle)
call_lock-passes_over cur m l h = ground (arith, call_lock_cases cur m)

-- After any steps in which threads unlock the mutex only while they hold it, when
-- thread `i` was the last to hold a mutex that is free, and thread `k`, woken, waits for it: a new lock call of `i` returns and leaves the mutex free, and a retry of `k` takes it.
pub handover :
    {n id i k : ℕ} {s : System}
    → HeldReach n id s
    → k < n
    → s.mutex.locked ≡ 0
    → s.mutex.tid ≡ suc i
    → pc s k ≡ awake true
    → (call_lock (suc i) s.mutex ≡ (s.mutex, idle))
      × (((resume (suc k) s.mutex true).0.locked ≡ 1)
          × ((resume (suc k) s.mutex true).0.tid ≡ suc k)
          × ((resume (suc k) s.mutex true).1 ≡ idle))
handover {i} {k} {s} r lt l t e =
    let inv = HeldReach-Inv r in
    let waits : s.mutex.tid ≢ suc k = rw e at (inv.agrees k) in
    (
      call_lock-passes_over (suc i) s.mutex l (t, waits-nonzero inv k lt e),
      resume-takes (suc k) s.mutex l waits,
    )
