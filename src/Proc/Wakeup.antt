-- ===== src/Proc/Wakeup.antt =====
-- proc.c and kthread.c: sleep, wakeup, yield and kill.
use op_sys.Proc.Read.{proc_at-set_proc, thread_at-set_thread, thread_at-set_proc}
use op_sys.Base.{
  ltb, ◌==◌, if◌then◌else◌, ltb→lt, ==_iff, Bool-cases, index_of, index_of_holds, index_of_before,
  length, set, get_or-map_fixed, ℕ, ◌<◌, ◌≡◌, refl, ap, ◌∙◌, ◌≢◌, ◌⊎◌, inl, inr, Bool, true, false,
  ◌&&◌, [], map, arith,
}
use op_sys.Proc.{
  unused, sleeping, runnable, Chan, null, of_proc, of_thread, other, Thread, Proc, Ptable,
  no_thread, no_proc, is_unused, is_sleeping, proc_at, thread_of, thread_at, set_proc, set_thread,
}

-- `t->chan == chan`
abbrev pub chan_eq : Chan → Chan → Bool
chan_eq null null = true
chan_eq (of_proc i) (of_proc j) = i == j
chan_eq (of_thread i j) (of_thread k l) = (i == k) && (j == l)
chan_eq (other a) (other b) = a == b
chan_eq _ _ = false

pub chan_eq_self : (c : Chan) → chan_eq c c ≡ true
chan_eq_self null = refl
chan_eq_self (of_proc i) = ground arith
chan_eq_self (of_thread i j) = ground arith
chan_eq_self (other a) = ground arith

pub eq_of_chan_eq : (c d : Chan) → chan_eq c d ≡ true → c ≡ d
eq_of_chan_eq null null h = refl
eq_of_chan_eq (of_proc i) (of_proc j) h = ground arith
eq_of_chan_eq (of_thread i j) (of_thread k l) h = ground arith
eq_of_chan_eq (other a) (other b) h = ground arith
eq_of_chan_eq _ _ h = cc

-- The section of `sleep` that ends in `sched`, for the thread `j` of process `i`.
unfoldable pub sleep_begin : ℕ → ℕ → Chan → Ptable → Ptable
sleep_begin i j c t = set_thread t i j (record (thread_at t i j) { chan = c; state = sleeping })

-- What `sleep` does when the thread runs again.
unfoldable pub sleep_end : ℕ → ℕ → Ptable → Ptable
sleep_end i j t = set_thread t i j (record (thread_at t i j) { chan = null })

unfoldable pub yield_begin : ℕ → ℕ → Ptable → Ptable
yield_begin i j t = set_thread t i j (record (thread_at t i j) { state = runnable })

-- The body of the inner loop of `wakeup1`.
unfoldable pub wake_thread : Chan → Thread → Thread
wake_thread c th =
    if is_sleeping th.state && chan_eq th.chan c then record th { state = runnable } else th

unfoldable pub wake_proc : Chan → Proc → Proc
wake_proc c p =
    if is_unused p.state then p else record p { threads = map (wake_thread c) p.threads }

-- `wakeup1` of proc.c, and `wakeupThreads` of kthread.c with the same text.
unfoldable pub wakeup1 : Chan → Ptable → Ptable
wakeup1 c t = record t { procs = map (wake_proc c) t.procs }

-- The result is false for -1.
unfoldable pub kill : ℕ → Ptable → Ptable × Bool
kill pid t =
    if ltb (index_of (λ p. p.pid == pid) t.procs) (length t.procs)
    then (
      set_proc t (index_of (λ p. p.pid == pid) t.procs)
          (record (proc_at t (index_of (λ p. p.pid == pid) t.procs)) { killed = true }),
      true,
    )
    else (t, false)

wake_proc-no_proc : (c : Chan) → wake_proc c no_proc ≡ no_proc
unfolding wake_proc
wake_proc-no_proc c = refl

wake_thread-no_thread : (c : Chan) → wake_thread c no_thread ≡ no_thread
unfolding wake_thread
wake_thread-no_thread c = refl

pub proc_at-wakeup1 :
    (c : Chan) (t : Ptable) (i : ℕ) → proc_at (wakeup1 c t) i ≡ wake_proc c (proc_at t i)
unfolding wakeup1
proc_at-wakeup1 c t i = get_or-map_fixed (wake_proc c) t.procs i no_proc (wake_proc-no_proc c)

thread_of-wake_proc :
    (c : Chan) (p : Proc) (j : ℕ)
    → thread_of (wake_proc c p) j
      ≡ (if is_unused p.state then thread_of p j else wake_thread c (thread_of p j))
unfolding wake_proc
thread_of-wake_proc c p j =
    ground (arith, get_or-map_fixed (wake_thread c) p.threads j no_thread (wake_thread-no_thread c))

wake_thread_lem :
    (c : Chan) (th : Thread)
    → ((th.state ≡ sleeping) × (th.chan ≡ c) → wake_thread c th ≡ record th { state = runnable })
      × ((th.state ≢ sleeping) ⊎ (th.chan ≢ c) → wake_thread c th ≡ th)
unfolding wake_thread
wake_thread_lem c th =
    (λ h. ground (arith, chan_eq_self c), λ h. ground (arith, eq_of_chan_eq th.chan c))

wake_proc-rest :
    (c : Chan) (p : Proc)
    → ◌≡◌ {A = Proc} (record (wake_proc c p) { threads = [] }) (record p { threads = [] })
unfolding wake_proc
wake_proc-rest c p = ground arith

-- What a wakeup on a channel may do to one thread.
abbrev pub WakesOnly : Chan → Ptable → ℕ → ℕ → Thread → Type 0
WakesOnly c t i j th =
    (((proc_at t i).state ≢ unused)
        × ((thread_at t i j).state ≡ sleeping)
        × ((thread_at t i j).chan ≡ c)
      → th ≡ record (thread_at t i j) { state = runnable })
    × (((proc_at t i).state ≡ unused)
          ⊎ ((thread_at t i j).state ≢ sleeping)
          ⊎ ((thread_at t i j).chan ≢ c)
        → th ≡ thread_at t i j)

-- `wakeup1` makes runnable every thread that sleeps on the channel in a process that is not unused,
-- and changes no other thread and, of a process, nothing but its threads.
pub wakeup1_lem :
    (c : Chan) (t : Ptable) (i j : ℕ)
    → WakesOnly c t i j (thread_at (wakeup1 c t) i j)
      × (record (proc_at (wakeup1 c t) i) { threads = [] } ≡ record (proc_at t i) { threads = [] })
wakeup1_lem c t i j =
    let read : thread_at (wakeup1 c t) i j ≡ (
        if is_unused (proc_at t i).state
        then thread_at t i j
        else wake_thread c (thread_at t i j)) =
      ap (λ p. thread_of p j) (proc_at-wakeup1 c t i) ∙ thread_of-wake_proc c (proc_at t i) j in
    (
      (
        λ h. ground (arith, read, wake_thread_lem c (thread_at t i j)),
        λ h. ground (arith, read, wake_thread_lem c (thread_at t i j)),
      ),
      ground (arith, proc_at-wakeup1 c t i, wake_proc-rest c (proc_at t i)),
    )

-- A thread that has begun to sleep on a channel is runnable after a wakeup on it.
pub wakeup1-sleep_begin :
    (i j : ℕ) (c : Chan) (t : Ptable)
    → i < length t.procs
    → j < length (proc_at t i).threads
    → (proc_at t i).state ≢ unused
    → thread_at (wakeup1 c (sleep_begin i j c t)) i j
      ≡ record (thread_at t i j) { chan = c; state = runnable }
unfolding sleep_begin
wakeup1-sleep_begin i j c t hi hj u =
    let th : Thread = record (thread_at t i j) { chan = c; state = sleeping } in
    let now : thread_at (set_thread t i j th) i j ≡ th =
      ground (arith, thread_at-set_thread t i j i j th hi hj) in
    let alive : (proc_at (set_thread t i j th) i).state ≢ unused = ground (
      arith,
      proc_at-set_proc t i i (record (proc_at t i) { threads = set (proc_at t i).threads j th }) hi,
    ) in
    ground (arith, now, (wakeup1_lem c (set_thread t i j th) i j).0.0)

-- `kill` marks the first process with the pid as killed, or fails if there is none; no thread changes,
-- so none that sleeps is woken.
pub kill_lem :
    (pid : ℕ) (t : Ptable)
    → (((kill pid t).1 ≡ true)
          × ((i : ℕ) × (i < length t.procs)
              × ((proc_at t i).pid ≡ pid)
              × ((j : ℕ) → j < i → (proc_at t j).pid ≢ pid)
              × ((kill pid t).0 ≡ set_proc t i (record (proc_at t i) { killed = true })))
        ⊎ ((kill pid t ≡ (t, false)) × ((i : ℕ) → i < length t.procs → (proc_at t i).pid ≢ pid)))
      × ((i j : ℕ) → thread_at (kill pid t).0 i j ≡ thread_at t i j)
unfolding kill
kill_lem pid t =
    let same : Proc → Bool = λ p. p.pid == pid in
    let found : ℕ = index_of same t.procs in
    elim (Bool-cases (ltb found (length t.procs))) [
      | inl e ↦ rw e (
        inl (
          refl,
          (
            found,
            ltb→lt _ _ e,
            (==_iff _ pid).0 (index_of_holds same t.procs no_proc (ltb→lt _ _ e)),
            λ j h. ground (arith, index_of_before same t.procs no_proc j h),
            refl,
          ),
        ),
        λ i j.
            thread_at-set_proc t found i j (record (proc_at t found) { killed = true })
              (ltb→lt _ _ e) refl,
      )
      | inr e ↦ rw e (
        inr (refl, λ i h. ground (arith, e, index_of_before same t.procs no_proc i)),
        λ i j. refl,
      )
    ]
