-- ===== src/Proc/Tests.antt =====
-- Tests of the process operations, and the theorems at concrete tables.
use op_sys.Base.{
  if◌then◌else◌, map_from, any_from, index_of, get_or, replicate, ℕ, zero, suc, ◌<◌, ◌≡◌, refl, ap,
  ◌≢◌, ◌↔◌, true, false, Option, none, some, List, ◌∷◌, arith,
}
use op_sys.Proc.{
  nproc, ProcState, used, zombie, ThreadState, uninit, sleeping, runnable, running, terminated,
  Thread, Proc, Ptable, no_thread, no_proc, boot, proc_at, thread_at,
}
use op_sys.Proc.Wakeup.{kill}
use op_sys.Proc.Alloc.{init_stack, allocproc, fork, kthread_reserve, kthread_create}
use op_sys.Proc.Ids.{tid_of, IsConsistent, boot-IsConsistent}
use op_sys.Proc.Create.{creations-IsConsistent}
use op_sys.Proc.Creation.{IsFirstUnused}
use op_sys.Proc.Races.{reserved, kthread_reserve_race, kill_zero-allocproc}
use op_sys.Proc.Exit.{
  is_live, pointer_eq, exit_close, exit_finish, WaitResult, returned, failed, sleeps, reap, wait,
  join_target, join_lookup,
}
use op_sys.Proc.Orphans.{parent_of, exit_finish_lem}
use op_sys.Proc.Joins.{IsJoinPlace, join_lookup_iff}
use op_sys.Proc.Reaping.{AllEnded}

boot-first : IsFirstUnused boot 0
boot-first = (omega arith, refl, λ i h. absurd (omega arith))

-- The main thread of a process, with this tid and state.
abbrev thread_with : ℕ → ThreadState → Thread
thread_with tid s = record no_thread { tid = tid; state = s; kstack = some 8192; tproc = some 1 }

abbrev proc_with : ℕ → ProcState → Option ℕ → List Thread → Proc
proc_with pid s parent ths = record no_proc { pid = pid; state = s; parent = parent; threads = ths }

-- Init, its child with two threads, and a zombie that is the child's child.
abbrev family : Ptable
family = record {
  procs =
      proc_with 1 used none (thread_with 1 sleeping ∷ replicate 15 no_thread)
      ∷ proc_with 2 used (some 0)
          (thread_with 2 running ∷ thread_with 3 runnable ∷ replicate 14 no_thread)
      ∷ proc_with 3 zombie (some 1) (thread_with 4 terminated ∷ replicate 15 no_thread)
      ∷ proc_with 4 zombie (some 1) (thread_with 5 running ∷ replicate 15 no_thread)
      ∷ replicate 60 no_proc;
  next_pid = 5;
  next_tid = 6;
  initproc = some 0;
}

abbrev reaped_pid : WaitResult → Option ℕ
reaped_pid (returned t n calls) = some n
reaped_pid failed = none
reaped_pid sleeps = none

runs :
    (reaped_pid (wait 1 0 family) ≡ some 3)
    × ((kill 2 family).1 ≡ true)
    × ((kill 9 family).1 ≡ false)
    × (join_lookup 1 0 3 family ≡ some (1, 1))
    × (join_lookup 1 0 4 family ≡ some (2, 0))
    × ((fork (some 4096) (some 7) 1 0 family).1 ≡ some 5)
    × ((kthread_create (some 4096) 10 20 1 0 family).1 ≡ some 6)
unfolding wait kill join_lookup join_target fork kthread_create index_of any_from map_from reap
    kthread_reserve init_stack
runs = (refl, refl, refl, refl, refl, refl, refl)

creations-IsConsistent_example :
    IsConsistent (allocproc none boot).0
    × IsConsistent (fork none none 0 0 boot).0
    × IsConsistent (kthread_create none 0 0 0 0 boot).0
creations-IsConsistent_example =
    creations-IsConsistent none none 0 0 0 0 boot boot-IsConsistent (omega arith, omega arith)
      (omega arith)

kthread_reserve_race_example :
    (kthread_reserve 1 family ≡ some (reserved family 1 2, 2))
    × (kthread_reserve 1 (reserved family 1 2) ≡ some (reserved (reserved family 1 2) 1 2, 2))
    × (tid_of (reserved family 1 2) 1 2 ≡ 6)
    × (tid_of (reserved (reserved family 1 2) 1 2) 1 2 ≡ 7)
kthread_reserve_race_example =
    kthread_reserve_race family 1 2 (omega arith) (omega arith, refl, busy)
  where
    busy : (l : ℕ) → l < 2 → (thread_at family 1 l).state ≢ uninit
    busy zero h = ground arith
    busy (suc zero) h = ground arith
    busy (suc (suc l)) h = absurd (omega arith)

kill_zero-allocproc_example :
    ((kill 0 boot).1 ≡ true)
    × ((allocproc (some 8192) (kill 0 boot).0).1 ≡ some 0)
    × ((proc_at (allocproc (some 8192) (kill 0 boot).0).0 0).killed ≡ true)
kill_zero-allocproc_example =
    kill_zero-allocproc boot 0 8192 boot-IsConsistent boot-first refl (λ i h. absurd (omega arith))

exit_finish_lem_example :
    let t' = exit_finish 1 0 (exit_close 1 family) in
    ((proc_at t' 1).state ≡ zombie)
    × ((thread_at t' 1 0).state ≡ terminated)
    × ((k : ℕ)
        → k < nproc
        → parent_of t' k
          ≡ (if pointer_eq (parent_of family k) 1 then some 0 else parent_of family k))
    × ((k : ℕ) → k < nproc → pointer_eq (parent_of t' k) 1 ≡ false)
exit_finish_lem_example = exit_finish_lem 1 0 family refl (omega arith) (omega arith) refl

only_ended : AllEnded (proc_at family 2)
only_ended zero h = refl
only_ended (suc k) h = ap (λ th. is_live th.state) (rest 15 k)
  where
    rest : (n k : ℕ) → get_or (replicate n no_thread) k no_thread ≡ no_thread
    rest zero k = refl
    rest (suc n) zero = refl
    rest (suc n) (suc k) = rest n k

-- The tid 4 is that of the first thread of the next process.
join_lookup_iff_example : (join_lookup 1 0 4 family ≡ some (2, 0)) ↔ (
    ((thread_at family 1 0).tid ≢ 4)
    × ((thread_at family 2 0).tid ≡ 4)
    × ((thread_at family 2 0).state ≢ uninit)
    × IsJoinPlace 1 4 family 2 0)
join_lookup_iff_example = join_lookup_iff 1 0 4 family 2 0
