-- ===== src/Proc/Exit.antt =====
-- proc.c: exit and wait. kthread.c: kthread_exit and kthread_join.
-- The calling thread is thread `j` of process `i`.
use op_sys.Base.{
  ltb, ◌==◌, if◌then◌else◌, map_from, any_from, index_of, length, set, ℕ, zero, suc, Bool, true,
  false, not, ◌&&◌, ◌||◌, Option, none, some, List, [], ◌∷◌, ◌++◌,
}
use op_sys.Proc.{
  nproc, unused, zombie, ThreadState, uninit, terminated, Chan, null, of_proc, of_thread, Call,
  kfree, freevm, fileclose, iput, begin_op, end_op, Thread, Proc, Ptable, is_zombie, is_uninit,
  is_terminated, proc_at, thread_at, set_proc, set_thread,
}
use op_sys.Proc.Wakeup.{wakeup1}

-- `t->state != TERMINATED && t->state != UNINIT`
abbrev pub is_live : ThreadState → Bool
is_live s = not (is_terminated s) && not (is_uninit s)

-- `t != curthread` and live
abbrev pub is_other_live : ℕ → ℕ → Thread → Bool
is_other_live j k th = not (k == j) && is_live th.state

unfoldable pub request : ℕ → ℕ → Thread → Thread
request j k th = if is_other_live j k th then record th { exit_request = true } else th

abbrev pub pointer_eq : Option ℕ → ℕ → Bool
pointer_eq none i = false
pointer_eq (some p) i = p == i

-- The channel that a process pointer is.
abbrev pub proc_chan : Option ℕ → Chan
proc_chan none = null
proc_chan (some p) = of_proc p

-- The body of the loop of `exit` over the children, for process `k`.
unfoldable pub adopt : ℕ → Ptable → ℕ → Ptable
adopt i t k =
    if pointer_eq ((proc_at t k).parent) i
    then (let t' = set_proc t k (record (proc_at t k) { parent = t.initproc }) in
        if is_zombie ((proc_at t k).state) then wakeup1 (proc_chan t.initproc) t' else t')
    else t

-- That loop, for the first `n` processes.
unfoldable pub adopt_below : ℕ → ℕ → Ptable → Ptable
unfolding adopt
adopt_below i zero t = t
adopt_below i (suc n) t = adopt i (adopt_below i n t) n

unfoldable pub close_calls : List (Option ℕ) → List Call
close_calls [] = []
close_calls (none ∷ fs) = close_calls fs
close_calls (some f ∷ fs) = fileclose f ∷ close_calls fs

abbrev pub no_files : List (Option ℕ) → List (Option ℕ)
no_files [] = []
no_files (f ∷ fs) = none ∷ no_files fs

-- `exit` by the last thread: what stands before the second acquire, and what after it.
unfoldable pub exit_close : ℕ → Ptable → Ptable
exit_close i t =
    set_proc t i (record (proc_at t i) { ofile = no_files ((proc_at t i).ofile); cwd = none })

unfoldable pub exit_zombie : ℕ → ℕ → Ptable → Ptable
exit_zombie i j t = set_proc t i (record (proc_at t i) {
  state = zombie;
  threads = set ((proc_at t i).threads) j (record (thread_at t i j) { state = terminated });
})

unfoldable pub exit_finish : ℕ → ℕ → Ptable → Ptable
unfolding exit_zombie adopt_below wakeup1
exit_finish i j t =
    exit_zombie i j
      (wakeup1 (of_thread i j) (adopt_below i nproc (wakeup1 (proc_chan ((proc_at t i).parent)) t)))

pub data ExitResult : Type 0 where
  init_exiting : ExitResult  -- panic
  requested : Ptable → ExitResult  -- returns to the caller
  exited : Ptable → List Call → ExitResult  -- enters the scheduler for good

unfoldable pub exit : ℕ → ℕ → Ptable → ExitResult
unfolding request close_calls exit_close exit_finish
exit i j t =
    if pointer_eq t.initproc i
    then init_exiting
    else if any_from (is_other_live j) 0 ((proc_at t i).threads)
    then requested (
        set_proc t i
          (record (proc_at t i) { threads = map_from (request j) 0 ((proc_at t i).threads) }))
    else exited (exit_finish i j (exit_close i t))
        (close_calls ((proc_at t i).ofile) ++ begin_op ∷ iput ((proc_at t i).cwd) ∷ end_op ∷ [])

unfoldable pub kthread_exit : ℕ → ℕ → Ptable → ExitResult
unfolding exit
kthread_exit i j t =
    if any_from (is_other_live j) 0 ((proc_at t i).threads)
    then exited
        (set_thread (wakeup1 (of_thread i j) t) i j
          (record (thread_at (wakeup1 (of_thread i j) t) i j) { state = terminated }))
        []
    else exit i j t

-- The body of the inner loop of `wait`, up to the test on `hasNonTerminated`.
unfoldable pub clean_thread : ℕ → Thread → Thread
clean_thread k th =
    if is_terminated th.state
    then record th { kstack = none; tid = 0; tproc = none; exit_request = false; state = uninit }
    else th

unfoldable pub clean_calls : List Thread → List Call
clean_calls [] = []
clean_calls (th ∷ ths) =
    if is_terminated th.state then kfree th.kstack ∷ clean_calls ths else clean_calls ths

abbrev pub is_child : ℕ → Proc → Bool
is_child i p = pointer_eq p.parent i

abbrev pub is_zombie_child : ℕ → Proc → Bool
is_zombie_child i p = is_child i p && is_zombie p.state

pub data WaitResult : Type 0 where
  returned : Ptable → ℕ → List Call → WaitResult
  failed : WaitResult  -- returns -1
  sleeps : WaitResult  -- on the calling process

-- The zombie child in slot `n`. The caller's own threads are those of process `i`.
unfoldable pub reap : ℕ → ℕ → Ptable → ℕ → WaitResult
unfolding clean_thread clean_calls
reap i j t n =
    let p = proc_at t n in
    let row = map_from clean_thread 0 p.threads in
    let calls = clean_calls p.threads in
    if any_from (λ k th. not ((n == i) && (k == j)) && is_live th.state) 0 row
    then returned (set_proc t n (record p { threads = row })) 0 calls
    else returned
        (set_proc t n (record p {
          threads = row;
          pid = 0;
          parent = none;
          name = [];
          killed = false;
          state = unused;
        }))
        p.pid (calls ++ freevm p.pgdir ∷ [])

-- One round of the loop of `wait`.
unfoldable pub wait : ℕ → ℕ → Ptable → WaitResult
unfolding reap
wait i j t =
    if ltb (index_of (is_zombie_child i) t.procs) (length t.procs)
    then reap i j t (index_of (is_zombie_child i) t.procs)
    else if not (ltb (index_of (is_child i) t.procs) (length t.procs))
        || (proc_at t i).killed
        || (thread_at t i j).exit_request
    then failed
    else sleeps

-- The place where the search of `kthread_join` stops: a thread of the process or, if none has the
-- tid, the place right after its row, which is the first thread of the next process's row. After
-- the last row memory is read as a thread that is all zeros.
unfoldable pub join_target : ℕ → ℕ → Ptable → ℕ × ℕ
join_target i tid t =
    if ltb (index_of (λ th. th.tid == tid) ((proc_at t i).threads)) (length ((proc_at t i).threads))
    then (i, index_of (λ th. th.tid == tid) ((proc_at t i).threads))
    else (suc i, 0)

-- `kthread_join` up to its loop: the thread to wait for, or -1.
unfoldable pub join_lookup : ℕ → ℕ → ℕ → Ptable → Option (ℕ × ℕ)
unfolding join_target
join_lookup i j tid t =
    if (thread_at t i j).tid == tid
    then none
    else (let (m, k) = join_target i tid t in
        if not ((thread_at t m k).tid == tid)
        then none
        else if is_uninit ((thread_at t m k).state)
        then none
        else some (m, k))

-- The loop and what follows it: `none` is a sleep on the thread.
unfoldable pub join_loop : ℕ → ℕ → Ptable → Option (Ptable × List Call)
join_loop m k t =
    if not (is_terminated ((thread_at t m k).state))
    then none
    else some (
      set_thread t m k (record (thread_at t m k) { kstack = none; state = uninit }),
      kfree ((thread_at t m k).kstack) ∷ [],
    )
