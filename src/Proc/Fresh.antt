-- ===== src/Proc/Fresh.antt =====
-- proc.c and kthread.c: the two operations that hand out ids, and those built on them.
use op_sys.Proc.Read.{proc_at-set_proc, thread_at-set_thread}
use op_sys.Base.{
  ◌==◌, if◌then◌else◌, get_or-set, length, get_or, set, length-set, length-map, get_or-map_fixed, ℕ,
  ◌<◌, ◌≡◌, refl, ◌∙◌, false, ◌&&◌, some, List, arith,
}
use op_sys.Proc.{
  nthread, uninit, Thread, Proc, Ptable, next_id, no_thread, proc_at, thread_of, thread_at,
  set_thread,
}
use op_sys.Proc.Alloc.{mark_uninit, clear_threads, main_thread, claimed, claim}
use op_sys.Proc.Ids.{HasIds, pid_of, tid_of, IsConsistent}

pub length-clear_threads : (ts : List Thread) → length (clear_threads ts) ≡ length ts
unfolding clear_threads
length-clear_threads ts = length-map mark_uninit ts

mark_uninit-no_thread : mark_uninit no_thread ≡ no_thread
unfolding mark_uninit
mark_uninit-no_thread = refl

pub get_or-clear_threads :
    (ts : List Thread) (j : ℕ)
    → get_or (clear_threads ts) j no_thread ≡ record (get_or ts j no_thread) { state = uninit }
unfolding clear_threads mark_uninit
get_or-clear_threads ts j = get_or-map_fixed mark_uninit ts j no_thread mark_uninit-no_thread

claimed-pid : (t : Ptable) (n : ℕ) → (claimed t n).pid ≡ t.next_pid
unfolding claimed
claimed-pid t n = refl

pub length-claimed :
    (t : Ptable) (n : ℕ) → length (claimed t n).threads ≡ length (proc_at t n).threads
unfolding claimed
length-claimed t n = length-set _ 0 _ ∙ length-clear_threads (proc_at t n).threads

pub thread_of-claimed :
    (t : Ptable) (n j : ℕ)
    → 0 < length (proc_at t n).threads
    → thread_of (claimed t n) j ≡ (
        if 0 == j
        then record (thread_at t n 0) {
          state = uninit;
          tproc = some n;
          tid = t.next_tid;
          exit_request = false;
        }
        else record (thread_at t n j) { state = uninit })
unfolding claimed main_thread
thread_of-claimed t n j h = ground (
  arith,
  length-clear_threads (proc_at t n).threads,
  get_or-clear_threads (proc_at t n).threads j,
  get_or-clear_threads (proc_at t n).threads 0,
  get_or-set (clear_threads (proc_at t n).threads) 0 j
      (record (thread_at t n 0) {
        state = uninit;
        tproc = some n;
        tid = t.next_tid;
        exit_request = false;
      })
      no_thread,
)

claimed-tid :
    (t : Ptable) (n j : ℕ)
    → 0 < length (proc_at t n).threads
    → (thread_of (claimed t n) j).tid ≡ (if 0 == j then t.next_tid else tid_of t n j)
claimed-tid t n j h = ground (arith, thread_of-claimed t n j h)

module _ (t : Ptable) (c : IsConsistent t) (free : HasIds t) (n : ℕ) (h : n < length t.procs) where
  open c use {shape, rows, started, pids_below, tids_below, pids_distinct, tids_distinct}

  pid-claim : (i : ℕ) → pid_of (claim t n) i ≡ (if n == i then t.next_pid else pid_of t i)
  unfolding claim
  pid-claim i = ground (arith, proc_at-set_proc t n i (claimed t n) h, claimed-pid t n)

  tid-claim :
      (i j : ℕ)
      → tid_of (claim t n) i j ≡ (if (n == i) && (0 == j) then t.next_tid else tid_of t i j)
  unfolding claim
  tid-claim i j =
      ground
        (arith, proc_at-set_proc t n i (claimed t n) h, claimed-tid t n j (ground (arith, rows n)))

  pub claim-IsConsistent : IsConsistent (claim t n)
  claim-IsConsistent = record {
    shape = unfold claim in (length-set t.procs n (claimed t n) ∙ shape);
    rows = λ i.
        unfold claim in
        ground (arith, proc_at-set_proc t n i (claimed t n) h, length-claimed t n, rows i, rows n);
    started = unfold claim in (omega (arith, free), omega (arith, free));
    pids_below = λ i. unfold claim in ground (arith, pid-claim i, pids_below i, free);
    tids_below = λ i j. unfold claim in ground (arith, tid-claim i j, tids_below i j, free);
    pids_distinct = λ i k.
        ground (arith, pid-claim i, pid-claim k, pids_below i, pids_below k, pids_distinct i k);
    tids_distinct = λ i j k l. ground (
      arith,
      tid-claim i j,
      tid-claim k l,
      tids_below i j,
      tids_below k l,
      tids_distinct i j k l,
    );
  }

-- A thread slot that takes the next tid.
module _ (t : Ptable) (c : IsConsistent t) (n k : ℕ) (th : Thread) (h : n < length t.procs)
    (l : k < length (proc_at t n).threads) (e : th.tid ≡ t.next_tid) (free : HasIds t) where
  open c use {shape, rows, started, pids_below, tids_below, pids_distinct, tids_distinct}

  abbrev pub numbered : Ptable
  numbered = record (set_thread t n k th) { next_tid = next_id t.next_tid }

  abbrev written : Proc
  written = record (proc_at t n) { threads = set (proc_at t n).threads k th }

  pid-numbered : (i : ℕ) → pid_of numbered i ≡ pid_of t i
  pid-numbered i = ground (arith, proc_at-set_proc t n i written h)

  tid-numbered :
      (i j : ℕ) → tid_of numbered i j ≡ (if (n == i) && (k == j) then t.next_tid else tid_of t i j)
  tid-numbered i j = ground (arith, e, thread_at-set_thread t n k i j th h l)

  rows-numbered : (i : ℕ) → length (proc_at numbered i).threads ≡ nthread
  rows-numbered i = ground (
    arith,
    proc_at-set_proc t n i written h,
    length-set (proc_at t n).threads k th,
    rows i,
    rows n,
  )

  pub numbered-IsConsistent : IsConsistent numbered
  numbered-IsConsistent = record {
    shape = length-set t.procs n written ∙ shape;
    rows = rows-numbered;
    started = (started.0, omega (arith, free));
    pids_below = λ i. ground (arith, pid-numbered i, pids_below i);
    tids_below = λ i j. ground (arith, tid-numbered i j, tids_below i j, free);
    pids_distinct = λ i m. ground (arith, pid-numbered i, pid-numbered m, pids_distinct i m);
    tids_distinct = λ i j m q. ground (
      arith,
      tid-numbered i j,
      tid-numbered m q,
      tids_below i j,
      tids_below m q,
      tids_distinct i j m q,
    );
  }
