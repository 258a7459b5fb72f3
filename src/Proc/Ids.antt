-- ===== src/Proc/Ids.antt =====
-- proc.c and kthread.c: process and thread ids stay distinct.
use op_sys.Proc.Read.{proc_at-set_proc, thread_of-set}
use op_sys.Base.{
  length, get_or, set, replicate, length-set, length-replicate, ℕ, zero, suc, ◌<◌, ◌≡◌, refl, ap,
  ◌∙◌, ◌≢◌, ◌⊎◌, inl, arith,
}
use op_sys.Proc.{
  nproc, nthread, Thread, Proc, Ptable, no_thread, no_proc, boot, proc_at, thread_of, thread_at,
  set_proc, set_thread,
}

-- Both counters can be advanced without overflow of an `int`.
abbrev pub HasIds : Ptable → Type 0
HasIds t = (t.next_pid < 2147483647) × (t.next_tid < 2147483647)

abbrev pub pid_of : Ptable → ℕ → ℕ
pid_of t i = (proc_at t i).pid

abbrev pub tid_of : Ptable → ℕ → ℕ → ℕ
tid_of t i j = (thread_at t i j).tid

-- The table has its fixed shape, every id is below its counter, and no two processes have one pid and
-- no two threads one tid, but for the 0 of slots that have none.
pub record IsConsistent (t : Ptable) : Type 0 where
  pub shape : length t.procs ≡ nproc
  pub rows : (i : ℕ) → length (proc_at t i).threads ≡ nthread
  pub started : (0 < t.next_pid) × (0 < t.next_tid)
  pub pids_below : (i : ℕ) → pid_of t i < t.next_pid
  pub tids_below : (i j : ℕ) → tid_of t i j < t.next_tid
  pub pids_distinct : (i k : ℕ) → pid_of t i ≡ pid_of t k → pid_of t i ≢ 0 → i ≡ k
  pub tids_distinct :
      (i j k l : ℕ) → tid_of t i j ≡ tid_of t k l → tid_of t i j ≢ 0 → (i ≡ k) × (j ≡ l)

-- What the operations other than the two that hand out ids do: they keep or clear each id.
pub record Keeps (t t' : Ptable) : Type 0 where
  pub same_shape : length t'.procs ≡ length t.procs
  pub same_rows : (i : ℕ) → length (proc_at t' i).threads ≡ length (proc_at t i).threads
  pub same_next : (t'.next_pid ≡ t.next_pid) × (t'.next_tid ≡ t.next_tid)
  pub pids : (i : ℕ) → (pid_of t' i ≡ pid_of t i) ⊎ (pid_of t' i ≡ 0)
  pub tids : (i j : ℕ) → (tid_of t' i j ≡ tid_of t i j) ⊎ (tid_of t' i j ≡ 0)

pub Keeps-IsConsistent : {t t' : Ptable} → Keeps t t' → IsConsistent t → IsConsistent t'
Keeps-IsConsistent k c = record {
  shape = k.same_shape ∙ c.shape;
  rows = λ i. k.same_rows i ∙ c.rows i;
  started = ground (arith, k.same_next, c.started);
  pids_below = λ i. ground (arith, k.same_next, c.started, k.pids i, c.pids_below i);
  tids_below = λ i j. ground (arith, k.same_next, c.started, k.tids i j, c.tids_below i j);
  pids_distinct = λ i m. ground (arith, k.pids i, k.pids m, c.pids_distinct i m);
  tids_distinct = λ i j m l. ground (arith, k.tids i j, k.tids m l, c.tids_distinct i j m l);
}

get_or-procs : (n i : ℕ) → get_or (replicate n no_proc) i no_proc ≡ no_proc
get_or-procs zero i = refl
get_or-procs (suc n) zero = refl
get_or-procs (suc n) (suc i) = get_or-procs n i

get_or-threads : (n i : ℕ) → get_or (replicate n no_thread) i no_thread ≡ no_thread
get_or-threads zero i = refl
get_or-threads (suc n) zero = refl
get_or-threads (suc n) (suc i) = get_or-threads n i

boot-tid : (i j : ℕ) → tid_of boot i j ≡ 0
boot-tid i j = rw (get_or-procs nproc i) (ap (λ th. th.tid) (get_or-threads nthread j))

pub boot-IsConsistent : IsConsistent boot
boot-IsConsistent = record {
  shape = length-replicate nproc no_proc;
  rows = λ i. ap (λ p. length p.threads) (get_or-procs nproc i);
  started = omega arith;
  pids_below = λ i. omega (arith, ap (λ p. p.pid) (get_or-procs nproc i));
  tids_below = λ i j. omega (arith, boot-tid i j);
  pids_distinct = λ i k e z. absurd (z (ap (λ p. p.pid) (get_or-procs nproc i)));
  tids_distinct = λ i j k l e z. absurd (z (boot-tid i j));
}

-- A write to one process keeps the ids if it keeps or clears those of the process.
pub set_proc-Keeps :
    (t : Ptable) (n : ℕ) (p : Proc)
    → n < length t.procs
    → length p.threads ≡ length (proc_at t n).threads
    → (p.pid ≡ pid_of t n) ⊎ (p.pid ≡ 0)
    → ((j : ℕ) → ((thread_of p j).tid ≡ tid_of t n j) ⊎ ((thread_of p j).tid ≡ 0))
    → Keeps t (set_proc t n p)
set_proc-Keeps t n p h l e f = record {
  same_shape = length-set t.procs n p;
  same_rows = λ i. ground (arith, proc_at-set_proc t n i p h);
  same_next = (refl, refl);
  pids = λ i. ground (arith, proc_at-set_proc t n i p h);
  tids = λ i j. ground (arith, proc_at-set_proc t n i p h, f j);
}

pub set_thread-Keeps :
    (t : Ptable) (n k : ℕ) (th : Thread)
    → n < length t.procs
    → k < length (proc_at t n).threads
    → (th.tid ≡ tid_of t n k) ⊎ (th.tid ≡ 0)
    → Keeps t (set_thread t n k th)
set_thread-Keeps t n k th h l e =
    set_proc-Keeps t n _ h (length-set (proc_at t n).threads k th) (inl refl)
      λ j. ground (arith, thread_of-set (proc_at t n) k j th l)

-- The same where one thread of the process is written too.
pub set_row-Keeps :
    (t : Ptable) (n k : ℕ) (p : Proc) (th : Thread)
    → n < length t.procs
    → k < length (proc_at t n).threads
    → p.threads ≡ set (proc_at t n).threads k th
    → (p.pid ≡ pid_of t n) ⊎ (p.pid ≡ 0)
    → (th.tid ≡ tid_of t n k) ⊎ (th.tid ≡ 0)
    → Keeps t (set_proc t n p)
set_row-Keeps t n k p th h l e ep et =
    set_proc-Keeps t n p h (ap length e ∙ length-set (proc_at t n).threads k th) ep
      λ j. ground (arith, e, thread_of-set (proc_at t n) k j th l)
