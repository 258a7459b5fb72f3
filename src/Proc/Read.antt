-- ===== src/Proc/Read.antt =====
-- Reading the process table after a write to one process or thread.
use op_sys.Base.{
  ◌==◌, if◌then◌else◌, Bool-cases, get_or-set, length, set, ℕ, ◌<◌, ◌≡◌, inl, inr, ◌&&◌, arith,
}
use op_sys.Proc.{
  Thread, Proc, Ptable, no_thread, no_proc, proc_at, thread_of, thread_at, set_proc, set_thread,
}

pub proc_at-set_proc :
    (t : Ptable) (i k : ℕ) (p : Proc)
    → i < length t.procs
    → proc_at (set_proc t i p) k ≡ (if i == k then p else proc_at t k)
proc_at-set_proc t i k p h = get_or-set t.procs i k p no_proc h

pub thread_of-set :
    (p : Proc) (j l : ℕ) (th : Thread)
    → j < length p.threads
    → thread_of (record p { threads = set p.threads j th }) l
      ≡ (if j == l then th else thread_of p l)
thread_of-set p j l th h = get_or-set p.threads j l th no_thread h

pub thread_at-set_thread :
    (t : Ptable) (i j k l : ℕ) (th : Thread)
    → i < length t.procs
    → j < length (proc_at t i).threads
    → thread_at (set_thread t i j th) k l ≡ (if (i == k) && (j == l) then th else thread_at t k l)
thread_at-set_thread t i j k l th hi hj = elim (Bool-cases (i == k)) [
  | inl e ↦ ground (
    arith,
    proc_at-set_proc t i k (record (proc_at t i) { threads = set (proc_at t i).threads j th }) hi,
    thread_of-set (proc_at t i) j l th hj,
  )
  | inr e ↦ ground (
    arith,
    proc_at-set_proc t i k (record (proc_at t i) { threads = set (proc_at t i).threads j th }) hi,
  )
]

-- A write to a process that keeps its threads changes no thread.
pub thread_at-set_proc :
    (t : Ptable) (i k l : ℕ) (p : Proc)
    → i < length t.procs
    → p.threads ≡ (proc_at t i).threads
    → thread_at (set_proc t i p) k l ≡ thread_at t k l
thread_at-set_proc t i k l p h e = elim (Bool-cases (i == k)) [
  | inl s ↦ ground (arith, proc_at-set_proc t i k p h)
  | inr s ↦ ground (arith, proc_at-set_proc t i k p h)
]
