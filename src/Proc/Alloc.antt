-- ===== src/Proc/Alloc.antt =====
-- proc.c: allocproc, userinit and fork. kthread.c: kthread_create.
-- The result of `kalloc`, `setupkvm` or `copyuvm` is an argument; null is `none`.
use op_sys.Base.{
  ltb, if◌then◌else◌, index_of, length, get_or, set, take, ℕ, ◌+◌, ◌-◌, false, Option, none, some,
  List, [], ◌∷◌, ◌++◌, map,
}
use op_sys.Proc.{
  kstack_size, unused, embryo, used, uninit, runnable, forkret, Call, kfree, filedup, idup, Thread,
  Proc, Ptable, next_id, no_thread, is_unused, is_uninit, proc_at, thread_at, set_proc, set_thread,
}

abbrev pub sizeof_trapframe : ℕ
sizeof_trapframe = 76

abbrev pub sizeof_context : ℕ
sizeof_context = 20

-- The new thread's stack, laid out from the top of page `k`: the trap frame, the return address
-- `trapret`, the context.
unfoldable pub init_stack : ℕ → Thread → Thread
init_stack k th = record th {
  kstack = some k;
  tf_at = k + kstack_size - sizeof_trapframe;
  context_at = k + kstack_size - sizeof_trapframe - 4 - sizeof_context;
  context_eip = forkret;
}

abbrev pub free_slot : Ptable → ℕ
free_slot t = index_of (λ p. is_unused p.state) t.procs

unfoldable pub mark_uninit : Thread → Thread
mark_uninit th = record th { state = uninit }

unfoldable pub clear_threads : List Thread → List Thread
unfolding mark_uninit
clear_threads = map mark_uninit

-- The main thread of a claimed process.
unfoldable pub main_thread : ℕ → ℕ → Thread → Thread
main_thread i tid th = record th { tproc = some i; tid = tid; exit_request = false }

-- From `found` to the release of the lock in `allocproc`: the process, and the table with it.
unfoldable pub claimed : Ptable → ℕ → Proc
unfolding clear_threads main_thread
claimed t i =
    let row = clear_threads (proc_at t i).threads in
    record (proc_at t i) {
      state = embryo;
      pid = t.next_pid;
      threads = set row 0 (main_thread i t.next_tid (get_or row 0 no_thread));
    }

unfoldable pub claim : Ptable → ℕ → Ptable
unfolding claimed
claim t i = record (set_proc t i (claimed t i)) {
  next_pid = next_id t.next_pid;
  next_tid = next_id t.next_tid;
}

-- What `allocproc` does with a claimed process.
unfoldable pub give_stack : Option ℕ → Ptable → ℕ → Ptable × Option ℕ
give_stack none t i = (set_thread t i 0 (record (thread_at t i 0) { kstack = none }), none)
give_stack (some k) t i = (set_thread t i 0 (init_stack k (thread_at t i 0)), some i)

unfoldable pub allocproc : Option ℕ → Ptable → Ptable × Option ℕ
unfolding claim give_stack
allocproc page t =
    if ltb (free_slot t) (length t.procs)
    then give_stack page (claim t (free_slot t)) (free_slot t)
    else (t, none)

-- The loop of `fork` over the files: a file of the parent is duplicated into the child's slot, and
-- a slot where the parent has none keeps what the child has.
unfoldable pub dup_files : List (Option ℕ) → List (Option ℕ) → List (Option ℕ) × List Call
dup_files [] child = (child, [])
dup_files (f ∷ fs) [] = ([], [])
dup_files (none ∷ fs) (c ∷ child) = let (rest, calls) = dup_files fs child in (c ∷ rest, calls)
dup_files (some f ∷ fs) (c ∷ child) =
    let (rest, calls) = dup_files fs child in (some f ∷ rest, filedup f ∷ calls)

-- `fork` after `allocproc` gave process `n`, called by the thread `j` of process `i`.
unfoldable pub fork_into : Option ℕ → ℕ → ℕ → Ptable → ℕ → Ptable × Option ℕ × List Call
unfolding dup_files
fork_into none i j t n = (
  set_proc t n (record (proc_at t n) {
    state = unused;
    threads =
        set (proc_at t n).threads 0
          (record (thread_at t n 0) { tproc = some n; kstack = none; state = uninit });
  }),
  none,
  kfree (thread_at t n 0).kstack ∷ [],
)
fork_into (some pgdir) i j t n =
    let (files, calls) = dup_files (proc_at t i).ofile (proc_at t n).ofile in
    (
      set_proc t n (record (proc_at t n) {
        pgdir = some pgdir;
        sz = (proc_at t i).sz;
        parent = some i;
        ofile = files;
        cwd = (proc_at t i).cwd;
        name = take 15 (proc_at t i).name;
        state = used;
        threads = set (proc_at t n).threads 0 (record (thread_at t n 0) {
          tproc = some n;
          tf = record ((thread_at t i j).tf) { eax = 0 };
          state = runnable;
        });
      }),
      some (proc_at t n).pid,
      calls ++ idup (proc_at t i).cwd ∷ [],
    )

-- `fork` on the result of `allocproc`.
unfoldable pub fork_after : Option ℕ → ℕ → ℕ → Ptable × Option ℕ → Ptable × Option ℕ × List Call
unfolding fork_into
fork_after pgdir i j (t, none) = (t, none, [])
fork_after pgdir i j (t, some n) = fork_into pgdir i j t n

unfoldable pub fork : Option ℕ → Option ℕ → ℕ → ℕ → Ptable → Ptable × Option ℕ × List Call
unfolding allocproc fork_after
fork page pgdir i j t = fork_after pgdir i j (allocproc page t)

-- `kthread_create` under the lock: the slot of the new thread in process `i`.
abbrev pub free_thread : Proc → ℕ
free_thread p = index_of (λ th. is_uninit th.state) p.threads

unfoldable pub kthread_reserve : ℕ → Ptable → Option (Ptable × ℕ)
kthread_reserve i t =
    if ltb (free_thread (proc_at t i)) (length (proc_at t i).threads)
    then some (
      record (set_thread t i (free_thread (proc_at t i))
          (record (thread_at t i (free_thread (proc_at t i))) {
            tproc = some i;
            tid = t.next_tid;
          })) { next_tid = next_id t.next_tid },
      free_thread (proc_at t i),
    )
    else none

-- `kthread_create` after the release of the lock, called by the thread `j` of process `i` for the
-- reserved slot `k`. Its result is 0 where there is no page for a stack.
unfoldable pub kthread_start : Option ℕ → ℕ → ℕ → ℕ → ℕ → ℕ → Ptable → Ptable × ℕ
unfolding init_stack
kthread_start none entry stack i j k t =
    (set_thread t i k (record (thread_at t i k) { kstack = none }), 0)
kthread_start (some page) entry stack i j k t = (
  set_thread t i k (record (init_stack page (thread_at t i k)) {
    exit_request = false;
    state = runnable;
    ustack = stack;
    tf = record ((thread_at t i j).tf) { eip = entry; esp = stack };
  }),
  (thread_at t i k).tid,
)

-- The whole call, with no other thread between its two parts. The result `none` is -1.
unfoldable pub create_after :
    Option ℕ → ℕ → ℕ → ℕ → ℕ → Ptable → Option (Ptable × ℕ) → Ptable × Option ℕ
unfolding kthread_start
create_after page entry stack i j t none = (t, none)
create_after page entry stack i j t (some (t', k)) =
    let (t'', tid) = kthread_start page entry stack i j k t' in (t'', some tid)

unfoldable pub kthread_create : Option ℕ → ℕ → ℕ → ℕ → ℕ → Ptable → Ptable × Option ℕ
unfolding kthread_reserve create_after
kthread_create page entry stack i j t = create_after page entry stack i j t (kthread_reserve i t)
