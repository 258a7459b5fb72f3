-- ===== src/Proc/Create.antt =====
-- proc.c and kthread.c: what allocproc, fork and kthread_create promise.
use op_sys.Base.{
  ltb, ltb→lt, Bool-cases, index_of_holds, index_of_before, length, set, length-set, ℕ, ◌<◌, ◌≡◌,
  refl, ◌≢◌, ◌⊎◌, inl, inr, Bool, Option, none, some, List, arith,
}
use op_sys.Proc.{
  nproc, unused, uninit, Thread, Proc, Ptable, next_id, no_thread, no_proc, is_unused, is_uninit,
  proc_at, thread_at, set_thread,
}
use op_sys.Proc.Alloc.{
  init_stack, free_slot, claimed, claim, give_stack, allocproc, fork_into, fork_after, fork,
  free_thread, kthread_reserve, kthread_start, create_after, kthread_create,
}
use op_sys.Proc.Ids.{HasIds, IsConsistent, Keeps-IsConsistent, set_thread-Keeps, set_row-Keeps}
use op_sys.Proc.Fresh.{claim-IsConsistent, numbered-IsConsistent}

give_stack-IsConsistent :
    (page : Option ℕ) (t : Ptable) (n : ℕ)
    → IsConsistent t
    → n < length t.procs
    → IsConsistent (give_stack page t n).0
unfolding give_stack init_stack
give_stack-IsConsistent none t n c h =
    Keeps-IsConsistent (set_thread-Keeps t n 0 _ h (ground (arith, c.rows n)) (inl refl)) c
give_stack-IsConsistent (some k) t n c h =
    Keeps-IsConsistent (set_thread-Keeps t n 0 _ h (ground (arith, c.rows n)) (inl refl)) c

-- `allocproc` fails on a full table, and otherwise claims the first unused process and goes on to ask
-- for its stack.
pub allocproc_cases :
    (page : Option ℕ) (t : Ptable)
    → ((allocproc page t ≡ (t, none))
        × ((i : ℕ) → i < length t.procs → (proc_at t i).state ≢ unused))
      ⊎ ((n : ℕ) × (n < length t.procs)
          × ((proc_at t n).state ≡ unused)
          × ((i : ℕ) → i < n → (proc_at t i).state ≢ unused)
          × (allocproc page t ≡ give_stack page (claim t n) n))
unfolding allocproc
allocproc_cases page t =
    let test : Proc → Bool = λ p. is_unused p.state in
    elim (Bool-cases (ltb (free_slot t) (length t.procs))) [
      | inl e ↦ inr (
        free_slot t,
        ltb→lt _ _ e,
        ground (arith, index_of_holds test t.procs no_proc (ltb→lt _ _ e)),
        λ i h. ground (arith, index_of_before test t.procs no_proc i h),
        rw e,
      )
      | inr e ↦ inl (rw e, λ i h. ground (arith, e, index_of_before test t.procs no_proc i))
    ]

pub length-claim : (t : Ptable) (n : ℕ) → length (claim t n).procs ≡ length t.procs
unfolding claim
length-claim t n = length-set t.procs n (claimed t n)

fork_into-IsConsistent :
    (pgdir : Option ℕ) (i j : ℕ) (t : Ptable) (n : ℕ)
    → IsConsistent t
    → n < length t.procs
    → IsConsistent (fork_into pgdir i j t n).0
unfolding fork_into
fork_into-IsConsistent none i j t n c h =
    Keeps-IsConsistent
      (set_row-Keeps t n 0 _ _ h (ground (arith, c.rows n)) refl (inl refl) (inl refl)) c
fork_into-IsConsistent (some pg) i j t n c h =
    Keeps-IsConsistent
      (set_row-Keeps t n 0 _ _ h (ground (arith, c.rows n)) refl (inl refl) (inl refl)) c

-- A process that is handed out lies in the table.
IsPlaced : Ptable → Option ℕ → Type 0
IsPlaced t none = Unit
IsPlaced t (some n) = n < length t.procs

give_stack-IsPlaced :
    (page : Option ℕ) (t : Ptable) (n : ℕ)
    → n < length t.procs
    → IsPlaced (give_stack page t n).0 (give_stack page t n).1
unfolding give_stack IsPlaced
give_stack-IsPlaced none t n h = tt
give_stack-IsPlaced (some k) t n h = ground (
  arith,
  length-set t.procs n (record (proc_at t n) {
    threads = set (proc_at t n).threads 0 (init_stack k (thread_at t n 0));
  }),
)

allocproc-good :
    (page : Option ℕ) (t : Ptable)
    → IsConsistent t
    → HasIds t
    → IsConsistent (allocproc page t).0 × IsPlaced (allocproc page t).0 (allocproc page t).1
allocproc-good page t c free = elim (allocproc_cases page t) [
  | inl (e, full) ↦ rw e (c, unfold IsPlaced in tt)
  | inr (n, h, u, b, e) ↦ rw e (
    give_stack-IsConsistent page (claim t n) n (claim-IsConsistent t c free n h)
        (rw (length-claim t n) h),
    give_stack-IsPlaced page (claim t n) n (rw (length-claim t n) h),
  )
]

fork_after-IsConsistent :
    (pgdir : Option ℕ) (i j : ℕ) (r : Ptable × Option ℕ)
    → IsConsistent r.0
    → IsPlaced r.0 r.1
    → IsConsistent (fork_after pgdir i j r).0
unfolding fork_after IsPlaced
fork_after-IsConsistent pgdir i j (t, none) c h = c
fork_after-IsConsistent pgdir i j (t, some n) c h = fork_into-IsConsistent pgdir i j t n c h

fork-IsConsistent :
    (page pgdir : Option ℕ) (i j : ℕ) (t : Ptable)
    → IsConsistent t
    → HasIds t
    → IsConsistent (fork page pgdir i j t).0
unfolding fork
fork-IsConsistent page pgdir i j t c free =
    let good = allocproc-good page t c free in fork_after-IsConsistent pgdir i j _ good.0 good.1

-- `kthread_create` finds no slot, or reserves the first unused one of the process.
pub kthread_reserve_cases :
    (i : ℕ) (t : Ptable)
    → ((kthread_reserve i t ≡ none)
        × ((k : ℕ) → k < length (proc_at t i).threads → (thread_at t i k).state ≢ uninit))
      ⊎ ((k : ℕ) × (k < length (proc_at t i).threads)
          × ((thread_at t i k).state ≡ uninit)
          × ((l : ℕ) → l < k → (thread_at t i l).state ≢ uninit)
          × (kthread_reserve i t
              ≡ some (
                record (set_thread t i k
                    (record (thread_at t i k) { tproc = some i; tid = t.next_tid })) {
                      next_tid = next_id t.next_tid;
                    },
                k,
              )))
unfolding kthread_reserve
kthread_reserve_cases i t =
    let row : List Thread = (proc_at t i).threads in
    let test : Thread → Bool = λ th. is_uninit th.state in
    elim (Bool-cases (ltb (free_thread (proc_at t i)) (length row))) [
      | inl e ↦ inr (
        free_thread (proc_at t i),
        ltb→lt _ _ e,
        ground (arith, index_of_holds test row no_thread (ltb→lt _ _ e)),
        λ l h. ground (arith, index_of_before test row no_thread l h),
        rw e,
      )
      | inr e ↦ inl (rw e, λ k h. ground (arith, e, index_of_before test row no_thread k))
    ]

kthread_start-IsConsistent :
    (page : Option ℕ) (entry stack i j k : ℕ) (t : Ptable)
    → IsConsistent t
    → i < length t.procs
    → k < length (proc_at t i).threads
    → IsConsistent (kthread_start page entry stack i j k t).0
unfolding kthread_start
kthread_start-IsConsistent none entry stack i j k t c h l =
    Keeps-IsConsistent (set_thread-Keeps t i k _ h l (inl refl)) c
kthread_start-IsConsistent (some pg) entry stack i j k t c h l =
    Keeps-IsConsistent (set_thread-Keeps t i k _ h l (inl refl)) c

kthread_create-IsConsistent :
    (page : Option ℕ) (entry stack i j : ℕ) (t : Ptable)
    → IsConsistent t
    → HasIds t
    → i < nproc
    → IsConsistent (kthread_create page entry stack i j t).0
unfolding kthread_create create_after
kthread_create-IsConsistent page entry stack i j t c free h = elim (kthread_reserve_cases i t) [
  | inl (e, full) ↦ rw e c
  | inr (k, l, u, b, e) ↦ rw e (
      let th : Thread = record (thread_at t i k) { tproc = some i; tid = t.next_tid } in
      let c' = numbered-IsConsistent t c i k th (ground (arith, c.shape)) l refl free in
      kthread_start-IsConsistent page entry stack i j k _ c' (ground (arith, c'.shape))
        (ground (arith, c'.rows i, l, c.rows i)))
]

-- If in a table every process id and every thread id is distinct and below its counter, and both
-- counters are below the largest `int`, it stays so under `allocproc`, and under `fork` and
-- `kthread_create` by a process of the table, whether they succeed or fail, and wherever they fail.
pub creations-IsConsistent :
    (page pgdir : Option ℕ) (entry stack i j : ℕ) (t : Ptable)
    → IsConsistent t
    → HasIds t
    → i < nproc
    → IsConsistent (allocproc page t).0
      × IsConsistent (fork page pgdir i j t).0
      × IsConsistent (kthread_create page entry stack i j t).0
creations-IsConsistent page pgdir entry stack i j t c free h = (
  (allocproc-good page t c free).0,
  fork-IsConsistent page pgdir i j t c free,
  kthread_create-IsConsistent page entry stack i j t c free h,
)
