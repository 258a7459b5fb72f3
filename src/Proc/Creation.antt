-- ===== src/Proc/Creation.antt =====
-- proc.c and kthread.c: what a new process and a new thread are like, and where creation goes wrong.
use op_sys.Proc.Fresh.{length-claimed, thread_of-claimed}
use op_sys.Proc.Read.{proc_at-set_proc, thread_of-set}
use op_sys.Proc.Ids.{pid_of, IsConsistent}
use mathlib.Core.Path.{subst}
use op_sys.Base.{
  ◌==◌, if◌then◌else◌, length, set, ℕ, ◌+◌, ◌<◌, ◌≡◌, refl, ap, subst, ◌∙◌, ◌≢◌, inl, inr, false,
  Option, none, some, arith,
}
use op_sys.Proc.{
  kstack_size, unused, embryo, uninit, forkret, Proc, Ptable, proc_at, thread_of, thread_at,
}
use op_sys.Proc.Alloc.{
  sizeof_trapframe, sizeof_context, init_stack, claimed, claim, give_stack, allocproc,
}
use op_sys.Proc.Create.{allocproc_cases, length-claim}

-- Process `n` is the one that `allocproc` claims.
abbrev pub IsFirstUnused : Ptable → ℕ → Type 0
IsFirstUnused t n =
    (n < length t.procs)
    × ((proc_at t n).state ≡ unused)
    × ((i : ℕ) → i < n → (proc_at t i).state ≢ unused)

allocproc-claims :
    (page : Option ℕ) (t : Ptable) (n : ℕ)
    → IsFirstUnused t n
    → allocproc page t ≡ give_stack page (claim t n) n
allocproc-claims page t n (h, u, b) = elim (allocproc_cases page t) [
  | inl (e, full) ↦ absurd (full n h u)
  | inr (m, h', u', b', e) ↦
      let same : m ≡ n = ground (arith, b m, b' n) in
      subst (λ q. allocproc page t ≡ give_stack page (claim t q) q) same e
]

claimed-state : (t : Ptable) (n : ℕ) → (claimed t n).state ≡ embryo
unfolding claimed
claimed-state t n = refl

module _ (t : Ptable) (c : IsConsistent t) (n : ℕ) (first : IsFirstUnused t n) where
  row-claimed : 0 < length (claimed t n).threads
  row-claimed = ground (arith, c.rows n, length-claimed t n)

  proc_at-claim : (i : ℕ) → proc_at (claim t n) i ≡ (if n == i then claimed t n else proc_at t i)
  unfolding claim
  proc_at-claim i = proc_at-set_proc t n i (claimed t n) first.0

  proc_at-claim_self : proc_at (claim t n) n ≡ claimed t n
  proc_at-claim_self = ground (arith, proc_at-claim n)

  stacked : ℕ → Proc
  stacked k = record (claimed t n) {
    threads = set (claimed t n).threads 0 (init_stack k (thread_of (claimed t n) 0));
  }

  proc_at-give_stack :
      (k i : ℕ)
      → proc_at (give_stack (some k) (claim t n) n).0 i
        ≡ (if n == i then stacked k else proc_at t i)
  unfolding give_stack stacked
  proc_at-give_stack k i = ground (
    arith,
    proc_at-claim i,
    proc_at-claim_self,
    proc_at-set_proc (claim t n) n i
        (record (proc_at (claim t n) n) {
          threads =
              set (proc_at (claim t n) n).threads 0 (init_stack k (thread_at (claim t n) n 0));
        })
        (rw (length-claim t n) (first.0)),
  )

  allocated : (k : ℕ) → (allocproc (some k) t).1 ≡ some n
  allocated k = rw (allocproc-claims (some k) t n first) (unfold give_stack in refl)

  proc_at-allocproc :
      (k i : ℕ) → proc_at (allocproc (some k) t).0 i ≡ (if n == i then stacked k else proc_at t i)
  proc_at-allocproc k i = rw (allocproc-claims (some k) t n first) (proc_at-give_stack k i)

  main_of_stacked :
      (k : ℕ)
      → thread_of (stacked k) 0
        ≡ init_stack k (record (thread_at t n 0) {
          state = uninit;
          tproc = some n;
          tid = t.next_tid;
          exit_request = false;
        })
  unfolding stacked
  main_of_stacked k = ground (
    arith,
    thread_of-claimed t n 0 (ground (arith, c.rows n)),
    thread_of-set (claimed t n) 0 0 (init_stack k (thread_of (claimed t n) 0)) row-claimed,
  )

  stacked-state : (k : ℕ) → (stacked k).state ≡ embryo
  unfolding stacked claimed
  stacked-state k = refl

  stacked-pid : (k : ℕ) → (stacked k).pid ≡ t.next_pid
  unfolding stacked claimed
  stacked-pid k = refl

  stacked-killed : (k : ℕ) → (stacked k).killed ≡ (proc_at t n).killed
  unfolding stacked claimed
  stacked-killed k = refl

  -- A process keeps the mark of a kill that came before it was allocated.
  pub killed-allocproc :
      (k : ℕ) → (proc_at (allocproc (some k) t).0 n).killed ≡ (proc_at t n).killed
  killed-allocproc k = ground (arith, proc_at-allocproc k n, stacked-killed k)

  stacked-uninit : (k j : ℕ) → (thread_of (stacked k) j).state ≡ uninit
  unfolding stacked init_stack
  stacked-uninit k j = ground (
    arith,
    thread_of-claimed t n j (ground (arith, c.rows n)),
    thread_of-claimed t n 0 (ground (arith, c.rows n)),
    thread_of-set (claimed t n) 0 j (init_stack k (thread_of (claimed t n) 0)) row-claimed,
  )

  -- On a consistent table with an unused process and with a page `k` for the stack `allocproc`
  -- returns the first unused process, as an embryo with the next pid and the next tid for its main
  -- thread, which continues in `forkret` and has its trap frame and context inside the page; all
  -- its threads are uninitialised. No other process changes.
  pub allocproc_lem :
      (k : ℕ)
      → let (t', r) = allocproc (some k) t in
        let main = thread_at t' n 0 in
        (r ≡ some n)
        × ((proc_at t' n).state ≡ embryo)
        × (pid_of t' n ≡ t.next_pid)
        × (main.tid ≡ t.next_tid)
        × (main.tproc ≡ some n)
        × (main.context_eip ≡ forkret)
        × ((k < main.context_at)
            × (main.context_at + sizeof_context < main.tf_at)
            × (main.tf_at + sizeof_trapframe ≡ k + kstack_size))
        × ((j : ℕ) → (thread_at t' n j).state ≡ uninit)
        × ((i : ℕ) → n ≢ i → proc_at t' i ≡ proc_at t i)
  unfolding init_stack
  allocproc_lem k =
      let here : proc_at (allocproc (some k) t).0 n ≡ stacked k =
        ground (arith, proc_at-allocproc k n) in
      let main : thread_at (allocproc (some k) t).0 n 0 ≡ thread_of (stacked k) 0 =
        ap (λ p. thread_of p 0) here in
      (
        allocated k,
        ground (arith, here, stacked-state k),
        ground (arith, here, stacked-pid k),
        ground (arith, main, main_of_stacked k),
        ground (arith, main, main_of_stacked k),
        ground (arith, main, main_of_stacked k),
        ground (arith, main, main_of_stacked k),
        λ j. ap (λ p. (thread_of p j).state) here ∙ stacked-uninit k j,
        λ i ne. ground (arith, proc_at-allocproc k i),
      )

  -- With no page for the stack `allocproc` returns null but has turned the process into an embryo,
  -- which no later call will find unused; every other process is as it was.
  pub allocproc-leak :
      ((allocproc none t).1 ≡ none)
      × ((proc_at (allocproc none t).0 n).state ≡ embryo)
      × ((i : ℕ) → n ≢ i → proc_at (allocproc none t).0 i ≡ proc_at t i)
  unfolding give_stack
  allocproc-leak =
      let p : Proc = record (proc_at (claim t n) n) {
        threads =
            set (proc_at (claim t n) n).threads 0
              (record (thread_at (claim t n) n 0) { kstack = none });
      } in
      let lt : n < length (claim t n).procs = rw (length-claim t n) (first.0) in
      rw (allocproc-claims none t n first) (
        refl,
        ground (
          arith,
          proc_at-set_proc (claim t n) n n p lt,
          proc_at-claim_self,
          stacked-state 0,
          claimed-state t n,
        ),
        λ i ne. ground (arith, proc_at-set_proc (claim t n) n i p lt, proc_at-claim i),
      )
