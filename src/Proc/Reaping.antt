-- ===== src/Proc/Reaping.antt =====
-- proc.c: wait.
use op_sys.Proc.Read.{proc_at-set_proc}
use op_sys.Base.{
  ltb, ◌==◌, ltb→lt, Bool-cases, map_from, any_from, length-map_from, get_or-map_from,
  any_from-true, any_from_none, index_of, index_of_holds, index_of_before, length, get_or, ℕ, ◌<◌,
  ◌≡◌, ap, ◌∙◌, ◌≢◌, ◌⊎◌, inl, inr, Bool, true, false, not, ◌&&◌, none, List, [], ◌∷◌, ◌++◌, arith,
}
use op_sys.Proc.{
  unused, uninit, Call, freevm, Thread, Proc, Ptable, no_thread, no_proc, proc_at, thread_of,
  thread_at, set_proc,
}
use op_sys.Proc.Exit.{
  is_live, clean_thread, clean_calls, is_child, is_zombie_child, returned, failed, sleeps, reap,
  wait,
}

clean_thread_lem :
    (k : ℕ) (th : Thread)
    → (is_live ((clean_thread k th).state) ≡ is_live th.state)
      × (is_live th.state ≡ false → (clean_thread k th).state ≡ uninit)
unfolding clean_thread
clean_thread_lem k th = ground arith

-- No thread of the process is alive.
abbrev pub AllEnded : Proc → Type 0
AllEnded p = (k : ℕ) → k < length p.threads → is_live ((thread_of p k).state) ≡ false

-- The row of a child after the inner loop of `wait`, and the test of that loop.
abbrev cleaned_row : Ptable → ℕ → List Thread
cleaned_row t n = map_from clean_thread 0 ((proc_at t n).threads)

abbrev holds_up : ℕ → ℕ → ℕ → ℕ → Thread → Bool
holds_up i j n k th = not ((n == i) && (k == j)) && is_live th.state

cleaned :
    (t : Ptable) (n k : ℕ)
    → k < length (proc_at t n).threads
    → get_or (cleaned_row t n) k no_thread ≡ clean_thread k (thread_at t n k)
cleaned t n k lt = get_or-map_from clean_thread ((proc_at t n).threads) k no_thread lt

length-cleaned : (t : Ptable) (n : ℕ) → length (cleaned_row t n) ≡ length (proc_at t n).threads
length-cleaned t n = length-map_from clean_thread 0 ((proc_at t n).threads)

nothing_holds_up :
    (t : Ptable) (i j n : ℕ)
    → AllEnded (proc_at t n)
    → any_from (holds_up i j n) 0 (cleaned_row t n) ≡ false
nothing_holds_up t i j n ended = any_from_none (holds_up i j n) (cleaned_row t n) no_thread λ k lt.
    let lt' : k < length (proc_at t n).threads = rw (length-cleaned t n) at lt in
    ground (arith, cleaned t n k lt', clean_thread_lem k (thread_at t n k), ended k lt')

something_holds_up :
    (t : Ptable) (i j n k : ℕ)
    → n ≢ i
    → k < length (proc_at t n).threads
    → is_live ((thread_at t n k).state) ≡ true
    → any_from (holds_up i j n) 0 (cleaned_row t n) ≡ true
something_holds_up t i j n k ne lt alive =
    any_from-true (holds_up i j n) (cleaned_row t n) k no_thread (rw (length-cleaned t n) lt)
      (ground (arith, cleaned t n k lt, clean_thread_lem k (thread_at t n k)))

-- `wait` on a zombie child whose threads have all ended returns the child's pid and frees the child:
-- its process is unused, with no pid and no parent, and all its threads are uninitialised.
pub reap-ended :
    (t : Ptable) (i j n : ℕ)
    → n < length t.procs
    → AllEnded (proc_at t n)
    → (t' : Ptable) × (calls : List Call) × (reap i j t n ≡ returned t' ((proc_at t n).pid) calls)
      × ((proc_at t' n).state ≡ unused)
      × ((proc_at t' n).pid ≡ 0)
      × ((proc_at t' n).parent ≡ none)
      × ((proc_at t' n).killed ≡ false)
      × ((k : ℕ) → k < length (proc_at t n).threads → (thread_at t' n k).state ≡ uninit)
      × ((m : ℕ) → n ≢ m → proc_at t' m ≡ proc_at t m)
unfolding reap
reap-ended t i j n h ended =
    let p : Proc = record (proc_at t n) {
      threads = cleaned_row t n;
      pid = 0;
      parent = none;
      name = [];
      killed = false;
      state = unused;
    } in
    let here : proc_at (set_proc t n p) n ≡ p = ground (arith, proc_at-set_proc t n n p h) in
    (
      set_proc t n p,
      clean_calls ((proc_at t n).threads) ++ freevm ((proc_at t n).pgdir) ∷ [],
      rw (nothing_holds_up t i j n ended),
      ap (λ q. q.state) here,
      ap (λ q. q.pid) here,
      ap (λ q. q.parent) here,
      ap (λ q. q.killed) here,
      λ k lt.
          ap (λ q. (thread_of q k).state) here
          ∙ ap (λ th. th.state) (cleaned t n k lt)
          ∙ (clean_thread_lem k (thread_at t n k)).1 (ended k lt),
      λ m ne. ground (arith, proc_at-set_proc t n m p h),
    )

-- `wait` on a zombie child one of whose threads is still alive, and which is not the caller itself,
-- returns 0, which is no pid, and leaves the child's state, pid and parent as they were.
pub reap-alive :
    (t : Ptable) (i j n k : ℕ)
    → n < length t.procs
    → n ≢ i
    → k < length (proc_at t n).threads
    → is_live ((thread_at t n k).state) ≡ true
    → (t' : Ptable) × (calls : List Call) × (reap i j t n ≡ returned t' 0 calls)
      × ((proc_at t' n).state ≡ (proc_at t n).state)
      × ((proc_at t' n).pid ≡ (proc_at t n).pid)
      × ((proc_at t' n).parent ≡ (proc_at t n).parent)
unfolding reap
reap-alive t i j n k h ne lt alive =
    let p : Proc = record (proc_at t n) { threads = cleaned_row t n } in
    let here : proc_at (set_proc t n p) n ≡ p = ground (arith, proc_at-set_proc t n n p h) in
    (
      set_proc t n p,
      clean_calls ((proc_at t n).threads),
      rw (something_holds_up t i j n k ne lt alive),
      ap (λ q. q.state) here,
      ap (λ q. q.pid) here,
      ap (λ q. q.parent) here,
    )

-- One round of `wait` takes the first zombie child; with none it fails if the caller has no child, is
-- killed or was asked to exit, and otherwise sleeps.
pub wait_lem :
    (t : Ptable) (i j : ℕ)
    → ((n : ℕ) × (n < length t.procs)
        × (is_zombie_child i (proc_at t n) ≡ true)
        × ((m : ℕ) → m < n → is_zombie_child i (proc_at t m) ≡ false)
        × (wait i j t ≡ reap i j t n))
      ⊎ (((n : ℕ) → n < length t.procs → is_zombie_child i (proc_at t n) ≡ false)
          × ((wait i j t ≡ failed)
                × (((proc_at t i).killed ≡ true)
                    ⊎ ((thread_at t i j).exit_request ≡ true)
                    ⊎ ((n : ℕ) → n < length t.procs → is_child i (proc_at t n) ≡ false))
              ⊎ (wait i j t ≡ sleeps)
                × ((proc_at t i).killed ≡ false)
                × ((thread_at t i j).exit_request ≡ false)
                × ((n : ℕ) × (n < length t.procs) × (is_child i (proc_at t n) ≡ true))))
unfolding wait
wait_lem t i j =
    let zombie_child : ℕ = index_of (is_zombie_child i) t.procs in
    let child : ℕ = index_of (is_child i) t.procs in
    elim (Bool-cases (ltb zombie_child (length t.procs))) [
      | inl e ↦ inl (
        zombie_child,
        ltb→lt _ _ e,
        index_of_holds (is_zombie_child i) t.procs no_proc (ltb→lt _ _ e),
        index_of_before (is_zombie_child i) t.procs no_proc,
        rw e,
      )
      | inr e ↦ inr (
        (λ n h. index_of_before (is_zombie_child i) t.procs no_proc n (ground arith)),
        rw e (elim (Bool-cases (ltb child (length t.procs))) [
          | inr c ↦ inl (
            rw c,
            inr (inr (λ n h. index_of_before (is_child i) t.procs no_proc n (ground arith))),
          )
          | inl c ↦ elim (Bool-cases ((proc_at t i).killed)) [
            | inl k ↦ inl (rw (c, k), inl k)
            | inr k ↦ elim (Bool-cases ((thread_at t i j).exit_request)) [
              | inl r ↦ inl (rw (c, k, r), inr (inl r))
              | inr r ↦ inr (
                rw (c, k, r),
                k,
                r,
                (child, ltb→lt _ _ c, index_of_holds (is_child i) t.procs no_proc (ltb→lt _ _ c)),
              )
            ]
          ]
        ]),
      )
    ]
