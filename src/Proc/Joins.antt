-- ===== src/Proc/Joins.antt =====
-- kthread.c: which thread kthread_join waits for, and two joiners of one thread.
use op_sys.Proc.Read.{thread_at-set_thread}
use op_sys.Base.{
  ltb, ◌==◌, ltb→lt, Bool-cases, index_of, index_of_holds, index_of_before, length, ℕ, suc, ◌<◌,
  ◌≡◌, refl, subst, ◌≢◌, ◌↔◌, ◌⊎◌, inl, inr, Bool, true, none, some, List, arith,
}
use op_sys.Proc.{
  ThreadState, uninit, Call, Thread, Ptable, no_thread, is_uninit, proc_at, thread_at,
}
use op_sys.Proc.Exit.{join_target, join_lookup, join_loop}

-- Where the search of `kthread_join` may stop: at the first thread of process `i` with the tid or, when
-- it has none, at the first thread of the next process's row.
abbrev pub IsJoinPlace : ℕ → ℕ → Ptable → ℕ → ℕ → Type 0
IsJoinPlace i tid t m k =
    ((m ≡ i) × (k < length (proc_at t i).threads) × ((l : ℕ) → l < k → (thread_at t i l).tid ≢ tid))
    ⊎ ((m ≡ suc i)
        × (k ≡ 0)
        × ((l : ℕ) → l < length (proc_at t i).threads → (thread_at t i l).tid ≢ tid))

join_target-IsJoinPlace :
    (i tid : ℕ) (t : Ptable) → IsJoinPlace i tid t (join_target i tid t).0 (join_target i tid t).1
unfolding join_target
join_target-IsJoinPlace i tid t =
    let test : Thread → Bool = λ th. th.tid == tid in
    let row : List Thread = (proc_at t i).threads in
    elim (Bool-cases (ltb (index_of test row) (length row))) [
      | inl e ↦
          rw e (
            inl (refl, ltb→lt _ _ e, λ l h. ground (arith, index_of_before test row no_thread l h)))
      | inr e ↦
          rw e (inr (refl, refl, λ l h. ground (arith, e, index_of_before test row no_thread l)))
    ]

-- There is one such place with the tid.
join_target_lem :
    (i tid : ℕ) (t : Ptable) (m k : ℕ)
    → IsJoinPlace i tid t m k
    → (thread_at t m k).tid ≡ tid
    → join_target i tid t ≡ (m, k)
unfolding join_target
join_target_lem i tid t m k place e =
    let test : Thread → Bool = λ th. th.tid == tid in
    let row : List Thread = (proc_at t i).threads in
    elim place [
      | inl (mi, lt, before) ↦
          let here : (thread_at t i k).tid ≡ tid = rw mi at e in
          let le : index_of test row ≡ k = ground (
            arith,
            here,
            before (index_of test row),
            index_of_before test row no_thread k,
            index_of_holds test row no_thread,
          ) in
          ground (arith, le, lt, mi)
      | inr (mi, k0, none_has) ↦
          ground (arith, mi, k0, index_of_holds test row no_thread, none_has (index_of test row))
    ]

is_uninit_iff : (s : ThreadState) → (is_uninit s ≡ true) ↔ (s ≡ uninit)
is_uninit_iff s = (λ h. ground arith, λ h. ground arith)

join_lookup_found :
    (i j tid : ℕ) (t : Ptable) (m k : ℕ)
    → join_lookup i j tid t ≡ some (m, k)
    → (join_target i tid t ≡ (m, k))
      × ((thread_at t i j).tid ≢ tid)
      × ((thread_at t m k).tid ≡ tid)
      × ((thread_at t m k).state ≢ uninit)
unfolding join_lookup
join_lookup_found i j tid t m k h = grind arith

-- `kthread_join` waits for a thread exactly if the caller has another tid, and the thread has the tid,
-- is initialised, and is the first of the caller's process with it or, when that has no thread with
-- the tid, the first thread in the next process's row. Otherwise it returns -1.
pub join_lookup_iff :
    (i j tid : ℕ) (t : Ptable) (m k : ℕ)
    → (join_lookup i j tid t ≡ some (m, k)) ↔ (
        ((thread_at t i j).tid ≢ tid)
        × ((thread_at t m k).tid ≡ tid)
        × ((thread_at t m k).state ≢ uninit)
        × IsJoinPlace i tid t m k)
unfolding join_lookup
join_lookup_iff i j tid t m k = (
  λ h.
      let f = join_lookup_found i j tid t m k h in
      (
        f.1,
        f.2,
        f.3,
        subst (λ (r : ℕ × ℕ). IsJoinPlace i tid t r.0 r.1) f.0 (join_target-IsJoinPlace i tid t),
      ),
  λ (own, e, u, place). ground (arith, join_target_lem i tid t m k place e),
)

-- When a joiner has finished with a thread, another joiner of the same thread that tests it again goes
-- back to sleep on it.
pub join_loop_twice :
    (t t' : Ptable) (m k : ℕ) (calls : List Call)
    → m < length t.procs
    → k < length (proc_at t m).threads
    → join_loop m k t ≡ some (t', calls)
    → ((thread_at t' m k).state ≡ uninit) × (join_loop m k t' ≡ none)
unfolding join_loop
join_loop_twice t t' m k calls h l e =
    let th : Thread = record (thread_at t m k) { kstack = none; state = uninit } in
    ground (arith, thread_at-set_thread t m k m k th h l)
