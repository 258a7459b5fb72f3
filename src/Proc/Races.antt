-- ===== src/Proc/Races.antt =====
-- kthread.c and proc.c: creation of a thread interleaved with itself, and a kill of pid 0.
use mathlib.Core.Path.{subst}
use op_sys.Base.{
  ◌==◌, if◌then◌else◌, length, set, length-set, ℕ, ◌<◌, ◌≡◌, refl, subst, ◌∙◌, ◌≢◌, inl, inr, true,
  some, arith,
}
use op_sys.Proc.{uninit, Proc, Ptable, next_id, proc_at, thread_at, set_proc, set_thread}
use op_sys.Proc.Read.{proc_at-set_proc, thread_at-set_thread}
use op_sys.Proc.Wakeup.{kill, kill_lem}
use op_sys.Proc.Alloc.{allocproc, kthread_reserve}
use op_sys.Proc.Ids.{pid_of, tid_of, IsConsistent, Keeps-IsConsistent, set_proc-Keeps}
use op_sys.Proc.Create.{kthread_reserve_cases}
use op_sys.Proc.Creation.{IsFirstUnused, killed-allocproc, allocproc_lem}

-- Slot `k` is the one that `kthread_create` picks in process `i`.
abbrev pub IsFirstUninit : Ptable → ℕ → ℕ → Type 0
IsFirstUninit t i k =
    (k < length (proc_at t i).threads)
    × ((thread_at t i k).state ≡ uninit)
    × ((l : ℕ) → l < k → (thread_at t i l).state ≢ uninit)

-- The table after a reservation of slot `k`.
abbrev pub reserved : Ptable → ℕ → ℕ → Ptable
reserved t i k =
    record (set_thread t i k (record (thread_at t i k) { tproc = some i; tid = t.next_tid })) {
      next_tid = next_id t.next_tid;
    }

kthread_reserve-takes :
    (t : Ptable) (i k : ℕ) → IsFirstUninit t i k → kthread_reserve i t ≡ some (reserved t i k, k)
kthread_reserve-takes t i k (l, u, b) = elim (kthread_reserve_cases i t) [
  | inl (e, full) ↦ absurd (full k l u)
  | inr (m, l', u', b', e) ↦
      let same : m ≡ k = ground (arith, b m, b' k) in
      subst (λ q. kthread_reserve i t ≡ some (reserved t i q, q)) same e
]

thread_at-reserved :
    (t : Ptable) (i k l : ℕ)
    → i < length t.procs
    → k < length (proc_at t i).threads
    → thread_at (reserved t i k) i l ≡ (
        if k == l
        then record (thread_at t i k) { tproc = some i; tid = t.next_tid }
        else thread_at t i l)
thread_at-reserved t i k l h lt = ground (
  arith,
  thread_at-set_thread t i k i l (record (thread_at t i k) { tproc = some i; tid = t.next_tid }) h
      lt,
)

reserved-first :
    (t : Ptable) (i k : ℕ)
    → i < length t.procs
    → IsFirstUninit t i k
    → IsFirstUninit (reserved t i k) i k
reserved-first t i k h (lt, u, b) = (
  ground (
    arith,
    proc_at-set_proc t i i
        (record (proc_at t i) {
          threads =
              set (proc_at t i).threads k
                (record (thread_at t i k) { tproc = some i; tid = t.next_tid });
        })
        h,
    length-set (proc_at t i).threads k
        (record (thread_at t i k) { tproc = some i; tid = t.next_tid }),
  ),
  ground (arith, thread_at-reserved t i k k h lt),
  λ l lk. ground (arith, thread_at-reserved t i k l h lt, b l lk),
)

-- A reserved slot stays uninitialised until its thread is started, so a second `kthread_create` of
-- the process that reserves before that gets the same slot, and overwrites its tid.
pub kthread_reserve_race :
    (t : Ptable) (i k : ℕ)
    → i < length t.procs
    → IsFirstUninit t i k
    → (kthread_reserve i t ≡ some (reserved t i k, k))
      × (kthread_reserve i (reserved t i k) ≡ some (reserved (reserved t i k) i k, k))
      × (tid_of (reserved t i k) i k ≡ t.next_tid)
      × (tid_of (reserved (reserved t i k) i k) i k ≡ next_id t.next_tid)
kthread_reserve_race t i k h first =
    let again : IsFirstUninit (reserved t i k) i k = reserved-first t i k h first in
    (
      kthread_reserve-takes t i k first,
      kthread_reserve-takes (reserved t i k) i k again,
      ground (arith, thread_at-reserved t i k k h first.0),
      ground (
        arith,
        thread_at-reserved (reserved t i k) i k k
            (ground (
              arith,
              length-set t.procs i (record (proc_at t i) {
                threads =
                    set (proc_at t i).threads k
                      (record (thread_at t i k) { tproc = some i; tid = t.next_tid });
              }),
            ))
            again.0,
      ),
    )

kill-first :
    (t : Ptable) (pid n : ℕ)
    → n < length t.procs
    → pid_of t n ≡ pid
    → ((i : ℕ) → i < n → pid_of t i ≢ pid)
    → kill pid t ≡ (set_proc t n (record (proc_at t n) { killed = true }), true)
kill-first t pid n h z b = elim ((kill_lem pid t).0) [
  | inl (e, (m, lt, same, before, r)) ↦
      let here : m ≡ n = ground (arith, b m, before n) in
      let r' : (kill pid t).0 ≡ set_proc t n (record (proc_at t n) { killed = true }) =
        subst (λ q. (kill pid t).0 ≡ set_proc t q (record (proc_at t q) { killed = true })) here
          r in
      ground (arith, r', e)
  | inr (e, none_has) ↦ absurd (none_has n h z)
]

-- If the first unused process is also the first with the pid 0, `kill 0` succeeds on it, and the next
-- process to be created is that one, killed from its birth.
pub kill_zero-allocproc :
    (t : Ptable) (n k : ℕ)
    → IsConsistent t
    → IsFirstUnused t n
    → pid_of t n ≡ 0
    → ((i : ℕ) → i < n → pid_of t i ≢ 0)
    → ((kill 0 t).1 ≡ true)
      × ((allocproc (some k) (kill 0 t).0).1 ≡ some n)
      × ((proc_at (allocproc (some k) (kill 0 t).0).0 n).killed ≡ true)
kill_zero-allocproc t n k c first z b =
    let killed_proc : Proc = record (proc_at t n) { killed = true } in
    let t' : Ptable = set_proc t n killed_proc in
    let killed_n : kill 0 t ≡ (t', true) = kill-first t 0 n first.0 z b in
    let read : (i : ℕ) → proc_at t' i ≡ (if n == i then killed_proc else proc_at t i) =
      λ i. proc_at-set_proc t n i killed_proc first.0 in
    let c' : IsConsistent t' =
      Keeps-IsConsistent (set_proc-Keeps t n killed_proc first.0 refl (inl refl) (λ j. inl refl))
        c in
    let first' : IsFirstUnused t' n = (
      ground (arith, first.0, length-set t.procs n killed_proc),
      ground (arith, read n, first.1),
      λ i lt. ground (arith, read i, first.2 i lt),
    ) in
    rw killed_n (
      refl,
      (allocproc_lem t' c' n first' k).0,
      killed-allocproc t' c' n first' k ∙ ground (arith, read n),
    )
