-- ===== src/Proc/Orphans.antt =====
-- proc.c: what exit does to the exiting process and to its children.
use op_sys.Base.{
  ltb, ◌==◌, if◌then◌else◌, lt→ltb, Bool-cases, length, set, length-set, length-map, ℕ, zero, suc,
  ◌≤◌, ◌<◌, ◌≡◌, refl, ◌∙◌, inl, inr, false, ◌&&◌, Option, none, arith,
}
use op_sys.Proc.{
  nproc, zombie, terminated, Chan, of_thread, Thread, Proc, Ptable, is_zombie, proc_at, thread_at,
  set_proc,
}
use op_sys.Proc.Read.{proc_at-set_proc, thread_of-set}
use op_sys.Proc.Wakeup.{wake_thread, wake_proc, wakeup1, proc_at-wakeup1}
use op_sys.Proc.Exit.{
  pointer_eq, proc_chan, adopt, adopt_below, no_files, exit_close, exit_zombie, exit_finish,
}

abbrev pub parent_of : Ptable → ℕ → Option ℕ
parent_of t k = (proc_at t k).parent

-- What stays as it is under the writes that `exit` makes to other processes.
record IsFramed (t t' : Ptable) : Type 0 where
  size : length t'.procs ≡ length t.procs
  init : t'.initproc ≡ t.initproc
  rows : (k : ℕ) → length (proc_at t' k).threads ≡ length (proc_at t k).threads

wake_proc_frame :
    (c : Chan) (p : Proc)
    → ((wake_proc c p).parent ≡ p.parent)
      × ((wake_proc c p).state ≡ p.state)
      × (length (wake_proc c p).threads ≡ length p.threads)
unfolding wake_proc
wake_proc_frame c p = ground (arith, length-map (wake_thread c) p.threads)

wakeup1-parent : (c : Chan) (t : Ptable) (k : ℕ) → parent_of (wakeup1 c t) k ≡ parent_of t k
wakeup1-parent c t k = ground (arith, proc_at-wakeup1 c t k, wake_proc_frame c (proc_at t k))

wakeup1-IsFramed : (c : Chan) (t : Ptable) → IsFramed t (wakeup1 c t)
wakeup1-IsFramed c t = record {
  size = unfold wakeup1 in length-map (wake_proc c) t.procs;
  init = unfold wakeup1 in refl;
  rows = λ k. ground (arith, proc_at-wakeup1 c t k, wake_proc_frame c (proc_at t k));
}

set_parent-IsFramed :
    (t : Ptable) (k : ℕ) (p : Option ℕ)
    → k < length t.procs
    → IsFramed t (set_proc t k (record (proc_at t k) { parent = p }))
set_parent-IsFramed t k p h = record {
  size = length-set t.procs k (record (proc_at t k) { parent = p });
  init = refl;
  rows = λ m. ground (arith, proc_at-set_proc t k m (record (proc_at t k) { parent = p }) h);
}

below_of : {i n : ℕ} (m : ℕ) → m ≡ n → i < n → i < m
below_of m e h = omega arith

all_of : (m : ℕ) → m ≡ nproc → nproc ≤ m
all_of m e = omega arith

IsFramed-trans : {t u v : Ptable} → IsFramed t u → IsFramed u v → IsFramed t v
IsFramed-trans a b = record {
  size = b.size ∙ a.size;
  init = b.init ∙ a.init;
  rows = λ k. b.rows k ∙ a.rows k;
}

module _ (i : ℕ) where
  adopt-IsFramed : (t : Ptable) (k : ℕ) → k < length t.procs → IsFramed t (adopt i t k)
  unfolding adopt
  adopt-IsFramed t k h =
      let t' : Ptable = set_proc t k (record (proc_at t k) { parent = t.initproc }) in
      let f : IsFramed t t' = set_parent-IsFramed t k t.initproc h in
      elim (Bool-cases (pointer_eq (parent_of t k) i)) [
        | inr e ↦ rw e (record { size = refl; init = refl; rows = λ m. refl })
        | inl e ↦ rw e (elim (Bool-cases (is_zombie ((proc_at t k).state))) [
          | inl z ↦ rw z (IsFramed-trans f (wakeup1-IsFramed (proc_chan t.initproc) t'))
          | inr z ↦ rw z f
        ])
      ]

  adopt-parent :
      (t : Ptable) (k m : ℕ)
      → k < length t.procs
      → parent_of (adopt i t k) m
        ≡ (if (k == m) && pointer_eq (parent_of t m) i then t.initproc else parent_of t m)
  unfolding adopt
  adopt-parent t k m h = ground (
    arith,
    proc_at-set_proc t k m (record (proc_at t k) { parent = t.initproc }) h,
    wakeup1-parent (proc_chan t.initproc)
        (set_proc t k (record (proc_at t k) { parent = t.initproc })) m,
  )

  adopt_below-IsFramed : (n : ℕ) (t : Ptable) → n ≤ length t.procs → IsFramed t (adopt_below i n t)
  unfolding adopt_below
  adopt_below-IsFramed zero t h = record { size = refl; init = refl; rows = λ m. refl }
  adopt_below-IsFramed (suc n) t h =
      let f : IsFramed t (adopt_below i n t) = adopt_below-IsFramed n t (omega arith) in
      IsFramed-trans f (adopt-IsFramed (adopt_below i n t) n (ground (arith, f.size)))

  adopt_below-parent :
      (n : ℕ) (t : Ptable) (m : ℕ)
      → n ≤ length t.procs
      → pointer_eq t.initproc i ≡ false
      → parent_of (adopt_below i n t) m
        ≡ (if ltb m n && pointer_eq (parent_of t m) i then t.initproc else parent_of t m)
  unfolding adopt_below
  adopt_below-parent zero t m h e = ground arith
  adopt_below-parent (suc n) t m h e =
      let f : IsFramed t (adopt_below i n t) = adopt_below-IsFramed n t (omega arith) in
      ground (
        arith,
        f.init,
        adopt-parent (adopt_below i n t) n m (ground (arith, f.size)),
        adopt_below-parent n t m (omega arith) e,
      )

  adopted :
      (t u : Ptable) (k : ℕ)
      → k < nproc
      → u.initproc ≡ t.initproc
      → parent_of u k ≡ parent_of t k
      → (if ltb k nproc && pointer_eq (parent_of u k) i then u.initproc else parent_of u k)
        ≡ (if pointer_eq (parent_of t k) i then t.initproc else parent_of t k)
  adopted t u k lt e f = rw (f, e, lt→ltb k nproc lt)

  not_child :
      (o init q : Option ℕ)
      → pointer_eq init i ≡ false
      → q ≡ (if pointer_eq o i then init else o)
      → pointer_eq q i ≡ false
  not_child o init q e r = ground arith

  exit_close-parent :
      (t : Ptable) (k : ℕ) → i < length t.procs → parent_of (exit_close i t) k ≡ parent_of t k
  unfolding exit_close
  exit_close-parent t k h = ground (
    arith,
    proc_at-set_proc t i k
        (record (proc_at t i) { ofile = no_files ((proc_at t i).ofile); cwd = none }) h,
  )

  exit_close-IsFramed : (t : Ptable) → i < length t.procs → IsFramed t (exit_close i t)
  unfolding exit_close
  exit_close-IsFramed t h =
      let p : Proc = record (proc_at t i) { ofile = no_files ((proc_at t i).ofile); cwd = none } in
      record {
        size = length-set t.procs i p;
        init = refl;
        rows = λ m. ground (arith, proc_at-set_proc t i m p h);
      }

  exit_zombie_lem :
      (j : ℕ) (t : Ptable)
      → i < length t.procs
      → j < length (proc_at t i).threads
      → ((proc_at (exit_zombie i j t) i).state ≡ zombie)
        × ((thread_at (exit_zombie i j t) i j).state ≡ terminated)
        × ((k : ℕ) → parent_of (exit_zombie i j t) k ≡ parent_of t k)
  unfolding exit_zombie
  exit_zombie_lem j t h l =
      let th : Thread = record (thread_at t i j) { state = terminated } in
      let p : Proc = record (proc_at t i) {
        state = zombie;
        threads = set ((proc_at t i).threads) j th;
      } in
      (
        ground (arith, proc_at-set_proc t i i p h),
        ground (arith, proc_at-set_proc t i i p h, thread_of-set (proc_at t i) j j th l),
        λ k. ground (arith, proc_at-set_proc t i k p h),
      )

  -- When the last thread `j` of process `i`, which is not init, exits, the process becomes a zombie
  -- and the thread is terminated; each of its children is handed to init, and every other process
  -- keeps its parent, so that nothing is left behind as a child of the zombie.
  pub exit_finish_lem :
      (j : ℕ) (t : Ptable)
      → length t.procs ≡ nproc
      → i < nproc
      → j < length (proc_at t i).threads
      → pointer_eq t.initproc i ≡ false
      → let t' = exit_finish i j (exit_close i t) in
        ((proc_at t' i).state ≡ zombie)
        × ((thread_at t' i j).state ≡ terminated)
        × ((k : ℕ)
            → k < nproc
            → parent_of t' k ≡ (if pointer_eq (parent_of t k) i then t.initproc else parent_of t k))
        × ((k : ℕ) → k < nproc → pointer_eq (parent_of t' k) i ≡ false)
  unfolding exit_finish
  exit_finish_lem j t s h l e =
      let t1 : Ptable = exit_close i t in
      let t2 : Ptable = wakeup1 (proc_chan ((proc_at t1 i).parent)) t1 in
      let t3 : Ptable = adopt_below i nproc t2 in
      let t4 : Ptable = wakeup1 (of_thread i j) t3 in
      let f1 : IsFramed t t1 = exit_close-IsFramed t (below_of _ s h) in
      let f2 : IsFramed t t2 = IsFramed-trans f1 (wakeup1-IsFramed _ t1) in
      let all2 : nproc ≤ length t2.procs = all_of _ (f2.size ∙ s) in
      let f3 : IsFramed t t3 = IsFramed-trans f2 (adopt_below-IsFramed nproc t2 all2) in
      let f4 : IsFramed t t4 = IsFramed-trans f3 (wakeup1-IsFramed (of_thread i j) t3) in
      let z = exit_zombie_lem j t4 (below_of _ (f4.size ∙ s) h) (below_of _ (f4.rows i) l) in
      let e2 : pointer_eq t2.initproc i ≡ false = rw (f2.init) e in
      let parents : (k : ℕ)
          → k < nproc
          → parent_of (exit_zombie i j t4) k
            ≡ (if pointer_eq (parent_of t k) i then t.initproc else parent_of t k) =
        λ k lt.
          z.2 k
          ∙ wakeup1-parent (of_thread i j) t3 k
          ∙ adopt_below-parent nproc t2 k all2 e2
          ∙ adopted t t2 k lt f2.init (
              wakeup1-parent (proc_chan ((proc_at t1 i).parent)) t1 k
              ∙ exit_close-parent t k (below_of _ s h)) in
      (z.0, z.1, parents, λ k lt. not_child (parent_of t k) t.initproc _ e (parents k lt))
