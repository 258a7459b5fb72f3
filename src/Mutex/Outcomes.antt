-- ===== src/Mutex/Outcomes.antt =====
-- mutex.c: what `kthread_mutex_alloc` and `kthread_mutex_dealloc` return and change, and which slot a
-- lock call goes on with.
use op_sys.Base.{
  ltb, Bool-cases, get_or, set, get_or-set_self, get_or-set_ne, get_or_out, ℕ, zero, suc, ◌≤◌, ◌<◌,
  ◌≡◌, refl, ap, ◌∙◌, ◌≢◌, ◌⊎◌, inl, inr, true, false, Option, none, some, List, [], ◌∷◌, arith,
}
use op_sys.Mutex.{
  max_mutexes, Mutex, MutexTable, cleared, allocated, cell, first_unused, find, kthread_mutex_alloc,
  dealloc_found, kthread_mutex_dealloc, lock_lookup,
}
use op_sys.Mutex.Table.{
  IsWellFormed, first_unused_lem, first_unused_before, find-le, find-id, find-eq_of_used,
  write-IsWellFormed,
}

-- What an allocation may do: fail on a full table, or take the lowest unused slot.
abbrev pub AllocOutcome : MutexTable → MutexTable × Option ℕ → Type 0
AllocOutcome t (t', r) =
    ((r ≡ none) × (t' ≡ t) × ((i : ℕ) → i < max_mutexes → (cell t i).used ≢ 0))
    ⊎ ((i : ℕ) × (r ≡ some i)
        × (i < max_mutexes)
        × ((cell t i).used ≡ 0)
        × ((j : ℕ) → j < i → (cell t j).used ≢ 0)
        × (cell t' i ≡ allocated i)
        × ((j : ℕ) → i ≢ j → cell t' j ≡ cell t j))

-- `kthread_mutex_alloc` on a well-formed table either fails, on a table with no unused slot, and
-- changes nothing, or returns the lowest unused slot, which it resets, and changes no other.
pub alloc_lem : (t : MutexTable) → IsWellFormed t → AllocOutcome t (kthread_mutex_alloc t)
unfolding kthread_mutex_alloc
alloc_lem t w = elim (Bool-cases (ltb (first_unused t.mutexes) max_mutexes)) [
  | inl e ↦ rw e (
      inr (
        first_unused t.mutexes,
        refl,
        ground arith,
        ground (arith, w.size, first_unused_lem t.mutexes t.beyond),
        first_unused_before t.mutexes t.beyond,
        get_or-set_self t.mutexes _ _ t.beyond (ground (arith, w.size)),
        λ j ne. get_or-set_ne t.mutexes _ j _ t.beyond ne,
      ))
  | inr e ↦ rw e (inl (refl, refl, λ i h. first_unused_before t.mutexes t.beyond i (ground arith)))
]

abbrev pub MayDealloc : MutexTable → ℕ → Type 0
MayDealloc t id = (id < max_mutexes) × ((cell t id).used ≢ 0) × ((cell t id).locked ≢ 1)

abbrev pub MayNotDealloc : MutexTable → ℕ → Type 0
MayNotDealloc t id = (max_mutexes ≤ id) ⊎ ((cell t id).used ≡ 0) ⊎ ((cell t id).locked ≡ 1)

dealloc_ok :
    (t : MutexTable) (id : ℕ)
    → IsWellFormed t
    → MayDealloc t id
    → kthread_mutex_dealloc id t ≡ (record t { mutexes = set t.mutexes id cleared }, true)
unfolding kthread_mutex_dealloc dealloc_found
dealloc_ok t id w (h, u, l) = rw (find-eq_of_used t id w h u) (ground arith)

dealloc_fails :
    (t : MutexTable) (id : ℕ)
    → IsWellFormed t
    → MayNotDealloc t id
    → kthread_mutex_dealloc id t ≡ (t, false)
unfolding kthread_mutex_dealloc dealloc_found
dealloc_fails t id w h =
    ground (arith, w.size, w.slots (find id t.mutexes), find-id id t.mutexes t.beyond)

-- On a well-formed table `kthread_mutex_dealloc id` clears slot `id` and succeeds if that is a slot
-- in use and not locked; in every other case it fails and changes nothing.
pub dealloc_lem :
    (t : MutexTable) (id : ℕ)
    → IsWellFormed t
    → (MayDealloc t id
        → kthread_mutex_dealloc id t ≡ (record t { mutexes = set t.mutexes id cleared }, true))
      × (MayNotDealloc t id → kthread_mutex_dealloc id t ≡ (t, false))
dealloc_lem t id w = (dealloc_ok t id w, dealloc_fails t id w)

-- On a well-formed table, if the memory beyond it does not carry the id, a lock call goes on with
-- slot `id` when that is a slot in use, and fails when it is not.
pub lock_lookup_lem :
    (t : MutexTable) (id : ℕ)
    → IsWellFormed t
    → t.beyond.id ≢ id
    → ((id < max_mutexes) × ((cell t id).used ≢ 0) → lock_lookup id t ≡ some id)
      × ((max_mutexes ≤ id) ⊎ ((cell t id).used ≡ 0) → lock_lookup id t ≡ none)
unfolding lock_lookup
lock_lookup_lem t id w nb = (
  λ (h, u). rw (find-eq_of_used t id w h u) (ground (arith, w.slots id h)),
  λ h. ground (
    arith,
    w.size,
    w.slots (find id t.mutexes),
    find-id id t.mutexes t.beyond,
    find-le id t.mutexes,
    get_or_out t.mutexes (find id t.mutexes) t.beyond,
  ),
)

set-set : (ms : List Mutex) (i : ℕ) (a b : Mutex) → set (set ms i a) i b ≡ set ms i b
set-set [] i a b = refl
set-set (m ∷ ms) zero a b = refl
set-set (m ∷ ms) (suc i) a b = ap (◌∷◌ m) (set-set ms i a b)

dealloc-allocated :
    (t : MutexTable) (i : ℕ)
    → IsWellFormed t
    → i < max_mutexes
    → kthread_mutex_dealloc i (record t { mutexes = set t.mutexes i (allocated i) })
      ≡ (record t { mutexes = set t.mutexes i cleared }, true)
dealloc-allocated t i w h =
    let here : get_or (set t.mutexes i (allocated i)) i t.beyond ≡ allocated i =
      get_or-set_self t.mutexes i (allocated i) t.beyond (ground (arith, w.size)) in
    dealloc_ok _ i (write-IsWellFormed t i (allocated i) w h (inl (ground arith, refl)))
      (h, rw here (ground arith), rw here (ground arith))
    ∙ rw (set-set t.mutexes i (allocated i) cleared)

-- A mutex that was just allocated in a well-formed table can be deallocated, which clears its slot
-- and nothing else.
pub dealloc-alloc :
    (t : MutexTable) (i : ℕ)
    → IsWellFormed t
    → (kthread_mutex_alloc t).1 ≡ some i
    → kthread_mutex_dealloc i (kthread_mutex_alloc t).0
      ≡ (record t { mutexes = set t.mutexes i cleared }, true)
unfolding kthread_mutex_alloc
dealloc-alloc t i w e = elim (Bool-cases (ltb (first_unused t.mutexes) max_mutexes)) [
  | inl h ↦ ground (arith, h, dealloc-allocated t i w)
  | inr h ↦ ground (arith, h)
]
