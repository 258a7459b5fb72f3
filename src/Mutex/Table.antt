-- ===== src/Mutex/Table.antt =====
-- mutex.c: which slots and ids `kthread_mutex_alloc` and `kthread_mutex_dealloc` hand out.
use op_sys.Base.{
  ltb, ◌==◌, Bool-cases, get_or-set, length, get_or, set, replicate, length-set, length-replicate,
  ℕ, zero, suc, ◌≤◌, ◌<◌, ◌≡◌, refl, ◌∙◌, ◌≢◌, ◌↔◌, ◌⊎◌, inl, inr, List, [], ◌∷◌, arith,
}
use op_sys.Mutex.{
  max_mutexes, Mutex, MutexTable, cleared, cell, first_unused, find, kthread_mutex_alloc,
  dealloc_found, kthread_mutex_dealloc, boot,
}

-- A used slot carries its own number, an unused one the id 0.
abbrev pub HasId : ℕ → Mutex → Type 0
HasId i m = ((m.used ≢ 0) × (m.id ≡ i)) ⊎ ((m.used ≡ 0) × (m.id ≡ 0))

pub record IsWellFormed (t : MutexTable) : Type 0 where
  pub size : length t.mutexes ≡ max_mutexes
  pub slots : (i : ℕ) → i < max_mutexes → HasId i (cell t i)

get_or-replicate : (n i : ℕ) (m d : Mutex) → i < n → get_or (replicate n m) i d ≡ m
get_or-replicate zero i m d h = absurd (omega arith)
get_or-replicate (suc n) zero m d h = refl
get_or-replicate (suc n) (suc i) m d h = get_or-replicate n i m d (omega arith)

pub boot-IsWellFormed : (b : Mutex) → IsWellFormed (boot b)
boot-IsWellFormed b = record {
  size = length-replicate max_mutexes cleared;
  slots = λ i h. ground (arith, get_or-replicate max_mutexes i cleared b h);
}

first_unused-le : (ms : List Mutex) → first_unused ms ≤ length ms
unfolding first_unused
first_unused-le [] = omega arith
first_unused-le (m ∷ ms) = ground (arith, first_unused-le ms)

-- The slot at which the loop of `alloc` stops is unused, and all before it are used.
pub first_unused_lem :
    (ms : List Mutex) (d : Mutex)
    → first_unused ms < length ms
    → (get_or ms (first_unused ms) d).used ≡ 0
unfolding first_unused
first_unused_lem [] d h = absurd (omega arith)
first_unused_lem (m ∷ ms) d h = elim (Bool-cases (m.used == 0)) [
  | inl e ↦ ground arith
  | inr e ↦ rw (e) (first_unused_lem ms d (ground arith))
]

pub first_unused_before :
    (ms : List Mutex) (d : Mutex) (i : ℕ) → i < first_unused ms → (get_or ms i d).used ≢ 0
unfolding first_unused
first_unused_before [] d i h = absurd (omega arith)
first_unused_before (m ∷ ms) d zero h = ground arith
first_unused_before (m ∷ ms) d (suc i) h = elim (Bool-cases (m.used == 0)) [
  | inl e ↦ absurd (ground arith)
  | inr e ↦ first_unused_before ms d i (ground arith)
]

pub find-le : (id : ℕ) (ms : List Mutex) → find id ms ≤ length ms
unfolding find
find-le id [] = omega arith
find-le id (m ∷ ms) = ground (arith, find-le id ms)

pub find-id :
    (id : ℕ) (ms : List Mutex) (d : Mutex)
    → find id ms < length ms
    → (get_or ms (find id ms) d).id ≡ id
unfolding find
find-id id [] d h = absurd (omega arith)
find-id id (m ∷ ms) d h = elim (Bool-cases (m.id == id)) [
  | inl e ↦ ground arith
  | inr e ↦ rw (e) (find-id id ms d (ground arith))
]

-- The search stops no later than at a slot with the id.
pub find-le_of_id :
    (id : ℕ) (ms : List Mutex) (d : Mutex) (i : ℕ)
    → i < length ms
    → (get_or ms i d).id ≡ id
    → find id ms ≤ i
unfolding find
find-le_of_id id [] d i h e = absurd (omega arith)
find-le_of_id id (m ∷ ms) d zero h e = ground arith
find-le_of_id id (m ∷ ms) d (suc i) h e = ground (arith, find-le_of_id id ms d i (omega arith) e)

-- Every slot that a search reaches has a good id, so the search for `id` stops at slot `id` if that
-- slot is used, and past the table if it is not (but for the id 0, whose slot is always the first).
pub find-eq_of_used :
    (t : MutexTable) (id : ℕ)
    → IsWellFormed t
    → id < max_mutexes
    → (cell t id).used ≢ 0
    → find id t.mutexes ≡ id
find-eq_of_used t id w h u = ground (
  arith,
  w.size,
  w.slots id h,
  w.slots (find id t.mutexes),
  find-le_of_id id t.mutexes t.beyond id,
  find-id id t.mutexes t.beyond,
)

pub find-eq_iff :
    (t : MutexTable) (id : ℕ)
    → IsWellFormed t
    → id ≢ 0
    → (find id t.mutexes < max_mutexes) ↔ ((id < max_mutexes) × ((cell t id).used ≢ 0))
find-eq_iff t id w nz = (
  λ h. ground (arith, w.size, w.slots (find id t.mutexes) h, find-id id t.mutexes t.beyond),
  λ h. ground (arith, find-eq_of_used t id w h.0 h.1),
)

pub write-IsWellFormed :
    (t : MutexTable) (i : ℕ) (m : Mutex)
    → IsWellFormed t
    → i < max_mutexes
    → HasId i m
    → IsWellFormed (record t { mutexes = set t.mutexes i m })
write-IsWellFormed t i m w h g = record {
  size = length-set t.mutexes i m ∙ w.size;
  slots = λ j lt. elim (Bool-cases (i == j)) [
    | inl e ↦ ground (arith, w.size, get_or-set t.mutexes i j m t.beyond)
    | inr e ↦ ground (arith, w.size, w.slots j lt, get_or-set t.mutexes i j m t.beyond)
  ];
}

alloc-IsWellFormed : (t : MutexTable) → IsWellFormed t → IsWellFormed (kthread_mutex_alloc t).0
unfolding kthread_mutex_alloc
alloc-IsWellFormed t w = elim (Bool-cases (ltb (first_unused t.mutexes) max_mutexes)) [
  | inl e ↦ rw e (write-IsWellFormed t _ _ w (ground arith) (inl (ground arith, refl)))
  | inr e ↦ rw e w
]

dealloc_found-IsWellFormed :
    (t : MutexTable) (i : ℕ) (m : Mutex)
    → IsWellFormed t
    → i < max_mutexes
    → IsWellFormed (dealloc_found t i m).0
unfolding dealloc_found
dealloc_found-IsWellFormed t i m w h =
    let freed : IsWellFormed (record t { mutexes = set t.mutexes i cleared }) =
      write-IsWellFormed t i cleared w h (inr (refl, refl)) in
    elim (Bool-cases (m.locked == 1)) [
      | inl e ↦ rw e w
      | inr e ↦ rw e (elim (Bool-cases (m.used == 0)) [ inl u ↦ rw u w | inr u ↦ rw u freed ])
    ]

dealloc-IsWellFormed :
    (t : MutexTable) (id : ℕ) → IsWellFormed t → IsWellFormed (kthread_mutex_dealloc id t).0
unfolding kthread_mutex_dealloc
dealloc-IsWellFormed t id w = elim (Bool-cases (ltb (find id t.mutexes) max_mutexes)) [
  | inl e ↦ rw e (dealloc_found-IsWellFormed t _ _ w (ground arith))
  | inr e ↦ rw e w
]

-- `kthread_mutex_alloc` and `kthread_mutex_dealloc` keep a well-formed table well formed: a slot in
-- use has its own number as its id. This holds whatever id the caller passes and whether the calls
-- fail or not.
pub calls-IsWellFormed :
    (t : MutexTable) (id : ℕ)
    → IsWellFormed t
    → IsWellFormed (kthread_mutex_alloc t).0 × IsWellFormed (kthread_mutex_dealloc id t).0
calls-IsWellFormed t id w = (alloc-IsWellFormed t w, dealloc-IsWellFormed t id w)
