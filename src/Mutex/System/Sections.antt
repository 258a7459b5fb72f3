-- ===== src/Mutex/System/Sections.antt =====
-- mutex.c: a section of one thread keeps the invariant.
use op_sys.Base.{
  ◌==◌, if◌then◌else◌, get_or-set, total, total-set, le-total, get_or, set, length-set, ℤ, pos,
  increment, decrement, ℕ, suc, ◌+◌, ◌-◌, ◌≤◌, ◌<◌, ◌≡◌, refl, ◌∙◌, ◌≢◌, ◌⊎◌, inl, inr, Bool, true,
  false, none, some, arith,
}
use op_sys.Mutex.{Mutex, unlock_release}
use op_sys.Mutex.System.Moves.{
  Pc, idle, asleep, awake, unlocking, waking, System, pc, resume, call_lock, after, resume_cases,
  call_lock_cases,
}
use op_sys.Mutex.System.Agreement.{counts, Holds, Agrees, Inv}

module _ {n : ℕ} (s : System) (inv : Inv n s) (i : ℕ) (lt : i < n) where
  open inv use {size, counted, agrees, woken}

  read : (p : Pc) (j : ℕ) → get_or (set s.threads i p) j idle ≡ (if i == j then p else pc s j)
  read p j = get_or-set s.threads i j p idle (ground (arith, size))

  count :
      (p : Pc)
      → total counts (set s.threads i p) + counts (pc s i) ≡ total counts s.threads + counts p
  count p = total-set counts s.threads i p idle (ground (arith, size))

  -- A section of thread `i` that ends in `(m, p)` keeps the invariant if the wait count follows the
  -- thread's own place, and no other thread's place is contradicted.
  pub record Fits (m : Mutex) (p : Pc) : Type 0 where
    pub waiting :
        (k : ℕ) × (m.waiting_threads ≡ pos k)
        × (k + counts (pc s i) ≡ total counts s.threads + counts p)
    pub own : Agrees m (suc i) p
    pub others : (j : ℕ) → i ≢ j → Agrees m (suc j) (pc s j)
    pub wakes :
        (m.locked ≢ 0)
        ⊎ (p ≡ waking)
        ⊎ ((m.locked ≡ s.mutex.locked) × (pc s i ≢ waking) × ((c : Bool) → p ≢ asleep c))

  after-woken :
      (m : Mutex) (p : Pc)
      → Fits m p
      → (j : ℕ) (c : Bool) → get_or (set s.threads i p) j idle ≡ asleep c
      → (m.locked ≢ 0) ⊎ ((j : ℕ) × (get_or (set s.threads i p) j idle ≡ waking))
  after-woken m p f j c h = elim f.wakes [
    | inl l ↦ inl l
    | inr (inl w) ↦ inr (i, ground (arith, read p i))
    | inr (inr (same, nw, na)) ↦ elim (woken j c (ground (arith, read p j, na c))) [
      | inl l ↦ inl (ground arith)
      | inr (k, e) ↦ inr (k, ground (arith, read p k))
    ]
  ]

  pub after-Inv : (m : Mutex) (p : Pc) → Fits m p → Inv n (after s i (m, p))
  after-Inv m p f = record {
    size = length-set s.threads i _ ∙ size;
    counted = ground (arith, count p, f.waiting);
    agrees = λ j. ground (arith, read p j, f.own, f.others j);
    woken = after-woken m p f;
  }

  abbrev taken : ℤ → Mutex
  taken w = record s.mutex { locked = 1; tid = suc i; waiting_threads = w }

  here-Agrees : (p : Pc) → pc s i ≡ p → Agrees s.mutex (suc i) p
  here-Agrees p e = rw e at (agrees i)

  counts-le : counts (pc s i) ≤ total counts s.threads
  counts-le = le-total counts s.threads i idle (ground (arith, size))

  -- While the mutex is free no thread waits as its holder, so the tid may change to the mover's.
  taken-others :
      s.mutex.locked ≡ 0
      → (m : Mutex) → m.tid ≡ suc i
      → (j : ℕ) → i ≢ j
      → (p : Pc) → Agrees s.mutex (suc j) p
      → Agrees m (suc j) p
  taken-others l m t j ne (asleep true) a = omega arith
  taken-others l m t j ne (awake true) a = omega arith
  taken-others l m t j ne (asleep false) a = absurd (a.0 l)
  taken-others l m t j ne (awake false) a = absurd (a.0 l)
  taken-others l m t j ne unlocking a = absurd (a.0 l)
  taken-others l m t j ne idle a = tt
  taken-others l m t j ne waking a = tt

  -- A section that changes only the wait count contradicts nobody.
  kept-others :
      (m : Mutex)
      → m.tid ≡ s.mutex.tid
      → m.locked ≡ s.mutex.locked
      → (k : ℕ) (p : Pc) → Agrees s.mutex k p
      → Agrees m k p
  kept-others m t l k (asleep true) a = ground arith
  kept-others m t l k (awake true) a = ground arith
  kept-others m t l k (asleep false) a = ground arith
  kept-others m t l k (awake false) a = ground arith
  kept-others m t l k unlocking a = ground arith
  kept-others m t l k idle a = tt
  kept-others m t l k waking a = tt

  pub resume-Fits :
      (c : Bool) → pc s i ≡ awake c → Fits (resume (suc i) s.mutex c).0 (resume (suc i) s.mutex c).1
  resume-Fits true e = elim (resume_cases (suc i) s.mutex true) [
    | inl (l, r) ↦ rw r (record {
      waiting = (total counts s.threads, counted, ground arith);
      own = here-Agrees (awake true) e;
      others = λ j ne. agrees j;
      wakes = inl l;
    })
    | inr (inl (l, t, r)) ↦ absurd (here-Agrees (awake true) e t)
    | inr (inr (l, t, r)) ↦ rw r (record {
      waiting = (
        total counts s.threads - 1,
        ground (arith, counted, counts-le),
        ground (arith, counts-le),
      );
      own = tt;
      others = λ j ne.
          taken-others l (taken (decrement s.mutex.waiting_threads)) refl j ne (pc s j) (agrees j);
      wakes = inl (omega arith);
    })
  ]
  resume-Fits false e = elim (resume_cases (suc i) s.mutex false) [
    | inl (l, r) ↦ rw r (record {
      waiting = (total counts s.threads, counted, ground arith);
      own = here-Agrees (awake false) e;
      others = λ j ne. agrees j;
      wakes = inl l;
    })
    | inr (inl (l, t, r)) ↦ absurd ((here-Agrees (awake false) e).0 l)
    | inr (inr (l, t, r)) ↦ absurd ((here-Agrees (awake false) e).0 l)
  ]

  pub call_lock-Fits :
      pc s i ≡ idle → Fits (call_lock (suc i) s.mutex).0 (call_lock (suc i) s.mutex).1
  call_lock-Fits e = elim (call_lock_cases (suc i) s.mutex) [
    | inl (l, t, r) ↦ rw r (record {
      waiting = (total counts s.threads, counted, ground arith);
      own = (l, t);
      others = λ j ne. agrees j;
      wakes = inl l;
    })
    | inr (inl (l, t, r)) ↦ rw r (record {
      waiting = (suc (total counts s.threads), ground (arith, counted), ground arith);
      own = t;
      others = λ j ne.
          kept-others (record s.mutex { waiting_threads = increment s.mutex.waiting_threads }) refl
            refl (suc j) (pc s j) (agrees j);
      wakes = inl l;
    })
    | inr (inr (inl (l, t, r))) ↦ rw r (record {
      waiting = (total counts s.threads, counted, ground arith);
      own = tt;
      others = λ j ne. taken-others l (taken s.mutex.waiting_threads) refl j ne (pc s j) (agrees j);
      wakes = inl (omega arith);
    })
    | inr (inr (inr (l, t, r))) ↦ rw r (record {
      waiting = (total counts s.threads, counted, ground arith);
      own = tt;
      others = λ j ne. agrees j;
      wakes = inr (inr (refl, ground arith, λ c. ground arith));
    })
  ]

  -- The holder's release: no other thread stands where it claims to be the holder.
  freed-others :
      Holds s.mutex (suc i)
      → (m : Mutex) → m.tid ≡ s.mutex.tid
      → (j : ℕ) → i ≢ j
      → (p : Pc) → Agrees s.mutex (suc j) p
      → Agrees m (suc j) p
  freed-others h m t j ne (asleep true) a = ground arith
  freed-others h m t j ne (awake true) a = ground arith
  freed-others h m t j ne (asleep false) a = absurd (omega (arith, h.1, a.1))
  freed-others h m t j ne (awake false) a = absurd (omega (arith, h.1, a.1))
  freed-others h m t j ne unlocking a = absurd (omega (arith, h.1, a.1))
  freed-others h m t j ne idle a = tt
  freed-others h m t j ne waking a = tt

  pub release-Fits :
      (m : Mutex) → pc s i ≡ unlocking → unlock_release s.mutex ≡ some m → Fits m waking
  unfolding unlock_release
  release-Fits m e r = record {
    waiting = (total counts s.threads, ground (arith, counted), ground arith);
    own = tt;
    others =
        λ j ne. freed-others (here-Agrees unlocking e) m (ground arith) j ne (pc s j) (agrees j);
    wakes = inr (inl refl);
  }

  pub not-refused : pc s i ≡ unlocking → unlock_release s.mutex ≢ none
  unfolding unlock_release
  not-refused e r = absurd ((here-Agrees unlocking e).0 (ground arith))

  pub unlock-Fits : pc s i ≡ idle → Holds s.mutex (suc i) → Fits s.mutex unlocking
  unlock-Fits e h = record {
    waiting = (total counts s.threads, counted, ground arith);
    own = h;
    others = λ j ne. agrees j;
    wakes = inl h.0;
  }
