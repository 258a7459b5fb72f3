-- ===== src/Mutex/System/Wakeups.antt =====
-- mutex.c: that a thread sleeps only while the mutex is locked or a wakeup is to come, in every run.
use op_sys.Base.{
  ◌==◌, if◌then◌else◌, Bool-cases, get_or-set, length, get_or, set, length-set, length-replicate,
  length-map, get_or-map, get_or-replicate, is_zero, ℕ, suc, ◌<◌, ◌≡◌, refl, ◌∙◌, ◌≢◌, ◌⊎◌, inl,
  inr, Bool, map, arith,
}
use op_sys.Mutex.{Mutex, lock_take}
use op_sys.Mutex.System.Moves.{
  Pc, idle, asleep, awake, unlocking, waking, System, pc, resume, call_lock, wake, after, Step,
  lock, retry, unlock, release, refuse, wakeup, start, Reach, here, next, resume_cases,
  call_lock_cases,
}

pub record Wakened (n : ℕ) (s : System) : Type 0 where
  pub size : length s.threads ≡ n
  pub woken :
      (i : ℕ) (c : Bool) → pc s i ≡ asleep c → (s.mutex.locked ≢ 0) ⊎ ((j : ℕ) × (pc s j ≡ waking))

-- A section of thread `i` that ends in `(m, p)` leaves the mutex locked, goes on to the wakeup, or frees
-- nothing, ends no wakeup and does not sleep.
abbrev pub IsWaking : System → ℕ → Mutex → Pc → Type 0
IsWaking s i m p =
    (m.locked ≢ 0)
    ⊎ (p ≡ waking)
    ⊎ ((m.locked ≡ s.mutex.locked) × (pc s i ≢ waking) × ((c : Bool) → p ≢ asleep c))

module _ {n : ℕ} (s : System) (w : Wakened n s) (i : ℕ) (lt : i < n) where
  open w use {size, woken}

  read : (p : Pc) (j : ℕ) → get_or (set s.threads i p) j idle ≡ (if i == j then p else pc s j)
  read p j = get_or-set s.threads i j p idle (ground (arith, size))

  pub after-Wakened : (m : Mutex) (p : Pc) → IsWaking s i m p → Wakened n (after s i (m, p))
  after-Wakened m p f = record {
    size = length-set s.threads i p ∙ size;
    woken = λ j c h. elim f [
      | inl l ↦ inl l
      | inr (inl k) ↦ inr (i, ground (arith, read p i))
      | inr (inr (same, nw, na)) ↦ elim (woken j c (ground (arith, read p j, na c))) [
        | inl l ↦ inl (ground arith)
        | inr (k, e) ↦ inr (k, ground (arith, read p k))
      ]
    ];
  }

  wake-not-asleep : (p : Pc) (c : Bool) → wake p ≢ asleep c
  wake-not-asleep (asleep d) c = ground arith
  wake-not-asleep idle c = ground arith
  wake-not-asleep (awake d) c = ground arith
  wake-not-asleep unlocking c = ground arith
  wake-not-asleep waking c = ground arith

  read-woken :
      (j : ℕ)
      → get_or (set (map wake s.threads) i idle) j idle ≡ (if i == j then idle else wake (pc s j))
  read-woken j = ground (
    arith,
    get_or-set (map wake s.threads) i j idle idle (ground (arith, length-map wake s.threads, size)),
    get_or-map wake s.threads j idle,
  )

  -- After the wakeup nobody sleeps.
  pub wakeup-Wakened :
      Wakened n (record { mutex = s.mutex; threads = set (map wake s.threads) i idle })
  wakeup-Wakened = record {
    size = length-set (map wake s.threads) i idle ∙ length-map wake s.threads ∙ size;
    woken = λ j c h. absurd (ground (arith, read-woken j, wake-not-asleep (pc s j) c));
  }

  resume-IsWaking :
      (c : Bool)
      → pc s i ≡ awake c
      → IsWaking s i (resume (suc i) s.mutex c).0 (resume (suc i) s.mutex c).1
  unfolding lock_take
  resume-IsWaking c e = elim (resume_cases (suc i) s.mutex c) [
    | inl (l, r) ↦ rw r (inl l)
    | inr (inl (l, t, r)) ↦ elim (Bool-cases (is_zero s.mutex.waiting_threads)) [
      | inl z ↦ rw r (inl (ground arith))
      | inr z ↦ rw r (inr (inr (ground arith, ground (arith, e), λ d. ground arith)))
    ]
    | inr (inr (l, t, r)) ↦ rw r (inl (omega arith))
  ]

  call_lock-IsWaking :
      pc s i ≡ idle → IsWaking s i (call_lock (suc i) s.mutex).0 (call_lock (suc i) s.mutex).1
  call_lock-IsWaking e = elim (call_lock_cases (suc i) s.mutex) [
    | inl (l, t, r) ↦ rw r (inl l)
    | inr (inl (l, t, r)) ↦ rw r (inl l)
    | inr (inr (inl (l, t, r))) ↦ rw r (inl (omega arith))
    | inr (inr (inr (l, t, r))) ↦ rw r (inr (inr (refl, ground (arith, e), λ c. ground arith)))
  ]

pub Step-Wakened : {n i : ℕ} {s t : System} → i < n → Step s i t → Wakened n s → Wakened n t
Step-Wakened {i} {s} lt (lock e) w = after-Wakened s w i lt _ _ (call_lock-IsWaking s w i lt e)
Step-Wakened {i} {s} lt (retry c e) w = after-Wakened s w i lt _ _ (resume-IsWaking s w i lt c e)
Step-Wakened {i} {s} lt (unlock e t) w =
    after-Wakened s w i lt s.mutex unlocking
      (inr (inr (refl, ground (arith, e), λ c. ground arith)))
Step-Wakened {i} {s} lt (release m e r) w = after-Wakened s w i lt m waking (inr (inl refl))
Step-Wakened {i} {s} lt (refuse e r) w =
    after-Wakened s w i lt s.mutex idle (inr (inr (refl, ground (arith, e), λ c. ground arith)))
Step-Wakened {i} {s} lt (wakeup e) w = wakeup-Wakened s w i lt

start-Wakened : (n id : ℕ) → Wakened n (start n id)
start-Wakened n id = record {
  size = length-replicate n idle;
  woken = λ i c h. absurd (ground (arith, get_or-replicate n i idle));
}

pub Reach-Wakened : {n id : ℕ} {s : System} → Reach n id s → Wakened n s
Reach-Wakened {n} {id} here = start-Wakened n id
Reach-Wakened (next i lt r st) = Step-Wakened lt st (Reach-Wakened r)
