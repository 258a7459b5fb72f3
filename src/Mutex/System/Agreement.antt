-- ===== src/Mutex/System/Agreement.antt =====
-- mutex.c: the invariant of the mutex and its threads.
use op_sys.Base.{
  total, total-replicate, length, get_or, replicate, length-replicate, pos, ℕ, zero, suc, ◌≡◌, refl,
  sym, ap, ◌≢◌, ◌⊎◌, Bool, true, false, arith,
}
use op_sys.Mutex.{Mutex}
use op_sys.Mutex.System.Moves.{Pc, idle, asleep, awake, unlocking, waking, System, pc, start}

abbrev pub counts : Pc → ℕ
counts (asleep true) = 1
counts (awake true) = 1
counts (asleep false) = 0
counts (awake false) = 0
counts idle = 0
counts unlocking = 0
counts waking = 0

abbrev pub Holds : Mutex → ℕ → Type 0
Holds m cur = (m.locked ≢ 0) × (m.tid ≡ cur)

-- What the place of the thread with tid `cur` says about the mutex.
abbrev pub Agrees : Mutex → ℕ → Pc → Type 0
Agrees m cur (asleep true) = m.tid ≢ cur
Agrees m cur (awake true) = m.tid ≢ cur
Agrees m cur (asleep false) = Holds m cur
Agrees m cur (awake false) = Holds m cur
Agrees m cur unlocking = Holds m cur
Agrees m cur idle = Unit
Agrees m cur waking = Unit

pub record Inv (n : ℕ) (s : System) : Type 0 where
  pub size : length s.threads ≡ n
  pub counted : s.mutex.waiting_threads ≡ pos (total counts s.threads)
  pub agrees : (i : ℕ) → Agrees s.mutex (suc i) (pc s i)
  pub woken :
      (i : ℕ) (c : Bool) → pc s i ≡ asleep c → (s.mutex.locked ≢ 0) ⊎ ((j : ℕ) × (pc s j ≡ waking))

get_or-idle : (n i : ℕ) → get_or (replicate n idle) i idle ≡ idle
get_or-idle zero i = refl
get_or-idle (suc n) zero = refl
get_or-idle (suc n) (suc i) = get_or-idle n i

pub start-Inv : (n id : ℕ) → Inv n (start n id)
start-Inv n id = record {
  size = length-replicate n idle;
  counted = ap pos (sym (total-replicate counts n idle refl));
  agrees = λ i. ground (arith, get_or-idle n i);
  woken = λ i c e. ground (arith, get_or-idle n i);
}
