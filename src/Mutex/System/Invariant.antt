-- ===== src/Mutex/System/Invariant.antt =====
-- mutex.c: every sequence of steps keeps the invariant.
use op_sys.Base.{
  ◌==◌, if◌then◌else◌, get_or-set, total-set, total-map, length, get_or, set, length-set,
  length-map, get_or-map, ℕ, suc, ◌<◌, ◌≡◌, refl, ◌∙◌, ◌≢◌, inl, inr, Bool, true, false, List, map,
  arith,
}
use op_sys.Mutex.{Mutex}
use op_sys.Mutex.System.Moves.{
  Pc, idle, asleep, awake, unlocking, waking, System, pc, wake, Step, lock, retry, unlock, release,
  refuse, wakeup, here, next, IsByHolder, HeldReach,
}
use op_sys.Mutex.System.Agreement.{counts, Agrees, Inv, start-Inv}
use op_sys.Mutex.System.Sections.{
  after-Inv, resume-Fits, call_lock-Fits, release-Fits, not-refused, unlock-Fits,
}

get_or-wake : (ts : List Pc) (i : ℕ) → get_or (map wake ts) i idle ≡ wake (get_or ts i idle)
get_or-wake ts i = get_or-map wake ts i idle

counts-wake : (p : Pc) → counts (wake p) ≡ counts p
counts-wake (asleep true) = refl
counts-wake (asleep false) = refl
counts-wake idle = refl
counts-wake (awake c) = refl
counts-wake unlocking = refl
counts-wake waking = refl

Agrees-wake : (m : Mutex) (k : ℕ) (p : Pc) → Agrees m k p → Agrees m k (wake p)
Agrees-wake m k (asleep true) a = a
Agrees-wake m k (asleep false) a = a
Agrees-wake m k idle a = a
Agrees-wake m k (awake c) a = a
Agrees-wake m k unlocking a = a
Agrees-wake m k waking a = a

wake-not-asleep : (p : Pc) (c : Bool) → wake p ≢ asleep c
wake-not-asleep (asleep d) c = ground arith
wake-not-asleep idle c = ground arith
wake-not-asleep (awake d) c = ground arith
wake-not-asleep unlocking c = ground arith
wake-not-asleep waking c = ground arith

get_or-set-same : (ts : List Pc) (i : ℕ) (p : Pc) → i < length ts → get_or (set ts i p) i idle ≡ p
get_or-set-same ts i p lt = ground (arith, get_or-set ts i i p idle lt)

module _ {n : ℕ} (s : System) (inv : Inv n s) (i : ℕ) (lt : i < n) (e : pc s i ≡ waking) where
  open inv use {size, counted, agrees, woken}

  woken_threads : List Pc
  woken_threads = map wake s.threads

  length-woken_threads : length woken_threads ≡ n
  unfolding woken_threads
  length-woken_threads = length-map wake s.threads ∙ size

  read-woken :
      (j : ℕ) → get_or (set woken_threads i idle) j idle ≡ (if i == j then idle else wake (pc s j))
  unfolding woken_threads
  read-woken j = ground (
    arith,
    get_or-set woken_threads i j idle idle (ground (arith, length-woken_threads)),
    get_or-wake s.threads j,
  )

  pub wakeup-Inv : Inv n (record { mutex = s.mutex; threads = set (map wake s.threads) i idle })
  unfolding woken_threads
  wakeup-Inv = record {
    size = length-set woken_threads i idle ∙ length-woken_threads;
    counted = ground (
      arith,
      counted,
      total-map counts wake s.threads counts-wake,
      get_or-wake s.threads i,
      total-set counts woken_threads i idle idle (ground (arith, length-woken_threads)),
    );
    agrees = λ j. ground (arith, read-woken j, Agrees-wake s.mutex (suc j) (pc s j) (agrees j));
    woken = λ j c h. absurd (ground (arith, read-woken j, wake-not-asleep (pc s j) c));
  }

-- Every step keeps the invariant, if an unlock is begun by the holder.
pub Step-Inv : {n i : ℕ} {s t : System} → i < n → Step s i t → IsByHolder s i t → Inv n s → Inv n t
Step-Inv {i} {s} lt (lock e) h inv = after-Inv s inv i lt _ _ (call_lock-Fits s inv i lt e)
Step-Inv {i} {s} lt (retry c e) h inv = after-Inv s inv i lt _ _ (resume-Fits s inv i lt c e)
Step-Inv {i} {s} lt (unlock e t) h inv =
    let locked : s.mutex.locked ≢ 0 = elim h [
      | inl other ↦
          absurd (other (get_or-set-same s.threads i unlocking (omega (arith, inv.size, lt))))
      | inr l ↦ l
    ] in
    after-Inv s inv i lt s.mutex unlocking (unlock-Fits s inv i lt e (locked, t))
Step-Inv {i} {s} lt (release m e r) h inv = after-Inv s inv i lt _ _ (release-Fits s inv i lt m e r)
Step-Inv {i} {s} lt (refuse e r) h inv = absurd (not-refused s inv i lt e r)
Step-Inv {i} {s} lt (wakeup e) h inv = wakeup-Inv s inv i lt e

pub HeldReach-Inv : {n id : ℕ} {s : System} → HeldReach n id s → Inv n s
HeldReach-Inv {n} {id} here = start-Inv n id
HeldReach-Inv (next i lt r st h) = Step-Inv lt st h (HeldReach-Inv r)
