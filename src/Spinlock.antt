-- ===== src/Spinlock.antt =====
-- spinlock.c: spinlocks, and the interrupts that are off while a CPU holds one.
-- A CPU is what the code uses of `struct cpu` and the interrupt flag of its eflags. The call
-- stack that `getcallerpcs` records for debugging is not modelled.
pub mod Nesting
mod Tests
use op_sys.Base.{◌==◌, if◌then◌else◌, ℕ, ◌+◌, ◌-◌, Bool, true, false, ◌&&◌, Option, none, some}

pub record Cpu : Type 0 where
  pub interrupts : Bool  -- the flag FL_IF
  pub ncli : ℕ
  pub intena : Bool

-- `struct spinlock`: `cpu` is the holder's number
pub record Spinlock : Type 0 where
  pub locked : Bool
  pub cpu : Option ℕ

unfoldable pub pushcli : Cpu → Cpu
pushcli c = record {
  interrupts = false;
  ncli = c.ncli + 1;
  intena = if c.ncli == 0 then c.interrupts else c.intena;
}

-- `none` is a panic, here and below.
unfoldable pub popcli : Cpu → Option Cpu
popcli c =
    if c.interrupts
    then none
    else if c.ncli == 0
    then none
    else some (record c { ncli = c.ncli - 1; interrupts = ((c.ncli - 1) == 0) && c.intena })

abbrev pub is_cpu : Option ℕ → ℕ → Bool
is_cpu none k = false
is_cpu (some i) k = i == k

-- The test of `holding`, and the call on CPU `k`.
abbrev pub held_by : ℕ → Spinlock → Bool
held_by k lk = lk.locked && is_cpu lk.cpu k

unfoldable pub holding : ℕ → Spinlock → Cpu → Option (Cpu × Bool)
holding k lk c = elim (popcli (pushcli c)) [ none ↦ none | some c' ↦ some (c', held_by k lk) ]

pub data AcquireResult : Type 0 where
  acquire_panics : AcquireResult
  spins : Cpu → AcquireResult  -- the lock is held: the xchg is tried again
  acquired : Cpu → Spinlock → AcquireResult

-- The loop of `acquire`: one xchg.
unfoldable pub exchange : ℕ → Spinlock → Cpu → AcquireResult
exchange k lk c = if lk.locked then spins c else acquired c (record { locked = true; cpu = some k })

unfoldable pub acquire : ℕ → Spinlock → Cpu → AcquireResult
acquire k lk c = elim (holding k lk (pushcli c)) [
  | none ↦ acquire_panics
  | some (c', true) ↦ acquire_panics
  | some (c', false) ↦ exchange k lk c'
]

unfoldable pub release : ℕ → Spinlock → Cpu → Option (Cpu × Spinlock)
release k lk c = elim (holding k lk c) [
  | none ↦ none
  | some (c', false) ↦ none
  | some (c', true) ↦ elim (popcli c') [
    | none ↦ none
    | some c'' ↦ some (c'', record { locked = false; cpu = none })
  ]
]
