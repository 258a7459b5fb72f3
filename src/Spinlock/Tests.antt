-- ===== src/Spinlock/Tests.antt =====
-- Tests of the spinlocks, and their theorem at a concrete CPU.
use op_sys.Base.{◌≡◌, refl, true, false, none, some, arith}
use op_sys.Spinlock.{
  Cpu, Spinlock, pushcli, popcli, holding, acquire_panics, spins, acquired, exchange, acquire,
  release,
}
use op_sys.Spinlock.Nesting.{Nested, none_left, nest, IsSame, release-acquire}

-- A CPU with interrupts on, inside one pushcli, and inside two.
abbrev ready : Cpu
ready = record { interrupts = true; ncli = 0; intena = false }

abbrev inside : Cpu
inside = record { interrupts = false; ncli = 1; intena = true }

abbrev ready_again : Cpu
ready_again = record { interrupts = true; ncli = 0; intena = true }

abbrev deeper : Cpu
deeper = record { interrupts = false; ncli = 2; intena = true }

abbrev free_lock : Spinlock
free_lock = record { locked = false; cpu = none }

abbrev held_lock : Spinlock
held_lock = record { locked = true; cpu = some 3 }

runs :
    (acquire 3 held_lock ready ≡ acquire_panics)
    × (acquire 2 held_lock ready ≡ spins inside)
    × (release 3 held_lock inside ≡ some (ready_again, free_lock))
    × (release 2 held_lock inside ≡ none)
    × (popcli ready ≡ none)
unfolding acquire holding pushcli popcli exchange release
runs = (refl, refl, refl, refl, refl)

got_lock : acquire 3 free_lock ready ≡ acquired inside held_lock
unfolding acquire holding pushcli popcli exchange
got_lock = refl

one_more : Nested inside inside
unfolding pushcli popcli
one_more = nest {d = deeper} none_left refl none_left

release-acquire_example :
    (free_lock.locked ≡ false)
    × (inside.interrupts ≡ false)
    × ((d : Cpu) × (release 3 held_lock inside ≡ some (d, free_lock)) × IsSame ready d)
release-acquire_example =
    release-acquire 3 free_lock held_lock ready inside inside (λ h. absurd (omega arith)) got_lock
      one_more
