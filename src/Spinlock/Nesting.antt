-- ===== src/Spinlock/Nesting.antt =====
-- spinlock.c: balanced calls of pushcli and popcli, and what a critical section leaves.
use op_sys.Base.{
  ◌==◌, ==_self, ℕ, ◌+◌, ◌-◌, ◌<◌, ◌≡◌, refl, sym, subst, ◌∙◌, true, false, ◌&&◌, none, some, arith,
  ℕ_discrete,
}
use op_sys.Spinlock.{
  Cpu, Spinlock, pushcli, popcli, held_by, holding, acquired, exchange, acquire, release,
}

-- A run of one CPU in which each pushcli has its popcli.
pub data Nested : Cpu → Cpu → Type 0 where
  none_left : {c : Cpu} → Nested c c
  nest : {c d e f : Cpu} → Nested (pushcli c) d → popcli d ≡ some e → Nested e f → Nested c f

-- Interrupts are off while the count is above 0.
abbrev pub IsOff : Cpu → Type 0
IsOff c = 0 < c.ncli → c.interrupts ≡ false

abbrev pub IsSame : Cpu → Cpu → Type 0
IsSame c d = (d.ncli ≡ c.ncli) × (d.interrupts ≡ c.interrupts) × (0 < c.ncli → d.intena ≡ c.intena)

popcli_cases :
    (c d : Cpu)
    → popcli c ≡ some d
    → (d.ncli + 1 ≡ c.ncli)
      × (d.interrupts ≡ (((c.ncli - 1) == 0) && c.intena))
      × (d.intena ≡ c.intena)
unfolding popcli
popcli_cases c d h = grind arith

-- A popcli after a pushcli and a run that leaves the CPU the same.
pop-push : (c d e : Cpu) → IsOff c → IsSame (pushcli c) d → popcli d ≡ some e → IsSame c e
unfolding pushcli
pop-push c d e off same h =
    let p = popcli_cases d e h in
    (
      omega (arith, p.0, same.0),
      elim (ℕ_discrete c.ncli 0) [
        | yes z ↦ grind (arith, p.1, same.0, same.2 (omega arith))
        | no n ↦ grind (arith, p.1, same.0, off (omega arith))
      ],
      λ h. grind (arith, p.2, same.2 (omega arith)),
    )

IsOff-IsSame : (c d : Cpu) → IsOff c → IsSame c d → IsOff d
IsOff-IsSame c d off same h = same.1 ∙ off (omega (arith, same.0))

push-interrupts : (c : Cpu) → (pushcli c).interrupts ≡ false
unfolding pushcli
push-interrupts c = refl

push-ncli : (c : Cpu) → 0 < (pushcli c).ncli
unfolding pushcli
push-ncli c = omega arith

pushcli-IsOff : (c : Cpu) → IsOff (pushcli c)
unfolding pushcli
pushcli-IsOff c h = refl

IsSame-trans : (c d e : Cpu) → IsSame c d → IsSame d e → IsSame c e
IsSame-trans c d e s t = (t.0 ∙ s.0, t.1 ∙ s.1, λ h. t.2 (omega (arith, s.0)) ∙ s.2 h)

-- A run of balanced calls, nested to any depth, leaves the count and the interrupt flag as they were,
-- if interrupts were off or the count was 0 before; and while the count is above 0 also the saved
-- flag.
pub Nested-IsSame : {c d : Cpu} → Nested c d → IsOff c → IsSame c d
Nested-IsSame none_left off = (refl, refl, λ h. refl)
Nested-IsSame (nest {c} {d} {e} {f} n p m) off =
    let inner = pop-push c d e off (Nested-IsSame n (pushcli-IsOff c)) p in
    IsSame-trans c e f inner (Nested-IsSame m (IsOff-IsSame c e off inner))

popcli-pushcli : (c : Cpu) → c.interrupts ≡ false → 0 < c.ncli → popcli (pushcli c) ≡ some c
unfolding pushcli popcli
popcli-pushcli c off n = grind (arith, off)

-- `holding` leaves the CPU as it was and does not panic, where interrupts are off.
holding_lem :
    (k : ℕ) (lk : Spinlock) (c : Cpu)
    → c.interrupts ≡ false
    → 0 < c.ncli
    → holding k lk c ≡ some (c, held_by k lk)
unfolding holding
holding_lem k lk c off n = rw (holding, popcli-pushcli c off n) refl

acquire_cases :
    (k : ℕ) (lk lk1 : Spinlock) (c c1 : Cpu)
    → acquire k lk c ≡ acquired c1 lk1
    → (lk.locked ≡ false) × (c1 ≡ pushcli c) × (lk1 ≡ record { locked = true; cpu = some k })
unfolding acquire exchange
acquire_cases k lk lk1 c c1 h =
    let e = holding_lem k lk (pushcli c) (push-interrupts c) (push-ncli c) in grind (arith, e)

release_lem :
    (k : ℕ) (c d : Cpu)
    → c.interrupts ≡ false
    → 0 < c.ncli
    → popcli c ≡ some d
    → release k (record { locked = true; cpu = some k }) c
      ≡ some (d, record { locked = false; cpu = none })
unfolding release
release_lem k c d off n p =
    rw (release, holding_lem k (record { locked = true; cpu = some k }) c off n)
      (grind (arith, p, ==_self k))

popcli-some : (c : Cpu) → c.interrupts ≡ false → 0 < c.ncli → (d : Cpu) × (popcli c ≡ some d)
unfolding popcli
popcli-some c off n = (
  record c { ncli = c.ncli - 1; interrupts = ((c.ncli - 1) == 0) && c.intena },
  grind (arith, off),
)

-- A critical section. If `acquire` on CPU `k` returns, the lock was free, and after any balanced
-- calls `release` does not panic, frees the lock and gives the count and the interrupt flag that
-- stood before, if interrupts were off or the count was 0 then; inside interrupts are off.
pub release-acquire :
    (k : ℕ) (lk lk1 : Spinlock) (c c1 c2 : Cpu)
    → IsOff c
    → acquire k lk c ≡ acquired c1 lk1
    → Nested c1 c2
    → (lk.locked ≡ false)
      × (c2.interrupts ≡ false)
      × ((d : Cpu) × (release k lk1 c2 ≡ some (d, record { locked = false; cpu = none }))
          × IsSame c d)
release-acquire k lk lk1 c c1 c2 off e n =
    let a = acquire_cases k lk lk1 c c1 e in
    let run : Nested (pushcli c) c2 = subst (λ x. Nested x c2) (a.1) n in
    let same = Nested-IsSame run (pushcli-IsOff c) in
    let quiet : c2.interrupts ≡ false = same.1 ∙ push-interrupts c in
    let deep : 0 < c2.ncli = omega (arith, same.0, push-ncli c) in
    let (d, p) = popcli-some c2 quiet deep in
    (
      a.0,
      quiet,
      (
        d,
        subst (λ l. release k l c2 ≡ some (d, record { locked = false; cpu = none })) (sym (a.2))
            (release_lem k c2 d quiet deep p),
        pop-push c c2 d off same p,
      ),
    )
