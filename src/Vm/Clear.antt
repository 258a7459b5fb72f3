-- ===== src/Vm/Clear.antt =====
-- vm.c: `deallocuvm` leaves no page in the range, and every other entry as it is.
use op_sys.Vm.Space.{pte_at-set_pte, pte_at-set_pte_ne, same_page, pte_at-none}
use op_sys.Base.{
  ◌==◌, Bool-cases, Option-cases, get_or, ℕ, zero, suc, ◌+◌, ◌-◌, ◌*◌, ◌/◌, ◌%◌, ◌≤◌, ◌<◌, ◌≡◌,
  refl, sym, ap, subst, ◌∙◌, ◌≢◌, ◌⊎◌, inl, inr, Bool, false, none, some, List, arith, dec_lt,
}
use op_sys.Pages.{pgsize, kernbase, kfree, pgroundup}
use op_sys.Vm.{
  Pte, no_pte, PageTable, Vm, pdx, pte_at, set_pte, free_page, drop_page, drop_loop, deallocuvm,
}
use op_sys.Vm.Shape.{IsShaped}
use op_sys.Vm.Drop.{walk_old, walk_new, drop_page-IsConserved}

-- The entries of the pages from `lo` up to `hi` are present, or they are not.
abbrev pub IsAll : Bool → ℕ → ℕ → Vm → Type 0
IsAll f lo hi vm = (b : ℕ) → b % 4096 ≡ 0 → lo ≤ b → b < hi → (pte_at b vm).present ≡ f

-- The entries of the other pages are as they were.
abbrev pub IsKept : ℕ → ℕ → Vm → Vm → Type 0
IsKept lo hi vm vm' =
    (b : ℕ) → b % 4096 ≡ 0 → b < 4294967296 → (b < lo) ⊎ (hi ≤ b) → pte_at b vm' ≡ pte_at b vm

-- What a turn at the page `a` does when the next is at `next`.
abbrev pub IsTurned : Bool → ℕ → ℕ → Vm → Vm → Type 0
IsTurned f a next vm vm' =
    (a < next)
    × (next % 4096 ≡ 0)
    × IsAll f a next vm'
    × ((b : ℕ) → b % 4096 ≡ 0 → b < 4294967296 → a ≢ b → pte_at b vm' ≡ pte_at b vm)

pub turned-IsAll :
    (f : Bool) (a next hi : ℕ) (vm vm1 vm' : Vm)
    → hi < 4294967296
    → IsTurned f a next vm vm1
    → IsAll f next hi vm' × IsKept next hi vm1 vm'
    → IsAll f a hi vm'
turned-IsAll f a next hi vm vm1 vm' small (t, al, set_to, rest) (all, kept) b q l m =
    elim (dec_lt b next) [
      | yes k ↦
          ap (λ pte. pte.present) (kept b q (omega (arith, m, small)) (inl k)) ∙ set_to b q l k
      | no k ↦ all b q (omega (arith, k)) m
    ]

pub turned-IsKept :
    (f : Bool) (a next hi : ℕ) (vm vm1 vm' : Vm)
    → a % 4096 ≡ 0
    → a < hi
    → IsTurned f a next vm vm1
    → IsAll f next hi vm' × IsKept next hi vm1 vm'
    → IsKept a hi vm vm'
turned-IsKept f a next hi vm vm1 vm' al l (t, al', set_to, rest) (all, kept) b q small o =
    let other : a ≢ b =
      λ e. elim o [ inl k ↦ omega (arith, k, e) | inr k ↦ omega (arith, k, e, l) ] in
    kept b q small (elim o [ inl k ↦ inl (omega (arith, k, t)) | inr k ↦ inr k ])
    ∙ rest b q small other

one-IsAll :
    (f : Bool) (a next : ℕ) (vm : Vm)
    → a % 4096 ≡ 0
    → a + pgsize ≡ next
    → (pte_at a vm).present ≡ f
    → IsAll f a next vm
one-IsAll f a next vm al to e b q l m =
    ap (λ c. (pte_at c vm).present) {x = b} {y = a} (omega (arith, al, to, q, l, m)) ∙ e

-- An entry that is written at one page.
pub set_pte-IsTurned :
    (a next : ℕ) (pte : Pte) (vm vm1 : Vm) (table : PageTable)
    → a % 4096 ≡ 0
    → a < 4294967296
    → IsShaped vm
    → get_or vm.pgdir (pdx a) none ≡ some table
    → set_pte a pte vm ≡ vm1
    → a + pgsize ≡ next
    → IsTurned pte.present a next vm vm1
set_pte-IsTurned a next pte vm vm1 table al l s e eq to =
    subst (IsTurned pte.present a next vm) eq (
      omega (arith, to),
      omega (arith, to, al),
      one-IsAll pte.present a next (set_pte a pte vm) al to
          (ap (λ x. x.present) (pte_at-set_pte a pte vm table s e)),
      λ b q k n. pte_at-set_pte_ne a pte vm table s e b (λ m. n (same_page a b al q l k m)),
    )

free_page_cases :
    (end a : ℕ) (vm vm1 : Vm)
    → free_page end a vm ≡ some vm1
    → (free : List ℕ) × (set_pte a no_pte (record vm { free = free }) ≡ vm1)
unfolding free_page
free_page_cases end a vm vm1 h = elim (Bool-cases ((pte_at a vm).page == kernbase)) [
  | inl k ↦ absurd (ground (arith, k, h))
  | inr k ↦ elim (Option-cases (kfree end (pte_at a vm).page vm.free)) [
    | inl f ↦ absurd (ground (arith, k, f, h))
    | inr (free, f) ↦ (free, ground (arith, k, f, h))
  ]
]

free_page-IsTurned :
    (end a next : ℕ) (vm vm1 : Vm) (table : PageTable)
    → a % 4096 ≡ 0
    → a < 4294967296
    → IsShaped vm
    → get_or vm.pgdir (pdx a) none ≡ some table
    → free_page end a vm ≡ some vm1
    → a + pgsize ≡ next
    → IsTurned false a next vm vm1
unfolding pte_at
free_page-IsTurned end a next vm vm1 table al l s e h to =
    let (free, eq) = free_page_cases end a vm vm1 h in
    let t = set_pte-IsTurned a next no_pte (record vm { free = free }) vm1 table al l s e eq to in
    (t.0, t.1, t.2, λ b q k n. t.3 b q k n)

pub drop_page-IsTurned :
    (end a next : ℕ) (vm vm1 : Vm)
    → a % 4096 ≡ 0
    → a < 4294967296
    → IsShaped vm
    → drop_page end a vm ≡ some (vm1, next)
    → IsTurned false a next vm vm1
unfolding drop_page
drop_page-IsTurned end a next vm vm1 al l s h = elim (Option-cases (get_or vm.pgdir (pdx a) none)) [
  | inl e ↦
      let eq : vm ≡ vm1 = ground (arith, walk_new a vm e, h) in
      let to : (pdx a + 1) * 4194304 ≡ next = ground (arith, walk_new a vm e, h) in
      subst (IsTurned false a next vm) eq (
        omega (arith, to, l),
        omega (arith, to),
        λ b q m n.
            ap (λ pte. pte.present)
              (pte_at-none b vm (
                ap (λ i. get_or vm.pgdir i none) {x = pdx b} {y = pdx a}
                  (omega (arith, m, n, to, l))
                ∙ e)),
        λ b q k n. refl,
      )
  | inr (table, e) ↦ elim (Bool-cases (pte_at a vm).present) [
    | inr q ↦
        let eq : vm ≡ vm1 = ground (arith, walk_old a vm table e, q, h) in
        let to : a + pgsize ≡ next = ground (arith, walk_old a vm table e, q, h) in
        subst (IsTurned false a next vm) eq (
          omega (arith, to),
          omega (arith, to, al),
          one-IsAll false a next vm al to q,
          λ b q k n. refl,
        )
    | inl q ↦ elim (Option-cases (free_page end a vm)) [
      | inl f ↦ absurd (ground (arith, walk_old a vm table e, q, f, h))
      | inr (vm2, f) ↦
          let eq : vm2 ≡ vm1 = ground (arith, walk_old a vm table e, q, f, h) in
          let to : a + pgsize ≡ next = ground (arith, walk_old a vm table e, q, f, h) in
          subst (IsTurned false a next vm) eq
            (free_page-IsTurned end a next vm vm2 table al l s e f to)
    ]
  ]
]

drop_loop_lem :
    (fuel end a oldsz : ℕ) (vm vm' : Vm)
    → a % 4096 ≡ 0
    → oldsz < 4294967296
    → oldsz ≤ a + fuel * 4096
    → IsShaped vm
    → drop_loop fuel end a oldsz vm ≡ some vm'
    → IsAll false a oldsz vm' × IsKept a oldsz vm vm'
unfolding drop_loop
drop_loop_lem zero end a oldsz vm vm' al small enough s h =
    let eq : vm ≡ vm' = ground (arith, h) in
    (λ b q l m. absurd (omega (arith, l, m, enough)), λ b q l o. ap (pte_at b) (sym eq))
drop_loop_lem (suc fuel) end a oldsz vm vm' al small enough s h = elim (dec_lt a oldsz) [
  | no n ↦
      let eq : vm ≡ vm' = ground (arith, n, h) in
      (λ b q l m. absurd (omega (arith, l, m, n)), λ b q l o. ap (pte_at b) (sym eq))
  | yes l ↦ elim (Option-cases (drop_page end a vm)) [
    | inl e ↦ absurd (ground (arith, l, e, h))
    | inr ((vm1, next), e) ↦
        let turn = drop_page-IsTurned end a next vm vm1 al (omega (arith, l, small)) s e in
        let shaped = (drop_page-IsConserved end a next vm vm1 s e).0 in
        let rest =
          drop_loop_lem fuel end next oldsz vm1 vm' (turn.1) small
            (omega (arith, enough, turn.0, turn.1, al)) shaped (ground (arith, l, e, h)) in
        (
          turned-IsAll false a next oldsz vm vm1 vm' small turn rest,
          turned-IsKept false a next oldsz vm vm1 vm' al l turn rest,
        )
  ]
]

-- When `deallocuvm` returns from shrinking a process of at most KERNBASE bytes, no page from the
-- new size, rounded up to a page, to the old size is present any more, every other page has the entry
-- that it had, and the result is the new size.
pub deallocuvm_lem :
    (end oldsz newsz r : ℕ) (vm vm' : Vm)
    → oldsz ≤ kernbase
    → newsz < oldsz
    → IsShaped vm
    → deallocuvm end oldsz newsz vm ≡ some (vm', r)
    → IsAll false (pgroundup newsz) oldsz vm' × IsKept (pgroundup newsz) oldsz vm vm' × (r ≡ newsz)
unfolding deallocuvm
deallocuvm_lem end oldsz newsz r vm vm' small l s h =
    let fuel = (oldsz - pgroundup newsz) / pgsize + 1 in
    elim (Option-cases (drop_loop fuel end (pgroundup newsz) oldsz vm)) [
      | inl f ↦ absurd (ground (arith, l, f, h))
      | inr (vm1, f) ↦
          let eq : vm1 ≡ vm' = ground (arith, l, f, h) in
          let result : newsz ≡ r = ground (arith, l, f, h) in
          let loop =
            drop_loop_lem fuel end (pgroundup newsz) oldsz vm vm' (omega arith)
              (omega (arith, small)) (omega arith) s (f ∙ ap some eq) in
          (loop.0, loop.1, sym result)
    ]
