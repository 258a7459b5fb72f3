-- ===== src/Vm/Drop.antt =====
-- vm.c: `deallocuvm` neither loses a page nor frees one twice.
use op_sys.Base.{
  leb, ◌==◌, Bool-cases, Option-cases, get_or, ℕ, zero, suc, ◌+◌, ◌-◌, ◌/◌, ◌≡◌, refl, subst, ◌∙◌,
  inl, inr, true, false, none, some, ◌∷◌, arith, dec_lt,
}
use op_sys.Pages.{pgsize, kernbase, kfree, pgroundup}
use op_sys.Vm.{
  no_pte, PageTable, Vm, pdx, walkpgdir, pte_at, set_pte, free_page, drop_page, drop_loop,
  deallocuvm,
}
use op_sys.Vm.Shape.{
  IsShaped, pte_weight, IsConserved, kfree_cases, freed_weight, set_pte_weight, set_pte-IsShaped,
}
use op_sys.Vm.Walk.{absent_weight, present_weight}

-- An entry that is cleared after its page has been put on the free list.
cleared-IsConserved :
    (a : ℕ) (vm : Vm) (table : PageTable)
    → IsShaped vm
    → get_or vm.pgdir (pdx a) none ≡ some table
    → (pte_at a vm).present ≡ true
    → IsConserved vm (set_pte a no_pte (record vm { free = (pte_at a vm).page ∷ vm.free }))
unfolding pte_at
cleared-IsConserved a vm table s e q =
    let v = (pte_at a vm).page in
    let freed : Vm = record vm { free = v ∷ vm.free } in
    (
      set_pte-IsShaped a no_pte freed table s e,
      λ p.
          let same : pte_weight p (pte_at a freed) ≡ pte_weight p (pte_at a vm) = refl in
          omega (
            arith,
            set_pte_weight a no_pte freed table s e p,
            same,
            present_weight p (pte_at a vm) q,
            absent_weight p no_pte refl,
            freed_weight p v vm,
          ),
    )

free_page-IsConserved :
    (end a : ℕ) (vm vm' : Vm) (table : PageTable)
    → IsShaped vm
    → get_or vm.pgdir (pdx a) none ≡ some table
    → (pte_at a vm).present ≡ true
    → free_page end a vm ≡ some vm'
    → IsConserved vm vm'
unfolding free_page
free_page-IsConserved end a vm vm' table s e q h =
    elim (Bool-cases ((pte_at a vm).page == kernbase)) [
      | inl k ↦ absurd (ground (arith, k, h))
      | inr k ↦ elim (Option-cases (kfree end (pte_at a vm).page vm.free)) [
        | inl f ↦ absurd (ground (arith, k, f, h))
        | inr (free, f) ↦
            let list : (pte_at a vm).page ∷ vm.free ≡ free =
              kfree_cases end (pte_at a vm).page vm.free free f in
            let eq : set_pte a no_pte (record vm { free = free }) ≡ vm' = ground (arith, k, f, h) in
            subst (IsConserved vm) eq (
              subst (λ xs. IsConserved vm (set_pte a no_pte (record vm { free = xs }))) list
                (cleared-IsConserved a vm table s e q))
      ]
    ]

pub walk_old :
    (a : ℕ) (vm : Vm) (table : PageTable)
    → get_or vm.pgdir (pdx a) none ≡ some table
    → (walkpgdir a false vm).1 ≡ true
unfolding walkpgdir
walk_old a vm table e = rw (walkpgdir, e) refl

pub walk_new :
    (a : ℕ) (vm : Vm) → get_or vm.pgdir (pdx a) none ≡ none → (walkpgdir a false vm).1 ≡ false
unfolding walkpgdir
walk_new a vm e = rw (walkpgdir, e) refl

pub drop_page-IsConserved :
    (end a next : ℕ) (vm vm' : Vm)
    → IsShaped vm
    → drop_page end a vm ≡ some (vm', next)
    → IsConserved vm vm'
unfolding drop_page
drop_page-IsConserved end a next vm vm' s h = elim (Option-cases (get_or vm.pgdir (pdx a) none)) [
  | inl e ↦
      let eq : vm ≡ vm' = ground (arith, walk_new a vm e, h) in
      subst (IsConserved vm) eq (s, λ p. refl)
  | inr (table, e) ↦ elim (Bool-cases (pte_at a vm).present) [
    | inr q ↦
        let eq : vm ≡ vm' = ground (arith, walk_old a vm table e, q, h) in
        subst (IsConserved vm) eq (s, λ p. refl)
    | inl q ↦ elim (Option-cases (free_page end a vm)) [
      | inl f ↦ absurd (ground (arith, walk_old a vm table e, q, f, h))
      | inr (vm1, f) ↦
          let eq : vm1 ≡ vm' = ground (arith, walk_old a vm table e, q, f, h) in
          subst (IsConserved vm) eq (free_page-IsConserved end a vm vm1 table s e q f)
    ]
  ]
]

pub IsConserved-trans :
    (vm vm1 vm2 : Vm) → IsConserved vm vm1 → IsConserved vm1 vm2 → IsConserved vm vm2
IsConserved-trans vm vm1 vm2 c d = (d.0, λ p. d.1 p ∙ c.1 p)

drop_loop-IsConserved :
    (fuel end a oldsz : ℕ) (vm vm' : Vm)
    → IsShaped vm
    → drop_loop fuel end a oldsz vm ≡ some vm'
    → IsConserved vm vm'
unfolding drop_loop
drop_loop-IsConserved zero end a oldsz vm vm' s h =
    let eq : vm ≡ vm' = ground (arith, h) in subst (IsConserved vm) eq (s, λ p. refl)
drop_loop-IsConserved (suc fuel) end a oldsz vm vm' s h = elim (dec_lt a oldsz) [
  | no n ↦ let eq : vm ≡ vm' = ground (arith, n, h) in subst (IsConserved vm) eq (s, λ p. refl)
  | yes l ↦ elim (Option-cases (drop_page end a vm)) [
    | inl e ↦ absurd (ground (arith, l, e, h))
    | inr ((vm1, next), e) ↦
        let one = drop_page-IsConserved end a next vm vm1 s e in
        let rest : drop_loop fuel end next oldsz vm1 ≡ some vm' = ground (arith, l, e, h) in
        IsConserved-trans vm vm1 vm' one
          (drop_loop-IsConserved fuel end next oldsz vm1 vm' (one.0) rest)
  ]
]

-- When `deallocuvm` returns, every page is held as often as before, on the free list, as a table
-- or in an entry: none is lost and none is freed twice.
pub deallocuvm-IsConserved :
    (end oldsz newsz r : ℕ) (vm vm' : Vm)
    → IsShaped vm
    → deallocuvm end oldsz newsz vm ≡ some (vm', r)
    → IsConserved vm vm'
unfolding deallocuvm
deallocuvm-IsConserved end oldsz newsz r vm vm' s h =
    let fuel = (oldsz - pgroundup newsz) / pgsize + 1 in
    elim (Bool-cases (leb oldsz newsz)) [
      | inl e ↦ let eq : vm ≡ vm' = ground (arith, e, h) in subst (IsConserved vm) eq (s, λ p. refl)
      | inr e ↦ elim (Option-cases (drop_loop fuel end (pgroundup newsz) oldsz vm)) [
        | inl f ↦ absurd (ground (arith, e, f, h))
        | inr (vm1, f) ↦
            let eq : vm1 ≡ vm' = ground (arith, e, f, h) in
            subst (IsConserved vm) eq
              (drop_loop-IsConserved fuel end (pgroundup newsz) oldsz vm vm1 s f)
      ]
    ]
