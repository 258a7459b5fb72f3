-- ===== src/Vm/Returns.antt =====
-- vm.c: where growing and shrinking return.
use op_sys.Vm.Clear.{drop_page-IsTurned}
use op_sys.Base.{
  leb, ◌==◌, Bool-cases, ℕ, zero, suc, ◌+◌, ◌-◌, ◌*◌, ◌/◌, ◌%◌, ◌≤◌, ◌<◌, ◌≡◌, refl, sym, subst,
  ◌≢◌, inl, inr, true, false, some, List, ◌∷◌, arith, dec_lt,
}
use op_sys.Pages.{pgsize, kernbase, may_free, kfree, pgroundup}
use op_sys.Vm.{
  no_pte, Vm, pdx, walkpgdir, pte_at, set_pte, free_page, drop_page, drop_loop, deallocuvm,
}
use op_sys.Vm.Shape.{IsShaped}
use op_sys.Vm.Drop.{drop_page-IsConserved}

-- A page that `kfree` takes and that is not at the physical address 0.
abbrev pub IsFreeable : ℕ → ℕ → Type 0
IsFreeable end q = (may_free end q ≡ true) × (q ≢ kernbase)

-- The pages that are present from `lo` up to `hi` can be freed.
abbrev pub IsOwn : ℕ → ℕ → ℕ → Vm → Type 0
IsOwn end lo hi vm =
    (b : ℕ)
    → b % 4096 ≡ 0
    → lo ≤ b
    → b < hi
    → (pte_at b vm).present ≡ true
    → IsFreeable end (pte_at b vm).page

pub kfree_returns :
    (end q : ℕ) (free : List ℕ) → IsFreeable end q → kfree end q free ≡ some (q ∷ free)
unfolding kfree
kfree_returns end q free (e, n) = rw (kfree, e) refl

drop_page_returns :
    (end a : ℕ) (vm : Vm)
    → ((pte_at a vm).present ≡ true → IsFreeable end (pte_at a vm).page)
    → (r : Vm × ℕ) × (drop_page end a vm ≡ some r)
unfolding drop_page free_page
drop_page_returns end a vm own = elim (Bool-cases (walkpgdir a false vm).1) [
  | inr f ↦ ((vm, (pdx a + 1) * 4194304), ground (arith, f))
  | inl t ↦ elim (Bool-cases (pte_at a vm).present) [
    | inr q ↦ ((vm, a + pgsize), ground (arith, t, q))
    | inl q ↦
        let freed = kfree_returns end (pte_at a vm).page vm.free (own q) in
        let n = (own q).1 in
        let no : ((pte_at a vm).page == kernbase) ≡ false = ground (arith, n) in
        (
          (set_pte a no_pte (record vm { free = (pte_at a vm).page ∷ vm.free }), a + pgsize),
          rw (drop_page, t, q, free_page, no, freed) refl,
        )
  ]
]

drop_loop_returns :
    (fuel end a oldsz : ℕ) (vm : Vm)
    → a % 4096 ≡ 0
    → oldsz < 4294967296
    → IsShaped vm
    → IsOwn end a oldsz vm
    → (vm' : Vm) × (drop_loop fuel end a oldsz vm ≡ some vm')
unfolding drop_loop
drop_loop_returns zero end a oldsz vm al small s own = (vm, refl)
drop_loop_returns (suc fuel) end a oldsz vm al small s own = elim (dec_lt a oldsz) [
  | no n ↦ (vm, ground (arith, n))
  | yes l ↦
      let ((vm1, next), e) = drop_page_returns end a vm (own a al (omega arith) l) in
      let turn = drop_page-IsTurned end a next vm vm1 al (omega (arith, l, small)) s e in
      let shaped = (drop_page-IsConserved end a next vm vm1 s e).0 in
      let own1 : IsOwn end next oldsz vm1 = λ b q m k.
        subst (λ pte. pte.present ≡ true → IsFreeable end pte.page)
          (sym (turn.3 b q (omega (arith, k, small)) (λ i. omega (arith, i, m, turn.0))))
          (own b q (omega (arith, m, turn.0)) k) in
      let (vm', rest) = drop_loop_returns fuel end next oldsz vm1 (turn.1) small shaped own1 in
      (vm', ground (arith, l, e, rest))
]

-- `deallocuvm` of a process of at most KERNBASE bytes returns if every page that is present from the
-- new size, rounded up to a page, to the old size can be freed.
pub deallocuvm_returns :
    (end oldsz newsz : ℕ) (vm : Vm)
    → oldsz ≤ kernbase
    → IsShaped vm
    → IsOwn end (pgroundup newsz) oldsz vm
    → (r : Vm × ℕ) × (deallocuvm end oldsz newsz vm ≡ some r)
unfolding deallocuvm
deallocuvm_returns end oldsz newsz vm small s own = elim (Bool-cases (leb oldsz newsz)) [
  | inl e ↦ ((vm, oldsz), ground (arith, e))
  | inr e ↦
      let (vm', f) =
        drop_loop_returns ((oldsz - pgroundup newsz) / pgsize + 1) end (pgroundup newsz) oldsz vm
          (omega arith) (omega (arith, small)) s own in
      ((vm', newsz), ground (arith, e, f))
]
