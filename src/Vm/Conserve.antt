-- ===== src/Vm/Conserve.antt =====
-- vm.c: `allocuvm` neither loses a page nor holds one twice, also when memory runs out.
use op_sys.Vm.Drop.{IsConserved-trans, deallocuvm-IsConserved}
use op_sys.Base.{
  ltb, leb, ◌==◌, Bool-cases, Option-cases, ℕ, zero, suc, ◌+◌, ◌-◌, ◌/◌, ◌%◌, ◌<◌, ◌≡◌, refl, sym,
  ap, subst, ◌∙◌, inl, inr, Bool, true, false, Option, none, some, List, ◌∷◌, arith, dec_lt,
}
use op_sys.Pages.{pgsize, kernbase, kfree, pgroundup}
use op_sys.Vm.{
  Vm, user_writable, map_page, map_loop, pgrounddown, mappages, deallocuvm, Grown, mapped, no_page,
  no_table, after_map, grow_page, give_up, grow_loop, allocuvm,
}
use op_sys.Vm.Shape.{
  IsShaped, is_one, holdings, IsConserved, free_weight, kalloc_cases, kfree_cases, freed_weight,
}
use op_sys.Vm.Walk.{IsMapped, map_page-IsMapped}

pub mappages_one :
    (a page perm : ℕ) (vm : Vm)
    → a % 4096 ≡ 0
    → mappages a pgsize page perm vm ≡ map_page a page perm vm
unfolding mappages map_loop
mappages_one a page perm vm h =
    ap (λ n. map_loop n (pgrounddown a) page perm vm)
      {x = (pgrounddown (a + pgsize - 1) - pgrounddown a) / pgsize} {y = 0} (omega arith)
    ∙ ap (λ b. map_page b page perm vm) {x = pgrounddown a} {y = a} (omega arith)

-- What a turn of `allocuvm` holds; the page that is still to be freed is held by no one.
abbrev pub IsGrown : Vm → Grown → Type 0
IsGrown vm (mapped vm') = IsConserved vm vm'
IsGrown vm (no_page vm') = IsConserved vm vm'
IsGrown vm (no_table mem vm') =
    IsShaped vm' × ((p : ℕ) → is_one (mem == p) + holdings p vm' ≡ holdings p vm)

after_map-IsGrown :
    (mem : ℕ) (vm vm1 : Vm) (r : Option (Vm × Bool)) (g : Grown)
    → ((p : ℕ) → holdings p vm ≡ is_one (mem == p) + holdings p vm1)
    → ((q : Vm × Bool) → r ≡ some q → IsMapped mem vm1 q)
    → after_map mem r ≡ some g
    → IsGrown vm g
unfolding after_map
after_map-IsGrown mem vm vm1 none g w m h = absurd (ground (arith, h))
after_map-IsGrown mem vm vm1 (some (vm2, true)) g w m h =
    let c = m (vm2, true) refl in
    let eq : mapped vm2 ≡ g = ground (arith, h) in
    subst (IsGrown vm) eq (c.0, λ p. omega (arith, c.1 p, w p))
after_map-IsGrown mem vm vm1 (some (vm2, false)) g w m h =
    let c = m (vm2, false) refl in
    let eq : no_table mem vm2 ≡ g = ground (arith, h) in
    subst (IsGrown vm) eq (c.0, λ p. omega (arith, c.1 p, w p))

taken_weight :
    (p mem : ℕ) (vm : Vm) (free : List ℕ)
    → free_weight p vm.free ≡ is_one (mem == p) + free_weight p free
    → holdings p vm ≡ is_one (mem == p) + holdings p (record vm { free = free })
unfolding holdings
taken_weight p mem vm free h = omega (arith, h)

pub grow_page-IsGrown :
    (a : ℕ) (vm : Vm) (g : Grown)
    → a % 4096 ≡ 0
    → IsShaped vm
    → grow_page a vm ≡ some g
    → IsGrown vm g
unfolding grow_page
grow_page-IsGrown a vm g al s h = elim (kalloc_cases vm.free) [
  | inl f ↦ let eq : no_page vm ≡ g = ground (arith, f, h) in subst (IsGrown vm) eq (s, λ p. refl)
  | inr (mem, free, f, w) ↦
      let vm1 : Vm = record vm { free = free } in
      let got : after_map mem (mappages a pgsize mem user_writable vm1) ≡ some g =
        ground (arith, f, h) in
      after_map-IsGrown mem vm vm1 (mappages a pgsize mem user_writable vm1) g
        (λ p. taken_weight p mem vm free (w p))
        (λ q e.
          map_page-IsMapped a mem user_writable vm1 q s
            (sym (mappages_one a mem user_writable vm1 al) ∙ e))
        got
]

abbrev extra : ℕ → Option ℕ → ℕ
extra p none = 0
extra p (some mem) = is_one (mem == p)

give_up-IsConserved :
    (end oldsz newsz r : ℕ) (mem : Option ℕ) (vm vm1 vm' : Vm)
    → IsShaped vm1
    → ((p : ℕ) → extra p mem + holdings p vm1 ≡ holdings p vm)
    → give_up end oldsz newsz mem vm1 ≡ some (vm', r)
    → IsConserved vm vm'
unfolding give_up
give_up-IsConserved end oldsz newsz r mem vm vm1 vm' s w h =
    elim (Option-cases (deallocuvm end newsz oldsz vm1)) [
      | inl e ↦ absurd (ground (arith, e, h))
      | inr ((vm2, r2), e) ↦ after mem e w h (deallocuvm-IsConserved end newsz oldsz r2 vm1 vm2 s e)
    ]
  where
    after :
        {vm2 : Vm} {r2 : ℕ} (mem : Option ℕ)
        → deallocuvm end newsz oldsz vm1 ≡ some (vm2, r2)
        → ((p : ℕ) → extra p mem + holdings p vm1 ≡ holdings p vm)
        → give_up end oldsz newsz mem vm1 ≡ some (vm', r)
        → IsConserved vm1 vm2
        → IsConserved vm vm'
    after {vm2} none e w h c =
        let eq : vm2 ≡ vm' = ground (arith, e, h) in
        subst (IsConserved vm) eq (c.0, λ p. omega (arith, c.1 p, w p))
    after {vm2} (some mem) e w h c = elim (Option-cases (kfree end mem vm2.free)) [
      | inl f ↦ absurd (ground (arith, e, f, h))
      | inr (free, f) ↦
          let list : mem ∷ vm2.free ≡ free = kfree_cases end mem vm2.free free f in
          let eq : record vm2 { free = free } ≡ vm' = ground (arith, e, f, h) in
          subst (IsConserved vm) eq (
            subst (λ xs. IsConserved vm (record vm2 { free = xs })) list
              (c.0, λ p. omega (arith, c.1 p, w p, freed_weight p mem vm2)))
    ]

grow_loop-IsConserved :
    (fuel end a oldsz newsz r : ℕ) (vm vm' : Vm)
    → a % 4096 ≡ 0
    → IsShaped vm
    → grow_loop fuel end a oldsz newsz vm ≡ some (vm', r)
    → IsConserved vm vm'
unfolding grow_loop
grow_loop-IsConserved zero end a oldsz newsz r vm vm' al s h =
    let eq : vm ≡ vm' = ground (arith, h) in subst (IsConserved vm) eq (s, λ p. refl)
grow_loop-IsConserved (suc fuel) end a oldsz newsz r vm vm' al s h = elim (dec_lt a newsz) [
  | no n ↦ let eq : vm ≡ vm' = ground (arith, n, h) in subst (IsConserved vm) eq (s, λ p. refl)
  | yes l ↦ elim (Option-cases (grow_page a vm)) [
    | inl e ↦ absurd (ground (arith, l, e, h))
    | inr (g, e) ↦
        turn g l e
          (λ vm1.
            grow_loop-IsConserved fuel end (a + pgsize) oldsz newsz r vm1 vm' (omega (arith, al)))
          (grow_page-IsGrown a vm g al s e)
  ]
]
  where
    turn :
        (g : Grown)
        → a < newsz
        → grow_page a vm ≡ some g
        → ((vm1 : Vm)
            → IsShaped vm1
            → grow_loop fuel end (a + pgsize) oldsz newsz vm1 ≡ some (vm', r)
            → IsConserved vm1 vm')
        → IsGrown vm g
        → IsConserved vm vm'
    turn (mapped vm1) l e rec c =
        let rest : grow_loop fuel end (a + pgsize) oldsz newsz vm1 ≡ some (vm', r) =
          ground (arith, l, e, h) in
        IsConserved-trans vm vm1 vm' c (rec vm1 (c.0) rest)
    turn (no_page vm1) l e rec c =
        give_up-IsConserved end oldsz newsz r none vm vm1 vm' (c.0) (λ p. omega (arith, c.1 p))
          (ground (arith, l, e, h))
    turn (no_table mem vm1) l e rec c =
        give_up-IsConserved end oldsz newsz r (some mem) vm vm1 vm' (c.0) c.1
          (ground (arith, l, e, h))

-- When `allocuvm` returns, with success or without, every page is held as often as before, on the
-- free list, as a table or in an entry: none is lost and none is given out twice.
pub allocuvm-IsConserved :
    (end oldsz newsz r : ℕ) (vm vm' : Vm)
    → IsShaped vm
    → allocuvm end oldsz newsz vm ≡ some (vm', r)
    → IsConserved vm vm'
unfolding allocuvm
allocuvm-IsConserved end oldsz newsz r vm vm' s h = elim (Bool-cases (leb kernbase newsz)) [
  | inl e ↦ let eq : vm ≡ vm' = ground (arith, e, h) in subst (IsConserved vm) eq (s, λ p. refl)
  | inr e ↦ elim (Bool-cases (ltb newsz oldsz)) [
    | inl f ↦
        let eq : vm ≡ vm' = ground (arith, e, f, h) in subst (IsConserved vm) eq (s, λ p. refl)
    | inr f ↦
        grow_loop-IsConserved ((newsz - pgroundup oldsz) / pgsize + 1) end (pgroundup oldsz) oldsz
          newsz r vm vm' (omega arith) s (ground (arith, e, f, h))
  ]
]
