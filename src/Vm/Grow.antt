-- ===== src/Vm/Grow.antt =====
-- vm.c: `allocuvm` maps the whole range or nothing.
use op_sys.Vm.Conserve.{IsGrown, grow_page-IsGrown}
use op_sys.Base.{
  Option-cases, ℕ, zero, suc, ◌+◌, ◌-◌, ◌*◌, ◌/◌, ◌%◌, ◌≤◌, ◌<◌, ◌≡◌, refl, sym, ap, subst, ◌∙◌,
  ◌⊎◌, inl, inr, Bool, true, false, Option, none, some, arith, dec_lt,
}
use op_sys.Pages.{pgsize, kernbase, kfree, pgroundup}
use op_sys.Vm.{
  Vm, pte_at, deallocuvm, Grown, mapped, no_page, no_table, grow_page, give_up, grow_loop, allocuvm,
}
use op_sys.Vm.Shape.{IsShaped}
use op_sys.Vm.Clear.{IsAll, IsKept, IsTurned, deallocuvm_lem}
use op_sys.Vm.Fill.{IsSameSpace, IsGrownBy, grow_page-IsGrownBy}

-- The pages from `lo` up to `hi` are all present, or none of them is; the other entries are kept.
abbrev pub IsRange : Bool → ℕ → ℕ → Vm → Vm → Type 0
IsRange f lo hi vm vm' = IsAll f lo hi vm' × IsKept lo hi vm vm'

give_up_lem :
    (end oldsz newsz r : ℕ) (mem : Option ℕ) (vm vm' : Vm)
    → oldsz < newsz
    → newsz ≤ kernbase
    → IsShaped vm
    → give_up end oldsz newsz mem vm ≡ some (vm', r)
    → IsRange false (pgroundup oldsz) newsz vm vm' × (r ≡ 0)
unfolding give_up pte_at
give_up_lem end oldsz newsz r mem vm vm' l small s h =
    elim (Option-cases (deallocuvm end newsz oldsz vm)) [
      | inl e ↦ absurd (ground (arith, e, h))
      | inr ((vm2, r2), e) ↦
          let cleared = deallocuvm_lem end newsz oldsz r2 vm vm2 small l s e in
          after mem vm2 r2 e h (cleared.0, cleared.1)
    ]
  where
    after :
        (mem : Option ℕ) (vm2 : Vm) (r2 : ℕ)
        → deallocuvm end newsz oldsz vm ≡ some (vm2, r2)
        → give_up end oldsz newsz mem vm ≡ some (vm', r)
        → IsRange false (pgroundup oldsz) newsz vm vm2
        → IsRange false (pgroundup oldsz) newsz vm vm' × (r ≡ 0)
    after none vm2 r2 e h c =
        let eq : vm2 ≡ vm' = ground (arith, e, h) in
        let result : r ≡ 0 = ground (arith, e, h) in
        (subst (IsRange false (pgroundup oldsz) newsz vm) eq c, result)
    after (some mem) vm2 r2 e h c = elim (Option-cases (kfree end mem vm2.free)) [
      | inl f ↦ absurd (ground (arith, e, f, h))
      | inr (free, f) ↦
          let eq : record vm2 { free = free } ≡ vm' = ground (arith, e, f, h) in
          let result : r ≡ 0 = ground (arith, e, f, h) in
          (subst (IsRange false (pgroundup oldsz) newsz vm) eq c, result)
    ]

-- After the pages up to `a` one more is mapped.
IsRange-more :
    (lo a next : ℕ) (vm0 vm vm1 : Vm)
    → lo ≤ a
    → a % 4096 ≡ 0
    → next < 4294967296
    → IsRange true lo a vm0 vm
    → IsTurned true a next vm vm1
    → IsRange true lo next vm0 vm1
IsRange-more lo a next vm0 vm vm1 le al small (all, kept) (t, al', set_to, rest) = (
  λ b q l m. elim (dec_lt b a) [
    | yes k ↦
        ap (λ pte. pte.present) (rest b q (omega (arith, m, small)) (λ e. omega (arith, e, k)))
        ∙ all b q l k
    | no k ↦ set_to b q (omega (arith, k)) m
  ],
  λ b q m o.
      rest b q m (λ e. elim o [ inl k ↦ omega (arith, k, e, le) | inr k ↦ omega (arith, k, e, t) ])
      ∙ kept b q m (elim o [ inl k ↦ inl k | inr k ↦ inr (omega (arith, k, t)) ]),
)

-- The pages from `lo` on that were mapped so far are dropped again.
IsRange-dropped :
    (lo a hi : ℕ) (vm0 vm vm1 vm' : Vm)
    → a ≤ hi
    → IsKept lo a vm0 vm
    → IsSameSpace vm vm1
    → IsRange false lo hi vm1 vm'
    → IsRange false lo hi vm0 vm'
IsRange-dropped lo a hi vm0 vm vm1 vm' le kept same (all, kept') = (
  all,
  λ b q m o.
      kept' b q m o
      ∙ same b
      ∙ kept b q m (elim o [ inl k ↦ inl k | inr k ↦ inr (omega (arith, k, le)) ]),
)

-- The two ends of `allocuvm`.
abbrev pub IsAllOrNothing : ℕ → ℕ → ℕ → Vm → Vm → Type 0
IsAllOrNothing oldsz newsz r vm vm' =
    (IsRange true (pgroundup oldsz) newsz vm vm' × (r ≡ newsz))
    ⊎ (IsRange false (pgroundup oldsz) newsz vm vm' × (r ≡ 0))

grow_done :
    (oldsz newsz a r : ℕ) (vm0 vm vm' : Vm)
    → a % 4096 ≡ 0
    → (a ≡ pgroundup oldsz) ⊎ (a < newsz + 4096)
    → newsz ≤ a
    → IsRange true (pgroundup oldsz) a vm0 vm
    → vm ≡ vm'
    → newsz ≡ r
    → IsAllOrNothing oldsz newsz r vm0 vm'
grow_done oldsz newsz a r vm0 vm vm' al near past (all, kept) eq result = inl (
  subst (IsRange true (pgroundup oldsz) newsz vm0) eq (
    λ b q l m. all b q l (omega (arith, m, past)),
    λ b q m o. kept b q m (elim o [
      | inl k ↦ inl k
      | inr k ↦ elim near [
        | inl e ↦ elim (dec_lt b (pgroundup oldsz)) [
          | yes u ↦ inl u
          | no u ↦ inr (omega (arith, e, u))
        ]
        | inr e ↦ inr (omega (arith, k, e, q, al))
      ]
    ]),
  ),
  sym result,
)

-- How far the loop has come.
abbrev IsAt : ℕ → ℕ → ℕ → Vm → Vm → Type 0
IsAt oldsz newsz a vm0 vm =
    (a % 4096 ≡ 0)
    × (pgroundup oldsz ≤ a)
    × ((a ≡ pgroundup oldsz) ⊎ (a < newsz + 4096))
    × IsShaped vm
    × IsRange true (pgroundup oldsz) a vm0 vm

grow_loop_lem :
    (fuel end a oldsz newsz r : ℕ) (vm0 vm vm' : Vm)
    → newsz < kernbase
    → newsz ≤ a + fuel * 4096
    → IsAt oldsz newsz a vm0 vm
    → grow_loop fuel end a oldsz newsz vm ≡ some (vm', r)
    → IsAllOrNothing oldsz newsz r vm0 vm'
unfolding grow_loop
grow_loop_lem zero end a oldsz newsz r vm0 vm vm' small enough (al, le, near, s, range) h =
    let eq : vm ≡ vm' = ground (arith, h) in
    let result : newsz ≡ r = ground (arith, h) in
    grow_done oldsz newsz a r vm0 vm vm' al near (omega arith) range eq result
grow_loop_lem (suc fuel) end a oldsz newsz r vm0 vm vm' small enough (al, le, near, s, range) h =
    elim (dec_lt a newsz) [
      | no n ↦
          let eq : vm ≡ vm' = ground (arith, n, h) in
          let result : newsz ≡ r = ground (arith, n, h) in
          grow_done oldsz newsz a r vm0 vm vm' al near (omega (arith, n)) range eq result
      | yes l ↦ elim (Option-cases (grow_page a vm)) [
        | inl e ↦ absurd (ground (arith, l, e, h))
        | inr (g, e) ↦
            turn g l e
              (λ vm1 at.
                grow_loop_lem fuel end (a + pgsize) oldsz newsz r vm0 vm1 vm' small
                  (omega (arith, enough)) at)
              (grow_page-IsGrown a vm g al s e)
              (grow_page-IsGrownBy a (a + pgsize) vm g al (omega (arith, l, small)) refl s e)
      ]
    ]
  where
    failed :
        (mem : Option ℕ) (vm1 : Vm)
        → a < newsz
        → IsShaped vm1
        → IsSameSpace vm vm1
        → give_up end oldsz newsz mem vm1 ≡ some (vm', r)
        → IsAllOrNothing oldsz newsz r vm0 vm'
    failed mem vm1 l s1 same h1 =
        let end_of =
          give_up_lem end oldsz newsz r mem vm1 vm' (omega (arith, l, le)) (omega (arith, small)) s1
            h1 in
        inr (
          IsRange-dropped (pgroundup oldsz) a newsz vm0 vm vm1 vm' (omega (arith, l)) (range.1) same
              (end_of.0),
          end_of.1,
        )

    turn :
        (g : Grown)
        → a < newsz
        → grow_page a vm ≡ some g
        → ((vm1 : Vm)
            → IsAt oldsz newsz (a + pgsize) vm0 vm1
            → grow_loop fuel end (a + pgsize) oldsz newsz vm1 ≡ some (vm', r)
            → IsAllOrNothing oldsz newsz r vm0 vm')
        → IsGrown vm g
        → IsGrownBy a (a + pgsize) vm g
        → IsAllOrNothing oldsz newsz r vm0 vm'
    turn (mapped vm1) l e rec c t =
        rec vm1
          (
            omega (arith, al),
            omega (arith, le),
            inr (omega (arith, l)),
            c.0,
            IsRange-more (pgroundup oldsz) a (a + pgsize) vm0 vm vm1 le al (omega (arith, l, small))
                range t,
          )
          (ground (arith, l, e, h))
    turn (no_page vm1) l e rec c t = failed none vm1 l (c.0) t (ground (arith, l, e, h))
    turn (no_table mem vm1) l e rec c t = failed (some mem) vm1 l (c.0) t (ground (arith, l, e, h))

-- When `allocuvm` returns from growing a process to less than KERNBASE bytes, either the result
-- is the new size and every page from the old size, rounded up to a page, to the new size is present,
-- or the result is 0 and none of these pages is present. Every other page has the entry that it had.
pub allocuvm_lem :
    (end oldsz newsz r : ℕ) (vm vm' : Vm)
    → oldsz ≤ newsz
    → newsz < kernbase
    → IsShaped vm
    → allocuvm end oldsz newsz vm ≡ some (vm', r)
    → IsAllOrNothing oldsz newsz r vm vm'
unfolding allocuvm
allocuvm_lem end oldsz newsz r vm vm' le small s h =
    let up = pgroundup oldsz in
    grow_loop_lem ((newsz - up) / pgsize + 1) end up oldsz newsz r vm vm vm' small (omega arith)
      (
        omega arith,
        omega arith,
        inl refl,
        s,
        (λ b q l m. absurd (omega (arith, l, m)), λ b q l o. refl),
      )
      (ground (arith, le, small, h))
