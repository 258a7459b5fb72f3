-- ===== src/Vm/Alloc.antt =====
-- vm.c: `allocuvm` returns, with success or without, and maps the whole range or nothing.
use op_sys.Base.{
  All, ℕ, zero, suc, ◌+◌, ◌-◌, ◌/◌, ◌%◌, ◌≤◌, ◌<◌, ◌≡◌, refl, sym, ap, subst, ◌∙◌, true, false,
  Option, none, some, ◌∷◌, arith, dec_lt, ℕ_discrete,
}
use op_sys.Pages.{pgsize, kernbase, pgroundup}
use op_sys.Vm.{
  Vm, pte_at, Grown, mapped, no_page, no_table, grow_page, give_up, grow_loop, allocuvm,
}
use op_sys.Vm.Shape.{IsShaped}
use op_sys.Vm.Conserve.{IsGrown, grow_page-IsGrown}
use op_sys.Vm.Clear.{IsAll, IsTurned}
use op_sys.Vm.Fill.{IsSameSpace, IsGrownBy, grow_page-IsGrownBy}
use op_sys.Vm.Grow.{IsAllOrNothing, allocuvm_lem}
use op_sys.Vm.Returns.{IsFreeable, IsOwn, kfree_returns, deallocuvm_returns}
use op_sys.Vm.Total.{IsKeeping, grow_page_total}

abbrev Result : Type 0
Result = Vm × ℕ

give_up_total :
    (end oldsz newsz : ℕ) (mem : Option ℕ) (vm : Vm)
    → newsz ≤ kernbase
    → IsShaped vm
    → IsOwn end (pgroundup oldsz) newsz vm
    → ((page : ℕ) → mem ≡ some page → IsFreeable end page)
    → (r : Result) × (give_up end oldsz newsz mem vm ≡ some r)
unfolding give_up
give_up_total end oldsz newsz none vm small s own f =
    let ((vm1, n), e) = deallocuvm_returns end newsz oldsz vm small s own in
    ((vm1, 0), ground (arith, e))
give_up_total end oldsz newsz (some page) vm small s own f =
    let ((vm1, n), e) = deallocuvm_returns end newsz oldsz vm small s own in
    let freed = kfree_returns end page vm1.free (f page refl) in
    ((record vm1 { free = page ∷ vm1.free }, 0), ground (arith, e, freed))

IsOwn-same :
    (end lo hi : ℕ) (vm vm1 : Vm) → IsSameSpace vm vm1 → IsOwn end lo hi vm → IsOwn end lo hi vm1
IsOwn-same end lo hi vm vm1 same own b q l m =
    subst (λ pte. pte.present ≡ true → IsFreeable end pte.page) (sym (same b)) (own b q l m)

-- Before each turn: what is mapped and what is free can be freed, and the rest is not mapped.
abbrev IsReady : ℕ → ℕ → ℕ → ℕ → Vm → Type 0
IsReady end a oldsz newsz vm =
    (a % 4096 ≡ 0)
    × IsShaped vm
    × All (IsFreeable end) vm.free
    × IsOwn end (pgroundup oldsz) newsz vm
    × IsAll false a newsz vm

IsReady-next :
    (end a oldsz newsz : ℕ) (vm vm1 : Vm)
    → newsz < kernbase
    → IsReady end a oldsz newsz vm
    → IsShaped vm1
    → All (IsFreeable end) vm1.free
    → IsFreeable end (pte_at a vm1).page
    → IsTurned true a (a + pgsize) vm vm1
    → IsReady end (a + pgsize) oldsz newsz vm1
IsReady-next end a oldsz newsz vm vm1 small (al, s, free, own, absent) s1 free1 page turn = (
  omega (arith, al),
  s1,
  free1,
  λ b q l m. elim (ℕ_discrete a b) [
    | yes e ↦ λ k. subst (λ c. IsFreeable end (pte_at c vm1).page) e page
    | no n ↦
        subst (λ pte. pte.present ≡ true → IsFreeable end pte.page)
          (sym (turn.3 b q (omega (arith, m, small)) n)) (own b q l m)
  ],
  λ b q l m.
      ap (λ pte. pte.present) (turn.3 b q (omega (arith, m, small)) (λ e. omega (arith, e, l)))
      ∙ absent b q (omega (arith, l)) m,
)

grow_loop_total :
    (fuel end a oldsz newsz : ℕ) (vm : Vm)
    → newsz < kernbase
    → IsReady end a oldsz newsz vm
    → (r : Result) × (grow_loop fuel end a oldsz newsz vm ≡ some r)
unfolding grow_loop
grow_loop_total zero end a oldsz newsz vm small ready = ((vm, newsz), refl)
grow_loop_total (suc fuel) end a oldsz newsz vm small ready = elim (dec_lt a newsz) [
  | no n ↦ ((vm, newsz), ground (arith, n))
  | yes l ↦
      let (al, s, free, own, absent) = ready in
      let (g, e, keeping) = grow_page_total end a vm al s free (absent a al (omega arith) l) in
      turn g l e (λ vm1. grow_loop_total fuel end (a + pgsize) oldsz newsz vm1 small) keeping
        (grow_page-IsGrown a vm g al s e)
        (grow_page-IsGrownBy a (a + pgsize) vm g al (omega (arith, l, small)) refl s e)
]
  where
    turn :
        (g : Grown)
        → a < newsz
        → grow_page a vm ≡ some g
        → ((vm1 : Vm)
            → IsReady end (a + pgsize) oldsz newsz vm1
            → (r : Result) × (grow_loop fuel end (a + pgsize) oldsz newsz vm1 ≡ some r))
        → IsKeeping end a g
        → IsGrown vm g
        → IsGrownBy a (a + pgsize) vm g
        → (r : Result) × (grow_loop (suc fuel) end a oldsz newsz vm ≡ some r)
    turn (mapped vm1) l e rec k c t =
        let (r, rest) =
          rec vm1 (IsReady-next end a oldsz newsz vm vm1 small ready (c.0) (k.0) (k.1) t) in
        (r, ground (arith, l, e, rest))
    turn (no_page vm1) l e rec k c t =
        let own = IsOwn-same end (pgroundup oldsz) newsz vm vm1 t (ready.3) in
        let (r, rest) =
          give_up_total end oldsz newsz none vm1 (omega (arith, small)) (c.0) own
            (λ page i. absurd (ground (arith, i))) in
        (r, ground (arith, l, e, rest))
    turn (no_table mem vm1) l e rec k c t =
        let own = IsOwn-same end (pgroundup oldsz) newsz vm vm1 t (ready.3) in
        let (r, rest) =
          give_up_total end oldsz newsz (some mem) vm1 (omega (arith, small)) (c.0) own
            (λ page i. subst (IsFreeable end) (ground (arith, i)) k) in
        (r, ground (arith, l, e, rest))

-- `allocuvm` that grows a process to less than KERNBASE bytes, where no page from the old size,
-- rounded up to a page, to the new size is present and every free page can be freed again, returns.
-- Either the result is the new size and all these pages are present, or the result is 0 and none of
-- them is. Every other page has the entry that it had.
pub allocuvm_total :
    (end oldsz newsz : ℕ) (vm : Vm)
    → oldsz ≤ newsz
    → newsz < kernbase
    → IsShaped vm
    → All (IsFreeable end) vm.free
    → IsAll false (pgroundup oldsz) newsz vm
    → (vm' : Vm) × (r : ℕ) × (allocuvm end oldsz newsz vm ≡ some (vm', r))
      × IsAllOrNothing oldsz newsz r vm vm'
unfolding allocuvm
allocuvm_total end oldsz newsz vm le small s free absent =
    let up = pgroundup oldsz in
    let ready : IsReady end up oldsz newsz vm =
      (omega arith, s, free, λ b q l m k. absurd (ground (arith, k, absent b q l m)), absent) in
    let ((vm', r), e) =
      grow_loop_total ((newsz - up) / pgsize + 1) end up oldsz newsz vm small ready in
    let done : allocuvm end oldsz newsz vm ≡ some (vm', r) = ground (arith, le, small, e) in
    (vm', r, done, allocuvm_lem end oldsz newsz r vm vm' le small s done)
