-- ===== src/Vm/Fill.antt =====
-- vm.c: `allocuvm` maps the whole range or nothing.
use op_sys.Base.{
  Bool-cases, ℕ, ◌+◌, ◌%◌, ◌<◌, ◌≡◌, refl, sym, subst, ◌∙◌, inl, inr, Bool, true, false, Option,
  none, some, List, arith,
}
use op_sys.Pages.{pgsize}
use op_sys.Vm.{
  Pte, Vm, user_writable, walkpgdir, pte_at, set_pte, map_page, mappages, Grown, mapped, no_page,
  no_table, after_map, grow_page,
}
use op_sys.Vm.Shape.{IsShaped, kalloc_cases}
use op_sys.Vm.Walk.{walkpgdir-IsWalked}
use op_sys.Vm.Conserve.{mappages_one}
use op_sys.Vm.Space.{pte_at-walkpgdir}
use op_sys.Vm.Clear.{IsTurned, set_pte-IsTurned}

-- Every entry is as it was.
abbrev pub IsSameSpace : Vm → Vm → Type 0
IsSameSpace vm vm' = (b : ℕ) → pte_at b vm' ≡ pte_at b vm

-- What a turn does to the entries: the page is mapped, or nothing is changed.
abbrev pub IsFilled : ℕ → ℕ → Vm → Vm × Bool → Type 0
IsFilled a next vm (vm', true) = IsTurned true a next vm vm'
IsFilled a next vm (vm', false) = IsSameSpace vm vm'

map_page-IsFilled :
    (a next page perm : ℕ) (vm : Vm) (r : Vm × Bool)
    → a % 4096 ≡ 0
    → a < 4294967296
    → a + pgsize ≡ next
    → IsShaped vm
    → map_page a page perm vm ≡ some r
    → IsFilled a next vm r
unfolding map_page
map_page-IsFilled a next page perm vm r al l to s h =
    let walked = walkpgdir a true vm in
    let w = walkpgdir-IsWalked a true vm s in
    let same : IsSameSpace vm (walked.0) = λ b. pte_at-walkpgdir a b true vm s in
    let pte : Pte = record { present = true; page = page; flags = perm } in
    elim (Bool-cases (walked.1)) [
      | inr f ↦
          let eq : (walked.0, false) ≡ r = ground (arith, f, h) in
          subst (IsFilled a next vm) eq same
      | inl t ↦ elim (w.1) [
        | inl f ↦ absurd (ground (arith, t, f))
        | inr (table, e) ↦ elim (Bool-cases (pte_at a (walked.0)).present) [
          | inl q ↦ absurd (ground (arith, t, q, h))
          | inr q ↦
              let eq : (set_pte a pte (walked.0), true) ≡ r = ground (arith, t, q, h) in
              let turn =
                set_pte-IsTurned a next pte (walked.0) (set_pte a pte (walked.0)) table al l (w.0.0)
                  e refl to in
              subst (IsFilled a next vm) eq
                (turn.0, turn.1, turn.2, λ b k m n. turn.3 b k m n ∙ same b)
        ]
      ]
    ]

-- The same of a turn of `allocuvm`.
abbrev pub IsGrownBy : ℕ → ℕ → Vm → Grown → Type 0
IsGrownBy a next vm (mapped vm') = IsTurned true a next vm vm'
IsGrownBy a next vm (no_page vm') = IsSameSpace vm vm'
IsGrownBy a next vm (no_table mem vm') = IsSameSpace vm vm'

after_map-IsGrownBy :
    (a next mem : ℕ) (vm : Vm) (r : Option (Vm × Bool)) (g : Grown)
    → ((q : Vm × Bool) → r ≡ some q → IsFilled a next vm q)
    → after_map mem r ≡ some g
    → IsGrownBy a next vm g
unfolding after_map
after_map-IsGrownBy a next mem vm none g m h = absurd (ground (arith, h))
after_map-IsGrownBy a next mem vm (some (vm2, true)) g m h =
    let eq : mapped vm2 ≡ g = ground (arith, h) in
    subst (IsGrownBy a next vm) eq (m (vm2, true) refl)
after_map-IsGrownBy a next mem vm (some (vm2, false)) g m h =
    let eq : no_table mem vm2 ≡ g = ground (arith, h) in
    subst (IsGrownBy a next vm) eq (m (vm2, false) refl)

pub grow_page-IsGrownBy :
    (a next : ℕ) (vm : Vm) (g : Grown)
    → a % 4096 ≡ 0
    → a < 4294967296
    → a + pgsize ≡ next
    → IsShaped vm
    → grow_page a vm ≡ some g
    → IsGrownBy a next vm g
unfolding grow_page pte_at
grow_page-IsGrownBy a next vm g al l to s h = elim (kalloc_cases vm.free) [
  | inl f ↦
      let eq : no_page vm ≡ g = ground (arith, f, h) in subst (IsGrownBy a next vm) eq (λ b. refl)
  | inr (mem, free, f, w) ↦
      let vm1 : Vm = record vm { free = free } in
      let got : after_map mem (mappages a pgsize mem user_writable vm1) ≡ some g =
        ground (arith, f, h) in
      after_map-IsGrownBy a next mem vm (mappages a pgsize mem user_writable vm1) g
        (λ q e. of_free free q (
          map_page-IsFilled a next mem user_writable vm1 q al l to s
            (sym (mappages_one a mem user_writable vm1 al) ∙ e)))
        got
]
  where
    of_free :
        (free : List ℕ) (q : Vm × Bool)
        → IsFilled a next (record vm { free = free }) q
        → IsFilled a next vm q
    of_free free (vm', true) t = (t.0, t.1, t.2, λ b k m n. t.3 b k m n)
    of_free free (vm', false) t = λ b. t b
