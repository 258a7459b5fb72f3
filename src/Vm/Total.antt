-- ===== src/Vm/Total.antt =====
-- vm.c: `allocuvm` returns, with success or without.
use op_sys.Base.{
  Bool-cases, Option-cases, get_or, All, ℕ, ◌%◌, ◌≡◌, refl, sym, ap, subst, ◌∙◌, inl, inr, Bool,
  true, false, Option, none, some, List, [], ◌∷◌, arith,
}
use op_sys.Pages.{pgsize, kalloc}
use op_sys.Vm.{
  Pte, Vm, pdx, user_writable, add_table, walkpgdir, pte_at, set_pte, map_page, mappages, Grown,
  mapped, no_page, no_table, after_map, grow_page,
}
use op_sys.Vm.Shape.{IsShaped, set_pte_eq}
use op_sys.Vm.Walk.{walkpgdir-IsWalked}
use op_sys.Vm.Conserve.{mappages_one}
use op_sys.Vm.Space.{pte_at-set_pte, pte_at-walkpgdir}
use op_sys.Vm.Returns.{IsFreeable}

kalloc-All :
    (end : ℕ) (free : List ℕ)
    → All (IsFreeable end) free
    → All (IsFreeable end) (kalloc free).0
      × ((mem : ℕ) → (kalloc free).1 ≡ some mem → IsFreeable end mem)
unfolding kalloc
kalloc-All end [] a = (a, λ mem e. absurd (ground (arith, e)))
kalloc-All end (r ∷ free) a = (a.1, λ mem e. subst (IsFreeable end) (same mem e) (a.0))
  where
    same : (mem : ℕ) → some r ≡ some mem → r ≡ mem
    same mem e = ground (arith, e)

add_table-free :
    (i : ℕ) (vm : Vm) (free : List ℕ) (got : Option ℕ) → (add_table i vm (free, got)).0.free ≡ free
unfolding add_table
add_table-free i vm free none = refl
add_table-free i vm free (some frame) = refl

walkpgdir-free :
    (end va : ℕ) (alloc : Bool) (vm : Vm)
    → All (IsFreeable end) vm.free
    → All (IsFreeable end) (walkpgdir va alloc vm).0.free
unfolding walkpgdir
walkpgdir-free end va alloc vm a = elim (Option-cases (get_or vm.pgdir (pdx va) none)) [
  | inr (table, e) ↦ rw (walkpgdir, e) a
  | inl e ↦ elim (Bool-cases alloc) [
    | inl t ↦
        let rest = (kalloc-All end vm.free a).0 in
        rw (walkpgdir, e, t)
          (subst (All (IsFreeable end))
            (sym (add_table-free (pdx va) vm (kalloc vm.free).0 (kalloc vm.free).1)) rest)
    | inr f ↦ rw (walkpgdir, e, f) a
  ]
]

-- What a turn of `mappages` leaves: free pages that can be freed, and the page in its entry.
abbrev IsHandled : ℕ → ℕ → ℕ → Vm × Bool → Type 0
IsHandled end a page (vm', true) = All (IsFreeable end) vm'.free × ((pte_at a vm').page ≡ page)
IsHandled end a page (vm', false) = All (IsFreeable end) vm'.free

map_page_total :
    (end a page perm : ℕ) (vm : Vm)
    → IsShaped vm
    → All (IsFreeable end) vm.free
    → (pte_at a vm).present ≡ false
    → (r : Vm × Bool) × (map_page a page perm vm ≡ some r) × IsHandled end a page r
unfolding map_page
map_page_total end a page perm vm s free absent =
    let walked = walkpgdir a true vm in
    let w = walkpgdir-IsWalked a true vm s in
    let pte : Pte = record { present = true; page = page; flags = perm } in
    let left = walkpgdir-free end a true vm free in
    let q : (pte_at a (walked.0)).present ≡ false =
      ap (λ x. x.present) (pte_at-walkpgdir a a true vm s) ∙ absent in
    elim (Bool-cases (walked.1)) [
      | inr f ↦ ((walked.0, false), ground (arith, f), left)
      | inl t ↦ elim (w.1) [
        | inl f ↦ absurd (ground (arith, t, f))
        | inr (table, e) ↦ (
          (set_pte a pte (walked.0), true),
          ground (arith, t, q),
          (
            subst (All (IsFreeable end))
                (sym (ap (λ v. v.free) (set_pte_eq a pte (walked.0) table (w.0.0) e))) left,
            ap (λ x. x.page) (pte_at-set_pte a pte (walked.0) table (w.0.0) e),
          ),
        )
      ]
    ]

-- The same of a turn of `allocuvm`.
abbrev pub IsKeeping : ℕ → ℕ → Grown → Type 0
IsKeeping end a (mapped vm') = All (IsFreeable end) vm'.free × IsFreeable end (pte_at a vm').page
IsKeeping end a (no_page vm') = Unit
IsKeeping end a (no_table mem vm') = IsFreeable end mem

after_map_total :
    (end a mem : ℕ) (r : Vm × Bool)
    → IsFreeable end mem
    → IsHandled end a mem r
    → (g : Grown) × (after_map mem (some r) ≡ some g) × IsKeeping end a g
unfolding after_map
after_map_total end a mem (vm', true) f h =
    (mapped vm', refl, (h.0, subst (IsFreeable end) (sym (h.1)) f))
after_map_total end a mem (vm', false) f h = (no_table mem vm', refl, f)

pub grow_page_total :
    (end a : ℕ) (vm : Vm)
    → a % 4096 ≡ 0
    → IsShaped vm
    → All (IsFreeable end) vm.free
    → (pte_at a vm).present ≡ false
    → (g : Grown) × (grow_page a vm ≡ some g) × IsKeeping end a g
unfolding grow_page pte_at
grow_page_total end a vm al s free absent = elim (Option-cases (kalloc vm.free).1) [
  | inl e ↦ (no_page vm, ground (arith, e), tt)
  | inr (mem, e) ↦
      let all = kalloc-All end vm.free free in
      let vm1 : Vm = record vm { free = (kalloc vm.free).0 } in
      let (r, m, handled) = map_page_total end a mem user_writable vm1 s (all.0) absent in
      let (g, after, keeping) = after_map_total end a mem r (all.1 mem e) handled in
      let pages : mappages a pgsize mem user_writable vm1 ≡ some r =
        mappages_one a mem user_writable vm1 al ∙ m in
      (g, rw (grow_page, e, pages) after, keeping)
]
