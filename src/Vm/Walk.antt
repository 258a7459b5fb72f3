-- ===== src/Vm/Walk.antt =====
-- vm.c: what a walk to an entry and the mapping of a page do to the pages that are held.
use op_sys.Base.{
  ◌==◌, if◌then◌else◌, Bool-cases, Option-cases, total-set, total-replicate, length, get_or,
  length-set, length-replicate, get_or-set_self, All-set, ℕ, ◌+◌, ◌<◌, ◌≡◌, refl, ap, subst, ◌⊎◌,
  inl, inr, Bool, true, false, none, some, arith,
}
use op_sys.Pages.{kalloc}
use op_sys.Vm.{
  Pte, no_pte, PageTable, Vm, pdx, empty_table, add_table, walkpgdir, pte_at, set_pte, map_page,
}
use op_sys.Vm.Shape.{
  HasSize, IsShaped, is_one, pte_weight, table_weight, holdings, IsConserved, kalloc_cases, pdx_lem,
  set_pte_weight, set_pte-IsShaped,
}

-- What a walk gives: the directory with the same holdings, and a table if the result is not null.
abbrev pub IsWalked : ℕ → Vm → Vm × Bool → Type 0
IsWalked va vm (vm', found) =
    IsConserved vm vm'
    × ((found ≡ false) ⊎ ((table : PageTable) × (get_or vm'.pgdir (pdx va) none ≡ some table)))

nothing_weight : (p : ℕ) → table_weight p none ≡ 0
unfolding table_weight
nothing_weight p = refl

empty_weight : (p frame : ℕ) → table_weight p (some (empty_table frame)) ≡ is_one (frame == p)
unfolding table_weight
empty_weight p frame = omega (arith, total-replicate (pte_weight p) 1024 no_pte refl)

add_table-IsWalked :
    (va : ℕ) (vm : Vm)
    → IsShaped vm
    → get_or vm.pgdir (pdx va) none ≡ none
    → IsWalked va vm (add_table (pdx va) vm (kalloc vm.free))
unfolding add_table holdings
add_table-IsWalked va vm s e = elim (kalloc_cases vm.free) [
  | inl f ↦ rw f ((s, λ p. refl), inl refl)
  | inr (frame, free, f, w) ↦
      let l : pdx va < length vm.pgdir = omega (arith, s.0, pdx_lem va) in
      rw f (
        (
          (
            omega (arith, s.0, length-set vm.pgdir (pdx va) (some (empty_table frame))),
            All-set HasSize vm.pgdir (pdx va) (some (empty_table frame)) (s.1)
                (length-replicate 1024 no_pte),
          ),
          λ p.
              let outer =
                total-set (table_weight p) vm.pgdir (pdx va) (some (empty_table frame)) none l in
              let old : table_weight p (get_or vm.pgdir (pdx va) none) ≡ table_weight p none =
                ap (table_weight p) e in
              let nothing : table_weight p none ≡ 0 = nothing_weight p in
              omega (arith, outer, old, nothing, empty_weight p frame, w p),
        ),
        inr (
          empty_table frame,
          get_or-set_self vm.pgdir (pdx va) (some (empty_table frame)) none l,
        ),
      )
]

pub walkpgdir-IsWalked :
    (va : ℕ) (alloc : Bool) (vm : Vm) → IsShaped vm → IsWalked va vm (walkpgdir va alloc vm)
unfolding walkpgdir
walkpgdir-IsWalked va alloc vm s = elim (Option-cases (get_or vm.pgdir (pdx va) none)) [
  | inr (table, e) ↦ rw (walkpgdir, e) ((s, λ p. refl), inr (table, e))
  | inl e ↦ elim (Bool-cases alloc) [
    | inl t ↦ rw (walkpgdir, e, t) (add_table-IsWalked va vm s e)
    | inr f ↦ rw (walkpgdir, e, f) ((s, λ p. refl), inl refl)
  ]
]

-- What a turn of `mappages` holds besides: the page, if it is mapped.
abbrev pub IsMapped : ℕ → Vm → Vm × Bool → Type 0
IsMapped page vm (vm', b) =
    IsShaped vm'
    × ((p : ℕ) → holdings p vm' ≡ holdings p vm + (if b then is_one (page == p) else 0))

pub absent_weight : (p : ℕ) (pte : Pte) → pte.present ≡ false → pte_weight p pte ≡ 0
absent_weight p pte e = rw e refl

pub map_page-IsMapped :
    (a page perm : ℕ) (vm : Vm) (r : Vm × Bool)
    → IsShaped vm
    → map_page a page perm vm ≡ some r
    → IsMapped page vm r
unfolding map_page
map_page-IsMapped a page perm vm r s h =
    let walked = walkpgdir a true vm in
    let w = walkpgdir-IsWalked a true vm s in
    let pte : Pte = record { present = true; page = page; flags = perm } in
    elim (Bool-cases (walked.1)) [
      | inr f ↦
          let eq : (walked.0, false) ≡ r = ground (arith, f, h) in
          subst (IsMapped page vm) eq (w.0.0, λ p. omega (arith, w.0.1 p))
      | inl t ↦ elim (w.1) [
        | inl f ↦ absurd (ground (arith, t, f))
        | inr (table, e) ↦ elim (Bool-cases (pte_at a (walked.0)).present) [
          | inl q ↦ absurd (ground (arith, t, q, h))
          | inr q ↦
              let eq : (set_pte a pte (walked.0), true) ≡ r = ground (arith, t, q, h) in
              subst (IsMapped page vm) eq (
                set_pte-IsShaped a pte (walked.0) table (w.0.0) e,
                λ p. omega (
                  arith,
                  w.0.1 p,
                  set_pte_weight a pte (walked.0) table (w.0.0) e p,
                  absent_weight p (pte_at a (walked.0)) q,
                ),
              )
        ]
      ]
    ]

pub present_weight :
    (p : ℕ) (pte : Pte) → pte.present ≡ true → pte_weight p pte ≡ is_one (pte.page == p)
present_weight p pte e = rw e refl
