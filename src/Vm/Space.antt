-- ===== src/Vm/Space.antt =====
-- vm.c: which entry an address has after an entry of another is written.
use op_sys.Pages.{kalloc}
use op_sys.Base.{
  ◌==◌, if◌then◌else◌, Bool-cases, Option-cases, get_or-set, get_or, set, get_or-set_self,
  get_or-set_ne, get_or-replicate, ℕ, ◌%◌, ◌<◌, ◌≡◌, refl, sym, ap, ◌∙◌, inl, inr, Bool, Option,
  none, some, List, arith, ℕ_discrete,
}
use op_sys.Vm.{
  Pte, no_pte, PageTable, Vm, pdx, ptx, empty_table, add_table, walkpgdir, pte_at, set_pte,
}
use op_sys.Vm.Shape.{IsShaped, pdx_lem, ptx_lem, table_size, set_pte_eq}

-- The same entry.
abbrev pub IsSame : ℕ → ℕ → Type 0
IsSame a b = (pdx a ≡ pdx b) × (ptx a ≡ ptx b)

entry : Option PageTable → ℕ → Pte
entry none j = no_pte
entry (some table) j = get_or table.ptes j no_pte

pte_at-entry : (b : ℕ) (vm : Vm) → pte_at b vm ≡ entry (get_or vm.pgdir (pdx b) none) (ptx b)
unfolding pte_at entry
pte_at-entry b vm = elim (Option-cases (get_or vm.pgdir (pdx b) none)) [
  | inl e ↦ rw (pte_at, e) refl
  | inr (table, e) ↦ rw (pte_at, e) refl
]

module _ (a : ℕ) (pte : Pte) (vm : Vm) (table : PageTable) (s : IsShaped vm)
    (e : get_or vm.pgdir (pdx a) none ≡ some table) where
  abbrev written : PageTable
  written = record table { ptes = set table.ptes (ptx a) pte }

  -- The directory's entry after the write.
  entry_after :
      (i : ℕ)
      → get_or (set_pte a pte vm).pgdir i none
        ≡ (if pdx a == i then some written else get_or vm.pgdir i none)
  entry_after i =
      rw (set_pte_eq a pte vm table s e)
        (get_or-set vm.pgdir (pdx a) i (some written) none (omega (arith, s.0, pdx_lem a)))

  pub pte_at-set_pte : pte_at a (set_pte a pte vm) ≡ pte
  unfolding entry
  pte_at-set_pte =
      let size = table_size vm (pdx a) table s (pdx_lem a) e in
      let own : get_or (set_pte a pte vm).pgdir (pdx a) none ≡ some written =
        ground (arith, entry_after (pdx a)) in
      rw (pte_at-entry a (set_pte a pte vm), own)
        (get_or-set_self table.ptes (ptx a) pte no_pte (omega (arith, size, ptx_lem a)))

  pub pte_at-set_pte_ne : (b : ℕ) → ¬ IsSame a b → pte_at b (set_pte a pte vm) ≡ pte_at b vm
  unfolding entry
  pte_at-set_pte_ne b n =
      rw (pte_at-entry b (set_pte a pte vm), pte_at-entry b vm)
        (elim (ℕ_discrete (pdx a) (pdx b)) [
          | no m ↦ ap (λ o. entry o (ptx b)) (ground (arith, m, entry_after (pdx b)))
          | yes m ↦
              let here : get_or (set_pte a pte vm).pgdir (pdx b) none ≡ some written =
                ground (arith, m, entry_after (pdx b)) in
              let old : get_or vm.pgdir (pdx b) none ≡ some table =
                ap (λ i. get_or vm.pgdir i none) (sym m) ∙ e in
              rw (here, old) (get_or-set_ne table.ptes (ptx a) (ptx b) pte no_pte (λ k. n (m, k)))
        ])

-- Two pages below 4 GB with the same entry are one.
pub same_page :
    (a b : ℕ) → a % 4096 ≡ 0 → b % 4096 ≡ 0 → a < 4294967296 → b < 4294967296 → IsSame a b → a ≡ b
same_page a b h k l m (i, j) = omega (arith, h, k, l, m, i, j)

blank_entry :
    (i b frame : ℕ) (vm : Vm)
    → IsShaped vm
    → i < 1024
    → get_or vm.pgdir i none ≡ none
    → i ≡ pdx b
    → entry (get_or (set vm.pgdir i (some (empty_table frame))) (pdx b) none) (ptx b)
      ≡ entry (get_or vm.pgdir (pdx b) none) (ptx b)
unfolding entry
blank_entry i b frame vm s l e m =
    let xs = set vm.pgdir i (some (empty_table frame)) in
    let new : get_or xs (pdx b) none ≡ some (empty_table frame) =
      ap (λ j. get_or xs j none) (sym m)
      ∙ get_or-set_self vm.pgdir i (some (empty_table frame)) none (omega (arith, s.0, l)) in
    let old : get_or vm.pgdir (pdx b) none ≡ none = ap (λ j. get_or vm.pgdir j none) (sym m) ∙ e in
    rw (new, old) (get_or-replicate 1024 (ptx b) no_pte)

-- A new table changes no entry.
pte_at-add_table :
    (i b : ℕ) (vm : Vm) (r : List ℕ × Option ℕ)
    → IsShaped vm
    → i < 1024
    → get_or vm.pgdir i none ≡ none
    → pte_at b (add_table i vm r).0 ≡ pte_at b vm
unfolding add_table pte_at
pte_at-add_table i b vm (free, none) s l e = refl
pte_at-add_table i b vm (free, some frame) s l e =
    rw
      (
        pte_at-entry b
            (record vm { pgdir = set vm.pgdir i (some (empty_table frame)); free = free }),
        pte_at-entry b vm,
      )
      (elim (ℕ_discrete i (pdx b)) [
        | no m ↦
            ap (λ o. entry o (ptx b))
              (get_or-set_ne vm.pgdir i (pdx b) (some (empty_table frame)) none m)
        | yes m ↦ blank_entry i b frame vm s l e m
      ])

pub pte_at-walkpgdir :
    (a b : ℕ) (alloc : Bool) (vm : Vm)
    → IsShaped vm
    → pte_at b (walkpgdir a alloc vm).0 ≡ pte_at b vm
unfolding walkpgdir
pte_at-walkpgdir a b alloc vm s = elim (Option-cases (get_or vm.pgdir (pdx a) none)) [
  | inr (table, e) ↦ rw (walkpgdir, e) refl
  | inl e ↦ elim (Bool-cases alloc) [
    | inl t ↦ rw (walkpgdir, e, t) (pte_at-add_table (pdx a) b vm (kalloc vm.free) s (pdx_lem a) e)
    | inr f ↦ rw (walkpgdir, e, f) refl
  ]
]

pub pte_at-none : (b : ℕ) (vm : Vm) → get_or vm.pgdir (pdx b) none ≡ none → pte_at b vm ≡ no_pte
unfolding pte_at
pte_at-none b vm e = rw (pte_at, e) refl
