-- ===== src/Vm/Shape.antt =====
-- vm.c: directories and tables of 1024 entries, and the pages that they hold.
use op_sys.Base.{
  ◌==◌, total, total-set, length, get_or, set, All, length-set, All-get_or, All-set, ℕ, ◌+◌, ◌<◌,
  ◌≡◌, refl, ap, subst, ◌⊎◌, inl, inr, Bool, true, false, ◌&&◌, Option, none, some, List, [], ◌∷◌,
  arith,
}
use op_sys.Pages.{kfree, kalloc}
use op_sys.Vm.{Pte, no_pte, PageTable, Vm, pdx, ptx, pte_at, set_pte}

abbrev pub HasSize : Option PageTable → Type 0
HasSize none = Unit
HasSize (some table) = length table.ptes ≡ 1024

-- The directory and its tables have their 1024 entries.
abbrev pub IsShaped : Vm → Type 0
IsShaped vm = (length vm.pgdir ≡ 1024) × All HasSize vm.pgdir

abbrev pub is_one : Bool → ℕ
is_one true = 1
is_one false = 0

-- Whether a table entry holds the page.
abbrev pub pte_weight : ℕ → Pte → ℕ
pte_weight p pte = is_one (pte.present && (pte.page == p))

-- How often a directory's entry holds the page: as a table, or in it.
unfoldable pub table_weight : ℕ → Option PageTable → ℕ
table_weight p none = 0
table_weight p (some table) = is_one (table.frame == p) + total (pte_weight p) table.ptes

-- How often the page is held: on the free list, as a table, or in an entry.
unfoldable pub holdings : ℕ → Vm → ℕ
holdings p vm = total (λ q. is_one (q == p)) vm.free + total (table_weight p) vm.pgdir

-- A change that no page is lost in and none is held once more in.
abbrev pub IsConserved : Vm → Vm → Type 0
IsConserved vm vm' = IsShaped vm' × ((p : ℕ) → holdings p vm' ≡ holdings p vm)

abbrev pub free_weight : ℕ → List ℕ → ℕ
free_weight p free = total (λ q. is_one (q == p)) free

-- `kalloc` finds no page, or takes one that is no longer free.
pub kalloc_cases :
    (xs : List ℕ)
    → (kalloc xs ≡ (xs, none))
      ⊎ ((frame : ℕ) × (free : List ℕ) × (kalloc xs ≡ (free, some frame))
          × ((p : ℕ) → free_weight p xs ≡ is_one (frame == p) + free_weight p free))
unfolding kalloc total
kalloc_cases [] = inl refl
kalloc_cases (x ∷ xs) = inr (x, xs, refl, λ p. refl)

-- `kfree` puts the page on the free list.
pub kfree_cases :
    (end v : ℕ) (free free' : List ℕ) → kfree end v free ≡ some free' → v ∷ free ≡ free'
unfolding kfree
kfree_cases end v free free' h = grind arith

-- A page that is put on the free list.
pub freed_weight :
    (p v : ℕ) (vm : Vm)
    → holdings p (record vm { free = v ∷ vm.free }) ≡ is_one (v == p) + holdings p vm
unfolding holdings total
freed_weight p v vm = omega arith

pub pdx_lem : (va : ℕ) → pdx va < 1024
pdx_lem va = omega arith

pub ptx_lem : (va : ℕ) → ptx va < 1024
ptx_lem va = omega arith

pub table_size :
    (vm : Vm) (i : ℕ) (table : PageTable)
    → IsShaped vm
    → i < 1024
    → get_or vm.pgdir i none ≡ some table
    → length table.ptes ≡ 1024
table_size vm i table s l e =
    subst HasSize e (All-get_or HasSize vm.pgdir i none (s.1) (omega (arith, s.0, l)))

-- A write to an entry of a table that exists.
module _ (va : ℕ) (pte : Pte) (vm : Vm) (table : PageTable) (s : IsShaped vm)
    (e : get_or vm.pgdir (pdx va) none ≡ some table) where
  abbrev pub new_ptes : PageTable
  new_ptes = record table { ptes = set table.ptes (ptx va) pte }

  pub set_pte_eq : set_pte va pte vm ≡ record vm { pgdir = set vm.pgdir (pdx va) (some new_ptes) }
  unfolding set_pte
  set_pte_eq = rw (set_pte, e) refl

  pte_at_eq : pte_at va vm ≡ get_or table.ptes (ptx va) no_pte
  unfolding pte_at
  pte_at_eq = rw (pte_at, e) refl

  pub set_pte_weight :
      (p : ℕ)
      → holdings p (set_pte va pte vm) + pte_weight p (pte_at va vm)
        ≡ holdings p vm + pte_weight p pte
  unfolding holdings table_weight
  set_pte_weight p =
      let size = table_size vm (pdx va) table s (pdx_lem va) e in
      let outer =
        total-set (table_weight p) vm.pgdir (pdx va) (some new_ptes) none
          (omega (arith, s.0, pdx_lem va)) in
      let old : table_weight p (get_or vm.pgdir (pdx va) none)
          ≡ is_one (table.frame == p) + total (pte_weight p) table.ptes =
        ap (table_weight p) e in
      let inner =
        total-set (pte_weight p) table.ptes (ptx va) pte no_pte (omega (arith, size, ptx_lem va)) in
      rw (set_pte_eq, pte_at_eq) (omega (arith, outer, inner, old))

  pub set_pte-IsShaped : IsShaped (set_pte va pte vm)
  set_pte-IsShaped =
      let size = table_size vm (pdx va) table s (pdx_lem va) e in
      rw set_pte_eq (
        omega (arith, length-set vm.pgdir (pdx va) (some new_ptes), s.0),
        All-set HasSize vm.pgdir (pdx va) (some new_ptes) (s.1)
            (omega (arith, size, length-set table.ptes (ptx va) pte)),
      )
