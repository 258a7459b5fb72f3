-- ===== src/Vm.antt =====
-- vm.c and proc.c: the page directory of a process, and how its memory grows and shrinks.
-- A physical address in an entry is written as the kernel's address of the page, `P2V` of it, which is the
-- page as kalloc.c knows it. A page table stands in its directory's entry. The bytes of the
-- pages are not modelled. A pointer to a table entry is the address it is for. Sizes are at most KERNBASE,
-- so that no address wraps.
pub mod Shape
pub mod Walk
pub mod Drop
pub mod Conserve
pub mod Space
pub mod Clear
pub mod Fill
pub mod Grow
pub mod Returns
pub mod Total
pub mod Alloc
pub mod Resize
mod Tests
use op_sys.Base.{
  ltb, leb, ◌==◌, if◌then◌else◌, word, get_or, set, replicate, ℕ, zero, suc, ◌+◌, ◌-◌, ◌*◌, ◌/◌,
  ◌%◌, Bool, true, false, not, Option, none, some, List, dec_lt,
}
use op_sys.Pages.{pgsize, kernbase, kfree, kalloc, pgroundup}

-- A `pte_t`: PTE_P, the page of PTE_ADDR, and the other flags.
pub record Pte : Type 0 where
  pub present : Bool
  pub page : ℕ
  pub flags : ℕ

-- 0
abbrev pub no_pte : Pte
no_pte = record { present = false; page = kernbase; flags = 0 }

-- A present entry of the directory: the page of the table, and its contents.
pub record PageTable : Type 0 where
  pub frame : ℕ
  pub ptes : List Pte

-- The directory of a process, and the free list of kalloc.c.
pub record Vm : Type 0 where
  pub pgdir : List (Option PageTable)
  pub free : List ℕ

abbrev pub pdx : ℕ → ℕ
pdx va = va / 4194304 % 1024

abbrev pub ptx : ℕ → ℕ
ptx va = va / 4096 % 1024

abbrev pub user_writable : ℕ
user_writable = 6

abbrev pub empty_table : ℕ → PageTable
empty_table frame = record { frame = frame; ptes = replicate 1024 no_pte }

-- A new table for the entry, unless no page is free.
unfoldable pub add_table : ℕ → Vm → List ℕ × Option ℕ → Vm × Bool
add_table i vm (free, none) = (record vm { free = free }, false)
add_table i vm (free, some frame) =
    (record vm { pgdir = set vm.pgdir i (some (empty_table frame)); free = free }, true)

-- Whether the result is not null.
unfoldable pub walkpgdir : ℕ → Bool → Vm → Vm × Bool
walkpgdir va alloc vm = elim (get_or vm.pgdir (pdx va) none) [
  | some table ↦ (vm, true)
  | none ↦ if not alloc then (vm, false) else add_table (pdx va) vm (kalloc vm.free)
]

-- `*pte`, where `walkpgdir` gave a pointer for `va`.
unfoldable pub pte_at : ℕ → Vm → Pte
pte_at va vm = elim (get_or vm.pgdir (pdx va) none) [
  | none ↦ no_pte
  | some table ↦ get_or table.ptes (ptx va) no_pte
]

-- An assignment to `*pte`.
unfoldable pub set_pte : ℕ → Pte → Vm → Vm
set_pte va pte vm = elim (get_or vm.pgdir (pdx va) none) [
  | none ↦ vm
  | some table ↦ record vm {
    pgdir = set vm.pgdir (pdx va) (some (record table { ptes = set table.ptes (ptx va) pte }));
  }
]

-- One turn of `mappages`: `none` is the panic, and `false` the result -1.
unfoldable pub map_page : ℕ → ℕ → ℕ → Vm → Option (Vm × Bool)
map_page a page perm vm =
    let walked = walkpgdir a true vm in
    if not (walked.1)
    then some (walked.0, false)
    else if (pte_at a (walked.0)).present
    then none
    else some (set_pte a (record { present = true; page = page; flags = perm }) (walked.0), true)

-- The loop of `mappages`, with as many turns after this one as there are pages from `a` to `last`.
unfoldable pub map_loop : ℕ → ℕ → ℕ → ℕ → Vm → Option (Vm × Bool)
map_loop zero a page perm vm = map_page a page perm vm
map_loop (suc n) a page perm vm = elim (map_page a page perm vm) [
  | none ↦ none
  | some (vm', false) ↦ some (vm', false)
  | some (vm', true) ↦ map_loop n (a + pgsize) (page + pgsize) perm vm'
]

abbrev pub pgrounddown : ℕ → ℕ
pgrounddown a = a / pgsize * pgsize

-- No range wraps around.
unfoldable pub mappages : ℕ → ℕ → ℕ → ℕ → Vm → Option (Vm × Bool)
mappages va size page perm vm =
    map_loop ((pgrounddown (va + size - 1) - pgrounddown va) / pgsize) (pgrounddown va) page perm vm

-- The page of an entry is freed and the entry cleared. `none` is a panic, here and below.
unfoldable pub free_page : ℕ → ℕ → Vm → Option Vm
free_page end a vm =
    if (pte_at a vm).page == kernbase then none else elim (kfree end (pte_at a vm).page vm.free) [
      | none ↦ none
      | some free ↦ some (set_pte a no_pte (record vm { free = free }))
    ]

-- One turn of `deallocuvm`, and the address of the next.
unfoldable pub drop_page : ℕ → ℕ → Vm → Option (Vm × ℕ)
drop_page end a vm =
    if not (walkpgdir a false vm).1
    then some (vm, (pdx a + 1) * 4194304)
    else if (pte_at a vm).present
    then elim (free_page end a vm) [ none ↦ none | some vm' ↦ some (vm', a + pgsize) ]
    else some (vm, a + pgsize)

-- The loop of `deallocuvm`, on fuel.
unfoldable pub drop_loop : ℕ → ℕ → ℕ → ℕ → Vm → Option Vm
drop_loop zero end a oldsz vm = some vm
drop_loop (suc fuel) end a oldsz vm = elim (dec_lt a oldsz) [
  | no past ↦ some vm
  | yes below ↦ elim (drop_page end a vm) [
    | none ↦ none
    | some (vm', next) ↦ drop_loop fuel end next oldsz vm'
  ]
]

unfoldable pub deallocuvm : ℕ → ℕ → ℕ → Vm → Option (Vm × ℕ)
deallocuvm end oldsz newsz vm =
    if leb oldsz newsz
    then some (vm, oldsz)
    else elim (drop_loop ((oldsz - pgroundup newsz) / pgsize + 1) end (pgroundup newsz) oldsz vm) [
      | none ↦ none
      | some vm' ↦ some (vm', newsz)
    ]

-- The end of one turn of `allocuvm`: the page is mapped, or there is none, or there is none for its
-- table.
pub data Grown : Type 0 where
  mapped : Vm → Grown
  no_page : Vm → Grown
  no_table : ℕ → Vm → Grown

unfoldable pub after_map : ℕ → Option (Vm × Bool) → Option Grown
after_map mem none = none
after_map mem (some (vm, true)) = some (mapped vm)
after_map mem (some (vm, false)) = some (no_table mem vm)

unfoldable pub grow_page : ℕ → Vm → Option Grown
grow_page a vm = elim (kalloc vm.free).1 [
  | none ↦ some (no_page vm)
  | some mem ↦
      after_map mem (mappages a pgsize mem user_writable (record vm { free = (kalloc vm.free).0 }))
]

-- What `allocuvm` does when memory runs out, with the page that it frees.
unfoldable pub give_up : ℕ → ℕ → ℕ → Option ℕ → Vm → Option (Vm × ℕ)
give_up end oldsz newsz mem vm = elim (deallocuvm end newsz oldsz vm) [
  | none ↦ none
  | some (vm', r) ↦ elim mem [
    | none ↦ some (vm', 0)
    | some page ↦ elim (kfree end page vm'.free) [
      | none ↦ none
      | some free ↦ some (record vm' { free = free }, 0)
    ]
  ]
]

-- The loop of `allocuvm`, on fuel.
unfoldable pub grow_loop : ℕ → ℕ → ℕ → ℕ → ℕ → Vm → Option (Vm × ℕ)
grow_loop zero end a oldsz newsz vm = some (vm, newsz)
grow_loop (suc fuel) end a oldsz newsz vm = elim (dec_lt a newsz) [
  | no past ↦ some (vm, newsz)
  | yes below ↦ elim (grow_page a vm) [
    | none ↦ none
    | some (no_page vm') ↦ give_up end oldsz newsz none vm'
    | some (no_table mem vm') ↦ give_up end oldsz newsz (some mem) vm'
    | some (mapped vm') ↦ grow_loop fuel end (a + pgsize) oldsz newsz vm'
  ]
]

unfoldable pub allocuvm : ℕ → ℕ → ℕ → Vm → Option (Vm × ℕ)
allocuvm end oldsz newsz vm =
    if leb kernbase newsz
    then some (vm, 0)
    else if ltb newsz oldsz
    then some (vm, oldsz)
    else grow_loop ((newsz - pgroundup oldsz) / pgsize + 1) end (pgroundup oldsz) oldsz newsz vm

-- The assignments of `growproc` after a new size, unless it is 0: the size of the process, its
-- memory, and whether the result is 0.
unfoldable pub resized : ℕ → Option (Vm × ℕ) → Option (ℕ × Vm × Bool)
resized old none = none
resized old (some (vm, sz)) = if sz == 0 then some (old, vm, false) else some (sz, vm, true)

-- `growproc` of a process of `old` bytes; `n` is the 32 bits of an `int`.
unfoldable pub growproc : ℕ → ℕ → ℕ → Vm → Option (ℕ × Vm × Bool)
growproc end n old vm =
    if n == 0
    then some (old, vm, true)
    else if ltb n 2147483648
    then resized old (allocuvm end old ((old + n) % word) vm)
    else resized old (deallocuvm end old ((old + n) % word) vm)
