-- ===== src/Vm/Tests.antt =====
-- Tests of the page directory, and its theorems at a process of one page.
use op_sys.Base.{
  word, set, replicate, All, length-set, length-replicate, All-set, get_or-replicate, ℕ, zero, suc,
  ◌+◌, ◌-◌, ◌*◌, ◌≡◌, refl, ap, ◌∙◌, true, false, Option, none, some, List, [], ◌∷◌, arith, dec_lt,
}
use op_sys.Pages.{kfree, kalloc}
use op_sys.Vm.{
  Pte, no_pte, PageTable, Vm, pdx, user_writable, add_table, walkpgdir, pte_at, set_pte, map_page,
  map_loop, mappages, free_page, drop_page, drop_loop, deallocuvm, after_map, grow_page, give_up,
  grow_loop, allocuvm, resized, growproc,
}
use op_sys.Vm.Shape.{HasSize, IsShaped, IsConserved}
use op_sys.Vm.Drop.{deallocuvm-IsConserved}
use op_sys.Vm.Conserve.{allocuvm-IsConserved}
use op_sys.Vm.Space.{pte_at-none}
use op_sys.Vm.Clear.{IsAll, IsKept, deallocuvm_lem}
use op_sys.Vm.Grow.{IsAllOrNothing}
use op_sys.Vm.Returns.{IsFreeable}
use op_sys.Vm.Alloc.{allocuvm_total}
use op_sys.Vm.Resize.{growproc-IsAll}

abbrev kernel_end : ℕ
kernel_end = 2148532224

abbrev page_at : ℕ → ℕ
page_at i = kernel_end + 4096 * i

abbrev no_tables : List (Option PageTable)
no_tables = replicate 1024 none

-- No memory, and two free pages.
abbrev blank_vm : Vm
blank_vm = record { pgdir = no_tables; free = page_at 0 ∷ page_at 1 ∷ [] }

All-none : (n : ℕ) → All HasSize (replicate n none)
All-none zero = tt
All-none (suc n) = (tt, All-none n)

none-IsShaped : (free : List ℕ) → IsShaped (record { pgdir = no_tables; free = free })
none-IsShaped free = (length-replicate {A = Option PageTable} 1024 none, All-none 1024)

-- A process of one page, with its table in the second page.
abbrev user_page : Pte
user_page = record { present = true; page = page_at 0; flags = user_writable }

abbrev one_table : PageTable
one_table = record { frame = page_at 1; ptes = set (replicate 1024 no_pte) 0 user_page }

abbrev one_page : Vm
one_page = record { pgdir = set no_tables 0 (some one_table); free = [] }

one-IsShaped : IsShaped one_page
one-IsShaped = (
  length-set no_tables 0 (some one_table) ∙ length-replicate {A = Option PageTable} 1024 none,
  All-set HasSize no_tables 0 (some one_table) (All-none 1024)
      (length-set (replicate 1024 no_pte) 0 user_page ∙ length-replicate 1024 no_pte),
)

-- The process after the page is freed.
abbrev emptied : Vm
emptied = set_pte 0 no_pte (record one_page { free = page_at 0 ∷ [] })

abbrev no_size : ℕ
no_size = 0

abbrev one_size : ℕ
one_size = 4096

emptied_lem : deallocuvm kernel_end 4096 0 one_page ≡ some (emptied, 0)
unfolding deallocuvm drop_loop drop_page free_page walkpgdir pte_at kfree dec_lt
emptied_lem = refl

-- The process before and after it gets the page.
grown_lem : allocuvm kernel_end 0 4096 blank_vm ≡ some (one_page, 4096)
unfolding allocuvm grow_loop grow_page mappages map_loop map_page walkpgdir add_table kalloc
    after_map set_pte pte_at dec_lt
grown_lem = refl

-- With one free page the table cannot be made, and the page is free again.
short_of_memory :
    allocuvm kernel_end 0 4096 (record blank_vm { free = page_at 0 ∷ [] })
    ≡ some (record blank_vm { free = page_at 0 ∷ [] }, 0)
unfolding allocuvm grow_loop grow_page mappages map_loop map_page walkpgdir add_table kalloc
    after_map give_up deallocuvm drop_loop drop_page kfree dec_lt
short_of_memory = refl

deallocuvm-IsConserved_example : IsConserved one_page emptied
deallocuvm-IsConserved_example =
    deallocuvm-IsConserved kernel_end 4096 0 0 one_page emptied one-IsShaped emptied_lem

allocuvm-IsConserved_example : IsConserved blank_vm one_page
allocuvm-IsConserved_example =
    allocuvm-IsConserved kernel_end 0 4096 4096 blank_vm one_page
      (none-IsShaped (page_at 0 ∷ page_at 1 ∷ [])) grown_lem

deallocuvm_lem_example : IsAll false 0 4096 emptied × IsKept 0 4096 one_page emptied × (no_size ≡ 0)
deallocuvm_lem_example =
    deallocuvm_lem kernel_end 4096 0 0 one_page emptied (omega arith) (omega arith) one-IsShaped
      emptied_lem

free-IsFreeable : All (IsFreeable kernel_end) (page_at 0 ∷ page_at 1 ∷ [])
free-IsFreeable = ((refl, omega arith), ((refl, omega arith), tt))

blank-IsAll : IsAll false 0 4096 blank_vm
blank-IsAll b q l m =
    ap (λ pte. pte.present) (pte_at-none b blank_vm (get_or-replicate 1024 (pdx b) none))

allocuvm_total_example :
    (vm' : Vm) × (r : ℕ) × (allocuvm kernel_end 0 4096 blank_vm ≡ some (vm', r))
    × IsAllOrNothing 0 4096 r blank_vm vm'
allocuvm_total_example =
    allocuvm_total kernel_end 0 4096 blank_vm (omega arith) (omega arith)
      (none-IsShaped (page_at 0 ∷ page_at 1 ∷ [])) free-IsFreeable blank-IsAll

shrunk_lem : growproc kernel_end (word - 4096) 4096 one_page ≡ some (4096, emptied, false)
unfolding growproc resized
shrunk_lem = rw (growproc, emptied_lem) refl

growproc-IsAll_example : (false ≡ false) × (one_size ≡ 4096) × IsAll false 0 4096 emptied
growproc-IsAll_example =
    growproc-IsAll kernel_end 4096 4096 one_page emptied false (omega arith) (omega arith)
      one-IsShaped shrunk_lem
