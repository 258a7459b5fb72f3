-- ===== src/Pages.antt =====
-- kalloc.c: the allocator of physical pages.
-- A page is the virtual address of its first byte, the free list is the list of pages on it, and
-- `end`, the first address after the kernel, is set by the linker. The lock makes each call one
-- step; `memset` of a freed page is not modelled, as no free page is read.
pub mod Owners
mod Tests
use op_sys.Base.{
  ltb, leb, ◌==◌, if◌then◌else◌, ℕ, zero, suc, ◌+◌, ◌-◌, ◌*◌, ◌/◌, ◌%◌, Bool, not, ◌&&◌, Option,
  none, some, List, [], ◌∷◌,
}

abbrev pub pgsize : ℕ
pgsize = 4096

abbrev pub kernbase : ℕ
kernbase = 2147483648

abbrev pub phystop : ℕ
phystop = 234881024

-- `V2P(v)`, with the wrap of `uint`
abbrev pub v2p : ℕ → ℕ
v2p v = (v + 4294967296 - kernbase) % 4294967296

abbrev pub may_free : ℕ → ℕ → Bool
may_free end v = (v % pgsize == 0) && not (ltb v end) && ltb (v2p v) phystop

-- `none` is a panic.
unfoldable pub kfree : ℕ → ℕ → List ℕ → Option (List ℕ)
kfree end v free = if may_free end v then some (v ∷ free) else none

unfoldable pub kalloc : List ℕ → List ℕ × Option ℕ
kalloc [] = ([], none)
kalloc (r ∷ free) = (free, some r)

abbrev pub pgroundup : ℕ → ℕ
pgroundup a = (a + pgsize - 1) / pgsize * pgsize

-- The loop of `freerange` from the page `p`, with fuel. No range wraps around.
unfoldable pub freerange_loop : ℕ → ℕ → ℕ → ℕ → List ℕ → Option (List ℕ)
unfolding kfree
freerange_loop zero end p vend free = none
freerange_loop (suc fuel) end p vend free =
    if leb (p + pgsize) vend
    then elim (kfree end p free) [
      | none ↦ none
      | some free' ↦ freerange_loop fuel end (p + pgsize) vend free'
    ]
    else some free

unfoldable pub freerange : ℕ → ℕ → ℕ → List ℕ → Option (List ℕ)
unfolding freerange_loop
freerange end vstart vend free =
    freerange_loop ((vend - pgroundup vstart) / pgsize + 1) end (pgroundup vstart) vend free
