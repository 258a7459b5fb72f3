-- ===== src/Block.antt =====
-- fs.c: the blocks of the disk and those of a file.
-- The bit map of the blocks is the list of its bits, over the `size` of the superblock, and the
-- contents of a block are its 128 words. Writes go through the buffer cache and the log, which
-- keep what is written. An inode is seen as its `addrs`. `none` is a panic.
pub mod Bits
pub mod Mapped
pub mod Indirect
pub mod Returns
pub mod Trunc
pub mod Freed
mod Tests
use op_sys.Base.{
  ltb, ◌==◌, if◌then◌else◌, index_of, length, get_or, set, replicate, take, ℕ, ◌+◌, ◌-◌, Bool, true,
  false, not, Option, none, some, List, [], ◌∷◌,
}

abbrev pub ndirect : ℕ
ndirect = 12

-- `BSIZE / sizeof(uint)`
abbrev pub nindirect : ℕ
nindirect = 128

pub record Blocks : Type 0 where
  pub used : List Bool
  pub words : ℕ → List ℕ

-- A block filled with zeros.
abbrev pub zeros : List ℕ
zeros = replicate nindirect 0

unfoldable pub write_block : (ℕ → List ℕ) → ℕ → List ℕ → ℕ → List ℕ
write_block words b contents c = if c == b then contents else words c

unfoldable pub bzero : ℕ → Blocks → Blocks
bzero b fs = record fs { words = write_block fs.words b zeros }

-- The first block whose bit is 0.
abbrev pub first_free : Blocks → ℕ
first_free fs = index_of not fs.used

unfoldable pub balloc : Blocks → Option (Blocks × ℕ)
balloc fs =
    if ltb (first_free fs) (length fs.used)
    then some (
      bzero (first_free fs) (record fs { used = set fs.used (first_free fs) true }),
      first_free fs,
    )
    else none

unfoldable pub bfree : ℕ → Blocks → Option Blocks
bfree b fs =
    if not (get_or fs.used b false) then none else some (record fs { used = set fs.used b false })

-- `addrs[i]`, which is allocated if it is 0.
unfoldable pub direct : ℕ → List ℕ → Blocks → Option (List ℕ × Blocks × ℕ)
direct i addrs fs =
    if get_or addrs i 0 == 0
    then elim (balloc fs) [ none ↦ none | some (fs', b) ↦ some (set addrs i b, fs', b) ]
    else some (addrs, fs, get_or addrs i 0)

-- `a[i]` in the indirect block, which is allocated if it is 0.
unfoldable pub indirect : ℕ → ℕ → List ℕ → Blocks → Option (List ℕ × Blocks × ℕ)
indirect i block addrs fs =
    if get_or (fs.words block) i 0 == 0
    then elim (balloc fs) [
      | none ↦ none
      | some (fs', b) ↦
          some (
            addrs,
            record fs' { words = write_block fs'.words block (set (fs'.words block) i b) },
            b,
          )
    ]
    else some (addrs, fs, get_or (fs.words block) i 0)

-- The new `addrs`, the blocks and the block's number.
unfoldable pub bmap : ℕ → List ℕ → Blocks → Option (List ℕ × Blocks × ℕ)
bmap bn addrs fs =
    if ltb bn ndirect
    then direct bn addrs fs
    else if ltb (bn - ndirect) nindirect
    then elim (direct ndirect addrs fs) [
      | none ↦ none
      | some (addrs', fs', block) ↦ indirect (bn - ndirect) block addrs' fs'
    ]
    else none

-- `if(a[i]) bfree(a[i])` for each of the words.
unfoldable pub free_all : List ℕ → Blocks → Option Blocks
free_all [] fs = some fs
free_all (b ∷ bs) fs =
    if b == 0
    then free_all bs fs
    else elim (bfree b fs) [ none ↦ none | some fs' ↦ free_all bs fs' ]

-- The indirect block of `itrunc`.
unfoldable pub free_indirect : ℕ → Blocks → Option Blocks
free_indirect block fs =
    if block == 0 then some fs else elim (free_all (take nindirect (fs.words block)) fs) [
      | none ↦ none
      | some fs' ↦ bfree block fs'
    ]

-- The new `addrs`, and the blocks; `size` becomes 0.
unfoldable pub itrunc : List ℕ → Blocks → Option (List ℕ × Blocks)
itrunc addrs fs = elim (free_all (take ndirect addrs) fs) [
  | none ↦ none
  | some fs' ↦ elim (free_indirect (get_or addrs ndirect 0) fs') [
    | none ↦ none
    | some fs'' ↦ some (replicate (ndirect + 1) 0, fs'')
  ]
]
