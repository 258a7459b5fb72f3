-- ===== src/Block/Returns.antt =====
-- fs.c: where `bmap` returns, and that it keeps a file sound.
use op_sys.Base.{
  total, total-set, index_of, index_of_holds, length, get_or, set, ℕ, ◌+◌, ◌-◌, ◌≤◌, ◌<◌, ◌≡◌, Bool,
  true, false, not, some, List, [], ◌∷◌, arith, dec_lt, ℕ_discrete,
}
use op_sys.Block.{Blocks, write_block, bzero, first_free, balloc, direct, indirect, bmap}
use op_sys.Block.Mapped.{IsFile, IsMapped}
use op_sys.Block.Indirect.{bmap-IsMapped}

abbrev pub is_free : Bool → ℕ
is_free true = 0
is_free false = 1

-- How many blocks are free.
abbrev pub free_count : Blocks → ℕ
free_count fs = total is_free fs.used

some_free : (used : List Bool) → 0 < total is_free used → index_of not used < length used
unfolding index_of total
some_free [] h = absurd (omega (arith, h))
some_free (false ∷ used) h = omega arith
some_free (true ∷ used) h = ground (arith, some_free used (omega (arith, h)))

balloc_returns :
    (fs : Blocks)
    → 0 < free_count fs
    → (fs' : Blocks) × (b : ℕ) × (balloc fs ≡ some (fs', b)) × (free_count fs' + 1 ≡ free_count fs)
unfolding balloc bzero
balloc_returns fs h =
    let l = some_free fs.used h in
    let i = first_free fs in
    let now = total-set is_free fs.used i true false l in
    let was : is_free (get_or fs.used i false) ≡ 1 =
      ground (arith, index_of_holds not fs.used false l) in
    (
      bzero i (record fs { used = set fs.used i true }),
      i,
      ground (arith, l),
      omega (arith, now, was),
    )

direct_returns :
    (i : ℕ) (addrs : List ℕ) (fs : Blocks)
    → 0 < free_count fs
    → (r : List ℕ × Blocks × ℕ) × (direct i addrs fs ≡ some r)
      × (free_count fs ≤ free_count (r.1) + 1)
unfolding direct
direct_returns i addrs fs h = elim (ℕ_discrete (get_or addrs i 0) 0) [
  | no n ↦ ((addrs, fs, get_or addrs i 0), ground (arith, n), omega arith)
  | yes z ↦
      let (fs', b, e, c) = balloc_returns fs h in
      ((set addrs i b, fs', b), ground (arith, z, e), omega (arith, c))
]

indirect_returns :
    (i block : ℕ) (addrs : List ℕ) (fs : Blocks)
    → 0 < free_count fs
    → (r : List ℕ × Blocks × ℕ) × (indirect i block addrs fs ≡ some r)
unfolding indirect
indirect_returns i block addrs fs h = elim (ℕ_discrete (get_or (fs.words block) i 0) 0) [
  | no n ↦ ((addrs, fs, get_or (fs.words block) i 0), ground (arith, n))
  | yes z ↦
      let (fs', b, e, c) = balloc_returns fs h in
      (
        (addrs, record fs' { words = write_block fs'.words block (set (fs'.words block) i b) }, b),
        ground (arith, z, e),
      )
]

bmap_returns :
    (bn : ℕ) (addrs : List ℕ) (fs : Blocks)
    → bn < 140
    → 2 ≤ free_count fs
    → (r : List ℕ × Blocks × ℕ) × (bmap bn addrs fs ≡ some r)
unfolding bmap
bmap_returns bn addrs fs k h = elim (dec_lt bn 12) [
  | yes l ↦
      let (r, e, c) = direct_returns bn addrs fs (omega (arith, h)) in (r, ground (arith, l, e))
  | no l ↦
      let ((addrs1, fs1, block), e, c) = direct_returns 12 addrs fs (omega (arith, h)) in
      let (r, f) = indirect_returns (bn - 12) block addrs1 fs1 (omega (arith, h, c)) in
      (r, ground (arith, l, k, e, f))
]

-- For a number below MAXFILE and where at least two blocks are free, `bmap` returns. It gives a block
-- that is not 0 and is the block of the file with this number from then on. It was so before, or there
-- was none and the block was free. The other blocks of the file are the same, and no block in
-- use is freed.
pub bmap_total :
    (bn : ℕ) (addrs : List ℕ) (fs : Blocks)
    → bn < 140
    → 2 ≤ free_count fs
    → IsFile addrs fs
    → (r : List ℕ × Blocks × ℕ) × (bmap bn addrs fs ≡ some r) × IsMapped bn addrs fs r
bmap_total bn addrs fs k h f =
    let (r, e) = bmap_returns bn addrs fs k h in (r, e, bmap-IsMapped bn addrs fs r f e)
