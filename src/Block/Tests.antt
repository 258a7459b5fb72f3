-- ===== src/Block/Tests.antt =====
-- Tests of the blocks of a file, and their theorems at a disk of six blocks.
use op_sys.Block.Bits.{is_used}
use op_sys.Base.{
  ◌==◌, total, index_of, replicate, length-replicate, ℕ, ◌≤◌, ◌≡◌, refl, sym, ap, Bool, true, false,
  Option, none, some, List, [], ◌∷◌, arith, ℕ_discrete,
}
use op_sys.Block.{Blocks, zeros, write_block, bzero, balloc, direct, indirect, bmap, itrunc}
use op_sys.Block.Mapped.{IsFile, IsMapped}
use op_sys.Block.Trunc.{is_one, IsFreed, IsHeld}
use op_sys.Block.Freed.{file_blocks, itrunc_total}
use op_sys.Block.Returns.{free_count, bmap_total}

-- Blocks 0 and 2 are in use; block 2 is the first of the file.
abbrev six_blocks : Blocks
six_blocks = record { used = true ∷ false ∷ true ∷ false ∷ false ∷ false ∷ []; words = λ b. zeros }

abbrev one_block : List ℕ
one_block = 2 ∷ replicate 12 0

one-IsFile : IsFile one_block six_blocks
one-IsFile = record {
  size = refl;
  boot = refl;
  table = λ n. absurd (n refl);
  room = λ b. length-replicate {A = ℕ} 128 0;
}

-- The number that a call gives, and what it leaves in use.
abbrev outcome : Option (List ℕ × Blocks × ℕ) → ℕ × List Bool
outcome none = (0, [])
outcome (some (addrs, fs, b)) = (b, fs.used)

runs :
    (outcome (bmap 0 one_block six_blocks) ≡ (2, six_blocks.used))
    × (outcome (bmap 1 one_block six_blocks) ≡ (1, true ∷ true ∷ true ∷ false ∷ false ∷ false ∷ []))
    × (outcome (bmap 12 one_block six_blocks) ≡ (3, true ∷ true ∷ true ∷ true ∷ false ∷ false ∷ []))
    × (bmap 140 one_block six_blocks ≡ none)
unfolding bmap direct indirect balloc bzero write_block index_of
runs = (refl, refl, refl, refl)

two_free : 2 ≤ free_count six_blocks
unfolding total
two_free = omega arith

bmap_total_example :
    (r : List ℕ × Blocks × ℕ) × (bmap 12 one_block six_blocks ≡ some r)
    × IsMapped 12 one_block six_blocks r
bmap_total_example = bmap_total 12 one_block six_blocks (omega arith) two_free one-IsFile

one-IsHeld : IsHeld (file_blocks one_block six_blocks) six_blocks
unfolding total
one-IsHeld c n =
    let zero_none : is_one (0 == c) ≡ 0 = ground (arith, n) in
    elim (ℕ_discrete 2 c) [
      | yes e ↦
          let here : is_one (2 == c) ≡ 1 = ground (arith, e) in
          (omega (arith, zero_none, here), λ k. ap (λ i. is_used i six_blocks) (sym e))
      | no m ↦
          let away : is_one (2 == c) ≡ 0 = ground (arith, m) in
          (omega (arith, zero_none, away), λ k. absurd (omega (arith, k, zero_none, away)))
    ]

itrunc_total_example :
    (fs' : Blocks) × (itrunc one_block six_blocks ≡ some (replicate 13 0, fs'))
    × IsFreed (file_blocks one_block six_blocks) six_blocks fs'
itrunc_total_example = itrunc_total one_block six_blocks one-IsHeld
