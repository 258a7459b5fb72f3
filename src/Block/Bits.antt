-- ===== src/Block/Bits.antt =====
-- fs.c: what allocating and freeing do to the bit map.
use op_sys.Base.{
  ◌==◌, if◌then◌else◌, get_or-set, index_of_holds, length, get_or, set, length-set, ℕ, ◌<◌, ◌≡◌,
  refl, subst, Bool, true, false, not, some, arith, dec_lt,
}
use op_sys.Block.{Blocks, zeros, write_block, bzero, first_free, balloc}

abbrev pub is_used : ℕ → Blocks → Bool
is_used b fs = get_or fs.used b false

-- What `balloc` gives: a free block, which is in use after it and filled with zeros. Nothing else is changed.
abbrev pub IsTaken : Blocks → Blocks × ℕ → Type 0
IsTaken fs (fs', b) =
    (b < length fs.used)
    × (is_used b fs ≡ false)
    × ((c : ℕ) → is_used c fs' ≡ (if c == b then true else is_used c fs))
    × ((c : ℕ) → fs'.words c ≡ (if c == b then zeros else fs.words c))
    × (length fs'.used ≡ length fs.used)

pub balloc-IsTaken : (fs : Blocks) (r : Blocks × ℕ) → balloc fs ≡ some r → IsTaken fs r
unfolding balloc bzero write_block
balloc-IsTaken fs r h = elim (dec_lt (first_free fs) (length fs.used)) [
  | no n ↦ absurd (ground (arith, n, h))
  | yes l ↦
      let fs' : Blocks =
        bzero (first_free fs) (record fs { used = set fs.used (first_free fs) true }) in
      let eq : (fs', first_free fs) ≡ r = ground (arith, l, h) in
      subst (IsTaken fs) eq (
        l,
        ground (arith, index_of_holds not fs.used false l),
        λ c. ground (arith, get_or-set fs.used (first_free fs) c true false l),
        λ c. refl,
        length-set fs.used (first_free fs) true,
      )
]
