-- ===== src/Block/Freed.antt =====
-- fs.c: `itrunc` frees the blocks of the file and no other.
use op_sys.Base.{
  ◌==◌, if◌then◌else◌, Bool-cases, Option-cases, get_or, set, replicate, take, ℕ, ◌≡◌, refl, sym,
  ap, ◌∙◌, inl, inr, false, some, List, [], ◌∷◌, ◌++◌, arith, ℕ_discrete,
}
use op_sys.Block.{ndirect, nindirect, Blocks, bfree, free_all, free_indirect, itrunc}
use op_sys.Block.Trunc.{IsFreed, IsHeld, free_all_lem}

free_all-append :
    (xs ys : List ℕ) (fs fs' : Blocks)
    → free_all (xs ++ ys) fs ≡ some fs'
    → (fs1 : Blocks) × (free_all xs fs ≡ some fs1)
      × (fs.words ≡ fs1.words)
      × (free_all ys fs1 ≡ some fs')
unfolding free_all bfree
free_all-append [] ys fs fs' h = (fs, refl, refl, h)
free_all-append (b ∷ xs) ys fs fs' h = elim (ℕ_discrete b 0) [
  | yes z ↦
      let (fs1, e, w, rest) = free_all-append xs ys fs fs' (ground (arith, z, h)) in
      (fs1, ground (arith, z, e), w, rest)
  | no n ↦ elim (Bool-cases (get_or fs.used b false)) [
    | inr f ↦ absurd (ground (arith, n, f, h))
    | inl t ↦
        let fs2 : Blocks = record fs { used = set fs.used b false } in
        let (fs1, e, w, rest) = free_all-append xs ys fs2 fs' (ground (arith, n, t, h)) in
        (fs1, ground (arith, n, t, e), w, rest)
  ]
]

-- The blocks of a file: the first twelve, those of the indirect block and the indirect block.
abbrev pub table_blocks : ℕ → (ℕ → List ℕ) → List ℕ
table_blocks block words = if block == 0 then [] else take nindirect (words block) ++ block ∷ []

abbrev pub file_blocks : List ℕ → Blocks → List ℕ
file_blocks addrs fs = take ndirect addrs ++ table_blocks (get_or addrs ndirect 0) fs.words

free_indirect_lem :
    (block : ℕ) (fs fs' : Blocks)
    → free_all (table_blocks block fs.words) fs ≡ some fs'
    → free_indirect block fs ≡ some fs'
unfolding free_indirect free_all
free_indirect_lem block fs fs' h = elim (ℕ_discrete block 0) [
  | yes z ↦ ground (arith, z, h)
  | no n ↦
      let (fs1, e, w, rest) =
        free_all-append (take nindirect (fs.words block)) (block ∷ []) fs fs'
          (ground (arith, n, h)) in
      elim (Option-cases (bfree block fs1)) [
        | inl f ↦ absurd (ground (arith, n, f, rest))
        | inr (fs2, f) ↦
            let eq : fs2 ≡ fs' = ground (arith, n, f, rest) in ground (arith, n, e, f, eq)
      ]
]

-- Where every block of a file is in use and is its block once, `itrunc` returns. All words of `addrs`
-- are 0 then, the blocks of the file, the indirect block with them, are free, and every other
-- block is in use or free as before.
pub itrunc_total :
    (addrs : List ℕ) (fs : Blocks)
    → IsHeld (file_blocks addrs fs) fs
    → (fs' : Blocks) × (itrunc addrs fs ≡ some (replicate 13 0, fs'))
      × IsFreed (file_blocks addrs fs) fs fs'
unfolding itrunc
itrunc_total addrs fs held =
    let block = get_or addrs 12 0 in
    let (fs', e, freed) = free_all_lem (file_blocks addrs fs) fs held in
    let (fs1, f, w, rest) =
      free_all-append (take 12 addrs) (table_blocks block fs.words) fs fs' e in
    let last =
      free_indirect_lem block fs1 fs'
        (ap (λ ws. free_all (table_blocks block ws) fs1) (sym w) ∙ rest) in
    (fs', ground (arith, f, last), freed)
