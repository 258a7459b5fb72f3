-- ===== src/Block/Indirect.antt =====
-- fs.c: `bmap` gives a block of the file, and no other block of the file becomes another.
use op_sys.Base.{
  Bool-cases, Option-cases, length, get_or, set, length-replicate, get_or-set_self, get_or-set_ne,
  get_or-replicate, ℕ, ◌+◌, ◌-◌, ◌<◌, ◌≡◌, refl, sym, ap, subst, ◌∙◌, ◌≢◌, ◌⊎◌, inl, inr, true,
  false, some, List, arith, dec_lt, ℕ_discrete,
}
use op_sys.Block.{Blocks, zeros, write_block, balloc, direct, indirect, bmap}
use op_sys.Block.Bits.{is_used, balloc-IsTaken}
use op_sys.Block.Mapped.{
  in_table, block_of, IsFile, IsDirect, direct-IsDirect, taken_apart, kept_used, table_kept,
  IsMapped, direct-IsMapped,
}

-- With the indirect block there, which is empty if it is new, the blocks of the file are the same.
table_there :
    (addrs : List ℕ) (fs : Blocks) (addrs' : List ℕ) (fs' : Blocks) (block : ℕ)
    → IsFile addrs fs
    → IsDirect 12 addrs fs (addrs', fs', block)
    → (get_or addrs' 12 0 ≡ block)
      × (is_used block fs' ≡ true)
      × (length (fs'.words block) ≡ 128)
      × ((o : ℕ) → block_of o addrs' fs' ≡ block_of o addrs fs)
table_there addrs fs addrs' fs' block f d = (here, used, long, keeps)
  where
    here : get_or addrs' 12 0 ≡ block
    here = ap (λ a. get_or a 12 0) (d.1) ∙ get_or-set_self addrs 12 block 0 (omega (arith, f.size))

    used : is_used block fs' ≡ true
    used = elim (d.2) [
      | inl (e, k) ↦
          (kept_used 12 addrs fs addrs' fs' block block d
            (ap (λ c. is_used c fs) (sym e) ∙ f.table (λ z. d.0 (sym e ∙ z)))).0
      | inr (z, t) ↦ ground (arith, t.2 block)
    ]

    long : length (fs'.words block) ≡ 128
    long = elim (d.2) [
      | inl (e, k) ↦ ap (λ s. length (s.words block)) (sym k) ∙ f.room block
      | inr (z, t) ↦
          let new : fs'.words block ≡ zeros = ground (arith, t.3 block) in
          ap length new ∙ length-replicate {A = ℕ} 128 0
    ]

    zero_old : (o : ℕ) → get_or addrs 12 0 ≡ 0 → in_table (get_or addrs 12 0) o fs.words ≡ 0
    zero_old o z = ground (arith, z)

    table_same : (o : ℕ) → in_table block o fs'.words ≡ in_table (get_or addrs 12 0) o fs.words
    table_same o = elim (d.2) [
      | inl (e, k) ↦
          ap (λ c. in_table c o fs'.words) (sym e)
          ∙ table_kept 12 o addrs fs addrs' fs' block (get_or addrs 12 0) d (f.table)
      | inr (z, t) ↦
          let n = d.0 in
          let new : fs'.words block ≡ zeros = ground (arith, t.3 block) in
          let nothing : get_or (fs'.words block) o 0 ≡ 0 =
            ap (λ xs. get_or xs o 0) new ∙ get_or-replicate 128 o 0 in
          ground (arith, n, nothing) ∙ sym (zero_old o z)
    ]

    keeps : (o : ℕ) → block_of o addrs' fs' ≡ block_of o addrs fs
    keeps o = elim (dec_lt o 12) [
      | yes l ↦ ground (
        arith,
        l,
        ap (λ a. get_or a o 0) (d.1) ∙ get_or-set_ne addrs 12 o block 0 (λ e. omega (arith, e, l)),
      )
      | no l ↦ ground (arith, l, ap (λ c. in_table c (o - 12) fs'.words) here ∙ table_same (o - 12))
    ]

-- What `indirect` gives in a table that is in use.
abbrev IsWord : ℕ → ℕ → List ℕ → Blocks → List ℕ × Blocks × ℕ → Type 0
IsWord i block addrs fs (addrs', fs', b) =
    (b ≢ 0)
    × (addrs ≡ addrs')
    × (get_or (fs'.words block) i 0 ≡ b)
    × ((get_or (fs.words block) i 0 ≡ b)
        ⊎ ((get_or (fs.words block) i 0 ≡ 0) × (is_used b fs ≡ false)))
    × ((j : ℕ) → i ≢ j → get_or (fs'.words block) j 0 ≡ get_or (fs.words block) j 0)
    × ((c : ℕ) → is_used c fs ≡ true → is_used c fs' ≡ true)

indirect-IsWord :
    (i block : ℕ) (addrs : List ℕ) (fs : Blocks) (r : List ℕ × Blocks × ℕ)
    → is_used 0 fs ≡ true
    → is_used block fs ≡ true
    → i < length (fs.words block)
    → indirect i block addrs fs ≡ some r
    → IsWord i block addrs fs r
unfolding indirect write_block
indirect-IsWord i block addrs fs r boot u l h = elim (ℕ_discrete (get_or (fs.words block) i 0) 0) [
  | no n ↦
      let eq : (addrs, fs, get_or (fs.words block) i 0) ≡ r = ground (arith, n, h) in
      subst (IsWord i block addrs fs) eq (n, refl, refl, inl refl, λ j k. refl, λ c v. v)
  | yes z ↦ elim (Option-cases (balloc fs)) [
    | inl e ↦ absurd (ground (arith, z, e, h))
    | inr ((fs1, b), e) ↦
        let t = balloc-IsTaken fs (fs1, b) e in
        let fs2 : Blocks = record fs1 {
          words = write_block fs1.words block (set (fs1.words block) i b);
        } in
        let eq : (addrs, fs2, b) ≡ r = ground (arith, z, e, h) in
        let same : fs1.words block ≡ fs.words block =
          ground (arith, t.3 block, taken_apart fs fs1 b block t u) in
        let written : fs2.words block ≡ set (fs.words block) i b =
          ground arith ∙ ap (λ xs. set xs i b) same in
        subst (IsWord i block addrs fs) eq (
          λ k. absurd (ground (arith, boot, t.1, ap (λ c. is_used c fs) k)),
          refl,
          ap (λ xs. get_or xs i 0) written ∙ get_or-set_self (fs.words block) i b 0 l,
          inr (z, t.1),
          λ j n. ap (λ xs. get_or xs j 0) written ∙ get_or-set_ne (fs.words block) i j b 0 n,
          λ c v. ground (arith, t.2 c, v),
        )
  ]
]

through_table :
    (i : ℕ) (addrs : List ℕ) (fs : Blocks) (addrs1 : List ℕ) (fs1 : Blocks) (block : ℕ)
    (r : List ℕ × Blocks × ℕ)
    → i < 128
    → IsFile addrs fs
    → IsDirect 12 addrs fs (addrs1, fs1, block)
    → indirect i block addrs1 fs1 ≡ some r
    → IsMapped (i + 12) addrs fs r
through_table i addrs fs addrs1 fs1 block (addrs2, fs2, b) l f d h =
    let t = table_there addrs fs addrs1 fs1 block f d in
    let boot = (kept_used 12 addrs fs addrs1 fs1 block 0 d (f.boot)).0 in
    let w =
      indirect-IsWord i block addrs1 fs1 (addrs2, fs2, b) boot (t.1) (omega (arith, l, t.2)) h in
    let top : get_or addrs2 12 0 ≡ block = ap (λ a. get_or a 12 0) (sym (w.1)) ∙ t.0 in
    let nonzero = d.0 in
    let there : (s : Blocks) (a : List ℕ) (o : ℕ)
        → get_or a 12 0 ≡ block
        → ¬ (o < 12)
        → block_of o a s ≡ get_or (s.words block) (o - 12) 0 =
      λ s a o e n. ground (arith, n, nonzero, ap (λ c. in_table c (o - 12) s.words) e) in
    let far : ¬ (i + 12 < 12) = λ k. omega (arith, k) in
    let place : (i + 12) - 12 ≡ i = omega arith in
    let before : block_of (i + 12) addrs fs ≡ get_or (fs1.words block) i 0 =
      sym (t.3 (i + 12))
      ∙ there fs1 addrs1 (i + 12) (t.0) far
      ∙ ap (λ j. get_or (fs1.words block) j 0) place in
    (
      w.0,
      there fs2 addrs2 (i + 12) top far ∙ ap (λ j. get_or (fs2.words block) j 0) place ∙ w.2,
      elim (w.3) [ inl e ↦ inl (before ∙ e) | inr (e, u) ↦ inr (before ∙ e, unused_before b u) ],
      λ o n. elim (dec_lt o 12) [
        | yes k ↦ ground (arith, k, ap (λ a. get_or a o 0) (sym (w.1))) ∙ t.3 o
        | no k ↦
            there fs2 addrs2 o top k
            ∙ w.4 (o - 12) (λ e. n (omega (arith, e, k)))
            ∙ sym (there fs1 addrs1 o (t.0) k)
            ∙ t.3 o
      ],
      λ c u. w.5 c (kept_used 12 addrs fs addrs1 fs1 block c d u).0,
    )
  where
    unused_before : (c : ℕ) → is_used c fs1 ≡ false → is_used c fs ≡ false
    unused_before c u = elim (Bool-cases (is_used c fs)) [
      | inr e ↦ e
      | inl e ↦ absurd (ground (arith, u, (kept_used 12 addrs fs addrs1 fs1 block c d e).0))
    ]

-- When `bmap` returns for a file, it gives a block that is not 0 and is the block with this number from
-- then on. It was so before, or there was none and the block was free. The other blocks of the file
-- are the same, and no block in use is freed.
pub bmap-IsMapped :
    (bn : ℕ) (addrs : List ℕ) (fs : Blocks) (r : List ℕ × Blocks × ℕ)
    → IsFile addrs fs
    → bmap bn addrs fs ≡ some r
    → IsMapped bn addrs fs r
unfolding bmap
bmap-IsMapped bn addrs fs r f h = elim (dec_lt bn 12) [
  | yes l ↦ direct-IsMapped bn addrs fs r l f (ground (arith, l, h))
  | no l ↦ elim (dec_lt bn 140) [
    | no k ↦ absurd (ground (arith, l, k, h))
    | yes k ↦ elim (Option-cases (direct 12 addrs fs)) [
      | inl e ↦ absurd (ground (arith, l, k, e, h))
      | inr ((addrs1, fs1, block), e) ↦
          let d = direct-IsDirect 12 addrs fs (addrs1, fs1, block) (f.boot) e in
          let rest : indirect (bn - 12) block addrs1 fs1 ≡ some r = ground (arith, l, k, e, h) in
          subst (λ n. IsMapped n addrs fs r) (omega (arith, l))
            (through_table (bn - 12) addrs fs addrs1 fs1 block r (omega (arith, l, k)) f d rest)
    ]
  ]
]
