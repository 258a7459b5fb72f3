-- ===== src/Block/Mapped.antt =====
-- fs.c: the blocks of a file that `bmap` gives.
use op_sys.Base.{
  ltb, ◌==◌, if◌then◌else◌, Option-cases, length, get_or, set, get_or-set_self, set-get_or,
  get_or-set_ne, ℕ, ◌-◌, ◌<◌, ◌≡◌, refl, sym, ap, subst, ◌∙◌, ◌≢◌, ◌⊎◌, inl, inr, true, false, some,
  List, arith, dec_lt, ℕ_discrete,
}
use op_sys.Block.{ndirect, Blocks, balloc, direct}
use op_sys.Block.Bits.{is_used, IsTaken, balloc-IsTaken}

-- The word in the indirect block, if there is one.
abbrev pub in_table : ℕ → ℕ → (ℕ → List ℕ) → ℕ
in_table block i words = if block == 0 then 0 else get_or (words block) i 0

-- The block of a file with a number, or 0.
abbrev pub block_of : ℕ → List ℕ → Blocks → ℕ
block_of bn addrs fs =
    if ltb bn ndirect
    then get_or addrs bn 0
    else in_table (get_or addrs ndirect 0) (bn - ndirect) fs.words

-- The indirect block is in use if there is one, and so is block 0, the boot block; every block has
-- its 128 words.
pub record IsFile (addrs : List ℕ) (fs : Blocks) : Type 0 where
  pub size : length addrs ≡ 13
  pub boot : is_used 0 fs ≡ true
  pub table : get_or addrs ndirect 0 ≢ 0 → is_used (get_or addrs ndirect 0) fs ≡ true
  pub room : (b : ℕ) → length (fs.words b) ≡ 128

-- What `direct` gives: the word is not 0, it is the old one or a free block, and nothing else of
-- `addrs` is changed; blocks in use stay in use and keep their contents.
abbrev pub IsDirect : ℕ → List ℕ → Blocks → List ℕ × Blocks × ℕ → Type 0
IsDirect i addrs fs (addrs', fs', b) =
    (b ≢ 0)
    × (addrs' ≡ set addrs i b)
    × ((get_or addrs i 0 ≡ b × (fs ≡ fs')) ⊎ ((get_or addrs i 0 ≡ 0) × IsTaken fs (fs', b)))

pub direct-IsDirect :
    (i : ℕ) (addrs : List ℕ) (fs : Blocks) (r : List ℕ × Blocks × ℕ)
    → is_used 0 fs ≡ true
    → direct i addrs fs ≡ some r
    → IsDirect i addrs fs r
unfolding direct
direct-IsDirect i addrs fs r boot h = elim (ℕ_discrete (get_or addrs i 0) 0) [
  | no n ↦
      let eq : (addrs, fs, get_or addrs i 0) ≡ r = ground (arith, n, h) in
      subst (IsDirect i addrs fs) eq (n, sym (set-get_or addrs i 0), inl (refl, refl))
  | yes z ↦ elim (Option-cases (balloc fs)) [
    | inl e ↦ absurd (ground (arith, z, e, h))
    | inr ((fs', b), e) ↦
        let t = balloc-IsTaken fs (fs', b) e in
        let eq : (set addrs i b, fs', b) ≡ r = ground (arith, z, e, h) in
        subst (IsDirect i addrs fs) eq
          (λ k. absurd (ground (arith, boot, t.1, ap (λ c. is_used c fs) k)), refl, inr (z, t))
  ]
]

-- A block in use is not the one that is taken.
pub taken_apart :
    (fs fs' : Blocks) (b c : ℕ) → IsTaken fs (fs', b) → is_used c fs ≡ true → (c == b) ≡ false
taken_apart fs fs' b c t u = elim (ℕ_discrete c b) [
  | no n ↦ ground (arith, n)
  | yes e ↦ absurd (ground (arith, u, t.1, ap (λ c. is_used c fs) e))
]

-- A block in use stays in use, and keeps its contents.
pub kept_used :
    (i : ℕ) (addrs : List ℕ) (fs : Blocks) (addrs' : List ℕ) (fs' : Blocks) (b c : ℕ)
    → IsDirect i addrs fs (addrs', fs', b)
    → is_used c fs ≡ true
    → (is_used c fs' ≡ true) × (fs'.words c ≡ fs.words c)
kept_used i addrs fs addrs' fs' b c (n, a, inl (o, e)) u =
    (ap (is_used c) (sym e) ∙ u, ap (λ s. s.words c) (sym e))
kept_used i addrs fs addrs' fs' b c (n, a, inr (z, t)) u =
    let other = taken_apart fs fs' b c t u in
    (ground (arith, t.2 c, other, u), ground (arith, t.3 c, other))

-- A table that is there before a word of `addrs` in front of it is allocated has the same words.
pub table_kept :
    (i j : ℕ) (addrs : List ℕ) (fs : Blocks) (addrs' : List ℕ) (fs' : Blocks) (b block : ℕ)
    → IsDirect i addrs fs (addrs', fs', b)
    → (block ≢ 0 → is_used block fs ≡ true)
    → in_table block j fs'.words ≡ in_table block j fs.words
table_kept i j addrs fs addrs' fs' b block d used = elim (ℕ_discrete block 0) [
  | yes z ↦ ground (arith, z)
  | no n ↦ ground (arith, n, (kept_used i addrs fs addrs' fs' b block d (used n)).1)
]

-- What `bmap` gives: a block that is not 0 and is the one with this number from then on. It was
-- so before, or there was none and the block was free. The other blocks of the file are
-- the same, and no block is freed.
abbrev pub IsMapped : ℕ → List ℕ → Blocks → List ℕ × Blocks × ℕ → Type 0
IsMapped bn addrs fs (addrs', fs', b) =
    (b ≢ 0)
    × (block_of bn addrs' fs' ≡ b)
    × ((block_of bn addrs fs ≡ b) ⊎ ((block_of bn addrs fs ≡ 0) × (is_used b fs ≡ false)))
    × ((o : ℕ) → o ≢ bn → block_of o addrs' fs' ≡ block_of o addrs fs)
    × ((c : ℕ) → is_used c fs ≡ true → is_used c fs' ≡ true)

pub direct-IsMapped :
    (bn : ℕ) (addrs : List ℕ) (fs : Blocks) (r : List ℕ × Blocks × ℕ)
    → bn < 12
    → IsFile addrs fs
    → direct bn addrs fs ≡ some r
    → IsMapped bn addrs fs r
direct-IsMapped bn addrs fs (addrs', fs', b) l f h =
    let d = direct-IsDirect bn addrs fs (addrs', fs', b) (f.boot) h in
    let size : bn < length addrs = omega (arith, f.size, l) in
    let here : get_or addrs' bn 0 ≡ b =
      ap (λ a. get_or a bn 0) (d.1) ∙ get_or-set_self addrs bn b 0 size in
    let there : (o : ℕ) → o ≢ bn → get_or addrs' o 0 ≡ get_or addrs o 0 =
      λ o n. ap (λ a. get_or a o 0) (d.1) ∙ get_or-set_ne addrs bn o b 0 (λ e. n (sym e)) in
    (
      d.0,
      ground (arith, l, here),
      elim (d.2) [
        | inl (e, k) ↦ inl (ground (arith, l, e))
        | inr (z, t) ↦ inr (ground (arith, l, z), t.1)
      ],
      λ o n. elim (dec_lt o 12) [
        | yes k ↦ ground (arith, k, there o n)
        | no k ↦
            let top = there 12 (λ e. omega (arith, e, l)) in
            ground (
              arith,
              k,
              ap (λ block. in_table block (o - 12) fs'.words) top,
              table_kept bn (o - 12) addrs fs addrs' fs' b (get_or addrs 12 0) d (f.table),
            )
      ],
      λ c u. (kept_used bn addrs fs addrs' fs' b c d u).0,
    )
