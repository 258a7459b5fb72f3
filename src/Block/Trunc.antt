-- ===== src/Block/Trunc.antt =====
-- fs.c: freeing the blocks of a list, each of which is in use and stands in it once.
use op_sys.Base.{
  ◌==◌, if◌then◌else◌, get_or-set, total, length, get_or, set, ℕ, zero, suc, ◌+◌, ◌≤◌, ◌<◌, ◌≡◌,
  refl, sym, ap, ◌∙◌, ◌≢◌, Bool, true, false, some, List, [], ◌∷◌, arith, ℕ_discrete,
}
use op_sys.Block.{Blocks, bfree, free_all}
use op_sys.Block.Bits.{is_used}

abbrev pub is_one : Bool → ℕ
is_one true = 1
is_one false = 0

-- How often a block is in a list.
abbrev pub times : ℕ → List ℕ → ℕ
times c bs = total (λ b. is_one (b == c)) bs

-- What freeing the blocks of a list does.
abbrev pub IsFreed : List ℕ → Blocks → Blocks → Type 0
IsFreed bs fs fs' =
    ((c : ℕ) → c ≢ 0 → is_used c fs' ≡ (if times c bs == 0 then is_used c fs else false))
    × (is_used 0 fs' ≡ is_used 0 fs)
    × (fs.words ≡ fs'.words)

-- Each block that is not 0 is in use, and in the list once.
abbrev pub IsHeld : List ℕ → Blocks → Type 0
IsHeld bs fs = (c : ℕ) → c ≢ 0 → (times c bs ≤ 1) × (0 < times c bs → is_used c fs ≡ true)

used_below : (c : ℕ) (xs : List Bool) → get_or xs c false ≡ true → c < length xs
used_below c [] e = absurd (ground (arith, e))
used_below zero (x ∷ xs) e = omega arith
used_below (suc c) (x ∷ xs) e = omega (arith, used_below c xs e)

bfree_returns :
    (b : ℕ) (fs : Blocks)
    → is_used b fs ≡ true
    → (fs' : Blocks) × (bfree b fs ≡ some fs')
      × ((c : ℕ) → is_used c fs' ≡ (if b == c then false else is_used c fs))
      × (fs.words ≡ fs'.words)
unfolding bfree
bfree_returns b fs u = (
  record fs { used = set fs.used b false },
  ground (arith, u),
  λ c. get_or-set fs.used b c false false (used_below b fs.used u),
  refl,
)

times_ne : (b c : ℕ) (bs : List ℕ) → b ≢ c → times c (b ∷ bs) ≡ times c bs
unfolding total
times_ne b c bs n = let other : is_one (b == c) ≡ 0 = ground (arith, n) in omega (arith, other)

times_eq : (b c : ℕ) (bs : List ℕ) → b ≡ c → times c (b ∷ bs) ≡ 1 + times c bs
unfolding total
times_eq b c bs e = let same : is_one (b == c) ≡ 1 = ground (arith, e) in omega (arith, same)

free_all-skip : (b : ℕ) (bs : List ℕ) (fs : Blocks) → b ≡ 0 → free_all (b ∷ bs) fs ≡ free_all bs fs
unfolding free_all
free_all-skip b bs fs z = ground (arith, z)

skip-IsFreed :
    (b : ℕ) (bs : List ℕ) (fs fs' : Blocks) → b ≡ 0 → IsFreed bs fs fs' → IsFreed (b ∷ bs) fs fs'
skip-IsFreed b bs fs fs' z (used, zero_used, words) =
    (λ c n. let same = times_ne b c bs (λ e. n (sym e ∙ z)) in rw same (used c n), zero_used, words)

-- A block is freed, and then the others.
then-IsFreed :
    (b : ℕ) (bs : List ℕ) (fs fs1 fs' : Blocks)
    → b ≢ 0
    → times b bs ≡ 0
    → ((c : ℕ) → is_used c fs1 ≡ (if b == c then false else is_used c fs))
    → (fs.words ≡ fs1.words)
    → IsFreed bs fs1 fs'
    → IsFreed (b ∷ bs) fs fs'
then-IsFreed b bs fs fs1 fs' nz once first w (used, zero_used, words) = (
  λ c n. elim (ℕ_discrete b c) [
    | no m ↦
        rw (times_ne b c bs m)
          (used c n ∙ ap (λ u. if times c bs == 0 then u else false) (ground (arith, first c, m)))
    | yes e ↦
        let more = times_eq b c bs e in
        let none_left : times c bs ≡ 0 = ap (λ d. times d bs) (sym e) ∙ once in
        let gone : is_used c fs1 ≡ false = ground (arith, first c, e) in
        let right : (times c (b ∷ bs) == 0) ≡ false = ground (arith, more) in
        rw right (ground (arith, used c n, none_left, gone))
  ],
  zero_used ∙ ground (arith, first 0, nz),
  w ∙ words,
)

times_nil : (c : ℕ) → times c [] ≡ 0
unfolding total
times_nil c = refl

pub free_all_lem :
    (bs : List ℕ) (fs : Blocks)
    → IsHeld bs fs
    → (fs' : Blocks) × (free_all bs fs ≡ some fs') × IsFreed bs fs fs'
unfolding free_all
free_all_lem [] fs held = (fs, refl, nothing)
  where
    nothing : IsFreed [] fs fs
    nothing = (λ c n. ground (arith, times_nil c), refl, refl)
free_all_lem (b ∷ bs) fs held = elim (ℕ_discrete b 0) [
  | yes z ↦
      let rest : IsHeld bs fs = λ c n. rw (sym (times_ne b c bs (λ e. n (sym e ∙ z)))) (held c n) in
      let (fs', e, freed) = free_all_lem bs fs rest in
      (fs', free_all-skip b bs fs z ∙ e, skip-IsFreed b bs fs fs' z freed)
  | no nz ↦
      let more = times_eq b b bs refl in
      let own = held b nz in
      let (fs1, f, first, w) = bfree_returns b fs (own.1 (omega (arith, more))) in
      let rest : IsHeld bs fs1 = λ c n. elim (ℕ_discrete b c) [
        | no m ↦ (
          omega (arith, (held c n).0, times_ne b c bs m),
          λ k. ground (arith, first c, m, (held c n).1 (omega (arith, k, times_ne b c bs m))),
        )
        | yes e ↦ (
          omega (arith, (held c n).0, times_eq b c bs e),
          λ k. absurd (omega (arith, k, (held c n).0, times_eq b c bs e)),
        )
      ] in
      let (fs', e, freed) = free_all_lem bs fs1 rest in
      (
        fs',
        ground (arith, nz, f, e),
        then-IsFreed b bs fs fs1 fs' nz (omega (arith, more, own.0)) first w freed,
      )
]
