-- ===== src/Pages/Owners.antt =====
-- kalloc.c: no page is handed out to two owners.
use op_sys.Base.{
  leb, if◌then◌else◌, leb→le, ==_self, Bool-cases, Option-cases, total, length, get_or, All,
  All-get_or, count, remove, count-remove, All-remove, ℕ, zero, suc, ◌+◌, ◌-◌, ◌*◌, ◌/◌, ◌%◌, ◌≤◌,
  ◌<◌, ◌≡◌, refl, ap, subst, ◌≢◌, ◌⊎◌, inl, inr, Bool, true, false, ◌&&◌, none, some, List, [], ◌∷◌,
  arith, dec_lt,
}
use op_sys.Pages.{
  pgsize, phystop, v2p, may_free, kfree, kalloc, pgroundup, freerange_loop, freerange,
}

-- The free pages, and the pages that were handed out and not given back. `kinit1` frees the range up
-- to `mid`, and `kinit2`, once and at any time after it, that from `mid` to `top`; the flag is
-- whether it has.
pub data Holds (end vstart mid top : ℕ) : Bool → List ℕ × List ℕ → Type 0 where
  kinit1 :
      {free : List ℕ}
      → freerange end vstart mid [] ≡ some free
      → Holds end vstart mid top false (free, [])
  kinit2 :
      {free free' owned : List ℕ}
      → Holds end vstart mid top false (free, owned)
      → freerange end mid top free ≡ some free'
      → Holds end vstart mid top true (free', owned)
  alloc :
      {full : Bool} {free free' owned : List ℕ} {r : ℕ}
      → Holds end vstart mid top full (free, owned)
      → kalloc free ≡ (free', some r)
      → Holds end vstart mid top full (free', r ∷ owned)
  release :
      {full : Bool} {free free' owned : List ℕ} (k : ℕ)
      → Holds end vstart mid top full (free, owned)
      → k < length owned
      → kfree end (get_or owned k 0) free ≡ some free'
      → Holds end vstart mid top full (free', remove owned k)

abbrev pub IsPage : ℕ → ℕ → Type 0
IsPage end v = (v % pgsize ≡ 0) × (end ≤ v) × (v2p v < phystop)

-- No page is free or owned twice; and before `kinit2` none lies behind `mid`.
abbrev pub IsApart : ℕ → ℕ → Bool → List ℕ × List ℕ → Type 0
IsApart end mid full (free, owned) =
    ((p : ℕ) → count p free + count p owned ≤ 1)
    × All (IsPage end) free
    × All (IsPage end) owned
    × (full ≡ false → (p : ℕ) → mid < p + pgsize → count p free + count p owned ≡ 0)

kfree_cases :
    (end v : ℕ) (free free' : List ℕ)
    → kfree end v free ≡ some free'
    → IsPage end v × (free' ≡ v ∷ free)
unfolding kfree
kfree_cases end v free free' h = grind arith

kalloc_cases : (free free' : List ℕ) (r : ℕ) → kalloc free ≡ (free', some r) → free ≡ r ∷ free'
unfolding kalloc
kalloc_cases [] free' r h = absurd (ground arith)
kalloc_cases (x ∷ free) free' r h = ground arith

freerange_loop_cases :
    (fuel end p vend : ℕ) (free free' : List ℕ)
    → freerange_loop (suc fuel) end p vend free ≡ some free'
    → (free ≡ free')
      ⊎ ((free1 : List ℕ) × (kfree end p free ≡ some free1)
          × (p + pgsize ≤ vend)
          × (freerange_loop fuel end (p + pgsize) vend free1 ≡ some free'))
unfolding freerange_loop
freerange_loop_cases fuel end p vend free free' h = elim (Option-cases (kfree end p free)) [
  | inl e ↦ inl (grind (arith, e))
  | inr (free1, e) ↦ elim (Bool-cases (leb (p + pgsize) vend)) [
    | inl f ↦ inr (free1, e, leb→le _ _ f, grind (arith, e, f))
    | inr f ↦ inl (grind (arith, f))
  ]
]

freerange_loop_lem :
    (fuel end p vend : ℕ) (free free' : List ℕ)
    → freerange_loop fuel end p vend free ≡ some free'
    → All (IsPage end) free
    → All (IsPage end) free'
      × ((q : ℕ)
          → count q free' ≤ count q free + (if leb p q && leb (q + pgsize) vend then 1 else 0))
unfolding freerange_loop total
freerange_loop_lem zero end p vend free free' h a = absurd (ground arith)
freerange_loop_lem (suc fuel) end p vend free free' h a =
    elim (freerange_loop_cases fuel end p vend free free' h) [
      | inl e ↦
          subst
            (λ fs.
              All (IsPage end) fs
              × ((q : ℕ)
                  → count q fs
                    ≤ count q free + (if leb p q && leb (q + pgsize) vend then 1 else 0)))
            e (a, λ q. ground arith)
      | inr (free1, e, l, f) ↦
          let c = kfree_cases end p free free1 e in
          let ih =
            freerange_loop_lem fuel end (p + pgsize) vend free1 free' f (rw (c.1) (c.0, a)) in
          (ih.0, λ q. ground (arith, l, ih.1 q, ap (count q) (c.1)))
    ]

Holds-IsApart :
    {end vstart mid top : ℕ} {full : Bool} {s : List ℕ × List ℕ}
    → Holds end vstart mid top full s
    → IsApart end mid full s
unfolding total freerange kalloc
Holds-IsApart {end} {vstart} {mid} {top} (kinit1 {free} e) =
    let r = freerange_loop_lem _ end (pgroundup vstart) mid [] free e tt in
    (λ p. ground (arith, r.1 p), r.0, tt, λ f p l. ground (arith, r.1 p, l))
Holds-IsApart {end} {vstart} {mid} {top} (kinit2 {free} {free'} {owned} h e) =
    let c = Holds-IsApart h in
    let r = freerange_loop_lem _ end (pgroundup mid) top free free' e (c.1) in
    (
      λ p. elim (dec_lt mid (p + pgsize)) [
        | yes l ↦ ground (arith, r.1 p, c.3 refl p l)
        | no l ↦
            let away : leb (pgroundup mid) p ≡ false = ground (arith, l) in
            ground (arith, r.1 p, c.0 p, away)
      ],
      r.0,
      c.2,
      λ f. absurd (ground (arith, f)),
    )
Holds-IsApart {end} {mid} (alloc {full} {free} {free'} {owned} {r} h e) =
    let c = Holds-IsApart h in
    let eq : free ≡ r ∷ free' = kalloc_cases free free' r e in
    (
      λ p. ground (arith, c.0 p, ap (count p) eq),
      (subst (All (IsPage end)) eq (c.1)).1,
      ((subst (All (IsPage end)) eq (c.1)).0, c.2),
      λ f p l. ground (arith, c.3 f p l, ap (count p) eq),
    )
Holds-IsApart {end} {mid} (release {full} {free} {free'} {owned} k h l e) =
    let c = Holds-IsApart h in
    let f = kfree_cases end (get_or owned k 0) free free' e in
    (
      λ p. ground (arith, c.0 p, ap (count p) (f.1), count-remove owned k p l),
      rw (f.1) (f.0, c.1),
      All-remove (IsPage end) owned k (c.2),
      λ g p m. ground (arith, c.3 g p m, ap (count p) (f.1), count-remove owned k p l),
    )

-- The fuel of `freerange` is enough: on a range of pages that may be freed it returns.
pub freerange-some :
    (end vstart vend : ℕ) (free : List ℕ)
    → ((q : ℕ) → vstart ≤ q → q + pgsize ≤ vend → q % pgsize ≡ 0 → may_free end q ≡ true)
    → (free' : List ℕ) × (freerange end vstart vend free ≡ some free')
unfolding freerange freerange_loop kfree
freerange-some end vstart vend free h =
    loop ((vend - pgroundup vstart) / pgsize + 1) (pgroundup vstart) free (omega arith)
      (omega arith) (omega arith)
  where
    loop :
        (fuel p : ℕ) (free : List ℕ)
        → vend - p < fuel * pgsize
        → vstart ≤ p
        → p % pgsize ≡ 0
        → (free' : List ℕ) × (freerange_loop fuel end p vend free ≡ some free')
    loop zero p free l s a = absurd (omega arith)
    loop (suc fuel) p free l s a = elim (Bool-cases (leb (p + pgsize) vend)) [
      | inr f ↦ (free, rw f refl)
      | inl f ↦
          let page : may_free end p ≡ true = h p s (leb→le _ _ f) a in
          let (free', e) =
            loop fuel (p + pgsize) (p ∷ free) (omega (arith, leb→le _ _ f)) (omega arith)
              (omega arith) in
          (free', rw (f, page) e)
    ]

-- From `kinit1` on, through `kinit2` whenever it comes, whatever the two adjoining ranges and however
-- pages are handed out and given back: no page is
-- both free and owned, or owned twice, so a page that is handed out has no owner; it is aligned,
-- behind the kernel and below `PHYSTOP`; and giving back an owned page does not panic.
pub Holds-apart :
    {end vstart mid top : ℕ} {full : Bool} {free owned : List ℕ}
    → Holds end vstart mid top full (free, owned)
    → ((p : ℕ) → count p free + count p owned ≤ 1)
      × ((free' : List ℕ) (r : ℕ)
          → kalloc free ≡ (free', some r)
          → (count r owned ≡ 0) × IsPage end r)
      × ((k : ℕ) → k < length owned → kfree end (get_or owned k 0) free ≢ none)
unfolding kfree total
Holds-apart {end} {vstart} {mid} {top} {full} {free} {owned} h =
    let c = Holds-IsApart h in
    (
      c.0,
      λ free' r e.
          let eq : free ≡ r ∷ free' = kalloc_cases free free' r e in
          (
            ground (arith, c.0 r, ap (count r) eq, ==_self r),
            (subst (All (IsPage end)) eq (c.1)).0,
          ),
      λ k l. ground (arith, All-get_or (IsPage end) owned k 0 (c.2) l),
    )
