-- ===== src/Pages/Tests.antt =====
-- Tests of the page allocator, and its theorem at a concrete range.
use op_sys.Base.{get_or, count, ℕ, ◌+◌, ◌≤◌, ◌<◌, ◌≡◌, refl, ◌≢◌, true, none, some, List, [], ◌∷◌}
use op_sys.Pages.{kfree, kalloc, freerange}
use op_sys.Pages.Owners.{Holds, kinit1, kinit2, alloc, IsPage, Holds-apart}

-- Two pages behind a kernel that ends in the middle of the page before.
abbrev two_pages : List ℕ
two_pages = 2148540416 ∷ 2148536320 ∷ []

runs :
    (freerange 2148532225 2148532225 2148544512 [] ≡ some two_pages)
    × (kalloc two_pages ≡ (2148536320 ∷ [], some 2148540416))
    × (kfree 2148532225 2148536321 [] ≡ none)
    × (kfree 2148532225 2148532224 [] ≡ none)
    × (kalloc [] ≡ ([], none))
unfolding freerange kalloc kfree
runs = (refl, refl, refl, refl, refl)

-- The page behind the middle comes free with `kinit2`, and is taken.
one_owned :
    Holds 2148532225 2148532225 2148540416 2148544512 true (2148536320 ∷ [], 2148540416 ∷ [])
unfolding freerange kalloc kfree
one_owned = alloc (kinit2 {free' = two_pages} (kinit1 {free = 2148536320 ∷ []} refl) refl) refl

Holds-apart_example :
    ((p : ℕ) → count p (2148536320 ∷ []) + count p (2148540416 ∷ []) ≤ 1)
    × ((free' : List ℕ) (r : ℕ)
        → kalloc (2148536320 ∷ []) ≡ (free', some r)
        → (count r (2148540416 ∷ []) ≡ 0) × IsPage 2148532225 r)
    × ((k : ℕ) → k < 1 → kfree 2148532225 (get_or (2148540416 ∷ []) k 0) (2148536320 ∷ []) ≢ none)
Holds-apart_example = Holds-apart one_owned
