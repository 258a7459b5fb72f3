-- ===== src/Tree/Tour.antt =====
-- tree.c: the way from a leaf to the root, and the locks that a thread takes and gives back on it.
use mathlib.Core.List.{append_assoc}
use op_sys.Base.{
  ◌==◌, if◌then◌else◌, Bool-cases, length, get_or, set, length-set, length-map, get_or-set_self,
  get_or-set_ne, ℕ, zero, suc, ◌+◌, ◌≤◌, ◌<◌, ◌≡◌, refl, sym, ap, ap₂, ◌∙◌, ◌⊎◌, inl, inr, Bool,
  true, false, ◌||◌, Option, none, some, List, [], ◌∷◌, ◌++◌, map, arith,
}
use op_sys.Tree.{
  Tree, leaf, node, Globals, Ancestor, find_leaf, acquire_path, release_path, trnmnt_tree_release,
}
use op_sys.Tree.Create.{leaves, range, range-append, IsComplete}

abbrev pub has : ℕ → List ℕ → Bool
has x [] = false
has x (b ∷ bs) = if x == b then true else has x bs

abbrev pub levels : List Ancestor → List ℕ
levels path = map (λ a. a.0) path

abbrev pub mutexes_of : List Ancestor → List (Option ℕ)
mutexes_of path = map (λ a. a.1) path

has-append : (x : ℕ) (bs cs : List ℕ) → has x (bs ++ cs) ≡ (has x bs || has x cs)
has-append x [] cs = refl
has-append x (b ∷ bs) cs = ground (arith, has-append x bs cs)

levels_snoc :
    (path : List Ancestor) (a : Ancestor) → levels (path ++ a ∷ []) ≡ levels path ++ a.0 ∷ []
levels_snoc [] a = refl
levels_snoc (b ∷ path) a = ap (λ l. b.0 ∷ l) (levels_snoc path a)

range_snoc : (d : ℕ) → range 0 d ++ d ∷ [] ≡ range 0 (suc d)
unfolding range
range_snoc d =
    ap (λ a. range 0 d ++ a ∷ []) {y = 0 + d} (omega arith)
    ∙ range-append 0 d 1
    ∙ ap (range 0) {y = suc d} (omega arith)

-- What a search for `id` in a complete tree of depth `d` gives: nothing if no leaf has the index, and
-- otherwise one ancestor for each level from 0 up to the tree's root, and then those above it.
abbrev pub IsFound : ℕ → Tree → ℕ → List Ancestor → Type 0
IsFound d t id up =
    ((find_leaf t id up ≡ none) × (has id (leaves t) ≡ false))
    ⊎ ((own : List Ancestor) × (find_leaf t id up ≡ some (own ++ up))
        × (levels own ≡ range 0 d)
        × (has id (leaves t) ≡ true))

pub find_leaf_lem :
    (d : ℕ) (t : Tree) (id : ℕ) (up : List Ancestor) → IsComplete d t → IsFound d t id up
unfolding find_leaf leaves range
find_leaf_lem zero (leaf i) id up c = elim (Bool-cases (id == i)) [
  | inl e ↦ inr ([], ground arith, refl, ground arith)
  | inr e ↦ inl (ground arith, ground arith)
]
find_leaf_lem zero (node level i m l r) id up c = absurd c
find_leaf_lem (suc d) (leaf i) id up c = absurd c
find_leaf_lem (suc d) (node level i m l r) id up c =
    both (find_leaf_lem d l id ((level, m) ∷ up) (c.1))
      (find_leaf_lem d r id ((level, m) ∷ up) (c.2))
  where
    whole :
        (own : List Ancestor)
        → levels own ≡ range 0 d
        → levels (own ++ (level, m) ∷ []) ≡ range 0 (suc d)
    whole own e = levels_snoc own (level, m) ∙ ap₂ (λ xs x. xs ++ x ∷ []) e (c.0) ∙ range_snoc d

    both :
        IsFound d l id ((level, m) ∷ up)
        → IsFound d r id ((level, m) ∷ up)
        → IsFound (suc d) (node level i m l r) id up
    both (inr (own, e, k, h)) other = inr (
      own ++ (level, m) ∷ [],
      rw e (ap some (sym (append_assoc own ((level, m) ∷ []) up))),
      whole own k,
      ground (arith, has-append id (leaves l) (leaves r), h),
    )
    both (inl (e, h)) (inr (own, f, k, g)) = inr (
      own ++ (level, m) ∷ [],
      rw (e, f) (ap some (sym (append_assoc own ((level, m) ∷ []) up))),
      whole own k,
      ground (arith, has-append id (leaves l) (leaves r), h, g),
    )
    both (inl (e, h)) (inl (f, g)) =
        inl (rw (e, f) refl, ground (arith, has-append id (leaves l) (leaves r), h, g))

-- The list from its end.
unfoldable pub rev {ℓ} : {A : Type ℓ} → List A → List A
rev [] = []
rev (x ∷ xs) = rev xs ++ x ∷ []

cons_head : {a b : ℕ} {xs ys : List ℕ} → a ∷ xs ≡ b ∷ ys → a ≡ b
cons_head h = cc

cons_tail : {a b : ℕ} {xs ys : List ℕ} → a ∷ xs ≡ b ∷ ys → xs ≡ ys
cons_tail h = cc

-- Where every lock call returns 0, a path over the levels from `k` on is locked in its order, and
-- `lockPath` has at each of its levels the mutex of that level.
acquire_path_lem :
    (locks : Option ℕ → Bool) (path : List Ancestor) (k : ℕ) (lp : List (Option ℕ))
    → ((m : Option ℕ) → locks m ≡ true)
    → levels path ≡ range k (length path)
    → k + length path ≤ length lp
    → let r = acquire_path locks path lp in
      (r.0 ≡ mutexes_of path)
      × (r.2 ≡ true)
      × ((i : ℕ) → i < length path → get_or r.1 (k + i) none ≡ get_or (mutexes_of path) i none)
      × ((i : ℕ) → i < k → get_or r.1 i none ≡ get_or lp i none)
unfolding acquire_path range
acquire_path_lem locks [] k lp h e l = (refl, refl, λ i lt. absurd (omega arith), λ i lt. refl)
acquire_path_lem locks ((level, m) ∷ up) k lp h e l =
    let here : level ≡ k = cons_head e in
    let set_lp : List (Option ℕ) = set lp level m in
    let ih =
      acquire_path_lem locks up (suc k) set_lp h (cons_tail e)
        (omega (arith, length-set lp level m)) in
    rw (h m) (
      ap (λ xs. m ∷ xs) (ih.0),
      ih.1,
      λ i lt.
          at_level (acquire_path locks up set_lp).1 (ih.2)
            (ih.3 k (omega arith)
              ∙ ap (λ x. get_or set_lp x none) (sym here)
              ∙ get_or-set_self lp level m none (omega arith))
            i lt,
      λ i lt. ih.3 i (omega arith) ∙ get_or-set_ne lp level i m none (omega arith),
    )
  where
    at_level :
        (out : List (Option ℕ))
        → ((i : ℕ) → i < length up → get_or out (suc k + i) none ≡ get_or (mutexes_of up) i none)
        → get_or out k none ≡ m
        → (i : ℕ) → i < suc (length up)
        → get_or out (k + i) none ≡ get_or (m ∷ mutexes_of up) i none
    at_level out rest first zero lt = ap (λ x. get_or out x none) {x = k + 0} (omega arith) ∙ first
    at_level out rest first (suc i) lt =
        ap (λ x. get_or out x none) {x = k + suc i} {y = suc k + i} (omega arith)
        ∙ rest i (omega arith)

-- The calls of a release of the levels below `n`, where each returns 0.
unfoldable pub back : ℕ → List (Option ℕ) → List (Option ℕ)
back zero ms = []
back (suc i) ms = get_or ms i none ∷ back i ms

release_path_lem :
    (unlocks : Option ℕ → Bool) (n : ℕ) (lp ms : List (Option ℕ))
    → ((m : Option ℕ) → unlocks m ≡ true)
    → ((i : ℕ) → i < n → get_or lp i none ≡ get_or ms i none)
    → ((release_path unlocks n lp).0 ≡ back n ms) × ((release_path unlocks n lp).2 ≡ true)
unfolding release_path back
release_path_lem unlocks zero lp ms h e = (refl, refl)
release_path_lem unlocks (suc n) lp ms h e =
    let ih =
      release_path_lem unlocks n (set lp n (some 0)) ms h
        (λ i lt. get_or-set_ne lp n i (some 0) none (omega arith) ∙ e i (omega arith)) in
    rw (h (get_or lp n none)) (ap₂ (λ x xs. x ∷ xs) (e n (omega arith)) (ih.0), ih.1)

back_cons :
    (n : ℕ) (m : Option ℕ) (ms : List (Option ℕ)) → back (suc n) (m ∷ ms) ≡ back n ms ++ m ∷ []
unfolding back
back_cons zero m ms = refl
back_cons (suc n) m ms = ap (λ xs. get_or ms n none ∷ xs) (back_cons n m ms)

back-rev : (ms : List (Option ℕ)) → back (length ms) ms ≡ rev ms
unfolding back rev
back-rev [] = refl
back-rev (m ∷ ms) = back_cons (length ms) m ms ∙ ap (λ xs. xs ++ m ∷ []) (back-rev ms)

length-range : (a n : ℕ) → length (range a n) ≡ n
unfolding range
length-range a zero = refl
length-range a (suc n) = ap suc (length-range (suc a) n)

length-levels : (path : List Ancestor) (n : ℕ) → levels path ≡ range 0 n → length path ≡ n
length-levels path n e =
    sym (length-map (λ (a : Ancestor). a.0) path) ∙ ap length e ∙ length-range 0 n

-- An acquire along the path locks its mutexes in their order and returns 0, and the release after it
-- unlocks them in the opposite order and returns 0.
abbrev pub IsToured :
    Globals → List (Option ℕ) → (Option ℕ → Bool) → (Option ℕ → Bool) → List Ancestor → Type 0
IsToured g lp locks unlocks path =
    let a = acquire_path locks path lp in
    let r = trnmnt_tree_release unlocks g (a.1) in
    (a.0 ≡ mutexes_of path) × (a.2 ≡ true) × (r.0 ≡ rev (mutexes_of path)) × (r.2 ≡ true)

toured :
    (d : ℕ) (g : Globals) (lp : List (Option ℕ)) (locks unlocks : Option ℕ → Bool)
    (path : List Ancestor)
    → levels path ≡ range 0 (suc d)
    → length lp ≡ suc d
    → g.tree_depth ≡ suc d
    → ((m : Option ℕ) → locks m ≡ true)
    → ((m : Option ℕ) → unlocks m ≡ true)
    → IsToured g lp locks unlocks path
toured d g lp locks unlocks path e size depth h k =
    let long : length path ≡ suc d = length-levels path (suc d) e in
    let a =
      acquire_path_lem locks path 0 lp h (e ∙ ap (range 0) (sym long))
        (omega (arith, long, size)) in
    let r =
      release_path_lem unlocks (suc d) (acquire_path locks path lp).1 (mutexes_of path) k (λ i lt.
        ap (λ x. get_or (acquire_path locks path lp).1 x none) {y = 0 + i} (omega arith)
        ∙ a.2 i (omega (arith, long))) in
    rw depth (
      a.0,
      a.1,
      r.0
          ∙ ap (λ n. back n (mutexes_of path))
              (sym long ∙ sym (length-map (λ (x : Ancestor). x.1) path))
          ∙ back-rev (mutexes_of path),
      r.1,
    )

-- In a tree of a depth of at least 1 as `trnmnt_tree_alloc` makes it, an index that no leaf has is not
-- found, and any other leads to one ancestor for each level. If every lock call and every unlock
-- call returns 0, and no tree of another depth has been allocated since, an acquire locks the
-- mutexes of these ancestors from level 0 up to the root's, which is the same for every leaf; and
-- the release after it unlocks the same mutexes in the opposite order.
pub trnmnt_tree_tour :
    (d level index id : ℕ) (m : Option ℕ) (l r : Tree) (g : Globals) (lp : List (Option ℕ))
    (locks unlocks : Option ℕ → Bool)
    → IsComplete (suc d) (node level index m l r)
    → length lp ≡ suc d
    → g.tree_depth ≡ suc d
    → ((m : Option ℕ) → locks m ≡ true)
    → ((m : Option ℕ) → unlocks m ≡ true)
    → ((find_leaf (node level index m l r) id [] ≡ none)
        × (has id (leaves (node level index m l r)) ≡ false))
      ⊎ ((path : List Ancestor) × (find_leaf (node level index m l r) id []
            ≡ some (path ++ (d, m) ∷ []))
          × (has id (leaves (node level index m l r)) ≡ true)
          × IsToured g lp locks unlocks (path ++ (d, m) ∷ []))
unfolding find_leaf leaves
trnmnt_tree_tour d level index id m l r g lp locks unlocks c size depth h k =
    both (find_leaf_lem d l id ((level, m) ∷ []) (c.1))
      (find_leaf_lem d r id ((level, m) ∷ []) (c.2))
  where
    both :
        IsFound d l id ((level, m) ∷ [])
        → IsFound d r id ((level, m) ∷ [])
        → ((find_leaf (node level index m l r) id [] ≡ none)
            × (has id (leaves (node level index m l r)) ≡ false))
          ⊎ ((path : List Ancestor) × (find_leaf (node level index m l r) id []
                ≡ some (path ++ (d, m) ∷ []))
              × (has id (leaves (node level index m l r)) ≡ true)
              × IsToured g lp locks unlocks (path ++ (d, m) ∷ []))
    both (inr (own, e, q, w)) other = inr (
      own,
      rw e (ap (λ a. some (own ++ (a, m) ∷ [])) (c.0)),
      ground (arith, has-append id (leaves l) (leaves r), w),
      toured d g lp locks unlocks (own ++ (d, m) ∷ [])
          (levels_snoc own (d, m) ∙ ap (λ xs. xs ++ d ∷ []) q ∙ range_snoc d) size depth h k,
    )
    both (inl (e, w)) (inr (own, f, q, i)) = inr (
      own,
      rw (e, f) (ap (λ a. some (own ++ (a, m) ∷ [])) (c.0)),
      ground (arith, has-append id (leaves l) (leaves r), w, i),
      toured d g lp locks unlocks (own ++ (d, m) ∷ [])
          (levels_snoc own (d, m) ∙ ap (λ xs. xs ++ d ∷ []) q ∙ range_snoc d) size depth h k,
    )
    both (inl (e, w)) (inl (f, i)) =
        inl (rw (e, f) refl, ground (arith, has-append id (leaves l) (leaves r), w, i))
