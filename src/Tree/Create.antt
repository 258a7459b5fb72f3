-- ===== src/Tree/Create.antt =====
-- tree.c: the tree that `create_tree` builds is complete, and its leaves are numbered in order.
use op_sys.Base.{
  Bool-cases, length, get_or, set, replicate, length-set, length-replicate, get_or-set_self,
  get_or-set_ne, get_or-replicate, ℕ, zero, suc, ◌+◌, ◌<◌, ◌≡◌, refl, sym, ap, ap₂, subst, ◌∙◌, inl,
  inr, true, Option, none, some, List, [], ◌∷◌, ◌++◌, arith,
}
use op_sys.Tree.{
  Tree, leaf, node, Globals, is_level, enter_level, count_node, take_mutex, create_tree,
  trnmnt_tree_alloc,
}

-- The indices of the leaves, from left to right.
unfoldable pub leaves : Tree → List ℕ
leaves (leaf i) = i ∷ []
leaves (node level index m l r) = leaves l ++ leaves r

-- `n` numbers from `a` on.
unfoldable pub range : ℕ → ℕ → List ℕ
range a zero = []
range a (suc n) = a ∷ range (suc a) n

pub range-append : (a n m : ℕ) → range a n ++ range (a + n) m ≡ range a (n + m)
unfolding range
range-append a zero m = ap₂ range {y = a} (omega arith) (omega arith)
range-append a (suc n) m =
    ap (λ xs. a ∷ xs)
      (ap (λ b. range (suc a) n ++ range b m) (omega arith) ∙ range-append (suc a) n m)
    ∙ ap (range a) {x = suc (n + m)} (omega arith)

-- How many leaves a complete tree has.
unfoldable pub leaf_count : ℕ → ℕ
leaf_count zero = 1
leaf_count (suc d) = leaf_count d + leaf_count d

-- The index of the current level is the one to give out next.
abbrev pub IsCurrent : Globals → Type 0
IsCurrent g = (d : ℕ) → g.cur_level ≡ some d → g.index ≡ get_or g.level_index d 0

-- A complete tree of a depth, with the level of each node.
abbrev pub IsComplete : ℕ → Tree → Type 0
IsComplete zero (leaf i) = Unit
IsComplete zero (node level i m l r) = ⊥
IsComplete (suc d) (leaf i) = ⊥
IsComplete (suc d) (node level i m l r) = (level ≡ d) × IsComplete d l × IsComplete d r

-- What creating a tree does: every level above it is as it was, and the leaves go on from the place
-- of the leaves.
abbrev pub IsCreated : ℕ → Globals → Tree × Globals → Type 0
IsCreated d g (t, g') =
    IsComplete d t
    × (leaves t ≡ range (get_or g.level_index 0 0) (leaf_count d))
    × (get_or g'.level_index 0 0 ≡ get_or g.level_index 0 0 + leaf_count d)
    × IsCurrent g'
    × (length g'.level_index ≡ length g.level_index)

-- Entering a level and counting a node.
abbrev counted : ℕ → Globals → Globals
counted d g = count_node d (enter_level d g)

is_level_lem : (c : Option ℕ) (d : ℕ) → is_level c d ≡ true → c ≡ some d
is_level_lem none d h = cc
is_level_lem (some l) d h = ap some (ground arith)

entered-index :
    (d : ℕ) (g : Globals) → IsCurrent g → (enter_level d g).index ≡ get_or g.level_index d 0
unfolding enter_level
entered-index d g c = elim (Bool-cases (is_level g.cur_level d)) [
  | inl e ↦ rw e (c d (is_level_lem g.cur_level d e))
  | inr e ↦ rw e refl
]

entered_level : (d : ℕ) (g : Globals) → (enter_level d g).cur_level ≡ some d
unfolding enter_level
entered_level d g = elim (Bool-cases (is_level g.cur_level d)) [
  | inl e ↦ rw e (is_level_lem g.cur_level d e)
  | inr e ↦ rw e refl
]

entered_list : (d : ℕ) (g : Globals) → (enter_level d g).level_index ≡ g.level_index
unfolding enter_level
entered_list d g = elim (Bool-cases (is_level g.cur_level d)) [
  | inl e ↦ rw e refl
  | inr e ↦ rw e refl
]

counted_list :
    (d : ℕ) (g : Globals)
    → (enter_level d g).index ≡ get_or g.level_index d 0
    → (counted d g).level_index ≡ set g.level_index d (get_or g.level_index d 0 + 1)
unfolding count_node
counted_list d g e = ap₂ (λ l i. set l d (i + 1)) (entered_list d g) e

counted-IsCurrent :
    (d : ℕ) (g : Globals)
    → d < length g.level_index
    → (enter_level d g).index ≡ get_or g.level_index d 0
    → IsCurrent (counted d g)
unfolding count_node
counted-IsCurrent d g l e k h =
    let same : d ≡ k = ground (arith, sym (entered_level d g) ∙ h) in
    subst (λ k. (enter_level d g).index + 1 ≡ get_or (counted d g).level_index k 0) same
      (sym (
        get_or-set_self (enter_level d g).level_index d ((enter_level d g).index + 1) 0
          (rw (entered_list d g) l)))

-- From any globals whose current level, if it is this one, is counted rightly.
create_tree-IsCreated :
    (d : ℕ) (g : Globals)
    → d < length g.level_index
    → (enter_level d g).index ≡ get_or g.level_index d 0
    → IsCreated d g (create_tree d g)
unfolding create_tree leaves leaf_count range take_mutex
create_tree-IsCreated zero g l e = (
  tt,
  ap (λ i. i ∷ []) e,
  ap (λ li. get_or li 0 0) (counted_list 0 g e)
      ∙ get_or-set_self g.level_index 0 (get_or g.level_index 0 0 + 1) 0 l,
  counted-IsCurrent 0 g l e,
  ap length (counted_list 0 g e) ∙ length-set g.level_index 0 (get_or g.level_index 0 0 + 1),
)
create_tree-IsCreated (suc d) g l e =
    let g2 : Globals = (take_mutex (counted (suc d) g)).0 in
    let list : g2.level_index ≡ set g.level_index (suc d) (get_or g.level_index (suc d) 0 + 1) =
      counted_list (suc d) g e in
    let size : length g2.level_index ≡ length g.level_index =
      ap length list ∙ length-set g.level_index (suc d) (get_or g.level_index (suc d) 0 + 1) in
    let first : get_or g2.level_index 0 0 ≡ get_or g.level_index 0 0 =
      ap (λ li. get_or li 0 0) list
      ∙ get_or-set_ne g.level_index (suc d) 0 (get_or g.level_index (suc d) 0 + 1) 0
          (omega arith) in
    let current : IsCurrent g2 = counted-IsCurrent (suc d) g l e in
    let left = create_tree-IsCreated d g2 (omega (arith, size, l)) (entered-index d g2 current) in
    let g3 : Globals = (create_tree d g2).1 in
    let right =
      create_tree-IsCreated d g3 (omega (arith, size, l, left.4)) (entered-index d g3 (left.3)) in
    (
      (refl, left.0, right.0),
      ap₂ (λ xs ys. xs ++ ys) (left.1 ∙ ap (λ a. range a (leaf_count d)) first)
            (right.1 ∙ ap (λ a. range a (leaf_count d)) (left.2 ∙ ap (λ a. a + leaf_count d) first))
          ∙ range-append (get_or g.level_index 0 0) (leaf_count d) (leaf_count d),
      omega (arith, right.2, left.2, first),
      right.3,
      right.4 ∙ left.4 ∙ size,
    )

root_index :
    (depth : ℕ) (g : Globals)
    → 0 < depth
    → ((d : ℕ) → g.cur_level ≡ some d → d ≡ 0)
    → (enter_level depth
        (record g { tree_depth = depth; level_index = replicate (depth + 1) 0 })).index
      ≡ get_or (replicate (depth + 1) 0) depth 0
unfolding enter_level
root_index depth g h fresh = elim (Bool-cases (is_level g.cur_level depth)) [
  | inl e ↦ absurd (omega (arith, fresh depth (is_level_lem g.cur_level depth e)))
  | inr e ↦ rw e refl
]

-- `trnmnt_tree_alloc` of a depth of at least 1, whatever trees were made before it, makes a complete
-- tree whose leaves are numbered from 0 on from left to right. The globals are as they are
-- after a start or after another tree: no level above the leaves is current.
pub trnmnt_tree_alloc_lem :
    (depth : ℕ) (g : Globals)
    → 0 < depth
    → ((d : ℕ) → g.cur_level ≡ some d → d ≡ 0)
    → (t : Tree) × (g' : Globals) × (trnmnt_tree_alloc depth g ≡ some (t, g'))
      × IsComplete depth t
      × (leaves t ≡ range 0 (leaf_count depth))
unfolding trnmnt_tree_alloc
trnmnt_tree_alloc_lem depth g h fresh =
    let g0 : Globals = record g { tree_depth = depth; level_index = replicate (depth + 1) 0 } in
    let c =
      create_tree-IsCreated depth g0 (omega (arith, length-replicate {A = ℕ} (depth + 1) 0))
        (root_index depth g h fresh) in
    (
      (create_tree depth g0).0,
      (create_tree depth g0).1,
      ground arith,
      c.0,
      c.1 ∙ ap (λ a. range a (leaf_count depth)) (get_or-replicate (depth + 1) 0 0),
    )
