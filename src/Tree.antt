-- ===== src/Tree.antt =====
-- tree.c: the tournament tree that user threads lock each other out with.
-- A tree is its nodes; the pointer to a leaf, which the code follows from parent to parent, is the
-- leaf's index with its ancestors from its parent up to the root. The mutex id of a leaf is never
-- set: it is what `malloc` left there, a parameter. An id that is -1 is `none`. `malloc` does
-- not fail here, as the code does not test it.
pub mod Create
pub mod Tour
mod Tests
use op_sys.Base.{
  ltb, ◌==◌, if◌then◌else◌, get_or, set, replicate, ℕ, zero, suc, ◌+◌, Bool, true, false, Option,
  none, some, List, [], ◌∷◌,
}
use op_sys.Mutex.{MutexTable, kthread_mutex_alloc, kthread_mutex_dealloc}

-- `struct tree_node`; a node's level is 0 above the leaves.
pub data Tree : Type 0 where
  leaf : (index : ℕ) → Tree
  node : (level index : ℕ) (mutex_id : Option ℕ) (left right : Tree) → Tree

-- The globals of the file and the mutexes of the kernel. Of `level_index` only `depth + 1` places
-- are used. The level -1 of the leaves is 0 in `cur_level`, a level `l` is `l + 1`, and the initial -2
-- is `none`.
pub record Globals : Type 0 where
  pub tree_depth : ℕ
  pub level_index : List ℕ
  pub index : ℕ
  pub cur_level : Option ℕ
  pub mutex_table : MutexTable

abbrev pub is_level : Option ℕ → ℕ → Bool
is_level none d = false
is_level (some l) d = l == d

-- The first test of `create_tree`, for `depth` one more than `d`.
unfoldable pub enter_level : ℕ → Globals → Globals
enter_level d g =
    if is_level g.cur_level d
    then g
    else record g { index = get_or g.level_index d 0; cur_level = some d }

-- The node's index is given out.
unfoldable pub count_node : ℕ → Globals → Globals
count_node d g = record g { index = g.index + 1; level_index = set g.level_index d (g.index + 1) }

unfoldable pub take_mutex : Globals → Globals × Option ℕ
take_mutex g = (
  record g { mutex_table = (kthread_mutex_alloc g.mutex_table).0 },
  (kthread_mutex_alloc g.mutex_table).1,
)

-- `create_tree` with `depth` one more than `d`.
unfoldable pub create_tree : ℕ → Globals → Tree × Globals
create_tree zero g = (leaf ((enter_level 0 g).index), count_node 0 (enter_level 0 g))
create_tree (suc d) g =
    let g1 = enter_level (suc d) g in
    let g2 = take_mutex (count_node (suc d) g1) in
    let l = create_tree d (g2.0) in
    let r = create_tree d (l.1) in (node d g1.index (g2.1) (l.0) (r.0), r.1)

-- `none` is a null pointer.
unfoldable pub trnmnt_tree_alloc : ℕ → Globals → Option (Tree × Globals)
trnmnt_tree_alloc depth g =
    if ltb depth 1
    then none
    else some
        (create_tree depth (record g { tree_depth = depth; level_index = replicate (depth + 1) 0 }))

-- An ancestor: its level and its mutex.
abbrev pub Ancestor : Type 0
Ancestor = ℕ × Option ℕ

-- The ancestors of the leaf, from its parent up, in front of those of the node.
unfoldable pub find_leaf : Tree → ℕ → List Ancestor → Option (List Ancestor)
find_leaf (leaf index) id up = if id == index then some up else none
find_leaf (node level index m l r) id up =
    let left = find_leaf l id ((level, m) ∷ up) in
    let right = find_leaf r id ((level, m) ∷ up) in
    elim left [ some path ↦ some path | none ↦ right ]

-- One turn of the loop of `trnmnt_tree_acquire` calls `kthread_mutex_lock`, which returns when it
-- has the mutex, or -1; `locks` says which. The result is the calls that returned 0, the `lockPath` of
-- the leaf, and whether the result is 0.
unfoldable pub acquire_path :
    (Option ℕ → Bool) → List Ancestor → List (Option ℕ) → List (Option ℕ) × List (Option ℕ) × Bool
acquire_path locks [] lock_path = ([], lock_path, true)
acquire_path locks ((level, m) ∷ up) lock_path =
    let rest = acquire_path locks up (set lock_path level m) in
    if locks m then (m ∷ rest.0, rest.1, rest.2) else ([], set lock_path level m, false)

-- The loop of `trnmnt_tree_release`, for the levels below `n`: the calls that returned 0, the
-- `lockPath` after it, and whether the result is 0. A place that is cleared holds the id 0.
unfoldable pub release_path :
    (Option ℕ → Bool) → ℕ → List (Option ℕ) → List (Option ℕ) × List (Option ℕ) × Bool
release_path unlocks zero lock_path = ([], lock_path, true)
release_path unlocks (suc i) lock_path =
    let m = get_or lock_path i none in
    let rest = release_path unlocks i (set lock_path i (some 0)) in
    if unlocks m then (m ∷ rest.0, rest.1, rest.2) else ([], lock_path, false)

-- `trnmnt_tree_release` at the leaf with this `lockPath`. It releases as many levels as the tree that was
-- allocated last has. Behind the end of `lockPath` the model reads -1, and the source what memory holds.
abbrev pub trnmnt_tree_release :
    (Option ℕ → Bool) → Globals → List (Option ℕ) → List (Option ℕ) × List (Option ℕ) × Bool
trnmnt_tree_release unlocks g lock_path = release_path unlocks g.tree_depth lock_path

-- `kthread_mutex_dealloc` of an id that may be -1, which no mutex has.
unfoldable pub dealloc_id : Option ℕ → MutexTable → MutexTable × Bool
dealloc_id none t = (t, false)
dealloc_id (some id) t = kthread_mutex_dealloc id t

-- `garbage` is the mutex id of a leaf. The results for the children are not used.
unfoldable pub delete_node : (ℕ → Option ℕ) → Tree → MutexTable → MutexTable × Bool
delete_node garbage (leaf index) t = dealloc_id (garbage index) t
delete_node garbage (node level index m l r) t =
    let d = dealloc_id m t in
    let dl = delete_node garbage l (d.0) in
    let dr = delete_node garbage r (dl.0) in if d.1 then (dr.0, true) else d
