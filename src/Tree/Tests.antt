-- ===== src/Tree/Tests.antt =====
-- Tests of the tournament tree, and its theorems at a tree of depth 1.
use op_sys.Base.{◌≡◌, refl, ◌⊎◌, true, false, none, some, List, [], ◌∷◌, ◌++◌, arith}
use op_sys.Mutex.{
  MutexTable, cleared, allocated, first_unused, find, kthread_mutex_alloc, dealloc_found,
  kthread_mutex_dealloc,
}
use op_sys.Tree.{
  Tree, leaf, node, Globals, enter_level, count_node, take_mutex, create_tree, trnmnt_tree_alloc,
  Ancestor, find_leaf, release_path, trnmnt_tree_release, dealloc_id, delete_node,
}
use op_sys.Tree.Create.{leaves, range, leaf_count, IsComplete, trnmnt_tree_alloc_lem}
use op_sys.Tree.Tour.{has, IsToured, trnmnt_tree_tour}

-- A table in which slot 0 is taken by another user, and the globals at the start.
abbrev table : MutexTable
table = record { mutexes = allocated 0 ∷ cleared ∷ cleared ∷ []; beyond = cleared }

abbrev at_start : Globals
at_start = record {
  tree_depth = 0;
  level_index = [];
  index = 0;
  cur_level = none;
  mutex_table = table;
}

abbrev small : Tree
small = node 0 0 (some 1) (leaf 0) (leaf 1)

abbrev table_after : MutexTable
table_after = record { mutexes = allocated 0 ∷ allocated 1 ∷ cleared ∷ []; beyond = cleared }

abbrev after_small : Globals
after_small = record {
  tree_depth = 1;
  level_index = 2 ∷ 1 ∷ [];
  index = 2;
  cur_level = some 0;
  mutex_table = table_after;
}

-- The last line: a leaf's id is whatever memory held, and the mutex with that id is lost.
runs :
    (trnmnt_tree_alloc 1 at_start ≡ some (small, after_small))
    × (trnmnt_tree_alloc 0 at_start ≡ none)
    × (find_leaf small 1 [] ≡ some ((0, some 1) ∷ []))
    × (find_leaf small 2 [] ≡ none)
    × ((delete_node (λ i. some 0) small table_after).0
        ≡ record { mutexes = cleared ∷ cleared ∷ cleared ∷ []; beyond = cleared })
unfolding trnmnt_tree_alloc create_tree enter_level count_node take_mutex kthread_mutex_alloc
    first_unused find_leaf delete_node dealloc_id kthread_mutex_dealloc find dealloc_found
runs = (refl, refl, refl, refl, refl)

-- With the depth of another tree in the global the root's mutex stays locked.
other_depth :
    (trnmnt_tree_release (λ m. true) after_small (some 1 ∷ []) ≡ (some 1 ∷ [], some 0 ∷ [], true))
    × (trnmnt_tree_release (λ m. true) (record after_small { tree_depth = 0 }) (some 1 ∷ [])
        ≡ ([], some 1 ∷ [], true))
unfolding release_path
other_depth = (refl, refl)

trnmnt_tree_alloc_lem_example :
    (t : Tree) × (g' : Globals) × (trnmnt_tree_alloc 1 after_small ≡ some (t, g'))
    × IsComplete 1 t
    × (leaves t ≡ range 0 (leaf_count 1))
trnmnt_tree_alloc_lem_example =
    trnmnt_tree_alloc_lem 1 after_small (omega arith) (λ d h. ground arith)

trnmnt_tree_tour_example :
    ((find_leaf small 1 [] ≡ none) × (has 1 (leaves small) ≡ false))
    ⊎ ((path : List Ancestor) × (find_leaf small 1 [] ≡ some (path ++ (0, some 1) ∷ []))
        × (has 1 (leaves small) ≡ true)
        × IsToured after_small (none ∷ []) (λ m. true) (λ m. true) (path ++ (0, some 1) ∷ []))
trnmnt_tree_tour_example =
    trnmnt_tree_tour 0 0 0 1 (some 1) (leaf 0) (leaf 1) after_small (none ∷ []) (λ m. true)
      (λ m. true) (refl, tt, tt) refl refl (λ m. refl) (λ m. refl)
