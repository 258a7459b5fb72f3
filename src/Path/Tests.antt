-- ===== src/Path/Tests.antt =====
-- Tests of path names, and their theorems at a concrete tree.
use op_sys.Base.{
  ◌==◌, if◌then◌else◌, ℕ, ◌+◌, ◌≡◌, refl, Bool, true, false, not, ◌&&◌, Option, none, some, List,
  [], ◌∷◌,
}
use op_sys.Path.{
  drop_slashes, element, after_element, skipelem_from, skipelem, after_turn, turn, namex_loop,
  namex,
}
use op_sys.Path.Elements.{split_from, split}
use op_sys.Path.Walk.{taken, dropped, held_by, resolve, result_of, namex-resolve, namex-balanced}

-- The root has "a", inode 2, which has "b", inode 3; only 3 is no directory.
abbrev is_dir_here : ℕ → Bool
is_dir_here i = not (i == 3)

abbrev lookup_here : ℕ → List ℕ → Option ℕ
lookup_here i [] = none
lookup_here i (c ∷ name) =
    if (i == 1) && (c == 97) then some 2 else if (i == 2) && (c == 98) then some 3 else none

-- "/a//b/"
abbrev long_path : List ℕ
long_path = 47 ∷ 97 ∷ 47 ∷ 47 ∷ 98 ∷ 47 ∷ []

runs :
    (skipelem long_path ≡ some (97 ∷ [], 98 ∷ 47 ∷ []))
    × (skipelem (47 ∷ 47 ∷ []) ≡ none)
    × (split long_path ≡ (97 ∷ []) ∷ (98 ∷ []) ∷ [])
    × ((namex is_dir_here lookup_here 5 false long_path).0 ≡ some 3)
    × ((namex is_dir_here lookup_here 5 true long_path).0 ≡ some 2)
    × ((namex is_dir_here lookup_here 5 true []).0 ≡ none)
unfolding skipelem skipelem_from drop_slashes element after_element split_from namex namex_loop turn
    after_turn
runs = (refl, refl, refl, refl, refl, refl)

namex-resolve_example :
    result_of is_dir_here lookup_here (namex is_dir_here lookup_here 5 false long_path)
    ≡ resolve is_dir_here lookup_here false 1 [] (split long_path)
namex-resolve_example = namex-resolve is_dir_here lookup_here 5 false long_path

namex-balanced_example :
    taken 2 ((namex is_dir_here lookup_here 5 true long_path).2)
    ≡ dropped 2 ((namex is_dir_here lookup_here 5 true long_path).2)
      + held_by 2 ((namex is_dir_here lookup_here 5 true long_path).0)
namex-balanced_example = namex-balanced is_dir_here lookup_here 2 5 true long_path
