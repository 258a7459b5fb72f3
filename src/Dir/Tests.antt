-- ===== src/Dir/Tests.antt =====
-- Tests of directories, and their theorems at concrete ones.
use op_sys.Dir.Unlink.{unlink_entry_lem}
use op_sys.Base.{if◌then◌else◌, index_of, ℕ, ◌≡◌, refl, ◌≢◌, ◌⊎◌, none, some, List, [], ◌∷◌, arith}
use op_sys.Dir.{Dirent, free_entry, name_eq, namecmp, is_entry, dirlookup, dirlink, unlink_entry}
use op_sys.Dir.Links.{inum_of, IsUnique, dirlink_lem}

-- An entry "ab" for inode 7, a free one, and "c" for inode 9.
abbrev three : List Dirent
three =
    record { inum = 7; name = 97 ∷ 98 ∷ [] } ∷ free_entry ∷ record { inum = 9; name = 99 ∷ [] } ∷ []

runs :
    (dirlookup (99 ∷ []) three ≡ some (2, 9))
    × (dirlookup [] three ≡ none)
    × (dirlink (99 ∷ []) 4 three ≡ none)
    × (inum_of (100 ∷ []) (unlink_entry 2 three) ≡ none)
    × (inum_of (99 ∷ []) (unlink_entry 2 three) ≡ none)
unfolding dirlookup dirlink index_of is_entry namecmp name_eq unlink_entry
runs = (refl, refl, refl, refl, refl)

dirlink_lem_example :
    ((dirlink (100 ∷ []) 4 three ≡ none) × (inum_of (100 ∷ []) three ≢ none))
    ⊎ ((es' : List Dirent) × (dirlink (100 ∷ []) 4 three ≡ some es')
        × ((other : List ℕ)
            → inum_of other es'
              ≡ (if namecmp other (100 ∷ []) then some 4 else inum_of other three)))
dirlink_lem_example = dirlink_lem (100 ∷ []) 4 three (omega arith)

abbrev one : List Dirent
one = record { inum = 7; name = 97 ∷ [] } ∷ []

one-IsUnique : IsUnique one
unfolding dirlookup index_of
one-IsUnique = (λ name h. refl, tt)

found_one : dirlookup (97 ∷ []) one ≡ some (0, 7)
unfolding dirlookup index_of is_entry namecmp name_eq
found_one = refl

unlink_entry_lem_example :
    inum_of (97 ∷ []) (unlink_entry 0 one)
    ≡ (if namecmp (97 ∷ []) (97 ∷ []) then none else inum_of (97 ∷ []) one)
unlink_entry_lem_example = unlink_entry_lem (97 ∷ []) 0 7 one one-IsUnique found_one (97 ∷ [])
