-- ===== src/Path.antt =====
-- fs.c: path names.
-- A path is its bytes in front of the NUL; a pointer into it is what is left of it. A name is the
-- bytes of its buffer of `DIRSIZ` in front of the first NUL, or all of them. `namex` sees the inodes
-- through two functions: whether one is a directory, and the inode under a name in it. It gives the
-- references that it takes and drops in their order, beside its result.
pub mod Elements
pub mod Walk
mod Tests
use op_sys.Base.{
  ◌==◌, if◌then◌else◌, length, take, ℕ, zero, suc, ◌+◌, Bool, true, false, not, ◌&&◌, Option, none,
  some, List, [], ◌∷◌, ◌++◌,
}
use op_sys.Dir.{dirsiz}

abbrev pub slash : ℕ
slash = 47

unfoldable pub drop_slashes : List ℕ → List ℕ
drop_slashes [] = []
drop_slashes (c ∷ path) = let rest = drop_slashes path in if c == slash then rest else c ∷ path

-- the bytes up to the next slash, and what is left from there
unfoldable pub element : List ℕ → List ℕ
element [] = []
element (c ∷ path) = let rest = element path in if c == slash then [] else c ∷ rest

unfoldable pub after_element : List ℕ → List ℕ
after_element [] = []
after_element (c ∷ path) = let rest = after_element path in if c == slash then c ∷ path else rest

-- The name and the rest of the path.
unfoldable pub skipelem_from : List ℕ → Option (List ℕ × List ℕ)
skipelem_from [] = none
skipelem_from (c ∷ path) =
    some (take dirsiz (element (c ∷ path)), drop_slashes (after_element (c ∷ path)))

unfoldable pub skipelem : List ℕ → Option (List ℕ × List ℕ)
skipelem path = skipelem_from (drop_slashes path)

-- `iget`, `idup` or `dirlookup` takes a reference on an inode, `iput` drops one.
pub data RefCall : Type 0 where
  takes : ℕ → RefCall
  puts : ℕ → RefCall

-- `*path == '\0'`
abbrev pub is_empty : List ℕ → Bool
is_empty [] = true
is_empty (c ∷ path) = false

abbrev pub root_ino : ℕ
root_ino = 1

-- What the loop of `namex` does at an inode with an element: to go on from the next inode, or to
-- return.
pub data Turn : Type 0 where
  goes_on : ℕ → List RefCall → Turn
  returns : Option ℕ → List RefCall → Turn

-- The inode, the last name and the calls.
abbrev pub Found : Type 0
Found = Option ℕ × List ℕ × List RefCall

unfoldable pub after_turn : Turn → List ℕ → (ℕ → Found) → Found
after_turn (returns r calls) name rest = (r, name, calls)
after_turn (goes_on next calls) name rest = ((rest next).0, (rest next).1, calls ++ (rest next).2)

-- The inode at which the walk begins.
abbrev pub start_of : ℕ → List ℕ → ℕ
start_of cwd [] = cwd
start_of cwd (c ∷ path) = if c == slash then root_ino else cwd

module _ (is_dir : ℕ → Bool) (lookup : ℕ → List ℕ → Option ℕ) where
  unfoldable pub turn : Bool → ℕ → List ℕ → List ℕ → Turn
  turn nameiparent ip name path =
      if not (is_dir ip)
      then returns none (puts ip ∷ [])
      else if nameiparent && is_empty path
      then returns (some ip) []
      else elim (lookup ip name) [
        | none ↦ returns none (puts ip ∷ [])
        | some next ↦ goes_on next (takes next ∷ puts ip ∷ [])
      ]

  -- The loop from inode `ip`, on fuel.
  unfoldable pub namex_loop : ℕ → Bool → ℕ → List ℕ → List ℕ → Found
  namex_loop zero nameiparent ip name path = (none, name, [])
  namex_loop (suc fuel) nameiparent ip name path = elim (skipelem path) [
    | none ↦ if nameiparent then (none, name, puts ip ∷ []) else (some ip, name, [])
    | some (name', path') ↦
        after_turn (turn nameiparent ip name' path') name'
          (λ next. namex_loop fuel nameiparent next name' path')
  ]

  unfoldable pub namex : ℕ → Bool → List ℕ → Found
  namex cwd nameiparent path =
      let found = namex_loop (length path + 1) nameiparent (start_of cwd path) [] path in
      (found.0, found.1, takes (start_of cwd path) ∷ found.2)
