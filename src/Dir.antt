-- ===== src/Dir.antt =====
-- fs.c: directories, which are inodes with a sequence of entries as their contents.
-- A name is the bytes in front of the NUL that ends it or, in an entry, the bytes in front of the
-- NUL or of the end of the field. A directory is the list of its entries: its size is a
-- multiple of an entry's, as `dirlink` leaves it. `readi` and `writei` of one entry are a read and a
-- write of the list.
pub mod Links
pub mod Unlink
mod Tests
use op_sys.Base.{
  ltb, ◌==◌, if◌then◌else◌, index_of, length, get_or, set, take, ℕ, ◌%◌, Bool, true, false, Option,
  none, some, List, [], ◌∷◌, ◌++◌,
}

abbrev pub dirsiz : ℕ
dirsiz = 14

-- `struct dirent`
pub record Dirent : Type 0 where
  pub inum : ℕ
  pub name : List ℕ

abbrev pub free_entry : Dirent
free_entry = record { inum = 0; name = [] }

unfoldable pub name_eq : List ℕ → List ℕ → Bool
name_eq [] [] = true
name_eq [] (d ∷ t) = false
name_eq (c ∷ s) [] = false
name_eq (c ∷ s) (d ∷ t) = let rest = name_eq s t in if c == d then rest else false

-- `namecmp(s, t) == 0`
unfoldable pub namecmp : List ℕ → List ℕ → Bool
namecmp s t = name_eq (take dirsiz s) (take dirsiz t)

-- The tests of the loop of `dirlookup` on an entry.
unfoldable pub is_entry : List ℕ → Dirent → Bool
is_entry name de = if de.inum == 0 then false else namecmp name de.name

-- The entry's place and its inode's number; an entry's offset is 16 times its place.
unfoldable pub dirlookup : List ℕ → List Dirent → Option (ℕ × ℕ)
dirlookup name es =
    if ltb (index_of (is_entry name) es) (length es)
    then some
        (index_of (is_entry name) es, (get_or es (index_of (is_entry name) es) free_entry).inum)
    else none

-- A write of one entry, at a place in the directory or right after it.
unfoldable pub write_entry : List Dirent → ℕ → Dirent → List Dirent
write_entry es i de = if ltb i (length es) then set es i de else es ++ de ∷ []

abbrev pub free_place : List Dirent → ℕ
free_place es = index_of (λ de. de.inum == 0) es

-- the conversion from a `uint` to a `ushort`
abbrev pub ushort : ℕ → ℕ
ushort n = n % 65536

-- `strncpy(de.name, name, DIRSIZ)` and the inode's number
abbrev pub new_entry : List ℕ → ℕ → Dirent
new_entry name inum = record { inum = ushort inum; name = take dirsiz name }

-- `none` is -1: the name is present.
unfoldable pub dirlink : List ℕ → ℕ → List Dirent → Option (List Dirent)
dirlink name inum es = elim (dirlookup name es) [
  | some e ↦ none
  | none ↦ some (write_entry es (free_place es) (new_entry name inum))
]

-- The clear of an entry by `sys_unlink`.
unfoldable pub unlink_entry : ℕ → List Dirent → List Dirent
unlink_entry i es = set es i free_entry
