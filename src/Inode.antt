-- ===== src/Inode.antt =====
-- fs.c: the cache of inodes in memory, and the references to them.
-- A pointer to an inode is its place in the cache. The inodes on the disk are those of each device by
-- number; the buffers and the log that they go through are not modelled here. What both kinds
-- have is one record. The sleep lock of an inode makes each call one step. `none` is a panic.
pub mod References
pub mod Counted
mod Tests
use op_sys.Base.{
  ltb, ◌==◌, if◌then◌else◌, index_of, length, get_or, set, ℕ, ◌+◌, ◌-◌, Bool, true, false, not,
  ◌&&◌, ◌||◌, Option, none, some, List, [],
}
use op_sys.Block.{Blocks, itrunc}

-- `struct dinode`, and its copy in `struct inode`
pub record Dinode : Type 0 where
  pub itype : ℕ
  pub major : ℕ
  pub minor : ℕ
  pub nlink : ℕ
  pub size : ℕ
  pub addrs : List ℕ

pub record Inode : Type 0 where
  pub dev : ℕ
  pub inum : ℕ
  pub ref : ℕ
  pub valid : Bool
  pub copy : Dinode

abbrev pub no_dinode : Dinode
no_dinode = record { itype = 0; major = 0; minor = 0; nlink = 0; size = 0; addrs = [] }

abbrev pub no_inode : Inode
no_inode = record { dev = 0; inum = 0; ref = 0; valid = false; copy = no_dinode }

abbrev pub inode_at : List Inode → ℕ → Inode
inode_at xs i = get_or xs i no_inode

abbrev pub is_inode : ℕ → ℕ → Inode → Bool
is_inode dev inum x = (x.dev == dev) && (x.inum == inum)

abbrev pub is_cached : ℕ → ℕ → Inode → Bool
is_cached dev inum x = ltb 0 x.ref && is_inode dev inum x

-- The place of the inode, or of the first one without references.
abbrev pub cached_place : ℕ → ℕ → List Inode → ℕ
cached_place dev inum xs = index_of (is_cached dev inum) xs

abbrev pub empty_place : List Inode → ℕ
empty_place xs = index_of (λ x. x.ref == 0) xs

unfoldable pub idup : ℕ → List Inode → List Inode
idup i xs = set xs i (record (inode_at xs i) { ref = (inode_at xs i).ref + 1 })

-- An entry for an inode that has not been read yet.
unfoldable pub recycle : ℕ → ℕ → ℕ → List Inode → List Inode
recycle dev inum i xs =
    set xs i (record (inode_at xs i) { dev = dev; inum = inum; ref = 1; valid = false })

unfoldable pub iget : ℕ → ℕ → List Inode → Option (List Inode × ℕ)
iget dev inum xs =
    if ltb (cached_place dev inum xs) (length xs)
    then some (idup (cached_place dev inum xs) xs, cached_place dev inum xs)
    else if ltb (empty_place xs) (length xs)
    then some (recycle dev inum (empty_place xs) xs, empty_place xs)
    else none

-- The inodes on the disk, by device and number.
abbrev pub Disk : Type 0
Disk = ℕ → ℕ → Dinode

-- An inode is read from the disk, unless it is valid.
unfoldable pub ilock : ℕ → Disk → List Inode → Option (List Inode)
ilock i disk xs =
    let x = inode_at xs i in
    if x.ref == 0
    then none
    else if x.valid
    then some xs
    else if (disk x.dev x.inum).itype == 0
    then none
    else some (set xs i (record x { valid = true; copy = disk x.dev x.inum }))

unfoldable pub iunlock : Bool → ℕ → List Inode → Option (List Inode)
iunlock holds i xs = if not holds || ((inode_at xs i).ref == 0) then none else some xs

unfoldable pub iupdate : Inode → Disk → Disk
iupdate x disk d n = if is_inode d n x then x.copy else disk d n

-- The inode that is freed when its last reference goes, with the `addrs` that `itrunc` leaves.
abbrev pub freed : List ℕ → Inode → Inode
freed addrs x = record x {
  copy = record (x.copy) { itype = 0; size = 0; addrs = addrs };
  valid = false;
}

-- The test of `iput` on the last reference.
abbrev pub is_last : Inode → Bool
is_last x = x.valid && (((x.copy).nlink == 0) && (x.ref == 1))

-- `ip->ref--`
unfoldable pub drop_ref : ℕ → List Inode → List Inode
drop_ref i xs = set xs i (record (inode_at xs i) { ref = (inode_at xs i).ref - 1 })

unfoldable pub iput : ℕ → Disk → Blocks → List Inode → Option (Disk × Blocks × List Inode)
iput i disk fs xs =
    if is_last (inode_at xs i)
    then elim (itrunc ((inode_at xs i).copy).addrs fs) [
      | none ↦ none
      | some (addrs, fs') ↦ some (
        iupdate (freed addrs (inode_at xs i)) disk,
        fs',
        drop_ref i (set xs i (freed addrs (inode_at xs i))),
      )
    ]
    else some (disk, fs, drop_ref i xs)

unfoldable pub iunlockput :
    Bool → ℕ → Disk → Blocks → List Inode → Option (Disk × Blocks × List Inode)
iunlockput holds i disk fs xs = elim (iunlock holds i xs) [
  | none ↦ none
  | some xs' ↦ iput i disk fs xs'
]
