-- ===== src/Inode/Tests.antt =====
-- Tests of the cache of inodes, and its theorems at a cache of two entries.
use op_sys.Base.{total, index_of, replicate, ◌≡◌, refl, true, none, some, List, [], ◌∷◌, arith}
use op_sys.Block.{Blocks, zeros, free_all, free_indirect, itrunc}
use op_sys.Inode.{
  Inode, no_inode, is_cached, idup, recycle, iget, Disk, ilock, iunlock, iupdate, freed, drop_ref,
  iput,
}
use op_sys.Inode.References.{is_one, IsOnce, at_most_one, IsPut}
use op_sys.Inode.Counted.{IsGot, iget-IsGot, IsWritten, iput-IsPut}

-- An inode without links and with one reference, and an entry that is not used.
abbrev unlinked : Inode
unlinked = record {
  dev = 1;
  inum = 5;
  ref = 1;
  valid = true;
  copy = record { itype = 2; major = 0; minor = 0; nlink = 0; size = 0; addrs = replicate 13 0 };
}

abbrev two_inodes : List Inode
two_inodes = unlinked ∷ no_inode ∷ []

abbrev blank_disk : Disk
blank_disk d n = unlinked.copy

abbrev no_blocks : Blocks
no_blocks = record { used = []; words = λ b. zeros }

abbrev file_nine : Inode
file_nine = record no_inode { dev = 1; inum = 9; ref = 1 }

got_nine : iget 1 9 two_inodes ≡ some (unlinked ∷ file_nine ∷ [], 1)
unfolding iget recycle index_of
got_nine = refl

runs :
    (iget 1 5 two_inodes ≡ some (record unlinked { ref = 2 } ∷ no_inode ∷ [], 0))
    × (iget 1 9 (unlinked ∷ []) ≡ none)
    × (ilock 0 blank_disk two_inodes ≡ some two_inodes)
    × (ilock 1 blank_disk two_inodes ≡ none)
    × (iunlock true 0 two_inodes ≡ some two_inodes)
unfolding iget idup ilock iunlock index_of
runs = (refl, refl, refl, refl, refl)

two-IsOnce : IsOnce two_inodes
unfolding total
two-IsOnce d n =
    let first = at_most_one (is_cached d n unlinked) in
    let second : is_one (is_cached d n no_inode) ≡ 0 = refl in omega (arith, first, second)

iget-IsGot_example : IsGot 1 9 two_inodes (unlinked ∷ file_nine ∷ [], 1)
iget-IsGot_example = iget-IsGot 1 9 two_inodes (unlinked ∷ file_nine ∷ [], 1) two-IsOnce got_nine

-- The inode that has gone.
abbrev gone : Inode
gone = record (freed (replicate 13 0) unlinked) { ref = 0 }

put_five :
    iput 0 blank_disk no_blocks two_inodes
    ≡ some (iupdate (freed (replicate 13 0) unlinked) blank_disk, no_blocks, gone ∷ no_inode ∷ [])
unfolding iput drop_ref itrunc free_all free_indirect
put_five = refl

iput-IsPut_example :
    IsPut 0 two_inodes (gone ∷ no_inode ∷ [])
    × IsWritten 0 two_inodes blank_disk (iupdate (freed (replicate 13 0) unlinked) blank_disk)
iput-IsPut_example =
    iput-IsPut 0 blank_disk (iupdate (freed (replicate 13 0) unlinked) blank_disk) no_blocks
      no_blocks two_inodes (gone ∷ no_inode ∷ []) (omega arith) (omega arith) two-IsOnce put_five
