-- ===== src/File/Tests.antt =====
-- Tests of the file table, and its theorems at concrete files.
use op_sys.Base.{
  ltb, if◌then◌else◌, index_of, get_or, replicate, ℤ, pos, negsuc, count, ℕ, ◌<◌, ◌≡◌, refl, ◌≢◌,
  true, false, none, some, List, [], ◌∷◌, arith,
}
use op_sys.File.{
  fd_none, fd_inode, File, no_file, file_at, filealloc, filedup, iput, closing, fileclose,
  all_written, short_write, refused, on_inode, filewrite, fileread,
}
use op_sys.File.Chunks.{filewrite_lem}
use op_sys.File.Writei.{Content, byte_at, put_bytes, writei_loop, writei, IsWritten}
use op_sys.File.Count.{Uses, fileinit, alloc, Uses-ref}

-- A file of six bytes, each 9.
abbrev nines : Content
nines = record { size = 6; blocks = λ b k. 9 }

abbrev short_store : List ℕ → ℕ → List ℕ → List ℕ × ℤ
short_store s off bs = (s, pos 0)

abbrev inode_file : File
inode_file = record {
  type = fd_inode;
  ref = 1;
  readable = false;
  writable = true;
  pipe = 0;
  ip = 4;
  off = 3;
}

runs :
    (filewrite short_store [] inode_file (1 ∷ []) ≡ on_inode short_write)
    × (fileread {S = ℕ} (λ s off n. (s, pos n)) 7 inode_file 2 ≡ refused)
    × (fileread {S = ℕ} (λ s off n. (s, pos n)) 7 (record inode_file { readable = true }) 2
        ≡ on_inode (7, record inode_file { readable = true; off = 5 }, pos 2))
    × (filedup 0 (no_file ∷ []) ≡ none)
    × (fileclose 0 (inode_file ∷ [])
        ≡ some (record inode_file { ref = 0; type = fd_none } ∷ [], iput 4 ∷ []))
    × (filealloc (inode_file ∷ []) ≡ none)
unfolding filewrite fileread filedup fileclose filealloc index_of
runs = (refl, refl, refl, refl, refl, refl)

-- Two bytes are overwritten at offset 3, and a write may not start behind the end.
overwrites :
    ((writei nines 3 (1 ∷ 2 ∷ [])).0.size ≡ 6)
    × (byte_at (writei nines 3 (1 ∷ 2 ∷ [])).0.blocks 2 ≡ 9)
    × (byte_at (writei nines 3 (1 ∷ 2 ∷ [])).0.blocks 4 ≡ 2)
    × (byte_at (writei nines 3 (1 ∷ 2 ∷ [])).0.blocks 5 ≡ 9)
    × ((writei nines 7 (1 ∷ [])).1 ≡ negsuc 0)
unfolding writei writei_loop put_bytes
overwrites = (refl, refl, refl, refl, refl)

filewrite_lem_example :
    (inode_file.writable ≡ false → filewrite writei nines inode_file (1 ∷ 2 ∷ []) ≡ refused)
    × (inode_file.writable ≡ true
        → (c' : Content) × (filewrite writei nines inode_file (1 ∷ 2 ∷ [])
            ≡ on_inode (all_written c' 5))
          × IsWritten 3 (1 ∷ 2 ∷ []) nines c')
filewrite_lem_example = filewrite_lem nines inode_file (1 ∷ 2 ∷ []) refl (omega arith) (omega arith)

abbrev opened : List File
opened = record no_file { ref = 1 } ∷ replicate 99 no_file

one_open : Uses (opened, 0 ∷ [])
unfolding filealloc index_of
one_open = alloc fileinit refl

Uses-ref_example :
    ((i : ℕ) → (file_at opened i).ref ≡ count i (0 ∷ []))
    × ((fs' : List File) (i : ℕ) → filealloc opened ≡ some (fs', i) → count i (0 ∷ []) ≡ 0)
    × ((k : ℕ) → k < 1 → filedup (get_or (0 ∷ []) k 0) opened ≢ none)
    × ((k : ℕ)
        → k < 1
        → (fs' : List File) × (fileclose (get_or (0 ∷ []) k 0) opened
            ≡ some (
              fs',
              (if ltb 1 (count (get_or (0 ∷ []) k 0) (0 ∷ []))
                  then []
                  else closing (file_at opened (get_or (0 ∷ []) k 0))),
            )))
Uses-ref_example = Uses-ref one_open
