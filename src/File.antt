-- ===== src/File.antt =====
-- file.c: the table of open files, shared by all processes, and the reads and writes of a file.
-- `readi` and `writei` are parameters that act on a state and give their result, an `int` that is
-- negative on failure; the `writei` of fs.c is in `Writei`. The locks of the inode and of the table
-- are not modelled: each section between them is one step.
pub mod Count
pub mod Writei
pub mod Chunks
mod Tests
use op_sys.Base.{
  ltb, ◌==◌, if◌then◌else◌, index_of, length, get_or, set, take, drop, ℤ, pos, negsuc, ℕ, zero, suc,
  ◌+◌, ◌-◌, ◌*◌, ◌/◌, Bool, false, Option, none, some, List, [], ◌∷◌,
}

abbrev pub nfile : ℕ
nfile = 100

pub data FileType : Type 0 where
  fd_none fd_pipe fd_inode : FileType

pub record File : Type 0 where
  pub type : FileType
  pub ref : ℕ
  pub readable : Bool
  pub writable : Bool
  pub pipe : ℕ
  pub ip : ℕ
  pub off : ℕ

abbrev pub no_file : File
no_file = record {
  type = fd_none;
  ref = 0;
  readable = false;
  writable = false;
  pipe = 0;
  ip = 0;
  off = 0;
}

abbrev pub file_at : List File → ℕ → File
file_at fs i = get_or fs i no_file

abbrev pub free_file : List File → ℕ
free_file fs = index_of (λ f. f.ref == 0) fs

-- `none` is a null pointer.
unfoldable pub filealloc : List File → Option (List File × ℕ)
filealloc fs =
    if ltb (free_file fs) (length fs)
    then some (set fs (free_file fs) (record (file_at fs (free_file fs)) { ref = 1 }), free_file fs)
    else none

-- `none` is a panic, here and in `fileclose`.
unfoldable pub filedup : ℕ → List File → Option (List File)
filedup i fs =
    if ltb (file_at fs i).ref 1
    then none
    else some (set fs i (record (file_at fs i) { ref = (file_at fs i).ref + 1 }))

-- The calls that `fileclose` makes once the entry is free.
pub data Closing : Type 0 where
  pipeclose : (pipe : ℕ) (writable : Bool) → Closing
  iput : (ip : ℕ) → Closing  -- between begin_op and end_op

unfoldable pub closing : File → List Closing
closing f = elim f.type [
  | fd_none ↦ []
  | fd_pipe ↦ pipeclose f.pipe f.writable ∷ []
  | fd_inode ↦ iput f.ip ∷ []
]

unfoldable pub fileclose : ℕ → List File → Option (List File × List Closing)
unfolding closing
fileclose i fs =
    if ltb (file_at fs i).ref 1
    then none
    else if ltb 0 ((file_at fs i).ref - 1)
    then some (set fs i (record (file_at fs i) { ref = (file_at fs i).ref - 1 }), [])
    else some (set fs i (record (file_at fs i) { ref = 0; type = fd_none }), closing (file_at fs i))

abbrev pub max_chunk : ℕ
max_chunk = (10 - 1 - 1 - 2) / 2 * 512

-- How the loop of `filewrite` over an inode ends.
pub data WriteEnd {ℓ} (S : Type ℓ) : Type ℓ where
  all_written : S → (off : ℕ) → WriteEnd S  -- returns n
  broken_off : S → (off : ℕ) → WriteEnd S  -- returns -1
  short_write : WriteEnd S  -- panic
  no_fuel : WriteEnd S

module _ {ℓ} {S : Type ℓ} (writei : S → ℕ → List ℕ → S × ℤ) where
  -- What the loop does with the result of one `writei` of `n1` bytes, and goes on with `rest`.
  unfoldable pub after_writei : S × ℤ → ℕ → ℕ → (S → ℕ → WriteEnd S) → WriteEnd S
  after_writei (s, negsuc k) off n1 rest = broken_off s off
  after_writei (s, pos r) off n1 rest = if r == n1 then rest s (off + r) else short_write

  -- The loop, with the bytes that are left.
  unfoldable pub filewrite_loop : ℕ → S → ℕ → List ℕ → WriteEnd S
  unfolding after_writei
  filewrite_loop fuel s off [] = all_written s off
  filewrite_loop zero s off (b ∷ bs) = no_fuel
  filewrite_loop (suc fuel) s off (b ∷ bs) =
      after_writei (writei s off (take max_chunk (b ∷ bs))) off (length (take max_chunk (b ∷ bs)))
        (λ s' off'. filewrite_loop fuel s' off' (drop max_chunk (b ∷ bs)))

-- How `filewrite` and `fileread` go on.
pub data FileResult {ℓ} (A : Type ℓ) : Type ℓ where
  refused : FileResult A  -- returns -1: the file is not open for this
  on_pipe : (pipe : ℕ) → FileResult A  -- as pipewrite or piperead
  on_inode : A → FileResult A
  panics : FileResult A

unfoldable pub by_type {ℓ} : {A : Type ℓ} → File → A → FileResult A
by_type f a = elim f.type [ fd_pipe ↦ on_pipe f.pipe | fd_inode ↦ on_inode a | fd_none ↦ panics ]

unfoldable pub filewrite {ℓ} :
    {S : Type ℓ} → (S → ℕ → List ℕ → S × ℤ) → S → File → List ℕ → FileResult (WriteEnd S)
unfolding filewrite_loop by_type
filewrite writei s f bs =
    if f.writable then by_type f (filewrite_loop writei (length bs) s f.off bs) else refused

-- The offset moves by what was read, if that is more than nothing.
unfoldable pub after_readi {ℓ} : {S : Type ℓ} → File → S × ℤ → S × File × ℤ
after_readi f (s, pos r) = (s, record f { off = f.off + r }, pos r)
after_readi f (s, negsuc k) = (s, f, negsuc k)

unfoldable pub fileread {ℓ} :
    {S : Type ℓ} → (S → ℕ → ℕ → S × ℤ) → S → File → ℕ → FileResult (S × File × ℤ)
unfolding after_readi by_type
fileread readi s f n = if f.readable then by_type f (after_readi f (readi s f.off n)) else refused
