-- ===== src/Bcache.antt =====
-- bio.c: the cache of disk blocks.
-- The list through `prev` and `next` is the list of its buffers from the most recently used on, and a
-- pointer to a buffer is its place in the list when a function is called. Whether the caller holds
-- the sleep lock of a buffer is an argument. `iderw` is that of memide.c, for a disk in memory
-- of `disksize` blocks; its callers have tested or taken the sleep lock. A block's data is a number.
pub mod View
pub mod Update
pub mod Read
pub mod Refine
mod Tests
use op_sys.Base.{
  ltb, ◌==◌, if◌then◌else◌, index_of, length, get_or, set, remove_at, ℕ, suc, ◌+◌, ◌%◌, Bool, true,
  false, not, ◌&&◌, Option, none, some, List, [], ◌∷◌,
}

-- `struct buf`, with B_VALID and B_DIRTY of its flags
pub record Buf : Type 0 where
  pub dev : ℕ
  pub blockno : ℕ
  pub refcnt : ℕ
  pub valid : Bool
  pub dirty : Bool
  pub contents : ℕ

abbrev pub no_buf : Buf
no_buf = record { dev = 0; blockno = 0; refcnt = 0; valid = false; dirty = false; contents = 0 }

-- The disks, by device and block.
abbrev pub Disk : Type 0
Disk = ℕ → ℕ → ℕ

abbrev pub buf_at : List Buf → ℕ → Buf
buf_at xs i = get_or xs i no_buf

abbrev pub is_block : ℕ → ℕ → Buf → Bool
is_block dev blockno x = (x.dev == dev) && (x.blockno == blockno)

abbrev pub may_recycle : Buf → Bool
may_recycle x = (x.refcnt == 0) && not x.dirty

-- The search through `prev`: the last place with a buffer that may be recycled.
unfoldable pub last_free : List Buf → Option ℕ
last_free [] = none
last_free (x ∷ xs) = elim (last_free xs) [
  | some i ↦ some (suc i)
  | none ↦ if may_recycle x then some 0 else none
]

-- The cache and the buffer's place; `none` is a panic.
unfoldable pub bget : ℕ → ℕ → List Buf → Option (List Buf × ℕ)
bget dev blockno xs =
    let i = index_of (is_block dev blockno) xs in
    if ltb i (length xs)
    then some (set xs i (record (buf_at xs i) { refcnt = (buf_at xs i).refcnt + 1 }), i)
    else elim (last_free xs) [
      | none ↦ none
      | some k ↦ some (
        set xs k (record (buf_at xs k) {
          dev = dev;
          blockno = blockno;
          valid = false;
          dirty = false;
          refcnt = 1;
        }),
        k,
      )
    ]

-- The disk and the buffer after `iderw`; `none` is a panic. `disksize` is that of memide.c.
unfoldable pub iderw : (disksize : ℕ) → Disk → Buf → Option (Disk × Buf)
iderw disksize disk x =
    if x.valid && not x.dirty
    then none
    else if not (x.dev == 1)
    then none
    else if not (ltb x.blockno disksize)
    then none
    else if x.dirty
    then some (
      λ d b. if is_block d b x then x.contents else disk d b,
      record x { dirty = false; valid = true },
    )
    else some (disk, record x { valid = true; contents = disk x.dev x.blockno })

-- `none` is a panic, here and in the three below.
unfoldable pub read_in : (disksize : ℕ) → Disk → List Buf × ℕ → Option (List Buf × ℕ)
read_in disksize disk (xs, i) =
    if not (buf_at xs i).valid
    then elim (iderw disksize disk (buf_at xs i)) [
      | none ↦ none
      | some (_, y) ↦ some (set xs i y, i)
    ]
    else some (xs, i)

unfoldable pub bread : (disksize : ℕ) → Disk → ℕ → ℕ → List Buf → Option (List Buf × ℕ)
bread disksize disk dev blockno xs = elim (bget dev blockno xs) [
  | none ↦ none
  | some r ↦ read_in disksize disk r
]

unfoldable pub bwrite : (disksize : ℕ) → Bool → ℕ → Disk → List Buf → Option (Disk × List Buf)
bwrite disksize holds i disk xs =
    if not holds then none else elim (iderw disksize disk (record (buf_at xs i) { dirty = true })) [
      | none ↦ none
      | some (disk', y) ↦ some (disk', set xs i y)
    ]

-- `b->refcnt--`, of a `uint`
abbrev pub less_one : ℕ → ℕ
less_one n = (n + 4294967295) % 4294967296

-- The buffer is moved to the front.
abbrev pub to_front : List Buf → ℕ → List Buf
to_front xs i = buf_at xs i ∷ remove_at xs i

unfoldable pub brelse : Bool → ℕ → List Buf → Option (List Buf)
brelse holds i xs =
    let ys = set xs i (record (buf_at xs i) { refcnt = less_one (buf_at xs i).refcnt }) in
    if not holds then none else if (buf_at ys i).refcnt == 0 then some (to_front ys i) else some ys

-- What a caller such as `writei` does to change a block that it has read: it writes to the data, and
-- calls `log_write`, which marks the buffer dirty.
unfoldable pub change : ℕ → ℕ → List Buf → List Buf
change i v xs = set xs i (record (buf_at xs i) { contents = v; dirty = true })
