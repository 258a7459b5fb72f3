-- ===== src/Log.antt =====
-- log.c: the redo log of the file system.
-- A block is its 32-bit words, and the disk and the buffers that hold its blocks are functions of
-- the block number: `cache` is what `bread` gives, from the cache or, when the block is not in it,
-- from the disk. Every step of a commit is one `bwrite`, which is whole or not at all; a crash
-- loses the cache. `initlog` reads the place of the log from the superblock; it is an argument here.
pub mod Writes
pub mod Recovery
pub mod Atomic
pub mod Space
mod Tests
use op_sys.Base.{
  ltb, leb, ◌==◌, if◌then◌else◌, length, get_or, ℕ, zero, suc, ◌+◌, ◌*◌, Bool, true, false, ◌||◌,
  Option, none, some, List, [], ◌∷◌, ◌++◌,
}

abbrev pub log_size : ℕ
log_size = 30

abbrev pub max_op_blocks : ℕ
max_op_blocks = 10

abbrev pub Block : Type 0
Block = ℕ → ℕ

pub record Disks : Type 0 where
  pub disk : ℕ → Block
  pub cache : ℕ → Block

-- `f` with the block `a` replaced
abbrev pub put_block : (ℕ → Block) → ℕ → Block → ℕ → Block
put_block f a v b = if b == a then v else f b

-- One turn of a loop or one call that ends in a `bwrite`.
pub data Write : Type 0 where
  copy : (from to : ℕ) → Write  -- read both blocks, copy the data, write the second
  head : (blocks : List ℕ) → Write  -- `write_head`

-- What `write_head` does to the block it has read: the count, then the block numbers.
unfoldable pub encode : List ℕ → Block → Block
encode bs old zero = length bs
encode bs old (suc i) = get_or bs i (old (suc i))

-- The loop of `read_head`, from entry `i`.
unfoldable pub read_entries : ℕ → ℕ → Block → List ℕ
read_entries zero i v = []
read_entries (suc n) i v = v (suc i) ∷ read_entries n (suc i) v

unfoldable pub read_head : Block → List ℕ
unfolding read_entries
read_head v = read_entries (v 0) 0 v

unfoldable pub exec : ℕ → Write → Disks → Disks
exec start (copy from to) s = record {
  disk = put_block s.disk to (s.cache from);
  cache = put_block s.cache to (s.cache from);
}
exec start (head bs) s = record {
  disk = put_block s.disk start (encode bs (s.cache start));
  cache = put_block s.cache start (encode bs (s.cache start));
}

unfoldable pub run : ℕ → List Write → Disks → Disks
unfolding exec
run start [] s = s
run start (w ∷ ws) s = run start ws (exec start w s)

-- The loop of `write_log` from `tail`, for the blocks that are left.
unfoldable pub write_log : ℕ → ℕ → List ℕ → List Write
write_log start tail [] = []
write_log start tail (b ∷ bs) = copy b (start + tail + 1) ∷ write_log start (tail + 1) bs

-- The loop of `install_trans`.
unfoldable pub install_trans : ℕ → ℕ → List ℕ → List Write
install_trans start tail [] = []
install_trans start tail (b ∷ bs) = copy (start + tail + 1) b ∷ install_trans start (tail + 1) bs

-- The memory is lost.
abbrev pub crash : Disks → Disks
crash s = record { disk = s.disk; cache = s.disk }

-- The writes of `recover_from_log` for the blocks of the header.
unfoldable pub recovery : ℕ → List ℕ → List Write
unfolding install_trans
recovery start bs = install_trans start 0 bs ++ head [] ∷ []

-- The writes of `commit`, in order; its end is what recovery does too.
unfoldable pub commit : ℕ → List ℕ → List Write
unfolding write_log recovery
commit start bs =
    if ltb 0 (length bs) then write_log start 0 bs ++ head bs ∷ recovery start bs else []

unfoldable pub recover_from_log : ℕ → Disks → Disks
unfolding run recovery read_head
recover_from_log start s = run start (recovery start (read_head (s.cache start))) s

-- `struct log`, with the block numbers of its header
pub record Log : Type 0 where
  pub size : ℕ
  pub outstanding : ℕ
  pub committing : Bool
  pub blocks : List ℕ

-- One round of the loop of `begin_op`: `none` is a sleep.
unfoldable pub begin_op : Log → Option Log
begin_op l =
    if l.committing
    then none
    else if ltb log_size (length l.blocks + (l.outstanding + 1) * max_op_blocks)
    then none
    else some (record l { outstanding = l.outstanding + 1 })

pub data EndResult : Type 0 where
  below_zero : EndResult  -- no call was outstanding, and the count goes below zero
  end_panics : EndResult
  ends : Log → EndResult
  commits : Log → EndResult  -- the caller goes on with `commit`

unfoldable pub end_op : Log → EndResult
end_op l = elim l.outstanding [
  | zero ↦ below_zero
  | suc k ↦
      if l.committing
      then end_panics
      else if k == 0
      then commits (record l { outstanding = k; committing = true })
      else ends (record l { outstanding = k })
]

-- `end_op` after its `commit`, which empties the header
unfoldable pub committed : Log → Log
committed l = record l { committing = false; blocks = [] }

-- The search of `log_write` and the store after it.
unfoldable pub absorb : ℕ → List ℕ → List ℕ
absorb b [] = b ∷ []
absorb b (c ∷ cs) = let rest = absorb b cs in if c == b then b ∷ cs else c ∷ rest

pub data LogResult : Type 0 where
  too_big : LogResult  -- panic
  outside : LogResult  -- panic
  logged : Log → LogResult

unfoldable pub log_write : ℕ → Log → LogResult
unfolding absorb
log_write b l =
    if leb log_size (length l.blocks) || leb l.size (length l.blocks + 1)
    then too_big
    else if ltb l.outstanding 1
    then outside
    else logged (record l { blocks = absorb b l.blocks })
