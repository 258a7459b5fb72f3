-- ===== src/Log/Space.antt =====
-- log.c: `begin_op` reserves room, so that a system call which keeps to its share never panics.
use op_sys.Base.{
  total, length, get_or, set, All, remove, ℕ, ◌+◌, ◌-◌, ◌≤◌, ◌<◌, ◌≡◌, ◌⊎◌, true, false, some, List,
  [], ◌∷◌,
}
use op_sys.Log.{
  log_size, max_op_blocks, Log, begin_op, ends, commits, end_op, committed, absorb, logged,
  log_write,
}

-- How many more blocks that are not in the log each system call in progress may log.
abbrev pub Shares : Type 0
Shares = List ℕ

abbrev pub room_of : Shares → ℕ
room_of cs = total (λ a. a) cs

-- One critical section of the log, or the end of the commit.
pub data Move : Log × Shares → Log × Shares → Type 0 where
  begin :
      {l l' : Log} {cs : Shares}
      → begin_op l ≡ some l'
      → Move (l, cs) (l', (max_op_blocks - 1) ∷ cs)
  write :
      {l l' : Log} {cs : Shares} (b i : ℕ)
      → i < length cs
      → 0 < get_or cs i 0
      → log_write b l ≡ logged l'
      → Move (l, cs) (l', set cs i (get_or cs i 0 - 1))
  again :
      {l l' : Log} {cs : Shares} (b : ℕ)
      → absorb b l.blocks ≡ l.blocks
      → log_write b l ≡ logged l'
      → Move (l, cs) (l', cs)
  end :
      {l l' : Log} {cs : Shares} (i : ℕ)
      → i < length cs
      → (end_op l ≡ ends l') ⊎ (end_op l ≡ commits l')
      → Move (l, cs) (l', remove cs i)
  done : {l : Log} {cs : Shares} → l.committing ≡ true → Move (l, cs) (committed l, cs)

-- The log after `initlog`.
abbrev pub fresh_log : ℕ → Log
fresh_log size = record { size = size; outstanding = 0; committing = false; blocks = [] }

pub data Moves (size : ℕ) : Log × Shares → Type 0 where
  here : Moves size (fresh_log size, [])
  next : {s t : Log × Shares} → Moves size s → Move s t → Moves size t

-- The calls in progress are counted, none runs during a commit, and what is logged and what may
-- still be logged fits.
abbrev pub IsReserved : ℕ → Log × Shares → Type 0
IsReserved size (l, cs) =
    (l.size ≡ size)
    × (length cs ≡ l.outstanding)
    × (length l.blocks + room_of cs + length cs ≤ log_size)
    × All (λ a. a + 1 ≤ max_op_blocks) cs
    × (l.committing ≡ true → l.outstanding ≡ 0)
