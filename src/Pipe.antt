-- ===== src/Pipe.antt =====
-- pipe.c: the ring of bytes of a pipe, its two ends, and the loops of pipewrite and piperead.
-- Each function is one stretch under the pipe's lock, from the acquire or the return of a sleep to the
-- next sleep or the release. The wakeups that stand before a sleep or a release are those of
-- `Proc.Wakeup` and change no pipe. `killed` is `myproc()->killed`.
pub mod Contents
pub mod Stream
mod Tests
use op_sys.Base.{
  ◌==◌, if◌then◌else◌, get_or, set, ℕ, zero, suc, ◌+◌, ◌%◌, ◌^◌, Bool, true, false, not, ◌&&◌, ◌||◌,
  List, [], ◌∷◌,
}

abbrev pub pipe_size : ℕ
pipe_size = 512

-- `nread` and `nwrite` are 32-bit counters that wrap.
pub record Pipe : Type 0 where
  pub bytes : List ℕ
  pub nread : ℕ
  pub nwrite : ℕ
  pub readopen : Bool
  pub writeopen : Bool

abbrev pub add32 : ℕ → ℕ → ℕ
add32 a b = (a + b) % 2 ^ 32

-- The pipe that `pipealloc` sets up in a page that holds `junk`.
abbrev pub fresh : List ℕ → Pipe
fresh junk = record { bytes = junk; nread = 0; nwrite = 0; readopen = true; writeopen = true }

-- Whether the pipe is freed with its second end, and the pipe.
unfoldable pub pipeclose : Bool → Pipe → Bool × Pipe
pipeclose writable p =
    if writable
    then (not p.readopen, record p { writeopen = false })
    else (not p.writeopen, record p { readopen = false })

abbrev pub is_full : Pipe → Bool
is_full p = p.nwrite == add32 p.nread pipe_size

abbrev pub is_empty : Pipe → Bool
is_empty p = p.nread == p.nwrite

-- `p->data[p->nwrite++ % PIPESIZE] = b`
unfoldable pub put : Pipe → ℕ → Pipe
put p b = record p { bytes = set p.bytes (p.nwrite % pipe_size) b; nwrite = add32 p.nwrite 1 }

pub data WriteResult : Type 0 where
  wrote : Pipe → WriteResult  -- returns n
  write_failed : Pipe → WriteResult  -- returns -1
  write_sleeps : Pipe → List ℕ → WriteResult  -- with these bytes still to write

-- The loop of `pipewrite` over the bytes that are left.
unfoldable pub pipewrite : Bool → Pipe → List ℕ → WriteResult
unfolding put
pipewrite killed p [] = wrote p
pipewrite killed p (b ∷ bs) =
    let rest = pipewrite killed (put p b) bs in
    if is_full p
    then if not p.readopen || killed then write_failed p else write_sleeps p (b ∷ bs)
    else rest

-- `p->data[p->nread++ % PIPESIZE]`
abbrev pub front : Pipe → ℕ
front p = get_or p.bytes (p.nread % pipe_size) 0

abbrev pub drop_front : Pipe → Pipe
drop_front p = record p { nread = add32 p.nread 1 }

-- The copy loop of `piperead`: the bytes read and the pipe.
unfoldable pub read_loop : ℕ → Pipe → List ℕ × Pipe
read_loop zero p = ([], p)
read_loop (suc n) p =
    let rest = read_loop n (drop_front p) in
    if is_empty p then ([], p) else (front p ∷ rest.0, rest.1)

pub data ReadResult : Type 0 where
  got : List ℕ → Pipe → ReadResult  -- returns their number
  read_failed : ReadResult  -- returns -1
  read_sleeps : ReadResult

unfoldable pub piperead : Bool → ℕ → Pipe → ReadResult
unfolding read_loop
piperead killed n p =
    if is_empty p && p.writeopen
    then if killed then read_failed else read_sleeps
    else got (read_loop n p).0 (read_loop n p).1
