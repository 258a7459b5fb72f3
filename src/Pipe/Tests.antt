-- ===== src/Pipe/Tests.antt =====
-- Tests of the pipe, and its theorems at concrete pipes.
use op_sys.Base.{replicate, length-replicate, ℕ, ◌≡◌, refl, true, false, [], ◌∷◌, ◌++◌}
use op_sys.Pipe.{
  Pipe, fresh, pipeclose, put, WriteResult, wrote, write_failed, write_sleeps, pipewrite, read_loop,
  read_failed, read_sleeps, piperead,
}
use op_sys.Pipe.Contents.{contents, IsValid, fresh-IsValid}
use op_sys.Pipe.Stream.{writes, Turns, here, next, Turns-fifo}

abbrev blank : Pipe
blank = fresh (replicate 512 0)

blank-IsValid : IsValid blank
blank-IsValid = fresh-IsValid (replicate 512 0) (length-replicate {A = ℕ} 512 0)

abbrev written : WriteResult → Pipe
written (wrote p) = p
written (write_failed p) = p
written (write_sleeps p bs) = p

-- Two bytes go in and come out, the counters stand at 2, and an empty open pipe makes a reader sleep.
turns :
    ((read_loop 5 (written (pipewrite false blank (7 ∷ 8 ∷ [])))).0 ≡ 7 ∷ 8 ∷ [])
    × ((written (pipewrite false blank (7 ∷ 8 ∷ []))).nwrite ≡ 2)
    × (piperead false 1 blank ≡ read_sleeps)
    × (piperead true 1 blank ≡ read_failed)
    × ((pipeclose true blank).0 ≡ false)
    × ((pipeclose false (pipeclose true blank).1).0 ≡ true)
unfolding pipewrite put read_loop piperead pipeclose
turns = (refl, refl, refl, refl, refl, refl)

two_bytes : Turns blank (7 ∷ 8 ∷ []) [] (put (put blank 7) 8)
unfolding pipewrite
two_bytes =
    next (7 ∷ 8 ∷ []) [] (put (put blank 7) 8) here
      (writes false (7 ∷ 8 ∷ []) (put (put blank 7) 8) refl)

Turns-fifo_example :
    IsValid (put (put blank 7) 8)
    × (contents blank ++ 7 ∷ 8 ∷ [] ≡ [] ++ contents (put (put blank 7) 8))
Turns-fifo_example = Turns-fifo blank-IsValid two_bytes
