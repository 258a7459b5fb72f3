-- ===== src/Bcache/Tests.antt =====
-- Tests of the block cache, and its theorem at a cache of two buffers.
use op_sys.Base.{total, index_of, ◌*◌, ◌≡◌, refl, true, false, none, some, List, [], ◌∷◌, arith}
use op_sys.Bcache.{Buf, no_buf, Disk, last_free, bget, iderw, read_in, bread, brelse, change}
use op_sys.Bcache.View.{view, IsCoherent}
use op_sys.Bcache.Read.{IsRead, bread-IsRead}
use op_sys.Bcache.Refine.{IsMap, buffer-IsShowing}

-- A disk whose blocks hold ten times their number, and buffers as `binit` leaves them.
abbrev tens : Disk
tens d b = 10 * b

abbrev fresh_bufs : List Buf
fresh_bufs = no_buf ∷ no_buf ∷ []

abbrev block_three : Buf
block_three = record {
  dev = 1;
  blockno = 3;
  refcnt = 1;
  valid = true;
  dirty = false;
  contents = 30;
}

abbrev dirty_three : Buf
dirty_three = record block_three { contents = 7; dirty = true }

runs :
    (bread 1000 tens 1 3 fresh_bufs ≡ some (no_buf ∷ block_three ∷ [], 1))
    × (brelse true 1 (no_buf ∷ block_three ∷ [])
        ≡ some (record block_three { refcnt = 0 } ∷ no_buf ∷ []))
    × (brelse false 1 (no_buf ∷ block_three ∷ []) ≡ none)
    × (change 1 7 (no_buf ∷ block_three ∷ []) ≡ no_buf ∷ dirty_three ∷ [])
    × (bget 1 4 (dirty_three ∷ []) ≡ none)
    × (view tens (no_buf ∷ dirty_three ∷ []) 1 3 ≡ 7)
    × (bread 2 tens 1 3 fresh_bufs ≡ none)
    × (iderw 1000 tens block_three ≡ none)
unfolding bread bget last_free read_in iderw brelse change view index_of
runs = (refl, refl, refl, refl, refl, refl, refl, refl)

abbrev two_bufs : List Buf
two_bufs = no_buf ∷ dirty_three ∷ []

two-IsCoherent : IsCoherent tens two_bufs
unfolding total
two-IsCoherent = record {
  once = λ d b n. ground arith;
  clean = (
    (λ v w. absurd (ground (arith, v)), λ v. refl),
    ((λ v w. absurd (ground (arith, w)), λ v. absurd (ground (arith, v))), tt),
  );
}

read_three : bread 1000 tens 1 3 fresh_bufs ≡ some (no_buf ∷ block_three ∷ [], 1)
unfolding bread bget last_free read_in iderw index_of
read_three = refl

fresh-IsCoherent : IsCoherent tens fresh_bufs
unfolding total
fresh-IsCoherent = record {
  once = λ d b n. ground arith;
  clean = (
    (λ v w. absurd (ground (arith, v)), λ v. refl),
    ((λ v w. absurd (ground (arith, v)), λ v. refl), tt),
  );
}

bread-IsRead_example : IsRead tens 1 3 fresh_bufs (no_buf ∷ block_three ∷ [], 1)
bread-IsRead_example =
    bread-IsRead 1000 tens 1 3 1 fresh_bufs (no_buf ∷ block_three ∷ []) (omega arith)
      fresh-IsCoherent read_three

buffer-IsShowing_example : IsMap 1000 tens two_bufs 1
buffer-IsShowing_example =
    buffer-IsShowing 1000 tens two_bufs 1 two-IsCoherent (omega arith) refl refl (omega arith)
