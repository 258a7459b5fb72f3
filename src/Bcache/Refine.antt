-- ===== src/Bcache/Refine.antt =====
-- bio.c: the cache refines a plain map from blocks to their contents.
use op_sys.Base.{
  ◌==◌, if◌then◌else◌, lt→ltb, Bool-cases, total_two, length, set, length-set, get_or-set_self,
  get_or-set_ne, All-get_or, All-of, ℕ, ◌<◌, ◌≡◌, refl, sym, ap, subst, ◌∙◌, ◌≢◌, inl, inr, true,
  false, some, List, arith, ℕ_discrete,
}
use op_sys.Bcache.{
  Buf, no_buf, Disk, buf_at, is_block, iderw, bwrite, less_one, to_front, brelse, change,
}
use op_sys.Bcache.View.{is_one, data_of, view, IsClean, IsCoherent, view_at, view-set_ne, view-disk}
use op_sys.Bcache.Update.{
  IsShowing, copies-update, view-update, update-IsCoherent, update-IsShowing, to_front-IsShowing,
}

brelse-IsShowing :
    (disk : Disk) (xs : List Buf) (i : ℕ)
    → IsCoherent disk xs
    → i < length xs
    → (ys : List Buf) × (brelse true i xs ≡ some ys) × IsShowing disk ys (view disk xs)
unfolding brelse
brelse-IsShowing disk xs i c l =
    let y : Buf = record (buf_at xs i) { refcnt = less_one (buf_at xs i).refcnt } in
    let one =
      update-IsShowing disk xs c i l y refl refl (All-get_or (IsClean disk) xs i no_buf (c.clean) l)
        (λ d b e. refl) in
    elim (Bool-cases ((buf_at (set xs i y) i).refcnt == 0)) [
      | inl e ↦
          let two =
            to_front-IsShowing disk (set xs i y) i (one.0) (omega (arith, length-set xs i y)) in
          (
            to_front (set xs i y) i,
            ground (arith, e),
            (two.0, λ d b nz. two.1 d b nz ∙ one.1 d b nz),
          )
      | inr e ↦ (set xs i y, ground (arith, e), one)
    ]

-- A block that is changed in its buffer.
change-IsShowing :
    (disk : Disk) (xs : List Buf) (i v : ℕ)
    → IsCoherent disk xs
    → i < length xs
    → (buf_at xs i).valid ≡ true
    → IsShowing disk
        (change i v xs)
        (λ d b. if is_block d b (buf_at xs i) then v else view disk xs d b)
unfolding change
change-IsShowing disk xs i v c l w =
    let y : Buf = record (buf_at xs i) { contents = v; dirty = true } in
    (
      update-IsCoherent disk xs c i l y refl refl
          (λ a b. absurd (ground (arith, b)), λ a. absurd (ground (arith, a, w))),
      λ d b nz. view-update disk xs c i l y refl refl d b nz ∙ ground (arith, w),
    )

-- `bwrite` of buffer `i`: the disk and the buffer after it.
module _ (disk : Disk) (xs : List Buf) (i : ℕ) (c : IsCoherent disk xs) (l : i < length xs)
    (v : (buf_at xs i).valid ≡ true) (nz : (buf_at xs i).dev ≢ 0) where
  abbrev flushed : Disk
  flushed d b = if is_block d b (buf_at xs i) then (buf_at xs i).contents else disk d b

  abbrev clean_buf : Buf
  clean_buf = record (buf_at xs i) { dirty = false; valid = true }

  -- Another buffer stands for another block.
  apart :
      (j : ℕ)
      → j < length xs
      → i ≢ j
      → is_block (buf_at xs j).dev (buf_at xs j).blockno (buf_at xs i) ≡ false
  apart j k n = elim (Bool-cases (is_block (buf_at xs j).dev (buf_at xs j).blockno (buf_at xs i))) [
    | inr e ↦ e
    | inl e ↦
        let d = (buf_at xs i).dev in
        let b = (buf_at xs i).blockno in
        let two = total_two (λ x. is_one (is_block d b x)) xs i j no_buf l k n in
        absurd (ground (arith, e, two, c.once d b nz))
  ]

  flush-IsClean :
      (j : ℕ) → j < length (set xs i clean_buf) → IsClean flushed (buf_at (set xs i clean_buf) j)
  flush-IsClean j k = elim (ℕ_discrete i j) [
    | yes e ↦
        subst (λ j. IsClean flushed (buf_at (set xs i clean_buf) j)) e
          (rw (get_or-set_self xs i clean_buf no_buf l) (λ a b. ground arith, λ a. refl))
    | no n ↦
        let in_xs : j < length xs = omega (arith, length-set xs i clean_buf, k) in
        let old : IsClean disk (buf_at xs j) =
          All-get_or (IsClean disk) xs j no_buf (c.clean) in_xs in
        rw (get_or-set_ne xs i j clean_buf no_buf n)
          (λ a b. ground (arith, apart j in_xs n, old.0 a b), old.1)
  ]

  flush-IsShowing : IsShowing flushed (set xs i clean_buf) (view disk xs)
  flush-IsShowing = (
    record {
      once = λ d b n. rw (copies-update disk xs c i l clean_buf refl refl d b) (c.once d b n);
      clean = All-of (IsClean flushed) (set xs i clean_buf) no_buf flush-IsClean;
    },
    λ d b n. elim (Bool-cases (is_block d b (buf_at xs i))) [
      | inl e ↦
          view_at flushed d b (set xs i clean_buf) i
            (rw (copies-update disk xs c i l clean_buf refl refl d b) (c.once d b n))
            (omega (arith, length-set xs i clean_buf, l))
            (ap (is_block d b) (get_or-set_self xs i clean_buf no_buf l) ∙ e)
          ∙ ap (data_of flushed d b) (get_or-set_self xs i clean_buf no_buf l)
          ∙ sym (view_at disk d b xs i (c.once d b n) l e ∙ rw v refl)
      | inr e ↦
          view-set_ne flushed d b xs i clean_buf e e ∙ view-disk disk flushed d b xs (rw e refl)
    ],
  )

  bwrite-flushed :
      (disksize : ℕ)
      → (buf_at xs i).dev ≡ 1
      → (buf_at xs i).blockno < disksize
      → bwrite disksize true i disk xs ≡ some (flushed, set xs i clean_buf)
  unfolding bwrite iderw
  bwrite-flushed disksize one lt = rw (v, lt→ltb _ _ lt) (rw (ap (λ d. d == 1) one) refl)

-- What the three operations on a buffer do to the contents of the blocks.
abbrev pub IsMap : (disksize : ℕ) → Disk → List Buf → ℕ → Type 0
IsMap disksize disk xs i =
    ((ys : List Buf) × (brelse true i xs ≡ some ys) × IsShowing disk ys (view disk xs))
    × ((v : ℕ)
        → IsShowing disk (change i v xs)
            (λ d b. if is_block d b (buf_at xs i) then v else view disk xs d b))
    × ((disk' : Disk) × (ys : List Buf) × (bwrite disksize true i disk xs ≡ some (disk', ys))
        × IsShowing disk' ys (view disk xs)
        × (disk' (buf_at xs i).dev (buf_at xs i).blockno ≡ (buf_at xs i).contents))

-- The coherent cache and the disk hold the contents of each block together. At a valid buffer of
-- device 1 that the caller has locked, for a block below the size of the disk, `brelse` returns and
-- changes no block's contents; a change of the buffer changes its block only; and `bwrite` returns,
-- changes no block's contents and leaves the buffer's contents on the disk. The cache is coherent
-- after each.
pub buffer-IsShowing :
    (disksize : ℕ) (disk : Disk) (xs : List Buf) (i : ℕ)
    → IsCoherent disk xs
    → i < length xs
    → (buf_at xs i).valid ≡ true
    → (buf_at xs i).dev ≡ 1
    → (buf_at xs i).blockno < disksize
    → IsMap disksize disk xs i
buffer-IsShowing disksize disk xs i c l v one lt =
    let nz : (buf_at xs i).dev ≢ 0 = omega (arith, one) in
    (
      brelse-IsShowing disk xs i c l,
      λ w. change-IsShowing disk xs i w c l v,
      (
        flushed disk xs i c l v nz,
        set xs i (clean_buf disk xs i c l v nz),
        bwrite-flushed disk xs i c l v nz disksize one lt,
        flush-IsShowing disk xs i c l v nz,
        ground arith,
      ),
    )
