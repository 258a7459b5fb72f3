-- ===== src/Bcache/Read.antt =====
-- bio.c: what `bread` gives.
use op_sys.Base.{
  ltb, ltb→lt, Bool-cases, Option-cases, index_of, index_of_holds, length, set, length-set,
  get_or-set_self, All-get_or, ℕ, ◌+◌, ◌<◌, ◌≡◌, refl, sym, ap, ap₂, subst, ◌∙◌, ◌≢◌, inl, inr,
  true, false, some, List, arith,
}
use op_sys.Bcache.{Buf, no_buf, Disk, buf_at, is_block, last_free, bget, iderw, read_in, bread}
use op_sys.Bcache.View.{data_of, view, IsClean, IsCoherent, view_at}
use op_sys.Bcache.Update.{
  IsShowing, update-IsShowing, key_of, last_free_lem, recycle-IsShowing, absent_of,
}

-- What `bget` gives: a cache that shows the same, and a buffer for the block in it.
abbrev pub IsGot : Disk → ℕ → ℕ → List Buf → List Buf × ℕ → Type 0
IsGot disk dev blockno xs (ys, i) =
    IsShowing disk ys (view disk xs) × (i < length ys) × (is_block dev blockno (buf_at ys i) ≡ true)

bget-IsGot :
    (disk : Disk) (dev blockno : ℕ) (xs : List Buf) (r : List Buf × ℕ)
    → dev ≢ 0
    → IsCoherent disk xs
    → bget dev blockno xs ≡ some r
    → IsGot disk dev blockno xs r
unfolding bget
bget-IsGot disk dev blockno xs r nz c h =
    let i = index_of (is_block dev blockno) xs in
    elim (Bool-cases (ltb i (length xs))) [
      | inl e ↦
          let y : Buf = record (buf_at xs i) { refcnt = (buf_at xs i).refcnt + 1 } in
          let l : i < length xs = ltb→lt _ _ e in
          let eq : (set xs i y, i) ≡ r = ground (arith, e, h) in
          subst (IsGot disk dev blockno xs) eq (
            update-IsShowing disk xs c i l y refl refl
                (All-get_or (IsClean disk) xs i no_buf (c.clean) l) (λ d b e. refl),
            omega (arith, length-set xs i y),
            ap (is_block dev blockno) (get_or-set_self xs i y no_buf l)
                ∙ index_of_holds (is_block dev blockno) xs no_buf l,
          )
      | inr e ↦ elim (Option-cases (last_free xs)) [
        | inl f ↦ absurd (ground (arith, e, f, h))
        | inr (k, f) ↦
            let y : Buf = record (buf_at xs k) {
              dev = dev;
              blockno = blockno;
              valid = false;
              dirty = false;
              refcnt = 1;
            } in
            let p = last_free_lem xs k f in
            let eq : (set xs k y, k) ≡ r = ground (arith, e, f, h) in
            let mine : is_block dev blockno y ≡ true = ground arith in
            subst (IsGot disk dev blockno xs) eq (
              recycle-IsShowing disk xs c k (p.0) dev blockno nz y
                  (absent_of dev blockno xs (ground (arith, e))) mine refl refl (p.2),
              omega (arith, length-set xs k y, p.0),
              ap (is_block dev blockno) (get_or-set_self xs k y no_buf (p.0)) ∙ mine,
            )
      ]
    ]

-- What `bread` gives: besides, the buffer has the contents that the cache showed.
abbrev pub IsRead : Disk → ℕ → ℕ → List Buf → List Buf × ℕ → Type 0
IsRead disk dev blockno xs (ys, i) =
    IsShowing disk ys (view disk xs)
    × (i < length ys)
    × (is_block dev blockno (buf_at ys i) ≡ true)
    × ((buf_at ys i).valid ≡ true)
    × ((buf_at ys i).contents ≡ view disk xs dev blockno)

-- The data that the cache shows for a buffer's block.
shown :
    (disk : Disk) (dev blockno : ℕ) (xs ys : List Buf) (i : ℕ)
    → dev ≢ 0
    → IsGot disk dev blockno xs (ys, i)
    → data_of disk dev blockno (buf_at ys i) ≡ view disk xs dev blockno
shown disk dev blockno xs ys i nz (sh, l, k) =
    sym (view_at disk dev blockno ys i (sh.0.once dev blockno nz) l k) ∙ sh.1 dev blockno nz

-- The buffer that `iderw` reads the block into.
abbrev read_buf : Disk → Buf → Buf
read_buf disk x = record x { valid = true; contents = disk x.dev x.blockno }

iderw_read :
    (disksize : ℕ) (disk disk' : Disk) (x y : Buf)
    → x.valid ≡ false
    → IsClean disk x
    → iderw disksize disk x ≡ some (disk', y)
    → read_buf disk x ≡ y
unfolding iderw
iderw_read disksize disk disk' x y v c h = ground (arith, c.1 v, h)

read_in-IsRead :
    (disksize : ℕ) (disk : Disk) (dev blockno : ℕ) (xs ys : List Buf) (i : ℕ) (r : List Buf × ℕ)
    → dev ≢ 0
    → IsGot disk dev blockno xs (ys, i)
    → read_in disksize disk (ys, i) ≡ some r
    → IsRead disk dev blockno xs r
unfolding read_in
read_in-IsRead disksize disk dev blockno xs ys i r nz (sh, l, k) h =
    elim (Bool-cases (buf_at ys i).valid) [
      | inl v ↦
          let eq : (ys, i) ≡ r = ground (arith, v, h) in
          subst (IsRead disk dev blockno xs) eq
            (sh, l, k, v, ground (arith, v, shown disk dev blockno xs ys i nz (sh, l, k)))
      | inr v ↦ elim (Option-cases (iderw disksize disk (buf_at ys i))) [
        | inl f ↦ absurd (ground (arith, v, f, h))
        | inr ((disk', z), f) ↦
            let y : Buf = read_buf disk (buf_at ys i) in
            let old : IsClean disk (buf_at ys i) =
              All-get_or (IsClean disk) ys i no_buf (sh.0.clean) l in
            let read : y ≡ z = iderw_read disksize disk disk' (buf_at ys i) z v old f in
            let eq : (set ys i y, i) ≡ r = ground (arith, v, f, read, h) in
            let here : buf_at (set ys i y) i ≡ y = get_or-set_self ys i y no_buf l in
            let same =
              update-IsShowing disk ys (sh.0) i l y refl refl (λ a b. refl, λ a. old.1 v)
                (λ d b e. read_data d b e v) in
            subst (IsRead disk dev blockno xs) eq (
              (same.0, λ d b n. same.1 d b n ∙ sh.1 d b n),
              omega (arith, length-set ys i y),
              ap (is_block dev blockno) here ∙ k,
              ap (λ x. x.valid) here,
              ap (λ x. x.contents) here ∙ read_here v,
            )
      ]
    ]
  where
    read_data :
        (d b : ℕ)
        → is_block d b (buf_at ys i) ≡ true
        → (buf_at ys i).valid ≡ false
        → data_of disk d b (read_buf disk (buf_at ys i)) ≡ data_of disk d b (buf_at ys i)
    read_data d b e v = let w = key_of d b (buf_at ys i) e in rw v (ap₂ disk (w.0) (w.1))

    read_here :
        (buf_at ys i).valid ≡ false
        → disk (buf_at ys i).dev (buf_at ys i).blockno ≡ view disk xs dev blockno
    read_here v =
        let w = key_of dev blockno (buf_at ys i) k in
        ap₂ disk (w.0) (w.1) ∙ ground (arith, v, shown disk dev blockno xs ys i nz (sh, l, k))

-- When `bread` of a block of a device gives a buffer, the coherent cache shows for every block what
-- it showed before, whatever buffer had to be recycled, and is coherent still; the buffer is a valid one
-- for the block, with the contents that the cache showed for it.
pub bread-IsRead :
    (disksize : ℕ) (disk : Disk) (dev blockno i : ℕ) (xs ys : List Buf)
    → dev ≢ 0
    → IsCoherent disk xs
    → bread disksize disk dev blockno xs ≡ some (ys, i)
    → IsRead disk dev blockno xs (ys, i)
unfolding bread
bread-IsRead disksize disk dev blockno i xs ys nz c h = elim (Option-cases (bget dev blockno xs)) [
  | inl e ↦ absurd (ground (arith, e, h))
  | inr ((zs, j), e) ↦
      let eq : read_in disksize disk (zs, j) ≡ some (ys, i) = ground (arith, e, h) in
      read_in-IsRead disksize disk dev blockno xs zs j (ys, i) nz
        (bget-IsGot disk dev blockno xs (zs, j) nz c e) eq
]
