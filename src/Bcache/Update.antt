-- ===== src/Bcache/Update.antt =====
-- bio.c: what a write to one buffer and a move of one do to the contents that the cache shows.
use op_sys.Base.{
  ◌==◌, if◌then◌else◌, Bool-cases, Option-cases, total, total-set, total-remove_at, index_of,
  length, set, length-set, get_or-set_self, All-get_or, All-set, All-remove_at, ℕ, suc, ◌+◌, ◌≤◌,
  ◌<◌, ◌≡◌, refl, sym, ap, ap₂, subst, ◌∙◌, ◌≢◌, inl, inr, true, false, ◌&&◌, some, List, [], ◌∷◌,
  arith,
}
use op_sys.Bcache.{Buf, no_buf, Disk, buf_at, is_block, last_free, to_front}
use op_sys.Bcache.View.{
  is_one, copies, data_of, view, IsClean, IsCoherent, view_absent, view_at, view-set_ne,
  view-remove_ne,
}

-- The cache is coherent, and shows the contents `f` of every block of a device.
abbrev pub IsShowing : Disk → List Buf → (ℕ → ℕ → ℕ) → Type 0
IsShowing disk xs f = IsCoherent disk xs × ((d b : ℕ) → d ≢ 0 → view disk xs d b ≡ f d b)

-- A buffer that is replaced by one for the same block.
module _ (disk : Disk) (xs : List Buf) (c : IsCoherent disk xs) (i : ℕ) (l : i < length xs)
    (y : Buf) (same_dev : y.dev ≡ (buf_at xs i).dev)
    (same_block : y.blockno ≡ (buf_at xs i).blockno) where
  pub same_key : (d b : ℕ) → is_block d b y ≡ is_block d b (buf_at xs i)
  same_key d b = ap₂ (λ m n. (m == d) && (n == b)) same_dev same_block

  pub copies-update : (d b : ℕ) → copies d b (set xs i y) ≡ copies d b xs
  copies-update d b =
      omega
        (arith, total-set (λ x. is_one (is_block d b x)) xs i y no_buf l, ap is_one (same_key d b))

  pub view-update :
      (d b : ℕ)
      → d ≢ 0
      → view disk (set xs i y) d b
        ≡ (if is_block d b (buf_at xs i) then data_of disk d b y else view disk xs d b)
  view-update d b nz = elim (Bool-cases (is_block d b (buf_at xs i))) [
    | inl e ↦ rw e (
        view_at disk d b (set xs i y) i (rw (copies-update d b) (c.once d b nz))
          (omega (arith, length-set xs i y))
          (ap (is_block d b) (get_or-set_self xs i y no_buf l) ∙ same_key d b ∙ e)
        ∙ ap (data_of disk d b) (get_or-set_self xs i y no_buf l))
    | inr e ↦ rw e (view-set_ne disk d b xs i y e (same_key d b ∙ e))
  ]

  pub update-IsCoherent : IsClean disk y → IsCoherent disk (set xs i y)
  update-IsCoherent h = record {
    once = λ d b nz. rw (copies-update d b) (c.once d b nz);
    clean = All-set (IsClean disk) xs i y (c.clean) h;
  }

  -- A replacement that holds the same data.
  pub update-IsShowing :
      IsClean disk y
      → ((d b : ℕ)
          → is_block d b (buf_at xs i) ≡ true
          → data_of disk d b y ≡ data_of disk d b (buf_at xs i))
      → IsShowing disk (set xs i y) (view disk xs)
  update-IsShowing h e = (
    update-IsCoherent h,
    λ d b nz. view-update d b nz ∙ elim (Bool-cases (is_block d b (buf_at xs i))) [
      | inl k ↦ rw k (e d b k ∙ sym (view_at disk d b xs i (c.once d b nz) l k))
      | inr k ↦ rw k refl
    ],
  )

pub key_of : (d b : ℕ) (x : Buf) → is_block d b x ≡ true → (x.dev ≡ d) × (x.blockno ≡ b)
key_of d b x h = (ground arith, ground arith)

pub to_front-IsShowing :
    (disk : Disk) (xs : List Buf) (i : ℕ)
    → IsCoherent disk xs
    → i < length xs
    → IsShowing disk (to_front xs i) (view disk xs)
unfolding view total
to_front-IsShowing disk xs i c l = (
  record {
    once = λ d b nz.
        omega (arith, c.once d b nz, total-remove_at (λ x. is_one (is_block d b x)) xs i no_buf l);
    clean = (
      All-get_or (IsClean disk) xs i no_buf (c.clean) l,
      All-remove_at (IsClean disk) xs i (c.clean),
    );
  },
  λ d b nz. elim (Bool-cases (is_block d b (buf_at xs i))) [
    | inl e ↦ rw e (sym (view_at disk d b xs i (c.once d b nz) l e))
    | inr e ↦ rw e (view-remove_ne disk d b xs i e)
  ],
)

pub last_free_lem :
    (xs : List Buf) (k : ℕ)
    → last_free xs ≡ some k
    → (k < length xs) × ((buf_at xs k).refcnt ≡ 0) × ((buf_at xs k).dirty ≡ false)
unfolding last_free
last_free_lem [] k h = absurd (ground arith)
last_free_lem (x ∷ xs) k h = elim (Option-cases (last_free xs)) [
  | inl e ↦ (ground (arith, e), ground (arith, e), ground (arith, e))
  | inr (i, e) ↦
      let r = last_free_lem xs i e in
      let eq : suc i ≡ k = ground (arith, e, h) in
      subst
        (λ k.
          (k < suc (length xs))
          × ((buf_at (x ∷ xs) k).refcnt ≡ 0)
          × ((buf_at (x ∷ xs) k).dirty ≡ false))
        eq (omega (arith, r.0), r.1, r.2)
]

-- A buffer that is clean and unused is taken for a block that has none.
module _ (disk : Disk) (xs : List Buf) (c : IsCoherent disk xs) (k : ℕ) (l : k < length xs)
    (dev blockno : ℕ) (nz : dev ≢ 0) (y : Buf) (absent : copies dev blockno xs ≡ 0)
    (is_y : is_block dev blockno y ≡ true) (invalid : y.valid ≡ false) (y_clean : y.dirty ≡ false)
    (not_dirty : (buf_at xs k).dirty ≡ false) where
  recycle-copies :
      (d b : ℕ)
      → copies d b (set xs k y) + is_one (is_block d b (buf_at xs k))
        ≡ copies d b xs + is_one (is_block d b y)
  recycle-copies d b = total-set (λ x. is_one (is_block d b x)) xs k y no_buf l

  absent_at : (d b : ℕ) → is_block d b y ≡ true → copies d b xs ≡ 0
  absent_at d b e =
      let this = key_of dev blockno y is_y in
      let that = key_of d b y e in
      ap₂ (λ m n. copies m n xs) (sym (that.0) ∙ this.0) (sym (that.1) ∙ this.1) ∙ absent

  recycle-view : (d b : ℕ) → d ≢ 0 → view disk (set xs k y) d b ≡ view disk xs d b
  recycle-view d b n = elim (Bool-cases (is_block d b y)) [
    | inl e ↦
        view_at disk d b (set xs k y) k (ground (arith, recycle-copies d b, absent_at d b e, e))
          (omega (arith, length-set xs k y))
          (ap (is_block d b) (get_or-set_self xs k y no_buf l) ∙ e)
        ∙ ap (data_of disk d b) (get_or-set_self xs k y no_buf l)
        ∙ rw invalid (sym (view_absent disk d b xs (absent_at d b e)))
    | inr e ↦ elim (Bool-cases (is_block d b (buf_at xs k))) [
      | inl f ↦
          view_absent disk d b (set xs k y) (ground (arith, recycle-copies d b, c.once d b n, e, f))
          ∙ old_data d b f
          ∙ sym (view_at disk d b xs k (c.once d b n) l f)
      | inr f ↦ view-set_ne disk d b xs k y f e
    ]
  ]
    where
      old_data :
          (d b : ℕ) → is_block d b (buf_at xs k) ≡ true → disk d b ≡ data_of disk d b (buf_at xs k)
      old_data d b f = elim (Bool-cases (buf_at xs k).valid) [
        | inr v ↦ rw v refl
        | inl v ↦ rw v (
            sym (
              (All-get_or (IsClean disk) xs k no_buf (c.clean) l).0 v not_dirty
              ∙ ap₂ disk ((key_of d b (buf_at xs k) f).0) ((key_of d b (buf_at xs k) f).1)))
      ]

  pub recycle-IsShowing : IsShowing disk (set xs k y) (view disk xs)
  recycle-IsShowing = (
    record {
      once = λ d b n. elim (Bool-cases (is_block d b y)) [
        | inl e ↦ ground (arith, recycle-copies d b, absent_at d b e, e)
        | inr e ↦ ground (arith, recycle-copies d b, c.once d b n, e)
      ];
      clean =
          All-set (IsClean disk) xs k y (c.clean)
            (λ v w. absurd (ground (arith, v, invalid)), λ v. y_clean);
    },
    recycle-view,
  )

pub absent_of :
    (d b : ℕ) (xs : List Buf) → length xs ≤ index_of (is_block d b) xs → copies d b xs ≡ 0
unfolding index_of total
absent_of d b [] h = refl
absent_of d b (x ∷ xs) h = ground (arith, absent_of d b xs)
