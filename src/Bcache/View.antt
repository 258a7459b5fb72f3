-- ===== src/Bcache/View.antt =====
-- bio.c: what the cache and the disk hold together, block by block.
use op_sys.Base.{
  if◌then◌else◌, Bool-cases, total, length, set, remove_at, All, ℕ, zero, suc, ◌≤◌, ◌<◌, ◌≡◌, refl,
  ◌≢◌, inl, inr, Bool, true, false, List, [], ◌∷◌, arith,
}
use op_sys.Bcache.{Buf, Disk, buf_at, is_block}

abbrev pub is_one : Bool → ℕ
is_one b = if b then 1 else 0

-- How many buffers stand for a block.
abbrev pub copies : ℕ → ℕ → List Buf → ℕ
copies d b xs = total (λ x. is_one (is_block d b x)) xs

-- A buffer's data, or the block's where it has not been read.
abbrev pub data_of : Disk → ℕ → ℕ → Buf → ℕ
data_of disk d b x = if x.valid then x.contents else disk d b

-- The contents of a block: those of the first buffer that stands for it, or those on the disk.
unfoldable pub view : Disk → List Buf → ℕ → ℕ → ℕ
view disk [] d b = disk d b
view disk (x ∷ xs) d b =
    let rest = view disk xs d b in if is_block d b x then data_of disk d b x else rest

-- A buffer that is valid and not dirty has what the disk has, and a dirty one is valid.
abbrev pub IsClean : Disk → Buf → Type 0
IsClean disk x =
    (x.valid ≡ true → x.dirty ≡ false → x.contents ≡ disk x.dev x.blockno)
    × (x.valid ≡ false → x.dirty ≡ false)

-- Every block of a device has at most one buffer, and clean ones agree with the disk. The buffers
-- that were never used stand for device 0, which is none.
pub record IsCoherent (disk : Disk) (xs : List Buf) : Type 0 where
  pub once : (d b : ℕ) → d ≢ 0 → copies d b xs ≤ 1
  pub clean : All (IsClean disk) xs

pub view_absent :
    (disk : Disk) (d b : ℕ) (xs : List Buf) → copies d b xs ≡ 0 → view disk xs d b ≡ disk d b
unfolding view total
view_absent disk d b [] h = refl
view_absent disk d b (x ∷ xs) h = ground (arith, view_absent disk d b xs)

copies_at :
    (d b : ℕ) (xs : List Buf) (i : ℕ)
    → i < length xs
    → is_block d b (buf_at xs i) ≡ true
    → 0 < copies d b xs
unfolding total
copies_at d b [] i l e = absurd (omega arith)
copies_at d b (x ∷ xs) zero l e = ground (arith, e)
copies_at d b (x ∷ xs) (suc i) l e = omega (arith, copies_at d b xs i (omega arith) e)

-- The buffer for a block that has only one.
pub view_at :
    (disk : Disk) (d b : ℕ) (xs : List Buf) (i : ℕ)
    → copies d b xs ≤ 1
    → i < length xs
    → is_block d b (buf_at xs i) ≡ true
    → view disk xs d b ≡ data_of disk d b (buf_at xs i)
unfolding view total
view_at disk d b [] i h l e = absurd (omega arith)
view_at disk d b (x ∷ xs) zero h l e = rw e refl
view_at disk d b (x ∷ xs) (suc i) h l e = elim (Bool-cases (is_block d b x)) [
  | inl f ↦ absurd (ground (arith, f, copies_at d b xs i (omega arith) e))
  | inr f ↦ rw f (view_at disk d b xs i (ground (arith, f)) (omega arith) e)
]

-- A write to a buffer that stands for the block neither before nor after.
pub view-set_ne :
    (disk : Disk) (d b : ℕ) (xs : List Buf) (i : ℕ) (y : Buf)
    → is_block d b (buf_at xs i) ≡ false
    → is_block d b y ≡ false
    → view disk (set xs i y) d b ≡ view disk xs d b
unfolding view
view-set_ne disk d b [] i y e f = refl
view-set_ne disk d b (x ∷ xs) zero y e f = rw (e, f) refl
view-set_ne disk d b (x ∷ xs) (suc i) y e f = ground (arith, view-set_ne disk d b xs i y e f)

pub view-remove_ne :
    (disk : Disk) (d b : ℕ) (xs : List Buf) (i : ℕ)
    → is_block d b (buf_at xs i) ≡ false
    → view disk (remove_at xs i) d b ≡ view disk xs d b
unfolding view
view-remove_ne disk d b [] i e = refl
view-remove_ne disk d b (x ∷ xs) zero e = rw e refl
view-remove_ne disk d b (x ∷ xs) (suc i) e = ground (arith, view-remove_ne disk d b xs i e)

-- The view reads the disk at the one block only.
pub view-disk :
    (disk disk' : Disk) (d b : ℕ) (xs : List Buf)
    → disk' d b ≡ disk d b
    → view disk' xs d b ≡ view disk xs d b
unfolding view
view-disk disk disk' d b [] e = e
view-disk disk disk' d b (x ∷ xs) e = ground (arith, e, view-disk disk disk' d b xs e)
