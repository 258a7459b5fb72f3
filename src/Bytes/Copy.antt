-- ===== src/Bytes/Copy.antt =====
-- string.c: safestrcpy always leaves a terminated string inside its buffer.
use op_sys.Base.{
  ◌==◌, Bool-cases, ℕ, zero, suc, ◌+◌, ◌≤◌, ◌<◌, ◌≡◌, refl, sym, ap, ◌∙◌, ◌⊎◌, inl, inr, arith,
}
use op_sys.Bytes.{Memory, write, safe_copy, safestrcpy}

-- Outside its buffer nothing is written.
safe_copy-outside :
    (n s t : ℕ) (m : Memory) (a : ℕ) → (a < s) ⊎ (s + n < a) → safe_copy s t n m a ≡ m a
unfolding safe_copy
safe_copy-outside zero s t m a h = ground arith
safe_copy-outside (suc n) s t m a h =
    ground (arith, safe_copy-outside n (s + 1) (t + 1) (write m s (m t)) a (omega arith))

start : (m : Memory) (s : ℕ) → m (s + 0) ≡ m s
start m s = ap m (omega arith)

start_of : (s : ℕ) → s + 0 ≡ s
start_of s = omega arith

abbrev IsApart : ℕ → ℕ → ℕ → Type 0
IsApart n s t = (s + n < t) ⊎ (t + n ≤ s)

copied :
    (n s t : ℕ) (m : Memory) (k : ℕ)
    → IsApart (suc n) s t
    → k ≤ n
    → safe_copy (s + 1) (t + 1) n (write m s (m t)) s ≡ m t
    → ((i : ℕ)
        → i < k
        → safe_copy (s + 1) (t + 1) n (write m s (m t)) (s + 1 + i) ≡ write m s (m t) (t + 1 + i))
    → (i : ℕ) → i < suc k
    → safe_copy (s + 1) (t + 1) n (write m s (m t)) (s + i) ≡ m (t + i)
copied n s t m k h le kept same zero lt =
    ap (safe_copy (s + 1) (t + 1) n (write m s (m t))) (omega arith) ∙ kept ∙ sym (start m t)
copied n s t m k h le kept same (suc i) lt =
    ap (safe_copy (s + 1) (t + 1) n (write m s (m t))) (omega arith)
    ∙ same i (omega arith)
    ∙ ground arith
    ∙ ap m (let e : t + 1 + i ≡ t + suc i = omega arith in e)

ended :
    (n s t : ℕ) (m : Memory) (k : ℕ)
    → IsApart (suc n) s t
    → k ≤ n
    → (k ≡ n) ⊎ (write m s (m t) (t + 1 + k) ≡ 0)
    → (suc k ≡ suc n) ⊎ (m (t + suc k) ≡ 0)
ended n s t m k h le stop =
    let next : m (t + 1 + k) ≡ m (t + suc k) = ap m (omega arith) in ground (arith, next)

-- Up to the final NUL the buffer holds what the source held, if they do not overlap.
safe_copy_lem :
    (n s t : ℕ) (m : Memory)
    → (s + n < t) ⊎ (t + n ≤ s)
    → (k : ℕ) × (k ≤ n)
      × (safe_copy s t n m (s + k) ≡ 0)
      × ((i : ℕ) → i < k → safe_copy s t n m (s + i) ≡ m (t + i))
      × ((k ≡ n) ⊎ (m (t + k) ≡ 0))
unfolding safe_copy
safe_copy_lem zero s t m h = (0, omega arith, ground arith, λ i lt. absurd (omega arith), inl refl)
safe_copy_lem (suc n) s t m h =
    let m' : Memory = write m s (m t) in
    let (k, le, nul, same, stop) = safe_copy_lem n (s + 1) (t + 1) m' (omega arith) in
    let rest : Memory = safe_copy (s + 1) (t + 1) n m' in
    let kept : rest s ≡ m t =
      safe_copy-outside n (s + 1) (t + 1) m' s (omega arith) ∙ ground arith in
    elim (Bool-cases (m t == 0)) [
      | inl z ↦ rw z (
        0,
        omega arith,
        ground (arith, start m t, start_of s),
        λ i lt. absurd (omega arith),
        inr (ground (arith, start m t)),
      )
      | inr nz ↦ rw nz (
        suc k,
        omega arith,
        ap rest (omega arith) ∙ nul,
        λ i lt. copied n s t m k h le kept same i lt,
        ended n s t m k h le stop,
      )
    ]

-- After `safestrcpy(s, t, n)` with `n` at least 1 and `t` outside the buffer, the buffer holds a string
-- that ends within its `n` bytes: a prefix of `t`, cut only where the buffer or `t` ends. No byte
-- outside the buffer is written.
pub safestrcpy_lem :
    (s t n : ℕ) (m : Memory)
    → 0 < n
    → (s + n ≤ t) ⊎ (t + n ≤ s + 1)
    → ((k : ℕ) × (k < n)
        × (safestrcpy s t n m (s + k) ≡ 0)
        × ((i : ℕ) → i < k → safestrcpy s t n m (s + i) ≡ m (t + i))
        × ((suc k ≡ n) ⊎ (m (t + k) ≡ 0)))
      × ((a : ℕ) → (a < s) ⊎ (s + n ≤ a) → safestrcpy s t n m a ≡ m a)
unfolding safestrcpy
safestrcpy_lem s t zero m p h = absurd (omega arith)
safestrcpy_lem s t (suc n) m p h =
    let (k, le, nul, same, stop) = safe_copy_lem n s t m (omega arith) in
    (
      (k, omega arith, nul, same, ground (arith, stop)),
      λ a o. safe_copy-outside n s t m a (omega arith),
    )
