-- ===== src/Bytes/Compare.antt =====
-- string.c: memcmp, strncmp and strlen.
use op_sys.Base.{pos, ℕ, zero, suc, ◌+◌, ◌≤◌, ◌<◌, ◌≡◌, refl, sym, ap, ◌∙◌, ◌≢◌, ◌↔◌, some, arith}
use op_sys.Bytes.{Memory, minus, memcmp, strncmp, strlen_from, strlen}

shift : (m : Memory) (s i : ℕ) → m (s + suc i) ≡ m (s + 1 + i)
shift m s i = ap m (omega arith)

start : (m : Memory) (s : ℕ) → m (s + 0) ≡ m s
start m s = ap m (omega arith)

minus-zero : (a b : ℕ) → minus a b ≡ pos 0 → a ≡ b
minus-zero a b h = ground arith

memcmp-same :
    (n s1 s2 : ℕ) (m : Memory)
    → memcmp s1 s2 n m ≡ pos 0
    → (i : ℕ) → i < n
    → m (s1 + i) ≡ m (s2 + i)
unfolding memcmp
memcmp-same zero s1 s2 m e i h = absurd (omega arith)
memcmp-same (suc n) s1 s2 m e zero h =
    ground (arith, minus-zero (m s1) (m s2), start m s1, start m s2)
memcmp-same (suc n) s1 s2 m e (suc i) h =
    shift m s1 i
    ∙ memcmp-same n (s1 + 1) (s2 + 1) m (ground (arith, minus-zero (m s1) (m s2))) i (omega arith)
    ∙ sym (shift m s2 i)

memcmp-of_same :
    (n s1 s2 : ℕ) (m : Memory)
    → ((i : ℕ) → i < n → m (s1 + i) ≡ m (s2 + i))
    → memcmp s1 s2 n m ≡ pos 0
unfolding memcmp
memcmp-of_same zero s1 s2 m h = refl
memcmp-of_same (suc n) s1 s2 m h = ground (
  arith,
  h 0 (omega arith),
  start m s1,
  start m s2,
  memcmp-of_same n (s1 + 1) (s2 + 1) m
      λ i lt. sym (shift m s1 i) ∙ h (suc i) (omega arith) ∙ shift m s2 i,
)

-- `memcmp` is 0 exactly on ranges that hold the same bytes.
pub memcmp_iff :
    (n s1 s2 : ℕ) (m : Memory)
    → (memcmp s1 s2 n m ≡ pos 0) ↔ ((i : ℕ) → i < n → m (s1 + i) ≡ m (s2 + i))
memcmp_iff n s1 s2 m = (memcmp-same n s1 s2 m, memcmp-of_same n s1 s2 m)

-- At the first place where two ranges differ `memcmp` has the sign of the difference there.
pub memcmp-first :
    (k n s1 s2 : ℕ) (m : Memory)
    → k < n
    → ((i : ℕ) → i < k → m (s1 + i) ≡ m (s2 + i))
    → m (s1 + k) ≢ m (s2 + k)
    → memcmp s1 s2 n m ≡ minus (m (s1 + k)) (m (s2 + k))
unfolding memcmp
memcmp-first k zero s1 s2 m h same ne = absurd (omega arith)
memcmp-first zero (suc n) s1 s2 m h same ne = ground (arith, start m s1, start m s2)
memcmp-first (suc k) (suc n) s1 s2 m h same ne =
    let here : m s1 ≡ m s2 = sym (start m s1) ∙ same 0 (omega arith) ∙ start m s2 in
    let rest : memcmp (s1 + 1) (s2 + 1) n m ≡ minus (m (s1 + 1 + k)) (m (s2 + 1 + k)) =
      memcmp-first k n (s1 + 1) (s2 + 1) m (omega arith)
        (λ i lt. sym (shift m s1 i) ∙ same (suc i) (omega arith) ∙ shift m s2 i)
        (λ e. ne (shift m s1 k ∙ e ∙ sym (shift m s2 k))) in
    ground (arith, here, rest, shift m s1 k, shift m s2 k)

-- With more fuel than the length, `strlen` returns the place of the first NUL.
strlen_from_lem :
    (k n fuel s : ℕ) (m : Memory)
    → k < fuel
    → ((i : ℕ) → i < k → m (s + (n + i)) ≢ 0)
    → m (s + (n + k)) ≡ 0
    → strlen_from fuel s n m ≡ some (n + k)
unfolding strlen_from
strlen_from_lem k n zero s m h before z = absurd (omega arith)
strlen_from_lem zero n (suc fuel) s m h before z =
    let here : m (s + n) ≡ 0 = ap m (omega arith) ∙ z in rw here (ap some (omega arith))
strlen_from_lem (suc k) n (suc fuel) s m h before z =
    let here : m (s + n) ≢ 0 = λ e. before 0 (omega arith) (ap m (omega arith) ∙ e) in
    let rest : strlen_from fuel s (n + 1) m ≡ some (n + 1 + k) =
      strlen_from_lem k (n + 1) fuel s m (omega arith)
        (λ i lt e. before (suc i) (omega arith) (ap m (omega arith) ∙ e))
        (ap m (omega arith) ∙ z) in
    ground (arith, here, rest)

-- With more fuel than the length, `strlen` finds the first NUL and returns how far it is.
pub strlen_lem :
    (k fuel s : ℕ) (m : Memory)
    → k < fuel
    → ((i : ℕ) → i < k → m (s + i) ≢ 0)
    → m (s + k) ≡ 0
    → strlen fuel s m ≡ some k
unfolding strlen
strlen_lem k fuel s m h before z =
    strlen_from_lem k 0 fuel s m h (λ i lt e. before i lt (ap m (omega arith) ∙ e))
      (ap m (omega arith) ∙ z)
    ∙ ap some (omega arith)

-- `strncmp` of a string with itself is 0, and it never looks behind the NUL: strings that agree up to
-- and with a NUL compare equal at every bound.
pub strncmp-same :
    (k n p q : ℕ) (m : Memory)
    → ((i : ℕ) → i ≤ k → m (p + i) ≡ m (q + i))
    → m (p + k) ≡ 0
    → strncmp p q n m ≡ pos 0
unfolding strncmp
strncmp-same k zero p q m same z = refl
strncmp-same zero (suc n) p q m same z = ground (arith, start m p, start m q, same 0 (omega arith))
strncmp-same (suc k) (suc n) p q m same z = ground (
  arith,
  start m p,
  start m q,
  same 0 (omega arith),
  strncmp-same k n (p + 1) (q + 1) m
      (λ i le. sym (shift m p i) ∙ same (suc i) (omega arith) ∙ shift m q i)
      (sym (shift m p k) ∙ z),
)
