-- ===== src/Base/Indexed.antt =====
-- Loops over a C array whose body also looks at the index.
use Prim.Native.Nat.{ℕ, zero, suc, ◌+◌, ◌<◌}
use mathlib.Core.Path.{◌≡◌, refl, ap, ◌∙◌}
use mathlib.Core.Logic.{inl, inr}
use mathlib.Core.Bool.{Bool, true, false, ◌||◌}
use mathlib.Core.List.{List, [], ◌∷◌}
use native.Mathlib.Omega.{arith}
use op_sys.Base.Tests.{Bool-cases}
use op_sys.Base.Lists.{length, get_or}

module _ {ℓ} {A : Type ℓ} where
  -- The loop that starts at index `k` and may change each element.
  unfoldable pub map_from : (ℕ → A → A) → ℕ → List A → List A
  map_from f k [] = []
  map_from f k (x ∷ xs) = f k x ∷ map_from f (suc k) xs

  -- Whether the test holds somewhere.
  unfoldable pub any_from : (ℕ → A → Bool) → ℕ → List A → Bool
  any_from p k [] = false
  any_from p k (x ∷ xs) = p k x || any_from p (suc k) xs

  pub length-map_from : (f : ℕ → A → A) (k : ℕ) (xs : List A) → length (map_from f k xs) ≡ length xs
  unfolding map_from
  length-map_from f k [] = refl
  length-map_from f k (x ∷ xs) = ap suc (length-map_from f (suc k) xs)

  map_from-get_or_at :
      (f : ℕ → A → A) (k : ℕ) (xs : List A) (i m : ℕ) (d : A)
      → k + i ≡ m
      → i < length xs
      → get_or (map_from f k xs) i d ≡ f m (get_or xs i d)
  unfolding map_from
  map_from-get_or_at f k [] i m d e h = absurd (omega arith)
  map_from-get_or_at f k (x ∷ xs) zero m d e h = ap (λ n. f n x) (omega arith)
  map_from-get_or_at f k (x ∷ xs) (suc i) m d e h =
      map_from-get_or_at f (suc k) xs i m d (omega arith) (omega arith)

  pub get_or-map_from :
      (f : ℕ → A → A) (xs : List A) (i : ℕ) (d : A)
      → i < length xs
      → get_or (map_from f 0 xs) i d ≡ f i (get_or xs i d)
  get_or-map_from f xs i d h = map_from-get_or_at f 0 xs i i d (omega arith) h

  any_from-at :
      (p : ℕ → A → Bool) (k : ℕ) (xs : List A) (i m : ℕ) (d : A)
      → k + i ≡ m
      → i < length xs
      → any_from p k xs ≡ false
      → p m (get_or xs i d) ≡ false
  unfolding any_from
  any_from-at p k [] i m d e h a = absurd (omega arith)
  any_from-at p k (x ∷ xs) zero m d e h a =
      ap (λ n. p n x) (let e' : m ≡ k = omega arith in e') ∙ ground arith
  any_from-at p k (x ∷ xs) (suc i) m d e h a =
      any_from-at p (suc k) xs i m d (omega arith) (omega arith) (ground arith)

  -- A loop that finds nothing has seen every element.
  pub any_from-false :
      (p : ℕ → A → Bool) (xs : List A) (i : ℕ) (d : A)
      → any_from p 0 xs ≡ false
      → i < length xs
      → p i (get_or xs i d) ≡ false
  any_from-false p xs i d a h = any_from-at p 0 xs i i d (omega arith) h a

  any_from-found :
      (p : ℕ → A → Bool) (k : ℕ) (xs : List A) (i m : ℕ) (d : A)
      → k + i ≡ m
      → i < length xs
      → p m (get_or xs i d) ≡ true
      → any_from p k xs ≡ true
  any_from-found p k xs i m d e h t = elim (Bool-cases (any_from p k xs)) [
    | inl y ↦ y
    | inr f ↦ absurd (ground (arith, any_from-at p k xs i m d e h f))
  ]

  pub any_from-true :
      (p : ℕ → A → Bool) (xs : List A) (i : ℕ) (d : A)
      → i < length xs
      → p i (get_or xs i d) ≡ true
      → any_from p 0 xs ≡ true
  any_from-true p xs i d h t = any_from-found p 0 xs i i d (omega arith) h t

  any_from-some_at :
      (p : ℕ → A → Bool) (k : ℕ) (xs : List A) (d : A)
      → any_from p k xs ≡ true
      → (i : ℕ) × (i < length xs) × (p (k + i) (get_or xs i d) ≡ true)
  unfolding any_from
  any_from-some_at p k [] d h = absurd (ground (arith, h))
  any_from-some_at p k (x ∷ xs) d h = elim (Bool-cases (p k x)) [
    | inl t ↦ (0, omega arith, ap (λ n. p n x) {y = k} (omega arith) ∙ t)
    | inr f ↦
        let (i, lt, t) = any_from-some_at p (suc k) xs d (ground (arith, h, f)) in
        (suc i, omega (arith, lt), ap (λ n. p n (get_or xs i d)) {y = suc k + i} (omega arith) ∙ t)
  ]

  -- A loop that finds something has seen where.
  pub any_from_some :
      (p : ℕ → A → Bool) (xs : List A) (d : A)
      → any_from p 0 xs ≡ true
      → (i : ℕ) × (i < length xs) × (p i (get_or xs i d) ≡ true)
  any_from_some p xs d h =
      let (i, lt, t) = any_from-some_at p 0 xs d h in
      (i, lt, ap (λ n. p n (get_or xs i d)) {x = i} {y = 0 + i} (omega arith) ∙ t)

  any_from-none_at :
      (p : ℕ → A → Bool) (k : ℕ) (xs : List A) (d : A)
      → ((i m : ℕ) → k + i ≡ m → i < length xs → p m (get_or xs i d) ≡ false)
      → any_from p k xs ≡ false
  unfolding any_from
  any_from-none_at p k [] d h = refl
  any_from-none_at p k (x ∷ xs) d h = ground (
    arith,
    h 0 k (omega arith) (omega arith),
    any_from-none_at p (suc k) xs d (λ i m e lt. h (suc i) m (omega arith) (omega arith)),
  )

  pub any_from_none :
      (p : ℕ → A → Bool) (xs : List A) (d : A)
      → ((i : ℕ) → i < length xs → p i (get_or xs i d) ≡ false)
      → any_from p 0 xs ≡ false
  any_from_none p xs d h =
      any_from-none_at p 0 xs d λ i m e lt. ap (λ q. p q (get_or xs i d)) (omega arith) ∙ h i lt
