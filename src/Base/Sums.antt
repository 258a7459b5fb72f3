-- ===== src/Base/Sums.antt =====
-- Weighted sums over a list, and what a write to one place does to a read and to a sum.
use Prim.Native.Nat.{ℕ, zero, suc, ◌+◌, ◌<◌, ◌≤◌}
use mathlib.Core.Path.{◌≡◌, refl, ap}
use mathlib.Core.Logic.{◌≢◌}
use mathlib.Core.List.{List, [], ◌∷◌, map}
use native.Mathlib.Omega.{arith}
use op_sys.Base.Tests.{◌==◌, if◌then◌else◌}
use op_sys.Base.Lists.{length, get_or, set, replicate, remove_at}

module _ {ℓ} {A : Type ℓ} where
  pub get_or-set :
      (xs : List A) (i j : ℕ) (v d : A)
      → i < length xs
      → get_or (set xs i v) j d ≡ (if i == j then v else get_or xs j d)
  get_or-set [] i j v d h = absurd (omega arith)
  get_or-set (x ∷ xs) zero zero v d h = refl
  get_or-set (x ∷ xs) zero (suc j) v d h = ground arith
  get_or-set (x ∷ xs) (suc i) zero v d h = ground arith
  get_or-set (x ∷ xs) (suc i) (suc j) v d h = ground (arith, get_or-set xs i j v d (omega arith))

  unfoldable pub total : (A → ℕ) → List A → ℕ
  total w [] = 0
  total w (x ∷ xs) = w x + total w xs

  pub total-set :
      (w : A → ℕ) (xs : List A) (i : ℕ) (v d : A)
      → i < length xs
      → total w (set xs i v) + w (get_or xs i d) ≡ total w xs + w v
  unfolding total
  total-set w [] i v d h = absurd (omega arith)
  total-set w (x ∷ xs) zero v d h = omega arith
  total-set w (x ∷ xs) (suc i) v d h = omega (arith, total-set w xs i v d (omega arith))

  pub total-map :
      (w : A → ℕ) (f : A → A) (xs : List A)
      → ((x : A) → w (f x) ≡ w x)
      → total w (map f xs) ≡ total w xs
  unfolding total
  total-map w f [] h = refl
  total-map w f (x ∷ xs) h = omega (arith, h x, total-map w f xs h)

  pub total-replicate : (w : A → ℕ) (n : ℕ) (x : A) → w x ≡ 0 → total w (replicate n x) ≡ 0
  unfolding total
  total-replicate w zero x h = refl
  total-replicate w (suc n) x h = omega (arith, h, total-replicate w n x h)

  pub le-total :
      (w : A → ℕ) (xs : List A) (i : ℕ) (d : A) → i < length xs → w (get_or xs i d) ≤ total w xs
  unfolding total
  le-total w [] i d h = absurd (omega arith)
  le-total w (x ∷ xs) zero d h = omega arith
  le-total w (x ∷ xs) (suc i) d h = omega (arith, le-total w xs i d (omega arith))

  pub total-remove_at :
      (w : A → ℕ) (xs : List A) (i : ℕ) (d : A)
      → i < length xs
      → w (get_or xs i d) + total w (remove_at xs i) ≡ total w xs
  unfolding total
  total-remove_at w [] i d h = absurd (omega arith)
  total-remove_at w (x ∷ xs) zero d h = refl
  total-remove_at w (x ∷ xs) (suc i) d h = omega (arith, total-remove_at w xs i d (omega arith))

  pub total_two :
      (w : A → ℕ) (xs : List A) (i j : ℕ) (d : A)
      → i < length xs
      → j < length xs
      → i ≢ j
      → w (get_or xs i d) + w (get_or xs j d) ≤ total w xs
  unfolding total
  total_two w [] i j d h k n = absurd (omega arith)
  total_two w (x ∷ xs) zero zero d h k n = absurd (n refl)
  total_two w (x ∷ xs) zero (suc j) d h k n = omega (arith, le-total w xs j d (omega arith))
  total_two w (x ∷ xs) (suc i) zero d h k n = omega (arith, le-total w xs i d (omega arith))
  total_two w (x ∷ xs) (suc i) (suc j) d h k n =
      omega (arith, total_two w xs i j d (omega arith) (omega arith) (λ e. n (ap suc e)))
