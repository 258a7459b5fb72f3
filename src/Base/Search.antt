-- ===== src/Base/Search.antt =====
-- The search loop of the C code: the index of the first element that passes a test.
use Prim.Native.Nat.{ℕ, zero, suc, ◌<◌, ◌≤◌}
use mathlib.Core.Path.{◌≡◌}
use mathlib.Core.Logic.{inl, inr}
use mathlib.Core.Bool.{Bool, true, false}
use mathlib.Core.List.{List, [], ◌∷◌}
use native.Mathlib.Omega.{arith}
use op_sys.Base.Tests.{if◌then◌else◌, Bool-cases}
use op_sys.Base.Lists.{length, get_or}

-- `length xs` if there is none.
unfoldable pub index_of {ℓ} : {A : Type ℓ} → (A → Bool) → List A → ℕ
index_of p [] = 0
index_of p (x ∷ xs) = if p x then 0 else suc (index_of p xs)

module _ {ℓ} {A : Type ℓ} (p : A → Bool) where
  pub index_of-le : (xs : List A) → index_of p xs ≤ length xs
  unfolding index_of
  index_of-le [] = omega arith
  index_of-le (x ∷ xs) = ground (arith, index_of-le xs)

  pub index_of_holds :
      (xs : List A) (d : A) → index_of p xs < length xs → p (get_or xs (index_of p xs) d) ≡ true
  unfolding index_of
  index_of_holds [] d h = absurd (omega arith)
  index_of_holds (x ∷ xs) d h = elim (Bool-cases (p x)) [
    | inl e ↦ ground arith
    | inr e ↦ rw e (index_of_holds xs d (ground arith))
  ]

  pub index_of_before :
      (xs : List A) (d : A) (i : ℕ) → i < index_of p xs → p (get_or xs i d) ≡ false
  unfolding index_of
  index_of_before [] d i h = absurd (omega arith)
  index_of_before (x ∷ xs) d zero h = ground arith
  index_of_before (x ∷ xs) d (suc i) h = elim (Bool-cases (p x)) [
    | inl e ↦ absurd (ground arith)
    | inr e ↦ index_of_before xs d i (ground arith)
  ]

  pub index_of-le_of :
      (xs : List A) (d : A) (i : ℕ) → i < length xs → p (get_or xs i d) ≡ true → index_of p xs ≤ i
  unfolding index_of
  index_of-le_of [] d i h e = absurd (omega arith)
  index_of-le_of (x ∷ xs) d zero h e = ground arith
  index_of-le_of (x ∷ xs) d (suc i) h e = ground (arith, index_of-le_of xs d i (omega arith) e)
