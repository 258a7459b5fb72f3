-- ===== src/Path/Elements.antt =====
-- fs.c: `skipelem` goes through the elements of a path.
use op_sys.Dir.{dirsiz}
use mathlib.Core.List.{append_assoc, append-nil}
use op_sys.Base.{
  ◌==◌, if◌then◌else◌, Bool-cases, length, take, ℕ, ◌≤◌, ◌<◌, ◌≡◌, refl, sym, ap, ◌∙◌, ◌⊎◌, inl,
  inr, Bool, true, false, none, some, List, [], ◌∷◌, ◌++◌, append-nil, arith,
}
use op_sys.Path.{slash, drop_slashes, element, after_element, skipelem_from, skipelem, is_empty}

-- The elements of a path: what stands between slashes and is not empty. `acc` is what has been read
-- of an element.
abbrev pub closed : List ℕ → List (List ℕ) → List (List ℕ)
closed [] es = es
closed (c ∷ acc) es = (c ∷ acc) ∷ es

unfoldable pub split_from : List ℕ → List ℕ → List (List ℕ)
split_from acc [] = closed acc []
split_from acc (c ∷ path) =
    let cut = closed acc (split_from [] path) in
    let on = split_from (acc ++ c ∷ []) path in if c == slash then cut else on

abbrev pub split : List ℕ → List (List ℕ)
split path = split_from [] path

split-drop_slashes : (path : List ℕ) → split (drop_slashes path) ≡ split path
unfolding split_from drop_slashes
split-drop_slashes [] = refl
split-drop_slashes (c ∷ path) = ground (arith, split-drop_slashes path)

-- An element that has begun goes on to the next slash.
split_from-element :
    (acc path : List ℕ)
    → split_from acc path ≡ closed (acc ++ element path) (split (after_element path))
unfolding split_from element after_element
split_from-element acc [] = ap (λ a. closed a []) (sym (append-nil acc))
split_from-element acc (c ∷ path) = elim (Bool-cases (c == slash)) [
  | inl e ↦ ground (arith, e, append-nil acc)
  | inr e ↦ rw e (
      split_from-element (acc ++ c ∷ []) path
      ∙ ap (λ a. closed a (split (after_element path))) (append_assoc acc (c ∷ []) (element path)))
]

-- What is left behind slashes is empty or begins with another byte.
drop_slashes_cases :
    (path : List ℕ)
    → (drop_slashes path ≡ [])
      ⊎ ((c : ℕ) × (q : List ℕ) × (drop_slashes path ≡ c ∷ q) × ((c == slash) ≡ false))
unfolding drop_slashes
drop_slashes_cases [] = inl refl
drop_slashes_cases (c ∷ path) = elim (Bool-cases (c == slash)) [
  | inl e ↦ rw e (drop_slashes_cases path)
  | inr e ↦ inr (c, path, rw e refl, e)
]

length-drop_slashes : (path : List ℕ) → length (drop_slashes path) ≤ length path
unfolding drop_slashes
length-drop_slashes [] = omega arith
length-drop_slashes (c ∷ path) = ground (arith, length-drop_slashes path)

length-after_element : (path : List ℕ) → length (after_element path) ≤ length path
unfolding after_element
length-after_element [] = omega arith
length-after_element (c ∷ path) = ground (arith, length-after_element path)

-- An element in front of the rest of a path.
split-element :
    (c : ℕ) (q : List ℕ)
    → (c == slash) ≡ false
    → split (c ∷ q) ≡ element (c ∷ q) ∷ split (after_element (c ∷ q))
unfolding split_from element after_element
split-element c q h = rw h (split_from-element (c ∷ []) q)

abbrev pub is_done : List (List ℕ) → Bool
is_done [] = true
is_done (e ∷ es) = false

length-after :
    (c : ℕ) (q : List ℕ) → (c == slash) ≡ false → length (after_element (c ∷ q)) ≤ length q
unfolding after_element
length-after c q h = rw h (length-after_element q)

is_empty-eq : (path : List ℕ) → is_empty (drop_slashes path) ≡ is_done (split (drop_slashes path))
unfolding split_from
is_empty-eq path = elim (drop_slashes_cases path) [
  | inl e ↦ rw e refl
  | inr (c, q, e, h) ↦ rw e (sym (ap is_done (split-element c q h)))
]

-- `skipelem` fails on a path with no element; on any other it takes the first one, cut to
-- `DIRSIZ` bytes, and leaves a shorter path with the elements after it.
pub skipelem_cases :
    (path : List ℕ)
    → ((skipelem path ≡ none) × (split path ≡ []))
      ⊎ ((e rest : List ℕ) × (skipelem path ≡ some (take dirsiz e, rest))
          × (split path ≡ e ∷ split rest)
          × (is_empty rest ≡ is_done (split rest))
          × (length rest < length path))
unfolding skipelem skipelem_from split_from
skipelem_cases path = elim (drop_slashes_cases path) [
  | inl e ↦ inl (rw e refl, sym (split-drop_slashes path) ∙ ap split e)
  | inr (c, q, e, h) ↦ inr (
    element (c ∷ q),
    drop_slashes (after_element (c ∷ q)),
    rw e refl,
    sym (split-drop_slashes path)
        ∙ ap split e
        ∙ split-element c q h
        ∙ ap (λ es. element (c ∷ q) ∷ es) (sym (split-drop_slashes (after_element (c ∷ q)))),
    is_empty-eq (after_element (c ∷ q)),
    omega (
      arith,
      length-drop_slashes (after_element (c ∷ q)),
      length-after c q h,
      ap length e,
      length-drop_slashes path,
    ),
  )
]
