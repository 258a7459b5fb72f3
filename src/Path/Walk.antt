-- ===== src/Path/Walk.antt =====
-- fs.c: `namex` walks the elements of a path, and takes and drops references in balance.
use op_sys.Base.{
  ◌==◌, if◌then◌else◌, Bool-cases, Option-cases, length, take, ℕ, zero, suc, ◌+◌, ◌<◌, ◌≡◌, refl,
  inl, inr, Bool, not, ◌&&◌, Option, none, some, List, [], ◌∷◌, ◌++◌, arith,
}
use op_sys.Dir.{dirsiz}
use op_sys.Path.{
  RefCall, takes, puts, is_empty, Found, after_turn, start_of, turn, namex_loop, namex,
}
use op_sys.Path.Elements.{split_from, split, is_done, skipelem_cases}

-- What a walk ends in: the inode, if there is one, and the last name.
abbrev pub Result : Type 0
Result = Option ℕ × List ℕ

-- How many references on `i` a list of calls takes, and how many it drops.
abbrev pub taken : ℕ → List RefCall → ℕ
taken i [] = 0
taken i (takes j ∷ cs) = (if j == i then 1 else 0) + taken i cs
taken i (puts j ∷ cs) = taken i cs

abbrev pub dropped : ℕ → List RefCall → ℕ
dropped i [] = 0
dropped i (takes j ∷ cs) = dropped i cs
dropped i (puts j ∷ cs) = (if j == i then 1 else 0) + dropped i cs

abbrev pub held_by : ℕ → Option ℕ → ℕ
held_by i none = 0
held_by i (some j) = if j == i then 1 else 0

taken-append : (i : ℕ) (cs ds : List RefCall) → taken i (cs ++ ds) ≡ taken i cs + taken i ds
taken-append i [] ds = omega arith
taken-append i (takes j ∷ cs) ds = omega (arith, taken-append i cs ds)
taken-append i (puts j ∷ cs) ds = taken-append i cs ds

dropped-append : (i : ℕ) (cs ds : List RefCall) → dropped i (cs ++ ds) ≡ dropped i cs + dropped i ds
dropped-append i [] ds = omega arith
dropped-append i (takes j ∷ cs) ds = dropped-append i cs ds
dropped-append i (puts j ∷ cs) ds = omega (arith, dropped-append i cs ds)

-- Calls after which the reference on `ip` has become one on the result.
abbrev pub IsBalanced : ℕ → ℕ → Found → Type 0
IsBalanced i ip (r, name, calls) =
    taken i calls + held_by i (some ip) ≡ dropped i calls + held_by i r

module _ (is_dir : ℕ → Bool) (lookup : ℕ → List ℕ → Option ℕ) where
  -- The inode under a list of names; with `to_parent`, that of the directory of the last name.
  unfoldable pub resolve : Bool → ℕ → List ℕ → List (List ℕ) → Result
  resolve to_parent ip name [] = (if to_parent then none else some ip, name)
  resolve to_parent ip name (e ∷ es) =
      if not (is_dir ip)
      then (none, take dirsiz e)
      else if to_parent && is_done es
      then (some ip, take dirsiz e)
      else elim (lookup ip (take dirsiz e)) [
        | none ↦ (none, take dirsiz e)
        | some next ↦ resolve to_parent next (take dirsiz e) es
      ]

  abbrev pub result_of : Found → Result
  result_of (r, name, calls) = (r, name)

  after_turn_lem :
      (to_parent : Bool) (ip : ℕ) (e rest : List ℕ) (next : ℕ → Found) (es : List (List ℕ))
      → is_empty rest ≡ is_done es
      → ((n : ℕ) → result_of (next n) ≡ resolve to_parent n (take dirsiz e) es)
      → (name : List ℕ)
      → result_of
          (after_turn (turn is_dir lookup to_parent ip (take dirsiz e) rest) (take dirsiz e) next)
        ≡ resolve to_parent ip name (e ∷ es)
  unfolding after_turn turn resolve
  after_turn_lem to_parent ip e rest next es d h name = elim (Bool-cases (not (is_dir ip))) [
    | inl f ↦ rw f refl
    | inr f ↦ elim (Bool-cases (to_parent && is_done es)) [
      | inl g ↦ rw (f, d, g) refl
      | inr g ↦ elim (Option-cases (lookup ip (take dirsiz e))) [
        | inl l ↦ rw (f, d, g, l) refl
        | inr (n, l) ↦ rw (f, d, g, l) (h n)
      ]
    ]
  ]

  namex_loop_lem :
      (fuel : ℕ) (to_parent : Bool) (ip : ℕ) (name path : List ℕ)
      → length path < fuel
      → result_of (namex_loop is_dir lookup fuel to_parent ip name path)
        ≡ resolve to_parent ip name (split path)
  unfolding resolve namex_loop split_from
  namex_loop_lem zero to_parent ip name path h = absurd (omega arith)
  namex_loop_lem (suc fuel) to_parent ip name path h = elim (skipelem_cases path) [
    | inl (e, s) ↦ rw (namex_loop, e, s) (ground arith)
    | inr (e, rest, k, s, d, l) ↦
        rw (namex_loop, k, s)
          (after_turn_lem to_parent ip e rest
            (λ n. namex_loop is_dir lookup fuel to_parent n (take dirsiz e) rest) (split rest) d
            (λ n. namex_loop_lem fuel to_parent n (take dirsiz e) rest (omega (arith, l))) name)
  ]

  -- `namex` gives the inode that the walk over the elements of the path gives, from the root for a
  -- path with a slash in front and from `cwd` for any other, and the name at which it stopped; it
  -- always comes to an end.
  pub namex-resolve :
      (cwd : ℕ) (to_parent : Bool) (path : List ℕ)
      → result_of (namex is_dir lookup cwd to_parent path)
        ≡ resolve to_parent (start_of cwd path) [] (split path)
  unfolding namex
  namex-resolve cwd to_parent path =
      namex_loop_lem (length path + 1) to_parent (start_of cwd path) [] path (omega arith)

  after_turn-IsBalanced :
      (i ip : ℕ) (to_parent : Bool) (name rest : List ℕ) (next : ℕ → Found)
      → ((n : ℕ) → IsBalanced i n (next n))
      → IsBalanced i ip (after_turn (turn is_dir lookup to_parent ip name rest) name next)
  unfolding after_turn turn
  after_turn-IsBalanced i ip to_parent name rest next h = elim (Bool-cases (not (is_dir ip))) [
    | inl f ↦ rw f (omega arith)
    | inr f ↦ elim (Bool-cases (to_parent && is_empty rest)) [
      | inl g ↦ rw (f, g) (omega arith)
      | inr g ↦ elim (Option-cases (lookup ip name)) [
        | inl l ↦ rw (f, g, l) (omega arith)
        | inr (n, l) ↦ rw (f, g, l) (omega (arith, h n))
      ]
    ]
  ]

  namex_loop-IsBalanced :
      (i fuel : ℕ) (to_parent : Bool) (ip : ℕ) (name path : List ℕ)
      → length path < fuel
      → IsBalanced i ip (namex_loop is_dir lookup fuel to_parent ip name path)
  unfolding namex_loop
  namex_loop-IsBalanced i zero to_parent ip name path h = absurd (omega arith)
  namex_loop-IsBalanced i (suc fuel) to_parent ip name path h = elim (skipelem_cases path) [
    | inl (e, s) ↦ rw (namex_loop, e) (ground arith)
    | inr (e, rest, k, s, d, l) ↦
        rw (namex_loop, k)
          (after_turn-IsBalanced i ip to_parent (take dirsiz e) rest
            (λ n. namex_loop is_dir lookup fuel to_parent n (take dirsiz e) rest)
            (λ n. namex_loop-IsBalanced i fuel to_parent n (take dirsiz e) rest (omega (arith, l))))
  ]

  -- `namex` neither loses nor leaks a reference to an inode: of every inode it drops as many as it
  -- takes, but for one on the inode that it returns.
  pub namex-balanced :
      (i cwd : ℕ) (to_parent : Bool) (path : List ℕ)
      → let found = namex is_dir lookup cwd to_parent path in
        taken i (found.2) ≡ dropped i (found.2) + held_by i (found.0)
  unfolding namex
  namex-balanced i cwd to_parent path = omega (
    arith,
    namex_loop-IsBalanced i (length path + 1) to_parent (start_of cwd path) [] path (omega arith),
  )
