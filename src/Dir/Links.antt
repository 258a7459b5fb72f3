-- ===== src/Dir/Links.antt =====
-- fs.c: which name `dirlookup` finds after `dirlink` and after an entry is cleared.
use op_sys.Base.{
  ◌==◌, if◌then◌else◌, Bool-cases, Option-cases, index_of, take, ℕ, zero, suc, ◌≡◌, refl, sym, ap,
  ap₂, subst, ◌∙◌, ◌≢◌, ◌↔◌, ◌⊎◌, inl, inr, true, false, Option, none, some, List, [], ◌∷◌, arith,
}
use op_sys.Dir.{
  dirsiz, Dirent, name_eq, namecmp, is_entry, dirlookup, write_entry, free_place, ushort, new_entry,
  dirlink,
}

pub name_eq_self : (s : List ℕ) → name_eq s s ≡ true
unfolding name_eq
name_eq_self [] = refl
name_eq_self (c ∷ s) = ground (arith, name_eq_self s)

pub eq_of_name_eq : (s t : List ℕ) → name_eq s t ≡ true → s ≡ t
unfolding name_eq
eq_of_name_eq [] [] h = refl
eq_of_name_eq [] (d ∷ t) h = cc
eq_of_name_eq (c ∷ s) [] h = cc
eq_of_name_eq (c ∷ s) (d ∷ t) h =
    ap₂ (λ x xs. x ∷ xs) (ground arith) (eq_of_name_eq s t (ground arith))

take-take : (n : ℕ) (s : List ℕ) → take n (take n s) ≡ take n s
take-take zero s = refl
take-take (suc n) [] = refl
take-take (suc n) (c ∷ s) = ap (λ r. c ∷ r) (take-take n s)

-- Two names that the directory takes for one.
abbrev pub IsSameName : List ℕ → List ℕ → Type 0
IsSameName s t = take dirsiz s ≡ take dirsiz t

pub namecmp_iff : (s t : List ℕ) → (namecmp s t ≡ true) ↔ IsSameName s t
unfolding namecmp
namecmp_iff s t = (
  λ h. eq_of_name_eq (take dirsiz s) (take dirsiz t) h,
  λ h. subst (λ r. name_eq (take dirsiz s) r ≡ true) h (name_eq_self (take dirsiz s)),
)

-- What the directory has under a name.
abbrev pub inum_of : List ℕ → List Dirent → Option ℕ
inum_of name es = elim (dirlookup name es) [ none ↦ none | some (i, n) ↦ some n ]

-- The same, by recursion.
unfoldable pub found : List ℕ → List Dirent → Option ℕ
found name [] = none
found name (de ∷ es) = let rest = found name es in if is_entry name de then some de.inum else rest

pub found_lem : (name : List ℕ) (es : List Dirent) → inum_of name es ≡ found name es
unfolding dirlookup index_of found
found_lem name [] = refl
found_lem name (de ∷ es) = elim (Bool-cases (is_entry name de)) [
  | inl e ↦ ground (arith, e)
  | inr e ↦ ground (arith, e, found_lem name es)
]

-- No two entries in use have the same name.
abbrev pub IsUnique : List Dirent → Type 0
IsUnique [] = Unit
IsUnique (de ∷ es) =
    ((name : List ℕ) → is_entry name de ≡ true → inum_of name es ≡ none) × IsUnique es

-- `dirlink`'s write, by recursion: into the first free entry, or behind the last one.
placed : Dirent → List Dirent → List Dirent
placed de [] = de ∷ []
placed de (x ∷ xs) = let rest = placed de xs in if x.inum == 0 then de ∷ xs else x ∷ rest

placed_lem : (de : Dirent) (es : List Dirent) → write_entry es (free_place es) de ≡ placed de es
unfolding write_entry index_of placed
placed_lem de [] = refl
placed_lem de (x ∷ xs) = elim (Bool-cases (x.inum == 0)) [
  | inl e ↦ ground (arith, e)
  | inr e ↦ ground (arith, e, placed_lem de xs)
]

found-placed :
    (name : List ℕ) (de : Dirent) (es : List Dirent)
    → is_entry name de ≡ false
    → found name (placed de es) ≡ found name es
unfolding found placed is_entry
found-placed name de [] h = ground (arith, h)
found-placed name de (x ∷ xs) h = ground (arith, h, found-placed name de xs h)

found-placed_new :
    (name : List ℕ) (de : Dirent) (es : List Dirent)
    → is_entry name de ≡ true
    → found name es ≡ none
    → found name (placed de es) ≡ some de.inum
unfolding found placed
found-placed_new name de [] h n = ground (arith, h)
found-placed_new name de (x ∷ xs) h n = ground (arith, h, n, found-placed_new name de xs h)

-- Names that are the same are found alike.
pub is_entry-eq : (s t : List ℕ) (de : Dirent) → IsSameName s t → is_entry s de ≡ is_entry t de
unfolding is_entry namecmp
is_entry-eq s t de h = rw h refl

found-eq : (s t : List ℕ) (es : List Dirent) → IsSameName s t → found s es ≡ found t es
unfolding found
found-eq s t [] h = refl
found-eq s t (x ∷ xs) h = ground (arith, is_entry-eq s t x h, found-eq s t xs h)

is_entry-new :
    (other name : List ℕ) (inum : ℕ)
    → ushort inum ≢ 0
    → is_entry other (new_entry name inum) ≡ namecmp other name
unfolding is_entry namecmp
is_entry-new other name inum h = ground (arith, take-take dirsiz name)

found-none : (name : List ℕ) (es : List Dirent) → dirlookup name es ≡ none → found name es ≡ none
found-none name es e = sym (found_lem name es) ∙ ground (arith, e)

dirlink_new :
    (name : List ℕ) (inum : ℕ) (es : List Dirent)
    → dirlookup name es ≡ none
    → dirlink name inum es ≡ some (placed (new_entry name inum) es)
unfolding dirlink
dirlink_new name inum es e = rw (dirlink, e, placed_lem (new_entry name inum) es) refl

dirlink_old :
    (name : List ℕ) (inum : ℕ) (es : List Dirent) (p : ℕ × ℕ)
    → dirlookup name es ≡ some p
    → dirlink name inum es ≡ none
unfolding dirlink
dirlink_old name inum es p e = rw (dirlink, e) refl

inum_of-placed :
    (name other : List ℕ) (inum : ℕ) (es : List Dirent)
    → ushort inum ≢ 0
    → found name es ≡ none
    → inum_of other (placed (new_entry name inum) es)
      ≡ (if namecmp other name then some (ushort inum) else inum_of other es)
inum_of-placed name other inum es h n =
    found_lem other (placed (new_entry name inum) es) ∙ elim (Bool-cases (namecmp other name)) [
      | inl e ↦ rw e (
          found-placed_new other (new_entry name inum) es (is_entry-new other name inum h ∙ e)
            (found-eq other name es ((namecmp_iff other name).0 e) ∙ n))
      | inr e ↦ rw e (
          found-placed other (new_entry name inum) es (is_entry-new other name inum h ∙ e)
          ∙ sym (found_lem other es))
    ]

-- When `dirlink` succeeds, the directory has the new inode under the new name, and under every
-- other name what it had before; and when it fails, the name was in use. Names are compared by
-- their first `DIRSIZ` bytes. The entry has the low 16 bits of the inode's number, which are not 0.
pub dirlink_lem :
    (name : List ℕ) (inum : ℕ) (es : List Dirent)
    → ushort inum ≢ 0
    → ((dirlink name inum es ≡ none) × (inum_of name es ≢ none))
      ⊎ ((es' : List Dirent) × (dirlink name inum es ≡ some es')
          × ((other : List ℕ)
              → inum_of other es'
                ≡ (if namecmp other name then some (ushort inum) else inum_of other es)))
dirlink_lem name inum es h = elim (Option-cases (dirlookup name es)) [
  | inr (p, e) ↦ inl (dirlink_old name inum es p e, λ n. ground (arith, e, n))
  | inl e ↦ inr (
    placed (new_entry name inum) es,
    dirlink_new name inum es e,
    λ other. inum_of-placed name other inum es h (found-none name es e),
  )
]

-- Two names under which one entry stands are the same.
pub is_entry-IsSameName :
    (s t : List ℕ) (de : Dirent) → is_entry s de ≡ true → is_entry t de ≡ true → IsSameName s t
unfolding is_entry
is_entry-IsSameName s t de h k =
    (namecmp_iff s de.name).0 (ground arith) ∙ sym ((namecmp_iff t de.name).0 (ground arith))

found_rest :
    (name : List ℕ) (x : Dirent) (xs : List Dirent)
    → found name (x ∷ xs) ≡ none
    → (is_entry name x ≡ false) × (found name xs ≡ none)
unfolding found
found_rest name x xs h = (ground (arith, h), ground (arith, h))

-- `dirlink` keeps the names of a directory apart.
placed-IsUnique :
    (name : List ℕ) (inum : ℕ) (es : List Dirent)
    → ushort inum ≢ 0
    → found name es ≡ none
    → IsUnique es
    → IsUnique (placed (new_entry name inum) es)
unfolding placed found
placed-IsUnique name inum [] h n u = (λ other e. found_lem other [], tt)
placed-IsUnique name inum (x ∷ xs) h n u = elim (Bool-cases (x.inum == 0)) [
  | inl e ↦ rw e (
    λ other k.
        found_lem other xs
        ∙ found-eq other name xs
            ((namecmp_iff other name).0 (sym (is_entry-new other name inum h) ∙ k))
        ∙ (found_rest name x xs n).1,
    u.1,
  )
  | inr e ↦ rw e (
    λ other k.
        inum_of-placed name other inum xs h ((found_rest name x xs n).1)
        ∙ differs other k (Bool-cases (namecmp other name)),
    placed-IsUnique name inum xs h ((found_rest name x xs n).1) (u.1),
  )
]
  where
    differs :
        (other : List ℕ)
        → is_entry other x ≡ true
        → (namecmp other name ≡ true) ⊎ (namecmp other name ≡ false)
        → (if namecmp other name then some (ushort inum) else inum_of other xs) ≡ none
    differs other k (inl m) = absurd (
        ground (
          arith,
          k,
          (found_rest name x xs n).0,
          is_entry-eq other name x ((namecmp_iff other name).0 m),
        ))
    differs other k (inr m) = rw m (u.0 other k)

-- `dirlink` keeps the names of a directory apart, if the low 16 bits of the inode's number are not 0.
pub dirlink-IsUnique :
    (name : List ℕ) (inum : ℕ) (es es' : List Dirent)
    → ushort inum ≢ 0
    → IsUnique es
    → dirlink name inum es ≡ some es'
    → IsUnique es'
dirlink-IsUnique name inum es es' h u e = elim (Option-cases (dirlookup name es)) [
  | inr (p, f) ↦ absurd (ground (arith, e, dirlink_old name inum es p f))
  | inl f ↦
      rw (some_injective (sym e ∙ dirlink_new name inum es f))
        (placed-IsUnique name inum es h (found-none name es f) u)
]
  where
    some_injective : {a b : List Dirent} → some a ≡ some b → a ≡ b
    some_injective k = cc
