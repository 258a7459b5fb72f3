-- ===== src/Dir/Unlink.antt =====
-- sysfile.c: what clearing an entry does to what is found under each name.
use op_sys.Base.{
  if◌then◌else◌, Bool-cases, index_of, length, set, ℕ, ◌<◌, ◌≡◌, sym, ◌∙◌, inl, inr, true, false,
  none, some, List, [], ◌∷◌, arith,
}
use op_sys.Dir.{Dirent, free_entry, namecmp, is_entry, dirlookup, unlink_entry}
use op_sys.Dir.Links.{
  namecmp_iff, inum_of, found, found_lem, IsUnique, is_entry-eq, is_entry-IsSameName,
}

other_entry :
    (name other : List ℕ) (x : Dirent)
    → is_entry name x ≡ true
    → namecmp other name ≡ false
    → is_entry other x ≡ false
other_entry name other x e m = elim (Bool-cases (is_entry other x)) [
  | inr f ↦ f
  | inl f ↦
      absurd (ground (arith, m, (namecmp_iff other name).1 (is_entry-IsSameName other name x f e)))
]

cleared_lem :
    (name other : List ℕ) (es : List Dirent)
    → IsUnique es
    → index_of (is_entry name) es < length es
    → found other (set es (index_of (is_entry name) es) free_entry)
      ≡ (if namecmp other name then none else found other es)
unfolding found index_of is_entry
cleared_lem name other [] u h = absurd (omega arith)
cleared_lem name other (x ∷ xs) u h = elim (Bool-cases (is_entry name x)) [
  | inl e ↦ elim (Bool-cases (namecmp other name)) [
    | inl m ↦ ground (
      arith,
      e,
      m,
      sym (found_lem other xs)
          ∙ u.0 other (is_entry-eq other name x ((namecmp_iff other name).0 m) ∙ e),
    )
    | inr m ↦ ground (arith, e, m, other_entry name other x e m)
  ]
  | inr e ↦ elim (Bool-cases (namecmp other name)) [
    | inl m ↦ ground (
      arith,
      e,
      m,
      is_entry-eq other name x ((namecmp_iff other name).0 m),
      cleared_lem name other xs (u.1) (ground (arith, e)),
    )
    | inr m ↦ ground (arith, e, m, cleared_lem name other xs (u.1) (ground (arith, e)))
  ]
]

dirlookup_cases :
    (name : List ℕ) (i n : ℕ) (es : List Dirent)
    → dirlookup name es ≡ some (i, n)
    → (index_of (is_entry name) es < length es) × (i ≡ index_of (is_entry name) es)
unfolding dirlookup
dirlookup_cases name i n es h = grind arith

-- When the entry under a name is cleared in a directory whose names are apart, nothing is found
-- under that name, and under every other name what was found before.
pub unlink_entry_lem :
    (name : List ℕ) (i n : ℕ) (es : List Dirent)
    → IsUnique es
    → dirlookup name es ≡ some (i, n)
    → (other : List ℕ)
    → inum_of other (unlink_entry i es) ≡ (if namecmp other name then none else inum_of other es)
unfolding unlink_entry
unlink_entry_lem name i n es u e other =
    let p = dirlookup_cases name i n es e in
    rw (found_lem other (set es i free_entry), found_lem other es, p.1)
      (cleared_lem name other es u (p.0))
