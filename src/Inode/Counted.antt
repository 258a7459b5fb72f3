-- ===== src/Inode/Counted.antt =====
-- fs.c: `iget` and `iput` count the references to each inode.
use op_sys.Block.{Blocks, itrunc}
use op_sys.Base.{
  ◌==◌, Bool-cases, Option-cases, index_of_holds, length, set, get_or-set_self, ℕ, zero, suc, ◌+◌,
  ◌-◌, ◌<◌, ◌≡◌, refl, sym, ap, ap₂, subst, ◌∙◌, ◌⊎◌, inl, inr, true, false, ◌&&◌, some, List, [],
  ◌∷◌, arith, dec_lt,
}
use op_sys.Inode.{
  Inode, no_inode, inode_at, is_inode, is_cached, cached_place, empty_place, idup, recycle, iget,
  Disk, iupdate, freed, is_last, drop_ref, iput,
}
use op_sys.Inode.References.{
  is_one, refs, IsOnce, absent_slots, idup_lem, recycle_lem, idup-is_cached, recycle-is_cached,
  IsPut, drop_ref-IsPut,
}

-- What `iget` gives: an entry for the inode, with one more reference to this inode only.
abbrev pub IsGot : ℕ → ℕ → List Inode → List Inode × ℕ → Type 0
IsGot dev inum xs (ys, i) =
    IsOnce ys
    × ((d n : ℕ) → refs d n ys ≡ refs d n xs + is_one ((dev == d) && (inum == n)))
    × (is_cached dev inum (inode_at ys i) ≡ true)

-- When `iget` returns from a cache with at most one entry with references for each inode, there is still
-- at most one, the place that it gives is that of the inode, and there is one reference more to this inode and
-- as many as before to every other.
pub iget-IsGot :
    (dev inum : ℕ) (xs : List Inode) (r : List Inode × ℕ)
    → IsOnce xs
    → iget dev inum xs ≡ some r
    → IsGot dev inum xs r
unfolding iget
iget-IsGot dev inum xs r once h = elim (dec_lt (cached_place dev inum xs) (length xs)) [
  | yes l ↦
      let i = cached_place dev inum xs in
      let eq : (idup i xs, i) ≡ r = ground (arith, l, h) in
      let here = index_of_holds (is_cached dev inum) xs no_inode l in
      let d = idup_lem i xs l (some_refs dev inum (inode_at xs i) here) once in
      subst (IsGot dev inum xs) eq (
        d.0,
        λ a b.
            d.1 a b ∙ ap (λ k. refs a b xs + is_one k) (key_of dev inum a b (inode_at xs i) here),
        idup-is_cached dev inum i xs l here,
      )
  | no n ↦ elim (dec_lt (empty_place xs) (length xs)) [
    | no m ↦ absurd (ground (arith, n, m, h))
    | yes l ↦
        let i = empty_place xs in
        let eq : (recycle dev inum i xs, i) ≡ r = ground (arith, n, l, h) in
        let free : (inode_at xs i).ref ≡ 0 =
          no_ref (inode_at xs i) (index_of_holds (λ x. x.ref == 0) xs no_inode l) in
        let d =
          recycle_lem dev inum i xs l free (absent_slots dev inum xs (omega (arith, n))) once in
        subst (IsGot dev inum xs) eq (d.0, d.1, recycle-is_cached dev inum i xs l)
  ]
]
  where
    some_refs : (a b : ℕ) (x : Inode) → is_cached a b x ≡ true → 0 < x.ref
    some_refs a b x e = grind arith

    no_ref : (x : Inode) → (x.ref == 0) ≡ true → x.ref ≡ 0
    no_ref x e = grind arith

    key_of :
        (a b d n : ℕ) (x : Inode) → is_cached a b x ≡ true → is_inode d n x ≡ ((a == d) && (b == n))
    key_of a b d n x e =
        let dev_eq : x.dev ≡ a = grind arith in
        let inum_eq : x.inum ≡ b = grind arith in ap₂ (λ p q. (p == d) && (q == n)) dev_eq inum_eq

drop_ref_lem :
    (i : ℕ) (xs : List Inode)
    → set xs i (record (inode_at xs i) { ref = (inode_at xs i).ref - 1 }) ≡ drop_ref i xs
unfolding drop_ref
drop_ref_lem i xs = refl

set-set : (xs : List Inode) (i : ℕ) (x y : Inode) → set (set xs i x) i y ≡ set xs i y
set-set [] i x y = refl
set-set (z ∷ xs) zero x y = refl
set-set (z ∷ xs) (suc i) x y = ap (◌∷◌ z) (set-set xs i x y)

drop_freed :
    (i : ℕ) (addrs : List ℕ) (xs : List Inode)
    → i < length xs
    → drop_ref i (set xs i (freed addrs (inode_at xs i)))
      ≡ set xs i (record (freed addrs (inode_at xs i)) { ref = (inode_at xs i).ref - 1 })
unfolding drop_ref
drop_freed i addrs xs l = rw (get_or-set_self xs i (freed addrs (inode_at xs i)) no_inode l) (
    set-set xs i (freed addrs (inode_at xs i))
      (record (freed addrs (inode_at xs i)) { ref = (inode_at xs i).ref - 1 }))

-- The inodes on the disk: that of the entry is free if this was the last reference to a valid inode
-- without links, and all else is as it was.
abbrev pub IsWritten : ℕ → List Inode → Disk → Disk → Type 0
IsWritten i xs disk disk' =
    (d n : ℕ)
    → ((is_last (inode_at xs i) && is_inode d n (inode_at xs i) ≡ true) × ((disk' d n).itype ≡ 0))
      ⊎ ((is_last (inode_at xs i) && is_inode d n (inode_at xs i) ≡ false) × (disk' d n ≡ disk d n))

iupdate_here :
    (d n : ℕ) (x : Inode) (disk : Disk) → is_inode d n x ≡ true → iupdate x disk d n ≡ x.copy
unfolding iupdate
iupdate_here d n x disk e = rw e refl

iupdate_away :
    (d n : ℕ) (x : Inode) (disk : Disk) → is_inode d n x ≡ false → iupdate x disk d n ≡ disk d n
unfolding iupdate
iupdate_away d n x disk e = rw e refl

freed-IsWritten :
    (i : ℕ) (addrs : List ℕ) (disk : Disk) (xs : List Inode)
    → is_last (inode_at xs i) ≡ true
    → IsWritten i xs disk (iupdate (freed addrs (inode_at xs i)) disk)
freed-IsWritten i addrs disk xs e d n = elim (Bool-cases (is_inode d n (inode_at xs i))) [
  | inl k ↦
      inl
        (rw (e, k) refl, ap (λ c. c.itype) (iupdate_here d n (freed addrs (inode_at xs i)) disk k))
  | inr k ↦ inr (rw (e, k) refl, iupdate_away d n (freed addrs (inode_at xs i)) disk k)
]

-- When `iput` returns, on an entry with references in a cache with at most one such entry for each inode, there is
-- still at most one, and there is one reference less to the inode of the entry and as many as before
-- to every other. On the disk the inode is free if this was the last reference to a valid inode
-- without links, and otherwise no inode is changed.
pub iput-IsPut :
    (i : ℕ) (disk disk' : Disk) (fs fs' : Blocks) (xs ys : List Inode)
    → i < length xs
    → 0 < (inode_at xs i).ref
    → IsOnce xs
    → iput i disk fs xs ≡ some (disk', fs', ys)
    → IsPut i xs ys × IsWritten i xs disk disk'
unfolding iput
iput-IsPut i disk disk' fs fs' xs ys l p once h = elim (Bool-cases (is_last (inode_at xs i))) [
  | inr e ↦
      let eq : drop_ref i xs ≡ ys = ground (arith, e, h) in
      let same : disk ≡ disk' = ground (arith, e, h) in
      let y : Inode = record (inode_at xs i) { ref = (inode_at xs i).ref - 1 } in
      (
        subst (IsPut i xs) (drop_ref_lem i xs ∙ eq) (drop_ref-IsPut i xs y l p refl refl refl once),
        λ d n. inr (rw e refl, ap (λ k. k d n) (sym same)),
      )
  | inl e ↦ elim (Option-cases (itrunc ((inode_at xs i).copy).addrs fs)) [
    | inl f ↦ absurd (ground (arith, e, f, h))
    | inr ((addrs, fs1), f) ↦
        let x = freed addrs (inode_at xs i) in
        let y : Inode = record x { ref = (inode_at xs i).ref - 1 } in
        let eq : drop_ref i (set xs i x) ≡ ys = ground (arith, e, f, h) in
        let same : iupdate x disk ≡ disk' = ground (arith, e, f, h) in
        (
          subst (IsPut i xs) (sym (drop_freed i addrs xs l) ∙ eq)
              (drop_ref-IsPut i xs y l p refl refl refl once),
          subst (IsWritten i xs disk) same (freed-IsWritten i addrs disk xs e),
        )
  ]
]
