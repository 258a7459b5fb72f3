-- ===== src/Inode/References.antt =====
-- fs.c: an inode has one entry in the cache, and its references are counted there.
use op_sys.Base.{
  ltb, ◌==◌, if◌then◌else◌, Bool-cases, total, total-set, index_of, length, set, get_or-set_self, ℕ,
  ◌+◌, ◌-◌, ◌≤◌, ◌<◌, ◌≡◌, refl, sym, ap, ap₂, ◌∙◌, inl, inr, Bool, true, false, ◌&&◌, List, [],
  ◌∷◌, arith,
}
use op_sys.Inode.{Inode, no_inode, inode_at, is_inode, is_cached, idup, recycle}

abbrev pub is_one : Bool → ℕ
is_one true = 1
is_one false = 0

abbrev pub ref_weight : ℕ → ℕ → Inode → ℕ
ref_weight d n x = if is_inode d n x then x.ref else 0

-- The references to an inode.
abbrev pub refs : ℕ → ℕ → List Inode → ℕ
refs d n xs = total (ref_weight d n) xs

abbrev pub slot_weight : ℕ → ℕ → Inode → ℕ
slot_weight d n x = is_one (is_cached d n x)

-- Every inode has at most one entry with references.
abbrev pub IsOnce : List Inode → Type 0
IsOnce xs = (d n : ℕ) → total (slot_weight d n) xs ≤ 1

-- An entry that another takes the place of.
module _ (xs : List Inode) (i : ℕ) (y : Inode) (l : i < length xs) where
  pub set-refs :
      (d n : ℕ)
      → refs d n (set xs i y) + ref_weight d n (inode_at xs i) ≡ refs d n xs + ref_weight d n y
  set-refs d n = total-set (ref_weight d n) xs i y no_inode l

  pub set-slots :
      (d n : ℕ)
      → total (slot_weight d n) (set xs i y) + slot_weight d n (inode_at xs i)
        ≡ total (slot_weight d n) xs + slot_weight d n y
  set-slots d n = total-set (slot_weight d n) xs i y no_inode l

pub absent_slots :
    (d n : ℕ) (xs : List Inode)
    → length xs ≤ index_of (is_cached d n) xs
    → total (slot_weight d n) xs ≡ 0
unfolding index_of total
absent_slots d n [] h = refl
absent_slots d n (x ∷ xs) h = elim (Bool-cases (is_cached d n x)) [
  | inl e ↦ absurd (ground (arith, e, h))
  | inr e ↦
      let nothing : slot_weight d n x ≡ 0 = ap is_one e in
      omega (arith, nothing, absent_slots d n xs (ground (arith, e, h)))
]

one_more : (b : Bool) (r : ℕ) → (if b then r + 1 else 0) ≡ (if b then r else 0) + is_one b
one_more true r = refl
one_more false r = omega arith

pub one_less :
    (b : Bool) (r : ℕ) → 0 < r → (if b then r - 1 else 0) + is_one b ≡ (if b then r else 0)
one_less true r h = omega (arith, h)
one_less false r h = omega arith

-- One more reference to the inode in an entry that has some.
pub idup_lem :
    (i : ℕ) (xs : List Inode)
    → i < length xs
    → 0 < (inode_at xs i).ref
    → IsOnce xs
    → IsOnce (idup i xs)
      × ((d n : ℕ) → refs d n (idup i xs) ≡ refs d n xs + is_one (is_inode d n (inode_at xs i)))
unfolding idup
idup_lem i xs l p once =
    let x = inode_at xs i in
    let y : Inode = record x { ref = x.ref + 1 } in
    (
      λ d n.
          let same : slot_weight d n y ≡ slot_weight d n x = ground (arith, p) in
          omega (arith, set-slots xs i y l d n, same, once d n),
      λ d n.
          let more : ref_weight d n y ≡ ref_weight d n x + is_one (is_inode d n x) =
            one_more (is_inode d n x) x.ref in
          omega (arith, set-refs xs i y l d n, more),
    )

pub same_key : (a b d n : ℕ) → ((a == d) && (b == n)) ≡ true → (a ≡ d) × (b ≡ n)
same_key a b d n e = grind arith

pub at_most_one : (b : Bool) → is_one b ≤ 1
at_most_one true = omega arith
at_most_one false = omega arith

no_refs : (b : Bool) (r : ℕ) → r ≡ 0 → (if b then r else 0) ≡ 0
no_refs true r z = z
no_refs false r z = refl

one_ref : (b : Bool) → (if b then 1 else 0) ≡ is_one b
one_ref true = refl
one_ref false = refl

-- An entry without references is taken for an inode that has none.
pub recycle_lem :
    (dev inum i : ℕ) (xs : List Inode)
    → i < length xs
    → (inode_at xs i).ref ≡ 0
    → total (slot_weight dev inum) xs ≡ 0
    → IsOnce xs
    → IsOnce (recycle dev inum i xs)
      × ((d n : ℕ)
          → refs d n (recycle dev inum i xs) ≡ refs d n xs + is_one ((dev == d) && (inum == n)))
unfolding recycle
recycle_lem dev inum i xs l z absent once =
    let x = inode_at xs i in
    let y : Inode = record x { dev = dev; inum = inum; ref = 1; valid = false } in
    (
      λ d n. elim (Bool-cases ((dev == d) && (inum == n))) [
        | inl e ↦
            let k = same_key dev inum d n e in
            let nobody : total (slot_weight d n) xs ≡ 0 =
              ap₂ (λ a b. total (slot_weight a b) xs) (sym (k.0)) (sym (k.1)) ∙ absent in
            let new : slot_weight d n y ≤ 1 = at_most_one (is_cached d n y) in
            omega (arith, set-slots xs i y l d n, nobody, new)
        | inr e ↦
            let new : slot_weight d n y ≡ 0 = ap is_one e in
            omega (arith, set-slots xs i y l d n, new, once d n)
      ],
      λ d n.
          let old : ref_weight d n x ≡ 0 = no_refs (is_inode d n x) x.ref z in
          let new : ref_weight d n y ≡ is_one ((dev == d) && (inum == n)) =
            one_ref ((dev == d) && (inum == n)) in
          omega (arith, set-refs xs i y l d n, old, new),
    )

pub idup-is_cached :
    (a b i : ℕ) (xs : List Inode)
    → i < length xs
    → is_cached a b (inode_at xs i) ≡ true
    → is_cached a b (inode_at (idup i xs) i) ≡ true
unfolding idup
idup-is_cached a b i xs l e =
    let x = inode_at xs i in
    let y : Inode = record x { ref = x.ref + 1 } in
    ap (is_cached a b) (get_or-set_self xs i y no_inode l) ∙ ground (arith, e)

pub recycle-is_cached :
    (a b i : ℕ) (xs : List Inode)
    → i < length xs
    → is_cached a b (inode_at (recycle a b i xs) i) ≡ true
unfolding recycle
recycle-is_cached a b i xs l =
    let y : Inode = record (inode_at xs i) { dev = a; inum = b; ref = 1; valid = false } in
    ap (is_cached a b) (get_or-set_self xs i y no_inode l) ∙ ground arith

fewer_slots : (b : Bool) (r : ℕ) → 0 < r → is_one (ltb 0 (r - 1) && b) ≤ is_one (ltb 0 r && b)
fewer_slots b r p =
    let here : ltb 0 r ≡ true = ground (arith, p) in
    elim (Bool-cases (ltb 0 (r - 1))) [
      | inl e ↦ rw (here, e) (omega arith)
      | inr e ↦ rw (here, e) (omega arith)
    ]

-- What dropping a reference leaves: one less to the inode of the entry.
abbrev pub IsPut : ℕ → List Inode → List Inode → Type 0
IsPut i xs ys =
    IsOnce ys × ((d n : ℕ) → refs d n ys + is_one (is_inode d n (inode_at xs i)) ≡ refs d n xs)

pub drop_ref-IsPut :
    (i : ℕ) (xs : List Inode) (y : Inode)
    → i < length xs
    → 0 < (inode_at xs i).ref
    → y.dev ≡ (inode_at xs i).dev
    → y.inum ≡ (inode_at xs i).inum
    → y.ref ≡ (inode_at xs i).ref - 1
    → IsOnce xs
    → IsPut i xs (set xs i y)
drop_ref-IsPut i xs y l p e f g once = (
  λ d n.
      let now : slot_weight d n y
          ≡ is_one (ltb 0 ((inode_at xs i).ref - 1) && is_inode d n (inode_at xs i)) =
        ap₂ (λ r k. is_one (ltb 0 r && k)) g (same d n) in
      let fewer = fewer_slots (is_inode d n (inode_at xs i)) (inode_at xs i).ref p in
      omega (arith, set-slots xs i y l d n, now, fewer, once d n),
  λ d n.
      let now : ref_weight d n y
          ≡ (if is_inode d n (inode_at xs i) then (inode_at xs i).ref - 1 else 0) =
        ap₂ (λ r k. if k then r else 0) g (same d n) in
      let less = one_less (is_inode d n (inode_at xs i)) (inode_at xs i).ref p in
      omega (arith, set-refs xs i y l d n, now, less),
)
  where
    same : (d n : ℕ) → is_inode d n y ≡ is_inode d n (inode_at xs i)
    same d n = ap₂ (λ a b. (a == d) && (b == n)) e f
