-- ===== src/File/Count.antt =====
-- file.c: a file's reference count is the number of handles on it.
use op_sys.Base.{
  ltb, ◌==◌, if◌then◌else◌, ==_self, total, index_of_holds, length, get_or, set, replicate,
  length-set, get_or-set_self, get_or-set_ne, get_or-replicate, count, remove, count-remove,
  count_held, ℕ, ◌+◌, ◌-◌, ◌<◌, ◌≡◌, refl, sym, ap, subst, ◌∙◌, ◌≢◌, none, some, List, [], ◌∷◌,
  arith, dec_lt, ℕ_discrete,
}
use op_sys.File.{
  nfile, fd_none, File, no_file, file_at, filealloc, filedup, Closing, closing, fileclose,
}

-- The handles that are held, by their file.
abbrev pub Handles : Type 0
Handles = List ℕ

pub data Uses : List File × Handles → Type 0 where
  fileinit : Uses (replicate nfile no_file, [])
  alloc :
      {fs fs' : List File} {hs : Handles} {i : ℕ}
      → Uses (fs, hs)
      → filealloc fs ≡ some (fs', i)
      → Uses (fs', i ∷ hs)
  dup :
      {fs fs' : List File} {hs : Handles} (k : ℕ)
      → Uses (fs, hs)
      → k < length hs
      → filedup (get_or hs k 0) fs ≡ some fs'
      → Uses (fs', get_or hs k 0 ∷ hs)
  close :
      {fs fs' : List File} {hs : Handles} {cs : List Closing} (k : ℕ)
      → Uses (fs, hs)
      → k < length hs
      → fileclose (get_or hs k 0) fs ≡ some (fs', cs)
      → Uses (fs', remove hs k)
  -- The other fields of an open file are set by its owner.
  change :
      {fs : List File} {hs : Handles} (i : ℕ) (f : File)
      → Uses (fs, hs)
      → i < length fs
      → f.ref ≡ (file_at fs i).ref
      → Uses (set fs i f, hs)

abbrev pub IsCounted : List File × Handles → Type 0
IsCounted (fs, hs) =
    ((i : ℕ) → (file_at fs i).ref ≡ count i hs) × ((i : ℕ) → 0 < count i hs → i < length fs)

filealloc_cases :
    (fs fs' : List File) (i : ℕ)
    → filealloc fs ≡ some (fs', i)
    → (i < length fs)
      × ((file_at fs i).ref ≡ 0)
      × (fs' ≡ set fs i (record (file_at fs i) { ref = 1 }))
unfolding filealloc
filealloc_cases fs fs' i h = grind (arith, index_of_holds (λ f. f.ref == 0) fs no_file)

filedup_cases :
    (fs fs' : List File) (i : ℕ)
    → filedup i fs ≡ some fs'
    → fs' ≡ set fs i (record (file_at fs i) { ref = (file_at fs i).ref + 1 })
unfolding filedup
filedup_cases fs fs' i h = grind arith

fileclose_cases :
    (fs fs' : List File) (i : ℕ) (cs : List Closing)
    → fileclose i fs ≡ some (fs', cs)
    → (f : File) × (f.ref ≡ (file_at fs i).ref - 1) × (fs' ≡ set fs i f)
unfolding fileclose
fileclose_cases fs fs' i cs h = elim (dec_lt 1 (file_at fs i).ref) [
  | yes p ↦ (record (file_at fs i) { ref = (file_at fs i).ref - 1 }, refl, grind arith)
  | no p ↦ (record (file_at fs i) { ref = 0; type = fd_none }, omega arith, grind arith)
]

-- A write to entry `i` leaves the table counted when the counts move with it.
set-IsCounted :
    (fs : List File) (hs gs : Handles) (i : ℕ) (f : File)
    → IsCounted (fs, hs)
    → i < length fs
    → f.ref ≡ count i gs
    → ((j : ℕ) → i ≢ j → count j gs ≡ count j hs)
    → IsCounted (set fs i f, gs)
set-IsCounted fs hs gs i f c h e others = (
  λ j. elim (ℕ_discrete i j) [
    | yes p ↦
        subst (λ j. (file_at (set fs i f) j).ref ≡ count j gs) p
          (ap (λ g. g.ref) (get_or-set_self fs i f no_file h) ∙ e)
    | no p ↦ ap (λ g. g.ref) (get_or-set_ne fs i j f no_file p) ∙ c.0 j ∙ sym (others j p)
  ],
  λ j p. elim (ℕ_discrete i j) [
    | yes q ↦ omega (arith, length-set fs i f)
    | no q ↦ omega (arith, length-set fs i f, others j q, c.1 j)
  ],
)

Uses-IsCounted : {s : List File × Handles} → Uses s → IsCounted s
unfolding total
Uses-IsCounted fileinit =
    (λ i. ap (λ f. f.ref) (get_or-replicate nfile i no_file), λ i h. absurd (omega arith))
Uses-IsCounted (alloc {fs} {fs'} {hs} {i} u e) =
    let c = Uses-IsCounted u in
    let a = filealloc_cases fs fs' i e in
    rw (a.2) (
      set-IsCounted fs hs (i ∷ hs) i _ c (a.0) (ground (arith, a.1, c.0 i, ==_self i))
        (λ j n. ground arith))
Uses-IsCounted (dup {fs} {fs'} {hs} k u l e) =
    let i = get_or hs k 0 in
    let c = Uses-IsCounted u in
    rw (filedup_cases fs fs' i e) (
      set-IsCounted fs hs (i ∷ hs) i _ c (c.1 i (count_held hs k l))
        (ground (arith, c.0 i, ==_self i)) (λ j n. ground arith))
Uses-IsCounted (close {fs} {fs'} {hs} {cs} k u l e) =
    let i = get_or hs k 0 in
    let c = Uses-IsCounted u in
    let (f, g, eq) = fileclose_cases fs fs' i cs e in
    rw eq (
      set-IsCounted fs hs (remove hs k) i f c (c.1 i (count_held hs k l))
        (ground (arith, g, c.0 i, count-remove hs k i l, ==_self i))
        (λ j n. ground (arith, count-remove hs k j l)))
Uses-IsCounted (change {fs} {hs} i f u l e) =
    let c = Uses-IsCounted u in set-IsCounted fs hs hs i f c l (e ∙ c.0 i) (λ j n. refl)

-- However files are allocated, duplicated and closed, the reference count of a file is the number of
-- handles on it. So a file that is handed out anew has no handle, a duplication and a close through
-- a handle do not panic, and a close makes the calls that end the use of the pipe or the inode just
-- when the handle is the last.
pub Uses-ref :
    {fs : List File} {hs : Handles}
    → Uses (fs, hs)
    → ((i : ℕ) → (file_at fs i).ref ≡ count i hs)
      × ((fs' : List File) (i : ℕ) → filealloc fs ≡ some (fs', i) → count i hs ≡ 0)
      × ((k : ℕ) → k < length hs → filedup (get_or hs k 0) fs ≢ none)
      × ((k : ℕ)
          → k < length hs
          → (fs' : List File) × (fileclose (get_or hs k 0) fs
              ≡ some (
                fs',
                (if ltb 1 (count (get_or hs k 0) hs)
                    then []
                    else closing (file_at fs (get_or hs k 0))),
              )))
unfolding filedup fileclose
Uses-ref {fs} {hs} u =
    let c = Uses-IsCounted u in
    (
      c.0,
      λ fs' i e. sym (c.0 i) ∙ (filealloc_cases fs fs' i e).1,
      λ k l. ground (arith, c.0 (get_or hs k 0), count_held hs k l),
      λ k l. elim (dec_lt 1 (count (get_or hs k 0) hs)) [
        | yes p ↦ (
          set fs (get_or hs k 0)
              (record (file_at fs (get_or hs k 0)) { ref = (file_at fs (get_or hs k 0)).ref - 1 }),
          ground (arith, c.0 (get_or hs k 0)),
        )
        | no p ↦ (
          set fs (get_or hs k 0) (record (file_at fs (get_or hs k 0)) { ref = 0; type = fd_none }),
          ground (arith, c.0 (get_or hs k 0), count_held hs k l),
        )
      ],
    )
