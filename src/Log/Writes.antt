-- ===== src/Log/Writes.antt =====
-- log.c: what the loops of `write_log` and `install_trans` do to the disk.
use op_sys.Base.{
  ◌==◌, if◌then◌else◌, ==_self, length, get_or, take, All, get_or-default, ℕ, zero, suc, ◌+◌, ◌≤◌,
  ◌<◌, ◌≡◌, refl, ap, ap₂, ◌∙◌, ◌⊎◌, inl, Bool, true, false, List, [], ◌∷◌, ◌++◌, arith, ℕ_discrete,
}
use op_sys.Log.{
  Block, Disks, Write, copy, encode, read_entries, read_head, exec, run, write_log, install_trans,
}

abbrev pub has : ℕ → List ℕ → Bool
has x [] = false
has x (b ∷ bs) = if x == b then true else has x bs

pub run-append :
    (start : ℕ) (xs ys : List Write) (s : Disks)
    → run start (xs ++ ys) s ≡ run start ys (run start xs s)
unfolding run
run-append start [] ys s = refl
run-append start (x ∷ xs) ys s = run-append start xs ys (exec start x s)

read_entries-eq :
    (cs : List ℕ) (k : ℕ) (v : Block)
    → ((i : ℕ) → i < length cs → v (suc (k + i)) ≡ get_or cs i 0)
    → read_entries (length cs) k v ≡ cs
unfolding read_entries
read_entries-eq [] k v h = refl
read_entries-eq (c ∷ cs) k v h =
    ap₂ (λ x xs. x ∷ xs) (ap (λ j. v (suc j)) (omega arith) ∙ h 0 (omega arith))
      (read_entries-eq cs (suc k) v
        (λ i lt. ap (λ j. v (suc j)) (omega arith) ∙ h (suc i) (omega arith)))

pub read_head-encode : (bs : List ℕ) (old : Block) → read_head (encode bs old) ≡ bs
unfolding read_head encode
read_head-encode bs old = read_entries-eq bs 0 (encode bs old) (λ i h.
    ap (λ j. encode bs old (suc j)) {x = 0 + i} {y = i} (omega arith)
    ∙ get_or-default bs i (old (suc i)) 0 h)

-- The log area is the header at `start` and the `room` blocks after it.
module _ (start room : ℕ) where
  abbrev pub IsHome : ℕ → Type 0
  IsHome b = (b < start) ⊎ (start + room < b)

  -- The slots from `tail` on hold the contents `v` of the blocks `bs`.
  abbrev pub IsFilled : (ℕ → Block) → ℕ → List ℕ → (ℕ → Block) → Type 0
  IsFilled v tail bs f = (i : ℕ) → i < length bs → f (start + tail + 1 + i) ≡ v (get_or bs i 0)

  pub install_lem :
      (v : ℕ → Block) (bs : List ℕ) (tail : ℕ) (t : Disks)
      → All IsHome bs
      → tail + length bs ≤ room
      → IsFilled v tail bs t.cache
      → let t' = run start (install_trans start tail bs) t in
        ((b : ℕ) → IsHome b → t'.disk b ≡ (if has b bs then v b else t.disk b))
        × ((b : ℕ) → start ≤ b → b ≤ start + room → t'.disk b ≡ t.disk b)
  unfolding install_trans run
  install_lem v [] tail t h l f = (λ b k. refl, λ b k m. refl)
  install_lem v (c ∷ cs) tail t h l f =
      let t1 : Disks = exec start (copy (start + tail + 1) c) t in
      let home : IsHome c = h.0 in
      let first : t.cache (start + tail + 1) ≡ v c = ap t.cache (omega arith) ∙ f 0 (omega arith) in
      let rest = install_lem v cs (tail + 1) t1 h.1 (omega arith) (later t1 refl) in
      (
        λ b k. rest.0 b k ∙ elim (ℕ_discrete b c) [
          | yes e ↦ rw e (ground (arith, first, ==_self c))
          | no e ↦ ground arith
        ],
        λ b k m. rest.1 b k m ∙ ground arith,
      )
    where
      later :
          (t1 : Disks)
          → t1 ≡ exec start (copy (start + tail + 1) c) t
          → IsFilled v (tail + 1) cs t1.cache
      later t1 e i lt = rw e (
          ground (
            arith,
            ap t.cache {x = start + (tail + 1) + 1 + i} {y = start + tail + 1 + suc i} (omega arith)
                ∙ f (suc i) (omega arith),
          ))

  -- The writes of `write_log` fill the slots from the buffers, and touch no other block.
  pub write_log_lem :
      (v : ℕ → Block) (bs : List ℕ) (tail : ℕ) (t : Disks)
      → All IsHome bs
      → tail + length bs ≤ room
      → ((b : ℕ) → IsHome b → t.cache b ≡ v b)
      → let t' = run start (write_log start tail bs) t in
        ((b : ℕ) → (b < start + tail + 1) ⊎ (start + room < b) → t'.disk b ≡ t.disk b)
        × ((b : ℕ) → (b < start + tail + 1) ⊎ (start + room < b) → t'.cache b ≡ t.cache b)
        × IsFilled v tail bs t'.disk
        × IsFilled v tail bs t'.cache
  unfolding write_log run
  write_log_lem v [] tail t h l c =
      (λ b k. refl, λ b k. refl, λ i k. absurd (omega arith), λ i k. absurd (omega arith))
  write_log_lem v (c ∷ cs) tail t h l w =
      let t1 : Disks = exec start (copy c (start + tail + 1)) t in
      let rest =
        write_log_lem v cs (tail + 1) t1 h.1 (omega arith) (λ b k. ground (arith, w b k)) in
      let t' : Disks = run start (write_log start (tail + 1) cs) t1 in
      (
        λ b k. rest.0 b (ground arith) ∙ ground arith,
        λ b k. rest.1 b (ground arith) ∙ ground arith,
        filled t'.disk rest.2
            (rest.0 (start + tail + 1) (inl (omega arith)) ∙ ground (arith, w c h.0)),
        filled t'.cache rest.3
            (rest.1 (start + tail + 1) (inl (omega arith)) ∙ ground (arith, w c h.0)),
      )
    where
      filled :
          (f : ℕ → Block)
          → IsFilled v (tail + 1) cs f
          → f (start + tail + 1) ≡ v c
          → IsFilled v tail (c ∷ cs) f
      filled f fs e zero lt = ap f {x = start + tail + 1 + 0} (omega arith) ∙ e
      filled f fs e (suc i) lt =
          ap f {x = start + tail + 1 + suc i} {y = start + (tail + 1) + 1 + i} (omega arith)
          ∙ fs i (omega arith)

  pub length-write_log : (tail : ℕ) (bs : List ℕ) → length (write_log start tail bs) ≡ length bs
  unfolding write_log
  length-write_log tail [] = refl
  length-write_log tail (b ∷ bs) = ap suc (length-write_log (tail + 1) bs)

  pub take-write_log :
      (k tail : ℕ) (bs : List ℕ)
      → take k (write_log start tail bs) ≡ write_log start tail (take k bs)
  unfolding write_log
  take-write_log zero tail bs = refl
  take-write_log (suc k) tail [] = refl
  take-write_log (suc k) tail (b ∷ bs) =
      ap (λ ws. copy b (start + tail + 1) ∷ ws) (take-write_log k (tail + 1) bs)

  pub take-install_trans :
      (k tail : ℕ) (bs : List ℕ)
      → take k (install_trans start tail bs) ≡ install_trans start tail (take k bs)
  unfolding install_trans
  take-install_trans zero tail bs = refl
  take-install_trans (suc k) tail [] = refl
  take-install_trans (suc k) tail (b ∷ bs) =
      ap (λ ws. copy (start + tail + 1) b ∷ ws) (take-install_trans k (tail + 1) bs)
