-- ===== src/Log/Recovery.antt =====
-- log.c: what recovery makes of the disk after a crash in the middle of a commit.
use op_sys.Base.{
  if◌then◌else◌, ==_self, Bool-cases, length, take, All, take-append_cases, take_last, length-take,
  All-take, get_or-take, ℕ, zero, suc, ◌+◌, ◌≤◌, ◌≡◌, refl, sym, ap, ◌∙◌, ◌≢◌, ◌⊎◌, inl, inr, true,
  false, List, [], ◌∷◌, arith,
}
use op_sys.Log.{
  Block, Disks, head, encode, read_entries, read_head, run, write_log, install_trans, crash,
  recovery, recover_from_log,
}
use op_sys.Log.Writes.{
  has, run-append, read_head-encode, IsHome, IsFilled, install_lem, write_log_lem,
  take-install_trans,
}

abbrev pub after_crash : ℕ → Disks → Disks
after_crash start t = recover_from_log start (crash t)

-- The home blocks of `t` are those of `s`.
abbrev pub IsOld : ℕ → ℕ → Disks → Disks → Type 0
IsOld start room s t = (b : ℕ) → IsHome start room b → t.disk b ≡ s.disk b

-- They are those of `s` with the contents `v` in each of the blocks `bs`.
abbrev pub IsNew : ℕ → ℕ → (ℕ → Block) → List ℕ → Disks → Disks → Type 0
IsNew start room v bs s t =
    (b : ℕ) → IsHome start room b → t.disk b ≡ (if has b bs then v b else s.disk b)

pub has_none : (b : ℕ) (bs : List ℕ) → length bs ≡ 0 → has b bs ≡ false
has_none b [] h = refl
has_none b (c ∷ cs) h = absurd (omega arith)

has-take : (k b : ℕ) (bs : List ℕ) → has b (take k bs) ≡ true → has b bs ≡ true
has-take zero b bs h = absurd (true-ne h)
  where
    true-ne : false ≢ true
    true-ne e = ground (arith, e)
has-take (suc k) b [] h = h
has-take (suc k) b (c ∷ cs) h = ground (arith, has-take k b cs)

module _ (start room : ℕ) (v : ℕ → Block) (bs : List ℕ) where
  head_home :
      (cs : List ℕ) (t : Disks) (b : ℕ)
      → IsHome start room b
      → (run start (head cs ∷ []) t).disk b ≡ t.disk b
  unfolding run
  head_home cs t b k = ground arith

  head_start :
      (cs : List ℕ) (t : Disks)
      → (run start (head cs ∷ []) t).disk start ≡ encode cs (t.cache start)
  unfolding run
  head_start cs t = rw (==_self start) refl

  head_count : (cs : List ℕ) (t : Disks) → (run start (head cs ∷ []) t).disk start 0 ≡ length cs
  unfolding encode
  head_count cs t = ap (λ u. u 0) (head_start cs t)

  -- Nothing to install.
  abbrev pub IsCleared : Disks → Type 0
  IsCleared t = t.disk start 0 ≡ 0

  -- The header names the blocks and the slots hold them; each of them may be installed or not.
  abbrev pub IsWritten : Disks → Disks → Type 0
  IsWritten s t =
      (read_head (t.disk start) ≡ bs)
      × IsFilled start room v 0 bs t.disk
      × ((b : ℕ)
          → IsHome start room b
          → (if has b bs then v b else t.disk b) ≡ (if has b bs then v b else s.disk b))

  pub recovery-cleared :
      (t : Disks) → IsCleared t → recovery start (read_head (t.disk start)) ≡ head [] ∷ []
  unfolding recovery read_head read_entries install_trans
  recovery-cleared t e = rw e refl

  pub after_crash-cleared : (t : Disks) → IsCleared t → IsOld start room t (after_crash start t)
  unfolding recover_from_log
  after_crash-cleared t e b k = rw (recovery-cleared t e) (head_home [] (crash t) b k)

  -- A recovery with nothing to install, cut short.
  pub cut-IsCleared :
      (t : Disks) (k : ℕ)
      → IsCleared t
      → let t' = run start (take k (recovery start (read_head (t.disk start)))) (crash t) in
        IsCleared t' × IsOld start room t t'
  unfolding run
  cut-IsCleared t zero e = (e, λ b i. refl)
  cut-IsCleared t (suc k) e =
      rw (recovery-cleared t e, take_last k (head []))
        (head_count [] (crash t), λ b i. head_home [] (crash t) b i)

  -- A prefix of the installation leaves the header and the slots.
  pub install-IsWritten :
      (s t : Disks) (j : ℕ)
      → All (IsHome start room) bs
      → length bs ≤ room
      → IsWritten s t
      → IsFilled start room v 0 bs t.cache
      → IsWritten s (run start (install_trans start 0 (take j bs)) t)
  install-IsWritten s t j h l w c =
      let ran =
        install_lem start room v (take j bs) 0 t (All-take (IsHome start room) j bs h)
          (omega (arith, length-take j bs))
          (λ i lt. c i (omega (arith, length-take j bs)) ∙ ap v (sym (get_or-take j bs i 0 lt))) in
      (
        ap read_head (ran.1 start (omega arith) (omega arith)) ∙ w.0,
        λ i lt. ran.1 (start + 0 + 1 + i) (omega arith) (omega arith) ∙ w.1 i lt,
        λ b k. elim (Bool-cases (has b bs)) [
          | inl e ↦ rw e refl
          | inr e ↦ ground (arith, ran.0 b k, has-take j b bs, w.2 b k, e)
        ],
      )

  -- The whole of recovery.
  pub recovery-written :
      (s t : Disks)
      → All (IsHome start room) bs
      → length bs ≤ room
      → IsWritten s t
      → IsFilled start room v 0 bs t.cache
      → let t' = run start (recovery start bs) t in IsCleared t' × IsNew start room v bs s t'
  unfolding recovery
  recovery-written s t h l w c =
      let installed : Disks = run start (install_trans start 0 bs) t in
      let ran = install_lem start room v bs 0 t h (omega arith) c in
      rw (run-append start (install_trans start 0 bs) (head [] ∷ []) t)
        (head_count [] installed, λ b k. head_home [] installed b k ∙ ran.0 b k ∙ w.2 b k)

  -- A commit has just written the header.
  pub header-IsWritten :
      (s : Disks)
      → All (IsHome start room) bs
      → length bs ≤ room
      → ((b : ℕ) → s.cache b ≡ v b)
      → let t = run start (head bs ∷ []) (run start (write_log start 0 bs) s) in
        IsWritten s t × IsFilled start room v 0 bs t.cache
  unfolding run
  header-IsWritten s h l e =
      let t : Disks = run start (write_log start 0 bs) s in
      let ran = write_log_lem start room v bs 0 s h (omega arith) (λ b k. e b) in
      (
        (
          ap read_head (head_start bs t) ∙ read_head-encode bs (t.cache start),
          λ i lt. ground (arith, ran.2 i lt),
          λ b k.
              ap (λ u. if has b bs then v b else u) (head_home bs t b k ∙ ran.0 b (ground arith)),
        ),
        λ i lt. ground (arith, ran.3 i lt),
      )

  pub after_crash-written :
      (s t : Disks)
      → All (IsHome start room) bs
      → length bs ≤ room
      → IsWritten s t
      → IsCleared (after_crash start t) × IsNew start room v bs s (after_crash start t)
  unfolding recover_from_log
  after_crash-written s t h l w = rw (w.0) (recovery-written s (crash t) h l w (w.1))

  -- Any number of the writes of recovery, which also end a commit.
  pub recovery-cut :
      (s t : Disks) (k : ℕ)
      → All (IsHome start room) bs
      → length bs ≤ room
      → IsWritten s t
      → IsFilled start room v 0 bs t.cache
      → let t' = run start (take k (recovery start bs)) t in
        IsWritten s t' ⊎ (IsCleared t' × IsNew start room v bs s t')
  unfolding recovery
  recovery-cut s t k h l w c =
      elim (take-append_cases k (install_trans start 0 bs) (head [] ∷ [])) [
        | inl (e, le) ↦
            inl (rw (e, take-install_trans start room k 0 bs) (install-IsWritten s t k h l w c))
        | inr (j, lt, e) ↦ inr (rw (e, take_last j (head [])) (recovery-written s t h l w c))
      ]
