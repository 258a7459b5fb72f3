-- ===== src/Log/Atomic.antt =====
-- log.c: a crash at any write of a commit, and crashes during recovery.
use op_sys.Base.{
  ltb, Bool-cases, length, take, All, take-append_cases, take_none, length-take, All-take, ℕ, ◌≤◌,
  ◌<◌, ◌≡◌, refl, ap, ◌∙◌, ◌⊎◌, inl, inr, List, [], ◌∷◌, arith, dec_lt,
}
use op_sys.Log.{Disks, Write, head, read_head, run, write_log, crash, recovery, commit}
use op_sys.Log.Writes.{run-append, IsHome, write_log_lem, length-write_log, take-write_log}
use op_sys.Log.Recovery.{
  after_crash, IsOld, IsNew, has_none, IsCleared, IsWritten, after_crash-cleared, cut-IsCleared,
  header-IsWritten, after_crash-written, recovery-cut,
}

-- Crashes, each after the given number of the writes of a recovery, and a recovery that ends.
unfoldable pub crashes : ℕ → List ℕ → Disks → Disks
crashes start [] t = after_crash start t
crashes start (k ∷ ks) t =
    crashes start ks (run start (take k (recovery start (read_head (t.disk start)))) (crash t))

module _ (start room : ℕ) (bs : List ℕ) (s : Disks) where
  -- The disk after the first `k` writes of the commit.
  abbrev pub cut : ℕ → Disks
  cut k = run start (take k (commit start bs)) s

  abbrev IsBegun : Disks → Type 0
  IsBegun t = IsCleared start room s.cache bs t × IsOld start room s t

  abbrev IsEnded : Disks → Type 0
  IsEnded t = IsCleared start room s.cache bs t × IsNew start room s.cache bs s t

  abbrev IsPassed : Disks → Type 0
  IsPassed t = IsWritten start room s.cache bs s t ⊎ IsEnded t

  module _ (h : All (IsHome start room) bs) (l : length bs ≤ room)
      (clear : s.disk start 0 ≡ 0) where
    -- The header is not yet written.
    logged-IsBegun : (k : ℕ) → IsBegun (run start (write_log start 0 (take k bs)) s)
    logged-IsBegun k =
        let ran =
          write_log_lem start room s.cache (take k bs) 0 s (All-take (IsHome start room) k bs h)
            (omega (arith, length-take k bs)) (λ b i. refl) in
        (ap (λ u. u 0) (ran.0 start (inl (omega arith))) ∙ clear, λ b i. ran.0 b (ground arith))

    cut_cases : (k : ℕ) → ((k ≤ length bs) × IsBegun (cut k)) ⊎ ((length bs < k) × IsPassed (cut k))
    unfolding commit run
    cut_cases k = elim (Bool-cases (ltb 0 (length bs))) [
      | inr e ↦
          let empty : length bs ≡ 0 = ground arith in
          rw (e, take_none {A = Write} k)
            (elim (dec_lt 0 k) [
              | yes p ↦ inr (omega arith, inr (clear, λ b i. rw (has_none b bs empty) refl))
              | no p ↦ inl (omega arith, (clear, λ b i. refl))
            ])
      | inl e ↦ elim (take-append_cases k (write_log start 0 bs) (head bs ∷ recovery start bs)) [
        | inl (f, le) ↦ inl (
          omega (arith, length-write_log start room 0 bs),
          rw (e, f, take-write_log start room k 0 bs) (logged-IsBegun k),
        )
        | inr (j, lt, f) ↦
            let w = header-IsWritten start room s.cache bs s h l (λ b. refl) in
            inr (
              omega (arith, length-write_log start room 0 bs),
              rw
                  (
                    e,
                    f,
                    run-append start (write_log start 0 bs) (head bs ∷ take j (recovery start bs))
                        s,
                  )
                  (recovery-cut start room s.cache bs s _ j h l w.0 w.1),
            )
      ]
    ]

    crashes-begun : (ks : List ℕ) (t : Disks) → IsBegun t → IsOld start room s (crashes start ks t)
    unfolding crashes
    crashes-begun [] t e = λ b i. after_crash-cleared start room s.cache bs t e.0 b i ∙ e.1 b i
    crashes-begun (k ∷ ks) t e =
        let c = cut-IsCleared start room s.cache bs t k e.0 in
        crashes-begun ks _ (c.0, λ b i. c.1 b i ∙ e.1 b i)

    crashes-passed :
        (ks : List ℕ) (t : Disks) → IsPassed t → IsNew start room s.cache bs s (crashes start ks t)
    unfolding crashes
    crashes-passed [] t (inl w) = (after_crash-written start room s.cache bs s t h l w).1
    crashes-passed [] t (inr e) =
        λ b i. after_crash-cleared start room s.cache bs t e.0 b i ∙ e.1 b i
    crashes-passed (k ∷ ks) t (inl w) =
        crashes-passed ks _
          (rw (w.0) (recovery-cut start room s.cache bs s (crash t) k h l w (w.1)))
    crashes-passed (k ∷ ks) t (inr e) =
        let c = cut-IsCleared start room s.cache bs t k e.0 in
        crashes-passed ks _ (inr (c.0, λ b i. c.1 b i ∙ e.1 b i))

    -- A commit is atomic. It is cut after any number `k` of its writes by a crash, and the recovery
    -- after it by any number of crashes, each after any number of writes. When a recovery has ended,
    -- every block outside the log area is as before the commit if `k` is at most the number of
    -- logged blocks; with more writes the header was written, and each logged block has the
    -- contents that it had in the cache, and each other block is as before. The conditions are that
    -- the log was empty, that the logged blocks are outside the log area and that they fit in it.
    pub commit_atomic :
        (k : ℕ) (ks : List ℕ)
        → ((k ≤ length bs) × IsOld start room s (crashes start ks (cut k)))
          ⊎ ((length bs < k) × IsNew start room s.cache bs s (crashes start ks (cut k)))
    commit_atomic k ks = elim (cut_cases k) [
      | inl (le, e) ↦ inl (le, crashes-begun ks (cut k) e)
      | inr (lt, e) ↦ inr (lt, crashes-passed ks (cut k) e)
    ]
