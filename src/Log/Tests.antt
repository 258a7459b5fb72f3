-- ===== src/Log/Tests.antt =====
-- Tests of the log, and its theorems at concrete disks.
use op_sys.Base.{
  ◌==◌, if◌then◌else◌, replicate, ℕ, ◌+◌, ◌≤◌, ◌<◌, ◌≡◌, refl, ◌⊎◌, inr, true, false, ◌||◌, List,
  [], ◌∷◌, arith,
}
use op_sys.Log.{Disks, encode, commit, recover_from_log, commits, end_op, too_big, log_write}
use op_sys.Log.Recovery.{IsOld, IsNew}
use op_sys.Log.Atomic.{crashes, cut, commit_atomic}

-- The log stands at 2; blocks 10 and 11 are changed in the cache only.
abbrev changed : Disks
changed = record {
  disk = λ b i. if b == 2 then 0 else b;
  cache = λ b i. if b == 2 then 0 else if (b == 10) || (b == 11) then b + 100 else b;
}

abbrev both : List ℕ
both = 10 ∷ 11 ∷ []

-- A crash before and after the header is written, and a log with one block too few for its reserve.
runs :
    ((crashes 2 (1 ∷ []) (cut 2 2 both changed 2)).disk 10 0 ≡ 10)
    × ((crashes 2 (1 ∷ []) (cut 2 2 both changed 3)).disk 10 0 ≡ 110)
    × ((crashes 2 [] (cut 2 2 both changed 9)).disk 11 0 ≡ 111)
    × (log_write 7
          (record { size = 30; outstanding = 3; committing = false; blocks = replicate 29 1 })
        ≡ too_big)
    × (end_op (record { size = 30; outstanding = 1; committing = false; blocks = [] })
        ≡ commits (record { size = 30; outstanding = 0; committing = true; blocks = [] }))
unfolding crashes commit recover_from_log log_write end_op encode
runs = (refl, refl, refl, refl, refl)

commit_atomic_example :
    ((3 ≤ 2) × IsOld 2 2 changed (crashes 2 (1 ∷ []) (cut 2 2 both changed 3)))
    ⊎ ((2 < 3) × IsNew 2 2 changed.cache both changed (crashes 2 (1 ∷ []) (cut 2 2 both changed 3)))
commit_atomic_example =
    commit_atomic 2 2 both changed (inr (omega arith), (inr (omega arith), tt)) (omega arith) refl 3
      (1 ∷ [])
