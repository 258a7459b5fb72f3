-- ===== src/Bytes/Tests.antt =====
-- Tests of the byte routines, and the theorems at concrete memories.
use op_sys.Base.{
  ◌==◌, if◌then◌else◌, pos, negsuc, ℕ, zero, suc, ◌+◌, ◌≤◌, ◌<◌, ◌≡◌, refl, ◌||◌, some, arith,
}
use op_sys.Bytes.{
  Memory, stosb, memset, memcmp, memmove, memcpy, strncmp, strncpy, safestrcpy, strlen,
}
use op_sys.Bytes.Move.{memmove_lem}
use op_sys.Bytes.Compare.{memcmp-first, strncmp-same}

-- "ab", NUL at 10, the same at 20, and "ac" at 30.
abbrev text : Memory
text a =
    if (a == 10) || (a == 20) || (a == 30)
    then 97
    else if (a == 11) || (a == 21)
    then 98
    else if a == 31
    then 99
    else 0

runs :
    (memcmp 10 30 2 text ≡ negsuc 0)
    × (strncmp 30 10 2 text ≡ pos 1)
    × (strlen 5 10 text ≡ some 2)
    × (memmove 11 10 2 text 12 ≡ 98)
    × (memset 8 257 4 text 11 ≡ 1)
    × (safestrcpy 40 10 2 text 41 ≡ 0)
    × (strncpy 40 10 4 text 41 ≡ 98)
    × (memcpy 40 10 2 text 41 ≡ 98)
unfolding memcmp strncmp strlen memmove memset safestrcpy strncpy memcpy stosb
runs = (refl, refl, refl, refl, refl, refl, refl, refl)

memmove_lem_example : memmove 11 10 2 text 12 ≡ 98
memmove_lem_example = memmove_lem 11 10 2 text 12

memcmp-first_example : memcmp 10 30 3 text ≡ negsuc 0
memcmp-first_example = memcmp-first 1 3 10 30 text (omega arith) same (omega arith)
  where
    same : (i : ℕ) → i < 1 → text (10 + i) ≡ text (30 + i)
    same zero h = refl
    same (suc i) h = absurd (omega arith)

strncmp-same_example : strncmp 10 20 9 text ≡ pos 0
strncmp-same_example = strncmp-same 2 9 10 20 text same refl
  where
    same : (i : ℕ) → i ≤ 2 → text (10 + i) ≡ text (20 + i)
    same zero h = refl
    same (suc zero) h = refl
    same (suc (suc zero)) h = refl
    same (suc (suc (suc i))) h = absurd (omega arith)
