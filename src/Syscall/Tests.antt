-- ===== src/Syscall/Tests.antt =====
-- Tests of the checks of arguments, and their theorems at a small memory.
use op_sys.Base.{◌==◌, if◌then◌else◌, ℕ, ◌+◌, ◌≤◌, ◌<◌, ◌≡◌, refl, ◌≢◌, ◌↔◌, none, some, arith}
use op_sys.Syscall.{int_at, strlen_below, fetchint, fetchstr, check_ptr, argint, argptr, argstr}
use op_sys.Syscall.Args.{arg_address, argptr_iff, argstr_iff}

-- A process of 64 bytes with its stack pointer at 40, "ab" at 8, and the arguments 8 and 60.
abbrev small_memory : ℕ → ℕ
small_memory a =
    if a == 8 then 97 else if a == 9 then 98 else if a == 44 then 8 else if a == 48 then 60 else 0

runs :
    (argint small_memory 64 40 0 ≡ some 8)
    × (argint small_memory 64 40 5 ≡ none)
    × (argptr small_memory 64 40 1 4 ≡ some 60)
    × (argptr small_memory 64 40 1 5 ≡ none)
    × (argptr small_memory 64 40 1 4294967295 ≡ none)
    × (argstr small_memory 64 40 0 ≡ some (8, 2))
    × (argint small_memory 64 4294967292 0 ≡ some 0)
unfolding argint argptr argstr check_ptr fetchint fetchstr strlen_below
runs = (refl, refl, refl, refl, refl, refl, refl)

argptr_iff_example : (argptr small_memory 64 40 1 4 ≡ some 60) ↔ (
    (arg_address 40 1 + 4 ≤ 64)
    × (int_at small_memory (arg_address 40 1) ≡ 60)
    × (4 < 2147483648)
    × (60 < 64)
    × (60 + 4 ≤ 64))
argptr_iff_example = argptr_iff small_memory 64 40 1 4 60 (omega arith)

argstr_iff_example : (argstr small_memory 64 40 0 ≡ some (8, 2)) ↔ (
    (arg_address 40 0 + 4 ≤ 64)
    × (int_at small_memory (arg_address 40 0) ≡ 8)
    × (8 + 2 < 64)
    × (small_memory (8 + 2) ≡ 0)
    × ((k : ℕ) → k < 2 → small_memory (8 + k) ≢ 0))
argstr_iff_example = argstr_iff small_memory 64 40 0 8 2 (omega arith)
