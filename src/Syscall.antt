-- ===== src/Syscall.antt =====
-- syscall.c: the arguments of system calls, which the kernel takes from the memory of a process.
-- The memory is the byte at each address, `sz` the size of the process's memory and `esp` the stack
-- pointer in the trap frame. An `int` is its 32 bits; sums of addresses wrap.
pub mod Args
mod Tests
use op_sys.Base.{
  ltb, leb, ◌==◌, if◌then◌else◌, word, ℕ, zero, suc, ◌+◌, ◌-◌, ◌*◌, ◌%◌, Bool, ◌&&◌, ◌||◌, Option,
  none, some,
}

-- `*(int*)(addr)`
abbrev pub int_at : (ℕ → ℕ) → ℕ → ℕ
int_at mem addr =
    mem addr + 256 * mem (addr + 1) + 65536 * mem (addr + 2) + 16777216 * mem (addr + 3)

abbrev pub is_negative_int : ℕ → Bool
is_negative_int n = leb 2147483648 n

abbrev pub minus_one : ℕ
minus_one = 4294967295

-- The loop of `fetchstr`, with the number of bytes in front of `ep` as fuel.
unfoldable pub strlen_below : (ℕ → ℕ) → ℕ → ℕ → Option ℕ
strlen_below mem zero s = none
strlen_below mem (suc n) s =
    let rest = strlen_below mem n (s + 1) in
    if mem s == 0 then some 0 else elim rest [ none ↦ none | some len ↦ some (suc len) ]

-- `none` is -1, here and below.
unfoldable pub fetchint : (ℕ → ℕ) → ℕ → ℕ → Option ℕ
fetchint mem sz addr =
    if leb sz addr || ltb sz ((addr + 4) % word) then none else some (int_at mem addr)

-- The string starts at `addr`; the result is its length.
unfoldable pub fetchstr : (ℕ → ℕ) → ℕ → ℕ → Option ℕ
fetchstr mem sz addr = if leb sz addr then none else strlen_below mem (sz - addr) addr

-- The tests of `argptr` on the pointer.
unfoldable pub check_ptr : ℕ → ℕ → ℕ → Option ℕ
check_ptr sz size i =
    if is_negative_int size || (leb sz i || ltb sz ((i + size) % word)) then none else some i

module _ (mem : ℕ → ℕ) (sz esp : ℕ) where
  unfoldable pub argint : ℕ → Option ℕ
  argint n = fetchint mem sz ((esp + 4 + 4 * n) % word)

  unfoldable pub argptr : ℕ → ℕ → Option ℕ
  argptr n size = elim (argint n) [ none ↦ none | some i ↦ check_ptr sz size i ]

  -- The address and the length of the string.
  unfoldable pub argstr : ℕ → Option (ℕ × ℕ)
  argstr n = elim (argint n) [
    | none ↦ none
    | some addr ↦ elim (fetchstr mem sz addr) [ none ↦ none | some len ↦ some (addr, len) ]
  ]

-- `NELEM(syscalls)`
abbrev pub nelem : ℕ
nelem = 30

-- The state and the new `eax`, where `calls` is the table of the calls; each number from 1 on has one.
unfoldable pub syscall : {S : Type 0} → (ℕ → S → S × ℕ) → ℕ → S → S × ℕ
syscall calls num s =
    let result = calls num s in if ltb 0 num && ltb num nelem then result else (s, minus_one)
