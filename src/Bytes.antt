-- ===== src/Bytes.antt =====
-- string.c: the byte and string routines of the kernel. Memory is a function from addresses to bytes;
-- an address range does not wrap at the end of memory.
pub mod Move
pub mod Fill
pub mod Compare
pub mod Copy
mod Tests
use op_sys.Base.{
  ltb, leb, ◌==◌, if◌then◌else◌, ℤ, pos, negsuc, ℕ, zero, suc, ◌+◌, ◌-◌, ◌*◌, ◌/◌, ◌%◌, not, ◌&&◌,
  Option, none, some,
}

abbrev pub Memory : Type 0
Memory = ℕ → ℕ

-- `*a = v`
abbrev pub write : Memory → ℕ → ℕ → Memory
write m a v b = if a == b then v else m b

-- `(int)dst%4 == 0` for the addresses that the kernel passes, and `c & 0xFF`
abbrev pub low_byte : ℕ → ℕ
low_byte c = c % 256

-- The `rep stosb` of x86.h: `n` bytes.
unfoldable pub stosb : ℕ → ℕ → ℕ → Memory → Memory
stosb a c zero m = m
stosb a c (suc n) m = stosb (a + 1) c n (write m a (low_byte c))

-- One 32-bit word, the low byte first.
unfoldable pub write_word : Memory → ℕ → ℕ → Memory
write_word m a w =
    write (write (write (write m a (w % 256)) (a + 1) (w / 256 % 256)) (a + 2) (w / 65536 % 256))
      (a + 3) (w / 16777216 % 256)

-- The `rep stosl` of x86.h: `n` words.
unfoldable pub stosl : ℕ → ℕ → ℕ → Memory → Memory
unfolding write_word
stosl a w zero m = m
stosl a w (suc n) m = stosl (a + 4) w n (write_word m a w)

-- `(c<<24)|(c<<16)|(c<<8)|c` for a byte `c`, whose four copies do not overlap
abbrev pub four_copies : ℕ → ℕ
four_copies c = c * 16777216 + c * 65536 + c * 256 + c

unfoldable pub memset : ℕ → ℕ → ℕ → Memory → Memory
unfolding stosb stosl
memset dst c n m =
    if (dst % 4 == 0) && (n % 4 == 0)
    then stosl dst (four_copies (low_byte c)) (n / 4) m
    else stosb dst c n m

-- The difference of two bytes as an `int`.
abbrev pub minus : ℕ → ℕ → ℤ
minus a b = if leb b a then pos (a - b) else negsuc (b - a - 1)

unfoldable pub memcmp : ℕ → ℕ → ℕ → Memory → ℤ
memcmp s1 s2 zero m = pos 0
memcmp s1 s2 (suc n) m =
    let rest = memcmp (s1 + 1) (s2 + 1) n m in
    if not (m s1 == m s2) then minus (m s1) (m s2) else rest

-- The two loops of `memmove`. In the first, `d` and `s` point past the bytes still to be copied.
unfoldable pub copy_down : ℕ → ℕ → ℕ → Memory → Memory
copy_down d s zero m = m
copy_down d s (suc n) m = copy_down (d - 1) (s - 1) n (write m (d - 1) (m (s - 1)))

unfoldable pub copy_up : ℕ → ℕ → ℕ → Memory → Memory
copy_up d s zero m = m
copy_up d s (suc n) m = copy_up (d + 1) (s + 1) n (write m d (m s))

unfoldable pub memmove : ℕ → ℕ → ℕ → Memory → Memory
unfolding copy_down copy_up
memmove d s n m =
    if ltb s d && ltb d (s + n) then copy_down (d + n) (s + n) n m else copy_up d s n m

unfoldable pub memcpy : ℕ → ℕ → ℕ → Memory → Memory
unfolding memmove
memcpy d s n m = memmove d s n m

unfoldable pub strncmp : ℕ → ℕ → ℕ → Memory → ℤ
strncmp p q zero m = pos 0
strncmp p q (suc n) m =
    let rest = strncmp (p + 1) (q + 1) n m in
    if not (m p == 0) && (m p == m q) then rest else minus (m p) (m q)

-- The second loop of `strncpy`: zeros up to the end.
unfoldable pub zero_fill : ℕ → ℕ → Memory → Memory
zero_fill s zero m = m
zero_fill s (suc n) m = zero_fill (s + 1) n (write m s 0)

unfoldable pub strncpy : ℕ → ℕ → ℕ → Memory → Memory
unfolding zero_fill
strncpy s t zero m = m
strncpy s t (suc n) m =
    let rest = strncpy (s + 1) (t + 1) n (write m s (m t)) in
    if m t == 0 then zero_fill (s + 1) n (write m s (m t)) else rest

-- The loop of `safestrcpy`, with `--n` bytes left, and the final NUL.
unfoldable pub safe_copy : ℕ → ℕ → ℕ → Memory → Memory
safe_copy s t zero m = write m s 0
safe_copy s t (suc n) m =
    let rest = safe_copy (s + 1) (t + 1) n (write m s (m t)) in
    if m t == 0 then write (write m s (m t)) (s + 1) 0 else rest

-- A size of 0 or less copies nothing.
unfoldable pub safestrcpy : ℕ → ℕ → ℕ → Memory → Memory
unfolding safe_copy
safestrcpy s t zero m = m
safestrcpy s t (suc n) m = safe_copy s t n m

-- The loop of `strlen` from offset `n`, on fuel.
unfoldable pub strlen_from : ℕ → ℕ → ℕ → Memory → Option ℕ
strlen_from zero s n m = none
strlen_from (suc fuel) s n m =
    let rest = strlen_from fuel s (n + 1) m in if m (s + n) == 0 then some n else rest

unfoldable pub strlen : ℕ → ℕ → Memory → Option ℕ
unfolding strlen_from
strlen fuel s m = strlen_from fuel s 0 m
