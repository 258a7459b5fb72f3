-- ===== src/Bytes/Fill.antt =====
-- string.c: memset fills its range, by words or by bytes.
use op_sys.Base.{
  ltb, leb, ◌==◌, if◌then◌else◌, Bool-cases, ℕ, zero, suc, ◌+◌, ◌*◌, ◌/◌, ◌%◌, ◌<◌, ◌≡◌, ap, ◌∙◌,
  inl, inr, ◌&&◌, arith,
}
use op_sys.Bytes.{Memory, write, low_byte, stosb, write_word, stosl, four_copies, memset}

-- Memory `m` with the `n` bytes at `d` set to `c`.
abbrev pub filled : ℕ → ℕ → ℕ → Memory → Memory
filled d c n m a = if leb d a && ltb a (d + n) then c else m a

stosb_lem : (n d c : ℕ) (m : Memory) (a : ℕ) → stosb d c n m a ≡ filled d (low_byte c) n m a
unfolding stosb
stosb_lem zero d c m a = ground arith
stosb_lem (suc n) d c m a = ground (arith, stosb_lem n (d + 1) c (write m d (low_byte c)) a)

-- The word that `memset` stores holds the byte four times.
write_word-four_copies :
    (d c : ℕ) (m : Memory) (a : ℕ) → c < 256 → write_word m d (four_copies c) a ≡ filled d c 4 m a
unfolding write_word
write_word-four_copies d c m a h = ground (arith, b0, b1, b2, b3)
  where
    b0 : four_copies c % 256 ≡ c
    b0 = omega arith

    b1 : four_copies c / 256 % 256 ≡ c
    b1 = omega arith

    b2 : four_copies c / 65536 % 256 ≡ c
    b2 = omega arith

    b3 : four_copies c / 16777216 % 256 ≡ c
    b3 = omega arith

stosl_lem :
    (n d c : ℕ) (m : Memory) (a : ℕ)
    → c < 256
    → stosl d (four_copies c) n m a ≡ filled d c (4 * n) m a
unfolding stosl
stosl_lem zero d c m a h = ground arith
stosl_lem (suc n) d c m a h = ground (
  arith,
  stosl_lem n (d + 4) c (write_word m d (four_copies c)) a h,
  write_word-four_copies d c m a h,
)

-- After `memset(d, c, n)` each of the `n` bytes at `d` is the low byte of `c`, whether the words or the
-- bytes are stored, and every other byte is as it was.
pub memset_lem : (d c n : ℕ) (m : Memory) (a : ℕ) → memset d c n m a ≡ filled d (low_byte c) n m a
unfolding memset
memset_lem d c n m a = elim (Bool-cases ((d % 4 == 0) && (n % 4 == 0))) [
  | inl e ↦ rw e (
      stosl_lem (n / 4) d (low_byte c) m a (omega arith)
      ∙ ap (λ k. filled d (low_byte c) k m a) (ground arith))
  | inr e ↦ rw e (stosb_lem n d c m a)
]
