-- ===== src/Bytes/Move.antt =====
-- string.c: memmove copies a range as it was, also where source and destination overlap.
use op_sys.Base.{
  ltb, leb, if◌then◌else◌, Bool-cases, ℕ, zero, suc, ◌+◌, ◌-◌, ◌≤◌, ◌<◌, ◌≡◌, ap, ◌∙◌, ◌⊎◌, inl,
  inr, ◌&&◌, arith, dec_lt, ℕ_discrete,
}
use op_sys.Bytes.{Memory, write, copy_down, copy_up, memmove}

-- Memory `m` with the `n` bytes at `d` replaced by those that `m` has at `s`.
abbrev pub moved : ℕ → ℕ → ℕ → Memory → Memory
moved d s n m a = if leb d a && ltb a (d + n) then m (s + (a - d)) else m a

-- One byte first, then the rest one place further up.
moved-up :
    (d s n : ℕ) (m : Memory) (a : ℕ)
    → (d ≤ s) ⊎ (s + suc n ≤ d)
    → moved (d + 1) (s + 1) n (write m d (m s)) a ≡ moved d s (suc n) m a
moved-up d s n m a h = elim (dec_lt a d) [
  | yes below ↦ ground arith
  | no above ↦ elim (ℕ_discrete a d) [
    | yes e ↦ let at_start : m (s + (a - d)) ≡ m s = ap m (omega arith) in ground (arith, at_start)
    | no ne ↦
        let shift : m (s + 1 + (a - (d + 1))) ≡ m (s + (a - d)) = ap m (omega arith) in
        ground (arith, shift)
  ]
]

-- Going up is right if the destination does not start inside the source.
copy_up_lem :
    (n d s : ℕ) (m : Memory) (a : ℕ) → (d ≤ s) ⊎ (s + n ≤ d) → copy_up d s n m a ≡ moved d s n m a
unfolding copy_up
copy_up_lem zero d s m a h = ground arith
copy_up_lem (suc n) d s m a h =
    copy_up_lem n (d + 1) (s + 1) (write m d (m s)) a (omega arith) ∙ moved-up d s n m a h

-- The last byte first, then the rest.
moved-down :
    (d s n : ℕ) (m : Memory) (a : ℕ)
    → s < d
    → moved d s n (write m (d + n) (m (s + n))) a ≡ moved d s (suc n) m a
moved-down d s n m a h = elim (ℕ_discrete a (d + n)) [
  | yes e ↦ let at_end : m (s + (a - d)) ≡ m (s + n) = ap m (omega arith) in ground (arith, at_end)
  | no ne ↦ ground arith
]

-- Going down is right if the source starts before the destination.
copy_down_lem :
    (n d s : ℕ) (m : Memory) (a : ℕ) → s < d → copy_down (d + n) (s + n) n m a ≡ moved d s n m a
unfolding copy_down
copy_down_lem zero d s m a h = ground arith
copy_down_lem (suc n) d s m a h =
    let back_d : d + suc n - 1 ≡ d + n = omega arith in
    let back_s : s + suc n - 1 ≡ s + n = omega arith in
    rw (back_d, back_s)
      (copy_down_lem n d s (write m (d + n) (m (s + n))) a h ∙ moved-down d s n m a h)

-- After `memmove(d, s, n)` the `n` bytes at `d` are those that stood at `s` before, however the two
-- ranges overlap, and every other byte is as it was.
pub memmove_lem : (d s n : ℕ) (m : Memory) (a : ℕ) → memmove d s n m a ≡ moved d s n m a
unfolding memmove
memmove_lem d s n m a = elim (Bool-cases (ltb s d && ltb d (s + n))) [
  | inl e ↦ rw e (copy_down_lem n d s m a (ground arith))
  | inr e ↦ rw e (
      copy_up_lem n d s m a
        (elim (dec_lt s d) [ yes lt ↦ inr (ground arith) | no ge ↦ inl (omega arith) ]))
]
