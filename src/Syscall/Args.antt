-- ===== src/Syscall/Args.antt =====
-- syscall.c: an argument that passes the checks lies in the memory of the process.
use op_sys.Base.{
  Option-cases, word, ℕ, zero, suc, ◌+◌, ◌-◌, ◌*◌, ◌%◌, ◌≤◌, ◌<◌, ◌≡◌, sym, ap, ◌∙◌, ◌≢◌, ◌↔◌, ◌⊎◌,
  inl, inr, none, some, arith, dec_lt, ℕ_discrete,
}
use op_sys.Syscall.{int_at, strlen_below, fetchint, fetchstr, check_ptr, argint, argptr, argstr}

-- The four bytes are given where all of them lie below `sz`, and -1 otherwise.
fetchint_cases :
    (mem : ℕ → ℕ) (sz addr : ℕ)
    → sz ≤ 2147483648
    → ((addr + 4 ≤ sz) × (fetchint mem sz addr ≡ some (int_at mem addr)))
      ⊎ ((sz < addr + 4) × (fetchint mem sz addr ≡ none))
unfolding fetchint
fetchint_cases mem sz addr h = elim (dec_lt sz (addr + 4)) [
  | yes l ↦ inr (l, elim (dec_lt addr sz) [ yes k ↦ ground arith | no k ↦ ground arith ])
  | no n ↦ inl (omega arith, ground arith)
]

check_ptr_cases :
    (sz size i : ℕ)
    → sz ≤ 2147483648
    → ((size < 2147483648) × (i < sz) × (i + size ≤ sz) × (check_ptr sz size i ≡ some i))
      ⊎ (((2147483648 ≤ size) ⊎ (sz ≤ i) ⊎ (sz < i + size)) × (check_ptr sz size i ≡ none))
unfolding check_ptr
check_ptr_cases sz size i h = elim (dec_lt size 2147483648) [
  | no n ↦ inr (inl (omega arith), ground arith)
  | yes l ↦ elim (dec_lt i sz) [
    | no m ↦ inr (inr (inl (omega arith)), ground arith)
    | yes k ↦ elim (dec_lt sz (i + size)) [
      | yes o ↦ inr (inr (inr o), ground arith)
      | no o ↦ inl (l, k, omega arith, ground arith)
    ]
  ]
]

-- Where the argument of a call stands on the stack of the thread.
abbrev pub arg_address : ℕ → ℕ → ℕ
arg_address esp n = (esp + 4 + 4 * n) % word

-- For a process of at most KERNBASE bytes, `argptr` gives `p` exactly when the whole argument lies
-- in the memory of the process and is `p`, `size` is not negative, and the `size` bytes from `p` on lie in
-- that memory, `p` itself too where `size` is 0. No sum of addresses wraps past the checks.
pub argptr_iff :
    (mem : ℕ → ℕ) (sz esp n size p : ℕ)
    → sz ≤ 2147483648
    → (argptr mem sz esp n size ≡ some p) ↔ (
        (arg_address esp n + 4 ≤ sz)
        × (int_at mem (arg_address esp n) ≡ p)
        × (size < 2147483648)
        × (p < sz)
        × (p + size ≤ sz))
unfolding argptr argint
argptr_iff mem sz esp n size p h = elim (fetchint_cases mem sz (arg_address esp n) h) [
  | inr (l, e) ↦ (λ k. absurd (ground (arith, e, k)), λ k. absurd (omega (arith, k.0, l)))
  | inl (l, e) ↦ elim (check_ptr_cases sz size (int_at mem (arg_address esp n)) h) [
    | inr (o, f) ↦ (λ k. absurd (ground (arith, e, f, k)), λ k. absurd (ground (arith, o, k)))
    | inl (a, b, c, f) ↦ (
      λ k.
          let eq : int_at mem (arg_address esp n) ≡ p = ground (arith, e, f, k) in
          (l, eq, a, omega (arith, eq, b), omega (arith, eq, c)),
      λ k. ground (arith, e, f, k),
    )
  ]
]

-- What the loop of `fetchstr` finds in `n` bytes.
strlen_below_iff :
    (mem : ℕ → ℕ) (n s len : ℕ)
    → (strlen_below mem n s ≡ some len)
      ↔ ((len < n) × (mem (s + len) ≡ 0) × ((k : ℕ) → k < len → mem (s + k) ≢ 0))
unfolding strlen_below
strlen_below_iff mem zero s len =
    (λ k. absurd (ground (arith, k)), λ k. absurd (omega (arith, k.0)))
strlen_below_iff mem (suc n) s zero = elim (ℕ_discrete (mem s) 0) [
  | yes z ↦ (
    λ k. (
      omega arith,
      ap mem {x = s + 0} {y = s} (omega arith) ∙ z,
      λ j l. absurd (omega (arith, l)),
    ),
    λ k. ground (arith, z),
  )
  | no nz ↦ (
    λ k. absurd (elim (Option-cases (strlen_below mem n (s + 1))) [
      | inl e ↦ ground (arith, nz, e, k)
      | inr (m, e) ↦ ground (arith, nz, e, k)
    ]),
    λ k. absurd (nz (ap mem {x = s} {y = s + 0} (omega arith) ∙ k.1)),
  )
]
strlen_below_iff mem (suc n) s (suc len) =
    let ih = strlen_below_iff mem n (s + 1) len in
    elim (ℕ_discrete (mem s) 0) [
      | yes z ↦ (
        λ k. absurd (ground (arith, z, k)),
        λ k. absurd (k.2 0 (omega arith) (ap mem {x = s + 0} {y = s} (omega arith) ∙ z)),
      )
      | no nz ↦ (
        λ k. later nz (
            ih.0 (elim (Option-cases (strlen_below mem n (s + 1))) [
              | inl e ↦ absurd (ground (arith, nz, e, k))
              | inr (m, e) ↦ ground (arith, nz, e, k)
            ])),
        λ k.
            let rest : strlen_below mem n (s + 1) ≡ some len = ih.1 (
              omega (arith, k.0),
              ap mem {x = s + 1 + len} {y = s + suc len} (omega arith) ∙ k.1,
              λ j l e.
                  k.2 (suc j) (omega (arith, l))
                    (ap mem {x = s + suc j} {y = s + 1 + j} (omega arith) ∙ e),
            ) in
            ground (arith, nz, rest),
      )
    ]
  where
    Ends : ℕ → ℕ → ℕ → Type 0
    Ends n s len = (len < n) × (mem (s + len) ≡ 0) × ((k : ℕ) → k < len → mem (s + k) ≢ 0)

    later : mem s ≢ 0 → Ends n (s + 1) len → Ends (suc n) s (suc len)
    later nz (l, z, before) =
        (omega (arith, l), ap mem {x = s + suc len} {y = s + 1 + len} (omega arith) ∙ z, go)
      where
        go : (k : ℕ) → k < suc len → mem (s + k) ≢ 0
        go zero h e = nz (ap mem {x = s} {y = s + 0} (omega arith) ∙ e)
        go (suc k) h e =
            before k (omega (arith, h)) (ap mem {x = s + 1 + k} {y = s + suc k} (omega arith) ∙ e)

fetchstr_iff :
    (mem : ℕ → ℕ) (sz addr len : ℕ)
    → (fetchstr mem sz addr ≡ some len)
      ↔ ((addr + len < sz) × (mem (addr + len) ≡ 0) × ((k : ℕ) → k < len → mem (addr + k) ≢ 0))
unfolding fetchstr
fetchstr_iff mem sz addr len = elim (dec_lt addr sz) [
  | no o ↦ (λ k. absurd (ground (arith, k)), λ k. absurd (omega (arith, k.0)))
  | yes o ↦
      let below = strlen_below_iff mem (sz - addr) addr len in
      (
        λ k.
            let found = below.0 (ground (arith, k)) in
            (omega (arith, found.0, o), found.1, found.2),
        λ k. let found = below.1 (omega (arith, k.0, o), k.1, k.2) in ground (arith, found),
      )
]

-- For a process of at most KERNBASE bytes, `argstr` gives the address `p` and the length `len`
-- exactly when the whole argument lies in the memory of the process and is `p`, and the bytes from
-- `p` on are `len` that are not NUL and then a NUL, all below the end of that memory.
pub argstr_iff :
    (mem : ℕ → ℕ) (sz esp n p len : ℕ)
    → sz ≤ 2147483648
    → (argstr mem sz esp n ≡ some (p, len)) ↔ (
        (arg_address esp n + 4 ≤ sz)
        × (int_at mem (arg_address esp n) ≡ p)
        × (p + len < sz)
        × (mem (p + len) ≡ 0)
        × ((k : ℕ) → k < len → mem (p + k) ≢ 0))
unfolding argstr argint
argstr_iff mem sz esp n p len h = elim (fetchint_cases mem sz (arg_address esp n) h) [
  | inr (l, e) ↦ (λ k. absurd (ground (arith, e, k)), λ k. absurd (omega (arith, k.0, l)))
  | inl (l, e) ↦ (
    λ k. elim (Option-cases (fetchstr mem sz (int_at mem (arg_address esp n)))) [
      | inl f ↦ absurd (ground (arith, e, f, k))
      | inr (m, f) ↦
          let eq : int_at mem (arg_address esp n) ≡ p = ground (arith, e, f, k) in
          let length_eq : m ≡ len = ground (arith, e, f, k) in
          let found =
            (fetchstr_iff mem sz p len).0 (ap (fetchstr mem sz) (sym eq) ∙ f ∙ ap some length_eq) in
          (l, eq, found.0, found.1, found.2)
    ],
    λ k.
        let f : fetchstr mem sz (int_at mem (arg_address esp n)) ≡ some len =
          ap (fetchstr mem sz) (k.1) ∙ (fetchstr_iff mem sz p len).1 (k.2, k.3, k.4) in
        ground (arith, e, f, k.1),
  )
]
