-- ===== src/File/Writei.antt =====
-- fs.c: writei, for an inode that is no device. The data of an inode is the data of the blocks that
-- `bmap` gives for it, by the block's number in the file: `Block` shows that they are different
-- blocks. The block is written through the cache and the log as `Bcache.change` does. A call in which
-- `balloc` or `log_write` panics is left out.
use op_sys.Base.{
  ltb, leb, ◌==◌, if◌then◌else◌, Bool-cases, length, get_or, take, drop, length-append,
  take-append-drop, length-drop, ℤ, pos, negsuc, ℕ, zero, suc, ◌+◌, ◌-◌, ◌*◌, ◌/◌, ◌%◌, ◌≤◌, ◌<◌,
  ◌≡◌, refl, sym, ap, subst, ◌⊎◌, inl, inr, Bool, true, ◌&&◌, ◌||◌, List, [], ◌∷◌, ◌++◌, arith,
  ℕ_discrete,
}

-- `BSIZE`, and `MAXFILE * BSIZE`
abbrev pub bsize : ℕ
bsize = 512

abbrev pub max_size : ℕ
max_size = (12 + 128) * bsize

-- The byte at a place of each block of the inode.
abbrev pub Blocks : Type 0
Blocks = ℕ → ℕ → ℕ

pub record Content : Type 0 where
  pub size : ℕ
  pub blocks : Blocks

-- The byte of the file at an offset.
abbrev pub byte_at : Blocks → ℕ → ℕ
byte_at d k = d (k / bsize) (k % bsize)

-- Whether the offset lies in `n` bytes from `off` on.
abbrev pub is_within : ℕ → ℕ → ℕ → Bool
is_within off n k = leb off k && ltb k (off + n)

-- `memmove(bp->data + at, src, m)` for the block `bn` of the file
unfoldable pub put_bytes : ℕ → ℕ → List ℕ → Blocks → Blocks
put_bytes bn at src d b k =
    if (b == bn) && is_within at (length src) k then get_or src (k - at) 0 else d b k

-- `min(n - tot, BSIZE - off%BSIZE)`
abbrev pub turn_size : ℕ → ℕ → ℕ
turn_size off left = if ltb left (bsize - off % bsize) then left else bsize - off % bsize

-- The loop, with the bytes that are left. Each turn writes one at least.
unfoldable pub writei_loop : ℕ → ℕ → List ℕ → Blocks → Blocks
unfolding put_bytes
writei_loop fuel off [] d = d
writei_loop zero off (b ∷ bs) d = d
writei_loop (suc fuel) off (b ∷ bs) d =
    let m = turn_size off (length (b ∷ bs)) in
    writei_loop fuel (off + m) (drop m (b ∷ bs))
      (put_bytes (off / bsize) (off % bsize) (take m (b ∷ bs)) d)

-- `off + n`, of `uint`s
abbrev pub add_uint : ℕ → ℕ → ℕ
add_uint a b = (a + b) % 4294967296

-- The loop stops with `off + n` in `off`.
unfoldable pub writei : Content → ℕ → List ℕ → Content × ℤ
unfolding writei_loop
writei c off bs =
    let n = length bs in
    if ltb c.size off || ltb (add_uint off n) off
    then (c, negsuc 0)
    else if ltb max_size (add_uint off n)
    then (c, negsuc 0)
    else (
      record {
        size = if ltb 0 n && ltb c.size (add_uint off n) then add_uint off n else c.size;
        blocks = writei_loop n off bs c.blocks;
      },
      pos n,
    )

-- The bytes `bs` stand from `off` on, and all others are as before.
abbrev pub IsPut : ℕ → List ℕ → Blocks → Blocks → Type 0
IsPut off bs d d' =
    (k : ℕ)
    → byte_at d' k ≡ (if is_within off (length bs) k then get_or bs (k - off) 0 else byte_at d k)

get_or-append :
    (xs ys : List ℕ) (k : ℕ)
    → get_or (xs ++ ys) k 0
      ≡ (if ltb k (length xs) then get_or xs k 0 else get_or ys (k - length xs) 0)
get_or-append [] ys k = ground arith
get_or-append (x ∷ xs) ys zero = ground arith
get_or-append (x ∷ xs) ys (suc k) = ground (arith, get_or-append xs ys k)

-- Bytes that are put right behind others stand as if put at once.
pub IsPut-append :
    (off : ℕ) (xs ys : List ℕ) (d d' d'' : Blocks)
    → IsPut off xs d d'
    → IsPut (off + length xs) ys d' d''
    → IsPut off (xs ++ ys) d d''
IsPut-append off xs ys d d' d'' p q k =
    let len = length-append xs ys in
    let read = get_or-append xs ys (k - off) in
    let place : k - off - length xs ≡ k - (off + length xs) = omega arith in
    ground (arith, p k, q k, len, read, place)

-- Where the bytes from `off` on do not leave their block, a place in them is the place of an offset.
within_block :
    (off n k : ℕ)
    → off % bsize + n ≤ bsize
    → ((k / bsize == off / bsize) && is_within (off % bsize) n (k % bsize)) ≡ is_within off n k
within_block off n k h = elim (ℕ_discrete (k / bsize) (off / bsize)) [
  | yes e ↦ elim (Bool-cases (is_within off n k)) [
    | inl w ↦
        let low : off ≤ k = ground (arith, w) in
        let high : k < off + n = ground (arith, w) in
        let low' : off % bsize ≤ k % bsize = omega (arith, e, low) in
        let high' : k % bsize < off % bsize + n = omega (arith, e, high) in
        ground (arith, e, low', high', w)
    | inr w ↦
        let out : (k < off) ⊎ (off + n ≤ k) = ground (arith, w) in
        elim out [
          | inl l ↦
              let l' : k % bsize < off % bsize = omega (arith, e, l) in ground (arith, e, l', w)
          | inr l ↦
              let l' : off % bsize + n ≤ k % bsize = omega (arith, e, l) in ground (arith, e, l', w)
        ]
  ]
  | no ne ↦
      let out : (k < off) ⊎ (off + n ≤ k) = elim (Bool-cases (ltb k off)) [
        | inl l ↦ inl (ground (arith, l))
        | inr l ↦
            let ge : off ≤ k = ground (arith, l) in
            let past : off / bsize < k / bsize = omega (arith, ge, ne) in
            inr (omega (arith, past, h))
      ] in
      elim out [ inl l ↦ ground (arith, ne, l) | inr l ↦ ground (arith, ne, l) ]
]

put_bytes-IsPut :
    (off : ℕ) (bs : List ℕ) (d : Blocks)
    → off % bsize + length bs ≤ bsize
    → IsPut off bs d (put_bytes (off / bsize) (off % bsize) bs d)
unfolding put_bytes
put_bytes-IsPut off bs d h k =
    rw (within_block off (length bs) k h) (elim (Bool-cases (is_within off (length bs) k)) [
      | inl w ↦ rw w (ap (λ i. get_or bs i 0) (same w))
      | inr w ↦ rw w refl
    ])
  where
    same : is_within off (length bs) k ≡ true → k % bsize - off % bsize ≡ k - off
    same w =
        let low : off ≤ k = ground (arith, w) in
        let high : k < off + length bs = ground (arith, w) in omega (arith, low, high, h)

length-take_short : (n : ℕ) (xs : List ℕ) → n ≤ length xs → length (take n xs) ≡ n
length-take_short n xs h =
    let whole = ap length (take-append-drop n xs) in
    omega (arith, whole, length-append (take n xs) (drop n xs), length-drop n xs, h)

writei_loop-IsPut :
    (fuel off : ℕ) (bs : List ℕ) (d : Blocks)
    → length bs ≤ fuel
    → IsPut off bs d (writei_loop fuel off bs d)
unfolding writei_loop
writei_loop-IsPut fuel off [] d h k = ground arith
writei_loop-IsPut zero off (b ∷ bs) d h k = absurd (omega (arith, h))
writei_loop-IsPut (suc fuel) off (b ∷ bs) d h i =
    let m : ℕ = turn_size off (length (b ∷ bs)) in
    let some_bytes : 0 < m = ground arith in
    let fits : off % bsize + m ≤ bsize = ground arith in
    let first : List ℕ = take m (b ∷ bs) in
    let rest : List ℕ = drop m (b ∷ bs) in
    let len : length first ≡ m = length-take_short m (b ∷ bs) (ground arith) in
    let d' : Blocks = put_bytes (off / bsize) (off % bsize) first d in
    let p : IsPut off first d d' = put_bytes-IsPut off first d (omega (arith, len, fits)) in
    let out : Blocks = writei_loop fuel (off + m) rest d' in
    let q : IsPut (off + m) rest d' out =
      writei_loop-IsPut fuel (off + m) rest d'
        (omega (arith, h, some_bytes, length-drop m (b ∷ bs))) in
    subst (λ l. IsPut off l d out) (take-append-drop m (b ∷ bs))
      (IsPut-append off first rest d d' out p
        (subst (λ l. IsPut (off + l) rest d' out) (sym len) q))
      i

-- What a write of these bytes at `off` makes of a file.
abbrev pub IsWritten : ℕ → List ℕ → Content → Content → Type 0
IsWritten off bs c c' =
    IsPut off bs c.blocks c'.blocks
    × (c'.size ≡ (if ltb c.size (off + length bs) then off + length bs else c.size))

-- At an offset in the file or at its end, and up to `MAXFILE` blocks, `writei` writes all its bytes.
pub writei-IsWritten :
    (c : Content) (off : ℕ) (bs : List ℕ)
    → off ≤ c.size
    → off + length bs ≤ max_size
    → (c' : Content) × (writei c off bs ≡ (c', pos (length bs))) × IsWritten off bs c c'
unfolding writei
writei-IsWritten c off bs h l =
    let sum : add_uint off (length bs) ≡ off + length bs = omega (arith, l) in
    let c' : Content = record {
      size =
          if ltb 0 (length bs) && ltb c.size (add_uint off (length bs))
          then add_uint off (length bs)
          else c.size;
      blocks = writei_loop (length bs) off bs c.blocks;
    } in
    (
      c',
      ground (arith, h, l, sum),
      (writei_loop-IsPut (length bs) off bs c.blocks (omega arith), ground (arith, h, l, sum)),
    )
