-- ===== src/Pipe/Contents.antt =====
-- pipe.c: the bytes that a pipe holds, oldest first, and what a single write or read does to them.
use op_sys.Base.{
  length, get_or, set, length-set, get_or-set_self, get_or-set_ne, ℕ, zero, suc, ◌+◌, ◌-◌, ◌%◌, ◌^◌,
  ◌≤◌, ◌<◌, ◌≡◌, refl, ap, ap₂, ◌∙◌, ◌↔◌, true, false, List, [], ◌∷◌, ◌++◌, arith,
}
use op_sys.Pipe.{pipe_size, Pipe, add32, fresh, is_full, is_empty, put, front, drop_front}

-- How many bytes have been written and not yet read.
abbrev pub held : Pipe → ℕ
held p = (p.nwrite + 2 ^ 32 - p.nread) % 2 ^ 32

-- `k` bytes of the ring from the position `r` on.
abbrev pub stretch : List ℕ → ℕ → ℕ → List ℕ
stretch d r zero = []
stretch d r (suc k) = get_or d (r % pipe_size) 0 ∷ stretch d (r + 1) k

abbrev pub contents : Pipe → List ℕ
contents p = stretch p.bytes p.nread (held p)

pub record IsValid (p : Pipe) : Type 0 where
  pub size : length p.bytes ≡ pipe_size
  pub words : (p.nread < 2 ^ 32) × (p.nwrite < 2 ^ 32)
  pub fits : held p ≤ pipe_size

pub fresh-IsValid : (junk : List ℕ) → length junk ≡ pipe_size → IsValid (fresh junk)
fresh-IsValid junk h = record { size = h; words = omega arith; fits = omega arith }

-- The stretch depends on its start only modulo the size of the ring.
stretch-mod :
    (d : List ℕ) (k r s : ℕ) → r % pipe_size ≡ s % pipe_size → stretch d r k ≡ stretch d s k
stretch-mod d zero r s e = refl
stretch-mod d (suc k) r s e =
    ap₂ ◌∷◌ (ap (λ i. get_or d i 0) e) (stretch-mod d k (r + 1) (s + 1) (omega arith))

-- A byte written just behind a stretch that leaves room for it extends the stretch.
stretch-set :
    (d : List ℕ) (k r i b : ℕ)
    → length d ≡ pipe_size
    → k < pipe_size
    → i ≡ (r + k) % pipe_size
    → stretch (set d i b) r (suc k) ≡ stretch d r k ++ b ∷ []
stretch-set d zero r i b l h e =
    ap (λ x. x ∷ [])
      (ap (λ j. get_or (set d i b) j 0) (omega arith) ∙ get_or-set_self d i b 0 (omega arith))
stretch-set d (suc k) r i b l h e =
    ap₂ ◌∷◌ (get_or-set_ne d i (r % pipe_size) b 0 (omega arith))
      (stretch-set d k (r + 1) i b l (omega arith) (omega arith))

pub length-stretch : (d : List ℕ) (r k : ℕ) → length (stretch d r k) ≡ k
length-stretch d r zero = refl
length-stretch d r (suc k) = ap suc (length-stretch d (r + 1) k)

pub full_iff : (p : Pipe) → IsValid p → (is_full p ≡ true) ↔ (held p ≡ pipe_size)
full_iff p v = (λ h. ground arith, λ h. ground arith)

pub empty_iff : (p : Pipe) → IsValid p → (is_empty p ≡ true) ↔ (held p ≡ 0)
empty_iff p v = (λ h. ground arith, λ h. ground arith)

pub put-IsValid : (p : Pipe) (b : ℕ) → IsValid p → is_full p ≡ false → IsValid (put p b)
unfolding put
put-IsValid p b v h = record {
  size = length-set p.bytes (p.nwrite % pipe_size) b ∙ v.size;
  words = omega (arith, v.words);
  fits = ground (arith, v.words, v.fits);
}

-- One byte goes to the end of what a pipe holds.
pub contents-put :
    (p : Pipe) (b : ℕ) → IsValid p → is_full p ≡ false → contents (put p b) ≡ contents p ++ b ∷ []
unfolding put
contents-put p b v h =
    let room : held p < pipe_size = ground (arith, v.words, v.fits) in
    let more : held (put p b) ≡ suc (held p) = ground (arith, v.words, v.fits) in
    ap (stretch (set p.bytes (p.nwrite % pipe_size) b) p.nread) more
    ∙ stretch-set p.bytes (held p) p.nread (p.nwrite % pipe_size) b v.size room
        (omega (arith, v.words))

pub drop_front-IsValid : (p : Pipe) → IsValid p → is_empty p ≡ false → IsValid (drop_front p)
drop_front-IsValid p v h = record {
  size = v.size;
  words = omega (arith, v.words);
  fits = ground (arith, v.words, v.fits);
}

-- One byte comes from the front.
pub contents-drop_front :
    (p : Pipe) → IsValid p → is_empty p ≡ false → contents p ≡ front p ∷ contents (drop_front p)
contents-drop_front p v h =
    let less : held p ≡ suc (held (drop_front p)) = ground (arith, v.words, v.fits) in
    ap (stretch p.bytes p.nread) less
    ∙ ap (λ l. front p ∷ l)
        (stretch-mod p.bytes (held (drop_front p)) (p.nread + 1) (add32 p.nread 1) (omega arith))
