-- ===== src/Print.antt =====
-- printf.c, and `atoi` of ulib.c: numbers as text in user programs.
-- A number is the 32 bits of an `int` or a `uint`; what is written is the list of the bytes given to
-- `putc`. A string is its bytes in front of the NUL. The arguments of `printf` are the words that
-- `ap` runs over, and `text_at` is the string at an address.
pub mod Decimal
pub mod Format
mod Tests
use op_sys.Base.{
  ltb, leb, ◌==◌, if◌then◌else◌, word, ℕ, zero, suc, ◌+◌, ◌-◌, ◌*◌, ◌/◌, ◌%◌, ap, Bool, true, false,
  ◌&&◌, ◌||◌, List, [], ◌∷◌, ◌++◌,
}

-- `digits[d]`, for d < 16
abbrev pub digit : ℕ → ℕ
digit d = if ltb d 10 then 48 + d else 55 + d

-- The loop of `printint` that fills `buf`, on fuel: the last digit comes first.
unfoldable pub fill : ℕ → ℕ → ℕ → List ℕ
fill zero base x = []
fill (suc fuel) base x =
    let rest = fill fuel base (x / base) in digit (x % base) ∷ (if x / base == 0 then [] else rest)

abbrev pub is_negative : ℕ → Bool
is_negative xx = leb 2147483648 xx

-- `neg`, and `x`
abbrev pub shows_minus : Bool → ℕ → Bool
shows_minus sgn xx = sgn && is_negative xx

abbrev pub magnitude : Bool → ℕ → ℕ
magnitude sgn xx = if shows_minus sgn xx then (word - xx) % word else xx

-- The loop that empties `buf` from its end.
unfoldable pub from_end : List ℕ → List ℕ
from_end [] = []
from_end (c ∷ buf) = from_end buf ++ c ∷ []

-- 32 rounds are enough for a number of 32 bits.
unfoldable pub printint : ℕ → ℕ → Bool → List ℕ
printint xx base sgn =
    from_end (fill 32 base (magnitude sgn xx) ++ (if shows_minus sgn xx then 45 ∷ [] else []))

module _ (args : ℕ → ℕ) (text_at : ℕ → List ℕ) where
  -- "(null)"
  abbrev pub null_text : List ℕ
  null_text = 40 ∷ 110 ∷ 117 ∷ 108 ∷ 108 ∷ 41 ∷ []

  abbrev pub text_of : ℕ → List ℕ
  text_of s = if s == 0 then null_text else text_at s

  -- What is written for a byte after '%', and whether an argument is taken.
  unfoldable pub directive : ℕ → ℕ → List ℕ × Bool
  directive c ap =
      if c == 100
      then (printint (args ap) 10 true, true)
      else if (c == 120) || (c == 112)
      then (printint (args ap) 16 false, true)
      else if c == 115
      then (text_of (args ap), true)
      else if c == 99
      then ((args ap % 256) ∷ [], true)
      else if c == 37
      then (c ∷ [], false)
      else (37 ∷ c ∷ [], false)

  -- The loop of `printf`; the flag is that `state` is '%'.
  unfoldable pub printf : List ℕ → Bool → ℕ → List ℕ
  printf [] state ap = []
  printf (c ∷ fmt) true ap =
      (directive c ap).0 ++ printf fmt false (if (directive c ap).1 then ap + 1 else ap)
  printf (c ∷ fmt) false ap =
      let after_percent = printf fmt true ap in
      let plain = printf fmt false ap in if c == 37 then after_percent else c ∷ plain

-- `n*10 + *s++ - '0'`, with the wrap of the machine's `int`
unfoldable pub atoi_from : ℕ → List ℕ → ℕ
atoi_from n [] = n
atoi_from n (c ∷ s) =
    let rest = atoi_from ((n * 10 + c + word - 48) % word) s in
    if leb 48 c && leb c 57 then rest else n

unfoldable pub atoi : List ℕ → ℕ
atoi s = atoi_from 0 s
