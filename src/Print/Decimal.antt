-- ===== src/Print/Decimal.antt =====
-- printf.c and ulib.c: `atoi` reads back what `printint` writes.
use op_sys.Base.{
  ◌==◌, if◌then◌else◌, word, All, ℕ, zero, suc, ◌+◌, ◌-◌, ◌*◌, ◌/◌, ◌%◌, ◌≤◌, ◌<◌, ◌≡◌, refl, ap,
  ◌∙◌, true, false, List, [], ◌∷◌, ◌++◌, append-nil, arith,
}
use op_sys.Print.{digit, fill, is_negative, from_end, printint, atoi_from, atoi}

-- The number that decimal digits with the last one first stand for.
unfoldable pub value : List ℕ → ℕ
value [] = 0
value (c ∷ buf) = (c - 48) + 10 * value buf

abbrev IsDigit : ℕ → Type 0
IsDigit c = (48 ≤ c) × (c ≤ 57)

-- Ten to the power of the fuel, which bounds the numbers that the fuel is enough for.
unfoldable pub tens : ℕ → ℕ
tens zero = 1
tens (suc n) = 10 * tens n

digit_lem : (d : ℕ) → d < 10 → digit d ≡ 48 + d
digit_lem d p = ground arith

-- The test on the next round leaves out digits that stand for nothing.
rest_lem :
    (q : ℕ) (rest : List ℕ)
    → value rest ≡ q
    → All IsDigit rest
    → (value (if q == 0 then [] else rest) ≡ q) × All IsDigit (if q == 0 then [] else rest)
unfolding value
rest_lem zero rest e a = (refl, tt)
rest_lem (suc q) rest e a = let no : (suc q == 0) ≡ false = ground arith in rw no (e, a)

fill_lem :
    (fuel x : ℕ) → x < tens fuel → (value (fill fuel 10 x) ≡ x) × All IsDigit (fill fuel 10 x)
unfolding fill value tens
fill_lem zero x h = (omega arith, tt)
fill_lem (suc fuel) x h =
    let ih = fill_lem fuel (x / 10) (omega arith) in
    let rest = rest_lem (x / 10) (fill fuel 10 (x / 10)) ih.0 ih.1 in
    let d = digit_lem (x % 10) (omega arith) in
    let v = rest.0 in (omega arith, ((omega arith, omega arith), rest.1))

digit_taken :
    (n d : ℕ) (s : List ℕ)
    → IsDigit d
    → atoi_from n (d ∷ s) ≡ atoi_from ((n * 10 + d + word - 48) % word) s
unfolding atoi_from
digit_taken n d s h = ground arith

atoi_from-last :
    (n : ℕ) (s : List ℕ) (c : ℕ)
    → All IsDigit s
    → atoi_from n (s ++ c ∷ []) ≡ atoi_from (atoi_from n s) (c ∷ [])
unfolding atoi_from
atoi_from-last n [] c a = refl
atoi_from-last n (d ∷ s) c a =
    rw (digit_taken n d (s ++ c ∷ []) a.0, digit_taken n d s a.0)
      (atoi_from-last ((n * 10 + d + word - 48) % word) s c a.1)

All-append : (xs ys : List ℕ) → All IsDigit xs → All IsDigit ys → All IsDigit (xs ++ ys)
All-append [] ys a b = b
All-append (x ∷ xs) ys a b = (a.0, All-append xs ys a.1 b)

from_end-AllDigits : (buf : List ℕ) → All IsDigit buf → All IsDigit (from_end buf)
unfolding from_end
from_end-AllDigits [] a = tt
from_end-AllDigits (c ∷ buf) a =
    All-append (from_end buf) (c ∷ []) (from_end-AllDigits buf a.1) (a.0, tt)

-- `+ '0'` and `- '0'` cancel, and the sum does not wrap.
wraps :
    (n v c : ℕ)
    → n ≡ v
    → 48 ≤ c
    → (c - 48) + 10 * v < word
    → (n * 10 + c + word - 48) % word ≡ (c - 48) + 10 * v
wraps n v c e p h = omega arith

atoi-from_end :
    (buf : List ℕ) → All IsDigit buf → value buf < word → atoi (from_end buf) ≡ value buf
unfolding atoi value from_end atoi_from
atoi-from_end [] a h = refl
atoi-from_end (c ∷ buf) a h =
    let ih : atoi_from 0 (from_end buf) ≡ value buf = atoi-from_end buf a.1 (omega arith) in
    let lo = a.0.0 in
    let one = digit_taken (atoi_from 0 (from_end buf)) c [] a.0 in
    let last = atoi_from-last 0 (from_end buf) c (from_end-AllDigits buf a.1) in
    last ∙ one ∙ wraps (atoi_from 0 (from_end buf)) (value buf) c ih lo h

printint-plain : (x : ℕ) → x < 2147483648 → printint x 10 true ≡ from_end (fill 32 10 x)
unfolding printint
printint-plain x h =
    let no : is_negative x ≡ false = ground arith in rw no (ap from_end (append-nil (fill 32 10 x)))

-- What `printint` writes in base 10 for a signed number that is not negative is read back by `atoi`
-- as that number.
pub atoi-printint : (x : ℕ) → x < 2147483648 → atoi (printint x 10 true) ≡ x
unfolding tens
atoi-printint x h =
    let filled = fill_lem 32 x (omega arith) in
    rw (printint-plain x h)
      (atoi-from_end (fill 32 10 x) filled.1 (omega (arith, filled.0, h)) ∙ filled.0)
