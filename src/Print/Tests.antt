-- ===== src/Print/Tests.antt =====
-- printf.c at concrete inputs.
use op_sys.Base.{ℕ, ◌+◌, ◌≡◌, refl, true, false, List, [], ◌∷◌, arith}
use op_sys.Print.{fill, from_end, printint, atoi}
use op_sys.Print.Decimal.{atoi-printint}

atoi-printint_example : atoi (printint 4095 10 true) ≡ 4095
atoi-printint_example = atoi-printint 4095 (omega arith)

-- -7 and 0xBEEF
prints_minus : printint 4294967289 10 true ≡ 45 ∷ 55 ∷ []
unfolding printint fill from_end
prints_minus = refl

prints_hex : printint 48879 16 false ≡ 66 ∷ 69 ∷ 69 ∷ 70 ∷ []
unfolding printint fill from_end
prints_hex = refl

abbrev a_to_c : ℕ → ℕ
a_to_c i = 97 + i

abbrev no_text : ℕ → List ℕ
no_text s = []
