-- ===== src/Print/Format.antt =====
-- printf.c: `printf` on text without a directive.
use op_sys.Base.{if◌then◌else◌, All, ℕ, ◌+◌, ◌≡◌, refl, ap, ◌∙◌, false, List, [], ◌∷◌, ◌++◌, arith}
use op_sys.Print.{directive, printf}

-- A byte that is not '%'.
abbrev IsPlain : ℕ → Type 0
IsPlain c = ¬ (c ≡ 37)

module _ (args : ℕ → ℕ) (text_at : ℕ → List ℕ) where
  printf-skip :
      (c : ℕ) (fmt : List ℕ) (i : ℕ)
      → IsPlain c
      → printf args text_at (c ∷ fmt) false i ≡ c ∷ printf args text_at fmt false i
  unfolding printf
  printf-skip c fmt i h = ground arith

  printf-percent :
      (c : ℕ) (fmt : List ℕ) (i : ℕ)
      → printf args text_at (37 ∷ c ∷ fmt) false i
        ≡ (directive args text_at c i).0
          ++ printf args text_at fmt false (if (directive args text_at c i).1 then i + 1 else i)
  unfolding printf
  printf-percent c fmt i = refl

  -- `printf` copies the text in front of the first '%' and then writes what the directive stands
  -- for; the rest of the format is run with the next argument when the directive took one.
  pub printf-split :
      (before : List ℕ) (c : ℕ) (fmt : List ℕ) (i : ℕ)
      → All IsPlain before
      → printf args text_at (before ++ 37 ∷ c ∷ fmt) false i
        ≡ before
          ++ (directive args text_at c i).0
          ++ printf args text_at fmt false (if (directive args text_at c i).1 then i + 1 else i)
  printf-split [] c fmt i a = printf-percent c fmt i
  printf-split (d ∷ before) c fmt i a =
      printf-skip d (before ++ 37 ∷ c ∷ fmt) i a.0 ∙ ap (◌∷◌ d) (printf-split before c fmt i a.1)
