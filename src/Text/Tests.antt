-- ===== src/Text/Tests.antt =====
-- Tests of tp-parte4/lib/string.c.
use sistemas_operativos_2c.Common.{
  ℕ, ◌≡◌, some, List, [], ◌∷◌, ◌++◌, arith, ◌+◌, ◌-◌, ◌&&◌, leb, ltb, if◌then◌else◌,
}
use sistemas_operativos_2c.Text.Strings.{IsText}
use sistemas_operativos_2c.Text.Move.{memmove, memmove-placed}
use sistemas_operativos_2c.Text.Numbers.{strtol, printnum}
use sistemas_operativos_2c.Text.Numbers.RoundTrip.{strtol-printnum}

abbrev hi : List ℕ
hi = 104 ∷ 105 ∷ []

hi-IsText : IsText hi
hi-IsText = (omega arith, (omega arith, tt))

-- Four bytes move up by two, over themselves.
memmove-placed_example :
    memmove 102 100 4 (λ a. a) 103
    ≡ (if leb 102 103 && ltb 103 (102 + 4) then 100 + (103 - 102) else 103)
memmove-placed_example = memmove-placed 102 100 4 (λ a. a) 103

-- 255 in base 16, in a field of four.
strtol-printnum_example :
    (out : List ℕ) × (printnum 255 16 4 b' ' ≡ some out)
    × (strtol (out ++ 0 ∷ 9 ∷ []) 16 ≡ some (255, 0 ∷ 9 ∷ []))
strtol-printnum_example =
    strtol-printnum 255 16 4 (9 ∷ []) (omega arith) (omega arith) (omega arith)
