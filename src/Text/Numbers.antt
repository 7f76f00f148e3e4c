-- ===== src/Text/Numbers.antt =====
-- strtol of tp-parte4/lib/string.c and printnum of tp-parte4/lib/printfmt.c.
pub mod RoundTrip
use sistemas_operativos_2c.Common.{
  ℕ, zero, suc, ◌+◌, ◌-◌, ◌*◌, ◌/◌, ◌%◌, ◌^◌, Bool, true, false, ◌&&◌, ◌||◌, Option, none, some,
  List, [], ◌∷◌, ◌++◌, ltb, leb, ◌==◌, if◌then◌else◌,
}

-- The digit that a character stands for.
pub digit_value : ℕ → Option ℕ
digit_value c =
    if leb b'0' c && leb c b'9'
    then some (c - b'0')
    else if leb b'a' c && leb c b'z'
    then some (c - b'a' + 10)
    else if leb b'A' c && leb c b'Z'
    then some (c - b'A' + 10)
    else none

-- `none` is an access past the end of the object.
pub gobble : List ℕ → Option (List ℕ)
gobble [] = none
gobble (c ∷ s) = let rest = gobble s in if c == b' ' || c == 9 then rest else some (c ∷ s)

-- Is there a minus, and what follows the sign?
pub sign : List ℕ → Option (Bool × List ℕ)
sign [] = none
sign (c ∷ s) =
    if c == b'+' then some (false, s) else if c == b'-' then some (true, s) else some (false, c ∷ s)

-- The base that is used, and what follows its prefix.
pub prefix : ℕ → List ℕ → Option (ℕ × List ℕ)
prefix base [] = if base == 0 || base == 16 then none else some (base, [])
prefix base (c ∷ []) =
    if (base == 0 || base == 16) && c == b'0'
    then none
    else if base == 0
    then some (10, c ∷ [])
    else some (base, c ∷ [])
prefix base (c ∷ x ∷ s) =
    if (base == 0 || base == 16) && c == b'0' && x == b'x'
    then some (16, s)
    else if base == 0 && c == b'0'
    then some (8, x ∷ s)
    else if base == 0
    then some (10, c ∷ x ∷ s)
    else some (base, c ∷ x ∷ s)

-- The value so far is a signed 32-bit long; the source detects no overflow, and where `val * base + dig` overflows, which
-- C leaves undefined, this is `none`.
pub digits_from : (base val : ℕ) → List ℕ → Option (ℕ × List ℕ)
unfolding digit_value
digits_from base val [] = none
digits_from base val (c ∷ s) = elim (digit_value c) [
  | none ↦ some (val, c ∷ s)
  | some dig ↦
      let rest = digits_from base (val * base + dig) s in
      if leb base dig
      then some (val, c ∷ s)
      else if ltb (val * base + dig) (2 ^ 31)
      then rest
      else none
]

-- The result, as the 32-bit word of the long, and `*endptr`.
pub strtol : List ℕ → ℕ → Option (ℕ × List ℕ)
unfolding gobble sign prefix digits_from
strtol s base = elim (gobble s) [
  | none ↦ none
  | some s₁ ↦ elim (sign s₁) [
    | none ↦ none
    | some (neg, s₂) ↦ elim (prefix base s₂) [
      | none ↦ none
      | some (base', s₃) ↦ elim (digits_from base' 0 s₃) [
        | none ↦ none
        | some (val, s₄) ↦ some (if neg then (2 ^ 32 - val) % 2 ^ 32 else val, s₄)
      ]
    ]
  ]
]

-- `"0123456789abcdef"[d]`, whose terminator is the last byte of the object.
pub digit_char : ℕ → Option ℕ
digit_char d =
    if ltb d 10
    then some (b'0' + d)
    else if ltb d 16
    then some (b'a' + (d - 10))
    else if d == 16
    then some 0
    else none

-- `while (--width > 0) putch(padc, putdat)`
pub padding : (width padc : ℕ) → List ℕ
padding zero padc = []
padding (suc zero) padc = []
padding (suc (suc width)) padc = padc ∷ padding (suc width) padc

-- What `putch` was called with, in order; a width below 1 and a width of 0 do the same. `none` where the
-- recursion does not end in `fuel` calls, or a digit is read outside the table.
pub printnum_in : (fuel num base width padc : ℕ) → Option (List ℕ)
unfolding digit_char padding
printnum_in zero num base width padc = none
printnum_in (suc fuel) num base width padc =
    elim (if leb base num
      then printnum_in fuel (num / base) base (width - 1) padc
      else some (padding width padc)) [
        | none ↦ none
        | some out ↦ elim (digit_char (num % base)) [ none ↦ none | some c ↦ some (out ++ c ∷ []) ]
      ]

-- In a base of 2 or more each call has a smaller number, so `num + 1` calls are enough.
pub printnum : (num base width padc : ℕ) → Option (List ℕ)
unfolding printnum_in
printnum num base width padc = printnum_in (num + 1) num base width padc
