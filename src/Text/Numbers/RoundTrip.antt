-- ===== src/Text/Numbers/RoundTrip.antt =====
-- strtol of tp-parte4/lib/string.c reads what printnum of tp-parte4/lib/printfmt.c writes.
use sistemas_operativos_2c.Common.{
  append_assoc, ◌≡⟨◌⟩◌, ◌∎, ℕ, zero, suc, ◌+◌, ◌-◌, ◌*◌, ◌/◌, ◌%◌, ◌^◌, ◌<◌, ◌≤◌, ◌≡◌, refl, true,
  false, some, List, [], ◌∷◌, ◌++◌, ltb, leb, if◌then◌else◌, All, arith, ap, sym, ◌∙◌, Bool-cases,
  inl, inr, subst,
}
use native.Mathlib.Nat.{mul-le-mul_left, div-add-mod', mod-lt, div-lt_self, mod-eq_of_lt}
use sistemas_operativos_2c.Text.Numbers.{
  digit_value, gobble, sign, prefix, digits_from, strtol, digit_char, padding, printnum_in,
  printnum,
}

-- The character of a digit below 16.
abbrev char_of : ℕ → ℕ
char_of d = if ltb d 10 then b'0' + d else b'a' + (d - 10)

digit_char-char_of : (d : ℕ) → d < 16 → digit_char d ≡ some (char_of d)
unfolding digit_char
digit_char-char_of d h = ground (arith, h)

digit_value-char_of : (d : ℕ) → d < 16 → digit_value (char_of d) ≡ some d
unfolding digit_value
digit_value-char_of d h = ground (arith, h)

-- The number that digits stand for, as digits_from sums it.
abbrev value : (base val : ℕ) → List ℕ → ℕ
value base val [] = val
value base val (d ∷ ds) = value base (val * base + d) ds

value-append :
    (base val d : ℕ) (ds : List ℕ) → value base val (ds ++ d ∷ []) ≡ value base val ds * base + d
value-append base val d [] = refl
value-append base val d (x ∷ ds) = value-append base (val * base + x) d ds

-- The sum never falls.
value-grows : (base val : ℕ) (ds : List ℕ) → 1 ≤ base → val ≤ value base val ds
value-grows base val [] h = omega arith
value-grows base val (d ∷ ds) h =
    omega (arith, mul-le-mul_left val h, value-grows base (val * base + d) ds h)

abbrev chars : List ℕ → List ℕ
chars [] = []
chars (d ∷ ds) = char_of d ∷ chars ds

chars-append : (ds : List ℕ) (d : ℕ) → chars (ds ++ d ∷ []) ≡ chars ds ++ char_of d ∷ []
chars-append [] d = refl
chars-append (x ∷ ds) d = ap (λ l. char_of x ∷ l) (chars-append ds d)

All-append_one :
    (b d : ℕ) (ds : List ℕ) → All (λ x. x < b) ds → d < b → All (λ x. x < b) (ds ++ d ∷ [])
All-append_one b d [] a h = (h, tt)
All-append_one b d (x ∷ ds) a h = (a.0, All-append_one b d ds a.1 h)

digits_from-chars :
    (base val : ℕ) (ds r : List ℕ)
    → base ≤ 16
    → All (λ x. x < base) ds
    → 1 ≤ base
    → value base val ds < 2 ^ 31
    → digits_from base val (chars ds ++ 0 ∷ r) ≡ some (value base val ds, 0 ∷ r)
unfolding digits_from digit_value
digits_from-chars base val [] r h a h1 hv = refl
digits_from-chars base val (d ∷ ds) r h a h1 hv =
    let fits : val * base + d < 2 ^ 31 =
      omega (arith, value-grows base (val * base + d) ds h1, hv) in
    rw (digit_value-char_of d (omega (arith, a.0, h)), digits_from)
      (ground (arith, a.0, fits, digits_from-chars base (val * base + d) ds r h a.1 h1 hv))

abbrev blanks : ℕ → List ℕ
blanks zero = []
blanks (suc k) = b' ' ∷ blanks k

padding-blanks : (width : ℕ) → (k : ℕ) × (padding width b' ' ≡ blanks k)
unfolding padding
padding-blanks zero = (0, refl)
padding-blanks (suc zero) = (0, refl)
padding-blanks (suc (suc width)) =
    let e = padding-blanks (suc width) in (suc (e.0), ap (λ l. b' ' ∷ l) (e.1))

-- What printnum writes: blanks, then the digits of the number, of which there is a first one.
abbrev Prints : (num base : ℕ) → List ℕ → Type 0
Prints num base out =
    (k d : ℕ) × (ds : List ℕ) × (out ≡ blanks k ++ chars (d ∷ ds))
    × All (λ x. x < base) (d ∷ ds)
    × (value base 0 (d ∷ ds) ≡ num)

-- One call more writes the last digit.
Prints-digit :
    (num base : ℕ) (out : List ℕ)
    → num < 2 ^ 31
    → 2 ≤ base
    → Prints (num / base) base out
    → Prints num base (out ++ char_of (num % base) ∷ [])
Prints-digit num base out hn h2 (k, d, ds, e, a, v) = (
  k,
  d,
  ds ++ num % base ∷ [],
  (out ++ char_of (num % base) ∷ [])
      ≡⟨ ap (λ l. l ++ char_of (num % base) ∷ []) e ⟩
        ((blanks k ++ chars (d ∷ ds)) ++ char_of (num % base) ∷ [])
      ≡⟨ append_assoc (blanks k) _ _ ⟩ (blanks k ++ (chars (d ∷ ds) ++ char_of (num % base) ∷ []))
      ≡⟨ ap (λ l. blanks k ++ l) (sym (chars-append (d ∷ ds) (num % base))) ⟩
        (blanks k ++ chars (d ∷ ds ++ num % base ∷ [])) ∎,
  All-append_one base (num % base) (d ∷ ds) a (mod-lt num (omega arith)),
  value-append base 0 (num % base) (d ∷ ds)
      ∙ ap (λ x. x * base + num % base) v
      ∙ omega (arith, div-add-mod' num base),
)

Prints-first :
    (num base width : ℕ)
    → num < 2 ^ 31
    → num < base
    → Prints num base (padding width b' ' ++ char_of num ∷ [])
Prints-first num base width hn h =
    let (k, e) = padding-blanks width in
    (k, num, [], ap (λ l. l ++ char_of num ∷ []) e, (h, tt), omega arith)

printnum_in-step :
    (fuel num base width : ℕ) (out : List ℕ) {c : ℕ}
    → leb base num ≡ true
    → printnum_in fuel (num / base) base (width - 1) b' ' ≡ some out
    → digit_char (num % base) ≡ some c
    → printnum_in (suc fuel) num base width b' ' ≡ some (out ++ c ∷ [])
unfolding printnum_in
printnum_in-step fuel num base width out ge e ec = rw (printnum_in, ge, e, ec) refl

printnum_in-last :
    (fuel num base width : ℕ) {c : ℕ}
    → leb base num ≡ false
    → num % base ≡ num
    → digit_char num ≡ some c
    → printnum_in (suc fuel) num base width b' ' ≡ some (padding width b' ' ++ c ∷ [])
unfolding printnum_in
printnum_in-last fuel num base width lt m ec = rw (printnum_in, lt, m, ec) refl

printnum_in-Prints :
    (fuel num base width : ℕ)
    → num < fuel
    → num < 2 ^ 31
    → 2 ≤ base
    → base ≤ 16
    → (out : List ℕ) × (printnum_in fuel num base width b' ' ≡ some out) × Prints num base out
unfolding printnum_in
printnum_in-Prints zero num base width hf hn h2 h16 = absurd (omega arith)
printnum_in-Prints (suc fuel) num base width hf hn h2 h16 = elim (Bool-cases (leb base num)) [
  | inl ge ↦
      let lt : num / base < num = div-lt_self (ground arith) (omega arith) in
      let (out, e, p) =
        printnum_in-Prints fuel (num / base) base (width - 1) (omega arith) (omega arith) h2 h16 in
      (
        out ++ char_of (num % base) ∷ [],
        printnum_in-step fuel num base width out ge e
            (digit_char-char_of (num % base) (omega (arith, mod-lt num {m = base}, h2, h16))),
        Prints-digit num base out hn h2 p,
      )
  | inr lt ↦
      let l : num < base = ground arith in
      (
        padding width b' ' ++ char_of num ∷ [],
        printnum_in-last fuel num base width lt (mod-eq_of_lt l)
            (digit_char-char_of num (omega arith)),
        Prints-first num base width hn l,
      )
]

gobble-blanks : (k : ℕ) (s : List ℕ) → gobble (blanks k ++ s) ≡ gobble s
unfolding gobble
gobble-blanks zero s = refl
gobble-blanks (suc k) s = gobble-blanks k s

gobble-char_of : (d : ℕ) (s : List ℕ) → d < 16 → gobble (char_of d ∷ s) ≡ some (char_of d ∷ s)
unfolding gobble
gobble-char_of d s h = ground (arith, h)

sign-char_of : (d : ℕ) (s : List ℕ) → d < 16 → sign (char_of d ∷ s) ≡ some (false, char_of d ∷ s)
unfolding sign
sign-char_of d s h = ground (arith, h)

-- No digit is an x.
prefix-chars :
    (base d : ℕ) (ds r : List ℕ)
    → 2 ≤ base
    → base ≤ 16
    → All (λ x. x < base) (d ∷ ds)
    → prefix base (chars (d ∷ ds) ++ 0 ∷ r) ≡ some (base, chars (d ∷ ds) ++ 0 ∷ r)
unfolding prefix
prefix-chars base d [] r h2 h16 a = ground (arith, h2)
prefix-chars base d (x ∷ ds) r h2 h16 a = ground (arith, h2, h16, a.1)

strtol-eq :
    (base num : ℕ) (s : List ℕ) {s₁ s₂ s₃ s₄ : List ℕ}
    → gobble s ≡ some s₁
    → sign s₁ ≡ some (false, s₂)
    → prefix base s₂ ≡ some (base, s₃)
    → digits_from base 0 s₃ ≡ some (num, s₄)
    → strtol s base ≡ some (num, s₄)
unfolding strtol
strtol-eq base num s g h p d = rw (strtol, g, h, p, d) refl

-- strtol in the same base reads back the number that printnum wrote, padded with blanks to any width,
-- and stops at the terminator: for bases from 2 to 16 and numbers below 2 ^ 31.
pub strtol-printnum :
    (num base width : ℕ) (r : List ℕ)
    → num < 2 ^ 31
    → 2 ≤ base
    → base ≤ 16
    → (out : List ℕ) × (printnum num base width b' ' ≡ some out)
      × (strtol (out ++ 0 ∷ r) base ≡ some (num, 0 ∷ r))
unfolding strtol printnum
strtol-printnum num base width r hn h2 h16 =
    let (out, e, (k, d, ds, eo, a, v)) =
      printnum_in-Prints (num + 1) num base width (omega arith) hn h2 h16 in
    let whole : gobble (out ++ 0 ∷ r) ≡ some (chars (d ∷ ds) ++ 0 ∷ r) =
      ap (λ l. gobble (l ++ 0 ∷ r)) eo
      ∙ ap gobble (append_assoc (blanks k) (chars (d ∷ ds)) (0 ∷ r))
      ∙ gobble-blanks k (chars (d ∷ ds) ++ 0 ∷ r)
      ∙ gobble-char_of d (chars ds ++ 0 ∷ r) (omega (arith, a.0)) in
    (
      out,
      e,
      strtol-eq base num (out ++ 0 ∷ r) whole
          (sign-char_of d (chars ds ++ 0 ∷ r) (omega (arith, a.0)))
          (prefix-chars base d ds r h2 h16 a)
          (digits_from-chars base 0 (d ∷ ds) r h16 a (omega (arith, h2))
              (subst (λ x. x < 2 ^ 31) (sym v) hn)
            ∙ ap (λ x. some (x, 0 ∷ r)) v),
    )
