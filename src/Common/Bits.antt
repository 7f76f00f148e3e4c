-- ===== src/Common/Bits.antt =====
-- What `&` and `|` do to one binary digit of a number, and to what is left above it.
use Prim.Native.Nat.{
  ℕ, zero, suc, ◌+◌, ◌-◌, ◌*◌, ◌/◌, ◌%◌, ◌^◌, ◌≤◌, ◌<◌, min, max, bit_and, bit_or, digits,
  bit_and-bitwise, bit_or-bitwise,
}
use mathlib.Core.Path.{◌≡◌, refl, ap, sym, ◌∙◌}
use native.Mathlib.Omega.{arith}
use native.Mathlib.Nat.{pow-suc, one-le-pow}
use sistemas_operativos_2c.Common.Tests.{◌==◌, if◌then◌else◌}

module _ (z : ℕ → ℕ) (f : ℕ → ℕ → ℕ) where
  -- Fuel that is at least the first number is as good as any other.
  digits_same : (n m a b : ℕ) → a ≤ n → a ≤ m → digits z f n a b ≡ digits z f m a b
  digits_same n m zero b p q = at_zero n ∙ back m
    where
      at_zero : (k : ℕ) → digits z f k 0 b ≡ z b
      at_zero zero = refl
      at_zero (suc k) = refl

      back : (k : ℕ) → z b ≡ digits z f k 0 b
      back zero = refl
      back (suc k) = refl
  digits_same zero m (suc a) b p q = absurd (omega arith)
  digits_same (suc n) zero (suc a) b p q = absurd (omega arith)
  digits_same (suc n) (suc m) (suc a) b p q =
      rw (digits_same n m (suc a / 2) (b / 2) (omega arith) (omega arith))

  -- An operation that is the recursion on digits does its work one digit at a time.
  one_digit :
      (op : ℕ → ℕ → ℕ)
      → ((x y : ℕ) → op x y ≡ digits z f x x y)
      → (x y : ℕ) → op (suc x) y ≡ op (suc x / 2) (y / 2) * 2 + f (suc x % 2) (y % 2)
  one_digit op means x y =
      let half = suc x / 2 in
      means (suc x) y
      ∙ ap (λ (t : ℕ). t * 2 + f (suc x % 2) (y % 2))
          (digits_same x half half (y / 2) (omega arith) (omega arith) ∙ sym (means half (y / 2)))

pub bit_or_unfold : (x y : ℕ) → bit_or x y ≡ bit_or (x / 2) (y / 2) * 2 + max (x % 2) (y % 2)
bit_or_unfold zero y = simp bit_or-bitwise (omega arith)
bit_or_unfold (suc x) y = one_digit (λ q. q) max bit_or bit_or-bitwise x y

pub bit_and_unfold : (x y : ℕ) → bit_and x y ≡ bit_and (x / 2) (y / 2) * 2 + min (x % 2) (y % 2)
bit_and_unfold zero y = simp bit_and-bitwise (omega arith)
bit_and_unfold (suc x) y = one_digit (λ q. 0) min bit_and bit_and-bitwise x y

-- The k-th binary digit, and what is left of a number without its k lowest digits.
abbrev pub digit : ℕ → ℕ → ℕ
digit zero a = a % 2
digit (suc k) a = digit k (a / 2)

abbrev pub above : ℕ → ℕ → ℕ
above zero a = a
above (suc k) a = above k (a / 2)

half-bit_or : (a b : ℕ) → bit_or a b / 2 ≡ bit_or (a / 2) (b / 2)
half-bit_or a b = omega (arith, bit_or_unfold a b)

half-bit_and : (a b : ℕ) → bit_and a b / 2 ≡ bit_and (a / 2) (b / 2)
half-bit_and a b = omega (arith, bit_and_unfold a b)

pub digit-bit_or : (k a b : ℕ) → digit k (bit_or a b) ≡ max (digit k a) (digit k b)
digit-bit_or zero a b = omega (arith, bit_or_unfold a b)
digit-bit_or (suc k) a b = rw (half-bit_or a b) (digit-bit_or k (a / 2) (b / 2))

pub digit-bit_and : (k a b : ℕ) → digit k (bit_and a b) ≡ min (digit k a) (digit k b)
digit-bit_and zero a b = omega (arith, bit_and_unfold a b)
digit-bit_and (suc k) a b = rw (half-bit_and a b) (digit-bit_and k (a / 2) (b / 2))

pub above-bit_or : (k a b : ℕ) → above k (bit_or a b) ≡ bit_or (above k a) (above k b)
above-bit_or zero a b = refl
above-bit_or (suc k) a b = rw (half-bit_or a b) (above-bit_or k (a / 2) (b / 2))

pub digit-le : (k a : ℕ) → digit k a ≤ 1
digit-le zero a = omega arith
digit-le (suc k) a = digit-le k (a / 2)

right_zero : (n x : ℕ) → x ≤ n → (bit_or x 0 ≡ x) × (bit_and x 0 ≡ 0)
right_zero n zero small = (refl, refl)
right_zero zero (suc x) small = absurd (omega arith)
right_zero (suc n) (suc x) small =
    let (either, both) = right_zero n (suc x / 2) (omega arith) in
    (omega (arith, bit_or_unfold (suc x) 0, either), omega (arith, bit_and_unfold (suc x) 0, both))

pub bit_or-zero : (x : ℕ) → bit_or x 0 ≡ x
bit_or-zero x = (right_zero x x (omega arith)).0

pub bit_and-zero : (x : ℕ) → bit_and x 0 ≡ 0
bit_and-zero x = (right_zero x x (omega arith)).1

half-pow : (k : ℕ) → 2 ^ suc k / 2 ≡ 2 ^ k
half-pow k = omega (arith, pow-suc 2 k)

-- `w & (1 << k)` is the k-th digit, in place.
pub bit_and_pow : (k a : ℕ) → bit_and a (2 ^ k) ≡ digit k a * 2 ^ k
bit_and_pow zero a = omega (arith, bit_and_unfold a 1, bit_and-zero (a / 2))
bit_and_pow (suc k) a =
    let above_it : bit_and (a / 2) (2 ^ suc k / 2) ≡ digit k (a / 2) * 2 ^ k =
      rw (half-pow k) (bit_and_pow k (a / 2)) in
    omega (
      arith,
      bit_and_unfold a (2 ^ suc k),
      pow-suc 2 k,
      above_it,
      ap (λ (t : ℕ). digit k (a / 2) * t) (pow-suc 2 k),
    )

-- The test `w & (1 << k)`.
pub bit_and_pow-eq_zero : (k a : ℕ) → (bit_and a (2 ^ k) == 0) ≡ (digit k a == 0)
bit_and_pow-eq_zero k a = ground (arith, bit_and_pow k a, one-le-pow k 2, digit-le k a)

pub digit-zero : (j : ℕ) → digit j 0 ≡ 0
digit-zero zero = refl
digit-zero (suc j) = digit-zero j

digit_pow : (j k : ℕ) → digit j (2 ^ k) ≡ (if k == j then 1 else 0)
digit_pow zero zero = refl
digit_pow zero (suc k) = ground (arith, pow-suc 2 k)
digit_pow (suc j) zero = ground (arith, digit-zero j)
digit_pow (suc j) (suc k) = rw (half-pow k) (digit_pow j k ∙ ground arith)

-- `w |= 1 << k` sets one digit and keeps the others.
pub digit_set : (j k w : ℕ) → digit j (bit_or w (2 ^ k)) ≡ (if k == j then 1 else digit j w)
digit_set j k w = ground (arith, digit-bit_or j w (2 ^ k), digit_pow j k, digit-le j w)

digit_ones : (w j : ℕ) → j < w → digit j (2 ^ w - 1) ≡ 1
digit_ones zero j h = absurd (omega arith)
digit_ones (suc w) zero h = omega (arith, pow-suc 2 w, one-le-pow w 2)
digit_ones (suc w) (suc j) h =
    let halved : (2 ^ suc w - 1) / 2 ≡ 2 ^ w - 1 = omega (arith, pow-suc 2 w) in
    rw halved (digit_ones w j (omega arith))

pow-lt : (w k : ℕ) → k < w → 2 ^ k < 2 ^ w
pow-lt zero k h = absurd (omega arith)
pow-lt (suc w) zero h = omega (arith, pow-suc 2 w, one-le-pow w 2)
pow-lt (suc w) (suc k) h = omega (arith, pow-suc 2 w, pow-suc 2 k, pow-lt w k (omega arith))

digit_mask : (w k j : ℕ) → k < w → j < w → digit j (2 ^ w - 1 - 2 ^ k) ≡ (if k == j then 0 else 1)
digit_mask zero k j h g = absurd (omega arith)
digit_mask (suc w) zero zero h g = omega (arith, pow-suc 2 w, one-le-pow w 2)
digit_mask (suc w) (suc k) zero h g =
    ground (arith, pow-suc 2 w, pow-suc 2 k, one-le-pow k 2, pow-lt w k (omega arith))
digit_mask (suc w) zero (suc j) h g =
    let halved : (2 ^ suc w - 1 - 2 ^ 0) / 2 ≡ 2 ^ w - 1 = omega (arith, pow-suc 2 w) in
    rw halved (digit_ones w j (omega arith) ∙ ground arith)
digit_mask (suc w) (suc k) (suc j) h g =
    let halved : (2 ^ suc w - 1 - 2 ^ suc k) / 2 ≡ 2 ^ w - 1 - 2 ^ k =
      omega (arith, pow-suc 2 w, pow-suc 2 k) in
    rw halved (digit_mask w k j (omega arith) (omega arith) ∙ ground arith)

-- `w &= ~(1 << k)` on a 32-bit word clears one digit and keeps the others.
pub digit_clear :
    (j k w : ℕ)
    → k < 32
    → j < 32
    → digit j (bit_and w (2 ^ 32 - 1 - 2 ^ k)) ≡ (if k == j then 0 else digit j w)
digit_clear j k w h g =
    ground (arith, digit-bit_and j w (2 ^ 32 - 1 - 2 ^ k), digit_mask 32 k j h g, digit-le j w)

-- `(q << k) | r` is a sum where `r` fits in the lowest k digits.
pub bit_or_low : (k q r : ℕ) → r < 2 ^ k → bit_or (q * 2 ^ k) r ≡ q * 2 ^ k + r
bit_or_low zero q r fits = ground (arith, bit_or-zero q)
bit_or_low (suc k) q r fits =
    let whole : q * 2 ^ suc k ≡ 2 * (q * 2 ^ k) =
      omega (arith, ap (λ (t : ℕ). q * t) (pow-suc 2 k)) in
    let halved : q * 2 ^ suc k / 2 ≡ q * 2 ^ k = omega (arith, whole) in
    let upper : bit_or (q * 2 ^ suc k / 2) (r / 2) ≡ q * 2 ^ k + r / 2 =
      rw halved (bit_or_low k q (r / 2) (omega (arith, pow-suc 2 k))) in
    omega (arith, bit_or_unfold (q * 2 ^ suc k) r, whole, upper)
