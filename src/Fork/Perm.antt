-- ===== src/Fork/Perm.antt =====
-- The permission bits that fork of tp-parte4/lib/fork.c tests, keeps and changes.
use sistemas_operativos_2c.Common.{
  ℕ, ◌/◌, ◌-◌, ◌^◌, ◌<◌, ◌≡◌, refl, ap, sym, ◌∙◌, true, false, not, bit_and, ◌==◌, arith,
  if◌then◌else◌,
}
use sistemas_operativos_2c.Common.Bits.{
  digit, digit-le, digit-bit_and, digit_set, digit_clear, bit_and_pow-eq_zero, bit_and_unfold,
  bit_and-zero,
}
use sistemas_operativos_2c.Kernel.Syscall.{bad_perm}
use sistemas_operativos_2c.Fork.{has, cow}

pub has-digit : (k perm : ℕ) → has perm (2 ^ k) ≡ not (digit k perm == 0)
has-digit k perm = ap not (bit_and_pow-eq_zero k perm)

-- The bits that fork sets and clears.
pub cow-digit :
    (j perm : ℕ)
    → j < 32
    → digit j (cow perm) ≡ (if 11 == j then 1 else if 1 == j then 0 else digit j perm)
cow-digit j perm h =
    digit_set j 11 (bit_and perm (2 ^ 32 - 1 - 2))
    ∙ ap (λ x. if 11 == j then 1 else x) (digit_clear j 1 perm (omega arith) h)

pub kept-digit : (j perm : ℕ) → digit j 0xE07 ≡ 1 → digit j (bit_and perm 0xE07) ≡ digit j perm
kept-digit j perm e = omega (arith, digit-bit_and j perm 0xE07, e, digit-le j perm)

pub bad_perm-digit : (perm : ℕ) → digit 0 perm ≡ 1 → digit 2 perm ≡ 1 → bad_perm perm ≡ false
bad_perm-digit perm a b =
    let whole : bit_and perm 5 ≡ 5 = omega (
      arith,
      a,
      b,
      bit_and_unfold perm 5,
      bit_and_unfold (perm / 2) 2,
      bit_and_unfold (perm / 2 / 2) 1,
      bit_and-zero (perm / 2 / 2 / 2),
    ) in
    rw whole refl

pub has-cow :
    (perm : ℕ)
    → (has (cow perm) 2 ≡ false)
      × (has (cow perm) 0x800 ≡ true)
      × (has (cow perm) 0x400 ≡ has perm 0x400)
has-cow perm = (
  has-digit 1 (cow perm) ∙ ap (λ x. not (x == 0)) (cow-digit 1 perm (omega arith)),
  has-digit 11 (cow perm) ∙ ap (λ x. not (x == 0)) (cow-digit 11 perm (omega arith)),
  has-digit 10 (cow perm)
      ∙ ap (λ x. not (x == 0)) (cow-digit 10 perm (omega arith))
      ∙ sym (has-digit 10 perm),
)

pub has-kept :
    (perm : ℕ)
    → (has (bit_and perm 0xE07) 2 ≡ has perm 2)
      × (has (bit_and perm 0xE07) 0x800 ≡ has perm 0x800)
      × (has (bit_and perm 0xE07) 0x400 ≡ has perm 0x400)
has-kept perm = (
  has-digit 1 (bit_and perm 0xE07)
      ∙ ap (λ x. not (x == 0)) (kept-digit 1 perm refl)
      ∙ sym (has-digit 1 perm),
  has-digit 11 (bit_and perm 0xE07)
      ∙ ap (λ x. not (x == 0)) (kept-digit 11 perm refl)
      ∙ sym (has-digit 11 perm),
  has-digit 10 (bit_and perm 0xE07)
      ∙ ap (λ x. not (x == 0)) (kept-digit 10 perm refl)
      ∙ sym (has-digit 10 perm),
)
