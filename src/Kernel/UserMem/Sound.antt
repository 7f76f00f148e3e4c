-- ===== src/Kernel/UserMem/Sound.antt =====
-- What user_mem_check of tp-parte4/kern/pmap.c establishes.
use sistemas_operativos_2c.Common.{
  ℕ, zero, suc, ◌+◌, ◌-◌, ◌*◌, ◌/◌, ◌%◌, ◌^◌, ◌<◌, ◌≤◌, ◌≡◌, ◌≢◌, false, some, none, bit_and, arith,
  Option-cases, inl, inr, subst, sym, ap,
}
use mathlib.Core.Path.{ap₂}
use sistemas_operativos_2c.Layout.{ulim}
use sistemas_operativos_2c.Memory.{Mem, pgdir_walk, ptx, pte_p}
use sistemas_operativos_2c.Memory.Walk.{entry, slot, pgdir_walk-found}
use sistemas_operativos_2c.Kernel.Env.{rounddown, roundup}
use sistemas_operativos_2c.Kernel.UserMem.{is_bad, check_pages, user_mem_check}

-- The user may use the address: it is below ULIM and its page is mapped with the permissions.
pub record IsAccessible (m : Mem) (pgdir perm a : ℕ) : Type 0 where
  pub below : a < ulim
  pub tabled : entry m pgdir a ≢ 0
  pub present : bit_and (slot m pgdir a) pte_p ≢ 0
  pub allowed : bit_and (slot m pgdir a) perm ≡ perm

check_pages-step :
    (pgdir va perm rounds i : ℕ) (m m' : Mem)
    → check_pages pgdir va perm (suc rounds) i m ≡ some (none, m')
    → IsAccessible m pgdir perm i
      × (check_pages pgdir va perm rounds (i + 4096) m ≡ some (none, m'))
unfolding check_pages
check_pages-step pgdir va perm rounds i m m' h = elim (Option-cases (pgdir_walk pgdir i false m)) [
  | inl e ↦ absurd (ground (arith, h, e))
  | inr ((none, m₁), e) ↦ absurd (ground (arith, h, e))
  | inr ((some (t, j), m₁), e) ↦
      let (same, is_table, is_index, there) = pgdir_walk-found m m₁ pgdir i t j e in
      let passes : is_bad (some (t, j)) i perm m₁ ≡ false = ground (arith, h, e) in
      let cell : slot m pgdir i ≡ m₁.word t j = cc (ap (λ (x : Mem). x.word) same) in
      let later : check_pages pgdir va perm rounds (i + 4096) m₁ ≡ some (none, m') =
        ground (arith, h, e) in
      (
        record {
          below = ground (arith, passes);
          tabled = there;
          present = ground (arith, passes, cell);
          allowed = ground (arith, passes, cell);
        },
        subst (λ x. check_pages pgdir va perm rounds (i + 4096) x ≡ some (none, m')) (sym same)
            later,
      )
]

check_pages-all :
    (pgdir va perm rounds i : ℕ) (m m' : Mem)
    → check_pages pgdir va perm rounds i m ≡ some (none, m')
    → (j : ℕ) → j < rounds
    → IsAccessible m pgdir perm (i + j * 4096)
check_pages-all pgdir va perm zero i m m' h j lt = absurd (omega arith)
check_pages-all pgdir va perm (suc rounds) i m m' h zero lt =
    subst (IsAccessible m pgdir perm) (omega arith)
      (check_pages-step pgdir va perm rounds i m m' h).0
check_pages-all pgdir va perm (suc rounds) i m m' h (suc j) lt =
    subst (IsAccessible m pgdir perm) (omega arith) (
      check_pages-all pgdir va perm rounds (i + 4096) m m'
        (check_pages-step pgdir va perm rounds i m m' h).1 j (omega arith))

-- Addresses of one page have the same entries.
same_page :
    (m : Mem) (pgdir perm a : ℕ)
    → IsAccessible m pgdir perm (a / 4096 * 4096)
    → IsAccessible m pgdir perm a
same_page m pgdir perm a h = record {
  below = omega (arith, h.below);
  tabled = subst (λ d. m.word pgdir d ≢ 0) dir h.tabled;
  present = subst (λ w. bit_and w pte_p ≢ 0) cell h.present;
  allowed = subst (λ w. bit_and w perm ≡ perm) cell h.allowed;
}
  where
    dir : a / 4096 * 4096 / 2 ^ 22 % 1024 ≡ a / 2 ^ 22 % 1024
    dir = omega arith

    index : ptx (a / 4096 * 4096) ≡ ptx a
    index = omega arith

    cell : slot m pgdir (a / 4096 * 4096) ≡ slot m pgdir a
    cell = ap₂ (λ (d i : ℕ). m.word (m.word pgdir d / 2 ^ 12) i) dir index

-- Where va + len + 4095 is below 2 ^ 32, so that neither the range nor the rounding of its end wraps, a check that returns 0 has established that every
-- address of [va, va + len) is below ULIM and mapped with the permissions.
pub user_mem_check_sound :
    (pgdir va len perm a : ℕ) (m m' : Mem)
    → va + len + 4095 < 2 ^ 32
    → user_mem_check pgdir va len perm m ≡ some (none, m')
    → va ≤ a
    → a < va + len
    → IsAccessible m pgdir perm a
unfolding user_mem_check
user_mem_check_sound pgdir va len perm a m m' fits h lo hi = same_page m pgdir perm a (
    subst (IsAccessible m pgdir perm) (omega (arith, lo)) (
      check_pages-all pgdir va perm _ (rounddown va 4096) m m' h (a / 4096 - va / 4096)
        (omega (arith, lo, hi, fits))))

-- Where va is below 2 ^ 32 and va + len wraps to an address at or below the start of the page of va, the check looks at no
-- page and returns 0, whatever is mapped.
pub user_mem_check-wraps :
    (pgdir va len perm : ℕ) (m : Mem)
    → 2 ^ 32 ≤ va + len
    → va + len ≤ 2 ^ 32 + rounddown va 4096
    → va < 2 ^ 32
    → user_mem_check pgdir va len perm m ≡ some (none, m)
unfolding user_mem_check check_pages
user_mem_check-wraps pgdir va len perm m wraps small low = rw no_rounds
  where
    no_rounds : (roundup ((va + len) % 2 ^ 32) 4096 - rounddown va 4096) / 4096 ≡ 0
    no_rounds = omega (arith, wraps, small, low)
