-- ===== src/Text/Move.antt =====
-- memset, memmove and memcpy of tp-parte4/lib/string.c, in the version with string instructions. Memory
-- is the byte at each address, and objects do not reach past the end of the address space.
use sistemas_operativos_2c.Common.{
  ℕ, zero, suc, ◌+◌, ◌-◌, ◌*◌, ◌/◌, ◌%◌, ◌<◌, ◌≤◌, ◌≡◌, ◌⊎◌, ◌&&◌, ltb, leb, ◌==◌, if◌then◌else◌,
  arith, ◌∙◌, ap,
}

-- The bytes of [d, d + n) come from `bytes`, by their distance from d.
abbrev pub placed : (ℕ → ℕ) → (d n : ℕ) → (ℕ → ℕ) → ℕ → ℕ
placed bytes d n m a = if leb d a && ltb a (d + n) then bytes (a - d) else m a

-- `rep movs` of units of u bytes: up from the starts, or down from the ends.
pub rep_movs_up : (u count s d : ℕ) → (ℕ → ℕ) → ℕ → ℕ
rep_movs_up u zero s d m = m
rep_movs_up u (suc count) s d m =
    rep_movs_up u count (s + u) (d + u) (placed (λ k. m (s + k)) d u m)

pub rep_movs_down : (u count s d : ℕ) → (ℕ → ℕ) → ℕ → ℕ
rep_movs_down u zero s d m = m
rep_movs_down u (suc count) s d m =
    rep_movs_down u count (s - u) (d - u) (placed (λ k. m (s - u + k)) (d - u) u m)

-- `rep stosb`; `rep stosl` of four copies of the byte.
pub rep_stos : (u count d c : ℕ) → (ℕ → ℕ) → ℕ → ℕ
rep_stos u zero d c m = m
rep_stos u (suc count) d c m = rep_stos u count (d + u) c (placed (λ k. c) d u m)

pub memset : (v c n : ℕ) → (ℕ → ℕ) → ℕ → ℕ
unfolding rep_stos
memset v c n m =
    if n == 0
    then m
    else if (v % 4 == 0) && (n % 4 == 0)
    then rep_stos 4 (n / 4) v (c % 256) m
    else rep_stos 1 n v (c % 256) m

pub memmove : (dst src n : ℕ) → (ℕ → ℕ) → ℕ → ℕ
unfolding rep_movs_up rep_movs_down
memmove d s n m =
    if ltb s d && ltb d (s + n)
    then if ((s + n) % 4 == 0) && ((d + n) % 4 == 0) && (n % 4 == 0)
      then rep_movs_down 4 (n / 4) (s + n) (d + n) m
      else rep_movs_down 1 n (s + n) (d + n) m
    else if (s % 4 == 0) && (d % 4 == 0) && (n % 4 == 0)
    then rep_movs_up 4 (n / 4) s d m
    else rep_movs_up 1 n s d m

pub memcpy : (dst src n : ℕ) → (ℕ → ℕ) → ℕ → ℕ
unfolding memmove
memcpy d s n m = memmove d s n m

ap_at : (m : ℕ → ℕ) (i j : ℕ) → i ≡ j → m i ≡ m j
ap_at m i j e = ap m e

rep_movs_up-placed :
    (u count s d : ℕ) (m : ℕ → ℕ) (a : ℕ)
    → (d ≤ s) ⊎ (s + u * count ≤ d)
    → rep_movs_up u count s d m a ≡ placed (λ k. m (s + k)) d (u * count) m a
unfolding rep_movs_up
rep_movs_up-placed u zero s d m a safe = ground arith
rep_movs_up-placed u (suc count) s d m a safe =
    let size : u * suc count ≡ u + u * count = omega arith in
    let index : d + u ≤ a → m (s + u + (a - (d + u))) ≡ m (s + (a - d)) =
      λ h. ap_at m (s + u + (a - (d + u))) (s + (a - d)) (omega (arith, h)) in
    rep_movs_up-placed u count (s + u) (d + u) (placed (λ k. m (s + k)) d u m) a
      (ground (arith, size, safe))
    ∙ ground (arith, size, safe, index)

rep_movs_down-placed :
    (u count s d : ℕ) (m : ℕ → ℕ) (a : ℕ)
    → s ≤ d
    → u * count ≤ s
    → rep_movs_down u count s d m a
      ≡ placed (λ k. m (s - u * count + k)) (d - u * count) (u * count) m a
unfolding rep_movs_down
rep_movs_down-placed u zero s d m a below fits = ground arith
rep_movs_down-placed u (suc count) s d m a below fits =
    let size : u * suc count ≡ u + u * count = omega arith in
    let index : d - u ≤ a
        → a < d
        → m (s - u + (a - (d - u))) ≡ m (s - u * suc count + (a - (d - u * suc count))) =
      λ h g.
        ap_at m (s - u + (a - (d - u))) (s - u * suc count + (a - (d - u * suc count)))
          (omega (arith, h, g, size, fits, below)) in
    let start : s - u - u * count ≡ s - u * suc count = omega (arith, size) in
    let start_d : d - u - u * count ≡ d - u * suc count = omega (arith, size) in
    rep_movs_down-placed u count (s - u) (d - u) (placed (λ k. m (s - u + k)) (d - u) u m) a
      (omega (arith, below)) (omega (arith, size, fits))
    ∙ ground (arith, size, below, fits, index, start, start_d)

rep_stos-placed :
    (u count d c : ℕ) (m : ℕ → ℕ) (a : ℕ)
    → rep_stos u count d c m a ≡ placed (λ k. c) d (u * count) m a
unfolding rep_stos
rep_stos-placed u zero d c m a = ground arith
rep_stos-placed u (suc count) d c m a =
    let size : u * suc count ≡ u + u * count = omega arith in
    rep_stos-placed u count (d + u) c (placed (λ k. c) d u m) a ∙ ground (arith, size)

-- The two copies of n bytes in whole units.
copied_up :
    (u count s d n : ℕ) (m : ℕ → ℕ) (a : ℕ)
    → u * count ≡ n
    → (d ≤ s) ⊎ (s + n ≤ d)
    → rep_movs_up u count s d m a ≡ placed (λ k. m (s + k)) d n m a
copied_up u count s d n m a whole safe =
    rep_movs_up-placed u count s d m a (ground (arith, whole, safe)) ∙ ground (arith, whole)

copied_down :
    (u count s d n : ℕ) (m : ℕ → ℕ) (a : ℕ)
    → u * count ≡ n
    → s ≤ d
    → rep_movs_down u count (s + n) (d + n) m a ≡ placed (λ k. m (s + k)) d n m a
copied_down u count s d n m a whole below =
    let source : s + n - u * count ≡ s = omega (arith, whole) in
    let target : d + n - u * count ≡ d = omega (arith, whole) in
    rep_movs_down-placed u count (s + n) (d + n) m a (omega (arith, below)) (omega (arith, whole))
    ∙ rw (source, target, whole)

-- memmove makes the n bytes at `d` those that were at `s`, however the two ranges overlap, and leaves
-- every other byte.
pub memmove-placed :
    (d s n : ℕ) (m : ℕ → ℕ) (a : ℕ)
    → memmove d s n m a ≡ (if leb d a && ltb a (d + n) then m (s + (a - d)) else m a)
unfolding memmove
memmove-placed d s n m a = ground (
  arith,
  copied_up 4 (n / 4) s d n m a,
  copied_up 1 n s d n m a,
  copied_down 4 (n / 4) s d n m a,
  copied_down 1 n s d n m a,
)

-- memset makes the n bytes at `v` the low byte of `c`, and leaves every other byte.
pub memset-placed :
    (v c n : ℕ) (m : ℕ → ℕ) (a : ℕ)
    → memset v c n m a ≡ (if leb v a && ltb a (v + n) then c % 256 else m a)
unfolding memset
memset-placed v c n m a =
    ground (arith, rep_stos-placed 4 (n / 4) v (c % 256) m a, rep_stos-placed 1 n v (c % 256) m a)
