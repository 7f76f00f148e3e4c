-- ===== src/Fs/Bitmap.antt =====
-- alloc_block and free_block of tp-parte4/fs/fs.c: what they do to block_is_free.
use sistemas_operativos_2c.Common.{
  ℕ, zero, suc, ◌+◌, ◌-◌, ◌/◌, ◌%◌, ◌^◌, ◌<◌, ◌≤◌, ◌≡◌, ◌≢◌, inl, inr, refl, true, false, not, some,
  bit_and, bit_or, update, ltb, leb, ◌==◌, if◌then◌else◌, Bool-cases, ==_ne, update_self, update_ne,
  arith, subst, ap, sym, ◌∙◌,
}
use sistemas_operativos_2c.Common.Bits.{digit, digit_set, digit_clear, bit_and_pow-eq_zero}
use sistemas_operativos_2c.Errors.{no_disk, ok, err}
use native.Mathlib.Decide.{ℕ_discrete}
use sistemas_operativos_2c.Fs.{
  Store, s_nblocks, stored, bitmap, block_is_free, free_block, taken, alloc_from, alloc_block,
  disk_blocks, diskaddr, flush_block, ◌>>=◌,
}

-- A write to the word of block `b` in the bitmap.
abbrev marked : ℕ → ℕ → Store → Store
marked b v d = stored (2 + b / 32 / 1024) (b / 32 % 1024) v d

same_word : (b n v : ℕ) (d : Store) → b / 32 ≡ n / 32 → bitmap (marked b v d) (n / 32) ≡ v
same_word b n v d e = ground (arith, e)

other_word :
    (b n v : ℕ) (d : Store) → b / 32 ≢ n / 32 → bitmap (marked b v d) (n / 32) ≡ bitmap d (n / 32)
other_word b n v d e = ground (arith, e)

keeps_nblocks : (b v : ℕ) (d : Store) → s_nblocks (marked b v d) ≡ s_nblocks d
keeps_nblocks b v d = ground arith

pub block_is_free-digit :
    (n : ℕ) (d : Store)
    → block_is_free n d
      ≡ (if leb (s_nblocks d) n then false else not (digit (n % 32) (bitmap d (n / 32)) == 0))
unfolding block_is_free
block_is_free-digit n d = rw (bit_and_pow-eq_zero (n % 32) (bitmap d (n / 32)))

-- After alloc_block took block `b`, the bitmap differs at `b` alone.
pub block_is_free-taken :
    (b n : ℕ) (d : Store)
    → block_is_free n (taken b d) ≡ (if b == n then false else block_is_free n d)
block_is_free-taken b n d = elim (ℕ_discrete (b / 32) (n / 32)) [
  | yes e ↦ ground (
    arith,
    block_is_free-digit n d,
    block_is_free-digit n (taken b d),
    same_word b n (bit_and (bitmap d (b / 32)) (2 ^ 32 - 1 - 2 ^ (b % 32))) d e,
    digit_clear (n % 32) (b % 32) (bitmap d (b / 32)),
    ap (bitmap d) e,
  )
  | no ne ↦ ground (
    arith,
    block_is_free-digit n d,
    block_is_free-digit n (taken b d),
    other_word b n (bit_and (bitmap d (b / 32)) (2 ^ 32 - 1 - 2 ^ (b % 32))) d ne,
  )
]

-- The store after free_block.
abbrev pub freed : ℕ → Store → Store
freed b d = marked b (bit_or (bitmap d (b / 32)) (2 ^ (b % 32))) d

pub free_block-frees : (b : ℕ) (d : Store) → b ≢ 0 → free_block b d ≡ some (tt, freed b d)
unfolding free_block
free_block-frees b d h = rw (==_ne b 0 h)

-- Afterwards the bitmap differs at `b` alone.
pub block_is_free-freed :
    (b n : ℕ) (d : Store)
    → block_is_free n (freed b d) ≡ (if b == n then ltb n (s_nblocks d) else block_is_free n d)
block_is_free-freed b n d = elim (ℕ_discrete (b / 32) (n / 32)) [
  | yes e ↦ ground (
    arith,
    block_is_free-digit n d,
    block_is_free-digit n (freed b d),
    same_word b n (bit_or (bitmap d (b / 32)) (2 ^ (b % 32))) d e,
    digit_set (n % 32) (b % 32) (bitmap d (b / 32)),
    ap (bitmap d) e,
  )
  | no ne ↦ ground (
    arith,
    block_is_free-digit n d,
    block_is_free-digit n (freed b d),
    other_word b n (bit_or (bitmap d (b / 32)) (2 ^ (b % 32))) d ne,
  )
]

-- free_block of a block other than 0 does not panic; afterwards that block is free, if the disk has
-- it, and each other block is free exactly when it was.
pub free_block-block_is_free :
    (b : ℕ) (d : Store)
    → b ≢ 0
    → (d' : Store) × (free_block b d ≡ some (tt, d'))
      × ((n : ℕ) → block_is_free n d' ≡ (if b == n then ltb n (s_nblocks d) else block_is_free n d))
free_block-block_is_free b d h = (freed b d, free_block-frees b d h, λ n. block_is_free-freed b n d)

alloc_from-full :
    (rounds i : ℕ) (d : Store)
    → ((n : ℕ) → i ≤ n → n < i + rounds → block_is_free n d ≡ false)
    → alloc_from rounds i d ≡ some (err no_disk, d)
unfolding alloc_from
alloc_from-full zero i d none_free = refl
alloc_from-full (suc rounds) i d none_free =
    rw (none_free i (omega arith) (omega arith))
      (alloc_from-full rounds (i + 1) d λ n lo hi. none_free n (omega arith) (omega arith))

-- Where no block is free, alloc_block fails with E_NO_DISK and changes nothing.
pub alloc_block-full :
    (d : Store)
    → ((n : ℕ) → n < s_nblocks d → block_is_free n d ≡ false)
    → alloc_block d ≡ some (err no_disk, d)
unfolding alloc_block
alloc_block-full d none_free =
    alloc_from-full (s_nblocks d) 0 d λ n lo hi. none_free n (omega arith)

-- flush_block of the block that was allocated.
abbrev pub written_back : ℕ → Store → Store
written_back b d =
    if not (d.dirty b)
    then d
    else record d { disk = update d.disk b (d.word b); dirty = update d.dirty b false }

pub flush_block-written_back :
    (b : ℕ) (d : Store) → b < disk_blocks → flush_block b d ≡ some (tt, written_back b d)
unfolding flush_block
flush_block-written_back b d h = ground (arith, h)

alloc_from-hit :
    (rounds b : ℕ) (d : Store)
    → b ≢ 0
    → b < s_nblocks d
    → s_nblocks d ≤ disk_blocks
    → block_is_free b d ≡ true
    → alloc_from (suc rounds) b d ≡ some (ok b, written_back b (taken b d))
unfolding alloc_from diskaddr
alloc_from-hit rounds b d pos inside small is_free =
    let nb = keeps_nblocks b (bit_and (bitmap d (b / 32)) (2 ^ 32 - 1 - 2 ^ (b % 32))) d in
    let there : diskaddr b (taken b d) ≡ some (b, taken b d) = ground (arith, pos, inside, nb) in
    rw (is_free) (
      rw (there, ◌>>=◌)
        (rw (flush_block-written_back b (taken b d) (omega (arith, inside, small)), ◌>>=◌)))

alloc_from-first :
    (rounds i b : ℕ) (d : Store)
    → i ≤ b
    → b < i + rounds
    → b ≢ 0
    → b < s_nblocks d
    → s_nblocks d ≤ disk_blocks
    → block_is_free b d ≡ true
    → ((n : ℕ) → i ≤ n → n < b → block_is_free n d ≡ false)
    → alloc_from rounds i d ≡ some (ok b, written_back b (taken b d))
unfolding alloc_from
alloc_from-first zero i b d lo hi pos inside small is_free before = absurd (omega arith)
alloc_from-first (suc rounds) i b d lo hi pos inside small is_free before = elim (ℕ_discrete i b) [
  | yes e ↦
      subst (λ i. alloc_from (suc rounds) i d ≡ some (ok b, written_back b (taken b d))) (sym e)
        (alloc_from-hit rounds b d pos inside small is_free)
  | no ne ↦ rw (before i (omega arith) (omega (arith, ne, lo))) (
      alloc_from-first rounds (i + 1) b d (omega (arith, ne, lo)) (omega arith) pos inside small
        is_free λ n lo hi. before n (omega arith) hi)
]

pub block_is_free-written_back :
    (b n : ℕ) (d : Store) → block_is_free n (written_back b d) ≡ block_is_free n d
unfolding block_is_free
block_is_free-written_back b n d = elim (Bool-cases (d.dirty b)) [ inl e ↦ rw e | inr e ↦ rw e ]

pub written_back-others :
    (b x : ℕ) (d : Store)
    → b ≢ x
    → ((written_back b d).dirty x ≡ d.dirty x) × ((written_back b d).disk x ≡ d.disk x)
written_back-others b x d ne = elim (Bool-cases (d.dirty b)) [
  | inl e ↦ rw e (update_ne d.dirty b false x ne, update_ne d.disk b (d.word b) x ne)
  | inr e ↦ rw e (refl, refl)
]

pub written_back-word : (b : ℕ) (d : Store) → (written_back b d).word ≡ d.word
written_back-word b d = elim (Bool-cases (d.dirty b)) [ inl e ↦ rw e | inr e ↦ rw e ]

pub diskaddr-inside : (b : ℕ) (d : Store) → b ≢ 0 → b < s_nblocks d → diskaddr b d ≡ some (b, d)
unfolding diskaddr
diskaddr-inside b d pos inside = ground (arith, pos, inside)

pub block_is_free-inside : (b : ℕ) (d : Store) → block_is_free b d ≡ true → b < s_nblocks d
block_is_free-inside b d h = ground (arith, h, block_is_free-digit b d)

pub alloc_block-at :
    (b : ℕ) (d : Store)
    → s_nblocks d ≤ disk_blocks
    → b ≢ 0
    → block_is_free b d ≡ true
    → ((n : ℕ) → n < b → block_is_free n d ≡ false)
    → alloc_block d ≡ some (ok b, written_back b (taken b d))
unfolding alloc_block
alloc_block-at b d small pos is_free before =
    let inside = block_is_free-inside b d is_free in
    alloc_from-first (s_nblocks d) 0 b d (omega arith) (omega (arith, inside)) pos inside small
      is_free λ n lo hi. before n hi

-- On a disk whose size passed check_super, alloc_block returns the lowest free block, where that is
-- not block 0. Afterwards that block is in use, and each other one is free exactly when it was.
pub alloc_block-first :
    (b : ℕ) (d : Store)
    → s_nblocks d ≤ disk_blocks
    → b ≢ 0
    → block_is_free b d ≡ true
    → ((n : ℕ) → n < b → block_is_free n d ≡ false)
    → (d' : Store) × (alloc_block d ≡ some (ok b, d'))
      × ((n : ℕ) → block_is_free n d' ≡ (if b == n then false else block_is_free n d))
alloc_block-first b d small pos is_free before = (
  written_back b (taken b d),
  alloc_block-at b d small pos is_free before,
  λ n. block_is_free-written_back b n (taken b d) ∙ block_is_free-taken b n d,
)

-- alloc_block flushes the block that it allocates, not the block of the bitmap that it changes: that
-- one stays dirty and as it was on the disk.
pub alloc_block-bitmap_not_flushed :
    (b : ℕ) (d : Store)
    → s_nblocks d ≤ disk_blocks
    → b ≢ 0
    → b ≢ 2 + b / 32 / 1024
    → block_is_free b d ≡ true
    → ((n : ℕ) → n < b → block_is_free n d ≡ false)
    → (d' : Store) × (alloc_block d ≡ some (ok b, d'))
      × (d'.dirty (2 + b / 32 / 1024) ≡ true)
      × (d'.disk (2 + b / 32 / 1024) ≡ d.disk (2 + b / 32 / 1024))
alloc_block-bitmap_not_flushed b d small pos apart is_free before = (
  written_back b (taken b d),
  alloc_block-at b d small pos is_free before,
  kept.0 ∙ update_self d.dirty (2 + b / 32 / 1024) true,
  kept.1,
)
  where
    kept :
        ((written_back b (taken b d)).dirty (2 + b / 32 / 1024)
          ≡ (taken b d).dirty (2 + b / 32 / 1024))
        × ((written_back b (taken b d)).disk (2 + b / 32 / 1024) ≡ d.disk (2 + b / 32 / 1024))
    kept = written_back-others b (2 + b / 32 / 1024) (taken b d) apart
