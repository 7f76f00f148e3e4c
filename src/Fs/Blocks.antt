-- ===== src/Fs/Blocks.antt =====
-- file_get_block and file_free_block of tp-parte4/fs/fs.c on the direct blocks of a file.
use sistemas_operativos_2c.Common.{
  ℕ, ◌+◌, ◌/◌, ◌%◌, ◌<◌, ◌≤◌, ◌≡◌, ◌≢◌, Bool, true, false, some, update, ltb, ◌==◌, if◌then◌else◌,
  ==_ne, update_ne, arith, ap, sym, ◌∙◌,
}
use native.Mathlib.Decide.{dec_lt}
use sistemas_operativos_2c.Errors.{inval, not_found, ok, err}
use sistemas_operativos_2c.Fs.{
  Store, s_nblocks, stored, disk_blocks, diskaddr, flush_block, ◌>>=◌, block_is_free, taken,
  file_block_walk, file_get_block, file_free_block, indirect_of,
}
use sistemas_operativos_2c.Fs.Bitmap.{
  written_back, flush_block-written_back, written_back-word, alloc_block-at, block_is_free-taken,
  freed, free_block-frees, block_is_free-freed, diskaddr-inside, block_is_free-inside,
  block_is_free-written_back,
}

-- A block number past the indirect block is E_INVAL; an indirect block that is not there and not
-- asked for is E_NOT_FOUND. Neither changes anything.
pub file_block_walk-refused :
    (b i n m : ℕ) (alloc : Bool) (d : Store)
    → 1034 ≤ n
    → 10 ≤ m
    → m < 1034
    → d.word b (i + 44) ≡ 0
    → (file_block_walk (b, i) n alloc d ≡ some (err inval, d))
      × (file_block_walk (b, i) m false d ≡ some (err not_found, d))
unfolding file_block_walk indirect_of
file_block_walk-refused b i n m alloc d far lo hi absent =
    (ground (arith, far), ground (arith, lo, hi, absent))

pub file_block_walk-direct :
    (b i n : ℕ) (alloc : Bool) (d : Store)
    → n < 10
    → file_block_walk (b, i) n alloc d ≡ some (ok (b, i + 34 + n), d)
unfolding file_block_walk
file_block_walk-direct b i n alloc d small = ground (arith, small)

-- A direct block that the file has is returned, and nothing changes.
pub file_get_block-there :
    (b i n p : ℕ) (d : Store)
    → n < 10
    → d.word b (i + 34 + n) ≡ p
    → p ≢ 0
    → p < s_nblocks d
    → file_get_block (b, i) n d ≡ some (ok p, d)
unfolding file_get_block
file_get_block-there b i n p d small here pos inside =
    rw (file_block_walk-direct b i n true d small, ◌>>=◌)
      (rw (here) (rw (==_ne p 0 pos) (rw (diskaddr-inside p d pos inside, ◌>>=◌))))

-- The store after file_get_block gave block `p` to the slot of a file.
abbrev given : ℕ → ℕ → ℕ → Store → Store
given b j p d = written_back p (stored b j p (written_back p (taken p d)))

stored_self : (b j v : ℕ) (d : Store) → (stored b j v d).word b j ≡ v
stored_self b j v d = ground arith

stored-nblocks : (b j v : ℕ) (d : Store) → 2 ≤ j → s_nblocks (stored b j v d) ≡ s_nblocks d
stored-nblocks b j v d h = ground (arith, h)

block_is_free-beyond : (m : ℕ) (d : Store) → s_nblocks d ≤ m → block_is_free m d ≡ false
unfolding block_is_free
block_is_free-beyond m d h = ground (arith, h)

block_is_free-stored :
    (m b j v : ℕ) (d : Store)
    → 2 ≤ j
    → (m < s_nblocks d → b ≢ 2 + m / 32 / 1024)
    → block_is_free m (stored b j v d) ≡ block_is_free m d
unfolding block_is_free
block_is_free-stored m b j v d h apart = elim (dec_lt m (s_nblocks d)) [
  | yes inside ↦ rw (
    stored-nblocks b j v d h,
    ap (λ (w : ℕ → ℕ). w (m / 32 % 1024))
        (update_ne d.word b (update (d.word b) j v) (2 + m / 32 / 1024) (apart inside)),
  )
  | no out ↦
      block_is_free-beyond m (stored b j v d) (omega (arith, out, stored-nblocks b j v d h))
      ∙ sym (block_is_free-beyond m d (omega (arith, out)))
]

taken-nblocks : (p : ℕ) (d : Store) → s_nblocks (taken p d) ≡ s_nblocks d
taken-nblocks p d = ground arith

module _ (b j p : ℕ) (d : Store) (h : 2 ≤ j) where
  given-slot : (given b j p d).word b j ≡ p
  given-slot =
      ap (λ (w : ℕ → ℕ → ℕ). w b j)
        (written_back-word p (stored b j p (written_back p (taken p d))))
      ∙ stored_self b j p (written_back p (taken p d))

  half-nblocks : s_nblocks (stored b j p (written_back p (taken p d))) ≡ s_nblocks d
  half-nblocks =
      stored-nblocks b j p (written_back p (taken p d)) h
      ∙ ap (λ (w : ℕ → ℕ → ℕ). w 1 1) (written_back-word p (taken p d))
      ∙ taken-nblocks p d

  given-nblocks : s_nblocks (given b j p d) ≡ s_nblocks d
  given-nblocks =
      ap (λ (w : ℕ → ℕ → ℕ). w 1 1)
        (written_back-word p (stored b j p (written_back p (taken p d))))
      ∙ half-nblocks

  given-block_is_free :
      ((m : ℕ) → m < s_nblocks d → b ≢ 2 + m / 32 / 1024)
      → (m : ℕ) → block_is_free m (given b j p d) ≡ (if p == m then false else block_is_free m d)
  given-block_is_free apart m =
      block_is_free-written_back p m (stored b j p (written_back p (taken p d)))
      ∙ block_is_free-stored m b j p (written_back p (taken p d)) h
          (λ inside. apart m (omega (arith, inside, half, taken-nblocks p d)))
      ∙ block_is_free-written_back p m (taken p d)
      ∙ block_is_free-taken p m d
    where
      half : s_nblocks (written_back p (taken p d)) ≡ s_nblocks (taken p d)
      half = ap (λ (w : ℕ → ℕ → ℕ). w 1 1) (written_back-word p (taken p d))

-- A direct block that the file does not have is allocated, where the lowest free block is not block 0:
-- the slot then holds the block, asking again returns the same block and changes nothing, and
-- whether a block is free changes for that block alone, where the slot is not in the bitmap.
pub file_get_block-allocates :
    (b i n p : ℕ) (d : Store)
    → n < 10
    → d.word b (i + 34 + n) ≡ 0
    → s_nblocks d ≤ disk_blocks
    → p ≢ 0
    → block_is_free p d ≡ true
    → ((m : ℕ) → m < p → block_is_free m d ≡ false)
    → ((m : ℕ) → m < s_nblocks d → b ≢ 2 + m / 32 / 1024)
    → (d' : Store) × (file_get_block (b, i) n d ≡ some (ok p, d'))
      × (d'.word b (i + 34 + n) ≡ p)
      × (file_get_block (b, i) n d' ≡ some (ok p, d'))
      × ((m : ℕ) → block_is_free m d' ≡ (if p == m then false else block_is_free m d))
unfolding file_get_block
file_get_block-allocates b i n p d small absent fits pos is_free before apart = (
  given b j p d,
  run,
  given-slot b j p d high,
  file_get_block-there b i n p (given b j p d) small (given-slot b j p d high) pos
      (omega (arith, inside, given-nblocks b j p d high)),
  λ m. given-block_is_free b j p d high apart m,
)
  where
    j : ℕ
    j = i + 34 + n

    high : 2 ≤ i + 34 + n
    high = omega arith

    inside : p < s_nblocks d
    inside = block_is_free-inside p d is_free

    found :
        diskaddr p (stored b j p (written_back p (taken p d)))
        ≡ some (p, stored b j p (written_back p (taken p d)))
    found =
        diskaddr-inside p (stored b j p (written_back p (taken p d))) pos
          (omega (arith, inside, half-nblocks b j p d high))

    found_again : diskaddr p (given b j p d) ≡ some (p, given b j p d)
    found_again =
        diskaddr-inside p (given b j p d) pos (omega (arith, inside, given-nblocks b j p d high))

    flushed : flush_block p (stored b j p (written_back p (taken p d))) ≡ some (tt, given b j p d)
    flushed =
        flush_block-written_back p (stored b j p (written_back p (taken p d)))
          (omega (arith, inside, fits))

    run : file_get_block (b, i) n d ≡ some (ok p, given b j p d)
    run =
        rw (file_block_walk-direct b i n true d small, ◌>>=◌)
          (rw (absent) (
            rw (alloc_block-at p d fits pos is_free before, ◌>>=◌)
              (rw (found, ◌>>=◌) (rw (flushed, ◌>>=◌) (rw (found_again, ◌>>=◌))))))

freed-nblocks : (p : ℕ) (d : Store) → s_nblocks (freed p d) ≡ s_nblocks d
freed-nblocks p d = ground arith

-- A direct block that the file has is freed and its slot cleared, and freeing it again changes nothing;
-- afterwards the block is free, if the disk has it, and each other block is free exactly when it was,
-- where the slot is not in the bitmap.
pub file_free_block-frees :
    (b i n p : ℕ) (d : Store)
    → n < 10
    → d.word b (i + 34 + n) ≡ p
    → p ≢ 0
    → ((m : ℕ) → m < s_nblocks d → b ≢ 2 + m / 32 / 1024)
    → (d' : Store) × (file_free_block (b, i) n d ≡ some (ok tt, d'))
      × (d'.word b (i + 34 + n) ≡ 0)
      × (file_free_block (b, i) n d' ≡ some (ok tt, d'))
      × ((m : ℕ) → block_is_free m d' ≡ (if p == m then ltb m (s_nblocks d) else block_is_free m d))
unfolding file_free_block
file_free_block-frees b i n p d small here pos apart = (
  stored b (i + 34 + n) 0 (freed p d),
  rw (file_block_walk-direct b i n false d small, ◌>>=◌)
      (rw (here) (rw (==_ne p 0 pos) (rw (free_block-frees p d pos, ◌>>=◌)))),
  stored_self b (i + 34 + n) 0 (freed p d),
  rw (file_block_walk-direct b i n false (stored b (i + 34 + n) 0 (freed p d)) small, ◌>>=◌)
      (rw (stored_self b (i + 34 + n) 0 (freed p d))),
  λ m.
      block_is_free-stored m b (i + 34 + n) 0 (freed p d) (omega arith)
        (λ inside. apart m (omega (arith, inside, freed-nblocks p d)))
      ∙ block_is_free-freed p m d,
)
