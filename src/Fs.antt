-- ===== src/Fs.antt =====
-- The block cache and the block allocator of the file server: tp-parte4/fs/bc.c and the first part
-- of tp-parte4/fs/fs.c. The disk map is one store of 32-bit words by block and index, so the super
-- block (block 1), the bitmap (from block 2), the files and the indirect blocks may overlap in it as
-- they may in the program. A pointer into it is a block and an index. A panic is `none`.
pub mod Bitmap
pub mod Flush
pub mod Blocks
pub mod Bytes
pub mod Content
pub mod Dir
pub mod Server
mod Tests
use sistemas_operativos_2c.Common.{
  ℕ, zero, suc, ◌+◌, ◌-◌, ◌*◌, ◌/◌, ◌%◌, ◌^◌, Bool, true, false, ◌||◌, not, Option, none, some,
  bit_and, bit_or, update, ltb, leb, ◌==◌, if◌then◌else◌,
}
use sistemas_operativos_2c.Errors.{no_disk, inval, not_found, Outcome, ok, err}

-- The words as the cache has them, which blocks are dirty (PTE_D), and the words on the disk.
pub record Store : Type 0 where
  pub word : ℕ → ℕ → ℕ
  pub dirty : ℕ → Bool
  pub disk : ℕ → ℕ → ℕ

abbrev pub D : Type 0 → Type 0
D A = Store → Option (A × Store)

abbrev pub pure : {A : Type 0} → A → D A
pure a d = some (a, d)

abbrev pub panic : {A : Type 0} → D A
panic d = none

infixl 5 ◌>>=◌ ◌>>◌
abbrev pub ◌>>=◌ : {A B : Type 0} → D A → (A → D B) → D B
◌>>=◌ c f d = elim (c d) [ none ↦ none | some (a, d') ↦ f a d' ]

abbrev pub ◌>>◌ : {B : Type 0} → D (Unit {0}) → D B → D B
c >> k = c >>= λ _. k

abbrev pub load : ℕ × ℕ → D ℕ
load (b, i) d = some (d.word b i, d)

abbrev pub stored : ℕ → ℕ → ℕ → Store → Store
stored b i w d = record d {
  word = update d.word b (update (d.word b) i w);
  dirty = update d.dirty b true;
}

-- The hardware sets the dirty bit of a page that is written.
abbrev pub store : ℕ × ℕ → ℕ → D (Unit {0})
store (b, i) w d = some (tt, stored b i w d)

abbrev pub fs_magic : ℕ
fs_magic = 0x4A0530AE

abbrev pub blkbitsize : ℕ
blkbitsize = 32768

-- `DISKSIZE / BLKSIZE`
abbrev pub disk_blocks : ℕ
disk_blocks = 786432

abbrev pub s_magic : Store → ℕ
s_magic d = d.word 1 0

abbrev pub s_nblocks : Store → ℕ
s_nblocks d = d.word 1 1

-- Block `b`, for the address `DISKMAP + b * BLKSIZE`.
pub diskaddr : ℕ → D ℕ
diskaddr b d = if b == 0 || leb (s_nblocks d) b then none else some (b, d)

-- The block `b` that the address is in. A block that is not mapped is not dirty.
pub flush_block : ℕ → D (Unit {0})
flush_block b d =
    if leb disk_blocks b
    then none
    else if not (d.dirty b)
    then some (tt, d)
    else some (tt, record d { disk = update d.disk b (d.word b); dirty = update d.dirty b false })

pub check_super : D (Unit {0})
check_super d =
    if not (s_magic d == fs_magic)
    then none
    else if ltb disk_blocks (s_nblocks d)
    then none
    else some (tt, d)

-- The block and the index of `bitmap[n]`, where `bitmap` is `diskaddr(2)`.
abbrev pub bitmap_at : ℕ → ℕ × ℕ
bitmap_at n = (2 + n / 1024, n % 1024)

abbrev pub bitmap : Store → ℕ → ℕ
bitmap d n = d.word (2 + n / 1024) (n % 1024)

pub block_is_free : ℕ → Store → Bool
block_is_free blockno d =
    if leb (s_nblocks d) blockno
    then false
    else not (bit_and (bitmap d (blockno / 32)) (2 ^ (blockno % 32)) == 0)

pub free_block : ℕ → D (Unit {0})
free_block blockno d =
    if blockno == 0
    then none
    else store (bitmap_at (blockno / 32)) (bit_or (bitmap d (blockno / 32)) (2 ^ (blockno % 32))) d

-- `bitmap[blockno / 32] &= ~(1 << (blockno % 32))`
abbrev pub taken : ℕ → Store → Store
taken blockno d =
    stored (2 + blockno / 32 / 1024) (blockno / 32 % 1024)
      (bit_and (bitmap d (blockno / 32)) (2 ^ 32 - 1 - 2 ^ (blockno % 32))) d

-- The loop of alloc_block, with `rounds` blocks left from `blockno` on.
pub alloc_from : ℕ → ℕ → D (Outcome ℕ)
unfolding block_is_free diskaddr flush_block
alloc_from zero blockno d = some (err no_disk, d)
alloc_from (suc rounds) blockno d =
    let rest = alloc_from rounds (blockno + 1) d in
    if block_is_free blockno d
    then (do va ← diskaddr blockno; flush_block va; pure (ok blockno)) (taken blockno d)
    else rest

pub alloc_block : D (Outcome ℕ)
unfolding alloc_from
alloc_block d = alloc_from (s_nblocks d) 0 d

-- The first loop of check_bitmap: are the blocks 2 + i, 2 + i + 1, ... in use, as far as the
-- bitmap goes?
pub bitmap_in_use : ℕ → ℕ → Store → Bool
unfolding block_is_free
bitmap_in_use zero i d = true
bitmap_in_use (suc rounds) i d =
    let rest = bitmap_in_use rounds (i + 1) d in
    if leb (s_nblocks d) (i * blkbitsize)
    then true
    else if block_is_free (2 + i) d
    then false
    else rest

pub check_bitmap : D (Unit {0})
unfolding bitmap_in_use block_is_free
check_bitmap d =
    if not (bitmap_in_use (s_nblocks d / blkbitsize + 1) 0 d)
    then none
    else if block_is_free 0 d
    then none
    else if block_is_free 1 d
    then none
    else some (tt, d)

-- A `struct File *` is the block and the first word of the file; these are its fields.
abbrev pub f_size : ℕ × ℕ → ℕ × ℕ
f_size (b, i) = (b, i + 32)

abbrev pub f_type : ℕ × ℕ → ℕ × ℕ
f_type (b, i) = (b, i + 33)

abbrev pub f_direct : ℕ × ℕ → ℕ → ℕ × ℕ
f_direct (b, i) n = (b, i + 34 + n)

abbrev pub f_indirect : ℕ × ℕ → ℕ × ℕ
f_indirect (b, i) = (b, i + 44)

abbrev pub ndirect : ℕ
ndirect = 10

abbrev pub nindirect : ℕ
nindirect = 1024

-- `int blockno = alloc_block(); if (blockno < 0) return -E_NO_DISK; f->f_indirect = blockno;`
pub indirect_of : ℕ × ℕ → Bool → D (Outcome (Unit {0}))
unfolding alloc_block
indirect_of f alloc = do
  there ← load (f_indirect f)
  if not (there == 0) then pure (ok tt) else if not alloc then pure (err not_found) else do
    found ← alloc_block
    elim found [
      | err e ↦ pure (err no_disk)
      | ok blockno ↦ do store (f_indirect f) blockno; pure (ok tt)
    ]

-- The slot, for `*ppdiskbno`.
pub file_block_walk : ℕ × ℕ → ℕ → Bool → D (Outcome (ℕ × ℕ))
unfolding indirect_of diskaddr flush_block
file_block_walk f filebno alloc =
    if leb (ndirect + nindirect) filebno
    then pure (err inval)
    else if leb ndirect filebno
    then (do
      r ← indirect_of f alloc
      elim r [
        | err e ↦ pure (err e)
        | ok u ↦ do
          blockno ← load (f_indirect f)
          indirect_disk_addr ← diskaddr blockno
          flush_block indirect_disk_addr
          pure (ok (indirect_disk_addr, filebno - ndirect))
      ])
    else pure (ok (f_direct f filebno))

-- The block, for `*blk`.
pub file_get_block : ℕ × ℕ → ℕ → D (Outcome ℕ)
unfolding file_block_walk alloc_block diskaddr flush_block
file_get_block f filebno = do
  r ← file_block_walk f filebno true
  elim r [
    | err e ↦ pure (err e)
    | ok ppdiskbno ↦ do
      there ← load ppdiskbno
      if there == 0
          then (do
            found ← alloc_block
            elim found [
              | err e ↦ pure (err e)
              | ok blockno ↦ do
                store ppdiskbno blockno
                va ← diskaddr blockno
                flush_block va
                blk ← diskaddr blockno
                pure (ok blk)
            ])
          else (do blk ← diskaddr there; pure (ok blk))
  ]

pub file_free_block : ℕ × ℕ → ℕ → D (Outcome (Unit {0}))
unfolding file_block_walk free_block
file_free_block f filebno = do
  r ← file_block_walk f filebno false
  elim r [
    | err e ↦ pure (err e)
    | ok ptr ↦ do
      there ← load ptr
      if there == 0 then pure (ok tt) else do free_block there; store ptr 0; pure (ok tt)
  ]

-- The loop of file_truncate_blocks, with `rounds` blocks left from `bno` on; an error is only printed.
pub free_blocks : ℕ → ℕ → ℕ × ℕ → D (Unit {0})
unfolding file_free_block
free_blocks zero bno f = pure tt
free_blocks (suc rounds) bno f = do r ← file_free_block f bno; free_blocks rounds (bno + 1) f

-- Sizes are below 2 ^ 31 - 4096, where neither `off_t` nor the sums wrap.
abbrev pub blocks_of : ℕ → ℕ
blocks_of size = (size + 4095) / 4096

pub file_truncate_blocks : ℕ × ℕ → ℕ → D (Unit {0})
unfolding free_blocks free_block
file_truncate_blocks f newsize = do
  old_size ← load (f_size f)
  free_blocks (blocks_of old_size - blocks_of newsize) (blocks_of newsize) f
  there ← load (f_indirect f)
  if leb (blocks_of newsize) ndirect
      then (if there == 0 then pure tt else do free_block there; store (f_indirect f) 0)
      else pure tt

pub file_set_size : ℕ × ℕ → ℕ → D (Unit {0})
unfolding file_truncate_blocks flush_block
file_set_size f newsize = do
  old_size ← load (f_size f)
  if ltb newsize old_size then file_truncate_blocks f newsize else pure tt
  store (f_size f) newsize
  flush_block f.0

-- The loop of file_flush, with `rounds` blocks left from `i` on.
pub flush_blocks : ℕ → ℕ → ℕ × ℕ → D (Unit {0})
unfolding file_block_walk diskaddr flush_block
flush_blocks zero i f = pure tt
flush_blocks (suc rounds) i f = do
  r ← file_block_walk f i false
  elim r [
    | err e ↦ pure tt
    | ok pdiskbno ↦ do
      there ← load pdiskbno
      if there == 0 then pure tt else do va ← diskaddr there; flush_block va
  ]
  flush_blocks rounds (i + 1) f

pub file_flush : ℕ × ℕ → D (Unit {0})
unfolding flush_blocks diskaddr flush_block
file_flush f = do
  size ← load (f_size f)
  flush_blocks (blocks_of size) 0 f
  flush_block f.0
  there ← load (f_indirect f)
  if there == 0 then pure tt else do va ← diskaddr there; flush_block va

-- The loop of fs_sync, with `rounds` blocks left from `i` on.
pub sync_from : ℕ → ℕ → D (Unit {0})
unfolding diskaddr flush_block
sync_from zero i = pure tt
sync_from (suc rounds) i = do va ← diskaddr i; flush_block va; sync_from rounds (i + 1)

pub fs_sync : D (Unit {0})
unfolding sync_from
fs_sync d = sync_from (s_nblocks d - 1) 1 d
