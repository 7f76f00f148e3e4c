-- ===== src/Fs/Content.antt =====
-- file_read and file_write of tp-parte4/fs/fs.c. Positions are below 2 ^ 31, where neither off_t nor size_t wraps.
pub mod Layout
pub mod Transfer
pub mod Write
pub mod Refinement
mod Tests
use sistemas_operativos_2c.Common.{
  ℕ, zero, suc, ◌+◌, ◌-◌, ◌/◌, ◌%◌, min, List, [], ◌∷◌, ◌++◌, length, take, drop, ltb, leb,
  if◌then◌else◌, some, none,
}
use sistemas_operativos_2c.Errors.{Outcome, ok, err}
use sistemas_operativos_2c.Fs.{
  Store, D, pure, panic, load, ◌>>=◌, ◌>>◌, f_size, file_get_block, file_set_size,
}
use sistemas_operativos_2c.Fs.Bytes.{load_bytes, store_bytes}

-- What memmove copies from the disk map into the buffer.
abbrev copied_out : (n b off : ℕ) → D (List ℕ)
copied_out n b off d = some (load_bytes n b off d, d)

abbrev copied_in : (b off : ℕ) → List ℕ → D (Unit {0})
copied_in b off vs d = some (tt, store_bytes b off vs d)

-- The bytes of a block that a turn of the loops copies.
abbrev pub chunk : (pos last : ℕ) → ℕ
chunk pos last = min (4096 - pos % 4096) (last - pos)

-- The loop of file_read up to `last`, and the bytes that it puts into the buffer. A turn copies a byte at least.
pub read_from : (fuel : ℕ) → ℕ × ℕ → (pos last : ℕ) → D (Outcome (List ℕ))
unfolding file_get_block load_bytes
read_from zero f pos last = panic
read_from (suc fuel) f pos last =
    let rest = read_from fuel f (pos + chunk pos last) last in
    if leb last pos then pure (ok []) else do
      r ← file_get_block f (pos / 4096)
      elim r [
        | err e ↦ pure (err e)
        | ok blk ↦ do
          bytes ← copied_out (chunk pos last) blk (pos % 4096)
          r' ← rest
          elim r' [ err e ↦ pure (err e) | ok bytes' ↦ pure (ok (bytes ++ bytes')) ]
      ]

-- The count that is returned, and the bytes.
pub file_read : ℕ × ℕ → (count offset : ℕ) → D (Outcome (ℕ × List ℕ))
unfolding read_from
file_read f count offset = do
  size ← load (f_size f)
  if leb size offset then pure (ok (0, [])) else do
    r ← read_from (min count (size - offset) + 1) f offset (offset + min count (size - offset))
    elim r [ err e ↦ pure (err e) | ok bytes ↦ pure (ok (min count (size - offset), bytes)) ]

-- The loop of file_write; `buf` is what is left of the buffer.
pub write_from : (fuel : ℕ) → ℕ × ℕ → (pos last : ℕ) → List ℕ → D (Outcome (Unit {0}))
unfolding file_get_block store_bytes
write_from zero f pos last buf = panic
write_from (suc fuel) f pos last buf =
    let rest = write_from fuel f (pos + chunk pos last) last (drop (chunk pos last) buf) in
    if leb last pos then pure (ok tt) else do
      r ← file_get_block f (pos / 4096)
      elim r [
        | err e ↦ pure (err e)
        | ok blk ↦ do copied_in blk (pos % 4096) (take (chunk pos last) buf); rest
      ]

-- `count` is the length of `buf`. file_set_size always returns 0.
pub file_write : ℕ × ℕ → List ℕ → (offset : ℕ) → D (Outcome ℕ)
unfolding write_from file_set_size
file_write f buf offset = do
  size ← load (f_size f)
  if ltb size (offset + length buf) then file_set_size f (offset + length buf) else pure tt
  r ← write_from (length buf + 1) f offset (offset + length buf) buf
  elim r [ err e ↦ pure (err e) | ok u ↦ pure (ok (length buf)) ]
