-- ===== src/Fs/Tests.antt =====
-- Tests of tp-parte4/fs/fs.c and fs/bc.c on a disk of 64 blocks, of which 5 and 7 are free, and whose
-- root directory has block 9 as its second block.
use sistemas_operativos_2c.Common.{
  ℕ, zero, suc, ◌%◌, ◌<◌, ◌≡◌, refl, true, false, some, update, ◌==◌, if◌then◌else◌, arith,
}
use sistemas_operativos_2c.Common.Bits.{digit-zero}
use sistemas_operativos_2c.Errors.{ok}
use sistemas_operativos_2c.Fs.{Store, block_is_free, fs_sync, file_get_block}
use sistemas_operativos_2c.Fs.Bitmap.{block_is_free-digit}
use sistemas_operativos_2c.Fs.Flush.{IsCoherent, fs_sync-written}
use sistemas_operativos_2c.Fs.Blocks.{file_get_block-there, file_get_block-allocates}

-- The words of a disk with a given first word of the bitmap.
abbrev words : ℕ → ℕ → ℕ → ℕ
words free =
    update (update (λ _ _. 0) 1 (update (update (λ _. 0) 1 64) 37 9)) 2 (update (λ _. 0) 0 free)

abbrev disk_of : ℕ → Store
disk_of free = record { word = words free; dirty = λ _. false; disk = words free }

abbrev store : Store
store = disk_of 160

below_five : (m : ℕ) → m < 5 → block_is_free m store ≡ false
unfolding block_is_free
below_five zero h = refl
below_five (suc zero) h = refl
below_five (suc (suc zero)) h = refl
below_five (suc (suc (suc zero))) h = refl
below_five (suc (suc (suc (suc zero)))) h = refl
below_five (suc (suc (suc (suc (suc m))))) h = absurd (omega arith)

five : block_is_free 5 store ≡ true
unfolding block_is_free
five = refl

none_free : (m : ℕ) → m < 64 → block_is_free m (disk_of 0) ≡ false
none_free m h = ground (arith, block_is_free-digit m (disk_of 0), digit-zero (m % 32))

coherent : IsCoherent store
coherent b clean = refl

fs_sync-written_example :
    (d' : Store) × (fs_sync store ≡ some (tt, d'))
    × (d'.word ≡ store.word)
    × (d'.disk 2 ≡ store.word 2)
fs_sync-written_example = fs_sync-written store 2 (omega arith) coherent (omega arith) (omega arith)

file_get_block-there_example : file_get_block (1, 2) 1 store ≡ some (ok 9, store)
file_get_block-there_example =
    file_get_block-there 1 2 1 9 store (omega arith) refl (omega arith) (omega arith)

file_get_block-allocates_example :
    (d' : Store) × (file_get_block (1, 2) 0 store ≡ some (ok 5, d'))
    × (d'.word 1 36 ≡ 5)
    × (file_get_block (1, 2) 0 d' ≡ some (ok 5, d'))
    × ((m : ℕ) → block_is_free m d' ≡ (if 5 == m then false else block_is_free m store))
file_get_block-allocates_example =
    file_get_block-allocates 1 2 0 5 store (omega arith) refl (omega arith) (omega arith) five
      below_five λ m h. omega arith
