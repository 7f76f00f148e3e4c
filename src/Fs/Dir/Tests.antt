-- ===== src/Fs/Dir/Tests.antt =====
-- A root directory of one block, block 4, whose first file has the name "a"; the other fifteen are unused.
use sistemas_operativos_2c.Common.{
  ℕ, zero, suc, ◌+◌, ◌<◌, ◌≡◌, ◌⊎◌, refl, false, none, some, List, [], ◌∷◌, update, arith, All,
}
use sistemas_operativos_2c.Errors.{ok}
use sistemas_operativos_2c.Text.Compare.{same}
use sistemas_operativos_2c.Fs.{Store}
use sistemas_operativos_2c.Fs.Bytes.{load_byte, load_bytes}
use sistemas_operativos_2c.Fs.Content.Layout.{IsLaidOut}
use sistemas_operativos_2c.Fs.Dir.{dir_lookup, file_create, file_open, walk_path, s_root}
use sistemas_operativos_2c.Fs.Dir.Names.{name_of, first, dir_files}
use sistemas_operativos_2c.Fs.Dir.Lookup.{
  IsDirectory, path_of, resolve, unused, or_not_found, dir_lookup-first, walk_path-resolve,
}
use sistemas_operativos_2c.Fs.Dir.Create.{IsRoot, file_create-file_open}

abbrev words : ℕ → ℕ → ℕ
words =
    update (update (λ _ _. 0) 4 (update (λ _. 0) 0 b'a')) 1
      (update (update (update (update (λ _. 0) 1 64) 34 4096) 35 1) 36 4)

abbrev disk : Store
disk = record { word = words; dirty = λ _. false; disk = words }

abbrev blk : ℕ → ℕ
blk i = i + 4

one_slot : (i : ℕ) → i < 1 → words 1 (2 + 34 + i) ≡ blk i
one_slot zero h = refl
one_slot (suc i) h = absurd (omega arith)

disk-IsLaidOut : IsLaidOut (1, 2) 1 blk disk
disk-IsLaidOut = record {
  direct = omega arith;
  slots = one_slot;
  real = λ i h. omega arith;
  apart = λ i h. omega arith;
  different = λ i j h k e. omega arith;
}

disk-IsDirectory : IsDirectory 1 2 1 blk disk
disk-IsDirectory = record { laid = disk-IsLaidOut; whole = refl }

disk-IsRoot : IsRoot 1 blk disk
disk-IsRoot = record {
  dir = disk-IsDirectory;
  typed = refl;
  no_indirect = refl;
  fits = omega arith;
}

abbrev a : List ℕ
a = b'a' ∷ []

abbrev b : List ℕ
b = b'b' ∷ []

dir_lookup-first_example :
    dir_lookup (1, 2) a disk
    ≡ some (or_not_found (first (λ f. same (name_of f disk) a) (dir_files 1 0 blk)), disk)
dir_lookup-first_example = dir_lookup-first disk disk-IsDirectory a (omega arith) (omega arith)

walk_path-resolve_example :
    walk_path (path_of (a ∷ b ∷ [])) disk ≡ resolve (a ∷ b ∷ []) none s_root disk
walk_path-resolve_example = walk_path-resolve (a ∷ b ∷ []) disk (omega arith)

b_absent : first (λ f. same (name_of f disk) b) (dir_files 1 0 blk) ≡ none
unfolding load_bytes load_byte
b_absent = refl

b_room : first (unused disk) (dir_files 1 0 blk) ≡ some (4, 64)
unfolding load_byte
b_room = refl

file_create-file_open_example :
    (d' : Store) × (file_create (path_of (b ∷ [])) disk ≡ some (ok (4, 64), d'))
    × (file_open (path_of (b ∷ [])) d' ≡ some (ok (4, 64), d'))
    × All (λ g. (g ≡ (4, 64)) ⊎ (name_of g d' ≡ name_of g disk)) (dir_files 1 0 blk)
file_create-file_open_example =
    file_create-file_open b (4, 64) disk disk-IsRoot (omega arith) (omega arith) b_absent b_room
