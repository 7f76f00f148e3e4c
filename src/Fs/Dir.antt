-- ===== src/Fs/Dir.antt =====
-- Directories and paths: dir_lookup, dir_alloc_file, walk_path, file_create and file_open of tp-parte4/fs/fs.c.
-- A text that is only read is the list of its bytes before the terminator.
pub mod Names
pub mod Lookup
pub mod Files
pub mod Create
mod Tests
use sistemas_operativos_2c.Common.{
  ℕ, zero, suc, ◌+◌, ◌*◌, ◌/◌, ◌%◌, Bool, true, false, ◌||◌, ◌&&◌, not, Option, none, some, List,
  [], ◌∷◌, ◌++◌, length, ◌==◌, leb, if◌then◌else◌,
}
use sistemas_operativos_2c.Errors.{Error, not_found, bad_path, file_exists, Outcome, ok, err}
use sistemas_operativos_2c.Text.{strcmp, is_zero}
use sistemas_operativos_2c.Fs.{
  Store, D, pure, panic, load, store, ◌>>=◌, ◌>>◌, f_size, f_type, file_get_block, file_flush,
}
use sistemas_operativos_2c.Fs.Bytes.{load_byte, load_bytes, store_bytes}

-- The 128 bytes of `f->f_name`.
abbrev pub f_name : ℕ × ℕ → Store → List ℕ
f_name (b, i) d = load_bytes 128 b (i * 4) d

-- `strcmp(f->f_name, name) == 0`
pub is_named : ℕ × ℕ → List ℕ → D Bool
unfolding load_bytes
is_named f name d = elim (strcmp (f_name f d) (name ++ 0 ∷ [])) [
  | none ↦ none
  | some c ↦ some (is_zero c, d)
]

-- `f[0].f_name[0] == '\0'`
pub is_unused : ℕ × ℕ → D Bool
unfolding load_byte
is_unused (b, i) d = some (load_byte b (i * 4) d == 0, d)

-- The inner loop of dir_lookup and of dir_alloc_file, over the files of a block from `j` on.
pub find_in_block : (ℕ × ℕ → D Bool) → (rounds blk j : ℕ) → D (Option (ℕ × ℕ))
find_in_block test zero blk j = pure none
find_in_block test (suc rounds) blk j =
    let rest = find_in_block test rounds blk (j + 1) in
    do here ← test (blk, j * 64); if here then pure (some (blk, j * 64)) else rest

-- Their outer loop, over the blocks from `i` on; `none` where it ends.
pub find_in_dir : (ℕ × ℕ → D Bool) → (rounds i : ℕ) → ℕ × ℕ → D (Outcome (Option (ℕ × ℕ)))
unfolding find_in_block file_get_block
find_in_dir test zero i dir = pure (ok none)
find_in_dir test (suc rounds) i dir =
    let rest = find_in_dir test rounds (i + 1) dir in
    do
      r ← file_get_block dir i
      elim r [
        | err e ↦ pure (err e)
        | ok blk ↦ do
          found ← find_in_block test 16 blk 0
          elim found [ some f ↦ pure (ok (some f)) | none ↦ rest ]
      ]

pub dir_lookup : ℕ × ℕ → List ℕ → D (Outcome (ℕ × ℕ))
unfolding find_in_dir is_named
dir_lookup dir name = do
  size ← load (f_size dir)
  if not (size % 4096 == 0) then panic else do
    r ← find_in_dir (λ f. is_named f name) (size / 4096) 0 dir
    elim r [
      | err e ↦ pure (err e)
      | ok found ↦ elim found [ some f ↦ pure (ok f) | none ↦ pure (err not_found) ]
    ]

-- A directory grows by a block, at which the new file is the first one.
pub dir_alloc_file : ℕ × ℕ → D (Outcome (ℕ × ℕ))
unfolding find_in_dir is_unused
dir_alloc_file dir = do
  size ← load (f_size dir)
  if not (size % 4096 == 0) then panic else do
    r ← find_in_dir is_unused (size / 4096) 0 dir
    elim r [
      | err e ↦ pure (err e)
      | ok found ↦ elim found [
        | some f ↦ pure (ok f)
        | none ↦ do
          store (f_size dir) (size + 4096)
          r' ← file_get_block dir (size / 4096)
          elim r' [ err e ↦ pure (err e) | ok blk ↦ pure (ok (blk, 0)) ]
      ]
    ]

pub skip_slash : List ℕ → List ℕ
skip_slash [] = []
skip_slash (c ∷ p) = let rest = skip_slash p in if c == b'/' then rest else c ∷ p

-- The path up to a slash or its end, and from there on.
pub element : List ℕ → List ℕ × List ℕ
element [] = ([], [])
element (c ∷ p) =
    let (name, rest) = element p in if c == b'/' then ([], c ∷ p) else (c ∷ name, rest)

-- What walk_path returns, and what it sets: `*pdir`, `*pf` and `lastelem`.
pub record Walk : Type 0 where
  pub result : Outcome (Unit {0})
  pub pdir : Option (ℕ × ℕ)
  pub pf : Option (ℕ × ℕ)
  pub lastelem : List ℕ

abbrev pub fails : Error → Walk
fails e = record { result = err e; pdir = none; pf = none; lastelem = [] }

abbrev pub is_not_found : Error → Bool
is_not_found not_found = true
is_not_found e = false

abbrev pub is_empty : List ℕ → Bool
is_empty [] = true
is_empty (c ∷ p) = false

-- Where the file is missing and the path ends, the directory and the name are set.
abbrev pub missing : Error → ℕ × ℕ → (name rest : List ℕ) → Walk
missing e dir name rest =
    if is_not_found e && is_empty rest
    then record { result = err e; pdir = some dir; pf = none; lastelem = name }
    else fails e

-- A turn of the loop for a name, with `path` left after it; `next` is the rest of the loop.
pub walk_turn : (next : ℕ × ℕ → D Walk) → (name path : List ℕ) → ℕ × ℕ → D Walk
unfolding dir_lookup
walk_turn next name path f = if leb 128 (length name) then pure (fails bad_path) else do
  type ← load (f_type f)
  if not (type == 1) then pure (fails not_found) else do
    r ← dir_lookup f name
    elim r [ ok f' ↦ next f' | err e ↦ pure (missing e f name path) ]

-- The loop, at file `f` with `path` left, which has no slash in front. Each turn takes a byte of it at least.
pub walk_from : (fuel : ℕ) → (path : List ℕ) → (dir : Option (ℕ × ℕ)) → ℕ × ℕ → D Walk
walk_from fuel [] dir f = pure (record { result = ok tt; pdir = dir; pf = some f; lastelem = [] })
walk_from zero (c ∷ path) dir f = panic
walk_from (suc fuel) (c ∷ path) dir f =
    let (name, rest) = element (c ∷ path) in
    walk_turn (walk_from fuel (skip_slash rest) (some f)) name (skip_slash rest) f

-- `&super->s_root`
abbrev pub s_root : ℕ × ℕ
s_root = (1, 2)

pub walk_path : List ℕ → D Walk
unfolding walk_from skip_slash
walk_path path = walk_from (length path) (skip_slash path) none s_root

-- `strcpy(f->f_name, name)`
pub set_name : ℕ × ℕ → List ℕ → D (Unit {0})
unfolding store_bytes
set_name (b, i) name d = some (tt, store_bytes b (i * 4) (name ++ 0 ∷ []) d)

pub file_create : List ℕ → D (Outcome (ℕ × ℕ))
unfolding walk_path dir_alloc_file set_name file_flush
file_create path = do
  w ← walk_path path
  elim w.result [
    | ok u ↦ pure (err file_exists)
    | err e ↦ elim w.pdir [
      | none ↦ pure (err e)
      | some dir ↦ if not (is_not_found e) then pure (err e) else do
        r ← dir_alloc_file dir
        elim r [
          | err e' ↦ pure (err e')
          | ok f ↦ do set_name f w.lastelem; file_flush dir; pure (ok f)
        ]
    ]
  ]

-- `*pf` is set where the result is 0.
unfoldable pub file_open : List ℕ → D (Outcome (ℕ × ℕ))
unfolding walk_path
file_open path = do
  w ← walk_path path
  elim w.result [ err e ↦ pure (err e) | ok u ↦ elim w.pf [ none ↦ panic | some f ↦ pure (ok f) ] ]
