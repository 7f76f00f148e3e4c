-- ===== src/Fs/Dir/Lookup.antt =====
-- dir_lookup, dir_alloc_file and walk_path of tp-parte4/fs/fs.c on directories whose blocks are direct.
use sistemas_operativos_2c.Common.{
  ℕ, zero, suc, ◌+◌, ◌*◌, ◌/◌, ◌%◌, ◌<◌, ◌≤◌, ◌≡◌, ◌≢◌, refl, ap, ◌∙◌, Bool, true, false, not,
  Option, none, some, List, [], ◌∷◌, ◌++◌, length, leb, ◌==◌, ==_ne, if◌then◌else◌, arith, All,
  length-append, fun_ext,
}
use sistemas_operativos_2c.Errors.{
  Error, not_found, Outcome, ok, err, unspecified, bad_env, inval, no_mem, no_free_env, fault,
  ipc_not_recv, eof, no_disk, max_open, bad_path, file_exists, not_exec, not_supp,
}
use sistemas_operativos_2c.Text.Strings.{IsText}
use sistemas_operativos_2c.Text.Compare.{same}
use sistemas_operativos_2c.Fs.{Store, D, pure, load, ◌>>=◌, f_type}
use sistemas_operativos_2c.Fs.Bytes.{load_byte}
use sistemas_operativos_2c.Fs.Content.Layout.{IsLaidOut}
use sistemas_operativos_2c.Fs.Dir.{
  is_named, is_unused, find_in_dir, dir_lookup, dir_alloc_file, skip_slash, element, Walk, is_empty,
  missing, walk_turn, walk_from, walk_path, s_root,
}
use sistemas_operativos_2c.Fs.Dir.Names.{
  name_of, is_named-same, first, dir_files, find_in_dir-first,
}

-- A directory of `n` whole blocks.
pub record IsDirectory (b i n : ℕ) (blk : ℕ → ℕ) (d : Store) : Type 0 where
  pub laid : IsLaidOut (b, i) n blk d
  pub whole : d.word b (i + 32) ≡ n * 4096

abbrev pub or_not_found : Option (ℕ × ℕ) → Outcome (ℕ × ℕ)
or_not_found none = err not_found
or_not_found (some f) = ok f

-- Is the name empty?
abbrev pub unused : Store → ℕ × ℕ → Bool
unused d (b, i) = load_byte b (i * 4) d == 0

blocks_of_size : (n : ℕ) → n * 4096 / 4096 ≡ n
blocks_of_size n = omega arith

whole_size : (n : ℕ) → (n * 4096 % 4096 == 0) ≡ true
whole_size n = ground arith

module _ {b i n : ℕ} {blk : ℕ → ℕ} (d : Store) (dir : IsDirectory b i n blk d) where
  dir_lookup-find :
      (name : List ℕ) (found : Option (ℕ × ℕ))
      → find_in_dir (λ f. is_named f name) n 0 (b, i) d ≡ some (ok found, d)
      → dir_lookup (b, i) name d ≡ some (or_not_found found, d)
  unfolding dir_lookup
  dir_lookup-find name none e =
      rw (dir_lookup, dir.whole, whole_size n) (rw (blocks_of_size n, ◌>>=◌, e) refl)
  dir_lookup-find name (some f) e =
      rw (dir_lookup, dir.whole, whole_size n) (rw (blocks_of_size n, ◌>>=◌, e) refl)

  -- dir_lookup of a text below 128 bytes, in a directory of whole direct blocks, returns the first file of the
  -- directory with that name, or -E_NOT_FOUND where there is none, and changes nothing.
  pub dir_lookup-first :
      (name : List ℕ)
      → IsText name
      → length name < 128
      → dir_lookup (b, i) name d
        ≡ some (or_not_found (first (λ f. same (name_of f d) name) (dir_files n 0 blk)), d)
  dir_lookup-first name t h =
      dir_lookup-find name (first (λ f. same (name_of f d) name) (dir_files n 0 blk)) (
        find_in_dir-first (λ f. is_named f name) (λ f. same (name_of f d) name) d
          (λ c j. is_named-same c j name d t h) n 0 dir.laid (omega arith))

  pub dir_alloc_file-first :
      (f : ℕ × ℕ)
      → first (unused d) (dir_files n 0 blk) ≡ some f
      → dir_alloc_file (b, i) d ≡ some (ok f, d)
  unfolding dir_alloc_file is_unused
  dir_alloc_file-first f e =
      let found =
        find_in_dir-first is_unused (unused d) d (λ c j. refl) n 0 dir.laid (omega arith)
        ∙ ap (λ x. some (ok x, d)) e in
      rw (dir_alloc_file, dir.whole, whole_size n) (rw (blocks_of_size n, ◌>>=◌, found) refl)

-- A path's names, each after a slash.
abbrev pub path_of : List (List ℕ) → List ℕ
path_of [] = []
path_of (name ∷ names) = b'/' ∷ name ++ path_of names

abbrev pub IsName : List ℕ → Type 0
IsName [] = ⊥
IsName (c ∷ name) = All (λ x. x ≢ b'/') (c ∷ name) × IsText (c ∷ name) × (length (c ∷ name) < 128)

-- What is left at a name, without its slash.
abbrev pub left : List (List ℕ) → List ℕ
left [] = []
left (next ∷ rest) = next ++ path_of rest

-- What is set where a name is missing: the directory and the name where it is the last one.
abbrev not_there : Error → ℕ × ℕ → List ℕ → List (List ℕ) → Walk
not_there not_found f name [] = record {
  result = err not_found;
  pdir = some f;
  pf = none;
  lastelem = name;
}
not_there e f name names = record { result = err e; pdir = none; pf = none; lastelem = [] }

-- A path followed name by name.
abbrev pub resolve : List (List ℕ) → Option (ℕ × ℕ) → ℕ × ℕ → D Walk
resolve [] dir f = pure (record { result = ok tt; pdir = dir; pf = some f; lastelem = [] })
resolve (name ∷ names) dir f = do
  type ← load (f_type f)
  if not (type == 1)
      then pure (record { result = err not_found; pdir = none; pf = none; lastelem = [] })
      else do
        r ← dir_lookup f name
        elim r [ ok f' ↦ resolve names (some f) f' | err e ↦ pure (not_there e f name names) ]

element-name :
    (name : List ℕ) (names : List (List ℕ))
    → All (λ x. x ≢ b'/') name
    → element (name ++ path_of names) ≡ (name, path_of names)
unfolding element
element-name [] [] h = refl
element-name [] (n ∷ names) h = refl
element-name (c ∷ name) names h =
    rw (==_ne c b'/' h.0)
      (ap (λ (r : List ℕ × List ℕ). (c ∷ r.0, r.1)) (element-name name names h.1))

skip_slash-path_of :
    (names : List (List ℕ)) → All IsName names → skip_slash (path_of names) ≡ left names
unfolding skip_slash
skip_slash-path_of [] h = refl
skip_slash-path_of ([] ∷ names) h = absurd h.0
skip_slash-path_of ((c ∷ name) ∷ names) h = ground (arith, h.0.0.0)

left-is_empty :
    (name : List ℕ) (names : List (List ℕ)) → IsName name → is_empty (left (name ∷ names)) ≡ false
left-is_empty [] names h = absurd h
left-is_empty (c ∷ name) names h = refl

missing-not_there :
    (e : Error) (f : ℕ × ℕ) (name : List ℕ) (names : List (List ℕ))
    → All IsName names
    → missing e f name (left names) ≡ not_there e f name names
missing-not_there not_found f name [] h = refl
missing-not_there not_found f name (next ∷ rest) h = rw (left-is_empty next rest h.0) refl
missing-not_there unspecified f name names h = refl
missing-not_there bad_env f name names h = refl
missing-not_there inval f name names h = refl
missing-not_there no_mem f name names h = refl
missing-not_there no_free_env f name names h = refl
missing-not_there fault f name names h = refl
missing-not_there ipc_not_recv f name names h = refl
missing-not_there eof f name names h = refl
missing-not_there no_disk f name names h = refl
missing-not_there max_open f name names h = refl
missing-not_there bad_path f name names h = refl
missing-not_there file_exists f name names h = refl
missing-not_there not_exec f name names h = refl
missing-not_there not_supp f name names h = refl

walk_turn-small :
    (name : List ℕ) (names : List (List ℕ)) (dir : Option (ℕ × ℕ)) (f : ℕ × ℕ) (d : Store)
    → leb 128 (length name) ≡ false
    → All IsName names
    → walk_turn (resolve names (some f)) name (left names) f d ≡ resolve (name ∷ names) dir f d
unfolding walk_turn
walk_turn-small name names dir f d small h =
    let same : (λ e. missing e f name (left names)) ≡ (λ e. not_there e f name names) =
      fun_ext λ e. missing-not_there e f name names h in
    rw (walk_turn, small)
      (ap
        (λ (g : Error → Walk).
          (do
            type ← load (f_type f)
            if not (type == 1)
                then pure (record { result = err not_found; pdir = none; pf = none; lastelem = [] })
                else do
                  r ← dir_lookup f name
                  elim r [ ok f' ↦ resolve names (some f) f' | err e ↦ pure (g e) ])
            d)
        same)

length-left : (names : List (List ℕ)) → length (left names) ≤ length (path_of names)
length-left [] = omega arith
length-left (name ∷ names) = omega arith

walk_from-resolve :
    (fuel : ℕ) (names : List (List ℕ)) (dir : Option (ℕ × ℕ)) (f : ℕ × ℕ) (d : Store)
    → All IsName names
    → length (left names) ≤ fuel
    → walk_from fuel (left names) dir f d ≡ resolve names dir f d
unfolding walk_from
walk_from-resolve fuel [] dir f d h l = refl
walk_from-resolve fuel ([] ∷ names) dir f d h l = absurd h.0
walk_from-resolve zero ((c ∷ name) ∷ names) dir f d h l = absurd (omega arith)
walk_from-resolve (suc fuel) ((c ∷ name) ∷ names) dir f d h l =
    let small : leb 128 (length (c ∷ name)) ≡ false = ground (arith, h.0.2) in
    let next : walk_from fuel (left names) (some f) ≡ resolve names (some f) = fun_ext λ f'.
      fun_ext λ d'.
        walk_from-resolve fuel names (some f) f' d' h.1
          (omega (arith, length-append name (path_of names), length-left names)) in
    rw (walk_from, element-name (c ∷ name) names h.0.0, skip_slash-path_of names h.1, next)
      (walk_turn-small (c ∷ name) names dir f d small h.1)

-- walk_path of names, none empty or with a slash and each below 128 bytes, with a slash before each, follows them from
-- the root one after the other: each must be found by dir_lookup in a directory. Where the last one is missing, the
-- error is -E_NOT_FOUND and the directory and the name are set; on any other error they are not.
pub walk_path-resolve :
    (names : List (List ℕ)) (d : Store)
    → All IsName names
    → walk_path (path_of names) d ≡ resolve names none s_root d
unfolding walk_path
walk_path-resolve names d h =
    rw (walk_path, skip_slash-path_of names h)
      (walk_from-resolve (length (path_of names)) names none s_root d h (length-left names))
