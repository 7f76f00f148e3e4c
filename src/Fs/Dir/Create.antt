-- ===== src/Fs/Dir/Create.antt =====
-- file_create and file_open of tp-parte4/fs/fs.c on a file of the root directory.
use sistemas_operativos_2c.Common.{
  ℕ, zero, suc, ◌+◌, ◌*◌, ◌/◌, ◌%◌, ◌<◌, ◌≤◌, ◌≡◌, ◌≢◌, ◌⊎◌, inl, inr, refl, subst, ap, sym, ◌∙◌,
  true, false, none, some, List, [], ◌∷◌, ◌++◌, length, arith, All, All-map, All-both,
  length-append, ==-refl,
}
use native.Mathlib.Decide.{ℕ_discrete}
use sistemas_operativos_2c.Errors.{not_found, ok, err}
use sistemas_operativos_2c.Text.Strings.{IsText}
use sistemas_operativos_2c.Text.Compare.{same, text_of}
use sistemas_operativos_2c.Fs.{Store, s_nblocks, disk_blocks, file_flush, ◌>>=◌, ◌>>◌}
use sistemas_operativos_2c.Fs.Bytes.{store_bytes, load_bytes, load_byte, byte_of, store_bytes-word}
use sistemas_operativos_2c.Fs.Content.Layout.{IsLaidOut, store_bytes-IsLaidOut}
use sistemas_operativos_2c.Fs.Dir.{
  walk_path, s_root, dir_lookup, dir_alloc_file, set_name, file_create, file_open,
}
use sistemas_operativos_2c.Fs.Dir.Names.{
  name_of, name_of-set, load_bytes-apart, terminated-AreBytes, first, dir_files,
}
use sistemas_operativos_2c.Fs.Dir.Lookup.{
  IsDirectory, IsName, path_of, walk_path-resolve, dir_lookup-first, dir_alloc_file-first, unused,
  or_not_found,
}
use sistemas_operativos_2c.Fs.Dir.Files.{
  IsFile, dir_files-AreFiles, first-All, first_unique, first-none, IsLaidOut-word, file_flush-keeps,
}

-- The root directory: its blocks are direct, and the disk is no larger than it may be.
pub record IsRoot (n : ℕ) (blk : ℕ → ℕ) (d : Store) : Type 0 where
  pub dir : IsDirectory 1 2 n blk d
  pub typed : d.word 1 35 ≡ 1
  pub no_indirect : d.word 1 46 ≡ 0
  pub fits : s_nblocks d ≤ disk_blocks

module _ (name : List ℕ) (d : Store) (hn : IsName name) (typed : d.word 1 35 ≡ 1) where
  walk_path-missing :
      dir_lookup s_root name d ≡ some (err not_found, d)
      → walk_path (path_of (name ∷ [])) d
        ≡ some
            (record { result = err not_found; pdir = some s_root; pf = none; lastelem = name }, d)
  walk_path-missing e = walk_path-resolve (name ∷ []) d (hn, tt) ∙ rw (typed, ◌>>=◌, e) refl

  walk_path-found :
      (f : ℕ × ℕ)
      → dir_lookup s_root name d ≡ some (ok f, d)
      → walk_path (path_of (name ∷ [])) d
        ≡ some (record { result = ok tt; pdir = some s_root; pf = some f; lastelem = [] }, d)
  walk_path-found f e = walk_path-resolve (name ∷ []) d (hn, tt) ∙ rw (typed, ◌>>=◌, e) refl

file_open-found :
    (path : List ℕ) (f : ℕ × ℕ) (d : Store)
    → walk_path path d
      ≡ some (record { result = ok tt; pdir = some s_root; pf = some f; lastelem = [] }, d)
    → file_open path d ≡ some (ok f, d)
unfolding file_open
file_open-found path f d e = rw (◌>>=◌, e) refl

file_create-step :
    (path name : List ℕ) (b i : ℕ) (d d' : Store)
    → walk_path path d
      ≡ some (record { result = err not_found; pdir = some s_root; pf = none; lastelem = name }, d)
    → dir_alloc_file s_root d ≡ some (ok (b, i), d)
    → file_flush s_root (store_bytes b (i * 4) (name ++ 0 ∷ []) d) ≡ some (tt, d')
    → file_create path d ≡ some (ok (b, i), d')
unfolding file_create set_name
file_create-step path name b i d d' w a e = rw (◌>>=◌, w) (rw (◌>>=◌, a) (rw (◌>>◌, ◌>>=◌, e) refl))

same_refl : (l : List ℕ) → same l l ≡ true
same_refl [] = refl
same_refl (c ∷ l) = rw (==-refl c) (same_refl l)

IsName-IsText : (name : List ℕ) → IsName name → IsText name × (length name < 128)
IsName-IsText [] h = absurd h
IsName-IsText (c ∷ name) h = (h.1, h.2)

abbrev Apart : (f g : ℕ × ℕ) → Type 0
Apart f g = (f.0 ≢ g.0) ⊎ ((g.1 * 4 + 128 ≤ f.1 * 4) ⊎ (f.1 * 4 + 128 ≤ g.1 * 4))

-- Two files of a directory are one, or their names do not overlap.
files-Apart :
    (n : ℕ) (blk : ℕ → ℕ) (f g : ℕ × ℕ) (d : Store)
    → IsLaidOut s_root n blk d
    → IsFile n blk f
    → IsFile n blk g
    → (g ≡ f) ⊎ Apart f g
files-Apart n blk f g d laid (k, j, hk, hj, e) (k', j', hk', hj', e') = elim (ℕ_discrete k k') [
  | no ne ↦
      let other : f.0 ≢ g.0 = λ same. ne (
        laid.different k k' hk hk'
          (cc (ap (λ (x : ℕ × ℕ). x.0) e, ap (λ (x : ℕ × ℕ). x.0) e', same))) in
      inr (inl other)
  | yes s ↦ elim (ℕ_discrete j j') [
    | yes t ↦ inl (cc (s, t, e, e'))
    | no ne ↦
        let at : f.1 ≡ j * 64 = ap (λ (x : ℕ × ℕ). x.1) e in
        let at' : g.1 ≡ j' * 64 = ap (λ (x : ℕ × ℕ). x.1) e' in
        let far : (g.1 * 4 + 128 ≤ f.1 * 4) ⊎ (f.1 * 4 + 128 ≤ g.1 * 4) =
          ground (arith, at, at', ne) in
        inr (inr far)
  ]
]

load_bytes-same :
    (k b o : ℕ) (d d' : Store) → d'.word ≡ d.word → load_bytes k b o d' ≡ load_bytes k b o d
unfolding load_bytes load_byte
load_bytes-same zero b o d d' e = refl
load_bytes-same (suc k) b o d d' e =
    cc (ap (λ (w : ℕ → ℕ → ℕ). byte_of (o % 4) (w b (o / 4))) e, load_bytes-same k b (o + 1) d d' e)

IsRoot-word :
    (n : ℕ) (blk : ℕ → ℕ) (d d' : Store) → d'.word ≡ d.word → IsRoot n blk d → IsRoot n blk d'
IsRoot-word n blk d d' e root = record {
  dir = record {
    laid = IsLaidOut-word s_root n blk d d' e root.dir.laid;
    whole = ap (λ (w : ℕ → ℕ → ℕ). w 1 34) e ∙ root.dir.whole;
  };
  typed = ap (λ (w : ℕ → ℕ → ℕ). w 1 35) e ∙ root.typed;
  no_indirect = ap (λ (w : ℕ → ℕ → ℕ). w 1 46) e ∙ root.no_indirect;
  fits = omega (arith, root.fits, ap (λ (w : ℕ → ℕ → ℕ). w 1 1) e);
}

store_bytes-IsRoot :
    (n : ℕ) (blk : ℕ → ℕ) (d : Store) (f : ℕ × ℕ) (off : ℕ) (vs : List ℕ)
    → IsFile n blk f
    → IsRoot n blk d
    → IsRoot n blk (store_bytes f.0 off vs d)
store_bytes-IsRoot n blk d f off vs (k, j, hk, hj, e) root =
    let at : f.0 ≡ blk k = ap (λ (x : ℕ × ℕ). x.0) e in
    let w = store_bytes-word (blk k) off vs 1 d (root.dir.laid.apart k hk).1 in
    subst (λ b. IsRoot n blk (store_bytes b off vs d)) (sym at)
      (record {
        dir = record {
          laid = store_bytes-IsLaidOut root.dir.laid k off vs hk;
          whole = ap (λ (w : ℕ → ℕ). w 34) w ∙ root.dir.whole;
        };
        typed = ap (λ (w : ℕ → ℕ). w 35) w ∙ root.typed;
        no_indirect = ap (λ (w : ℕ → ℕ). w 46) w ∙ root.no_indirect;
        fits = omega (arith, root.fits, ap (λ (w : ℕ → ℕ). w 1) w);
      })

-- A name that is set changes no name apart from it, whatever then happens to other parts of the store.
name_of-Apart :
    (f g : ℕ × ℕ) (name : List ℕ) (d d' : Store)
    → All (λ v. v < 256) name
    → length name < 128
    → d'.word ≡ (store_bytes f.0 (f.1 * 4) (name ++ 0 ∷ []) d).word
    → Apart f g
    → name_of g d' ≡ name_of g d
name_of-Apart f g name d d' a h w apart =
    let long : length (name ++ 0 ∷ []) ≤ 128 = omega (arith, length-append name (0 ∷ [])) in
    let apart' : (f.0 ≢ g.0)
        ⊎ ((g.1 * 4 + 128 ≤ f.1 * 4) ⊎ (f.1 * 4 + length (name ++ 0 ∷ []) ≤ g.1 * 4)) =
      ground (arith, long, apart) in
    ap text_of (
      load_bytes-same 128 g.0 (g.1 * 4) (store_bytes f.0 (f.1 * 4) (name ++ 0 ∷ []) d) d' w
      ∙ load_bytes-apart 128 g.0 (g.1 * 4) f.0 (f.1 * 4) (name ++ 0 ∷ []) d
          (terminated-AreBytes name a) apart')

-- Is the file that was found now the first with the name?
first-named :
    (f : ℕ × ℕ) (name : List ℕ) (files : List (ℕ × ℕ)) (d d' : Store)
    → name_of f d' ≡ name
    → All (λ g. (g ≡ f) ⊎ (name_of g d' ≡ name_of g d)) files
    → first (λ g. same (name_of g d) name) files ≡ none
    → first (unused d) files ≡ some f
    → first (λ g. same (name_of g d') name) files ≡ some f
first-named f name files d d' named kept e u =
    first_unique (unused d) (λ g. same (name_of g d') name) files f u
      (ap (λ x. same x name) named ∙ same_refl name)
      (All-map
        (λ g (h : ((g ≡ f) ⊎ (name_of g d' ≡ name_of g d)) × (same (name_of g d) name ≡ false)).
          elim (h.0) [
            | inl is_f ↦ inl is_f
            | inr name_kept ↦ inr (ap (λ x. same x name) name_kept ∙ h.1)
          ])
        files
        (All-both (λ g. (g ≡ f) ⊎ (name_of g d' ≡ name_of g d))
          (λ g. same (name_of g d) name ≡ false) files kept
          (first-none (λ g. same (name_of g d) name) files e)))

module _ {n : ℕ} {blk : ℕ → ℕ} (name : List ℕ) (f : ℕ × ℕ) (d : Store) (root : IsRoot n blk d)
    (hn : IsName name) (bytes : All (λ v. v < 256) name)
    (absent : first (λ g. same (name_of g d) name) (dir_files n 0 blk) ≡ none)
    (room : first (unused d) (dir_files n 0 blk) ≡ some f) where
  -- Where the root directory, of direct blocks and with no indirect block, has no file of a name and has an unused one, file_create of the name's path gives the
  -- first unused file, then file_open of the path gives the same one, and the directory's other names are as before.
  pub file_create-file_open :
      (d' : Store) × (file_create (path_of (name ∷ [])) d ≡ some (ok f, d'))
      × (file_open (path_of (name ∷ [])) d' ≡ some (ok f, d'))
      × All (λ g. (g ≡ f) ⊎ (name_of g d' ≡ name_of g d)) (dir_files n 0 blk)
  file_create-file_open =
      let (t, short) = IsName-IsText name hn in
      let files = dir_files n 0 blk in
      let real = dir_files-AreFiles n blk n 0 (omega arith) in
      let mine = first-All (unused d) (IsFile n blk) files f real room in
      let d₁ = store_bytes f.0 (f.1 * 4) (name ++ 0 ∷ []) d in
      let root₁ = store_bytes-IsRoot n blk d f (f.1 * 4) (name ++ 0 ∷ []) mine root in
      let (d₂, flushed, w) =
        file_flush-keeps 1 2 n blk d₁ root₁.dir.laid root₁.dir.whole root₁.no_indirect (omega arith)
          root₁.fits in
      let root₂ = IsRoot-word n blk d₁ d₂ w root₁ in
      let named : name_of f d₂ ≡ name =
        ap text_of (load_bytes-same 128 f.0 (f.1 * 4) d₁ d₂ w)
        ∙ name_of-set f.0 f.1 name d t bytes short in
      let kept =
        All-map
          (λ g (h : IsFile n blk g). elim (files-Apart n blk f g d root.dir.laid mine h) [
            | inl is_f ↦ inl is_f
            | inr apart ↦ inr (name_of-Apart f g name d d₂ bytes short w apart)
          ])
          files real in
      (
        d₂,
        file_create-step (path_of (name ∷ [])) name f.0 f.1 d d₂
            (walk_path-missing name d hn root.typed (
              dir_lookup-first d root.dir name t short ∙ ap (λ x. some (or_not_found x, d)) absent))
            (dir_alloc_file-first d root.dir f room) flushed,
        file_open-found (path_of (name ∷ [])) f d₂ (
            walk_path-found name d₂ hn root₂.typed f (
              dir_lookup-first d₂ root₂.dir name t short
              ∙ ap (λ x. some (or_not_found x, d₂))
                  (first-named f name files d d₂ named kept absent room))),
        kept,
      )
