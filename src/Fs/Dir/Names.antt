-- ===== src/Fs/Dir/Names.antt =====
-- The names of the files of a directory of tp-parte4/fs, and the first file that passes a test.
use sistemas_operativos_2c.Common.{
  ℕ, zero, suc, ◌+◌, ◌-◌, ◌*◌, ◌<◌, ◌≢◌, ◌⊎◌, All, length-append, ◌≤◌, ◌≡◌, refl, ap, sym, ◌∙◌,
  Bool, Option, none, some, List, [], ◌∷◌, ◌++◌, length, if◌then◌else◌, arith, Bool-cases, inl, inr,
}
use sistemas_operativos_2c.Errors.{ok}
use sistemas_operativos_2c.Text.Strings.{IsText}
use sistemas_operativos_2c.Text.Compare.{text_of, same, strcmp-within}
use sistemas_operativos_2c.Fs.{Store, D, ◌>>=◌, file_get_block}
use sistemas_operativos_2c.Fs.Bytes.{
  load_byte, load_bytes, store_bytes, byte_at, load_byte-store_bytes,
}
use sistemas_operativos_2c.Fs.Content.Layout.{IsLaidOut, file_get_block-laid}
use sistemas_operativos_2c.Fs.Dir.{f_name, is_named, find_in_block, find_in_dir}

length-load_bytes : (n b off : ℕ) (d : Store) → length (load_bytes n b off d) ≡ n
unfolding load_bytes
length-load_bytes zero b off d = refl
length-load_bytes (suc n) b off d = ap suc (length-load_bytes n b (off + 1) d)

-- The name of a file, without what follows its terminator.
abbrev pub name_of : ℕ × ℕ → Store → List ℕ
name_of f d = text_of (f_name f d)

pub is_named-same :
    (b i : ℕ) (name : List ℕ) (d : Store)
    → IsText name
    → length name < 128
    → is_named (b, i) name d ≡ some (same (name_of (b, i) d) name, d)
unfolding is_named
is_named-same b i name d t h =
    let (c, e, z) =
      strcmp-within (f_name (b, i) d) name t (omega (arith, length-load_bytes 128 b (i * 4) d)) in
    rw (is_named, e) (ap (λ x. some (x, d)) z)

module _ {A : Type 0} (p : A → Bool) where
  abbrev pub first : List A → Option A
  first [] = none
  first (a ∷ l) = if p a then some a else first l

  pub first-append :
      (l m : List A) → first (l ++ m) ≡ (elim (first l) [ some a ↦ some a | none ↦ first m ])
  first-append [] m = refl
  first-append (a ∷ l) m = elim (Bool-cases (p a)) [
    | inl here ↦ rw here refl
    | inr other ↦ rw other (first-append l m)
  ]

-- The files of a block from `j` on, and those of the blocks from `i` on.
abbrev pub block_files : (rounds blk j : ℕ) → List (ℕ × ℕ)
block_files zero blk j = []
block_files (suc rounds) blk j = (blk, j * 64) ∷ block_files rounds blk (j + 1)

abbrev pub dir_files : (rounds i : ℕ) → (ℕ → ℕ) → List (ℕ × ℕ)
dir_files zero i blk = []
dir_files (suc rounds) i blk = block_files 16 (blk i) 0 ++ dir_files rounds (i + 1) blk

module _ (test : ℕ × ℕ → D Bool) (p : ℕ × ℕ → Bool) (d : Store)
    (decides : (b i : ℕ) → test (b, i) d ≡ some (p (b, i), d)) where
  find_in_block-first :
      (rounds blk j : ℕ)
      → find_in_block test rounds blk j d ≡ some (first p (block_files rounds blk j), d)
  unfolding find_in_block
  find_in_block-first zero blk j = refl
  find_in_block-first (suc rounds) blk j = elim (Bool-cases (p (blk, j * 64))) [
    | inl here ↦ rw (◌>>=◌, decides blk (j * 64), here) refl
    | inr other ↦ rw (◌>>=◌, decides blk (j * 64), other) (find_in_block-first rounds blk (j + 1))
  ]

  find_in_dir-step :
      (rounds i b : ℕ) (dir : ℕ × ℕ) (found more : Option (ℕ × ℕ))
      → file_get_block dir i d ≡ some (ok b, d)
      → find_in_block test 16 b 0 d ≡ some (found, d)
      → find_in_dir test rounds (i + 1) dir d ≡ some (ok more, d)
      → find_in_dir test (suc rounds) i dir d
        ≡ some (ok (elim found [ some f ↦ some f | none ↦ more ]), d)
  unfolding find_in_dir
  find_in_dir-step rounds i b dir none more e f m = rw (◌>>=◌, e) (rw (◌>>=◌, f) m)
  find_in_dir-step rounds i b dir (some g) more e f m = rw (◌>>=◌, e) (rw (◌>>=◌, f) refl)

  pub find_in_dir-first :
      {dir : ℕ × ℕ} {n : ℕ} {blk : ℕ → ℕ} (rounds i : ℕ)
      → IsLaidOut dir n blk d
      → i + rounds ≡ n
      → find_in_dir test rounds i dir d ≡ some (ok (first p (dir_files rounds i blk)), d)
  unfolding find_in_dir
  find_in_dir-first zero i laid h = refl
  find_in_dir-first {dir} {n} {blk} (suc rounds) i laid h =
      find_in_dir-step rounds i (blk i) dir (first p (block_files 16 (blk i) 0))
        (first p (dir_files rounds (i + 1) blk)) (file_get_block-laid laid i (omega arith))
        (find_in_block-first 16 (blk i) 0) (find_in_dir-first rounds (i + 1) laid (omega arith))
      ∙ ap (λ x. some (ok x, d))
          (sym (first-append p (block_files 16 (blk i) 0) (dir_files rounds (i + 1) blk)))

-- A name is read as before where nothing of it was written.
pub load_bytes-apart :
    (k b o : ℕ) (c off : ℕ) (vs : List ℕ) (d : Store)
    → All (λ v. v < 256) vs
    → (c ≢ b) ⊎ ((o + k ≤ off) ⊎ (off + length vs ≤ o))
    → load_bytes k b o (store_bytes c off vs d) ≡ load_bytes k b o d
unfolding load_bytes
load_bytes-apart zero b o c off vs d a h = refl
load_bytes-apart (suc k) b o c off vs d a h =
    let apart : (c ≢ b) ⊎ ((o + 1 + k ≤ off) ⊎ (off + length vs ≤ o + 1)) = ground (arith, h) in
    ground (
      arith,
      h,
      load_byte-store_bytes c off vs b o d a,
      load_bytes-apart k b (o + 1) c off vs d a apart,
    )

-- The bytes of a text and its terminator show the text.
text_of-load_bytes :
    (k b o : ℕ) (name : List ℕ) (d : Store)
    → IsText name
    → length name < k
    → ((j : ℕ) → j ≤ length name → load_byte b (o + j) d ≡ byte_at (name ++ 0 ∷ []) j)
    → text_of (load_bytes k b o d) ≡ name
unfolding load_bytes
text_of-load_bytes zero b o name d t h e = absurd (omega arith)
text_of-load_bytes (suc k) b o [] d t h e =
    let here : o + 0 ≡ o = omega arith in
    ground (arith, e 0 (omega arith), ap (λ x. load_byte b x d) here)
text_of-load_bytes (suc k) b o (c ∷ name) d t h e =
    let here : o + 0 ≡ o = omega arith in
    let next : (j : ℕ) → o + 1 + j ≡ o + suc j = λ j. omega arith in
    let rest =
      text_of-load_bytes k b (o + 1) name d t.1 (omega arith)
        (λ j hj. ap (λ x. load_byte b x d) (next j) ∙ e (suc j) (omega arith)) in
    ground (arith, t.0, rest, e 0 (omega arith), ap (λ x. load_byte b x d) here)

pub terminated-AreBytes :
    (name : List ℕ) → All (λ v. v < 256) name → All (λ v. v < 256) (name ++ 0 ∷ [])
terminated-AreBytes [] a = omega arith
terminated-AreBytes (c ∷ name) a = (a.0, terminated-AreBytes name a.1)

pub name_of-set :
    (b i : ℕ) (name : List ℕ) (d : Store)
    → IsText name
    → All (λ v. v < 256) name
    → length name < 128
    → name_of (b, i) (store_bytes b (i * 4) (name ++ 0 ∷ []) d) ≡ name
name_of-set b i name d t a h =
    text_of-load_bytes 128 b (i * 4) name (store_bytes b (i * 4) (name ++ 0 ∷ []) d) t h λ j hj.
      let back : i * 4 + j - i * 4 ≡ j = omega arith in
      ground (
        arith,
        hj,
        length-append name (0 ∷ []),
        ap (byte_at (name ++ 0 ∷ [])) back,
        load_byte-store_bytes b (i * 4) (name ++ 0 ∷ []) b (i * 4 + j) d
            (terminated-AreBytes name a),
      )
