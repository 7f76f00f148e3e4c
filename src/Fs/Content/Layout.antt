-- ===== src/Fs/Content/Layout.antt =====
-- A file of tp-parte4/fs whose blocks are direct, and its bytes by position.
use sistemas_operativos_2c.Common.{
  ℕ, zero, suc, ◌+◌, ◌*◌, ◌/◌, ◌%◌, ◌<◌, ◌≤◌, ◌≡◌, ◌≢◌, refl, ap, ◌∙◌, List, [], ◌∷◌, ◌++◌, ltb,
  if◌then◌else◌, some, arith,
}
use sistemas_operativos_2c.Errors.{ok}
use sistemas_operativos_2c.Fs.{Store, s_nblocks, file_get_block}
use sistemas_operativos_2c.Fs.Blocks.{file_get_block-there}
use sistemas_operativos_2c.Fs.Bytes.{load_byte, load_bytes, store_bytes, store_bytes-word}

-- The first `n` blocks of file `f` are `blk 0`, `blk 1`, ...: different data blocks.
pub record IsLaidOut (f : ℕ × ℕ) (n : ℕ) (blk : ℕ → ℕ) (d : Store) : Type 0 where
  pub direct : n ≤ 10
  pub slots : (i : ℕ) → i < n → d.word f.0 (f.1 + 34 + i) ≡ blk i
  pub real : (i : ℕ) → i < n → (blk i ≢ 0) × (blk i < s_nblocks d)
  pub apart : (i : ℕ) → i < n → (blk i ≢ f.0) × (blk i ≢ 1)
  pub different : (i j : ℕ) → i < n → j < n → blk i ≡ blk j → i ≡ j

-- The byte at a position of the first `n` blocks.
abbrev pub content : (n : ℕ) (blk : ℕ → ℕ) → Store → ℕ → ℕ
content n blk d pos = if ltb pos (n * 4096) then load_byte (blk (pos / 4096)) (pos % 4096) d else 0

abbrev pub bytes_from : (ℕ → ℕ) → (pos n : ℕ) → List ℕ
bytes_from g pos zero = []
bytes_from g pos (suc n) = g pos ∷ bytes_from g (pos + 1) n

pub bytes_from-append :
    (g : ℕ → ℕ) (pos m n : ℕ)
    → bytes_from g pos (m + n) ≡ bytes_from g pos m ++ bytes_from g (pos + m) n
bytes_from-append g pos zero n =
    let e : 0 + n ≡ n = omega arith in let e' : pos + 0 ≡ pos = omega arith in rw (e, e') refl
bytes_from-append g pos (suc m) n =
    let e : suc m + n ≡ suc (m + n) = omega arith in
    let e' : pos + suc m ≡ pos + 1 + m = omega arith in
    rw (e, e') (ap (λ l. g pos ∷ l) (bytes_from-append g (pos + 1) m n))

-- The rest of a block, if there is one.
abbrev Rest : (n : ℕ) (blk : ℕ → ℕ) → Store → (k pos off : ℕ) → Type 0
Rest n blk d k pos off =
    load_bytes k (blk (pos / 4096)) (off + 1) d ≡ bytes_from (content n blk d) (pos + 1) k

pub load_bytes-content :
    (n : ℕ) (blk : ℕ → ℕ) (d : Store) (k pos off : ℕ)
    → off ≡ pos % 4096
    → off + k ≤ 4096
    → pos + k ≤ n * 4096
    → load_bytes k (blk (pos / 4096)) off d ≡ bytes_from (content n blk d) pos k
unfolding load_bytes
load_bytes-content n blk d zero pos off e h l = refl
load_bytes-content n blk d (suc zero) pos off e h l = ground (arith, e, l)
load_bytes-content n blk d (suc (suc k)) pos off e h l =
    let same : pos / 4096 ≡ (pos + 1) / 4096 = omega arith in
    let rest : Rest n blk d (suc k) pos off =
      ap (λ i. load_bytes (suc k) (blk i) (off + 1) d) same
      ∙ load_bytes-content n blk d (suc k) (pos + 1) (off + 1) (omega arith) (omega arith)
          (omega arith) in
    ground (arith, e, l, rest)

module _ {f : ℕ × ℕ} {n : ℕ} {blk : ℕ → ℕ} {d : Store} (laid : IsLaidOut f n blk d) where
  -- file_get_block finds the block of a position.
  pub file_get_block-laid : (i : ℕ) → i < n → file_get_block f i d ≡ some (ok (blk i), d)
  file_get_block-laid i h =
      file_get_block-there f.0 f.1 i (blk i) d (omega (arith, laid.direct)) (laid.slots i h)
        (laid.real i h).0 (laid.real i h).1

  -- A write into one of the blocks keeps the layout.
  pub store_bytes-IsLaidOut :
      (i off : ℕ) (vs : List ℕ) → i < n → IsLaidOut f n blk (store_bytes (blk i) off vs d)
  store_bytes-IsLaidOut i off vs h = record {
    direct = laid.direct;
    slots = λ j hj.
        ap (λ (w : ℕ → ℕ). w (f.1 + 34 + j))
          (store_bytes-word (blk i) off vs f.0 d (laid.apart i h).0)
        ∙ laid.slots j hj;
    real = λ j hj. (
      (laid.real j hj).0,
      omega (
        arith,
        (laid.real j hj).1,
        ap (λ (w : ℕ → ℕ). w 1) (store_bytes-word (blk i) off vs 1 d (laid.apart i h).1),
      ),
    );
    apart = laid.apart;
    different = laid.different;
  }
