-- ===== src/Fs/Dir/Files.antt =====
-- The files of a directory of tp-parte4/fs as a list, and file_flush, which changes no word of the cache.
use sistemas_operativos_2c.Common.{
  ℕ, zero, suc, ◌+◌, ◌*◌, ◌<◌, ◌≤◌, ◌≡◌, ◌≢◌, ◌⊎◌, inl, inr, refl, subst, ap, sym, ◌∙◌, Bool, true,
  false, none, some, List, [], ◌∷◌, ◌++◌, arith, All, Bool-cases, ==_ne, leb,
}
use sistemas_operativos_2c.Fs.{
  Store, s_nblocks, disk_blocks, blocks_of, flush_block, flush_blocks, file_flush, ◌>>=◌, ◌>>◌,
}
use sistemas_operativos_2c.Fs.Bitmap.{written_back, flush_block-written_back, written_back-word}
use sistemas_operativos_2c.Fs.Blocks.{file_block_walk-direct}
use sistemas_operativos_2c.Fs.Content.Layout.{IsLaidOut}
use sistemas_operativos_2c.Fs.Dir.Names.{first, block_files, dir_files}

-- One of the files of the first `n` blocks.
abbrev pub IsFile : (n : ℕ) → (ℕ → ℕ) → ℕ × ℕ → Type 0
IsFile n blk f = (k : ℕ) × (j : ℕ) × (k < n) × (j < 16) × (f ≡ (blk k, j * 64))

All-append : (P : ℕ × ℕ → Type 0) (l m : List (ℕ × ℕ)) → All P l → All P m → All P (l ++ m)
All-append P [] m a b = b
All-append P (x ∷ l) m a b = (a.0, All-append P l m a.1 b)

block_files-AreFiles :
    (n : ℕ) (blk : ℕ → ℕ) (k rounds j : ℕ)
    → k < n
    → j + rounds ≤ 16
    → All (IsFile n blk) (block_files rounds (blk k) j)
block_files-AreFiles n blk k zero j hk h = tt
block_files-AreFiles n blk k (suc rounds) j hk h =
    ((k, j, hk, omega arith, refl), block_files-AreFiles n blk k rounds (j + 1) hk (omega arith))

pub dir_files-AreFiles :
    (n : ℕ) (blk : ℕ → ℕ) (rounds i : ℕ)
    → i + rounds ≤ n
    → All (IsFile n blk) (dir_files rounds i blk)
dir_files-AreFiles n blk zero i h = tt
dir_files-AreFiles n blk (suc rounds) i h =
    All-append (IsFile n blk) (block_files 16 (blk i) 0) (dir_files rounds (i + 1) blk)
      (block_files-AreFiles n blk i 16 0 (omega arith) (omega arith))
      (dir_files-AreFiles n blk rounds (i + 1) (omega arith))

module _ (p : ℕ × ℕ → Bool) (x : ℕ × ℕ) (l : List (ℕ × ℕ)) where
  first-here : p x ≡ true → first p (x ∷ l) ≡ some x
  first-here h = rw h refl

  first-there : p x ≡ false → first p (x ∷ l) ≡ first p l
  first-there h = rw h refl

pub first-All :
    (p : ℕ × ℕ → Bool) (P : ℕ × ℕ → Type 0) (l : List (ℕ × ℕ)) (a : ℕ × ℕ)
    → All P l
    → first p l ≡ some a
    → P a
first-All p P [] a h e = cc
first-All p P (x ∷ l) a h e = elim (Bool-cases (p x)) [
  | inl here ↦ let same : x ≡ a = cc (first-here p x l here) in subst P same h.0
  | inr other ↦ first-All p P l a h.1 (sym (first-there p x l other) ∙ e)
]

-- If the first file that passes one test is the only one that passes another, it is the first that passes it.
pub first_unique :
    (p q : ℕ × ℕ → Bool) (l : List (ℕ × ℕ)) (a : ℕ × ℕ)
    → first p l ≡ some a
    → q a ≡ true
    → All (λ x. (x ≡ a) ⊎ (q x ≡ false)) l
    → first q l ≡ some a
first_unique p q [] a e qa h = cc
first_unique p q (x ∷ l) a e qa h = elim (Bool-cases (q x)) [
  | inl yes_q ↦ elim (h.0) [ inl same ↦ first-here q x l yes_q ∙ ap some same | inr not_q ↦ cc ]
  | inr not_q ↦ elim (Bool-cases (p x)) [
    | inl here ↦ let same : x ≡ a = cc (first-here p x l here) in absurd (cc (ap q same))
    | inr other ↦
        first-there q x l not_q ∙ first_unique p q l a (sym (first-there p x l other) ∙ e) qa h.1
  ]
]

pub first-none : (p : ℕ × ℕ → Bool) (l : List (ℕ × ℕ)) → first p l ≡ none → All (λ x. p x ≡ false) l
first-none p [] e = tt
first-none p (x ∷ l) e = elim (Bool-cases (p x)) [
  | inl here ↦ cc (first-here p x l here)
  | inr other ↦ (other, first-none p l (sym (first-there p x l other) ∙ e))
]

-- A layout depends on the words of the cache only.
pub IsLaidOut-word :
    (f : ℕ × ℕ) (n : ℕ) (blk : ℕ → ℕ) (d d' : Store)
    → d'.word ≡ d.word
    → IsLaidOut f n blk d
    → IsLaidOut f n blk d'
IsLaidOut-word f n blk d d' e laid = record {
  direct = laid.direct;
  slots = λ i h. ap (λ (w : ℕ → ℕ → ℕ). w f.0 (f.1 + 34 + i)) e ∙ laid.slots i h;
  real =
      λ i h. ((laid.real i h).0, omega (arith, (laid.real i h).1, ap (λ (w : ℕ → ℕ → ℕ). w 1 1) e));
  apart = laid.apart;
  different = laid.different;
}

flush_blocks-step :
    (rounds i b c p : ℕ) (d d₁ : Store)
    → i < 10
    → d.word b (c + 34 + i) ≡ p
    → p ≢ 0
    → p < s_nblocks d
    → flush_block p d ≡ some (tt, d₁)
    → flush_blocks (suc rounds) i (b, c) d ≡ flush_blocks rounds (i + 1) (b, c) d₁
unfolding flush_blocks
flush_blocks-step rounds i b c p d d₁ h slot pos inside e =
    let small : leb (s_nblocks d) p ≡ false = ground (arith, inside) in
    rw (◌>>◌, ◌>>=◌, file_block_walk-direct b c i false d h)
      (rw (◌>>◌, ◌>>=◌, slot, ==_ne p 0 pos, small, e) refl)

-- Flushing changes no word of the cache.
flush_blocks-keeps :
    (rounds i : ℕ) (f : ℕ × ℕ) {n : ℕ} {blk : ℕ → ℕ} (d : Store)
    → IsLaidOut f n blk d
    → i + rounds ≤ n
    → s_nblocks d ≤ disk_blocks
    → (d' : Store) × (flush_blocks rounds i f d ≡ some (tt, d')) × (d'.word ≡ d.word)
unfolding flush_blocks
flush_blocks-keeps zero i f d laid h s = (d, refl, refl)
flush_blocks-keeps (suc rounds) i f {n} {blk} d laid h s =
    let p = blk i in
    let hi : i < n = omega arith in
    let (pos, inside) = laid.real i hi in
    let d₁ = written_back p d in
    let same = written_back-word p d in
    let (d', e, w) =
      flush_blocks-keeps rounds (i + 1) f d₁ (IsLaidOut-word f n blk d d₁ same laid) (omega arith)
        (omega (arith, ap (λ (w : ℕ → ℕ → ℕ). w 1 1) same)) in
    (
      d',
      flush_blocks-step rounds i f.0 f.1 p d d₁ (omega (arith, laid.direct)) (laid.slots i hi) pos
            inside (flush_block-written_back p d (omega arith))
          ∙ e,
      w ∙ same,
    )

file_flush-step :
    (b c n : ℕ) (d d₁ d₂ : Store)
    → d.word b (c + 32) ≡ n * 4096
    → flush_blocks n 0 (b, c) d ≡ some (tt, d₁)
    → flush_block b d₁ ≡ some (tt, d₂)
    → d₂.word b (c + 44) ≡ 0
    → file_flush (b, c) d ≡ some (tt, d₂)
unfolding file_flush
file_flush-step b c n d d₁ d₂ size e e' ind =
    let blocks : blocks_of (n * 4096) ≡ n = omega arith in
    rw (◌>>◌, ◌>>=◌, size, blocks, e) (rw (◌>>◌, ◌>>=◌, e', ind) refl)

-- file_flush of a file whose blocks are direct writes back its blocks and its own, and changes no word.
pub file_flush-keeps :
    (b c n : ℕ) (blk : ℕ → ℕ) (d : Store)
    → IsLaidOut (b, c) n blk d
    → d.word b (c + 32) ≡ n * 4096
    → d.word b (c + 44) ≡ 0
    → b < disk_blocks
    → s_nblocks d ≤ disk_blocks
    → (d' : Store) × (file_flush (b, c) d ≡ some (tt, d')) × (d'.word ≡ d.word)
file_flush-keeps b c n blk d laid size ind hb s =
    let (d₁, e, w) = flush_blocks-keeps n 0 (b, c) d laid (omega arith) s in
    let kept = written_back-word b d₁ ∙ w in
    (
      written_back b d₁,
      file_flush-step b c n d d₁ (written_back b d₁) size e (flush_block-written_back b d₁ hb)
          (ap (λ (w : ℕ → ℕ → ℕ). w b (c + 44)) kept ∙ ind),
      kept,
    )
