-- ===== src/Fs/Flush.antt =====
-- flush_block of tp-parte4/fs/bc.c and fs_sync of tp-parte4/fs/fs.c: what is on the disk afterwards.
use sistemas_operativos_2c.Common.{
  ℕ, zero, suc, ◌+◌, ◌-◌, ◌<◌, ◌≤◌, ◌≡◌, ◌≢◌, inl, inr, refl, true, false, some, update, ◌==◌,
  if◌then◌else◌, Bool-cases, ==_ne, ==-refl, update_self, update_ne, arith, subst, ap, sym, ◌∙◌,
}
use native.Mathlib.Decide.{ℕ_discrete}
use sistemas_operativos_2c.Fs.{
  Store, s_nblocks, stored, disk_blocks, flush_block, sync_from, fs_sync, ◌>>=◌,
}
use sistemas_operativos_2c.Fs.Bitmap.{
  written_back, flush_block-written_back, written_back-word, diskaddr-inside, written_back-others,
}

-- A block that is not dirty is on the disk as the cache has it.
abbrev pub IsCoherent : Store → Type 0
IsCoherent d = (b : ℕ) → d.dirty b ≡ false → d.disk b ≡ d.word b

-- A write to the cache keeps it coherent with the disk.
pub stored-IsCoherent : (b i w : ℕ) (d : Store) → IsCoherent d → IsCoherent (stored b i w d)
stored-IsCoherent b i w d good x clean = elim (ℕ_discrete b x) [
  | yes e ↦ absurd (ground (arith, e, clean))
  | no ne ↦
      good x (sym (update_ne d.dirty b true x ne) ∙ clean)
      ∙ sym (update_ne d.word b (update (d.word b) i w) x ne)
]

written_back_self : (b : ℕ) (d : Store) → IsCoherent d → (written_back b d).disk b ≡ d.word b
written_back_self b d good = elim (Bool-cases (d.dirty b)) [
  | inl e ↦ rw e (update_self d.disk b (d.word b))
  | inr e ↦ rw e (good b e)
]

-- Flushing a block of the disk keeps the cache coherent and its words, leaves the disk's other blocks,
-- and puts the words of the cache on the disk.
pub flush_block-written :
    (b : ℕ) (d : Store)
    → b < disk_blocks
    → IsCoherent d
    → (d' : Store) × (flush_block b d ≡ some (tt, d'))
      × IsCoherent d'
      × (d'.word ≡ d.word)
      × ((x : ℕ) → d'.disk x ≡ (if b == x then d.word x else d.disk x))
flush_block-written b d inside good = (
  written_back b d,
  flush_block-written_back b d inside,
  coherent,
  written_back-word b d,
  on_disk,
)
  where
    on_disk : (x : ℕ) → (written_back b d).disk x ≡ (if b == x then d.word x else d.disk x)
    on_disk x = elim (ℕ_discrete b x) [
      | yes e ↦
          subst (λ x. (written_back b d).disk x ≡ (if b == x then d.word x else d.disk x)) e
            (rw (==-refl b) (written_back_self b d good))
      | no ne ↦ rw (==_ne b x ne) (written_back-others b x d ne).1
    ]

    coherent : IsCoherent (written_back b d)
    coherent x clean = elim (ℕ_discrete b x) [
      | yes e ↦
          subst (λ x. (written_back b d).disk x ≡ (written_back b d).word x) e
            (written_back_self b d good ∙ sym (ap (λ (w : ℕ → ℕ → ℕ). w b) (written_back-word b d)))
      | no ne ↦
          let same = written_back-others b x d ne in
          same.1
          ∙ good x (sym same.0 ∙ clean)
          ∙ sym (ap (λ (w : ℕ → ℕ → ℕ). w x) (written_back-word b d))
    ]

sync_from-written :
    (rounds i : ℕ) (d : Store)
    → i ≢ 0
    → i + rounds ≤ s_nblocks d
    → s_nblocks d ≤ disk_blocks
    → IsCoherent d
    → (d' : Store) × (sync_from rounds i d ≡ some (tt, d'))
      × (d'.word ≡ d.word)
      × ((b : ℕ) → i ≤ b → b < i + rounds → d'.disk b ≡ d.word b)
      × ((b : ℕ) → b < i → d'.disk b ≡ d.disk b)
unfolding sync_from
sync_from-written zero i d pos room small good =
    (d, refl, refl, (λ b lo hi. absurd (omega arith)), λ b lo. refl)
sync_from-written (suc rounds) i d pos room small good =
    let (d1, run, coherent, same, on_disk) = flush_block-written i d (omega arith) good in
    let nb : s_nblocks d1 ≡ s_nblocks d = ap (λ (w : ℕ → ℕ → ℕ). w 1 1) same in
    let (d2, again, same', later, sooner) =
      sync_from-written rounds (i + 1) d1 (omega arith) (omega (arith, nb)) (omega (arith, nb))
        coherent in
    (
      d2,
      rw (diskaddr-inside i d pos (omega arith), ◌>>=◌) (rw (run, ◌>>=◌) again),
      same' ∙ same,
      (λ b lo hi. elim (ℕ_discrete i b) [
        | yes e ↦
            subst (λ b. d2.disk b ≡ d.word b) e
              (sooner i (omega arith) ∙ on_disk i ∙ rw (==-refl i))
        | no ne ↦ later b (omega (arith, ne)) (omega arith) ∙ ap (λ (w : ℕ → ℕ → ℕ). w b) same
      ]),
      λ b lo. sooner b (omega arith) ∙ on_disk b ∙ ground (arith, lo),
    )

-- On a disk whose size passed check_super, with a coherent cache, fs_sync does not panic; afterwards
-- every block but block 0 is on the disk as the cache has it, and the cache's words are the same.
pub fs_sync-written :
    (d : Store) (b : ℕ)
    → s_nblocks d ≤ disk_blocks
    → IsCoherent d
    → b ≢ 0
    → b < s_nblocks d
    → (d' : Store) × (fs_sync d ≡ some (tt, d')) × (d'.word ≡ d.word) × (d'.disk b ≡ d.word b)
unfolding fs_sync
fs_sync-written d b small good pos inside = elim (ℕ_discrete (s_nblocks d) 0) [
  | yes e ↦ (d, rw e, refl, absurd (omega (arith, e, inside)))
  | no ne ↦
      let (d', run, same, written, kept) =
        sync_from-written (s_nblocks d - 1) 1 d (omega arith) (omega (arith, ne)) small good in
      (d', run, same, written b (omega (arith, pos)) (omega (arith, inside)))
]
