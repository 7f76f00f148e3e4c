-- ===== src/Fs/Content/Transfer.antt =====
-- The loops of file_read and file_write of tp-parte4/fs/fs.c copy the bytes of the positions.
use sistemas_operativos_2c.Common.{
  ℕ, zero, suc, ◌+◌, ◌-◌, ◌*◌, ◌/◌, ◌%◌, ◌<◌, ◌≤◌, ◌≡◌, refl, ap, ◌∙◌, sym, false, List, ◌++◌, leb,
  some, arith, Bool-cases, inl, inr,
}
use sistemas_operativos_2c.Errors.{ok}
use sistemas_operativos_2c.Fs.{Store, ◌>>=◌, file_get_block}
use sistemas_operativos_2c.Fs.Bytes.{load_bytes}
use sistemas_operativos_2c.Fs.Content.{chunk, read_from}
use sistemas_operativos_2c.Fs.Content.Layout.{
  IsLaidOut, content, bytes_from, bytes_from-append, load_bytes-content, file_get_block-laid,
}

-- A turn before the end copies a byte at least, and stays in its block.
pub chunk_bounds :
    (pos last : ℕ)
    → pos < last
    → (0 < chunk pos last) × (pos % 4096 + chunk pos last ≤ 4096) × (pos + chunk pos last ≤ last)
chunk_bounds pos last h = omega arith

read_from-step :
    (fuel pos last b : ℕ) (f : ℕ × ℕ) (bs : List ℕ) (d : Store)
    → leb last pos ≡ false
    → file_get_block f (pos / 4096) d ≡ some (ok b, d)
    → read_from fuel f (pos + chunk pos last) last d ≡ some (ok bs, d)
    → read_from (suc fuel) f pos last d
      ≡ some (ok (load_bytes (chunk pos last) b (pos % 4096) d ++ bs), d)
unfolding read_from
read_from-step fuel pos last b f bs d more e rest = rw (more, ◌>>=◌, e, rest) refl

-- The bytes of a turn and those of the others.
bytes_from-chunk :
    (g : ℕ → ℕ) (pos c last : ℕ)
    → pos + c ≤ last
    → bytes_from g pos c ++ bytes_from g (pos + c) (last - (pos + c))
      ≡ bytes_from g pos (last - pos)
bytes_from-chunk g pos c last h =
    sym (bytes_from-append g pos c (last - (pos + c))) ∙ ap (bytes_from g pos) (omega arith)

module _ {f : ℕ × ℕ} {n : ℕ} {blk : ℕ → ℕ} where
  pub read_from-laid :
      (fuel pos last : ℕ) (d : Store)
      → IsLaidOut f n blk d
      → last - pos < fuel
      → last ≤ n * 4096
      → read_from fuel f pos last d ≡ some (ok (bytes_from (content n blk d) pos (last - pos)), d)
  unfolding read_from
  read_from-laid zero pos last d laid hf hl = absurd (omega arith)
  read_from-laid (suc fuel) pos last d laid hf hl = elim (Bool-cases (leb last pos)) [
    | inl done ↦ let z : last - pos ≡ 0 = ground arith in rw (done, z) refl
    | inr more ↦
        let lt : pos < last = ground arith in
        let (c0, c1, c2) = chunk_bounds pos last lt in
        read_from-step fuel pos last (blk (pos / 4096)) f
          (bytes_from (content n blk d) (pos + chunk pos last) (last - (pos + chunk pos last))) d
          more (file_get_block-laid laid (pos / 4096) (omega arith))
          (read_from-laid fuel (pos + chunk pos last) last d laid (omega arith) hl)
        ∙ ap
            (λ l. some (
              ok (
                  l
                  ++ bytes_from (content n blk d) (pos + chunk pos last)
                      (last - (pos + chunk pos last))),
              d,
            ))
            (load_bytes-content n blk d (chunk pos last) pos (pos % 4096) refl c1 (omega arith))
        ∙ ap (λ l. some (ok l, d)) (bytes_from-chunk (content n blk d) pos (chunk pos last) last c2)
  ]
