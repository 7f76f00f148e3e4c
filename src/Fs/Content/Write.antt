-- ===== src/Fs/Content/Write.antt =====
-- The loop of file_write of tp-parte4/fs/fs.c writes the bytes of the positions and no other.
use sistemas_operativos_2c.Common.{
  ℕ, zero, suc, ◌+◌, ◌-◌, ◌*◌, ◌/◌, ◌%◌, ◌<◌, ◌≤◌, ◌≡◌, refl, ap, ◌∙◌, false, List, [], ◌∷◌, length,
  take, drop, ltb, leb, ◌&&◌, ◌==◌, if◌then◌else◌, some, arith, All, Bool-cases, inl, inr, ==-refl,
  ==_ne,
}
use native.Mathlib.Decide.{ℕ_discrete, dec_lt}
use sistemas_operativos_2c.Errors.{ok}
use sistemas_operativos_2c.Fs.{Store, ◌>>=◌, file_get_block}
use sistemas_operativos_2c.Fs.Bytes.{store_bytes, byte_at, load_byte-store_bytes, store_bytes-word}
use sistemas_operativos_2c.Fs.Content.{chunk, write_from}
use sistemas_operativos_2c.Fs.Content.Layout.{
  IsLaidOut, content, file_get_block-laid, store_bytes-IsLaidOut,
}
use sistemas_operativos_2c.Fs.Content.Transfer.{chunk_bounds}

length-take : (c : ℕ) (l : List ℕ) → c ≤ length l → length (take c l) ≡ c
length-take zero l h = refl
length-take (suc c) [] h = absurd (omega arith)
length-take (suc c) (x ∷ l) h = ap suc (length-take c l (omega arith))

length-drop : (c : ℕ) (l : List ℕ) → length (drop c l) ≡ length l - c
length-drop zero l = omega arith
length-drop (suc c) [] = omega arith
length-drop (suc c) (x ∷ l) = omega (arith, length-drop c l)

byte_at-take : (c : ℕ) (l : List ℕ) (i : ℕ) → i < c → byte_at (take c l) i ≡ byte_at l i
byte_at-take zero l i h = absurd (omega arith)
byte_at-take (suc c) [] i h = refl
byte_at-take (suc c) (x ∷ l) zero h = refl
byte_at-take (suc c) (x ∷ l) (suc i) h = byte_at-take c l i (omega arith)

byte_at-drop : (c : ℕ) (l : List ℕ) (i : ℕ) → byte_at (drop c l) i ≡ byte_at l (c + i)
byte_at-drop zero l i = ap (byte_at l) (omega arith)
byte_at-drop (suc c) [] i = refl
byte_at-drop (suc c) (x ∷ l) i =
    byte_at-drop c l i ∙ ap (byte_at (x ∷ l)) (let e : suc (c + i) ≡ suc c + i = omega arith in e)

All-take : (c : ℕ) (l : List ℕ) → All (λ v. v < 256) l → All (λ v. v < 256) (take c l)
All-take zero l a = tt
All-take (suc c) [] a = tt
All-take (suc c) (x ∷ l) a = (a.0, All-take c l a.1)

All-drop : (c : ℕ) (l : List ℕ) → All (λ v. v < 256) l → All (λ v. v < 256) (drop c l)
All-drop zero l a = a
All-drop (suc c) [] a = tt
All-drop (suc c) (x ∷ l) a = All-drop c l a.1

-- Whether a position is among those of a turn.
in_chunk :
    (pos c q : ℕ)
    → pos % 4096 + c ≤ 4096
    → (pos / 4096 == q / 4096 && (leb (pos % 4096) (q % 4096) && ltb (q % 4096) (pos % 4096 + c)))
      ≡ (leb pos q && ltb q (pos + c))
in_chunk pos c q h = ground arith

same_offset : (pos q : ℕ) → pos / 4096 ≡ q / 4096 → q % 4096 - pos % 4096 ≡ q - pos
same_offset pos q e = omega arith

module _ {f : ℕ × ℕ} {n : ℕ} {blk : ℕ → ℕ} {d : Store} (laid : IsLaidOut f n blk d) where
  same_block : (i j : ℕ) → i < n → j < n → (blk i == blk j) ≡ (i == j)
  same_block i j hi hj = elim (ℕ_discrete i j) [
    | yes e ↦ rw (e, ==-refl j, ==-refl (blk j)) refl
    | no ne ↦ rw (==_ne i j ne, ==_ne (blk i) (blk j) (λ e. ne (laid.different i j hi hj e))) refl
  ]

  -- What one turn writes.
  content-store_bytes :
      (pos : ℕ) (vs : List ℕ) (q : ℕ)
      → All (λ v. v < 256) vs
      → pos % 4096 + length vs ≤ 4096
      → pos < n * 4096
      → pos + length vs ≤ n * 4096
      → content n blk (store_bytes (blk (pos / 4096)) (pos % 4096) vs d) q
        ≡ (if leb pos q && ltb q (pos + length vs) then byte_at vs (q - pos) else content n blk d q)
  content-store_bytes pos vs q a h hp hl = elim (dec_lt q (n * 4096)) [
    | no out ↦ ground (arith, out, hl)
    | yes inside ↦
        let e =
          load_byte-store_bytes (blk (pos / 4096)) (pos % 4096) vs (blk (q / 4096)) (q % 4096) d
            a in
        let same = same_block (pos / 4096) (q / 4096) (omega arith) (omega arith) in
        elim (ℕ_discrete (pos / 4096) (q / 4096)) [
          | yes here ↦ ground (
            arith,
            inside,
            e,
            same,
            here,
            in_chunk pos (length vs) q h,
            ap (byte_at vs) (same_offset pos q here),
          )
          | no other ↦ ground (arith, inside, e, same, other, in_chunk pos (length vs) q h)
        ]
  ]

-- The bytes of a turn, then those of the others, are the buffer's.
written_bytes :
    (buf : List ℕ) (pos c last q old : ℕ)
    → pos + c ≤ last
    → (if leb (pos + c) q && ltb q last
        then byte_at (drop c buf) (q - (pos + c))
        else if leb pos q && ltb q (pos + c)
        then byte_at (take c buf) (q - pos)
        else old)
      ≡ (if leb pos q && ltb q last then byte_at buf (q - pos) else old)
written_bytes buf pos c last q old h = elim (dec_lt q pos) [
  | yes before ↦ ground (arith, before)
  | no h₁ ↦ elim (dec_lt q (pos + c)) [
    | yes here ↦ ground (arith, h, h₁, here, byte_at-take c buf (q - pos) (omega arith))
    | no later ↦
        let back : c + (q - (pos + c)) ≡ q - pos = omega arith in
        ground (arith, h, h₁, later, byte_at-drop c buf (q - (pos + c)), ap (byte_at buf) back)
  ]
]

write_from-step :
    (fuel pos last b : ℕ) (f : ℕ × ℕ) (buf : List ℕ) (d : Store)
    → leb last pos ≡ false
    → file_get_block f (pos / 4096) d ≡ some (ok b, d)
    → write_from (suc fuel) f pos last buf d
      ≡ write_from fuel f
          (pos + chunk pos last)
          last
          (drop (chunk pos last) buf)
          (store_bytes b (pos % 4096) (take (chunk pos last) buf) d)
unfolding write_from
write_from-step fuel pos last b f buf d more e = rw (more, ◌>>=◌, e) refl

-- What is so after `buf` was written at `pos`.
pub record Written (f : ℕ × ℕ) (n : ℕ) (blk : ℕ → ℕ) (pos last : ℕ) (buf : List ℕ) (d d' : Store)
    : Type 0 where
  pub laid : IsLaidOut f n blk d'
  pub meta : d'.word f.0 ≡ d.word f.0
  pub bytes :
      (q : ℕ)
      → content n blk d' q
        ≡ (if leb pos q && ltb q last then byte_at buf (q - pos) else content n blk d q)

module _ {f : ℕ × ℕ} {n : ℕ} {blk : ℕ → ℕ} where
  pub write_from-Written :
      (fuel pos last : ℕ) (buf : List ℕ) (d : Store)
      → IsLaidOut f n blk d
      → last - pos < fuel
      → last ≤ n * 4096
      → pos + length buf ≡ last
      → All (λ v. v < 256) buf
      → (d' : Store) × (write_from fuel f pos last buf d ≡ some (ok tt, d'))
        × Written f n blk pos last buf d d'
  unfolding write_from
  write_from-Written zero pos last buf d laid hf hl hb a = absurd (omega arith)
  write_from-Written (suc fuel) pos last buf d laid hf hl hb a = elim (Bool-cases (leb last pos)) [
    | inl done ↦
        (d, rw done refl, record { laid = laid; meta = refl; bytes = λ q. ground (arith, done) })
    | inr more ↦
        let lt : pos < last = ground arith in
        let (c0, c1, c2) = chunk_bounds pos last lt in
        let c = chunk pos last in
        let i = pos / 4096 in
        let hi : i < n = omega arith in
        let vs = take c buf in
        let lv : length vs ≡ c = length-take c buf (omega arith) in
        let d₁ = store_bytes (blk i) (pos % 4096) vs d in
        let (d', e, w) =
          write_from-Written fuel (pos + c) last (drop c buf) d₁
            (store_bytes-IsLaidOut laid i (pos % 4096) vs hi) (omega arith) hl
            (omega (arith, length-drop c buf)) (All-drop c buf a) in
        (
          d',
          write_from-step fuel pos last (blk i) f buf d more (file_get_block-laid laid i hi) ∙ e,
          record {
            laid = w.laid;
            meta = w.meta ∙ store_bytes-word (blk i) (pos % 4096) vs f.0 d (laid.apart i hi).0;
            bytes = λ q.
                w.bytes q
                ∙ ap
                    (λ x.
                      if leb (pos + c) q && ltb q last
                      then byte_at (drop c buf) (q - (pos + c))
                      else x)
                    (content-store_bytes laid pos vs q (All-take c buf a) (omega arith)
                        (omega arith) (omega arith)
                      ∙ ap
                          (λ m.
                            if leb pos q && ltb q (pos + m)
                            then byte_at vs (q - pos)
                            else content n blk d q)
                          lv)
                ∙ written_bytes buf pos c last q (content n blk d q) c2;
          },
        )
  ]
