-- ===== src/Fs/Content/Refinement.antt =====
-- file_read and file_write of tp-parte4/fs/fs.c against a file that is a size and a byte at each position.
use sistemas_operativos_2c.Common.{
  ℕ, zero, suc, ◌+◌, ◌-◌, ◌*◌, ◌<◌, ◌≤◌, ◌≡◌, refl, ap, ◌∙◌, min, List, [], ◌∷◌, length, ltb, leb,
  true, false, ◌&&◌, if◌then◌else◌, some, arith, All, Bool-cases, inl, inr,
}
use sistemas_operativos_2c.Errors.{Outcome, ok, err}
use sistemas_operativos_2c.Fs.{Store, D, pure, ◌>>=◌}
use sistemas_operativos_2c.Fs.Bytes.{byte_at}
use sistemas_operativos_2c.Fs.Content.{read_from, file_read, write_from, file_write}
use sistemas_operativos_2c.Fs.Content.Layout.{IsLaidOut, content, bytes_from}
use sistemas_operativos_2c.Fs.Content.Transfer.{read_from-laid}
use sistemas_operativos_2c.Fs.Content.Write.{write_from-Written}

pub record Contents : Type 0 where
  pub size : ℕ
  pub byte : ℕ → ℕ

pub data Call : Type 0 where
  read : (count offset : ℕ) → Call
  write : List ℕ → (offset : ℕ) → Call

pub data Reply : Type 0 where
  got : ℕ → List ℕ → Reply
  wrote : ℕ → Reply
  failed : Reply

abbrev pub put : Contents → List ℕ → ℕ → Contents
put s buf offset = record s {
  byte = λ q.
      if leb offset q && ltb q (offset + length buf) then byte_at buf (q - offset) else s.byte q;
}

-- What a call is to answer, and the file after it.
abbrev pub answer : Contents → Call → Reply
answer s (read count offset) =
    got (min count (s.size - offset)) (bytes_from s.byte offset (min count (s.size - offset)))
answer s (write buf offset) = wrote (length buf)

abbrev pub after : Contents → Call → Contents
after s (read count offset) = s
after s (write buf offset) = put s buf offset

abbrev pub answers : Contents → List Call → List Reply
answers s [] = []
answers s (c ∷ cs) = answer s c ∷ answers (after s c) cs

abbrev pub after_all : Contents → List Call → Contents
after_all s [] = s
after_all s (c ∷ cs) = after_all (after s c) cs

abbrev read_reply : Outcome (ℕ × List ℕ) → Reply
read_reply (ok (count, bytes)) = got count bytes
read_reply (err e) = failed

abbrev write_reply : Outcome ℕ → Reply
write_reply (ok count) = wrote count
write_reply (err e) = failed

abbrev pub call : ℕ × ℕ → Call → D Reply
call f (read count offset) = do r ← file_read f count offset; pure (read_reply r)
call f (write buf offset) = do r ← file_write f buf offset; pure (write_reply r)

abbrev pub calls : ℕ × ℕ → List Call → D (List Reply)
calls f [] = pure []
calls f (c ∷ cs) = do r ← call f c; rs ← calls f cs; pure (r ∷ rs)

-- A write inside the file, of bytes.
abbrev pub IsInside : ℕ → Call → Type 0
IsInside size (read count offset) = Unit
IsInside size (write buf offset) = (offset + length buf ≤ size) × All (λ v. v < 256) buf

pub record Represents (f : ℕ × ℕ) (n : ℕ) (blk : ℕ → ℕ) (s : Contents) (d : Store) : Type 0 where
  pub laid : IsLaidOut f n blk d
  pub sized : d.word f.0 (f.1 + 32) ≡ s.size
  pub room : s.size ≤ n * 4096
  pub bytes : (q : ℕ) → content n blk d q ≡ s.byte q

bytes_from-same :
    (g h : ℕ → ℕ) (pos k : ℕ) → ((q : ℕ) → g q ≡ h q) → bytes_from g pos k ≡ bytes_from h pos k
bytes_from-same g h pos zero e = refl
bytes_from-same g h pos (suc k) e =
    ap (λ v. v ∷ bytes_from g (pos + 1) k) (e pos)
    ∙ ap (λ l. h pos ∷ l) (bytes_from-same g h (pos + 1) k e)

file_read-past :
    (b i : ℕ) (d : Store) (count offset size : ℕ)
    → d.word b (i + 32) ≡ size
    → leb size offset ≡ true
    → file_read (b, i) count offset d ≡ some (ok (0, []), d)
unfolding file_read
file_read-past b i d count offset size e h = rw (file_read, e, h) refl

file_read-inside :
    (b i : ℕ) (d : Store) (count offset size : ℕ) (bs : List ℕ)
    → d.word b (i + 32) ≡ size
    → leb size offset ≡ false
    → read_from (min count (size - offset) + 1) (b, i) offset (offset + min count (size - offset)) d
      ≡ some (ok bs, d)
    → file_read (b, i) count offset d ≡ some (ok (min count (size - offset), bs), d)
unfolding file_read
file_read-inside b i d count offset size bs e h r = rw (file_read, e, h) (rw (◌>>=◌, r, e) refl)

file_write-inside :
    (b i : ℕ) (d d' : Store) (buf : List ℕ) (offset size : ℕ)
    → d.word b (i + 32) ≡ size
    → ltb size (offset + length buf) ≡ false
    → write_from (length buf + 1) (b, i) offset (offset + length buf) buf d ≡ some (ok tt, d')
    → file_write (b, i) buf offset d ≡ some (ok (length buf), d')
unfolding file_write
file_write-inside b i d d' buf offset size e h w = rw (file_write, e, h, ◌>>=◌, w) refl

calls-step :
    (f : ℕ × ℕ) (c : Call) (cs : List Call) (d d₁ d₂ : Store) (r : Reply) (rs : List Reply)
    → call f c d ≡ some (r, d₁)
    → calls f cs d₁ ≡ some (rs, d₂)
    → calls f (c ∷ cs) d ≡ some (r ∷ rs, d₂)
calls-step f (read count offset) cs d d₁ d₂ r rs e es = rw (◌>>=◌, e) (rw (◌>>=◌, es) refl)
calls-step f (write buf offset) cs d d₁ d₂ r rs e es = rw (◌>>=◌, e) (rw (◌>>=◌, es) refl)

module _ {b i n : ℕ} {blk : ℕ → ℕ} where
  pub file_read-answers :
      (s : Contents) (d : Store) (count offset : ℕ)
      → Represents (b, i) n blk s d
      → (let k = min count (s.size - offset) in
          file_read (b, i) count offset d ≡ some (ok (k, bytes_from s.byte offset k), d))
  file_read-answers s d count offset rep = elim (Bool-cases (leb s.size offset)) [
    | inl past ↦
        let nothing : 0 ≡ min count (s.size - offset) = ground (arith, past) in
        file_read-past b i d count offset s.size rep.sized past
        ∙ ap (λ k. some (ok (k, bytes_from s.byte offset k), d)) nothing
    | inr inside ↦
        let k = min count (s.size - offset) in
        let lt : offset < s.size = ground arith in
        let hk : offset + k ≤ n * 4096 = omega (arith, rep.room) in
        let back : offset + k - offset ≡ k = omega arith in
        file_read-inside b i d count offset s.size (bytes_from s.byte offset k) rep.sized inside (
          read_from-laid (k + 1) offset (offset + k) d rep.laid (omega arith) hk
          ∙ ap (λ m. some (ok (bytes_from (content n blk d) offset m), d)) back
          ∙ ap (λ l. some (ok l, d)) (bytes_from-same (content n blk d) s.byte offset k rep.bytes))
  ]

  call-read :
      (s : Contents) (d : Store) (count offset : ℕ)
      → Represents (b, i) n blk s d
      → call (b, i) (read count offset) d ≡ some (answer s (read count offset), d)
  call-read s d count offset rep = rw (◌>>=◌, file_read-answers s d count offset rep) refl

  pub file_write-puts :
      (s : Contents) (d : Store) (buf : List ℕ) (offset : ℕ)
      → Represents (b, i) n blk s d
      → offset + length buf ≤ s.size
      → All (λ v. v < 256) buf
      → (d' : Store) × (file_write (b, i) buf offset d ≡ some (ok (length buf), d'))
        × Represents (b, i) n blk (put s buf offset) d'
  file_write-puts s d buf offset rep h a =
      let (d', e, w) =
        write_from-Written (length buf + 1) offset (offset + length buf) buf d rep.laid
          (omega arith) (omega (arith, rep.room)) refl a in
      (
        d',
        file_write-inside b i d d' buf offset s.size rep.sized (ground (arith, h)) e,
        record {
          laid = w.laid;
          sized = ap (λ (m : ℕ → ℕ). m (i + 32)) w.meta ∙ rep.sized;
          room = rep.room;
          bytes = λ q.
              w.bytes q
              ∙ ap
                  (λ x.
                    if leb offset q && ltb q (offset + length buf)
                    then byte_at buf (q - offset)
                    else x)
                  (rep.bytes q);
        },
      )

  call-write :
      (s : Contents) (d : Store) (buf : List ℕ) (offset : ℕ)
      → Represents (b, i) n blk s d
      → offset + length buf ≤ s.size
      → All (λ v. v < 256) buf
      → (d' : Store) × (call (b, i) (write buf offset) d ≡ some (wrote (length buf), d'))
        × Represents (b, i) n blk (put s buf offset) d'
  call-write s d buf offset rep h a =
      let (d', e, rep') = file_write-puts s d buf offset rep h a in (d', rw (◌>>=◌, e) refl, rep')

  -- Any calls of file_read, and of file_write inside the file, on a file with direct blocks that are different
  -- data blocks: they return, answer as a file does that is a size and a byte at each position, and leave
  -- such a file, with the bytes that were written and no other byte changed.
  pub file_calls-refine :
      (s : Contents) (cs : List Call) (d : Store)
      → Represents (b, i) n blk s d
      → All (IsInside s.size) cs
      → (d' : Store) × (calls (b, i) cs d ≡ some (answers s cs, d'))
        × Represents (b, i) n blk (after_all s cs) d'
  file_calls-refine s [] d rep h = (d, refl, rep)
  file_calls-refine s (read count offset ∷ cs) d rep h =
      let (d', e, rep') = file_calls-refine s cs d rep h.1 in
      (
        d',
        calls-step (b, i) (read count offset) cs d d d' (answer s (read count offset))
            (answers s cs) (call-read s d count offset rep) e,
        rep',
      )
  file_calls-refine s (write buf offset ∷ cs) d rep h =
      let (d₁, e₁, rep₁) = call-write s d buf offset rep h.0.0 h.0.1 in
      let (d', e, rep') = file_calls-refine (put s buf offset) cs d₁ rep₁ h.1 in
      (
        d',
        calls-step (b, i) (write buf offset) cs d d₁ d' (wrote (length buf))
            (answers (put s buf offset) cs) e₁ e,
        rep',
      )
