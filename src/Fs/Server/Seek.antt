-- ===== src/Fs/Server/Seek.antt =====
-- serve_read and serve_write of tp-parte4/fs/serv.c at the seek position of an open file.
use sistemas_operativos_2c.Common.{
  ℕ, ◌+◌, ◌-◌, ◌%◌, ◌^◌, ◌<◌, ◌≤◌, ◌≡◌, refl, ap, sym, ◌∙◌, min, true, false, none, some, List, [],
  ◌∷◌, length, leb, ltb, ◌==◌, ==-refl, arith, update, All,
}
use sistemas_operativos_2c.Errors.{Outcome, ok}
use sistemas_operativos_2c.Fs.{Store}
use sistemas_operativos_2c.Fs.Content.{file_read, file_write}
use sistemas_operativos_2c.Fs.Content.Layout.{bytes_from}
use sistemas_operativos_2c.Fs.Content.Refinement.{
  Contents, Reply, got, wrote, put, answers, after_all, Represents, file_read-answers,
  file_write-puts,
}
use sistemas_operativos_2c.Fs.Server.{Server, S, ◌>>=◌, ◌>>◌, on_cache, openfile_lookup}
use sistemas_operativos_2c.Fs.Server.Handlers.{
  int_at, put_bytes, put_int, with_file, read_file, write_file, serve_read, serve_write, handler,
  serve_turn,
}
use sistemas_operativos_2c.Fs.Server.Requests.{
  IsOpen, Request, next, put_next, page_of, code, taken_from, asked, asked_all, placed, end_of, Fit,
  bytes_from-put_bytes, length-bytes_from, page_of-fileid,
}

with_file-open :
    (fileid : ℕ) (f : ℕ × ℕ) (k : ℕ → ℕ × ℕ → S (Outcome ℕ)) (s : Server)
    → 2 ≤ s.pageref (fileid % 1024)
    → (s.opentab (fileid % 1024)).o_fileid ≡ fileid
    → (s.opentab (fileid % 1024)).o_file ≡ some f
    → with_file fileid k s ≡ k (fileid % 1024) f s
unfolding with_file openfile_lookup
with_file-open fileid f k s m e o =
    let many : leb (s.pageref (fileid % 1024)) 1 ≡ false = ground (arith, m) in
    let mine : ((s.opentab (fileid % 1024)).o_fileid == fileid) ≡ true = ground (arith, e) in
    rw (◌>>=◌, many, mine) (rw (◌>>=◌, o) refl)

-- The server after a read or a write through entry `o`.
abbrev pub moved : (o k : ℕ) → Server → Server
moved o k s = record s {
  o_fd = update s.o_fd o (record (s.o_fd o) { fd_offset = (s.o_fd o).fd_offset + k });
}

read_file-gives :
    (n o k : ℕ) (f : ℕ × ℕ) (l : List ℕ) (s : Server)
    → file_read f n (s.o_fd o).fd_offset s.cache ≡ some (ok (k, l), s.cache)
    → k ≤ 4096
    → read_file n o f s ≡ some (ok k, moved o k (record s { fsreq = put_bytes 0 l s.fsreq }))
unfolding read_file
read_file-gives n o k f l s e h =
    let small : ltb 4096 k ≡ false = ground (arith, h) in
    rw (◌>>=◌, on_cache, e) (rw (small, ◌>>◌, ◌>>=◌) refl)

write_file-gives :
    (n o : ℕ) (f : ℕ × ℕ) (s : Server) (d : Store)
    → file_write f (bytes_from s.fsreq 8 n) (s.o_fd o).fd_offset s.cache ≡ some (ok n, d)
    → n ≤ 4088
    → write_file n o f s ≡ some (ok n, moved o n (record s { cache = d }))
unfolding write_file
write_file-gives n o f s d e h =
    let small : ltb 4088 n ≡ false = ground (arith, h) in rw (small, ◌>>=◌, on_cache, e) refl

asked-step :
    (fileid k : ℕ) (r : Request) (s s' : Server)
    → handler (code r) (record s { fsreq = page_of fileid r }) ≡ some (ok k, s')
    → asked fileid r s
      ≡ some (taken_from r (some (record { value = ok k; pg = none; perm = 7 })) s'.fsreq, s')
unfolding serve_turn
asked-step fileid k (next n) s s' e = rw (◌>>=◌, e) refl
asked-step fileid k (put_next buf) s s' e = rw (◌>>=◌, e) refl

asks-step :
    (fileid : ℕ) (r : Request) (rs : List Request) (s s₁ s₂ : Server) (a : Reply)
    (more : List Reply)
    → asked fileid r s ≡ some (a, s₁)
    → asked_all fileid rs s₁ ≡ some (more, s₂)
    → asked_all fileid (r ∷ rs) s ≡ some (a ∷ more, s₂)
asks-step fileid r rs s s₁ s₂ a more e e' = rw (◌>>=◌, e) (rw (◌>>=◌, e') refl)

module _ {fileid b i n : ℕ} {blk : ℕ → ℕ} where
  pub moved-IsOpen :
      (c c' : Contents) (pos k : ℕ) (s s' : Server)
      → IsOpen fileid (b, i) n blk c pos s
      → s'.pageref ≡ s.pageref
      → s'.opentab ≡ s.opentab
      → s'.o_fd ≡ s.o_fd
      → Represents (b, i) n blk c' s'.cache
      → IsOpen fileid (b, i) n blk c' (pos + k) (moved (fileid % 1024) k s')
  moved-IsOpen c c' pos k s s' opened er et ef rep = record {
    mapped = rw er opened.mapped;
    named = rw et opened.named;
    file = rw et opened.file;
    at = rw (ef, ==-refl (fileid % 1024)) (ap (λ x. x + k) opened.at);
    contents = rep;
  }

  -- The handler of a read, where the page asks for `count` bytes.
  pub served-next :
      (c : Contents) (pos count : ℕ) (s : Server)
      → IsOpen fileid (b, i) n blk c pos s
      → int_at s.fsreq 0 ≡ fileid
      → int_at s.fsreq 4 ≡ count
      → count ≤ 4096
      → (let k = min count (c.size - pos) in
          handler 3 s
          ≡ some (
            ok k,
            moved
                (fileid % 1024)
                k
                (record s { fsreq = put_bytes 0 (bytes_from c.byte pos k) s.fsreq }),
          ))
  unfolding handler serve_read
  served-next c pos count s opened id length_at h =
      let k = min count (c.size - pos) in
      let l = bytes_from c.byte pos k in
      let read_it : file_read (b, i) count (s.o_fd (fileid % 1024)).fd_offset s.cache
          ≡ some (ok (k, l), s.cache) =
        rw (opened.at) (file_read-answers c s.cache count pos opened.contents) in
      ap (λ x. with_file x (read_file (int_at s.fsreq 4)) s) id
      ∙ ap (λ x. with_file fileid (read_file x) s) length_at
      ∙ (with_file-open fileid (b, i) (read_file count) s opened.mapped opened.named opened.file
          ∙ read_file-gives count (fileid % 1024) k (b, i) l s read_it (omega arith))

  -- The handler of a write, where the page holds the bytes.
  pub served-put_next :
      (c : Contents) (pos : ℕ) (buf : List ℕ) (s : Server)
      → IsOpen fileid (b, i) n blk c pos s
      → int_at s.fsreq 0 ≡ fileid
      → int_at s.fsreq 4 ≡ length buf
      → bytes_from s.fsreq 8 (length buf) ≡ buf
      → length buf ≤ 4088
      → pos + length buf ≤ c.size
      → All (λ v. v < 256) buf
      → (d : Store) × (handler 4 s
          ≡ some (ok (length buf), moved (fileid % 1024) (length buf) (record s { cache = d })))
        × Represents (b, i) n blk (put c buf pos) d
  unfolding handler serve_write
  served-put_next c pos buf s opened id length_at same h inside a =
      let (d, e, rep) = file_write-puts c s.cache buf pos opened.contents inside a in
      let write_it : file_write (b, i) (bytes_from s.fsreq 8 (length buf))
            (s.o_fd (fileid % 1024)).fd_offset s.cache
          ≡ some (ok (length buf), d) =
        rw (same, opened.at) e in
      (
        d,
        ap (λ x. with_file x (write_file (int_at s.fsreq 4)) s) id
            ∙ ap (λ x. with_file fileid (write_file x) s) length_at
            ∙ (with_file-open fileid (b, i) (write_file (length buf)) s opened.mapped opened.named
                  opened.file
                ∙ write_file-gives (length buf) (fileid % 1024) (b, i) s d write_it h),
        rep,
      )

-- What a read has put in the page.
pub bytes_from-read :
    (byte g : ℕ → ℕ) (pos k : ℕ)
    → bytes_from (put_bytes 0 (bytes_from byte pos k) g) 0 k ≡ bytes_from byte pos k
bytes_from-read byte g pos k =
    let l = bytes_from byte pos k in
    ap (bytes_from (put_bytes 0 l g) 0) (sym (length-bytes_from byte pos k))
    ∙ bytes_from-put_bytes 0 l g

module _ {fileid b i n : ℕ} {blk : ℕ → ℕ} (small : fileid < 2 ^ 32) where
  asked-next :
      (c : Contents) (pos count : ℕ) (s : Server)
      → IsOpen fileid (b, i) n blk c pos s
      → count ≤ 4096
      → (let k = min count (c.size - pos) in
          (s' : Server) × (asked fileid (next count) s ≡ some (got k (bytes_from c.byte pos k), s'))
          × IsOpen fileid (b, i) n blk c (pos + k) s')
  asked-next c pos count s opened h =
      let k = min count (c.size - pos) in
      let l = bytes_from c.byte pos k in
      let s₀ = record s { fsreq = page_of fileid (next count) } in
      let s₁ = record s₀ { fsreq = put_bytes 0 l s₀.fsreq } in
      let opened₀ : IsOpen fileid (b, i) n blk c pos s₀ = record {
        mapped = opened.mapped;
        named = opened.named;
        file = opened.file;
        at = opened.at;
        contents = opened.contents;
      } in
      let served =
        served-next c pos count s₀ opened₀ (page_of-fileid fileid (next count) small) (omega arith)
          h in
      (
        moved (fileid % 1024) k s₁,
        asked-step fileid k (next count) s (moved (fileid % 1024) k s₁) served
            ∙ ap (λ x. some (got k x, moved (fileid % 1024) k s₁))
                (bytes_from-read c.byte s₀.fsreq pos k),
        moved-IsOpen c c pos k s s₁ opened refl refl refl opened.contents,
      )

  asked-put_next :
      (c : Contents) (pos : ℕ) (buf : List ℕ) (s : Server)
      → IsOpen fileid (b, i) n blk c pos s
      → length buf ≤ 4088
      → pos + length buf ≤ c.size
      → All (λ v. v < 256) buf
      → (s' : Server) × (asked fileid (put_next buf) s ≡ some (wrote (length buf), s'))
        × IsOpen fileid (b, i) n blk (put c buf pos) (pos + length buf) s'
  asked-put_next c pos buf s opened h inside a =
      let s₀ = record s { fsreq = page_of fileid (put_next buf) } in
      let opened₀ : IsOpen fileid (b, i) n blk c pos s₀ = record {
        mapped = opened.mapped;
        named = opened.named;
        file = opened.file;
        at = opened.at;
        contents = opened.contents;
      } in
      let same : bytes_from s₀.fsreq 8 (length buf) ≡ buf =
        bytes_from-put_bytes 8 buf (put_int 4 (length buf) (put_int 0 fileid (λ _. 0))) in
      let (d, served, rep) =
        served-put_next c pos buf s₀ opened₀ (page_of-fileid fileid (put_next buf) small)
          (omega arith) same h inside a in
      let s₁ = record s₀ { cache = d } in
      (
        moved (fileid % 1024) (length buf) s₁,
        asked-step fileid (length buf) (put_next buf) s (moved (fileid % 1024) (length buf) s₁)
            served,
        moved-IsOpen c (put c buf pos) pos (length buf) s s₁ opened refl refl refl rep,
      )

  -- Requests to read and write through an open file whose blocks are direct, each of them within its page and each write inside the file,
  -- are answered as calls of file_read and file_write that start at the file's position and go on where the one
  -- before ended; they leave the file open at the end of the last, with the contents that the calls leave.
  pub serve_requests-Call :
      (c : Contents) (pos : ℕ) (rs : List Request) (s : Server)
      → IsOpen fileid (b, i) n blk c pos s
      → Fit c.size pos rs
      → (s' : Server) × (asked_all fileid rs s ≡ some (answers c (placed c.size pos rs), s'))
        × IsOpen fileid (b, i) n blk (after_all c (placed c.size pos rs)) (end_of c.size pos rs) s'
  serve_requests-Call c pos [] s opened fit = (s, refl, opened)
  serve_requests-Call c pos (next count ∷ rs) s opened fit =
      let k = min count (c.size - pos) in
      let (s₁, e₁, opened₁) = asked-next c pos count s opened fit.0 in
      let (s', e, opened') = serve_requests-Call c (pos + k) rs s₁ opened₁ fit.1 in
      (
        s',
        asks-step fileid (next count) rs s s₁ s' (got k (bytes_from c.byte pos k))
            (answers c (placed c.size (pos + k) rs)) e₁ e,
        opened',
      )
  serve_requests-Call c pos (put_next buf ∷ rs) s opened fit =
      let (s₁, e₁, opened₁) = asked-put_next c pos buf s opened fit.0.0 fit.0.1 fit.0.2 in
      let (s', e, opened') =
        serve_requests-Call (put c buf pos) (pos + length buf) rs s₁ opened₁ fit.1 in
      (
        s',
        asks-step fileid (put_next buf) rs s s₁ s' (wrote (length buf))
            (answers (put c buf pos) (placed c.size (pos + length buf) rs)) e₁ e,
        opened',
      )
