-- ===== src/Fs/Server/Handlers.antt =====
-- The requests that tp-parte4/fs/serv.c serves, and a turn of serve.
use sistemas_operativos_2c.Common.{
  ℕ, ◌+◌, ◌-◌, ◌*◌, ◌/◌, ◌%◌, ◌&&◌, Option, none, some, List, [], ◌∷◌, length, ltb, leb, ◌==◌,
  if◌then◌else◌, bit_and,
}
use sistemas_operativos_2c.Errors.{inval, Outcome, ok, err}
use sistemas_operativos_2c.Text.{strcpy}
use sistemas_operativos_2c.Text.Compare.{text_of}
use sistemas_operativos_2c.Fs.{f_size, f_type, file_set_size, file_flush, fs_sync}
use sistemas_operativos_2c.Fs.Bytes.{byte_at, load_bytes}
use sistemas_operativos_2c.Fs.Content.{file_read, file_write}
use sistemas_operativos_2c.Fs.Content.Layout.{bytes_from}
use sistemas_operativos_2c.Fs.Dir.{f_name}
use sistemas_operativos_2c.Fs.Server.{
  S, pure, panic, on_cache, ◌>>=◌, ◌>>◌, set_fd, openfile_lookup, open_request,
}

-- The int at an offset of the request's page.
abbrev pub int_at : (ℕ → ℕ) → ℕ → ℕ
int_at g off = g off + g (off + 1) * 0x100 + g (off + 2) * 0x10000 + g (off + 3) * 0x1000000

abbrev pub put_bytes : (off : ℕ) → List ℕ → (ℕ → ℕ) → ℕ → ℕ
put_bytes off l g q = if leb off q && ltb q (off + length l) then byte_at l (q - off) else g q

abbrev pub put_int : (off v : ℕ) → (ℕ → ℕ) → ℕ → ℕ
put_int off v =
    put_bytes off (v % 256 ∷ v / 0x100 % 256 ∷ v / 0x10000 % 256 ∷ v / 0x1000000 % 256 ∷ [])

-- The path is a copy whose last byte is 0. The page to share with the caller is that of the entry.
unfoldable pub serve_open : S (Outcome ℕ × Option ℕ)
unfolding open_request
serve_open s = open_request (text_of (bytes_from s.fsreq 0 1023)) (int_at s.fsreq 1024) s

abbrev pub o_file_of : ℕ → S (ℕ × ℕ)
o_file_of o s = elim ((s.opentab o).o_file) [ none ↦ none | some f ↦ some (f, s) ]

-- The entry and its file, and what a request does with them.
unfoldable pub with_file : (fileid : ℕ) → (ℕ → ℕ × ℕ → S (Outcome ℕ)) → S (Outcome ℕ)
unfolding openfile_lookup
with_file fileid k = do
  r ← openfile_lookup fileid
  elim r [ err e ↦ pure (err e) | ok o ↦ do f ← o_file_of o; k o f ]

abbrev pub set_size : (size : ℕ) → ℕ → ℕ × ℕ → S (Outcome ℕ)
set_size size o f = do on_cache (file_set_size f size); pure (ok 0)

unfoldable pub serve_set_size : S (Outcome ℕ)
unfolding with_file file_set_size
serve_set_size s = with_file (int_at s.fsreq 0) (set_size (int_at s.fsreq 4)) s

-- `o->o_fd->fd_offset += r`
abbrev pub advance : (o n : ℕ) → S (Unit {0})
advance o n s = set_fd o (record (s.o_fd o) { fd_offset = (s.o_fd o).fd_offset + n }) s

abbrev pub answer_bytes : (off : ℕ) → List ℕ → S (Unit {0})
answer_bytes off l s = some (tt, record s { fsreq = put_bytes off l s.fsreq })

-- More bytes than the page has are written outside it. What is in the page after an error is left out.
unfoldable pub read_file : (n : ℕ) → ℕ → ℕ × ℕ → S (Outcome ℕ)
read_file n o f s =
    (do
      r ← on_cache (file_read f n (s.o_fd o).fd_offset)
      elim r [
        | err e ↦ pure (err e)
        | ok (k, bytes) ↦
            if ltb 4096 k then panic else do answer_bytes 0 bytes; advance o k; pure (ok k)
      ])
      s

unfoldable pub serve_read : S (Outcome ℕ)
unfolding with_file read_file
serve_read s = with_file (int_at s.fsreq 0) (read_file (int_at s.fsreq 4)) s

-- More bytes than the page has left are read from outside it.
unfoldable pub write_file : (n : ℕ) → ℕ → ℕ × ℕ → S (Outcome ℕ)
write_file n o f s =
    (if ltb 4088 n then panic else do
      r ← on_cache (file_write f (bytes_from s.fsreq 8 n) (s.o_fd o).fd_offset)
      elim r [ err e ↦ pure (err e) | ok k ↦ do advance o k; pure (ok k) ])
      s

unfoldable pub serve_write : S (Outcome ℕ)
unfolding with_file write_file
serve_write s = with_file (int_at s.fsreq 0) (write_file (int_at s.fsreq 4)) s

unfoldable pub stat_file : ℕ → ℕ × ℕ → S (Outcome ℕ)
unfolding load_bytes
stat_file o f s = elim (strcpy (bytes_from s.fsreq 0 128) (f_name f s.cache)) [
  | none ↦ none
  | some name ↦ some (
    ok 0,
    record s {
      fsreq =
          put_int 132 (if s.cache.word (f_type f).0 (f_type f).1 == 1 then 1 else 0)
            (put_int 128 (s.cache.word (f_size f).0 (f_size f).1) (put_bytes 0 name s.fsreq));
    },
  )
]

unfoldable pub serve_stat : S (Outcome ℕ)
unfolding with_file stat_file
serve_stat s = with_file (int_at s.fsreq 0) stat_file s

abbrev pub flush_file : ℕ → ℕ × ℕ → S (Outcome ℕ)
flush_file o f = do on_cache (file_flush f); pure (ok 0)

unfoldable pub serve_flush : S (Outcome ℕ)
unfolding with_file file_flush
serve_flush s = with_file (int_at s.fsreq 0) flush_file s

unfoldable pub serve_sync : S (Outcome ℕ)
unfolding fs_sync
serve_sync = do on_cache fs_sync; pure (ok 0)

-- The functions of `handlers`, by request code; a code without one is not served.
unfoldable pub handler : ℕ → S (Outcome ℕ)
unfolding serve_set_size serve_read serve_write serve_stat serve_flush serve_sync
handler req =
    if req == 2
    then serve_set_size
    else if req == 3
    then serve_read
    else if req == 4
    then serve_write
    else if req == 5
    then serve_stat
    else if req == 6
    then serve_flush
    else if req == 8
    then serve_sync
    else pure (err inval)

-- What ipc_send sends: the value, the page and its permissions.
pub record Sent : Type 0 where
  pub value : Outcome ℕ
  pub pg : Option ℕ
  pub perm : ℕ

-- A turn of serve. A request without a page is not answered.
unfoldable pub serve_turn : (req perm : ℕ) → S (Option Sent)
unfolding serve_open handler
serve_turn req perm =
    if bit_and perm 1 == 0
    then pure none
    else if req == 1
    then (do
      (r, pg) ← serve_open
      pure (some (record { value = r; pg = pg; perm = elim pg [ none ↦ perm | some o ↦ 0x407 ] })))
    else (do r ← handler req; pure (some (record { value = r; pg = none; perm = perm })))
