-- ===== src/File.antt =====
-- The requests of a program to the file server: tp-parte4/lib/file.c, as a device of tp-parte4/lib/fd.c. The program's
-- state holds the server's: `fsipcbuf` is the page `fsreq` of the server, whose entry `o` has its Fd in the physical
-- page `o`. Where a call does not return, since the server or the program has stopped, there is no server left.
pub mod Unread
pub mod Device
pub mod Stored
pub mod Request
pub mod Open
mod Tests
use sistemas_operativos_2c.Common.{
  ℕ, zero, suc, ◌+◌, ◌-◌, ◌*◌, ◌%◌, ◌^◌, Bool, true, false, ◌||◌, ◌⊎◌, inl, inr, Option, none, some,
  List, [], ◌∷◌, ◌++◌, length, take, ltb, leb, ◌==◌, if◌then◌else◌, update,
}
use sistemas_operativos_2c.Errors.{Error, unspecified, bad_path, Outcome, ok, err}
use sistemas_operativos_2c.Text.Compare.{text_of}
use sistemas_operativos_2c.Fs.Content.Layout.{bytes_from}
use sistemas_operativos_2c.Fs.Server.{Server, Fd}
use sistemas_operativos_2c.Fs.Server.Handlers.{Sent, int_at, put_bytes, put_int, serve_turn}
use sistemas_operativos_2c.Descriptor.{
  Program, P, Dev, Stat, pure, ◌>>=◌, ◌>>◌, fd2num, fd_of, fd_alloc, fd_close, close, fstat,
}

abbrev pub ServedBy : Type 0
ServedBy = Option Server

-- The call does not return; what is given as its result stands for none.
abbrev pub stop : {A : Type 0} → P ServedBy (Outcome A)
stop s = (err unspecified, record s { world = none })

abbrev pub points_to : ℕ → Option ℕ → ℕ
points_to p none = 0
points_to p (some q) = if p == q then 1 else 0

-- How many of the program's first `pages` pages from FDTABLE on are the physical page `p`.
abbrev pub references : (pages : ℕ) → (ℕ → Option ℕ) → (p : ℕ) → ℕ
references zero mapped p = 0
references (suc pages) mapped p = points_to p (mapped pages) + references pages mapped p

-- The descriptors and their data pages. The server's `pageref` between two calls leaves these references out.
abbrev pub here : (ℕ → Option ℕ) → ℕ → ℕ
here mapped p = references 64 mapped p

abbrev pub seen_by : Program ServedBy → Server → Server
seen_by s sv = record sv { o_fd = s.page_fd; pageref = λ p. sv.pageref p + here s.mapped p }

abbrev pub after_turn : Server → Program ServedBy → Program ServedBy
after_turn sv s = record s {
  page_fd = sv.o_fd;
  world = some (record sv { pageref = λ p. sv.pageref p - here s.mapped p });
}

-- ipc_recv: a page that is sent is mapped at `dstva` if there is one. Where the kernel cannot map it, the server's ipc_send
-- panics.
abbrev pub ipc_received : (dstva : Option ℕ) → Sent → P ServedBy (Outcome ℕ)
ipc_received none m s = (m.value, s)
ipc_received (some va) m s = elim (m.pg) [
  | none ↦ (m.value, s)
  | some p ↦ elim (s.grant va) [
    | err e ↦ stop s
    | ok u ↦ (m.value, record s { mapped = update s.mapped va (some p) })
  ]
]

abbrev pub answered : (dstva : Option ℕ) → Option (Option Sent × Server) → P ServedBy (Outcome ℕ)
answered dstva none s = stop s
answered dstva (some (none, sv)) s = stop s
answered dstva (some (some m, sv)) s = ipc_received dstva m (after_turn sv s)

abbrev pub fsipc : (req : ℕ) (dstva : Option ℕ) → P ServedBy (Outcome ℕ)
fsipc req dstva s = elim (s.world) [
  | none ↦ stop s
  | some sv ↦ answered dstva (serve_turn req 7 (seen_by s sv)) s
]

-- The program writes to `fsipcbuf`.
abbrev pub set_fsipcbuf : ((ℕ → ℕ) → ℕ → ℕ) → P ServedBy (Unit {0})
set_fsipcbuf f s = elim (s.world) [
  | none ↦ (tt, s)
  | some sv ↦ (tt, record s { world = some (record sv { fsreq = f sv.fsreq }) })
]

abbrev pub fsipcbuf : Program ServedBy → ℕ → ℕ
fsipcbuf s = elim (s.world) [ none ↦ λ _. 0 | some sv ↦ sv.fsreq ]

abbrev pub fileid_of : ℕ → Program ServedBy → ℕ
fileid_of fd s = (fd_of fd s).fd_file_id

pub devfile_flush : (fd : ℕ) → P ServedBy (Outcome ℕ)
devfile_flush fd s = (do set_fsipcbuf (put_int 0 (fileid_of fd s)); fsipc 6 none) s

-- What is copy_to_buf to `buf` is the result; the asserts stop the program.
abbrev pub copy_to_buf : (n : ℕ) → Outcome ℕ → P ServedBy (Outcome (List ℕ))
copy_to_buf n (err e) s = (err e, s)
copy_to_buf n (ok k) s =
    if ltb n k || ltb 4096 k then stop s else (ok (bytes_from (fsipcbuf s) 0 k), s)

pub devfile_read : (fd n : ℕ) → P ServedBy (Outcome (List ℕ))
devfile_read fd n s =
    (do
      set_fsipcbuf (λ g. put_int 4 n (put_int 0 (fileid_of fd s) g))
      r ← fsipc 3 none
      copy_to_buf n r)
      s

-- The bytes that fit the request.
abbrev pub req_n : List ℕ → ℕ
req_n buf = if ltb 4088 (length buf) then 4088 else length buf

pub devfile_write : (fd : ℕ) → List ℕ → P ServedBy (Outcome ℕ)
devfile_write fd buf s =
    (do
      set_fsipcbuf λ g.
          put_bytes 8 (take (req_n buf) buf) (put_int 4 (req_n buf) (put_int 0 (fileid_of fd s) g))
      fsipc 4 none)
      s

-- A name that has no place in `st_name` is written outside it.
abbrev pub stat_in : Stat → (ℕ → ℕ) → P ServedBy (Outcome Stat)
stat_in st g =
    let name = text_of (bytes_from g 0 4096) in
    if ltb 127 (length name)
    then stop
    else pure (ok (record st { st_name = name; st_size = int_at g 128; st_isdir = int_at g 132 }))

pub devfile_stat : (fd : ℕ) → Stat → P ServedBy (Outcome Stat)
devfile_stat fd st s =
    (do
      set_fsipcbuf (put_int 0 (fileid_of fd s))
      r ← fsipc 5 none
      elim r [ err e ↦ pure (err e) | ok k ↦ λ s'. stat_in st (fsipcbuf s') s' ])
      s

pub devfile_trunc : (fd newsize : ℕ) → P ServedBy (Outcome ℕ)
devfile_trunc fd newsize s =
    (do set_fsipcbuf (λ g. put_int 4 newsize (put_int 0 (fileid_of fd s) g)); fsipc 2 none) s

pub sync : P ServedBy (Outcome ℕ)
sync = fsipc 8 none

abbrev pub devfile : Dev ServedBy
unfolding devfile_read devfile_write devfile_flush devfile_stat devfile_trunc
devfile = record {
  dev_id = b'f';
  dev_read = some devfile_read;
  dev_write = some devfile_write;
  dev_close = some devfile_flush;
  dev_stat = some devfile_stat;
  dev_trunc = some devfile_trunc;
}

-- A word from 2 ^ 31 on is a negative int.
abbrev pub opened_at : (devtab : List (Dev ServedBy)) (fd : ℕ) → Outcome ℕ → P ServedBy (Outcome ℕ)
opened_at devtab fd (err e) = do r ← fd_close devtab fd false; pure (err e)
opened_at devtab fd (ok k) =
    if leb (2 ^ 31) k then (do r ← fd_close devtab fd false; pure (ok k)) else pure (ok (fd2num fd))

pub open_path : (devtab : List (Dev ServedBy)) (path : List ℕ) (mode : ℕ) → P ServedBy (Outcome ℕ)
open_path devtab path mode = if leb 1024 (length path) then pure (err bad_path) else do
  r ← fd_alloc
  elim r [
    | err e ↦ pure (err e)
    | ok fd ↦ do
      set_fsipcbuf (λ g. put_int 1024 mode (put_bytes 0 (path ++ 0 ∷ []) g))
      r' ← fsipc 1 (some fd)
      opened_at devtab fd r'
  ]

-- stat of fd.c: a negative int that open has given is returned.
pub stat : (devtab : List (Dev ServedBy)) (path : List ℕ) → P ServedBy (Outcome (ℕ ⊎ Stat))
unfolding open_path fstat
stat devtab path = do
  r ← open_path devtab path 0
  elim r [
    | err e ↦ pure (err e)
    | ok fd ↦ if leb (2 ^ 31) fd then pure (ok (inl fd)) else do
      r' ← fstat devtab fd
      closing ← close devtab fd
      elim r' [ err e ↦ pure (err e) | ok st ↦ pure (ok (inr st)) ]
  ]
