-- ===== src/Fs/Server.antt =====
-- The table of open files of the file server: tp-parte4/fs/serv.c. The page of a request is the
-- byte at each offset; an int that is returned is its 32-bit word. What the rest of the system decides is part of
-- the state: how many references each Fd page has (pageref), and the answer of sys_page_alloc for it.
pub mod Handlers
pub mod Keeps
pub mod Table
pub mod Requests
pub mod Seek
pub mod Open
pub mod Sample
mod Tests
use sistemas_operativos_2c.Common.{
  ℕ, zero, suc, ◌+◌, ◌-◌, ◌*◌, ◌/◌, ◌%◌, ◌^◌, Bool, true, false, ◌&&◌, not, Option, none, some,
  List, [], ◌∷◌, length, ltb, leb, ◌==◌, if◌then◌else◌, bit_and, update,
}
use sistemas_operativos_2c.Errors.{Error, inval, max_open, file_exists, Outcome, ok, err}
use sistemas_operativos_2c.Text.{strcpy}
use sistemas_operativos_2c.Text.Compare.{text_of}
use sistemas_operativos_2c.Fs.{Store, D, f_size, f_type, file_set_size, file_flush, fs_sync}
use sistemas_operativos_2c.Fs.Bytes.{byte_at, load_bytes}
use sistemas_operativos_2c.Fs.Content.{file_read, file_write}
use sistemas_operativos_2c.Fs.Content.Layout.{bytes_from}
use sistemas_operativos_2c.Fs.Dir.{f_name, file_create, file_open}

-- `o_fd` is the entry's own page, always the same.
pub record OpenFile : Type 0 where
  pub o_fileid : ℕ
  pub o_file : Option (ℕ × ℕ)
  pub o_mode : ℕ

pub record Fd : Type 0 where
  pub fd_dev_id : ℕ
  pub fd_offset : ℕ
  pub fd_omode : ℕ
  pub fd_file_id : ℕ

pub record Server : Type 0 where
  pub cache : Store
  pub opentab : ℕ → OpenFile
  pub o_fd : ℕ → Fd
  pub pageref : ℕ → ℕ
  pub grant : ℕ → Outcome (Unit {0})
  pub fsreq : ℕ → ℕ

abbrev pub S : Type 0 → Type 0
S A = Server → Option (A × Server)

abbrev pub pure : {A : Type 0} → A → S A
pure a s = some (a, s)

abbrev pub panic : {A : Type 0} → S A
panic s = none

infixl 5 ◌>>=◌ ◌>>◌
abbrev pub ◌>>=◌ : {A B : Type 0} → S A → (A → S B) → S B
◌>>=◌ c f s = elim (c s) [ none ↦ none | some (a, s') ↦ f a s' ]

abbrev pub ◌>>◌ : {B : Type 0} → S (Unit {0}) → S B → S B
c >> k = c >>= λ _. k

abbrev pub on_cache : {A : Type 0} → D A → S A
on_cache c s = elim (c s.cache) [ none ↦ none | some (a, d) ↦ some (a, record s { cache = d }) ]

abbrev pub maxopen : ℕ
maxopen = 1024

abbrev pub empty_fd : Fd
empty_fd = record { fd_dev_id = 0; fd_offset = 0; fd_omode = 0; fd_file_id = 0 }

-- The loop of serve_init from `i` on.
pub serve_init_from : (rounds i : ℕ) → S (Unit {0})
serve_init_from zero i = pure tt
serve_init_from (suc rounds) i =
    let rest = serve_init_from rounds (i + 1) in
    λ s. rest (record s { opentab = update s.opentab i (record (s.opentab i) { o_fileid = i }) })

pub serve_init : S (Unit {0})
unfolding serve_init_from
serve_init = serve_init_from maxopen 0

-- Where the system call succeeds, the page has this reference.
abbrev pub alloc_fd_page : ℕ → S (Outcome (Unit {0}))
alloc_fd_page i s = elim (s.grant i) [
  | err e ↦ some (err e, s)
  | ok u ↦ some (ok u, record s { pageref = update s.pageref i 1 })
]

-- The body of `case 1`: the entry and its new id.
pub take_entry : ℕ → S (Outcome (ℕ × ℕ))
take_entry i s =
    let fileid = ((s.opentab i).o_fileid + maxopen) % 2 ^ 32 in
    some (
      ok (i, fileid),
      record s {
        opentab = update s.opentab i (record (s.opentab i) { o_fileid = fileid });
        o_fd = update s.o_fd i empty_fd;
      },
    )

-- The loop of openfile_alloc from `i` on.
pub openfile_from : (rounds i : ℕ) → S (Outcome (ℕ × ℕ))
unfolding take_entry
openfile_from zero i s = some (err max_open, s)
openfile_from (suc rounds) i s =
    let rest = openfile_from rounds (i + 1) s in
    if s.pageref i == 0
    then (do r ← alloc_fd_page i; elim r [ err e ↦ pure (err e) | ok u ↦ take_entry i ]) s
    else if s.pageref i == 1
    then take_entry i s
    else rest

pub openfile_alloc : S (Outcome (ℕ × ℕ))
unfolding openfile_from
openfile_alloc = openfile_from maxopen 0

-- The entry, for `*po`.
pub openfile_lookup : ℕ → S (Outcome ℕ)
openfile_lookup fileid s =
    if leb (s.pageref (fileid % maxopen)) 1
    then some (err inval, s)
    else if not ((s.opentab (fileid % maxopen)).o_fileid == fileid)
    then some (err inval, s)
    else some (ok (fileid % maxopen), s)

abbrev pub o_creat : ℕ
o_creat = 0x100

abbrev pub o_trunc : ℕ
o_trunc = 0x200

abbrev pub o_excl : ℕ
o_excl = 0x400

abbrev pub o_accmode : ℕ
o_accmode = 3

abbrev pub is_file_exists : Error → Bool
is_file_exists file_exists = true
is_file_exists e = false

pub create_or_open : (omode : ℕ) → (path : List ℕ) → S (Outcome (ℕ × ℕ))
create_or_open omode path = if bit_and omode o_creat == 0 then on_cache (file_open path) else do
  r ← on_cache (file_create path)
  elim r [
    | ok f ↦ pure (ok f)
    | err e ↦
        if bit_and omode o_excl == 0 && is_file_exists e
        then on_cache (file_open path)
        else pure (err e)
  ]

abbrev pub set_fd : ℕ → Fd → S (Unit {0})
set_fd o fd s = some (tt, record s { o_fd = update s.o_fd o fd })

abbrev pub filled : (o : ℕ) → ℕ × ℕ → (omode : ℕ) → S (Unit {0})
filled o f omode s = some (
  tt,
  record s {
    opentab = update s.opentab o (record (s.opentab o) { o_file = some f; o_mode = omode });
    o_fd = update s.o_fd o (record (s.o_fd o) {
      fd_file_id = (s.opentab o).o_fileid;
      fd_omode = bit_and omode o_accmode;
      fd_dev_id = b'f';
    });
  },
)

-- An id from 2 ^ 31 on is a negative int, which is taken for an error.
pub open_request : (path : List ℕ) → (omode : ℕ) → S (Outcome ℕ × Option ℕ)
unfolding openfile_alloc create_or_open
open_request path omode = do
  r ← openfile_alloc
  elim r [
    | err e ↦ pure (err e, none)
    | ok (o, fileid) ↦ if leb (2 ^ 31) fileid then pure (ok fileid, none) else do
      r₁ ← create_or_open omode path
      elim r₁ [
        | err e ↦ pure (err e, none)
        | ok f ↦ do
          if bit_and omode o_trunc == 0 then pure tt else on_cache (file_set_size f 0)
          r₂ ← on_cache (file_open path)
          elim r₂ [ err e ↦ pure (err e, none) | ok f' ↦ do filled o f' omode; pure (ok 0, some o) ]
      ]
  ]
