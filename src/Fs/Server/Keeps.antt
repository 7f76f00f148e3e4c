-- ===== src/Fs/Server/Keeps.antt =====
-- What the requests of tp-parte4/fs/serv.c keep of the table of open files.
use sistemas_operativos_2c.Common.{
  ℕ, zero, suc, ◌+◌, ◌%◌, ◌^◌, ◌<◌, ◌≡◌, refl, Bool, true, false, ◌&&◌, ◌==◌, leb, ltb, bit_and,
  Option, none, some, List, arith, if◌then◌else◌, update, Bool-cases, inl, inr, not,
}
use sistemas_operativos_2c.Errors.{Error, inval, Outcome, ok, err}
use sistemas_operativos_2c.Text.{strcpy}
use sistemas_operativos_2c.Fs.Content.{file_read, file_write}
use sistemas_operativos_2c.Fs.Content.Layout.{bytes_from}
use sistemas_operativos_2c.Fs.Dir.{f_name, file_create, file_open}
use sistemas_operativos_2c.Fs.{Store, D, file_set_size, file_flush, fs_sync}
use sistemas_operativos_2c.Fs.Server.{
  OpenFile, Server, S, pure, panic, on_cache, ◌>>=◌, ◌>>◌, alloc_fd_page, take_entry, openfile_from,
  openfile_alloc, openfile_lookup, create_or_open, filled, open_request, is_file_exists,
}
use sistemas_operativos_2c.Fs.Server.Handlers.{
  serve_open, with_file, o_file_of, serve_set_size, read_file, serve_read, write_file, serve_write,
  stat_file, serve_stat, serve_flush, serve_sync, handler, serve_turn, advance, answer_bytes,
}

-- The id of each entry is the entry's index modulo MAXOPEN.
abbrev pub IsTable : Server → Type 0
IsTable s = (i : ℕ) → i < 1024 → (s.opentab i).o_fileid % 1024 ≡ i

abbrev pub Holds : {A : Type 0} → (Server → Type 0) → Option (A × Server) → Type 0
Holds P none = Unit
Holds P (some (a, s)) = P s

-- What a computation leaves satisfies the predicate if what it got does.
abbrev pub Keeps : {A : Type 0} → S A → Type 0
Keeps c = (s : Server) → IsTable s → Holds IsTable (c s)

Holds-bind :
    {A B : Type 0} (r : Option (A × Server)) (f : A → S B)
    → Holds IsTable r
    → ((a : A) → Keeps (f a))
    → Holds IsTable (elim r [ none ↦ none | some (a, s) ↦ f a s ])
Holds-bind none f h k = tt
Holds-bind (some (a, s)) f h k = k a s h

Keeps-bind :
    {A B : Type 0} (c : S A) (f : A → S B) → Keeps c → ((a : A) → Keeps (f a)) → Keeps (c >>= f)
Keeps-bind c f h k s t = Holds-bind (c s) f (h s t) k

Keeps-outcome :
    {A B : Type 0} (r : Outcome A) (f : Error → S B) (k : A → S B)
    → ((e : Error) → Keeps (f e))
    → ((a : A) → Keeps (k a))
    → Keeps (elim r [ err e ↦ f e | ok a ↦ k a ])
Keeps-outcome (err e) f k h h' = h e
Keeps-outcome (ok a) f k h h' = h' a

-- An error is passed on.
Keeps-try :
    {A B : Type 0} (c : S (Outcome A)) (f : Error → S B) (k : A → S B)
    → Keeps c
    → ((e : Error) → Keeps (f e))
    → ((a : A) → Keeps (k a))
    → Keeps (do r ← c; elim r [ err e ↦ f e | ok a ↦ k a ])
Keeps-try c f k h h' h'' =
    Keeps-bind c (λ r. elim r [ err e ↦ f e | ok a ↦ k a ]) h (λ r. Keeps-outcome r f k h' h'')

Holds-if :
    {A : Type 0} (b : Bool) (x y : Option (A × Server))
    → Holds IsTable x
    → Holds IsTable y
    → Holds IsTable (if b then x else y)
Holds-if true x y h k = h
Holds-if false x y h k = k

Keeps-if : {A : Type 0} (b : Bool) (c d : S A) → Keeps c → Keeps d → Keeps (if b then c else d)
Keeps-if true c d h k = h
Keeps-if false c d h k = k

Holds-on_cache :
    {A : Type 0} (r : Option (A × Store)) (s : Server)
    → IsTable s
    → Holds IsTable (elim r [ none ↦ none | some (a, d) ↦ some (a, record s { cache = d }) ])
Holds-on_cache none s t = tt
Holds-on_cache (some (a, d)) s t = t

on_cache-Keeps : {A : Type 0} (c : D A) → Keeps (on_cache c)
on_cache-Keeps c s t = Holds-on_cache (c s.cache) s t

-- An entry keeps its index where its id does.
update-IsTable :
    (s : Server) (i : ℕ) (o : OpenFile)
    → o.o_fileid % 1024 ≡ (s.opentab i).o_fileid % 1024
    → IsTable s
    → IsTable (record s { opentab = update s.opentab i o })
update-IsTable s i o e t j hj = elim (Bool-cases (i == j)) [
  | inl here ↦ ground (arith, here, e, t j hj)
  | inr other ↦ rw other (t j hj)
]

pub take_entry-Keeps : (i : ℕ) → Keeps (take_entry i)
unfolding take_entry
take_entry-Keeps i s t j hj = elim (Bool-cases (i == j)) [
  | inl here ↦ ground (arith, here, t j hj)
  | inr other ↦ rw other (t j hj)
]

Holds-grant :
    (r : Outcome (Unit {0})) (i : ℕ) (s : Server)
    → IsTable s
    → Holds IsTable (elim r [
      | err e ↦ some (err e, s)
      | ok u ↦ some (ok u, record s { pageref = update s.pageref i 1 })
    ])
Holds-grant (err e) i s t = t
Holds-grant (ok u) i s t = t

alloc_fd_page-Keeps : (i : ℕ) → Keeps (alloc_fd_page i)
alloc_fd_page-Keeps i s t = Holds-grant (s.grant i) i s t

pub openfile_from-Keeps : (rounds i : ℕ) → Keeps (openfile_from rounds i)
unfolding openfile_from
openfile_from-Keeps zero i s t = t
openfile_from-Keeps (suc rounds) i s t =
    Holds-if (s.pageref i == 0) _ _
      (Keeps-try (alloc_fd_page i) (λ e. pure (err e)) (λ u. take_entry i) (alloc_fd_page-Keeps i)
        (λ e s t. t) (λ u. take_entry-Keeps i) s t)
      (Holds-if (s.pageref i == 1) _ _ (take_entry-Keeps i s t)
        (openfile_from-Keeps rounds (i + 1) s t))

openfile_lookup-Keeps : (fileid : ℕ) → Keeps (openfile_lookup fileid)
unfolding openfile_lookup
openfile_lookup-Keeps fileid s t =
    Holds-if (leb (s.pageref (fileid % 1024)) 1) _ _ t
      (Holds-if (not ((s.opentab (fileid % 1024)).o_fileid == fileid)) _ _ t t)

Holds-file :
    (f : Option (ℕ × ℕ)) (s : Server)
    → IsTable s
    → Holds IsTable (elim f [ none ↦ none | some g ↦ some (g, s) ])
Holds-file none s t = tt
Holds-file (some g) s t = t

with_file-Keeps :
    (fileid : ℕ) (k : ℕ → ℕ × ℕ → S (Outcome ℕ))
    → ((o : ℕ) (f : ℕ × ℕ) → Keeps (k o f))
    → Keeps (with_file fileid k)
unfolding with_file
with_file-Keeps fileid k h =
    Keeps-try (openfile_lookup fileid) (λ e. pure (err e)) (λ o. do f ← o_file_of o; k o f)
      (openfile_lookup-Keeps fileid) (λ e s t. t)
      (λ o. Keeps-bind (o_file_of o) (k o) (λ s t. Holds-file ((s.opentab o).o_file) s t) (h o))

cache_then-Keeps : (c : D (Unit {0})) → Keeps {A = Outcome ℕ} (do on_cache c; pure (ok 0))
cache_then-Keeps c = Keeps-bind (on_cache c) (λ _. pure (ok 0)) (on_cache-Keeps c) (λ _ s t. t)

read_file-Keeps : (n o : ℕ) (f : ℕ × ℕ) → Keeps (read_file n o f)
unfolding read_file
read_file-Keeps n o f s =
    Keeps-try (on_cache (file_read f n (s.o_fd o).fd_offset)) (λ e. pure (err e))
      (λ (k, bytes).
        if ltb 4096 k then panic else do answer_bytes 0 bytes; advance o k; pure (ok k))
      (on_cache-Keeps (file_read f n (s.o_fd o).fd_offset)) (λ e s t. t)
      (λ (k, bytes).
        Keeps-if (ltb 4096 k) panic (do answer_bytes 0 bytes; advance o k; pure (ok k)) (λ s t. tt)
          (λ s t. t))
      s

write_file-Keeps : (n o : ℕ) (f : ℕ × ℕ) → Keeps (write_file n o f)
unfolding write_file
write_file-Keeps n o f s =
    let buf = bytes_from s.fsreq 8 n in
    let at = (s.o_fd o).fd_offset in
    Keeps-if (ltb 4088 n) panic
      (do
        r ← on_cache (file_write f buf at)
        elim r [ err e ↦ pure (err e) | ok k ↦ do advance o k; pure (ok k) ])
      (λ s t. tt)
      (Keeps-try (on_cache (file_write f buf at)) (λ e. pure (err e))
        (λ k. do advance o k; pure (ok k)) (on_cache-Keeps (file_write f buf at)) (λ e s t. t)
        (λ k s t. t))
      s

Holds-name :
    (r : Option (List ℕ)) (s : Server) (g : List ℕ → ℕ → ℕ)
    → IsTable s
    → Holds {A = Outcome ℕ} IsTable
        (elim r [ none ↦ none | some name ↦ some (ok 0, record s { fsreq = g name }) ])
Holds-name none s g t = tt
Holds-name (some name) s g t = t

stat_file-Keeps : (o : ℕ) (f : ℕ × ℕ) → Keeps (stat_file o f)
unfolding stat_file
stat_file-Keeps o f s t = Holds-name (strcpy (bytes_from s.fsreq 0 128) (f_name f s.cache)) s _ t

create_or_open-Keeps : (omode : ℕ) (path : List ℕ) → Keeps (create_or_open omode path)
unfolding create_or_open
create_or_open-Keeps omode path =
    let opens = on_cache-Keeps (file_open path) in
    Keeps-if (bit_and omode 0x100 == 0) (on_cache (file_open path)) _ opens (
      Keeps-try (on_cache (file_create path))
        (λ e.
          if bit_and omode 0x400 == 0 && is_file_exists e
          then on_cache (file_open path)
          else pure (err e))
        (λ f. pure (ok f)) (on_cache-Keeps (file_create path))
        (λ e.
          Keeps-if (bit_and omode 0x400 == 0 && is_file_exists e) (on_cache (file_open path))
            (pure (err e)) opens (λ s t. t))
        (λ f s t. t))

filled-Keeps : (o : ℕ) (f : ℕ × ℕ) (omode : ℕ) → Keeps (filled o f omode)
filled-Keeps o f omode s t =
    update-IsTable s o (record (s.opentab o) { o_file = some f; o_mode = omode }) refl t

open_file-Keeps :
    (omode o : ℕ) (path : List ℕ) (f : ℕ × ℕ)
    → Keeps {A = Outcome ℕ × Option ℕ} (do
      if bit_and omode 0x200 == 0 then pure tt else on_cache (file_set_size f 0)
      r₂ ← on_cache (file_open path)
      elim r₂ [ err e ↦ pure (err e, none) | ok f' ↦ do filled o f' omode; pure (ok 0, some o) ])
open_file-Keeps omode o path f =
    Keeps-bind (if bit_and omode 0x200 == 0 then pure tt else on_cache (file_set_size f 0)) _
      (Keeps-if (bit_and omode 0x200 == 0) (pure tt) (on_cache (file_set_size f 0)) (λ s t. t)
        (on_cache-Keeps (file_set_size f 0)))
      (λ _.
        Keeps-try (on_cache (file_open path)) (λ e. pure (err e, none))
          (λ f'. do filled o f' omode; pure (ok 0, some o)) (on_cache-Keeps (file_open path))
          (λ e s t. t)
          (λ f'.
            Keeps-bind {B = Outcome ℕ × Option ℕ} (filled o f' omode) (λ _. pure (ok 0, some o))
              (filled-Keeps o f' omode) (λ _ s t. t)))

open_request-Keeps : (path : List ℕ) (omode : ℕ) → Keeps (open_request path omode)
unfolding open_request openfile_alloc
open_request-Keeps path omode =
    Keeps-try openfile_alloc (λ e. pure (err e, none)) _ (openfile_from-Keeps 1024 0) (λ e s t. t)
      λ (o, fileid).
        Keeps-if (leb (2 ^ 31) fileid) (pure (ok fileid, none)) _ (λ s t. t)
          (Keeps-try (create_or_open omode path) (λ e. pure (err e, none)) _
            (create_or_open-Keeps omode path) (λ e s t. t) (open_file-Keeps omode o path))

handler-Keeps : (req : ℕ) → Keeps (handler req)
unfolding handler serve_set_size serve_read serve_write serve_stat serve_flush serve_sync
handler-Keeps req =
    Keeps-if (req == 2) serve_set_size _
      (λ s. with_file-Keeps _ _ (λ o f. cache_then-Keeps (file_set_size f _)) s)
      (Keeps-if (req == 3) serve_read _ (λ s. with_file-Keeps _ _ (read_file-Keeps _) s)
        (Keeps-if (req == 4) serve_write _ (λ s. with_file-Keeps _ _ (write_file-Keeps _) s)
          (Keeps-if (req == 5) serve_stat _ (λ s. with_file-Keeps _ _ stat_file-Keeps s)
            (Keeps-if (req == 6) serve_flush _
              (λ s. with_file-Keeps _ _ (λ o f. cache_then-Keeps (file_flush f)) s)
              (Keeps-if (req == 8) serve_sync (pure (err inval)) (cache_then-Keeps fs_sync)
                (λ s t. t))))))

pub serve_turn-Keeps : (req perm : ℕ) → Keeps (serve_turn req perm)
unfolding serve_turn serve_open
serve_turn-Keeps req perm =
    Keeps-if (bit_and perm 1 == 0) (pure none) _ (λ s t. t)
      (Keeps-if (req == 1) _ _
        (Keeps-bind serve_open _ (λ s. open_request-Keeps _ _ s) (λ (r, pg) s t. t))
        (Keeps-bind (handler req) _ (handler-Keeps req) (λ r s t. t)))
