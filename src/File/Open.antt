-- ===== src/File/Open.antt =====
-- open of tp-parte4/lib/file.c, from the program's descriptors to the server's table and the file.
use sistemas_operativos_2c.Common.{
  ℕ, ◌+◌, ◌-◌, ◌%◌, ◌^◌, ◌<◌, ◌≤◌, ◌≡◌, refl, ap, ◌∙◌, subst, min, true, false, none, some, List,
  ◌∷◌, length, leb, ◌==◌, ==-refl, arith, update, bit_and,
}
use sistemas_operativos_2c.Errors.{Outcome, ok}
use sistemas_operativos_2c.Text.Strings.{IsText}
use sistemas_operativos_2c.Text.Compare.{text_of}
use sistemas_operativos_2c.Fs.Content.Layout.{bytes_from}
use sistemas_operativos_2c.Fs.Content.Refinement.{Contents, Represents}
use sistemas_operativos_2c.Fs.Dir.{file_open}
use sistemas_operativos_2c.Fs.Server.{Server, ◌>>=◌, open_request}
use sistemas_operativos_2c.Fs.Server.Handlers.{Sent, int_at, serve_open, serve_turn}
use sistemas_operativos_2c.Fs.Server.Keeps.{IsTable}
use sistemas_operativos_2c.Fs.Server.Table.{next_fileid}
use sistemas_operativos_2c.Fs.Server.Open.{open_request-IsOpen}
use sistemas_operativos_2c.Descriptor.{Program, Dev, index2fd, is_mapped, fd_alloc, readn}
use sistemas_operativos_2c.Descriptor.Alloc.{fd_alloc-first}
use sistemas_operativos_2c.File.{
  ServedBy, here, seen_by, after_turn, ipc_received, answered, fsipc, devfile, opened_at, open_path,
}
use sistemas_operativos_2c.File.Device.{IsFile, asking, call_of, left_by, set_fsipcbuf-running}
use sistemas_operativos_2c.File.Request.{
  open_page, open_page-path, open_page-mode, references-mapped,
}
use sistemas_operativos_2c.File.Stored.{readn-IsFile}

-- The file can be opened at `path`, and the first page with at most one reference is that of the entry `o`.
pub record CanOpen (path : List ℕ) (o : ℕ) (f : ℕ × ℕ) (n : ℕ) (blk : ℕ → ℕ) (c : Contents)
    (s : Server) : Type 0 where
  pub table : IsTable s
  pub entry : o < 1024
  pub busy : (j : ℕ) → j < o → 2 ≤ s.pageref j
  pub free : s.pageref o ≤ 1
  pub granted : s.grant o ≡ ok tt
  pub id : next_fileid o s < 2 ^ 31
  pub opens : file_open path s.cache ≡ some (ok f, s.cache)
  pub contents : Represents f n blk c s.cache

abbrev shares : ℕ → Sent
shares o = record { value = ok 0; pg = some o; perm = 0x407 }

serve_turn-opens :
    (path : List ℕ) (mode o : ℕ) (s s' : Server)
    → text_of (bytes_from s.fsreq 0 1023) ≡ path
    → int_at s.fsreq 1024 ≡ mode
    → open_request path mode s ≡ some ((ok 0, some o), s')
    → serve_turn 1 7 s ≡ some (some (shares o), s')
unfolding serve_turn serve_open
serve_turn-opens path mode o s s' ep em e =
    let served : serve_open s ≡ some ((ok 0, some o), s') =
      ap (λ x. open_request x (int_at s.fsreq 1024) s) ep
      ∙ ap (λ x. open_request path x s) em
      ∙ e in
    rw (◌>>=◌, served) refl

-- The program with the page of the entry mapped at `fd`.
abbrev with_page : (fd o : ℕ) → Program ServedBy → Program ServedBy
with_page fd o s = record s { mapped = update s.mapped fd (some o) }

fsipc-shares :
    (fd o : ℕ) (g : ℕ → ℕ) (s : Program ServedBy) (sv sv' : Server)
    → s.grant fd ≡ ok tt
    → serve_turn 1 7 (call_of g sv s) ≡ some (some (shares o), sv')
    → fsipc 1 (some fd) (asking g sv s) ≡ (ok 0, with_page fd o (after_turn sv' (asking g sv s)))
fsipc-shares fd o g s sv sv' granted e = rw e (rw (answered, ipc_received, granted) refl)

module _ (devtab : List (Dev ServedBy)) (path : List ℕ) (mode fdnum o : ℕ) (s : Program ServedBy)
    (sv : Server) where
  open_path-step :
      (sv' : Server)
      → s.world ≡ some sv
      → length path < 1024
      → fd_alloc s ≡ (ok (index2fd fdnum), s)
      → s.grant (index2fd fdnum) ≡ ok tt
      → (let g = open_page path mode sv.fsreq in
          serve_turn 1 7 (call_of g sv s) ≡ some (some (shares o), sv')
          → open_path devtab path mode s
            ≡ (ok (index2fd fdnum), with_page (index2fd fdnum) o (after_turn sv' (asking g sv s))))
  unfolding open_path
  open_path-step sv' running h alloc granted e =
      let short : leb 1024 (length path) ≡ false = ground (arith, h) in
      let fd = index2fd fdnum in
      let set = set_fsipcbuf-running (open_page path mode) s sv running in
      let returns = fsipc-shares fd o (open_page path mode sv.fsreq) s sv sv' granted e in
      let go = λ (t : Outcome ℕ × Program ServedBy). opened_at devtab fd t.0 t.1 in
      rw (short, sistemas_operativos_2c.Descriptor.◌>>=◌, alloc)
        (ap (λ (t : Unit {0} × Program ServedBy). go (fsipc 1 (some fd) t.1)) set ∙ ap go returns)

  open_path-IsFile :
      {b i n : ℕ} {blk : ℕ → ℕ} (c : Contents)
      → s.world ≡ some sv
      → CanOpen path o (b, i) n blk c (seen_by s sv)
      → IsText path
      → length path < 1024
      → mode < 2 ^ 32
      → bit_and mode 0x100 ≡ 0
      → bit_and mode 0x200 ≡ 0
      → fdnum < 32
      → ((j : ℕ) → j < fdnum → is_mapped (s.mapped (index2fd j)) ≡ true)
      → s.mapped (index2fd fdnum) ≡ none
      → s.grant (index2fd fdnum) ≡ ok tt
      → (s' : Program ServedBy) × (open_path devtab path mode s ≡ (ok (index2fd fdnum), s'))
        × IsFile (index2fd fdnum) (next_fileid o sv) (bit_and mode 3) (b, i) n blk c 0 s'
  open_path-IsFile {b} {i} {n} {blk} c running can it hp hm hc ht hf taken free granted =
      let fd = index2fd fdnum in
      let g = open_page path mode sv.fsreq in
      let asked = call_of g sv s in
      let (sv', e, opened, one, page) =
        open_request-IsOpen path mode o c asked can.table can.entry can.busy can.free can.granted
          can.id hc ht can.opens can.contents in
      let turn =
        serve_turn-opens path mode o asked sv' (open_page-path path mode sv.fsreq it hp)
          (open_page-mode path mode sv.fsreq hm) e in
      let old = can.table o can.entry in
      let index : next_fileid o sv % 1024 ≡ o = omega (arith, old, can.entry) in
      let more = references-mapped 64 fd o s.mapped free (omega arith) in
      let few : here s.mapped o ≤ 1 = let f = can.free in omega (arith, f) in
      (
        with_page fd o (after_turn sv' (asking g sv s)),
        open_path-step sv' running hp (fd_alloc-first fdnum s taken free hf) granted turn,
        record {
          server = left_by sv' (asking g sv s);
          running = refl;
          there = rw (index, ==-refl fd) refl;
          own = rw (index, page) refl;
          dev = rw (index, page) refl;
          omode = rw (index, page) refl;
          is_open = record {
            mapped = rw index (omega (arith, one, more, few));
            named = opened.named;
            file = opened.file;
            at = opened.at;
            contents = opened.contents;
          };
        },
      )

-- open of a path at which the server finds a file of direct blocks with no change of its cache,
-- without O_CREAT and O_TRUNC and not for writing only, returns the program's first free descriptor where the table has a free entry
-- and the pages may be had. readn of at most a page through it then returns the file's bytes
-- from its start, up to its end, and leaves the file open after them.
pub open_path-readn :
    (more : List (Dev ServedBy)) (path : List ℕ) (mode fdnum o count b i n : ℕ) (blk : ℕ → ℕ)
    (c : Contents) (s : Program ServedBy) (sv : Server)
    → s.world ≡ some sv
    → CanOpen path o (b, i) n blk c (seen_by s sv)
    → IsText path
    → length path < 1024
    → mode < 2 ^ 32
    → bit_and mode 0x100 ≡ 0
    → bit_and mode 0x200 ≡ 0
    → (bit_and (bit_and mode 3) 3 == 1) ≡ false
    → fdnum < 32
    → ((j : ℕ) → j < fdnum → is_mapped (s.mapped (index2fd j)) ≡ true)
    → s.mapped (index2fd fdnum) ≡ none
    → s.grant (index2fd fdnum) ≡ ok tt
    → count ≤ 4096
    → (s₁ s₂ : Program ServedBy) × (open_path (devfile ∷ more) path mode s ≡ (ok fdnum, s₁))
      × (readn (devfile ∷ more) fdnum count s₁ ≡ (ok (bytes_from c.byte 0 (min count c.size)), s₂))
      × IsFile
          (index2fd fdnum)
          (next_fileid o sv)
          (bit_and mode 3)
          (b, i)
          n
          blk
          c
          (min count c.size)
          s₂
open_path-readn more path mode fdnum o count b i n blk c s sv running can it hp hm hc ht hr hf taken
      free granted hk =
    let (s₁, e₁, file₁) =
      open_path-IsFile (devfile ∷ more) path mode fdnum o s sv c running can it hp hm hc ht hf taken
        free granted in
    let small : next_fileid o sv < 2 ^ 32 = omega arith in
    let (s₂, e₂, file₂) =
      readn-IsFile more fdnum (next_fileid o sv) (bit_and mode 3) b i n blk hf small c 0 count s₁ hr
        (omega arith) hk file₁ in
    let same : index2fd fdnum ≡ fdnum = omega arith in
    let whole : min count (c.size - 0) ≡ min count c.size = omega arith in
    let start : 0 + min count (c.size - 0) ≡ min count c.size = omega arith in
    (
      s₁,
      s₂,
      e₁ ∙ ap (λ x. (ok x, s₁)) same,
      e₂ ∙ ap (λ k. (ok (bytes_from c.byte 0 k), s₂)) whole,
      subst (λ x. IsFile (index2fd fdnum) (next_fileid o sv) (bit_and mode 3) (b, i) n blk c x s₂)
          start file₂,
    )
