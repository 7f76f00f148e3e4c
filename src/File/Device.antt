-- ===== src/File/Device.antt =====
-- devfile_read and devfile_write of tp-parte4/lib/file.c on a descriptor of an open file.
use sistemas_operativos_2c.Common.{
  ℕ, ◌+◌, ◌-◌, ◌%◌, ◌^◌, ◌<◌, ◌≤◌, ◌≡◌, refl, ap, ◌∙◌, min, false, none, some, List, length, take,
  ltb, ◌==◌, ==-refl, arith, All,
}
use sistemas_operativos_2c.Errors.{Outcome, ok}
use sistemas_operativos_2c.Fs.Content.Layout.{bytes_from}
use sistemas_operativos_2c.Fs.Content.Refinement.{Contents, put}
use sistemas_operativos_2c.Fs.Server.{Server, ◌>>=◌}
use sistemas_operativos_2c.Fs.Server.Handlers.{
  Sent, int_at, put_bytes, put_int, handler, serve_turn,
}
use sistemas_operativos_2c.Fs.Server.Requests.{IsOpen, bytes_from-put_bytes}
use sistemas_operativos_2c.Fs.Server.Seek.{
  moved, moved-IsOpen, served-next, served-put_next, bytes_from-read,
}
use sistemas_operativos_2c.Descriptor.{Program, fd_of}
use sistemas_operativos_2c.Descriptor.Reading.{length-take}
use sistemas_operativos_2c.File.{
  ServedBy, here, seen_by, copy_to_buf, after_turn, fsipc, set_fsipcbuf, fileid_of, req_n,
  devfile_read, devfile_write,
}

-- The descriptor at page `fd` is that of an open file at a position, whose file has these contents.
pub record IsFile (fd fileid mode : ℕ) (f : ℕ × ℕ) (n : ℕ) (blk : ℕ → ℕ) (c : Contents) (pos : ℕ)
    (s : Program ServedBy) : Type 0 where
  pub server : Server
  pub running : s.world ≡ some server
  pub there : s.mapped fd ≡ some (fileid % 1024)
  pub own : (s.page_fd (fileid % 1024)).fd_file_id ≡ fileid
  pub dev : (s.page_fd (fileid % 1024)).fd_dev_id ≡ b'f'
  pub omode : (s.page_fd (fileid % 1024)).fd_omode ≡ mode
  pub is_open : IsOpen fileid f n blk c pos (seen_by s server)

serve_turn-answers :
    (req k : ℕ) (s s' : Server)
    → (req == 1) ≡ false
    → handler req s ≡ some (ok k, s')
    → serve_turn req 7 s ≡ some (some (record { value = ok k; pg = none; perm = 7 }), s')
unfolding serve_turn
serve_turn-answers req k s s' other e = rw (other, ◌>>=◌, e) refl

-- The server after a call.
abbrev pub left_by : Server → Program ServedBy → Server
left_by sv s = record sv { pageref = λ p. sv.pageref p - here s.mapped p }

abbrev pub asking : (ℕ → ℕ) → Server → Program ServedBy → Program ServedBy
asking g sv s = record s { world = some (record sv { fsreq = g }) }

-- What the server sees of the call.
abbrev pub call_of : (ℕ → ℕ) → Server → Program ServedBy → Server
call_of g sv s = record (seen_by s sv) { fsreq = g }

call_of-IsOpen :
    {fileid n : ℕ} {f : ℕ × ℕ} {blk : ℕ → ℕ} (c : Contents) (pos : ℕ) (s : Program ServedBy)
    (sv : Server) (g : ℕ → ℕ)
    → IsOpen fileid f n blk c pos (seen_by s sv)
    → IsOpen fileid f n blk c pos (call_of g sv s)
call_of-IsOpen c pos s sv g opened = record {
  mapped = opened.mapped;
  named = opened.named;
  file = opened.file;
  at = opened.at;
  contents = opened.contents;
}

abbrev replied : ℕ → Sent
replied k = record { value = ok k; pg = none; perm = 7 }

pub set_fsipcbuf-running :
    (f : (ℕ → ℕ) → ℕ → ℕ) (s : Program ServedBy) (sv : Server)
    → s.world ≡ some sv
    → set_fsipcbuf f s ≡ (tt, asking (f sv.fsreq) sv s)
set_fsipcbuf-running f s sv running = rw running refl

fsipc-replied :
    (req k : ℕ) (g : ℕ → ℕ) (s : Program ServedBy) (sv sv' : Server)
    → serve_turn req 7 (call_of g sv s) ≡ some (some (replied k), sv')
    → fsipc req none (asking g sv s) ≡ (ok k, after_turn sv' (asking g sv s))
fsipc-replied req k g s sv sv' e = rw e refl

module _ (fd : ℕ) (s : Program ServedBy) (sv sv' : Server) (running : s.world ≡ some sv) where
  devfile_read-step :
      (count k : ℕ)
      → (let g = put_int 4 count (put_int 0 (fileid_of fd s) sv.fsreq) in
          serve_turn 3 7 (call_of g sv s) ≡ some (some (replied k), sv')
          → k ≤ count
          → k ≤ 4096
          → devfile_read fd count s
            ≡ (ok (bytes_from sv'.fsreq 0 k), after_turn sv' (asking g sv s)))
  unfolding devfile_read
  devfile_read-step count k e h h' =
      let short : ltb count k ≡ false = ground (arith, h) in
      let fits : ltb 4096 k ≡ false = ground (arith, h') in
      let id = fileid_of fd s in
      let set = set_fsipcbuf-running (λ g. put_int 4 count (put_int 0 id g)) s sv running in
      let returns = fsipc-replied 3 k (put_int 4 count (put_int 0 id sv.fsreq)) s sv sv' e in
      let go = λ (t : Outcome ℕ × Program ServedBy). copy_to_buf count t.0 t.1 in
      ap (λ (t : Unit {0} × Program ServedBy). go (fsipc 3 none t.1)) set
      ∙ ap go returns
      ∙ rw (short, fits) refl

  devfile_write-step :
      (buf : List ℕ)
      → (let g =
            put_bytes 8
              (take (req_n buf) buf)
              (put_int 4 (req_n buf) (put_int 0 (fileid_of fd s) sv.fsreq)) in
          serve_turn 4 7 (call_of g sv s) ≡ some (some (replied (req_n buf)), sv')
          → devfile_write fd buf s ≡ (ok (req_n buf), after_turn sv' (asking g sv s)))
  unfolding devfile_write
  devfile_write-step buf e = rw running (rw e refl)

module _ {fd fileid mode b i n : ℕ} {blk : ℕ → ℕ} where
  -- The program after a call that the handler has moved the file on by.
  returned-IsFile :
      (c c' : Contents) (pos k : ℕ) (s s₀ : Program ServedBy) (sv sv' : Server)
      → IsFile fd fileid mode (b, i) n blk c pos s
      → s₀.mapped ≡ s.mapped
      → sv'.o_fd ≡ s.page_fd
      → sv'.pageref ≡ (λ p. sv.pageref p + here s.mapped p)
      → IsOpen fileid (b, i) n blk c' (pos + k) (moved (fileid % 1024) k sv')
      → IsFile fd fileid mode
          (b, i)
          n
          blk
          c'
          (pos + k)
          (after_turn (moved (fileid % 1024) k sv') s₀)
  returned-IsFile c c' pos k s s₀ sv sv' file em ef er opened = record {
    server = left_by (moved (fileid % 1024) k sv') s₀;
    running = refl;
    there = rw em file.there;
    own = rw (ef, ==-refl (fileid % 1024)) file.own;
    dev = rw (ef, ==-refl (fileid % 1024)) file.dev;
    omode = rw (ef, ==-refl (fileid % 1024)) file.omode;
    is_open = record {
      mapped =
          let many = opened.mapped in
          let all = ap (λ h. h (fileid % 1024)) er in
          let same = ap (λ m. here m (fileid % 1024)) em in omega (arith, many, all, same);
      named = opened.named;
      file = opened.file;
      at = opened.at;
      contents = opened.contents;
    };
  }

  fileid_of-IsFile :
      (c : Contents) (pos : ℕ) (s : Program ServedBy)
      → IsFile fd fileid mode (b, i) n blk c pos s
      → fileid_of fd s ≡ fileid
  fileid_of-IsFile c pos s file = rw (fileid_of, fd_of, file.there) file.own

  pub devfile_read-next :
      (c : Contents) (pos count : ℕ) (s : Program ServedBy)
      → fileid < 2 ^ 32
      → IsFile fd fileid mode (b, i) n blk c pos s
      → count ≤ 4096
      → (let k = min count (c.size - pos) in
          (s' : Program ServedBy) × (devfile_read fd count s ≡ (ok (bytes_from c.byte pos k), s'))
          × IsFile fd fileid mode (b, i) n blk c (pos + k) s')
  devfile_read-next c pos count s small file h =
      let sv = file.server in
      let k = min count (c.size - pos) in
      let l = bytes_from c.byte pos k in
      let id = fileid_of-IsFile c pos s file in
      let g = put_int 4 count (put_int 0 (fileid_of fd s) sv.fsreq) in
      let asked = call_of-IsOpen c pos s sv g file.is_open in
      let sv₁ = record (call_of g sv s) { fsreq = put_bytes 0 l g } in
      let named : int_at g 0 ≡ fileid = omega (arith, id) in
      let length_at : int_at g 4 ≡ count = omega arith in
      let served = served-next c pos count (call_of g sv s) asked named length_at h in
      let turn =
        serve_turn-answers 3 k (call_of g sv s) (moved (fileid % 1024) k sv₁) refl served in
      (
        after_turn (moved (fileid % 1024) k sv₁) (asking g sv s),
        devfile_read-step fd s sv (moved (fileid % 1024) k sv₁) file.running count k turn
              (omega arith) (omega arith)
            ∙ ap (λ x. (ok x, after_turn (moved (fileid % 1024) k sv₁) (asking g sv s)))
                (bytes_from-read c.byte g pos k),
        returned-IsFile c c pos k s (asking g sv s) sv sv₁ file refl refl refl
            (moved-IsOpen c c pos k (call_of g sv s) sv₁ asked refl refl refl asked.contents),
      )

  -- A write of more bytes than fit a request is of those that fit.
  pub devfile_write-put :
      (c : Contents) (pos : ℕ) (buf : List ℕ) (s : Program ServedBy)
      → fileid < 2 ^ 32
      → IsFile fd fileid mode (b, i) n blk c pos s
      → pos + req_n buf ≤ c.size
      → All (λ v. v < 256) (take (req_n buf) buf)
      → (s' : Program ServedBy) × (devfile_write fd buf s ≡ (ok (req_n buf), s'))
        × IsFile fd fileid mode (b, i) n blk (put c (take (req_n buf) buf) pos) (pos + req_n buf) s'
  devfile_write-put c pos buf s small file inside bytes =
      let sv = file.server in
      let k = req_n buf in
      let l = take k buf in
      let len : length l ≡ k = length-take k buf (ground arith) in
      let id = fileid_of-IsFile c pos s file in
      let g = put_bytes 8 l (put_int 4 k (put_int 0 (fileid_of fd s) sv.fsreq)) in
      let asked = call_of-IsOpen c pos s sv g file.is_open in
      let fits : k ≤ 4088 = ground arith in
      let named : int_at g 0 ≡ fileid = omega (arith, id) in
      let length_at : int_at g 4 ≡ length l = omega (arith, len, fits) in
      let same = bytes_from-put_bytes 8 l (put_int 4 k (put_int 0 (fileid_of fd s) sv.fsreq)) in
      let (d, served, rep) =
        served-put_next c pos l (call_of g sv s) asked named length_at same
          (omega (arith, len, fits)) (omega (arith, len, inside)) bytes in
      let sv₁ = record (call_of g sv s) { cache = d } in
      let served' : handler 4 (call_of g sv s) ≡ some (ok k, moved (fileid % 1024) k sv₁) =
        served ∙ ap (λ x. some (ok x, moved (fileid % 1024) x sv₁)) len in
      let turn =
        serve_turn-answers 4 k (call_of g sv s) (moved (fileid % 1024) k sv₁) refl served' in
      (
        after_turn (moved (fileid % 1024) k sv₁) (asking g sv s),
        devfile_write-step fd s sv (moved (fileid % 1024) k sv₁) file.running buf turn,
        returned-IsFile c (put c l pos) pos k s (asking g sv s) sv sv₁ file refl refl refl
            (moved-IsOpen c (put c l pos) pos k (call_of g sv s) sv₁ asked refl refl refl rep),
      )
