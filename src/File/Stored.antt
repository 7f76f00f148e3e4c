-- ===== src/File/Stored.antt =====
-- read, readn, write and seek of tp-parte4/lib/fd.c on a file of tp-parte4/fs: what is stored in it.
use sistemas_operativos_2c.Common.{
  ℕ, ◌+◌, ◌-◌, ◌%◌, ◌^◌, ◌<◌, ◌≤◌, ◌≡◌, ◌≢◌, ◌⊎◌, inl, inr, refl, ap, sym, ◌∙◌, subst, min, false,
  List, [], ◌∷◌, length, take, drop, ◌==◌, ==-refl, arith, bit_and, All,
}
use native.Mathlib.Decide.{ℕ_discrete}
use sistemas_operativos_2c.Errors.{Outcome, ok}
use sistemas_operativos_2c.Fs.Content.Layout.{bytes_from}
use sistemas_operativos_2c.Fs.Content.Refinement.{Contents, put}
use sistemas_operativos_2c.Fs.Server.Requests.{bytes_from-put_bytes, length-bytes_from}
use sistemas_operativos_2c.Descriptor.{
  Program, Dev, index2fd, fd_of, dev_lookup, seek, write, readn,
}
use sistemas_operativos_2c.Descriptor.Sharing.{seeked, seek-mapped}
use sistemas_operativos_2c.Descriptor.Reading.{IsReadable, IsStream, length-take, readn-take}
use sistemas_operativos_2c.Descriptor.Writing.{IsWritable, write-by}
use sistemas_operativos_2c.File.{ServedBy, req_n, devfile_read, devfile_write, devfile}
use sistemas_operativos_2c.File.Unread.{take-bytes_from, take-min, drop-bytes_from, left-position}
use sistemas_operativos_2c.File.Device.{IsFile, devfile_read-next, devfile_write-put}

abbrev position : (fileid : ℕ) → Program ServedBy → ℕ
position fileid s = (s.page_fd (fileid % 1024)).fd_offset

module _ (more : List (Dev ServedBy)) (fdnum fileid mode b i n : ℕ) (blk : ℕ → ℕ) (hs : fdnum < 32)
    (small : fileid < 2 ^ 32) where
  dev_lookup-IsFile :
      (c : Contents) (pos : ℕ) (s : Program ServedBy)
      → IsFile (index2fd fdnum) fileid mode (b, i) n blk c pos s
      → dev_lookup (devfile ∷ more) (fd_of (index2fd fdnum) s).fd_dev_id ≡ ok devfile
  unfolding dev_lookup devfile
  dev_lookup-IsFile c pos s file = rw (fd_of, file.there, file.dev) refl

  mode-IsFile :
      (c : Contents) (pos bad : ℕ) (s : Program ServedBy)
      → IsFile (index2fd fdnum) fileid mode (b, i) n blk c pos s
      → (bit_and mode 3 == bad) ≡ false
      → (bit_and (fd_of (index2fd fdnum) s).fd_omode 3 == bad) ≡ false
  mode-IsFile c pos bad s file h = rw (fd_of, file.there, file.omode) h

  abbrev Ready : Contents → Program ServedBy → Type 0
  Ready c s =
      (position fileid s ≤ c.size)
      × IsFile (index2fd fdnum) fileid mode (b, i) n blk c (position fileid s) s

  abbrev unread : Contents → Program ServedBy → List ℕ
  unread c s = bytes_from c.byte (position fileid s) (c.size - position fileid s)

  Ready-at :
      (c : Contents) (pos : ℕ) (s : Program ServedBy)
      → pos ≤ c.size
      → IsFile (index2fd fdnum) fileid mode (b, i) n blk c pos s
      → (position fileid s ≡ pos) × Ready c s
  Ready-at c pos s h file =
      let at : position fileid s ≡ pos = file.is_open.at in
      (
        at,
        (
          omega (arith, at),
          subst (λ x. IsFile (index2fd fdnum) fileid mode (b, i) n blk c x s) (sym at) file,
        ),
      )

  -- One read, and the state after it.
  read-Ready :
      (c : Contents) (m : ℕ) (s : Program ServedBy)
      → m ≤ 4096
      → Ready c s
      → (let k = min m (c.size - position fileid s) in
          let s' = (devfile_read (index2fd fdnum) m s).1 in
          (devfile_read (index2fd fdnum) m s ≡ (ok (bytes_from c.byte (position fileid s) k), s'))
          × (position fileid s' ≡ position fileid s + k)
          × Ready c s')
  read-Ready c m s h ready =
      let pos = position fileid s in
      let k = min m (c.size - pos) in
      let (s', e, file) = devfile_read-next c pos m s small ready.1 h in
      let same : s' ≡ (devfile_read (index2fd fdnum) m s).1 =
        sym (ap (λ (t : Outcome (List ℕ) × Program ServedBy). t.1) e) in
      subst
        (λ x.
          (devfile_read (index2fd fdnum) m s ≡ (ok (bytes_from c.byte pos k), x))
          × (position fileid x ≡ pos + k)
          × Ready c x)
        same
        (let (at, ready') = Ready-at c (pos + k) s' (omega (arith, ready.0)) file in
          (e, at, ready'))

  file-IsReadable :
      (c : Contents) (s : Program ServedBy)
      → (bit_and mode 3 == 1) ≡ false
      → Ready c s
      → IsReadable (devfile ∷ more) fdnum devfile_read s
  unfolding devfile
  file-IsReadable c s h ready = record {
    page = fileid % 1024;
    dev = devfile;
    small = hs;
    there = ready.1.there;
    found = dev_lookup-IsFile c (position fileid s) s ready.1;
    mode = mode-IsFile c (position fileid s) 1 s ready.1 h;
    reads_by = refl;
  }

  file-IsWritable :
      (c : Contents) (pos : ℕ) (s : Program ServedBy)
      → (bit_and mode 3 == 0) ≡ false
      → IsFile (index2fd fdnum) fileid mode (b, i) n blk c pos s
      → IsWritable (devfile ∷ more) fdnum devfile_write s
  unfolding devfile
  file-IsWritable c pos s h file = record {
    page = fileid % 1024;
    dev = devfile;
    small = hs;
    there = file.there;
    found = dev_lookup-IsFile c pos s file;
    mode = mode-IsFile c pos 0 s file h;
    writes_by = refl;
  }

  read-progress :
      (c : Contents) (m : ℕ) (s : Program ServedBy)
      → (min m (c.size - position fileid s) ≢ 0) ⊎ ((m ≡ 0) ⊎ (unread c s ≡ []))
  read-progress c m s = elim (ℕ_discrete m 0) [
    | yes z ↦ inr (inl z)
    | no ne ↦ elim (ℕ_discrete (c.size - position fileid s) 0) [
      | yes z ↦ inr (inr (ap (bytes_from c.byte (position fileid s)) z))
      | no ne' ↦ inl (λ e. omega (arith, e, ne, ne'))
    ]
  ]

  -- The bytes that are left in the file are a stream, which devfile_read takes from up to a page at a time.
  file-IsStream :
      (c : Contents)
      → (bit_and mode 3 == 1) ≡ false
      → IsStream (devfile ∷ more) fdnum devfile_read 4096 (Ready c) (unread c)
  file-IsStream c h = record {
    readable = λ s ready. file-IsReadable c s h ready;
    count = λ m s. min m (c.size - position fileid s);
    after = λ m s. (devfile_read (index2fd fdnum) m s).1;
    gives = λ m s hm ready.
        let pos = position fileid s in
        let k = min m (c.size - pos) in
        (read-Ready c m s hm ready).0
        ∙ ap (λ l. (ok l, (devfile_read (index2fd fdnum) m s).1))
            (sym (take-bytes_from c.byte pos k (c.size - pos) (omega arith)));
    leaves = λ m s hm ready.
        let pos = position fileid s in
        let k = min m (c.size - pos) in
        let less : c.size - (pos + k) ≡ c.size - pos - k = omega arith in
        ap (λ x. bytes_from c.byte x (c.size - x)) (read-Ready c m s hm ready).1
        ∙ ap (bytes_from c.byte (pos + k)) less
        ∙ sym (drop-bytes_from c.byte pos k (c.size - pos));
    stays = λ m s hm ready. (read-Ready c m s hm ready).2;
    bounded = λ m s ready.
        let len = length-bytes_from c.byte (position fileid s) (c.size - position fileid s) in
        (omega arith, omega (arith, len));
    progress = λ m s ready. read-progress c m s;
  }

  -- readn of at most a page through a descriptor that is open for reading on a file of direct blocks, at a position
  -- inside the file or at its end, returns the bytes of the file from the position on, up to its end, and leaves the
  -- descriptor open on the same contents after them.
  pub readn-IsFile :
      (c : Contents) (pos count : ℕ) (s : Program ServedBy)
      → (bit_and mode 3 == 1) ≡ false
      → pos ≤ c.size
      → count ≤ 4096
      → IsFile (index2fd fdnum) fileid mode (b, i) n blk c pos s
      → (let k = min count (c.size - pos) in
          (s' : Program ServedBy) × (readn (devfile ∷ more) fdnum count s
            ≡ (ok (bytes_from c.byte pos k), s'))
          × IsFile (index2fd fdnum) fileid mode (b, i) n blk c (pos + k) s')
  readn-IsFile c pos count s h hp hc file =
      let (at, ready) = Ready-at c pos s hp file in
      let (s', e, left, ready') =
        readn-take (devfile ∷ more) fdnum (file-IsStream c h) count s ready hc in
      let unread_at : unread c s ≡ bytes_from c.byte pos (c.size - pos) =
        ap (λ x. bytes_from c.byte x (c.size - x)) at in
      (
        s',
        e
            ∙ ap (λ l. (ok l, s'))
                (ap (take count) unread_at ∙ take-min c.byte pos count (c.size - pos)),
        subst (λ x. IsFile (index2fd fdnum) fileid mode (b, i) n blk c x s')
            (left-position c count pos (position fileid s') hp ready'.0
              (left ∙ ap (drop count) unread_at))
            ready'.1,
      )

  seeked-IsFile :
      (c : Contents) (pos pos' : ℕ) (s : Program ServedBy)
      → IsFile (index2fd fdnum) fileid mode (b, i) n blk c pos s
      → IsFile (index2fd fdnum) fileid mode (b, i) n blk c pos' (seeked (fileid % 1024) pos' s)
  seeked-IsFile c pos pos' s file = record {
    server = file.server;
    running = file.running;
    there = file.there;
    own = rw (==-refl (fileid % 1024)) file.own;
    dev = rw (==-refl (fileid % 1024)) file.dev;
    omode = rw (==-refl (fileid % 1024)) file.omode;
    is_open = record {
      mapped = file.is_open.mapped;
      named = file.is_open.named;
      file = file.is_open.file;
      at = rw (==-refl (fileid % 1024)) refl;
      contents = file.is_open.contents;
    };
  }

  write-readn_req :
      (c : Contents) (pos : ℕ) (buf : List ℕ) (s : Program ServedBy)
      → (bit_and mode 3 == 0) ≡ false
      → (bit_and mode 3 == 1) ≡ false
      → pos + req_n buf ≤ c.size
      → All (λ v. v < 256) (take (req_n buf) buf)
      → IsFile (index2fd fdnum) fileid mode (b, i) n blk c pos s
      → (s₁ s₂ s₃ : Program ServedBy) × (write (devfile ∷ more) fdnum buf s ≡ (ok (req_n buf), s₁))
        × (seek fdnum pos s₁ ≡ (ok 0, s₂))
        × (readn (devfile ∷ more) fdnum (req_n buf) s₂ ≡ (ok (take (req_n buf) buf), s₃))
  write-readn_req c pos buf s hw hr inside bytes file =
      let k = req_n buf in
      let l = take k buf in
      let len : length l ≡ k = length-take k buf (ground arith) in
      let fits : k ≤ 4096 = ground arith in
      let (s₁, e₁, file₁) = devfile_write-put c pos buf s small file inside bytes in
      let file₂ = seeked-IsFile (put c l pos) (pos + k) pos s₁ file₁ in
      let s₂ = seeked (fileid % 1024) pos s₁ in
      let (s₃, e₃, _) = readn-IsFile (put c l pos) pos k s₂ hr (omega (arith, inside)) fits file₂ in
      let all : min k (c.size - pos) ≡ length l = omega (arith, len, inside) in
      (
        s₁,
        s₂,
        s₃,
        write-by (devfile ∷ more) fdnum devfile_write buf s (file-IsWritable c pos s hw file) ∙ e₁,
        seek-mapped fdnum pos (fileid % 1024) s₁ hs file₁.there,
        e₃
            ∙ ap (λ x. (ok x, s₃))
                (ap (bytes_from (put c l pos).byte pos) all ∙ bytes_from-put_bytes pos l c.byte),
      )

  -- write through a descriptor that is open for reading and writing on a file of direct blocks, where the first 4088 bytes
  -- of the buffer, or all of it if it is shorter, are bytes and fit inside the file, returns how many these are; after a seek
  -- back to where the write began, readn of as many returns these bytes of the buffer.
  pub write-readn :
      (c : Contents) (pos : ℕ) (buf : List ℕ) (s : Program ServedBy)
      → (bit_and mode 3 == 0) ≡ false
      → (bit_and mode 3 == 1) ≡ false
      → pos + min 4088 (length buf) ≤ c.size
      → All (λ v. v < 256) (take (min 4088 (length buf)) buf)
      → IsFile (index2fd fdnum) fileid mode (b, i) n blk c pos s
      → (s₁ s₂ s₃ : Program ServedBy) × (write (devfile ∷ more) fdnum buf s
          ≡ (ok (min 4088 (length buf)), s₁))
        × (seek fdnum pos s₁ ≡ (ok 0, s₂))
        × (readn (devfile ∷ more) fdnum (min 4088 (length buf)) s₂
            ≡ (ok (take (min 4088 (length buf)) buf), s₃))
  write-readn c pos buf s hw hr =
      let same : req_n buf ≡ min 4088 (length buf) = ground arith in
      subst
        (λ k.
          pos + k ≤ c.size
          → All (λ v. v < 256) (take k buf)
          → IsFile (index2fd fdnum) fileid mode (b, i) n blk c pos s
          → (s₁ s₂ s₃ : Program ServedBy) × (write (devfile ∷ more) fdnum buf s ≡ (ok k, s₁))
            × (seek fdnum pos s₁ ≡ (ok 0, s₂))
            × (readn (devfile ∷ more) fdnum k s₂ ≡ (ok (take k buf), s₃)))
        same (write-readn_req c pos buf s hw hr)
