-- ===== src/Fs/Server/Open.antt =====
-- serve_open of tp-parte4/fs/serv.c on a file that there is.
use sistemas_operativos_2c.Common.{
  ℕ, ◌%◌, ◌^◌, ◌<◌, ◌≤◌, ◌≡◌, refl, sym, subst, false, some, List, leb, ==-refl, arith, update,
  bit_and,
}
use sistemas_operativos_2c.Errors.{ok}
use sistemas_operativos_2c.Fs.Content.Refinement.{Contents, Represents}
use sistemas_operativos_2c.Fs.Dir.{file_open}
use sistemas_operativos_2c.Fs.Server.{
  Server, ◌>>=◌, ◌>>◌, on_cache, openfile_alloc, create_or_open, open_request,
}
use sistemas_operativos_2c.Fs.Server.Keeps.{IsTable}
use sistemas_operativos_2c.Fs.Server.Table.{shared, next_fileid, openfile_alloc-gives}
use sistemas_operativos_2c.Fs.Server.Requests.{IsOpen}

abbrev filled_in : (o : ℕ) → ℕ × ℕ → (omode : ℕ) → Server → Server
filled_in o f omode s = record s {
  opentab = update s.opentab o (record (s.opentab o) { o_file = some f; o_mode = omode });
  o_fd = update s.o_fd o (record (s.o_fd o) {
    fd_file_id = (s.opentab o).o_fileid;
    fd_omode = bit_and omode 3;
    fd_dev_id = b'f';
  });
}

not_negative : (x : ℕ) → x < 2 ^ 31 → leb (2 ^ 31) x ≡ false
not_negative x h = ground (arith, h)

open_request-step :
    (path : List ℕ) (omode o fileid : ℕ) (f : ℕ × ℕ) (s s' : Server)
    → bit_and omode 0x100 ≡ 0
    → bit_and omode 0x200 ≡ 0
    → openfile_alloc s ≡ some (ok (o, fileid), s')
    → fileid < 2 ^ 31
    → file_open path s'.cache ≡ some (ok f, s'.cache)
    → open_request path omode s ≡ some ((ok 0, some o), filled_in o f omode s')
unfolding open_request create_or_open
open_request-step path omode o fileid f s s' hc ht e h opens =
    rw (◌>>=◌, e)
      (rw (not_negative fileid h, ◌>>=◌, hc)
        (rw (on_cache, opens) (rw (ht, ◌>>◌, ◌>>=◌, on_cache, opens) refl)))

-- serve_open's work for a path at which file_open finds
-- a file of direct blocks with no change of the cache, without O_CREAT and O_TRUNC, where the first page with at most
-- one reference is that of entry `o` and may be had: it returns 0 and the entry's page, and once the caller has
-- mapped the page, the file is open under the entry's new id at position 0. The page has one reference and describes a
-- file of that id, with the access mode of `omode`. The id is below 2 ^ 31.
pub open_request-IsOpen :
    {b i n : ℕ} {blk : ℕ → ℕ} (path : List ℕ) (omode o : ℕ) (c : Contents) (s : Server)
    → IsTable s
    → o < 1024
    → ((j : ℕ) → j < o → 2 ≤ s.pageref j)
    → s.pageref o ≤ 1
    → s.grant o ≡ ok tt
    → next_fileid o s < 2 ^ 31
    → bit_and omode 0x100 ≡ 0
    → bit_and omode 0x200 ≡ 0
    → file_open path s.cache ≡ some (ok (b, i), s.cache)
    → Represents (b, i) n blk c s.cache
    → (s' : Server) × (open_request path omode s ≡ some ((ok 0, some o), s'))
      × IsOpen (next_fileid o s) (b, i) n blk c 0 (shared o s')
      × (s'.pageref o ≡ 1)
      × (s'.o_fd o ≡ record {
        fd_dev_id = b'f';
        fd_offset = 0;
        fd_omode = bit_and omode 3;
        fd_file_id = next_fileid o s;
      })
open_request-IsOpen {b} {i} {n} {blk} path omode o c s t ho busy free granted hid hc ht opens rep =
    let (s₁, e, tab, fd, cache, one) = openfile_alloc-gives o s ho busy free granted in
    let s' = filled_in o (b, i) omode s₁ in
    let old = t o ho in
    let index : next_fileid o s % 1024 ≡ o = omega arith in
    let opens₁ : file_open path s₁.cache ≡ some (ok (b, i), s₁.cache) =
      subst (λ d. file_open path d ≡ some (ok (b, i), d)) (sym cache) opens in
    let open_at : IsOpen (next_fileid o s) (b, i) n blk c 0 (shared o s') = record {
      mapped = rw (index, ==-refl o) (omega arith);
      named = rw (index, ==-refl o, tab, ==-refl o) refl;
      file = rw (index, ==-refl o) refl;
      at = rw (index, ==-refl o, fd, ==-refl o) refl;
      contents = subst (Represents (b, i) n blk c) (sym cache) rep;
    } in
    (
      s',
      open_request-step path omode o (next_fileid o s) (b, i) s s₁ hc ht e hid opens₁,
      open_at,
      one,
      rw (==-refl o, fd, tab, ==-refl o) refl,
    )
