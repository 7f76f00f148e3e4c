-- ===== src/Fs/Server/Requests.antt =====
-- The requests of a client of tp-parte4/fs/serv.c to read and write an open file, as pages.
use sistemas_operativos_2c.Common.{
  ℕ, zero, suc, ◌+◌, ◌-◌, ◌%◌, ◌^◌, ◌<◌, ◌≤◌, ◌≡◌, refl, ap, sym, ◌∙◌, min, Option, none, some,
  List, [], ◌∷◌, length, arith, All,
}
use sistemas_operativos_2c.Errors.{ok, err}
use sistemas_operativos_2c.Fs.Bytes.{byte_at}
use sistemas_operativos_2c.Fs.Content.Layout.{bytes_from}
use sistemas_operativos_2c.Fs.Content.Refinement.{
  Contents, Call, Reply, read, write, got, wrote, failed, Represents,
}
use sistemas_operativos_2c.Fs.Server.{Server, S, ◌>>=◌, pure}
use sistemas_operativos_2c.Fs.Server.Handlers.{Sent, int_at, put_bytes, put_int, serve_turn}

-- The file with this id is open at a position, and its file has these contents.
pub record IsOpen (fileid : ℕ) (f : ℕ × ℕ) (n : ℕ) (blk : ℕ → ℕ) (c : Contents) (pos : ℕ)
    (s : Server) : Type 0 where
  pub mapped : 2 ≤ s.pageref (fileid % 1024)
  pub named : (s.opentab (fileid % 1024)).o_fileid ≡ fileid
  pub file : (s.opentab (fileid % 1024)).o_file ≡ some f
  pub at : (s.o_fd (fileid % 1024)).fd_offset ≡ pos
  pub contents : Represents f n blk c s.cache

pub data Request : Type 0 where
  next : ℕ → Request
  put_next : List ℕ → Request

-- The page of a request, its code, and what a client takes from the answer.
abbrev pub page_of : (fileid : ℕ) → Request → ℕ → ℕ
page_of fileid (next n) = put_int 4 n (put_int 0 fileid (λ _. 0))
page_of fileid (put_next buf) = put_bytes 8 buf (put_int 4 (length buf) (put_int 0 fileid (λ _. 0)))

abbrev pub code : Request → ℕ
code (next n) = 3
code (put_next buf) = 4

abbrev pub taken_from : Request → Option Sent → (ℕ → ℕ) → Reply
taken_from r none g = failed
taken_from r (some sent) g = elim (sent.value) [
  | err e ↦ failed
  | ok k ↦ elim r [ next n ↦ got k (bytes_from g 0 k) | put_next buf ↦ wrote k ]
]

abbrev pub asked : (fileid : ℕ) → Request → S Reply
asked fileid r s =
    (do sent ← serve_turn (code r) 7; λ s'. some (taken_from r sent s'.fsreq, s'))
      (record s { fsreq = page_of fileid r })

abbrev pub asked_all : (fileid : ℕ) → List Request → S (List Reply)
asked_all fileid [] = pure []
asked_all fileid (r ∷ rs) = do a ← asked fileid r; more ← asked_all fileid rs; pure (a ∷ more)

-- The calls at the positions that the requests reach, in a file of a size.
abbrev pub placed : (size pos : ℕ) → List Request → List Call
placed size pos [] = []
placed size pos (next n ∷ rs) = read n pos ∷ placed size (pos + min n (size - pos)) rs
placed size pos (put_next buf ∷ rs) = write buf pos ∷ placed size (pos + length buf) rs

abbrev pub end_of : (size pos : ℕ) → List Request → ℕ
end_of size pos [] = pos
end_of size pos (next n ∷ rs) = end_of size (pos + min n (size - pos)) rs
end_of size pos (put_next buf ∷ rs) = end_of size (pos + length buf) rs

-- Each request fits its page, and a write is of bytes and inside the file.
abbrev pub Fit : (size pos : ℕ) → List Request → Type 0
Fit size pos [] = Unit
Fit size pos (next n ∷ rs) = (n ≤ 4096) × Fit size (pos + min n (size - pos)) rs
Fit size pos (put_next buf ∷ rs) =
    ((length buf ≤ 4088) × (pos + length buf ≤ size) × All (λ v. v < 256) buf)
    × Fit size (pos + length buf) rs

bytes_from-listed :
    (h : ℕ → ℕ) (l : List ℕ) (off : ℕ)
    → ((j : ℕ) → j < length l → h (off + j) ≡ byte_at l j)
    → bytes_from h off (length l) ≡ l
bytes_from-listed h [] off e = refl
bytes_from-listed h (v ∷ l) off e =
    let here : off + 0 ≡ off = omega arith in
    let there : (j : ℕ) → off + 1 + j ≡ off + suc j = λ j. omega arith in
    cc (
      sym (ap h here) ∙ e 0 (omega arith),
      bytes_from-listed h l (off + 1) (λ j hj. ap h (there j) ∙ e (suc j) (omega arith)),
    )

pub bytes_from-put_bytes :
    (off : ℕ) (l : List ℕ) (g : ℕ → ℕ) → bytes_from (put_bytes off l g) off (length l) ≡ l
bytes_from-put_bytes off l g =
    bytes_from-listed (put_bytes off l g) l off
      λ j hj. let back : off + j - off ≡ j = omega arith in ground (arith, hj, ap (byte_at l) back)

pub length-bytes_from : (g : ℕ → ℕ) (pos k : ℕ) → length (bytes_from g pos k) ≡ k
length-bytes_from g pos zero = refl
length-bytes_from g pos (suc k) = ap suc (length-bytes_from g (pos + 1) k)

pub page_of-fileid :
    (fileid : ℕ) (r : Request) → fileid < 2 ^ 32 → int_at (page_of fileid r) 0 ≡ fileid
page_of-fileid fileid (next n) h = omega arith
page_of-fileid fileid (put_next buf) h = omega arith
