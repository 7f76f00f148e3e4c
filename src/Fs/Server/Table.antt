-- ===== src/Fs/Server/Table.antt =====
-- The ids of the open files of tp-parte4/fs/serv.c.
use sistemas_operativos_2c.Common.{
  ℕ, zero, suc, ◌+◌, ◌%◌, ◌^◌, ◌<◌, ◌≤◌, ◌≡◌, ◌≢◌, refl, ap, sym, ◌∙◌, subst, false, ◌==◌, ==-refl,
  ==_ne, Option, some, arith, if◌then◌else◌, update, Bool-cases, inl, inr,
}
use native.Mathlib.Decide.{ℕ_discrete}
use sistemas_operativos_2c.Errors.{inval, Outcome, ok, err}
use sistemas_operativos_2c.Fs.Server.{
  OpenFile, Fd, Server, ◌>>=◌, take_entry, openfile_from, openfile_alloc, openfile_lookup,
  serve_init_from, serve_init, empty_fd,
}
use sistemas_operativos_2c.Fs.Server.Handlers.{serve_turn, Sent}
use sistemas_operativos_2c.Fs.Server.Keeps.{IsTable, Holds, serve_turn-Keeps}

-- Each entry from `i` on has its index, and those before it keep theirs.
serve_init_from-IsTable :
    (rounds i : ℕ) (s : Server)
    → ((j : ℕ) → j < i → (s.opentab j).o_fileid ≡ j)
    → (s' : Server) × (serve_init_from rounds i s ≡ some (tt, s'))
      × ((j : ℕ) → j < i + rounds → (s'.opentab j).o_fileid ≡ j)
unfolding serve_init_from
serve_init_from-IsTable zero i s h = (s, refl, λ j hj. h j (omega arith))
serve_init_from-IsTable (suc rounds) i s h =
    let s₁ = record s { opentab = update s.opentab i (record (s.opentab i) { o_fileid = i }) } in
    let here : (j : ℕ) → j < i + 1 → (s₁.opentab j).o_fileid ≡ j = λ j hj.
      elim (Bool-cases (i == j)) [
        | inl e ↦ ground (arith, e)
        | inr other ↦ rw other (h j (ground (arith, other)))
      ] in
    let (s', e, all) = serve_init_from-IsTable rounds (i + 1) s₁ here in
    (s', e, λ j hj. all j (omega arith))

-- What the clients, the kernel and the requests may change between two turns.
abbrev pub given :
    (fsreq : ℕ → ℕ) (pageref : ℕ → ℕ) (grant : ℕ → Outcome (Unit {0})) (o_fd : ℕ → Fd)
    → Server
    → Server
given fsreq pageref grant o_fd s = record s {
  fsreq = fsreq;
  pageref = pageref;
  grant = grant;
  o_fd = o_fd;
}

-- The states of the server between its turns.
pub data Reachable : Server → Type 0 where
  initial : (s s' : Server) → serve_init s ≡ some (tt, s') → Reachable s'
  others :
      (fsreq : ℕ → ℕ) (pageref : ℕ → ℕ) (grant : ℕ → Outcome (Unit {0})) (o_fd : ℕ → Fd)
      (s : Server)
      → Reachable s
      → Reachable (given fsreq pageref grant o_fd s)
  turn :
      (req perm : ℕ) (r : Option Sent) (s s' : Server)
      → Reachable s
      → serve_turn req perm s ≡ some (r, s')
      → Reachable s'

Holds-result :
    {A : Type 0} (P : Server → Type 0) (x : Option (A × Server)) (a : A) (s : Server)
    → x ≡ some (a, s)
    → Holds P x
    → P s
Holds-result P x a s e h = subst (Holds P) e h

-- After serve_init, whatever requests are served and whatever the rest of the system does to the pages that it
-- shares with the server, the id of each entry of the table is the entry's index modulo MAXOPEN.
pub Reachable-IsTable : (s : Server) → Reachable s → IsTable s
unfolding serve_init
Reachable-IsTable s' (initial s _ e) = λ i hi.
    let (s₁, e₁, all) = serve_init_from-IsTable 1024 0 s (λ j hj. absurd (omega arith)) in
    let same : s₁ ≡ s' = cc (e, e₁) in
    omega (arith, all i (omega arith), ap (λ (x : Server). (x.opentab i).o_fileid) same)
Reachable-IsTable _ (others fsreq pageref grant o_fd s h) = Reachable-IsTable s h
Reachable-IsTable s' (turn req perm r s _ h e) =
    Holds-result IsTable (serve_turn req perm s) r s' e
      (serve_turn-Keeps req perm s (Reachable-IsTable s h))

-- A client has mapped the page of an entry.
abbrev pub shared : ℕ → Server → Server
shared o s = record s { pageref = update s.pageref o 2 }

abbrev pub next_fileid : ℕ → Server → ℕ
next_fileid o s = ((s.opentab o).o_fileid + 1024) % 2 ^ 32

abbrev entry_taken : ℕ → Server → Server
entry_taken o s = record s {
  opentab = update s.opentab o (record (s.opentab o) { o_fileid = next_fileid o s });
  o_fd = update s.o_fd o empty_fd;
}

take_granted :
    (o : ℕ) (s : Server)
    → s.pageref o ≤ 1
    → s.grant o ≡ ok tt
    → (rounds : ℕ)
    → (s' : Server) × (openfile_from (suc rounds) o s ≡ some (ok (o, next_fileid o s), s'))
      × (s'.opentab ≡ update s.opentab o (record (s.opentab o) { o_fileid = next_fileid o s }))
      × (s'.o_fd ≡ update s.o_fd o empty_fd)
      × (s'.cache ≡ s.cache)
      × (s'.pageref o ≡ 1)
unfolding openfile_from take_entry
take_granted o s h g rounds = elim (ℕ_discrete (s.pageref o) 0) [
  | yes z ↦ (
    entry_taken o (record s { pageref = update s.pageref o 1 }),
    rw (z, ◌>>=◌, g) refl,
    refl,
    refl,
    refl,
    rw (==-refl o) refl,
  )
  | no ne ↦
      let one : s.pageref o ≡ 1 = omega arith in
      (entry_taken o s, rw one refl, refl, refl, refl, one)
]

openfile_from-skips :
    (rounds o i : ℕ) (s : Server)
    → ((j : ℕ) → j < o → 2 ≤ s.pageref j)
    → i ≤ o
    → o < i + rounds
    → (rest : ℕ) × (openfile_from rounds i s ≡ openfile_from (suc rest) o s)
unfolding openfile_from
openfile_from-skips zero o i s h l u = absurd (omega arith)
openfile_from-skips (suc rounds) o i s h l u = elim (ℕ_discrete i o) [
  | yes e ↦ (rounds, ap (λ x. openfile_from (suc rounds) x s) e)
  | no ne ↦
      let busy : 2 ≤ s.pageref i = h i (omega arith) in
      let n0 : (s.pageref i == 0) ≡ false = ground (arith, busy) in
      let n1 : (s.pageref i == 1) ≡ false = ground (arith, busy) in
      let (rest, e) = openfile_from-skips rounds o (i + 1) s h (omega arith) (omega arith) in
      (rest, rw (n0, n1) e)
]

lookup_shared :
    (o fileid : ℕ) (s : Server)
    → fileid % 1024 ≡ o
    → (s.opentab o).o_fileid ≡ fileid
    → openfile_lookup fileid (shared o s) ≡ some (ok o, shared o s)
unfolding openfile_lookup
lookup_shared o fileid s h e = rw (h, ==-refl o, e, ==-refl fileid) refl

lookup_stale :
    (o fileid : ℕ) (s : Server)
    → fileid % 1024 ≡ o
    → (s.opentab o).o_fileid ≢ fileid
    → openfile_lookup fileid (shared o s) ≡ some (err inval, shared o s)
unfolding openfile_lookup
lookup_stale o fileid s h e = rw (h, ==-refl o, ==_ne (s.opentab o).o_fileid fileid e) refl

module _ (o : ℕ) (s : Server) (ho : o < 1024) (busy : (j : ℕ) → j < o → 2 ≤ s.pageref j)
    (free : s.pageref o ≤ 1) (granted : s.grant o ≡ ok tt) where
  pub openfile_alloc-gives :
      (s' : Server) × (openfile_alloc s ≡ some (ok (o, next_fileid o s), s'))
      × (s'.opentab ≡ update s.opentab o (record (s.opentab o) { o_fileid = next_fileid o s }))
      × (s'.o_fd ≡ update s.o_fd o empty_fd)
      × (s'.cache ≡ s.cache)
      × (s'.pageref o ≡ 1)
  unfolding openfile_alloc
  openfile_alloc-gives =
      let (rest, e) = openfile_from-skips 1024 o 0 s busy (omega arith) (omega arith) in
      let (s', e', tab, fd, cache, one) = take_granted o s free granted rest in
      (s', e ∙ e', tab, fd, cache, one)

  -- In a table whose ids have their indices, where the first page with at most one reference is that of an
  -- entry and may be had, openfile_alloc gives the entry with a new id and an empty page. Once a client has the
  -- page, openfile_lookup finds the entry by its new id and refuses its old one; the other entries are as before.
  pub openfile_alloc-openfile_lookup :
      IsTable s
      → (s.opentab o).o_fileid < 2 ^ 32
      → (s' : Server) × (openfile_alloc s ≡ some (ok (o, next_fileid o s), s'))
        × (s'.o_fd o ≡ empty_fd)
        × (openfile_lookup (next_fileid o s) (shared o s') ≡ some (ok o, shared o s'))
        × (openfile_lookup (s.opentab o).o_fileid (shared o s') ≡ some (err inval, shared o s'))
        × ((j : ℕ)
            → s'.opentab j ≡ (
                if o == j
                then record (s.opentab o) { o_fileid = next_fileid o s }
                else s.opentab j))
  openfile_alloc-openfile_lookup t hw =
      let (s', e, tab, fd, _, _) = openfile_alloc-gives in
      let id : (s'.opentab o).o_fileid ≡ next_fileid o s = rw (tab, ==-refl o) refl in
      let old = t o ho in
      let index : next_fileid o s % 1024 ≡ o = omega arith in
      let fresh : next_fileid o s ≢ (s.opentab o).o_fileid = omega arith in
      (
        s',
        e,
        rw (fd, ==-refl o) refl,
        lookup_shared o (next_fileid o s) s' index id,
        lookup_stale o (s.opentab o).o_fileid s' old (λ same. fresh (sym id ∙ same)),
        λ j. ap (λ (f : ℕ → OpenFile). f j) tab,
      )
