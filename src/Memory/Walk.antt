-- ===== src/Memory/Walk.antt =====
-- pgdir_walk, page_lookup and page_decref of tp-parte4/kern/pmap.c on each of their branches.
use sistemas_operativos_2c.Common.{
  ℕ, ◌+◌, ◌%◌, ◌^◌, ◌<◌, ◌≤◌, ◌≡◌, ◌≢◌, none, some, Bool, true, false, update, ap, ◌∙◌, bit_or,
  update_self, arith, ==_ne, ==_eq,
}
use mathlib.Core.Path.{ap₂}
use native.Mathlib.Decide.{dec_lt, ℕ_discrete}
use sistemas_operativos_2c.Common.Bits.{above, above-bit_or, bit_or-zero, digit-bit_or}
use sistemas_operativos_2c.Memory.{
  Mem, ◌>>=◌, kaddr, pa2page, load, store, page_incref, page_alloc, page2pa, pte_p, pte_w, pte_u,
  pgnum, pdx, ptx, pte_addr, page_free, page_decref, pgdir_walk, page_lookup,
}

-- The page directory entry for an address, and the page table that it names.
abbrev pub entry : Mem → ℕ → ℕ → ℕ
entry m pgdir va = m.word pgdir (pdx va)

abbrev pub table : Mem → ℕ → ℕ → ℕ
table m pgdir va = pgnum (entry m pgdir va)

-- The page table entry for an address.
abbrev pub slot : Mem → ℕ → ℕ → ℕ
slot m pgdir va = m.word (table m pgdir va) (ptx va)

pub pte_addr-pgnum : (e : ℕ) → pgnum (pte_addr e) ≡ pgnum e
pte_addr-pgnum e = omega arith

kaddr-pte_addr : (m : Mem) (e : ℕ) → pgnum e < m.npages → kaddr (pte_addr e) m ≡ some (pgnum e, m)
unfolding kaddr
kaddr-pte_addr m e h = ground arith

kaddr-outside : (m : Mem) (e : ℕ) → m.npages ≤ pgnum e → kaddr (pte_addr e) m ≡ none
unfolding kaddr
kaddr-outside m e h = ground arith

pa2page-pte_addr :
    (m : Mem) (e : ℕ) → pgnum e < m.npages → pa2page (pte_addr e) m ≡ some (pgnum e, m)
unfolding pa2page
pa2page-pte_addr m e h = ground arith

-- Where the directory has an entry, the walk gives the place of the page table entry.
pub pgdir_walk-present :
    (m : Mem) (pgdir va : ℕ) (create : Bool)
    → entry m pgdir va ≢ 0
    → table m pgdir va < m.npages
    → pgdir_walk pgdir va create m ≡ some (some (table m pgdir va, ptx va), m)
unfolding pgdir_walk load
pgdir_walk-present m pgdir va create there inside =
    rw (==_ne (entry m pgdir va) 0 there, kaddr-pte_addr m (entry m pgdir va) inside, ◌>>=◌)

pub pgdir_walk-absent :
    (m : Mem) (pgdir va : ℕ) → entry m pgdir va ≡ 0 → pgdir_walk pgdir va false m ≡ some (none, m)
unfolding pgdir_walk load
pgdir_walk-absent m pgdir va gone = rw (==_eq (entry m pgdir va) 0 gone)

pub page_lookup-present :
    (m : Mem) (pgdir va : ℕ)
    → entry m pgdir va ≢ 0
    → table m pgdir va < m.npages
    → pgnum (slot m pgdir va) < m.npages
    → page_lookup pgdir va m ≡ some (some (pgnum (slot m pgdir va), (table m pgdir va, ptx va)), m)
unfolding page_lookup load
page_lookup-present m pgdir va there inside page = rw (
  pgdir_walk-present m pgdir va false there inside,
  pa2page-pte_addr m (slot m pgdir va) page,
  ◌>>=◌,
)

pub page_lookup-at :
    (m : Mem) (pgdir va t page : ℕ)
    → entry m pgdir va ≢ 0
    → table m pgdir va ≡ t
    → pgnum (m.word t (ptx va)) ≡ page
    → t < m.npages
    → page < m.npages
    → page_lookup pgdir va m ≡ some (some (page, (t, ptx va)), m)
page_lookup-at m pgdir va t page there is_table is_page inside real =
    let here : pgnum (slot m pgdir va) ≡ page =
      ap (λ (x : ℕ). pgnum (m.word x (ptx va))) is_table ∙ is_page in
    page_lookup-present m pgdir va there (omega arith) (omega arith)
    ∙ ap₂ (λ (x y : ℕ). some (some (x, (y, ptx va)), m)) here is_table

pub page_lookup-absent :
    (m : Mem) (pgdir va : ℕ) → entry m pgdir va ≡ 0 → page_lookup pgdir va m ≡ some (none, m)
unfolding page_lookup load
page_lookup-absent m pgdir va gone = rw (pgdir_walk-absent m pgdir va gone, ◌>>=◌)

pub page_decref-keeps :
    (p : ℕ) (m m' : Mem)
    → page_decref p m ≡ some (tt, m')
    → (m'.word ≡ m.word)
      × (m'.npages ≡ m.npages)
      × (m'.flushed ≡ m.flushed)
      × (m'.pp_ref ≡ update m.pp_ref p ((m.pp_ref p + 65535) % 2 ^ 16))
unfolding page_decref page_free
page_decref-keeps p m m' h = ground arith

-- The walk that has to make a page table: what it leaves behind.
abbrev pub new_pde : ℕ → ℕ
new_pde p = bit_or (bit_or (bit_or (page2pa p) pte_p) pte_w) pte_u

abbrev pub with_table : (pgdir va p : ℕ) → Mem → Mem
with_table pgdir va p m = record m {
  pp_ref = update m.pp_ref p ((m.pp_ref p + 1) % 2 ^ 16);
  word = update m.word pgdir (update (m.word pgdir) (pdx va) (new_pde p));
}

-- Flags below the page number do not reach it.
pub pgnum-bit_or : (e perm : ℕ) → perm < 4096 → pgnum (bit_or e perm) ≡ pgnum e
pgnum-bit_or e perm h = omega (arith, above-bit_or 12 e perm, bit_or-zero (above 12 e), low)
  where
    low : bit_or (above 12 e) (above 12 perm) ≡ bit_or (above 12 e) 0
    low = ap (bit_or (above 12 e)) (omega arith)

pub pgnum-new_pde : (p : ℕ) → p < 2 ^ 20 → pgnum (new_pde p) ≡ p
pgnum-new_pde p h = omega (
  arith,
  pgnum-bit_or (bit_or (bit_or (page2pa p) pte_p) pte_w) pte_u (omega arith),
  pgnum-bit_or (bit_or (page2pa p) pte_p) pte_w (omega arith),
  pgnum-bit_or (page2pa p) pte_p (omega arith),
)

pub bit_or-odd : (e : ℕ) → bit_or e 1 ≢ 0
bit_or-odd e = omega (arith, digit-bit_or 0 e 1)

pub new_pde-ne_zero : (p : ℕ) → new_pde p ≢ 0
new_pde-ne_zero p = omega (arith, digit-bit_or 2 (bit_or (bit_or (page2pa p) pte_p) pte_w) pte_u)

pub entry-with_table :
    (pgdir va p : ℕ) (m : Mem) → entry (with_table pgdir va p m) pgdir va ≡ new_pde p
entry-with_table pgdir va p m =
    rw (update_self m.word pgdir (update (m.word pgdir) (pdx va) (new_pde p)))
      (update_self (m.word pgdir) (pdx va) (new_pde p))

pub pgdir_walk-created :
    (m m₁ : Mem) (pgdir va p : ℕ)
    → entry m pgdir va ≡ 0
    → page_alloc 1 m ≡ some (some p, m₁)
    → p < m₁.npages
    → m₁.npages ≤ 2 ^ 20
    → pgdir_walk pgdir va true m ≡ some (some (p, ptx va), with_table pgdir va p m₁)
unfolding pgdir_walk load store page_incref
pgdir_walk-created m m₁ pgdir va p gone taken inside small =
    rw (==_eq (entry m pgdir va) 0 gone, taken, ◌>>=◌)
      (rw (
        entry-with_table pgdir va p m₁,
        kaddr-pte_addr (with_table pgdir va p m₁) (new_pde p) page,
        ◌>>=◌,
        pgnum-new_pde p (omega arith),
      ))
  where
    page : pgnum (new_pde p) < m₁.npages
    page = omega (arith, pgnum-new_pde p (omega arith))

pub pgdir_walk-full :
    (m : Mem) (pgdir va : ℕ)
    → entry m pgdir va ≡ 0
    → page_alloc 1 m ≡ some (none, m)
    → pgdir_walk pgdir va true m ≡ some (none, m)
unfolding pgdir_walk load
pgdir_walk-full m pgdir va gone full = rw (==_eq (entry m pgdir va) 0 gone, full, ◌>>=◌)

pub pgdir_walk-outside :
    (m : Mem) (pgdir va : ℕ)
    → entry m pgdir va ≢ 0
    → m.npages ≤ table m pgdir va
    → pgdir_walk pgdir va false m ≡ none
unfolding pgdir_walk load
pgdir_walk-outside m pgdir va there out =
    rw (==_ne (entry m pgdir va) 0 there, kaddr-outside m (entry m pgdir va) out, ◌>>=◌)

-- A walk that makes no table changes nothing; what it finds is the place of the entry.
pub pgdir_walk-found :
    (m m' : Mem) (pgdir va t i : ℕ)
    → pgdir_walk pgdir va false m ≡ some (some (t, i), m')
    → (m ≡ m') × (table m pgdir va ≡ t) × (ptx va ≡ i) × (entry m pgdir va ≢ 0)
pgdir_walk-found m m' pgdir va t i h = elim (ℕ_discrete (entry m pgdir va) 0) [
  | yes gone ↦ absurd (cc (h, pgdir_walk-absent m pgdir va gone))
  | no there ↦ elim (dec_lt (table m pgdir va) m.npages) [
    | yes inside ↦
        let same = pgdir_walk-present m pgdir va false there inside in
        (cc (h, same), cc (h, same), cc (h, same), there)
    | no out ↦ absurd (cc (h, pgdir_walk-outside m pgdir va there (omega arith)))
  ]
]
