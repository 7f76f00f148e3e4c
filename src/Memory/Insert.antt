-- ===== src/Memory/Insert.antt =====
-- page_insert of tp-parte4/kern/pmap.c.
use sistemas_operativos_2c.Common.{
  ℕ, ◌+◌, ◌%◌, ◌^◌, ◌<◌, ◌≤◌, ◌≡◌, ◌≢◌, Option, none, some, true, update, arith, ap, ◌∙◌, bit_or,
  update_cell_twice, Option-cases, inl, inr, [],
}
use sistemas_operativos_2c.Errors.{ok, err, no_mem}
use sistemas_operativos_2c.Memory.{
  Mem, ◌>>=◌, store, page_incref, page_remove, page_insert, page_lookup, pgdir_walk, page2pa, pte_p,
  ptx, pgnum,
}
use sistemas_operativos_2c.Memory.FreeList.{HasFree, page_alloc-empty}
use sistemas_operativos_2c.Memory.Walk.{
  entry, table, slot, pgdir_walk-present, pgdir_walk-full, page_lookup-at, pgnum-bit_or,
}
use sistemas_operativos_2c.Memory.Remove.{page_remove_lem}

-- The entry that `page_insert` writes.
abbrev pub new_pte : ℕ → ℕ → ℕ
new_pte pp perm = bit_or (bit_or (page2pa pp) perm) pte_p

abbrev pub counted : ℕ → Mem → Mem
counted pp m = record m { pp_ref = update m.pp_ref pp ((m.pp_ref pp + 1) % 2 ^ 16) }

abbrev pub written : (t i w : ℕ) → Mem → Mem
written t i w m = record m { word = update m.word t (update (m.word t) i w) }

-- What the page tables must look like where the address has one: it is a page of the machine
-- apart from the directory, and so is the page that its entry names.
pub record HasTable (pgdir va : ℕ) (m : Mem) : Type 0 where
  pub there : entry m pgdir va ≢ 0
  pub inside : table m pgdir va < m.npages
  pub apart : table m pgdir va ≢ pgdir
  pub page : pgnum (slot m pgdir va) < m.npages

module _ (cur : Option (Option ℕ)) (pgdir va pp perm : ℕ) where
  -- The steps after the walk.
  pub page_insert-walked :
      (m m₁ m₂ : Mem) (t i : ℕ)
      → pgdir_walk pgdir va true m ≡ some (some (t, i), m₁)
      → page_remove cur pgdir va (counted pp m₁) ≡ some (tt, m₂)
      → page_insert cur pgdir pp va perm m ≡ some (ok tt, written t i (new_pte pp perm) m₂)
  unfolding page_insert store page_incref
  page_insert-walked m m₁ m₂ t i walked removed = rw (walked, ◌>>=◌) (rw (removed, ◌>>=◌))

  page_insert-panics :
      (m m₁ : Mem) (t i : ℕ)
      → pgdir_walk pgdir va true m ≡ some (some (t, i), m₁)
      → page_remove cur pgdir va (counted pp m₁) ≡ none
      → page_insert cur pgdir pp va perm m ≡ none
  unfolding page_insert page_incref
  page_insert-panics m m₁ t i walked stops = rw (walked, ◌>>=◌) (rw (stops, ◌>>=◌))

  -- A successful insertion, told from the memory after the walk: the entry holds the page and
  -- the permissions, and nothing else in memory changed since.
  pub inserted :
      (m m₁ m' : Mem)
      → HasTable pgdir va m₁
      → pgdir_walk pgdir va true m ≡ some (some (table m₁ pgdir va, ptx va), m₁)
      → page_insert cur pgdir pp va perm m ≡ some (ok tt, m')
      → (m'.word
          ≡ update m₁.word
              (table m₁ pgdir va)
              (update (m₁.word (table m₁ pgdir va)) (ptx va) (new_pte pp perm)))
        × (m'.npages ≡ m₁.npages)
        × (m'.pp_ref ≡ (
            let r = update m₁.pp_ref pp ((m₁.pp_ref pp + 1) % 2 ^ 16) in
            let old = pgnum (slot m₁ pgdir va) in update r old ((r old + 65535) % 2 ^ 16)))
  inserted m m₁ m' h walk done = elim (Option-cases (page_remove cur pgdir va (counted pp m₁))) [
    | inl stops ↦ absurd (cc (page_insert-panics m m₁ t i walk stops))
    | inr (r, removed) ↦
        let kept =
          page_remove_lem cur pgdir va (counted pp m₁) r.1 h.there h.inside h.page removed in
        let final : m' ≡ written t i (new_pte pp perm) r.1 =
          cc (page_insert-walked m m₁ r.1 t i walk removed) in
        (
          ap (λ (x : Mem). x.word) final
              ∙ ap (λ (w : ℕ → ℕ → ℕ). update w t (update (w t) i (new_pte pp perm))) kept.1
              ∙ update_cell_twice m₁.word t i 0 (new_pte pp perm),
          ap (λ (x : Mem). x.npages) final ∙ kept.2,
          ap (λ (x : Mem). x.pp_ref) final ∙ kept.0,
        )
  ]
    where
      t : ℕ
      t = table m₁ pgdir va

      i : ℕ
      i = ptx va

  -- What is looked up after such an insertion.
  pub found_again :
      (m₁ m' : Mem)
      → HasTable pgdir va m₁
      → perm < 4096
      → pp < m₁.npages
      → m₁.npages ≤ 2 ^ 20
      → m'.word
        ≡ update m₁.word
            (table m₁ pgdir va)
            (update (m₁.word (table m₁ pgdir va)) (ptx va) (new_pte pp perm))
      → m'.npages ≡ m₁.npages
      → (page_lookup pgdir va m' ≡ some (some (pp, (table m₁ pgdir va, ptx va)), m'))
        × (m'.word (table m₁ pgdir va) (ptx va) ≡ new_pte pp perm)
  found_again m₁ m' h flags there small words same = (
    page_lookup-at m' pgdir va (table m₁ pgdir va) pp (rw same_entry h.there) (rw same_entry)
        (rw same_slot is_page) (rw same h.inside) (rw same there),
    same_slot,
  )
    where
      same_entry : entry m' pgdir va ≡ entry m₁ pgdir va
      same_entry = rw words (ground arith)

      same_slot : m'.word (table m₁ pgdir va) (ptx va) ≡ new_pte pp perm
      same_slot = rw words (ground arith)

      is_page : pgnum (new_pte pp perm) ≡ pp
      is_page = omega (
        arith,
        pgnum-bit_or (bit_or (page2pa pp) perm) pte_p (omega arith),
        pgnum-bit_or (page2pa pp) perm flags,
      )

-- Where no page is free for the page table, the insertion fails and changes nothing.
pub page_insert-no_mem :
    (cur : Option (Option ℕ)) (pgdir va pp perm : ℕ) (m : Mem)
    → entry m pgdir va ≡ 0
    → HasFree m []
    → page_insert cur pgdir pp va perm m ≡ some (err no_mem, m)
unfolding page_insert
page_insert-no_mem cur pgdir va pp perm m gone full =
    rw (pgdir_walk-full m pgdir va gone (page_alloc-empty 1 full), ◌>>=◌)

-- After a successful insertion at an address that has a page table, a lookup of the address finds
-- the page, the entry is the page's address with the permissions and the present bit, and no other
-- word of memory has changed.
pub page_insert-page_lookup :
    (cur : Option (Option ℕ)) (pgdir va pp perm : ℕ) (m m' : Mem)
    → HasTable pgdir va m
    → perm < 4096
    → pp < m.npages
    → m.npages ≤ 2 ^ 20
    → page_insert cur pgdir pp va perm m ≡ some (ok tt, m')
    → (page_lookup pgdir va m' ≡ some (some (pp, (table m pgdir va, ptx va)), m'))
      × (m'.word (table m pgdir va) (ptx va) ≡ new_pte pp perm)
      × (m'.word
          ≡ update m.word
              (table m pgdir va)
              (update (m.word (table m pgdir va)) (ptx va) (new_pte pp perm)))
page_insert-page_lookup cur pgdir va pp perm m m' h flags there small done =
    let walk = pgdir_walk-present m pgdir va true h.there h.inside in
    let (words, same, counts) = inserted cur pgdir va pp perm m m m' h walk done in
    let (found, stored) = found_again cur pgdir va pp perm m m' h flags there small words same in
    (found, stored, words)
