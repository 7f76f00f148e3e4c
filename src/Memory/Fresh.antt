-- ===== src/Memory/Fresh.antt =====
-- page_insert of tp-parte4/kern/pmap.c where the page table has to be made, and where the page is
-- already mapped at the address.
use sistemas_operativos_2c.Common.{
  none, Bool-cases, inl, inr, ◌==◌, ℕ, ◌+◌, refl, update_ne, ◌%◌, ◌^◌, ◌<◌, ◌≤◌, ◌≡◌, ◌≢◌, Option,
  some, List, ◌∷◌, true, update, arith, ap, ◌∙◌, sym, subst, update_self,
}
use sistemas_operativos_2c.Errors.{ok}
use sistemas_operativos_2c.Memory.{
  Mem, page_decref, page_remove, page_insert, page_lookup, pgdir_walk, ptx, pgnum,
}
use sistemas_operativos_2c.Memory.FreeList.{
  pushed, page_free-frees, HasFree, after_alloc, page_alloc-takes,
}
use sistemas_operativos_2c.Memory.Walk.{
  entry, table, slot, with_table, entry-with_table, pgdir_walk-created, pgdir_walk-present,
  pgnum-new_pde, new_pde-ne_zero,
}
use sistemas_operativos_2c.Memory.Remove.{cleared, page_remove-present}
use sistemas_operativos_2c.Memory.Insert.{
  page_insert-page_lookup, HasTable, new_pte, counted, written, inserted, found_again,
  page_insert-walked,
}

module _ (pgdir va p : ℕ) (l : List ℕ) (m : Mem) (f : HasFree m (p ∷ l)) (apart : p ≢ pgdir) where
  abbrev made : Mem
  made = with_table pgdir va p (after_alloc 1 p m)

  made-table : table made pgdir va ≡ p
  made-table =
      ap pgnum (entry-with_table pgdir va p (after_alloc 1 p m))
      ∙ pgnum-new_pde p (omega (arith, f.exists.0, f.addressable))

  made-slot : made.word p (ptx va) ≡ 0
  made-slot = ground arith

  made-HasTable : HasTable pgdir va made
  made-HasTable = record {
    there = rw (entry-with_table pgdir va p (after_alloc 1 p m)) (new_pde-ne_zero p);
    inside = rw made-table f.exists.0;
    apart = rw made-table apart;
    page = rw (made-table, made-slot) (omega (arith, f.exists.0));
  }

  made-walk :
      entry m pgdir va ≡ 0
      → pgdir_walk pgdir va true m ≡ some (some (table made pgdir va, ptx va), made)
  made-walk gone =
      pgdir_walk-created m (after_alloc 1 p m) pgdir va p gone (page_alloc-takes 1 f) f.exists.0
        f.addressable
      ∙ ap (λ (t : ℕ). some (some (t, ptx va), made)) (sym made-table)

-- After a successful insertion at an address that had no page table, the first free page is its
-- page table, a lookup of the address finds the page, and the entry is the page's address with the
-- permissions and the present bit.
pub page_insert_fresh :
    (cur : Option (Option ℕ)) (pgdir va pp perm p : ℕ) (l : List ℕ) (m m' : Mem)
    → HasFree m (p ∷ l)
    → p ≢ pgdir
    → entry m pgdir va ≡ 0
    → perm < 4096
    → pp < m.npages
    → page_insert cur pgdir pp va perm m ≡ some (ok tt, m')
    → (page_lookup pgdir va m' ≡ some (some (pp, (p, ptx va)), m'))
      × (m'.word p (ptx va) ≡ new_pte pp perm)
page_insert_fresh cur pgdir va pp perm p l m m' f apart gone flags there done =
    let m₁ = made pgdir va p l m f apart in
    let h = made-HasTable pgdir va p l m f apart in
    let is_table = made-table pgdir va p l m f apart in
    let (words, same, counts) =
      inserted cur pgdir va pp perm m m₁ m' h (made-walk pgdir va p l m f apart gone) done in
    let (found, stored) =
      found_again cur pgdir va pp perm m₁ m' h flags there f.addressable words same in
    (
      found ∙ ap (λ (t : ℕ). some (some (pp, (t, ptx va)), m')) is_table,
      ap (λ (t : ℕ). m'.word t (ptx va)) (sym is_table) ∙ stored,
    )

-- Where the page table had to be made, the address was not mapped, but a reference is taken from
-- page 0 all the same.
pub page_insert_fresh-page_zero :
    (cur : Option (Option ℕ)) (pgdir va pp perm p : ℕ) (l : List ℕ) (m m' : Mem)
    → HasFree m (p ∷ l)
    → p ≢ pgdir
    → entry m pgdir va ≡ 0
    → p ≢ 0
    → pp ≢ 0
    → page_insert cur pgdir pp va perm m ≡ some (ok tt, m')
    → m'.pp_ref 0 ≡ (m.pp_ref 0 + 65535) % 2 ^ 16
page_insert_fresh-page_zero cur pgdir va pp perm p l m m' f apart gone p_pos pp_pos done =
    let m₁ = made pgdir va p l m f apart in
    let h = made-HasTable pgdir va p l m f apart in
    let (words, same, counts) =
      inserted cur pgdir va pp perm m m₁ m' h (made-walk pgdir va p l m f apart gone) done in
    ap (λ (r : ℕ → ℕ). r 0) counts ∙ rw zero_page (ground arith)
  where
    zero_page : pgnum (slot (made pgdir va p l m f apart) pgdir va) ≡ 0
    zero_page =
        ap (λ (t : ℕ). pgnum ((made pgdir va p l m f apart).word t (ptx va)))
          (made-table pgdir va p l m f apart)
        ∙ ap pgnum (made-slot pgdir va p l m f apart)

-- A page that keeps a reference is not freed.
page_decref-held :
    (p : ℕ) (m : Mem)
    → 2 ≤ m.pp_ref p
    → m.pp_ref p < 2 ^ 16
    → page_decref p m
      ≡ some (tt, record m { pp_ref = update m.pp_ref p ((m.pp_ref p + 65535) % 2 ^ 16) })
unfolding page_decref
page_decref-held p m shared fits = ground arith

-- Inserting a page again at the address where it is mapped succeeds, leaves its reference count
-- and the free list as they were, and gives the entry the new permissions.
pub page_insert_again :
    (cur : Option (Option ℕ)) (pgdir va pp perm : ℕ) (m : Mem)
    → HasTable pgdir va m
    → pgnum (slot m pgdir va) ≡ pp
    → 1 ≤ m.pp_ref pp
    → m.pp_ref pp < 65535
    → (m' : Mem) × (page_insert cur pgdir pp va perm m ≡ some (ok tt, m'))
      × (m'.pp_ref pp ≡ m.pp_ref pp)
      × (m'.page_free_list ≡ m.page_free_list)
      × (m'.word (table m pgdir va) (ptx va) ≡ new_pte pp perm)
page_insert_again cur pgdir va pp perm m h is_page held fits = (
  written t i (new_pte pp perm) (cleared cur pgdir va pp t i m₂),
  page_insert-walked cur pgdir va pp perm m m (cleared cur pgdir va pp t i m₂) t i
      (pgdir_walk-present m pgdir va true h.there h.inside) removed,
  ground arith,
  ground arith,
  ground arith,
)
  where
    t : ℕ
    t = table m pgdir va

    i : ℕ
    i = ptx va

    m₁ : Mem
    m₁ = counted pp m

    m₂ : Mem
    m₂ = record m₁ { pp_ref = update m₁.pp_ref pp ((m₁.pp_ref pp + 65535) % 2 ^ 16) }

    removed : page_remove cur pgdir va m₁ ≡ some (tt, cleared cur pgdir va pp t i m₂)
    removed =
        subst (λ q. page_remove cur pgdir va m₁ ≡ some (tt, cleared cur pgdir va q t i m₂)) is_page
          (page_remove-present cur pgdir va m₁ m₂ h.there h.inside h.page (
            subst (λ q. page_decref q m₁ ≡ some (tt, m₂)) (sym is_page)
              (page_decref-held pp m₁ (ground arith) (ground arith))))

-- Dropping a reference to a page that is not linked on the free list does not panic, and changes that count alone.
page_decref-returns :
    (p : ℕ) (m : Mem)
    → m.pp_link p ≡ none
    → (m' : Mem) × (page_decref p m ≡ some (tt, m'))
      × (m'.pp_ref ≡ update m.pp_ref p ((m.pp_ref p + 65535) % 2 ^ 16))
unfolding page_decref
page_decref-returns p m alone = elim (Bool-cases ((m.pp_ref p + 65535) % 2 ^ 16 == 0)) [
  | inl e ↦ (pushed p dropped, rw e (page_free-frees p dropped (ground (arith, e)) alone), refl)
  | inr e ↦ (dropped, rw e, refl)
]
  where
    dropped : Mem
    dropped = record m { pp_ref = update m.pp_ref p ((m.pp_ref p + 65535) % 2 ^ 16) }

-- Clearing an entry changes no count.
pp_ref-cleared :
    (cur : Option (Option ℕ)) (pgdir va p t i : ℕ) (m : Mem)
    → (cleared cur pgdir va p t i m).pp_ref ≡ m.pp_ref
pp_ref-cleared cur pgdir va p t i m = ground arith

-- page_insert of a page, at an address that has a page table whose entry names another page, which is not linked on the
-- free list: it succeeds, page_lookup of the address then finds the page, the page has one reference more, the other
-- one has one less, and every other page has as many as before.
pub page_insert-replaces :
    (cur : Option (Option ℕ)) (pgdir va pp perm : ℕ) (m : Mem)
    → HasTable pgdir va m
    → perm < 4096
    → pp < m.npages
    → m.npages ≤ 2 ^ 20
    → pp ≢ pgnum (slot m pgdir va)
    → m.pp_link (pgnum (slot m pgdir va)) ≡ none
    → (m' : Mem) × (page_insert cur pgdir pp va perm m ≡ some (ok tt, m'))
      × (page_lookup pgdir va m' ≡ some (some (pp, (table m pgdir va, ptx va)), m'))
      × (m'.pp_ref pp ≡ (m.pp_ref pp + 1) % 2 ^ 16)
      × (m'.pp_ref (pgnum (slot m pgdir va))
          ≡ (m.pp_ref (pgnum (slot m pgdir va)) + 65535) % 2 ^ 16)
      × ((q : ℕ) → pp ≢ q → pgnum (slot m pgdir va) ≢ q → m'.pp_ref q ≡ m.pp_ref q)
page_insert-replaces cur pgdir va pp perm m h flags there small other alone =
    let old = pgnum (slot m pgdir va) in
    let (m₁, dropped, counts) = page_decref-returns old (counted pp m) alone in
    let m₂ = cleared cur pgdir va old (table m pgdir va) (ptx va) m₁ in
    let m' = written (table m pgdir va) (ptx va) (new_pte pp perm) m₂ in
    let done : page_insert cur pgdir pp va perm m ≡ some (ok tt, m') =
      page_insert-walked cur pgdir va pp perm m m m₂ (table m pgdir va) (ptx va)
        (pgdir_walk-present m pgdir va true h.there h.inside)
        (page_remove-present cur pgdir va (counted pp m) m₁ h.there h.inside h.page dropped) in
    let at : (q : ℕ)
        → m'.pp_ref q
          ≡ update (counted pp m).pp_ref old (((counted pp m).pp_ref old + 65535) % 2 ^ 16) q =
      λ q.
        ap (λ (f : ℕ → ℕ). f q)
          (pp_ref-cleared cur pgdir va old (table m pgdir va) (ptx va) m₁ ∙ counts) in
    let before : (q : ℕ) → pp ≢ q → (counted pp m).pp_ref q ≡ m.pp_ref q =
      λ q ne. update_ne m.pp_ref pp ((m.pp_ref pp + 1) % 2 ^ 16) q ne in
    (
      m',
      done,
      (page_insert-page_lookup cur pgdir va pp perm m m' h flags there small done).0,
      at pp
          ∙ update_ne (counted pp m).pp_ref old _ pp (λ e. other (sym e))
          ∙ update_self m.pp_ref pp ((m.pp_ref pp + 1) % 2 ^ 16),
      at old
          ∙ update_self (counted pp m).pp_ref old _
          ∙ ap (λ (x : ℕ). (x + 65535) % 2 ^ 16) (before old other),
      λ q ne ne'. at q ∙ update_ne (counted pp m).pp_ref old _ q ne' ∙ before q ne,
    )
