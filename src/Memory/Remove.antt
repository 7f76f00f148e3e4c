-- ===== src/Memory/Remove.antt =====
-- page_remove of tp-parte4/kern/pmap.c.
use sistemas_operativos_2c.Common.{
  ℕ, ◌+◌, ◌%◌, ◌^◌, ◌<◌, ◌≡◌, ◌≢◌, Option, none, some, update, arith, ◌==◌, if◌then◌else◌, ◌∷◌, ◌∙◌,
  ap, ◌≤◌, Option-cases, inl, inr,
}
use sistemas_operativos_2c.Memory.{
  Mem, ◌>>=◌, store, page_decref, page_remove, is_active, tlb_invalidate, ptx, pgnum,
}
use sistemas_operativos_2c.Memory.Walk.{
  entry, table, slot, page_lookup-present, page_lookup-absent, page_decref-keeps,
}

module _ (cur : Option (Option ℕ)) (pgdir va : ℕ) where
  -- Where there is no page table for the address, nothing happens.
  pub page_remove-absent :
      (m : Mem) → entry m pgdir va ≡ 0 → page_remove cur pgdir va m ≡ some (tt, m)
  unfolding page_remove
  page_remove-absent m gone = rw (page_lookup-absent m pgdir va gone, ◌>>=◌)

  -- What is done to the memory after the reference is dropped: the entry is cleared, and the TLB
  -- is told if the page has no reference left.
  abbrev pub cleared : (page t i : ℕ) → Mem → Mem
  cleared page t i m =
      let m' = record m { word = update m.word t (update (m.word t) i 0) } in
      if m.pp_ref page == 0
      then record m' { flushed = if is_active cur pgdir then va ∷ m.flushed else m.flushed }
      else m'

  cleared_parts :
      (page t i : ℕ) (m : Mem)
      → ((cleared page t i m).pp_ref ≡ m.pp_ref)
        × ((cleared page t i m).word ≡ update m.word t (update (m.word t) i 0))
        × ((cleared page t i m).npages ≡ m.npages)
        × (m.pp_ref page ≢ 0 → (cleared page t i m).flushed ≡ m.flushed)
  cleared_parts page t i m = (ground arith, ground arith, ground arith, λ held. ground arith)

  pub page_remove-present :
      (m m₁ : Mem)
      → entry m pgdir va ≢ 0
      → table m pgdir va < m.npages
      → pgnum (slot m pgdir va) < m.npages
      → page_decref (pgnum (slot m pgdir va)) m ≡ some (tt, m₁)
      → page_remove cur pgdir va m
        ≡ some (tt, cleared (pgnum (slot m pgdir va)) (table m pgdir va) (ptx va) m₁)
  unfolding page_remove store tlb_invalidate
  page_remove-present m m₁ there inside page dropped =
      rw (page_lookup-present m pgdir va there inside page, ◌>>=◌)
        (rw (dropped, ◌>>=◌) (ground arith))

  -- A panic of `page_decref` is one of `page_remove`.
  page_remove-panics :
      (m : Mem)
      → entry m pgdir va ≢ 0
      → table m pgdir va < m.npages
      → pgnum (slot m pgdir va) < m.npages
      → page_decref (pgnum (slot m pgdir va)) m ≡ none
      → page_remove cur pgdir va m ≡ none
  unfolding page_remove
  page_remove-panics m there inside page stops =
      rw (page_lookup-present m pgdir va there inside page, ◌>>=◌) (rw (stops, ◌>>=◌))

  module _ (m m' : Mem) (there : entry m pgdir va ≢ 0) (inside : table m pgdir va < m.npages)
      (page : pgnum (slot m pgdir va) < m.npages)
      (done : page_remove cur pgdir va m ≡ some (tt, m')) where
    -- A removal that returns went through `page_decref`.
    page_remove-inverse :
        (m₁ : Mem) × (page_decref (pgnum (slot m pgdir va)) m ≡ some (tt, m₁))
        × (m' ≡ cleared (pgnum (slot m pgdir va)) (table m pgdir va) (ptx va) m₁)
    page_remove-inverse = elim (Option-cases (page_decref (pgnum (slot m pgdir va)) m)) [
      | inl e ↦ absurd (cc (page_remove-panics m there inside page e))
      | inr (r, e) ↦ (r.1, e, cc (page_remove-present m r.1 there inside page e))
    ]

    -- Removing a mapping takes one reference from the page that the entry names, changes no word
    -- of memory but that entry, which it clears, and leaves the number of pages.
    pub page_remove_lem :
        (m'.pp_ref
          ≡ update m.pp_ref
              (pgnum (slot m pgdir va))
              ((m.pp_ref (pgnum (slot m pgdir va)) + 65535) % 2 ^ 16))
        × (m'.word
            ≡ update m.word (table m pgdir va) (update (m.word (table m pgdir va)) (ptx va) 0))
        × (m'.npages ≡ m.npages)
    page_remove_lem =
        let (m₁, dropped, final) = page_remove-inverse in
        let kept = page_decref-keeps (pgnum (slot m pgdir va)) m m₁ dropped in
        let parts = cleared_parts (pgnum (slot m pgdir va)) (table m pgdir va) (ptx va) m₁ in
        (
          ap (λ (x : Mem). x.pp_ref) final ∙ parts.0 ∙ kept.3,
          ap (λ (x : Mem). x.word) final
              ∙ parts.1
              ∙ ap
                  (λ (w : ℕ → ℕ → ℕ).
                    update w (table m pgdir va) (update (w (table m pgdir va)) (ptx va) 0))
                  kept.0,
          ap (λ (x : Mem). x.npages) final ∙ parts.2 ∙ kept.1,
        )

    -- While the page keeps another reference, the removal does not tell the TLB, so the processor
    -- may go on using the entry that was cleared.
    pub page_remove-not_flushed :
        2 ≤ m.pp_ref (pgnum (slot m pgdir va))
        → m.pp_ref (pgnum (slot m pgdir va)) < 2 ^ 16
        → m'.flushed ≡ m.flushed
    page_remove-not_flushed shared fits =
        let (m₁, dropped, final) = page_remove-inverse in
        let kept = page_decref-keeps (pgnum (slot m pgdir va)) m m₁ dropped in
        let parts = cleared_parts (pgnum (slot m pgdir va)) (table m pgdir va) (ptx va) m₁ in
        let left : m₁.pp_ref (pgnum (slot m pgdir va)) ≢ 0 =
          rw kept.3 (ground (arith, shared, fits)) in
        ap (λ (x : Mem). x.flushed) final ∙ parts.3 left ∙ kept.2
