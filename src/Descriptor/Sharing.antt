-- ===== src/Descriptor/Sharing.antt =====
-- fd_alloc and dup of tp-parte4/lib/fd.c: the pages that descriptors share.
use sistemas_operativos_2c.Common.{
  ℕ, ◌+◌, ◌<◌, ◌≤◌, ◌≡◌, ◌≢◌, refl, ap, sym, ◌∙◌, false, Option, none, some, List, leb, ==-refl,
  arith, update, update_ne,
}
use sistemas_operativos_2c.Errors.{Outcome, inval, ok, err}
use sistemas_operativos_2c.Descriptor.{
  Program, Dev, ◌>>=◌, index2fd, index2data, fd_of, fd_lookup, map_fd_page, seek, close, dup_data,
  dup,
}

module _ {W : Type 0} where
  abbrev pub seeked : (p offset : ℕ) → Program W → Program W
  seeked p offset s = record s {
    page_fd = update s.page_fd p (record (s.page_fd p) { fd_offset = offset });
  }

  fd_of-seeked :
      (fd p offset : ℕ) (s : Program W)
      → s.mapped fd ≡ some p
      → (fd_of fd (seeked p offset s)).fd_offset ≡ offset
  fd_of-seeked fd p offset s e = rw (fd_of, e, ==-refl p) refl

  pub fd_lookup-mapped :
      (fdnum p : ℕ) (s : Program W)
      → fdnum < 32
      → s.mapped (index2fd fdnum) ≡ some p
      → fd_lookup fdnum s ≡ (ok (index2fd fdnum), s)
  unfolding fd_lookup
  fd_lookup-mapped fdnum p s h e =
      let small : leb 32 fdnum ≡ false = ground (arith, h) in rw (small, e) refl

  pub seek-mapped :
      (fdnum offset p : ℕ) (s : Program W)
      → fdnum < 32
      → s.mapped (index2fd fdnum) ≡ some p
      → seek fdnum offset s ≡ (ok 0, seeked p offset s)
  unfolding seek
  seek-mapped fdnum offset p s h e = rw (◌>>=◌, fd_lookup-mapped fdnum p s h e, e) refl

  map_fd_page-granted :
      (src dst p : ℕ) (s : Program W)
      → s.mapped src ≡ some p
      → s.grant dst ≡ ok tt
      → map_fd_page src dst s ≡ (ok tt, record s { mapped = update s.mapped dst (some p) })
  unfolding map_fd_page
  map_fd_page-granted src dst p s e g = rw (map_fd_page, e) (rw g refl)

  close-unmapped :
      (devtab : List (Dev W)) (fdnum : ℕ) (s : Program W)
      → s.mapped (index2fd fdnum) ≡ none
      → close devtab fdnum s ≡ (err inval, s)
  unfolding close fd_lookup
  close-unmapped devtab fdnum s e = ground (arith, e)

  -- The data page is mapped at the other address if there is one, and no other page changes.
  dup_data-granted :
      (devtab : List (Dev W)) (ova nva : ℕ) (q : Option ℕ) (s : Program W)
      → s.mapped ova ≡ q
      → s.grant nva ≡ ok tt
      → (m : ℕ → Option ℕ) × (dup_data devtab ova nva s ≡ (ok tt, record s { mapped = m }))
        × ((i : ℕ) → nva ≢ i → m i ≡ s.mapped i)
  unfolding dup_data
  dup_data-granted devtab ova nva none s e g = (s.mapped, rw e refl, λ i h. refl)
  dup_data-granted devtab ova nva (some q) s e g = (
    update s.mapped nva (some q),
    rw (dup_data, e) (map_fd_page-granted ova nva q s e g),
    λ i h. update_ne s.mapped nva (some q) i h,
  )

  dup-step :
      (devtab : List (Dev W)) (old new p : ℕ) (s : Program W) (m : ℕ → Option ℕ)
      → fd_lookup old s ≡ (ok (index2fd old), s)
      → close devtab new s ≡ (err inval, s)
      → dup_data devtab (index2data (index2fd old)) (index2data (index2fd new)) s
        ≡ (ok tt, record s { mapped = m })
      → m (index2fd old) ≡ some p
      → s.grant (index2fd new) ≡ ok tt
      → dup devtab old new s ≡ (ok new, record s { mapped = update m (index2fd new) (some p) })
  unfolding dup
  dup-step devtab old new p s m l c d e g =
      rw (◌>>=◌, l)
        (rw (◌>>=◌, c)
          (rw (◌>>=◌, d)
            (rw
              (
                ◌>>=◌,
                map_fd_page-granted (index2fd old) (index2fd new) p (record s { mapped = m }) e g,
              )
              refl)))

  -- dup of an open descriptor to a closed one, where the kernel maps the pages, returns the new one. Then a seek
  -- through either of them does the same, and sets the position of both.
  pub dup-seek :
      (devtab : List (Dev W)) (old new offset p : ℕ) (s : Program W)
      → old < 32
      → new < 32
      → s.mapped (index2fd old) ≡ some p
      → s.mapped (index2fd new) ≡ none
      → s.grant (index2fd new) ≡ ok tt
      → s.grant (index2data (index2fd new)) ≡ ok tt
      → (s' : Program W) × (dup devtab old new s ≡ (ok new, s'))
        × (seek old offset s' ≡ seek new offset s')
        × ((fd_of (index2fd old) (seek old offset s').1).fd_offset ≡ offset)
        × ((fd_of (index2fd new) (seek old offset s').1).fd_offset ≡ offset)
  dup-seek devtab old new offset p s ho hn eo en g gd =
      let other : index2fd new ≢ index2fd old = λ same. absurd (cc (same, eo, en)) in
      let apart : index2data (index2fd new) ≢ index2fd old = omega arith in
      let (m, d, kept) =
        dup_data-granted devtab (index2data (index2fd old)) (index2data (index2fd new))
          (s.mapped (index2data (index2fd old))) s refl gd in
      let mo : m (index2fd old) ≡ some p = kept (index2fd old) apart ∙ eo in
      let s' = record s { mapped = update m (index2fd new) (some p) } in
      let at_new : s'.mapped (index2fd new) ≡ some p = rw (==-refl (index2fd new)) refl in
      let at_old : s'.mapped (index2fd old) ≡ some p =
        update_ne m (index2fd new) (some p) (index2fd old) other ∙ mo in
      let via_old = seek-mapped old offset p s' ho at_old in
      let via_new = seek-mapped new offset p s' hn at_new in
      (
        s',
        dup-step devtab old new p s m (fd_lookup-mapped old p s ho eo)
            (close-unmapped devtab new s en) d mo g,
        via_old ∙ sym via_new,
        ap (λ (t : Outcome ℕ × Program W). (fd_of (index2fd old) t.1).fd_offset) via_old
            ∙ fd_of-seeked (index2fd old) p offset s' at_old,
        ap (λ (t : Outcome ℕ × Program W). (fd_of (index2fd new) t.1).fd_offset) via_old
            ∙ fd_of-seeked (index2fd new) p offset s' at_new,
      )

  close-beyond :
      (devtab : List (Dev W)) (fdnum : ℕ) (s : Program W)
      → 32 ≤ fdnum
      → close devtab fdnum s ≡ (err inval, s)
  unfolding close fd_lookup
  close-beyond devtab fdnum s h = ground (arith, h)

  -- dup of an open descriptor to a number from 32 to 63, which is not one of a descriptor, returns that number where
  -- the kernel maps the pages, and has mapped the descriptor's page at the data page of the descriptor 32 below.
  pub dup-beyond :
      (devtab : List (Dev W)) (old fdnum p : ℕ) (s : Program W)
      → old < 32
      → fdnum < 32
      → s.mapped (index2fd old) ≡ some p
      → s.grant (index2fd (32 + fdnum)) ≡ ok tt
      → s.grant (index2data (index2fd (32 + fdnum))) ≡ ok tt
      → (s' : Program W) × (dup devtab old (32 + fdnum) s ≡ (ok (32 + fdnum), s'))
        × (s'.mapped (index2data fdnum) ≡ some p)
  dup-beyond devtab old fdnum p s ho hn eo g gd =
      let new = 32 + fdnum in
      let apart : index2data (index2fd new) ≢ index2fd old = omega arith in
      let (m, d, kept) =
        dup_data-granted devtab (index2data (index2fd old)) (index2data (index2fd new))
          (s.mapped (index2data (index2fd old))) s refl gd in
      let mo : m (index2fd old) ≡ some p = kept (index2fd old) apart ∙ eo in
      (
        record s { mapped = update m (index2fd new) (some p) },
        dup-step devtab old new p s m (fd_lookup-mapped old p s ho eo)
            (close-beyond devtab new s (omega arith)) d mo g,
        rw (==-refl (index2fd new)) refl,
      )
