-- ===== src/Fork/Fault.antt =====
-- What a program sees after a store, and after pgfault gave it a page: tp-parte4/lib/fork.c.
use sistemas_operativos_2c.Common.{
  ℕ, ◌≡◌, ◌≢◌, ◌⊎◌, inl, inr, refl, ap, sym, ◌∙◌, subst, true, false, ◌&&◌, Option, none, some,
  List, ◌∷◌, All, ◌==◌, ==-refl, ==_ne, update, arith, Bool-cases, if◌then◌else◌,
}
use native.Mathlib.Decide.{ℕ_discrete}
use sistemas_operativos_2c.Fork.{Vm, Mapping, has, set_pte, store_now}
use sistemas_operativos_2c.Fork.Private.{
  owns, IsPrivate, view, view-some, at_set, set_here, fresh-IsPrivate,
}
use sistemas_operativos_2c.Fork.Dup.{granted, faulted}
use sistemas_operativos_2c.Fork.Loop.{present}

-- The program may write the page, or gets its own when it does, and does not share it on purpose.
abbrev pub Writable : ℕ → Type 0
Writable perm = ((has perm 2 ≡ true) ⊎ (has perm 0x800 ≡ true)) × (has perm 0x400 ≡ false)

abbrev pub seen_after : (e pn off v : ℕ) → Vm → ℕ → ℕ → ℕ → Option ℕ
seen_after e pn off v s e' pn' off' =
    if e == e' && (pn == pn' && off == off') then some v else view s e' pn' off'

pub store_now-gives :
    (e pn off v : ℕ) (m : Mapping) (s : Vm)
    → s.pte e pn ≡ some m
    → has m.perm 2 ≡ true
    → store_now e pn off v s
      ≡ some (tt, record s { word = update s.word m.page (update (s.word m.page) off v) })
unfolding store_now
store_now-gives e pn off v m s i w = rw (store_now, i) (rw w refl)

-- A store into a private page changes what one program sees at one address.
pub store-view :
    (e pn off v : ℕ) (m : Mapping) (s : Vm) (e' pn' off' : ℕ)
    → IsPrivate s
    → s.pte e pn ≡ some m
    → owns m.perm ≡ true
    → view (record s { word = update s.word m.page (update (s.word m.page) off v) }) e' pn' off'
      ≡ seen_after e pn off v s e' pn' off'
store-view e pn off v m s e' pn' off' h i own =
    let s' = record s { word = update s.word m.page (update (s.word m.page) off v) } in
    elim (present (s.pte e' pn')) [
      | inl gone ↦
          let other : (e == e' && (pn == pn' && off == off')) ≡ false = elim (ℕ_discrete e e') [
            | no ne ↦ ground (arith, ne)
            | yes a ↦ elim (ℕ_discrete pn pn') [
              | no ne ↦ ground (arith, ne)
              | yes b ↦ absurd (cc (i, gone, a, b))
            ]
          ] in
          rw (view, gone) (rw other refl)
      | inr (m', i') ↦ view-some s' e' pn' off' m' i' ∙ elim (ℕ_discrete m.page m'.page) [
        | no ne ↦
            let other : (e == e' && (pn == pn' && off == off')) ≡ false = elim (ℕ_discrete e e') [
              | no ne' ↦ ground (arith, ne')
              | yes a ↦ elim (ℕ_discrete pn pn') [
                | no ne' ↦ ground (arith, ne')
                | yes b ↦
                    let both : some m ≡ some m' = cc (i, i', a, b) in
                    absurd
                      (ne (ap (λ (t : Option Mapping). elim t [ none ↦ 0 | some k ↦ k.page ]) both))
              ]
            ] in
            rw (==_ne m.page m'.page ne, other) (sym (view-some s e' pn' off' m' i'))
        | yes same ↦
            let (a, b) = h.alone e pn e' pn' m m' i i' same own in
            let here : (e == e') ≡ true = ground (arith, a) in
            let here' : (pn == pn') ≡ true = ground (arith, b) in
            let page : (m.page == m'.page) ≡ true = ground (arith, same) in
            rw (here, here', page, view-some s e' pn' off' m' i')
              (elim (Bool-cases (off == off')) [
                | inl o ↦ rw o refl
                | inr o ↦ rw o (ap (λ q. some (s.word q off')) same)
              ])
      ]
    ]

-- The space after pgfault of `pn`, at each address.
module _ (e pn p : ℕ) (m : Mapping) (rest : List ℕ) (s : Vm) (h : IsPrivate s)
    (i : s.pte e pn ≡ some m) (spares : s.spare ≡ p ∷ rest) (apart : pn ≢ 0x7FF) where
  pub faulted_at :
      (x y : ℕ)
      → ((e ≡ x) × (0x7FF ≡ y) × ((faulted e pn p m rest s).pte x y ≡ none))
        ⊎ (((e ≡ x)
              × (pn ≡ y)
              × ((faulted e pn p m rest s).pte x y ≡ some (record { page = p; perm = 7 })))
            ⊎ ((faulted e pn p m rest s).pte x y ≡ s.pte x y))
  faulted_at x y =
      let new : Mapping = record { page = p; perm = 7 } in
      let s₁ = granted e 0x7FF p 7 rest s in
      let s₂ = set_pte e pn (some new) (record s₁ { word = update s₁.word p (s₁.word m.page) }) in
      elim (at_set s₂ e 0x7FF none x y) [
        | inl gone ↦ inl gone
        | inr (elsewhere, k) ↦ elim (at_set s₁ e pn (some new) x y) [
          | inl (a, b, c) ↦ inr (inl (a, b, k ∙ c))
          | inr (_, k') ↦ elim (at_set s e 0x7FF (some new) x y) [
            | inl (a, b, c) ↦ elim elsewhere [ inl n ↦ absurd (n a) | inr n ↦ absurd (n b) ]
            | inr (_, k'') ↦ inr (inr (k ∙ (k' ∙ k'')))
          ]
        ]
      ]

  pub faulted_here : (faulted e pn p m rest s).pte e pn ≡ some (record { page = p; perm = 7 })
  faulted_here =
      let new : Mapping = record { page = p; perm = 7 } in
      let s₁ = granted e 0x7FF p 7 rest s in
      let s₂ = set_pte e pn (some new) (record s₁ { word = update s₁.word p (s₁.word m.page) }) in
      elim (at_set s₂ e 0x7FF none e pn) [
        | inl (a, b, c) ↦ absurd (apart (sym b))
        | inr (_, k) ↦ k ∙ set_here s₁ e pn (some new)
      ]

  pub faulted-IsPrivate : IsPrivate (faulted e pn p m rest s)
  faulted-IsPrivate =
      fresh-IsPrivate s (faulted e pn p m rest s) e pn p 7 rest h spares refl faulted_here λ x y.
        elim (faulted_at x y) [
          | inl (a, b, c) ↦ inr (inl c)
          | inr (inl (a, b, c)) ↦ inl (a, b)
          | inr (inr k) ↦ inr (inr k)
        ]

  not_spare : (x y : ℕ) (k : Mapping) → s.pte x y ≡ some k → p ≢ k.page
  not_spare x y k j = (subst (All (λ q. q ≢ k.page)) spares (h.unused x y k j)).0

  faulted-word : (q : ℕ) → p ≢ q → (faulted e pn p m rest s).word q ≡ s.word q
  faulted-word q ne = rw (==_ne p q ne) refl

  faulted-copy : (faulted e pn p m rest s).word p ≡ s.word m.page
  faulted-copy = rw (==-refl p, ==_ne p m.page (not_spare e pn m i)) refl

  pub faulted-view :
      (x y off : ℕ) → y ≢ 0x7FF → view (faulted e pn p m rest s) x y off ≡ view s x y off
  faulted-view x y off ne = elim (faulted_at x y) [
    | inl (a, b, c) ↦ absurd (ne (sym b))
    | inr (inl (a, b, c)) ↦
        view-some (faulted e pn p m rest s) x y off (record { page = p; perm = 7 }) c
        ∙ ap (λ (w : ℕ → ℕ). some (w off)) faulted-copy
        ∙ sym (
            view-some s x y off m
              (subst (λ t. s.pte t y ≡ some m) a (subst (λ t. s.pte e t ≡ some m) b i)))
    | inr (inr k) ↦ elim (present (s.pte x y)) [
      | inl gone ↦ cc (k, gone)
      | inr (m', j) ↦
          view-some (faulted e pn p m rest s) x y off m' (k ∙ j)
          ∙ ap (λ (w : ℕ → ℕ). some (w off)) (faulted-word m'.page (not_spare x y m' j))
          ∙ sym (view-some s x y off m' j)
    ]
  ]
