-- ===== src/Descriptor/Pipes/Undo.antt =====
-- What pipe of tp-parte4/lib/pipe.c leaves mapped.
use sistemas_operativos_2c.Common.{
  ℕ, zero, suc, ◌+◌, ◌<◌, ◌≡◌, ◌≢◌, ◌⊎◌, inl, inr, refl, ap, sym, ◌∙◌, subst, none, some, Option,
  Option-cases, ◌==◌, if◌then◌else◌, ==-refl, ==_ne, update, update_ne, arith,
}
use native.Mathlib.Decide.{ℕ_discrete}
use sistemas_operativos_2c.Errors.{Error, Outcome, max_open, ok, err}
use sistemas_operativos_2c.Descriptor.{
  Program, pure, is_mapped, ◌>>=◌, index2fd, fd2data, fd_alloc_from, fd_alloc, map_fd_page,
}
use sistemas_operativos_2c.Descriptor.Pipes.{
  allocated, alloc_as, set_mode, err1, with_shared, with_data, new_fd, share_data, pipe,
}

Outcome-cases : {A : Type 0} (o : Outcome A) → ((e : Error) × (o ≡ err e)) ⊎ ((a : A) × (o ≡ ok a))
Outcome-cases (ok a) = inr (a, refl)
Outcome-cases (err e) = inl (e, refl)

cleared :
    (m : ℕ → Option ℕ) (a b : ℕ) (p q : Option ℕ)
    → m a ≡ none
    → m b ≡ none
    → (i : ℕ) → update (update (update (update m a p) b q) b none) a none i ≡ m i
cleared m a b p q ea eb i = elim (ℕ_discrete a i) [
  | yes same ↦ rw (ap (λ x. x == i) same ∙ ==-refl i) (sym (sym (ap m same) ∙ ea))
  | no ne ↦ elim (ℕ_discrete b i) [
    | yes same ↦ rw (==_ne a i ne, ap (λ x. x == i) same ∙ ==-refl i) (sym (sym (ap m same) ∙ eb))
    | no ne' ↦ rw (==_ne a i ne, ==_ne b i ne') refl
  ]
]

mapped_now : (a p : ℕ) (m : ℕ → Option ℕ) → update m a (some p) a ≢ none
mapped_now a p m e = let now : some p ≡ none = rw (==-refl a) at e in absurd (cc)

cleared_one :
    (m : ℕ → Option ℕ) (a : ℕ) (p : Option ℕ)
    → m a ≡ none
    → (i : ℕ) → update (update m a p) a none i ≡ m i
cleared_one m a p e i = elim (ℕ_discrete a i) [
  | yes same ↦ rw (ap (λ x. x == i) same ∙ ==-refl i) (sym (sym (ap m same) ∙ e))
  | no ne ↦ rw (==_ne a i ne) refl
]

cleared_data :
    (m : ℕ → Option ℕ) (a b d : ℕ) (p q r : Option ℕ)
    → m a ≡ none
    → m b ≡ none
    → m d ≡ none
    → (i : ℕ)
    → update (update (update (update (update (update m a p) b q) d r) d none) b none) a none i ≡ m i
cleared_data m a b d p q r ea eb ed i = elim (ℕ_discrete d i) [
  | yes same ↦ elim (ℕ_discrete a i) [
    | yes same' ↦ rw (ap (λ x. x == i) same' ∙ ==-refl i) (sym (sym (ap m same') ∙ ea))
    | no ne ↦ elim (ℕ_discrete b i) [
      | yes same' ↦
          rw (==_ne a i ne, ap (λ x. x == i) same' ∙ ==-refl i) (sym (sym (ap m same') ∙ eb))
      | no ne' ↦
          rw (==_ne a i ne, ==_ne b i ne', ap (λ x. x == i) same ∙ ==-refl i)
            (sym (sym (ap m same) ∙ ed))
    ]
  ]
  | no ne'' ↦ rw (==_ne d i ne'') (cleared m a b p q ea eb i)
]

module _ {W : Type 0} where
  fd_alloc_from-cases :
      (rounds i : ℕ) (s : Program W)
      → i + rounds ≡ 32
      → (fd_alloc_from rounds i s ≡ (err max_open, s))
        ⊎ ((fd : ℕ) × (fd < 32) × (s.mapped fd ≡ none) × (fd_alloc_from rounds i s ≡ (ok fd, s)))
  unfolding fd_alloc_from
  fd_alloc_from-cases zero i s h = inl refl
  fd_alloc_from-cases (suc rounds) i s h = elim (Option-cases (s.mapped (index2fd i))) [
    | inl free ↦ inr (
      index2fd i,
      omega arith,
      free,
      ap
          (λ (o : Option ℕ).
            if is_mapped o then fd_alloc_from rounds (i + 1) s else (ok (index2fd i), s))
          free,
    )
    | inr (p, used) ↦
        let skip : fd_alloc_from (suc rounds) i s ≡ fd_alloc_from rounds (i + 1) s =
          ap
            (λ (o : Option ℕ).
              if is_mapped o then fd_alloc_from rounds (i + 1) s else (ok (index2fd i), s))
            used in
        elim (fd_alloc_from-cases rounds (i + 1) s (omega arith)) [
          | inl e ↦ inl (skip ∙ e)
          | inr (fd, small, free, e) ↦ inr (fd, small, free, skip ∙ e)
        ]
  ]

  module _ (fresh : Program W → ℕ) where
    new_fd-cases :
        (s : Program W)
        → ((e : Error) × (new_fd fresh s ≡ (err e, s)))
          ⊎ ((fd : ℕ) × (fd < 32)
              × (s.mapped fd ≡ none)
              × (new_fd fresh s ≡ (ok fd, allocated fresh fd s)))
    unfolding new_fd fd_alloc
    new_fd-cases s = elim (fd_alloc_from-cases 32 0 s (omega arith)) [
      | inl e ↦ inl (max_open, rw (◌>>=◌, e) refl)
      | inr (fd, small, free, e) ↦
          let go = λ (g : Outcome (Unit {0})).
            (do r ← alloc_as fresh fd g; elim r [ err e ↦ pure (err e) | ok u ↦ pure (ok fd) ]) s in
          let started : new_fd fresh s ≡ go (s.grant fd) = rw (◌>>=◌, e) refl in
          elim (Outcome-cases (s.grant fd)) [
            | inl (e', g) ↦ inl (e', started ∙ ap go g)
            | inr (u, g) ↦ inr (fd, small, free, started ∙ ap go g)
          ]
    ]

  abbrev granted_as :
      (dst p : ℕ) (s : Program W) → Outcome (Unit {0}) → Outcome (Unit {0}) × Program W
  granted_as dst p s (err e) = (err e, s)
  granted_as dst p s (ok u) = (ok tt, record s { mapped = update s.mapped dst (some p) })

  map_fd_page-there :
      (src dst p : ℕ) (s : Program W)
      → s.mapped src ≡ some p
      → map_fd_page src dst s ≡ granted_as dst p s (s.grant dst)
  unfolding map_fd_page
  map_fd_page-there src dst p s there = elim (Outcome-cases (s.grant dst)) [
    | inl (e, g) ↦ rw (map_fd_page, there) (rw (granted_as, g) refl)
    | inr (u, g) ↦ rw (map_fd_page, there) (rw (granted_as, g) refl)
  ]

  map_fd_page-cases :
      (src dst p : ℕ) (s : Program W)
      → s.mapped src ≡ some p
      → ((e : Error) × (map_fd_page src dst s ≡ (err e, s)))
        ⊎ (map_fd_page src dst s ≡ (ok tt, record s { mapped = update s.mapped dst (some p) }))
  map_fd_page-cases src dst p s there =
      let found = map_fd_page-there src dst p s there in
      elim (Outcome-cases (s.grant dst)) [
        | inl (e, g) ↦ inl (e, found ∙ ap (granted_as dst p s) g)
        | inr (u, g) ↦ inr (found ∙ ap (granted_as dst p s) g)
      ]

  set_mode-mapped : (fd omode : ℕ) (s : Program W) → (set_mode fd omode s).1.mapped ≡ s.mapped
  set_mode-mapped fd omode s = elim (Option-cases (s.mapped fd)) [
    | inl e ↦ rw (set_mode, e) refl
    | inr (p, e) ↦ rw (set_mode, e) refl
  ]

  -- What a pipe that is made, or refused, leaves mapped.
  abbrev pub Made : Program W → Outcome (ℕ × ℕ) × Program W → Type 0
  Made s (err e, s') = (i : ℕ) → s'.mapped i ≡ s.mapped i
  Made s (ok (fd0, fd1), s') =
      (fd0 ≢ fd1)
      × (s.mapped fd0 ≡ none)
      × (s.mapped fd1 ≡ none)
      × ((p : ℕ) × (s'.mapped (fd2data fd0) ≡ some p) × (s'.mapped (fd2data fd1) ≡ some p))

  module _ (fresh : Program W → ℕ) (s : Program W) (fd0 fd1 : ℕ) (h0 : fd0 < 32) (h1 : fd1 < 32)
      (apart : fd0 ≢ fd1) (e0 : s.mapped fd0 ≡ none) (e1 : s.mapped fd1 ≡ none)
      (ed : s.mapped (fd2data fd0) ≡ none) where
    abbrev two : Program W
    two = allocated fresh fd1 (allocated fresh fd0 s)

    abbrev three : Program W
    three = allocated fresh (fd2data fd0) two

    share_data-shared :
        (e : Error)
        → map_fd_page (fd2data fd0) (fd2data fd1) three ≡ (err e, three)
        → Made s (with_data fd0 fd1 (ok tt) three)
    share_data-shared e r =
        subst (Made s)
          (sym (ap (λ (t : Outcome (Unit {0}) × Program W). with_shared fd0 fd1 t.0 t.1) r))
          (cleared_data s.mapped fd0 fd1 (fd2data fd0) (some (fresh s))
            (some (fresh (allocated fresh fd0 s))) (some (fresh two)) e0 e1 ed)

    abbrev four : Program W
    four = record three { mapped = update three.mapped (fd2data fd1) (some (fresh two)) }

    share_data-mapped :
        map_fd_page (fd2data fd0) (fd2data fd1) three ≡ (ok tt, four)
        → Made s (with_data fd0 fd1 (ok tt) three)
    share_data-mapped r =
        let first = set_mode-mapped fd0 0 four in
        let kept = set_mode-mapped fd1 1 (set_mode fd0 0 four).1 ∙ first in
        let other : fd2data fd1 ≢ fd2data fd0 = λ e. apart (omega (arith, e)) in
        subst (Made s)
          (sym (ap (λ (t : Outcome (Unit {0}) × Program W). with_shared fd0 fd1 t.0 t.1) r))
          (
            apart,
            e0,
            e1,
            (
              fresh two,
              ap (λ m. m (fd2data fd0)) kept
                  ∙ rw (==_ne (fd2data fd1) (fd2data fd0) other, ==-refl (fd2data fd0)) refl,
              ap (λ m. m (fd2data fd1)) kept ∙ rw (==-refl (fd2data fd1)) refl,
            ),
          )

    share_data-Made : Made s (share_data fresh fd0 fd1 two)
    unfolding share_data
    share_data-Made =
        let go = λ (g : Outcome (Unit {0})).
          (do r ← alloc_as fresh (fd2data fd0) g; with_data fd0 fd1 r) two in
        elim (Outcome-cases (s.grant (fd2data fd0))) [
          | inl (e, g) ↦ subst (Made s) (sym (ap go g)) (
              cleared s.mapped fd0 fd1 (some (fresh s)) (some (fresh (allocated fresh fd0 s))) e0
                e1)
          | inr (u, g) ↦
              let mapped =
                map_fd_page-cases (fd2data fd0) (fd2data fd1) (fresh two) three
                  (rw (==-refl (fd2data fd0)) refl) in
              subst (Made s) (sym (ap go g))
                (elim mapped [ inl (e, r) ↦ share_data-shared e r | inr r ↦ share_data-mapped r ])
        ]

  -- Where a descriptor that is not mapped has no data page, and whatever pages the kernel refuses: pipe leaves every page as
  -- it was where it fails, and where it returns two descriptors they are different ones
  -- that were not mapped, with one and the same data page.
  pub pipe-Made :
      (fresh : Program W → ℕ) (s : Program W)
      → ((fd : ℕ) → fd < 32 → s.mapped fd ≡ none → s.mapped (fd2data fd) ≡ none)
      → Made s (pipe fresh s)
  unfolding pipe
  pipe-Made fresh s clean = elim (new_fd-cases fresh s) [
    | inl (e, r) ↦ rw (◌>>=◌, r) (λ i. refl)
    | inr (fd0, h0, e0, r) ↦
        let s₁ = allocated fresh fd0 s in
        let go = λ (t : Outcome ℕ × Program W).
          elim t.0 as (λ _. Program W → Outcome (ℕ × ℕ) × Program W) [
            | err e ↦ err1 fd0 e
            | ok fd1 ↦ share_data fresh fd0 fd1
          ]
            t.1 in
        let started : pipe fresh s ≡ go (new_fd fresh s₁) = rw (◌>>=◌, r) refl in
        elim (new_fd-cases fresh s₁) [
          | inl (e, r') ↦
              subst (Made s) (sym (started ∙ ap go r'))
                (cleared_one s.mapped fd0 (some (fresh s)) e0)
          | inr (fd1, h1, e1, r') ↦
              let apart : fd0 ≢ fd1 = λ same.
                mapped_now fd0 (fresh s) s.mapped
                  (subst (λ x. update s.mapped fd0 (some (fresh s)) x ≡ none) (sym same) e1) in
              let free = sym (update_ne s.mapped fd0 (some (fresh s)) fd1 apart) ∙ e1 in
              subst (Made s) (sym (started ∙ ap go r'))
                (share_data-Made fresh s fd0 fd1 h0 h1 apart e0 free (clean fd0 h0 e0))
        ]
  ]
