-- ===== src/Fork/Private.antt =====
-- Address spaces of tp-parte4/lib/fork.c in which a page that a program may write, and does not share on purpose, is
-- mapped once; and what a program sees at its addresses.
use sistemas_operativos_2c.Common.{
  ℕ, ◌≡◌, ◌≢◌, ◌⊎◌, inl, inr, refl, ap, sym, ◌∙◌, subst, Bool, true, not, ◌&&◌, Option, none, some,
  List, [], ◌∷◌, All, ==-refl, ==_ne,
}
use native.Mathlib.Decide.{ℕ_discrete}
use sistemas_operativos_2c.Fork.{Vm, Mapping, has, set_pte}

abbrev pub owns : ℕ → Bool
owns perm = has perm 2 && not (has perm 0x400)

abbrev pub Different : List ℕ → Type 0
Different [] = Unit
Different (p ∷ l) = All (λ q. q ≢ p) l × Different l

pub record IsPrivate (s : Vm) : Type 0 where
  pub alone :
      (e pn e' pn' : ℕ) (m m' : Mapping)
      → s.pte e pn ≡ some m
      → s.pte e' pn' ≡ some m'
      → m.page ≡ m'.page
      → owns m.perm ≡ true
      → (e ≡ e') × (pn ≡ pn')
  pub unused : (e pn : ℕ) (m : Mapping) → s.pte e pn ≡ some m → All (λ p. p ≢ m.page) s.spare
  pub different : Different s.spare

-- What the program of `e` sees.
abbrev pub view : Vm → (e pn off : ℕ) → Option ℕ
view s e pn off = elim (s.pte e pn) [ none ↦ none | some m ↦ some (s.word m.page off) ]

pub view-some :
    (s : Vm) (e pn off : ℕ) (m : Mapping)
    → s.pte e pn ≡ some m
    → view s e pn off ≡ some (s.word m.page off)
view-some s e pn off m h = rw (view, h) refl

-- What is at an address after one entry was set.
pub at_set :
    (s : Vm) (e pn : ℕ) (x : Option Mapping) (e' pn' : ℕ)
    → ((e ≡ e') × (pn ≡ pn') × ((set_pte e pn x s).pte e' pn' ≡ x))
      ⊎ (((e ≢ e') ⊎ (pn ≢ pn')) × ((set_pte e pn x s).pte e' pn' ≡ s.pte e' pn'))
at_set s e pn x e' pn' = elim (ℕ_discrete e e') [
  | no ne ↦ inr (inl ne, rw (==_ne e e' ne) refl)
  | yes same ↦ elim (ℕ_discrete pn pn') [
    | no ne ↦ inr (
      inr ne,
      subst (λ k. (set_pte e pn x s).pte k pn' ≡ s.pte k pn') same
          (rw (==-refl e, ==_ne pn pn' ne) refl),
    )
    | yes same' ↦ inl (
      same,
      same',
      subst (λ k. (set_pte e pn x s).pte k pn' ≡ x) same
          (subst (λ k. (set_pte e pn x s).pte e k ≡ x) same' (rw (==-refl e, ==-refl pn) refl)),
    )
  ]
]

pub set_here : (s : Vm) (e pn : ℕ) (x : Option Mapping) → (set_pte e pn x s).pte e pn ≡ x
set_here s e pn x = rw (==-refl e, ==-refl pn) refl

-- One entry maps a page that was spare, and the others are as before or not present.
module _ (s s' : Vm) (e pn p perm : ℕ) (rest : List ℕ) (h : IsPrivate s)
    (before : s.spare ≡ p ∷ rest) (after : s'.spare ≡ rest)
    (here : s'.pte e pn ≡ some (record { page = p; perm = perm }))
    (others : (x y : ℕ)
      → ((e ≡ x) × (pn ≡ y)) ⊎ ((s'.pte x y ≡ none) ⊎ (s'.pte x y ≡ s.pte x y))) where
  fresh-unused : (x y : ℕ) (m : Mapping) → s.pte x y ≡ some m → All (λ q. q ≢ m.page) (p ∷ rest)
  fresh-unused x y m i = subst (All (λ q. q ≢ m.page)) before (h.unused x y m i)

  at_fresh :
      (x y : ℕ) (m : Mapping)
      → s'.pte x y ≡ some m
      → ((e ≡ x) × (pn ≡ y) × (m.page ≡ p)) ⊎ (s.pte x y ≡ some m)
  at_fresh x y m i = elim (others x y) [
    | inl (a, b) ↦
        let same : some m ≡ some (record { page = p; perm = perm }) = cc (i, a, b, here) in
        inl (a, b, ap (λ (t : Option Mapping). elim t [ none ↦ p | some k ↦ k.page ]) same)
    | inr (inl gone) ↦ absurd (cc (i, gone))
    | inr (inr kept) ↦ inr (sym kept ∙ i)
  ]

  fresh-Different : Different (p ∷ rest)
  fresh-Different = subst Different before h.different

  pub fresh-IsPrivate : IsPrivate s'
  fresh-IsPrivate = record {
    alone = λ x y x' y' m m' i i' same own. elim (at_fresh x y m i) [
      | inl (a, b, c) ↦ elim (at_fresh x' y' m' i') [
        | inl (a', b', c') ↦ (sym a ∙ a', sym b ∙ b')
        | inr old ↦ absurd ((fresh-unused x' y' m' old).0 (sym c ∙ same))
      ]
      | inr old ↦ elim (at_fresh x' y' m' i') [
        | inl (a', b', c') ↦ absurd ((fresh-unused x y m old).0 (sym c' ∙ sym same))
        | inr old' ↦ h.alone x y x' y' m m' old old' same own
      ]
    ];
    unused = λ x y m i. subst (All (λ q. q ≢ m.page)) (sym after) (elim (at_fresh x y m i) [
      | inl (a, b, c) ↦ subst (λ k. All (λ q. q ≢ k) rest) (sym c) fresh-Different.0
      | inr old ↦ (fresh-unused x y m old).1
    ]);
    different = subst Different (sym after) fresh-Different.1;
  }

-- One entry maps a page that is mapped already, where neither mapping may write it privately.
pub shared-IsPrivate :
    (s : Vm) (e pn p perm : ℕ)
    → IsPrivate s
    → All (λ q. q ≢ p) s.spare
    → ((x y : ℕ) (m : Mapping)
        → s.pte x y ≡ some m
        → m.page ≡ p
        → (owns m.perm ≡ true) ⊎ (owns perm ≡ true)
        → (e ≡ x) × (pn ≡ y))
    → IsPrivate (set_pte e pn (some (record { page = p; perm = perm })) s)
shared-IsPrivate s e pn p perm h used only =
    let new : Mapping = record { page = p; perm = perm } in
    let is_new : (x y : ℕ) (m : Mapping)
        → (set_pte e pn (some new) s).pte x y ≡ some m
        → ((e ≡ x) × (pn ≡ y) × (m.page ≡ p) × (m.perm ≡ perm)) ⊎ (s.pte x y ≡ some m) =
      λ x y m i. elim (at_set s e pn (some new) x y) [
        | inl (a, b, c) ↦
            let same : some m ≡ some new = sym i ∙ c in
            inl (
              a,
              b,
              ap (λ (t : Option Mapping). elim t [ none ↦ p | some k ↦ k.page ]) same,
              ap (λ (t : Option Mapping). elim t [ none ↦ perm | some k ↦ k.perm ]) same,
            )
        | inr (_, kept) ↦ inr (sym kept ∙ i)
      ] in
    record {
      alone = λ x y x' y' m m' i i' same own. elim (is_new x y m i) [
        | inl (a, b, c, d) ↦ elim (is_new x' y' m' i') [
          | inl (a', b', c', d') ↦ (sym a ∙ a', sym b ∙ b')
          | inr old ↦
              let (a', b') = only x' y' m' old (sym same ∙ c) (inr (sym (ap owns d) ∙ own)) in
              (sym a ∙ a', sym b ∙ b')
        ]
        | inr old ↦ elim (is_new x' y' m' i') [
          | inl (a', b', c', d') ↦
              let (a, b) = only x y m old (same ∙ c') (inl own) in (sym a ∙ a', sym b ∙ b')
          | inr old' ↦ h.alone x y x' y' m m' old old' same own
        ]
      ];
      unused = λ x y m i. elim (is_new x y m i) [
        | inl (a, b, c, d) ↦ subst (λ k. All (λ q. q ≢ k) s.spare) (sym c) used
        | inr old ↦ h.unused x y m old
      ];
      different = h.different;
    }
