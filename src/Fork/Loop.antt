-- ===== src/Fork/Loop.antt =====
-- The loop of fork of tp-parte4/lib/fork.c over the pages of an environment.
use sistemas_operativos_2c.Common.{
  ℕ, zero, suc, ◌+◌, ◌<◌, ◌≤◌, ◌≡◌, ◌≢◌, ◌⊎◌, inl, inr, refl, ap, sym, ◌∙◌, subst, Bool, false,
  Option, none, some, ==_ne, arith,
}
use native.Mathlib.Decide.{ℕ_discrete}
use sistemas_operativos_2c.Common.Bits.{digit}
use sistemas_operativos_2c.Fork.{Vm, Mapping, ◌>>=◌, ◌>>◌, ux_page, duppage, dup_from}
use sistemas_operativos_2c.Fork.Private.{IsPrivate}
use sistemas_operativos_2c.Fork.Step.{Shared, Dupped, duppage-Dupped}

-- The entries that the program uses are present for the user.
abbrev pub AreUser : (e pn : ℕ) → Vm → Type 0
AreUser e pn s =
    (y : ℕ) (m : Mapping)
    → pn ≤ y
    → s.pte e y ≡ some m
    → (digit 0 m.perm ≡ 1) × (digit 2 m.perm ≡ 1)

-- What the loop leaves after the pages from `pn` on, `rounds` of them.
pub record Looped (e child rounds pn : ℕ) (s s' : Vm) : Type 0 where
  pub kept_private : IsPrivate s'
  pub words : s'.word ≡ s.word
  pub spares : s'.spare ≡ s.spare
  pub refuses : s'.refused ≡ s.refused
  pub upcalls : (s'.upcall ≡ s.upcall) × (s'.handler ≡ s.handler)
  pub done :
      (y : ℕ) (m : Mapping)
      → pn ≤ y
      → y < pn + rounds
      → y ≢ ux_page
      → s.pte e y ≡ some m
      → Shared e child y m s'
  pub kept : (x y : ℕ) → (y < pn) ⊎ ((y ≡ ux_page) ⊎ (s.pte e y ≡ none)) → s'.pte x y ≡ s.pte x y

Shared-same :
    (e child pn : ℕ) (m : Mapping) (s s' : Vm)
    → ((x : ℕ) → s'.pte x pn ≡ s.pte x pn)
    → Shared e child pn m s
    → Shared e child pn m s'
Shared-same e child pn m s s' same d = record {
  ours = d.ours;
  theirs = d.theirs;
  ours_at = same e ∙ d.ours_at;
  theirs_at = same child ∙ d.theirs_at;
  pages = d.pages;
  copied = d.copied;
}

-- A page that the loop leaves out: it is not present, or the exception stack.
abbrev Skipped : (e pn : ℕ) → Vm → Type 0
Skipped e pn s = (s.pte e pn ≡ none) ⊎ (pn ≡ ux_page)

skip-step :
    (rounds pn e child : ℕ) (s : Vm)
    → Skipped e pn s
    → dup_from (suc rounds) pn e child s ≡ dup_from rounds (pn + 1) e child s
unfolding dup_from
skip-step rounds pn e child s (inl gone) = rw (dup_from, gone) refl
skip-step rounds pn e child s (inr ux) = ground (arith, ux)

dup-step :
    (rounds pn e child : ℕ) (m : Mapping) (s s₁ : Vm)
    → s.pte e pn ≡ some m
    → pn ≢ ux_page
    → duppage e child pn s ≡ some (tt, s₁)
    → dup_from (suc rounds) pn e child s ≡ dup_from rounds (pn + 1) e child s₁
unfolding dup_from
dup-step rounds pn e child m s s₁ i ne d =
    rw (dup_from, i, ==_ne pn ux_page ne) (rw (◌>>◌, ◌>>=◌, d) refl)

Looped-skip :
    (e child rounds pn : ℕ) (s s' : Vm)
    → Skipped e pn s
    → Looped e child rounds (pn + 1) s s'
    → Looped e child (suc rounds) pn s s'
Looped-skip e child rounds pn s s' skipped l = record {
  kept_private = l.kept_private;
  words = l.words;
  spares = l.spares;
  refuses = l.refuses;
  upcalls = l.upcalls;
  done = λ y m low high ne i. elim (ℕ_discrete y pn) [
    | no other ↦ l.done y m (omega arith) (omega arith) ne i
    | yes same ↦ elim skipped [
      | inl gone ↦ absurd (cc (i, gone, same))
      | inr ux ↦ absurd (ne (same ∙ ux))
    ]
  ];
  kept = λ x y why. l.kept x y (elim why [ inl low ↦ inl (omega arith) | inr rest ↦ inr rest ]);
}

Looped-dup :
    (e child rounds pn : ℕ) (m : Mapping) (s s₁ s' : Vm)
    → s.pte e pn ≡ some m
    → pn ≢ ux_page
    → Dupped e child pn m s s₁
    → Looped e child rounds (pn + 1) s₁ s'
    → Looped e child (suc rounds) pn s s'
Looped-dup e child rounds pn m s s₁ s' i ne d l = record {
  kept_private = l.kept_private;
  words = l.words ∙ d.words;
  spares = l.spares ∙ d.spares;
  refuses = l.refuses ∙ d.refuses;
  upcalls = (l.upcalls.0 ∙ d.upcalls.0, l.upcalls.1 ∙ d.upcalls.1);
  done = λ y k low high ux j. elim (ℕ_discrete pn y) [
    | yes same ↦
        let now = Shared-same e child pn m s₁ s' (λ x. l.kept x pn (inl (omega arith))) d.shared in
        let same_map : some m ≡ some k = cc (i, j, same) in
        subst (λ (t : Option Mapping). Shared e child y (elim t [ none ↦ m | some k' ↦ k' ]) s')
          same_map (subst (λ z. Shared e child z m s') same now)
    | no other ↦
        let before : s₁.pte e y ≡ some k = elim (d.others e y) [
          | inl same ↦ absurd (other same)
          | inr kept ↦ kept ∙ j
        ] in
        l.done y k (omega arith) (omega arith) ux before
  ];
  kept = λ x y why. elim (d.others x y) [
    | inl same ↦ absurd (elim why [
      | inl low ↦ omega (arith, low, same)
      | inr (inl ux) ↦ ne (same ∙ ux)
      | inr (inr gone) ↦ cc (gone, i, same)
    ])
    | inr kept ↦
        let why' : (y < pn + 1) ⊎ ((y ≡ ux_page) ⊎ (s₁.pte e y ≡ none)) = elim why [
          | inl low ↦ inl (omega arith)
          | inr (inl ux) ↦ inr (inl ux)
          | inr (inr gone) ↦ elim (d.others e y) [
            | inl same ↦ absurd (cc (gone, i, same))
            | inr kept' ↦ inr (inr (kept' ∙ gone))
          ]
        ] in
        l.kept x y why' ∙ kept
  ];
}

pub present : (x : Option Mapping) → (x ≡ none) ⊎ ((m : Mapping) × (x ≡ some m))
present none = inl refl
present (some m) = inr (m, refl)

AreUser-next :
    (e child pn : ℕ) (m : Mapping) (s s₁ : Vm)
    → Dupped e child pn m s s₁
    → AreUser e pn s
    → AreUser e (pn + 1) s₁
AreUser-next e child pn m s s₁ d user y k low i = elim (d.others e y) [
  | inl same ↦ absurd (omega (arith, same))
  | inr kept ↦ user y k (omega arith) (sym kept ∙ i)
]

pub dup_from-Looped :
    (rounds pn e child : ℕ) (s : Vm)
    → IsPrivate s
    → e ≢ child
    → pn + rounds ≤ 0xEEC00
    → AreUser e pn s
    → ((x y : ℕ) → s.refused x y ≡ false)
    → (s' : Vm) × (dup_from rounds pn e child s ≡ some (tt, s')) × Looped e child rounds pn s s'
unfolding dup_from
dup_from-Looped zero pn e child s h ne high user r = (
  s,
  refl,
  record {
    kept_private = h;
    words = refl;
    spares = refl;
    refuses = refl;
    upcalls = (refl, refl);
    done = λ y m low below. absurd (omega arith);
    kept = λ x y why. refl;
  },
)
dup_from-Looped (suc rounds) pn e child s h ne high user r =
    let skip : Skipped e pn s
        → (s' : Vm) × (dup_from (suc rounds) pn e child s ≡ some (tt, s'))
          × Looped e child (suc rounds) pn s s' =
      λ w.
        let (s', run, l) =
          dup_from-Looped rounds (pn + 1) e child s h ne (omega arith)
            (λ y m low. user y m (omega arith)) r in
        (s', skip-step rounds pn e child s w ∙ run, Looped-skip e child rounds pn s s' w l) in
    elim (present (s.pte e pn)) [
      | inl gone ↦ skip (inl gone)
      | inr (m, i) ↦ elim (ℕ_discrete pn ux_page) [
        | yes ux ↦ skip (inr ux)
        | no nux ↦
            let (s₁, run, d) =
              duppage-Dupped e child pn m s h i ne (omega arith) (user pn m (omega arith) i) r in
            let (s', run', l) =
              dup_from-Looped rounds (pn + 1) e child s₁ d.kept_private ne (omega arith)
                (AreUser-next e child pn m s s₁ d user)
                (λ x y. ap (λ (f : ℕ → ℕ → Bool). f x y) d.refuses ∙ r x y) in
            (
              s',
              dup-step rounds pn e child m s s₁ i nux run ∙ run',
              Looped-dup e child rounds pn m s s₁ s' i nux d l,
            )
      ]
    ]
