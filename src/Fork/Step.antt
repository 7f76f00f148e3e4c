-- ===== src/Fork/Step.antt =====
-- One page of the loop of fork of tp-parte4/lib/fork.c keeps the address spaces private.
use sistemas_operativos_2c.Common.{
  ℕ, ◌<◌, ◌≡◌, ◌≢◌, ◌⊎◌, inl, inr, refl, ap, sym, ◌∙◌, subst, true, false, Option, none, some, All,
  ==_ne, bit_and, arith, Bool-cases,
}
use sistemas_operativos_2c.Common.Bits.{digit}
use sistemas_operativos_2c.Fork.{Vm, Mapping, has, cow, copies, set_pte, duppage}
use sistemas_operativos_2c.Fork.Perm.{has-kept, has-cow}
use sistemas_operativos_2c.Fork.Private.{
  owns, Different, IsPrivate, at_set, set_here, shared-IsPrivate,
}
use sistemas_operativos_2c.Fork.Dup.{both, duppage-copies, duppage-shares}

-- A page that is to be copied when it is written.
abbrev pub IsCow : ℕ → Type 0
IsCow perm = (has perm 0x800 ≡ true) × (has perm 0x400 ≡ false)

abbrev pub perm_of : Option Mapping → ℕ
perm_of none = 0
perm_of (some m) = m.perm

abbrev pub page_of : Option Mapping → ℕ
page_of none = 0
page_of (some m) = m.page

pub same_perm : (m m' : Mapping) (x : Option Mapping) → x ≡ some m → x ≡ some m' → m.perm ≡ m'.perm
same_perm m m' x i i' = ap perm_of (sym i ∙ i')

-- Both environments map the page of `m`, for copying if it may be written privately.
pub record Shared (e child pn : ℕ) (m : Mapping) (s' : Vm) : Type 0 where
  pub ours : Mapping
  pub theirs : Mapping
  pub ours_at : s'.pte e pn ≡ some ours
  pub theirs_at : s'.pte child pn ≡ some theirs
  pub pages : (ours.page ≡ m.page) × (theirs.page ≡ m.page)
  pub copied : (copies m.perm ≡ false) ⊎ (IsCow ours.perm × IsCow theirs.perm)

-- What the loop does for a page that is mapped.
pub record Dupped (e child pn : ℕ) (m : Mapping) (s s' : Vm) : Type 0 where
  pub kept_private : IsPrivate s'
  pub words : s'.word ≡ s.word
  pub spares : s'.spare ≡ s.spare
  pub refuses : s'.refused ≡ s.refused
  pub upcalls : (s'.upcall ≡ s.upcall) × (s'.handler ≡ s.handler)
  pub shared : Shared e child pn m s'
  pub others : (x y : ℕ) → (pn ≡ y) ⊎ (s'.pte x y ≡ s.pte x y)

IsPrivate-same :
    (s s' : Vm)
    → ((x y : ℕ) → s'.pte x y ≡ s.pte x y)
    → s'.spare ≡ s.spare
    → IsPrivate s
    → IsPrivate s'
IsPrivate-same s s' same sp h = record {
  alone =
      λ x y x' y' m m' i i'. h.alone x y x' y' m m' (sym (same x y) ∙ i) (sym (same x' y') ∙ i');
  unused = λ x y m i. subst (All (λ q. q ≢ m.page)) (sym sp) (h.unused x y m (sym (same x y) ∙ i));
  different = subst Different (sym sp) h.different;
}

module _ (e child pn : ℕ) (m : Mapping) (s : Vm) (h : IsPrivate s) (i : s.pte e pn ≡ some m) where
  -- An owner of the page is the entry itself.
  owner :
      (x y : ℕ) (m₁ : Mapping)
      → s.pte x y ≡ some m₁
      → m₁.page ≡ m.page
      → owns m₁.perm ≡ true
      → (e ≡ x) × (pn ≡ y) × (owns m.perm ≡ true)
  owner x y m₁ j same own =
      let (a, b) = h.alone x y e pn m₁ m j i same own in
      let j' : s.pte e pn ≡ some m₁ =
        subst (λ k. s.pte k pn ≡ some m₁) a (subst (λ k. s.pte x k ≡ some m₁) b j) in
      (sym a, sym b, sym (ap owns (same_perm m₁ m (s.pte e pn) j' i)) ∙ own)

  both-IsPrivate : (perm : ℕ) → owns perm ≡ false → e ≢ child → IsPrivate (both e child pn perm m s)
  both-IsPrivate perm low ne =
      let new : Mapping = record { page = m.page; perm = perm } in
      let s₁ = set_pte e pn (some new) s in
      let h₁ : IsPrivate s₁ =
        shared-IsPrivate s e pn m.page perm h (h.unused e pn m i) λ x y m₁ j same own.
          let mine : owns m₁.perm ≡ true = elim own [ inl o ↦ o | inr o ↦ absurd (cc (o, low)) ] in
          let (a, b, c) = owner x y m₁ j same mine in (a, b) in
      let h₂ : IsPrivate (set_pte child pn (some new) s₁) =
        shared-IsPrivate s₁ child pn m.page perm h₁ (h.unused e pn m i) λ x y m₁ j same own.
          let mine : owns m₁.perm ≡ true = elim own [ inl o ↦ o | inr o ↦ absurd (cc (o, low)) ] in
          elim (at_set s e pn (some new) x y) [
            | inl (a, b, c) ↦
                let low₁ = ap owns (same_perm m₁ new (s₁.pte x y) j c) in
                absurd (cc (low₁, mine, low))
            | inr (elsewhere, kept) ↦
                let (a, b, c) = owner x y m₁ (sym kept ∙ j) same mine in
                elim elsewhere [ inl n ↦ absurd (n a) | inr n ↦ absurd (n b) ]
          ] in
      IsPrivate-same (set_pte child pn (some new) s₁) (both e child pn perm m s)
        (λ x y. ground (arith, ne)) refl h₂

  shares-IsPrivate :
      (perm : ℕ)
      → owns perm ≡ false
      → owns m.perm ≡ false
      → IsPrivate (set_pte child pn (some (record { page = m.page; perm = perm })) s)
  shares-IsPrivate perm low low' =
      shared-IsPrivate s child pn m.page perm h (h.unused e pn m i) λ x y m₁ j same own.
        let mine : owns m₁.perm ≡ true = elim own [ inl o ↦ o | inr o ↦ absurd (cc (o, low)) ] in
        let (a, b, c) = owner x y m₁ j same mine in absurd (cc (c, low'))

copies_not-owns : (perm : ℕ) → copies perm ≡ false → owns perm ≡ false
copies_not-owns perm h = ground (arith, h)

copies-private : (perm : ℕ) → copies perm ≡ true → has perm 0x400 ≡ false
copies-private perm h = ground (arith, h)

owns-cow : (perm : ℕ) → owns (cow perm) ≡ false
owns-cow perm = rw ((has-cow perm).0) refl

owns-kept : (perm : ℕ) → owns (bit_and perm 0xE07) ≡ owns perm
owns-kept perm = rw ((has-kept perm).0, (has-kept perm).2) refl

cow-IsCow : (perm : ℕ) → copies perm ≡ true → IsCow (cow (bit_and perm 0xE07))
cow-IsCow perm c =
    let (_, is_cow, sh) = has-cow (bit_and perm 0xE07) in
    (is_cow, sh ∙ (has-kept perm).2 ∙ copies-private perm c)

set_others :
    (s : Vm) (e pn : ℕ) (m : Option Mapping) (x y : ℕ)
    → (pn ≡ y) ⊎ ((set_pte e pn m s).pte x y ≡ s.pte x y)
set_others s e pn m x y = elim (at_set s e pn m x y) [
  | inl (a, b, c) ↦ inl b
  | inr (_, kept) ↦ inr kept
]

pub duppage-Dupped :
    (e child pn : ℕ) (m : Mapping) (s : Vm)
    → IsPrivate s
    → s.pte e pn ≡ some m
    → e ≢ child
    → pn < 0xEEC00
    → (digit 0 m.perm ≡ 1) × (digit 2 m.perm ≡ 1)
    → ((x y : ℕ) → s.refused x y ≡ false)
    → (s' : Vm) × (duppage e child pn s ≡ some (tt, s')) × Dupped e child pn m s s'
duppage-Dupped e child pn m s h i ne hp good r = elim (Bool-cases (copies m.perm)) [
  | inl c ↦
      let perm = cow (bit_and m.perm 0xE07) in
      let new : Mapping = record { page = m.page; perm = perm } in
      let s₁ = set_pte child pn (some new) s in
      (
        both e child pn perm m s,
        duppage-copies e child pn m s i ne hp good c (r child pn) (r e pn),
        record {
          kept_private =
              both-IsPrivate e child pn m s h i perm (owns-cow (bit_and m.perm 0xE07)) ne;
          words = refl;
          spares = refl;
          refuses = refl;
          upcalls = (refl, refl);
          shared = record {
            ours = new;
            theirs = new;
            ours_at = set_here s₁ e pn (some new);
            theirs_at = rw (==_ne e child ne) (set_here s child pn (some new));
            pages = (refl, refl);
            copied = inr (cow-IsCow m.perm c, cow-IsCow m.perm c);
          };
          others = λ x y. elim (set_others s₁ e pn (some new) x y) [
            | inl b ↦ inl b
            | inr kept ↦ elim (set_others s child pn (some new) x y) [
              | inl b ↦ inl b
              | inr kept' ↦ inr (kept ∙ kept')
            ]
          ];
        },
      )
  | inr c ↦
      let new : Mapping = record { page = m.page; perm = bit_and m.perm 0xE07 } in
      let low = copies_not-owns m.perm c in
      (
        set_pte child pn (some new) s,
        duppage-shares e child pn m s i hp good c (r child pn),
        record {
          kept_private =
              shares-IsPrivate e child pn m s h i (bit_and m.perm 0xE07) (owns-kept m.perm ∙ low)
                low;
          words = refl;
          spares = refl;
          refuses = refl;
          upcalls = (refl, refl);
          shared = record {
            ours = m;
            theirs = new;
            ours_at = rw (==_ne child e (λ x. ne (sym x))) i;
            theirs_at = set_here s child pn (some new);
            pages = (refl, refl);
            copied = inl c;
          };
          others = set_others s child pn (some new);
        },
      )
]
