-- ===== src/Fork/Child.antt =====
-- What the loop of fork of tp-parte4/lib/fork.c leaves of the parent's pages, for the parent and the child.
use sistemas_operativos_2c.Common.{
  ℕ, ◌<◌, ◌≡◌, ◌≢◌, ◌⊎◌, inl, inr, refl, ap, sym, ◌∙◌, subst, Bool, true, none, some, update, arith,
  ==-refl, ==_ne, true,
}
use sistemas_operativos_2c.Fork.{
  Vm, ◌>>=◌, ◌>>◌, copies, must, grant_page, ux_page, set_pgfault_handler, dup_from, dup_pages,
  fork,
}
use sistemas_operativos_2c.Fork.Private.{view, view-some}
use sistemas_operativos_2c.Fork.Step.{IsCow}
use sistemas_operativos_2c.Fork.Loop.{Looped, present}
use sistemas_operativos_2c.Fork.Fault.{Writable}
use sistemas_operativos_2c.Fork.Stores.{HasStack, IsArmed, WritableAt, Write, CanStore}
use sistemas_operativos_2c.Fork.Stack.{Stacked}

-- The child with its handler, ready to run.
abbrev pub started : (e child : ℕ) → Vm → Vm
started e child s = record s {
  handler = update s.handler child (s.handler e);
  runnable = update s.runnable child true;
}

pub dup_pages-step :
    (rounds e child : ℕ) (s s' : Vm)
    → dup_from rounds 0 e child s ≡ some (tt, s')
    → dup_pages rounds e child s ≡ some (child, started e child s')
unfolding dup_pages
dup_pages-step rounds e child s s' d = rw (◌>>◌, ◌>>=◌, d) refl

pub fork-step :
    (e child : ℕ) (s s₁ s₂ s₃ : Vm)
    → set_pgfault_handler e s ≡ some (tt, s₁)
    → must (grant_page child ux_page 7) s₁ ≡ some (tt, s₂)
    → dup_pages 0xEEC00 e child (record s₂ { upcall = update s₂.upcall child true })
      ≡ some (child, s₃)
    → fork e child s ≡ some (child, s₃)
unfolding fork
fork-step e child s s₁ s₂ s₃ h g d = rw (◌>>◌, ◌>>=◌, h) (rw (◌>>◌, ◌>>=◌, g) d)

-- What a program sees of a page that the loop has treated.
pub Looped-view :
    (e child pn : ℕ) (s s' : Vm)
    → Looped e child 0xEEC00 0 s s'
    → pn < 0xEEC00
    → pn ≢ ux_page
    → s.pte child pn ≡ none
    → (o : ℕ) → (view s' e pn o ≡ view s e pn o) × (view s' child pn o ≡ view s e pn o)
Looped-view e child pn s s' l below ne empty o = elim (present (s.pte e pn)) [
  | inl gone ↦
      let kept = λ (x : ℕ). l.kept x pn (inr (inr gone)) in
      let mine : s'.pte e pn ≡ none = kept e ∙ gone in
      let yours : s'.pte child pn ≡ none = kept child ∙ empty in
      (rw (view, gone, mine) refl, rw (view, gone, yours) refl)
  | inr (m, i) ↦
      let d = l.done pn m (omega arith) (omega arith) ne i in
      let word : (q : ℕ) → q ≡ m.page → some (s'.word q o) ≡ some (s.word m.page o) =
        λ q same. ap (λ (w : ℕ → ℕ → ℕ). some (w q o)) l.words ∙ ap (λ t. some (s.word t o)) same in
      (
        view-some s' e pn o d.ours d.ours_at
            ∙ word d.ours.page d.pages.0
            ∙ sym (view-some s e pn o m i),
        view-some s' child pn o d.theirs d.theirs_at
            ∙ word d.theirs.page d.pages.1
            ∙ sym (view-some s e pn o m i),
      )
]

Writable-copies : (perm : ℕ) → Writable perm → copies perm ≡ true
Writable-copies perm (inl w, sh) = rw (w, sh) refl
Writable-copies perm (inr c, sh) = ground (arith, c, sh)

-- A page that the parent may write is writable for both.
Looped-WritableAt :
    (e child pn : ℕ) (s s' : Vm)
    → Looped e child 0xEEC00 0 s s'
    → pn ≢ ux_page
    → WritableAt s e pn
    → WritableAt s' e pn × WritableAt s' child pn
Looped-WritableAt e child pn s s' l ne w =
    let d = l.done pn w.mapping (omega arith) (omega (arith, w.below)) ne w.mapped in
    let cows : IsCow d.ours.perm × IsCow d.theirs.perm = elim (d.copied) [
      | inl no_copy ↦ absurd (cc (no_copy, Writable-copies w.mapping.perm w.writable))
      | inr c ↦ c
    ] in
    (
      record {
        mapping = d.ours;
        mapped = d.ours_at;
        writable = (inr cows.0.0, cows.0.1);
        below = w.below;
      },
      record {
        mapping = d.theirs;
        mapped = d.theirs_at;
        writable = (inr cows.1.0, cows.1.1);
        below = w.below;
      },
    )

-- A store of the parent or the child, to a page that the parent may write before the fork, other than PFTEMP and the
-- exception stack.
abbrev pub MayStore : (e child : ℕ) → Vm → Write → Type 0
MayStore e child s st =
    ((st.env ≡ e) ⊎ (st.env ≡ child)) × WritableAt s e st.pn × (st.pn ≢ 0x7FF) × (st.pn ≢ ux_page)

WritableAt-stack :
    (e pn : ℕ) (s s₁ : Vm) → Stacked s s₁ → pn ≢ ux_page → WritableAt s e pn → WritableAt s₁ e pn
WritableAt-stack e pn s s₁ k ne w = record {
  mapping = w.mapping;
  mapped = k.stack_kept e pn ne ∙ w.mapped;
  writable = w.writable;
  below = w.below;
}

-- Faults of both are handled.
abbrev pub Armed : (e child : ℕ) → Vm → Type 0
Armed e child s = IsArmed s e × IsArmed s child

pub IsArmed-parent :
    (e child : ℕ) (s₁ s₂ : Vm)
    → e ≢ child
    → Stacked s₁ s₂
    → (s₂.upcall ≡ s₁.upcall) × (s₂.handler ≡ s₁.handler)
    → IsArmed s₁ e
    → IsArmed (record s₂ { upcall = update s₂.upcall child true }) e
IsArmed-parent e child s₁ s₂ ne k (up, hd) a =
    let there = k.stack_stays e a.has_stack in
    record {
      has_stack = record {
        stack = there.stack;
        stack_at = there.stack_at;
        stack_perm = there.stack_perm;
      };
      has_upcall =
          rw (==_ne child e (λ x. ne (sym x))) (ap (λ (f : ℕ → Bool). f e) up ∙ a.has_upcall);
      has_handler = ap (λ (f : ℕ → Bool). f e) hd ∙ a.has_handler;
    }

Looped-HasStack :
    (e child x : ℕ) (s s₃ : Vm)
    → Looped e child 0xEEC00 0 s s₃
    → HasStack s x
    → HasStack (started e child s₃) x
Looped-HasStack e child x s s₃ l a = record {
  stack = a.stack;
  stack_at = l.kept x ux_page (inr (inl refl)) ∙ a.stack_at;
  stack_perm = a.stack_perm;
}

pub started-IsArmed :
    (e child : ℕ) (s s₃ : Vm)
    → Looped e child 0xEEC00 0 s s₃
    → IsArmed s e
    → HasStack s child
    → s.upcall child ≡ true
    → Armed e child (started e child s₃)
started-IsArmed e child s s₃ l a c up =
    let handles : s₃.handler e ≡ true = ap (λ (f : ℕ → Bool). f e) l.upcalls.1 ∙ a.has_handler in
    (
      record {
        has_stack = Looped-HasStack e child e s s₃ l a.has_stack;
        has_upcall = ap (λ (f : ℕ → Bool). f e) l.upcalls.0 ∙ a.has_upcall;
        has_handler = ground (arith, handles);
      },
      record {
        has_stack = Looped-HasStack e child child s s₃ l c;
        has_upcall = ap (λ (f : ℕ → Bool). f child) l.upcalls.0 ∙ up;
        has_handler = rw (==-refl child) handles;
      },
    )

pub MayStore-Looped :
    (e child : ℕ) (s s₁ s₂ s₃ : Vm) (st : Write)
    → Stacked s s₁
    → Stacked s₁ s₂
    → Looped e child 0xEEC00 0 s₂ s₃
    → Armed e child (started e child s₃)
    → MayStore e child s st
    → CanStore (started e child s₃) st
MayStore-Looped e child s s₁ s₂ s₃ st k k' l arms (who, w, ne, nux) =
    let w₂ = WritableAt-stack e st.pn s₁ s₂ k' nux (WritableAt-stack e st.pn s s₁ k nux w) in
    let (mine, yours) = Looped-WritableAt e child st.pn s₂ s₃ l nux w₂ in
    let at : WritableAt s₃ st.env st.pn = elim who [
      | inl a ↦ subst (λ x. WritableAt s₃ x st.pn) (sym a) mine
      | inr a ↦ subst (λ x. WritableAt s₃ x st.pn) (sym a) yours
    ] in
    (
      record { mapping = at.mapping; mapped = at.mapped; writable = at.writable; below = at.below },
      ne,
      elim who [
        | inl a ↦ subst (IsArmed (started e child s₃)) (sym a) arms.0
        | inr a ↦ subst (IsArmed (started e child s₃)) (sym a) arms.1
      ],
    )
