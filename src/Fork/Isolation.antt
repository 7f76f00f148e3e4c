-- ===== src/Fork/Isolation.antt =====
-- fork of tp-parte4/lib/fork.c against two memories that are copies of one.
use sistemas_operativos_2c.Common.{
  ℕ, ◌+◌, ◌<◌, ◌≤◌, ◌≡◌, ◌≢◌, refl, ap, ◌∙◌, Bool, true, false, none, some, List, length, All,
  All-map, update, arith, ==-refl, true,
}
use sistemas_operativos_2c.Fork.{Vm, ux_page, fork}
use sistemas_operativos_2c.Fork.Private.{IsPrivate, view}
use sistemas_operativos_2c.Fork.Loop.{AreUser, Looped, dup_from-Looped}
use sistemas_operativos_2c.Fork.Stores.{
  HasStack, IsArmed, Write, CanStore, stores, alone, alone-same, stores-alone,
}
use sistemas_operativos_2c.Fork.Stack.{Stacked, grant-Stacked, Stacked-upcall, handler-Stacked}
use sistemas_operativos_2c.Fork.Child.{
  started, dup_pages-step, fork-step, Looped-view, MayStore, Armed, IsArmed-parent, started-IsArmed,
  MayStore-Looped,
}

-- What fork leaves, for the stores that follow.
record Forked (e child : ℕ) (s s' : Vm) : Type 0 where
  forked_private : IsPrivate s'
  forked_spares : length s.spare ≤ length s'.spare + 2
  forked_refuses : (x y : ℕ) → s'.refused x y ≡ false
  forked_can : (st : Write) → MayStore e child s st → CanStore s' st
  forked_views :
      (pn : ℕ)
      → pn < 0xEEC00
      → pn ≢ ux_page
      → (o : ℕ) → (view s' e pn o ≡ view s e pn o) × (view s' child pn o ≡ view s e pn o)

Looped-Forked :
    (e child : ℕ) (s s₁ s₂ s₃ : Vm)
    → ((y : ℕ) → s.pte child y ≡ none)
    → ((x y : ℕ) → s₂.refused x y ≡ false)
    → Stacked s s₁
    → Stacked s₁ s₂
    → Looped e child 0xEEC00 0 s₂ s₃
    → Armed e child (started e child s₃)
    → Forked e child s (started e child s₃)
Looped-Forked e child s s₁ s₂ s₃ empty refuse k k' l arms = record {
  forked_private = record {
    alone = l.kept_private.alone;
    unused = l.kept_private.unused;
    different = l.kept_private.different;
  };
  forked_spares = omega (arith, k.stack_spares, k'.stack_spares, ap length l.spares);
  forked_refuses = λ x y. ap (λ (f : ℕ → ℕ → Bool). f x y) l.refuses ∙ refuse x y;
  forked_can = λ st. MayStore-Looped e child s s₁ s₂ s₃ st k k' l arms;
  forked_views = λ pn below nux o.
      let gone : s₂.pte child pn ≡ none =
        k'.stack_kept child pn nux ∙ (k.stack_kept child pn nux ∙ empty pn) in
      let before : view s₂ e pn o ≡ view s e pn o =
        k'.stack_views e pn o nux ∙ k.stack_views e pn o nux in
      let (mine, yours) = Looped-view e child pn s₂ s₃ l below nux gone o in
      (mine ∙ before, yours ∙ before);
}

module _ (e child : ℕ) (s : Vm) (h : IsPrivate s) (ne : e ≢ child) (user : AreUser e 0 s)
    (empty : (y : ℕ) → s.pte child y ≡ none) (granting : (x y : ℕ) → s.refused x y ≡ false)
    (stacked : s.handler e ≡ true → HasStack s e) (two : 2 ≤ length s.spare) where
  fork-Forked : (s' : Vm) × (fork e child s ≡ some (child, s')) × Forked e child s s'
  fork-Forked =
      let (s₁, run₁, k₁, a₁) =
        handler-Stacked e s h (omega (arith, two)) (granting e ux_page) stacked in
      let refuse₁ : (x y : ℕ) → s₁.refused x y ≡ false =
        λ x y. ap (λ (f : ℕ → ℕ → Bool). f x y) k₁.stack_refuses ∙ granting x y in
      let (s₂, run₂, k₂, b₂, same) =
        grant-Stacked child s₁ k₁.stack_private (omega (arith, two, k₁.stack_spares))
          (refuse₁ child ux_page) in
      let t = record s₂ { upcall = update s₂.upcall child true } in
      let k = Stacked-upcall s₁ s₂ (update s₂.upcall child true) s₂.handler k₂ in
      let a₂ : IsArmed t e = IsArmed-parent e child s₁ s₂ ne k₂ same a₁ in
      let c₂ : HasStack t child = record {
        stack = b₂.stack;
        stack_at = b₂.stack_at;
        stack_perm = b₂.stack_perm;
      } in
      let refuse₂ : (x y : ℕ) → t.refused x y ≡ false =
        λ x y. ap (λ (f : ℕ → ℕ → Bool). f x y) k₂.stack_refuses ∙ refuse₁ x y in
      let (s₃, run₃, l) =
        dup_from-Looped 0xEEC00 0 e child t k.stack_private ne (omega arith)
          (k.stack_user e (k₁.stack_user e user)) refuse₂ in
      (
        started e child s₃,
        fork-step e child s s₁ s₂ _ run₁ run₂ (dup_pages-step 0xEEC00 e child t s₃ run₃),
        Looped-Forked e child s s₁ t s₃ empty refuse₂ k₁ k l
            (started-IsArmed e child t s₃ l a₂ c₂ (rw (==-refl child) refl)),
      )

  -- fork from a private address space into an empty one, where the kernel refuses nothing and has the pages for the
  -- exception stacks and one for each store, and the parent has its exception stack if its handler is already set,
  -- returns the child. Then stores of the parent and the child in any order
  -- succeed, and each of the two sees at a page, other than PFTEMP and the exception stack, what its own stores make
  -- of what the parent saw before the fork. The stores are to pages that the parent may write before the fork.
  pub fork-stores :
      (sts : List Write) (pn off : ℕ)
      → All (MayStore e child s) sts
      → length sts + 2 ≤ length s.spare
      → pn < 0xEEC00
      → pn ≢ 0x7FF
      → pn ≢ ux_page
      → (s' : Vm) × (s'' : Vm) × (fork e child s ≡ some (child, s'))
        × (stores sts s' ≡ some (tt, s''))
        × (view s'' e pn off ≡ alone e sts (view s e) pn off)
        × (view s'' child pn off ≡ alone child sts (view s e) pn off)
  fork-stores sts pn off may room below nt nux =
      let (s', run, k) = fork-Forked in
      let (s'', run', seen) =
        stores-alone sts s' k.forked_private (All-map k.forked_can sts may)
          (omega (arith, room, k.forked_spares)) k.forked_refuses in
      let views = k.forked_views pn below nux in
      (
        s',
        s'',
        run,
        run',
        seen e pn off nt ∙ alone-same e sts (view s' e) (view s e) pn (λ o. (views o).0) off,
        seen child pn off nt
            ∙ alone-same child sts (view s' child) (view s e) pn (λ o. (views o).1) off,
      )
