-- ===== src/Fork/Stack.antt =====
-- The exception stacks that fork and set_pgfault_handler of tp-parte4/lib map.
use sistemas_operativos_2c.Common.{
  ℕ, ◌+◌, ◌≤◌, ◌≡◌, ◌≢◌, inl, inr, refl, ap, sym, ◌∙◌, subst, Bool, true, false, Option, none, some,
  List, [], ◌∷◌, length, All, ==-refl, ==_ne, update, arith, Bool-cases,
}
use sistemas_operativos_2c.Common.Bits.{digit}
use sistemas_operativos_2c.Fork.{
  Vm, Mapping, ◌>>=◌, ◌>>◌, must, grant_page, ux_page, set_pgfault_handler,
}
use sistemas_operativos_2c.Fork.Private.{
  IsPrivate, view, view-some, at_set, set_here, fresh-IsPrivate,
}
use sistemas_operativos_2c.Fork.Dup.{granted, grant_page-gives, must-ok}
use sistemas_operativos_2c.Fork.Loop.{AreUser, present}
use sistemas_operativos_2c.Fork.Stores.{HasStack, IsArmed}

-- What stays the same when a program gets an exception stack.
pub record Stacked (s s₁ : Vm) : Type 0 where
  pub stack_private : IsPrivate s₁
  pub stack_kept : (x y : ℕ) → y ≢ ux_page → s₁.pte x y ≡ s.pte x y
  pub stack_views : (x y o : ℕ) → y ≢ ux_page → view s₁ x y o ≡ view s x y o
  pub stack_spares : length s.spare ≤ length s₁.spare + 1
  pub stack_refuses : s₁.refused ≡ s.refused
  pub stack_user : (e : ℕ) → AreUser e 0 s → AreUser e 0 s₁
  pub stack_stays : (x : ℕ) → HasStack s x → HasStack s₁ x

taken_from : (l : List ℕ) → 1 ≤ length l → (p : ℕ) × (rest : List ℕ) × (l ≡ p ∷ rest)
taken_from [] h = absurd (omega arith)
taken_from (p ∷ rest) h = (p, rest, refl)

pub grant-Stacked :
    (e : ℕ) (s : Vm)
    → IsPrivate s
    → 1 ≤ length s.spare
    → s.refused e ux_page ≡ false
    → (s₁ : Vm) × (must (grant_page e ux_page 7) s ≡ some (tt, s₁))
      × Stacked s s₁
      × HasStack s₁ e
      × ((s₁.upcall ≡ s.upcall) × (s₁.handler ≡ s.handler))
grant-Stacked e s h room r =
    let (p, rest, sp) = taken_from s.spare room in
    let s₁ = granted e ux_page p 7 rest s in
    let new : Mapping = record { page = p; perm = 7 } in
    let at = at_set s e ux_page (some new) in
    let kept : (x y : ℕ) → y ≢ ux_page → s₁.pte x y ≡ s.pte x y =
      λ x y ne. elim (at x y) [ inl (a, b, c) ↦ absurd (ne (sym b)) | inr (_, k) ↦ k ] in
    (
      s₁,
      must-ok (grant_page e ux_page 7) s s₁
          (grant_page-gives e ux_page p rest s (omega arith) sp r),
      record {
        stack_private =
            fresh-IsPrivate s s₁ e ux_page p 7 rest h sp refl (set_here s e ux_page (some new))
              λ x y. elim (at x y) [ inl (a, b, c) ↦ inl (a, b) | inr (_, k) ↦ inr (inr k) ];
        stack_kept = kept;
        stack_views = λ x y o ne. elim (present (s.pte x y)) [
          | inl gone ↦ cc (kept x y ne, gone)
          | inr (m, i) ↦
              let other : p ≢ m.page = (subst (All (λ q. q ≢ m.page)) sp (h.unused x y m i)).0 in
              view-some s₁ x y o m (kept x y ne ∙ i)
              ∙ rw (==_ne p m.page other) (sym (view-some s x y o m i))
        ];
        stack_spares = omega (arith, ap length sp);
        stack_refuses = refl;
        stack_user = λ e' user y m low i. elim (at e' y) [
          | inl (a, b, c) ↦
              let same : some new ≡ some m = sym c ∙ i in
              subst
                (λ (t : Option Mapping). elim t [
                  | none ↦ Unit {0}
                  | some k ↦ (digit 0 k.perm ≡ 1) × (digit 2 k.perm ≡ 1)
                ])
                same (refl, refl)
          | inr (_, k) ↦ user y m low (sym k ∙ i)
        ];
        stack_stays = λ x a. elim (at x ux_page) [
          | inl (_, b, c) ↦ record { stack = new; stack_at = c; stack_perm = (refl, refl) }
          | inr (_, k) ↦ record {
            stack = a.stack;
            stack_at = k ∙ a.stack_at;
            stack_perm = a.stack_perm;
          }
        ];
      },
      record { stack = new; stack_at = set_here s e ux_page (some new); stack_perm = (refl, refl) },
      (refl, refl),
    )

HasStack-upcall :
    (s : Vm) (u h : ℕ → Bool) (x : ℕ)
    → HasStack s x
    → HasStack (record s { upcall = u; handler = h }) x
HasStack-upcall s u h x a = record {
  stack = a.stack;
  stack_at = a.stack_at;
  stack_perm = a.stack_perm;
}

pub Stacked-upcall :
    (s s₁ : Vm) (u h : ℕ → Bool) → Stacked s s₁ → Stacked s (record s₁ { upcall = u; handler = h })
Stacked-upcall s s₁ u h k = record {
  stack_private = record {
    alone = k.stack_private.alone;
    unused = k.stack_private.unused;
    different = k.stack_private.different;
  };
  stack_kept = k.stack_kept;
  stack_views = k.stack_views;
  stack_spares = k.stack_spares;
  stack_refuses = k.stack_refuses;
  stack_user = k.stack_user;
  stack_stays = λ x a. HasStack-upcall s₁ u h x (k.stack_stays x a);
}

Stacked-self : (s : Vm) → IsPrivate s → Stacked s s
Stacked-self s h = record {
  stack_private = h;
  stack_kept = λ x y ne. refl;
  stack_views = λ x y o ne. refl;
  stack_spares = omega arith;
  stack_refuses = refl;
  stack_user = λ e user. user;
  stack_stays = λ x a. a;
}

-- A program with the upcall and a handler.
abbrev handled : ℕ → Vm → Vm
handled e s = record s { handler = update s.handler e true; upcall = update s.upcall e true }

IsArmed-handled : (e : ℕ) (s : Vm) → HasStack s e → IsArmed (handled e s) e
IsArmed-handled e s a = record {
  has_stack = HasStack-upcall s _ _ e a;
  has_upcall = rw (==-refl e) refl;
  has_handler = rw (==-refl e) refl;
}

-- set_pgfault_handler, of a program that has its exception stack where it has a handler already.
pub handler-Stacked :
    (e : ℕ) (s : Vm)
    → IsPrivate s
    → 1 ≤ length s.spare
    → s.refused e ux_page ≡ false
    → (s.handler e ≡ true → HasStack s e)
    → (s₁ : Vm) × (set_pgfault_handler e s ≡ some (tt, s₁)) × Stacked s s₁ × IsArmed s₁ e
unfolding set_pgfault_handler
handler-Stacked e s h room r has = elim (Bool-cases (s.handler e)) [
  | inl set ↦ (
    handled e s,
    rw set refl,
    Stacked-upcall s s _ _ (Stacked-self s h),
    IsArmed-handled e s (has set),
  )
  | inr unset ↦
      let (s₁, run, k, a, _) = grant-Stacked e s h room r in
      (
        handled e s₁,
        rw unset (rw (◌>>◌, ◌>>=◌, run) refl),
        Stacked-upcall s s₁ _ _ k,
        IsArmed-handled e s₁ a,
      )
]
