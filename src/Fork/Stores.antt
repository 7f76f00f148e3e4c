-- ===== src/Fork/Stores.antt =====
-- Stores of the programs that a fork of tp-parte4/lib/fork.c leaves, in any order.
use sistemas_operativos_2c.Common.{
  ℕ, ◌+◌, ◌<◌, ◌≤◌, ◌≡◌, ◌≢◌, inl, inr, refl, ap, sym, ◌∙◌, Bool, true, false, ◌&&◌, Option, some,
  List, [], ◌∷◌, length, All, All-map, ◌==◌, arith, Bool-cases, if◌then◌else◌,
}
use sistemas_operativos_2c.Fork.{
  Vm, V, Mapping, ◌>>=◌, ◌>>◌, pure, has, pgfault, store_now, take_fault, user_store, ux_page,
}
use sistemas_operativos_2c.Fork.Private.{owns, IsPrivate, view}
use sistemas_operativos_2c.Fork.Dup.{faulted, pgfault-gives}
use sistemas_operativos_2c.Fork.Fault.{
  Writable, seen_after, store_now-gives, store-view, faulted_at, faulted_here, faulted-IsPrivate,
  faulted-view,
}

pub record WritableAt (s : Vm) (e pn : ℕ) : Type 0 where
  pub mapping : Mapping
  pub mapped : s.pte e pn ≡ some mapping
  pub writable : Writable mapping.perm
  pub below : pn < 0xEEC00

-- The exception stack takes the frame of a fault.
pub record HasStack (s : Vm) (e : ℕ) : Type 0 where
  pub stack : Mapping
  pub stack_at : s.pte e ux_page ≡ some stack
  pub stack_perm : (has stack.perm 4 ≡ true) × (has stack.perm 2 ≡ true)

-- A fault of the program calls its handler.
pub record IsArmed (s : Vm) (e : ℕ) : Type 0 where
  pub has_stack : HasStack s e
  pub has_upcall : s.upcall e ≡ true
  pub has_handler : s.handler e ≡ true

pub take_fault-pgfault : (e pn : ℕ) (s : Vm) → IsArmed s e → take_fault e pn s ≡ pgfault e pn 7 s
unfolding take_fault
take_fault-pgfault e pn s a =
    rw (a.has_upcall, a.has_handler)
      (rw a.has_stack.stack_at (rw (a.has_stack.stack_perm.0, a.has_stack.stack_perm.1) refl))

-- What a store leaves; a program does not look at PFTEMP, where pgfault maps pages.
pub record Stored (e pn off v : ℕ) (s s' : Vm) : Type 0 where
  pub kept_private : IsPrivate s'
  pub views : (x y o : ℕ) → y ≢ 0x7FF → view s' x y o ≡ seen_after e pn off v s x y o
  pub kept_writable : (x y : ℕ) → y ≢ 0x7FF → WritableAt s x y → WritableAt s' x y
  pub spares : length s.spare ≤ length s'.spare + 1
  pub refuses : s'.refused ≡ s.refused
  pub kept_armed : (x : ℕ) → IsArmed s x → IsArmed s' x

owns-private : (perm : ℕ) → has perm 2 ≡ true → has perm 0x400 ≡ false → owns perm ≡ true
owns-private perm w sh = rw (w, sh) refl

user_store-now :
    (e pn off v : ℕ) (m : Mapping) (s : Vm)
    → s.pte e pn ≡ some m
    → has m.perm 2 ≡ true
    → user_store e pn off v s ≡ store_now e pn off v s
unfolding user_store
user_store-now e pn off v m s i w = rw (user_store, i) (rw w refl)

user_store-fault :
    (e pn off v : ℕ) (m : Mapping) (s s₁ : Vm)
    → s.pte e pn ≡ some m
    → has m.perm 2 ≡ false
    → take_fault e pn s ≡ some (tt, s₁)
    → user_store e pn off v s ≡ store_now e pn off v s₁
unfolding user_store
user_store-fault e pn off v m s s₁ i w f = rw (user_store, i) (rw (w, ◌>>◌, ◌>>=◌, f) refl)

-- The store itself, into a page that the program owns.
own-Stored :
    (e pn off v : ℕ) (m : Mapping) (s : Vm)
    → IsPrivate s
    → s.pte e pn ≡ some m
    → has m.perm 2 ≡ true
    → has m.perm 0x400 ≡ false
    → (s' : Vm) × (store_now e pn off v s ≡ some (tt, s')) × Stored e pn off v s s'
own-Stored e pn off v m s h i w sh = (
  _,
  store_now-gives e pn off v m s i w,
  record {
    kept_private = record { alone = h.alone; unused = h.unused; different = h.different };
    views = λ x y o ne. store-view e pn off v m s x y o h i (owns-private m.perm w sh);
    kept_writable = λ x y ne k. record {
      mapping = k.mapping;
      mapped = k.mapped;
      writable = k.writable;
      below = k.below;
    };
    spares = omega arith;
    refuses = refl;
    kept_armed = λ x a. record {
      has_stack = record {
        stack = a.has_stack.stack;
        stack_at = a.has_stack.stack_at;
        stack_perm = a.has_stack.stack_perm;
      };
      has_upcall = a.has_upcall;
      has_handler = a.has_handler;
    };
  },
)

seen_after-view :
    (e pn off v : ℕ) (s s₁ : Vm) (x y o : ℕ)
    → view s₁ x y o ≡ view s x y o
    → seen_after e pn off v s₁ x y o ≡ seen_after e pn off v s x y o
seen_after-view e pn off v s s₁ x y o same =
    ap (λ t. if e == x && (pn == y && off == o) then some v else t) same

taken_from : (l : List ℕ) → 1 ≤ length l → (p : ℕ) × (rest : List ℕ) × (l ≡ p ∷ rest)
taken_from [] h = absurd (omega arith)
taken_from (p ∷ rest) h = (p, rest, refl)

faulted-writable :
    (e pn p : ℕ) (m : Mapping) (rest : List ℕ) (s : Vm)
    → IsPrivate s
    → s.pte e pn ≡ some m
    → s.spare ≡ p ∷ rest
    → pn ≢ 0x7FF
    → (x y : ℕ) → y ≢ 0x7FF
    → WritableAt s x y
    → WritableAt (faulted e pn p m rest s) x y
faulted-writable e pn p m rest s h i sp ne x y ne' w =
    elim (faulted_at e pn p m rest s h i sp ne x y) [
      | inl (a, b, c) ↦ absurd (ne' (sym b))
      | inr (inl (a, b, c)) ↦ record {
        mapping = record { page = p; perm = 7 };
        mapped = c;
        writable = (inl refl, refl);
        below = w.below;
      }
      | inr (inr kept) ↦ record {
        mapping = w.mapping;
        mapped = kept ∙ w.mapped;
        writable = w.writable;
        below = w.below;
      }
    ]

faulted-IsArmed :
    (e pn p : ℕ) (m : Mapping) (rest : List ℕ) (s : Vm)
    → IsPrivate s
    → s.pte e pn ≡ some m
    → s.spare ≡ p ∷ rest
    → pn ≢ 0x7FF
    → (x : ℕ) → IsArmed s x
    → IsArmed (faulted e pn p m rest s) x
faulted-IsArmed e pn p m rest s h i sp ne x a = record {
  has_stack = elim (faulted_at e pn p m rest s h i sp ne x ux_page) [
    | inl (_, b, c) ↦ absurd (omega (arith, b))
    | inr (inl (_, b, c)) ↦ record {
      stack = record { page = p; perm = 7 };
      stack_at = c;
      stack_perm = (refl, refl);
    }
    | inr (inr kept) ↦ record {
      stack = a.has_stack.stack;
      stack_at = kept ∙ a.has_stack.stack_at;
      stack_perm = a.has_stack.stack_perm;
    }
  ];
  has_upcall = a.has_upcall;
  has_handler = a.has_handler;
}

-- A store of a program whose faults are handled, into a page that is writable, or copied when written, succeeds, and changes what one program sees at one
-- address.
pub user_store-Stored :
    (e pn off v : ℕ) (s : Vm)
    → IsPrivate s
    → WritableAt s e pn
    → IsArmed s e
    → pn ≢ 0x7FF
    → 1 ≤ length s.spare
    → ((x y : ℕ) → s.refused x y ≡ false)
    → (s' : Vm) × (user_store e pn off v s ≡ some (tt, s')) × Stored e pn off v s s'
unfolding own-Stored
user_store-Stored e pn off v s h k armed ne room r = elim (Bool-cases (has k.mapping.perm 2)) [
  | inl w ↦
      let (s', run, st) = own-Stored e pn off v k.mapping s h k.mapped w k.writable.1 in
      (s', user_store-now e pn off v k.mapping s k.mapped w ∙ run, st)
  | inr nw ↦
      let (p, rest, sp) = taken_from s.spare room in
      let m = k.mapping in
      let is_cow : has m.perm 0x800 ≡ true = elim (k.writable.0) [
        | inl w ↦ absurd (cc (w, nw))
        | inr c ↦ c
      ] in
      let s₁ = faulted e pn p m rest s in
      let fault =
        pgfault-gives e pn p m rest s k.mapped is_cow k.below ne sp (r e 0x7FF) (r e pn) in
      let h₁ = faulted-IsPrivate e pn p m rest s h k.mapped sp ne in
      let here = faulted_here e pn p m rest s h k.mapped sp ne in
      let new : Mapping = record { page = p; perm = 7 } in
      let (s', run, st) = own-Stored e pn off v new s₁ h₁ here refl refl in
      (
        s',
        user_store-fault e pn off v m s s₁ k.mapped nw (take_fault-pgfault e pn s armed ∙ fault)
            ∙ run,
        record {
          kept_private = st.kept_private;
          views = λ x y o ne'.
              st.views x y o ne'
              ∙ seen_after-view e pn off v s s₁ x y o
                  (faulted-view e pn p m rest s h k.mapped sp ne x y o ne');
          kept_writable = λ x y ne' w.
              st.kept_writable x y ne'
                (faulted-writable e pn p m rest s h k.mapped sp ne x y ne' w);
          spares = omega (arith, st.spares, ap length sp);
          refuses = st.refuses;
          kept_armed =
              λ x a. st.kept_armed x (faulted-IsArmed e pn p m rest s h k.mapped sp ne x a);
        },
      )
]

pub record Write : Type 0 where
  pub env : ℕ
  pub pn : ℕ
  pub off : ℕ
  pub v : ℕ

-- Stores of any programs, one after the other.
abbrev pub stores : List Write → V (Unit {0})
stores [] = pure tt
stores (st ∷ sts) = do user_store st.env st.pn st.off st.v; stores sts

-- A memory of its own after the stores of one program.
abbrev pub alone : (e : ℕ) → List Write → (ℕ → ℕ → Option ℕ) → ℕ → ℕ → Option ℕ
alone e [] mem = mem
alone e (st ∷ sts) mem =
    alone e sts
      (λ pn off. if st.env == e && (st.pn == pn && st.off == off) then some st.v else mem pn off)

pub alone-same :
    (e : ℕ) (sts : List Write) (mem mem' : ℕ → ℕ → Option ℕ) (pn : ℕ)
    → ((o : ℕ) → mem pn o ≡ mem' pn o)
    → (o : ℕ) → alone e sts mem pn o ≡ alone e sts mem' pn o
alone-same e [] mem mem' pn same = same
alone-same e (st ∷ sts) mem mem' pn same =
    alone-same e sts _ _ pn
      λ o. ap (λ t. if st.env == e && (st.pn == pn && st.off == o) then some st.v else t) (same o)

stores-step :
    (st : Write) (sts : List Write) (s s₁ s₂ : Vm)
    → user_store st.env st.pn st.off st.v s ≡ some (tt, s₁)
    → stores sts s₁ ≡ some (tt, s₂)
    → stores (st ∷ sts) s ≡ some (tt, s₂)
stores-step st sts s s₁ s₂ e e' = rw (◌>>◌, ◌>>=◌, e) e'

abbrev pub CanStore : Vm → Write → Type 0
CanStore s st = WritableAt s st.env st.pn × (st.pn ≢ 0x7FF) × IsArmed s st.env

-- Stores of any programs, in any order, leave each program the memory that its own stores make of what it saw.
pub stores-alone :
    (sts : List Write) (s : Vm)
    → IsPrivate s
    → All (CanStore s) sts
    → length sts ≤ length s.spare
    → ((x y : ℕ) → s.refused x y ≡ false)
    → (s' : Vm) × (stores sts s ≡ some (tt, s'))
      × ((x y o : ℕ) → y ≢ 0x7FF → view s' x y o ≡ alone x sts (view s x) y o)
stores-alone [] s h can room r = (s, refl, λ x y o ne. refl)
stores-alone (st ∷ sts) s h can room r =
    let (s₁, e₁, d) =
      user_store-Stored st.env st.pn st.off st.v s h can.0.0 can.0.2 can.0.1 (omega (arith, room))
        r in
    let (s', e', seen) =
      stores-alone sts s₁ d.kept_private
        (All-map
          (λ st' (c : CanStore s st').
            (d.kept_writable st'.env st'.pn c.1 c.0, c.1, d.kept_armed st'.env c.2))
          sts can.1)
        (omega (arith, room, d.spares))
        (λ x y. ap (λ (f : ℕ → ℕ → Bool). f x y) d.refuses ∙ r x y) in
    (
      s',
      stores-step st sts s s₁ s' e₁ e',
      λ x y o ne. seen x y o ne ∙ alone-same x sts (view s₁ x) _ y (λ o'. d.views x y o' ne) o,
    )
