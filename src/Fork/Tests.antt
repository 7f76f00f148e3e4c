-- ===== src/Fork/Tests.antt =====
-- Environment 1 has two pages that it may write, 0 and 1; environment 2 is new.
use sistemas_operativos_2c.Common.{
  ℕ, zero, suc, ◌+◌, ◌<◌, ◌≤◌, ◌≡◌, ◌≢◌, inl, inr, refl, ap, sym, ◌∙◌, false, true, ◌&&◌, Option,
  none, some, List, [], ◌∷◌, All, ltb, ◌==◌, Bool-cases, arith, if◌then◌else◌,
}
use sistemas_operativos_2c.Common.Bits.{digit}
use sistemas_operativos_2c.Fork.{Vm, Mapping, fork}
use sistemas_operativos_2c.Fork.Private.{IsPrivate, view}
use sistemas_operativos_2c.Fork.Stores.{WritableAt, Write, stores, alone}
use sistemas_operativos_2c.Fork.Child.{MayStore}
use sistemas_operativos_2c.Fork.Isolation.{fork-stores}

abbrev vm : Vm
vm = record {
  pte = λ e pn. if e == 1 && ltb pn 2 then some (record { page = 100 + pn; perm = 7 }) else none;
  word = λ p i. p;
  spare = 200 ∷ 201 ∷ 202 ∷ 203 ∷ 204 ∷ [];
  refused = λ _ _. false;
  upcall = λ _. false;
  handler = λ _. false;
  runnable = λ _. false;
}

mapped_only :
    (e pn : ℕ) (m : Mapping)
    → vm.pte e pn ≡ some m
    → (e ≡ 1) × (pn < 2) × (m.page ≡ 100 + pn) × (m.perm ≡ 7)
mapped_only e pn m i = elim (Bool-cases (e == 1 && ltb pn 2)) [
  | inl there ↦
      let same : some (record { page = 100 + pn; perm = 7 }) ≡ some m = sym (rw there refl) ∙ i in
      (
        ground (arith, there),
        ground (arith, there),
        sym (ap (λ (t : Option Mapping). elim t [ none ↦ 0 | some k ↦ k.page ]) same),
        sym (ap (λ (t : Option Mapping). elim t [ none ↦ 0 | some k ↦ k.perm ]) same),
      )
  | inr not_there ↦ let gone : vm.pte e pn ≡ none = rw not_there refl in absurd (cc (gone, i))
]

vm-IsPrivate : IsPrivate vm
vm-IsPrivate = record {
  alone = λ e pn e' pn' m m' i i' same own.
      let (a, b, c, d) = mapped_only e pn m i in
      let (a', b', c', d') = mapped_only e' pn' m' i' in (omega arith, omega arith);
  unused = λ e pn m i. let (a, b, c, d) = mapped_only e pn m i in omega arith;
  different = omega arith;
}

-- The parent stores first, then the child, at the same address and at another one.
abbrev some_stores : List Write
some_stores =
    record { env = 1; pn = 0; off = 8; v = 11 }
    ∷ record { env = 2; pn = 0; off = 8; v = 22 }
    ∷ record { env = 2; pn = 1; off = 9; v = 33 }
    ∷ []

both_writable : (pn : ℕ) → pn < 2 → WritableAt vm 1 pn
both_writable zero h = record {
  mapping = record { page = 100; perm = 7 };
  mapped = refl;
  writable = (inl refl, refl);
  below = omega arith;
}
both_writable (suc zero) h = record {
  mapping = record { page = 101; perm = 7 };
  mapped = refl;
  writable = (inl refl, refl);
  below = omega arith;
}
both_writable (suc (suc pn)) h = absurd (omega arith)

some_stores-MayStore : All (MayStore 1 2 vm) some_stores
some_stores-MayStore = (
  (inl refl, both_writable 0 (omega arith), (λ e. omega (arith, e)), λ e. omega (arith, e)),
  (
    (inr refl, both_writable 0 (omega arith), (λ e. omega (arith, e)), λ e. omega (arith, e)),
    ((inr refl, both_writable 1 (omega arith), (λ e. omega (arith, e)), λ e. omega (arith, e)), tt),
  ),
)

vm-AreUser :
    (y : ℕ) (m : Mapping)
    → 0 ≤ y
    → vm.pte 1 y ≡ some m
    → (digit 0 m.perm ≡ 1) × (digit 2 m.perm ≡ 1)
vm-AreUser y m low i = let (a, b, c, d) = mapped_only 1 y m i in (ap (digit 0) d, ap (digit 2) d)

unset : vm.handler 1 ≢ true
unset h = ground (arith, h)

fork-stores_example :
    (s' : Vm) × (s'' : Vm) × (fork 1 2 vm ≡ some (2, s'))
    × (stores some_stores s' ≡ some (tt, s''))
    × (view s'' 1 0 8 ≡ alone 1 some_stores (view vm 1) 0 8)
    × (view s'' 2 0 8 ≡ alone 2 some_stores (view vm 1) 0 8)
fork-stores_example =
    fork-stores 1 2 vm vm-IsPrivate (omega arith) vm-AreUser (λ y. refl) (λ x y. refl)
      (λ h. absurd (unset h)) (omega arith) some_stores 0 8 some_stores-MayStore (omega arith)
      (omega arith) (omega arith) (omega arith)
