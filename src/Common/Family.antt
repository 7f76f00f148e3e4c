-- ===== src/Common/Family.antt =====
-- C arrays whose bounds are checked elsewhere, as functions of the index, with point updates.
use Prim.Native.Nat.{ℕ}
use mathlib.Core.Path.{◌≡◌, fun_ext}
use mathlib.Core.Logic.{◌≢◌, inl, inr}
use native.Mathlib.Omega.{arith}
use sistemas_operativos_2c.Common.Tests.{◌==◌, if◌then◌else◌, Bool-cases, ==-refl}

module _ {ℓ} {A : Type ℓ} where
  abbrev pub update : (ℕ → A) → ℕ → A → ℕ → A
  update f i a j = if i == j then a else f j

  pub update_self : (f : ℕ → A) (i : ℕ) (a : A) → update f i a i ≡ a
  update_self f i a = ground arith

  pub update_ne : (f : ℕ → A) (i : ℕ) (a : A) (j : ℕ) → i ≢ j → update f i a j ≡ f j
  update_ne f i a j ne = ground arith

-- Two writes to one cell of a table of tables: the second one counts.
pub update_cell_twice {ℓ} :
    {A : Type ℓ} (f : ℕ → ℕ → A) (t i : ℕ) (a b : A)
    → update (update f t (update (f t) i a)) t (update (update f t (update (f t) i a) t) i b)
      ≡ update f t (update (f t) i b)
update_cell_twice f t i a b = fun_ext λ x. elim (Bool-cases (t == x)) [
  | inl e ↦ rw (e, ==-refl t) (fun_ext λ y. ground arith)
  | inr e ↦ rw e
]
