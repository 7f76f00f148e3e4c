-- ===== src/Descriptor/Alloc.antt =====
-- fd_alloc of tp-parte4/lib/fd.c: the first descriptor that is not mapped.
use sistemas_operativos_2c.Common.{ℕ, zero, suc, ◌+◌, ◌<◌, ◌≤◌, ◌≡◌, refl, true, none, arith}
use native.Mathlib.Decide.{ℕ_discrete}
use sistemas_operativos_2c.Errors.{ok}
use sistemas_operativos_2c.Descriptor.{Program, index2fd, is_mapped, fd_alloc_from, fd_alloc}

module _ {W : Type 0} where
  fd_alloc_from-first :
      (rounds fdnum i : ℕ) (s : Program W)
      → ((j : ℕ) → j < fdnum → is_mapped (s.mapped (index2fd j)) ≡ true)
      → s.mapped (index2fd fdnum) ≡ none
      → i ≤ fdnum
      → fdnum < i + rounds
      → fd_alloc_from rounds i s ≡ (ok (index2fd fdnum), s)
  unfolding fd_alloc_from
  fd_alloc_from-first zero fdnum i s busy free l u = absurd (omega arith)
  fd_alloc_from-first (suc rounds) fdnum i s busy free l u = elim (ℕ_discrete i fdnum) [
    | yes e ↦ rw (e, free) refl
    | no ne ↦
        rw (busy i (omega arith))
          (fd_alloc_from-first rounds fdnum (i + 1) s busy free (omega arith) (omega arith))
  ]

  pub fd_alloc-first :
      (fdnum : ℕ) (s : Program W)
      → ((j : ℕ) → j < fdnum → is_mapped (s.mapped (index2fd j)) ≡ true)
      → s.mapped (index2fd fdnum) ≡ none
      → fdnum < 32
      → fd_alloc s ≡ (ok (index2fd fdnum), s)
  unfolding fd_alloc
  fd_alloc-first fdnum s busy free h =
      fd_alloc_from-first 32 fdnum 0 s busy free (omega arith) (omega arith)
