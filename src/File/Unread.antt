-- ===== src/File/Unread.antt =====
-- The bytes of a file from a position on, as a list that is taken from.
use sistemas_operativos_2c.Common.{
  ℕ, zero, suc, ◌+◌, ◌-◌, ◌≤◌, ◌≡◌, refl, ap, sym, ◌∙◌, min, ◌∷◌, length, take, drop, arith,
}
use native.Mathlib.Decide.{ℕ_discrete}
use sistemas_operativos_2c.Fs.Content.Layout.{bytes_from}
use sistemas_operativos_2c.Fs.Content.Refinement.{Contents}
use sistemas_operativos_2c.Fs.Server.Requests.{length-bytes_from}

pub take-bytes_from :
    (g : ℕ → ℕ) (pos k r : ℕ) → k ≤ r → take k (bytes_from g pos r) ≡ bytes_from g pos k
take-bytes_from g pos zero r h = refl
take-bytes_from g pos (suc k) zero h = absurd (omega arith)
take-bytes_from g pos (suc k) (suc r) h =
    ap (λ l. g pos ∷ l) (take-bytes_from g (pos + 1) k r (omega arith))

take-all : (g : ℕ → ℕ) (pos k r : ℕ) → r ≤ k → take k (bytes_from g pos r) ≡ bytes_from g pos r
take-all g pos zero zero h = refl
take-all g pos (suc k) zero h = refl
take-all g pos zero (suc r) h = absurd (omega arith)
take-all g pos (suc k) (suc r) h = ap (λ l. g pos ∷ l) (take-all g (pos + 1) k r (omega arith))

pub take-min : (g : ℕ → ℕ) (pos k r : ℕ) → take k (bytes_from g pos r) ≡ bytes_from g pos (min k r)
take-min g pos k r = elim (ℕ_discrete (min k r) k) [
  | yes e ↦ take-bytes_from g pos k r (omega (arith, e)) ∙ ap (bytes_from g pos) (sym e)
  | no ne ↦
      let e : min k r ≡ r = omega arith in
      take-all g pos k r (omega (arith, ne)) ∙ ap (bytes_from g pos) (sym e)
]

pub drop-bytes_from :
    (g : ℕ → ℕ) (pos k r : ℕ) → drop k (bytes_from g pos r) ≡ bytes_from g (pos + k) (r - k)
drop-bytes_from g pos zero r =
    let e : pos + 0 ≡ pos = omega arith in let e' : r - 0 ≡ r = omega arith in rw (e, e') refl
drop-bytes_from g pos (suc k) zero = let e : 0 - suc k ≡ 0 = omega arith in rw e refl
drop-bytes_from g pos (suc k) (suc r) =
    let e : pos + suc k ≡ pos + 1 + k = omega arith in
    let e' : suc r - suc k ≡ r - k = omega arith in rw (e, e') (drop-bytes_from g (pos + 1) k r)

pub left-position :
    (c : Contents) (count pos pos' : ℕ)
    → pos ≤ c.size
    → pos' ≤ c.size
    → bytes_from c.byte pos' (c.size - pos') ≡ drop count (bytes_from c.byte pos (c.size - pos))
    → pos' ≡ pos + min count (c.size - pos)
left-position c count pos pos' h h' e =
    let lens : c.size - pos' ≡ c.size - pos - count =
      sym (length-bytes_from c.byte pos' (c.size - pos'))
      ∙ ap length (e ∙ drop-bytes_from c.byte pos count (c.size - pos))
      ∙ length-bytes_from c.byte (pos + count) (c.size - pos - count) in
    omega (arith, lens, h, h')
