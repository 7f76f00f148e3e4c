-- ===== src/Text/Compare.antt =====
-- strcmp and strncmp of tp-parte4/lib/string.c.
use sistemas_operativos_2c.Common.{
  ℕ, ◌≡◌, ◌≢◌, ◌↔◌, refl, some, List, [], ◌∷◌, ◌++◌, arith, sym, ◌∙◌, true, false, ◌&&◌, not, ◌==◌,
  ℕ, Bool, Bool-cases, inl, inr, if◌then◌else◌, ◌<◌, length,
}
use native.Mathlib.Decide.{ℕ_discrete}
use sistemas_operativos_2c.Text.{Diff, above, diff, is_zero, strcmp}
use sistemas_operativos_2c.Text.Strings.{IsText}

diff_zero : (a b : ℕ) → diff a b ≡ above 0 → a ≡ b
diff_zero a b h = ground arith

same_head : (a : ℕ) → a ≢ 0 → (not (a == 0) && a == a) ≡ true
same_head a h = ground arith

other_head : (a b : ℕ) → a ≢ b → (not (a == 0) && a == b) ≡ false
other_head a b h = ground arith

strcmp_self : (s r q : List ℕ) → IsText s → strcmp (s ++ 0 ∷ r) (s ++ 0 ∷ q) ≡ some (above 0)
unfolding strcmp
strcmp_self [] r q t = refl
strcmp_self (c ∷ s) r q t = rw (same_head c t.0) (strcmp_self s r q t.1)

same-step :
    (a b : ℕ) (s t r q : List ℕ)
    → a ≢ 0
    → a ≡ b
    → strcmp (a ∷ (s ++ 0 ∷ r)) (b ∷ (t ++ 0 ∷ q)) ≡ strcmp (s ++ 0 ∷ r) (t ++ 0 ∷ q)
unfolding strcmp
same-step a b s t r q n e = rw (← e) (rw (same_head a n))

other-step :
    (a b : ℕ) (s t r q : List ℕ)
    → a ≢ b
    → strcmp (a ∷ (s ++ 0 ∷ r)) (b ∷ (t ++ 0 ∷ q)) ≡ some (diff a b)
unfolding strcmp
other-step a b s t r q n = rw (other_head a b n)

strcmp-same :
    (s t r q : List ℕ)
    → IsText s
    → IsText t
    → strcmp (s ++ 0 ∷ r) (t ++ 0 ∷ q) ≡ some (above 0)
    → s ≡ t
unfolding strcmp
strcmp-same [] [] r q is it h = refl
strcmp-same [] (b ∷ t) r q is it h = absurd (ground (arith, h, it.0))
strcmp-same (a ∷ s) [] r q is it h = absurd (ground (arith, h, is.0))
strcmp-same (a ∷ s) (b ∷ t) r q is it h = elim (ℕ_discrete a b) [
  | yes e ↦ cc (e, strcmp-same s t r q is.1 it.1 (sym (same-step a b s t r q is.0 e) ∙ h))
  | no ne ↦ absurd (ground (arith, h, ne, other-step a b s t r q ne))
]

-- strcmp of two strings is 0 exactly when their texts are the same.
pub strcmp-text :
    (s t r q : List ℕ)
    → IsText s
    → IsText t
    → (strcmp (s ++ 0 ∷ r) (t ++ 0 ∷ q) ≡ some (above 0)) ↔ (s ≡ t)
strcmp-text s t r q is it = (strcmp-same s t r q is it, λ e. rw (← e) (strcmp_self s r q is))

-- The text at the front of an object, which may fill it.
abbrev pub text_of : List ℕ → List ℕ
text_of [] = []
text_of (c ∷ l) = if c == 0 then [] else c ∷ text_of l

abbrev pub same : List ℕ → List ℕ → Bool
same [] [] = true
same [] (b ∷ t) = false
same (a ∷ s) [] = false
same (a ∷ s) (b ∷ t) = a == b && same s t

is_zero-diff : (a b : ℕ) → is_zero (diff a b) ≡ (a == b)
is_zero-diff a b = ground arith

-- strcmp of an object that is longer than the text decides whether the object's text is that one.
pub strcmp-within :
    (l t : List ℕ)
    → IsText t
    → length t < length l
    → (c : Diff) × (strcmp l (t ++ 0 ∷ []) ≡ some c) × (is_zero c ≡ same (text_of l) t)
unfolding strcmp
strcmp-within [] t it h = absurd (omega arith)
strcmp-within (a ∷ l) [] it h = (diff a 0, ground arith, ground (arith, is_zero-diff a 0))
strcmp-within (a ∷ l) (b ∷ t) it h = elim (Bool-cases (not (a == 0) && a == b)) [
  | inl go ↦
      let (c, e, z) = strcmp-within l t it.1 (omega arith) in (c, rw go e, z ∙ ground (arith, go))
  | inr stop ↦ (diff a b, rw stop refl, ground (arith, stop, is_zero-diff a b, it.0))
]
