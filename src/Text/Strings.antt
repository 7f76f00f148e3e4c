-- ===== src/Text/Strings.antt =====
-- strlen, strcpy, strcat and strlcpy of tp-parte4/lib/string.c on strings that end in a zero.
use sistemas_operativos_2c.Common.{
  ℕ, zero, suc, ◌+◌, ◌<◌, ◌≤◌, ◌≡◌, ◌≢◌, refl, none, some, List, [], ◌∷◌, ◌++◌, All, length, take,
  drop, arith, ==_ne, ap, ◌∙◌,
}
use native.Mathlib.Nat.{add-zero}
use sistemas_operativos_2c.Text.{
  strlen, strlen_from, strcpy, strcpy_at, strcat, strlcpy, strlcpy_loop,
}

-- The bytes of a string: none of them is the terminator.
abbrev pub IsText : List ℕ → Type 0
IsText s = All (λ c. c ≢ 0) s

strlen_from-text :
    (n : ℕ) (s r : List ℕ) → IsText s → strlen_from n (s ++ 0 ∷ r) ≡ some (n + length s)
unfolding strlen_from
strlen_from-text n [] r t = ground arith
strlen_from-text n (c ∷ s) r t = ground (arith, t.0, strlen_from-text (n + 1) s r t.1)

-- strlen counts the bytes before the terminator.
pub strlen-text : (s r : List ℕ) → IsText s → strlen (s ++ 0 ∷ r) ≡ some (length s)
unfolding strlen
strlen-text s r t = strlen_from-text 0 s r t ∙ ap some (omega arith)

-- Where the text and its terminator fit, strcpy writes them to the front of `dst` and leaves the
-- rest of it.
pub strcpy-text :
    (dst s r : List ℕ)
    → IsText s
    → length s < length dst
    → strcpy dst (s ++ 0 ∷ r) ≡ some (s ++ 0 ∷ drop (suc (length s)) dst)
unfolding strcpy
strcpy-text [] s r t h = absurd (omega arith)
strcpy-text (d ∷ dst) [] r t h = refl
strcpy-text (d ∷ dst) (c ∷ s) r t h =
    rw (==_ne c 0 t.0) (rw (strcpy-text dst s r t.1 (omega (arith, h))))

-- Where they do not fit, strcpy writes past the end of `dst`.
pub strcpy-overruns :
    (dst s r : List ℕ) → IsText s → length dst ≤ length s → strcpy dst (s ++ 0 ∷ r) ≡ none
unfolding strcpy
strcpy-overruns [] [] r t h = refl
strcpy-overruns [] (c ∷ s) r t h = refl
strcpy-overruns (d ∷ dst) [] r t h = absurd (omega arith)
strcpy-overruns (d ∷ dst) (c ∷ s) r t h =
    rw (==_ne c 0 t.0) (rw (strcpy-overruns dst s r t.1 (omega (arith, h))))

strlcpy_loop-text :
    (n : ℕ) (dst s r : List ℕ) (room : ℕ)
    → IsText s
    → length (take room s) < length dst
    → strlcpy_loop n dst (s ++ 0 ∷ r) room
      ≡ some (n + length (take room s), take room s ++ 0 ∷ drop (suc (length (take room s))) dst)
unfolding strlcpy_loop
strlcpy_loop-text n [] s r room t h = absurd (omega arith)
strlcpy_loop-text n (d ∷ dst) [] r zero t h = rw add-zero
strlcpy_loop-text n (d ∷ dst) (c ∷ s) r zero t h = rw add-zero
strlcpy_loop-text n (d ∷ dst) [] r (suc room) t h = rw add-zero
strlcpy_loop-text n (d ∷ dst) (c ∷ s) r (suc room) t h = rw (==_ne c 0 t.0) (
    rw (strlcpy_loop-text (n + 1) dst s r room t.1 (omega (arith, h))) (
      ap (λ (x : ℕ). some (x, (c ∷ take room s) ++ 0 ∷ drop (suc (length (take room s))) dst))
        (omega arith)))

-- Where the copied text and the terminator fit, strlcpy copies as much of the text as goes into
-- size - 1 bytes, always terminates it, leaves the rest of `dst`, and returns the number of bytes
-- copied.
pub strlcpy-text :
    (dst s r : List ℕ) (size : ℕ)
    → IsText s
    → length (take size s) < length dst
    → strlcpy dst (s ++ 0 ∷ r) (suc size)
      ≡ some (length (take size s), take size s ++ 0 ∷ drop (suc (length (take size s))) dst)
unfolding strlcpy
strlcpy-text dst s r size t h =
    strlcpy_loop-text 0 dst s r size t h
    ∙ ap (λ (x : ℕ). some (x, take size s ++ 0 ∷ drop (suc (length (take size s))) dst))
        (omega arith)

strcpy_at-text :
    (front dst s r : List ℕ)
    → IsText s
    → length s < length dst
    → strcpy_at (length front) (front ++ dst) (s ++ 0 ∷ r)
      ≡ some (front ++ (s ++ 0 ∷ drop (suc (length s)) dst))
unfolding strcpy_at
strcpy_at-text [] dst s r t h = strcpy-text dst s r t h
strcpy_at-text (d ∷ front) dst s r t h = rw (strcpy_at-text front dst s r t h)

-- strcat puts the second text where the terminator of the first one was.
pub strcat-text :
    (a s dst r : List ℕ)
    → IsText a
    → IsText s
    → length s ≤ length dst
    → strcat (a ++ 0 ∷ dst) (s ++ 0 ∷ r) ≡ some (a ++ (s ++ 0 ∷ drop (length s) dst))
unfolding strcat
strcat-text a s dst r ta ts h =
    rw (strlen-text a dst ta, strcat) (strcpy_at-text a (0 ∷ dst) s r ts (omega (arith, h)))
