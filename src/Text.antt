-- ===== src/Text.antt =====
-- tp-parte4/lib/string.c. A `char *` is the list of the bytes from it to the end of its object, so
-- that `none` is an access outside the object; two pointers are into different objects.
pub mod Strings
pub mod Compare
pub mod Move
pub mod Numbers
mod Tests
use sistemas_operativos_2c.Common.{
  ℕ, zero, suc, ◌+◌, ◌-◌, ◌*◌, ◌/◌, ◌%◌, ◌^◌, Bool, true, false, ◌&&◌, ◌||◌, not, Option, none,
  some, List, [], ◌∷◌, ◌++◌, ltb, leb, ◌==◌, if◌then◌else◌, map_option,
}

-- The counter is an int; a string is shorter than its object.
pub strlen_from : ℕ → List ℕ → Option ℕ
strlen_from n [] = none
strlen_from n (c ∷ s) = let rest = strlen_from (n + 1) s in if c == 0 then some n else rest

pub strlen : List ℕ → Option ℕ
unfolding strlen_from
strlen s = strlen_from 0 s

pub strnlen_from : ℕ → List ℕ → ℕ → Option ℕ
strnlen_from n s zero = some n
strnlen_from n [] (suc size) = none
strnlen_from n (c ∷ s) (suc size) =
    let rest = strnlen_from (n + 1) s size in if c == 0 then some n else rest

pub strnlen : List ℕ → ℕ → Option ℕ
unfolding strnlen_from
strnlen s size = strnlen_from 0 s size

-- The object of `dst` after the call.
unfoldable pub strcpy : List ℕ → List ℕ → Option (List ℕ)
strcpy dst [] = none
strcpy [] (c ∷ src) = none
strcpy (d ∷ dst) (c ∷ src) =
    let rest = strcpy dst src in if c == 0 then some (0 ∷ dst) else map_option (λ r. c ∷ r) rest

-- `strcpy(dst + len, src)`
pub strcpy_at : ℕ → List ℕ → List ℕ → Option (List ℕ)
strcpy_at zero dst src = strcpy dst src
strcpy_at (suc len) [] src = none
strcpy_at (suc len) (d ∷ dst) src = map_option (λ r. d ∷ r) (strcpy_at len dst src)

pub strcat : List ℕ → List ℕ → Option (List ℕ)
unfolding strlen strcpy strcpy_at
strcat dst src = elim (strlen dst) [ none ↦ none | some len ↦ strcpy_at len dst src ]

-- At the end of the source the pointer stays, so the rest is filled with zeros.
pub strncpy : List ℕ → List ℕ → ℕ → Option (List ℕ)
strncpy dst src zero = some dst
strncpy [] src (suc size) = none
strncpy (d ∷ dst) [] (suc size) = none
strncpy (d ∷ dst) (c ∷ src) (suc size) =
    map_option (λ r. c ∷ r) (strncpy dst (if c == 0 then c ∷ src else src) size)

-- The loop of strlcpy, with `room` bytes left before the terminator; `n` counts what was copied.
pub strlcpy_loop : ℕ → List ℕ → List ℕ → ℕ → Option (ℕ × List ℕ)
strlcpy_loop n [] src room = none
strlcpy_loop n (d ∷ dst) src zero = some (n, 0 ∷ dst)
strlcpy_loop n (d ∷ dst) [] (suc room) = none
strlcpy_loop n (d ∷ dst) (c ∷ src) (suc room) =
    let rest = strlcpy_loop (n + 1) dst src room in
    if c == 0 then some (n, 0 ∷ dst) else map_option (λ (r : ℕ × List ℕ). (r.0, c ∷ r.1)) rest

-- The result, and the object of `dst` after the call.
pub strlcpy : List ℕ → List ℕ → ℕ → Option (ℕ × List ℕ)
unfolding strlcpy_loop
strlcpy dst src zero = some (0, dst)
strlcpy dst src (suc size) = strlcpy_loop 0 dst src size

-- The difference of two unsigned chars, as an int: its sign and its size.
pub data Diff : Type 0 where
  above : ℕ → Diff
  below : ℕ → Diff

-- p - q; `below n` is -(n + 1).
abbrev pub diff : ℕ → ℕ → Diff
diff p q = if leb q p then above (p - q) else below (q - p - 1)

-- Is the difference 0?
abbrev pub is_zero : Diff → Bool
is_zero (above n) = n == 0
is_zero (below n) = false

pub strcmp : List ℕ → List ℕ → Option Diff
strcmp [] q = none
strcmp (a ∷ p) [] = none
strcmp (a ∷ p) (b ∷ q) =
    let rest = strcmp p q in if not (a == 0) && a == b then rest else some (diff a b)

pub strncmp : List ℕ → List ℕ → ℕ → Option Diff
strncmp p q zero = some (above 0)
strncmp [] q (suc n) = none
strncmp (a ∷ p) [] (suc n) = none
strncmp (a ∷ p) (b ∷ q) (suc n) =
    let rest = strncmp p q n in if not (a == 0) && a == b then rest else some (diff a b)

-- The inner option is the pointer returned, `none` for NULL.
pub strchr : List ℕ → ℕ → Option (Option (List ℕ))
strchr [] c = none
strchr (a ∷ s) c =
    let rest = strchr s c in
    if a == 0 then some none else if a == c then some (some (a ∷ s)) else rest

pub strfind : List ℕ → ℕ → Option (List ℕ)
strfind [] c = none
strfind (a ∷ s) c = let rest = strfind s c in if a == 0 || a == c then some (a ∷ s) else rest

pub memcmp : List ℕ → List ℕ → ℕ → Option Diff
memcmp p q zero = some (above 0)
memcmp [] q (suc n) = none
memcmp (a ∷ p) [] (suc n) = none
memcmp (a ∷ p) (b ∷ q) (suc n) =
    let rest = memcmp p q n in if not (a == b) then some (diff a b) else rest

-- `c` is an int, compared as an unsigned char.
pub memfind : List ℕ → ℕ → ℕ → Option (List ℕ)
memfind s c zero = some s
memfind [] c (suc n) = none
memfind (a ∷ s) c (suc n) = let rest = memfind s c n in if a == c % 256 then some (a ∷ s) else rest
