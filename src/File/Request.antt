-- ===== src/File/Request.antt =====
-- What open of tp-parte4/lib/file.c writes to the page of its request, and the references to a page.
use sistemas_operativos_2c.Common.{
  ℕ, zero, suc, ◌+◌, ◌-◌, ◌^◌, ◌<◌, ◌≤◌, ◌≡◌, refl, ap, sym, ◌∙◌, Option, none, some, List, [], ◌∷◌,
  ◌++◌, length, arith, ==-refl, ==_ne, update, update_ne,
}
use native.Mathlib.Decide.{ℕ_discrete}
use sistemas_operativos_2c.Text.Strings.{IsText}
use sistemas_operativos_2c.Text.Compare.{text_of}
use sistemas_operativos_2c.Fs.Bytes.{byte_at}
use sistemas_operativos_2c.Fs.Content.Layout.{bytes_from}
use sistemas_operativos_2c.Fs.Server.Handlers.{int_at, put_bytes, put_int}
use sistemas_operativos_2c.File.{references, points_to}

text_of-bytes_from :
    (l : List ℕ) (g : ℕ → ℕ) (off n : ℕ)
    → IsText l
    → ((j : ℕ) → j < length l → g (off + j) ≡ byte_at l j)
    → length l ≤ n
    → (length l < n → g (off + length l) ≡ 0)
    → text_of (bytes_from g off n) ≡ l
text_of-bytes_from [] g off zero it h hn z = refl
text_of-bytes_from [] g off (suc n) it h hn z =
    let here : off + 0 ≡ off = omega arith in
    let zero_at : g off ≡ 0 = sym (ap g here) ∙ z (omega arith) in rw zero_at refl
text_of-bytes_from (v ∷ l) g off zero it h hn z = absurd (omega arith)
text_of-bytes_from (v ∷ l) g off (suc n) it h hn z =
    let here : off + 0 ≡ off = omega arith in
    let first : g off ≡ v = sym (ap g here) ∙ h 0 (omega arith) in
    let there : (j : ℕ) → off + 1 + j ≡ off + suc j = λ j. omega arith in
    rw (first, ==_ne v 0 it.0)
      (ap (λ t. v ∷ t)
        (text_of-bytes_from l g (off + 1) n it.1 (λ j hj. ap g (there j) ∙ h (suc j) (omega arith))
          (omega arith) (λ hl. ap g (there (length l)) ∙ z (omega arith))))

byte_at-front : (l r : List ℕ) (j : ℕ) → j < length l → byte_at (l ++ r) j ≡ byte_at l j
byte_at-front [] r j h = absurd (omega arith)
byte_at-front (v ∷ l) r zero h = refl
byte_at-front (v ∷ l) r (suc j) h = byte_at-front l r j (omega arith)

byte_at-end : (l r : List ℕ) (v : ℕ) → byte_at (l ++ v ∷ r) (length l) ≡ v
byte_at-end [] r v = refl
byte_at-end (w ∷ l) r v = byte_at-end l r v

length-end : (l : List ℕ) → length (l ++ 0 ∷ []) ≡ length l + 1
length-end [] = refl
length-end (v ∷ l) = let e = length-end l in omega (arith, e)

abbrev pub open_page : (path : List ℕ) (mode : ℕ) → (ℕ → ℕ) → ℕ → ℕ
open_page path mode g = put_int 1024 mode (put_bytes 0 (path ++ 0 ∷ []) g)

pub open_page-path :
    (path : List ℕ) (mode : ℕ) (g : ℕ → ℕ)
    → IsText path
    → length path < 1024
    → text_of (bytes_from (open_page path mode g) 0 1023) ≡ path
open_page-path path mode g it h =
    let l = path ++ 0 ∷ [] in
    let len = length-end path in
    let within : (j : ℕ)
        → j ≤ length path
        → j < 1024
        → open_page path mode g (0 + j) ≡ byte_at l j =
      λ j hj hp.
        let back : 0 + j - 0 ≡ j = omega arith in
        ground (arith, hj, hp, len, ap (byte_at l) back) in
    text_of-bytes_from path (open_page path mode g) 0 1023 it
      (λ j hj. within j (omega arith) (omega arith) ∙ byte_at-front path (0 ∷ []) j hj)
      (omega arith) (λ hl. within (length path) (omega arith) (omega arith) ∙ byte_at-end path [] 0)

pub open_page-mode :
    (path : List ℕ) (mode : ℕ) (g : ℕ → ℕ)
    → mode < 2 ^ 32
    → int_at (open_page path mode g) 1024 ≡ mode
open_page-mode path mode g h = omega arith

references-other :
    (pages va p : ℕ) (m : ℕ → Option ℕ)
    → pages ≤ va
    → references pages (update m va (some p)) p ≡ references pages m p
references-other zero va p m h = refl
references-other (suc pages) va p m h =
    rw (update_ne m va (some p) pages (λ e. omega (arith, e)))
      (ap (λ x. points_to p (m pages) + x) (references-other pages va p m (omega arith)))

-- A page that is mapped where there was none has one more reference.
pub references-mapped :
    (pages va p : ℕ) (m : ℕ → Option ℕ)
    → m va ≡ none
    → va < pages
    → references pages (update m va (some p)) p ≡ references pages m p + 1
references-mapped zero va p m e h = absurd (omega arith)
references-mapped (suc pages) va p m e h = elim (ℕ_discrete va pages) [
  | yes same ↦
      let rest = references-other pages va p m (omega (arith, same)) in
      let free : m pages ≡ none = sym (ap m same) ∙ e in
      rw (same, ==-refl pages, ==-refl p, free)
        (ap (λ x. 1 + x) (sym (ap (λ v. references pages (update m v (some p)) p) same) ∙ rest)
          ∙ omega arith)
  | no ne ↦ rw (update_ne m va (some p) pages ne) (
      ap (λ x. points_to p (m pages) + x) (references-mapped pages va p m e (omega arith))
      ∙ omega arith)
]
