-- ===== src/Memory/Boot/FreePages.antt =====
-- Which pages boot_alloc and page_init of tp-parte4/kern/pmap.c give out.
use sistemas_operativos_2c.Common.{
  ℕ, Bool, ltb, leb, ◌||◌, zero, suc, ◌+◌, ◌-◌, ◌*◌, ◌%◌, ◌^◌, ◌<◌, ◌≤◌, ◌≡◌, ◌≢◌, true, false,
  Option, none, some, List, [], ◌∷◌, All, not, ◌&&◌, ltb_ge, update, update_ne, update_self,
  if◌then◌else◌, Bool-cases, inl, inr, arith, ◌==◌, subst, ap, sym, ◌∙◌,
}
use sistemas_operativos_2c.Layout.{kernbase}
use sistemas_operativos_2c.Memory.{Mem, pgnum}
use sistemas_operativos_2c.Memory.FreeList.{HasFree, pushed, pushed-HasFree}
use sistemas_operativos_2c.Memory.Boot.{boot_alloc, is_usable, init_pages, page_init, first_free}

-- Two blocks that boot_alloc gives in a row, the first one not empty, where neither their ends nor
-- the rounding of them wraps: the second one starts on a page, at or after the end of the first one and not
-- below KERNBASE, and ends inside the physical memory mapped from there.
pub boot_alloc-apart :
    (end npages n k a b : ℕ) (s s' s'' : Option ℕ)
    → n ≢ 0
    → first_free end s + n + 4095 < 2 ^ 32
    → b + k + 4095 < 2 ^ 32
    → boot_alloc end npages n s ≡ some (a, s')
    → boot_alloc end npages k s' ≡ some (b, s'')
    → (a + n ≤ b) × (b % 4096 ≡ 0) × (kernbase ≤ b) × (b + k ≤ kernbase + 4096 * npages % 2 ^ 32)
unfolding boot_alloc
boot_alloc-apart end npages n k a b s s' s'' some_bytes fits fits' first second =
    ground (arith, some_bytes, fits, fits', first, second)

-- Page 0 is the BIOS's, page 7 the one of MPENTRY_PADDR, the hole for I/O begins at page 160 and the
-- kernel and what boot_alloc gave are in use from there on: `page_number` is the first page after them.
abbrev pub is_free_page : (page_number n : ℕ) → Bool
is_free_page page_number n = not (n == 0 || n == 7) && (ltb n 160 || leb page_number n)

-- Free, and not the first page after what boot_alloc gave.
abbrev pub is_listed : (page_number n : ℕ) → Bool
is_listed page_number n = is_free_page page_number n && not (n == page_number)

-- These pages below a number, the last one first.
abbrev pub usable_below : (page_number n : ℕ) → List ℕ
usable_below page_number zero = []
usable_below page_number (suc n) =
    let rest = usable_below page_number n in if is_listed page_number n then n ∷ rest else rest

is_usable-is_listed :
    (page_number n : ℕ)
    → 160 ≤ page_number
    → n ≢ 0
    → is_listed page_number n ≡ is_usable page_number n
is_usable-is_listed page_number n high pos = ground (arith, high, pos)

usable_below-apart : (page_number n k : ℕ) → n ≤ k → All (λ q. k ≢ q) (usable_below page_number n)
usable_below-apart page_number zero k h = tt
usable_below-apart page_number (suc n) k h = elim (Bool-cases (is_listed page_number n)) [
  | inl e ↦ rw e (omega (arith, h), usable_below-apart page_number n k (omega (arith, h)))
  | inr e ↦ rw e (usable_below-apart page_number n k (omega (arith, h)))
]

still_unreferenced :
    (ref : ℕ → ℕ) (i : ℕ) (l : List ℕ)
    → All (λ q. i ≢ q) l
    → All (λ q. ref q ≡ 0) l
    → All (λ q. update ref i 0 q ≡ 0) l
still_unreferenced ref i [] apart zeros = tt
still_unreferenced ref i (q ∷ l) apart zeros =
    (update_ne ref i 0 q apart.0 ∙ zeros.0, still_unreferenced ref i l apart.1 zeros.1)

init_pages-HasFree :
    (page_number rounds i : ℕ) (m : Mem)
    → 160 ≤ page_number
    → i ≢ 0
    → i + rounds ≤ m.npages
    → HasFree m (usable_below page_number i)
    → HasFree (init_pages page_number rounds i m) (usable_below page_number (i + rounds))
unfolding init_pages
init_pages-HasFree page_number zero i m high pos inside f =
    let same : i ≡ i + 0 = omega arith in subst (λ n. HasFree m (usable_below page_number n)) same f
init_pages-HasFree page_number (suc rounds) i m high pos inside f =
    elim (Bool-cases (is_usable page_number i)) [
      | inl e ↦
          subst
            (λ n. HasFree (init_pages page_number (suc rounds) i m) (usable_below page_number n))
            shift
            (rw e (
              init_pages-HasFree page_number rounds (i + 1) (pushed i cleared) high (omega arith)
                (omega (arith, inside)) (subst (HasFree (pushed i cleared)) (taken_in e) added)))
      | inr e ↦
          subst
            (λ n. HasFree (init_pages page_number (suc rounds) i m) (usable_below page_number n))
            shift
            (rw e (
              init_pages-HasFree page_number rounds (i + 1) m high (omega arith)
                (omega (arith, inside)) (subst (HasFree m) (left_out e) f)))
    ]
  where
    shift : i + 1 + rounds ≡ i + suc rounds
    shift = omega arith

    l : List ℕ
    l = usable_below page_number i

    cleared : Mem
    cleared = record m { pp_ref = update m.pp_ref i 0 }

    apart : All (λ q. i ≢ q) l
    apart = usable_below-apart page_number i i (omega arith)

    added : HasFree (pushed i cleared) (i ∷ l)
    added =
        pushed-HasFree i l
          (record {
            chain = f.chain;
            distinct = f.distinct;
            unreferenced = still_unreferenced m.pp_ref i l apart f.unreferenced;
            exists = f.exists;
            addressable = f.addressable;
          })
          apart (omega (arith, inside)) (update_self m.pp_ref i 0)

    follows : i + 1 ≡ suc i
    follows = omega arith

    step : usable_below page_number (i + 1) ≡ (if is_listed page_number i then i ∷ l else l)
    step = ap (usable_below page_number) follows

    taken_in : is_usable page_number i ≡ true → i ∷ l ≡ usable_below page_number (i + 1)
    taken_in e = sym (step ∙ rw (is_usable-is_listed page_number i high pos, e))

    left_out : is_usable page_number i ≡ false → l ≡ usable_below page_number (i + 1)
    left_out e = sym (step ∙ rw (is_usable-is_listed page_number i high pos, e))

-- From an empty free list, on a machine with 1 to 2 ^ 20 pages and with the end of what boot_alloc gave above the first
-- megabyte, page_init puts the free pages of the machine on it, each once and with no reference, the last one first, but
-- leaves off the first page after what boot_alloc gave, which is free too.
pub page_init-HasFree :
    (first_free_va : ℕ) (m : Mem)
    → kernbase + 0x100000 ≤ first_free_va
    → 1 ≤ m.npages
    → m.npages ≤ 2 ^ 20
    → m.page_free_list ≡ none
    → (m' : Mem) × (page_init first_free_va m ≡ some (tt, m'))
      × HasFree m' (usable_below (pgnum (first_free_va - kernbase)) m.npages)
unfolding page_init
page_init-HasFree first_free_va m above some_pages small no_list = (
  init_pages (pgnum (first_free_va - kernbase)) (m.npages - 1) 1 m,
  rw (ltb_ge first_free_va kernbase (omega (arith, above))),
  subst
      (λ n.
        HasFree (init_pages (pgnum (first_free_va - kernbase)) (m.npages - 1) 1 m)
          (usable_below (pgnum (first_free_va - kernbase)) n))
      whole
      (init_pages-HasFree (pgnum (first_free_va - kernbase)) (m.npages - 1) 1 m
        (omega (arith, above)) (omega arith) (omega (arith, some_pages))
        (record {
          chain = no_list;
          distinct = tt;
          unreferenced = tt;
          exists = tt;
          addressable = small;
        })),
)
  where
    whole : 1 + (m.npages - 1) ≡ m.npages
    whole = omega (arith, some_pages)
