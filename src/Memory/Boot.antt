-- ===== src/Memory/Boot.antt =====
-- tp-parte4/kern/pmap.c before the page allocator runs: boot_alloc and page_init, and the mappings made
-- by boot_map_region and mmio_map_region (without TP1_PSE, which the build leaves undefined).
pub mod FreePages
mod Tests
use sistemas_operativos_2c.Common.{
  ℕ, zero, suc, ◌+◌, ◌-◌, ◌*◌, ◌%◌, ◌^◌, Bool, true, false, ◌&&◌, ◌||◌, not, Option, none, some,
  bit_or, update, ltb, ◌==◌, if◌then◌else◌,
}
use sistemas_operativos_2c.Layout.{kernbase, mmiobase, mmiolim}
use sistemas_operativos_2c.Memory.{
  Mem, M, pure, ◌>>=◌, ◌>>◌, pgnum, pte_p, pte_w, pgdir_walk, store,
}

abbrev roundup_page : ℕ → ℕ
roundup_page a = let b = (a + 4095) % 2 ^ 32 in b - b % 4096

-- `end` is the linker's; the static `nextfree` goes in and comes out, `none` before the first call.
abbrev pub first_free : (end : ℕ) → Option ℕ → ℕ
first_free end none = roundup_page end
first_free end (some a) = a

pub boot_alloc : (end npages n : ℕ) → Option ℕ → Option (ℕ × Option ℕ)
boot_alloc end npages n nextfree =
    let result = first_free end nextfree in
    let next_va_free = roundup_page ((result + n) % 2 ^ 32) in
    if n == 0
    then some (result, some result)
    else if ltb next_va_free kernbase
    then none
    else if ltb (4096 * npages % 2 ^ 32) (next_va_free - kernbase)
    then none
    else some (result, some next_va_free)

abbrev pub mpentry_paddr : ℕ
mpentry_paddr = 0x7000

abbrev pub iophysmem : ℕ
iophysmem = 0x0A0000

-- `i < PGNUM(IOPHYSMEM) || page_number < i`, but not the page of MPENTRY_PADDR.
abbrev pub is_usable : (page_number i : ℕ) → Bool
is_usable page_number i =
    not (i == pgnum mpentry_paddr) && (ltb i (pgnum iophysmem) || ltb page_number i)

-- The loop of page_init, with `rounds` pages left from `i` on.
pub init_pages : (page_number : ℕ) → ℕ → ℕ → Mem → Mem
init_pages page_number zero i m = m
init_pages page_number (suc rounds) i m = init_pages page_number rounds (i + 1) (
    if is_usable page_number i
    then record m {
      pp_ref = update m.pp_ref i 0;
      pp_link = update m.pp_link i m.page_free_list;
      page_free_list = some i;
    }
    else m)

-- `first_free_va` is what boot_alloc(0) gives, which PADDR must accept.
pub page_init : (first_free_va : ℕ) → M (Unit {0})
unfolding init_pages
page_init first_free_va m =
    if ltb first_free_va kernbase
    then none
    else some (tt, init_pages (pgnum (first_free_va - kernbase)) (m.npages - 1) 1 m)

-- The loop of boot_map_region, a page a turn; it stops where there is no page for a table.
pub map_pages : (pgdir rounds va pa perm : ℕ) → M (Unit {0})
map_pages pgdir zero va pa perm = pure tt
map_pages pgdir (suc rounds) va pa perm = do
  pt_entry ← pgdir_walk pgdir va true
  elim pt_entry [
    | none ↦ pure tt
    | some p ↦ do
      store p (bit_or (bit_or pa perm) pte_p)
      map_pages pgdir rounds ((va + 4096) % 2 ^ 32) ((pa + 4096) % 2 ^ 32) perm
  ]

pub boot_map_region : (pgdir va size pa perm : ℕ) → M (Unit {0})
boot_map_region pgdir va size pa perm m =
    if not (size % 4096 == 0) then none else map_pages pgdir (pgnum size) va pa perm m

-- PTE_PCD | PTE_PWT | PTE_W
abbrev pub mmio_perm : ℕ
mmio_perm = bit_or (bit_or 0x010 0x008) pte_w

-- The static `base` goes in and comes out.
pub mmio_map_region : (kern_pgdir pa size base : ℕ) → M (ℕ × ℕ)
mmio_map_region kern_pgdir pa size base m =
    let round_size = roundup_page size in
    if ltb mmiolim ((base + round_size) % 2 ^ 32)
    then none
    else (do
      boot_map_region kern_pgdir base round_size pa mmio_perm
      pure (base, (base + round_size) % 2 ^ 32))
        m
