-- ===== src/Memory.antt =====
-- The allocator and the page-table functions of tp-parte4/kern/pmap.c, and the macros of
-- inc/mmu.h and kern/pmap.h that they use. A panic is `none`.
-- A page directory, a page table and a `struct PageInfo *` are all named by a page number.
pub mod FreeList
pub mod DoubleFree
pub mod Walk
pub mod Remove
pub mod Insert
pub mod Fresh
pub mod Boot
pub mod Tests
use sistemas_operativos_2c.Common.{
  ℕ, ◌+◌, ◌*◌, ◌/◌, ◌%◌, ◌^◌, Bool, true, false, ◌||◌, not, Option, none, some, List, ◌∷◌, bit_and,
  bit_or, update, ltb, ◌==◌, if◌then◌else◌,
}
use sistemas_operativos_2c.Errors.{no_mem, Outcome, ok, err}

-- `pages`, `npages`, `page_free_list`, the words of every physical page, and the addresses that
-- `invlpg` was called on. `pp_link` holds a page number for the pointer.
pub record Mem : Type 0 where
  pub npages : ℕ
  pub pp_ref : ℕ → ℕ
  pub pp_link : ℕ → Option ℕ
  pub page_free_list : Option ℕ
  pub word : ℕ → ℕ → ℕ
  pub flushed : List ℕ

-- Code that may panic and that changes the memory.
abbrev pub M : Type 0 → Type 0
M A = Mem → Option (A × Mem)

abbrev pub pure : {A : Type 0} → A → M A
pure a m = some (a, m)

abbrev pub panic : {A : Type 0} → M A
panic m = none

infixl 5 ◌>>=◌ ◌>>◌
abbrev pub ◌>>=◌ : {A B : Type 0} → M A → (A → M B) → M B
◌>>=◌ c f m = elim (c m) [ none ↦ none | some (a, m') ↦ f a m' ]

abbrev pub ◌>>◌ : {B : Type 0} → M (Unit {0}) → M B → M B
c >> k = c >>= λ _. k

abbrev pub pgsize : ℕ
pgsize = 4096

abbrev pub pgnum : ℕ → ℕ
pgnum la = la / 2 ^ 12

abbrev pub pdx : ℕ → ℕ
pdx la = la / 2 ^ 22 % 1024

abbrev pub ptx : ℕ → ℕ
ptx la = la / 2 ^ 12 % 1024

-- `pte & ~0xFFF`
abbrev pub pte_addr : ℕ → ℕ
pte_addr pte = pte / 4096 * 4096

abbrev pub pte_p : ℕ
pte_p = 0x001

abbrev pub pte_w : ℕ
pte_w = 0x002

abbrev pub pte_u : ℕ
pte_u = 0x004

-- `(pp - pages) << PGSHIFT`, a uint32_t
abbrev pub page2pa : ℕ → ℕ
page2pa pp = pp * 2 ^ 12 % 2 ^ 32

-- `KADDR`: the page that a page-aligned physical address names, where the machine has it.
pub kaddr : ℕ → M ℕ
kaddr pa m = if ltb (pgnum pa) m.npages then some (pgnum pa, m) else none

pub pa2page : ℕ → M ℕ
pa2page pa m = if ltb (pgnum pa) m.npages then some (pgnum pa, m) else none

-- A read and a write through a pointer to word `i` of page `t`.
unfoldable pub load : ℕ × ℕ → M ℕ
load (t, i) m = some (m.word t i, m)

unfoldable pub store : ℕ × ℕ → ℕ → M (Unit {0})
store (t, i) w m = some (tt, record m { word = update m.word t (update (m.word t) i w) })

pub memset_page : ℕ → M (Unit {0})
memset_page t m = some (tt, record m { word = update m.word t (λ _. 0) })

-- `ALLOC_ZERO` is bit 0 of the flags.
pub page_alloc : ℕ → M (Option ℕ)
unfolding memset_page
page_alloc alloc_flags m = elim m.page_free_list [
  | none ↦ some (none, m)
  | some pp ↦
      let taken = record m { page_free_list = m.pp_link pp; pp_link = update m.pp_link pp none } in
      if bit_and alloc_flags 1 == 0
      then some (some pp, taken)
      else (do kva ← kaddr (page2pa pp); memset_page kva; pure (some pp)) taken
]

abbrev pub is_null : Option ℕ → Bool
is_null none = true
is_null (some p) = false

pub page_free : ℕ → M (Unit {0})
page_free pp m =
    if not (m.pp_ref pp == 0) || not (is_null (m.pp_link pp)) then none else elim m.page_free_list [
      | none ↦ some (tt, record m { page_free_list = some pp })
      | some q ↦
          some (tt, record m { pp_link = update m.pp_link pp (some q); page_free_list = some pp })
    ]

-- `pp_ref` is a uint16_t.
pub page_incref : ℕ → M (Unit {0})
page_incref pp m = some (tt, record m { pp_ref = update m.pp_ref pp ((m.pp_ref pp + 1) % 2 ^ 16) })

pub page_decref : ℕ → M (Unit {0})
page_decref pp m =
    let r = (m.pp_ref pp + 65535) % 2 ^ 16 in
    let m' = record m { pp_ref = update m.pp_ref pp r } in
    if r == 0 then page_free pp m' else some (tt, m')

pub pgdir_walk : ℕ → ℕ → Bool → M (Option (ℕ × ℕ))
pgdir_walk pgdir va create = do
  pgdir_entry ← load (pgdir, pdx va)
  if not (pgdir_entry == 0)
      then (do t ← kaddr (pte_addr pgdir_entry); pure (some (t, ptx va)))
      else if not create
      then pure none
      else do
        new_page ← page_alloc 1
        elim new_page [
          | none ↦ pure none
          | some p ↦ do
            page_incref p
            store (pgdir, pdx va) (bit_or (bit_or (bit_or (page2pa p) pte_p) pte_w) pte_u)
            pde ← load (pgdir, pdx va)
            t ← kaddr (pte_addr pde)
            pure (some (t, ptx va))
        ]

-- The page, and what goes through `pte_store`.
pub page_lookup : ℕ → ℕ → M (Option (ℕ × (ℕ × ℕ)))
page_lookup pgdir va = do
  pte ← pgdir_walk pgdir va false
  elim pte [
    | none ↦ pure none
    | some p ↦ do w ← load p; page ← pa2page (pte_addr w); pure (some (page, p))
  ]

-- `cur` is `curenv->env_pgdir`: `none` where `curenv` is NULL, `some none` where the field is.
module _ (cur : Option (Option ℕ)) where
  -- `!curenv || curenv->env_pgdir == pgdir`
  abbrev pub is_active : ℕ → Bool
  is_active pgdir = elim cur [
    | none ↦ true
    | some d ↦ elim d [ none ↦ false | some p ↦ p == pgdir ]
  ]

  pub tlb_invalidate : ℕ → ℕ → M (Unit {0})
  tlb_invalidate pgdir va m =
      some (tt, record m { flushed = if is_active pgdir then va ∷ m.flushed else m.flushed })

  pub page_remove : ℕ → ℕ → M (Unit {0})
  page_remove pgdir va = do
    found ← page_lookup pgdir va
    elim found [
      | none ↦ pure tt
      | some (page, pte) ↦ do
        page_decref page
        store pte 0
        λ m. if m.pp_ref page == 0 then tlb_invalidate pgdir va m else some (tt, m)
    ]

  pub page_insert : ℕ → ℕ → ℕ → ℕ → M (Outcome (Unit {0}))
  page_insert pgdir pp va perm = do
    pte ← pgdir_walk pgdir va true
    elim pte [
      | none ↦ pure (err no_mem)
      | some p ↦ do
        page_incref pp
        page_remove pgdir va
        store p (bit_or (bit_or (page2pa pp) perm) pte_p)
        pure (ok tt)
    ]
