-- ===== src/Fork.antt =====
-- fork with copy-on-write: tp-parte4/lib/fork.c and set_pgfault_handler of lib/pgfault.c. The address spaces of all
-- environments are one function of environment and page number, so pages may be shared; a panic is `none`. The
-- system calls are as an environment sees them: `spare` is the pages that the kernel will give out, in order, and
-- `refused` where it has no memory for a page table. `upcall` is whether env_pgfault_upcall is set, and `handler` whether
-- the program's `_pgfault_handler` is; the handler is taken to be pgfault, which fork sets.
pub mod Perm
pub mod Private
pub mod Dup
pub mod Step
pub mod Loop
pub mod Fault
pub mod Stores
pub mod Stack
pub mod Child
pub mod Isolation
mod Tests
use sistemas_operativos_2c.Common.{
  ℕ, zero, suc, ◌+◌, ◌-◌, ◌^◌, Bool, true, false, ◌||◌, ◌&&◌, not, Option, none, some, List, [],
  ◌∷◌, bit_and, bit_or, update, leb, ◌==◌, if◌then◌else◌,
}
use sistemas_operativos_2c.Errors.{Error, inval, no_mem, Outcome, ok, err}
use sistemas_operativos_2c.Layout.{pte_syscall}
use sistemas_operativos_2c.Memory.{pte_p, pte_w, pte_u}
use sistemas_operativos_2c.Kernel.Syscall.{bad_perm}

-- A page table entry that is present.
pub record Mapping : Type 0 where
  pub page : ℕ
  pub perm : ℕ

pub record Vm : Type 0 where
  pub pte : ℕ → ℕ → Option Mapping
  pub word : ℕ → ℕ → ℕ
  pub spare : List ℕ
  pub refused : ℕ → ℕ → Bool
  pub upcall : ℕ → Bool
  pub handler : ℕ → Bool
  pub runnable : ℕ → Bool

abbrev pub V : Type 0 → Type 0
V A = Vm → Option (A × Vm)

abbrev pub pure : {A : Type 0} → A → V A
pure a s = some (a, s)

abbrev pub panic : {A : Type 0} → V A
panic s = none

infixl 5 ◌>>=◌ ◌>>◌
abbrev pub ◌>>=◌ : {A B : Type 0} → V A → (A → V B) → V B
◌>>=◌ c f s = elim (c s) [ none ↦ none | some (a, s') ↦ f a s' ]

abbrev pub ◌>>◌ : {B : Type 0} → V (Unit {0}) → V B → V B
c >> k = c >>= λ _. k

abbrev pub pte_share : ℕ
pte_share = 0x400

abbrev pub pte_cow : ℕ
pte_cow = 0x800

-- The page numbers of UTOP, of the exception stack, of PFTEMP and of UTEMP.
abbrev pub utop_page : ℕ
utop_page = 0xEEC00

abbrev pub ux_page : ℕ
ux_page = 0xEEBFF

abbrev pub pftemp : ℕ
pftemp = 0x7FF

abbrev pub utemp : ℕ
utemp = 0x400

abbrev pub has : (perm bit : ℕ) → Bool
has perm bit = not (bit_and perm bit == 0)

abbrev pub set_pte : (e pn : ℕ) → Option Mapping → Vm → Vm
set_pte e pn m s = record s { pte = update s.pte e (update (s.pte e) pn m) }

-- sys_page_alloc.
pub grant_page : (e pn perm : ℕ) → V (Outcome (Unit {0}))
grant_page e pn perm s =
    if leb utop_page pn || bad_perm perm then pure (err inval) s else elim (s.spare) [
      | [] ↦ pure (err no_mem) s
      | p ∷ rest ↦
          if s.refused e pn
          then pure (err no_mem) s
          else some (
            ok tt,
            record s {
              pte = update s.pte e (update (s.pte e) pn (some (record { page = p; perm = perm })));
              word = update s.word p (λ _. 0);
              spare = rest;
            },
          )
    ]

-- sys_page_map. Where there is no memory for the page table, it frees a page that is still mapped, and the kernel
-- panics.
pub map_page : (e pn e' pn' perm : ℕ) → V (Outcome (Unit {0}))
map_page e pn e' pn' perm s =
    if leb utop_page pn || (leb utop_page pn' || bad_perm perm)
    then pure (err inval) s
    else elim (s.pte e pn) [
      | none ↦ pure (err inval) s
      | some m ↦
          if has perm pte_w && not (has m.perm pte_w)
          then pure (err inval) s
          else if s.refused e' pn'
          then panic s
          else some (ok tt, set_pte e' pn' (some (record { page = m.page; perm = perm })) s)
    ]

abbrev pub unmap_page : (e pn : ℕ) → V (Unit {0})
unmap_page e pn s = some (tt, set_pte e pn none s)

-- `if (r < 0) panic(...)`
abbrev pub must : V (Outcome (Unit {0})) → V (Unit {0})
must call = do r ← call; elim r [ err e ↦ panic | ok u ↦ pure tt ]

-- memmove of a page, from one address of `e` to another.
pub move_page : (e to from : ℕ) → V (Unit {0})
move_page e to from s = elim (s.pte e to) [
  | none ↦ none
  | some m ↦ elim (s.pte e from) [
    | none ↦ none
    | some m' ↦ some (tt, record s { word = update s.word m.page (s.word m'.page) })
  ]
]

abbrev pub user_page : ℕ
user_page = 7

-- The handler, for a fault at page `pn` of `e` with this error code; FEC_PR is 1, FEC_WR is 2. uvpt has an entry
-- for the page only if it is mapped.
pub pgfault : (e pn code : ℕ) → V (Unit {0})
unfolding grant_page map_page move_page
pgfault e pn code s = elim (s.pte e pn) [
  | none ↦ none
  | some m ↦
      (if not (has code 1) || (not (has code 2) || not (has m.perm pte_cow)) then panic else do
        must (grant_page e pftemp user_page)
        move_page e pftemp pn
        must (map_page e pftemp e pn user_page)
        unmap_page e pftemp)
        s
]

-- `perm &= ~PTE_W; perm |= PTE_COW`
abbrev pub cow : ℕ → ℕ
cow perm = bit_or (bit_and perm (2 ^ 32 - 1 - 2)) pte_cow

abbrev pub copies : ℕ → Bool
copies perm = (has perm pte_w || has perm pte_cow) && not (has perm pte_share)

pub duppage : (e child pn : ℕ) → V (Unit {0})
unfolding map_page
duppage e child pn s = elim (s.pte e pn) [
  | none ↦ none
  | some m ↦
      let perm = bit_and m.perm pte_syscall in
      (if copies perm
          then (do must (map_page e pn child pn (cow perm)); must (map_page e pn e pn (cow perm)))
          else must (map_page e pn child pn perm))
        s
]

abbrev pub is_present : Option Mapping → Bool
is_present none = false
is_present (some m) = true

-- The loop of fork, from page `pn` on.
pub dup_from : (rounds pn : ℕ) → (e child : ℕ) → V (Unit {0})
unfolding duppage
dup_from zero pn e child s = some (tt, s)
dup_from (suc rounds) pn e child s =
    (do
      if is_present (s.pte e pn) && not (pn == ux_page) then duppage e child pn else pure tt
      dup_from rounds (pn + 1) e child)
      s

abbrev pub set_upcall : ℕ → V (Unit {0})
set_upcall e s = some (tt, record s { upcall = update s.upcall e true })

-- `_pgfault_handler = handler`
abbrev pub set_handler : (e : ℕ) → Bool → V (Unit {0})
set_handler e h s = some (tt, record s { handler = update s.handler e h })

pub set_pgfault_handler : ℕ → V (Unit {0})
unfolding grant_page
set_pgfault_handler e s =
    (do
      if s.handler e then pure tt else must (grant_page e ux_page user_page)
      set_handler e true
      set_upcall e)
      s

abbrev pub set_runnable : ℕ → V (Unit {0})
set_runnable e s = some (tt, record s { runnable = update s.runnable e true })

-- The page of `_pgfault_handler` is one of the pages that the child gets with what they hold.
abbrev copy_handler : (e child : ℕ) → V (Unit {0})
copy_handler e child s = set_handler child (s.handler e) s

-- From the loop on.
pub dup_pages : (rounds : ℕ) → (e child : ℕ) → V ℕ
unfolding dup_from
dup_pages rounds e child = do
  dup_from rounds 0 e child
  copy_handler e child
  set_runnable child
  pure child

-- What fork does in the parent; `child` is what sys_exofork returned to it.
pub fork : (e child : ℕ) → V ℕ
unfolding set_pgfault_handler grant_page
fork e child = do
  set_pgfault_handler e
  must (grant_page child ux_page user_page)
  set_upcall child
  dup_pages utop_page e child

pub dup_or_share : (e child pn perm : ℕ) → V (Unit {0})
unfolding grant_page map_page move_page
dup_or_share e child pn perm =
    if has perm pte_w
    then (do
      must (grant_page child pn user_page)
      must (map_page child pn e utemp user_page)
      move_page e utemp pn
      unmap_page e utemp)
    else must (map_page e pn child pn perm)

-- The loop of fork_v0, from page `pn` on.
pub share_from : (rounds pn : ℕ) → (e child : ℕ) → V (Unit {0})
unfolding dup_or_share
share_from zero pn e child s = some (tt, s)
share_from (suc rounds) pn e child s =
    (do
      elim (s.pte e pn) [
        | none ↦ pure tt
        | some m ↦ dup_or_share e child pn (bit_and m.perm pte_syscall)
      ]
      share_from rounds (pn + 1) e child)
      s

pub fork_v0 : (e child : ℕ) → V ℕ
unfolding share_from
fork_v0 e child = do
  share_from utop_page 0 e child
  copy_handler e child
  set_runnable child
  pure child

-- A store by the program of `e` into a page that it may write.
pub store_now : (e pn off v : ℕ) → V (Unit {0})
store_now e pn off v s = elim (s.pte e pn) [
  | none ↦ none
  | some m ↦
      if has m.perm pte_w
      then some (tt, record s { word = update s.word m.page (update (s.word m.page) off v) })
      else none
]

abbrev takes_frame : Option Mapping → Bool
takes_frame none = false
takes_frame (some m) = has m.perm pte_u && has m.perm pte_w

-- A page fault of `e` outside its exception stack, at a page that is present and not writable, for which the error code is 7:
-- page_fault_handler of the kernel destroys an environment with no upcall, and in user_mem_assert one whose exception
-- stack does not take the frame; else the upcall calls the handler that is set.
pub take_fault : (e pn : ℕ) → V (Unit {0})
unfolding pgfault
take_fault e pn s =
    (if not (s.upcall e)
        then panic
        else if not (takes_frame (s.pte e ux_page))
        then panic
        else if s.handler e
        then pgfault e pn 7
        else panic)
      s

-- A store by the program of `e`: into a page that it may write, or once the fault has made it one.
pub user_store : (e pn off v : ℕ) → V (Unit {0})
unfolding store_now take_fault
user_store e pn off v s = elim (s.pte e pn) [
  | none ↦ none
  | some m ↦ (do if has m.perm pte_w then pure tt else take_fault e pn; store_now e pn off v) s
]
