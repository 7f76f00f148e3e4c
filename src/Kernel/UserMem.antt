-- ===== src/Kernel/UserMem.antt =====
-- user_mem_check and user_mem_assert of tp-parte4/kern/pmap.c.
pub mod Sound
pub mod Tests
use sistemas_operativos_2c.Common.{
  ℕ, zero, suc, ◌+◌, ◌-◌, ◌/◌, ◌%◌, ◌^◌, Bool, true, false, ◌||◌, not, Option, none, some, bit_and,
  bit_or, ltb, leb, ◌==◌, if◌then◌else◌,
}
use sistemas_operativos_2c.Layout.{ulim}
use sistemas_operativos_2c.Memory.{Mem, M, pgdir_walk, pte_p, pte_u}
use sistemas_operativos_2c.Kernel.{K, pure, ◌>>=◌, ◌>>◌, gets, in_memory, deref}
use sistemas_operativos_2c.Kernel.Env.{rounddown, roundup}
use sistemas_operativos_2c.Kernel.Sched.{env_destroy}

-- `!pte || i >= ULIM || !(*pte & PTE_P) || (*pte & perm) != perm`
abbrev pub is_bad : Option (ℕ × ℕ) → ℕ → ℕ → Mem → Bool
is_bad none i perm m = true
is_bad (some (t, j)) i perm m =
    leb ulim i || (bit_and (m.word t j) pte_p == 0) || not (bit_and (m.word t j) perm == perm)

-- The loop: `rounds` pages from `i` on. The result is `user_mem_check_addr` where a page is bad.
pub check_pages : (pgdir va perm : ℕ) → ℕ → ℕ → M (Option ℕ)
check_pages pgdir va perm zero i m = some (none, m)
check_pages pgdir va perm (suc rounds) i m = elim (pgdir_walk pgdir i false m) [
  | none ↦ none
  | some (pte, m') ↦ elim (is_bad pte i perm m') [
    | true ↦ some (some (if ltb i va then va else i), m')
    | false ↦ check_pages pgdir va perm rounds (i + 4096) m'
  ]
]

-- `none` for 0, and `some` of `user_mem_check_addr` for -E_FAULT. Both ends of the loop are
-- multiples of the page size, so the rounds are the pages between them.
pub user_mem_check : (pgdir va len perm : ℕ) → M (Option ℕ)
user_mem_check pgdir va len perm =
    let va_aligned = rounddown va 4096 in
    let end_aligned = roundup ((va + len) % 2 ^ 32) 4096 in
    check_pages pgdir va perm ((end_aligned - va_aligned) / 4096) va_aligned

pub user_mem_assert : (e va len perm : ℕ) → K (Unit {0})
user_mem_assert e va len perm = do
  x ← gets (λ k. k.envs e)
  pgdir ← deref x.env_pgdir
  r ← in_memory (user_mem_check pgdir va len (bit_or perm pte_u))
  elim r [ none ↦ pure tt | some addr ↦ env_destroy e ]
