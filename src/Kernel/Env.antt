-- ===== src/Kernel/Env.antt =====
-- tp-parte4/kern/env.c: the environments' life.
pub mod Ids
pub mod Run
use sistemas_operativos_2c.Common.{
  ℕ, zero, suc, ◌+◌, ◌-◌, ◌*◌, ◌/◌, ◌%◌, ◌^◌, Bool, true, false, ◌&&◌, ◌||◌, not, Option, none,
  some, bit_and, bit_or, update, ltb, leb, ◌==◌, if◌then◌else◌,
}
use sistemas_operativos_2c.Errors.{Outcome, ok, err, bad_env, no_mem, no_free_env}
use sistemas_operativos_2c.Layout.{nenv, uvpt, utop, ustacktop, gd_ut, gd_ud, fl_if}
use sistemas_operativos_2c.Memory
use sistemas_operativos_2c.Memory.{
  Mem, M, page2pa, pdx, pgnum, pte_addr, pte_p, pte_u, pte_w, kaddr, pa2page, load, store,
  page_alloc, page_incref, page_decref, page_remove, page_insert, is_null,
}
use sistemas_operativos_2c.Kernel.{
  Kernel, EnvData, Trapframe, Flow, K, pure, ◌>>=◌, ◌>>◌, gets, modify, in_memory, set_env, deref,
  cur_pgdir, returns, runs, halts, monitors, panics, free, dying, runnable, running, not_runnable,
  user, is_free, is_running,
}

abbrev pub envx : ℕ → ℕ
envx envid = envid % 1024

-- `e != curenv && e->env_parent_id != curenv->env_id`; a NULL `curenv` is followed only if the
-- first test passes, and it does for every `e`.
abbrev pub lacks_permission : ℕ → K Bool
lacks_permission e k = elim k.curenv [
  | none ↦ panics
  | some c ↦ returns (not (e == c) && not ((k.envs e).env_parent_id == (k.envs c).env_id)) k
]

-- The outcome is what goes through `env_store`, which is `curenv` for envid 0.
pub envid2env : ℕ → Bool → K (Outcome (Option ℕ))
envid2env envid checkperm k =
    if envid == 0
    then returns (ok k.curenv) k
    else let e = envx envid in
      if is_free (k.envs e).env_status || not ((k.envs e).env_id == envid)
      then returns (err bad_env) k
      else if checkperm
      then (do lacks ← lacks_permission e; pure (if lacks then err bad_env else ok (some e))) k
      else returns (ok (some e)) k

-- The loop of env_init, `rounds` turns from index `i` on.
pub init_from : ℕ → ℕ → (ℕ → EnvData) → ℕ → EnvData
init_from zero i envs = envs
init_from (suc rounds) i envs = init_from rounds (i + 1) (
    update envs i (record (envs i) {
      env_id = 0;
      env_status = free;
      env_link = if i == nenv - 1 then none else some (i + 1);
    }))

-- The processor's segment registers are not modelled, so env_init_percpu has no part here.
pub env_init : Kernel → Kernel
env_init k = record k { envs = init_from 1024 0 k.envs; env_free_list = some 0 }

abbrev pub memcpy_page : ℕ → ℕ → M (Unit {0})
memcpy_page dst src m = some (tt, record m { word = update m.word dst (m.word src) })

-- `PADDR` of a page directory that `KADDR` gave.
pub env_setup_vm : ℕ → K (Outcome (Unit {0}))
env_setup_vm e = do
  page ← in_memory (page_alloc 1)
  elim page [
    | none ↦ pure (err no_mem)
    | some p ↦ do
      in_memory (page_incref p)
      d ← in_memory (kaddr (page2pa p))
      modify (set_env e (λ x. record x { env_pgdir = some d }))
      template ← gets (λ k. k.kern_pgdir)
      in_memory (memcpy_page d template)
      in_memory (store (d, pdx uvpt) (bit_or (bit_or (page2pa d) pte_p) pte_u))
      pure (ok tt)
  ]

-- `generation | (e - envs)`, where the generation is an int32_t.
pub next_id : ℕ → ℕ → ℕ
next_id old e =
    let g = (old + 2 ^ 12) % 2 ^ 32 / 1024 * 1024 in
    bit_or (if g == 0 || leb (2 ^ 31) g then 2 ^ 12 else g) e

abbrev pub zero_tf : Trapframe
zero_tf = record {
  reg_eax = 0;
  other_regs = λ _. 0;
  tf_es = 0;
  tf_ds = 0;
  tf_trapno = 0;
  tf_err = 0;
  tf_eip = 0;
  tf_cs = 0;
  tf_eflags = 0;
  tf_esp = 0;
  tf_ss = 0;
}

abbrev pub started : ℕ → ℕ → EnvData → EnvData
started e parent_id x = record x {
  env_id = next_id x.env_id e;
  env_parent_id = parent_id;
  env_type = user;
  env_status = runnable;
  env_runs = 0;
  env_tf = record zero_tf {
    tf_ds = bit_or gd_ud 3;
    tf_es = bit_or gd_ud 3;
    tf_ss = bit_or gd_ud 3;
    tf_esp = ustacktop;
    tf_cs = bit_or gd_ut 3;
    tf_eflags = bit_or 0 fl_if;
  };
  env_pgfault_upcall = 0;
  env_ipc_recving = false;
}

-- The outcome is the environment that goes through `newenv_store`.
pub env_alloc : ℕ → K (Outcome ℕ)
env_alloc parent_id = do
  first ← gets (λ k. k.env_free_list)
  elim first [
    | none ↦ pure (err no_free_env)
    | some e ↦ do
      r ← env_setup_vm e
      elim r [
        | err x ↦ pure (err x)
        | ok u ↦ do
          modify (set_env e (started e parent_id))
          modify (λ k. record k { env_free_list = (k.envs e).env_link })
          pure (ok e)
      ]
  ]

-- `PGADDR(d, t, 0)`
abbrev pub pgaddr : ℕ → ℕ → ℕ
pgaddr d t = bit_or (d * 2 ^ 22) (t * 2 ^ 12)

-- The inner loop of env_free: `rounds` entries of page table `t` from `pteno` on.
pub unmap_entries : Option (Option ℕ) → (pgdir pdeno t : ℕ) → ℕ → ℕ → M (Unit {0})
unmap_entries cur pgdir pdeno t zero pteno m = some (tt, m)
unmap_entries cur pgdir pdeno t (suc rounds) pteno m =
    elim ((if bit_and (m.word t pteno) pte_p == 0
      then some (tt, m)
      else page_remove cur pgdir (pgaddr pdeno pteno) m)) [
        | none ↦ none
        | some (u, m') ↦ unmap_entries cur pgdir pdeno t rounds (pteno + 1) m'
      ]

-- One turn of the outer loop, where the directory has the table.
pub free_table : Option (Option ℕ) → (pgdir pdeno : ℕ) → M (Unit {0})
free_table cur pgdir pdeno m =
    let pa = pte_addr (m.word pgdir pdeno) in
    Memory.◌>>=◌ (kaddr pa)
      (λ t. Memory.◌>>=◌ (unmap_entries cur pgdir pdeno t 1024 0) (λ _.
        Memory.◌>>=◌ (store (pgdir, pdeno) 0)
          (λ _. Memory.◌>>=◌ (pa2page pa) (λ p. page_decref p))))
      m

pub free_tables : Option (Option ℕ) → (pgdir : ℕ) → ℕ → ℕ → M (Unit {0})
free_tables cur pgdir zero pdeno m = some (tt, m)
free_tables cur pgdir (suc rounds) pdeno m =
    elim ((if bit_and (m.word pgdir pdeno) pte_p == 0
      then some (tt, m)
      else free_table cur pgdir pdeno m)) [
        | none ↦ none
        | some (u, m') ↦ free_tables cur pgdir rounds (pdeno + 1) m'
      ]

abbrev pub is_cur : ℕ → Kernel → Bool
is_cur e k = elim k.curenv [ none ↦ false | some c ↦ c == e ]

pub env_free : ℕ → K (Unit {0})
env_free e = do
  modify (λ k. if is_cur e k then record k { cr3 = page2pa k.kern_pgdir } else k)
  cur ← gets cur_pgdir
  x ← gets (λ k. k.envs e)
  pgdir ← deref x.env_pgdir
  in_memory (free_tables cur pgdir (pdx utop) 0)
  modify (set_env e (λ x. record x { env_pgdir = none }))
  p ← in_memory (pa2page (page2pa pgdir))
  in_memory (page_decref p)
  modify (λ k.
      record (set_env e (λ x. record x { env_status = free; env_link = k.env_free_list }) k) {
        env_free_list = some e;
      })

-- The environment that ran before goes back to runnable, if it was running.
pub put_back : Kernel → Kernel
put_back k = elim k.curenv [
  | none ↦ k
  | some c ↦
      if is_running (k.envs c).env_status
      then set_env c (λ x. record x { env_status = runnable }) k
      else k
]

-- env_pop_tf leaves the kernel: the processor runs `curenv` in user mode.
pub env_run : ℕ → K (Unit {0})
env_run e = do
  modify put_back
  modify (λ k. record k { curenv = some e })
  modify (set_env e (λ x. record x { env_status = running; env_runs = (x.env_runs + 1) % 2 ^ 32 }))
  x ← gets (λ k. k.envs e)
  pgdir ← deref x.env_pgdir
  modify (λ k. record k { cr3 = page2pa pgdir })
  λ k. runs k

-- Allocates and maps the pages of [va, va + len), a page a turn; a panic where one is missing.
pub alloc_pages : Option (Option ℕ) → ℕ → ℕ → ℕ → M (Unit {0})
alloc_pages cur pgdir zero va m = some (tt, m)
alloc_pages cur pgdir (suc rounds) va m = elim (page_alloc 1 m) [
  | none ↦ none
  | some (page, m₁) ↦ elim page [
    | none ↦ none
    | some p ↦ elim (page_insert cur pgdir p va (bit_or pte_u pte_w) m₁) [
      | none ↦ none
      | some (r, m₂) ↦ elim r [
        | err e ↦ none
        | ok u ↦ alloc_pages cur pgdir rounds ((va + 4096) % 2 ^ 32) m₂
      ]
    ]
  ]
]

abbrev pub rounddown : ℕ → ℕ → ℕ
rounddown a n = a - a % n

abbrev pub roundup : ℕ → ℕ → ℕ
roundup a n = rounddown ((a + n - 1) % 2 ^ 32) n

pub region_alloc : ℕ → ℕ → ℕ → K (Unit {0})
region_alloc e va len = do
  x ← gets (λ k. k.envs e)
  pgdir ← deref x.env_pgdir
  cur ← gets cur_pgdir
  let va_aligned = rounddown va 4096
  let end_aligned = roundup ((va + len) % 2 ^ 32) 4096
  in_memory (alloc_pages cur pgdir ((end_aligned + 2 ^ 32 - va_aligned) % 2 ^ 32 / 4096) va_aligned)
