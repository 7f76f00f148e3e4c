-- ===== src/Kernel/Syscall.antt =====
-- tp-parte4/kern/syscall.c: the system calls. An outcome is the value or the error returned.
pub mod Dispatch
pub mod Ipc
pub mod Pages
use sistemas_operativos_2c.Common.{
  ℕ, ◌+◌, ◌%◌, ◌^◌, Bool, true, false, ◌&&◌, ◌||◌, not, Option, none, some, bit_and, bit_or, ltb,
  leb, ◌==◌, if◌then◌else◌,
}
use sistemas_operativos_2c.Errors.{Outcome, ok, err, bad_env, inval, no_mem, ipc_not_recv}
use sistemas_operativos_2c.Layout.{utop, fl_if, pte_syscall}
use sistemas_operativos_2c.Memory.{
  load, page_alloc, page_free, page_lookup, page_insert, page_remove, pte_p, pte_u, pte_w,
}
use sistemas_operativos_2c.Kernel.{
  Kernel, EnvData, Trapframe, Status, K, pure, ◌>>=◌, ◌>>◌, gets, modify, in_memory, set_env, deref,
  cur_pgdir, runnable, not_runnable,
}
use sistemas_operativos_2c.Kernel.Env.{envid2env, env_alloc}
use sistemas_operativos_2c.Kernel.Sched.{sched_yield, env_destroy}
use sistemas_operativos_2c.Kernel.UserMem.{user_mem_assert}

-- `envid2env`, then the pointer is followed: NULL only if there is no current environment.
abbrev pub with_env : {A : Type 0} → ℕ → Bool → (ℕ → K (Outcome A)) → K (Outcome A)
with_env envid checkperm f = do
  r ← envid2env envid checkperm
  elim r [ err x ↦ pure (err x) | ok p ↦ do e ← deref p; f e ]

unfoldable pub current : K ℕ
current = do c ← gets (λ k. k.curenv); deref c

abbrev pub pgdir_of : ℕ → K ℕ
pgdir_of e = do x ← gets (λ k. k.envs e); deref x.env_pgdir

-- `cprintf` of the string that was checked has no part in the kernel's state.
pub sys_cputs : ℕ → ℕ → K (Unit {0})
sys_cputs s len = do c ← current; user_mem_assert c s len pte_u

unfoldable pub sys_getenvid : K ℕ
sys_getenvid = do c ← current; gets (λ k. (k.envs c).env_id)

pub sys_env_destroy : ℕ → K (Outcome ℕ)
sys_env_destroy envid = with_env envid true λ e. do env_destroy e; pure (ok 0)

pub sys_exofork : K (Outcome ℕ)
sys_exofork = do
  c ← current
  parent ← gets (λ k. k.envs c)
  r ← env_alloc parent.env_id
  elim r [
    | err x ↦ pure (err x)
    | ok e ↦ do
      modify (λ k.
          set_env e
            (λ x. record x {
              env_status = not_runnable;
              env_tf = record ((k.envs c).env_tf) { reg_eax = 0 };
            })
            k)
      gets (λ k. ok (k.envs e).env_id)
  ]

-- The argument is an int; only two of the statuses are allowed.
abbrev pub allowed_status : Status → Bool
allowed_status runnable = true
allowed_status not_runnable = true
allowed_status s = false

-- `none` is an int that is no status.
pub sys_env_set_status : ℕ → Option Status → K (Outcome ℕ)
sys_env_set_status envid none = pure (err inval)
sys_env_set_status envid (some status) =
    if not (allowed_status status)
    then pure (err inval)
    else with_env envid true
        λ e. do modify (set_env e (λ x. record x { env_status = status })); pure (ok 0)

-- `tf` is the frame that the caller's pointer `addr` shows.
pub sys_env_set_trapframe : ℕ → (addr : ℕ) → Trapframe → K (Outcome ℕ)
sys_env_set_trapframe envid addr tf = with_env envid true λ e. do
  user_mem_assert e addr 68 pte_w
  modify (
      set_env e (λ x. record x {
        env_tf = record tf {
          tf_cs = bit_or tf.tf_cs 3;
          tf_eflags = bit_or tf.tf_eflags (bit_or 0 fl_if);
        };
      }))
  pure (ok 0)

pub sys_env_set_pgfault_upcall : ℕ → ℕ → K (Outcome ℕ)
sys_env_set_pgfault_upcall envid func = do
  r ← envid2env envid true
  elim r [
    | err x ↦ pure (err bad_env)
    | ok p ↦ do
      e ← deref p
      modify (set_env e (λ x. record x { env_pgfault_upcall = func }))
      pure (ok 0)
  ]

-- `va >= UTOP || va % PGSIZE != 0`
abbrev pub bad_va : ℕ → Bool
bad_va va = leb utop va || not (va % 4096 == 0)

-- `(perm & (PTE_U | PTE_P)) != (PTE_U | PTE_P)`
abbrev pub bad_perm : ℕ → Bool
bad_perm perm = not (bit_and perm (bit_or pte_u pte_p) == bit_or pte_u pte_p)

pub sys_page_alloc : ℕ → ℕ → ℕ → K (Outcome ℕ)
sys_page_alloc envid va perm =
    if bad_va va
    then pure (err inval)
    else if bad_perm perm
    then pure (err inval)
    else with_env envid true λ e. do
      page ← in_memory (page_alloc 1)
      elim page [
        | none ↦ pure (err no_mem)
        | some p ↦ do
          pgdir ← pgdir_of e
          cur ← gets cur_pgdir
          r ← in_memory (page_insert cur pgdir p va perm)
          elim r [ err x ↦ do in_memory (page_free p); pure (err x) | ok u ↦ pure (ok 0) ]
      ]

pub sys_page_map : ℕ → ℕ → ℕ → ℕ → ℕ → K (Outcome ℕ)
sys_page_map srcenvid srcva dstenvid dstva perm =
    if bad_va srcva
    then pure (err inval)
    else if bad_va dstva
    then pure (err inval)
    else if bad_perm perm
    then pure (err inval)
    else with_env srcenvid true λ src. with_env dstenvid true λ dst. do
      src_pgdir ← pgdir_of src
      found ← in_memory (page_lookup src_pgdir srcva)
      elim found [
        | none ↦ pure (err inval)
        | some (page, pte) ↦ do
          w ← in_memory (load pte)
          if (bit_and perm pte_w == pte_w) && not (bit_and w pte_w == pte_w)
              then pure (err inval)
              else do
                dst_pgdir ← pgdir_of dst
                cur ← gets cur_pgdir
                r ← in_memory (page_insert cur dst_pgdir page dstva perm)
                elim r [ err x ↦ do in_memory (page_free page); pure (err x) | ok u ↦ pure (ok 0) ]
      ]

pub sys_page_unmap : ℕ → ℕ → K (Outcome ℕ)
sys_page_unmap envid va =
    if bad_va va
    then pure (err inval)
    else with_env envid true λ e. do
      pgdir ← pgdir_of e
      cur ← gets cur_pgdir
      in_memory (page_remove cur pgdir va)
      pure (ok 0)

-- The transfer of the page in sys_ipc_try_send, for `srcva < UTOP`: -E_NO_MEM stands for any
-- failure of page_insert.
pub send_page : ℕ → ℕ → ℕ → K (Outcome (Unit {0}))
send_page e srcva perm =
    if not (srcva % 4096 == 0)
    then pure (err inval)
    else if not (bit_or perm pte_syscall == pte_syscall)
    then pure (err inval)
    else if bad_perm perm
    then pure (err inval)
    else do
      c ← current
      src_pgdir ← pgdir_of c
      found ← in_memory (page_lookup src_pgdir srcva)
      elim found [
        | none ↦ pure (err inval)
        | some (page, pte) ↦ do
          w ← in_memory (load pte)
          if not (bit_and perm pte_w == 0) && (bit_and w pte_w == 0) then pure (err inval) else do
            dst_pgdir ← pgdir_of e
            dst ← gets (λ k. k.envs e)
            cur ← gets cur_pgdir
            r ← in_memory (page_insert cur dst_pgdir page dst.env_ipc_dstva perm)
            elim r [ err x ↦ pure (err no_mem) | ok u ↦ pure (ok tt) ]
      ]

-- What the receiver gets: the sender's id, the value and the permissions of the page, if any.
abbrev pub deliver : (perm from value : ℕ) → EnvData → EnvData
deliver perm from value x = record x {
  env_ipc_perm = perm;
  env_status = runnable;
  env_ipc_from = from;
  env_ipc_recving = false;
  env_ipc_value = value;
}

pub sys_ipc_try_send : ℕ → ℕ → ℕ → ℕ → K (Outcome ℕ)
sys_ipc_try_send envid value srcva perm = do
  r ← envid2env envid false
  elim r [
    | err x ↦ pure (err bad_env)
    | ok p ↦ do
      e ← deref p
      x ← gets (λ k. k.envs e)
      if not x.env_ipc_recving then pure (err ipc_not_recv) else do
        sent ← (if ltb srcva utop then send_page e srcva perm else pure (ok tt))
        elim sent [
          | err y ↦ pure (err y)
          | ok u ↦ do
            c ← current
            modify (λ k.
                set_env e (deliver (if ltb srcva utop then perm else 0) (k.envs c).env_id value) k)
            pure (ok 0)
        ]
  ]

pub sys_ipc_recv : ℕ → K (Outcome ℕ)
sys_ipc_recv dstva = if ltb dstva utop && not (dstva % 4096 == 0) then pure (err inval) else do
  c ← current
  modify (
      set_env c (λ x. record x {
        env_status = not_runnable;
        env_ipc_recving = true;
        env_ipc_dstva = dstva;
      }))
  pure (ok 0)
