-- ===== src/Kernel/Syscall/Dispatch.antt =====
-- syscall of tp-parte4/kern/syscall.c, over the numbers of inc/syscall.h.
use sistemas_operativos_2c.Common.{ℕ, Option, none, some, ◌==◌, if◌then◌else◌}
use sistemas_operativos_2c.Errors.{Outcome, ok, err, inval}
use sistemas_operativos_2c.Kernel.{
  Trapframe, Status, K, pure, ◌>>=◌, ◌>>◌, free, dying, runnable, running, not_runnable,
}
use sistemas_operativos_2c.Kernel.Sched.{sched_yield}
use sistemas_operativos_2c.Kernel.Syscall.{
  sys_cputs, sys_getenvid, sys_env_destroy, sys_exofork, sys_env_set_status, sys_page_alloc,
  sys_page_map, sys_page_unmap, sys_ipc_recv, sys_ipc_try_send, sys_env_set_pgfault_upcall,
  sys_env_set_trapframe,
}

-- The statuses by their numbers in inc/env.h.
pub status_of : ℕ → Option Status
status_of n =
    if n == 0
    then some free
    else if n == 1
    then some dying
    else if n == 2
    then some runnable
    else if n == 3
    then some running
    else if n == 4
    then some not_runnable
    else none

abbrev pub returning : K ℕ → K (Outcome ℕ)
returning c = do v ← c; pure (ok v)

-- `cons_getc` is the console driver's, and `frame` what the pointer `a2` shows.
module _ (cons_getc : K ℕ) (frame : Trapframe) where
  unfoldable pub syscall : ℕ → ℕ → ℕ → ℕ → ℕ → ℕ → K (Outcome ℕ)
  syscall syscallno a1 a2 a3 a4 a5 =
      if syscallno == 0
      then (do sys_cputs a1 a2; pure (ok 0))
      else if syscallno == 1
      then returning cons_getc
      else if syscallno == 2
      then returning sys_getenvid
      else if syscallno == 3
      then sys_env_destroy a1
      else if syscallno == 11
      then (do sched_yield; pure (ok 0))
      else if syscallno == 7
      then sys_exofork
      else if syscallno == 8
      then sys_env_set_status a1 (status_of a2)
      else if syscallno == 4
      then sys_page_alloc a1 a2 a3
      else if syscallno == 5
      then sys_page_map a1 a2 a3 a4 a5
      else if syscallno == 6
      then sys_page_unmap a1 a2
      else if syscallno == 13
      then sys_ipc_recv a1
      else if syscallno == 12
      then sys_ipc_try_send a1 a2 a3 a4
      else if syscallno == 10
      then sys_env_set_pgfault_upcall a1 a2
      else if syscallno == 9
      then sys_env_set_trapframe a1 a2 frame
      else pure (err inval)
