-- ===== src/Kernel/Trap/Dispatch/Tests.antt =====
-- sys_getenvid by a trap from user mode, in a kernel where environment 0 runs.
use sistemas_operativos_2c.Common.{ℕ, ◌≡◌, ◌≢◌, refl, none, some, false}
use sistemas_operativos_2c.Errors.{ok}
use sistemas_operativos_2c.Memory.{Mem}
use sistemas_operativos_2c.Memory.Tests.{mem}
use sistemas_operativos_2c.Kernel.{
  Trapframe, EnvData, Kernel, K, pure, deref, user, running, returns, runs,
}
use sistemas_operativos_2c.Kernel.Env.{zero_tf}
use sistemas_operativos_2c.Kernel.Syscall.{current, sys_getenvid}
use sistemas_operativos_2c.Kernel.Syscall.Dispatch.{syscall}
use sistemas_operativos_2c.Kernel.Trap.{UTrapframe}
use sistemas_operativos_2c.Kernel.Trap.Dispatch.{run_syscall, trap}
use sistemas_operativos_2c.Kernel.Trap.Dispatch.Resume.{framed, trap-resumes}

abbrev env : EnvData
env = record {
  env_tf = zero_tf;
  env_link = none;
  env_id = 4096;
  env_parent_id = 0;
  env_type = user;
  env_status = running;
  env_runs = 1;
  env_pgdir = some 1;
  env_pgfault_upcall = 0;
  env_ipc_recving = false;
  env_ipc_dstva = 0;
  env_ipc_value = 0;
  env_ipc_from = 0;
  env_ipc_perm = 0;
}

abbrev kernel : Kernel
kernel = record {
  mem = mem;
  envs = λ i. env;
  env_free_list = none;
  curenv = some 0;
  kern_pgdir = 0;
  cr3 = 4096;
}

abbrev tf : Trapframe
tf = record zero_tf { tf_cs = 27; tf_eip = 0x800200; tf_trapno = 48; reg_eax = 2 }

abbrev quiet : K (Unit {0})
quiet = pure tt

abbrev frame_at : ℕ → Kernel → Trapframe
frame_at va k = zero_tf

abbrev store_frame : (cr3 va : ℕ) → UTrapframe → Mem → Mem
store_frame cr3 va u m = m

called :
    run_syscall (pure 0) frame_at tf (framed 0 tf kernel) ≡ returns (ok 4096) (framed 0 tf kernel)
unfolding run_syscall syscall sys_getenvid current deref
called = refl

trap-resumes_example :
    (k' : Kernel) × (trap (λ t. quiet) quiet quiet quiet (pure 0) frame_at store_frame 0 0 tf kernel
      ≡ runs k')
    × (k'.curenv ≡ some 0)
    × ((v : ℕ) × (v ≡ 4096) × ((k'.envs 0).env_tf ≡ record tf { reg_eax = v }))
    × (k'.mem ≡ mem)
    × ((i : ℕ) → 0 ≢ i → k'.envs i ≡ (framed 0 tf kernel).envs i)
trap-resumes_example =
    trap-resumes (λ t. quiet) quiet quiet quiet (pure 0) frame_at store_frame 0 0 1 0 tf kernel
      (framed 0 tf kernel) (ok 4096) refl refl refl refl refl called refl refl refl
