-- ===== src/Kernel/Tests.antt =====
-- Tests of tp-parte4/kern/env.c, sched.c and syscall.c on a kernel with the memory of the tests of
-- pmap.c, where environment 0 runs, 1 is runnable, and 2, a child of 0, waits for a message.
use sistemas_operativos_2c.Common.{
  ℕ, ◌+◌, ◌^◌, ◌<◌, ◌≡◌, ◌≢◌, ◌⊎◌, refl, none, some, arith, ◌==◌, if◌then◌else◌, true, false,
}
use sistemas_operativos_2c.Errors.{ok, err, inval}
use sistemas_operativos_2c.Layout.{utop}
use sistemas_operativos_2c.Memory.Tests.{va, mem}
use sistemas_operativos_2c.Kernel.{
  Kernel, EnvData, Status, returns, runs, panics, set_env, free, runnable, running, not_runnable,
  user,
}
use sistemas_operativos_2c.Kernel.Env.{envx, zero_tf, next_id, envid2env}
use sistemas_operativos_2c.Kernel.Env.Ids.{
  envid2env-found, envid2env-child, next_id-fresh, envid2env_sound,
}
use sistemas_operativos_2c.Kernel.Sched.{sched_yield, start_index}
use sistemas_operativos_2c.Kernel.Sched.RoundRobin.{Runnable, turns, sched_yield-nearer}
use sistemas_operativos_2c.Kernel.Syscall.{sys_ipc_try_send, sys_page_map, send_page}
use sistemas_operativos_2c.Kernel.Syscall.Ipc.{
  sys_ipc_try_send-value, sys_ipc_try_send-not_delivered, send_page-unaligned,
}
use sistemas_operativos_2c.Kernel.Syscall.Pages.{sys_page_map-panics}

abbrev status_at : ℕ → Status
status_at i =
    if i == 0 then running else if i == 1 then runnable else if i == 2 then not_runnable else free

abbrev env_at : ℕ → EnvData
env_at i = record {
  env_tf = zero_tf;
  env_link = none;
  env_id = 4096 + i;
  env_parent_id = 4096;
  env_type = user;
  env_status = status_at i;
  env_runs = 0;
  env_pgdir = some 1;
  env_pgfault_upcall = 0;
  env_ipc_recving = i == 2;
  env_ipc_dstva = 0;
  env_ipc_value = 0;
  env_ipc_from = 0;
  env_ipc_perm = 0;
}

abbrev kernel : Kernel
kernel = record {
  mem = mem;
  envs = env_at;
  env_free_list = some 3;
  curenv = some 0;
  kern_pgdir = 0;
  cr3 = 4096;
}

next_id-fresh_example :
    (0 < next_id 4098 2)
    × (next_id 4098 2 < 2 ^ 31)
    × (envx (next_id 4098 2) ≡ 2)
    × (next_id 4098 2 ≢ 4098)
next_id-fresh_example = next_id-fresh 4098 2 (omega arith)

accepted : envid2env 4098 true kernel ≡ returns (ok (some 2)) kernel
accepted = envid2env-child 4098 kernel 0 (omega arith) refl refl refl refl

envid2env_sound_example :
    (kernel ≡ kernel)
    × (◌≡◌ {A = ℕ} 2 (envx 4098))
    × ((kernel.envs 2).env_id ≡ 4098)
    × ((kernel.envs 2).env_status ≢ free)
    × ((true ≡ false)
        ⊎ ((◌≡◌ {A = ℕ} 2 0) ⊎ ((kernel.envs 2).env_parent_id ≡ (kernel.envs 0).env_id)))
envid2env_sound_example = envid2env_sound 4098 true kernel kernel 2 0 (omega arith) refl accepted

formed :
    (i : ℕ)
    → i < 1024
    → Runnable kernel.envs i
    → (envx (kernel.envs i).env_id ≡ i) × ((p : ℕ) × ((kernel.envs i).env_pgdir ≡ some p))
formed i h ready = (omega arith, (1, refl))

sched_yield-nearer_example :
    (i : ℕ) × (k' : Kernel) × (sched_yield kernel ≡ runs k')
    × (k'.curenv ≡ some i)
    × ((i ≡ 1) ⊎ (turns (start_index k') 1 < turns (start_index kernel) 1))
sched_yield-nearer_example = sched_yield-nearer kernel 1 (omega arith) refl formed

target : envid2env 4098 false kernel ≡ returns (ok (some 2)) kernel
target = envid2env-found 4098 kernel (omega arith) refl refl

sys_ipc_try_send-value_example :
    sys_ipc_try_send 4098 7 utop 0 kernel
    ≡ returns (ok 0) (
        set_env 2
          (λ x. record x {
            env_status = runnable;
            env_ipc_recving = false;
            env_ipc_value = 7;
            env_ipc_from = 4096;
            env_ipc_perm = 0;
          })
          kernel)
sys_ipc_try_send-value_example =
    sys_ipc_try_send-value 4098 7 utop 0 2 0 kernel target refl (omega arith)

unaligned : send_page 2 1 7 kernel ≡ returns (err inval) kernel
unaligned = send_page-unaligned 2 1 7 kernel refl

not_sent : sys_ipc_try_send 4098 7 1 7 kernel ≡ returns (err inval) kernel
not_sent =
    sys_ipc_try_send-not_delivered 4098 7 1 7 2 kernel kernel inval target refl (omega arith)
      unaligned

abbrev full_kernel : Kernel
full_kernel = record kernel { mem = record mem { page_free_list = none } }

sys_page_map-panics_example : sys_page_map 0 va 0 0x800000 5 full_kernel ≡ panics
sys_page_map-panics_example =
    sys_page_map-panics 0 1 5 va 0x800000 5 full_kernel refl refl
      (record {
        there = omega arith;
        inside = omega arith;
        apart = omega arith;
        page = omega arith;
      })
      refl (omega arith) refl refl refl refl refl
      (record {
        chain = refl;
        distinct = tt;
        unreferenced = tt;
        exists = tt;
        addressable = omega arith;
      })
