-- ===== src/Kernel/Trap/Tests.antt =====
-- A page fault with an upcall in a concrete kernel.
use sistemas_operativos_2c.Common.{
  ℕ, ◌≡◌, ◌%◌, ◌/◌, ◌&&◌, ◌==◌, if◌then◌else◌, refl, some, none, false, arith, inl,
}
use sistemas_operativos_2c.Memory.{Mem}
use sistemas_operativos_2c.Kernel.{Trapframe, EnvData, Kernel, user, running, runs}
use sistemas_operativos_2c.Kernel.Env.{zero_tf}
use sistemas_operativos_2c.Kernel.UserMem.Tests.{stack_mem, stack_asserted}
use sistemas_operativos_2c.Kernel.Trap.{UTrapframe, page_fault_handler}
use sistemas_operativos_2c.Kernel.Trap.Upcall.{page_fault_handler-enters}

abbrev env : EnvData
env = record {
  env_tf = zero_tf;
  env_link = none;
  env_id = 4096;
  env_parent_id = 0;
  env_type = user;
  env_status = running;
  env_runs = 1;
  env_pgdir = some 1;
  env_pgfault_upcall = 0x800100;
  env_ipc_recving = false;
  env_ipc_dstva = 0;
  env_ipc_value = 0;
  env_ipc_from = 0;
  env_ipc_perm = 0;
}

abbrev kernel : Kernel
kernel = record {
  mem = stack_mem;
  envs = λ i. env;
  env_free_list = none;
  curenv = some 0;
  kern_pgdir = 0;
  cr3 = 4096;
}

abbrev tf : Trapframe
tf = record zero_tf { tf_cs = 27; tf_eip = 0x800200 }

-- The first word of the frame, in the page of the exception stack.
abbrev store_frame : (cr3 va : ℕ) → UTrapframe → Mem → Mem
store_frame cr3 va u m = record m {
  word = λ page i. if page == 3 && i == va % 4096 / 4 then u.utf_fault_va else m.word page i;
}

page_fault_handler-enters_example :
    (k' : Kernel) × (page_fault_handler store_frame 0xA000 tf kernel ≡ runs k')
    × (k'.curenv ≡ some 0)
    × ((k'.envs 0).env_tf.tf_eip ≡ 0x800100)
    × ((k'.envs 0).env_tf.tf_esp ≡ 0xEEBFFFC8)
    × (k'.mem
        ≡ store_frame 4096 0xEEBFFFC8
            (record {
              utf_fault_va = 0xA000;
              utf_err = 0;
              utf_eax = 0;
              utf_regs = zero_tf.other_regs;
              utf_eip = 0x800200;
              utf_eflags = 0;
              utf_esp = 0;
            })
            stack_mem)
page_fault_handler-enters_example =
    page_fault_handler-enters store_frame 0xA000 0 1 0xEEBFFFC8 tf kernel kernel (omega arith) refl
      (omega arith) (inl (inl (omega arith), omega arith)) (stack_asserted kernel refl) refl
