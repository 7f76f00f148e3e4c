-- ===== src/Kernel/Trap.antt =====
-- tp-parte4/kern/trap.c: the page fault handler. The `Trapframe` is the one in `curenv`, where trap copied
-- it; the registers are those of inc/trap.h.
pub mod Upcall
pub mod Dispatch
mod Tests
use sistemas_operativos_2c.Common.{ℕ, ◌-◌, ◌&&◌, bit_and, bit_or, ltb, leb, ◌==◌, if◌then◌else◌}
use sistemas_operativos_2c.Layout.{utop}
use sistemas_operativos_2c.Memory.{Mem, pte_u, pte_w}
use sistemas_operativos_2c.Kernel.{
  Trapframe, Kernel, K, pure, ◌>>=◌, ◌>>◌, gets, modify, set_env, deref, panics,
}
use sistemas_operativos_2c.Kernel.Env.{env_run}
use sistemas_operativos_2c.Kernel.Sched.{env_destroy}
use sistemas_operativos_2c.Kernel.UserMem.{user_mem_assert}

abbrev pub uxstacktop : ℕ
uxstacktop = utop

pub record UTrapframe : Type 0 where
  pub utf_fault_va : ℕ
  pub utf_err : ℕ
  pub utf_eax : ℕ
  pub utf_regs : ℕ → ℕ
  pub utf_eip : ℕ
  pub utf_eflags : ℕ
  pub utf_esp : ℕ

-- `top`: the exception stack goes on below esp, if that is in it.
pub trap_top : ℕ → ℕ
trap_top esp = if leb (uxstacktop - 4096) esp && ltb esp uxstacktop then esp else uxstacktop

-- sizeof(struct UTrapframe) + 4
abbrev pub frame_size : ℕ
frame_size = 56

-- `u`
pub frame_address : ℕ → ℕ
unfolding trap_top
frame_address esp = trap_top esp - frame_size

pub utrapframe : (fault_va : ℕ) → Trapframe → UTrapframe
utrapframe fault_va tf = record {
  utf_fault_va = fault_va;
  utf_err = tf.tf_err;
  utf_eax = tf.reg_eax;
  utf_regs = tf.other_regs;
  utf_eip = tf.tf_eip;
  utf_eflags = tf.tf_eflags;
  utf_esp = tf.tf_esp;
}

-- `store_frame` is the processor's store at an address of the current page directory, and `fault_va` what
-- rcr2 reads.
module _ (store_frame : (cr3 va : ℕ) → UTrapframe → Mem → Mem) (fault_va : ℕ) where
  -- What is done once the exception stack has passed its check.
  pub branch_to : (c upcall : ℕ) → Trapframe → K (Unit {0})
  branch_to c upcall tf = do
    modify (λ k. record k {
      mem = store_frame k.cr3 (frame_address tf.tf_esp) (utrapframe fault_va tf) k.mem;
    })
    modify (
        set_env c (λ x. record x {
          env_tf = record tf { tf_eip = upcall; tf_esp = frame_address tf.tf_esp };
        }))
    env_run c

  pub enter_upcall : (c upcall : ℕ) → Trapframe → K (Unit {0})
  unfolding branch_to
  enter_upcall c upcall tf = do
    user_mem_assert c (frame_address tf.tf_esp) frame_size (bit_or pte_u pte_w)
    branch_to c upcall tf

  pub page_fault_handler : Trapframe → K (Unit {0})
  unfolding enter_upcall
  page_fault_handler tf = if bit_and tf.tf_cs 3 == 0 then (λ k. panics) else (do
    cur ← gets (λ k. k.curenv)
    c ← deref cur
    x ← gets (λ k. k.envs c)
    if x.env_pgfault_upcall == 0 then pure tt else enter_upcall c x.env_pgfault_upcall tf
    env_destroy c)
