-- ===== src/Kernel/Trap/Dispatch.antt =====
-- trap_dispatch and trap of tp-parte4/kern/trap.c on one processor. The frame of a trap from user mode is the one in
-- `curenv`, `at` its environment; the frame of a trap from the kernel is on the stack, and is not used again.
pub mod Resume
mod Tests
use sistemas_operativos_2c.Common.{
  ℕ, ◌-◌, ◌^◌, Bool, Option, none, some, ◌==◌, if◌then◌else◌, bit_and, not,
}
use sistemas_operativos_2c.Errors.{
  Error, unspecified, bad_env, inval, no_mem, no_free_env, fault, ipc_not_recv, eof, no_disk,
  max_open, not_found, bad_path, file_exists, not_exec, not_supp, Outcome, ok, err,
}
use sistemas_operativos_2c.Layout.{fl_if}
use sistemas_operativos_2c.Memory.{Mem}
use sistemas_operativos_2c.Kernel.{
  Trapframe, Kernel, K, pure, ◌>>=◌, ◌>>◌, gets, modify, set_env, deref, returns, panics, is_dying,
  is_running,
}
use sistemas_operativos_2c.Kernel.Env.{env_free, env_run}
use sistemas_operativos_2c.Kernel.Sched.{sched_yield, env_destroy}
use sistemas_operativos_2c.Kernel.Syscall.Dispatch.{syscall}
use sistemas_operativos_2c.Kernel.Trap.{UTrapframe, page_fault_handler}

-- The number of an error in inc/error.h.
pub code_of : Error → ℕ
code_of unspecified = 1
code_of bad_env = 2
code_of inval = 3
code_of no_mem = 4
code_of no_free_env = 5
code_of fault = 6
code_of ipc_not_recv = 7
code_of eof = 8
code_of no_disk = 9
code_of max_open = 10
code_of not_found = 11
code_of bad_path = 12
code_of file_exists = 13
code_of not_exec = 14
code_of not_supp = 15

-- The word of an int that is returned.
pub word_of : Outcome ℕ → ℕ
unfolding code_of
word_of (ok v) = v
word_of (err e) = 2 ^ 32 - code_of e

-- The registers of `other_regs`, by their places in struct PushRegs.
abbrev pub reg_edi : Trapframe → ℕ
reg_edi tf = tf.other_regs 0

abbrev pub reg_esi : Trapframe → ℕ
reg_esi tf = tf.other_regs 1

abbrev pub reg_ebx : Trapframe → ℕ
reg_ebx tf = tf.other_regs 4

abbrev pub reg_edx : Trapframe → ℕ
reg_edx tf = tf.other_regs 5

abbrev pub reg_ecx : Trapframe → ℕ
reg_ecx tf = tf.other_regs 6

pub set_eax : (at : Option ℕ) → ℕ → K (Unit {0})
set_eax none v = pure tt
set_eax (some c) v = modify (set_env c (λ x. record x { env_tf = record x.env_tf { reg_eax = v } }))

abbrev pub is_user : Trapframe → Bool
is_user tf = bit_and tf.tf_cs 3 == 3

-- An environment that is to go is freed.
pub collect_zombie : (c : ℕ) → K (Unit {0})
collect_zombie c k =
    if is_dying (k.envs c).env_status
    then (do env_free c; modify (λ k. record k { curenv = none }); sched_yield) k
    else returns tt k

-- The frame is copied to `curenv`, and `at` is where it is then.
pub from_env : Trapframe → (c : ℕ) → K (Option ℕ)
unfolding collect_zombie
from_env tf c = do
  collect_zombie c
  modify (set_env c (λ x. record x { env_tf = tf }))
  pure (some c)

pub from_user : Trapframe → K (Option ℕ)
unfolding from_env
from_user tf = do cur ← gets (λ k. k.curenv); c ← deref cur; from_env tf c

pub take_frame : Trapframe → K (Option ℕ)
unfolding from_user
take_frame tf = if is_user tf then from_user tf else pure none

-- `curenv` once the trap is handled.
pub go_on_as : (cur : Option ℕ) → K (Unit {0})
go_on_as none k = sched_yield k
go_on_as (some c) k = if is_running (k.envs c).env_status then env_run c k else sched_yield k

pub go_on : K (Unit {0})
unfolding go_on_as
go_on k = go_on_as k.curenv k

module _ (cons_getc : K ℕ) (frame_at : ℕ → Kernel → Trapframe) where
  pub run_syscall : Trapframe → K (Outcome ℕ)
  run_syscall tf k =
      syscall cons_getc (frame_at (reg_ecx tf) k) tf.reg_eax (reg_edx tf) (reg_ecx tf) (reg_ebx tf)
        (reg_edi tf) (reg_esi tf) k

-- What the drivers and the processor do: the monitor, the local APIC and the interrupts of the devices, cons_getc, the
-- frame that a pointer of the environment shows, the store of a frame, and rcr2. `eflags` is what read_eflags gives.
module _ (monitor : Trapframe → K (Unit {0})) (lapic_eoi kbd_intr serial_intr : K (Unit {0}))
    (cons_getc : K ℕ) (frame_at : ℕ → Kernel → Trapframe)
    (store_frame : (cr3 va : ℕ) → UTrapframe → Mem → Mem) (fault_va : ℕ) where
  pub trap_dispatch : (at : Option ℕ) → Trapframe → K (Unit {0})
  unfolding run_syscall page_fault_handler set_eax word_of
  trap_dispatch at tf =
      if tf.tf_trapno == 3
      then monitor tf
      else if tf.tf_trapno == 14
      then page_fault_handler store_frame fault_va tf
      else if tf.tf_trapno == 48
      then (do r ← run_syscall cons_getc frame_at tf; set_eax at (word_of r))
      else if tf.tf_trapno == 39
      then pure tt
      else if tf.tf_trapno == 32
      then (do lapic_eoi; sched_yield)
      else if tf.tf_trapno == 33
      then kbd_intr
      else if tf.tf_trapno == 36
      then serial_intr
      else if tf.tf_cs == 8
      then (λ k. panics)
      else (do cur ← gets (λ k. k.curenv); c ← deref cur; env_destroy c)

  pub trap : (eflags : ℕ) → Trapframe → K (Unit {0})
  unfolding trap_dispatch take_frame go_on
  trap eflags tf =
      if not (bit_and eflags fl_if == 0)
      then (λ k. panics)
      else do at ← take_frame tf; trap_dispatch at tf; go_on
