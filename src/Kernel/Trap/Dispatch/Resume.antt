-- ===== src/Kernel/Trap/Dispatch/Resume.antt =====
-- How trap of tp-parte4/kern/trap.c resumes an environment after a system call.
use sistemas_operativos_2c.Common.{
  ◌+◌, ◌^◌, List, [], ◌∷◌, get_elem?, arith, ℕ, ◌≡◌, ◌≢◌, refl, ap, ◌∙◌, some, true, false, ==-refl,
  ==_ne, bit_and,
}
use sistemas_operativos_2c.Errors.{
  Error, Outcome, ok, err, unspecified, bad_env, inval, no_mem, no_free_env, fault, ipc_not_recv,
  eof, no_disk, max_open, not_found, bad_path, file_exists, not_exec, not_supp,
}
use sistemas_operativos_2c.Memory.{Mem}
use sistemas_operativos_2c.Kernel.{
  Trapframe, Kernel, K, ◌>>=◌, ◌>>◌, >>=-returns, set_env, deref, deref-some, returns, runs,
  is_dying, is_running,
}
use sistemas_operativos_2c.Kernel.Env.Run.{
  switched, switched-other, env_run-switches, put_back-tf, put_back-mem,
}
use sistemas_operativos_2c.Kernel.Trap.{UTrapframe}
use sistemas_operativos_2c.Kernel.Trap.Dispatch.{
  code_of, word_of, set_eax, run_syscall, trap_dispatch, collect_zombie, from_env, from_user,
  take_frame, go_on_as, go_on, trap,
}

-- The kernel with the frame of the trap in environment `c`.
abbrev pub framed : (c : ℕ) → Trapframe → Kernel → Kernel
framed c tf k = set_env c (λ x. record x { env_tf = tf }) k

-- The errors in the order of inc/error.h, where the first one is 1.
abbrev all_errors : List Error
all_errors =
    unspecified ∷ bad_env ∷ inval ∷ no_mem ∷ no_free_env ∷ fault ∷ ipc_not_recv ∷ eof ∷ no_disk
    ∷ max_open ∷ not_found ∷ bad_path ∷ file_exists ∷ not_exec ∷ not_supp ∷ []

-- The word of a result: the value, or the negative of the error's number.
abbrev pub Answers : Outcome ℕ → ℕ → Type 0
Answers (ok n) v = v ≡ n
Answers (err e) v = (i : ℕ) × (get_elem? all_errors i ≡ some e) × (v + (i + 1) ≡ 2 ^ 32)

word_of-Answers : (r : Outcome ℕ) → Answers r (word_of r)
unfolding word_of code_of
word_of-Answers (ok n) = refl
word_of-Answers (err unspecified) = (0, refl, omega arith)
word_of-Answers (err bad_env) = (1, refl, omega arith)
word_of-Answers (err inval) = (2, refl, omega arith)
word_of-Answers (err no_mem) = (3, refl, omega arith)
word_of-Answers (err no_free_env) = (4, refl, omega arith)
word_of-Answers (err fault) = (5, refl, omega arith)
word_of-Answers (err ipc_not_recv) = (6, refl, omega arith)
word_of-Answers (err eof) = (7, refl, omega arith)
word_of-Answers (err no_disk) = (8, refl, omega arith)
word_of-Answers (err max_open) = (9, refl, omega arith)
word_of-Answers (err not_found) = (10, refl, omega arith)
word_of-Answers (err bad_path) = (11, refl, omega arith)
word_of-Answers (err file_exists) = (12, refl, omega arith)
word_of-Answers (err not_exec) = (13, refl, omega arith)
word_of-Answers (err not_supp) = (14, refl, omega arith)

abbrev with_result : (c : ℕ) → Outcome ℕ → Kernel → Kernel
with_result c r k = set_env c (λ x. record x { env_tf = record x.env_tf { reg_eax = word_of r } }) k

from_user-frames :
    (c : ℕ) (tf : Trapframe) (k : Kernel)
    → k.curenv ≡ some c
    → is_dying (k.envs c).env_status ≡ false
    → from_user tf k ≡ returns (some c) (framed c tf k)
unfolding from_user from_env collect_zombie
from_user-frames c tf k cur alive =
    >>=-returns (deref k.curenv) (from_env tf) k (deref-some k.curenv c k cur)
    ∙ rw (◌>>◌, ◌>>=◌, alive) refl

take_frame-frames :
    (c : ℕ) (tf : Trapframe) (k : Kernel)
    → bit_and tf.tf_cs 3 ≡ 3
    → k.curenv ≡ some c
    → is_dying (k.envs c).env_status ≡ false
    → take_frame tf k ≡ returns (some c) (framed c tf k)
unfolding take_frame
take_frame-frames c tf k user cur alive = rw user (from_user-frames c tf k cur alive)

go_on-runs :
    (c p : ℕ) (k : Kernel)
    → k.curenv ≡ some c
    → is_running (k.envs c).env_status ≡ true
    → (k.envs c).env_pgdir ≡ some p
    → go_on k ≡ runs (switched c p k)
unfolding go_on go_on_as
go_on-runs c p k cur going has = ap (λ x. go_on_as x k) cur ∙ rw going (env_run-switches c p k has)

module _ (monitor : Trapframe → K (Unit {0})) (lapic_eoi kbd_intr serial_intr : K (Unit {0}))
    (cons_getc : K ℕ) (frame_at : ℕ → Kernel → Trapframe)
    (store_frame : (cr3 va : ℕ) → UTrapframe → Mem → Mem) (fault_va : ℕ) where
  trap_dispatch-answers :
      (c : ℕ) (tf : Trapframe) (k k₁ : Kernel) (r : Outcome ℕ)
      → tf.tf_trapno ≡ 48
      → run_syscall cons_getc frame_at tf k ≡ returns r k₁
      → trap_dispatch monitor lapic_eoi kbd_intr serial_intr cons_getc frame_at store_frame fault_va
          (some c)
          tf
          k
        ≡ returns tt (with_result c r k₁)
  unfolding trap_dispatch set_eax
  trap_dispatch-answers c tf k k₁ r number e = rw number (rw (◌>>=◌, e) refl)

  -- A system call from user mode, with interrupts off, by an environment that is not to be freed, where the call comes back
  -- with the environment still the current one and running: the environment goes on with
  -- the call's result in eax (its value or, on an error, the negative of the error's number), the rest of its frame as the call left it, and so are the memory and the
  -- other environments.
  pub trap-resumes :
      (c p eflags : ℕ) (tf : Trapframe) (k k₁ : Kernel) (r : Outcome ℕ)
      → bit_and eflags 0x200 ≡ 0
      → bit_and tf.tf_cs 3 ≡ 3
      → tf.tf_trapno ≡ 48
      → k.curenv ≡ some c
      → is_dying (k.envs c).env_status ≡ false
      → run_syscall cons_getc frame_at tf (framed c tf k) ≡ returns r k₁
      → k₁.curenv ≡ some c
      → is_running (k₁.envs c).env_status ≡ true
      → (k₁.envs c).env_pgdir ≡ some p
      → (k' : Kernel) × (trap monitor lapic_eoi kbd_intr serial_intr cons_getc frame_at store_frame
            fault_va eflags tf k
          ≡ runs k')
        × (k'.curenv ≡ some c)
        × ((v : ℕ) × (Answers r v)
            × ((k'.envs c).env_tf ≡ record (k₁.envs c).env_tf { reg_eax = v }))
        × (k'.mem ≡ k₁.mem)
        × ((i : ℕ) → c ≢ i → k'.envs i ≡ k₁.envs i)
  unfolding trap
  trap-resumes c p eflags tf k k₁ r off user number cur alive e cur₁ going has =
      let k₂ = with_result c r k₁ in
      let dispatch =
        trap_dispatch monitor lapic_eoi kbd_intr serial_intr cons_getc frame_at store_frame
          fault_va in
      let dispatched = trap_dispatch-answers c tf (framed c tf k) k₁ r number e in
      let resumed : go_on k₂ ≡ runs (switched c p k₂) =
        go_on-runs c p k₂ cur₁ (rw (==-refl c) going) (rw (==-refl c) has) in
      (
        switched c p k₂,
        rw off (
            >>=-returns (take_frame tf) (λ at. dispatch at tf >> go_on) k
              (take_frame-frames c tf k user cur alive)
            ∙ >>=-returns (dispatch (some c) tf) (λ _. go_on) (framed c tf k) dispatched
            ∙ resumed),
        refl,
        (word_of r, word_of-Answers r, rw (==-refl c) (put_back-tf k₂ c ∙ rw (==-refl c) refl)),
        put_back-mem k₂,
        λ i ne. switched-other c p i k₂ cur₁ ne ∙ rw (==_ne c i ne) refl,
      )
