-- ===== src/Kernel/Trap/Upcall.antt =====
-- Where page_fault_handler of tp-parte4/kern/trap.c puts its frame, and how the upcall starts.
use sistemas_operativos_2c.Common.{
  ℕ, ◌+◌, ◌≡◌, ◌≢◌, ◌⊎◌, ◌<◌, ◌≤◌, refl, ap, ◌∙◌, some, subst, sym, inl, inr, bit_and, bit_or,
  ==-refl, arith,
}
use sistemas_operativos_2c.Memory.{Mem, pte_u, pte_w}
use sistemas_operativos_2c.Kernel.{Trapframe, Kernel, deref, >>=-returns, set_env, returns, runs}
use sistemas_operativos_2c.Kernel.Env.Run.{switched, env_run-switches, put_back-tf, put_back-mem}
use sistemas_operativos_2c.Kernel.UserMem.{user_mem_assert}
use sistemas_operativos_2c.Kernel.Trap.{
  UTrapframe, frame_size, frame_address, utrapframe, branch_to, enter_upcall, page_fault_handler,
}

-- Where a frame of 56 bytes, its spare word included, begins for a fault at `esp`: it ends at the top of the exception
-- stack or, where the fault was on that stack, at `esp`.
abbrev pub IsPlaced : (esp u : ℕ) → Type 0
IsPlaced esp u =
    (((esp < 0xEEBFF000) ⊎ (0xEEC00000 ≤ esp)) × (u + 56 ≡ 0xEEC00000))
    ⊎ ((0xEEBFF000 ≤ esp) × (esp < 0xEEC00000) × (u + 56 ≡ esp))

frame_address-IsPlaced : (esp u : ℕ) → IsPlaced esp u → frame_address esp ≡ u
unfolding frame_address
frame_address-IsPlaced esp u (inl (inl below, top)) = ground (arith, below, top)
frame_address-IsPlaced esp u (inl (inr above, top)) = ground (arith, above, top)
frame_address-IsPlaced esp u (inr (lo, hi, top)) = ground (arith, lo, hi, top)

module _ (store_frame : (cr3 va : ℕ) → UTrapframe → Mem → Mem) (fault_va : ℕ) where
  -- The kernel before the switch.
  abbrev pub entered : ℕ → ℕ → Trapframe → Kernel → Kernel
  entered c upcall tf k =
      set_env c
        (λ x. record x { env_tf = record tf { tf_eip = upcall; tf_esp = frame_address tf.tf_esp } })
        (record k {
          mem = store_frame k.cr3 (frame_address tf.tf_esp) (utrapframe fault_va tf) k.mem;
        })

  enter_upcall-runs :
      (c upcall pgdir : ℕ) (tf : Trapframe) (k k₁ : Kernel)
      → user_mem_assert c (frame_address tf.tf_esp) frame_size (bit_or pte_u pte_w) k
        ≡ returns tt k₁
      → (k₁.envs c).env_pgdir ≡ some pgdir
      → enter_upcall store_frame fault_va c upcall tf k
        ≡ runs (switched c pgdir (entered c upcall tf k₁))
  unfolding enter_upcall
  enter_upcall-runs c upcall pgdir tf k k₁ ok has =
      >>=-returns (user_mem_assert c (frame_address tf.tf_esp) frame_size (bit_or pte_u pte_w))
        (λ _. branch_to store_frame fault_va c upcall tf) k ok
      ∙ env_run-switches c pgdir (entered c upcall tf k₁) (rw (==-refl c) has)

  enters :
      (c pgdir : ℕ) (tf : Trapframe) (k k₁ : Kernel)
      → bit_and tf.tf_cs 3 ≢ 0
      → k.curenv ≡ some c
      → (k.envs c).env_pgfault_upcall ≢ 0
      → user_mem_assert c (frame_address tf.tf_esp) 56 6 k ≡ returns tt k₁
      → (k₁.envs c).env_pgdir ≡ some pgdir
      → (k' : Kernel) × (page_fault_handler store_frame fault_va tf k ≡ runs k')
        × (k'.curenv ≡ some c)
        × ((k'.envs c).env_tf.tf_eip ≡ (k.envs c).env_pgfault_upcall)
        × ((k'.envs c).env_tf.tf_esp ≡ frame_address tf.tf_esp)
        × (k'.mem ≡ store_frame k₁.cr3 (frame_address tf.tf_esp) (utrapframe fault_va tf) k₁.mem)
  unfolding page_fault_handler deref
  enters c pgdir tf k k₁ user cur has_upcall ok has = (
    switched c pgdir (entered c (k.envs c).env_pgfault_upcall tf k₁),
    ground (arith, cur, enter_upcall-runs c (k.envs c).env_pgfault_upcall pgdir tf k k₁ ok has),
    refl,
    rw (==-refl c) (
        ap (λ (t : Trapframe). t.tf_eip)
          (put_back-tf (entered c (k.envs c).env_pgfault_upcall tf k₁) c)
        ∙ rw (==-refl c) refl),
    rw (==-refl c) (
        ap (λ (t : Trapframe). t.tf_esp)
          (put_back-tf (entered c (k.envs c).env_pgfault_upcall tf k₁) c)
        ∙ rw (==-refl c) refl),
    put_back-mem (entered c (k.envs c).env_pgfault_upcall tf k₁),
  )

  -- A page fault of user code in an environment with an upcall, where the 56 bytes that end at the top of the exception
  -- stack or, if the fault was on that stack, at its esp pass user_mem_assert, enters the upcall in the same
  -- environment with esp at the first of them. The memory is what the store there makes of it, of a frame with the fault's
  -- address, error code, registers, eip, eflags and esp.
  pub page_fault_handler-enters :
      (c pgdir u : ℕ) (tf : Trapframe) (k k₁ : Kernel)
      → bit_and tf.tf_cs 3 ≢ 0
      → k.curenv ≡ some c
      → (k.envs c).env_pgfault_upcall ≢ 0
      → IsPlaced tf.tf_esp u
      → user_mem_assert c u 56 6 k ≡ returns tt k₁
      → (k₁.envs c).env_pgdir ≡ some pgdir
      → (k' : Kernel) × (page_fault_handler store_frame fault_va tf k ≡ runs k')
        × (k'.curenv ≡ some c)
        × ((k'.envs c).env_tf.tf_eip ≡ (k.envs c).env_pgfault_upcall)
        × ((k'.envs c).env_tf.tf_esp ≡ u)
        × (k'.mem
            ≡ store_frame k₁.cr3 u
                (record {
                  utf_fault_va = fault_va;
                  utf_err = tf.tf_err;
                  utf_eax = tf.reg_eax;
                  utf_regs = tf.other_regs;
                  utf_eip = tf.tf_eip;
                  utf_eflags = tf.tf_eflags;
                  utf_esp = tf.tf_esp;
                })
                k₁.mem)
  unfolding utrapframe
  page_fault_handler-enters c pgdir u tf k k₁ user cur has_upcall placed ok has =
      let at = frame_address-IsPlaced tf.tf_esp u placed in
      subst
        (λ x.
          (k' : Kernel) × (page_fault_handler store_frame fault_va tf k ≡ runs k')
          × (k'.curenv ≡ some c)
          × ((k'.envs c).env_tf.tf_eip ≡ (k.envs c).env_pgfault_upcall)
          × ((k'.envs c).env_tf.tf_esp ≡ x)
          × (k'.mem ≡ store_frame k₁.cr3 x (utrapframe fault_va tf) k₁.mem))
        at
        (enters c pgdir tf k k₁ user cur has_upcall
          (subst (λ x. user_mem_assert c x 56 6 k ≡ returns tt k₁) (sym at) ok) has)
