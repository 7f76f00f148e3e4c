-- ===== src/Kernel.antt =====
-- The state of the tp-parte4 kernel: struct Env (inc/env.h), the environment table, the memory, and
-- what the processor is told. A call that gives up the processor is a `Flow` with no value.
pub mod Env
pub mod Sched
pub mod UserMem
pub mod Syscall
pub mod Trap
mod Tests
use sistemas_operativos_2c.Common.{ℕ, Bool, Option, none, some, update, ◌≡◌, arith}
use sistemas_operativos_2c.Memory.{Mem, M}

pub data Status : Type 0 where
  free : Status
  dying : Status
  runnable : Status
  running : Status
  not_runnable : Status

pub data EnvType : Type 0 where
  user : EnvType
  fs : EnvType

-- struct Trapframe: the registers that the kernel sets by name, and the others together.
pub record Trapframe : Type 0 where
  pub reg_eax : ℕ
  pub other_regs : ℕ → ℕ
  pub tf_es : ℕ
  pub tf_ds : ℕ
  pub tf_trapno : ℕ
  pub tf_err : ℕ
  pub tf_eip : ℕ
  pub tf_cs : ℕ
  pub tf_eflags : ℕ
  pub tf_esp : ℕ
  pub tf_ss : ℕ

-- struct Env. A pointer to an environment is its index in `envs`; `env_pgdir` is a page number.
pub record EnvData : Type 0 where
  pub env_tf : Trapframe
  pub env_link : Option ℕ
  pub env_id : ℕ
  pub env_parent_id : ℕ
  pub env_type : EnvType
  pub env_status : Status
  pub env_runs : ℕ
  pub env_pgdir : Option ℕ
  pub env_pgfault_upcall : ℕ
  pub env_ipc_recving : Bool
  pub env_ipc_dstva : ℕ
  pub env_ipc_value : ℕ
  pub env_ipc_from : ℕ
  pub env_ipc_perm : ℕ

pub record Kernel : Type 0 where
  pub mem : Mem
  pub envs : ℕ → EnvData
  pub env_free_list : Option ℕ
  pub curenv : Option ℕ
  pub kern_pgdir : ℕ
  pub cr3 : ℕ

-- How kernel code ends: it returns, enters user mode in `curenv`, halts the processor, stays in
-- the monitor, or panics.
pub data Flow (A : Type 0) : Type 0 where
  returns : A → Kernel → Flow A
  runs : Kernel → Flow A
  halts : Kernel → Flow A
  monitors : Kernel → Flow A
  panics : Flow A

abbrev pub K : Type 0 → Type 0
K A = Kernel → Flow A

abbrev pub pure : {A : Type 0} → A → K A
pure a k = returns a k

infixl 5 ◌>>=◌ ◌>>◌
abbrev pub ◌>>=◌ : {A B : Type 0} → K A → (A → K B) → K B
◌>>=◌ c f k = elim (c k) [
  | returns a k' ↦ f a k'
  | runs k' ↦ runs k'
  | halts k' ↦ halts k'
  | monitors k' ↦ monitors k'
  | panics ↦ panics
]

abbrev pub ◌>>◌ : {B : Type 0} → K (Unit {0}) → K B → K B
c >> f = c >>= λ _. f

-- Code of pmap.c, run on the kernel's memory.
abbrev pub in_memory : {A : Type 0} → M A → K A
in_memory c k = elim (c k.mem) [ none ↦ panics | some (a, m) ↦ returns a (record k { mem = m }) ]

-- `envs[i].… = …`
abbrev pub set_env : ℕ → (EnvData → EnvData) → Kernel → Kernel
set_env i f k = record k { envs = update k.envs i (f (k.envs i)) }

-- A pointer that is followed must not be NULL.
pub deref : {A : Type 0} → Option A → K A
deref p k = elim p [ none ↦ panics | some a ↦ returns a k ]

pub deref-some :
    {A : Type 0} (p : Option A) (a : A) (k : Kernel) → p ≡ some a → deref p k ≡ returns a k
unfolding deref
deref-some p a k e = rw e

pub deref-keeps :
    {A : Type 0} (p : Option A) (a : A) (k k' : Kernel) → deref p k ≡ returns a k' → k' ≡ k
unfolding deref
deref-keeps p a k k' e = ground arith

-- What `tlb_invalidate` reads of `curenv`.
abbrev pub cur_pgdir : Kernel → Option (Option ℕ)
cur_pgdir k = elim k.curenv [ none ↦ none | some c ↦ some (k.envs c).env_pgdir ]

abbrev pub is_runnable : Status → Bool
is_runnable runnable = Bool.true
is_runnable s = Bool.false

abbrev pub is_running : Status → Bool
is_running running = Bool.true
is_running s = Bool.false

abbrev pub is_free : Status → Bool
is_free free = Bool.true
is_free s = Bool.false

abbrev pub is_dying : Status → Bool
is_dying dying = Bool.true
is_dying s = Bool.false

abbrev pub gets : {A : Type 0} → (Kernel → A) → K A
gets f k = returns (f k) k

abbrev pub modify : (Kernel → Kernel) → K (Unit {0})
modify f k = returns tt (f k)

pub >>=-returns :
    {A B : Type 0} (c : K A) (f : A → K B) (k : Kernel) {a : A} {k' : Kernel}
    → c k ≡ returns a k'
    → (c >>= f) k ≡ f a k'
>>=-returns c f k e = rw (◌>>=◌, e)
