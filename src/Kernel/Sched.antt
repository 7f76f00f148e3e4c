-- ===== src/Kernel/Sched.antt =====
-- tp-parte4/kern/sched.c, and env_destroy of kern/env.c, which calls the scheduler.
pub mod RoundRobin
use sistemas_operativos_2c.Common.{
  ℕ, zero, suc, ◌+◌, ◌-◌, Bool, true, false, ◌&&◌, ◌||◌, not, Option, none, some, ◌==◌,
  if◌then◌else◌,
}
use sistemas_operativos_2c.Layout.{nenv}
use sistemas_operativos_2c.Memory.{page2pa}
use sistemas_operativos_2c.Kernel.{
  Kernel, EnvData, K, pure, ◌>>=◌, ◌>>◌, gets, modify, set_env, returns, halts, monitors, dying,
  is_runnable, is_running, is_dying,
}
use sistemas_operativos_2c.Kernel.Env.{envx, env_run, env_free, is_cur}

-- A loop of sched_yield: the first runnable environment among `rounds` of them from `i` on.
pub first_runnable : ℕ → ℕ → (ℕ → EnvData) → Option ℕ
first_runnable zero i envs = none
first_runnable (suc rounds) i envs =
    let rest = first_runnable rounds (i + 1) envs in
    if is_runnable (envs i).env_status then some i else rest

abbrev pub is_live : EnvData → Bool
is_live x = is_runnable x.env_status || is_running x.env_status || is_dying x.env_status

-- The loop of sched_halt: does it stop before `NENV`?
pub any_live : ℕ → ℕ → (ℕ → EnvData) → Bool
any_live zero i envs = false
any_live (suc rounds) i envs =
    let rest = any_live rounds (i + 1) envs in if is_live (envs i) then true else rest

pub sched_halt : K (Unit {0})
sched_halt k =
    if any_live nenv 0 k.envs
    then halts (record k { curenv = none; cr3 = page2pa k.kern_pgdir })
    else monitors k

-- `curenv ? ENVX(curenv->env_id) + 1 : 0`
abbrev pub start_index : Kernel → ℕ
start_index k = elim k.curenv [ none ↦ 0 | some c ↦ envx (k.envs c).env_id + 1 ]

abbrev pub resume : K (Unit {0})
resume k = elim k.curenv [
  | none ↦ sched_halt k
  | some c ↦ if is_running (k.envs c).env_status then env_run c k else sched_halt k
]

-- env_run does not come back, so each loop ends at the first environment that it finds.
pub sched_yield : K (Unit {0})
sched_yield k =
    let env_idx = start_index k in
    elim (first_runnable (nenv - env_idx) env_idx k.envs) [
      | some i ↦ env_run i k
      | none ↦ elim (first_runnable env_idx 0 k.envs) [ some i ↦ env_run i k | none ↦ resume k ]
    ]

pub env_destroy : ℕ → K (Unit {0})
env_destroy e k =
    if is_running (k.envs e).env_status && not (is_cur e k)
    then returns tt (set_env e (λ x. record x { env_status = dying }) k)
    else (do
      env_free e
      was_cur ← gets (is_cur e)
      if was_cur then (do modify (λ k. record k { curenv = none }); sched_yield) else pure tt)
        k
