-- ===== src/Kernel/Env/Run.antt =====
-- The switch that env_run of tp-parte4/kern/env.c makes.
use sistemas_operativos_2c.Common.{ℕ, ◌+◌, ◌%◌, ◌^◌, ◌≡◌, ◌≢◌, some, arith, ==-refl, ==_ne}
use sistemas_operativos_2c.Memory.{page2pa}
use sistemas_operativos_2c.Kernel.{Kernel, deref, runs, running, set_env}
use sistemas_operativos_2c.Kernel.Env.{env_run, put_back}

abbrev pub switched : ℕ → ℕ → Kernel → Kernel
switched e pgdir k =
    record (set_env e (λ x. record x { env_status = running; env_runs = (x.env_runs + 1) % 2 ^ 32 })
      (put_back k)) { curenv = some e; cr3 = page2pa pgdir }

put_back-pgdir : (k : Kernel) (e : ℕ) → ((put_back k).envs e).env_pgdir ≡ (k.envs e).env_pgdir
unfolding put_back
put_back-pgdir k e = ground arith

-- An environment with a page directory is entered.
pub env_run-switches :
    (e pgdir : ℕ) (k : Kernel)
    → (k.envs e).env_pgdir ≡ some pgdir
    → env_run e k ≡ runs (switched e pgdir k)
unfolding env_run deref
env_run-switches e pgdir k has = rw (==-refl e) (rw (put_back-pgdir k e, has))

pub put_back-id : (k : Kernel) (e : ℕ) → ((put_back k).envs e).env_id ≡ (k.envs e).env_id
unfolding put_back
put_back-id k e = ground arith

-- The switch changes no id.
pub switched-id :
    (e pgdir i : ℕ) (k : Kernel) → ((switched e pgdir k).envs i).env_id ≡ (k.envs i).env_id
switched-id e pgdir i k = ground (arith, put_back-id k i, put_back-id k e)

pub put_back-tf : (k : Kernel) (e : ℕ) → ((put_back k).envs e).env_tf ≡ (k.envs e).env_tf
unfolding put_back
put_back-tf k e = ground arith

pub put_back-mem : (k : Kernel) → (put_back k).mem ≡ k.mem
unfolding put_back
put_back-mem k = ground arith

pub switched-other :
    (c p i : ℕ) (k : Kernel) → k.curenv ≡ some c → c ≢ i → (switched c p k).envs i ≡ k.envs i
unfolding put_back
switched-other c p i k cur ne = ground (arith, cur, ==_ne c i ne)
