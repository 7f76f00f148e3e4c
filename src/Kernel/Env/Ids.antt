-- ===== src/Kernel/Env/Ids.antt =====
-- Environment ids: what env_alloc of tp-parte4/kern/env.c makes, and what envid2env accepts.
use sistemas_operativos_2c.Common.{
  ℕ, ◌+◌, ◌/◌, ◌%◌, ◌^◌, ◌<◌, ◌≡◌, ◌≢◌, ◌⊎◌, refl, Bool, true, false, some, Option, arith,
}
use sistemas_operativos_2c.Common.Bits.{bit_or_low}
use sistemas_operativos_2c.Errors.{Outcome, ok}
use sistemas_operativos_2c.Kernel.{Kernel, returns, free, is_free}
use sistemas_operativos_2c.Kernel.Env.{envx, next_id, envid2env}

-- The id that a new environment gets is a positive int32_t, names the environment's place in the
-- table, and is not the id that the place had before, so that the old id is stale.
pub next_id-fresh :
    (old e : ℕ)
    → e < 1024
    → (0 < next_id old e)
      × (next_id old e < 2 ^ 31)
      × (envx (next_id old e) ≡ e)
      × (next_id old e ≢ old)
unfolding next_id
next_id-fresh old e h =
    ground (arith, bit_or_low 10 ((old + 2 ^ 12) % 2 ^ 32 / 1024) e h, bit_or_low 10 4 e h)

-- An id other than 0 that envid2env accepts is the id of a used environment in the place that it
-- names, and with `checkperm` that is the current environment or a child of it.
pub envid2env_sound :
    (envid : ℕ) (checkperm : Bool) (k k' : Kernel) (e c : ℕ)
    → envid ≢ 0
    → k.curenv ≡ some c
    → envid2env envid checkperm k ≡ returns (ok (some e)) k'
    → (k' ≡ k)
      × (e ≡ envx envid)
      × ((k.envs e).env_id ≡ envid)
      × ((k.envs e).env_status ≢ free)
      × ((checkperm ≡ false) ⊎ ((e ≡ c) ⊎ ((k.envs e).env_parent_id ≡ (k.envs c).env_id)))
unfolding envid2env
envid2env_sound envid checkperm k k' e c real cur done = ground arith

pub envid2env-keeps :
    (envid : ℕ) (checkperm : Bool) (k k' : Kernel) (r : Outcome (Option ℕ))
    → envid2env envid checkperm k ≡ returns r k'
    → k' ≡ k
unfolding envid2env
envid2env-keeps envid checkperm k k' r h = ground arith

pub envid2env-zero :
    (checkperm : Bool) (k : Kernel) → envid2env 0 checkperm k ≡ returns (ok k.curenv) k
unfolding envid2env
envid2env-zero checkperm k = refl

-- What envid2env does with the id of an environment in use.
pub envid2env-found :
    (envid : ℕ) (k : Kernel)
    → envid ≢ 0
    → (k.envs (envx envid)).env_id ≡ envid
    → is_free (k.envs (envx envid)).env_status ≡ false
    → envid2env envid false k ≡ returns (ok (some (envx envid))) k
unfolding envid2env
envid2env-found envid k real same used = ground arith

pub envid2env-child :
    (envid : ℕ) (k : Kernel) (c : ℕ)
    → envid ≢ 0
    → (k.envs (envx envid)).env_id ≡ envid
    → is_free (k.envs (envx envid)).env_status ≡ false
    → (k.envs (envx envid)).env_parent_id ≡ (k.envs c).env_id
    → k.curenv ≡ some c
    → envid2env envid true k ≡ returns (ok (some (envx envid))) k
unfolding envid2env
envid2env-child envid k c real same used child cur = ground arith
