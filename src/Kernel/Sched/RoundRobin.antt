-- ===== src/Kernel/Sched/RoundRobin.antt =====
-- Which environment sched_yield of tp-parte4/kern/sched.c runs.
use sistemas_operativos_2c.Common.{
  ℕ, zero, suc, ◌+◌, ◌-◌, ◌%◌, ◌<◌, ◌≤◌, ◌≡◌, ◌⊎◌, inl, inr, refl, true, false, some, none, arith,
  Bool-cases, Option-cases, subst, ◌∙◌,
}
use native.Mathlib.Decide.{dec_lt}
use sistemas_operativos_2c.Layout.{nenv}
use sistemas_operativos_2c.Kernel.{Kernel, EnvData, is_runnable, runs}
use sistemas_operativos_2c.Kernel.Env.{envx, env_run}
use sistemas_operativos_2c.Kernel.Env.Run.{switched, env_run-switches, switched-id}
use sistemas_operativos_2c.Kernel.Sched.{first_runnable, start_index, sched_yield}

abbrev pub Runnable : (ℕ → EnvData) → ℕ → Type 0
Runnable envs i = is_runnable (envs i).env_status ≡ true

-- What the loop finds is runnable, in its range, and no place before it is runnable.
pub first_runnable-some :
    (rounds i : ℕ) (envs : ℕ → EnvData) (r : ℕ)
    → first_runnable rounds i envs ≡ some r
    → Runnable envs r
      × (i ≤ r)
      × (r < i + rounds)
      × ((j : ℕ) → i ≤ j → j < r → is_runnable (envs j).env_status ≡ false)
unfolding first_runnable
first_runnable-some zero i envs r h = absurd (cc)
first_runnable-some (suc rounds) i envs r h = elim (Bool-cases (is_runnable (envs i).env_status)) [
  | inl e ↦ let at_once : some i ≡ some r = rw e at h in ground (arith, e, at_once)
  | inr e ↦
      let later : first_runnable rounds (i + 1) envs ≡ some r = rw e at h in
      let ih = first_runnable-some rounds (i + 1) envs r later in
      (
        ih.0,
        omega arith,
        omega arith,
        λ j lo hi. elim (dec_lt i j) [
          | yes beyond ↦ ih.3 j (omega arith) hi
          | no here ↦ subst (λ x. is_runnable (envs x).env_status ≡ false) (omega arith) e
        ],
      )
]

pub first_runnable-none :
    (rounds i : ℕ) (envs : ℕ → EnvData)
    → first_runnable rounds i envs ≡ none
    → (j : ℕ) → i ≤ j
    → j < i + rounds
    → is_runnable (envs j).env_status ≡ false
unfolding first_runnable
first_runnable-none zero i envs h j lo hi = absurd (omega arith)
first_runnable-none (suc rounds) i envs h j lo hi =
    elim (Bool-cases (is_runnable (envs i).env_status)) [
      | inl e ↦ let at_once : some i ≡ none = rw e at h in absurd (cc)
      | inr e ↦
          let later : first_runnable rounds (i + 1) envs ≡ none = rw e at h in
          elim (dec_lt i j) [
            | yes beyond ↦
                first_runnable-none rounds (i + 1) envs later j (omega arith) (omega arith)
            | no here ↦ subst (λ x. is_runnable (envs x).env_status ≡ false) (omega arith) e
          ]
    ]

-- How many places after `start` a place comes, going round the table.
abbrev pub turns : ℕ → ℕ → ℕ
turns start j = (j + 1024 - start) % 1024

start_index-le : (k : Kernel) → start_index k ≤ 1024
start_index-le k = ground arith

nearest :
    (envs : ℕ → EnvData) (start i j : ℕ)
    → (j < 1024 → Runnable envs j → turns start i ≤ turns start j)
    → (1024 ≤ j) ⊎ ((is_runnable (envs j).env_status ≡ false) ⊎ (turns start i ≤ turns start j))
nearest envs start i j h = elim (dec_lt j 1024) [
  | no out ↦ inl (omega (arith, out))
  | yes inside ↦ elim (Bool-cases (is_runnable (envs j).env_status)) [
    | inl e ↦ inr (inr (h inside e))
    | inr e ↦ inr (inl e)
  ]
]

-- If an environment is runnable, sched_yield runs a runnable one, and of all the runnable ones the
-- one that comes first, going round the table from the place after the current environment.
pub sched_yield-first :
    (k : Kernel) (j : ℕ)
    → j < 1024
    → Runnable k.envs j
    → (i : ℕ) × (sched_yield k ≡ env_run i k)
      × (i < 1024)
      × Runnable k.envs i
      × ((j : ℕ)
          → (1024 ≤ j)
            ⊎ ((is_runnable (k.envs j).env_status ≡ false)
                ⊎ (turns (start_index k) i ≤ turns (start_index k) j)))
unfolding sched_yield
sched_yield-first k j inside ready = elim (Option-cases (first_runnable (nenv - s) s k.envs)) [
  | inr (i, e) ↦
      let found = first_runnable-some (nenv - s) s k.envs i e in
      (
        i,
        rw (e, sched_yield),
        omega arith,
        found.0,
        λ j. nearest k.envs s i j λ hj ready. ground (arith, small, found.3 j),
      )
  | inl e ↦ elim (Option-cases (first_runnable s 0 k.envs)) [
    | inr (i, e') ↦
        let found = first_runnable-some s 0 k.envs i e' in
        (
          i,
          rw (e, sched_yield) (rw e'),
          omega (arith, found.2, small),
          found.0,
          λ j. nearest k.envs s i j λ hj ready.
              ground (arith, small, found.3 j, first_runnable-none (nenv - s) s k.envs e j),
        )
    | inl e' ↦ absurd (
        ground (
          arith,
          small,
          ready,
          first_runnable-none (nenv - s) s k.envs e j,
          first_runnable-none s 0 k.envs e' j,
        ))
  ]
]
  where
    s : ℕ
    s = start_index k

    small : start_index k ≤ 1024
    small = start_index-le k

-- Where a runnable environment waits, and each runnable environment's id names its place and it has a
-- page directory, a yield runs the one that waits, or another one after which it is nearer to its turn.
pub sched_yield-nearer :
    (k : Kernel) (j : ℕ)
    → j < 1024
    → Runnable k.envs j
    → ((i : ℕ)
        → i < 1024
        → Runnable k.envs i
        → (envx (k.envs i).env_id ≡ i) × ((p : ℕ) × ((k.envs i).env_pgdir ≡ some p)))
    → (i : ℕ) × (k' : Kernel) × (sched_yield k ≡ runs k')
      × (k'.curenv ≡ some i)
      × ((i ≡ j) ⊎ (turns (start_index k') j < turns (start_index k) j))
sched_yield-nearer k j inside ready formed =
    let (i, picked, real, found, first) = sched_yield-first k j inside ready in
    let (named, paged) = formed i real found in
    let (p, has) = paged in
    let k' = switched i p k in
    (
      i,
      k',
      picked ∙ env_run-switches i p k has,
      refl,
      ground (arith, inside, ready, first j, named, switched-id i p i k, start_index-le k),
    )
