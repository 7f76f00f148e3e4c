-- ===== src/Kernel/Syscall/Ipc.antt =====
-- sys_ipc_recv and sys_ipc_try_send of tp-parte4/kern/syscall.c.
use sistemas_operativos_2c.Common.{
  ℕ, ◌%◌, ◌<◌, ◌≤◌, ◌≡◌, true, false, some, ltb_lt, ltb_ge, ◌==◌, arith, Bool-cases, inl, inr, sym,
  refl, ◌∙◌, if◌then◌else◌,
}
use sistemas_operativos_2c.Errors.{Error, Outcome, ok, err, ipc_not_recv, inval}
use sistemas_operativos_2c.Layout.{utop}
use sistemas_operativos_2c.Kernel.{runnable, Kernel, deref, ◌>>=◌, returns, set_env}
use sistemas_operativos_2c.Kernel.Env.{envid2env}
use sistemas_operativos_2c.Kernel.Env.Ids.{envid2env-keeps}
use sistemas_operativos_2c.Kernel.Syscall.{sys_ipc_try_send, send_page, current, deliver}

-- A send to an environment that does not wait returns -E_IPC_NOT_RECV and changes nothing.
pub sys_ipc_try_send-refused :
    (envid value srcva perm e : ℕ) (k : Kernel)
    → envid2env envid false k ≡ returns (ok (some e)) k
    → (k.envs e).env_ipc_recving ≡ false
    → sys_ipc_try_send envid value srcva perm k ≡ returns (err ipc_not_recv) k
unfolding sys_ipc_try_send deref
sys_ipc_try_send-refused envid value srcva perm e k target idle = rw (target, ◌>>=◌) (rw idle)

pub current-cur : (c : ℕ) (k : Kernel) → k.curenv ≡ some c → current k ≡ returns c k
unfolding current deref
current-cur c k cur = rw cur

sys_ipc_try_send-waits :
    (envid value srcva perm e c : ℕ) (k : Kernel)
    → envid2env envid false k ≡ returns (ok (some e)) k
    → (k.envs e).env_ipc_recving ≡ true
    → k.curenv ≡ some c
    → utop ≤ srcva
    → sys_ipc_try_send envid value srcva perm k
      ≡ returns (ok 0) (set_env e (deliver 0 (k.envs c).env_id value) k)
unfolding sys_ipc_try_send deref
sys_ipc_try_send-waits envid value srcva perm e c k target waits cur far =
    rw (target, ◌>>=◌)
      (rw waits
        (rw (ltb_ge srcva utop far) (rw (current-cur c k cur, ◌>>=◌) (rw (ltb_ge srcva utop far)))))

-- A send with no page, to an environment that the caller may name: if it waits, it gets the
-- value, the sender's id and no permissions, is runnable and no longer waiting, and nothing else changes;
-- if it does not wait, the send returns -E_IPC_NOT_RECV and changes nothing.
pub sys_ipc_try_send-value :
    (envid value srcva perm e c : ℕ) (k : Kernel)
    → envid2env envid false k ≡ returns (ok (some e)) k
    → k.curenv ≡ some c
    → utop ≤ srcva
    → sys_ipc_try_send envid value srcva perm k ≡ (
        if (k.envs e).env_ipc_recving
        then returns (ok 0) (
            set_env e
              (λ x. record x {
                env_status = runnable;
                env_ipc_recving = false;
                env_ipc_value = value;
                env_ipc_from = (k.envs c).env_id;
                env_ipc_perm = 0;
              })
              k)
        else returns (err ipc_not_recv) k)
sys_ipc_try_send-value envid value srcva perm e c k target cur far =
    elim (Bool-cases (k.envs e).env_ipc_recving) [
      | inl waits ↦
          sys_ipc_try_send-waits envid value srcva perm e c k target waits cur far
          ∙ sym (rw waits refl)
      | inr idle ↦
          sys_ipc_try_send-refused envid value srcva perm e k target idle ∙ sym (rw idle refl)
    ]

-- A send whose page transfer fails returns the error of the transfer, and the kernel is as the
-- transfer left it: nothing is delivered.
pub sys_ipc_try_send-not_delivered :
    (envid value srcva perm e : ℕ) (k k' : Kernel) (x : Error)
    → envid2env envid false k ≡ returns (ok (some e)) k
    → (k.envs e).env_ipc_recving ≡ true
    → srcva < utop
    → send_page e srcva perm k ≡ returns (err x) k'
    → sys_ipc_try_send envid value srcva perm k ≡ returns (err x) k'
unfolding sys_ipc_try_send deref
sys_ipc_try_send-not_delivered envid value srcva perm e k k' x target waits near failed =
    rw (target, ◌>>=◌) (rw waits (rw (ltb_lt srcva utop near) (rw (failed, ◌>>=◌))))

pub sys_ipc_try_send-page :
    (envid value srcva perm e c : ℕ) (k k' : Kernel)
    → envid2env envid false k ≡ returns (ok (some e)) k
    → (k.envs e).env_ipc_recving ≡ true
    → srcva < utop
    → send_page e srcva perm k ≡ returns (ok tt) k'
    → k'.curenv ≡ some c
    → sys_ipc_try_send envid value srcva perm k
      ≡ returns (ok 0) (set_env e (deliver perm (k'.envs c).env_id value) k')
unfolding sys_ipc_try_send deref
sys_ipc_try_send-page envid value srcva perm e c k k' target waits near sent cur =
    rw (target, ◌>>=◌)
      (rw waits (
        rw (ltb_lt srcva utop near)
          (rw (sent, ◌>>=◌) (rw (current-cur c k' cur, ◌>>=◌) (rw (ltb_lt srcva utop near))))))

pub send_page-unaligned :
    (e srcva perm : ℕ) (k : Kernel)
    → (srcva % 4096 == 0) ≡ false
    → send_page e srcva perm k ≡ returns (err inval) k
unfolding send_page
send_page-unaligned e srcva perm k odd = rw odd

-- The transfer of a page changes no environment and not the current one.
pub send_page-keeps :
    (e srcva perm : ℕ) (k k' : Kernel) (r : Outcome (Unit {0}))
    → send_page e srcva perm k ≡ returns r k'
    → (k'.envs ≡ k.envs) × (k'.curenv ≡ k.curenv)
unfolding send_page current deref
send_page-keeps e srcva perm k k' r h = ground arith

-- A send that returns an error has changed no environment.
pub sys_ipc_try_send-error :
    (envid value srcva perm : ℕ) (k k' : Kernel) (x : Error)
    → sys_ipc_try_send envid value srcva perm k ≡ returns (err x) k'
    → k'.envs ≡ k.envs
unfolding sys_ipc_try_send send_page current deref
sys_ipc_try_send-error envid value srcva perm k k' x h = grind (arith, envid2env-keeps)
