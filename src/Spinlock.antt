-- ===== src/Spinlock.antt =====
-- tp-parte4/kern/spinlock.c, with DEBUG_SPINLOCK: the steps of the processors between two accesses to the
-- lock that the others see.
pub mod Exclusion
mod Tests
use sistemas_operativos_2c.Common.{
  ℕ, Bool, true, false, ◌&&◌, Option, none, some, ◌≡◌, ◌==◌, if◌then◌else◌, not, update,
}

-- `cpu` is `lk->cpu` by its number.
pub record Spinlock : Type 0 where
  pub locked : ℕ
  pub cpu : Option ℕ

-- Where a processor is: not using the lock, in the loop of spin_lock, after the loop's last xchg, between
-- spin_lock and spin_unlock, and before the xchg of spin_unlock.
pub data Place : Type 0 where
  outside : Place
  spinning : Place
  taken : Place
  inside : Place
  leaving : Place

pub record System : Type 0 where
  pub lock : Spinlock
  pub place : ℕ → Place

abbrev pub is_cpu : Option ℕ → ℕ → Bool
is_cpu none c = false
is_cpu (some d) c = d == c

-- `lk->locked && lk->cpu == thiscpu`
abbrev pub holding : Spinlock → ℕ → Bool
holding lk c = not (lk.locked == 0) && is_cpu lk.cpu c

abbrev pub initlock : Spinlock
initlock = record { locked = 0; cpu = none }

-- The turn of the loop that processor `c` makes: `xchg(&lk->locked, 1) != 0`
pub spin_turn : ℕ → System → System
spin_turn c s = record s {
  lock = record (s.lock) { locked = 1 };
  place = update s.place c (if s.lock.locked == 0 then taken else spinning);
}

-- `lk->cpu = thiscpu`
pub record_cpu : ℕ → System → System
record_cpu c s = record s {
  lock = record (s.lock) { cpu = some c };
  place = update s.place c inside;
}

-- `lk->cpu = 0`
pub clear_cpu : ℕ → System → System
clear_cpu c s = record s { lock = record (s.lock) { cpu = none }; place = update s.place c leaving }

-- `xchg(&lk->locked, 0)`
pub unlock : ℕ → System → System
unlock c s = record s { lock = record (s.lock) { locked = 0 }; place = update s.place c outside }

-- A call of spin_lock or spin_unlock that panics makes no step.
pub data Step : System → System → Type 0 where
  call_lock :
      (c : ℕ) (s : System)
      → s.place c ≡ outside
      → holding s.lock c ≡ false
      → Step s (record s { place = update s.place c spinning })
  turn : (c : ℕ) (s : System) → s.place c ≡ spinning → Step s (spin_turn c s)
  acquired : (c : ℕ) (s : System) → s.place c ≡ taken → Step s (record_cpu c s)
  call_unlock :
      (c : ℕ) (s : System) → s.place c ≡ inside → holding s.lock c ≡ true → Step s (clear_cpu c s)
  released : (c : ℕ) (s : System) → s.place c ≡ leaving → Step s (unlock c s)

pub data Reachable : System → Type 0 where
  start : Reachable (record { lock = initlock; place = λ c. outside })
  next : (s t : System) → Reachable s → Step s t → Reachable t
