-- ===== src/Spinlock/Exclusion.antt =====
-- Mutual exclusion by the lock of tp-parte4/kern/spinlock.c.
use sistemas_operativos_2c.Common.{ℕ, Bool, true, false, ◌≡◌, refl, arith}
use sistemas_operativos_2c.Spinlock.{
  System, Place, Step, Reachable, outside, spinning, taken, inside, leaving, holding, is_cpu,
  spin_turn, record_cpu, clear_cpu, unlock, call_lock, turn, acquired, call_unlock, released, start,
  next,
}

abbrev has_lock : Place → Bool
has_lock outside = false
has_lock spinning = false
has_lock taken = true
has_lock inside = true
has_lock leaving = true

abbrev is_inside : Place → Bool
is_inside inside = true
is_inside p = false

record IsSound (s : System) : Type 0 where
  one : (x y : ℕ) → has_lock (s.place x) ≡ true → has_lock (s.place y) ≡ true → x ≡ y
  locked : (x : ℕ) → has_lock (s.place x) ≡ true → s.lock.locked ≡ 1
  named : (x : ℕ) → is_inside (s.place x) ≡ true → is_cpu s.lock.cpu x ≡ true

Step-one :
    (s t : System)
    → IsSound s
    → Step s t
    → (x y : ℕ) → has_lock (t.place x) ≡ true
    → has_lock (t.place y) ≡ true
    → x ≡ y
unfolding spin_turn record_cpu clear_cpu unlock
Step-one _ _ i (call_lock c s p h) x y hx hy = ground (arith, i.one x y)
Step-one _ _ i (turn c s p) x y hx hy = ground (arith, i.one x y, i.locked x, i.locked y)
Step-one _ _ i (acquired c s p) x y hx hy = ground (arith, p, i.one x y, i.one c x, i.one c y)
Step-one _ _ i (call_unlock c s p h) x y hx hy = ground (arith, p, i.one x y, i.one c x, i.one c y)
Step-one _ _ i (released c s p) x y hx hy = ground (arith, p, i.one x y)

Step-locked :
    (s t : System)
    → IsSound s
    → Step s t
    → (x : ℕ) → has_lock (t.place x) ≡ true
    → t.lock.locked ≡ 1
unfolding spin_turn record_cpu clear_cpu unlock
Step-locked _ _ i (call_lock c s p h) x hx = ground (arith, i.locked x)
Step-locked _ _ i (turn c s p) x hx = refl
Step-locked _ _ i (acquired c s p) x hx = ground (arith, p, i.locked x, i.locked c)
Step-locked _ _ i (call_unlock c s p h) x hx = ground (arith, p, i.locked x, i.locked c)
Step-locked _ _ i (released c s p) x hx = ground (arith, p, i.one c x)

Step-named :
    (s t : System)
    → IsSound s
    → Step s t
    → (x : ℕ) → is_inside (t.place x) ≡ true
    → is_cpu t.lock.cpu x ≡ true
unfolding spin_turn record_cpu clear_cpu unlock
Step-named _ _ i (call_lock c s p h) x hx = ground (arith, i.named x)
Step-named _ _ i (turn c s p) x hx = ground (arith, i.named x)
Step-named _ _ i (acquired c s p) x hx = ground (arith, p, i.one c x)
Step-named _ _ i (call_unlock c s p h) x hx = ground (arith, p, i.one c x)
Step-named _ _ i (released c s p) x hx = ground (arith, p, i.named x)

Reachable-IsSound : (s : System) → Reachable s → IsSound s
Reachable-IsSound s start = record { one = λ x y h k. cc; locked = λ x h. cc; named = λ x h. cc }
Reachable-IsSound s (next r t reached step) =
    let i = Reachable-IsSound r reached in
    record {
      one = Step-one r t i step;
      locked = Step-locked r t i step;
      named = Step-named r t i step;
    }

-- However the processors' steps are interleaved, two that are between spin_lock and spin_unlock are the same
-- one, and the lock is held in its name, so that its spin_unlock does not panic.
pub spin_lock-excludes :
    (s : System) (x y : ℕ)
    → Reachable s
    → s.place x ≡ inside
    → s.place y ≡ inside
    → (x ≡ y) × (holding s.lock x ≡ true)
spin_lock-excludes s x y r hx hy =
    let i = Reachable-IsSound s r in ground (arith, hx, hy, i.one x y, i.locked x, i.named x)
