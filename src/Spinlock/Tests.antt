-- ===== src/Spinlock/Tests.antt =====
-- A processor that takes the free lock.
use sistemas_operativos_2c.Common.{ℕ, ◌≡◌, refl, true}
use sistemas_operativos_2c.Spinlock.{
  System, Reachable, outside, spinning, initlock, holding, spin_turn, record_cpu, call_lock, turn,
  acquired, start, next,
}
use sistemas_operativos_2c.Common.{update}
use sistemas_operativos_2c.Spinlock.Exclusion.{spin_lock-excludes}

abbrev initial : System
initial = record { lock = initlock; place = λ c. outside }

abbrev waiting : System
waiting = record initial { place = update initial.place 3 spinning }

abbrev entered : System
entered = record_cpu 3 (spin_turn 3 waiting)

entered-Reachable : Reachable entered
unfolding spin_turn record_cpu
entered-Reachable =
    next _ _ (next _ _ (next _ _ start (call_lock 3 initial refl refl)) (turn 3 waiting refl))
      (acquired 3 (spin_turn 3 waiting) refl)

spin_lock-excludes_example : (◌≡◌ {A = ℕ} 3 3) × (holding entered.lock 3 ≡ true)
unfolding spin_turn record_cpu
spin_lock-excludes_example = spin_lock-excludes entered 3 3 entered-Reachable refl refl
