-- ===== src/Kernel/UserMem/Tests.antt =====
-- Tests of user_mem_check of tp-parte4/kern/pmap.c on the memory of the tests of pmap.c.
use sistemas_operativos_2c.Common.{
  ◌+◌, ◌≡◌, ◌&&◌, ◌==◌, if◌then◌else◌, refl, none, some, false, arith,
}
use sistemas_operativos_2c.Memory.{Mem}
use sistemas_operativos_2c.Kernel.{Kernel, returns, deref, in_memory, pure, >>=-returns}
use sistemas_operativos_2c.Kernel.Sched.{env_destroy}
use sistemas_operativos_2c.Memory.Walk.{pgdir_walk-present}
use sistemas_operativos_2c.Memory.Tests.{va, mem}
use sistemas_operativos_2c.Kernel.UserMem.{user_mem_check, check_pages, user_mem_assert}
use sistemas_operativos_2c.Kernel.UserMem.Sound.{
  IsAccessible, user_mem_check_sound, user_mem_check-wraps,
}

one_page : check_pages 1 (va + 10) 5 1 va mem ≡ some (none, mem)
unfolding check_pages
one_page = rw (pgdir_walk-present mem 1 va false (omega arith) (omega arith), check_pages) refl

checked : user_mem_check 1 (va + 10) 100 5 mem ≡ some (none, mem)
unfolding user_mem_check
checked = one_page

user_mem_check_sound_example : IsAccessible mem 1 5 (va + 20)
user_mem_check_sound_example =
    user_mem_check_sound 1 (va + 10) 100 5 (va + 20) mem mem (omega arith) checked (omega arith)
      (omega arith)

user_mem_check-wraps_example : user_mem_check 1 0xE0000000 0x20000000 5 mem ≡ some (none, mem)
user_mem_check-wraps_example =
    user_mem_check-wraps 1 0xE0000000 0x20000000 5 mem (omega arith) (omega arith) (omega arith)

-- A page for the exception stack.
abbrev pub stack_mem : Mem
stack_mem = record mem {
  word = λ page i.
      if page == 1 && i == 954 then 0x2007 else if page == 2 && i == 1023 then 0x3007 else 0;
}

stack_page : check_pages 1 0xEEBFFFC8 6 1 0xEEBFF000 stack_mem ≡ some (none, stack_mem)
unfolding check_pages
stack_page =
    rw (pgdir_walk-present stack_mem 1 0xEEBFF000 false (omega arith) (omega arith), check_pages)
      refl

stack_checked : user_mem_check 1 0xEEBFFFC8 56 6 stack_mem ≡ some (none, stack_mem)
unfolding user_mem_check
stack_checked = stack_page

stack_run :
    (k : Kernel)
    → in_memory (user_mem_check 1 0xEEBFFFC8 56 6) (record k { mem = stack_mem })
      ≡ returns none (record k { mem = stack_mem })
stack_run k = rw (in_memory, stack_checked)

-- The check of a frame at the top of the exception stack.
pub stack_asserted :
    (k : Kernel)
    → (k.envs 0).env_pgdir ≡ some 1
    → user_mem_assert 0 0xEEBFFFC8 56 6 (record k { mem = stack_mem })
      ≡ returns tt (record k { mem = stack_mem })
unfolding user_mem_assert deref
stack_asserted k dir = rw dir (
    >>=-returns (in_memory (user_mem_check 1 0xEEBFFFC8 56 6))
      (λ r. elim r [ none ↦ pure tt | some addr ↦ env_destroy 0 ]) (record k { mem = stack_mem })
      (stack_run k))
