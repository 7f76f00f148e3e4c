-- ===== src/Memory/Boot/Tests.antt =====
-- Tests of page_init and boot_alloc of tp-parte4/kern/pmap.c on a machine with 300 pages.
use sistemas_operativos_2c.Common.{◌+◌, ◌-◌, ◌*◌, ◌%◌, ◌^◌, ◌≤◌, ◌≡◌, refl, none, some, [], arith}
use sistemas_operativos_2c.Layout.{kernbase}
use sistemas_operativos_2c.Memory.{Mem, pgnum}
use sistemas_operativos_2c.Memory.FreeList.{HasFree}
use sistemas_operativos_2c.Memory.Boot.{boot_alloc, page_init}
use sistemas_operativos_2c.Memory.Boot.FreePages.{usable_below, boot_alloc-apart, page_init-HasFree}

abbrev machine : Mem
machine = record {
  npages = 300;
  pp_ref = λ _. 0;
  pp_link = λ _. none;
  page_free_list = none;
  word = λ _ _. 0;
  flushed = [];
}

page_init-HasFree_example :
    (m' : Mem) × (page_init 0xF0118000 machine ≡ some (tt, m'))
    × HasFree m' (usable_below (pgnum (0xF0118000 - kernbase)) 300)
page_init-HasFree_example =
    page_init-HasFree 0xF0118000 machine (omega arith) (omega arith) (omega arith) refl

first : boot_alloc 0xF0117010 300 5000 none ≡ some (0xF0118000, some 0xF011A000)
unfolding boot_alloc
first = refl

second : boot_alloc 0xF0117010 300 100 (some 0xF011A000) ≡ some (0xF011A000, some 0xF011B000)
unfolding boot_alloc
second = refl

boot_alloc-apart_example :
    (0xF0118000 + 5000 ≤ 0xF011A000)
    × (0xF011A000 % 4096 ≡ 0)
    × (kernbase ≤ 0xF011A000)
    × (0xF011A000 + 100 ≤ kernbase + 4096 * 300 % 2 ^ 32)
boot_alloc-apart_example =
    boot_alloc-apart 0xF0117010 300 5000 100 0xF0118000 0xF011A000 none (some 0xF011A000)
      (some 0xF011B000) (omega arith) (omega arith) (omega arith) first second
