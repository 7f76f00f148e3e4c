-- ===== src/Layout.antt =====
-- Constants of inc/memlayout.h, inc/mmu.h and inc/env.h that the kernel code names.
use sistemas_operativos_2c.Common.{ℕ}

abbrev pub kernbase : ℕ
kernbase = 0xF0000000

abbrev pub mmiolim : ℕ
mmiolim = 0xEFC00000

abbrev pub mmiobase : ℕ
mmiobase = 0xEF800000

abbrev pub ulim : ℕ
ulim = 0xEF800000

abbrev pub uvpt : ℕ
uvpt = 0xEF400000

abbrev pub utop : ℕ
utop = 0xEEC00000

abbrev pub ustacktop : ℕ
ustacktop = 0xEEBFE000

abbrev pub nenv : ℕ
nenv = 1024

abbrev pub gd_ut : ℕ
gd_ut = 0x18

abbrev pub gd_ud : ℕ
gd_ud = 0x20

abbrev pub fl_if : ℕ
fl_if = 0x200

abbrev pub pte_syscall : ℕ
pte_syscall = 0xE07
