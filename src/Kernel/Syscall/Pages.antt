-- ===== src/Kernel/Syscall/Pages.antt =====
-- sys_page_alloc, sys_page_map and sys_page_unmap of tp-parte4/kern/syscall.c.
use sistemas_operativos_2c.Common.{
  ℕ, ◌≡◌, ◌≢◌, true, false, some, none, [], ◌==◌, bit_and, Bool-cases, inl, inr,
}
use sistemas_operativos_2c.Errors.{err, inval, no_mem}
use sistemas_operativos_2c.Memory.{pte_w, pgnum, load, page_free, page_insert}
use sistemas_operativos_2c.Memory.FreeList.{HasFree, page_free-panics}
use sistemas_operativos_2c.Memory.Walk.{entry, slot, page_lookup-present}
use sistemas_operativos_2c.Memory.Insert.{HasTable, page_insert-no_mem}
use sistemas_operativos_2c.Kernel.{Kernel, ◌>>=◌, returns, panics, in_memory, deref-some, cur_pgdir}
use sistemas_operativos_2c.Kernel.Env.Ids.{envid2env-zero}
use sistemas_operativos_2c.Kernel.Syscall.{
  sys_page_alloc, sys_page_map, sys_page_unmap, bad_va, bad_perm,
}

-- The calls that change an address space accept no address at or above UTOP and none that is not
-- page-aligned: they return -E_INVAL and change nothing.
pub sys_page-bad_va :
    (envid va envid' va' perm : ℕ) (k : Kernel)
    → bad_va va ≡ true
    → (sys_page_alloc envid va perm k ≡ returns (err inval) k)
      × (sys_page_unmap envid va k ≡ returns (err inval) k)
      × (sys_page_map envid va envid' va' perm k ≡ returns (err inval) k)
      × (sys_page_map envid' va' envid va perm k ≡ returns (err inval) k)
unfolding sys_page_alloc sys_page_unmap sys_page_map
sys_page-bad_va envid va envid' va' perm k bad =
    (rw bad, rw bad, rw bad, elim (Bool-cases (bad_va va')) [ inl e ↦ rw e | inr e ↦ rw (e, bad) ])

module _ (c pgdir pp src dst perm : ℕ) (k : Kernel) (cur : k.curenv ≡ some c)
    (has : (k.envs c).env_pgdir ≡ some pgdir) (h : HasTable pgdir src k.mem)
    (mapped : pgnum (slot k.mem pgdir src) ≡ pp) (held : k.mem.pp_ref pp ≢ 0)
    (good_src : bad_va src ≡ false) (good_dst : bad_va dst ≡ false)
    (good_perm : bad_perm perm ≡ false) (read_only : (bit_and perm pte_w == pte_w) ≡ false)
    (gone : entry k.mem pgdir dst ≡ 0) (full : HasFree k.mem []) where
  no_table : page_insert (cur_pgdir k) pgdir pp dst perm k.mem ≡ some (err no_mem, k.mem)
  no_table = page_insert-no_mem (cur_pgdir k) pgdir dst pp perm k.mem gone full

  -- With no free page left, sys_page_map, without write permission, of a page that the caller has
  -- mapped and that is referenced, to an address of the caller that has no page table, does not return
  -- -E_NO_MEM: it panics.
  pub sys_page_map-panics : sys_page_map 0 src 0 dst perm k ≡ panics
  unfolding sys_page_map load
  sys_page_map-panics =
      rw (good_src, good_dst, good_perm)
        (rw (envid2env-zero true k, ◌>>=◌)
          (rw (deref-some k.curenv c k cur, ◌>>=◌)
            (rw (envid2env-zero true k, ◌>>=◌)
              (rw (deref-some k.curenv c k cur, ◌>>=◌)
                (rw (deref-some (k.envs c).env_pgdir pgdir k has, ◌>>=◌)
                  (rw
                    (page_lookup-present k.mem pgdir src h.there h.inside h.page, ◌>>=◌, in_memory)
                    (rw (mapped, read_only)
                      (rw (deref-some (k.envs c).env_pgdir pgdir k has, ◌>>=◌)
                        (rw (no_table, ◌>>=◌, in_memory) (rw (refused, ◌>>=◌, in_memory)))))))))))
    where
      refused : page_free (pgnum (slot k.mem pgdir src)) k.mem ≡ none
      refused = page_free-panics (pgnum (slot k.mem pgdir src)) k.mem (inl (rw mapped held))
