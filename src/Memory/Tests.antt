-- ===== src/Memory/Tests.antt =====
-- Tests of the functions of tp-parte4/kern/pmap.c on a machine with eight pages: page 1 is a directory, page 2 a page table that maps page 5 at
-- 0x400000, and the pages 3, 4 and 6 are free.
use sistemas_operativos_2c.Common.{
  ◌≢◌, ℕ, ◌+◌, ◌^◌, ◌%◌, ◌≡◌, inl, refl, Option, none, some, List, [], ◌∷◌, update, arith,
}
use sistemas_operativos_2c.Errors.{ok}
use sistemas_operativos_2c.Memory.{
  Mem, page_alloc, page_free, page_insert, page_remove, page_lookup, pgdir_walk, load, store,
  memset_page, page_incref, page_decref, tlb_invalidate, kaddr, pa2page, ptx,
}
use sistemas_operativos_2c.Memory.FreeList.{Chain, HasFree, page_free-panics}
use sistemas_operativos_2c.Memory.DoubleFree.{page_free-last}
use sistemas_operativos_2c.Memory.Walk.{table}
use sistemas_operativos_2c.Memory.Insert.{HasTable, new_pte, page_insert-page_lookup}
use sistemas_operativos_2c.Memory.Fresh.{
  page_insert_fresh-page_zero, page_insert_again, page_insert-replaces,
}

abbrev pub va : ℕ
va = 0x400000

abbrev pub mem : Mem
mem = record {
  npages = 8;
  pp_ref = update (update (λ _. 0) 5 2) 2 1;
  pp_link = update (update (λ _. none) 3 (some 4)) 4 (some 6);
  page_free_list = some 3;
  word = update (update (λ _ _. 0) 1 (update (λ _. 0) 1 8199)) 2 (update (λ _. 0) 0 20487);
  flushed = [];
}

pub mem-HasFree : HasFree mem (3 ∷ 4 ∷ 6 ∷ [])
mem-HasFree = record {
  chain = (refl, (refl, (refl, refl)));
  distinct = ((omega arith, (omega arith, tt)), ((omega arith, tt), (tt, tt)));
  unreferenced = (refl, (refl, (refl, tt)));
  exists = (omega arith, (omega arith, (omega arith, tt)));
  addressable = omega arith;
}

pub mem-HasTable : HasTable 1 va mem
mem-HasTable = record {
  there = omega arith;
  inside = omega arith;
  apart = omega arith;
  page = omega arith;
}

-- The memory after code that returned.
abbrev pub after : {A : Type 0} → Option (A × Mem) → Mem
after none = mem
after (some (a, m)) = m

page_free-panics_example : page_free 5 mem ≡ none
page_free-panics_example = page_free-panics 5 mem (inl (omega arith))

page_free-last_example :
    (m' : Mem) × (page_free 6 mem ≡ some (tt, m'))
    × ((k : List ℕ) → ¬ Chain m'.pp_link m'.page_free_list k)
page_free-last_example = page_free-last (3 ∷ 4 ∷ []) 6 mem-HasFree

-- Runs of the code.
inserted : page_insert none 1 7 va 7 mem ≡ some (ok tt, after (page_insert none 1 7 va 7 mem))
unfolding page_insert page_remove page_lookup pgdir_walk load store page_incref page_decref
    tlb_invalidate kaddr pa2page
inserted = refl

made :
    page_insert none 1 7 0x800000 7 mem ≡ some (ok tt, after (page_insert none 1 7 0x800000 7 mem))
unfolding page_insert page_remove page_lookup pgdir_walk load store page_incref page_decref
    tlb_invalidate kaddr pa2page page_alloc memset_page
made = refl

removed : page_remove none 1 va mem ≡ some (tt, after (page_remove none 1 va mem))
unfolding page_remove page_lookup pgdir_walk load store page_decref tlb_invalidate kaddr pa2page
removed = refl

page_insert-page_lookup_example :
    (page_lookup 1 va (after (page_insert none 1 7 va 7 mem))
      ≡ some (some (7, (table mem 1 va, ptx va)), after (page_insert none 1 7 va 7 mem)))
    × ((after (page_insert none 1 7 va 7 mem)).word (table mem 1 va) (ptx va) ≡ new_pte 7 7)
    × ((after (page_insert none 1 7 va 7 mem)).word
        ≡ update mem.word
            (table mem 1 va)
            (update (mem.word (table mem 1 va)) (ptx va) (new_pte 7 7)))
page_insert-page_lookup_example =
    page_insert-page_lookup none 1 va 7 7 mem (after (page_insert none 1 7 va 7 mem)) mem-HasTable
      (omega arith) (omega arith) (omega arith) inserted

page_insert_fresh-page_zero_example :
    (after (page_insert none 1 7 0x800000 7 mem)).pp_ref 0 ≡ (mem.pp_ref 0 + 65535) % 2 ^ 16
page_insert_fresh-page_zero_example =
    page_insert_fresh-page_zero none 1 0x800000 7 7 3 (4 ∷ 6 ∷ []) mem
      (after (page_insert none 1 7 0x800000 7 mem)) mem-HasFree (omega arith) refl (omega arith)
      (omega arith) made

page_insert_again_example :
    (m' : Mem) × (page_insert none 1 5 va 7 mem ≡ some (ok tt, m'))
    × (m'.pp_ref 5 ≡ mem.pp_ref 5)
    × (m'.page_free_list ≡ mem.page_free_list)
    × (m'.word (table mem 1 va) (ptx va) ≡ new_pte 5 7)
page_insert_again_example =
    page_insert_again none 1 va 5 7 mem mem-HasTable refl (omega arith) (omega arith)

page_insert-replaces_example :
    (m' : Mem) × (page_insert none 1 7 va 7 mem ≡ some (ok tt, m'))
    × (page_lookup 1 va m' ≡ some (some (7, (table mem 1 va, ptx va)), m'))
    × (m'.pp_ref 7 ≡ (mem.pp_ref 7 + 1) % 2 ^ 16)
    × (m'.pp_ref 5 ≡ (mem.pp_ref 5 + 65535) % 2 ^ 16)
    × ((q : ℕ) → 7 ≢ q → 5 ≢ q → m'.pp_ref q ≡ mem.pp_ref q)
page_insert-replaces_example =
    page_insert-replaces none 1 va 7 7 mem mem-HasTable (omega arith) (omega arith) (omega arith)
      (omega arith) refl
