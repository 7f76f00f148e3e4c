-- ===== src/Memory/DoubleFree.antt =====
-- Freeing the last page of the free list a second time (tp-parte4/kern/pmap.c, page_free).
use sistemas_operativos_2c.Common.{
  ℕ, zero, suc, ◌+◌, ◌≤◌, ◌≡◌, refl, ◌≢◌, Option, none, some, List, [], ◌∷◌, ◌++◌, All, update,
  arith, update_ne, update_self, sym, length, subst,
}
use sistemas_operativos_2c.Memory.{Mem, page_free}
use sistemas_operativos_2c.Memory.FreeList.{Chain, Distinct, HasFree, pushed, page_free-frees}

-- Following the links from `start` through the pages of a list leads to `end`.
abbrev Segment : (ℕ → Option ℕ) → Option ℕ → List ℕ → Option ℕ → Type 0
Segment link start [] end = start ≡ end
Segment link start (p ∷ l) end = (start ≡ some p) × Segment link (link p) l end

-- A list that runs to NULL runs along every segment that starts where it does.
after-Segment :
    (link : ℕ → Option ℕ) (start end : Option ℕ) (l k : List ℕ)
    → Segment link start l end
    → Chain link start k
    → (r : List ℕ) × Chain link end r × (length k ≡ length l + length r)
after-Segment link start end [] k s c = (k, subst (λ x. Chain link x k) s c, omega arith)
after-Segment link start end (p ∷ l) [] s c = absurd (cc)
after-Segment link start end (p ∷ l) (q ∷ k) s c =
    let same : p ≡ q = cc in
    let (r, rest, size) =
      after-Segment link (link p) end l k s.1 (subst (λ x. Chain link (link x) k) (sym same) c.1) in
    (r, rest, omega arith)

-- A segment that comes back to its start never reaches NULL.
cycle_no_end :
    (n : ℕ) (link : ℕ → Option ℕ) (start : Option ℕ) (p : ℕ) (l k : List ℕ)
    → length k ≤ n
    → Segment link start (p ∷ l) start
    → ¬ Chain link start k
cycle_no_end zero link start p l [] h s c = cc
cycle_no_end zero link start p l (q ∷ k) h s c = absurd (omega arith)
cycle_no_end (suc n) link start p l k h s c =
    let (r, rest, size) = after-Segment link start start (p ∷ l) k s c in
    cycle_no_end n link start p l r (omega arith) s rest

Segment-of_Chain :
    (link : ℕ → Option ℕ) (start : Option ℕ) (l : List ℕ) (p : ℕ) (v : Option ℕ)
    → Distinct (l ++ p ∷ [])
    → Chain link start (l ++ p ∷ [])
    → Segment (update link p v) start l (some p)
Segment-of_Chain link start [] p v d c = c.0
Segment-of_Chain link start (q ∷ l) p v d c =
    (c.0, rw (update_ne link p v q (apart l d.0)) (Segment-of_Chain link (link q) l p v d.1 c.1))
  where
    apart : (l : List ℕ) → All (λ x. q ≢ x) (l ++ p ∷ []) → p ≢ q
    apart [] a = λ e. a.0 (sym e)
    apart (x ∷ l) a = apart l a.1

last_link :
    (link : ℕ → Option ℕ) (start : Option ℕ) (l : List ℕ) (p : ℕ)
    → Chain link start (l ++ p ∷ [])
    → link p ≡ none
last_link link start [] p c = c.1
last_link link start (q ∷ l) p c = last_link link (link q) l p c.1

last_unreferenced :
    (ref : ℕ → ℕ) (l : List ℕ) (p : ℕ) → All (λ q. ref q ≡ 0) (l ++ p ∷ []) → ref p ≡ 0
last_unreferenced ref [] p a = a.0
last_unreferenced ref (q ∷ l) p a = last_unreferenced ref l p a.1

-- `page_free` does not detect a second free of the last page of the free list: it returns, and
-- in the memory that it leaves the free list no longer runs to NULL through any list of pages.
pub page_free-last :
    {m : Mem} (l : List ℕ) (p : ℕ)
    → HasFree m (l ++ p ∷ [])
    → (m' : Mem) × (page_free p m ≡ some (tt, m'))
      × ((k : List ℕ) → ¬ Chain m'.pp_link m'.page_free_list k)
page_free-last {m} l p f = (
  pushed p m,
  page_free-frees p m (last_unreferenced m.pp_ref l p f.unreferenced)
      (last_link m.pp_link m.page_free_list l p f.chain),
  λ k. cycle_no_end (length k) (pushed p m).pp_link (some p) p l k (omega arith) (
    refl,
    rw (update_self m.pp_link p m.page_free_list)
        (Segment-of_Chain m.pp_link m.page_free_list l p m.page_free_list f.distinct f.chain),
  ),
)
