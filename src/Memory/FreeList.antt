-- ===== src/Memory/FreeList.antt =====
-- The free list of tp-parte4/kern/pmap.c as a stack of page numbers.
use sistemas_operativos_2c.Common.{
  ℕ, ◌^◌, ◌≤◌, ◌<◌, ◌≡◌, refl, ◌≢◌, Option, none, some, List, [], ◌∷◌, All, update, bit_and, arith,
  update_ne, update_self, ◌==◌, if◌then◌else◌, Bool-cases, Option-cases, inl, inr, sym, ap, ◌∙◌,
  fun_ext, ==_iff, ◌⊎◌,
}
use sistemas_operativos_2c.Memory.{Mem, ◌>>=◌, kaddr, page2pa, page_alloc, page_free}

-- The pages met by following `pp_link` from a first one are those of a list.
abbrev pub Chain : (ℕ → Option ℕ) → Option ℕ → List ℕ → Type 0
Chain link start [] = start ≡ none
Chain link start (p ∷ l) = (start ≡ some p) × Chain link (link p) l

abbrev pub Distinct : List ℕ → Type 0
Distinct [] = Unit
Distinct (p ∷ l) = All (λ q. p ≢ q) l × Distinct l

-- `page_free_list` holds the pages of `l`, in that order, each once and with no reference.
pub record HasFree (m : Mem) (l : List ℕ) : Type 0 where
  pub chain : Chain m.pp_link m.page_free_list l
  pub distinct : Distinct l
  pub unreferenced : All (λ p. m.pp_ref p ≡ 0) l
  pub exists : All (λ p. p < m.npages) l
  pub addressable : m.npages ≤ 2 ^ 20

-- A write to the link of a page that is not on the chain leaves the chain.
Chain-update :
    (link : ℕ → Option ℕ) (start : Option ℕ) (l : List ℕ) (p : ℕ) (v : Option ℕ)
    → All (λ q. p ≢ q) l
    → Chain link start l
    → Chain (update link p v) start l
Chain-update link start [] p v out c = c
Chain-update link start (q ∷ l) p v out c =
    (c.0, rw (update_ne link p v q out.0) (Chain-update link (link q) l p v out.1 c.1))

pub kaddr-page2pa :
    (m : Mem) (p : ℕ) → p < m.npages → m.npages ≤ 2 ^ 20 → kaddr (page2pa p) m ≡ some (p, m)
unfolding kaddr
kaddr-page2pa m p h small = ground arith

-- What `page_alloc` leaves behind when it takes page `p`.
abbrev pub unlinked : Mem → ℕ → Mem
unlinked m p = record m { page_free_list = m.pp_link p; pp_link = update m.pp_link p none }

abbrev pub after_alloc : ℕ → ℕ → Mem → Mem
after_alloc flags p m =
    if bit_and flags 1 == 0
    then unlinked m p
    else record (unlinked m p) { word = update m.word p (λ _. 0) }

pub page_alloc-takes :
    {m : Mem} {p : ℕ} {l : List ℕ} (flags : ℕ)
    → HasFree m (p ∷ l)
    → page_alloc flags m ≡ some (some p, after_alloc flags p m)
unfolding page_alloc
page_alloc-takes {m} {p} flags f = elim (Bool-cases (bit_and flags 1 == 0)) [
  | inl e ↦ rw (f.chain.0, page_alloc) (rw e)
  | inr e ↦
      rw (f.chain.0, page_alloc)
        (rw (e, kaddr-page2pa (unlinked m p) p f.exists.0 f.addressable, ◌>>=◌))
]

unlinked-HasFree : {m : Mem} {p : ℕ} {l : List ℕ} → HasFree m (p ∷ l) → HasFree (unlinked m p) l
unlinked-HasFree {m} {p} {l} f = record {
  chain = Chain-update m.pp_link (m.pp_link p) l p none f.distinct.0 f.chain.1;
  distinct = f.distinct.1;
  unreferenced = f.unreferenced.1;
  exists = f.exists.1;
  addressable = f.addressable;
}

after_alloc-HasFree :
    {m : Mem} {p : ℕ} {l : List ℕ} (flags : ℕ)
    → HasFree m (p ∷ l)
    → HasFree (after_alloc flags p m) l
after_alloc-HasFree {m} {p} {l} flags f = elim (Bool-cases (bit_and flags 1 == 0)) [
  | inl e ↦ rw e (unlinked-HasFree f)
  | inr e ↦ rw e (
      let g : HasFree (unlinked m p) l = unlinked-HasFree f in
      record {
        chain = g.chain;
        distinct = g.distinct;
        unreferenced = g.unreferenced;
        exists = g.exists;
        addressable = g.addressable;
      })
]

-- Where the list is not empty, `page_alloc` takes its first page, unlinks it, keeps its reference
-- count, and leaves the rest on the list. With ALLOC_ZERO the page is cleared; no other word changes.
pub page_alloc-pops :
    {m : Mem} {p : ℕ} {l : List ℕ} (flags : ℕ)
    → HasFree m (p ∷ l)
    → (m' : Mem) × (page_alloc flags m ≡ some (some p, m'))
      × HasFree m' l
      × (m'.pp_link p ≡ none)
      × (m'.pp_ref ≡ m.pp_ref)
      × (m'.word ≡ (if bit_and flags 1 == 0 then m.word else update m.word p (λ _. 0)))
unfolding page_alloc
page_alloc-pops {m} {p} {l} flags f = (
  after_alloc flags p m,
  page_alloc-takes flags f,
  after_alloc-HasFree flags f,
  ground arith,
  ground arith,
  ground arith,
)

pub page_alloc-empty : {m : Mem} (flags : ℕ) → HasFree m [] → page_alloc flags m ≡ some (none, m)
unfolding page_alloc
page_alloc-empty flags f = ground arith

-- What `page_free` leaves behind.
abbrev pub pushed : ℕ → Mem → Mem
pushed p m = record m { pp_link = update m.pp_link p m.page_free_list; page_free_list = some p }

update-none : (link : ℕ → Option ℕ) (p : ℕ) → link p ≡ none → update link p none ≡ link
update-none link p alone = fun_ext λ q. elim (Bool-cases (p == q)) [
  | inl e ↦ rw e (sym alone ∙ ap link ((==_iff p q).0 e))
  | inr e ↦ rw e
]

pub page_free-frees :
    (p : ℕ) (m : Mem) → m.pp_ref p ≡ 0 → m.pp_link p ≡ none → page_free p m ≡ some (tt, pushed p m)
unfolding page_free
page_free-frees p m unref alone = elim (Option-cases m.page_free_list) [
  | inl e ↦
      rw (unref, alone, e, page_free)
        (ap (λ k. some (tt, record m { pp_link = k; page_free_list = some p }))
          (sym (update-none m.pp_link p alone)))
  | inr (q, e) ↦ rw (unref, alone, e, page_free)
]

pub pushed-HasFree :
    (p : ℕ) {m : Mem} (l : List ℕ)
    → HasFree m l
    → All (λ q. p ≢ q) l
    → p < m.npages
    → m.pp_ref p ≡ 0
    → HasFree (pushed p m) (p ∷ l)
pushed-HasFree p {m} l f out inside unref = record {
  chain = (
    refl,
    rw (update_self m.pp_link p m.page_free_list)
        (Chain-update m.pp_link m.page_free_list l p m.page_free_list out f.chain),
  );
  distinct = (out, f.distinct);
  unreferenced = (unref, f.unreferenced);
  exists = (inside, f.exists);
  addressable = f.addressable;
}

-- A page with no reference and no link that is not on the list goes to its front.
pub page_free-pushes :
    (p : ℕ) {m : Mem} (l : List ℕ)
    → HasFree m l
    → All (λ q. p ≢ q) l
    → p < m.npages
    → m.pp_ref p ≡ 0
    → m.pp_link p ≡ none
    → (m' : Mem) × (page_free p m ≡ some (tt, m')) × HasFree m' (p ∷ l)
page_free-pushes p {m} l f out inside unref alone =
    (pushed p m, page_free-frees p m unref alone, pushed-HasFree p l f out inside unref)

-- The double-free check of `page_free`: a page in use, or one that has a successor on the list,
-- is refused by a panic.
pub page_free-panics :
    (p : ℕ) (m : Mem) → (m.pp_ref p ≢ 0) ⊎ (m.pp_link p ≢ none) → page_free p m ≡ none
unfolding page_free
page_free-panics p m bad = ground arith
