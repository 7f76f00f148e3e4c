-- ===== src/Fork/Dup.antt =====
-- What the system calls, pgfault and duppage of tp-parte4/lib/fork.c do where the kernel refuses nothing.
use sistemas_operativos_2c.Common.{
  ℕ, ◌<◌, ◌≡◌, ◌≢◌, refl, sym, ◌∙◌, true, false, not, ◌&&◌, none, some, List, ◌∷◌, ==-refl, ==_ne,
  update, leb, bit_and, arith,
}
use sistemas_operativos_2c.Errors.{Outcome, ok}
use sistemas_operativos_2c.Kernel.Syscall.{bad_perm}
use sistemas_operativos_2c.Fork.{
  Vm, V, Mapping, ◌>>=◌, ◌>>◌, has, cow, copies, set_pte, grant_page, map_page, must, move_page,
  pgfault, duppage,
}
use sistemas_operativos_2c.Common.Bits.{digit}
use sistemas_operativos_2c.Fork.Perm.{has-kept, has-cow, cow-digit, kept-digit, bad_perm-digit}
use sistemas_operativos_2c.Fork.Private.{set_here}

abbrev pub granted : (e pn p perm : ℕ) → List ℕ → Vm → Vm
granted e pn p perm rest s = record s {
  pte = update s.pte e (update (s.pte e) pn (some (record { page = p; perm = perm })));
  word = update s.word p (λ _. 0);
  spare = rest;
}

pub must-ok :
    (call : V (Outcome (Unit {0}))) (s s' : Vm)
    → call s ≡ some (ok tt, s')
    → must call s ≡ some (tt, s')
must-ok call s s' e = rw (◌>>=◌, e) refl

below_utop : (pn : ℕ) → pn < 0xEEC00 → leb 0xEEC00 pn ≡ false
below_utop pn h = ground (arith, h)

pub grant_page-gives :
    (e pn p : ℕ) (rest : List ℕ) (s : Vm)
    → pn < 0xEEC00
    → s.spare ≡ p ∷ rest
    → s.refused e pn ≡ false
    → grant_page e pn 7 s ≡ some (ok tt, granted e pn p 7 rest s)
unfolding grant_page
grant_page-gives e pn p rest s h sp r = rw (below_utop pn h) (rw (grant_page, sp) (rw r refl))

pub map_page-gives :
    (e pn e' pn' perm : ℕ) (m : Mapping) (s : Vm)
    → pn < 0xEEC00
    → pn' < 0xEEC00
    → bad_perm perm ≡ false
    → s.pte e pn ≡ some m
    → (has perm 2 && not (has m.perm 2)) ≡ false
    → s.refused e' pn' ≡ false
    → map_page e pn e' pn' perm s
      ≡ some (ok tt, set_pte e' pn' (some (record { page = m.page; perm = perm })) s)
unfolding map_page
map_page-gives e pn e' pn' perm m s h h' b i w r =
    rw (below_utop pn h, below_utop pn' h', b) (rw (map_page, i) (rw (w, r) refl))

-- The space after pgfault: page `p` is mapped instead of the page of `m`, whose words it has.
abbrev pub faulted : (e pn p : ℕ) → Mapping → List ℕ → Vm → Vm
faulted e pn p m rest s =
    let s₁ = granted e 0x7FF p 7 rest s in
    set_pte e 0x7FF none (
      set_pte e pn (some (record { page = p; perm = 7 }))
        (record s₁ { word = update s₁.word p (s₁.word m.page) }))

pgfault-steps :
    (e pn p : ℕ) (m : Mapping) (s s₁ : Vm)
    → s.pte e pn ≡ some m
    → has m.perm 0x800 ≡ true
    → pn < 0xEEC00
    → grant_page e 0x7FF 7 s ≡ some (ok tt, s₁)
    → s₁.pte e 0x7FF ≡ some (record { page = p; perm = 7 })
    → s₁.pte e pn ≡ some m
    → s₁.refused e pn ≡ false
    → pgfault e pn 7 s
      ≡ some (
        tt,
        set_pte e 0x7FF none (
            set_pte e pn
              (some (record { page = p; perm = 7 }))
              (record s₁ { word = update s₁.word p (s₁.word m.page) })),
      )
unfolding pgfault move_page
pgfault-steps e pn p m s s₁ i c h g temp here r =
    let new : Mapping = record { page = p; perm = 7 } in
    let s₂ = record s₁ { word = update s₁.word p (s₁.word m.page) } in
    rw (pgfault, i)
      (rw (c, ◌>>◌, ◌>>=◌, must-ok (grant_page e 0x7FF 7) s s₁ g)
        (rw (◌>>◌, ◌>>=◌, temp, here)
          (rw
            (
              ◌>>◌,
              ◌>>=◌,
              must-ok (map_page e 0x7FF e pn 7) s₂ _
                  (map_page-gives e 0x7FF e pn 7 new s₂ (omega arith) h refl temp refl r),
            )
            refl)))

pub pgfault-gives :
    (e pn p : ℕ) (m : Mapping) (rest : List ℕ) (s : Vm)
    → s.pte e pn ≡ some m
    → has m.perm 0x800 ≡ true
    → pn < 0xEEC00
    → pn ≢ 0x7FF
    → s.spare ≡ p ∷ rest
    → s.refused e 0x7FF ≡ false
    → s.refused e pn ≡ false
    → pgfault e pn 7 s ≡ some (tt, faulted e pn p m rest s)
pgfault-gives e pn p m rest s i c h ne sp r r' =
    pgfault-steps e pn p m s (granted e 0x7FF p 7 rest s) i c h
      (grant_page-gives e 0x7FF p rest s (omega arith) sp r)
      (set_here s e 0x7FF (some (record { page = p; perm = 7 })))
      (rw (==-refl e, ==_ne 0x7FF pn (λ x. ne (sym x))) i) r'

-- Both environments map the page of `m` at `pn`, with these permissions.
abbrev pub both : (e child pn perm : ℕ) → Mapping → Vm → Vm
both e child pn perm m s =
    set_pte e pn (some (record { page = m.page; perm = perm }))
      (set_pte child pn (some (record { page = m.page; perm = perm })) s)

pub duppage-copies :
    (e child pn : ℕ) (m : Mapping) (s : Vm)
    → s.pte e pn ≡ some m
    → e ≢ child
    → pn < 0xEEC00
    → (digit 0 m.perm ≡ 1) × (digit 2 m.perm ≡ 1)
    → copies m.perm ≡ true
    → s.refused child pn ≡ false
    → s.refused e pn ≡ false
    → duppage e child pn s ≡ some (tt, both e child pn (cow (bit_and m.perm 0xE07)) m s)
unfolding duppage
duppage-copies e child pn m s i ne h (d0, d2) c r r' =
    let perm = bit_and m.perm 0xE07 in
    let (w, k, sh) = has-kept m.perm in
    let yes : copies perm ≡ true = rw (w, k, sh) c in
    let (cw, _, _) = has-cow perm in
    let good : bad_perm (cow perm) ≡ false =
      bad_perm-digit (cow perm) (cow-digit 0 perm (omega arith) ∙ kept-digit 0 m.perm refl ∙ d0)
        (cow-digit 2 perm (omega arith) ∙ kept-digit 2 m.perm refl ∙ d2) in
    let s₁ = set_pte child pn (some (record { page = m.page; perm = cow perm })) s in
    let read_only : (has (cow perm) 2 && not (has m.perm 2)) ≡ false = rw cw refl in
    let here : s₁.pte e pn ≡ some m = rw (==_ne child e (λ x. ne (sym x))) i in
    rw (duppage, i)
      (rw
        (
          yes,
          ◌>>◌,
          ◌>>=◌,
          must-ok (map_page e pn child pn (cow perm)) s s₁
              (map_page-gives e pn child pn (cow perm) m s h h good i read_only r),
        )
        (must-ok (map_page e pn e pn (cow perm)) s₁ _
          (map_page-gives e pn e pn (cow perm) m s₁ h h good here read_only r')))

pub duppage-shares :
    (e child pn : ℕ) (m : Mapping) (s : Vm)
    → s.pte e pn ≡ some m
    → pn < 0xEEC00
    → (digit 0 m.perm ≡ 1) × (digit 2 m.perm ≡ 1)
    → copies m.perm ≡ false
    → s.refused child pn ≡ false
    → duppage e child pn s
      ≡ some (tt, set_pte child pn (some (record { page = m.page; perm = bit_and m.perm 0xE07 })) s)
unfolding duppage
duppage-shares e child pn m s i h (d0, d2) c r =
    let perm = bit_and m.perm 0xE07 in
    let (w, k, sh) = has-kept m.perm in
    let no_copy : copies perm ≡ false = rw (w, k, sh) c in
    let good : bad_perm perm ≡ false =
      bad_perm-digit perm (kept-digit 0 m.perm refl ∙ d0) (kept-digit 2 m.perm refl ∙ d2) in
    let same : (has perm 2 && not (has m.perm 2)) ≡ false = rw w (ground arith) in
    rw (duppage, i)
      (rw no_copy (
        must-ok (map_page e pn child pn perm) s _
          (map_page-gives e pn child pn perm m s h h good i same r)))
