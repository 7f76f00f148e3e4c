-- ===== src/Descriptor.antt =====
-- The file descriptors of a program: tp-parte4/lib/fd.c. A pointer into the area of the descriptors is the number of
-- its page from FDTABLE on, an int is its 32-bit word. What the kernel answers to sys_page_map at a page is part of
-- the state, and so is whatever else the devices work on.
pub mod Sharing
pub mod Reading
pub mod Writing
pub mod Alloc
pub mod Pipes
mod Tests
use sistemas_operativos_2c.Common.{
  ℕ, zero, suc, ◌+◌, ◌-◌, ◌*◌, ◌%◌, ◌^◌, Bool, true, false, Option, none, some, List, [], ◌∷◌, ◌++◌,
  length, ltb, leb, ◌==◌, if◌then◌else◌, bit_and, update,
}
use sistemas_operativos_2c.Errors.{Error, inval, max_open, not_supp, Outcome, ok, err}
use sistemas_operativos_2c.Fs.Server.{Fd, empty_fd, o_accmode}

-- The physical page of each page that is mapped, and the Fd of each physical page.
pub record Program (W : Type 0) : Type 0 where
  pub mapped : ℕ → Option ℕ
  pub page_fd : ℕ → Fd
  pub grant : ℕ → Outcome (Unit {0})
  pub world : W

abbrev pub P : Type 0 → Type 0 → Type 0
P W A = Program W → A × Program W

abbrev pub pure : {W A : Type 0} → A → P W A
pure a s = (a, s)

infixl 5 ◌>>=◌ ◌>>◌
abbrev pub ◌>>=◌ : {W A B : Type 0} → P W A → (A → P W B) → P W B
◌>>=◌ c f s = let (a, s') = c s in f a s'

abbrev pub ◌>>◌ : {W B : Type 0} → P W (Unit {0}) → P W B → P W B
c >> k = c >>= λ _. k

-- `st_dev` is the device's id.
pub record Stat : Type 0 where
  pub st_name : List ℕ
  pub st_size : ℕ
  pub st_isdir : ℕ
  pub st_dev : ℕ

-- A device; a function that it does not have is `none`. What is read is the bytes, and dev_stat gives the Stat as it has
-- filled it in.
pub record Dev (W : Type 0) : Type 0 where
  pub dev_id : ℕ
  pub dev_read : Option (ℕ → ℕ → P W (Outcome (List ℕ)))
  pub dev_write : Option (ℕ → List ℕ → P W (Outcome ℕ))
  pub dev_close : Option (ℕ → P W (Outcome ℕ))
  pub dev_stat : Option (ℕ → Stat → P W (Outcome Stat))
  pub dev_trunc : Option (ℕ → ℕ → P W (Outcome ℕ))

abbrev pub maxfd : ℕ
maxfd = 32

abbrev pub index2fd : ℕ → ℕ
index2fd i = i % 2 ^ 20

abbrev pub index2data : ℕ → ℕ
index2data i = (maxfd + i) % 2 ^ 20

-- The descriptor `fd` points to is page number `fd`.
abbrev pub fd2num : ℕ → ℕ
fd2num fd = fd

abbrev pub fd2data : ℕ → ℕ
fd2data fd = index2data (fd2num fd)

abbrev pub is_mapped : Option ℕ → Bool
is_mapped none = false
is_mapped (some p) = true

module _ {W : Type 0} where
  abbrev pub fd_of : ℕ → Program W → Fd
  fd_of fd s = elim (s.mapped fd) [ none ↦ empty_fd | some p ↦ s.page_fd p ]

  -- The loop of fd_alloc from `i` on.
  pub fd_alloc_from : (rounds i : ℕ) → P W (Outcome ℕ)
  fd_alloc_from zero i s = (err max_open, s)
  fd_alloc_from (suc rounds) i s =
      let rest = fd_alloc_from rounds (i + 1) s in
      if is_mapped (s.mapped (index2fd i)) then rest else (ok (index2fd i), s)

  unfoldable pub fd_alloc : P W (Outcome ℕ)
  unfolding fd_alloc_from
  fd_alloc = fd_alloc_from maxfd 0

  pub fd_lookup : ℕ → P W (Outcome ℕ)
  fd_lookup fdnum s =
      if leb maxfd fdnum
      then (err inval, s)
      else if is_mapped (s.mapped (index2fd fdnum))
      then (ok (index2fd fdnum), s)
      else (err inval, s)

  abbrev pub unmap_fd_page : ℕ → P W (Unit {0})
  unmap_fd_page va s = (tt, record s { mapped = update s.mapped va none })

  pub map_fd_page : (src dst : ℕ) → P W (Outcome (Unit {0}))
  map_fd_page src dst s = elim (s.mapped src) [
    | none ↦ (err inval, s)
    | some p ↦ elim (s.grant dst) [
      | err e ↦ (err e, s)
      | ok u ↦ (ok tt, record s { mapped = update s.mapped dst (some p) })
    ]
  ]

  pub seek : (fdnum offset : ℕ) → P W (Outcome ℕ)
  unfolding fd_lookup
  seek fdnum offset s =
      (do
        r ← fd_lookup fdnum
        elim r [
          | err e ↦ pure (err e)
          | ok fd ↦ λ s. elim (s.mapped fd) [
            | none ↦ (ok 0, s)
            | some p ↦ (
              ok 0,
              record s {
                page_fd = update s.page_fd p (record (s.page_fd p) { fd_offset = offset });
              },
            )
          ]
        ])
        s

  -- The devices in the order of `devtab`.
  unfoldable pub dev_lookup : List (Dev W) → ℕ → Outcome (Dev W)
  dev_lookup [] id = err inval
  dev_lookup (dev ∷ devtab) id = if dev.dev_id == id then ok dev else dev_lookup devtab id

module _ {W : Type 0} (devtab : List (Dev W)) where
  abbrev pub closed : Outcome (Dev W) → (fd : ℕ) → P W (Outcome ℕ)
  closed (err e) fd = pure (err e)
  closed (ok dev) fd = elim (dev.dev_close) [ none ↦ pure (ok 0) | some close ↦ close fd ]

  pub fd_close : (fd : ℕ) → (must_exist : Bool) → P W (Outcome ℕ)
  unfolding fd_lookup dev_lookup
  fd_close fd must_exist s =
      (do
        r ← fd_lookup (fd2num fd)
        elim r [
          | err e ↦ pure (if must_exist then err e else ok 0)
          | ok fd2 ↦ do
            r' ← closed (dev_lookup devtab (fd_of fd s).fd_dev_id) fd
            unmap_fd_page fd
            pure r'
        ])
        s

  pub close : ℕ → P W (Outcome ℕ)
  unfolding fd_lookup fd_close
  close fdnum = do r ← fd_lookup fdnum; elim r [ err e ↦ pure (err e) | ok fd ↦ fd_close fd true ]

  -- The loop of close_all from `i` on.
  pub close_from : (rounds i : ℕ) → P W (Unit {0})
  unfolding close
  close_from zero i = pure tt
  close_from (suc rounds) i = do r ← close i; close_from rounds (i + 1)

  pub close_all : P W (Unit {0})
  unfolding close_from
  close_all = close_from maxfd 0

  -- `ova` is mapped to `nva` if it is mapped.
  pub dup_data : (ova nva : ℕ) → P W (Outcome (Unit {0}))
  unfolding map_fd_page
  dup_data ova nva s = if is_mapped (s.mapped ova) then map_fd_page ova nva s else (ok tt, s)

  abbrev pub undone : (newfd nva : ℕ) → Error → P W (Outcome ℕ)
  undone newfd nva e = do unmap_fd_page newfd; unmap_fd_page nva; pure (err e)

  pub dup : (oldfdnum newfdnum : ℕ) → P W (Outcome ℕ)
  unfolding fd_lookup close dup_data map_fd_page
  dup oldfdnum newfdnum = do
    r ← fd_lookup oldfdnum
    elim r [
      | err e ↦ pure (err e)
      | ok oldfd ↦ do
        closing ← close newfdnum
        r₁ ← dup_data (fd2data oldfd) (fd2data (index2fd newfdnum))
        elim r₁ [
          | err e ↦ undone (index2fd newfdnum) (fd2data (index2fd newfdnum)) e
          | ok u ↦ do
            r₂ ← map_fd_page oldfd (index2fd newfdnum)
            elim r₂ [
              | err e ↦ undone (index2fd newfdnum) (fd2data (index2fd newfdnum)) e
              | ok u ↦ pure (ok newfdnum)
            ]
        ]
    ]

  -- The descriptor and its device, for a function that the mode must allow.
  pub with_dev : {A : Type 0} (fdnum bad_mode : ℕ) → (ℕ → Dev W → P W (Outcome A)) → P W (Outcome A)
  unfolding fd_lookup dev_lookup
  with_dev fdnum bad_mode k s =
      (do
        r ← fd_lookup fdnum
        elim r [
          | err e ↦ pure (err e)
          | ok fd ↦ elim (dev_lookup devtab (fd_of fd s).fd_dev_id) [
            | err e ↦ pure (err e)
            | ok dev ↦
                if bit_and (fd_of fd s).fd_omode o_accmode == bad_mode
                then pure (err inval)
                else k fd dev
          ]
        ])
        s

  pub read : (fdnum n : ℕ) → P W (Outcome (List ℕ))
  unfolding with_dev
  read fdnum n =
      with_dev fdnum 1
        λ fd dev. elim (dev.dev_read) [ none ↦ pure (err not_supp) | some f ↦ f fd n ]

  pub write : (fdnum : ℕ) → List ℕ → P W (Outcome ℕ)
  unfolding with_dev
  write fdnum buf =
      with_dev fdnum 0
        λ fd dev. elim (dev.dev_write) [ none ↦ pure (err not_supp) | some f ↦ f fd buf ]

  pub ftruncate : (fdnum newsize : ℕ) → P W (Outcome ℕ)
  unfolding with_dev
  ftruncate fdnum newsize =
      with_dev fdnum 0
        λ fd dev. elim (dev.dev_trunc) [ none ↦ pure (err not_supp) | some f ↦ f fd newsize ]

  -- The loop of readn for `n` more bytes: a turn that goes on has read a byte at least.
  pub readn_from : (fuel fdnum n : ℕ) → P W (Outcome (List ℕ))
  unfolding read
  readn_from zero fdnum n = pure (ok [])
  readn_from (suc fuel) fdnum n =
      let rest = λ (m : ℕ). readn_from fuel fdnum (n - m) in
      if n == 0 then pure (ok []) else do
        r ← read fdnum n
        elim r [
          | err e ↦ pure (err e)
          | ok bytes ↦ if length bytes == 0 then pure (ok []) else do
            r' ← rest (length bytes)
            elim r' [ err e ↦ pure (err e) | ok bytes' ↦ pure (ok (bytes ++ bytes')) ]
        ]

  pub readn : (fdnum n : ℕ) → P W (Outcome (List ℕ))
  unfolding readn_from
  readn fdnum n = readn_from n fdnum n

  abbrev pub stat_by : (fd : ℕ) → Dev W → P W (Outcome Stat)
  stat_by fd dev = elim (dev.dev_stat) [
    | none ↦ pure (err not_supp)
    | some f ↦ f fd (record { st_name = []; st_size = 0; st_isdir = 0; st_dev = dev.dev_id })
  ]

  unfoldable pub fstat : (fdnum : ℕ) → P W (Outcome Stat)
  unfolding fd_lookup dev_lookup
  fstat fdnum s =
      (do
        r ← fd_lookup fdnum
        elim r [
          | err e ↦ pure (err e)
          | ok fd ↦ elim (dev_lookup devtab (fd_of fd s).fd_dev_id) [
            | err e ↦ pure (err e)
            | ok dev ↦ stat_by fd dev
          ]
        ])
        s
