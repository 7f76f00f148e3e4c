-- ===== src/Descriptor/Pipes.antt =====
-- pipe and devpipe_close of tp-parte4/lib/pipe.c: the descriptors and the pages of a new pipe. `fresh` is the physical page that the kernel
-- gives for sys_page_alloc.
pub mod Undo
use sistemas_operativos_2c.Common.{ℕ, none, some, update}
use sistemas_operativos_2c.Errors.{Error, Outcome, ok, err}
use sistemas_operativos_2c.Fs.Server.{Fd, empty_fd}
use sistemas_operativos_2c.Descriptor.{
  Program, P, pure, ◌>>=◌, ◌>>◌, fd2num, fd2data, fd_alloc, unmap_fd_page, map_fd_page,
}

module _ {W : Type 0} where
  abbrev pub set_mode : (fd omode : ℕ) → P W (Unit {0})
  set_mode fd omode s = elim (s.mapped fd) [
    | none ↦ (tt, s)
    | some p ↦ (
      tt,
      record s {
        page_fd = update s.page_fd p (record (s.page_fd p) { fd_dev_id = b'p'; fd_omode = omode });
      },
    )
  ]

  -- The labels err3, err2 and err1.
  abbrev pub err1 : (fd0 : ℕ) → Error → P W (Outcome (ℕ × ℕ))
  err1 fd0 e = do unmap_fd_page fd0; pure (err e)

  abbrev pub err2 : (fd0 fd1 : ℕ) → Error → P W (Outcome (ℕ × ℕ))
  err2 fd0 fd1 e = do unmap_fd_page fd1; err1 fd0 e

  abbrev pub err3 : (fd0 fd1 : ℕ) → Error → P W (Outcome (ℕ × ℕ))
  err3 fd0 fd1 e = do unmap_fd_page (fd2data fd0); err2 fd0 fd1 e

  abbrev pub with_shared : (fd0 fd1 : ℕ) → Outcome (Unit {0}) → P W (Outcome (ℕ × ℕ))
  with_shared fd0 fd1 (err e) = err3 fd0 fd1 e
  with_shared fd0 fd1 (ok u) = do set_mode fd0 0; set_mode fd1 1; pure (ok (fd2num fd0, fd2num fd1))

  abbrev pub with_data : (fd0 fd1 : ℕ) → Outcome (Unit {0}) → P W (Outcome (ℕ × ℕ))
  with_data fd0 fd1 (err e) = err2 fd0 fd1 e
  with_data fd0 fd1 (ok u) = do r ← map_fd_page (fd2data fd0) (fd2data fd1); with_shared fd0 fd1 r

module _ {W : Type 0} (fresh : Program W → ℕ) where
  abbrev pub allocated : (va : ℕ) → Program W → Program W
  allocated va s = record s {
    mapped = update s.mapped va (some (fresh s));
    page_fd = update s.page_fd (fresh s) empty_fd;
  }

  abbrev pub alloc_as : (va : ℕ) → Outcome (Unit {0}) → P W (Outcome (Unit {0}))
  alloc_as va (err e) s = (err e, s)
  alloc_as va (ok u) s = (ok tt, allocated va s)

  abbrev pub alloc_page_at : (va : ℕ) → P W (Outcome (Unit {0}))
  alloc_page_at va s = alloc_as va (s.grant va) s

  -- A descriptor's own page.
  pub new_fd : P W (Outcome ℕ)
  new_fd = do
    r ← fd_alloc
    elim r [
      | err e ↦ pure (err e)
      | ok fd ↦ do r' ← alloc_page_at fd; elim r' [ err e ↦ pure (err e) | ok u ↦ pure (ok fd) ]
    ]

  pub share_data : (fd0 fd1 : ℕ) → P W (Outcome (ℕ × ℕ))
  share_data fd0 fd1 = do r ← alloc_page_at (fd2data fd0); with_data fd0 fd1 r

  pub pipe : P W (Outcome (ℕ × ℕ))
  unfolding new_fd share_data
  pipe = do
    r ← new_fd
    elim r [
      | err e ↦ pure (err e)
      | ok fd0 ↦ do r' ← new_fd; elim r' [ err e ↦ err1 fd0 e | ok fd1 ↦ share_data fd0 fd1 ]
    ]

-- The page of the descriptor, and its data page.
abbrev pub devpipe_close : {W : Type 0} → (fd : ℕ) → P W (Outcome ℕ)
devpipe_close fd = do unmap_fd_page fd; unmap_fd_page (fd2data fd); pure (ok 0)
