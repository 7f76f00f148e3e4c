-- ===== src/Descriptor/Writing.antt =====
-- write of tp-parte4/lib/fd.c on a descriptor that is open for writing.
use sistemas_operativos_2c.Common.{ℕ, ◌<◌, ◌≡◌, refl, false, some, List, ◌==◌, bit_and}
use sistemas_operativos_2c.Errors.{Outcome, ok}
use sistemas_operativos_2c.Descriptor.{
  Program, P, Dev, ◌>>=◌, index2fd, fd_of, dev_lookup, with_dev, write,
}
use sistemas_operativos_2c.Descriptor.Sharing.{fd_lookup-mapped}

-- The descriptor is open for writing, on a device that writes by `f`.
pub record IsWritable {W : Type 0} (devtab : List (Dev W)) (fdnum : ℕ)
    (f : ℕ → List ℕ → P W (Outcome ℕ)) (s : Program W) : Type 0 where
  pub page : ℕ
  pub dev : Dev W
  pub small : fdnum < 32
  pub there : s.mapped (index2fd fdnum) ≡ some page
  pub found : dev_lookup devtab (fd_of (index2fd fdnum) s).fd_dev_id ≡ ok dev
  pub mode : (bit_and (fd_of (index2fd fdnum) s).fd_omode 3 == 0) ≡ false
  pub writes_by : dev.dev_write ≡ some f

pub write-by :
    {W : Type 0} (devtab : List (Dev W)) (fdnum : ℕ) (f : ℕ → List ℕ → P W (Outcome ℕ))
    (buf : List ℕ) (s : Program W)
    → IsWritable devtab fdnum f s
    → write devtab fdnum buf s ≡ f (index2fd fdnum) buf s
unfolding write with_dev
write-by devtab fdnum f buf s r =
    rw (◌>>=◌, fd_lookup-mapped fdnum r.page s r.small r.there)
      (rw (r.found, r.mode, r.writes_by) refl)
