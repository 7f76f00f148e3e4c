-- ===== src/Errors.antt =====
-- inc/error.h: the error codes, and what a function returns that gives 0 (or a value) or -E_....
pub data Error : Type 0 where
  unspecified : Error
  bad_env : Error
  inval : Error
  no_mem : Error
  no_free_env : Error
  fault : Error
  ipc_not_recv : Error
  eof : Error
  no_disk : Error
  max_open : Error
  not_found : Error
  bad_path : Error
  file_exists : Error
  not_exec : Error
  not_supp : Error

pub data Outcome {ℓ} (A : Type ℓ) : Type ℓ where
  ok : A → Outcome A
  err : Error → Outcome A
