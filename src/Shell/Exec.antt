-- ===== src/Shell/Exec.antt =====
-- shell/exec.c: the variables that a command sets. What setenv does to the process is a parameter.
pub mod Variables
mod Tests
use sistemas_operativos_2c.Common.{
  ℕ, zero, suc, ◌≡◌, refl, ap, ◌∙◌, sym, Bool, Option, none, some, List, [], ◌∷◌, ◌++◌, ◌==◌, ◌≢◌,
  ◌<◌, ◌≤◌, if◌then◌else◌, map_option, drop, length, All, arith, append_assoc,
}
use sistemas_operativos_2c.Shell.{block_contains}

-- `none` where there is no '='. The key is shorter than its argument, so that it has room.
pub get_environ_key : List ℕ → Option (List ℕ)
get_environ_key [] = none
get_environ_key (c ∷ arg) =
    if c == b'=' then some [] else map_option (λ key. c ∷ key) (get_environ_key arg)

pub get_environ_value : List ℕ → ℕ → List ℕ
get_environ_value arg idx = drop (suc idx) arg

module _ {S : Type 0} (setenv : (key value : List ℕ) → S → S) where
  -- One turn of the loop of set_environ_vars.
  pub set_environ_var : List ℕ → S → Option S
  unfolding block_contains get_environ_key get_environ_value
  set_environ_var arg s = elim (block_contains arg b'=') [
    | none ↦ some s
    | some idx ↦
        if idx == 0
        then some s
        else map_option (λ key. setenv key (get_environ_value arg idx) s) (get_environ_key arg)
  ]

  pub set_environ_vars : List (List ℕ) → S → Option S
  unfolding set_environ_var
  set_environ_vars [] s = some s
  set_environ_vars (arg ∷ eargv) s = elim (set_environ_var arg s) [
    | none ↦ none
    | some s' ↦ set_environ_vars eargv s'
  ]
