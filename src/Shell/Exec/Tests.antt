-- ===== src/Shell/Exec/Tests.antt =====
-- The variables of a concrete command, in a process that lists the calls of setenv.
use sistemas_operativos_2c.Common.{ℕ, ◌≡◌, false, none, some, List, [], ◌∷◌, All, arith}
use sistemas_operativos_2c.Shell.{ExecCmd}
use sistemas_operativos_2c.Shell.Parse.{Environ, parse_exec}
use sistemas_operativos_2c.Shell.Parse.Words.{Word, arg, assign, text, IsToken}
use sistemas_operativos_2c.Shell.Exec.{set_environ_vars}
use sistemas_operativos_2c.Shell.Exec.Variables.{set_all, set_environ_vars-parse_exec}

abbrev Calls : Type 0
Calls = List (List ℕ × List ℕ)

abbrev setenv : (key value : List ℕ) → Calls → Calls
setenv key value calls = (key, value) ∷ calls

abbrev env : Environ
env = record { getenv = λ name. none; status = b'0' ∷ [] }

-- A=b=c BB= ls
abbrev words : List Word
words =
    assign b'A' [] (b'b' ∷ b'=' ∷ b'c' ∷ [])
    ∷ assign b'B' (b'B' ∷ []) []
    ∷ arg b'l' (b's' ∷ [])
    ∷ []

words-AreTokens : All IsToken words
words-AreTokens = omega arith

set_environ_vars-parse_exec_example :
    (c : ExecCmd) × (parse_exec env (text words false) ≡ some c)
    × (set_environ_vars setenv c.eargv [] ≡ some (set_all setenv words []))
set_environ_vars-parse_exec_example =
    set_environ_vars-parse_exec setenv env words false [] words-AreTokens (omega arith)
      (omega arith)
