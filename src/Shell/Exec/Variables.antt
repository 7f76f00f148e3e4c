-- ===== src/Shell/Exec/Variables.antt =====
-- shell/exec.c after the parser: the variables that the words of a command set.
use sistemas_operativos_2c.Common.{
  ℕ, ◌≡◌, refl, ap, ◌∙◌, sym, Bool, some, List, [], ◌∷◌, ◌++◌, ◌<◌, ◌≤◌, length, All, arith,
  append_assoc,
}
use sistemas_operativos_2c.Shell.{ExecCmd, exec_cmd_create}
use mathlib.Core.List.{append-nil}
use sistemas_operativos_2c.Shell.Parse.{Environ, parse_exec}
use sistemas_operativos_2c.Shell.Parse.Words.{
  Word, arg, var, status, assign, out, input, err, render, Lacks, IsToken, apply, apply_all, args,
  assigns, text, block_contains-first, parse_exec-words,
}
use sistemas_operativos_2c.Shell.Exec.{
  get_environ_key, get_environ_value, set_environ_var, set_environ_vars,
}

module _ {S : Type 0} (setenv : (key value : List ℕ) → S → S) where
  -- What the words of a command that set a variable do, in order.
  abbrev pub set_all : List Word → S → S
  set_all [] s = s
  set_all (assign k key value ∷ ws) s = set_all ws (setenv (k ∷ key) value s)
  set_all (w ∷ ws) s = set_all ws s

get_environ_key-first :
    (key value : List ℕ) → Lacks b'=' key → get_environ_key (key ++ b'=' ∷ value) ≡ some key
unfolding get_environ_key
get_environ_key-first [] value l = refl
get_environ_key-first (c ∷ key) value l = ground (arith, l.0, get_environ_key-first key value l.1)

get_environ_value-first :
    (key value : List ℕ) → get_environ_value (key ++ b'=' ∷ value) (length key) ≡ value
unfolding get_environ_value
get_environ_value-first [] value = refl
get_environ_value-first (c ∷ key) value = get_environ_value-first key value

-- What the words add to eargv.
abbrev environs : List Word → List (List ℕ)
environs [] = []
environs (assign k key value ∷ ws) = render (assign k key value) ∷ environs ws
environs (w ∷ ws) = environs ws

eargv-apply_all :
    (env : Environ) (c : ExecCmd) (ws : List Word)
    → (apply_all env c ws).eargv ≡ c.eargv ++ environs ws
eargv-apply_all env c [] = sym (append-nil c.eargv)
eargv-apply_all env c (assign k key value ∷ ws) =
    eargv-apply_all env (record c { eargv = c.eargv ++ render (assign k key value) ∷ [] }) ws
    ∙ append_assoc c.eargv (render (assign k key value) ∷ []) (environs ws)
eargv-apply_all env c (arg a w ∷ ws) = eargv-apply_all env (apply env c (arg a w)) ws
eargv-apply_all env c (var name ∷ ws) = eargv-apply_all env (apply env c (var name)) ws
eargv-apply_all env c (status ∷ ws) = eargv-apply_all env (apply env c status) ws
eargv-apply_all env c (out file ∷ ws) = eargv-apply_all env (apply env c (out file)) ws
eargv-apply_all env c (input file ∷ ws) = eargv-apply_all env (apply env c (input file)) ws
eargv-apply_all env c (err file ∷ ws) = eargv-apply_all env (apply env c (err file)) ws

module _ {S : Type 0} (setenv : (key value : List ℕ) → S → S) where
  set_environ_var-assign :
      (k : ℕ) (key value : List ℕ) (s : S)
      → Lacks b'=' (k ∷ key)
      → set_environ_var setenv (render (assign k key value)) s ≡ some (setenv (k ∷ key) value s)
  unfolding set_environ_var
  set_environ_var-assign k key value s l =
      rw
        (
          set_environ_var,
          block_contains-first (k ∷ key) value b'=' l,
          get_environ_key-first (k ∷ key) value l,
          get_environ_value-first (k ∷ key) value,
        )
        (ground arith)

  set_environ_vars-environs :
      (ws : List Word) (s : S)
      → All IsToken ws
      → set_environ_vars setenv (environs ws) s ≡ some (set_all setenv ws s)
  unfolding set_environ_vars
  set_environ_vars-environs [] s l = refl
  set_environ_vars-environs (assign k key value ∷ ws) s l =
      rw (set_environ_vars, set_environ_var-assign k key value s l.0.0.2)
        (set_environ_vars-environs ws (setenv (k ∷ key) value s) l.1)
  set_environ_vars-environs (arg a w ∷ ws) s l = set_environ_vars-environs ws s l.1
  set_environ_vars-environs (var name ∷ ws) s l = set_environ_vars-environs ws s l.1
  set_environ_vars-environs (status ∷ ws) s l = set_environ_vars-environs ws s l.1
  set_environ_vars-environs (out file ∷ ws) s l = set_environ_vars-environs ws s l.1
  set_environ_vars-environs (input file ∷ ws) s l = set_environ_vars-environs ws s l.1
  set_environ_vars-environs (err file ∷ ws) s l = set_environ_vars-environs ws s l.1

  -- set_environ_vars after parse_exec of a command that is written with one space between its words calls
  -- setenv once for each word that sets a variable, in order, with the word's key and value: under the
  -- bounds of parse_exec-words.
  pub set_environ_vars-parse_exec :
      (env : Environ) (ws : List Word) (b : Bool) (s : S)
      → All IsToken ws
      → args ws < 20
      → assigns ws ≤ 20
      → (c : ExecCmd) × (parse_exec env (text ws b) ≡ some c)
        × (set_environ_vars setenv c.eargv s ≡ some (set_all setenv ws s))
  unfolding exec_cmd_create
  set_environ_vars-parse_exec env ws b s l ha he = (
    apply_all env (exec_cmd_create (text ws b)) ws,
    parse_exec-words env ws b l ha he,
    ap (λ e. set_environ_vars setenv e s) (eargv-apply_all env (exec_cmd_create (text ws b)) ws)
        ∙ set_environ_vars-environs ws s l,
  )
