-- ===== src/Shell/Parse.antt =====
-- shell/parsing.c.
pub mod Words
pub mod Lines
pub mod Overflow
mod Tests
use sistemas_operativos_2c.Common.{
  ℕ, zero, suc, ◌+◌, Bool, true, false, ◌&&◌, ◌||◌, not, Option, none, some, List, [], ◌∷◌, ◌++◌,
  ◌==◌, ltb, if◌then◌else◌, map_option, length, drop,
}
use sistemas_operativos_2c.Shell.{
  maxargs, argsize, CmdType, redir, ExecCmd, Cmd, null, exec_cmd, exec_cmd_create, back_cmd_create,
  pipe_cmd_create, block_contains, split_line,
}

-- What the parser reads beside the line: the environment's variables, and the last status as sprintf
-- writes it with %d.
pub record Environ : Type 0 where
  pub getenv : List ℕ → Option (List ℕ)
  pub status : List ℕ

-- The loop of get_token, with `room` bytes left in the zeroed object; the last one stays the terminator.
pub get_token_loop : (room : ℕ) → List ℕ → Option (List ℕ)
get_token_loop zero buf = none
get_token_loop (suc room) [] = some []
get_token_loop (suc room) (c ∷ buf) =
    if c == b' ' then some [] else map_option (λ tok. c ∷ tok) (get_token_loop room buf)

-- `buf` is the text from the index on.
pub get_token : List ℕ → Option (List ℕ)
unfolding get_token_loop
get_token buf = get_token_loop argsize buf

-- The name of a file is shorter than its token, so that it has room.
pub parse_redir_flow : ExecCmd → List ℕ → ExecCmd × Bool
unfolding block_contains
parse_redir_flow c arg = elim (block_contains arg b'>') [
  | some out_idx ↦
      if out_idx == 0
      then (record c { out_file = drop 1 arg; c_type = redir }, true)
      else if out_idx == 1
      then (record c { err_file = drop 2 arg; c_type = redir }, true)
      else (record c { c_type = redir }, true)
  | none ↦ elim (block_contains arg b'<') [
    | some in_idx ↦ (record c { in_file = drop 1 arg; c_type = redir }, true)
    | none ↦ (c, false)
  ]
]

-- An array's element is written only below its length.
pub add_to : List (List ℕ) → List ℕ → Option (List (List ℕ))
add_to args arg = if ltb (length args) maxargs then some (args ++ arg ∷ []) else none

-- `block_contains(arg, '=') > 0`, and no '-'
pub is_environ_var : List ℕ → Bool
unfolding block_contains
is_environ_var arg = elim (block_contains arg b'=') [
  | none ↦ false
  | some i ↦ ltb 0 i && elim (block_contains arg b'-') [ none ↦ true | some j ↦ false ]
]

pub parse_environ_var : ExecCmd → List ℕ → Option (ExecCmd × Bool)
unfolding is_environ_var add_to
parse_environ_var c arg =
    if is_environ_var arg
    then map_option (λ eargv'. (record c { eargv = eargv' }, true)) (add_to c.eargv arg)
    else some (c, false)

-- `strcmp(arg, "$?") == 0`, after the '$'
is_status : List ℕ → Bool
is_status [] = false
is_status (q ∷ []) = q == b'?'
is_status (q ∷ r ∷ s) = false

-- A missing variable leaves the empty text.
pub expand_environ_var : Environ → List ℕ → List ℕ
unfolding is_status
expand_environ_var env [] = []
expand_environ_var env (d ∷ name) =
    if not (d == b'$')
    then d ∷ name
    else if is_status name
    then env.status
    else elim (env.getenv name) [ none ↦ [] | some value ↦ value ]

-- One turn of the loop of parse_exec.
pub parse_token : Environ → ExecCmd → List ℕ → Option ExecCmd
unfolding parse_redir_flow parse_environ_var expand_environ_var add_to
parse_token env c tok =
    let (c₁, is_redir) = parse_redir_flow c tok in
    if is_redir then some c₁ else elim (parse_environ_var c₁ tok) [
      | none ↦ none
      | some (c₂, is_environ) ↦
          if is_environ
          then some c₂
          else map_option (λ argv'. record c₂ { argv = argv' })
              (add_to c₂.argv (expand_environ_var env tok))
    ]

-- `s` is what is left of the text. Each turn takes a byte at least, so that as many turns as bytes are
-- enough; at the end `argv[argc]` is set to NULL. `none` is an access outside an object, and the clause for no turns left, which is
-- never reached, does not give it.
pub parse_tokens : Environ → (fuel : ℕ) → List ℕ → ExecCmd → Option ExecCmd
unfolding get_token parse_token
parse_tokens env fuel [] c = if ltb (length c.argv) maxargs then some c else none
parse_tokens env zero (b ∷ s) c = some c
parse_tokens env (suc fuel) (b ∷ s) c = elim (get_token (b ∷ s)) [
  | none ↦ none
  | some tok ↦ elim (parse_token env c tok) [
    | none ↦ none
    | some c' ↦ parse_tokens env fuel (drop (suc (length tok)) (b ∷ s)) c'
  ]
]

pub parse_exec : Environ → List ℕ → Option ExecCmd
unfolding parse_tokens
parse_exec env buf_cmd = parse_tokens env (length buf_cmd) buf_cmd (exec_cmd_create buf_cmd)

-- The text before the '&'.
before_amp : List ℕ → List ℕ
before_amp [] = []
before_amp (c ∷ buf) = if c == b'&' then [] else c ∷ before_amp buf

pub parse_back : Environ → List ℕ → Option Cmd
unfolding before_amp parse_exec
parse_back env buf_cmd = map_option back_cmd_create (parse_exec env (before_amp buf_cmd))

-- `buf[idx - 1]`, where `before` is the byte before the text, if the object has one.
byte_before : (before : Option ℕ) → List ℕ → ℕ → Option ℕ
byte_before before s zero = before
byte_before before [] (suc idx) = none
byte_before before (c ∷ s) (suc idx) = byte_before (some c) s idx

pub parse_cmd : Environ → (before : Option ℕ) → List ℕ → Option Cmd
unfolding byte_before parse_back parse_exec
parse_cmd env before [] = some null
parse_cmd env before (b ∷ s) = elim (block_contains (b ∷ s) b'&') [
  | none ↦ map_option exec_cmd (parse_exec env (b ∷ s))
  | some idx ↦ elim (byte_before before (b ∷ s) idx) [
    | none ↦ none
    | some c ↦
        if not (c == b'>')
        then parse_back env (b ∷ s)
        else map_option exec_cmd (parse_exec env (b ∷ s))
  ]
]

-- `buf` is the buffer from the command on; before every command but the first there is a
-- terminator or a space, and neither is a '>'. The recursion is on the number of bytes, since the pointer
-- moves on.
parse_line_in : Environ → (fuel : ℕ) → (before : Option ℕ) → List ℕ → Option Cmd
unfolding parse_cmd
parse_line_in env zero before buf = none
parse_line_in env (suc fuel) before buf = elim (split_line buf b'|') [
  | none ↦ none
  | some (left, right) ↦ elim (parse_cmd env before left) [
    | none ↦ none
    | some l ↦ elim right [
      | [] ↦ none
      | c ∷ right' ↦
          let rest = parse_line_in env fuel (some 0) (c ∷ right') in
          if c == 0
          then some (pipe_cmd_create l null)
          else map_option (λ r. pipe_cmd_create l r) rest
    ]
  ]
]

pub parse_line : Environ → List ℕ → Option Cmd
unfolding parse_line_in
parse_line env buf = parse_line_in env (length buf) none buf
