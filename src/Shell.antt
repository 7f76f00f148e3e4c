-- ===== src/Shell.antt =====
-- shell/: defs.h, types.h, createcmd.c, utils.c. A `char *` to a text that is only read is the list of the bytes before its
-- terminator; the line's buffer is the list of the bytes to its end. `none` is an access outside an object.
pub mod Parse
pub mod Exec
use sistemas_operativos_2c.Common.{
  ℕ, zero, suc, Bool, true, false, Option, none, some, List, [], ◌∷◌, ◌==◌, ◌||◌, ◌+◌,
  if◌then◌else◌, map_option,
}

abbrev pub maxargs : ℕ
maxargs = 20

abbrev pub argsize : ℕ
argsize = 1024

pub data CmdType : Type 0 where
  exec : CmdType
  redir : CmdType

-- argc and eargc are the lengths of argv and eargv.
pub record ExecCmd : Type 0 where
  pub c_type : CmdType
  pub scmd : List ℕ
  pub argv : List (List ℕ)
  pub eargv : List (List ℕ)
  pub out_file : List ℕ
  pub in_file : List ℕ
  pub err_file : List ℕ

-- A `struct cmd *`. A back_cmd has the text of its command beside it.
pub data Cmd : Type 0 where
  null : Cmd
  exec_cmd : ExecCmd → Cmd
  back_cmd : List ℕ → Cmd → Cmd
  pipe_cmd : Cmd → Cmd → Cmd

-- The structure is zeroed. The text of a command goes into scmd, since the line has as many bytes.
unfoldable pub exec_cmd_create : List ℕ → ExecCmd
exec_cmd_create buf_cmd = record {
  c_type = exec;
  scmd = buf_cmd;
  argv = [];
  eargv = [];
  out_file = [];
  in_file = [];
  err_file = [];
}

unfoldable pub back_cmd_create : ExecCmd → Cmd
back_cmd_create c = back_cmd c.scmd (exec_cmd c)

unfoldable pub pipe_cmd_create : (left right : Cmd) → Cmd
pipe_cmd_create left null = left
pipe_cmd_create left right = pipe_cmd left right

-- The index of the first `c`.
unfoldable pub block_contains : List ℕ → ℕ → Option ℕ
block_contains [] c = none
block_contains (b ∷ buf) c =
    if b == c then some 0 else map_option (λ i. i + 1) (block_contains buf c)

unfoldable pub skip_spaces : List ℕ → Option (List ℕ)
skip_spaces [] = none
skip_spaces (c ∷ s) = let rest = skip_spaces s in if c == b' ' then rest else some (c ∷ s)

-- The text before the splitter, which ends there afterwards, and the pointer that is returned. Where
-- there is no splitter, what follows the terminator is looked at.
unfoldable pub split_line : List ℕ → ℕ → Option (List ℕ × List ℕ)
unfolding skip_spaces
split_line [] splitter = none
split_line (c ∷ buf) splitter =
    let rest = split_line buf splitter in
    if c == splitter || c == 0
    then map_option (λ right. ([], right)) (skip_spaces buf)
    else map_option (λ (r : List ℕ × List ℕ). (c ∷ r.0, r.1)) rest
