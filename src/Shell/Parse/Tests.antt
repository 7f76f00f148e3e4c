-- ===== src/Shell/Parse/Tests.antt =====
-- The shell's parser on concrete lines.
use sistemas_operativos_2c.Common.{
  ℕ, ◌≡◌, refl, false, Option, none, some, List, [], ◌∷◌, ◌++◌, All, arith, ◌==◌, if◌then◌else◌,
}
use sistemas_operativos_2c.Shell.{
  exec_cmd_create, split_line, redir, exec_cmd, pipe_cmd, null, pipe_cmd_create,
}
use sistemas_operativos_2c.Shell.Parse.{Environ, parse_exec, parse_line, parse_cmd}
use sistemas_operativos_2c.Shell.Parse.Words.{
  Word, arg, var, status, assign, out, text, apply_all, parse_exec-words, IsToken,
}
use sistemas_operativos_2c.Shell.Parse.Lines.{
  Line, background, then_pipe, IsLine, line_text, tree, parse_line-line,
}
use sistemas_operativos_2c.Shell.Parse.Overflow.{ComesTo, parse_exec-overflows}

abbrev home : List ℕ → Option (List ℕ)
home [] = none
home (c ∷ name) = if c == b'H' then some (b'/' ∷ b'h' ∷ []) else none

abbrev env : Environ
env = record { getenv = home; status = b'0' ∷ [] }

-- A=b ls $H $? >o
abbrev words : List Word
words =
    assign b'A' [] (b'b' ∷ [])
    ∷ arg b'l' (b's' ∷ [])
    ∷ var (b'H' ∷ [])
    ∷ status
    ∷ out (b'o' ∷ [])
    ∷ []

words-AreTokens : All IsToken words
words-AreTokens = ground arith

parse_exec-words_example :
    parse_exec env (text words false)
    ≡ some (apply_all env (exec_cmd_create (text words false)) words)
parse_exec-words_example =
    parse_exec-words env words false words-AreTokens (omega arith) (omega arith)

-- ls -l | wc &
abbrev line : Line
line =
    then_pipe (arg b'l' (b's' ∷ []) ∷ arg b'-' (b'l' ∷ []) ∷ [])
      (background (arg b'w' (b'c' ∷ []) ∷ []))

line-IsLine : IsLine line
line-IsLine = omega arith

parse_line-line_example : parse_line env (line_text line ++ 0 ∷ 0 ∷ []) ≡ some (tree env line)
parse_line-line_example = parse_line-line env line [] line-IsLine

abbrev twenty : List Word
twenty =
    let a = arg b'a' [] in
    a ∷ a ∷ a ∷ a ∷ a ∷ a ∷ a ∷ a ∷ a ∷ a ∷ a ∷ a ∷ a ∷ a ∷ a ∷ a ∷ a ∷ a ∷ a ∷ a ∷ []

twenty-AreTokens : All IsToken twenty
twenty-AreTokens = omega arith

parse_exec-overflows_example :
    (parse_exec env (text twenty false) ≡ none)
    × ComesTo env
        (parse_exec env (text twenty false))
        twenty
        false
        (exec_cmd_create (text twenty false))
parse_exec-overflows_example = parse_exec-overflows env twenty false twenty-AreTokens (omega arith)

-- a 2>&1 &: the first '&' follows a '>', and the second one becomes an argument.
second_amp :
    parse_cmd env none (b'a' ∷ b' ' ∷ b'2' ∷ b'>' ∷ b'&' ∷ b'1' ∷ b' ' ∷ b'&' ∷ [])
    ≡ some (
        exec_cmd (record {
          c_type = redir;
          scmd = b'a' ∷ b' ' ∷ b'2' ∷ b'>' ∷ b'&' ∷ b'1' ∷ b' ' ∷ b'&' ∷ [];
          argv = (b'a' ∷ []) ∷ (b'&' ∷ []) ∷ [];
          eargv = [];
          out_file = [];
          in_file = [];
          err_file = b'&' ∷ b'1' ∷ [];
        }))
unfolding parse_cmd exec_cmd_create
second_amp = refl

-- | a: the left command is a null pointer.
no_left :
    parse_line env (b'|' ∷ b'a' ∷ 0 ∷ 0 ∷ [])
    ≡ some (
        pipe_cmd null (exec_cmd (record (exec_cmd_create (b'a' ∷ [])) { argv = (b'a' ∷ []) ∷ [] })))
unfolding parse_line parse_exec exec_cmd_create split_line pipe_cmd_create
no_left = refl
