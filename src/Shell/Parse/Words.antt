-- ===== src/Shell/Parse/Words.antt =====
-- shell/parsing.c on a command that is written with one space between its words.
use sistemas_operativos_2c.Common.{
  ℕ, zero, suc, ◌+◌, ◌<◌, ◌≤◌, ◌≡◌, ◌≢◌, refl, ap, ◌∙◌, Bool, true, false, Option, none, some, List,
  [], ◌∷◌, ◌++◌, All, length, drop, arith, length-append,
}
use sistemas_operativos_2c.Shell.{argsize, redir, ExecCmd, exec_cmd_create, block_contains}
use sistemas_operativos_2c.Shell.Parse.{
  Environ, get_token_loop, get_token, parse_redir_flow, add_to, is_environ_var, parse_environ_var,
  is_status, expand_environ_var, parse_token, parse_tokens, parse_exec,
}

-- The words of a command: an argument, one that is a variable's name, the last status, a variable that
-- is set, and the three redirections.
pub data Word : Type 0 where
  arg : ℕ → List ℕ → Word
  var : List ℕ → Word
  status : Word
  assign : ℕ → List ℕ → List ℕ → Word
  out : List ℕ → Word
  input : List ℕ → Word
  err : List ℕ → Word

abbrev pub render : Word → List ℕ
render (arg a w) = a ∷ w
render (var name) = b'$' ∷ name
render status = b'$' ∷ b'?' ∷ []
render (assign k key value) = k ∷ key ++ b'=' ∷ value
render (out file) = b'>' ∷ file
render (input file) = b'<' ∷ file
render (err file) = b'2' ∷ b'>' ∷ file

abbrev pub Lacks : ℕ → List ℕ → Type 0
Lacks c w = All (λ x. x ≢ c) w

abbrev pub NoRedir : List ℕ → Type 0
NoRedir w = Lacks b'>' w × Lacks b'<' w

abbrev pub IsWord : Word → Type 0
IsWord (arg a w) = a ≢ b'$' × NoRedir (a ∷ w) × Lacks b'=' (a ∷ w)
IsWord (var name) = name ≢ b'?' ∷ [] × NoRedir name × Lacks b'=' name
IsWord status = Unit
IsWord (assign k key value) =
    NoRedir (render (assign k key value))
    × Lacks b'-' (render (assign k key value))
    × Lacks b'=' (k ∷ key)
IsWord (out file) = Unit
IsWord (input file) = Lacks b'>' file
IsWord (err file) = Unit

abbrev pub IsToken : Word → Type 0
IsToken w = IsWord w × Lacks b' ' (render w) × (length (render w) < argsize)

abbrev pub value_of : Option (List ℕ) → List ℕ
value_of none = []
value_of (some v) = v

-- What a word does to the command.
abbrev pub apply : Environ → ExecCmd → Word → ExecCmd
apply env c (arg a w) = record c { argv = c.argv ++ (a ∷ w) ∷ [] }
apply env c (var name) = record c { argv = c.argv ++ value_of (env.getenv name) ∷ [] }
apply env c status = record c { argv = c.argv ++ env.status ∷ [] }
apply env c (assign k key value) = record c { eargv = c.eargv ++ render (assign k key value) ∷ [] }
apply env c (out file) = record c { out_file = file; c_type = redir }
apply env c (input file) = record c { in_file = file; c_type = redir }
apply env c (err file) = record c { err_file = file; c_type = redir }

abbrev pub apply_all : Environ → ExecCmd → List Word → ExecCmd
apply_all env c [] = c
apply_all env c (w ∷ ws) = apply_all env (apply env c w) ws

-- What a word adds to argv and to eargv.
abbrev pub args_of : Word → ℕ
args_of (arg a w) = 1
args_of (var name) = 1
args_of status = 1
args_of w = 0

abbrev pub assigns_of : Word → ℕ
assigns_of (assign k key value) = 1
assigns_of w = 0

abbrev pub args : List Word → ℕ
args [] = 0
args (w ∷ ws) = args_of w + args ws

abbrev pub assigns : List Word → ℕ
assigns [] = 0
assigns (w ∷ ws) = assigns_of w + assigns ws

-- The words with a space between them, and a space at the end if `b`.
abbrev pub after : List Word → Bool → List ℕ
after [] false = []
after [] true = b' ' ∷ []
after (w ∷ ws) b = b' ' ∷ render w ++ after ws b

abbrev pub text : List Word → Bool → List ℕ
text [] b = []
text (w ∷ ws) b = render w ++ after ws b

pub block_contains-Lacks : (w : List ℕ) (c : ℕ) → Lacks c w → block_contains w c ≡ none
unfolding block_contains
block_contains-Lacks [] c l = refl
block_contains-Lacks (b ∷ w) c l = ground (arith, l.0, block_contains-Lacks w c l.1)

pub block_contains-first :
    (w rest : List ℕ) (c : ℕ) → Lacks c w → block_contains (w ++ c ∷ rest) c ≡ some (length w)
unfolding block_contains
block_contains-first [] rest c l = ground arith
block_contains-first (b ∷ w) rest c l = ground (arith, l.0, block_contains-first w rest c l.1)

pub get_token_loop-word :
    (room : ℕ) (w : List ℕ) (ws : List Word) (b : Bool)
    → Lacks b' ' w
    → length w < room
    → get_token_loop room (w ++ after ws b) ≡ some w
unfolding get_token_loop
get_token_loop-word zero w ws b l h = absurd (omega arith)
get_token_loop-word (suc room) [] [] false l h = refl
get_token_loop-word (suc room) [] [] true l h = refl
get_token_loop-word (suc room) [] (v ∷ ws) b l h = refl
get_token_loop-word (suc room) (c ∷ w) ws b l h =
    ground (arith, l.0, get_token_loop-word room w ws b l.1 (omega arith))

pub parse_redir_flow-NoRedir :
    (c : ExecCmd) (w : List ℕ) → NoRedir w → parse_redir_flow c w ≡ (c, false)
unfolding parse_redir_flow
parse_redir_flow-NoRedir c w l =
    rw (parse_redir_flow, block_contains-Lacks w b'>' l.0, block_contains-Lacks w b'<' l.1) refl

pub is_environ_var-assign :
    (k : ℕ) (key value : List ℕ)
    → IsWord (assign k key value)
    → is_environ_var (render (assign k key value)) ≡ true
unfolding is_environ_var
is_environ_var-assign k key value l =
    rw
      (
        is_environ_var,
        block_contains-first (k ∷ key) value b'=' (l.2),
        block_contains-Lacks (render (assign k key value)) b'-' (l.1),
      )
      (ground arith)

pub is_environ_var-Lacks : (w : List ℕ) → Lacks b'=' w → is_environ_var w ≡ false
unfolding is_environ_var
is_environ_var-Lacks w l = rw (is_environ_var, block_contains-Lacks w b'=' l) refl

add_to-room : (l : List (List ℕ)) (w : List ℕ) → length l < 20 → add_to l w ≡ some (l ++ w ∷ [])
unfolding add_to
add_to-room l w h = ground arith

-- A word that is no redirection and sets no variable becomes an argument.
parse_token-arg :
    (env : Environ) (c : ExecCmd) (w : List ℕ)
    → NoRedir w
    → Lacks b'=' w
    → length c.argv < 20
    → parse_token env c w ≡ some (record c { argv = c.argv ++ expand_environ_var env w ∷ [] })
unfolding parse_token parse_environ_var
parse_token-arg env c w r l h =
    rw
      (
        parse_token,
        parse_redir_flow-NoRedir c w r,
        is_environ_var-Lacks w l,
        add_to-room c.argv (expand_environ_var env w) h,
      )
      refl

expand_environ_var-arg :
    (env : Environ) (a : ℕ) (w : List ℕ) → a ≢ b'$' → expand_environ_var env (a ∷ w) ≡ a ∷ w
unfolding expand_environ_var
expand_environ_var-arg env a w h = ground (arith, h)

is_status-ne : (name : List ℕ) → name ≢ b'?' ∷ [] → is_status name ≡ false
unfolding is_status
is_status-ne [] h = refl
is_status-ne (q ∷ []) h = ground (arith, h)
is_status-ne (q ∷ r ∷ s) h = refl

expand_environ_var-var :
    (env : Environ) (name : List ℕ)
    → name ≢ b'?' ∷ []
    → expand_environ_var env (b'$' ∷ name) ≡ value_of (env.getenv name)
unfolding expand_environ_var
expand_environ_var-var env name h = ground (arith, is_status-ne name h)

pub parse_token-apply :
    (env : Environ) (c : ExecCmd) (w : Word)
    → IsWord w
    → length c.argv + args_of w ≤ 20
    → length c.eargv + assigns_of w ≤ 20
    → parse_token env c (render w) ≡ some (apply env c w)
unfolding parse_token parse_redir_flow parse_environ_var expand_environ_var is_status block_contains
parse_token-apply env c (arg a w) l ha he =
    parse_token-arg env c (a ∷ w) l.1 l.2 (omega arith)
    ∙ ap (λ v. some (record c { argv = c.argv ++ v ∷ [] })) (expand_environ_var-arg env a w l.0)
parse_token-apply env c (var name) l ha he =
    parse_token-arg env c (b'$' ∷ name) ((omega arith, l.1.0), (omega arith, l.1.1))
      (omega arith, l.2) (omega arith)
    ∙ ap (λ v. some (record c { argv = c.argv ++ v ∷ [] })) (expand_environ_var-var env name l.0)
parse_token-apply env c status l ha he =
    parse_token-arg env c (render status) (omega arith) (omega arith) (omega arith)
parse_token-apply env c (assign k key value) l ha he =
    rw
      (
        parse_token,
        parse_redir_flow-NoRedir c (render (assign k key value)) l.0,
        is_environ_var-assign k key value l,
        add_to-room c.eargv (render (assign k key value)) (omega arith),
      )
      refl
parse_token-apply env c (out file) l ha he = refl
parse_token-apply env c (input file) l ha he =
    rw (parse_token, parse_redir_flow, block_contains-Lacks file b'>' l) refl
parse_token-apply env c (err file) l ha he = refl

pub render-cons : (w : Word) → (b : ℕ) × (s : List ℕ) × (render w ≡ b ∷ s)
render-cons (arg a w) = (a, w, refl)
render-cons (var name) = (b'$', name, refl)
render-cons status = (b'$', b'?' ∷ [], refl)
render-cons (assign k key value) = (k, key ++ b'=' ∷ value, refl)
render-cons (out file) = (b'>', file, refl)
render-cons (input file) = (b'<', file, refl)
render-cons (err file) = (b'2', b'>' ∷ file, refl)

pub drop-length : (w e : List ℕ) → drop (suc (length w)) (w ++ e) ≡ drop 1 e
drop-length [] e = refl
drop-length (b ∷ w) e = drop-length w e

pub drop-after : (ws : List Word) (b : Bool) → drop 1 (after ws b) ≡ text ws b
drop-after [] false = refl
drop-after [] true = refl
drop-after (w ∷ ws) b = refl

pub length-text : (ws : List Word) (b : Bool) → length (text ws b) ≤ length (after ws b)
length-text [] false = omega arith
length-text [] true = omega arith
length-text (w ∷ ws) b = omega arith

-- One turn of the loop.
pub parse_tokens-step :
    (env : Environ) (fuel : ℕ) (w e : List ℕ) {b : ℕ} {s : List ℕ} (c c' : ExecCmd)
    → w ≡ b ∷ s
    → get_token (w ++ e) ≡ some w
    → parse_token env c w ≡ some c'
    → parse_tokens env (suc fuel) (w ++ e) c ≡ parse_tokens env fuel (drop 1 e) c'
unfolding parse_tokens
parse_tokens-step env fuel [] e c c' h t p = cc
parse_tokens-step env fuel (b ∷ w) e c c' h t p =
    rw (parse_tokens, t, p) (ap (λ l. parse_tokens env fuel l c') (drop-length w e))

pub argv-apply :
    (env : Environ) (c : ExecCmd) (w : Word)
    → (length (apply env c w).argv ≡ length c.argv + args_of w)
      × (length (apply env c w).eargv ≡ length c.eargv + assigns_of w)
argv-apply env c (arg a w) = omega (arith, length-append c.argv ((a ∷ w) ∷ []))
argv-apply env c (var name) = omega (arith, length-append c.argv (value_of (env.getenv name) ∷ []))
argv-apply env c status = omega (arith, length-append c.argv (env.status ∷ []))
argv-apply env c (assign k key value) =
    omega (arith, length-append c.eargv (render (assign k key value) ∷ []))
argv-apply env c (out file) = omega arith
argv-apply env c (input file) = omega arith
argv-apply env c (err file) = omega arith

parse_tokens-text :
    (env : Environ) (fuel : ℕ) (ws : List Word) (b : Bool) (c : ExecCmd)
    → All IsToken ws
    → length c.argv + args ws < 20
    → length c.eargv + assigns ws ≤ 20
    → length (text ws b) ≤ fuel
    → parse_tokens env fuel (text ws b) c ≡ some (apply_all env c ws)
unfolding parse_tokens get_token
parse_tokens-text env fuel [] b c l ha he hf = ground arith
parse_tokens-text env zero (w ∷ ws) b c l ha he hf = absurd (
    omega (
      arith,
      length-append (render w) (after ws b),
      ap (λ (l : List ℕ). length l) (render-cons w).2,
    ))
parse_tokens-text env (suc fuel) (w ∷ ws) b c ((lw, ls, ll), l) ha he hf =
    parse_tokens-step env fuel (render w) (after ws b) c (apply env c w) (render-cons w).2
      (get_token_loop-word argsize (render w) ws b ls ll)
      (parse_token-apply env c w lw (omega arith) (omega arith))
    ∙ ap (λ l. parse_tokens env fuel l (apply env c w)) (drop-after ws b)
    ∙ parse_tokens-text env fuel ws b (apply env c w) l (omega (arith, argv-apply env c w))
        (omega (arith, argv-apply env c w))
        (omega (
          arith,
          length-append (render w) (after ws b),
          ap (λ (l : List ℕ). length l) (render-cons w).2,
          length-text ws b,
        ))

-- parse_exec of a command that is written with one space between its words, and at most one at the end,
-- gives the arguments and variables in order and the last redirection of each kind: with at most 19
-- arguments and 20 variables, and words of fewer than 1024 bytes.
pub parse_exec-words :
    (env : Environ) (ws : List Word) (b : Bool)
    → All IsToken ws
    → args ws < 20
    → assigns ws ≤ 20
    → parse_exec env (text ws b) ≡ some (apply_all env (exec_cmd_create (text ws b)) ws)
unfolding parse_exec exec_cmd_create
parse_exec-words env ws b l ha he =
    parse_tokens-text env (length (text ws b)) ws b (exec_cmd_create (text ws b)) l (omega arith)
      (omega arith) (omega arith)
