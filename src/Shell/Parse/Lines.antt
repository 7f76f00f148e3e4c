-- ===== src/Shell/Parse/Lines.antt =====
-- shell/parsing.c on a line of commands with pipes between them.
use sistemas_operativos_2c.Common.{
  ℕ, zero, suc, ◌<◌, ◌≤◌, ◌≡◌, ◌≢◌, ◌⊎◌, inl, inr, refl, subst, sym, ap, ◌∙◌, Bool, true, false,
  Option, none, some, List, [], ◌∷◌, ◌++◌, All, All-map, length, arith, ◌==◌, length-append,
  append_assoc, map_option,
}
use sistemas_operativos_2c.Shell.{
  Cmd, exec_cmd, back_cmd, pipe_cmd, exec_cmd_create, back_cmd_create, pipe_cmd_create,
  block_contains, split_line, skip_spaces,
}
use sistemas_operativos_2c.Shell.Parse.{
  Environ, parse_exec, before_amp, parse_back, byte_before, parse_cmd, parse_line_in, parse_line,
}
use sistemas_operativos_2c.Shell.Parse.Words.{
  Word, render, Lacks, IsToken, apply_all, args, assigns, after, text, render-cons,
  block_contains-Lacks, block_contains-first, parse_exec-words,
}

-- No byte of a word ends a command.
abbrev pub IsPlain : Word → Type 0
IsPlain w = Lacks b'|' (render w) × Lacks b'&' (render w) × Lacks 0 (render w)

abbrev pub IsCommand : List Word → Type 0
IsCommand [] = ⊥
IsCommand (w ∷ ws) =
    All IsToken (w ∷ ws) × All IsPlain (w ∷ ws) × (args (w ∷ ws) < 20) × (assigns (w ∷ ws) ≤ 20)

-- The commands of a line; the last one may be in the background.
pub data Line : Type 0 where
  last : List Word → Line
  background : List Word → Line
  then_pipe : List Word → Line → Line

abbrev pub IsLine : Line → Type 0
IsLine (last ws) = IsCommand ws
IsLine (background ws) = IsCommand ws
IsLine (then_pipe ws l) = IsCommand ws × IsLine l

abbrev pub line_text : Line → List ℕ
line_text (last ws) = text ws false
line_text (background ws) = text ws true ++ b'&' ∷ []
line_text (then_pipe ws l) = text ws true ++ b'|' ∷ b' ' ∷ line_text l

abbrev pub tree : Environ → Line → Cmd
tree env (last ws) = exec_cmd (apply_all env (exec_cmd_create (text ws false)) ws)
tree env (background ws) =
    let c = apply_all env (exec_cmd_create (text ws true)) ws in back_cmd c.scmd (exec_cmd c)
tree env (then_pipe ws l) =
    pipe_cmd (exec_cmd (apply_all env (exec_cmd_create (text ws true)) ws)) (tree env l)

Lacks-append : (c : ℕ) (v w : List ℕ) → Lacks c v → Lacks c w → Lacks c (v ++ w)
Lacks-append c [] w lv lw = lw
Lacks-append c (x ∷ v) w lv lw = (lv.0, Lacks-append c v w lv.1 lw)

Lacks-after :
    (c : ℕ) (ws : List Word) (b : Bool)
    → c ≢ b' '
    → All (λ w. Lacks c (render w)) ws
    → Lacks c (after ws b)
Lacks-after c [] false h l = tt
Lacks-after c [] true h l = ((λ e. h (sym e)), tt)
Lacks-after c (w ∷ ws) b h l =
    ((λ e. h (sym e)), Lacks-append c (render w) (after ws b) l.0 (Lacks-after c ws b h l.1))

Lacks-text :
    (c : ℕ) (ws : List Word) (b : Bool)
    → c ≢ b' '
    → All (λ w. Lacks c (render w)) ws
    → Lacks c (text ws b)
Lacks-text c [] b h l = tt
Lacks-text c (w ∷ ws) b h l = Lacks-append c (render w) (after ws b) l.0 (Lacks-after c ws b h l.1)

-- The text of a command has none of the bytes that end one.
text-IsPlain :
    (ws : List Word) (b : Bool)
    → All IsPlain ws
    → Lacks b'|' (text ws b) × Lacks b'&' (text ws b) × Lacks 0 (text ws b)
text-IsPlain ws b p = (
  Lacks-text b'|' ws b (omega arith) (All-map (λ w (h : IsPlain w). h.0) ws p),
  Lacks-text b'&' ws b (omega arith) (All-map (λ w (h : IsPlain w). h.1) ws p),
  Lacks-text 0 ws b (omega arith) (All-map (λ w (h : IsPlain w). h.2) ws p),
)

split_line-at :
    (l e : List ℕ) (d : ℕ)
    → Lacks b'|' l
    → Lacks 0 l
    → (d ≡ b'|') ⊎ (d ≡ 0)
    → split_line (l ++ d ∷ e) b'|' ≡ map_option (λ right. (l, right)) (skip_spaces e)
unfolding split_line
split_line-at [] e d lb lz h = ground arith
split_line-at (c ∷ l) e d lb lz h = ground (arith, lb.0, lz.0, split_line-at l e d lb.1 lz.1 h)

before_amp-first : (l e : List ℕ) → Lacks b'&' l → before_amp (l ++ b'&' ∷ e) ≡ l
unfolding before_amp
before_amp-first [] e h = refl
before_amp-first (c ∷ l) e h = ground (arith, h.0, before_amp-first l e h.1)

byte_before-last :
    (before : Option ℕ) (l e : List ℕ) (c : ℕ)
    → byte_before before (l ++ c ∷ e) (suc (length l)) ≡ some c
unfolding byte_before
byte_before-last before [] e c = refl
byte_before-last before (d ∷ l) e c = byte_before-last (some d) l e c

after-space : (ws : List Word) → after ws true ≡ after ws false ++ b' ' ∷ []
after-space [] = refl
after-space (w ∷ ws) =
    ap (λ l. b' ' ∷ render w ++ l) (after-space ws)
    ∙ sym (append_assoc (b' ' ∷ render w) (after ws false) (b' ' ∷ []))

text-space : (ws : List Word) → IsCommand ws → text ws true ≡ text ws false ++ b' ' ∷ []
text-space [] h = absurd h
text-space (w ∷ ws) h =
    ap (λ l. render w ++ l) (after-space ws)
    ∙ sym (append_assoc (render w) (after ws false) (b' ' ∷ []))

-- parse_cmd of a text that is not empty and has no '&'.
parse_cmd-plain :
    (env : Environ) (before : Option ℕ) (s : List ℕ)
    → 0 < length s
    → Lacks b'&' s
    → parse_cmd env before s ≡ map_option exec_cmd (parse_exec env s)
unfolding parse_cmd
parse_cmd-plain env before [] h l = absurd (omega arith)
parse_cmd-plain env before (b ∷ s) h l = rw (parse_cmd, block_contains-Lacks (b ∷ s) b'&' l) refl

parse_cmd-back :
    (env : Environ) (before : Option ℕ) (t : List ℕ) {idx c : ℕ}
    → 0 < length t
    → block_contains t b'&' ≡ some idx
    → byte_before before t idx ≡ some c
    → c ≢ b'>'
    → parse_cmd env before t ≡ parse_back env t
unfolding parse_cmd
parse_cmd-back env before [] h hi hb hc = absurd (omega arith)
parse_cmd-back env before (b ∷ t) h hi hb hc = rw (parse_cmd, hi, hb) (ground (arith, hc))

byte_before-space :
    (before : Option ℕ) (s : List ℕ)
    → byte_before before ((s ++ b' ' ∷ []) ++ b'&' ∷ []) (length (s ++ b' ' ∷ [])) ≡ some b' '
byte_before-space before s =
    rw
      (
        append_assoc s (b' ' ∷ []) (b'&' ∷ []),
        (let e : length (s ++ b' ' ∷ []) ≡ suc (length s) =
              omega (arith, length-append s (b' ' ∷ [])) in
            e),
      )
      (byte_before-last before s (b'&' ∷ []) b' ')

-- One with a space and a '&' at the end.
parse_cmd-amp :
    (env : Environ) (before : Option ℕ) (s : List ℕ)
    → Lacks b'&' (s ++ b' ' ∷ [])
    → parse_cmd env before ((s ++ b' ' ∷ []) ++ b'&' ∷ [])
      ≡ map_option back_cmd_create (parse_exec env (s ++ b' ' ∷ []))
unfolding parse_back
parse_cmd-amp env before s l =
    parse_cmd-back env before ((s ++ b' ' ∷ []) ++ b'&' ∷ [])
      (omega (arith, length-append (s ++ b' ' ∷ []) (b'&' ∷ [])))
      (block_contains-first (s ++ b' ' ∷ []) [] b'&' l) (byte_before-space before s) (omega arith)
    ∙ ap (λ t. map_option back_cmd_create (parse_exec env t))
        (before_amp-first (s ++ b' ' ∷ []) [] l)

parse_exec-command :
    (env : Environ) (ws : List Word) (b : Bool)
    → IsCommand ws
    → parse_exec env (text ws b) ≡ some (apply_all env (exec_cmd_create (text ws b)) ws)
parse_exec-command env [] b h = absurd h
parse_exec-command env (w ∷ ws) b h = parse_exec-words env (w ∷ ws) b h.0 h.2 h.3

command-IsPlain :
    (ws : List Word) (b : Bool)
    → IsCommand ws
    → Lacks b'|' (text ws b) × Lacks b'&' (text ws b) × Lacks 0 (text ws b)
command-IsPlain [] b h = absurd h
command-IsPlain (w ∷ ws) b h = text-IsPlain (w ∷ ws) b h.1

-- A command's text begins with a byte that is neither a space nor a terminator.
abbrev Begins : List ℕ → Type 0
Begins s = (b : ℕ) × (r : List ℕ) × (s ≡ b ∷ r) × (b ≢ b' ') × (b ≢ 0)

word-Begins : (w : Word) (e : List ℕ) → IsToken w → IsPlain w → Begins (render w ++ e)
word-Begins w e t p =
    let (b, s, h) = render-cons w in
    (b, s ++ e, ap (λ l. l ++ e) h, (subst (Lacks b' ') h t.1).0, (subst (Lacks 0) h p.2).0)

text-Begins : (ws : List Word) (b : Bool) (e : List ℕ) → IsCommand ws → Begins (text ws b ++ e)
text-Begins [] b e h = absurd h
text-Begins (w ∷ ws) b e h =
    let (c, s, eq, sp, z) = word-Begins w (after ws b ++ e) h.0.0 h.1.0 in
    (c, s, append_assoc (render w) (after ws b) e ∙ eq, sp, z)

line-Begins : (l : Line) (e : List ℕ) → IsLine l → Begins (line_text l ++ e)
line-Begins (last ws) e h = text-Begins ws false e h
line-Begins (background ws) e h =
    let (c, s, eq, sp, z) = text-Begins ws true (b'&' ∷ e) h in
    (c, s, append_assoc (text ws true) (b'&' ∷ []) e ∙ eq, sp, z)
line-Begins (then_pipe ws l) e h =
    let (c, s, eq, sp, z) = text-Begins ws true ((b'|' ∷ b' ' ∷ line_text l) ++ e) h.0 in
    (c, s, append_assoc (text ws true) (b'|' ∷ b' ' ∷ line_text l) e ∙ eq, sp, z)

text-length : (ws : List Word) (b : Bool) → IsCommand ws → 0 < length (text ws b)
text-length [] b h = absurd h
text-length (w ∷ ws) b h =
    omega (
      arith,
      length-append (render w) (after ws b),
      ap (λ (l : List ℕ). length l) (render-cons w).2,
    )

skip_spaces-Begins : (s : List ℕ) → Begins s → skip_spaces s ≡ some s
unfolding skip_spaces
skip_spaces-Begins s (b, r, e, h, _) = rw e (ground (arith, h))

parse_cmd-text :
    (env : Environ) (before : Option ℕ) (ws : List Word) (b : Bool)
    → IsCommand ws
    → parse_cmd env before (text ws b)
      ≡ some (exec_cmd (apply_all env (exec_cmd_create (text ws b)) ws))
parse_cmd-text env before ws b h =
    parse_cmd-plain env before (text ws b) (text-length ws b h) ((command-IsPlain ws b h).1)
    ∙ ap (map_option exec_cmd) (parse_exec-command env ws b h)

parse_cmd-background :
    (env : Environ) (before : Option ℕ) (ws : List Word)
    → IsCommand ws
    → parse_cmd env before (text ws true ++ b'&' ∷ []) ≡ some (tree env (background ws))
unfolding back_cmd_create
parse_cmd-background env before ws h =
    rw (text-space ws h) (
      parse_cmd-amp env before (text ws false)
        (subst (Lacks b'&') (text-space ws h) (command-IsPlain ws true h).1))
    ∙ ap (λ t. map_option back_cmd_create (parse_exec env t)) (sym (text-space ws h))
    ∙ ap (map_option back_cmd_create) (parse_exec-command env ws true h)

pipe_cmd_create-tree :
    (env : Environ) (c : Cmd) (l : Line) → pipe_cmd_create c (tree env l) ≡ pipe_cmd c (tree env l)
unfolding pipe_cmd_create back_cmd_create
pipe_cmd_create-tree env c (last ws) = refl
pipe_cmd_create-tree env c (background ws) = refl
pipe_cmd_create-tree env c (then_pipe ws l) = refl

-- The last command of a line.
parse_line_in-last :
    (env : Environ) (fuel : ℕ) (before : Option ℕ) (buf left r : List ℕ) {c : Cmd}
    → split_line buf b'|' ≡ some (left, 0 ∷ r)
    → parse_cmd env before left ≡ some c
    → parse_line_in env (suc fuel) before buf ≡ some c
unfolding parse_line_in pipe_cmd_create
parse_line_in-last env fuel before buf left r hs hc = rw (parse_line_in, hs, hc) refl

parse_line_in-pipe :
    (env : Environ) (fuel : ℕ) (before : Option ℕ) (buf left right : List ℕ) {c t : Cmd}
    → split_line buf b'|' ≡ some (left, right)
    → Begins right
    → parse_cmd env before left ≡ some c
    → parse_line_in env fuel (some 0) right ≡ some t
    → parse_line_in env (suc fuel) before buf ≡ some (pipe_cmd_create c t)
unfolding parse_line_in
parse_line_in-pipe env fuel before buf left [] hs (b, r, e, h, z) hc ht = cc
parse_line_in-pipe env fuel before buf left (x ∷ right) hs (b, r, e, h, z) hc ht =
    let x0 : (x == 0) ≡ false = ground (arith, e, z) in rw (parse_line_in, hs, hc, x0, ht) refl

-- The text of the last command ends the line.
split_line-last :
    (left r : List ℕ)
    → Lacks b'|' left
    → Lacks 0 left
    → split_line (left ++ 0 ∷ 0 ∷ r) b'|' ≡ some (left, 0 ∷ r)
unfolding skip_spaces
split_line-last left r lb lz = split_line-at left (0 ∷ r) 0 lb lz (inr refl)

split_line-pipe :
    (left right : List ℕ)
    → Lacks b'|' left
    → Lacks 0 left
    → Begins right
    → split_line (left ++ b'|' ∷ b' ' ∷ right) b'|' ≡ some (left, right)
unfolding skip_spaces
split_line-pipe left right lb lz b =
    split_line-at left (b' ' ∷ right) b'|' lb lz (inl refl)
    ∙ ap (map_option (λ (x : List ℕ). (left, x))) (skip_spaces-Begins right b)

-- What follows the line in its buffer: the terminator and at least one zero more.
abbrev rest_of : List ℕ → List ℕ
rest_of r = 0 ∷ 0 ∷ r

parse_line_in-line :
    (env : Environ) (fuel : ℕ) (before : Option ℕ) (l : Line) (r : List ℕ)
    → IsLine l
    → length (line_text l) < fuel
    → parse_line_in env fuel before (line_text l ++ rest_of r) ≡ some (tree env l)
parse_line_in-line env zero before l r h hf = absurd (omega arith)
parse_line_in-line env (suc fuel) before (last ws) r h hf =
    parse_line_in-last env fuel before (text ws false ++ rest_of r) (text ws false) r
      (split_line-last (text ws false) r (command-IsPlain ws false h).0
        (command-IsPlain ws false h).2)
      (parse_cmd-text env before ws false h)
parse_line_in-line env (suc fuel) before (background ws) r h hf =
    parse_line_in-last env fuel before ((text ws true ++ b'&' ∷ []) ++ rest_of r)
      (text ws true ++ b'&' ∷ []) r
      (split_line-last (text ws true ++ b'&' ∷ []) r
        (Lacks-append b'|' (text ws true) (b'&' ∷ []) (command-IsPlain ws true h).0 (omega arith))
        (Lacks-append 0 (text ws true) (b'&' ∷ []) (command-IsPlain ws true h).2 (omega arith)))
      (parse_cmd-background env before ws h)
parse_line_in-line env (suc fuel) before (then_pipe ws l) r h hf =
    ap (parse_line_in env (suc fuel) before)
      (append_assoc (text ws true) (b'|' ∷ b' ' ∷ line_text l) (rest_of r))
    ∙ parse_line_in-pipe env fuel before (text ws true ++ (b'|' ∷ b' ' ∷ line_text l ++ rest_of r))
        (text ws true) (line_text l ++ rest_of r)
        (split_line-pipe (text ws true) (line_text l ++ rest_of r) (command-IsPlain ws true h.0).0
          (command-IsPlain ws true h.0).2 (line-Begins l (rest_of r) h.1))
        (line-Begins l (rest_of r) h.1) (parse_cmd-text env before ws true h.0)
        (parse_line_in-line env fuel (some 0) l r h.1
          (omega (arith, length-append (text ws true) (b'|' ∷ b' ' ∷ line_text l))))
    ∙ ap some (pipe_cmd_create-tree env _ l)

-- parse_line of a line of commands with " | " between them, the last one with '&' at its end or not, in a
-- buffer where a zero follows the terminator, builds the commands' tree: each with its words in
-- order, the pipes nested to the right, and a last command with '&' in the background. Words have no '|',
-- '&' or zero, and each command has a word and the bounds of parse_exec-words.
pub parse_line-line :
    (env : Environ) (l : Line) (r : List ℕ)
    → IsLine l
    → parse_line env (line_text l ++ 0 ∷ 0 ∷ r) ≡ some (tree env l)
unfolding parse_line
parse_line-line env l r h =
    parse_line_in-line env (length (line_text l ++ 0 ∷ 0 ∷ r)) none l r h
      (omega (arith, length-append (line_text l) (0 ∷ 0 ∷ r)))
