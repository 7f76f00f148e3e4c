-- ===== src/Shell/Parse/Overflow.antt =====
-- shell/parsing.c with more arguments than argv holds.
use sistemas_operativos_2c.Common.{
  ℕ, zero, suc, ◌+◌, ◌≤◌, ◌≡◌, refl, ap, ◌∙◌, Bool, none, some, List, [], ◌∷◌, ◌++◌, ◌⊎◌, inl, inr,
  subst, sym, Option, length-append, All, length, arith,
}
use native.Mathlib.Decide.{dec_lt}
use sistemas_operativos_2c.Shell.{argsize, ExecCmd, exec_cmd_create}
use sistemas_operativos_2c.Shell.Parse.{
  Environ, get_token, add_to, parse_environ_var, expand_environ_var, parse_token, parse_tokens,
  parse_exec,
}
use sistemas_operativos_2c.Shell.Parse.Words.{
  Word, arg, var, status, assign, out, input, err, render, Lacks, NoRedir, IsWord, IsToken, apply,
  args_of, assigns_of, args, apply_all, length-text, parse_token-apply, after, text, render-cons,
  parse_token-apply, parse_redir_flow-NoRedir, is_environ_var-Lacks, is_environ_var-assign,
  get_token_loop-word, drop-after, parse_tokens-step, argv-apply,
}

add_to-full : (l : List (List ℕ)) (w : List ℕ) → 20 ≤ length l → add_to l w ≡ none
unfolding add_to
add_to-full l w h = ground arith

parse_token-full :
    (env : Environ) (c : ExecCmd) (w : List ℕ)
    → NoRedir w
    → Lacks b'=' w
    → 20 ≤ length c.argv
    → parse_token env c w ≡ none
unfolding parse_token parse_environ_var
parse_token-full env c w r l h =
    rw
      (
        parse_token,
        parse_redir_flow-NoRedir c w r,
        is_environ_var-Lacks w l,
        add_to-full c.argv (expand_environ_var env w) h,
      )
      refl

parse_token-full_environ :
    (env : Environ) (c : ExecCmd) (k : ℕ) (key value : List ℕ)
    → IsWord (assign k key value)
    → 20 ≤ length c.eargv
    → parse_token env c (render (assign k key value)) ≡ none
unfolding parse_token parse_environ_var
parse_token-full_environ env c k key value l h =
    rw
      (
        parse_token,
        parse_redir_flow-NoRedir c (render (assign k key value)) l.0,
        is_environ_var-assign k key value l,
        add_to-full c.eargv (render (assign k key value)) h,
      )
      refl

abbrev HasRoom : ExecCmd → Word → Type 0
HasRoom c w = (length c.argv + args_of w ≤ 20) × (length c.eargv + assigns_of w ≤ 20)

-- The array that the next word belongs in is full; at the end of the words, argv has no place for the NULL.
abbrev pub NoRoom : ExecCmd → List Word → Type 0
NoRoom c [] = length c.argv ≡ 20
NoRoom c (w ∷ ws) =
    ((args_of w ≡ 1) × (length c.argv ≡ 20)) ⊎ ((assigns_of w ≡ 1) × (length c.eargv ≡ 20))

abbrev IsWithin : ExecCmd → Type 0
IsWithin c = (length c.argv ≤ 20) × (length c.eargv ≤ 20)

-- A word has room, or the array that it belongs in is full.
room-cases :
    (env : Environ) (c : ExecCmd) (w : Word) (ws : List Word)
    → IsWord w
    → IsWithin c
    → HasRoom c w ⊎ ((parse_token env c (render w) ≡ none) × NoRoom c (w ∷ ws))
room-cases env c (arg a w) ws l i = elim (dec_lt (length c.argv) 20) [
  | yes h ↦ inl (omega arith)
  | no h ↦ inr (parse_token-full env c (a ∷ w) l.1 l.2 (omega arith), inl (refl, omega arith))
]
room-cases env c (var name) ws l i = elim (dec_lt (length c.argv) 20) [
  | yes h ↦ inl (omega arith)
  | no h ↦ inr (
    parse_token-full env c (b'$' ∷ name) ((omega arith, l.1.0), (omega arith, l.1.1))
        (omega arith, l.2) (omega arith),
    inl (refl, omega arith),
  )
]
room-cases env c status ws l i = elim (dec_lt (length c.argv) 20) [
  | yes h ↦ inl (omega arith)
  | no h ↦ inr (
    parse_token-full env c (render status) (omega arith) (omega arith) (omega arith),
    inl (refl, omega arith),
  )
]
room-cases env c (assign k key value) ws l i = elim (dec_lt (length c.eargv) 20) [
  | yes h ↦ inl (omega arith)
  | no h ↦ inr (parse_token-full_environ env c k key value l (omega arith), inr (refl, omega arith))
]
room-cases env c (out file) ws l i = inl (omega arith)
room-cases env c (input file) ws l i = inl (omega arith)
room-cases env c (err file) ws l i = inl (omega arith)

parse_tokens-fault :
    (env : Environ) (fuel : ℕ) (w e : List ℕ) {b : ℕ} {s : List ℕ} (c : ExecCmd)
    → w ≡ b ∷ s
    → get_token (w ++ e) ≡ some w
    → parse_token env c w ≡ none
    → parse_tokens env (suc fuel) (w ++ e) c ≡ none
unfolding parse_tokens
parse_tokens-fault env fuel [] e c h t p = cc
parse_tokens-fault env fuel (b ∷ w) e c h t p = rw (parse_tokens, t, p) refl

-- The loop comes to a word, or to the end, with no room for what it stores there.
abbrev pub ComesTo : Environ → Option ExecCmd → List Word → Bool → ExecCmd → Type 0
ComesTo env result ws b c =
    (pre post : List Word) × (fuel : ℕ) × (ws ≡ pre ++ post)
    × (result ≡ parse_tokens env fuel (text post b) (apply_all env c pre))
    × NoRoom (apply_all env c pre) post

ComesTo-next :
    (env : Environ) (result : Option ExecCmd) (w : Word) (ws : List Word) (b : Bool) (c : ExecCmd)
    → ComesTo env result ws b (apply env c w)
    → ComesTo env result (w ∷ ws) b c
ComesTo-next env result w ws b c (pre, post, fuel, split, e, full) =
    (w ∷ pre, post, fuel, ap (λ l. w ∷ l) split, e, full)

parse_tokens-full :
    (env : Environ) (fuel : ℕ) (ws : List Word) (b : Bool) (c : ExecCmd)
    → All IsToken ws
    → IsWithin c
    → 20 ≤ length c.argv + args ws
    → length (text ws b) ≤ fuel
    → (parse_tokens env fuel (text ws b) c ≡ none)
      × ComesTo env (parse_tokens env fuel (text ws b) c) ws b c
unfolding parse_tokens get_token
parse_tokens-full env fuel [] b c l i h hf =
    (ground arith, ([], [], fuel, refl, refl, omega (arith, i.0, h)))
parse_tokens-full env zero (w ∷ ws) b c l i h hf = absurd (
    omega (
      arith,
      length-append (render w) (after ws b),
      ap (λ (l : List ℕ). length l) (render-cons w).2,
    ))
parse_tokens-full env (suc fuel) (w ∷ ws) b c ((lw, ls, ll), l) i h hf =
    let is_token = get_token_loop-word argsize (render w) ws b ls ll in
    elim (room-cases env c w ws lw i) [
      | inl r ↦
          let turn : parse_tokens env (suc fuel) (text (w ∷ ws) b) c
              ≡ parse_tokens env fuel (text ws b) (apply env c w) =
            parse_tokens-step env fuel (render w) (after ws b) c (apply env c w) (render-cons w).2
              is_token (parse_token-apply env c w lw r.0 r.1)
            ∙ ap (λ l. parse_tokens env fuel l (apply env c w)) (drop-after ws b) in
          let short : length (text ws b) ≤ fuel = omega (
            arith,
            length-append (render w) (after ws b),
            ap (λ (l : List ℕ). length l) (render-cons w).2,
            length-text ws b,
          ) in
          let (e, come) =
            parse_tokens-full env fuel ws b (apply env c w) l (omega (arith, argv-apply env c w))
              (omega (arith, argv-apply env c w)) short in
          (
            turn ∙ e,
            ComesTo-next env (parse_tokens env (suc fuel) (text (w ∷ ws) b) c) w ws b c
                (subst (λ x. ComesTo env x ws b (apply env c w)) (sym turn) come),
          )
      | inr (faults, full) ↦ (
        parse_tokens-fault env fuel (render w) (after ws b) c (render-cons w).2 is_token faults,
        ([], w ∷ ws, suc fuel, refl, refl, full),
      )
    ]

-- With 20 arguments or more, parse_exec of a command that is written with one space between its words makes an access outside
-- an object: after some of the words it comes to one whose array, argv or eargv, already has 20 elements, or to the end,
-- where argv has no place for the NULL. Words have fewer than 1024 bytes.
pub parse_exec-overflows :
    (env : Environ) (ws : List Word) (b : Bool)
    → All IsToken ws
    → 20 ≤ args ws
    → (parse_exec env (text ws b) ≡ none)
      × ComesTo env (parse_exec env (text ws b)) ws b (exec_cmd_create (text ws b))
unfolding parse_exec exec_cmd_create
parse_exec-overflows env ws b l h =
    parse_tokens-full env (length (text ws b)) ws b (exec_cmd_create (text ws b)) l (omega arith)
      (omega arith) (omega arith)
