-- ===== src/Commands/Parsing.antt =====
-- parse_command of src/callbacks.c on words that fit an argument and on words that do not.
use tox_suite.Base.{
  length-take, ℕ, zero, suc, ◌+◌, ◌*◌, ◌≤◌, ◌<◌, ◌≡◌, refl, sym, ap, ◌∙◌, ◌≢◌, true, false, Option,
  none, some, List, [], ◌∷◌, ◌++◌, arith, ltb, length, take, drop, All, length-append, length-drop,
}
use tox_suite.Base.{drop-append}
use tox_suite.Base.Texts.{c_string, IsText}
use tox_suite.Commands.{
  split_space, put_arg, arg_of, parse_args, no_args, parse_command, max_args_size, max_args_num,
}

abbrev pub NoSpace : List ℕ → Type 0
NoSpace = All (λ c. c ≢ b' ')

-- A word that fits an argument.
pub record IsWord (s : List ℕ) : Type 0 where
  pub text : IsText s
  pub no_space : NoSpace s
  pub fits : length s < max_args_size

split_space-end : (s : List ℕ) → NoSpace s → split_space s ≡ (s, none)
split_space-end [] h = refl
split_space-end (c ∷ s) (h, hs) = ground (arith, h, split_space-end s hs)

split_space-more : (s rest : List ℕ) → NoSpace s → split_space (s ++ b' ' ∷ rest) ≡ (s, some rest)
split_space-more [] rest h = refl
split_space-more (c ∷ s) rest (h, hs) = ground (arith, h, split_space-more s rest hs)

c_string-ended : (s rest : List ℕ) → IsText s → c_string (s ++ 0 ∷ rest) ≡ s
c_string-ended [] rest h = refl
c_string-ended (c ∷ s) rest (h, hs) = ground (arith, h, c_string-ended s rest hs)

c_string-take :
    (n : ℕ) (s rest more : List ℕ)
    → IsText s
    → length s < n
    → c_string (take n (s ++ 0 ∷ rest) ++ more) ≡ s
c_string-take zero s rest more h l = absurd (omega arith)
c_string-take (suc n) [] rest more h l = refl
c_string-take (suc n) (c ∷ s) rest more (h, hs) l =
    ground (arith, h, c_string-take n s rest more hs (omega arith))

put_arg_short :
    (n : ℕ) (s args : List ℕ)
    → n * max_args_size + length s < max_args_num * max_args_size
    → put_arg n s args
      ≡ some
          (take (n * max_args_size) args ++ (s ++ 0 ∷ drop (n * max_args_size + length s + 1) args))
unfolding put_arg
put_arg_short n s args h = rw short refl
  where
    short : ltb (max_args_num * max_args_size) (n * max_args_size + length s + 1) ≡ false
    short = ground (arith, h)

put_arg_long :
    (n : ℕ) (s args : List ℕ)
    → max_args_num * max_args_size ≤ n * max_args_size + length s
    → put_arg n s args ≡ none
unfolding put_arg
put_arg_long n s args h = rw long refl
  where
    long : ltb (max_args_num * max_args_size) (n * max_args_size + length s + 1) ≡ true
    long = ground (arith, h)

parse_args-none :
    (left n : ℕ) (cmd arg args : List ℕ) (end : Option (List ℕ))
    → split_space cmd ≡ (arg, end)
    → put_arg n arg args ≡ none
    → parse_args (suc left) n cmd args ≡ none
unfolding parse_args
parse_args-none left n cmd arg args end e p = rw (e, parse_args) (rw p refl)

parse_args-last :
    (left n : ℕ) (cmd arg args args' : List ℕ)
    → split_space cmd ≡ (arg, none)
    → put_arg n arg args ≡ some args'
    → parse_args (suc left) n cmd args ≡ some (n + 1, args')
unfolding parse_args
parse_args-last left n cmd arg args args' e p = rw (e, parse_args) (rw p (rw e refl))

parse_args-step :
    (left n : ℕ) (cmd arg end args args' : List ℕ)
    → split_space cmd ≡ (arg, some end)
    → put_arg n arg args ≡ some args'
    → parse_args (suc left) n cmd args ≡ parse_args left (n + 1) end args'
unfolding parse_args
parse_args-step left n cmd arg end args args' e p = rw (e, parse_args) (rw p (rw e refl))

-- A first word of 60 bytes or more is written past the end of the array of arguments, whatever
-- follows it.
pub parse_command_overflows :
    (s rest : List ℕ)
    → NoSpace s
    → max_args_num * max_args_size ≤ length s
    → (parse_command s ≡ none) × (parse_command (s ++ b' ' ∷ rest) ≡ none)
unfolding parse_command
parse_command_overflows s rest h l = (
  parse_args-none 2 0 s s no_args none (split_space-end s h)
      (put_arg_long 0 s no_args (omega arith)),
  parse_args-none 2 0 (s ++ b' ' ∷ rest) s no_args (some rest) (split_space-more s rest h)
      (put_arg_long 0 s no_args (omega arith)),
)

-- A command and its argument, parted by a space and each shorter than 20 bytes, are parsed as two
-- arguments, which are these words.
pub parse_command-words :
    (a b : List ℕ)
    → IsWord a
    → IsWord b
    → (args : List ℕ) × (parse_command (a ++ b' ' ∷ b) ≡ some (2, args))
      × (arg_of args 0 ≡ a)
      × (arg_of args 1 ≡ b)
unfolding parse_command
parse_command-words a b ha hb =
    let args = a ++ 0 ∷ drop (0 + length a + 1) no_args in
    let args' = take 20 args ++ (b ++ 0 ∷ drop (20 + length b + 1) args) in
    (
      args',
      parse_args-step 2 0 (a ++ b' ' ∷ b) a b no_args args (split_space-more a b ha.no_space)
            (put_arg_short 0 a no_args (omega (arith, ha.fits)))
          ∙ parse_args-last 1 1 b b args args' (split_space-end b hb.no_space)
              (put_arg_short 1 b args (omega (arith, hb.fits))),
      c_string-take 20 a _ _ ha.text ha.fits,
      second (take 20 args) b (drop (20 + length b + 1) args) hb.text
          (length-take 20 args (long a ha)),
    )
  where
    second :
        (before b after : List ℕ)
        → IsText b
        → length before ≡ 20
        → c_string (drop 20 (before ++ (b ++ 0 ∷ after))) ≡ b
    second before b after t e =
        ap (λ n. c_string (drop n (before ++ (b ++ 0 ∷ after)))) (sym e)
        ∙ ap c_string (drop-append before (b ++ 0 ∷ after))
        ∙ c_string-ended b after t

    long : (a : List ℕ) → IsWord a → 20 ≤ length (a ++ 0 ∷ drop (0 + length a + 1) no_args)
    long a ha = omega (
      arith,
      length-append a (0 ∷ drop (0 + length a + 1) no_args),
      length-drop (0 + length a + 1) no_args,
    )
