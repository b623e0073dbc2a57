-- ===== src/Commands/Arguments.antt =====
-- argexp of src/command.c: a message that starts with the delimiter becomes an argument vector for
-- getopt_long.
use tox_suite.Base.{
  All-append, ℕ, ◌+◌, ◌≡◌, refl, ap, ◌∙◌, ◌≢◌, true, false, not, Option, none, some, List, [], ◌∷◌,
  ◌++◌, arith, ◌==◌, if◌then◌else◌, length, take, All,
}
use mathlib.Core.List.{append-nil, append_assoc}
use tox_suite.Base.{take-append}
use tox_suite.Base.Texts.{codes, c_string, IsText}

-- What strtok leaves of a token before a space.
abbrev pub push_token : List ℕ → List (List ℕ) → List (List ℕ)
push_token [] tokens = tokens
push_token (c ∷ token) tokens = (c ∷ token) ∷ tokens

-- strtok (line, " "), call after call; `token` is the token so far.
abbrev pub tokens_from : List ℕ → List ℕ → List (List ℕ)
tokens_from token [] = push_token token []
tokens_from token (c ∷ s) = elim (c == b' ') [
  | true ↦ push_token token (tokens_from [] s)
  | false ↦ tokens_from (token ++ c ∷ []) s
]

-- `memory` is what stands at the message and behind it, `size` is the length that toxcore gives.
-- snprintf reads up to a terminator and writes at most size + 6 bytes before its own. The result is
-- NULL for -1, else the arguments.
unfoldable pub argexp : List ℕ → ℕ → ℕ → Option (List (List ℕ))
argexp [] size delim = none
argexp (c ∷ command) size delim =
    if not (c == delim)
    then none
    else some (tokens_from [] (take (size + 6) (codes "arg0 --" ++ c_string command)))

-- A word that is not empty and holds neither a space nor a terminator.
pub record IsToken (s : List ℕ) : Type 0 where
  pub text : IsText s
  pub no_space : All (λ c. c ≢ b' ') s
  pub not_empty : s ≢ []

-- Words with a space before each.
abbrev pub spaced : List (List ℕ) → List ℕ
spaced [] = []
spaced (w ∷ ws) = b' ' ∷ (w ++ spaced ws)

tokens_from-other :
    (token : List ℕ) (c : ℕ) (s : List ℕ)
    → c ≢ b' '
    → tokens_from token (c ∷ s) ≡ tokens_from (token ++ c ∷ []) s
tokens_from-other token c s h = rw (differs, tokens_from) refl
  where
    differs : (c == b' ') ≡ false
    differs = ground (arith, h)

pub tokens_from-word :
    (token w rest : List ℕ)
    → All (λ c. c ≢ b' ') w
    → tokens_from token (w ++ rest) ≡ tokens_from (token ++ w) rest
tokens_from-word token [] rest h = rw (append-nil token) refl
tokens_from-word token (c ∷ w) rest (h, hs) =
    tokens_from-other token c (w ++ rest) h
    ∙ tokens_from-word (token ++ c ∷ []) w rest hs
    ∙ ap (λ t. tokens_from t rest) (append_assoc token (c ∷ []) w)

pub push-token : (t : List ℕ) (tokens : List (List ℕ)) → t ≢ [] → push_token t tokens ≡ t ∷ tokens
push-token [] tokens h = absurd (h refl)
push-token (c ∷ t) tokens h = refl

tokens-spaced :
    (w : List ℕ) (ws : List (List ℕ)) → w ≢ [] → All IsToken ws → tokens_from w (spaced ws) ≡ w ∷ ws
tokens-spaced w [] n h = push-token w [] n
tokens-spaced w (v ∷ ws) n (h, hs) =
    push-token w (tokens_from [] (v ++ spaced ws)) n
    ∙ ap (◌∷◌ w) (tokens_from-word [] v (spaced ws) h.no_space ∙ tokens-spaced v ws h.not_empty hs)

spaced-IsText : (ws : List (List ℕ)) → All IsToken ws → IsText (spaced ws)
spaced-IsText [] h = tt
spaced-IsText (w ∷ ws) (h, hs) =
    ((λ e. omega arith), All-append (λ c. c ≢ 0) w (spaced ws) h.text (spaced-IsText ws hs))

pub c_string-append : (s t : List ℕ) → IsText s → c_string (s ++ t) ≡ s ++ c_string t
c_string-append [] t h = refl
c_string-append (c ∷ s) t (h, hs) = ground (arith, h, c_string-append s t hs)

take-more : (s t : List ℕ) (n : ℕ) → n ≡ length s → take n (s ++ t) ≡ s
take-more s t n e = rw e (take-append s t)

-- A command with its arguments is taken apart as it was put together: a message of the delimiter, a
-- first word and further words after one space each, none of them empty or with a space or a
-- terminator in it, gives "arg0", the first word behind "--" and the further words. What stands in
-- memory behind the message makes no difference.
pub argexp-spaced :
    (delim : ℕ) (w : List ℕ) (ws : List (List ℕ)) (behind : List ℕ)
    → IsToken w
    → All IsToken ws
    → argexp (delim ∷ (w ++ spaced ws) ++ behind) (1 + length (w ++ spaced ws)) delim
      ≡ some (codes "arg0" ∷ (codes "--" ++ w) ∷ ws)
unfolding argexp
argexp-spaced delim w ws behind h hs = rw same (
    ap (λ line. some (tokens_from [] line))
      (line (w ++ spaced ws) (All-append (λ c. c ≢ 0) w (spaced ws) h.text (spaced-IsText ws hs)))
    ∙ ap (λ tokens. some (codes "arg0" ∷ tokens))
        (tokens_from-word (codes "--") w (spaced ws) h.no_space
          ∙ tokens-spaced (codes "--" ++ w) ws (λ e. ground (arith, e)) hs))
  where
    same : (delim == delim) ≡ true
    same = ground arith

    line :
        (t : List ℕ)
        → IsText t
        → take (1 + length t + 6) (codes "arg0 --" ++ c_string (t ++ behind)) ≡ codes "arg0 --" ++ t
    line t text =
        ap (λ s. take (1 + length t + 6) (codes "arg0 --" ++ s)) (c_string-append t behind text)
        ∙ take-more (codes "arg0 --" ++ t) (c_string behind) (1 + length t + 6) (omega arith)
