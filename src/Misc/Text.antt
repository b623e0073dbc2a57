-- ===== src/Misc/Text.antt =====
-- gnu_basename of src/misc.c.
use tox_suite.Base.{ℕ, ◌≡◌, refl, ◌∙◌, ◌≢◌, List, [], ◌∷◌, ◌++◌, arith, ◌==◌, if◌then◌else◌, All}

-- `base` is what follows the last '/' so far.
after_slash : List ℕ → List ℕ → List ℕ
after_slash base [] = base
after_slash base (c ∷ cs) = after_slash (if c == b'/' then cs else base) cs

unfoldable pub gnu_basename : List ℕ → List ℕ
unfolding after_slash
gnu_basename path = after_slash path path

-- No byte is a '/'.
abbrev pub NoSlash : List ℕ → Type 0
NoSlash = All (λ c. c ≢ b'/')

after_slash-NoSlash : (base cs : List ℕ) → NoSlash cs → after_slash base cs ≡ base
unfolding after_slash
after_slash-NoSlash base [] h = refl
after_slash-NoSlash base (c ∷ cs) h = ground (arith, h.0, after_slash-NoSlash base cs h.1)

after_slash-append :
    (base dir cs : List ℕ) → after_slash base (dir ++ b'/' ∷ cs) ≡ after_slash cs cs
unfolding after_slash
after_slash-append base [] cs = refl
after_slash-append base (c ∷ dir) cs =
    after_slash-append (if c == b'/' then dir ++ b'/' ∷ cs else base) dir cs

-- The name behind any directory is found, and a path without a directory is its own name.
pub gnu_basename_lem :
    (dir name : List ℕ)
    → NoSlash name
    → (gnu_basename (dir ++ b'/' ∷ name) ≡ name) × (gnu_basename name ≡ name)
unfolding gnu_basename
gnu_basename_lem dir name h = (
  after_slash-append (dir ++ b'/' ∷ name) dir name ∙ after_slash-NoSlash name name h,
  after_slash-NoSlash name name h,
)
