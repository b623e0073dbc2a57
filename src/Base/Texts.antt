-- ===== src/Base/Texts.antt =====
-- Texts of C: the bytes of a literal, and the bytes of a string up to its terminator.
use Prim.Native.Char.{code}
use Prim.Native.String.{String}
use tox_suite.Base.{ℕ, ◌≡◌, ◌≢◌, refl, List, [], ◌∷◌, ◌==◌, if◌then◌else◌, arith, All}

abbrev pub codes : String → List ℕ
codes String.[] = []
codes (String.◌∷◌ c s) = code c ∷ codes s

-- What strlen, strcmp, strdup and "%s" read of these bytes.
abbrev pub c_string : List ℕ → List ℕ
c_string [] = []
c_string (c ∷ s) = if c == 0 then [] else c ∷ c_string s

-- No terminator within.
abbrev pub IsText : List ℕ → Type 0
IsText = All (λ c. c ≢ 0)

pub c_string_lem : (s : List ℕ) → IsText s → c_string s ≡ s
c_string_lem [] t = refl
c_string_lem (c ∷ s) t = ground (arith, t.0, c_string_lem s t.1)
