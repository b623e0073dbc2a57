-- ===== src/Base/Results.antt =====
-- Statements about the result of a function that may crash.
use tox_suite.Base.{◌≡◌, refl, Option, none, some}
use mathlib.Core.Option
use mathlib.Core.Option.{some-injective}
use mathlib.Core.Path.{subst}

-- A crash leaves nothing to say.
abbrev pub OnResult {ℓ κ} : {A : Type ℓ} → (A → Type κ) → Option A → Type κ
OnResult P none = Unit
OnResult P (some r) = P r

pub on_result {ℓ κ} :
    {A : Type ℓ} (P : A → Type κ) (o : Option A) (r : A) → OnResult P o → o ≡ some r → P r
on_result P none r h e = cc
on_result P (some x) r h e = subst P (some-injective x r e) h

pub on_map {ℓ κ μ} :
    {A : Type ℓ} {B : Type μ} (P : B → Type κ) (f : A → B) (o : Option A)
    → ((x : A) → P (f x))
    → OnResult P (Option.map f o)
on_map P f none h = tt
on_map P f (some x) h = h x

-- One function after another.
pub on_bind {ℓ κ μ ν} :
    {A : Type ℓ} {B : Type μ} (Q : A → Type ν) (P : B → Type κ) (f : A → Option B) (o : Option A)
    → OnResult Q o
    → ((x : A) → Q x → OnResult P (f x))
    → OnResult P (elim o [ none ↦ none | some x ↦ f x ])
on_bind Q P f none q h = tt
on_bind Q P f (some x) q h = h x q

-- Chains of steps that may fail, for `do`.
infixl 5 ◌>>=◌
abbrev pub ◌>>=◌ {ℓ κ} : {A : Type ℓ} {B : Type κ} → Option A → (A → Option B) → Option B
none >>= f = none
some x >>= f = f x

-- A chain that gives a result has one at each step.
pub >>=-eq-some {ℓ κ} :
    {A : Type ℓ} {B : Type κ} (m : Option A) (f : A → Option B) {b : B}
    → (m >>= f) ≡ some b
    → (a : A) × (m ≡ some a) × (f a ≡ some b)
>>=-eq-some none f h = cc
>>=-eq-some (some a) f h = (a, refl, h)
