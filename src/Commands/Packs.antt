-- ===== src/Commands/Packs.antt =====
-- The pack numbers that cmd_info and cmd_send of src/callbacks.c accept.
use tox_suite.Base.{
  ℕ, zero, suc, ◌^◌, ◌<◌, ◌≡◌, refl, sym, ap, ◌∙◌, inl, inr, Bool, true, false, ◌&&◌, not, none,
  some, List, [], ◌∷◌, arith, Bool-cases, length, get_elem?, eq_bytes,
}
use tox_suite.Base.{Option, ◌⊎◌, ◌||◌}
use mathlib.Core.List.{append-nil}
use tox_suite.Base.Decimal.{decimal}
use tox_suite.Base.Digits.{read_digits, read_digits-decimal, is_digit, decimal-cons}
use tox_suite.Base.Int.{ltb_ℤ, ℤ, pos, negsuc}
use tox_suite.Base.Texts.{codes}
use tox_suite.Base.Words.{to_i32_of_small}
use tox_suite.Transfer.{FileNode}
use tox_suite.Commands.{atoi, exists_at, is_zero, checked_pack, wanted_pack}

-- A pack number that a command may go on with: -1 stands for the list, and any other is that of a
-- shared file that exists.
abbrev pub IsPack : List FileNode → ℤ → Type 0
IsPack fnode (pos n) = (f : FileNode) × (get_elem? fnode n ≡ some f) × (f.exists ≡ true)
IsPack fnode (negsuc n) = n ≡ 0

-- What the tests of a number come to, with the least number that is taken.
abbrev pub IsChecked : ℤ → List FileNode → Option ℤ → Type 0
IsChecked low fnode none = Unit
IsChecked low fnode (some packn) = IsPack fnode packn × (ltb_ℤ packn low ≡ false)

get_elem?-lt :
    (fnode : List FileNode) (n : ℕ) (f : FileNode) → get_elem? fnode n ≡ some f → n < length fnode
get_elem?-lt [] n f e = cc
get_elem?-lt (g ∷ fnode) zero f e = omega arith
get_elem?-lt (g ∷ fnode) (suc n) f e = omega (arith, get_elem?-lt fnode n f e)

get_elem?_inside :
    (fnode : List FileNode) (n : ℕ)
    → n < length fnode
    → (f : FileNode) × (get_elem? fnode n ≡ some f)
get_elem?_inside [] n h = absurd (omega (arith, h))
get_elem?_inside (g ∷ fnode) zero h = (g, refl)
get_elem?_inside (g ∷ fnode) (suc n) h = get_elem?_inside fnode n (omega (arith, h))

checked_pack-IsChecked :
    (low : ℤ) (fnode : List FileNode) (is_text : Bool) (v : ℤ)
    → (low ≡ pos 0) ⊎ (low ≡ negsuc 0)
    → (o : Option ℤ) × (checked_pack low fnode is_text v ≡ some o) × IsChecked low fnode o
unfolding checked_pack
checked_pack-IsChecked low fnode is_text v lows =
    elim (Bool-cases (is_text || ltb_ℤ v low || not (ltb_ℤ v (pos (length fnode))))) [
      | inl e ↦ (none, rw e refl, tt)
      | inr e ↦ passed v e
    ]
  where
    passed :
        (v : ℤ)
        → (is_text || ltb_ℤ v low || not (ltb_ℤ v (pos (length fnode)))) ≡ false
        → (o : Option ℤ) × (checked_pack low fnode is_text v ≡ some o) × IsChecked low fnode o
    passed (negsuc zero) e = (some (negsuc 0), rw e refl, (refl, ground (arith, e)))
    passed (negsuc (suc k)) e =
        absurd (elim lows [ inl l ↦ ground (arith, e, l) | inr l ↦ ground (arith, e, l) ])
    passed (pos n) e =
        let (f, at) = get_elem?_inside fnode n (ground (arith, e)) in
        elim (Bool-cases f.exists) [
          | inl x ↦
              (some (pos n), rw e (rw (at, exists_at) (rw x refl)), ((f, at, x), ground (arith, e)))
          | inr x ↦ (none, rw e (rw (at, exists_at) (rw x refl)), tt)
        ]

-- Whatever text a friend sends to cmd_send or cmd_info, which take -1 and 0 as the least number,
-- the array of shared files is not read out of its bounds; and the command goes on only with -1 or
-- with the number of a shared file that exists, and with no number below the least one.
pub wanted_pack-IsPack :
    (low : ℤ) (fnode : List FileNode) (arg : List ℕ)
    → (low ≡ pos 0) ⊎ (low ≡ negsuc 0)
    → (o : Option ℤ) × (wanted_pack low fnode arg ≡ some o) × IsChecked low fnode o
unfolding wanted_pack
wanted_pack-IsPack low fnode arg lows =
    checked_pack-IsChecked low fnode (is_zero (atoi arg) && not (eq_bytes arg (codes "0")))
      (atoi arg) lows

atoi-digit :
    (d : ℕ) (s : List ℕ)
    → is_digit d ≡ true
    → (n : ℕ) → (read_digits 0 (d ∷ s)).0 ≡ n
    → n < 2 ^ 31
    → atoi (d ∷ s) ≡ pos n
unfolding atoi
atoi-digit d s h n e l = ground (arith, h, e, to_i32_of_small (pos n))

-- atoi reads a printed number that an int can hold.
pub atoi-decimal : (n : ℕ) → n < 2 ^ 31 → atoi (decimal n) ≡ pos n
atoi-decimal n l =
    let (d, ds, same, digit) = decimal-cons n in
    rw same (atoi-digit d ds digit n (ap (λ s. (read_digits 0 s).0) (sym same) ∙ value n) l)
  where
    value : (n : ℕ) → (read_digits 0 (decimal n)).0 ≡ n
    value n =
        ap (λ s. (read_digits 0 s).0) (sym (append-nil (decimal n)))
        ∙ ap (λ r. r.0) (read_digits-decimal n [] tt)

pub zero_text : (n : ℕ) → (is_zero (pos n) && not (eq_bytes (decimal n) (codes "0"))) ≡ false
unfolding decimal
zero_text zero = refl
zero_text (suc n) = ground arith

-- The number of a shared file that exists, printed, is accepted by cmd_send.
pub wanted_pack-decimal :
    (fnode : List FileNode) (n : ℕ) (f : FileNode)
    → get_elem? fnode n ≡ some f
    → f.exists ≡ true
    → n < 2 ^ 31
    → wanted_pack (negsuc 0) fnode (decimal n) ≡ some (some (pos n))
unfolding wanted_pack
wanted_pack-decimal fnode n f e x l =
    rw (atoi-decimal n l, zero_text n)
      (unfold checked_pack in ground (arith, e, x, get_elem?-lt fnode n f e))
