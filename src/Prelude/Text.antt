-- ===== src/Prelude/Text.antt =====
-- Texts put together, and numbers in decimal (fmt's %d).
use ragivka.Prelude.Tests.{ltb, if◌then◌else◌}
use ragivka.Prelude.Lists.{get_or}
use Prim.Native.Nat.{ℕ, zero, suc, ◌/◌, ◌%◌}
use Prim.Native.String.{String}
use Prim.Native.Char.{Char}
use mathlib.Core.Path.{◌≡◌, refl, ap}
use mathlib.Core.Logic.{inl, inr}
use mathlib.Core.Bool.{Bool, true, false}
use native.Mathlib.Omega.{arith}
use text.Mathlib.Text.{◌==◌ as str_eq}
use text.Mathlib.TextEquality.{eq_iff}
use ragivka.Prelude.Tests.{Bool-cases}
use mathlib.Core.List.{List, [], ◌∷◌}

abbrev pub append : String → String → String
append String.[] t = t
append (String.◌∷◌ c s) t = String.◌∷◌ c (append s t)

pub append-append : (a b c : String) → append (append a b) c ≡ append a (append b c)
append-append String.[] b c = refl
append-append (String.◌∷◌ h a) b c = ap (String.◌∷◌ h) (append-append a b c)

pub append_empty : (a : String) → append a "" ≡ a
append_empty String.[] = refl
append_empty (String.◌∷◌ h a) = ap (String.◌∷◌ h) (append_empty a)

abbrev has_chars : String → Bool
has_chars String.[] = false
has_chars (String.◌∷◌ c s) = true

pub cons-not_empty : (c : Char) (s : String) → str_eq (String.◌∷◌ c s) "" ≡ false
cons-not_empty c s = elim (Bool-cases (str_eq (String.◌∷◌ c s) "")) [
  | inl e ↦
      let never : true ≡ false = ap has_chars ((eq_iff (String.◌∷◌ c s) "").0 e) in
      absurd (ground arith)
  | inr e ↦ e
]

abbrev pub concat : List String → String
concat [] = ""
concat (s ∷ rest) = append s (concat rest)

abbrev pub joined : String → List String → String
joined separator [] = ""
joined separator (s ∷ []) = s
joined separator (s ∷ t ∷ rest) = append s (append separator (joined separator (t ∷ rest)))

abbrev pub digit : ℕ → String
digit n = get_or ("0" ∷ "1" ∷ "2" ∷ "3" ∷ "4" ∷ "5" ∷ "6" ∷ "7" ∷ "8" ∷ "9" ∷ []) n "0"

-- With n for fuel the digits of n never run out of it.
digits : ℕ → ℕ → String → String
digits zero n later = append (digit n) later
digits (suc fuel) n later =
    let more = digits fuel (n / 10) (append (digit (n % 10)) later) in
    if ltb n 10 then append (digit n) later else more

unfoldable pub decimal : ℕ → String
unfolding digits
decimal n = digits n n ""
