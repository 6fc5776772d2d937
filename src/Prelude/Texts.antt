-- ===== src/Prelude/Texts.antt =====
-- Texts as lists of code points, with a decidable equality that computes.
use Prim.Native.Nat.{ℕ}
use Prim.Native.Char.{code}
use Prim.Native.String.{String}
use mathlib.Core.Path.{◌≡◌, refl}
use mathlib.Core.Logic.{inl, inr}
use mathlib.Core.Bool.{Bool, true, false}
use mathlib.Core.List.{List, [], ◌∷◌}
use native.Mathlib.Omega.{arith}
use wgroster.Prelude.Tests.{◌==◌, if◌then◌else◌, Bool-cases}

abbrev pub Text : Type 0
Text = List ℕ

-- The code points of a literal.
abbrev pub txt : String → Text
txt String.[] = []
txt (String.◌∷◌ c s) = code c ∷ txt s

pub same_codes : Text → Text → Bool
same_codes [] [] = true
same_codes [] (b ∷ bs) = false
same_codes (a ∷ as') [] = false
same_codes (a ∷ as') (b ∷ bs) = if a == b then same_codes as' bs else false

pub same_codes→eq : (s t : Text) → same_codes s t ≡ true → s ≡ t
unfolding same_codes
same_codes→eq [] [] h = refl
same_codes→eq [] (b ∷ bs) h = cc
same_codes→eq (a ∷ as') [] h = cc
same_codes→eq (a ∷ as') (b ∷ bs) h = ground (arith, same_codes→eq as' bs)

same_codes_refl : (s : Text) → same_codes s s ≡ true
unfolding same_codes
same_codes_refl [] = refl
same_codes_refl (a ∷ as') = ground (arith, same_codes_refl as')

pub eq→same_codes : (s t : Text) → same_codes s t ≡ false → ¬ (s ≡ t)
eq→same_codes s t h e = cc (same_codes_refl s)

unfoldable pub text_discrete : Discrete Text
unfolding same_codes Bool-cases
text_discrete s t = elim (Bool-cases (same_codes s t)) [
  | inl e ↦ yes (same_codes→eq s t e)
  | inr e ↦ no (eq→same_codes s t e)
]

abbrev pub text_eq : Text → Text → Bool
text_eq s t = elim (text_discrete s t) [ yes _ ↦ true | no _ ↦ false ]

pub text_eq_refl : (s : Text) → text_eq s s ≡ true
text_eq_refl s = ground arith

pub text_eq→eq : (s t : Text) → text_eq s t ≡ true → s ≡ t
text_eq→eq s t h = ground arith

text_eq_test : text_eq (txt "abc") (txt "abd") ≡ false
unfolding text_discrete
text_eq_test = refl
