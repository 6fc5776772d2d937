-- ===== src/Wg/Dump/Printed.antt =====
-- internal/wg/dump.go: the dumps that `wg show` prints, read back.
use wgroster.Prelude.{
  ℕ, zero, suc, ◌+◌, ◌-◌, ◌*◌, ◌/◌, ◌%◌, ◌^◌, ◌<◌, ◌≤◌, ◌≡◌, refl, sym, ap, ◌∙◌, inl, inr, true,
  false, some, [], ◌∷◌, ◌++◌, Text, ltb, arith, Bool-cases,
}
use mathlib.Core.List.{append_assoc, append-nil}
use wgroster.Strings.{
  fields_from, is_space, digits_from, digits, signed, is_digit, parse_int, Number, positive, parsed,
  in_int64,
}
use wgroster.Wg.Config.{decimal, decimal_from}

-- A field of a dump: not empty, and without spaces.
abbrev pub NoSpace : Text → Type 0
NoSpace [] = Unit
NoSpace (c ∷ cs) = (is_space c ≡ false) × NoSpace cs

abbrev pub IsField : Text → Type 0
IsField [] = ⊥
IsField (c ∷ cs) = (is_space c ≡ false) × NoSpace cs

fields_from-word :
    (current f rest : Text)
    → NoSpace f
    → fields_from current (f ++ rest) ≡ fields_from (current ++ f) rest
unfolding fields_from
fields_from-word current [] rest h = ap (λ c. fields_from c rest) (sym (append-nil current))
fields_from-word current (c ∷ cs) rest h = rw h.0 (
    fields_from-word (current ++ c ∷ []) cs rest h.1
    ∙ ap (λ t. fields_from t rest) (append_assoc current (c ∷ []) cs))

pub fields_from-tab :
    (f rest : Text) → IsField f → fields_from [] (f ++ 9 ∷ rest) ≡ f ∷ fields_from [] rest
unfolding fields_from is_space
fields_from-tab [] rest h = absurd h
fields_from-tab (c ∷ cs) rest h = fields_from-word [] (c ∷ cs) (9 ∷ rest) (h.0, h.1)

pub fields_from-end : (f : Text) → IsField f → fields_from [] f ≡ f ∷ []
unfolding fields_from
fields_from-end [] h = absurd h
fields_from-end (c ∷ cs) h =
    ap (fields_from []) (sym (append-nil (c ∷ cs))) ∙ fields_from-word [] (c ∷ cs) [] (h.0, h.1)

-- Decimal numbers read back.
digits_from-last :
    (a v : ℕ) (xs : Text) (c : ℕ)
    → digits_from a xs ≡ some v
    → is_digit c ≡ true
    → digits_from a (xs ++ c ∷ []) ≡ some (v * 10 + (c - b'0'))
unfolding digits_from
digits_from-last a v [] c h d = rw d (ground (arith, h))
digits_from-last a v (x ∷ xs) c h d = elim (Bool-cases (is_digit x)) [
  | inl e ↦ rw e (digits_from-last (a * 10 + (x - b'0')) v xs c (rw e at h) d)
  | inr e ↦ absurd (ground (arith, e))
]

tenth_below : (f n : ℕ) → n < suc f → ltb n 10 ≡ false → n / 10 < f
tenth_below f n h e = omega (arith, h, not_small n e)
  where
    not_small : (n : ℕ) → ltb n 10 ≡ false → 10 ≤ n
    not_small n e = ground (arith, e)

digits_from-decimal : (f n : ℕ) → n < f → digits_from 0 (decimal_from f n) ≡ some n
unfolding decimal_from digits_from
digits_from-decimal zero n h = absurd (omega (arith, h))
digits_from-decimal (suc f) n h = elim (Bool-cases (ltb n 10)) [
  | inl e ↦ rw (e, decimal_from) (ground (arith, e))
  | inr e ↦
      rw (e, decimal_from)
        (digits_from-last 0 (n / 10) (decimal_from f (n / 10)) (b'0' + n % 10)
            (digits_from-decimal f (n / 10) (tenth_below f n h e)) (ground arith)
          ∙ ap some (omega arith))
]

-- A decimal number starts with a digit, so it has no sign.
abbrev StartsWithDigit : Text → Type 0
StartsWithDigit [] = ⊥
StartsWithDigit (c ∷ cs) = is_digit c ≡ true

StartsWithDigit-append : (s t : Text) → StartsWithDigit s → StartsWithDigit (s ++ t)
StartsWithDigit-append [] t h = absurd h
StartsWithDigit-append (c ∷ cs) t h = h

decimal_from-StartsWithDigit : (f n : ℕ) → n < f → StartsWithDigit (decimal_from f n)
unfolding decimal_from
decimal_from-StartsWithDigit zero n h = absurd (omega (arith, h))
decimal_from-StartsWithDigit (suc f) n h = elim (Bool-cases (ltb n 10)) [
  | inl e ↦ rw (e, decimal_from) (ground (arith, e))
  | inr e ↦
      rw (e, decimal_from)
        (StartsWithDigit-append (decimal_from f (n / 10)) ((b'0' + n % 10) ∷ [])
          (decimal_from-StartsWithDigit f (n / 10) (tenth_below f n h e)))
]

signed_digits :
    (t : Text) (n : ℕ) → StartsWithDigit t → digits_from 0 t ≡ some n → signed t ≡ some (positive n)
unfolding signed digits
signed_digits [] n h e = absurd h
signed_digits (c ∷ cs) n h e = ground (arith, h, e)

parse_int-signed :
    (t : Text) (n : Number) → signed t ≡ some n → in_int64 n ≡ true → parse_int t ≡ parsed n
unfolding parse_int
parse_int-signed t n e h = rw (e, parse_int) (rw h refl)

pub parse_int-decimal : (n : ℕ) → n < 2 ^ 63 → parse_int (decimal n) ≡ parsed (positive n)
unfolding decimal
parse_int-decimal n h =
    parse_int-signed (decimal_from (suc n) n) (positive n)
      (signed_digits (decimal_from (suc n) n) n
        (decimal_from-StartsWithDigit (suc n) n (omega arith))
        (digits_from-decimal (suc n) n (omega arith)))
      (ground (arith, h))

NoSpace-append : (s t : Text) → NoSpace s → NoSpace t → NoSpace (s ++ t)
NoSpace-append [] t h k = k
NoSpace-append (c ∷ cs) t h k = (h.0, NoSpace-append cs t h.1 k)

decimal_from-NoSpace : (f n : ℕ) → NoSpace (decimal_from f n)
unfolding decimal_from is_space
decimal_from-NoSpace zero n = tt
decimal_from-NoSpace (suc f) n = elim (Bool-cases (ltb n 10)) [
  | inl e ↦ rw (e, decimal_from) (ground (arith, e), tt)
  | inr e ↦
      rw (e, decimal_from)
        (NoSpace-append (decimal_from f (n / 10)) ((b'0' + n % 10) ∷ [])
          (decimal_from-NoSpace f (n / 10)) (ground arith, tt))
]

IsField-of : (t : Text) → StartsWithDigit t → NoSpace t → IsField t
IsField-of [] h k = h
IsField-of (c ∷ cs) h k = k

pub decimal-IsField : (n : ℕ) → IsField (decimal n)
unfolding decimal
decimal-IsField n =
    IsField-of (decimal_from (suc n) n) (decimal_from-StartsWithDigit (suc n) n (omega arith))
      (decimal_from-NoSpace (suc n) n)
